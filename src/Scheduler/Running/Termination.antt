-- ===== src/Scheduler/Running/Termination.antt =====
-- The loops of `_schedule_running` in vllm_blend/vllm/core/scheduler.py end: the fuel of their model, one
-- round for each group of the queue, is never used up.
use cache_blend.Prelude.{
  ℕ, zero, suc, ◌≤◌, ◌<◌, ◌≡◌, ◌≢◌, refl, Bool, true, false, map, Option, some, List, [], ◌∷◌,
  length, last?, ok, raise, Result-cases, Option-cases, Bool-cases, inl, inr, arith, out_of_fuel,
  ends_bind,
}
use cache_blend.Prelude.Int.{ℤ}
use cache_blend.Prelude.Dict.{Dict}
use cache_blend.Sequence.{Sequence, SequenceStatus}
use cache_blend.Sequence.Group.{SequenceGroup, group_is_prefill, get_seqs}
use cache_blend.Utils.{extend_all}
use cache_blend.Interfaces.{BlockSpaceManager}
use cache_blend.Policy.{sort_by_priority}
use cache_blend.Scheduler.{
  new_tokens_of, append_slots, append_slots_of, preempt, preempt_by_recompute, swap_out, free_seqs,
  free_seq, with_status,
}
use cache_blend.Scheduler.Budget.{SchedulingBudget, remaining_token_budget}
use cache_blend.Scheduler.Running.{
  RunningState, start_running, but_last, preempt_into, give_back, run_group, make_room,
  running_loop, schedule_running, remove_lora,
}

-- A block manager whose calls end: none of them is a model that ran out of rounds.
pub record Finishes {M : Type 0} (manager : BlockSpaceManager M) : Type 0 where
  pub can_append_slots :
      (m : M) (g : SequenceGroup) (n : ℕ) → manager.can_append_slots m g n ≢ raise out_of_fuel
  pub append_slots : (m : M) (s : Sequence) (n : ℕ) → manager.append_slots m s n ≢ raise out_of_fuel
  pub can_swap_out : (m : M) (g : SequenceGroup) → manager.can_swap_out m g ≢ raise out_of_fuel
  pub swap_out : (m : M) (g : SequenceGroup) → manager.swap_out m g ≢ raise out_of_fuel
  pub free : (m : M) (s : Sequence) → manager.free m s ≢ raise out_of_fuel

length-but_last :
    (queue : List SequenceGroup) (victim : SequenceGroup)
    → last? queue ≡ some victim
    → suc (length (but_last queue)) ≡ length queue
unfolding but_last
length-but_last [] victim h = cc
length-but_last (g ∷ []) victim h = refl
length-but_last (g ∷ x ∷ gs) victim h = omega (arith, length-but_last (x ∷ gs) victim h)

module _ {M : Type 0} (manager : BlockSpaceManager M) (finishes : Finishes manager) where
  ends-append_slots_of :
      (m : M) (ss : List Sequence) (n : ℕ) (copies : Dict ℕ (List ℕ))
      → append_slots_of manager m ss n copies ≢ raise out_of_fuel
  unfolding append_slots_of
  ends-append_slots_of m [] n copies = λ e. cc
  ends-append_slots_of m (s ∷ ss) n copies =
      ends_bind (manager.append_slots m s n) _ (finishes.append_slots m s n)
        (λ mid e. ends-append_slots_of mid.1 ss n (extend_all copies mid.0))

  ends-free_seqs : (m : M) (ss : List Sequence) → free_seqs manager m ss ≢ raise out_of_fuel
  unfolding free_seqs free_seq
  ends-free_seqs m [] = λ e. cc
  ends-free_seqs m (s ∷ ss) =
      ends_bind (manager.free m s) _ (finishes.free m s) (λ m' e. ends-free_seqs m' ss)

  ends-preempt :
      (m : M) (g : SequenceGroup) (blocks : Dict ℕ ℕ)
      → preempt manager m g blocks ≢ raise out_of_fuel
  unfolding preempt preempt_by_recompute swap_out
  ends-preempt m g blocks = λ h.
      let f =
        ends-free_seqs m
          (map (with_status SequenceStatus.waiting) (get_seqs g (some SequenceStatus.running))) in
      let c = finishes.can_swap_out m g in
      let o = finishes.swap_out m g in ground (arith, h, f, c, o)

  ends-run_group :
      (lookahead : ℕ) (enable_chunking : Bool) (s : RunningState M) (g : SequenceGroup) (n : ℤ)
      → run_group manager lookahead enable_chunking s g n ≢ raise out_of_fuel
  unfolding run_group append_slots group_is_prefill
  ends-run_group lookahead enable_chunking s g n = λ h.
      let a =
        ends-append_slots_of s.block_manager (get_seqs g (some SequenceStatus.running)) lookahead
          s.blocks_to_copy in
      ground (arith, h, a)

  ends-give_back :
      (lookahead : ℕ) (enable_chunking : Bool) (s : RunningState M) (g : SequenceGroup) (n : ℤ)
      → give_back manager lookahead enable_chunking s g n ≢ raise out_of_fuel
  unfolding give_back remove_lora
  ends-give_back lookahead enable_chunking s g n = λ h. ground (arith, h)

  ends-preempt_into :
      (lookahead : ℕ) (enable_chunking : Bool) (s : RunningState M) (g : SequenceGroup)
      → preempt_into manager lookahead enable_chunking s g ≢ raise out_of_fuel
  unfolding preempt_into
  ends-preempt_into lookahead enable_chunking s g =
      λ h. let p = ends-preempt s.block_manager g s.blocks_to_swap_out in ground (arith, h, p)

  module _ (lookahead : ℕ) (enable_chunking : Bool) where
    ends-make_room :
        (fuel : ℕ) (queue : List SequenceGroup) (s : RunningState M) (g : SequenceGroup) (n : ℤ)
        → length queue < fuel
        → make_room manager lookahead enable_chunking fuel queue s g n ≢ raise out_of_fuel
    unfolding make_room
    ends-make_room zero queue s g n short = omega arith
    ends-make_room (suc fuel) queue s g n short =
        ends_bind (manager.can_append_slots s.block_manager g lookahead) _
          (finishes.can_append_slots s.block_manager g lookahead)
          (λ mid _. elim (Bool-cases mid) [
            | inl z ↦ rw z (
                ends_bind (run_group manager lookahead enable_chunking s g n) _
                  (ends-run_group lookahead enable_chunking s g n) (λ s' e. λ h. cc))
            | inr z ↦ rw z (
                ends_bind (give_back manager lookahead enable_chunking s g n) _
                  (ends-give_back lookahead enable_chunking s g n)
                  (λ s' _. elim (Option-cases (last? queue)) [
                    | inl l ↦
                        let p = ends-preempt_into lookahead enable_chunking s' g in
                        λ h. ground (arith, l, h, p)
                    | inr (victim, l) ↦
                        let p = ends-preempt_into lookahead enable_chunking s' victim in
                        let shorter = length-but_last queue victim l in
                        rw l (
                          ends_bind (preempt_into manager lookahead enable_chunking s' victim) _ p
                            (λ s'' _. ends-make_room fuel (but_last queue) s'' g n (omega arith)))
                  ]))
          ])

    -- Each round of the outer loop leaves fewer groups.
    length-make_room :
        (fuel : ℕ) (queue : List SequenceGroup) (s : RunningState M) (g : SequenceGroup) (n : ℤ)
        {out : List SequenceGroup × RunningState M}
        → make_room manager lookahead enable_chunking fuel queue s g n ≡ ok out
        → length out.0 ≤ length queue
    unfolding make_room
    length-make_room zero queue s g n h = cc
    length-make_room (suc fuel) queue s g n {out = out} h =
        elim (Result-cases (manager.can_append_slots s.block_manager g lookahead)) [
          | inl e ↦ ground (arith, e.1)
          | inr (true, e) ↦ ground (arith, h, e)
          | inr (false, e) ↦
              elim (Result-cases (give_back manager lookahead enable_chunking s g n)) [
                | inl e1 ↦ ground (arith, e, e1.1)
                | inr (s1, e1) ↦ elim (Option-cases (last? queue)) [
                  | inl l ↦ ground (arith, h, e, e1, l)
                  | inr (victim, l) ↦
                      elim (Result-cases
                        (preempt_into manager lookahead enable_chunking s1 victim)) [
                          | inl e2 ↦ ground (arith, e, e1, l, e2.1)
                          | inr (s2, e2) ↦
                              let rest =
                                length-make_room fuel (but_last queue) s2 g n {out = out}
                                  (ground (arith, h, e, e1, l, e2)) in
                              let shorter = length-but_last queue victim l in
                              omega (arith, rest, shorter)
                        ]
                ]
              ]
        ]

    ends-running_loop :
        (fuel : ℕ) (queue : List SequenceGroup) (s : RunningState M)
        → length queue ≤ fuel
        → running_loop manager lookahead enable_chunking fuel queue s ≢ raise out_of_fuel
    unfolding running_loop
    ends-running_loop fuel [] s short = λ e. cc
    ends-running_loop zero (g ∷ queue) s short = omega arith
    ends-running_loop (suc fuel) (g ∷ queue) s short = λ h.
        let n =
          new_tokens_of g SequenceStatus.running enable_chunking
            (remaining_token_budget s.budget) in
        let room = ends-make_room (suc (length queue)) queue s g n (omega arith) in
        elim (Result-cases
          (make_room manager lookahead enable_chunking (suc (length queue)) queue s g n)) [
            | inl e ↦ ground (arith, h, room, e.1)
            | inr ((queue', s'), e) ↦
                let shorter = length-make_room (suc (length queue)) queue s g n e in
                let rest = ends-running_loop fuel queue' s' (omega (arith, shorter, short)) in
                ground (arith, h, e, rest)
          ]

-- With a block manager whose calls end, `_schedule_running` ends for every queue: neither of its loops
-- goes round more often than there are groups.
pub schedule_running-Finishes :
    {M : Type 0} (manager : BlockSpaceManager M) (lookahead : ℕ) (enable_chunking : Bool) (now : ℤ)
    (queue : List SequenceGroup) (budget : SchedulingBudget) (curr_loras : Option (List ℕ)) (m : M)
    → Finishes manager
    → schedule_running manager lookahead enable_chunking now queue budget curr_loras m
      ≢ raise out_of_fuel
unfolding schedule_running
schedule_running-Finishes manager lookahead enable_chunking now queue budget curr_loras m finishes =
    let sorted = sort_by_priority now queue in
    ends_bind
      (running_loop manager lookahead enable_chunking (length sorted) sorted
        (start_running budget curr_loras m))
      _
      (ends-running_loop manager finishes lookahead enable_chunking (length sorted) sorted
        (start_running budget curr_loras m) (omega arith))
      (λ mid e. λ h. ground (arith, h))
