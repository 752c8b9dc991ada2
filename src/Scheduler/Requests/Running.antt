-- ===== src/Scheduler/Requests/Running.antt =====
-- `_schedule_running` of vllm_blend/vllm/core/scheduler.py loses and doubles no request.
use cache_blend.Prelude.{
  ℕ, ◌+◌, ◌≡◌, Bool, Option, List, [], ◌∷◌, ok, Result-cases, inl, inr, arith,
}
use cache_blend.Prelude.Int.{ℤ, pos}
use cache_blend.Sequence.Group.{SequenceGroup}
use cache_blend.Interfaces.{BlockSpaceManager}
use cache_blend.Scheduler.{swap, recompute, preempt}
use cache_blend.Scheduler.Budget.{SchedulingBudget}
use cache_blend.Scheduler.Running.{
  RunningState, start_running, but_last, preempt_into, give_back, run_group, schedule_running,
}
use cache_blend.Scheduler.Running.Invariant.{schedule_running-Invariant}
use cache_blend.Scheduler.Rounds.{groups_of}
use cache_blend.Scheduler.Requests.{
  hit, occurs, occurs-cons, occurs-nil, occurs-append, groups_of-append, occurs-sort_by_priority,
  occurs-but_last, request_id-preempt,
}

-- How often a request stands in the outputs of the loop.
unfoldable pub running_total : {M : Type 0} → ℕ → RunningState M → ℕ
running_total i s =
    occurs i (groups_of s.decode_seq_groups)
    + occurs i (groups_of s.prefill_seq_groups)
    + occurs i s.preempted
    + occurs i s.swapped_out

module _ {M : Type 0} (manager : BlockSpaceManager M) (lookahead : ℕ) (enable_chunking : Bool)
    (i : ℕ) where
  total-start_running :
      (budget : SchedulingBudget) (curr_loras : Option (List ℕ)) (m : M)
      → running_total i (start_running budget curr_loras m) ≡ 0
  unfolding running_total start_running
  total-start_running budget curr_loras m = omega (arith, occurs-nil i)

  total-preempt_into :
      (s : RunningState M) (victim : SequenceGroup) {s' : RunningState M}
      → preempt_into manager lookahead enable_chunking s victim ≡ ok s'
      → running_total i s' ≡ running_total i s + hit i victim
  unfolding preempt_into running_total
  total-preempt_into s victim h =
      elim (Result-cases (preempt manager s.block_manager victim s.blocks_to_swap_out)) [
        | inl e ↦ ground (arith, e.1)
        | inr ((recompute, g, blocks, m), e) ↦
            let e1 = request_id-preempt manager s.block_manager victim s.blocks_to_swap_out e in
            ground
              (arith, e, e1, occurs-append i s.preempted (g ∷ []), occurs-cons i g [], occurs-nil i)
        | inr ((swap, g, blocks, m), e) ↦
            let e1 = request_id-preempt manager s.block_manager victim s.blocks_to_swap_out e in
            ground (
              arith,
              e,
              e1,
              occurs-append i s.swapped_out (g ∷ []),
              occurs-cons i g [],
              occurs-nil i,
            )
      ]

  total-give_back :
      (s : RunningState M) (g : SequenceGroup) (n : ℤ) {s' : RunningState M}
      → give_back manager lookahead enable_chunking s g n ≡ ok s'
      → running_total i s' ≡ running_total i s
  unfolding give_back running_total
  total-give_back s g n h = ground arith

  total-run_group :
      (s : RunningState M) (g : SequenceGroup) (n : ℤ) {s' : RunningState M}
      → run_group manager lookahead enable_chunking s g n ≡ ok s'
      → running_total i s' ≡ running_total i s + hit i g
  unfolding run_group running_total
  total-run_group s g n h =
      let one = occurs-cons i g [] in
      let p =
        groups_of-append s.prefill_seq_groups
          (record { seq_group = g; token_chunk_size = n } ∷ []) in
      let p' = occurs-append i (groups_of s.prefill_seq_groups) (g ∷ []) in
      let d =
        groups_of-append s.decode_seq_groups
          (record { seq_group = g; token_chunk_size = pos 1 } ∷ []) in
      let d' = occurs-append i (groups_of s.decode_seq_groups) (g ∷ []) in
      ground (arith, one, occurs-nil i, p, p', d, d')

  -- What stands in the queue and in the outputs of `_schedule_running`'s loop.
  abbrev IsCount : ℕ → List SequenceGroup → RunningState M → Type 0
  IsCount n queue s = occurs i queue + running_total i s ≡ n

  -- Each group of the running queue comes out exactly once: it decodes, goes on with its prompt, is
  -- preempted or is swapped out; and the queue is empty.
  pub occurs-schedule_running :
      (now : ℤ) (queue : List SequenceGroup) (budget : SchedulingBudget)
      (curr_loras : Option (List ℕ)) (m : M) (queue' : List SequenceGroup) (s' : RunningState M)
      → schedule_running manager lookahead enable_chunking now queue budget curr_loras m
        ≡ ok (queue', s')
      → (queue' ≡ []) × (running_total i s' ≡ occurs i queue)
  occurs-schedule_running now queue budget curr_loras m queue' s' h =
      let sorted = occurs-sort_by_priority i now queue in
      let start = total-start_running budget curr_loras m in
      let (empty, total) =
        schedule_running-Invariant manager lookahead enable_chunking (IsCount (occurs i queue))
          (λ q s g n s1 c e. ground (arith, c, total-give_back s g n e, occurs-cons i g q))
          (λ q s g n s1 c e. ground (arith, c, total-run_group s g n e, occurs-cons i g q))
          (λ q s g v s1 c l e. ground (
            arith,
            c,
            total-preempt_into s v e,
            occurs-cons i g q,
            occurs-cons i g (but_last q),
            occurs-but_last i q v l,
          ))
          (λ q s g s1 c e. ground (arith, c, total-preempt_into s g e, occurs-cons i g q)) now queue
          budget curr_loras m queue' s' (omega (arith, sorted, start)) h in
      (empty, omega (arith, total, occurs-nil i))
