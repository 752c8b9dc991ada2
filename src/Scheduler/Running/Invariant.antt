-- ===== src/Scheduler/Running/Invariant.antt =====
-- The rule for invariants of `_schedule_running`'s loops: what each of their steps keeps, they keep.
use cache_blend.Prelude.{
  ℕ, zero, suc, ◌≡◌, Bool, true, false, Option, some, List, [], ◌∷◌, length, last?, Result, ok,
  raise, ◌>>=◌, ◌>>◌, assert, Result-cases, Option-cases, Bool-cases, inl, inr, ◌==◌, arith,
}
use cache_blend.Prelude.Int.{ℤ, pos}
use cache_blend.Prelude.Dict.{int_beq}
use cache_blend.Sequence.{SequenceStatus}
use cache_blend.Sequence.Group.{SequenceGroup}
use cache_blend.Interfaces.{BlockSpaceManager}
use cache_blend.Policy.{sort_by_priority}
use cache_blend.Scheduler.{new_tokens_of}
use cache_blend.Scheduler.Budget.{SchedulingBudget, remaining_token_budget}
use cache_blend.Scheduler.Running.{
  RunningState, start_running, but_last, preempt_into, give_back, run_group, make_room,
  running_loop, schedule_running,
}

-- The last assertion of `_schedule_running`.
abbrev assert_served : {A : Type 0} → List SequenceGroup × A → Result (List SequenceGroup × A)
assert_served (queue, a) = do assert (length queue == 0); ok (queue, a)

returns_empty :
    {A : Type 0} (r : Result (List SequenceGroup × A)) (queue : List SequenceGroup) (a : A)
    → (r >>= assert_served) ≡ ok (queue, a)
    → (r ≡ ok ([], a)) × (queue ≡ [])
returns_empty (raise error) queue a h = cc
returns_empty (ok ([], x)) queue a h = ground arith
returns_empty (ok (g ∷ q, x)) queue a h = ground arith

-- The group that is served stands at the front of the queue until it runs or is preempted.
module _ {M : Type 0} (manager : BlockSpaceManager M) (lookahead : ℕ) (enable_chunking : Bool)
    (Inv : List SequenceGroup → RunningState M → Type 0)
    (keeps_give_back : (queue : List SequenceGroup) (s : RunningState M) (g : SequenceGroup) (n : ℤ)
        (s' : RunningState M)
      → Inv (g ∷ queue) s
      → give_back manager lookahead enable_chunking s g n ≡ ok s'
      → Inv (g ∷ queue) s')
    (keeps_run : (queue : List SequenceGroup) (s : RunningState M) (g : SequenceGroup) (n : ℤ)
        (s' : RunningState M)
      → Inv (g ∷ queue) s
      → run_group manager lookahead enable_chunking s g n ≡ ok s'
      → Inv queue s')
    (keeps_victim : (queue : List SequenceGroup) (s : RunningState M) (g victim : SequenceGroup)
        (s' : RunningState M)
      → Inv (g ∷ queue) s
      → last? queue ≡ some victim
      → preempt_into manager lookahead enable_chunking s victim ≡ ok s'
      → Inv (g ∷ but_last queue) s')
    (keeps_self : (queue : List SequenceGroup) (s : RunningState M) (g : SequenceGroup)
        (s' : RunningState M)
      → Inv (g ∷ queue) s
      → preempt_into manager lookahead enable_chunking s g ≡ ok s'
      → Inv queue s') where
  make_room-Invariant :
      (fuel : ℕ) (queue : List SequenceGroup) (s : RunningState M) (g : SequenceGroup) (n : ℤ)
      (queue' : List SequenceGroup) (s' : RunningState M)
      → Inv (g ∷ queue) s
      → make_room manager lookahead enable_chunking fuel queue s g n ≡ ok (queue', s')
      → Inv queue' s'
  unfolding make_room
  make_room-Invariant zero queue s g n queue' s' inv h = cc
  make_room-Invariant (suc fuel) queue s g n queue' s' inv h =
      elim (Result-cases (manager.can_append_slots s.block_manager g lookahead)) [
        | inl e ↦ ground (arith, e.1)
        | inr (true, e) ↦ elim (Result-cases (run_group manager lookahead enable_chunking s g n)) [
          | inl e1 ↦ ground (arith, e, e1.1)
          | inr (s1, e1) ↦ let i1 = keeps_run queue s g n s1 inv e1 in grind (arith, h, e, e1, i1)
        ]
        | inr (false, e) ↦ elim (Result-cases (give_back manager lookahead enable_chunking s g n)) [
          | inl e1 ↦ ground (arith, e, e1.1)
          | inr (s1, e1) ↦
              let i1 = keeps_give_back queue s g n s1 inv e1 in
              elim (Option-cases (last? queue)) [
                | inl l ↦
                    elim (Result-cases (preempt_into manager lookahead enable_chunking s1 g)) [
                      | inl e2 ↦ ground (arith, e, e1, l, e2.1)
                      | inr (s2, e2) ↦
                          let i2 = keeps_self queue s1 g s2 i1 e2 in
                          grind (arith, h, e, e1, l, e2, i2)
                    ]
                | inr (victim, l) ↦
                    elim (Result-cases (preempt_into manager lookahead enable_chunking s1 victim)) [
                      | inl e2 ↦ ground (arith, e, e1, l, e2.1)
                      | inr (s2, e2) ↦
                          make_room-Invariant fuel (but_last queue) s2 g n queue' s'
                            (keeps_victim queue s1 g victim s2 i1 l e2)
                            (ground (arith, h, e, e1, l, e2))
                    ]
              ]
        ]
      ]

  running_loop-Invariant :
      (fuel : ℕ) (queue : List SequenceGroup) (s : RunningState M) (queue' : List SequenceGroup)
      (s' : RunningState M)
      → Inv queue s
      → running_loop manager lookahead enable_chunking fuel queue s ≡ ok (queue', s')
      → Inv queue' s'
  unfolding running_loop
  running_loop-Invariant fuel [] s queue' s' inv h = grind (arith, h, inv)
  running_loop-Invariant zero (g ∷ queue) s queue' s' inv h = cc
  running_loop-Invariant (suc fuel) (g ∷ queue) s queue' s' inv h =
      let n =
        new_tokens_of g SequenceStatus.running enable_chunking (remaining_token_budget s.budget) in
      elim (Bool-cases (int_beq n (pos 0))) [
        | inl z ↦ ground (arith, z, h)
        | inr z ↦
            elim (Result-cases
              (make_room manager lookahead enable_chunking (suc (length queue)) queue s g n)) [
                | inl e ↦ ground (arith, h, z, e.1)
                | inr ((queue1, s1), e) ↦
                    running_loop-Invariant fuel queue1 s1 queue' s'
                      (make_room-Invariant (suc (length queue)) queue s g n queue1 s1 inv e)
                      (ground (arith, h, z, e))
              ]
      ]

  pub schedule_running-Invariant :
      (now : ℤ) (queue : List SequenceGroup) (budget : SchedulingBudget)
      (curr_loras : Option (List ℕ)) (m : M) (queue' : List SequenceGroup) (s' : RunningState M)
      → Inv (sort_by_priority now queue) (start_running budget curr_loras m)
      → schedule_running manager lookahead enable_chunking now queue budget curr_loras m
        ≡ ok (queue', s')
      → (queue' ≡ []) × Inv [] s'
  unfolding schedule_running
  schedule_running-Invariant now queue budget curr_loras m queue' s' inv h =
      let (e, empty) =
        returns_empty
          (running_loop manager lookahead enable_chunking (length (sort_by_priority now queue))
            (sort_by_priority now queue) (start_running budget curr_loras m))
          queue' s' h in
      (
        empty,
        running_loop-Invariant (length (sort_by_priority now queue)) (sort_by_priority now queue)
            (start_running budget curr_loras m) [] s' inv e,
      )
