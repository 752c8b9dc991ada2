-- ===== src/Scheduler/Prefills/Limits.antt =====
-- What the prompts that vllm_blend/vllm/core/scheduler.py takes into a round add to the budget, and that they
-- stay within it.
use cache_blend.Prelude.{
  ℕ, ◌≡◌, refl, sym, Bool, false, Option, List, [], ◌∷◌, ◌++◌, ok, Result-cases, inl, inr, arith,
}
use cache_blend.Prelude.Int.{ℤ, pos}
use cache_blend.Sequence.Group.{SequenceGroup, get_max_num_running_seqs}
use cache_blend.Interfaces.{BlockSpaceManager}
use cache_blend.Scheduler.{Scheduler, ScheduledSequenceGroup, allocate_and_set_running, set_status}
use cache_blend.Scheduler.Budget.{SchedulingBudget}
use cache_blend.Scheduler.Budget.Limits.{IsWithin, counted, add-IsWithin}
use cache_blend.Scheduler.Budget.Spent.{
  Spent, AllFresh, tokens_of, seqs_of, tokens_of-snoc, seqs_of-snoc, tail-AllFresh,
  counted-AllFresh, counted-Spent, nothing-Spent, request_id-set_status, get_max-set_status,
  waiting-IsPaused,
}
use cache_blend.Sequence.{SequenceStatus, waiting}
use cache_blend.Scheduler.Swapped.{over_budget}
use cache_blend.Scheduler.Prefills.{
  PrefillState, start_prefills, ignore_group, start_group, prefills_loop, schedule_prefills,
}
use cache_blend.Scheduler.Prefills.Invariant.{prefills_loop-Invariant}

module _ {M : Type 0} (manager : BlockSpaceManager M) (enable_chunking : Bool)
    (budget : SchedulingBudget) where
  -- The prompts taken so far are what was added to `budget`, and those of the queue are not in it.
  record IsPaid (queue : List SequenceGroup) (s : PrefillState M) : Type 0 where
    within : IsWithin s.budget
    fresh : AllFresh s.budget queue
    spent : Spent budget s.budget (tokens_of s.seq_groups) (seqs_of s.seq_groups)

  skip-IsPaid :
      (queue : List SequenceGroup) (s s' : PrefillState M) (g : SequenceGroup)
      → IsPaid (g ∷ queue) s
      → s'.budget ≡ s.budget
      → s'.seq_groups ≡ s.seq_groups
      → IsPaid queue s'
  skip-IsPaid queue s s' g c b e = record {
    within = rw b c.within;
    fresh = rw b (tail-AllFresh s.budget g queue c.fresh);
    spent = rw (b, e) c.spent;
  }

  start_group-IsPaid :
      (queue : List SequenceGroup) (s : PrefillState M) (g : SequenceGroup) (tokens seqs : ℤ)
      {s' : PrefillState M}
      → IsPaid (g ∷ queue) s
      → over_budget s.budget tokens seqs ≡ ok false
      → start_group manager enable_chunking s g tokens seqs ≡ ok s'
      → seqs ≡ pos (get_max_num_running_seqs g)
      → IsPaid queue s'
  unfolding start_group allocate_and_set_running
  start_group-IsPaid queue s g tokens seqs {s'} c b h n =
      elim (Result-cases (manager.allocate s.scheduler.block_manager g)) [
        | inl e ↦ ground (arith, h, e.1)
        | inr (m, e) ↦
            let g' = set_status SequenceStatus.waiting SequenceStatus.running g in
            let item : ScheduledSequenceGroup = record {
              seq_group = g';
              token_chunk_size = tokens;
            } in
            let same : g'.request_id ≡ g.request_id = request_id-set_status waiting g in
            let most = get_max-set_status waiting g waiting-IsPaused in
            let after : s'.budget ≡ counted s.budget g.request_id tokens seqs =
              ground (arith, h, e, same) in
            let groups : s'.seq_groups ≡ s.seq_groups ++ item ∷ [] = ground (arith, h, e) in
            record {
              within = rw after (add-IsWithin s.budget g.request_id tokens seqs c.within b);
              fresh = rw after (counted-AllFresh s.budget g queue tokens seqs c.fresh);
              spent =
                  rw
                    (
                      after,
                      groups,
                      tokens_of-snoc s.seq_groups item,
                      seqs_of-snoc s.seq_groups item,
                      most,
                      sym n,
                    )
                    (counted-Spent budget s.budget g queue (tokens_of s.seq_groups)
                      (seqs_of s.seq_groups) tokens seqs c.fresh c.spent);
            }
      ]

-- From a budget within its limits, and for a queue in which no request stands twice or counts in the budget
-- already, `_schedule_prefills` adds to the budget exactly the tokens and the sequences of the prompts that
-- it schedules, and leaves it within its limits.
pub schedule_prefills-IsWithin :
    {M : Type 0} (manager : BlockSpaceManager M) (enable_chunking : Bool) (clock : ℕ → ℤ)
    (scheduler : Scheduler M) (budget : SchedulingBudget) (curr_loras : Option (List ℕ))
    (queue' : List SequenceGroup) (s' : PrefillState M)
    → IsWithin budget
    → AllFresh budget scheduler.waiting
    → schedule_prefills manager enable_chunking clock scheduler budget curr_loras ≡ ok (queue', s')
    → IsWithin s'.budget × Spent budget s'.budget (tokens_of s'.seq_groups) (seqs_of s'.seq_groups)
unfolding schedule_prefills start_prefills ignore_group
schedule_prefills-IsWithin {M} manager enable_chunking clock scheduler budget curr_loras queue' s' w
      f h =
    let start : PrefillState M = start_prefills budget curr_loras scheduler in
    elim (Result-cases (prefills_loop manager enable_chunking clock 0 scheduler.waiting start)) [
      | inl e ↦ ground (arith, h, e.1)
      | inr ((q, s), e) ↦
          let c =
            prefills_loop-Invariant manager enable_chunking (IsPaid manager enable_chunking budget)
              (λ q s now c. record { within = c.within; fresh = c.fresh; spent = c.spent })
              (λ q s g c.
                skip-IsPaid manager enable_chunking budget q s (ignore_group s g) g c refl refl)
              (λ q s g full c.
                skip-IsPaid manager enable_chunking budget q s
                  (record s { leftover = g ∷ s.leftover }) g c refl refl)
              (λ q s g tokens seqs s1 c b k n.
                start_group-IsPaid manager enable_chunking budget q s g tokens seqs c b k n)
              clock 0 scheduler.waiting start q s
              (record { within = w; fresh = f; spent = nothing-Spent budget }) e in
          let kept : s'.budget ≡ s.budget = ground (arith, h, e) in
          let groups : s'.seq_groups ≡ s.seq_groups = ground (arith, h, e) in
          (rw kept c.within, rw (kept, groups) c.spent)
    ]
