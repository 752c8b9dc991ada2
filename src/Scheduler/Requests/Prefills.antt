-- ===== src/Scheduler/Requests/Prefills.antt =====
-- `_schedule_prefills` of vllm_blend/vllm/core/scheduler.py loses and doubles no request.
use cache_blend.Prelude.{
  ℕ, ◌+◌, ◌≡◌, refl, ◌∙◌, Bool, Option, List, [], ◌∷◌, ok, Result-cases, inl, inr, arith,
}
use cache_blend.Prelude.Int.{ℤ}
use cache_blend.Sequence.{SequenceStatus}
use cache_blend.Sequence.Group.{SequenceGroup}
use cache_blend.Interfaces.{BlockSpaceManager}
use cache_blend.Scheduler.{Scheduler, allocate_and_set_running, set_status, update_seqs}
use cache_blend.Scheduler.Budget.{SchedulingBudget}
use cache_blend.Scheduler.Prefills.{
  PrefillState, start_prefills, ignore_group, start_group, passed_delay, prefills_loop,
  schedule_prefills,
}
use cache_blend.Scheduler.Prefills.Invariant.{tested, prefills_loop-Invariant}
use cache_blend.Scheduler.Rounds.{groups_of}
use cache_blend.Scheduler.Requests.{
  hit, occurs, occurs-cons, occurs-nil, occurs-append, groups_of-append, occurs-extendleft,
  request_id-allocate_and_set_running,
}

-- How often a request stands in the outputs of the loop.
unfoldable pub prefill_total : {M : Type 0} → ℕ → PrefillState M → ℕ
prefill_total i s = occurs i (groups_of s.seq_groups) + occurs i s.ignored_seq_groups

-- The queues that the loop leaves alone.
unfoldable pub SameQueues : {M : Type 0} → Scheduler M → Scheduler M → Type 0
SameQueues s s' =
    (s'.running ≡ s.running)
    × (s'.swapped ≡ s.swapped)
    × (s'.scheduler_config ≡ s.scheduler_config)
    × (s'.max_loras ≡ s.max_loras)

module _ {M : Type 0} (manager : BlockSpaceManager M) (enable_chunking : Bool) (i : ℕ) where
  total-start_group :
      (s : PrefillState M) (g : SequenceGroup) (tokens seqs : ℤ) {s' : PrefillState M}
      → start_group manager enable_chunking s g tokens seqs ≡ ok s'
      → (prefill_total i s' ≡ prefill_total i s + hit i g)
        × (s'.leftover ≡ s.leftover)
        × SameQueues s.scheduler s'.scheduler
  unfolding start_group prefill_total SameQueues
  total-start_group s g tokens seqs h =
      elim (Result-cases (allocate_and_set_running manager s.scheduler.block_manager g)) [
        | inl e ↦ ground (arith, e.1)
        | inr ((g', m), e) ↦
            let same = request_id-allocate_and_set_running manager s.scheduler.block_manager g e in
            let one = occurs-cons i g' [] in
            let p =
              groups_of-append s.seq_groups
                (record { seq_group = g'; token_chunk_size = tokens } ∷ []) in
            let p' = occurs-append i (groups_of s.seq_groups) (g' ∷ []) in
            ground (arith, e, same, one, occurs-nil i, p, p')
      ]

  total-ignore_group :
      (s : PrefillState M) (g : SequenceGroup)
      → prefill_total i (ignore_group s g) ≡ prefill_total i s + hit i g
  unfolding ignore_group prefill_total set_status update_seqs
  total-ignore_group s g =
      let g' = set_status SequenceStatus.waiting SequenceStatus.finished_ignored g in
      omega
        (arith, occurs-append i s.ignored_seq_groups (g' ∷ []), occurs-cons i g' [], occurs-nil i)

  SameQueues-passed_delay :
      (s s' : Scheduler M) (now : ℤ) → SameQueues s s' → SameQueues s ((passed_delay s' now).1)
  unfolding SameQueues passed_delay
  SameQueues-passed_delay s s' now same = same

  SameQueues-trans :
      (s s' s'' : Scheduler M) → SameQueues s s' → SameQueues s' s'' → SameQueues s s''
  unfolding SameQueues
  SameQueues-trans s s' s'' h k = (k.0 ∙ h.0, k.1 ∙ h.1, k.2 ∙ h.2, k.3 ∙ h.3)

  abbrev IsCount : Scheduler M → ℕ → List SequenceGroup → PrefillState M → Type 0
  IsCount scheduler n queue s =
      (occurs i queue + occurs i s.leftover + prefill_total i s ≡ n)
      × SameQueues scheduler s.scheduler

  total-start_prefills :
      (budget : SchedulingBudget) (curr_loras : Option (List ℕ)) (s : Scheduler M)
      → (occurs i ((start_prefills budget curr_loras s).leftover)
            + prefill_total i (start_prefills budget curr_loras s)
          ≡ 0)
        × SameQueues s ((start_prefills budget curr_loras s).scheduler)
  unfolding prefill_total start_prefills SameQueues
  total-start_prefills budget curr_loras s = (omega (arith, occurs-nil i), (refl, refl, refl, refl))

  total-leftover :
      (s : PrefillState M) (g : SequenceGroup)
      → prefill_total i (record s { leftover = g ∷ s.leftover }) ≡ prefill_total i s
  unfolding prefill_total
  total-leftover s g = refl

  total-tested : (s : PrefillState M) (now : ℤ) → prefill_total i (tested s now) ≡ prefill_total i s
  unfolding prefill_total
  total-tested s now = refl

  loop-IsCount :
      (clock : ℕ → ℤ) (queue : List SequenceGroup) (scheduler : Scheduler M) (n : ℕ)
      (s : PrefillState M) (queue' : List SequenceGroup) (s' : PrefillState M)
      → IsCount scheduler n queue s
      → prefills_loop manager enable_chunking clock 0 queue s ≡ ok (queue', s')
      → IsCount scheduler n queue' s'
  unfolding ignore_group
  loop-IsCount clock queue scheduler n s queue' s' c h =
      prefills_loop-Invariant manager enable_chunking (IsCount scheduler n)
        (λ q s now (c, same). (
          omega (arith, c, total-tested s now),
          SameQueues-passed_delay scheduler s.scheduler now same,
        ))
        (λ q s g (c, same). (omega (arith, c, total-ignore_group s g, occurs-cons i g q), same))
        (λ q s g full (c, same). (
          omega (arith, c, total-leftover s g, occurs-cons i g q, occurs-cons i g s.leftover),
          same,
        ))
        (λ q s g tokens seqs s1 (c, same) b e n'.
          let (t, l, kept) = total-start_group s g tokens seqs e in
          (
            ground (arith, c, t, l, occurs-cons i g q),
            SameQueues-trans scheduler s.scheduler s1.scheduler same kept,
          ))
        clock 0 queue s queue' s' c h

  -- Each waiting group either stays in the queue or comes out once, scheduled or ignored; the other two
  -- queues and the configuration stay as they were.
  pub occurs-schedule_prefills :
      (clock : ℕ → ℤ) (scheduler : Scheduler M) (budget : SchedulingBudget)
      (curr_loras : Option (List ℕ)) (queue' : List SequenceGroup) (s' : PrefillState M)
      → schedule_prefills manager enable_chunking clock scheduler budget curr_loras
        ≡ ok (queue', s')
      → (occurs i queue' + prefill_total i s' ≡ occurs i scheduler.waiting)
        × SameQueues scheduler s'.scheduler
  unfolding schedule_prefills prefill_total SameQueues
  occurs-schedule_prefills clock scheduler budget curr_loras queue' s' h =
      elim (Result-cases (
        prefills_loop manager enable_chunking clock 0 scheduler.waiting
          (start_prefills budget curr_loras scheduler))) [
            | inl e ↦ ground (arith, h, e.1)
            | inr ((q, s), e) ↦
                let (start, idle) = total-start_prefills budget curr_loras scheduler in
                let (total, same) =
                  loop-IsCount clock scheduler.waiting scheduler (occurs i scheduler.waiting)
                    (start_prefills budget curr_loras scheduler) q s (omega (arith, start), idle)
                    e in
                let left = occurs-extendleft i q s.leftover in
                ground (arith, h, e, total, left, same.0, same.1, same.2, same.3)
          ]
