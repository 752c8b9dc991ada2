-- ===== src/Scheduler/Prefills/Fcfs.antt =====
-- `_schedule_prefills` of vllm_blend/vllm/core/scheduler.py serves prompts in the order of the queue.
use cache_blend.Prelude.{
  ℕ, zero, suc, ◌+◌, ◌≡◌, refl, ap, sym, ◌∙◌, Bool, true, Option, none, List, [], ◌∷◌, length, take,
  drop, ok, Result-cases, inl, inr, arith, length-append,
}
use cache_blend.Prelude.Int.{ℤ}
use cache_blend.Sequence.Group.{SequenceGroup}
use cache_blend.Interfaces.{BlockSpaceManager}
use cache_blend.Scheduler.{Scheduler, allocate_and_set_running, group_lora_int_id}
use cache_blend.Scheduler.Budget.{SchedulingBudget}
use cache_blend.Scheduler.Swapped.{extendleft, lora_is_full}
use cache_blend.Scheduler.Prefills.{
  PrefillState, start_prefills, ignore_group, start_group, prefills_loop, schedule_prefills,
  passed_delay,
}
use cache_blend.Scheduler.Prefills.Invariant.{prefills_loop-Invariant}
use cache_blend.Scheduler.Requests.{occurs}
use cache_blend.Scheduler.Requests.Prefills.{prefill_total, occurs-schedule_prefills}

drop-nil : (n : ℕ) → drop {A = SequenceGroup} n [] ≡ []
drop-nil zero = refl
drop-nil (suc n) = refl

drop-suc :
    (n : ℕ) (xs : List SequenceGroup) (g : SequenceGroup) (queue : List SequenceGroup)
    → g ∷ queue ≡ drop n xs
    → queue ≡ drop (suc n) xs
drop-suc n [] g queue h = let none_left = drop-nil n in ground arith
drop-suc zero (x ∷ xs) g queue h = ground arith
drop-suc (suc n) (x ∷ xs) g queue h = drop-suc n xs g queue h

occurs-take :
    (i n : ℕ) (xs : List SequenceGroup) → occurs i (take n xs) + occurs i (drop n xs) ≡ occurs i xs
unfolding occurs
occurs-take i zero xs = omega arith
occurs-take i (suc n) [] = omega arith
occurs-take i (suc n) (x ∷ xs) = omega (arith, occurs-take i n xs)

-- How many groups the loop has dealt with.
abbrev pub served : {M : Type 0} → PrefillState M → ℕ
served s = length s.seq_groups + length s.ignored_seq_groups

module _ {M : Type 0} (manager : BlockSpaceManager M) (enable_chunking : Bool) where
  abbrev IsRest : List SequenceGroup → List SequenceGroup → PrefillState M → Type 0
  IsRest all queue s =
      (s.scheduler.max_loras ≡ none) × (s.leftover ≡ []) × (queue ≡ drop (served s) all)

  -- One more group is served.
  next-IsRest :
      (all queue : List SequenceGroup) (s s' : PrefillState M) (g : SequenceGroup)
      → IsRest all (g ∷ queue) s
      → served s' ≡ suc (served s)
      → s'.leftover ≡ s.leftover
      → s'.scheduler.max_loras ≡ s.scheduler.max_loras
      → IsRest all queue s'
  next-IsRest all queue s s' g (off, left, rest) more left' off' = (
    off' ∙ off,
    left' ∙ left,
    drop-suc (served s) all g queue rest ∙ ap (λ n. drop n all) (sym more),
  )

  ignore_group-IsRest :
      (all queue : List SequenceGroup) (s : PrefillState M) (g : SequenceGroup)
      → IsRest all (g ∷ queue) s
      → IsRest all queue (ignore_group s g)
  unfolding ignore_group
  ignore_group-IsRest all queue s g c =
      next-IsRest all queue s (ignore_group s g) g c
        (omega (arith, length-append s.ignored_seq_groups)) refl refl

  leftover-IsRest :
      (all queue : List SequenceGroup) (s : PrefillState M) (g : SequenceGroup)
      → lora_is_full s.scheduler.max_loras s.curr_loras (group_lora_int_id g) ≡ ok true
      → IsRest all (g ∷ queue) s
      → IsRest all queue (record s { leftover = g ∷ s.leftover })
  unfolding lora_is_full
  leftover-IsRest all queue s g full (off, left, rest) = ground (arith, off)

  start_group-IsRest :
      (all queue : List SequenceGroup) (s : PrefillState M) (g : SequenceGroup) (tokens seqs : ℤ)
      (s' : PrefillState M)
      → IsRest all (g ∷ queue) s
      → start_group manager enable_chunking s g tokens seqs ≡ ok s'
      → IsRest all queue s'
  unfolding start_group
  start_group-IsRest all queue s g tokens seqs s' c h =
      elim (Result-cases (allocate_and_set_running manager s.scheduler.block_manager g)) [
        | inl e ↦ ground (arith, e.1)
        | inr ((g', m), e) ↦
            let longer =
              length-append s.seq_groups
                (record { seq_group = g'; token_chunk_size = tokens } ∷ []) in
            next-IsRest all queue s s' g c (ground (arith, h, e, longer)) (ground (arith, h, e))
              (ground (arith, h, e))
      ]

  -- Without LoRA, the prompts that `_schedule_prefills` takes from the queue, scheduled or ignored, are
  -- those at its front, each as often as it stands there, and the rest of the queue stays as it is.
  pub schedule_prefills-Fcfs :
      (i : ℕ) (clock : ℕ → ℤ) (scheduler : Scheduler M) (budget : SchedulingBudget)
      (curr_loras : Option (List ℕ)) (queue' : List SequenceGroup) (s' : PrefillState M)
      → scheduler.max_loras ≡ none
      → schedule_prefills manager enable_chunking clock scheduler budget curr_loras
        ≡ ok (queue', s')
      → (queue' ≡ drop (served s') scheduler.waiting)
        × (prefill_total i s' ≡ occurs i (take (served s') scheduler.waiting))
  unfolding schedule_prefills start_prefills extendleft passed_delay
  schedule_prefills-Fcfs i clock scheduler budget curr_loras queue' s' off h =
      let (total, same) =
        occurs-schedule_prefills manager enable_chunking i clock scheduler budget curr_loras queue'
          s' h in
      let all = scheduler.waiting in
      let start : PrefillState M = start_prefills budget curr_loras scheduler in
      let rest : queue' ≡ drop (served s') all =
        elim (Result-cases (prefills_loop manager enable_chunking clock 0 all start)) [
          | inl e ↦ ground (arith, h, e.1)
          | inr ((q, s), e) ↦
              let c =
                prefills_loop-Invariant manager enable_chunking (IsRest all) (λ q s now c. c)
                  (λ q s g c. ignore_group-IsRest all q s g c)
                  (λ q s g full c. leftover-IsRest all q s g full c)
                  (λ q s g tokens seqs s1 c b k n. start_group-IsRest all q s g tokens seqs s1 c k)
                  clock 0 all start q s (off, refl, refl) e in
              ground (arith, h, e, c.1, c.2)
        ] in
      let split = occurs-take i (served s') all in
      let moved = ap (occurs i) rest in (rest, omega (arith, total, split, moved))
