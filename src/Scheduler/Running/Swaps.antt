-- ===== src/Scheduler/Running/Swaps.antt =====
-- The direction in which `_schedule_default` and `_schedule_chunked_prefill` of
-- vllm_blend/vllm/core/scheduler.py swap blocks, and the assertion of `SchedulerOutputs` on it.
use cache_blend.Prelude.{
  ℕ, ◌+◌, ◌≡◌, refl, Bool, ◌&&◌, Option, List, [], ◌∷◌, length, ok, Result-cases, Bool-cases, inl,
  inr, ◌⊎◌, ◌==◌, arith, length-append, ◌<◌, ltb, dedup, some, true, false,
}
use cache_blend.Prelude.Int.{ℤ, pos}
use cache_blend.Prelude.Dict.{Dict}
use cache_blend.Sequence.Group.{SequenceGroup}
use cache_blend.Interfaces.{BlockSpaceManager}
use cache_blend.Scheduler.{Scheduler, swap, recompute, preempt, get_num_lookahead_slots}
use cache_blend.Scheduler.Budget.{SchedulingBudget, new_budget}
use cache_blend.Scheduler.Running.{
  RunningState, start_running, preempt_into, give_back, run_group, schedule_running,
}
use cache_blend.Scheduler.Running.Invariant.{schedule_running-Invariant}
use cache_blend.Scheduler.Swapped.{SwappedState, start_swapped}
use cache_blend.Scheduler.Prefills.{PrefillState, schedule_prefills}
use cache_blend.Scheduler.Rounds.{
  SchedulerOutputs, lora_requests, sort_by_lora_ids, post_init, assert_budget, swapped_part,
  default_prefills, default_running, default_outputs, default_queues, default_budget, start_loras,
  finish_default, schedule_default,
}
use cache_blend.Scheduler.Chunked.{
  chunked_outputs, chunked_queues, finish_chunked, schedule_chunked_prefill,
}

-- Blocks are swapped out only for a group that is listed as swapped out.
abbrev IsListed : {M : Type 0} → List SequenceGroup → RunningState M → Type 0
IsListed queue s = (s.blocks_to_swap_out ≡ []) ⊎ (0 < length s.swapped_out)

module _ {M : Type 0} (manager : BlockSpaceManager M) (lookahead : ℕ) (enable_chunking : Bool) where
  -- A preemption by recomputation swaps no block.
  blocks-preempt :
      (m : M) (g : SequenceGroup) (blocks : Dict ℕ ℕ) (g' : SequenceGroup) (blocks' : Dict ℕ ℕ)
      (m' : M)
      → preempt manager m g blocks ≡ ok (recompute, g', blocks', m')
      → blocks' ≡ blocks
  unfolding preempt
  blocks-preempt m g blocks g' blocks' m' h = ground arith

  preempt_into-IsListed :
      (queue : List SequenceGroup) (s : RunningState M) (g : SequenceGroup) (s' : RunningState M)
      → IsListed queue s
      → preempt_into manager lookahead enable_chunking s g ≡ ok s'
      → IsListed queue s'
  unfolding preempt_into
  preempt_into-IsListed queue s g s' c h =
      elim (Result-cases (preempt manager s.block_manager g s.blocks_to_swap_out)) [
        | inl e ↦ ground (arith, e.1)
        | inr ((recompute, g', blocks, m), e) ↦
            let same = blocks-preempt s.block_manager g s.blocks_to_swap_out g' blocks m e in
            ground (arith, e, same)
        | inr ((swap, g', blocks, m), e) ↦
            let longer = length-append s.swapped_out (g' ∷ []) in ground (arith, e, longer)
      ]

  give_back-IsListed :
      (queue : List SequenceGroup) (s : RunningState M) (g : SequenceGroup) (n : ℤ)
      (s' : RunningState M)
      → IsListed queue s
      → give_back manager lookahead enable_chunking s g n ≡ ok s'
      → IsListed queue s'
  unfolding give_back
  give_back-IsListed queue s g n s' c h = ground arith

  run_group-IsListed :
      (queue : List SequenceGroup) (s : RunningState M) (g : SequenceGroup) (n : ℤ)
      (s' : RunningState M)
      → IsListed queue s
      → run_group manager lookahead enable_chunking s g n ≡ ok s'
      → IsListed queue s'
  unfolding run_group
  run_group-IsListed queue s g n s' c h = ground arith

  schedule_running-IsListed :
      (now : ℤ) (queue : List SequenceGroup) (budget : SchedulingBudget)
      (curr_loras : Option (List ℕ)) (m : M) (queue' : List SequenceGroup) (r : RunningState M)
      → schedule_running manager lookahead enable_chunking now queue budget curr_loras m
        ≡ ok (queue', r)
      → IsListed queue' r
  unfolding start_running
  schedule_running-IsListed now queue budget curr_loras m queue' r h =
      (schedule_running-Invariant manager lookahead enable_chunking IsListed
        (λ q s g n s' c e. give_back-IsListed (g ∷ q) s g n s' c e)
        (λ q s g n s' c e. run_group-IsListed q s g n s' c e)
        (λ q s g v s' c l e. preempt_into-IsListed q s v s' c e)
        (λ q s g s' c e. preempt_into-IsListed q s g s' c e) now queue budget curr_loras m queue' r
        (inl refl) h).1

  -- After the running groups are served, the swapped ones are looked at only if no group was swapped out:
  -- then no block is to be swapped out, and else none is to be swapped in.
  swapped_part-OneWay :
      (later : ℤ) (allowed : Bool) (queue : List SequenceGroup) (s : Scheduler M)
      (r : RunningState M) (queue' : List SequenceGroup) (w : SwappedState M)
      → IsListed queue r
      → swapped_part manager allowed later s r ≡ ok (queue', w)
      → (w.blocks_to_swap_in ≡ []) ⊎ (r.blocks_to_swap_out ≡ [])
  unfolding swapped_part start_swapped
  swapped_part-OneWay later allowed queue s r queue' w listed h =
      elim (Bool-cases (allowed && length r.preempted + length r.swapped_out == 0)) [
        | inl e ↦ ground (arith, listed, e)
        | inr e ↦ ground (arith, listed, e, h)
      ]

default_running-IsListed :
    {M : Type 0} (manager : BlockSpaceManager M) (now : ℤ) (p : PrefillState M)
    (queue' : List SequenceGroup) (r : RunningState M)
    → default_running manager now p ≡ ok (queue', r)
    → IsListed queue' r
unfolding default_running start_running
default_running-IsListed manager now p queue' r h = elim (Bool-cases (length p.seq_groups == 0)) [
  | inl e ↦
      schedule_running-IsListed manager (get_num_lookahead_slots p.scheduler false) false now
        p.scheduler.running p.budget p.curr_loras p.scheduler.block_manager queue' r
        (ground (arith, h, e))
  | inr e ↦ inl (ground (arith, h, e))
]

-- Blocks are swapped in one direction at most.
abbrev pub OneWay : SchedulerOutputs → Type 0
OneWay o = (o.blocks_to_swap_in ≡ []) ⊎ (o.blocks_to_swap_out ≡ [])

post_init-OneWay :
    (o : SchedulerOutputs) → OneWay o → (o' : SchedulerOutputs) × (post_init o ≡ ok o') × OneWay o'
unfolding post_init
post_init-OneWay o way =
    elim (Bool-cases (ltb 0 (length (dedup (lora_requests o.scheduled_seq_groups))))) [
      | inl e ↦ (
        record o { scheduled_seq_groups = sort_by_lora_ids o.scheduled_seq_groups },
        ground (arith, e, way),
        way,
      )
      | inr e ↦ (o, ground (arith, e, way), way)
    ]

module _ {M : Type 0} (manager : BlockSpaceManager M) where
  -- If the running, the swapped and the waiting groups are gone through without an error, in this order, and
  -- the budget ends within its limits, then a chunked round returns: it passes the assertion on its outputs,
  -- since it swaps blocks in one direction at most.
  pub schedule_chunked_prefill-OneWay :
      (clock : ℕ → ℤ) (now later : ℤ) (s : Scheduler M) (running_left : List SequenceGroup)
      (r : RunningState M) (swapped_left : List SequenceGroup) (w : SwappedState M)
      (waiting_left : List SequenceGroup) (p : PrefillState M)
      → schedule_running manager
          (get_num_lookahead_slots s false)
          true
          now
          s.running
          (new_budget
            (pos s.scheduler_config.max_num_batched_tokens)
            (pos s.scheduler_config.max_num_seqs))
          (some [])
          s.block_manager
        ≡ ok (running_left, r)
      → swapped_part manager true later s r ≡ ok (swapped_left, w)
      → schedule_prefills manager true clock
          (record s { block_manager = w.block_manager })
          w.budget
          w.curr_loras
        ≡ ok (waiting_left, p)
      → assert_budget p.budget s.scheduler_config ≡ ok tt
      → (out : SchedulerOutputs) × (schedule_chunked_prefill manager clock now later s
          ≡ ok (out, chunked_queues manager waiting_left p running_left r swapped_left w))
        × OneWay out
  unfolding schedule_chunked_prefill finish_chunked chunked_outputs
  schedule_chunked_prefill-OneWay clock now later s running_left r swapped_left w waiting_left p
        runs swaps prompts within =
      let listed =
        schedule_running-IsListed manager (get_num_lookahead_slots s false) true now s.running
          (new_budget (pos s.scheduler_config.max_num_batched_tokens)
            (pos s.scheduler_config.max_num_seqs))
          (some []) s.block_manager running_left r runs in
      let way =
        swapped_part-OneWay manager 0 true later true running_left s r swapped_left w listed
          swaps in
      let (out, passes, ways) = post_init-OneWay (chunked_outputs manager s p r w) way in
      (out, rw (runs, swaps, prompts, within, passes), ways)

  -- If the waiting, the running and the swapped groups are gone through without an error, in this order, the
  -- budget ends within its limits and no running or swapped group is in its prefill, then a round of the
  -- default policy returns: it passes the assertion on its outputs, since it swaps blocks in one direction
  -- at most.
  pub schedule_default-OneWay :
      (clock : ℕ → ℤ) (now later : ℤ) (s : Scheduler M) (waiting_left : List SequenceGroup)
      (p : PrefillState M) (running_left : List SequenceGroup) (r : RunningState M)
      (swapped_left : List SequenceGroup) (w : SwappedState M)
      → default_prefills manager clock s (default_budget manager s) (start_loras manager s)
        ≡ ok (waiting_left, p)
      → default_running manager now p ≡ ok (running_left, r)
      → swapped_part manager (length p.seq_groups == 0) later p.scheduler r ≡ ok (swapped_left, w)
      → assert_budget w.budget s.scheduler_config ≡ ok tt
      → length r.prefill_seq_groups ≡ 0
      → length w.prefill_seq_groups ≡ 0
      → (out : SchedulerOutputs) × (schedule_default manager clock now later s
          ≡ ok (out, default_queues manager waiting_left p running_left r swapped_left w))
        × OneWay out
  unfolding schedule_default finish_default default_outputs
  schedule_default-OneWay clock now later s waiting_left p running_left r swapped_left w prompts
        runs swaps within none_r none_w =
      let listed = default_running-IsListed manager now p running_left r runs in
      let way =
        swapped_part-OneWay manager 0 true later (length p.seq_groups == 0) running_left p.scheduler
          r swapped_left w listed swaps in
      let (out, passes, ways) = post_init-OneWay (default_outputs manager s p r w) way in
      (out, rw (prompts, runs, swaps, within, none_r, none_w, passes), ways)
