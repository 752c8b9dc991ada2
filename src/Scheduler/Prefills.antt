-- ===== src/Scheduler/Prefills.antt =====
-- `_schedule_prefills` and `_passed_delay` of vllm_blend/vllm/core/scheduler.py. `clock` gives the times
-- that the calls of `time.time()` read, one after the other.
pub mod Invariant
pub mod Limits
pub mod Fcfs
use cache_blend.Prelude.{
  ℕ, zero, suc, Bool, true, false, ◌&&◌, ◌||◌, not, Option, none, some, List, [], ◌∷◌, ◌++◌, length,
  ltb, Result, ok, raise, ◌>>=◌, ◌>>◌, assert, or_raise, index_error, if◌then◌else◌, ◌==◌,
  get_elem?,
}
use cache_blend.Prelude.Int.{ℤ, pos, ◌-ℤ◌, ◌*ℤ◌, ltb_ℤ}
use cache_blend.Prelude.Dict.{int_beq}
use cache_blend.Sequence.{SequenceStatus, get_len}
use cache_blend.Sequence.Group.{SequenceGroup, get_seqs, get_max_num_running_seqs}
use cache_blend.ManagerV1.{AllocStatus, fits, later, never}
use cache_blend.Interfaces.{BlockSpaceManager}
use cache_blend.Scheduler.{
  Scheduler, ScheduledSequenceGroup, group_lora_int_id, new_tokens_of, set_status,
  allocate_and_set_running, min_ℤ,
}
use cache_blend.Scheduler.Budget.{
  SchedulingBudget, remaining_token_budget, add_num_batched_tokens, add_num_seqs,
}
use cache_blend.Scheduler.Running.{note_lora}
use cache_blend.Scheduler.Swapped.{lora_is_full, lora_of, extendleft, over_budget}

-- `min([e.metrics.arrival_time for e in queue])`, from the first one on.
unfoldable pub earliest_arrival : ℤ → List SequenceGroup → ℤ
earliest_arrival t [] = t
earliest_arrival t (g ∷ gs) = earliest_arrival (min_ℤ t g.metrics.arrival_time) gs

-- `_passed_delay`.
unfoldable pub passed_delay : {M : Type 0} → Scheduler M → ℤ → Bool × Scheduler M
unfolding earliest_arrival
passed_delay s now =
    let latency = if s.prev_prompt then now -ℤ s.prev_time else s.last_prompt_latency in
    let s' = record s { last_prompt_latency = latency; prev_time = now; prev_prompt = false } in
    (
      elim s.waiting [
        | [] ↦ true
        | g ∷ gs ↦
            if ltb 0 s.scheduler_config.delay_num
            then ltb_ℤ (pos s.scheduler_config.delay_num *ℤ latency) (
                (now -ℤ earliest_arrival g.metrics.arrival_time gs)
                *ℤ pos s.scheduler_config.delay_den)
              || length s.running == 0
            else true
      ],
      s',
    )

-- The variables of the loop: `SchedulerPrefillOutputs`, the groups left over, front first, the budget,
-- the adapters, and the scheduler with its block manager.
pub record PrefillState (M : Type 0) : Type 0 where
  pub seq_groups : List ScheduledSequenceGroup
  pub ignored_seq_groups : List SequenceGroup
  pub leftover : List SequenceGroup
  pub budget : SchedulingBudget
  pub curr_loras : Option (List ℕ)
  pub scheduler : Scheduler M

unfoldable pub start_prefills :
    {M : Type 0} → SchedulingBudget → Option (List ℕ) → Scheduler M → PrefillState M
start_prefills budget curr_loras scheduler = record {
  seq_groups = [];
  ignored_seq_groups = [];
  leftover = [];
  budget = budget;
  curr_loras = curr_loras;
  scheduler = scheduler;
}

-- A prompt that can never run.
unfoldable pub ignore_group : {M : Type 0} → PrefillState M → SequenceGroup → PrefillState M
ignore_group s g = record s {
  ignored_seq_groups =
      s.ignored_seq_groups
      ++ set_status SequenceStatus.waiting SequenceStatus.finished_ignored g ∷ [];
}

module _ {M : Type 0} (manager : BlockSpaceManager M) (enable_chunking : Bool) where
  -- The group is allocated and runs.
  unfoldable pub start_group : PrefillState M → SequenceGroup → ℤ → ℤ → Result (PrefillState M)
  unfolding allocate_and_set_running note_lora
  start_group s seq_group num_new_tokens num_new_seqs = do
    (g, m) ← allocate_and_set_running manager s.scheduler.block_manager seq_group
    ok (record s {
      curr_loras = note_lora (lora_of s.scheduler.max_loras seq_group) s.curr_loras;
      scheduler = record s.scheduler { block_manager = m };
      seq_groups = s.seq_groups ++ record { seq_group = g; token_chunk_size = num_new_tokens } ∷ [];
      budget =
          add_num_seqs (add_num_batched_tokens s.budget g.request_id num_new_tokens) g.request_id
            num_new_seqs;
    })

  -- The head of the loop's body: the number of new tokens, and the assertions on it.
  unfoldable pub prompt_tokens : PrefillState M → SequenceGroup → Result ℤ
  prompt_tokens s g = do
    let waiting_seqs = get_seqs g (some SequenceStatus.waiting)
    assert (length waiting_seqs == 1)
    let num_new_tokens =
        new_tokens_of g SequenceStatus.waiting enable_chunking (remaining_token_budget s.budget)
    first ← or_raise (get_elem? waiting_seqs 0) index_error
    assert (enable_chunking || int_beq num_new_tokens (pos (get_len first)))
    ok num_new_tokens

  -- The loop, from the `k`-th reading of the clock on: the groups that are left, and the state.
  unfoldable pub prefills_loop :
      (ℕ → ℤ)
      → ℕ
      → List SequenceGroup
      → PrefillState M
      → Result (List SequenceGroup × PrefillState M)
  unfolding start_group prompt_tokens ignore_group lora_is_full over_budget passed_delay
  prefills_loop clock k [] s =
      ok ([], record s { scheduler = (passed_delay s.scheduler (clock k)).1 })
  prefills_loop clock k (g ∷ queue) s0 = do
    let (passed, scheduler) = passed_delay s0.scheduler (clock k)
    let s = record s0 { scheduler = scheduler }
    elim passed [
      | false ↦ ok (g ∷ queue, s)
      | true ↦ do
        num_new_tokens ← prompt_tokens s g
        elim (ltb_ℤ (pos scheduler.prompt_limit) num_new_tokens) [
          | true ↦ prefills_loop clock (suc k) queue (ignore_group s g)
          | false ↦ do
            can ← manager.can_allocate scheduler.block_manager g
            elim can [
              | later ↦ ok (g ∷ queue, s)
              | never ↦ prefills_loop clock (suc k) queue (ignore_group s g)
              | fits ↦ do
                full ← lora_is_full scheduler.max_loras s.curr_loras (group_lora_int_id g)
                elim full [
                  | true ↦
                      prefills_loop clock (suc k) queue (record s { leftover = g ∷ s.leftover })
                  | false ↦ do
                    let num_new_seqs = pos (get_max_num_running_seqs g)
                    stop ← over_budget s.budget num_new_tokens num_new_seqs
                    elim stop [
                      | true ↦ ok (g ∷ queue, s)
                      | false ↦ do
                        s' ← start_group s g num_new_tokens num_new_seqs
                        prefills_loop clock (suc k) queue s'
                    ]
                ]
            ]
        ]
    ]

  -- `_schedule_prefills` of the queue of waiting groups.
  unfoldable pub schedule_prefills :
      (ℕ → ℤ)
      → Scheduler M
      → SchedulingBudget
      → Option (List ℕ)
      → Result (List SequenceGroup × PrefillState M)
  unfolding prefills_loop start_prefills extendleft
  schedule_prefills clock scheduler budget curr_loras = do
    (queue, s) ←
        prefills_loop clock 0 scheduler.waiting (start_prefills budget curr_loras scheduler)
    ok (
      extendleft queue s.leftover,
      record s {
        scheduler =
            if ltb 0 (length s.seq_groups)
            then record s.scheduler { prev_prompt = true }
            else s.scheduler;
      },
    )
