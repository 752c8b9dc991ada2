-- ===== src/Tests/Scheduling.antt =====
-- Scheduler runs over a block manager that counts free slots: a prompt or a token of a decode takes one.
mod Queues
mod Calls
mod Rounds
use cache_blend.Prelude.{
  ℕ, zero, suc, ◌+◌, ◌-◌, ◌≤◌, ◌≡◌, ◌≢◌, refl, ◌⊎◌, Bool, true, false, Option, none, some, List, [],
  ◌∷◌, ◌++◌, length, take, drop, mem, ◌==◌, ltb, Result, ok, raise, arith, dedup, remove,
  out_of_fuel, if◌then◌else◌, ◌&&◌,
}
use cache_blend.Prelude.Int.{ℤ, pos, ◌+ℤ◌, ◌-ℤ◌}
use cache_blend.Prelude.Dict.{Dict, insert, nat_eq}
use cache_blend.Utils.{merge_dicts, extend_all}
use cache_blend.Sequence.{
  Sequence, SequenceStatus, waiting, running, swapped, prefill, decode, is_finished,
  status_is_finished, is_prefill, get_num_new_tokens, get_len, data_get_len,
  get_num_uncomputed_tokens, reset_state_for_recompute, data_reset_state_for_recompute,
}
use cache_blend.Sequence.Group.{
  SequenceGroup, get_seqs, values_where, get_max_num_running_seqs, num_seqs, num_unfinished_seqs,
  get_unfinished_seqs, group_is_prefill, maybe_set_first_scheduled_time,
}
use cache_blend.Sequence.Metadata.{SequenceGroupMetadata, new_metadata, chunk_size}
use cache_blend.ManagerV1.{fits, later}
use cache_blend.Interfaces.{BlockSpaceManager}
use cache_blend.Policy.{get_priority, place_group, sorted_by, sort_by_priority}
use cache_blend.Policy.Sorted.{IsSorted, arrived_at, sort_by_priority-Stable}
use cache_blend.Scheduler.{
  Scheduler, SchedulerConfig, new_scheduler, swap_in, swap_out, lora_enabled,
  get_num_lookahead_slots, set_status, update_seqs, update_status, num_new_tokens_of, new_tokens_of,
  allocate_and_set_running, group_lora_int_id, append_slots, append_slots_of, preempt,
  preempt_by_recompute, free_seqs, free_seq, update_dict,
}
use cache_blend.Scheduler.Budget.{
  can_schedule, remaining_token_budget, SchedulingBudget, new_budget, add_num_batched_tokens,
  subtract_num_batched_tokens, add_num_seqs, subtract_num_seqs,
}
use cache_blend.Scheduler.Running.{
  RunningState, start_running, schedule_running, running_loop, make_room, run_group, preempt_into,
  give_back, but_last, note_lora, remove_lora,
}
use cache_blend.Scheduler.Running.Termination.{Finishes, schedule_running-Finishes}
use cache_blend.Scheduler.Swapped.{
  SwappedState, start_swapped, schedule_swapped, swapped_loop, swap_in_group, extendleft,
  lora_is_full, lora_of, over_budget,
}
use cache_blend.Scheduler.Prefills.{
  PrefillState, start_prefills, schedule_prefills, prefills_loop, passed_delay, earliest_arrival,
  ignore_group, start_group, prompt_tokens,
}
use cache_blend.Scheduler.Prefills.Fcfs.{served, schedule_prefills-Fcfs}
use cache_blend.Scheduler.Rounds.{
  SchedulerOutputs, groups_of, swapped_part, schedule_default, default_prefills, default_running,
  default_budget, start_loras, finish_default, default_outputs, default_queues, post_init,
  count_running, assert_budget, lora_requests, sort_by_lora_ids,
}
use cache_blend.Scheduler.Calls.{
  schedule, request_ids_of, choose_schedule, metadata_of, metadata_list, tables_of, mark_scheduled,
  mark_outputs, mark_computed,
}
use cache_blend.Scheduler.Abort.{take_requests, abort_seqs, abort_groups, abort_seq_group}
use cache_blend.Scheduler.Abort.Removal.{AllFinished, queued-abort_seq_group}
use cache_blend.Scheduler.Requests.{occurs}
use cache_blend.Scheduler.Requests.Rounds.{queued}
use cache_blend.Scheduler.Requests.Prefills.{prefill_total}
use cache_blend.Scheduler.Requests.Calls.{metadata_ids, occurs-schedule}
use cache_blend.Scheduler.Restored.{swap_in-swap_out}

abbrev slots : BlockSpaceManager ℕ
slots = record {
  can_allocate = λ m g. ok (if ltb 0 m then fits else later);
  allocate = λ m g. ok (m - 1);
  can_append_slots = λ m g n. ok (ltb 0 m);
  append_slots = λ m s n. ok ([], m - 1);
  fork = λ m parent child. ok m;
  can_swap_in = λ m g n. ok (ltb 0 m);
  swap_in = λ m g n. ok ((7, 1) ∷ [], m - 1);
  can_swap_out = λ m g. ok true;
  swap_out = λ m g. ok ((1, 7) ∷ [], m + 1);
  free = λ m s. ok (m + 1);
  get_block_table = λ m s. ok (s.seq_id ∷ []);
  get_num_free_gpu_blocks = λ m. m;
  get_num_free_cpu_blocks = λ m. m;
  access_all_blocks_in_seq = λ m s now. ok m;
  get_common_computed_block_ids = λ m seqs. ok [];
  mark_blocks_as_computed = λ m g. ok m;
}

abbrev some_tokens : ℕ → List ℤ
some_tokens zero = []
some_tokens (suc n) = pos n ∷ some_tokens n

-- A request of one sequence, with a prompt of `n` tokens.
abbrev request : ℕ → ℕ → ℤ → SequenceStatus → SequenceGroup
request i n arrival status = record {
  request_id = i;
  seqs_dict = (i, one_sequence) ∷ [];
  sampling_params = record { best_of = 1; use_beam_search = false };
  metrics = record {
    arrival_time = arrival;
    last_token_time = arrival;
    first_scheduled_time = none;
    first_token_time = none;
    time_in_queue = none;
    finished_time = none;
  };
  lora_request = none;
}
  where
    one_sequence : Sequence
    one_sequence = record {
      seq_id = i;
      prompt = [];
      block_size = 2;
      eos_token_id = none;
      lora_request = none;
      seq_data = record {
        prompt_token_ids = some_tokens n;
        output_token_ids = [];
        cumulative_logprob = pos 0;
        num_computed_tokens = elim status [ waiting ↦ 0 | _ ↦ n ];
        stage = elim status [ waiting ↦ prefill | _ ↦ decode ];
      };
      output_logprobs = [];
      output_text = [];
      logical_token_blocks = [];
      status = status;
    }

abbrev config : SchedulerConfig
config = record {
  max_num_batched_tokens = 6;
  max_num_seqs = 4;
  max_model_len = 6;
  num_lookahead_slots = 0;
  delay_num = 0;
  delay_den = 1;
  chunked_prefill_enabled = false;
}

-- Two prompts, of which the second is longer than the model allows, and two running requests.
abbrev busy : Scheduler ℕ
busy = record (new_scheduler config none 1) {
  waiting = request 1 2 (pos 5) waiting ∷ request 2 9 (pos 6) waiting ∷ [];
  running = request 3 2 (pos 4) running ∷ request 4 2 (pos 2) running ∷ [];
}

abbrev returned : {A : Type 0} → A → Result A → A
returned default (raise error) = default
returned default (ok result) = result

abbrev clock : ℕ → ℤ
clock k = pos (10 + k)

abbrev no_outputs : SchedulerOutputs
no_outputs = record {
  scheduled_seq_groups = [];
  num_prefill_groups = 0;
  num_batched_tokens = pos 0;
  blocks_to_swap_in = [];
  blocks_to_swap_out = [];
  blocks_to_copy = [];
  ignored_seq_groups = [];
  num_lookahead_slots = 0;
}

abbrev round : List SequenceGroupMetadata × SchedulerOutputs × Scheduler ℕ
round = returned ([], no_outputs, busy) (schedule slots clock (pos 20) (pos 21) (pos 22) busy)

round_returns : schedule slots clock (pos 20) (pos 21) (pos 22) busy ≡ ok round
unfolding schedule choose_schedule metadata_of metadata_list tables_of mark_scheduled mark_outputs
    mark_computed schedule_default default_prefills default_running swapped_part default_budget
    start_loras finish_default default_outputs default_queues post_init count_running assert_budget
    lora_requests sort_by_lora_ids schedule_prefills prefills_loop passed_delay start_prefills
    earliest_arrival ignore_group start_group prompt_tokens extendleft lora_is_full lora_of
    over_budget note_lora start_running start_swapped new_scheduler lora_enabled
    get_num_lookahead_slots set_status update_seqs update_status num_new_tokens_of new_tokens_of
    allocate_and_set_running get_seqs values_where get_max_num_running_seqs num_seqs
    num_unfinished_seqs get_unfinished_seqs group_is_prefill maybe_set_first_scheduled_time
    is_finished status_is_finished is_prefill get_num_new_tokens get_len new_budget can_schedule
    remaining_token_budget add_num_batched_tokens add_num_seqs merge_dicts extend_all dedup
    new_metadata chunk_size ◌+ℤ◌ ◌-ℤ◌ data_get_len get_num_uncomputed_tokens
round_returns = refl

occurs-schedule_example :
    (queued 2 (round.2) + occurs 2 round.1.ignored_seq_groups ≡ queued 2 busy)
    × (occurs 2 (groups_of round.1.scheduled_seq_groups) ≤ occurs 2 round.2.running)
    × (metadata_ids (round.0) ≡ request_ids_of round.1.scheduled_seq_groups)
occurs-schedule_example =
    occurs-schedule slots 2 clock (pos 20) (pos 21) (pos 22) busy (round.0) (round.1) (round.2)
      round_returns

abbrev fresh : SchedulingBudget
fresh = record {
  token_budget = pos 6;
  max_num_seqs = pos 4;
  request_ids_num_batched_tokens = [];
  request_ids_num_curr_seqs = [];
  num_batched_tokens = pos 0;
  num_curr_seqs = pos 0;
}

abbrev decoding : List SequenceGroup
decoding = request 3 2 (pos 4) running ∷ request 4 2 (pos 2) running ∷ []

abbrev no_swapped : SwappedState ℕ
no_swapped = record {
  decode_seq_groups = [];
  prefill_seq_groups = [];
  blocks_to_swap_in = [];
  blocks_to_copy = [];
  leftover = [];
  budget = fresh;
  curr_loras = none;
  block_manager = 0;
}

abbrev away : List SequenceGroup
away = request 5 2 (pos 1) swapped ∷ []
