-- ===== src/Tests/Scheduling/Rounds.antt =====
-- A chunked round and a round of the default policy over two running requests and one that is swapped out.
use cache_blend.Prelude.{ℕ, ◌≡◌, refl, true, false, some, List, [], ok, length}
use cache_blend.Prelude.Int.{pos, ◌+ℤ◌, ◌-ℤ◌}
use cache_blend.Utils.{extend_all}
use cache_blend.Sequence.{
  is_finished, status_is_finished, is_prefill, get_num_new_tokens, get_len, data_get_len,
  get_num_uncomputed_tokens,
}
use cache_blend.Sequence.Group.{
  SequenceGroup, get_seqs, values_where, get_max_num_running_seqs, num_seqs, num_unfinished_seqs,
  get_unfinished_seqs, group_is_prefill,
}
use cache_blend.Policy.{sort_by_priority, sorted_by, place_group, get_priority}
use cache_blend.Scheduler.{
  Scheduler, new_scheduler, get_num_lookahead_slots, set_status, update_seqs, update_status,
  num_new_tokens_of, new_tokens_of, allocate_and_set_running, append_slots, append_slots_of,
  lora_enabled, group_lora_int_id, swap_in, update_dict,
}
use cache_blend.Scheduler.Budget.{
  new_budget, can_schedule, remaining_token_budget, add_num_batched_tokens, add_num_seqs,
}
use cache_blend.Scheduler.Running.{
  RunningState, start_running, schedule_running, running_loop, make_room, run_group, note_lora,
}
use cache_blend.Scheduler.Running.Swaps.{
  OneWay, schedule_chunked_prefill-OneWay, schedule_default-OneWay,
}
use cache_blend.Scheduler.Swapped.{
  SwappedState, start_swapped, schedule_swapped, swapped_loop, swap_in_group, extendleft,
  lora_is_full, lora_of, over_budget,
}
use cache_blend.Scheduler.Prefills.{
  PrefillState, start_prefills, schedule_prefills, prefills_loop, passed_delay, earliest_arrival,
  ignore_group, start_group, prompt_tokens,
}
use cache_blend.Scheduler.Rounds.{
  SchedulerOutputs, swapped_part, schedule_default, default_prefills, default_running,
  default_budget, start_loras, default_queues, count_running, assert_budget,
}
use cache_blend.Scheduler.Chunked.{chunked_queues, schedule_chunked_prefill}
use cache_blend.Tests.Scheduling.{slots, busy, returned, clock, no_swapped, away}
use cache_blend.Tests.Scheduling.Calls.{no_running}
use cache_blend.Tests.Scheduling.Queues.{no_prefills}

abbrev waits : Scheduler ℕ
waits = record busy { swapped = away; block_manager = 4 }

abbrev ran : List SequenceGroup × RunningState ℕ
ran =
    returned ([], no_running)
      (schedule_running slots (get_num_lookahead_slots waits false) true (pos 20) waits.running
        (new_budget (pos 6) (pos 4)) (some []) 4)

ran_returns :
    schedule_running slots
      (get_num_lookahead_slots waits false)
      true
      (pos 20)
      waits.running
      (new_budget (pos 6) (pos 4))
      (some [])
      4
    ≡ ok ran
unfolding schedule_running running_loop start_running make_room run_group note_lora sort_by_priority
    sorted_by place_group get_priority num_new_tokens_of new_tokens_of get_seqs values_where
    get_max_num_running_seqs is_prefill get_num_new_tokens remaining_token_budget
    add_num_batched_tokens ◌+ℤ◌ ◌-ℤ◌ append_slots append_slots_of extend_all group_is_prefill
    group_lora_int_id get_num_lookahead_slots new_scheduler new_budget num_seqs num_unfinished_seqs
    get_unfinished_seqs is_finished status_is_finished data_get_len add_num_seqs
ran_returns = refl

abbrev came_in : List SequenceGroup × SwappedState ℕ
came_in = returned ([], no_swapped) (swapped_part slots true (pos 21) waits (ran.1))

came_in_returns : swapped_part slots true (pos 21) waits (ran.1) ≡ ok came_in
unfolding schedule_running running_loop start_running make_room run_group note_lora sort_by_priority
    sorted_by place_group get_priority num_new_tokens_of new_tokens_of get_seqs values_where
    get_max_num_running_seqs is_prefill get_num_new_tokens remaining_token_budget
    add_num_batched_tokens ◌+ℤ◌ ◌-ℤ◌ append_slots append_slots_of extend_all group_is_prefill
    group_lora_int_id swapped_part schedule_swapped swapped_loop start_swapped swap_in_group
    extendleft lora_is_full over_budget lora_of set_status update_seqs update_status num_seqs
    num_unfinished_seqs get_unfinished_seqs is_finished status_is_finished can_schedule swap_in
    update_dict get_num_uncomputed_tokens data_get_len get_num_lookahead_slots new_scheduler
    new_budget add_num_seqs
came_in_returns = refl

abbrev prompted : List SequenceGroup × PrefillState ℕ
prompted =
    returned ([], no_prefills)
      (schedule_prefills slots true clock (record waits { block_manager = came_in.1.block_manager })
        came_in.1.budget came_in.1.curr_loras)

prompted_returns :
    schedule_prefills slots true clock
      (record waits { block_manager = came_in.1.block_manager })
      came_in.1.budget
      came_in.1.curr_loras
    ≡ ok prompted
unfolding schedule_running running_loop start_running make_room run_group note_lora sort_by_priority
    sorted_by place_group get_priority num_new_tokens_of new_tokens_of get_seqs values_where
    get_max_num_running_seqs is_prefill get_num_new_tokens remaining_token_budget
    add_num_batched_tokens ◌+ℤ◌ ◌-ℤ◌ append_slots append_slots_of extend_all group_is_prefill
    group_lora_int_id swapped_part schedule_swapped swapped_loop start_swapped swap_in_group
    extendleft lora_is_full over_budget lora_of set_status update_seqs update_status num_seqs
    num_unfinished_seqs get_unfinished_seqs is_finished status_is_finished can_schedule swap_in
    update_dict get_num_uncomputed_tokens data_get_len get_num_lookahead_slots new_scheduler
    new_budget add_num_seqs schedule_prefills prefills_loop passed_delay start_prefills
    earliest_arrival ignore_group start_group prompt_tokens allocate_and_set_running get_len
prompted_returns = refl

prompted_within : assert_budget prompted.1.budget waits.scheduler_config ≡ ok tt
unfolding assert_budget schedule_running running_loop start_running make_room run_group note_lora
    sort_by_priority sorted_by place_group get_priority num_new_tokens_of new_tokens_of get_seqs
    values_where get_max_num_running_seqs is_prefill get_num_new_tokens remaining_token_budget
    add_num_batched_tokens ◌+ℤ◌ ◌-ℤ◌ append_slots append_slots_of extend_all group_is_prefill
    group_lora_int_id swapped_part schedule_swapped swapped_loop start_swapped swap_in_group
    extendleft lora_is_full over_budget lora_of set_status update_seqs update_status num_seqs
    num_unfinished_seqs get_unfinished_seqs is_finished status_is_finished can_schedule swap_in
    update_dict get_num_uncomputed_tokens data_get_len get_num_lookahead_slots new_scheduler
    new_budget add_num_seqs schedule_prefills prefills_loop passed_delay start_prefills
    earliest_arrival ignore_group start_group prompt_tokens allocate_and_set_running get_len
prompted_within = refl

schedule_chunked_prefill-OneWay_example :
    (out : SchedulerOutputs) × (schedule_chunked_prefill slots clock (pos 20) (pos 21) waits
      ≡ ok (
        out,
        chunked_queues slots (prompted.0) (prompted.1) (ran.0) (ran.1) (came_in.0) (came_in.1),
      ))
    × OneWay out
unfolding new_scheduler schedule_running
schedule_chunked_prefill-OneWay_example =
    schedule_chunked_prefill-OneWay slots clock (pos 20) (pos 21) waits (ran.0) (ran.1) (came_in.0)
      (came_in.1) (prompted.0) (prompted.1) ran_returns came_in_returns prompted_returns
      prompted_within

-- The default policy looks at no prompt while a group is swapped out.
abbrev no_prompt : List SequenceGroup × PrefillState ℕ
no_prompt =
    (waits.waiting, start_prefills (default_budget slots waits) (start_loras slots waits) waits)

no_prompt_returns :
    default_prefills slots clock waits (default_budget slots waits) (start_loras slots waits)
    ≡ ok no_prompt
unfolding default_prefills
no_prompt_returns = refl

abbrev ran_on : List SequenceGroup × RunningState ℕ
ran_on = returned ([], no_running) (default_running slots (pos 20) (no_prompt.1))

ran_on_returns : default_running slots (pos 20) (no_prompt.1) ≡ ok ran_on
unfolding default_running default_budget start_loras count_running lora_enabled start_prefills
    schedule_running running_loop start_running make_room run_group note_lora sort_by_priority
    sorted_by place_group get_priority num_new_tokens_of new_tokens_of get_seqs values_where
    get_max_num_running_seqs is_prefill get_num_new_tokens remaining_token_budget
    add_num_batched_tokens ◌+ℤ◌ ◌-ℤ◌ append_slots append_slots_of extend_all group_is_prefill
    group_lora_int_id swapped_part schedule_swapped swapped_loop start_swapped swap_in_group
    extendleft lora_is_full over_budget lora_of set_status update_seqs update_status num_seqs
    num_unfinished_seqs get_unfinished_seqs is_finished status_is_finished can_schedule swap_in
    update_dict get_num_uncomputed_tokens data_get_len get_num_lookahead_slots new_scheduler
    new_budget add_num_seqs
ran_on_returns = refl

abbrev came_back : List SequenceGroup × SwappedState ℕ
came_back = returned ([], no_swapped) (swapped_part slots true (pos 21) waits (ran_on.1))

came_back_returns : swapped_part slots true (pos 21) waits (ran_on.1) ≡ ok came_back
unfolding default_running default_budget start_loras count_running lora_enabled start_prefills
    schedule_running running_loop start_running make_room run_group note_lora sort_by_priority
    sorted_by place_group get_priority num_new_tokens_of new_tokens_of get_seqs values_where
    get_max_num_running_seqs is_prefill get_num_new_tokens remaining_token_budget
    add_num_batched_tokens ◌+ℤ◌ ◌-ℤ◌ append_slots append_slots_of extend_all group_is_prefill
    group_lora_int_id swapped_part schedule_swapped swapped_loop start_swapped swap_in_group
    extendleft lora_is_full over_budget lora_of set_status update_seqs update_status num_seqs
    num_unfinished_seqs get_unfinished_seqs is_finished status_is_finished can_schedule swap_in
    update_dict get_num_uncomputed_tokens data_get_len get_num_lookahead_slots new_scheduler
    new_budget add_num_seqs
came_back_returns = refl

came_back_within :
    (assert_budget came_back.1.budget waits.scheduler_config ≡ ok tt)
    × (length ran_on.1.prefill_seq_groups ≡ 0)
    × (length came_back.1.prefill_seq_groups ≡ 0)
unfolding assert_budget default_running default_budget start_loras count_running lora_enabled
    start_prefills schedule_running running_loop start_running make_room run_group note_lora
    sort_by_priority sorted_by place_group get_priority num_new_tokens_of new_tokens_of get_seqs
    values_where get_max_num_running_seqs is_prefill get_num_new_tokens remaining_token_budget
    add_num_batched_tokens ◌+ℤ◌ ◌-ℤ◌ append_slots append_slots_of extend_all group_is_prefill
    group_lora_int_id swapped_part schedule_swapped swapped_loop start_swapped swap_in_group
    extendleft lora_is_full over_budget lora_of set_status update_seqs update_status num_seqs
    num_unfinished_seqs get_unfinished_seqs is_finished status_is_finished can_schedule swap_in
    update_dict get_num_uncomputed_tokens data_get_len get_num_lookahead_slots new_scheduler
    new_budget add_num_seqs
came_back_within = (refl, refl, refl)

schedule_default-OneWay_example :
    (out : SchedulerOutputs) × (schedule_default slots clock (pos 20) (pos 21) waits
      ≡ ok (
        out,
        default_queues slots waits.waiting
            (no_prompt.1)
            (ran_on.0)
            (ran_on.1)
            (came_back.0)
            (came_back.1),
      ))
    × OneWay out
unfolding start_prefills
schedule_default-OneWay_example =
    schedule_default-OneWay slots clock (pos 20) (pos 21) waits waits.waiting (no_prompt.1)
      (ran_on.0) (ran_on.1) (came_back.0) (came_back.1) no_prompt_returns ran_on_returns
      came_back_returns came_back_within.0 came_back_within.1 came_back_within.2
