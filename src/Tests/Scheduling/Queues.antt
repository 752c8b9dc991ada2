-- ===== src/Tests/Scheduling/Queues.antt =====
-- One queue of the scheduler and its budget.
use cache_blend.Prelude.{
  ℕ, ◌≡◌, ◌≢◌, refl, ◌⊎◌, false, none, some, value_error, List, [], take, drop, ok, raise, arith,
  out_of_fuel, ◌≤◌,
}
use cache_blend.Prelude.Int.{pos, ◌+ℤ◌, ◌-ℤ◌}
use cache_blend.Prelude.Dict.{nat_eq}
use cache_blend.Utils.{extend_all}
use cache_blend.Sequence.{
  is_finished, status_is_finished, is_prefill, get_num_new_tokens, get_len, data_get_len,
  get_num_uncomputed_tokens,
}
use cache_blend.Sequence.Group.{
  SequenceGroup, get_seqs, values_where, get_max_num_running_seqs, num_seqs, num_unfinished_seqs,
  get_unfinished_seqs, group_is_prefill,
}
use cache_blend.Policy.{get_priority, place_group, sorted_by, sort_by_priority}
use cache_blend.Policy.Sorted.{IsSorted, arrived_at, sort_by_priority-Stable}
use cache_blend.Scheduler.{
  SchedulerConfig, new_scheduler, swap_in, set_status, update_seqs, update_status,
  num_new_tokens_of, new_tokens_of, allocate_and_set_running, append_slots, append_slots_of,
  update_dict,
}
use cache_blend.Scheduler.Config.{new_scheduler_config, new_scheduler_config-prompt_limit}
use cache_blend.Scheduler.Budget.{
  can_schedule, remaining_token_budget, add_num_batched_tokens, subtract_num_batched_tokens,
  add_num_seqs, subtract_num_seqs,
}
use cache_blend.Scheduler.Budget.Limits.{IsWithin, counted, subtract-add}
use cache_blend.Scheduler.Budget.Spent.{Spent, AllFresh, tokens_of, seqs_of}
use cache_blend.Scheduler.Running.{schedule_running, note_lora}
use cache_blend.Scheduler.Running.Termination.{Finishes, schedule_running-Finishes}
use cache_blend.Scheduler.Swapped.{
  SwappedState, start_swapped, schedule_swapped, swapped_loop, swap_in_group, extendleft,
  lora_is_full, lora_of, over_budget,
}
use cache_blend.Scheduler.Prefills.{
  PrefillState, start_prefills, schedule_prefills, prefills_loop, passed_delay, earliest_arrival,
  ignore_group, start_group, prompt_tokens,
}
use cache_blend.Scheduler.Prefills.Limits.{schedule_prefills-IsWithin}
use cache_blend.Scheduler.Swapped.Limits.{all_tokens, all_seqs, schedule_swapped-IsWithin}
use cache_blend.Scheduler.Prefills.Fcfs.{served, schedule_prefills-Fcfs}
use cache_blend.Scheduler.Requests.{occurs}
use cache_blend.Scheduler.Requests.Prefills.{prefill_total}
use cache_blend.Tests.Scheduling.{slots, busy, returned, clock, fresh, decoding, no_swapped, away}

abbrev pub no_prefills : PrefillState ℕ
no_prefills = record {
  seq_groups = [];
  ignored_seq_groups = [];
  leftover = [];
  budget = fresh;
  curr_loras = none;
  scheduler = busy;
}

busy_no_lora : busy.max_loras ≡ none
unfolding new_scheduler
busy_no_lora = refl

abbrev prompts : List SequenceGroup × PrefillState ℕ
prompts = returned ([], no_prefills) (schedule_prefills slots false clock busy fresh none)

prompts_return : schedule_prefills slots false clock busy fresh none ≡ ok prompts
unfolding schedule_prefills prefills_loop passed_delay start_prefills earliest_arrival ignore_group
    start_group prompt_tokens extendleft lora_is_full over_budget new_scheduler set_status
    update_seqs update_status num_new_tokens_of new_tokens_of allocate_and_set_running get_seqs
    values_where get_max_num_running_seqs num_seqs num_unfinished_seqs get_unfinished_seqs
    is_finished status_is_finished get_num_new_tokens get_len can_schedule remaining_token_budget
    add_num_batched_tokens add_num_seqs ◌+ℤ◌ ◌-ℤ◌ data_get_len get_num_uncomputed_tokens lora_of
    note_lora is_prefill
prompts_return = refl

schedule_prefills-Fcfs_example :
    (prompts.0 ≡ drop (served (prompts.1)) busy.waiting)
    × (prefill_total 2 (prompts.1) ≡ occurs 2 (take (served (prompts.1)) busy.waiting))
schedule_prefills-Fcfs_example =
    schedule_prefills-Fcfs slots false 2 clock busy fresh none (prompts.0) (prompts.1) busy_no_lora
      prompts_return

waiting-AllFresh : AllFresh fresh busy.waiting
unfolding occurs new_scheduler
waiting-AllFresh i = (ground arith, ground arith)

schedule_prefills-IsWithin_example :
    IsWithin prompts.1.budget
    × Spent fresh prompts.1.budget (tokens_of prompts.1.seq_groups) (seqs_of prompts.1.seq_groups)
schedule_prefills-IsWithin_example =
    schedule_prefills-IsWithin slots false clock busy fresh none (prompts.0) (prompts.1)
      (omega arith, omega arith) waiting-AllFresh prompts_return

slots-Finishes : Finishes slots
slots-Finishes = record {
  can_append_slots = λ m g n e. cc;
  append_slots = λ m s n e. cc;
  can_swap_out = λ m g e. cc;
  swap_out = λ m g e. cc;
  free = λ m s e. cc;
}

schedule_running-Finishes_example :
    schedule_running slots 0 false (pos 20) decoding fresh none 1 ≢ raise out_of_fuel
schedule_running-Finishes_example =
    schedule_running-Finishes slots 0 false (pos 20) decoding fresh none 1 slots-Finishes

abbrev back : List SequenceGroup × SwappedState ℕ
back = returned ([], no_swapped) (schedule_swapped slots 0 none false (pos 21) away fresh none 3)

back_returns : schedule_swapped slots 0 none false (pos 21) away fresh none 3 ≡ ok back
unfolding schedule_swapped swapped_loop start_swapped swap_in_group extendleft lora_is_full
    over_budget lora_of note_lora sort_by_priority sorted_by place_group get_priority set_status
    update_seqs update_status num_new_tokens_of new_tokens_of get_seqs values_where
    get_max_num_running_seqs num_seqs num_unfinished_seqs get_unfinished_seqs is_finished
    status_is_finished get_num_new_tokens is_prefill can_schedule remaining_token_budget
    add_num_batched_tokens add_num_seqs ◌+ℤ◌ ◌-ℤ◌ swap_in update_dict append_slots append_slots_of
    extend_all group_is_prefill get_num_uncomputed_tokens data_get_len
back_returns = refl

away-AllFresh : AllFresh fresh away
unfolding occurs
away-AllFresh i = (ground arith, ground arith)

schedule_swapped-IsWithin_example :
    IsWithin back.1.budget × Spent fresh back.1.budget (all_tokens (back.1)) (all_seqs (back.1))
schedule_swapped-IsWithin_example =
    schedule_swapped-IsWithin slots 0 none false (pos 21) away fresh none 3 (back.0) (back.1)
      (omega arith, omega arith) away-AllFresh back_returns

subtract-add_example :
    (add_num_seqs (add_num_batched_tokens (counted fresh 3 (pos 2) (pos 1)) 3 (pos 5)) 3 (pos 4)
      ≡ counted fresh 3 (pos 2) (pos 1))
    × (subtract_num_seqs
          (subtract_num_batched_tokens (counted fresh 3 (pos 2) (pos 1)) 3 (pos 2))
          3
          (pos 1)
        ≡ fresh)
subtract-add_example = subtract-add fresh 3 (pos 2) (pos 1) (pos 5) (pos 4) refl refl

sort_by_priority-Stable_example :
    IsSorted (sort_by_priority (pos 20) decoding)
    × (arrived_at (pos 4) (sort_by_priority (pos 20) decoding) ≡ arrived_at (pos 4) decoding)
sort_by_priority-Stable_example = sort_by_priority-Stable (pos 20) (pos 4) decoding

new_scheduler_config-prompt_limit_example :
    (new_scheduler_config (some 6) 4 6 (pos 2) 0 1 false ≡ raise value_error)
    ⊎ ((c : SchedulerConfig) × (new_scheduler_config (some 6) 4 6 (pos 2) 0 1 false ≡ ok c)
        × ((new_scheduler {M = ℕ} c none 3).prompt_limit ≡ 6)
        × (c.max_num_seqs ≤ c.max_num_batched_tokens))
new_scheduler_config-prompt_limit_example =
    new_scheduler_config-prompt_limit (some 6) 4 6 (pos 2) 0 1 false none 3
