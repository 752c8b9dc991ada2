-- ===== src/Tests/Scheduling/Calls.antt =====
-- Calls that follow one another: running and swapped groups, an abort, a group swapped out and in.
use cache_blend.Prelude.{
  ℕ, ◌+◌, ◌-◌, ◌≡◌, refl, none, some, List, [], ◌∷◌, mem, ok, dedup, remove, if◌then◌else◌,
}
use cache_blend.Prelude.Int.{pos}
use cache_blend.Prelude.Dict.{insert, nat_eq}
use cache_blend.Sequence.{running, swapped, is_finished, status_is_finished}
use cache_blend.Sequence.Group.{SequenceGroup, get_seqs, values_where}
use cache_blend.Scheduler.{
  Scheduler, new_scheduler, swap_in, swap_out, set_status, update_seqs, update_status, free_seq,
  update_dict,
}
use cache_blend.Scheduler.Running.{RunningState}
use cache_blend.Scheduler.Abort.{take_requests, abort_seqs, abort_groups, abort_seq_group}
use cache_blend.Scheduler.Abort.Removal.{AllFinished, queued-abort_seq_group}
use cache_blend.Scheduler.Requests.{occurs}
use cache_blend.Scheduler.Requests.Rounds.{queued}
use cache_blend.Scheduler.Restored.{swap_in-swap_out}
use cache_blend.Tests.Scheduling.{slots, request, busy, returned, fresh}

abbrev pub no_running : RunningState ℕ
no_running = record {
  decode_seq_groups = [];
  prefill_seq_groups = [];
  preempted = [];
  swapped_out = [];
  blocks_to_swap_out = [];
  blocks_to_copy = [];
  budget = fresh;
  curr_loras = none;
  block_manager = 0;
}

abbrev aborted : List SequenceGroup × Scheduler ℕ
aborted = returned ([], busy) (abort_seq_group slots busy (1 ∷ 3 ∷ []))

aborted_returns : abort_seq_group slots busy (1 ∷ 3 ∷ []) ≡ ok aborted
unfolding abort_seq_group take_requests abort_groups abort_seqs dedup remove is_finished
    status_is_finished new_scheduler free_seq
aborted_returns = refl

queued-abort_seq_group_example :
    (queued 3 (aborted.1) ≡ (if mem 3 (1 ∷ 3 ∷ []) then queued 3 busy - 1 else queued 3 busy))
    × (occurs 3 (aborted.0) + queued 3 (aborted.1) ≡ queued 3 busy)
    × AllFinished (aborted.0)
queued-abort_seq_group_example =
    queued-abort_seq_group slots 3 busy (1 ∷ 3 ∷ []) (aborted.0) (aborted.1) aborted_returns

abbrev third : SequenceGroup
third = request 3 2 (pos 4) running

abbrev third_away : SequenceGroup
third_away = request 3 2 (pos 4) swapped

third_leaves : swap_out slots 1 third [] ≡ ok (third_away, (1, 7) ∷ [], 2)
unfolding swap_out set_status update_seqs update_status update_dict insert
third_leaves = refl

third_returns : swap_in slots 2 third_away [] ≡ ok (third, (7, 1) ∷ [], 1)
unfolding swap_in set_status update_seqs update_status update_dict insert
third_returns = refl

none_away : get_seqs third (some swapped) ≡ []
unfolding get_seqs values_where
none_away = refl

swap_in-swap_out_example : third ≡ third
swap_in-swap_out_example =
    swap_in-swap_out slots 1 2 2 1 third third_away third [] ((1, 7) ∷ []) [] ((7, 1) ∷ [])
      none_away third_leaves third_returns
