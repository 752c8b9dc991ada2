-- ===== src/Scheduler/Chunked.antt =====
-- `_schedule_chunked_prefill` of vllm_blend/vllm/core/scheduler.py: running groups first, then swapped
-- ones, then new prompts, whose tokens may be scheduled in chunks.
use cache_blend.Prelude.{ℕ, ◌+◌, true, false, some, List, [], ◌++◌, length, Result, ok, ◌>>=◌, ◌>>◌}
use cache_blend.Prelude.Int.{ℤ, pos}
use cache_blend.Utils.{merge_dicts}
use cache_blend.Sequence.Group.{SequenceGroup}
use cache_blend.Interfaces.{BlockSpaceManager}
use cache_blend.Scheduler.{Scheduler, get_num_lookahead_slots}
use cache_blend.Scheduler.Budget.{new_budget}
use cache_blend.Scheduler.Running.{RunningState, schedule_running}
use cache_blend.Scheduler.Swapped.{SwappedState, extendleft}
use cache_blend.Scheduler.Prefills.{PrefillState, schedule_prefills}
use cache_blend.Scheduler.Rounds.{
  SchedulerOutputs, post_init, groups_of, assert_budget, swapped_part,
}

module _ {M : Type 0} (manager : BlockSpaceManager M) where
  -- The outputs of `_schedule_chunked_prefill`, before `post_init`, and the new queues.
  unfoldable pub chunked_outputs :
      Scheduler M → PrefillState M → RunningState M → SwappedState M → SchedulerOutputs
  chunked_outputs s p r w = record {
    scheduled_seq_groups =
        p.seq_groups ++ r.prefill_seq_groups ++ w.prefill_seq_groups ++ r.decode_seq_groups
        ++ w.decode_seq_groups;
    num_prefill_groups =
        length p.seq_groups + length w.prefill_seq_groups + length r.prefill_seq_groups;
    num_batched_tokens = p.budget.num_batched_tokens;
    blocks_to_swap_in = w.blocks_to_swap_in;
    blocks_to_swap_out = r.blocks_to_swap_out;
    blocks_to_copy = merge_dicts r.blocks_to_copy w.blocks_to_copy;
    ignored_seq_groups = p.ignored_seq_groups;
    num_lookahead_slots = get_num_lookahead_slots s false;
  }

  unfoldable pub chunked_queues :
      List SequenceGroup
      → PrefillState M
      → List SequenceGroup
      → RunningState M
      → List SequenceGroup
      → SwappedState M
      → Scheduler M
  chunked_queues remaining_waiting p remaining_running r remaining_swapped w = record p.scheduler {
    waiting = extendleft remaining_waiting r.preempted;
    running =
        remaining_running
        ++ groups_of p.seq_groups
        ++ groups_of r.decode_seq_groups
        ++ groups_of r.prefill_seq_groups
        ++ groups_of w.decode_seq_groups
        ++ groups_of w.prefill_seq_groups;
    swapped = remaining_swapped ++ r.swapped_out;
  }

  -- The end of `_schedule_chunked_prefill`, with its assertions.
  unfoldable pub finish_chunked :
      Scheduler M
      → List SequenceGroup
      → PrefillState M
      → List SequenceGroup
      → RunningState M
      → List SequenceGroup
      → SwappedState M
      → Result (SchedulerOutputs × Scheduler M)
  unfolding assert_budget post_init chunked_outputs chunked_queues
  finish_chunked s remaining_waiting p remaining_running r remaining_swapped w = do
    assert_budget p.budget s.scheduler_config
    outputs ← post_init (chunked_outputs s p r w)
    ok (outputs, chunked_queues remaining_waiting p remaining_running r remaining_swapped w)

  unfoldable pub schedule_chunked_prefill :
      (ℕ → ℤ) → ℤ → ℤ → Scheduler M → Result (SchedulerOutputs × Scheduler M)
  unfolding swapped_part finish_chunked
  schedule_chunked_prefill clock now later s = do
    let budget =
        new_budget (pos s.scheduler_config.max_num_batched_tokens)
          (pos s.scheduler_config.max_num_seqs)
    (remaining_running, r) ←
        schedule_running manager (get_num_lookahead_slots s false) true now s.running budget
          (some []) s.block_manager
    (remaining_swapped, w) ← swapped_part manager true later s r
    (remaining_waiting, p) ←
        schedule_prefills manager true clock (record s { block_manager = w.block_manager }) w.budget
          w.curr_loras
    finish_chunked s remaining_waiting p remaining_running r remaining_swapped w
