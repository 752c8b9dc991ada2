-- ===== src/Scheduler/Rounds.antt =====
-- `_schedule_default` of vllm_blend/vllm/core/scheduler.py, with `SchedulerOutputs` and what it shares with
-- the chunked policy. `clock` gives the times read while prompts are scheduled, `now` and `later` those that
-- the running and the swapped queue are sorted by.
use cache_blend.Prelude.{
  ℕ, ◌+◌, Bool, true, false, ◌&&◌, ◌||◌, not, Option, none, some, List, [], ◌∷◌, ◌++◌, dedup,
  length, ltb, Result, ok, ◌>>=◌, ◌>>◌, assert, if◌then◌else◌, ◌==◌,
}
use cache_blend.Prelude.Int.{ℤ, pos, leb_ℤ}
use cache_blend.Prelude.Dict.{Dict, nat_eq}
use cache_blend.Utils.{merge_dicts}
use cache_blend.Sequence.Group.{SequenceGroup, get_max_num_running_seqs}
use cache_blend.Interfaces.{BlockSpaceManager}
use cache_blend.Scheduler.{
  Scheduler, ScheduledSequenceGroup, SchedulerConfig, group_lora_int_id, lora_enabled,
  get_num_lookahead_slots,
}
use cache_blend.Scheduler.Budget.{SchedulingBudget, new_budget, add_num_seqs}
use cache_blend.Scheduler.Running.{RunningState, start_running, schedule_running}
use cache_blend.Scheduler.Swapped.{SwappedState, start_swapped, schedule_swapped, extendleft}
use cache_blend.Scheduler.Prefills.{PrefillState, start_prefills, schedule_prefills}

pub record SchedulerOutputs : Type 0 where
  pub scheduled_seq_groups : List ScheduledSequenceGroup
  pub num_prefill_groups : ℕ
  pub num_batched_tokens : ℤ
  pub blocks_to_swap_in : Dict ℕ ℕ
  pub blocks_to_swap_out : Dict ℕ ℕ
  pub blocks_to_copy : Dict ℕ (List ℕ)
  pub ignored_seq_groups : List SequenceGroup
  pub num_lookahead_slots : ℕ

abbrev pub is_nil {ℓ} : {A : Type ℓ} → List A → Bool
is_nil [] = true
is_nil (x ∷ xs) = false

unfoldable pub is_empty : SchedulerOutputs → Bool
is_empty o =
    is_nil o.scheduled_seq_groups
    && (is_nil o.blocks_to_swap_in && (is_nil o.blocks_to_swap_out && is_nil o.blocks_to_copy))

-- `lora_requests`: the adapters of the scheduled groups.
unfoldable pub lora_requests : List ScheduledSequenceGroup → List ℕ
lora_requests [] = []
lora_requests (g ∷ gs) =
    let rest = lora_requests gs in elim g.seq_group.lora_request [ none ↦ rest | some i ↦ i ∷ rest ]

-- The order of the pairs of adapter and request.
unfoldable pub lora_before : ScheduledSequenceGroup → ScheduledSequenceGroup → Bool
lora_before a b =
    ltb (group_lora_int_id a.seq_group) (group_lora_int_id b.seq_group)
    || (group_lora_int_id a.seq_group == group_lora_int_id b.seq_group
        && ltb a.seq_group.request_id b.seq_group.request_id)

unfoldable pub place_by_lora :
    ScheduledSequenceGroup → List ScheduledSequenceGroup → List ScheduledSequenceGroup
unfolding lora_before
place_by_lora g [] = g ∷ []
place_by_lora g (x ∷ xs) = if lora_before x g then x ∷ place_by_lora g xs else g ∷ x ∷ xs

-- `_sort_by_lora_ids`.
unfoldable pub sort_by_lora_ids : List ScheduledSequenceGroup → List ScheduledSequenceGroup
unfolding place_by_lora
sort_by_lora_ids [] = []
sort_by_lora_ids (g ∷ gs) = place_by_lora g (sort_by_lora_ids gs)

-- `SchedulerOutputs.__post_init__`.
unfoldable pub post_init : SchedulerOutputs → Result SchedulerOutputs
unfolding lora_requests sort_by_lora_ids
post_init o = do
  assert (not (not (is_nil o.blocks_to_swap_in) && not (is_nil o.blocks_to_swap_out)))
  ok (
      if ltb 0 (length (dedup (lora_requests o.scheduled_seq_groups)))
      then record o { scheduled_seq_groups = sort_by_lora_ids o.scheduled_seq_groups }
      else o)

abbrev pub groups_of : List ScheduledSequenceGroup → List SequenceGroup
groups_of [] = []
groups_of (s ∷ ss) = s.seq_group ∷ groups_of ss

-- The running sequences count before any prompt is scheduled.
unfoldable pub count_running : SchedulingBudget → List SequenceGroup → SchedulingBudget
count_running b [] = b
count_running b (g ∷ gs) =
    count_running (add_num_seqs b g.request_id (pos (get_max_num_running_seqs g))) gs

unfoldable pub running_loras : List SequenceGroup → List ℕ
running_loras [] = []
running_loras (g ∷ gs) = group_lora_int_id g ∷ running_loras gs

-- The assertions on the budget at the end of a round.
unfoldable pub assert_budget : SchedulingBudget → SchedulerConfig → Result (Unit {0})
assert_budget b config = do
  assert (leb_ℤ b.num_batched_tokens (pos config.max_num_batched_tokens))
  assert (leb_ℤ b.num_curr_seqs (pos config.max_num_seqs))

module _ {M : Type 0} (manager : BlockSpaceManager M) where
  -- The first part of `_schedule_default`: prompts, if nothing is swapped.
  unfoldable pub default_prefills :
      (ℕ → ℤ)
      → Scheduler M
      → SchedulingBudget
      → Option (List ℕ)
      → Result (List SequenceGroup × PrefillState M)
  default_prefills clock s budget curr_loras =
      if is_nil s.swapped
      then schedule_prefills manager false clock s budget curr_loras
      else ok (s.waiting, start_prefills budget curr_loras s)

  -- The second part: the running groups, if no prompt was scheduled.
  unfoldable pub default_running : ℤ → PrefillState M → Result (List SequenceGroup × RunningState M)
  unfolding start_running
  default_running now p =
      if length p.seq_groups == 0
      then schedule_running manager (get_num_lookahead_slots p.scheduler false) false now
          p.scheduler.running p.budget p.curr_loras p.scheduler.block_manager
      else ok (p.scheduler.running, start_running p.budget p.curr_loras p.scheduler.block_manager)

  -- The third part: the swapped groups, if `allowed` and nothing was preempted.
  unfoldable pub swapped_part :
      Bool → ℤ → Scheduler M → RunningState M → Result (List SequenceGroup × SwappedState M)
  unfolding start_swapped
  swapped_part allowed later s r =
      if allowed && (length r.preempted + length r.swapped_out == 0)
      then schedule_swapped manager (get_num_lookahead_slots s false) s.max_loras false later
          s.swapped r.budget r.curr_loras r.block_manager
      else ok (s.swapped, start_swapped r.budget r.curr_loras r.block_manager)

  -- The outputs of `_schedule_default`, before `post_init`, and the new queues.
  unfoldable pub default_outputs :
      Scheduler M → PrefillState M → RunningState M → SwappedState M → SchedulerOutputs
  default_outputs s p r w = record {
    scheduled_seq_groups = p.seq_groups ++ r.decode_seq_groups ++ w.decode_seq_groups;
    num_prefill_groups = length p.seq_groups;
    num_batched_tokens = w.budget.num_batched_tokens;
    blocks_to_swap_in = w.blocks_to_swap_in;
    blocks_to_swap_out = r.blocks_to_swap_out;
    blocks_to_copy = merge_dicts r.blocks_to_copy w.blocks_to_copy;
    ignored_seq_groups = p.ignored_seq_groups;
    num_lookahead_slots = if length p.seq_groups == 0 then get_num_lookahead_slots s false else 0;
  }

  unfoldable pub default_queues :
      List SequenceGroup
      → PrefillState M
      → List SequenceGroup
      → RunningState M
      → List SequenceGroup
      → SwappedState M
      → Scheduler M
  default_queues remaining_waiting p remaining_running r remaining_swapped w = record p.scheduler {
    block_manager = w.block_manager;
    waiting = extendleft remaining_waiting r.preempted;
    running =
        remaining_running
        ++ groups_of p.seq_groups
        ++ groups_of r.decode_seq_groups
        ++ groups_of w.decode_seq_groups;
    swapped = remaining_swapped ++ r.swapped_out;
  }

  -- The end of `_schedule_default`, with its assertions.
  unfoldable pub finish_default :
      Scheduler M
      → List SequenceGroup
      → PrefillState M
      → List SequenceGroup
      → RunningState M
      → List SequenceGroup
      → SwappedState M
      → Result (SchedulerOutputs × Scheduler M)
  unfolding assert_budget post_init default_outputs default_queues
  finish_default s remaining_waiting p remaining_running r remaining_swapped w = do
    assert_budget w.budget s.scheduler_config
    assert (length r.prefill_seq_groups == 0)
    assert (length w.prefill_seq_groups == 0)
    outputs ← post_init (default_outputs s p r w)
    ok (outputs, default_queues remaining_waiting p remaining_running r remaining_swapped w)

  -- The adapters of the running groups, if LoRA is on.
  unfoldable pub start_loras : Scheduler M → Option (List ℕ)
  start_loras s = if lora_enabled s then some (dedup (running_loras s.running)) else none

  -- The budget of `_schedule_default`, in which the running sequences count.
  unfoldable pub default_budget : Scheduler M → SchedulingBudget
  unfolding count_running
  default_budget s =
      count_running
        (new_budget (pos s.scheduler_config.max_num_batched_tokens)
          (pos s.scheduler_config.max_num_seqs))
        s.running

  unfoldable pub schedule_default :
      (ℕ → ℤ) → ℤ → ℤ → Scheduler M → Result (SchedulerOutputs × Scheduler M)
  unfolding default_prefills default_running swapped_part default_budget start_loras finish_default
  schedule_default clock now later s = do
    (remaining_waiting, p) ← default_prefills clock s (default_budget s) (start_loras s)
    (remaining_running, r) ← default_running now p
    (remaining_swapped, w) ← swapped_part (length p.seq_groups == 0) later p.scheduler r
    finish_default s remaining_waiting p remaining_running r remaining_swapped w
