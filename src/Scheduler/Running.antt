-- ===== src/Scheduler/Running.antt =====
-- `_schedule_running` of vllm_blend/vllm/core/scheduler.py. The queue is a list, its front first.
pub mod Invariant
pub mod Swaps
pub mod Termination
use cache_blend.Prelude.{
  ℕ, zero, suc, Bool, true, false, ◌&&◌, not, Option, none, some, List, [], ◌∷◌, ◌++◌, mem, remove,
  length, ltb, Result, ok, raise, ◌>>=◌, ◌>>◌, assert, check, key_error, out_of_fuel, if◌then◌else◌,
  ◌==◌, last?,
}
use cache_blend.Prelude.Int.{ℤ, pos, ◌-ℤ◌}
use cache_blend.Prelude.Dict.{Dict, int_beq}
use cache_blend.Sequence.{SequenceStatus}
use cache_blend.Sequence.Group.{SequenceGroup, get_max_num_running_seqs, group_is_prefill}
use cache_blend.Interfaces.{BlockSpaceManager}
use cache_blend.Policy.{sort_by_priority}
use cache_blend.Scheduler.{
  ScheduledSequenceGroup, PreemptionMode, swap, recompute, group_lora_int_id, new_tokens_of,
  append_slots, preempt,
}
use cache_blend.Scheduler.Budget.{
  SchedulingBudget, remaining_token_budget, add_num_batched_tokens, subtract_num_batched_tokens,
  add_num_seqs, subtract_num_seqs,
}

-- `set.add`, and `set.remove`, which raises if the item is not there.
abbrev pub add_lora : ℕ → List ℕ → List ℕ
add_lora i is = if mem i is then is else is ++ i ∷ []

unfoldable pub remove_lora : ℕ → Option (List ℕ) → Result (Option (List ℕ))
remove_lora i none = ok none
remove_lora i (some is) =
    if ltb 0 i then (do check (mem i is) key_error; ok (some (remove i is))) else ok (some is)

unfoldable pub note_lora : ℕ → Option (List ℕ) → Option (List ℕ)
note_lora i none = none
note_lora i (some is) = if ltb 0 i then some (add_lora i is) else some is

-- The variables of the loops: `SchedulerRunningOutputs`, the budget, the adapters and the block manager.
pub record RunningState (M : Type 0) : Type 0 where
  pub decode_seq_groups : List ScheduledSequenceGroup
  pub prefill_seq_groups : List ScheduledSequenceGroup
  pub preempted : List SequenceGroup
  pub swapped_out : List SequenceGroup
  pub blocks_to_swap_out : Dict ℕ ℕ
  pub blocks_to_copy : Dict ℕ (List ℕ)
  pub budget : SchedulingBudget
  pub curr_loras : Option (List ℕ)
  pub block_manager : M

unfoldable pub start_running :
    {M : Type 0} → SchedulingBudget → Option (List ℕ) → M → RunningState M
start_running budget curr_loras m = record {
  decode_seq_groups = [];
  prefill_seq_groups = [];
  preempted = [];
  swapped_out = [];
  blocks_to_swap_out = [];
  blocks_to_copy = [];
  budget = budget;
  curr_loras = curr_loras;
  block_manager = m;
}

-- The queue without its last group: `pop`.
unfoldable pub but_last : List SequenceGroup → List SequenceGroup
but_last [] = []
but_last (g ∷ []) = []
but_last (g ∷ h ∷ gs) = g ∷ but_last (h ∷ gs)

module _ {M : Type 0} (manager : BlockSpaceManager M) (lookahead : ℕ) (enable_chunking : Bool) where
  -- A group is preempted and goes to the list of its mode.
  unfoldable pub preempt_into : RunningState M → SequenceGroup → Result (RunningState M)
  preempt_into s victim = do
    (mode, g, blocks, m) ← preempt manager s.block_manager victim s.blocks_to_swap_out
    ok (elim mode [
      | recompute ↦ record s {
        preempted = s.preempted ++ g ∷ [];
        blocks_to_swap_out = blocks;
        block_manager = m;
      }
      | swap ↦ record s {
        swapped_out = s.swapped_out ++ g ∷ [];
        blocks_to_swap_out = blocks;
        block_manager = m;
      }
    ])

  -- The head of the inner loop's body: the group's share of the budget and its adapter are given back.
  unfoldable pub give_back : RunningState M → SequenceGroup → ℤ → Result (RunningState M)
  unfolding remove_lora
  give_back s seq_group num_running_tokens = do
    loras ← remove_lora (group_lora_int_id seq_group) s.curr_loras
    ok (record s {
      budget =
          subtract_num_seqs
            (subtract_num_batched_tokens s.budget seq_group.request_id num_running_tokens)
            seq_group.request_id (pos (get_max_num_running_seqs seq_group));
      curr_loras = loras;
    })

  -- The `else` of the inner loop: the group runs.
  unfoldable pub run_group : RunningState M → SequenceGroup → ℤ → Result (RunningState M)
  unfolding note_lora
  run_group s seq_group num_running_tokens = do
    (copies, m) ← append_slots manager s.block_manager seq_group lookahead s.blocks_to_copy
    is_prefill ← group_is_prefill seq_group
    let added = add_num_batched_tokens s.budget seq_group.request_id num_running_tokens
    let s' = record s {
      blocks_to_copy = copies;
      block_manager = m;
      budget =
          if enable_chunking
          then add_num_seqs added seq_group.request_id (pos (get_max_num_running_seqs seq_group))
          else added;
      curr_loras = note_lora (group_lora_int_id seq_group) s.curr_loras;
    }
    ok (
        if is_prefill
        then record s' {
          prefill_seq_groups =
              s.prefill_seq_groups
              ++ record { seq_group = seq_group; token_chunk_size = num_running_tokens } ∷ [];
        }
        else record s' {
          decode_seq_groups =
              s.decode_seq_groups
              ++ record { seq_group = seq_group; token_chunk_size = pos 1 } ∷ [];
        })

  -- The inner loop over the rest of the queue, on fuel: the groups that are left, and the new state.
  unfoldable pub make_room :
      ℕ
      → List SequenceGroup
      → RunningState M
      → SequenceGroup
      → ℤ
      → Result (List SequenceGroup × RunningState M)
  unfolding give_back preempt_into run_group
  make_room zero queue s seq_group n = raise out_of_fuel
  make_room (suc fuel) queue s seq_group n = do
    fits ← manager.can_append_slots s.block_manager seq_group lookahead
    elim fits [
      | true ↦ do s' ← run_group s seq_group n; ok (queue, s')
      | false ↦ do
        s' ← give_back s seq_group n
        elim (last? queue) [
          | none ↦ do s'' ← preempt_into s' seq_group; ok (queue, s'')
          | some victim ↦ do
            s'' ← preempt_into s' victim
            make_room fuel (but_last queue) s'' seq_group n
        ]
    ]

  -- The outer loop, on fuel.
  unfoldable pub running_loop :
      ℕ → List SequenceGroup → RunningState M → Result (List SequenceGroup × RunningState M)
  unfolding make_room
  running_loop fuel [] s = ok ([], s)
  running_loop zero (g ∷ queue) s = raise out_of_fuel
  running_loop (suc fuel) (g ∷ queue) s = do
    let num_running_tokens =
        new_tokens_of g SequenceStatus.running enable_chunking (remaining_token_budget s.budget)
    assert (not (int_beq num_running_tokens (pos 0)))
    (queue', s') ← make_room (suc (length queue)) queue s g num_running_tokens
    running_loop fuel queue' s'

  unfoldable pub schedule_running :
      ℤ
      → List SequenceGroup
      → SchedulingBudget
      → Option (List ℕ)
      → M
      → Result (List SequenceGroup × RunningState M)
  unfolding running_loop start_running
  schedule_running now running_queue budget curr_loras m = do
    let queue = sort_by_priority now running_queue
    (queue', s) ← running_loop (length queue) queue (start_running budget curr_loras m)
    assert (length queue' == 0)
    ok (queue', s)
