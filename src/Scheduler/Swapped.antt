-- ===== src/Scheduler/Swapped.antt =====
-- `_schedule_swapped` of vllm_blend/vllm/core/scheduler.py.
pub mod Invariant
pub mod Limits
use cache_blend.Prelude.{
  ℕ, zero, suc, Bool, true, false, ◌&&◌, ◌||◌, not, Option, none, some, List, [], ◌∷◌, ◌++◌, mem,
  length, ltb, leb, Result, ok, raise, ◌>>=◌, ◌>>◌, assert, or_raise, assertion_error, type_error,
  if◌then◌else◌,
}
use cache_blend.Prelude.Int.{ℤ, pos}
use cache_blend.Prelude.Dict.{Dict, int_beq}
use cache_blend.Sequence.{SequenceStatus}
use cache_blend.Sequence.Group.{SequenceGroup, get_max_num_running_seqs, group_is_prefill}
use cache_blend.Interfaces.{BlockSpaceManager}
use cache_blend.Policy.{sort_by_priority}
use cache_blend.Scheduler.{
  ScheduledSequenceGroup, group_lora_int_id, new_tokens_of, append_slots, swap_in,
}
use cache_blend.Scheduler.Budget.{
  SchedulingBudget, can_schedule, remaining_token_budget, add_num_batched_tokens, add_num_seqs,
}
use cache_blend.Scheduler.Running.{note_lora}

-- The variables of the loop: `SchedulerSwappedInOutputs`, the groups left over, front first, the budget,
-- the adapters and the block manager.
pub record SwappedState (M : Type 0) : Type 0 where
  pub decode_seq_groups : List ScheduledSequenceGroup
  pub prefill_seq_groups : List ScheduledSequenceGroup
  pub blocks_to_swap_in : Dict ℕ ℕ
  pub blocks_to_copy : Dict ℕ (List ℕ)
  pub leftover : List SequenceGroup
  pub budget : SchedulingBudget
  pub curr_loras : Option (List ℕ)
  pub block_manager : M

unfoldable pub start_swapped :
    {M : Type 0} → SchedulingBudget → Option (List ℕ) → M → SwappedState M
start_swapped budget curr_loras m = record {
  decode_seq_groups = [];
  prefill_seq_groups = [];
  blocks_to_swap_in = [];
  blocks_to_copy = [];
  leftover = [];
  budget = budget;
  curr_loras = curr_loras;
  block_manager = m;
}

-- Whether the adapter of a group has no place: always false if LoRA is off. `curr_loras` is there if LoRA is on.
unfoldable pub lora_is_full : Option ℕ → Option (List ℕ) → ℕ → Result Bool
lora_is_full none curr_loras i = ok false
lora_is_full (some max_loras) curr_loras i = do
  loras ← or_raise curr_loras assertion_error
  ok (ltb 0 i && (not (mem i loras) && leb max_loras (length loras)))

-- `lora_int_id`, which stays 0 if LoRA is off.
unfoldable pub lora_of : Option ℕ → SequenceGroup → ℕ
lora_of none g = 0
lora_of (some max_loras) g = group_lora_int_id g

-- `deque.extendleft`: each item goes to the front, so that the last one stands first.
unfoldable pub extendleft : List SequenceGroup → List SequenceGroup → List SequenceGroup
extendleft queue [] = queue
extendleft queue (g ∷ gs) = extendleft (g ∷ queue) gs

-- `num_new_tokens == 0 or not budget.can_schedule(...)`, which tests the second only if needed.
unfoldable pub over_budget : SchedulingBudget → ℤ → ℤ → Result Bool
over_budget b num_new_tokens num_new_seqs =
    if int_beq num_new_tokens (pos 0)
    then ok true
    else (do can ← can_schedule b num_new_tokens num_new_seqs; ok (not can))

module _ {M : Type 0} (manager : BlockSpaceManager M) (lookahead : ℕ) (max_loras : Option ℕ)
    (enable_chunking : Bool) where
  -- The group is swapped in and runs.
  unfoldable pub swap_in_group : SwappedState M → SequenceGroup → ℤ → ℤ → Result (SwappedState M)
  unfolding note_lora
  swap_in_group s seq_group num_new_tokens num_new_seqs = do
    (g, blocks, m) ← swap_in manager s.block_manager seq_group s.blocks_to_swap_in
    (copies, m') ← append_slots manager m g lookahead s.blocks_to_copy
    is_prefill ← group_is_prefill g
    assert (is_prefill || int_beq num_new_tokens (pos 1))
    let s' = record s {
      blocks_to_swap_in = blocks;
      blocks_to_copy = copies;
      block_manager = m';
      curr_loras = note_lora (lora_of max_loras seq_group) s.curr_loras;
      budget =
          add_num_seqs (add_num_batched_tokens s.budget g.request_id num_new_tokens) g.request_id
            num_new_seqs;
    }
    ok (
        if is_prefill
        then record s' {
          prefill_seq_groups =
              s.prefill_seq_groups
              ++ record { seq_group = g; token_chunk_size = num_new_tokens } ∷ [];
        }
        else record s' {
          decode_seq_groups =
              s.decode_seq_groups ++ record { seq_group = g; token_chunk_size = pos 1 } ∷ [];
        })

  -- The loop: the groups that are left, and the state.
  unfoldable pub swapped_loop :
      List SequenceGroup → SwappedState M → Result (List SequenceGroup × SwappedState M)
  unfolding swap_in_group lora_is_full over_budget
  swapped_loop [] s = ok ([], s)
  swapped_loop (g ∷ queue) s = do
    can ← manager.can_swap_in s.block_manager g 0
    elim can [
      | false ↦ ok (g ∷ queue, s)
      | true ↦ do
        full ← lora_is_full max_loras s.curr_loras (group_lora_int_id g)
        elim full [
          | true ↦ swapped_loop queue (record s { leftover = g ∷ s.leftover })
          | false ↦ do
            let num_new_seqs = pos (get_max_num_running_seqs g)
            let num_new_tokens =
                new_tokens_of g SequenceStatus.swapped enable_chunking
                  (remaining_token_budget s.budget)
            stop ← over_budget s.budget num_new_tokens num_new_seqs
            elim stop [
              | true ↦ ok (g ∷ queue, s)
              | false ↦ do s' ← swap_in_group s g num_new_tokens num_new_seqs; swapped_loop queue s'
            ]
        ]
    ]

  unfoldable pub schedule_swapped :
      ℤ
      → List SequenceGroup
      → SchedulingBudget
      → Option (List ℕ)
      → M
      → Result (List SequenceGroup × SwappedState M)
  unfolding swapped_loop start_swapped extendleft
  schedule_swapped now swapped_queue budget curr_loras m = do
    (queue, s) ←
        swapped_loop (sort_by_priority now swapped_queue) (start_swapped budget curr_loras m)
    ok (extendleft queue s.leftover, s)
