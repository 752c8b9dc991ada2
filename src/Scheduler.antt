-- ===== src/Scheduler.antt =====
-- `Scheduler` of vllm_blend/vllm/core/scheduler.py: its configuration and state, and the
-- operations on one group. The block manager is one behind `BlockSpaceManager`. A group stands in one queue
-- or one output at a time, so that a call that changes a group returns the changed one. LoRA is given by the
-- number of adapters that fit, if it is enabled, and the delay factor is a ratio of two numbers.
pub mod Budget
pub mod Config
pub mod Running
pub mod Swapped
pub mod Prefills
pub mod Rounds
pub mod Chunked
pub mod Calls
pub mod Abort
pub mod Requests
pub mod Restored
use cache_blend.Prelude.{
  ℕ, zero, suc, ◌+◌, ◌-◌, Bool, true, false, ◌||◌, ◌&&◌, not, Option, none, some, List, [], ◌∷◌,
  ◌++◌, map, mem, remove, min, length, ltb, Result, ok, raise, ◌>>=◌, ◌>>◌, assert, check,
  runtime_error, key_error, ◌==◌, if◌then◌else◌,
}
use cache_blend.Prelude.Int.{ℤ, pos, ◌+ℤ◌, ◌-ℤ◌, ◌*ℤ◌, ltb_ℤ}
use cache_blend.Prelude.Dict.{Dict, lookup, insert, nat_eq}
use cache_blend.Sequence.{
  Sequence, SequenceData, SequenceStatus, waiting, running, swapped, finished_aborted, is_finished,
  get_num_new_tokens, reset_state_for_recompute,
}
use cache_blend.Sequence.Group.{
  SequenceGroup, SamplingParams, RequestMetrics, get_seqs, status_beq, get_max_num_running_seqs,
  group_is_finished,
}
use cache_blend.Utils.{extend_all}
use cache_blend.Interfaces.{BlockSpaceManager}

pub data PreemptionMode : Type 0 where
  swap recompute : PreemptionMode

pub record ScheduledSequenceGroup : Type 0 where
  pub seq_group : SequenceGroup
  pub token_chunk_size : ℤ

pub record SchedulerConfig : Type 0 where
  pub max_num_batched_tokens : ℕ
  pub max_num_seqs : ℕ
  pub max_model_len : ℕ
  pub num_lookahead_slots : ℕ
  pub delay_num : ℕ
  pub delay_den : ℕ
  pub chunked_prefill_enabled : Bool

pub record Scheduler (M : Type 0) : Type 0 where
  pub scheduler_config : SchedulerConfig
  pub max_loras : Option ℕ
  pub prompt_limit : ℕ
  pub block_manager : M
  pub waiting : List SequenceGroup
  pub running : List SequenceGroup
  pub swapped : List SequenceGroup
  pub prev_time : ℤ
  pub prev_prompt : Bool
  pub last_prompt_latency : ℤ

unfoldable pub new_scheduler : {M : Type 0} → SchedulerConfig → Option ℕ → M → Scheduler M
new_scheduler config max_loras block_manager = record {
  scheduler_config = config;
  max_loras = max_loras;
  prompt_limit =
      if config.chunked_prefill_enabled
      then config.max_model_len
      else min config.max_model_len config.max_num_batched_tokens;
  block_manager = block_manager;
  waiting = [];
  running = [];
  swapped = [];
  prev_time = pos 0;
  prev_prompt = false;
  last_prompt_latency = pos 0;
}

-- `SequenceGroup.lora_int_id`: 0 without an adapter.
unfoldable pub group_lora_int_id : SequenceGroup → ℕ
group_lora_int_id g = elim g.lora_request [ none ↦ 0 | some i ↦ i ]

unfoldable pub lora_enabled : {M : Type 0} → Scheduler M → Bool
lora_enabled s = elim s.max_loras [ none ↦ false | some n ↦ true ]

unfoldable pub get_num_lookahead_slots : {M : Type 0} → Scheduler M → Bool → ℕ
get_num_lookahead_slots s is_prefill =
    if is_prefill then 0 else s.scheduler_config.num_lookahead_slots

unfoldable pub add_seq_group : {M : Type 0} → Scheduler M → SequenceGroup → Scheduler M
add_seq_group s seq_group = record s { waiting = s.waiting ++ seq_group ∷ [] }

unfoldable pub has_unfinished_seqs : {M : Type 0} → Scheduler M → Bool
has_unfinished_seqs s =
    not (length s.waiting == 0) || (not (length s.running == 0) || not (length s.swapped == 0))

unfoldable pub get_num_unfinished_seq_groups : {M : Type 0} → Scheduler M → ℕ
get_num_unfinished_seq_groups s = length s.waiting + length s.running + length s.swapped

unfoldable pub without_finished : List SequenceGroup → List SequenceGroup
without_finished [] = []
without_finished (g ∷ gs) =
    let rest = without_finished gs in if group_is_finished g then rest else g ∷ rest

unfoldable pub free_finished_seq_groups : {M : Type 0} → Scheduler M → Scheduler M
unfolding without_finished
free_finished_seq_groups s = record s { running = without_finished s.running }

-- Over the sequences of a group: those of the status `from` are changed by `f`.
unfoldable pub update_status :
    SequenceStatus → (Sequence → Sequence) → Dict ℕ Sequence → Dict ℕ Sequence
update_status from f [] = []
update_status from f ((k, s) ∷ d) =
    (k, if status_beq s.status from then f s else s) ∷ update_status from f d

unfoldable pub update_seqs : SequenceStatus → (Sequence → Sequence) → SequenceGroup → SequenceGroup
unfolding update_status
update_seqs from f g = record g { seqs_dict = update_status from f g.seqs_dict }

-- `seq.status = to`.
abbrev pub with_status : SequenceStatus → Sequence → Sequence
with_status to s = record s { status = to }

-- `for seq in seq_group.get_seqs(status=from): seq.status = to`.
unfoldable pub set_status : SequenceStatus → SequenceStatus → SequenceGroup → SequenceGroup
unfolding update_seqs
set_status from to g = update_seqs from (with_status to) g

-- `dict.update`.
unfoldable pub update_dict : Dict ℕ ℕ → Dict ℕ ℕ → Dict ℕ ℕ
update_dict d [] = d
update_dict d ((k, v) ∷ new) = update_dict (insert k v d) new

unfoldable pub num_new_tokens_of : List Sequence → ℕ
num_new_tokens_of [] = 0
num_new_tokens_of (s ∷ ss) = get_num_new_tokens s + num_new_tokens_of ss

abbrev pub min_ℤ : ℤ → ℤ → ℤ
min_ℤ a b = if ltb_ℤ b a then b else a

-- `_get_num_new_tokens`; `remaining` is the remaining token budget.
unfoldable pub new_tokens_of : SequenceGroup → SequenceStatus → Bool → ℤ → ℤ
unfolding num_new_tokens_of
new_tokens_of seq_group status enable_chunking remaining =
    let seqs = get_seqs seq_group (some status) in
    let num_new_tokens = pos (num_new_tokens_of seqs) in
    if enable_chunking && length seqs == 1 then min_ℤ num_new_tokens remaining else num_new_tokens

module _ {M : Type 0} (manager : BlockSpaceManager M) where
  unfoldable pub fork_seq : Scheduler M → Sequence → Sequence → Result (Scheduler M)
  fork_seq s parent_seq child_seq = do
    m ← manager.fork s.block_manager parent_seq child_seq
    ok (record s { block_manager = m })

  unfoldable pub free_seq : M → Sequence → Result M
  free_seq m seq = manager.free m seq

  -- A loop that frees sequences.
  unfoldable pub free_seqs : M → List Sequence → Result M
  unfolding free_seq
  free_seqs m [] = ok m
  free_seqs m (s ∷ ss) = do m' ← free_seq m s; free_seqs m' ss

  -- `_allocate_and_set_running`.
  unfoldable pub allocate_and_set_running : M → SequenceGroup → Result (SequenceGroup × M)
  unfolding set_status
  allocate_and_set_running m seq_group = do
    m' ← manager.allocate m seq_group
    ok (set_status SequenceStatus.waiting SequenceStatus.running seq_group, m')

  unfoldable pub append_slots_of :
      M → List Sequence → ℕ → Dict ℕ (List ℕ) → Result (Dict ℕ (List ℕ) × M)
  append_slots_of m [] num_lookahead_slots blocks_to_copy = ok (blocks_to_copy, m)
  append_slots_of m (s ∷ ss) num_lookahead_slots blocks_to_copy = do
    (cows, m') ← manager.append_slots m s num_lookahead_slots
    append_slots_of m' ss num_lookahead_slots (extend_all blocks_to_copy cows)

  -- `_append_slots`; `num_lookahead_slots` is that of a decode.
  unfoldable pub append_slots :
      M → SequenceGroup → ℕ → Dict ℕ (List ℕ) → Result (Dict ℕ (List ℕ) × M)
  unfolding append_slots_of
  append_slots m seq_group num_lookahead_slots blocks_to_copy =
      append_slots_of m (get_seqs seq_group (some SequenceStatus.running)) num_lookahead_slots
        blocks_to_copy

  -- `_preempt_by_recompute`.
  unfoldable pub preempt_by_recompute : M → SequenceGroup → Result (SequenceGroup × M)
  unfolding free_seqs update_seqs
  preempt_by_recompute m seq_group = do
    let seqs = get_seqs seq_group (some SequenceStatus.running)
    assert (length seqs == 1)
    m' ← free_seqs m (map (with_status SequenceStatus.waiting) seqs)
    ok (
      update_seqs SequenceStatus.running
          (λ s. record (reset_state_for_recompute s) { status = SequenceStatus.waiting }) seq_group,
      m',
    )

  -- `_swap_in`.
  unfoldable pub swap_in : M → SequenceGroup → Dict ℕ ℕ → Result (SequenceGroup × Dict ℕ ℕ × M)
  unfolding set_status update_dict
  swap_in m seq_group blocks_to_swap_in = do
    (mapping, m') ← manager.swap_in m seq_group 0
    ok (
      set_status SequenceStatus.swapped SequenceStatus.running seq_group,
      update_dict blocks_to_swap_in mapping,
      m',
    )

  -- `_swap_out`, which `_preempt_by_swap` calls.
  unfoldable pub swap_out : M → SequenceGroup → Dict ℕ ℕ → Result (SequenceGroup × Dict ℕ ℕ × M)
  unfolding set_status update_dict
  swap_out m seq_group blocks_to_swap_out = do
    can ← manager.can_swap_out m seq_group
    check can runtime_error
    (mapping, m') ← manager.swap_out m seq_group
    ok (
      set_status SequenceStatus.running SequenceStatus.swapped seq_group,
      update_dict blocks_to_swap_out mapping,
      m',
    )

  -- `_preempt`, with no mode given, as all of its calls have it.
  unfoldable pub preempt :
      M → SequenceGroup → Dict ℕ ℕ → Result (PreemptionMode × SequenceGroup × Dict ℕ ℕ × M)
  unfolding preempt_by_recompute swap_out
  preempt m seq_group blocks_to_swap_out =
      if get_max_num_running_seqs seq_group == 1
      then (do
        (g, m') ← preempt_by_recompute m seq_group
        ok (recompute, g, blocks_to_swap_out, m'))
      else (do (g, blocks, m') ← swap_out m seq_group blocks_to_swap_out; ok (swap, g, blocks, m'))
