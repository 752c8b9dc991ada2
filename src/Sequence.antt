-- ===== src/Sequence.antt =====
-- vllm_blend/vllm/sequence.py: the states of a sequence, the data of a sequence and its logical blocks.
-- Log probabilities are integers in some fixed unit. Python's built-in `hash` is the parameter of
-- `hash_of_block`. `append_loop` is the `while` loop of `_append_tokens_to_blocks`, on fuel.
pub mod Data
pub mod Slots
pub mod Synced
pub mod Group
pub mod Metadata
use cache_blend.Prelude.{
  ℕ, zero, suc, ◌+◌, ◌-◌, ◌*◌, Bool, true, false, ◌&&◌, not, Option, none, some, List, [], ◌∷◌,
  ◌++◌, ◌==◌, ltb, leb, length, take, drop, Result, ok, raise, ◌>>=◌, ◌>>◌, assert, or_raise,
  index_error, assertion_error, out_of_fuel, if◌then◌else◌, last?, set_last,
}
use cache_blend.Prelude.Int.{ℤ, pos, ◌+ℤ◌}
use cache_blend.Prelude.Dict.{Dict, lookup, int_eq}
use cache_blend.Block.{
  LogicalTokenBlock, new_logical_block, get_num_empty_slots, is_full, append_tokens,
}

pub data SequenceStatus : Type 0 where
  waiting running swapped : SequenceStatus
  finished_stopped finished_length_capped finished_aborted finished_ignored : SequenceStatus

-- `SequenceStatus.is_finished`.
unfoldable pub status_is_finished : SequenceStatus → Bool
status_is_finished finished_stopped = true
status_is_finished finished_length_capped = true
status_is_finished finished_aborted = true
status_is_finished finished_ignored = true
status_is_finished _ = false

pub data FinishReason : Type 0 where
  stop capped abort : FinishReason

-- `SequenceStatus.get_finished_reason`; `capped` is the string "length".
unfoldable pub get_finished_reason : SequenceStatus → Option FinishReason
get_finished_reason finished_stopped = some stop
get_finished_reason finished_length_capped = some capped
get_finished_reason finished_aborted = some abort
get_finished_reason finished_ignored = some capped
get_finished_reason _ = none

pub data SequenceStage : Type 0 where
  prefill decode : SequenceStage

pub record SequenceData : Type 0 where
  pub prompt_token_ids : List ℤ
  pub output_token_ids : List ℤ
  pub cumulative_logprob : ℤ
  pub num_computed_tokens : ℕ
  pub stage : SequenceStage

unfoldable pub new_sequence_data : List ℤ → SequenceData
new_sequence_data prompt_token_ids = record {
  prompt_token_ids = prompt_token_ids;
  output_token_ids = [];
  cumulative_logprob = pos 0;
  num_computed_tokens = 0;
  stage = prefill;
}

-- `SequenceData.append_token_id`.
unfoldable pub data_append_token_id : SequenceData → ℤ → ℤ → SequenceData
data_append_token_id d token_id logprob = record d {
  output_token_ids = d.output_token_ids ++ token_id ∷ [];
  cumulative_logprob = d.cumulative_logprob +ℤ logprob;
}

unfoldable pub data_get_len : SequenceData → ℕ
data_get_len d = length d.output_token_ids + length d.prompt_token_ids

unfoldable pub data_get_token_ids : SequenceData → List ℤ
data_get_token_ids d = d.prompt_token_ids ++ d.output_token_ids

-- `get_len() - get_num_computed_tokens()`; the assertion of `update_num_computed_tokens` keeps the
-- difference from going below zero.
unfoldable pub get_num_uncomputed_tokens : SequenceData → ℕ
unfolding data_get_len
get_num_uncomputed_tokens d = data_get_len d - d.num_computed_tokens

unfoldable pub update_num_computed_tokens : SequenceData → ℕ → Result SequenceData
unfolding data_get_len get_num_uncomputed_tokens
update_num_computed_tokens d num_new_computed_tokens = do
  let d' = record d { num_computed_tokens = d.num_computed_tokens + num_new_computed_tokens }
  assert (leb d'.num_computed_tokens (data_get_len d'))
  ok (if get_num_uncomputed_tokens d' == 0 then record d' { stage = decode } else d')

-- `SequenceData.reset_state_for_recompute`.
unfoldable pub data_reset_state_for_recompute : SequenceData → SequenceData
data_reset_state_for_recompute d = record d { num_computed_tokens = 0; stage = prefill }

-- `SequenceData.get_last_token_id`.
unfoldable pub data_get_last_token_id : SequenceData → Result ℤ
data_get_last_token_id d = elim d.output_token_ids [
  | [] ↦ or_raise (last? d.prompt_token_ids) index_error
  | t ∷ ts ↦ or_raise (last? (t ∷ ts)) index_error
]

pub record Logprob : Type 0 where
  pub logprob : ℤ
  pub rank : Option ℕ
  pub decoded_token : Option (List ℕ)

-- Texts are lists of code points. The fields for incremental detokenization are left out: only
-- the detokenizer touches them.
pub record Sequence : Type 0 where
  pub seq_id : ℕ
  pub prompt : List ℕ
  pub block_size : ℕ
  pub eos_token_id : Option ℤ
  pub lora_request : Option ℕ
  pub seq_data : SequenceData
  pub output_logprobs : List (Dict ℤ Logprob)
  pub output_text : List ℕ
  pub logical_token_blocks : List LogicalTokenBlock
  pub status : SequenceStatus

unfoldable pub append_logical_block : ℕ → List LogicalTokenBlock → List LogicalTokenBlock
append_logical_block block_size blocks = blocks ++ new_logical_block (length blocks) block_size ∷ []

-- The first half of the loop's body: the last block exists and has room.
unfoldable pub ensure_room : ℕ → List LogicalTokenBlock → List LogicalTokenBlock
unfolding append_logical_block
ensure_room block_size blocks = elim (last? blocks) [
  | none ↦
      let blocks' = append_logical_block block_size blocks in
      elim (last? blocks') [
        | none ↦ blocks'
        | some b ↦ if is_full b then append_logical_block block_size blocks' else blocks'
      ]
  | some b ↦ if is_full b then append_logical_block block_size blocks else blocks
]

-- The second half: the last block takes what it has room for. The number is the cursor's step.
unfoldable pub fill_last : List LogicalTokenBlock → List ℤ → Result (List LogicalTokenBlock × ℕ)
fill_last blocks rest = do
  last_block ← or_raise (last? blocks) index_error
  let num_empty_slots = get_num_empty_slots last_block
  last_block' ← append_tokens last_block (take num_empty_slots rest)
  ok (set_last blocks last_block', num_empty_slots)

unfoldable pub append_loop :
    ℕ → ℕ → List ℤ → ℕ → List LogicalTokenBlock → Result (List LogicalTokenBlock)
append_loop zero block_size token_ids cursor blocks =
    if ltb cursor (length token_ids) then raise out_of_fuel else ok blocks
append_loop (suc fuel) block_size token_ids cursor blocks =
    let round : Result (List LogicalTokenBlock) =
      fill_last (ensure_room block_size blocks) (drop cursor token_ids) >>= λ r.
      append_loop fuel block_size token_ids (cursor + r.1) r.0 in
    if ltb cursor (length token_ids) then round else ok blocks

-- Each round takes at least one token, so as many rounds as tokens are enough.
unfoldable pub append_tokens_to_blocks : Sequence → List ℤ → Result Sequence
append_tokens_to_blocks s token_ids = do
  blocks ← append_loop (length token_ids) s.block_size token_ids 0 s.logical_token_blocks
  ok (record s { logical_token_blocks = blocks })

-- The fields that `Sequence.__init__` sets before and after it fills the blocks.
unfoldable pub bare_sequence : ℕ → List ℕ → List ℤ → ℕ → Option ℤ → Option ℕ → Sequence
bare_sequence seq_id prompt prompt_token_ids block_size eos_token_id lora_request = record {
  seq_id = seq_id;
  prompt = prompt;
  block_size = block_size;
  eos_token_id = eos_token_id;
  lora_request = lora_request;
  seq_data = new_sequence_data prompt_token_ids;
  output_logprobs = [];
  output_text = [];
  logical_token_blocks = [];
  status = waiting;
}

-- `Sequence.__init__`.
unfoldable pub new_sequence : ℕ → List ℕ → List ℤ → ℕ → Option ℤ → Option ℕ → Result Sequence
unfolding append_tokens_to_blocks bare_sequence new_sequence_data
new_sequence seq_id prompt prompt_token_ids block_size eos_token_id lora_request =
    append_tokens_to_blocks
      (bare_sequence seq_id prompt prompt_token_ids block_size eos_token_id lora_request)
      prompt_token_ids

unfoldable pub lora_int_id : Sequence → ℕ
lora_int_id s = elim s.lora_request [ none ↦ 0 | some n ↦ n ]

unfoldable pub num_hashed_tokens_of_block : Sequence → ℕ → ℕ
num_hashed_tokens_of_block s logical_idx = logical_idx * s.block_size + s.block_size

unfoldable pub hash_of_block : (List ℤ → ℕ → ℤ) → Sequence → ℕ → ℤ
unfolding num_hashed_tokens_of_block data_get_token_ids lora_int_id
hash_of_block hash s logical_idx =
    let num_tokens = num_hashed_tokens_of_block s logical_idx in
    hash (take num_tokens (data_get_token_ids s.seq_data)) (lora_int_id s)

unfoldable pub append_token_id : Sequence → ℤ → Dict ℤ Logprob → Result Sequence
unfolding append_tokens_to_blocks data_append_token_id
append_token_id s token_id logprobs = do
  chosen ← or_raise (lookup token_id logprobs) assertion_error
  s' ← append_tokens_to_blocks s (token_id ∷ [])
  ok (record s' {
    output_logprobs = s'.output_logprobs ++ logprobs ∷ [];
    seq_data = data_append_token_id s'.seq_data token_id chosen.logprob;
  })

unfoldable pub get_len : Sequence → ℕ
unfolding data_get_len
get_len s = data_get_len s.seq_data

unfoldable pub is_finished : Sequence → Bool
is_finished s = status_is_finished s.status

-- `text[:-buffer_length]`, where the sequence still runs and a buffer is asked for.
unfoldable pub get_output_text_to_return : Sequence → ℕ → List ℕ
unfolding is_finished
get_output_text_to_return s buffer_length =
    let truncate = not (buffer_length == 0) && not (is_finished s) in
    if truncate then take (length s.output_text - buffer_length) s.output_text else s.output_text

-- `fork`: a deep copy under a new id.
unfoldable pub fork : Sequence → ℕ → Sequence
fork s new_seq_id = record s { seq_id = new_seq_id }

-- `Sequence.reset_state_for_recompute`.
unfoldable pub reset_state_for_recompute : Sequence → Sequence
unfolding data_reset_state_for_recompute
reset_state_for_recompute s = record s { seq_data = data_reset_state_for_recompute s.seq_data }

unfoldable pub get_num_new_tokens : Sequence → ℕ
unfolding get_num_uncomputed_tokens
get_num_new_tokens s = elim s.seq_data.stage [
  | decode ↦ 1
  | prefill ↦ get_num_uncomputed_tokens s.seq_data
]

unfoldable pub is_prefill : Sequence → Bool
is_prefill s = elim s.seq_data.stage [ prefill ↦ true | decode ↦ false ]
