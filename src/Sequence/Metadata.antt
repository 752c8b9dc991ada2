-- ===== src/Sequence/Metadata.antt =====
-- `SequenceGroupMetadata` of vllm_blend/vllm/sequence.py: what the engine sends of a group to the workers.
-- The state of the sampler and the multi-modal data are left out.
use cache_blend.Prelude.{
  ℕ, Bool, Option, none, some, List, [], ◌∷◌, Result, ok, raise, ◌>>=◌, index_error, if◌then◌else◌,
}
use cache_blend.Prelude.Int.{ℤ, pos}
use cache_blend.Prelude.Dict.{Dict}
use cache_blend.Sequence.{SequenceData, data_get_len}
use cache_blend.Sequence.Group.{SamplingParams}

pub record SequenceGroupMetadata : Type 0 where
  pub request_id : ℕ
  pub is_prompt : Bool
  pub seq_data : Dict ℕ SequenceData
  pub sampling_params : SamplingParams
  pub block_tables : Dict ℕ (List ℕ)
  pub token_chunk_size : ℤ
  pub lora_request : Option ℕ
  pub computed_block_nums : List ℕ

-- The chunk size of `__init__`: without one, the length of the first sequence, or 1 in a decode.
unfoldable pub chunk_size : Option ℤ → Bool → Dict ℕ SequenceData → Result ℤ
chunk_size (some n) is_prompt seq_data = ok n
chunk_size none is_prompt [] = if is_prompt then raise index_error else ok (pos 1)
chunk_size none is_prompt ((k, d) ∷ rest) = ok (if is_prompt then pos (data_get_len d) else pos 1)

-- `SequenceGroupMetadata.__init__`.
unfoldable pub new_metadata :
    ℕ
    → Bool
    → Dict ℕ SequenceData
    → SamplingParams
    → Dict ℕ (List ℕ)
    → Option ℤ
    → Option ℕ
    → List ℕ
    → Result SequenceGroupMetadata
unfolding chunk_size
new_metadata request_id is_prompt seq_data sampling_params block_tables token_chunk_size
      lora_request computed_block_nums =
    do
      size ← chunk_size token_chunk_size is_prompt seq_data
      ok (record {
        request_id = request_id;
        is_prompt = is_prompt;
        seq_data = seq_data;
        sampling_params = sampling_params;
        block_tables = block_tables;
        token_chunk_size = size;
        lora_request = lora_request;
        computed_block_nums = computed_block_nums;
      })
