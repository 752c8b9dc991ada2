-- ===== src/Sequence/Synced.antt =====
-- The logical blocks of a sequence agree with its data (`__init__` and `append_token_id` of
-- vllm_blend/vllm/sequence.py).
use mathlib.Core.List.{append_assoc, append-nil}
use cache_blend.Prelude.{
  ℕ, ◌<◌, ◌≡◌, refl, sym, ap, ◌∙◌, inl, inr, ◌⊎◌, Option-cases, List, [], ◌∷◌, ◌++◌, length, Option,
  none, some, ok, raise, assertion_error, arith,
}
use cache_blend.Prelude.Int.{ℤ}
use cache_blend.Prelude.Dict.{Dict, lookup, int_eq}
use cache_blend.Utils.{cdiv}
use cache_blend.Block.{LogicalTokenBlock}
use cache_blend.Sequence.{
  Sequence, Logprob, append_loop, append_tokens_to_blocks, new_sequence, append_token_id,
  data_get_token_ids, data_append_token_id, new_sequence_data, bare_sequence,
}
use cache_blend.Sequence.Slots.{IsFilled, Filling, contents, append_loop-Filling, length-IsFilled}

-- The blocks hold the tokens of the prompt and of the output, in order, all but the last block full.
pub record IsSynced (s : Sequence) : Type 0 where
  pub sized : 0 < s.block_size
  pub filled : IsFilled s.block_size s.logical_token_blocks
  pub holds : contents s.logical_token_blocks ≡ data_get_token_ids s.seq_data

-- So there are as many blocks as the tokens need.
pub length-IsSynced :
    (s : Sequence)
    → IsSynced s
    → length s.logical_token_blocks ≡ cdiv (length (data_get_token_ids s.seq_data)) s.block_size
length-IsSynced s v =
    length-IsFilled s.block_size s.logical_token_blocks v.sized v.filled
    ∙ ap (λ (l : List ℤ). cdiv (length l) s.block_size) v.holds

-- What an append to the blocks leaves.
record Appends (s : Sequence) (ids : List ℤ) : Type 0 where
  blocks : List LogicalTokenBlock
  returns : append_tokens_to_blocks s ids ≡ ok (record s { logical_token_blocks = blocks })
  filled : IsFilled s.block_size blocks
  holds : contents blocks ≡ contents s.logical_token_blocks ++ ids

append_tokens_to_blocks-Appends :
    (s : Sequence) (ids : List ℤ)
    → 0 < s.block_size
    → IsFilled s.block_size s.logical_token_blocks
    → Appends s ids
unfolding append_tokens_to_blocks
append_tokens_to_blocks-Appends s ids pos f = record {
  blocks = z.blocks;
  returns = rw z.returns;
  filled = z.filled;
  holds = z.holds;
}
  where
    z :
        Filling s.block_size
          (contents s.logical_token_blocks ++ ids)
          (append_loop (length ids) s.block_size ids 0 s.logical_token_blocks)
    z =
        append_loop-Filling (length ids) s.block_size ids 0 s.logical_token_blocks pos (omega arith)
          f

-- A new sequence over a positive block size is built without an error: its data is that of the prompt with
-- no output, its blocks are of the given size and hold the prompt, and there are as few as hold it.
pub new_sequence-IsSynced :
    (seq_id : ℕ) (prompt : List ℕ) (ids : List ℤ) (size : ℕ) (eos : Option ℤ) (lora : Option ℕ)
    → 0 < size
    → (s : Sequence) × (new_sequence seq_id prompt ids size eos lora ≡ ok s)
      × IsSynced s
      × (data_get_token_ids s.seq_data ≡ ids)
      × (s.seq_data.output_token_ids ≡ [])
      × (s.block_size ≡ size)
      × (contents s.logical_token_blocks ≡ ids)
      × (length s.logical_token_blocks ≡ cdiv (length ids) size)
unfolding new_sequence bare_sequence new_sequence_data data_get_token_ids contents
new_sequence-IsSynced seq_id prompt ids size eos lora pos = (
  made,
  z.returns,
  synced,
  append-nil ids,
  refl,
  refl,
  z.holds,
  length-IsSynced made synced ∙ ap (λ (l : List ℤ). cdiv (length l) size) (append-nil ids),
)
  where
    z : Appends (bare_sequence seq_id prompt ids size eos lora) ids
    z = append_tokens_to_blocks-Appends _ ids pos (inl refl)

    made : Sequence
    made = record (bare_sequence seq_id prompt ids size eos lora) {
      logical_token_blocks = z.blocks;
    }

    synced : IsSynced made
    synced = record { sized = pos; filled = z.filled; holds = z.holds ∙ sym (append-nil ids) }

-- A sampled token that has its log probability goes to the end of the output and into the blocks,
-- which stay in step with the data; without one the call fails its assertion.
pub append_token_id-IsSynced :
    (s : Sequence) (t : ℤ) (logprobs : Dict ℤ Logprob)
    → IsSynced s
    → ((lookup t logprobs ≡ none) × (append_token_id s t logprobs ≡ raise assertion_error))
      ⊎ ((lp : Logprob) × (s' : Sequence) × (lookup t logprobs ≡ some lp)
          × (append_token_id s t logprobs ≡ ok s')
          × IsSynced s'
          × (data_get_token_ids s'.seq_data ≡ data_get_token_ids s.seq_data ++ t ∷ []))
unfolding append_token_id data_append_token_id data_get_token_ids
append_token_id-IsSynced s t logprobs v = elim (Option-cases (lookup t logprobs)) [
  | inl e ↦ inl (e, rw e)
  | inr (lp, e) ↦ inr (
    lp,
    made lp,
    e,
    rw (e, z.returns),
    record {
      sized = v.sized;
      filled = z.filled;
      holds =
          z.holds
          ∙ ap (λ (l : List ℤ). l ++ t ∷ []) v.holds
          ∙ append_assoc s.seq_data.prompt_token_ids s.seq_data.output_token_ids (t ∷ []);
    },
    sym (append_assoc s.seq_data.prompt_token_ids s.seq_data.output_token_ids (t ∷ [])),
  )
]
  where
    z : Appends s (t ∷ [])
    z = append_tokens_to_blocks-Appends s (t ∷ []) v.sized v.filled

    made : Logprob → Sequence
    made lp = record s {
      logical_token_blocks = z.blocks;
      output_logprobs = s.output_logprobs ++ logprobs ∷ [];
      seq_data = data_append_token_id s.seq_data t lp.logprob;
    }
