-- ===== src/Blend/Chunks.antt =====
-- example/blend.py: the chunks of a prompt, the keys (or the values) of one layer that are collected
-- from them and put end to end, and the prompt that is blended. `decode` stands for `tokenizer.decode`, and
-- `collected` for a run of the engine on one text: the rows that its layer keeps in `hack_kv`.
use cache_blend.Prelude.{ℕ, ◌+◌, ◌-◌, ◌≡◌, List, [], ◌∷◌, ◌++◌, map, length, take, drop}
use cache_blend.Prelude.Int.{ℤ}

-- `[s_start_full]`, the documents and the question with its end marker.
unfoldable pub doc_chunk_ids : List ℤ → List ℤ → List ℤ → List (List ℤ) → List ℤ → List (List ℤ)
doc_chunk_ids s_start_full s_start s_end docs q_ids =
    s_start_full
    ∷ (map (λ chunk_ids. s_start ++ chunk_ids) docs ++ (s_start ++ q_ids ++ s_end) ∷ [])

module _ {ℓ κ} {T : Type κ} {R : Type ℓ} (decode : List ℤ → T) (collected : T → List R) where
  -- The rows after the first chunk: `[s_start_1_len : len(ids) + 1]` of each.
  unfoldable pub joined_rest : ℕ → List (List ℤ) → List R
  joined_rest s_start_1_len [] = []
  joined_rest s_start_1_len (ids ∷ chunks) =
      drop s_start_1_len (take (length ids + 1) (collected (decode ids)))
      ++ joined_rest s_start_1_len chunks

  -- `chunk_past_key_values[j][0]` (and `[1]`) after the loop.
  unfoldable pub joined : ℕ → ℕ → List (List ℤ) → List R
  unfolding joined_rest
  joined s_start_len s_start_1_len [] = []
  joined s_start_len s_start_1_len (ids ∷ chunks) =
      take s_start_len (collected (decode ids)) ++ joined_rest s_start_1_len chunks

unfoldable pub input_rest : ℕ → List (List ℤ) → List ℤ
input_rest s_start_1_len [] = []
input_rest s_start_1_len (ids ∷ chunks) =
    drop (s_start_1_len - 1) ids ++ input_rest s_start_1_len chunks

unfoldable pub input_ids : ℕ → List (List ℤ) → List ℤ
unfolding input_rest
input_ids s_start_1_len [] = []
input_ids s_start_1_len (ids ∷ chunks) = ids ++ input_rest s_start_1_len chunks

-- The text of each chunk is cut into the begin-of-sequence token and the chunk's own tokens again.
abbrev pub AllRestored {κ} : {T : Type κ} → (List ℤ → T) → (T → List ℤ) → ℤ → List (List ℤ) → Type 0
AllRestored decode tokenize bos [] = Unit {0}
AllRestored decode tokenize bos (ids ∷ chunks) =
    (tokenize (decode ids) ≡ bos ∷ ids) × AllRestored decode tokenize bos chunks
