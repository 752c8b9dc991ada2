-- ===== src/BlockV2/Table/Chunks.antt =====
-- How `BlockTable` of vllm_blend/vllm/core/block/block_table.py cuts tokens into blocks.
use native.Mathlib.Nat.{div-add-mod, mod-lt, mul_comm, div-lt_iff_lt-mul}
use cache_blend.Prelude.{
  length-take_le, ℕ, zero, suc, ◌+◌, ◌-◌, ◌*◌, ◌/◌, ◌%◌, ◌≤◌, ◌<◌, ◌≡◌, ◌⊎◌, inl, inr, refl, ap,
  ◌∙◌, List, [], ◌∷◌, ◌++◌, length, take, drop, take-append-drop, length-drop, length-append, arith,
}
use cache_blend.Prelude.Int.{ℤ}
use cache_blend.Utils.{cdiv, chunks}
use cache_blend.BlockV2.Table.{BlockTable, chunk_list, chunk_token_blocks_for_append}

-- The tokens of the chunks, one after the other.
abbrev pub flattened : List (List ℤ) → List ℤ
flattened [] = []
flattened (c ∷ cs) = c ++ flattened cs

-- No chunk is longer than a block.
abbrev pub AllShort : ℕ → List (List ℤ) → Type 0
AllShort size [] = Unit {0}
AllShort size (c ∷ cs) = (length c ≤ size) × AllShort size cs

chunks-AllShort : (rounds size : ℕ) (xs : List ℤ) → AllShort size (chunks rounds size xs)
unfolding chunks
chunks-AllShort zero size xs = tt
chunks-AllShort (suc rounds) size xs =
    (length-take_le size xs, chunks-AllShort rounds size (drop size xs))

-- `cdiv` counts the blocks that hold `a` tokens, and is the least such count.
pub cdiv-upper : (a b : ℕ) → 0 < b → a ≤ cdiv a b * b
unfolding cdiv
cdiv-upper a b pos =
    let split = div-add-mod (a + b - 1) b in
    let small = mod-lt (a + b - 1) {m = b} pos in
    omega (arith, split, small, mul_comm b ((a + b - 1) / b))

pub cdiv-least : (a b k : ℕ) → 0 < b → a ≤ k * b → cdiv a b ≤ k
unfolding cdiv
cdiv-least a b k pos h =
    let short = (div-lt_iff_lt-mul {k = b} {x = a + b - 1} {y = suc k} pos).1 (omega arith) in
    omega (arith, short)

pub length-chunks : (rounds size : ℕ) (xs : List ℤ) → length (chunks rounds size xs) ≡ rounds
unfolding chunks
length-chunks zero size xs = refl
length-chunks (suc rounds) size xs = ap suc (length-chunks rounds size (drop size xs))

flattened-chunks :
    (rounds size : ℕ) (xs : List ℤ)
    → length xs ≤ rounds * size
    → flattened (chunks rounds size xs) ≡ xs
unfolding chunks
flattened-chunks zero size [] h = refl
flattened-chunks zero size (x ∷ xs) h = absurd (omega arith)
flattened-chunks (suc rounds) size xs h =
    let shorter = length-drop size xs in
    let rest = flattened-chunks rounds size (drop size xs) (omega (arith, shorter)) in
    ap (λ ys. take size xs ++ ys) rest ∙ take-append-drop size xs

take-cases : (n : ℕ) (xs : List ℤ) → (take n xs ≡ xs) ⊎ (length (take n xs) ≡ n)
take-cases zero xs = inr refl
take-cases (suc n) [] = inl refl
take-cases (suc n) (x ∷ xs) = elim (take-cases n xs) [
  | inl e ↦ inl (ap (λ ys. x ∷ ys) e)
  | inr e ↦ inr (ap suc e)
]

-- With blocks of at least one token, the pieces of the appended tokens give these tokens in their order, and
-- none is longer than a block. The first piece fits into the rest of the last block, and it fills that block
-- unless it holds all the tokens; the other pieces are as few as hold what it leaves.
pub chunk_token_blocks_for_append-flattened :
    (t : BlockTable) (token_ids : List ℤ)
    → 0 < t.block_size
    → (first : List ℤ) × (pieces : List (List ℤ)) × (chunk_token_blocks_for_append t token_ids
        ≡ first ∷ pieces)
      × (first ++ flattened pieces ≡ token_ids)
      × (t.num_full_slots % t.block_size + length first ≤ t.block_size)
      × ((t.num_full_slots % t.block_size + length first ≡ t.block_size) ⊎ (first ≡ token_ids))
      × AllShort t.block_size pieces
      × (length pieces ≡ cdiv (length token_ids - length first) t.block_size)
unfolding chunk_token_blocks_for_append chunk_list
chunk_token_blocks_for_append-flattened t token_ids pos =
    let first = t.block_size - t.num_full_slots % t.block_size in
    let rest = drop first token_ids in
    let small = mod-lt t.num_full_slots {m = t.block_size} pos in
    let short = length-take_le first token_ids in
    let whole = take-append-drop first token_ids in
    let left = length-drop first token_ids in
    let parts = ap length whole in
    let joined = length-append (take first token_ids) rest in
    let rounds = cdiv (length rest) t.block_size in
    (
      take first token_ids,
      chunks rounds t.block_size rest,
      refl,
      ap (λ ys. take first token_ids ++ ys)
            (flattened-chunks rounds t.block_size rest (cdiv-upper (length rest) t.block_size pos))
          ∙ whole,
      omega (arith, short, small),
      elim (take-cases first token_ids) [
        | inl all ↦ inr all
        | inr full ↦ inl (omega (arith, full, small))
      ],
      chunks-AllShort rounds t.block_size rest,
      length-chunks rounds t.block_size rest
          ∙ ap (λ n. cdiv n t.block_size) (omega (arith, parts, joined)),
    )
