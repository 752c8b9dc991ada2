-- ===== src/Sequence/Slots/Filled.antt =====
-- The tokens in a list of logical blocks, and what it means that they are filled from the left.
use mathlib.Core.List.{append_assoc, append-nil}
use cache_blend.Prelude.{
  ℕ, suc, ◌+◌, ◌*◌, ◌<◌, ◌≡◌, sym, ◌∙◌, ◌⊎◌, List, [], ◌∷◌, ◌++◌, length, length-append, arith,
}
use cache_blend.Prelude.Int.{ℤ}
use cache_blend.Block.{LogicalTokenBlock, get_token_ids}
use cache_blend.Block.Logical.{IsSound, length-get_token_ids}

-- The tokens that a list of blocks holds.
unfoldable pub contents : List LogicalTokenBlock → List ℤ
contents [] = []
contents (b ∷ bs) = get_token_ids b ++ contents bs

pub contents-snoc :
    (bs : List LogicalTokenBlock) (b : LogicalTokenBlock)
    → contents (bs ++ b ∷ []) ≡ contents bs ++ get_token_ids b
unfolding contents
contents-snoc [] b = append-nil (get_token_ids b)
contents-snoc (c ∷ bs) b =
    rw (contents-snoc bs b) (sym (append_assoc (get_token_ids c) (contents bs) (get_token_ids b)))

-- A block of a sequence: its number is its place.
abbrev pub IsBlock : ℕ → ℕ → LogicalTokenBlock → Type 0
IsBlock size n b = (b.block_number ≡ n) × (b.block_size ≡ size) × IsSound b

abbrev pub AllFull : ℕ → ℕ → List LogicalTokenBlock → Type 0
AllFull size n [] = Unit {0}
AllFull size n (b ∷ bs) = (IsBlock size n b × (b.num_tokens ≡ size)) × AllFull size (suc n) bs

pub AllFull-snoc :
    (size n : ℕ) (bs : List LogicalTokenBlock) (b : LogicalTokenBlock)
    → AllFull size n bs
    → IsBlock size (n + length bs) b
    → b.num_tokens ≡ size
    → AllFull size n (bs ++ b ∷ [])
AllFull-snoc size n [] b f k e = (((k.0 ∙ omega arith, k.1, k.2), e), tt)
AllFull-snoc size n (c ∷ bs) b f k e =
    (f.0, AllFull-snoc size (suc n) bs b f.1 (k.0 ∙ omega arith, k.1, k.2) e)

pub length-contents_full :
    (size n : ℕ) (bs : List LogicalTokenBlock)
    → AllFull size n bs
    → length (contents bs) ≡ length bs * size
unfolding contents
length-contents_full size n [] f = omega arith
length-contents_full size n (b ∷ bs) f = omega (
  arith,
  length-append (get_token_ids b) (contents bs),
  length-get_token_ids b f.0.0.2,
  length-contents_full size (suc n) bs f.1,
  f.0.1,
)

-- All blocks but the last are full, and the last is not empty.
pub record Ends (size : ℕ) (bs : List LogicalTokenBlock) : Type 0 where
  pub front : List LogicalTokenBlock
  pub back : LogicalTokenBlock
  pub split : bs ≡ front ++ back ∷ []
  pub full : AllFull size 0 front
  pub block : IsBlock size (length front) back
  pub used : 0 < back.num_tokens

abbrev pub IsFilled : ℕ → List LogicalTokenBlock → Type 0
IsFilled size bs = (bs ≡ []) ⊎ Ends size bs
