-- ===== src/Blend/Rows.antt =====
-- Tensors as lists of rows, and torch's indexing by a tensor of integers: `x[indices]` and
-- `x[indices] = rows`, with negative indices counted from the end and one row broadcast to all.
use cache_blend.Prelude.{
  ℕ, suc, ◌-◌, ◌<◌, ◌≡◌, List, [], ◌∷◌, length, get_elem?, set, replicate, Result, ok, raise, ◌>>=◌,
  or_raise, index_error, runtime_error, ltb, arith, if◌then◌else◌,
}
use cache_blend.Prelude.Int.{ℤ, pos, negsuc}

-- The place that an index names among `n` rows.
unfoldable pub place : ℕ → ℤ → Result ℕ
place n (pos i) = if ltb i n then ok i else raise index_error
place n (negsuc i) = if ltb i n then ok (n - suc i) else raise index_error

module _ {ℓ} {R : Type ℓ} where
  unfoldable pub gather : List R → List ℤ → Result (List R)
  unfolding place
  gather xs [] = ok []
  gather xs (i ∷ is) = do
    p ← place (length xs) i
    x ← or_raise (get_elem? xs p) index_error
    rest ← gather xs is
    ok (x ∷ rest)

  unfoldable pub scatter : List R → List ℤ → List R → Result (List R)
  unfolding place
  scatter xs [] [] = ok xs
  scatter xs [] (r ∷ rs) = raise runtime_error
  scatter xs (i ∷ is) [] = raise runtime_error
  scatter xs (i ∷ is) (r ∷ rs) = do p ← place (length xs) i; scatter (set xs p r) is rs

  -- Broadcasting: one row stands for `n`.
  unfoldable pub expand : ℕ → List R → List R
  expand n [] = []
  expand n (r ∷ []) = replicate n r
  expand n (r ∷ s ∷ rs) = r ∷ s ∷ rs

  unfoldable pub index_put : List R → List ℤ → List R → Result (List R)
  unfolding scatter expand
  index_put xs is rows = scatter xs is (expand (length is) rows)

-- All indices name one of `n` rows.
abbrev pub AllBelow : ℕ → List ℕ → Type 0
AllBelow n [] = Unit {0}
AllBelow n (i ∷ is) = (i < n) × AllBelow n is

pub place_below : (n i : ℕ) → i < n → place n (pos i) ≡ ok i
unfolding place
place_below n i h = ground arith
