-- ===== src/Utils.antt =====
-- vllm_blend/vllm/utils.py: `cdiv`, `chunk_list` and `merge_dicts`.
use cache_blend.Prelude.{ℕ, zero, suc, ◌+◌, ◌-◌, ◌/◌, none, some, List, [], ◌∷◌, ◌++◌, take, drop}
use cache_blend.Prelude.Dict.{Dict, lookup, insert, nat_eq}

-- `-(a // -b)` for `b > 0`: division that rounds up.
unfoldable pub cdiv : ℕ → ℕ → ℕ
cdiv a b = (a + b - 1) / b

-- The list comprehension of `chunk_list`, for the slices that start at `i` and later; one round
-- for each slice.
unfoldable pub chunks {ℓ} : {A : Type ℓ} → ℕ → ℕ → List A → List (List A)
chunks zero chunk_size lst = []
chunks (suc rounds) chunk_size lst =
    take chunk_size lst ∷ chunks rounds chunk_size (drop chunk_size lst)

-- `extend` of the list under a key, which starts empty, for every item of a dictionary.
unfoldable pub extend_all {ℓ} : {A : Type ℓ} → Dict ℕ (List A) → Dict ℕ (List A) → Dict ℕ (List A)
extend_all merged [] = merged
extend_all merged ((key, value) ∷ d) =
    extend_all
      (elim (lookup key merged) [
        | none ↦ insert key value merged
        | some old ↦ insert key (old ++ value) merged
      ])
      d

unfoldable pub merge_dicts {ℓ} : {A : Type ℓ} → Dict ℕ (List A) → Dict ℕ (List A) → Dict ℕ (List A)
unfolding extend_all
merge_dicts dict1 dict2 = extend_all (extend_all [] dict1) dict2
