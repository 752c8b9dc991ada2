-- ===== src/Block/Logical.antt =====
-- What a logical block holds after an append (vllm_blend/vllm/block.py).
use cache_blend.Prelude.{
  ℕ, zero, suc, ◌+◌, ◌<◌, ◌≤◌, ◌≡◌, refl, ap, List, [], ◌∷◌, ◌++◌, length, take, drop,
  length-append, length-take, length-drop, length-replicate, ok, raise, assertion_error, arith, leb,
  leb→le, Bool-cases, inl, inr, ◌⊎◌,
}
use cache_blend.Prelude.Int.{ℤ}
use cache_blend.Block.{
  LogicalTokenBlock, new_logical_block, get_num_empty_slots, append_tokens, get_token_ids,
}

pub take-append_self {ℓ} :
    {A : Type ℓ} (xs ys : List A) (n : ℕ) → length xs ≡ n → take n (xs ++ ys) ≡ xs
take-append_self [] ys zero h = refl
take-append_self [] ys (suc n) h = absurd (omega arith)
take-append_self (x ∷ xs) ys zero h = absurd (omega arith)
take-append_self (x ∷ xs) ys (suc n) h = ap (◌∷◌ x) (take-append_self xs ys n (omega arith))

-- The block has its places, and uses no more of them than there are.
abbrev pub IsSound : LogicalTokenBlock → Type 0
IsSound b = (length b.token_ids ≡ b.block_size) × (b.num_tokens ≤ b.block_size)

pub new_logical_block-IsSound : (n size : ℕ) → IsSound (new_logical_block n size)
unfolding new_logical_block
new_logical_block-IsSound n size = (length-replicate size _, omega arith)

-- The block that an append leaves.
abbrev pub appended : LogicalTokenBlock → List ℤ → LogicalTokenBlock
appended b ids = record b {
  token_ids =
      take b.num_tokens b.token_ids ++ (ids ++ drop (b.num_tokens + length ids) b.token_ids);
  num_tokens = b.num_tokens + length ids;
}

pub append_tokens_fits :
    (b : LogicalTokenBlock) (ids : List ℤ)
    → length ids ≤ get_num_empty_slots b
    → append_tokens b ids ≡ ok (appended b ids)
unfolding append_tokens
append_tokens_fits b ids h = ground arith

pub appended-IsSound :
    (b : LogicalTokenBlock) (ids : List ℤ)
    → IsSound b
    → length ids ≤ get_num_empty_slots b
    → IsSound (appended b ids)
unfolding get_num_empty_slots
appended-IsSound b ids s h = (
  omega (
    arith,
    length-append (take b.num_tokens b.token_ids)
        (ids ++ drop (b.num_tokens + length ids) b.token_ids),
    length-append ids (drop (b.num_tokens + length ids) b.token_ids),
    length-take b.num_tokens b.token_ids,
    length-drop (b.num_tokens + length ids) b.token_ids,
    s.0,
    s.1,
  ),
  omega (arith, s.1),
)

take-take_append {ℓ} :
    {A : Type ℓ} (n : ℕ) (xs ys zs : List A)
    → n ≤ length xs
    → take (n + length ys) (take n xs ++ (ys ++ zs)) ≡ take n xs ++ ys
take-take_append zero xs ys zs h = take-append_self ys zs _ (omega arith)
take-take_append (suc n) [] ys zs h = absurd (omega arith)
take-take_append {A} (suc n) (x ∷ xs) ys zs h =
    let e : suc n + length ys ≡ suc (n + length ys) = omega arith in
    rw e (ap (◌∷◌ x) (take-take_append n xs ys zs (omega arith)))

-- The tokens in use are the old ones and the new ones, in order.
pub get_token_ids-appended :
    (b : LogicalTokenBlock) (ids : List ℤ)
    → IsSound b
    → get_token_ids (appended b ids) ≡ get_token_ids b ++ ids
unfolding get_token_ids
get_token_ids-appended b ids s =
    take-take_append b.num_tokens b.token_ids ids _ (omega (arith, s.0, s.1))

pub length-get_token_ids :
    (b : LogicalTokenBlock) → IsSound b → length (get_token_ids b) ≡ b.num_tokens
unfolding get_token_ids
length-get_token_ids b s = omega (arith, length-take b.num_tokens b.token_ids, s.0, s.1)

-- An append that does not fit is refused, and any other leaves the block sound with the old tokens
-- followed by the new ones.
pub append_tokens_all :
    (b : LogicalTokenBlock) (ids : List ℤ)
    → IsSound b
    → ((b.block_size < b.num_tokens + length ids) × (append_tokens b ids ≡ raise assertion_error))
      ⊎ ((c : LogicalTokenBlock) × (append_tokens b ids ≡ ok c)
          × IsSound c
          × (get_token_ids c ≡ get_token_ids b ++ ids))
append_tokens_all b ids s = elim (Bool-cases (leb (length ids) (get_num_empty_slots b))) [
  | inl h ↦ inr (
    appended b ids,
    append_tokens_fits b ids (leb→le _ _ h),
    appended-IsSound b ids s (leb→le _ _ h),
    get_token_ids-appended b ids s,
  )
  | inr h ↦ inl (unfold get_num_empty_slots in ground (arith, s.1), unfold append_tokens in rw h)
]
