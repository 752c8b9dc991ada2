-- ===== src/BlockV2/Refcounts.antt =====
-- The free set and the reference counts of `NaiveBlockAllocator`
-- (vllm_blend/vllm/core/block/naive_block.py).
use cache_blend.Prelude.{
  ℕ, zero, suc, ◌+◌, ◌≡◌, ◌≢◌, ◌↔◌, ◌⊎◌, inl, inr, refl, true, false, ◌||◌, Option, none, some,
  List, [], ◌∷◌, ◌++◌, ◌==◌, mem, Nodup, remove, mem-remove, remove-Nodup, length-remove,
  mem-append, ok, raise, assertion_error, no_free_blocks_error, arith,
}
use cache_blend.Prelude.Dict.{Dict, lookup, insert, nat_eq, lookup-insert}
use cache_blend.BlockV2.{
  NaiveBlockAllocator, allocate_new_block_id, free_block_id, add_index, incr, decr, num_free_blocks,
}

-- The free indices are those whose count is zero, each once.
pub record IsCounted (a : NaiveBlockAllocator) : Type 0 where
  pub nodup : Nodup a.free_block_indices
  pub free_iff : (i : ℕ) → (mem i a.free_block_indices ≡ true) ↔ (lookup i a.refcounter ≡ some 0)

-- `a'` differs from `a` at most in the count of `i` and in the free set.
pub record Differs (a a' : NaiveBlockAllocator) (i : ℕ) : Type 0 where
  pub counts : (j : ℕ) → i ≢ j → lookup j a'.refcounter ≡ lookup j a.refcounter
  pub cows : a'.copy_on_writes ≡ a.copy_on_writes
  pub size : a'.block_size ≡ a.block_size

incr_at : (r : Dict ℕ ℕ) (i c : ℕ) → lookup i r ≡ some c → incr r i ≡ ok (c + 1, insert i (c + 1) r)
unfolding incr
incr_at r i c h = rw h

decr_at : (r : Dict ℕ ℕ) (i c : ℕ) → lookup i r ≡ some (suc c) → decr r i ≡ ok (c, insert i c r)
unfolding decr
decr_at r i c h = rw h (ground arith)

decr_refused :
    (r : Dict ℕ ℕ) (i : ℕ)
    → (lookup i r ≡ none) ⊎ (lookup i r ≡ some 0)
    → decr r i ≡ raise assertion_error
unfolding decr
decr_refused r i (inl h) = rw h
decr_refused r i (inr h) = rw h

-- From a counted allocator an allocation raises if nothing is free. Else it takes an index whose count was
-- zero, counts it once, and leaves all other counts and one free index less.
pub allocate_new_block_id-IsCounted :
    (a : NaiveBlockAllocator)
    → IsCounted a
    → ((a.free_block_indices ≡ []) × (allocate_new_block_id a ≡ raise no_free_blocks_error))
      ⊎ ((i : ℕ) × (a' : NaiveBlockAllocator) × (allocate_new_block_id a ≡ ok (i, a'))
          × IsCounted a'
          × (lookup i a.refcounter ≡ some 0)
          × (lookup i a'.refcounter ≡ some 1)
          × (suc (num_free_blocks a') ≡ num_free_blocks a)
          × Differs a a' i)
unfolding allocate_new_block_id num_free_blocks
allocate_new_block_id-IsCounted a v = elim (nil_or_cons a.free_block_indices) [
  | inl empty ↦ inl (empty, rw empty)
  | inr (i, rest, cut) ↦
      let taken : mem i a.free_block_indices ≡ true = rw cut (ground arith) in
      let count = (v.free_iff i).0 taken in
      inr (
        i,
        record a {
          refcounter = insert i 1 a.refcounter;
          free_block_indices = remove i a.free_block_indices;
        },
        rw (cut, incr_at a.refcounter i 0 count),
        record {
          nodup = remove-Nodup i a.free_block_indices v.nodup;
          free_iff = λ j. ground (
            arith,
            lookup-insert i j 1 a.refcounter,
            mem-remove i j a.free_block_indices,
            v.free_iff j,
          );
        },
        count,
        ground (arith, lookup-insert i i 1 a.refcounter),
        length-remove i a.free_block_indices v.nodup taken,
        record {
          counts = λ j h. ground (arith, lookup-insert i j 1 a.refcounter);
          cows = refl;
          size = refl;
        },
      )
]
  where
    nil_or_cons : (is : List ℕ) → (is ≡ []) ⊎ ((i : ℕ) × (rest : List ℕ) × (is ≡ i ∷ rest))
    nil_or_cons [] = inl refl
    nil_or_cons (i ∷ rest) = inr (i, rest, refl)

mem-add_index : (i j : ℕ) (is : List ℕ) → mem j (add_index i is) ≡ (i == j || mem j is)
unfolding add_index
mem-add_index i j is = ground (arith, mem-append j is (i ∷ []), mem-same i j is)
  where
    mem-same : (i j : ℕ) (is : List ℕ) → i ≡ j → mem i is ≡ mem j is
    mem-same i j is e = rw e

snoc-Nodup : (is : List ℕ) (i : ℕ) → mem i is ≡ false → Nodup is → Nodup (is ++ i ∷ [])
snoc-Nodup [] i h n = (refl, tt)
snoc-Nodup (x ∷ is) i h n = ground (arith, mem-append x is (i ∷ []), snoc-Nodup is i)

add_index-Nodup : (i : ℕ) (is : List ℕ) → Nodup is → Nodup (add_index i is)
unfolding add_index
add_index-Nodup i is n = ground (arith, snoc-Nodup is i)

-- One reference less on an index that has more than one.
abbrev pub shared : NaiveBlockAllocator → ℕ → ℕ → NaiveBlockAllocator
shared a i c = record a { refcounter = insert i (suc c) a.refcounter }

pub shared-IsCounted :
    (a : NaiveBlockAllocator) (i c : ℕ)
    → IsCounted a
    → lookup i a.refcounter ≡ some (suc (suc c))
    → IsCounted (shared a i c)
shared-IsCounted a i c v h = record {
  nodup = v.nodup;
  free_iff =
      λ j. ground (arith, lookup-insert i j (suc c) a.refcounter, v.free_iff j, v.free_iff i);
}

pub free_block_id-shared :
    (a : NaiveBlockAllocator) (i c : ℕ)
    → lookup i a.refcounter ≡ some (suc (suc c))
    → free_block_id a i ≡ ok (shared a i c)
unfolding free_block_id
free_block_id-shared a i c h = rw (decr_at a.refcounter i (suc c) h) (ground arith)

pub count-cases :
    (found : Option ℕ) → ((found ≡ none) ⊎ (found ≡ some 0)) ⊎ ((c : ℕ) × (found ≡ some (suc c)))
count-cases none = inl (inl refl)
count-cases (some zero) = inl (inr refl)
count-cases (some (suc c)) = inr (c, refl)

-- Freeing an index that is unknown or not in use fails an assertion. Freeing any other takes one off its
-- count and keeps the allocator counted, so that the index is free again exactly if the count came to
-- zero, and leaves all other counts.
pub free_block_id-IsCounted :
    (a : NaiveBlockAllocator) (i : ℕ)
    → IsCounted a
    → (((lookup i a.refcounter ≡ none) ⊎ (lookup i a.refcounter ≡ some 0))
        × (free_block_id a i ≡ raise assertion_error))
      ⊎ ((c : ℕ) × (a' : NaiveBlockAllocator) × (lookup i a.refcounter ≡ some (suc c))
          × (free_block_id a i ≡ ok a')
          × IsCounted a'
          × (lookup i a'.refcounter ≡ some c)
          × Differs a a' i)
unfolding free_block_id
free_block_id-IsCounted a i v = elim (count-cases (lookup i a.refcounter)) [
  | inl (inl h) ↦ inl (inl h, rw (decr_refused a.refcounter i (inl h)))
  | inl (inr h) ↦ inl (inr h, rw (decr_refused a.refcounter i (inr h)))
  | inr (zero, h) ↦ inr (
    0,
    record a {
      refcounter = insert i 0 a.refcounter;
      free_block_indices = add_index i a.free_block_indices;
    },
    h,
    rw (decr_at a.refcounter i 0 h),
    record {
      nodup = add_index-Nodup i a.free_block_indices v.nodup;
      free_iff = λ j. ground (
        arith,
        lookup-insert i j 0 a.refcounter,
        mem-add_index i j a.free_block_indices,
        v.free_iff j,
      );
    },
    ground (arith, lookup-insert i i 0 a.refcounter),
    record {
      counts = λ j k. ground (arith, lookup-insert i j 0 a.refcounter);
      cows = refl;
      size = refl;
    },
  )
  | inr (suc c, h) ↦ inr (
    suc c,
    record a { refcounter = insert i (suc c) a.refcounter },
    h,
    rw (decr_at a.refcounter i (suc c) h) (ground arith),
    record {
      nodup = v.nodup;
      free_iff =
          λ j. ground (arith, lookup-insert i j (suc c) a.refcounter, v.free_iff j, v.free_iff i);
    },
    ground (arith, lookup-insert i i (suc c) a.refcounter),
    record {
      counts = λ j k. ground (arith, lookup-insert i j (suc c) a.refcounter);
      cows = refl;
      size = refl;
    },
  )
]
