-- ===== src/BlockV2/CopyOnWrite.antt =====
-- Copy on write in the allocation of block manager V2 (`CopyOnWriteTracker` of
-- vllm_blend/vllm/core/block/common.py over the naive allocator).
use cache_blend.Prelude.{
  ℕ, zero, suc, ◌<◌, ◌≡◌, Option-cases, ◌≢◌, ◌⊎◌, inl, inr, refl, sym, ap, ◌∙◌, Option, none, some,
  List, [], ◌∷◌, ◌++◌, ok, raise, assertion_error, no_free_blocks_error, arith,
}
use cache_blend.Prelude.Heap.{read, write, alloc}
use cache_blend.Prelude.Dict.{Dict, lookup, nat_eq, lookup-insert}
use cache_blend.BlockV2.{
  NaiveBlockAllocator, NaiveBlock, NaiveBlocks, get, allocate_mutable, free, track,
  cow_block_if_not_appendable, num_free_blocks,
}
use cache_blend.BlockV2.Refcounts.{
  IsCounted, shared, shared-IsCounted, count-cases, free_block_id-shared,
  allocate_new_block_id-IsCounted,
}

-- The copies that are recorded from a source.
abbrev pub copies : Option (List ℕ) → List ℕ
copies none = []
copies (some dsts) = dsts

lookup-track :
    (src dst : ℕ) (cows : Dict ℕ (List ℕ))
    → lookup src (track src dst cows) ≡ some (copies (lookup src cows) ++ dst ∷ [])
unfolding track
lookup-track src dst cows = elim (found (lookup src cows)) [
  | inl e ↦ rw e (ground (arith, lookup-insert src src (dst ∷ []) cows))
  | inr (dsts, e) ↦ rw e (ground (arith, lookup-insert src src (dsts ++ dst ∷ []) cows))
]
  where
    found : (o : Option (List ℕ)) → (o ≡ none) ⊎ ((dsts : List ℕ) × (o ≡ some dsts))
    found none = inl refl
    found (some dsts) = inr (dsts, refl)

-- The source has lost one reference, the fresh index has one, the copy is recorded, the block holds no index
-- until its owner sets the new one, a new object with no tokens holds it, and all other objects are as before.
pub record Copied (a : NaiveBlockAllocator) (h : NaiveBlocks) (p src c dst : ℕ)
    (a' : NaiveBlockAllocator) (h' : NaiveBlocks) : Type 0 where
  pub counted : IsCounted a'
  pub source : lookup src a'.refcounter ≡ some (suc c)
  pub fresh : lookup dst a.refcounter ≡ some 0
  pub own : lookup dst a'.refcounter ≡ some 1
  pub counts : (i : ℕ) → i ≢ src → i ≢ dst → lookup i a'.refcounter ≡ lookup i a.refcounter
  pub fewer : suc (num_free_blocks a') ≡ num_free_blocks a
  pub tracked :
      lookup src a'.copy_on_writes ≡ some (copies (lookup src a.copy_on_writes) ++ dst ∷ [])
  pub one_more : h'.next ≡ suc h.next
  pub given_up : read h' p ≡ record (read h p) { block_id = none }
  pub made : read h' h.next ≡ record {
    token_ids = [];
    block_size = a.block_size;
    prev_block = (read {A = NaiveBlock} h p).prev_block;
    block_id = some dst;
  }
  pub others : (q : ℕ) → q ≢ p → q ≢ h.next → read h' q ≡ read h q

abbrev moved_heap : NaiveBlockAllocator → NaiveBlocks → ℕ → ℕ → NaiveBlocks
moved_heap a h p dst =
    let h' = write h p (record (read h p) { block_id = none }) in
    (alloc h' (record {
      token_ids = [];
      block_size = a.block_size;
      prev_block = (read {A = NaiveBlock} h' p).prev_block;
      block_id = some dst;
    })).1

free_runs :
    (a : NaiveBlockAllocator) (h : NaiveBlocks) (p src c : ℕ)
    → (read h p).block_id ≡ some src
    → lookup src a.refcounter ≡ some (suc (suc c))
    → free a h p ≡ ok (shared a src c, write h p (record (read h p) { block_id = none }))
unfolding free
free_runs a h p src c at_src count = rw (at_src, free_block_id-shared a src c count)

cow_shared :
    (a : NaiveBlockAllocator) (h : NaiveBlocks) (p src c : ℕ)
    → IsCounted a
    → p < h.next
    → (read h p).block_id ≡ some src
    → lookup src a.refcounter ≡ some (suc (suc c))
    → ((a.free_block_indices ≡ [])
        × (cow_block_if_not_appendable a h p ≡ raise no_free_blocks_error))
      ⊎ ((dst : ℕ) × (a' : NaiveBlockAllocator) × (h' : NaiveBlocks) × (cow_block_if_not_appendable
              a h p
            ≡ ok (some dst, a', h'))
          × Copied a h p src c dst a' h')
unfolding cow_block_if_not_appendable get allocate_mutable num_free_blocks
cow_shared a h p src c v known at_src count =
    elim (allocate_new_block_id-IsCounted (shared a src c) (shared-IsCounted a src c v count)) [
      | inl (empty, fails) ↦ inl (
        empty,
        rw (at_src, cow_block_if_not_appendable, count, free_runs a h p src c at_src count, fails)
            (ground arith),
      )
      | inr (dst, a', runs, counted, zero_before, one, fewer, differs) ↦
          let at_shared : lookup src (shared a src c).refcounter ≡ some (suc c) =
            ground (arith, lookup-insert src src (suc c) a.refcounter) in
          let apart : dst ≢ src =
            λ e. ground (arith, ap (λ i. lookup i (shared a src c).refcounter) e) in
          inr (
            dst,
            record a' { copy_on_writes = track src dst a'.copy_on_writes },
            moved_heap a h p dst,
            rw
                (
                  at_src,
                  cow_block_if_not_appendable,
                  count,
                  free_runs a h p src c at_src count,
                  runs,
                )
                (ground arith),
            record {
              counted = record { nodup = counted.nodup; free_iff = counted.free_iff };
              source = differs.counts src apart ∙ at_shared;
              fresh = ground (arith, lookup-insert src dst (suc c) a.refcounter);
              own = one;
              counts = λ i n m.
                  differs.counts i (λ e. m (sym e))
                  ∙ ground (arith, lookup-insert src i (suc c) a.refcounter);
              fewer = fewer;
              tracked = rw (lookup-track src dst a'.copy_on_writes, differs.cows);
              one_more = refl;
              given_up = ground (arith, known);
              made = ground (arith, known);
              others = λ q n m. ground (arith, n, m);
            },
          )
    ]

-- What becomes of a block with the index `src`.
abbrev pub Indexed : NaiveBlockAllocator → NaiveBlocks → ℕ → ℕ → Type 0
Indexed a h p src =
    (((lookup src a.refcounter ≡ none) ⊎ (lookup src a.refcounter ≡ some 0))
      × (cow_block_if_not_appendable a h p ≡ raise assertion_error))
    ⊎ ((lookup src a.refcounter ≡ some 1)
        × (cow_block_if_not_appendable a h p ≡ ok (some src, a, h)))
    ⊎ ((c : ℕ) × (lookup src a.refcounter ≡ some (suc (suc c)))
        × (((a.free_block_indices ≡ [])
              × (cow_block_if_not_appendable a h p ≡ raise no_free_blocks_error))
            ⊎ ((dst : ℕ) × (a' : NaiveBlockAllocator) × (h' : NaiveBlocks)
                × (cow_block_if_not_appendable a h p ≡ ok (some dst, a', h'))
                × Copied a h p src c dst a' h')))

cow-Indexed :
    (a : NaiveBlockAllocator) (h : NaiveBlocks) (p src : ℕ)
    → IsCounted a
    → p < h.next
    → (read h p).block_id ≡ some src
    → Indexed a h p src
unfolding cow_block_if_not_appendable get
cow-Indexed a h p src v known at_src = elim (count-cases (lookup src a.refcounter)) [
  | inl (inl e) ↦ inl (inl e, rw (at_src, cow_block_if_not_appendable, e))
  | inl (inr e) ↦ inl (inr e, rw (at_src, cow_block_if_not_appendable, e))
  | inr (zero, e) ↦ inr (inl (e, rw (at_src, cow_block_if_not_appendable, e)))
  | inr (suc c, e) ↦ inr (inr (c, e, cow_shared a h p src c v known at_src e))
]

-- For a known block over a counted allocator: one without an index changes nothing. An index that is
-- unknown or not in use fails an assertion, and one in use by this block alone stays. Of a shared one the
-- block gives up its index: a fresh one, which was free, is returned and held by a new object with no tokens
-- and the block's predecessor, the source loses one reference, the copy is recorded after those from the
-- same source, and the other counts and objects are as before. If none is free for that, the call raises.
pub cow_block_if_not_appendable-Copied :
    (a : NaiveBlockAllocator) (h : NaiveBlocks) (p : ℕ)
    → IsCounted a
    → p < h.next
    → ((read h p).block_id ≡ none) × (cow_block_if_not_appendable a h p ≡ ok (none, a, h))
      ⊎ ((src : ℕ) × ((read h p).block_id ≡ some src) × Indexed a h p src)
unfolding cow_block_if_not_appendable
cow_block_if_not_appendable-Copied a h p v known = elim (Option-cases (read h p).block_id) [
  | inl e ↦ inl (e, rw (e, cow_block_if_not_appendable))
  | inr (src, e) ↦ inr (src, e, cow-Indexed a h p src v known e)
]
