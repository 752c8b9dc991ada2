-- ===== src/BlockV2/Chain.antt =====
-- The walk of `get_all_blocks_recursively` (vllm_blend/vllm/core/block/common.py) over the objects that the
-- naive allocator makes.
use mathlib.Core.Path.{subst}
use cache_blend.Prelude.{
  ℕ, zero, suc, ◌<◌, ◌≡◌, inl, inr, refl, Option, none, some, Option-cases, Result-cases,
  Bool-cases, bind_ok, ltb, ap, sym, ◌++◌, List, [], ◌∷◌, last?, ok, arith,
}
use cache_blend.Prelude.Int.{ℤ}
use cache_blend.Prelude.Heap.{read, write, alloc}
use cache_blend.BlockV2.{
  NaiveBlockAllocator, NaiveBlock, NaiveBlocks, all_blocks, allocate_mutable, append_token_ids,
  append_token_ids_no_cow, cow_block_if_not_appendable, free, fork, fork_blocks,
  allocate_new_block_id, free_block_id, incr, get,
}

-- A predecessor is an object that was made.
abbrev pub IsMade : NaiveBlocks → Option ℕ → Type 0
IsMade h none = Unit {0}
IsMade h (some q) = q < h.next

-- The heaps that the operations of the allocator lead to, from one without objects.
pub data Reached : NaiveBlocks → Type 0 where
  started : (h : NaiveBlocks) → h.next ≡ 0 → Reached h
  allocated :
      (a a' : NaiveBlockAllocator) (h h' : NaiveBlocks) (prev : Option ℕ) (p : ℕ)
      → Reached h
      → IsMade h prev
      → allocate_mutable a h prev ≡ ok (p, a', h')
      → Reached h'
  appended :
      (a a' : NaiveBlockAllocator) (h h' : NaiveBlocks) (p : ℕ) (ids : List ℤ)
      → Reached h
      → p < h.next
      → append_token_ids a h p ids ≡ ok (a', h')
      → Reached h'
  freed :
      (a a' : NaiveBlockAllocator) (h h' : NaiveBlocks) (p : ℕ)
      → Reached h
      → free a h p ≡ ok (a', h')
      → Reached h'
  forked :
      (a a' : NaiveBlockAllocator) (h h' : NaiveBlocks) (p : ℕ) (ps : List ℕ)
      → Reached h
      → fork a h p ≡ ok (ps, a', h')
      → Reached h'

-- Every predecessor is older than its block.
abbrev pub HasOlder : NaiveBlocks → Type 0
HasOlder h = (p q : ℕ) → p < h.next → (read h p).prev_block ≡ some q → q < p

write-HasOlder :
    (h : NaiveBlocks) (p : ℕ) (b : NaiveBlock)
    → b.prev_block ≡ (read h p).prev_block
    → HasOlder h
    → HasOlder (write h p b)
write-HasOlder h p b same older i q known e = ground (arith, same, older i q known, e)

alloc-HasOlder :
    (h : NaiveBlocks) (b : NaiveBlock) → IsMade h b.prev_block → HasOlder h → HasOlder (alloc h b).1
alloc-HasOlder h b made older i q known e = ground (arith, made, older i q, e)

allocate-HasOlder :
    (a a' : NaiveBlockAllocator) (h h' : NaiveBlocks) (prev : Option ℕ) (p : ℕ)
    → IsMade h prev
    → HasOlder h
    → allocate_mutable a h prev ≡ ok (p, a', h')
    → HasOlder h'
unfolding allocate_mutable
allocate-HasOlder a a' h h' prev p made older e = elim (Result-cases (allocate_new_block_id a)) [
  | inl bad ↦ ground (arith, e, bad.1)
  | inr ((i, a1), good) ↦
      let b : NaiveBlock = record {
        token_ids = [];
        block_size = a.block_size;
        prev_block = prev;
        block_id = some i;
      } in
      let same : (alloc h b).1 ≡ h' = ground (arith, e, good) in
      subst HasOlder same (alloc-HasOlder h b made older)
]

-- `free` only takes the index of a block away.
free-write :
    (a a' : NaiveBlockAllocator) (h h' : NaiveBlocks) (p : ℕ)
    → free a h p ≡ ok (a', h')
    → write h p (record (read h p) { block_id = none }) ≡ h'
unfolding free
free-write a a' h h' p e = elim (Option-cases (read h p).block_id) [
  | inl none_there ↦ ground (arith, e, none_there)
  | inr (i, there) ↦ elim (Result-cases (free_block_id a i)) [
    | inl bad ↦ ground (arith, e, there, bad.1)
    | inr (a1, good) ↦ ground (arith, e, there, good)
  ]
]

free-HasOlder :
    (a a' : NaiveBlockAllocator) (h h' : NaiveBlocks) (p : ℕ)
    → HasOlder h
    → free a h p ≡ ok (a', h')
    → HasOlder h'
free-HasOlder a a' h h' p older e =
    subst HasOlder (free-write a a' h h' p e)
      (write-HasOlder h p (record (read h p) { block_id = none }) refl older)

prev-IsMade : (h : NaiveBlocks) (p : ℕ) → HasOlder h → p < h.next → IsMade h (read h p).prev_block
prev-IsMade h p older known = elim (Option-cases (read h p).prev_block) [
  | inl e ↦ rw e tt
  | inr (q, e) ↦ rw e (omega (arith, older p q known e, known))
]

cow-HasOlder :
    (a a' : NaiveBlockAllocator) (h h' : NaiveBlocks) (p : ℕ) (id : Option ℕ)
    → HasOlder h
    → p < h.next
    → cow_block_if_not_appendable a h p ≡ ok (id, a', h')
    → HasOlder h'
unfolding cow_block_if_not_appendable
cow-HasOlder a a' h h' p id older known e = elim (Option-cases (read h p).block_id) [
  | inl absent ↦ let same : h ≡ h' = ground (arith, e, absent) in subst HasOlder same older
  | inr (src, there) ↦ elim (Result-cases (get a.refcounter src)) [
    | inl bad ↦ ground (arith, e, there, bad.1)
    | inr (refcount, count) ↦ elim (Bool-cases (ltb 1 refcount)) [
      | inr single ↦
          let same : h ≡ h' = ground (arith, e, there, count, single) in subst HasOlder same older
      | inl shared ↦ elim (Result-cases (free a h p)) [
        | inl bad ↦ ground (arith, e, there, count, shared, bad.1)
        | inr ((a1, h1), frees) ↦
            let older1 = free-HasOlder a a1 h h1 p older frees in
            let next = ap (λ (k : NaiveBlocks). k.next) (free-write a a1 h h1 p frees) in
            elim (Result-cases (allocate_mutable a1 h1 (read h1 p).prev_block)) [
              | inl bad ↦ ground (arith, e, there, count, shared, frees, bad.1)
              | inr ((q, a2, h2), made) ↦
                  let older2 =
                    allocate-HasOlder a1 a2 h1 h2 (read h1 p).prev_block q
                      (prev-IsMade h1 p older1 (omega (arith, next, known))) older1 made in
                  let same : h2 ≡ h' = ground (arith, e, there, count, shared, frees, made) in
                  subst HasOlder same older2
            ]
      ]
    ]
  ]
]

no_cow-prev :
    (b b' : NaiveBlock) (ids : List ℤ)
    → append_token_ids_no_cow b ids ≡ ok b'
    → b'.prev_block ≡ b.prev_block
unfolding append_token_ids_no_cow
no_cow-prev b b' ids e = ground (arith, e)

append-HasOlder :
    (a a' : NaiveBlockAllocator) (h h' : NaiveBlocks) (p : ℕ) (ids : List ℤ)
    → HasOlder h
    → p < h.next
    → append_token_ids a h p ids ≡ ok (a', h')
    → HasOlder h'
unfolding append_token_ids
append-HasOlder a a' h h' p ids older known e =
    elim (Result-cases (append_token_ids_no_cow (read h p) ids)) [
      | inl bad ↦ ground (arith, e, bad.1)
      | inr (b, fits) ↦
          let h1 : NaiveBlocks = write h p b in
          let older1 : HasOlder h1 =
            write-HasOlder h p b (no_cow-prev (read h p) b ids fits) older in
          elim (Option-cases b.block_id) [
            | inl absent ↦
                let same : h1 ≡ h' = ground (arith, e, fits, absent) in subst HasOlder same older1
            | inr (i, there) ↦ elim (Result-cases (cow_block_if_not_appendable a h1 p)) [
              | inl bad ↦ ground (arith, e, fits, there, bad.1)
              | inr ((id, a2, h2), runs) ↦
                  let b2 : NaiveBlock = record (read h2 p) { block_id = id } in
                  let same : write h2 p b2 ≡ h' = ground (arith, e, fits, there, runs) in
                  subst HasOlder same
                    (write-HasOlder h2 p b2 refl (cow-HasOlder a a2 h1 h2 p id older1 known runs))
            ]
          ]
    ]

fork_blocks-HasOlder :
    (a a' : NaiveBlockAllocator) (h h' : NaiveBlocks) (prev : Option ℕ)
    (ps made_blocks forked_blocks : List ℕ)
    → HasOlder h
    → IsMade h prev
    → fork_blocks a h prev ps made_blocks ≡ ok (forked_blocks, a', h')
    → HasOlder h'
unfolding fork_blocks
fork_blocks-HasOlder a a' h h' prev [] made_blocks forked_blocks older made e =
    let same : h ≡ h' = ground (arith, e) in subst HasOlder same older
fork_blocks-HasOlder a a' h h' prev (p ∷ ps) made_blocks forked_blocks older made e =
    elim (Option-cases (read h p).block_id) [
      | inl absent ↦ ground (arith, e, absent)
      | inr (i, there) ↦ elim (Result-cases (incr a.refcounter i)) [
        | inl bad ↦ ground (arith, e, there, bad.1)
        | inr ((refcount, r), counts) ↦
            let b0 : NaiveBlock = record {
              token_ids = [];
              block_size = a.block_size;
              prev_block = prev;
              block_id = some i;
            } in
            elim (Result-cases (append_token_ids_no_cow b0 (read h p).token_ids)) [
              | inl bad ↦ ground (arith, e, there, counts, bad.1)
              | inr (b, fits) ↦
                  let keeps = no_cow-prev b0 b (read h p).token_ids fits in
                  fork_blocks-HasOlder (record a { refcounter = r }) a' (alloc h b).1 h'
                    (some h.next) ps (made_blocks ++ h.next ∷ []) forked_blocks
                    (alloc-HasOlder h b (subst (IsMade h) (sym keeps) made) older) (omega arith)
                    (ground (arith, e, there, counts, fits))
            ]
      ]
    ]

fork-HasOlder :
    (a a' : NaiveBlockAllocator) (h h' : NaiveBlocks) (p : ℕ) (ps : List ℕ)
    → HasOlder h
    → fork a h p ≡ ok (ps, a', h')
    → HasOlder h'
unfolding fork
fork-HasOlder a a' h h' p ps older e =
    let (sources, walked, runs) =
      bind_ok (all_blocks h.next h p []) (λ source_blocks. fork_blocks a h none source_blocks [])
        e in
    fork_blocks-HasOlder a a' h h' none sources [] ps older tt runs

-- So predecessors are older in every heap that the operations lead to.
Reached-HasOlder : {h : NaiveBlocks} → Reached h → HasOlder h
Reached-HasOlder (started h empty) = λ p q known e. absurd (omega (arith, empty, known))
Reached-HasOlder (allocated a a' h h' prev p r made e) =
    allocate-HasOlder a a' h h' prev p made (Reached-HasOlder r) e
Reached-HasOlder (appended a a' h h' p ids r known e) =
    append-HasOlder a a' h h' p ids (Reached-HasOlder r) known e
Reached-HasOlder (freed a a' h h' p r e) = free-HasOlder a a' h h' p (Reached-HasOlder r) e
Reached-HasOlder (forked a a' h h' p ps r e) = fork-HasOlder a a' h h' p ps (Reached-HasOlder r) e

-- What a walk returns: the first block has no predecessor, and each other one has the block before it.
abbrev pub Linked : NaiveBlocks → Option ℕ → List ℕ → Type 0
Linked h prev [] = Unit {0}
Linked h prev (p ∷ ps) = ((read h p).prev_block ≡ prev) × Linked h (some p) ps

walk-Linked :
    (h : NaiveBlocks) (rounds p : ℕ) (later : List ℕ)
    → HasOlder h
    → p < h.next
    → p < rounds
    → Linked h (some p) later
    → (walk : List ℕ) × (all_blocks rounds h p later ≡ ok walk)
      × Linked h none walk
      × (last? walk ≡ last? (p ∷ later))
unfolding all_blocks
walk-Linked h zero p later older known fuel links = absurd (omega arith)
walk-Linked h (suc rounds) p later older known fuel links =
    elim (Option-cases (read h p).prev_block) [
      | inl e ↦ (p ∷ later, rw (e, all_blocks), (e, links), refl)
      | inr (q, e) ↦
          let below = older p q known e in
          let (walk, runs, linked, ends) =
            walk-Linked h rounds q (p ∷ later) older (omega (arith, below, known))
              (omega (arith, below, fuel)) (e, links) in
          (walk, rw (e, all_blocks, runs), linked, ends)
    ]

-- In every heap that allocating, appending, freeing and forking lead to from one without objects, the walk
-- from any block of it, with as many rounds as there are objects, returns: the blocks it returns end with
-- that block, each is the predecessor of the next one, and the first has none.
pub all_blocks-Linked :
    (h : NaiveBlocks) (p : ℕ)
    → Reached h
    → p < h.next
    → (walk : List ℕ) × (all_blocks h.next h p [] ≡ ok walk)
      × Linked h none walk
      × (last? walk ≡ some p)
all_blocks-Linked h p r known = walk-Linked h h.next p [] (Reached-HasOlder r) known known tt
