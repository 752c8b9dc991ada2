-- ===== src/Tests/Copying.antt =====
-- The naive allocator over three blocks: index 0 is shared by two, index 1 is free, index 2 is in use once.
use cache_blend.Prelude.{
  ℕ, suc, List, ◌≡◌, ◌⊎◌, refl, last?, remove, Option, none, some, [], ◌∷◌, ok, raise,
  assertion_error, no_free_blocks_error, arith,
}
use cache_blend.Prelude.Dict.{lookup, insert, nat_eq}
use cache_blend.BlockV2.{
  NaiveBlockAllocator, NaiveBlocks, allocate_new_block_id, free_block_id,
  cow_block_if_not_appendable, num_free_blocks, all_blocks, NaiveBlock, allocate_mutable, incr,
}
use cache_blend.BlockV2.Chain.{Reached, started, allocated, Linked, all_blocks-Linked}
use cache_blend.Prelude.Heap.{read, alloc}
use cache_blend.BlockV2.Refcounts.{
  IsCounted, Differs, allocate_new_block_id-IsCounted, free_block_id-IsCounted,
}
use cache_blend.BlockV2.CopyOnWrite.{Indexed, cow_block_if_not_appendable-Copied}

abbrev three : NaiveBlockAllocator
three = record {
  free_block_indices = 1 ∷ [];
  all_block_indices = 0 ∷ 1 ∷ 2 ∷ [];
  refcounter = (0, 2) ∷ (1, 0) ∷ (2, 1) ∷ [];
  block_size = 4;
  copy_on_writes = [];
}

three-IsCounted : IsCounted three
unfolding lookup
three-IsCounted = record { nodup = (refl, tt); free_iff = λ i. ground arith }

abbrev block_zero : NaiveBlocks
block_zero = record {
  next = 1;
  cell = λ q. record { token_ids = []; block_size = 4; prev_block = none; block_id = some 0 };
}

allocate_new_block_id-IsCounted_example :
    ((three.free_block_indices ≡ []) × (allocate_new_block_id three ≡ raise no_free_blocks_error))
    ⊎ ((i : ℕ) × (a' : NaiveBlockAllocator) × (allocate_new_block_id three ≡ ok (i, a'))
        × IsCounted a'
        × (lookup i three.refcounter ≡ some 0)
        × (lookup i a'.refcounter ≡ some 1)
        × (suc (num_free_blocks a') ≡ num_free_blocks three)
        × Differs three a' i)
allocate_new_block_id-IsCounted_example = allocate_new_block_id-IsCounted three three-IsCounted

free_block_id-IsCounted_example :
    (((lookup 2 three.refcounter ≡ none) ⊎ (lookup 2 three.refcounter ≡ some 0))
      × (free_block_id three 2 ≡ raise assertion_error))
    ⊎ ((c : ℕ) × (a' : NaiveBlockAllocator) × (lookup 2 three.refcounter ≡ some (suc c))
        × (free_block_id three 2 ≡ ok a')
        × IsCounted a'
        × (lookup 2 a'.refcounter ≡ some c)
        × Differs three a' 2)
free_block_id-IsCounted_example = free_block_id-IsCounted three 2 three-IsCounted

cow_block_if_not_appendable-Copied_example :
    ((read block_zero 0).block_id ≡ none)
      × (cow_block_if_not_appendable three block_zero 0 ≡ ok (none, three, block_zero))
    ⊎ ((src : ℕ) × ((read block_zero 0).block_id ≡ some src) × Indexed three block_zero 0 src)
cow_block_if_not_appendable-Copied_example =
    cow_block_if_not_appendable-Copied three block_zero 0 three-IsCounted (omega arith)

-- A block without a predecessor, and one after it.
abbrev no_objects : NaiveBlocks
no_objects = record { next = 0; cell = block_zero.cell }

abbrev new_block : Option ℕ → ℕ → NaiveBlock
new_block prev id = record { token_ids = []; block_size = 4; prev_block = prev; block_id = some id }

abbrev one_object : NaiveBlocks
one_object = (alloc no_objects (new_block none 1)).1

abbrev two_objects : NaiveBlocks
two_objects = (alloc one_object (new_block (some 0) 3)).1

abbrev four : NaiveBlockAllocator
four = record {
  free_block_indices = 1 ∷ 3 ∷ [];
  all_block_indices = 0 ∷ 1 ∷ 2 ∷ 3 ∷ [];
  refcounter = (0, 2) ∷ (1, 0) ∷ (2, 1) ∷ (3, 0) ∷ [];
  block_size = 4;
  copy_on_writes = [];
}

abbrev one_taken : NaiveBlockAllocator
one_taken = record four {
  free_block_indices = 3 ∷ [];
  refcounter = (0, 2) ∷ (1, 1) ∷ (2, 1) ∷ (3, 0) ∷ [];
}

abbrev two_taken : NaiveBlockAllocator
two_taken = record four {
  free_block_indices = [];
  refcounter = (0, 2) ∷ (1, 1) ∷ (2, 1) ∷ (3, 1) ∷ [];
}

two_objects-Reached : Reached two_objects
unfolding allocate_mutable allocate_new_block_id incr lookup insert remove
two_objects-Reached =
    allocated one_taken two_taken one_object two_objects (some 0) 1
      (allocated four one_taken no_objects one_object none 0 (started no_objects refl) tt refl)
      (omega arith) refl

all_blocks-Linked_example :
    (walk : List ℕ) × (all_blocks 2 two_objects 1 [] ≡ ok walk)
    × Linked two_objects none walk
    × (last? walk ≡ some 1)
all_blocks-Linked_example = all_blocks-Linked two_objects 1 two_objects-Reached (omega arith)
