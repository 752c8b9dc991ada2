-- ===== src/Evictor.antt =====
-- vllm_blend/vllm/core/evictor.py: the freed blocks of the caching allocator, and which of them goes first.
-- Blocks are addresses in the heap of `PhysicalTokenBlock` objects; the free table is the ordered
-- dictionary of the source, oldest entry first.
pub mod Order
use cache_blend.Prelude.{
  ℕ, Bool, true, false, Option, none, some, List, [], ◌∷◌, ltb, length, Result, ok, raise, ◌>>=◌,
  ◌>>◌, check, or_raise, value_error, key_error, if◌then◌else◌,
}
use cache_blend.Prelude.Int.{ℤ, ltb_ℤ}
use cache_blend.Prelude.Heap.{Heap, read, write}
use cache_blend.Prelude.Dict.{Dict, lookup, contains, insert, delete, int_eq}
use cache_blend.Block.{PhysicalTokenBlock}

abbrev pub Blocks : Type 0
Blocks = Heap PhysicalTokenBlock

pub record LruEvictor : Type 0 where
  pub free_table : Dict ℤ ℕ

unfoldable pub new_evictor : LruEvictor
new_evictor = record { free_table = [] }

-- `__contains__`.
unfoldable pub holds : LruEvictor → ℤ → Bool
holds e block_hash = contains block_hash e.free_table

-- The loop of `evict`, with its `break`.
unfoldable pub pick_victim : Blocks → ℕ → Dict ℤ ℕ → ℕ
pick_victim h evicted [] = evicted
pick_victim h evicted ((k, p) ∷ d) =
    let rest =
      pick_victim h
        (if ltb (read h evicted).num_hashed_tokens (read h p).num_hashed_tokens then p else evicted)
        d in
    if ltb_ℤ (read h evicted).last_accessed (read h p).last_accessed then evicted else rest

unfoldable pub evict : LruEvictor → Blocks → Result (ℕ × LruEvictor × Blocks)
unfolding pick_victim
evict e h = elim e.free_table [
  | [] ↦ raise value_error
  | (k, p) ∷ d ↦ do
    let victim = pick_victim h p ((k, p) ∷ d)
    check (contains (read h victim).block_hash e.free_table) key_error
    ok (
      victim,
      record { free_table = delete (read h victim).block_hash e.free_table },
      write h victim (record (read h victim) { computed = false }),
    )
]

unfoldable pub add : LruEvictor → Blocks → ℕ → LruEvictor
add e h p = record { free_table = insert (read h p).block_hash p e.free_table }

unfoldable pub remove : LruEvictor → ℤ → Result (ℕ × LruEvictor)
remove e block_hash = do
  p ← or_raise (lookup block_hash e.free_table) value_error
  ok (p, record { free_table = delete block_hash e.free_table })

unfoldable pub num_blocks : LruEvictor → ℕ
num_blocks e = length e.free_table
