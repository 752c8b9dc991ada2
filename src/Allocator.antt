-- ===== src/Allocator.antt =====
-- The two allocators of vllm_blend/vllm/core/block_manager_v1.py. A call returns its result with the new
-- allocator and the new heap. The free list of the uncached allocator is a Python list used from its
-- end: the head of the list here is the last item there.
use cache_blend.Prelude.{
  ℕ, zero, suc, ◌+◌, ◌-◌, Bool, ◌||◌, not, Option, none, some, List, [], ◌∷◌, ◌==◌, length, Result,
  ok, raise, ◌>>=◌, ◌>>◌, check, assert, or_raise, value_error, key_error, not_implemented_error,
  if◌then◌else◌,
}
use cache_blend.Prelude.Int.{ℤ, pos, negsuc}
use cache_blend.Prelude.Heap.{read, write, alloc}
use cache_blend.Prelude.Dict.{Dict, lookup, contains, insert, delete, int_eq, int_beq}
use cache_blend.Block.{Device, PhysicalTokenBlock, new_physical_block}
use cache_blend.Evictor.{LruEvictor, Blocks, new_evictor, evict}
use cache_blend.Evictor

-- `CachedBlockAllocator`: its blocks in use and, in the evictor, its freed ones, both by their hash.
pub record CachedBlockAllocator : Type 0 where
  pub device : Device
  pub block_size : ℕ
  pub num_blocks : ℕ
  pub current_num_blocks : ℕ
  pub cached_blocks : Dict ℤ ℕ
  pub evictor : LruEvictor
  pub default_hash_ctr : ℕ

-- `CachedBlockAllocator.__init__`.
unfoldable pub new_cached : Device → ℕ → ℕ → CachedBlockAllocator
new_cached device block_size num_blocks = record {
  device = device;
  block_size = block_size;
  num_blocks = num_blocks;
  current_num_blocks = 0;
  cached_blocks = [];
  evictor = new_evictor;
  default_hash_ctr = 0;
}

unfoldable pub allocate_block :
    CachedBlockAllocator → Blocks → ℤ → ℕ → Result (ℕ × CachedBlockAllocator × Blocks)
allocate_block a h block_hash num_hashed_tokens =
    if a.current_num_blocks == a.num_blocks
    then (do
      (p, e, h') ← evict a.evictor h
      ok (
        p,
        record a { evictor = e },
        write h' p
            (record (read h' p) { block_hash = block_hash; num_hashed_tokens = num_hashed_tokens }),
      ))
    else (let (p, h') = alloc h (
          new_physical_block a.device a.current_num_blocks a.block_size block_hash
            num_hashed_tokens) in
        ok (p, record a { current_num_blocks = a.current_num_blocks + 1 }, h'))

-- `block.ref_count += 1`.
abbrev pub retain : Blocks → ℕ → Blocks
retain h p = write h p (record (read h p) { ref_count = (read h p).ref_count + 1 })

-- The second `if` of `allocate`: a block for a hash that is not cached.
unfoldable pub ensure_cached :
    CachedBlockAllocator → Blocks → ℤ → ℕ → Result (CachedBlockAllocator × Blocks)
unfolding allocate_block
ensure_cached a h block_hash num_hashed_tokens =
    if contains block_hash a.cached_blocks then ok (a, h) else (do
      (p, a', h') ← allocate_block a h block_hash num_hashed_tokens
      ok (record a' { cached_blocks = insert block_hash p a'.cached_blocks }, h'))

-- The tail of `allocate`, once the block hash is known.
unfoldable pub allocate_hashed :
    CachedBlockAllocator → Blocks → ℤ → ℕ → Result (ℕ × CachedBlockAllocator × Blocks)
unfolding ensure_cached
allocate_hashed a h block_hash num_hashed_tokens =
    if Evictor.holds a.evictor block_hash
    then (do
      assert (not (contains block_hash a.cached_blocks))
      (p, e) ← Evictor.remove a.evictor block_hash
      assert ((read h p).ref_count == 0)
      let h' = retain h p
      assert (int_beq (read {A = PhysicalTokenBlock} h' p).block_hash block_hash)
      ok (p, record a { evictor = e; cached_blocks = insert block_hash p a.cached_blocks }, h'))
    else (do
      (a', h') ← ensure_cached a h block_hash num_hashed_tokens
      p ← or_raise (lookup block_hash a'.cached_blocks) key_error
      assert (int_beq (read h' p).block_hash block_hash)
      ok (p, a', retain h' p))

unfoldable pub cached_allocate :
    CachedBlockAllocator → Blocks → Option ℤ → ℕ → Result (ℕ × CachedBlockAllocator × Blocks)
unfolding allocate_hashed
cached_allocate a h block_hash num_hashed_tokens = elim block_hash [
  | none ↦
      allocate_hashed (record a { default_hash_ctr = a.default_hash_ctr + 1 }) h
        (pos a.default_hash_ctr) num_hashed_tokens
  | some k ↦ allocate_hashed a h k num_hashed_tokens
]

unfoldable pub cached_free :
    CachedBlockAllocator → Blocks → ℕ → Result (CachedBlockAllocator × Blocks)
cached_free a h p = do
  check (not ((read h p).ref_count == 0)) value_error
  let h' = write h p (record (read h p) { ref_count = (read h p).ref_count - 1 })
  if (read h' p).ref_count == 0
      then (do
        assert (not (Evictor.holds a.evictor (read h' p).block_hash))
        check (contains (read h' p).block_hash a.cached_blocks) key_error
        ok (
          record a {
            evictor = Evictor.add a.evictor h' p;
            cached_blocks = delete (read h' p).block_hash a.cached_blocks;
          },
          h',
        ))
      else ok (a, h')

unfoldable pub cached_num_free : CachedBlockAllocator → ℕ
cached_num_free a = a.num_blocks - a.current_num_blocks + Evictor.num_blocks a.evictor

unfoldable pub cached_contains : CachedBlockAllocator → ℤ → Bool
cached_contains a block_hash =
    contains block_hash a.cached_blocks || Evictor.holds a.evictor block_hash

unfoldable pub cached_update_hash :
    CachedBlockAllocator → Blocks → ℤ → ℕ → Result (CachedBlockAllocator × Blocks)
unfolding cached_contains
cached_update_hash a h block_hash p = do
  assert (not (cached_contains a block_hash))
  let old_hash = (read h p).block_hash
  check (contains old_hash a.cached_blocks) key_error
  ok (
    record a { cached_blocks = insert block_hash p (delete old_hash a.cached_blocks) },
    write h p (record (read h p) { block_hash = block_hash }),
  )

pub record UncachedBlockAllocator : Type 0 where
  pub device : Device
  pub block_size : ℕ
  pub num_blocks : ℕ
  pub free_blocks : List ℕ

-- The loop of `UncachedBlockAllocator.__init__`, from block number `i` on.
unfoldable pub init_blocks : ℕ → ℕ → Device → ℕ → List ℕ → Blocks → List ℕ × Blocks
init_blocks zero i device block_size free_blocks h = (free_blocks, h)
init_blocks (suc rounds) i device block_size free_blocks h =
    let (p, h') = alloc h (new_physical_block device i block_size (negsuc 0) 0) in
    init_blocks rounds (suc i) device block_size (p ∷ free_blocks) h'

-- `UncachedBlockAllocator.__init__`.
unfoldable pub new_uncached : Device → ℕ → ℕ → Blocks → UncachedBlockAllocator × Blocks
unfolding init_blocks
new_uncached device block_size num_blocks h =
    let (free_blocks, h') = init_blocks num_blocks 0 device block_size [] h in
    (
      record {
        device = device;
        block_size = block_size;
        num_blocks = num_blocks;
        free_blocks = free_blocks;
      },
      h',
    )

-- `UncachedBlockAllocator.allocate`, which ignores its arguments.
unfoldable pub uncached_allocate :
    UncachedBlockAllocator → Blocks → Result (ℕ × UncachedBlockAllocator × Blocks)
uncached_allocate a h = elim a.free_blocks [
  | [] ↦ raise value_error
  | p ∷ rest ↦
      ok (p, record a { free_blocks = rest }, write h p (record (read h p) { ref_count = 1 }))
]

-- `UncachedBlockAllocator.free`.
unfoldable pub uncached_free :
    UncachedBlockAllocator → Blocks → ℕ → Result (UncachedBlockAllocator × Blocks)
uncached_free a h p = do
  check (not ((read h p).ref_count == 0)) value_error
  let h' = write h p (record (read h p) { ref_count = (read h p).ref_count - 1 })
  if (read h' p).ref_count == 0
      then ok (record a { free_blocks = p ∷ a.free_blocks }, h')
      else ok (a, h')

-- `BlockAllocatorBase`: one of the two.
pub data BlockAllocator : Type 0 where
  cached : CachedBlockAllocator → BlockAllocator
  uncached : UncachedBlockAllocator → BlockAllocator

unfoldable pub allocate :
    BlockAllocator → Blocks → Option ℤ → ℕ → Result (ℕ × BlockAllocator × Blocks)
unfolding uncached_allocate cached_allocate
allocate (cached a) h block_hash num_hashed_tokens = do
  (p, a', h') ← cached_allocate a h block_hash num_hashed_tokens
  ok (p, cached a', h')
allocate (uncached a) h block_hash num_hashed_tokens = do
  (p, a', h') ← uncached_allocate a h
  ok (p, uncached a', h')

unfoldable pub free : BlockAllocator → Blocks → ℕ → Result (BlockAllocator × Blocks)
unfolding uncached_free cached_free
free (cached a) h p = do (a', h') ← cached_free a h p; ok (cached a', h')
free (uncached a) h p = do (a', h') ← uncached_free a h p; ok (uncached a', h')

unfoldable pub get_num_free_blocks : BlockAllocator → ℕ
unfolding cached_num_free
get_num_free_blocks (cached a) = cached_num_free a
get_num_free_blocks (uncached a) = length a.free_blocks

unfoldable pub contains_block : BlockAllocator → ℤ → Result Bool
unfolding cached_contains
contains_block (cached a) block_hash = ok (cached_contains a block_hash)
contains_block (uncached a) block_hash = raise not_implemented_error

unfoldable pub update_hash : BlockAllocator → Blocks → ℤ → ℕ → Result (BlockAllocator × Blocks)
unfolding cached_update_hash
update_hash (cached a) h block_hash p = do
  (a', h') ← cached_update_hash a h block_hash p
  ok (cached a', h')
update_hash (uncached a) h block_hash p = raise not_implemented_error
