-- ===== src/BlockV2/Devices.antt =====
-- `CpuGpuBlockAllocator` of vllm_blend/vllm/core/block/cpu_gpu_block_allocator.py over two naive
-- allocators. The state holds the heap of the blocks; the allocator of a block is the one of its id.
use cache_blend.Prelude.{
  ℕ, Bool, true, ◌&&◌, not, Option, none, some, List, [], ◌∷◌, mem, Result, ok, ◌>>=◌, ◌>>◌, assert,
  or_raise, key_error,
}
use cache_blend.Prelude.Int.{ℤ}
use cache_blend.Prelude.Heap.{read}
use cache_blend.Prelude.Dict.{Dict, lookup, insert, nat_eq}
use cache_blend.Block.{Device, gpu, cpu}
use cache_blend.BlockV2
use cache_blend.BlockV2.{NaiveBlockAllocator, NaiveBlocks, NaiveBlock, new_naive, block_range}

pub record CpuGpuBlockAllocator : Type 0 where
  pub gpu_allocator : NaiveBlockAllocator
  pub cpu_allocator : NaiveBlockAllocator
  pub block_ids_to_allocator : Dict ℕ Device
  pub heap : NaiveBlocks

abbrev pub no_blocks : NaiveBlocks
no_blocks = record {
  next = 0;
  cell = λ _. record { token_ids = []; block_size = 0; prev_block = none; block_id = none };
}

unfoldable pub ids_of : Device → List ℕ → Dict ℕ Device → Dict ℕ Device
ids_of d [] ids = ids
ids_of d (i ∷ is) ids = ids_of d is (insert i d ids)

unfoldable pub disjoint : List ℕ → List ℕ → Bool
disjoint [] js = true
disjoint (i ∷ is) js = not (mem i js) && disjoint is js

-- `create` for naive allocators, with the constructor.
unfoldable pub create : ℕ → ℕ → ℕ → Result CpuGpuBlockAllocator
unfolding block_range new_naive ids_of disjoint
create num_gpu_blocks num_cpu_blocks block_size = do
  g ← new_naive num_gpu_blocks block_size (some (block_range 0 num_gpu_blocks))
  c ← new_naive num_cpu_blocks block_size (some (block_range num_gpu_blocks num_cpu_blocks))
  assert (disjoint c.all_block_indices g.all_block_indices)
  ok (record {
    gpu_allocator = g;
    cpu_allocator = c;
    block_ids_to_allocator = ids_of gpu g.all_block_indices (ids_of cpu c.all_block_indices []);
    heap = no_blocks;
  })

abbrev pub allocator_on : CpuGpuBlockAllocator → Device → NaiveBlockAllocator
allocator_on s d = elim d [ gpu ↦ s.gpu_allocator | cpu ↦ s.cpu_allocator ]

abbrev pub put_on :
    CpuGpuBlockAllocator → Device → NaiveBlockAllocator → NaiveBlocks → CpuGpuBlockAllocator
put_on s d a h = elim d [
  | gpu ↦ record s { gpu_allocator = a; heap = h }
  | cpu ↦ record s { cpu_allocator = a; heap = h }
]

-- `self._block_ids_to_allocator[block.block_id]`.
unfoldable pub device_of : CpuGpuBlockAllocator → ℕ → Result Device
device_of s p = do
  block_id ← or_raise (read s.heap p).block_id key_error
  or_raise (lookup block_id s.block_ids_to_allocator) key_error

unfoldable pub allocate_mutable_on :
    CpuGpuBlockAllocator → Option ℕ → Device → Result (ℕ × CpuGpuBlockAllocator)
allocate_mutable_on s prev_block device = do
  (p, a, h) ← BlockV2.allocate_mutable (allocator_on s device) s.heap prev_block
  ok (p, put_on s device a h)

unfoldable pub allocate_immutable_on :
    CpuGpuBlockAllocator → Option ℕ → List ℤ → Device → Result (ℕ × CpuGpuBlockAllocator)
allocate_immutable_on s prev_block token_ids device = do
  (p, a, h) ← BlockV2.allocate_immutable (allocator_on s device) s.heap prev_block token_ids
  ok (p, put_on s device a h)

unfoldable pub free_on : CpuGpuBlockAllocator → ℕ → Result CpuGpuBlockAllocator
unfolding device_of
free_on s p = do
  d ← device_of s p
  (a, h) ← BlockV2.free (allocator_on s d) s.heap p
  ok (put_on s d a h)

unfoldable pub fork_on : CpuGpuBlockAllocator → ℕ → Result (List ℕ × CpuGpuBlockAllocator)
unfolding device_of
fork_on s last_block = do
  d ← device_of s last_block
  (blocks, a, h) ← BlockV2.fork (allocator_on s d) s.heap last_block
  ok (blocks, put_on s d a h)

-- `block.append_token_ids`, of a block that has an id: it asks the allocator that built the block.
unfoldable pub append_on : CpuGpuBlockAllocator → ℕ → List ℤ → Result CpuGpuBlockAllocator
unfolding device_of
append_on s p token_ids = do
  d ← device_of s p
  (a, h) ← BlockV2.append_token_ids (allocator_on s d) s.heap p token_ids
  ok (put_on s d a h)

unfoldable pub num_free_on : CpuGpuBlockAllocator → Device → ℕ
num_free_on s d = BlockV2.num_free_blocks (allocator_on s d)

unfoldable pub clear_copy_on_writes : CpuGpuBlockAllocator → Dict ℕ (List ℕ) × CpuGpuBlockAllocator
clear_copy_on_writes s =
    let (cows, a) = BlockV2.clear_cows s.gpu_allocator in (cows, record s { gpu_allocator = a })
