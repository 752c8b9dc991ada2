-- ===== src/BlockV2/Table.antt =====
-- `BlockTable` of vllm_blend/vllm/core/block/block_table.py. The allocator that the tables share is passed
-- along; `block_size` is positive. Slices that start past the end are empty.
pub mod Chunks
pub mod Room
use cache_blend.Prelude.{
  ℕ, zero, suc, ◌+◌, ◌-◌, ◌*◌, ◌/◌, ◌%◌, Bool, true, false, ◌&&◌, not, Option, none, some, List, [],
  ◌∷◌, ◌++◌, length, take, drop, replicate, last?, ltb, leb, ◌==◌, Result, ok, raise, ◌>>=◌, ◌>>◌,
  assert, or_raise, assertion_error, index_error, if◌then◌else◌,
}
use cache_blend.Prelude.Int.{ℤ, negsuc}
use cache_blend.Prelude.Heap.{read}
use cache_blend.Utils.{cdiv, chunks}
use cache_blend.Block.{Device, gpu}
use cache_blend.BlockV2.{NaiveBlock, NaiveBlocks}
use cache_blend.BlockV2.Devices.{
  CpuGpuBlockAllocator, allocate_mutable_on, allocate_immutable_on, free_on, fork_on, append_on,
}

pub record BlockTable : Type 0 where
  pub block_size : ℕ
  pub blocks : Option (List ℕ)
  pub num_full_slots : ℕ

-- `chunk_list` of vllm_blend/vllm/utils.py.
unfoldable pub chunk_list : List ℤ → ℕ → List (List ℤ)
unfolding cdiv chunks
chunk_list lst chunk_size = chunks (cdiv (length lst) chunk_size) chunk_size lst

unfoldable pub get_num_required_blocks : List ℤ → ℕ → ℕ
unfolding cdiv
get_num_required_blocks token_ids block_size = cdiv (length token_ids) block_size

-- `_get_all_token_ids`, over the blocks.
unfoldable pub all_token_ids : NaiveBlocks → List ℕ → List ℤ
all_token_ids h [] = []
all_token_ids h (p ∷ ps) = (read {A = NaiveBlock} h p).token_ids ++ all_token_ids h ps

unfoldable pub new_table : NaiveBlocks → ℕ → Option (List ℕ) → BlockTable
unfolding all_token_ids
new_table h block_size blocks = record {
  block_size = block_size;
  blocks = blocks;
  num_full_slots = elim blocks [ none ↦ 0 | some ps ↦ length (all_token_ids h ps) ];
}

-- The loop of `_allocate_blocks_for_token_ids`.
unfoldable pub allocate_chunks :
    CpuGpuBlockAllocator
    → ℕ
    → Option ℕ
    → List (List ℤ)
    → Device
    → Result (List ℕ × CpuGpuBlockAllocator)
allocate_chunks s block_size prev_block [] device = ok ([], s)
allocate_chunks s block_size prev_block (c ∷ cs) device = do
  (p, s') ←
      (if length c == block_size then allocate_immutable_on s prev_block c device else (do
        (p, s1) ← allocate_mutable_on s prev_block device
        s2 ← append_on s1 p c
        ok (p, s2)))
  (ps, s'') ← allocate_chunks s' block_size (some p) cs device
  ok (p ∷ ps, s'')

-- `BlockTable.allocate`.
unfoldable pub table_allocate :
    CpuGpuBlockAllocator → BlockTable → List ℤ → Device → Result (BlockTable × CpuGpuBlockAllocator)
unfolding allocate_chunks chunk_list
table_allocate s t token_ids device = do
  assert (elim t.blocks [ none ↦ true | some ps ↦ false ])
  assert (ltb 0 (length token_ids))
  (ps, s') ← allocate_chunks s t.block_size none (chunk_list token_ids t.block_size) device
  ok (record t { blocks = some ps; num_full_slots = length token_ids }, s')

-- The loop of `ensure_num_empty_slots`.
unfoldable pub add_blocks :
    CpuGpuBlockAllocator → List ℕ → ℕ → Result (List ℕ × CpuGpuBlockAllocator)
add_blocks s ps zero = ok (ps, s)
add_blocks s ps (suc n) = do
  last_block ← or_raise (last? ps) index_error
  (p, s') ← allocate_mutable_on s (some last_block) gpu
  add_blocks s' (ps ++ p ∷ []) n

-- The slots of `ps` that hold no token; a table never holds more tokens than slots.
unfoldable pub num_empty_slots_in : BlockTable → List ℕ → ℕ
num_empty_slots_in t ps = length ps * t.block_size - t.num_full_slots

unfoldable pub ensure_num_empty_slots :
    CpuGpuBlockAllocator → BlockTable → ℕ → Result (BlockTable × CpuGpuBlockAllocator)
unfolding num_empty_slots_in add_blocks cdiv
ensure_num_empty_slots s t num_empty_slots = do
  ps ← or_raise t.blocks assertion_error
  elim (leb num_empty_slots (num_empty_slots_in t ps)) [
    | true ↦ ok (t, s)
    | false ↦ do
      (ps', s') ← add_blocks s ps (cdiv (num_empty_slots - num_empty_slots_in t ps) t.block_size)
      ok (record t { blocks = some ps' }, s')
  ]

-- `_chunk_token_blocks_for_append`.
unfoldable pub chunk_token_blocks_for_append : BlockTable → List ℤ → List (List ℤ)
unfolding chunk_list
chunk_token_blocks_for_append t token_ids =
    let first_chunk_size = t.block_size - t.num_full_slots % t.block_size in
    take first_chunk_size token_ids ∷ chunk_list (drop first_chunk_size token_ids) t.block_size

-- `for block, token_block in zip(blocks, token_blocks)`.
unfoldable pub append_chunks :
    CpuGpuBlockAllocator → List ℕ → List (List ℤ) → Result CpuGpuBlockAllocator
append_chunks s [] cs = ok s
append_chunks s (p ∷ ps) [] = ok s
append_chunks s (p ∷ ps) (c ∷ cs) = do s' ← append_on s p c; append_chunks s' ps cs

-- `BlockTable.append_token_ids`.
unfoldable pub table_append_token_ids :
    CpuGpuBlockAllocator → BlockTable → List ℤ → ℕ → Result (BlockTable × CpuGpuBlockAllocator)
unfolding ensure_num_empty_slots chunk_token_blocks_for_append append_chunks
table_append_token_ids s t token_ids num_lookahead_slots = do
  (t', s') ← ensure_num_empty_slots s t (length token_ids + num_lookahead_slots)
  ps ← or_raise t'.blocks assertion_error
  s'' ←
      append_chunks s' (drop (t'.num_full_slots / t'.block_size) ps)
        (chunk_token_blocks_for_append t' token_ids)
  ok (record t' { num_full_slots = t'.num_full_slots + length token_ids }, s'')

-- `BlockTable.fork`.
unfoldable pub table_fork :
    CpuGpuBlockAllocator → BlockTable → Result (BlockTable × CpuGpuBlockAllocator)
unfolding new_table
table_fork s t = do
  ps ← or_raise t.blocks assertion_error
  last_block ← or_raise (last? ps) index_error
  (forked, s') ← fork_on s last_block
  ok (new_table s'.heap t.block_size (some forked), s')

unfoldable pub free_all : CpuGpuBlockAllocator → List ℕ → Result CpuGpuBlockAllocator
free_all s [] = ok s
free_all s (p ∷ ps) = do s' ← free_on s p; free_all s' ps

-- `BlockTable.free`.
unfoldable pub table_free :
    CpuGpuBlockAllocator → BlockTable → Result (BlockTable × CpuGpuBlockAllocator)
unfolding free_all
table_free s t = do
  ps ← or_raise t.blocks assertion_error
  s' ← free_all s ps
  ok (record t { blocks = none }, s')

unfoldable pub block_ids_of : NaiveBlocks → List ℕ → List (Option ℕ)
block_ids_of h [] = []
block_ids_of h (p ∷ ps) = (read {A = NaiveBlock} h p).block_id ∷ block_ids_of h ps

unfoldable pub physical_block_ids : NaiveBlocks → BlockTable → Result (List (Option ℕ))
unfolding block_ids_of
physical_block_ids h t = do ps ← or_raise t.blocks assertion_error; ok (block_ids_of h ps)

unfoldable pub get_unseen_token_ids : BlockTable → List ℤ → List ℤ
get_unseen_token_ids t sequence_token_ids = drop t.num_full_slots sequence_token_ids

unfoldable pub get_num_blocks_touched_by_append_slots : BlockTable → List ℤ → ℕ → ℕ
unfolding chunk_token_blocks_for_append
get_num_blocks_touched_by_append_slots t token_ids num_lookahead_slots =
    length (chunk_token_blocks_for_append t (token_ids ++ replicate num_lookahead_slots (negsuc 0)))
