-- ===== src/Tests/Tables.antt =====
-- Block tables over blocks of two tokens, with three blocks on the GPU and one on the CPU.
use cache_blend.Prelude.{
  ◌++◌, ◌⊎◌, ℕ, ◌+◌, ◌-◌, ◌*◌, ◌%◌, ◌≤◌, ◌≡◌, refl, none, some, List, [], ◌∷◌, length, Result, ok,
  raise, arith, remove,
}
use cache_blend.Prelude.Int.{ℤ, pos}
use cache_blend.Prelude.Dict.{insert, lookup, nat_eq}
use cache_blend.Utils.{cdiv}
use cache_blend.Block.{gpu, cpu}
use cache_blend.BlockV2.{
  NaiveBlockAllocator, NaiveBlocks, allocate_mutable, allocate_new_block_id, incr,
}
use cache_blend.BlockV2.Devices.{CpuGpuBlockAllocator, allocate_mutable_on}
use cache_blend.BlockV2.Table.{
  BlockTable, ensure_num_empty_slots, num_empty_slots_in, add_blocks, chunk_token_blocks_for_append,
  get_num_blocks_touched_by_append_slots,
}
use cache_blend.BlockV2.Table.Chunks.{flattened, AllShort, chunk_token_blocks_for_append-flattened}
use cache_blend.BlockV2.Table.Room.{ensure_num_empty_slots-Room}

abbrev one_block : NaiveBlocks
one_block = record {
  next = 1;
  cell =
      λ _. record { token_ids = pos 5 ∷ []; block_size = 2; prev_block = none; block_id = some 0 };
}

abbrev on_gpu : NaiveBlockAllocator
on_gpu = record {
  free_block_indices = 1 ∷ 2 ∷ [];
  all_block_indices = 0 ∷ 1 ∷ 2 ∷ [];
  refcounter = (0, 1) ∷ (1, 0) ∷ (2, 0) ∷ [];
  block_size = 2;
  copy_on_writes = [];
}

abbrev on_cpu : NaiveBlockAllocator
on_cpu = record {
  free_block_indices = 3 ∷ [];
  all_block_indices = 3 ∷ [];
  refcounter = (3, 0) ∷ [];
  block_size = 2;
  copy_on_writes = [];
}

abbrev pools : CpuGpuBlockAllocator
pools = record {
  gpu_allocator = on_gpu;
  cpu_allocator = on_cpu;
  block_ids_to_allocator = (0, gpu) ∷ (1, gpu) ∷ (2, gpu) ∷ (3, cpu) ∷ [];
  heap = one_block;
}

-- One token in a block of two.
abbrev short_table : BlockTable
short_table = record { block_size = 2; blocks = some (0 ∷ []); num_full_slots = 1 }

abbrev new_tokens : List ℤ
new_tokens = pos 6 ∷ pos 7 ∷ pos 8 ∷ []

chunk_token_blocks_for_append-flattened_example :
    (first : List ℤ) × (pieces : List (List ℤ)) × (chunk_token_blocks_for_append short_table
        new_tokens
      ≡ first ∷ pieces)
    × (first ++ flattened pieces ≡ new_tokens)
    × (1 % 2 + length first ≤ 2)
    × ((1 % 2 + length first ≡ 2) ⊎ (first ≡ new_tokens))
    × AllShort 2 pieces
    × (length pieces ≡ cdiv (3 - length first) 2)
chunk_token_blocks_for_append-flattened_example =
    chunk_token_blocks_for_append-flattened short_table new_tokens (omega arith)

abbrev returned : {A : Type 0} → A → Result A → A
returned default (raise error) = default
returned default (ok result) = result

abbrev grown : BlockTable × CpuGpuBlockAllocator
grown = returned (short_table, pools) (ensure_num_empty_slots pools short_table (3 + 0))

grown_returns : ensure_num_empty_slots pools short_table (3 + 0) ≡ ok grown
unfolding ensure_num_empty_slots num_empty_slots_in add_blocks allocate_mutable_on allocate_mutable
    allocate_new_block_id incr cdiv insert lookup remove
grown_returns = refl

ensure_num_empty_slots-Room_example :
    (ps' : List ℕ) × (grown.0.blocks ≡ some ps')
    × (grown.0.num_full_slots + (3 + 0) ≤ length ps' * grown.0.block_size)
    × (length ps' ≤ 1 + get_num_blocks_touched_by_append_slots short_table new_tokens 0)
ensure_num_empty_slots-Room_example =
    ensure_num_empty_slots-Room pools short_table (0 ∷ []) new_tokens 0 (grown.0) (grown.1)
      (omega arith) refl (omega arith) grown_returns
