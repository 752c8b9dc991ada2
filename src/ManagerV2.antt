-- ===== src/ManagerV2.antt =====
-- `BlockSpaceManagerV2` of vllm_blend/vllm/core/block_manager_v2.py, over the naive allocators of two
-- devices, and the manager behind the interface of the scheduler. The watermark is a ratio of two numbers.
use cache_blend.Prelude.{
  ℕ, ◌+◌, ◌*◌, ◌/◌, Bool, true, false, ◌&&◌, not, Option, none, some, List, [], ◌∷◌, ltb, leb,
  Result, ok, raise, ◌>>=◌, ◌>>◌, assert, or_raise, key_error, assertion_error, index_error,
  not_implemented_error, if◌then◌else◌,
}
use cache_blend.Prelude.Int.{ℤ}
use cache_blend.Prelude.Dict.{Dict, lookup, insert, delete, contains, nat_eq}
use cache_blend.Block.{gpu, cpu}
use cache_blend.Sequence.{Sequence, SequenceStatus, data_get_token_ids}
use cache_blend.Sequence.Group.{SequenceGroup, get_seqs}
use cache_blend.ManagerV1.{AllocStatus, fits, later, never}
use cache_blend.Interfaces.{BlockSpaceManager}
use cache_blend.BlockV2.Devices.{CpuGpuBlockAllocator, create, num_free_on, clear_copy_on_writes}
use cache_blend.BlockV2.Table.{
  BlockTable, new_table, get_num_required_blocks, table_allocate, table_append_token_ids,
  table_fork, table_free, physical_block_ids, get_unseen_token_ids,
  get_num_blocks_touched_by_append_slots,
}

pub record BlockSpaceManagerV2 : Type 0 where
  pub block_size : ℕ
  pub num_total_gpu_blocks : ℕ
  pub num_total_cpu_blocks : ℕ
  pub watermark_blocks : ℕ
  pub block_allocator : CpuGpuBlockAllocator
  pub block_tables : Dict ℕ BlockTable

-- `__init__`.
unfoldable pub new_manager_v2 : ℕ → ℕ → ℕ → ℕ × ℕ → Option ℕ → Bool → Result BlockSpaceManagerV2
unfolding create
new_manager_v2 block_size num_gpu_blocks num_cpu_blocks (watermark, per) sliding_window
      enable_caching =
    do
      assert (elim sliding_window [ none ↦ true | some w ↦ false ])
      assert (not enable_caching)
      allocator ← create num_gpu_blocks num_cpu_blocks block_size
      ok (record {
        block_size = block_size;
        num_total_gpu_blocks = num_gpu_blocks;
        num_total_cpu_blocks = num_cpu_blocks;
        watermark_blocks = watermark * num_gpu_blocks / per;
        block_allocator = allocator;
        block_tables = [];
      })

unfoldable pub token_ids_of : Sequence → List ℤ
token_ids_of seq = data_get_token_ids seq.seq_data

unfoldable pub first_of : List Sequence → Result Sequence
first_of [] = raise index_error
first_of (seq ∷ seqs) = ok seq

unfoldable pub can_allocate_v2 : BlockSpaceManagerV2 → SequenceGroup → Result AllocStatus
unfolding first_of token_ids_of num_free_on get_num_required_blocks
can_allocate_v2 m seq_group = do
  seq ← first_of (get_seqs seq_group (some SequenceStatus.waiting))
  let required = get_num_required_blocks (token_ids_of seq) m.block_size
  ok (
      if ltb m.num_total_gpu_blocks (m.watermark_blocks + required)
      then never
      else if leb (m.watermark_blocks + required) (num_free_on m.block_allocator gpu)
      then fits
      else later)

unfoldable pub none_has_table : Dict ℕ BlockTable → List Sequence → Bool
none_has_table tables [] = true
none_has_table tables (seq ∷ seqs) = not (contains seq.seq_id tables) && none_has_table tables seqs

-- The forks of the first table, one for each further sequence.
unfoldable pub fork_tables :
    CpuGpuBlockAllocator
    → BlockTable
    → List Sequence
    → Dict ℕ BlockTable
    → Result (Dict ℕ BlockTable × CpuGpuBlockAllocator)
fork_tables s t [] tables = ok (tables, s)
fork_tables s t (seq ∷ seqs) tables = do
  (forked, s') ← table_fork s t
  fork_tables s' t seqs (insert seq.seq_id forked tables)

unfoldable pub allocate_v2 : BlockSpaceManagerV2 → SequenceGroup → Result BlockSpaceManagerV2
unfolding none_has_table fork_tables token_ids_of
allocate_v2 m seq_group = do
  let waiting_seqs = get_seqs seq_group (some SequenceStatus.waiting)
  assert (none_has_table m.block_tables waiting_seqs)
  elim waiting_seqs [
    | [] ↦ raise index_error
    | seq ∷ seqs ↦ do
      (t, s) ←
          table_allocate m.block_allocator (new_table m.block_allocator.heap m.block_size none)
            (token_ids_of seq) gpu
      (tables, s') ← fork_tables s t seqs (insert seq.seq_id t m.block_tables)
      ok (record m { block_allocator = s'; block_tables = tables })
  ]

-- The blocks that the running sequences touch.
unfoldable pub touched_blocks : BlockSpaceManagerV2 → List Sequence → ℕ → Result ℕ
touched_blocks m [] num_lookahead_slots = ok 0
touched_blocks m (seq ∷ seqs) num_lookahead_slots = do
  t ← or_raise (lookup seq.seq_id m.block_tables) key_error
  n ← touched_blocks m seqs num_lookahead_slots
  ok (
      get_num_blocks_touched_by_append_slots t (get_unseen_token_ids t (token_ids_of seq))
        num_lookahead_slots
      + n)

unfoldable pub can_append_slots_v2 : BlockSpaceManagerV2 → SequenceGroup → ℕ → Result Bool
unfolding touched_blocks num_free_on
can_append_slots_v2 m seq_group num_lookahead_slots = do
  n ← touched_blocks m (get_seqs seq_group (some SequenceStatus.running)) num_lookahead_slots
  ok (leb n (num_free_on m.block_allocator gpu))

unfoldable pub append_slots_v2 :
    BlockSpaceManagerV2 → Sequence → ℕ → Result (Dict ℕ (List ℕ) × BlockSpaceManagerV2)
unfolding clear_copy_on_writes token_ids_of
append_slots_v2 m seq num_lookahead_slots = do
  t ← or_raise (lookup seq.seq_id m.block_tables) key_error
  (t', s) ←
      table_append_token_ids m.block_allocator t (get_unseen_token_ids t (token_ids_of seq))
        num_lookahead_slots
  let (new_cows, s') = clear_copy_on_writes s
  ok (
    new_cows,
    record m { block_allocator = s'; block_tables = insert seq.seq_id t' m.block_tables },
  )

unfoldable pub free_v2 : BlockSpaceManagerV2 → Sequence → Result BlockSpaceManagerV2
free_v2 m seq = elim (lookup seq.seq_id m.block_tables) [
  | none ↦ ok m
  | some t ↦ do
    (t', s) ← table_free m.block_allocator t
    ok (record m { block_allocator = s; block_tables = delete seq.seq_id m.block_tables })
]

unfoldable pub all_ids : List (Option ℕ) → Result (List ℕ)
all_ids [] = ok []
all_ids (i ∷ is) = do block_id ← or_raise i assertion_error; rest ← all_ids is; ok (block_id ∷ rest)

unfoldable pub get_block_table_v2 : BlockSpaceManagerV2 → Sequence → Result (List ℕ)
unfolding all_ids physical_block_ids
get_block_table_v2 m seq = do
  t ← or_raise (lookup seq.seq_id m.block_tables) assertion_error
  ids ← physical_block_ids m.block_allocator.heap t
  all_ids ids

unfoldable pub fork_v2 : BlockSpaceManagerV2 → Sequence → Sequence → Result BlockSpaceManagerV2
fork_v2 m parent_seq child_seq = do
  t ← or_raise (lookup parent_seq.seq_id m.block_tables) key_error
  (forked, s) ← table_fork m.block_allocator t
  ok (record m {
    block_allocator = s;
    block_tables = insert child_seq.seq_id forked m.block_tables;
  })

-- `get_common_computed_block_ids`: the naive allocators have none, once every sequence has a table.
unfoldable pub common_computed_v2 : BlockSpaceManagerV2 → List Sequence → Result (List ℕ)
unfolding physical_block_ids
common_computed_v2 m [] = ok []
common_computed_v2 m (seq ∷ seqs) = do
  t ← or_raise (lookup seq.seq_id m.block_tables) key_error
  ids ← physical_block_ids m.block_allocator.heap t
  common_computed_v2 m seqs

-- Swapping is not implemented: `swap_in` and `swap_out` raise, and nothing can be swapped.
abbrev pub v2 : BlockSpaceManager BlockSpaceManagerV2
v2 = record {
  can_allocate = can_allocate_v2;
  allocate = allocate_v2;
  can_append_slots = can_append_slots_v2;
  append_slots = append_slots_v2;
  fork = fork_v2;
  can_swap_in = λ m seq_group num_lookahead_slots. ok false;
  swap_in = λ m seq_group num_lookahead_slots. raise not_implemented_error;
  can_swap_out = λ m seq_group. ok false;
  swap_out = λ m seq_group. raise not_implemented_error;
  free = free_v2;
  get_block_table = get_block_table_v2;
  get_num_free_gpu_blocks = λ m. num_free_on m.block_allocator gpu;
  get_num_free_cpu_blocks = λ m. num_free_on m.block_allocator cpu;
  access_all_blocks_in_seq = λ m seq now. ok m;
  get_common_computed_block_ids = common_computed_v2;
  mark_blocks_as_computed = λ m seq_group. ok m;
}
