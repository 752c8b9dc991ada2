-- ===== src/ManagerV1.antt =====
-- `BlockSpaceManagerV1` of vllm_blend/vllm/core/block_manager_v1.py: construction, allocation, forking, freeing.
-- The children hold the other methods and the proofs. `heap` holds the physical blocks that the
-- tables and the allocators share. The watermark is a ratio of two numbers, `watermark_blocks` its
-- part of the GPU blocks, rounded down. A `set` of blocks is walked in the order of `dedup`.
pub mod Append
pub mod Swap
pub mod Computed
pub mod Counts
pub mod Tables
pub mod Sharing
pub mod Growing
pub mod Admission
pub mod Start
use cache_blend.Prelude.{
  ℕ, zero, suc, ◌+◌, ◌-◌, ◌*◌, ◌/◌, ◌%◌, Bool, true, false, ◌&&◌, not, Option, none, some, List, [],
  ◌∷◌, ◌++◌, ◌==◌, ltb, leb, length, drop, get_elem?, min, dedup, Result, ok, raise, ◌>>=◌, ◌>>◌,
  check, assert, or_raise, index_error, key_error, not_implemented_error, zero_division_error,
  if◌then◌else◌,
}
use cache_blend.Prelude.Int.{ℤ}
use cache_blend.Prelude.Heap.{read, write}
use cache_blend.Prelude.Dict.{Dict, lookup, contains, insert, delete, nat_eq}
use cache_blend.Block.{Device, gpu, cpu, PhysicalTokenBlock}
use cache_blend.Evictor.{Blocks}
use cache_blend.Allocator.{
  BlockAllocator, cached, uncached, new_cached, new_uncached, get_num_free_blocks, retain,
}
use cache_blend.Allocator
use cache_blend.Sequence.{Sequence, waiting, running, hash_of_block, num_hashed_tokens_of_block}
use cache_blend.Sequence.Group.{SequenceGroup, get_seqs, num_seqs}

pub data AllocStatus : Type 0 where
  fits later never : AllocStatus

abbrev pub BlockTable : Type 0
BlockTable = List ℕ

pub record BlockSpaceManagerV1 : Type 0 where
  pub block_size : ℕ
  pub num_total_gpu_blocks : ℕ
  pub num_total_cpu_blocks : ℕ
  pub block_sliding_window : Option ℕ
  pub watermark_blocks : ℕ
  pub enable_caching : Bool
  pub gpu_allocator : BlockAllocator
  pub cpu_allocator : BlockAllocator
  pub block_tables : Dict ℕ BlockTable
  pub heap : Blocks

-- `sliding_window // block_size`, after the two checks of the constructor.
unfoldable pub window_blocks : ℕ → Option ℕ → Bool → Result (Option ℕ)
window_blocks block_size none enable_caching = ok none
window_blocks block_size (some w) enable_caching = do
  check (not enable_caching) not_implemented_error
  check (not (block_size == 0)) zero_division_error
  assert (w % block_size == 0)
  ok (some (w / block_size))

unfoldable pub new_manager :
    ℕ → ℕ → ℕ → ℕ × ℕ → Option ℕ → Bool → Blocks → Result BlockSpaceManagerV1
unfolding window_blocks
new_manager block_size num_gpu num_cpu (watermark, per) sliding_window enable_caching h = do
  window ← window_blocks block_size sliding_window enable_caching
  let (gpu_free, h1) = new_uncached gpu block_size num_gpu h
  let (cpu_free, h2) = new_uncached cpu block_size num_cpu h1
  ok (record {
    block_size = block_size;
    num_total_gpu_blocks = num_gpu;
    num_total_cpu_blocks = num_cpu;
    block_sliding_window = window;
    watermark_blocks = watermark * num_gpu / per;
    enable_caching = enable_caching;
    gpu_allocator =
        if enable_caching then cached (new_cached gpu block_size num_gpu) else uncached gpu_free;
    cpu_allocator =
        if enable_caching then cached (new_cached cpu block_size num_cpu) else uncached cpu_free;
    block_tables = [];
    heap = if enable_caching then h else h2;
  })

abbrev pub allocator : BlockSpaceManagerV1 → Device → BlockAllocator
allocator m gpu = m.gpu_allocator
allocator m cpu = m.cpu_allocator

abbrev pub with_allocator :
    BlockSpaceManagerV1 → Device → BlockAllocator → Blocks → BlockSpaceManagerV1
with_allocator m gpu a h = record m { gpu_allocator = a; heap = h }
with_allocator m cpu a h = record m { cpu_allocator = a; heap = h }

-- `self.gpu_allocator.allocate(…)` and `self.cpu_allocator.allocate(…)`.
unfoldable pub allocate_on :
    BlockSpaceManagerV1 → Device → Option ℤ → ℕ → Result (ℕ × BlockSpaceManagerV1)
allocate_on m dev block_hash num_hashed_tokens = do
  (p, a, h) ← Allocator.allocate (allocator m dev) m.heap block_hash num_hashed_tokens
  ok (p, with_allocator m dev a h)

-- `self.gpu_allocator.free(block)` and `self.cpu_allocator.free(block)`.
unfoldable pub free_on : BlockSpaceManagerV1 → Device → ℕ → Result BlockSpaceManagerV1
free_on m dev p = do
  (a, h) ← Allocator.free (allocator m dev) m.heap p
  ok (with_allocator m dev a h)

-- `seq_group.get_seqs(status=SequenceStatus.WAITING)[0]`.
unfoldable pub first_waiting : SequenceGroup → Result Sequence
first_waiting g = elim (get_seqs g (some waiting)) [ [] ↦ raise index_error | s ∷ _ ↦ ok s ]

unfoldable pub can_allocate : BlockSpaceManagerV1 → SequenceGroup → Result AllocStatus
unfolding first_waiting
can_allocate m g = do
  seq ← first_waiting g
  let logical = length seq.logical_token_blocks
  let required : ℕ = elim m.block_sliding_window [ none ↦ logical | some w ↦ min logical w ]
  let num_free = get_num_free_blocks m.gpu_allocator
  ok (
      if ltb m.num_total_gpu_blocks (m.watermark_blocks + required)
      then never
      else if leb (m.watermark_blocks + required) num_free
      then fits
      else later)

-- `block.ref_count = n`.
abbrev pub set_ref_count : BlockSpaceManagerV1 → ℕ → ℕ → BlockSpaceManagerV1
set_ref_count m p n = record m { heap = write m.heap p (record (read m.heap p) { ref_count = n }) }

-- The last two branches of the loop of `allocate`, by `enable_caching`.
unfoldable pub fresh_block :
    Bool
    → (List ℤ → ℕ → ℤ)
    → BlockSpaceManagerV1
    → Sequence
    → ℕ
    → ℕ
    → Result (ℕ × BlockSpaceManagerV1)
fresh_block true hash m seq n logical_idx =
    allocate_on m gpu (some (hash_of_block hash seq logical_idx))
      (num_hashed_tokens_of_block seq logical_idx)
fresh_block false hash m seq n logical_idx = do
  (p, m') ← allocate_on m gpu none 0
  ok (p, set_ref_count m' p n)

-- The first branch, by `block_sliding_window`.
unfoldable pub prompt_block :
    Option ℕ
    → (List ℤ → ℕ → ℤ)
    → BlockSpaceManagerV1
    → Sequence
    → ℕ
    → ℕ
    → BlockTable
    → Result (ℕ × BlockSpaceManagerV1)
prompt_block none hash m seq n logical_idx table =
    fresh_block m.enable_caching hash m seq n logical_idx
prompt_block (some w) hash m seq n logical_idx table =
    if leb w logical_idx
    then (do
      check (not (w == 0)) zero_division_error
      p ← or_raise (get_elem? table (logical_idx % w)) index_error
      ok (p, set_ref_count m p n))
    else fresh_block m.enable_caching hash m seq n logical_idx

-- The loop of `allocate`: `rounds` logical indices are left, from `logical_idx` on.
unfoldable pub prompt_table :
    (List ℤ → ℕ → ℤ)
    → ℕ
    → BlockSpaceManagerV1
    → Sequence
    → ℕ
    → ℕ
    → BlockTable
    → Result (BlockTable × BlockSpaceManagerV1)
prompt_table hash zero m seq n logical_idx table = ok (table, m)
prompt_table hash (suc rounds) m seq n logical_idx table = do
  (p, m') ← prompt_block m.block_sliding_window hash m seq n logical_idx table
  prompt_table hash rounds m' seq n (suc logical_idx) (table ++ p ∷ [])

unfoldable pub assign_tables : List Sequence → BlockTable → Dict ℕ BlockTable → Dict ℕ BlockTable
assign_tables [] table tables = tables
assign_tables (s ∷ ss) table tables = assign_tables ss table (insert s.seq_id table tables)

unfoldable pub allocate :
    (List ℤ → ℕ → ℤ) → BlockSpaceManagerV1 → SequenceGroup → Result BlockSpaceManagerV1
allocate hash m g = do
  seq ← first_waiting g
  (table, m') ← prompt_table hash (length seq.logical_token_blocks) m seq (num_seqs g none) 0 []
  ok (record m' { block_tables = assign_tables (get_seqs g (some waiting)) table m'.block_tables })

-- `self.block_tables[seq_id]`.
abbrev pub table_of : BlockSpaceManagerV1 → ℕ → Result BlockTable
table_of m seq_id = or_raise (lookup seq_id m.block_tables) key_error

-- The loop of `fork`.
unfoldable pub retain_all : List ℕ → Blocks → Blocks
retain_all [] h = h
retain_all (p ∷ ps) h = retain_all ps (retain h p)

unfoldable pub fork : BlockSpaceManagerV1 → Sequence → Sequence → Result BlockSpaceManagerV1
unfolding retain_all
fork m parent_seq child_seq = do
  src_block_table ← table_of m parent_seq.seq_id
  ok (record m {
    block_tables = insert child_seq.seq_id src_block_table m.block_tables;
    heap = retain_all (dedup src_block_table) m.heap;
  })

-- The loop of `_free_block_table`.
unfoldable pub free_blocks : List ℕ → BlockSpaceManagerV1 → Result BlockSpaceManagerV1
unfolding free_on
free_blocks [] m = ok m
free_blocks (p ∷ ps) m = do m' ← free_on m (read m.heap p).device p; free_blocks ps m'

-- `block_table[-w:]`; `w = 0` takes the whole table.
unfoldable pub last_blocks : ℕ → BlockTable → BlockTable
last_blocks w table = if w == 0 then table else drop (length table - w) table

unfoldable pub free_block_table : BlockSpaceManagerV1 → BlockTable → Result BlockSpaceManagerV1
unfolding free_blocks last_blocks
free_block_table m table =
    free_blocks
      (dedup (elim m.block_sliding_window [ none ↦ table | some w ↦ last_blocks w table ])) m

unfoldable pub free : BlockSpaceManagerV1 → Sequence → Result BlockSpaceManagerV1
unfolding free_block_table
free m seq = elim (lookup seq.seq_id m.block_tables) [
  | none ↦ ok m
  | some table ↦ do
    m' ← free_block_table m table
    ok (record m' { block_tables = delete seq.seq_id m'.block_tables })
]

free_tables : Dict ℕ BlockTable → BlockSpaceManagerV1 → Result BlockSpaceManagerV1
unfolding free_block_table
free_tables [] m = ok m
free_tables ((k, table) ∷ d) m = do m' ← free_block_table m table; free_tables d m'

unfoldable pub reset : BlockSpaceManagerV1 → Result BlockSpaceManagerV1
unfolding free_tables
reset m = do m' ← free_tables m.block_tables m; ok (record m' { block_tables = [] })

block_numbers : Blocks → BlockTable → List ℕ
block_numbers h [] = []
block_numbers h (p ∷ ps) = (read h p).block_number ∷ block_numbers h ps

unfoldable pub get_block_table : BlockSpaceManagerV1 → Sequence → Result (List ℕ)
unfolding block_numbers
get_block_table m seq = do table ← table_of m seq.seq_id; ok (block_numbers m.heap table)
