-- ===== src/ManagerV1/Swap.antt =====
-- Swapping between the two devices in vllm_blend/vllm/core/block_manager_v1.py. `mapping` is the dictionary of
-- the source from the blocks of one device to those of the other.
use cache_blend.Prelude.{
  ℕ, ◌+◌, Bool, none, some, List, [], ◌∷◌, ◌++◌, ◌==◌, leb, length, dedup, Result, ok, ◌>>=◌, ◌>>◌,
  assert, if◌then◌else◌,
}
use cache_blend.Prelude.Heap.{read}
use cache_blend.Prelude.Dict.{Dict, lookup, insert, nat_eq}
use cache_blend.Block.{gpu, cpu, Device}
use cache_blend.Evictor.{Blocks}
use cache_blend.Allocator.{get_num_free_blocks, retain}
use cache_blend.Sequence.{Sequence, running, swapped, is_finished}
use cache_blend.Sequence.Group.{SequenceGroup, get_seqs, num_seqs}
use cache_blend.ManagerV1.{BlockSpaceManagerV1, BlockTable, allocate_on, free_on, table_of}

tables_of : BlockSpaceManagerV1 → List Sequence → Result (List ℕ)
tables_of m [] = ok []
tables_of m (s ∷ ss) = do
  table ← (if is_finished s then ok [] else table_of m s.seq_id)
  rest ← tables_of m ss
  ok (table ++ rest)

-- `_get_physical_blocks`.
unfoldable pub get_physical_blocks : BlockSpaceManagerV1 → SequenceGroup → Result (List ℕ)
unfolding tables_of
get_physical_blocks m g = do blocks ← tables_of m (get_seqs g none); ok (dedup blocks)

unfoldable pub can_swap_in : BlockSpaceManagerV1 → SequenceGroup → ℕ → Result Bool
can_swap_in m g num_lookahead_slots = do
  assert (num_lookahead_slots == 0)
  blocks ← get_physical_blocks m g
  let num_required_blocks = length blocks + num_seqs g (some swapped)
  ok (leb (m.watermark_blocks + num_required_blocks) (get_num_free_blocks m.gpu_allocator))

unfoldable pub can_swap_out : BlockSpaceManagerV1 → SequenceGroup → Result Bool
can_swap_out m g = do
  blocks ← get_physical_blocks m g
  ok (leb (length blocks) (get_num_free_blocks m.cpu_allocator))

-- The block on the device `to` that stands for `p`, and the mapping with it.
unfoldable pub swap_block :
    Device → BlockSpaceManagerV1 → Dict ℕ ℕ → ℕ → Result (ℕ × Dict ℕ ℕ × BlockSpaceManagerV1)
swap_block to m mapping p = elim (lookup p mapping) [
  | some q ↦ ok (q, mapping, record m { heap = retain m.heap q })
  | none ↦ do
    let b = read m.heap p
    (q, m') ← allocate_on m to (some b.block_hash) b.num_hashed_tokens
    ok (q, insert p q mapping, m')
]

-- The loop over the blocks of one table: each is replaced, and its old block freed.
unfoldable pub swap_table :
    Device
    → Device
    → BlockSpaceManagerV1
    → Dict ℕ ℕ
    → BlockTable
    → BlockTable
    → Result (BlockTable × Dict ℕ ℕ × BlockSpaceManagerV1)
unfolding swap_block
swap_table from to m mapping new_table [] = ok (new_table, mapping, m)
swap_table from to m mapping new_table (p ∷ ps) = do
  (q, mapping', m') ← swap_block to m mapping p
  m'' ← free_on m' from p
  swap_table from to m'' mapping' (new_table ++ q ∷ []) ps

-- The loop over the sequences.
unfoldable pub swap_seqs :
    Device
    → Device
    → BlockSpaceManagerV1
    → Dict ℕ ℕ
    → List Sequence
    → Result (Dict ℕ ℕ × BlockSpaceManagerV1)
unfolding swap_table
swap_seqs from to m mapping [] = ok (mapping, m)
swap_seqs from to m mapping (s ∷ ss) = do
  table ← table_of m s.seq_id
  (new_table, mapping', m') ← swap_table from to m mapping [] table
  swap_seqs from to (record m' { block_tables = insert s.seq_id new_table m'.block_tables })
      mapping' ss

-- The dictionary comprehension over `mapping.items()`.
number_mapping : Blocks → Dict ℕ ℕ → Dict ℕ ℕ → Dict ℕ ℕ
number_mapping h [] made = made
number_mapping h ((p, q) ∷ d) made =
    number_mapping h d (insert (read h p).block_number (read h q).block_number made)

unfoldable pub swap_in :
    BlockSpaceManagerV1 → SequenceGroup → ℕ → Result (Dict ℕ ℕ × BlockSpaceManagerV1)
unfolding swap_seqs number_mapping
swap_in m g num_lookahead_slots = do
  assert (num_lookahead_slots == 0)
  (mapping, m') ← swap_seqs cpu gpu m [] (get_seqs g (some swapped))
  ok (number_mapping m'.heap mapping [], m')

unfoldable pub swap_out :
    BlockSpaceManagerV1 → SequenceGroup → Result (Dict ℕ ℕ × BlockSpaceManagerV1)
unfolding swap_seqs number_mapping
swap_out m g = do
  (mapping, m') ← swap_seqs gpu cpu m [] (get_seqs g (some running))
  ok (number_mapping m'.heap mapping [], m')
