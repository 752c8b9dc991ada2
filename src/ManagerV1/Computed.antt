-- ===== src/ManagerV1/Computed.antt =====
-- Access times and computed blocks in vllm_blend/vllm/core/block_manager_v1.py.
use cache_blend.Prelude.{
  ℕ, zero, suc, ◌-◌, ◌/◌, true, none, some, List, [], ◌∷◌, ◌==◌, get_elem?, length, take, Result,
  ok, ◌>>=◌, or_raise, index_error, if◌then◌else◌,
}
use cache_blend.Prelude.Int.{ℤ}
use cache_blend.Prelude.Heap.{read, write}
use cache_blend.Prelude.Dict.{Dict, lookup, nat_eq}
use cache_blend.Evictor.{Blocks}
use cache_blend.Sequence.{Sequence, get_len}
use cache_blend.Sequence.Group.{SequenceGroup}
use cache_blend.ManagerV1.{BlockSpaceManagerV1, BlockTable, table_of}

touch_all : Blocks → ℤ → BlockTable → Blocks
touch_all h access_time [] = h
touch_all h access_time (p ∷ ps) =
    touch_all (write h p (record (read h p) { last_accessed = access_time })) access_time ps

unfoldable pub access_all_blocks_in_seq :
    BlockSpaceManagerV1 → Sequence → ℤ → Result BlockSpaceManagerV1
unfolding touch_all
access_all_blocks_in_seq m seq access_time =
    if m.enable_caching
    then (do
      table ← table_of m seq.seq_id
      ok (record m { heap = touch_all m.heap access_time table }))
    else ok m

-- The loop over `reversed(range(n))`.
unfoldable pub mark_computed : BlockTable → ℕ → Blocks → Result Blocks
mark_computed table zero h = ok h
mark_computed table (suc i) h = do
  p ← or_raise (get_elem? table i) index_error
  let rest = mark_computed table i (write h p (record (read h p) { computed = true }))
  if (read h p).computed then ok h else rest

unfoldable pub compute_full_blocks_in_seq :
    BlockSpaceManagerV1 → Sequence → Result BlockSpaceManagerV1
unfolding mark_computed
compute_full_blocks_in_seq m seq = elim (lookup seq.seq_id m.block_tables) [
  | none ↦ ok m
  | some table ↦
      let full_blocks = get_len seq / m.block_size in
      if full_blocks == 0
      then ok m
      else (do h ← mark_computed table (full_blocks - 1) m.heap; ok (record m { heap = h }))
]

-- `takewhile` over the blocks that are computed.
unfoldable pub computed_prefix : Blocks → BlockTable → List ℕ
computed_prefix h [] = []
computed_prefix h (p ∷ ps) =
    let rest = (read h p).block_number ∷ computed_prefix h ps in
    if (read h p).computed then rest else []

unfoldable pub get_all_computed_blocks : BlockSpaceManagerV1 → Sequence → List ℕ
unfolding computed_prefix
get_all_computed_blocks m seq = elim (lookup seq.seq_id m.block_tables) [
  | none ↦ []
  | some table ↦ computed_prefix m.heap (take (length table - 1) table)
]

unfoldable pub common : List ℕ → List ℕ → List ℕ
common [] ys = []
common (x ∷ xs) [] = []
common (x ∷ xs) (y ∷ ys) = let rest = x ∷ common xs ys in if x == y then rest else []

-- `os.path.commonprefix`.
unfoldable pub commonprefix : List (List ℕ) → List ℕ
unfolding common
commonprefix [] = []
commonprefix (l ∷ []) = l
commonprefix (l ∷ k ∷ ls) = common l (commonprefix (k ∷ ls))

-- `[ids for ids in ids_list if ids != []]`, over the sequences.
computed_lists : BlockSpaceManagerV1 → List Sequence → List (List ℕ)
computed_lists m [] = []
computed_lists m (s ∷ ss) =
    let rest = computed_lists m ss in
    elim (get_all_computed_blocks m s) [ [] ↦ rest | x ∷ xs ↦ (x ∷ xs) ∷ rest ]

unfoldable pub get_common_computed_block_ids : BlockSpaceManagerV1 → List Sequence → List ℕ
unfolding commonprefix computed_lists get_all_computed_blocks
get_common_computed_block_ids m seqs =
    if m.enable_caching then commonprefix (computed_lists m seqs) else []

compute_all : BlockSpaceManagerV1 → Dict ℕ Sequence → Result BlockSpaceManagerV1
unfolding compute_full_blocks_in_seq
compute_all m [] = ok m
compute_all m ((k, s) ∷ d) = do m' ← compute_full_blocks_in_seq m s; compute_all m' d

unfoldable pub mark_blocks_as_computed :
    BlockSpaceManagerV1 → SequenceGroup → Result BlockSpaceManagerV1
unfolding compute_all
mark_blocks_as_computed m g = if m.enable_caching then compute_all m g.seqs_dict else ok m
