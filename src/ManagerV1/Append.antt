-- ===== src/ManagerV1/Append.antt =====
-- `can_append_slots`, `append_slots` and their helpers in vllm_blend/vllm/core/block_manager_v1.py. `hash` is
-- Python's built-in hash of a sequence's tokens and its LoRA id.
use cache_blend.Prelude.{
  ℕ, ◌-◌, ◌+◌, ◌%◌, Bool, true, false, ◌&&◌, Option, none, some, List, [], ◌∷◌, ◌++◌, ◌==◌, ltb,
  leb, length, get_elem?, last?, set_last, Result, ok, ◌>>=◌, ◌>>◌, assert, or_raise, index_error,
  not, if◌then◌else◌,
}
use cache_blend.Prelude.Int.{ℤ}
use cache_blend.Prelude.Heap.{read}
use cache_blend.Prelude.Dict.{Dict, insert, nat_eq}
use cache_blend.Block.{gpu, cpu}
use cache_blend.Allocator.{get_num_free_blocks, contains_block, update_hash}
use cache_blend.Sequence.{
  Sequence, running, hash_of_block, num_hashed_tokens_of_block, data_get_len,
}
use cache_blend.Sequence.Group.{SequenceGroup, num_seqs}
use cache_blend.ManagerV1.{BlockSpaceManagerV1, BlockTable, allocate_on, free_on, table_of}

unfoldable pub can_append_slots : BlockSpaceManagerV1 → SequenceGroup → ℕ → Result Bool
can_append_slots m g num_lookahead_slots = do
  assert (num_lookahead_slots == 0)
  ok (leb (num_seqs g (some running)) (get_num_free_blocks m.gpu_allocator))

-- `_is_last_block_full`.
unfoldable pub is_last_block_full : Sequence → Bool
is_last_block_full seq =
    let token_ids_len = data_get_len seq.seq_data in
    ltb 0 token_ids_len && (token_ids_len % seq.block_size == 0)

-- A write of the sequence's table.
abbrev pub put_table : BlockSpaceManagerV1 → Sequence → BlockTable → BlockSpaceManagerV1
put_table m seq table = record m { block_tables = insert seq.seq_id table m.block_tables }

-- The window's block that a full table uses again.
unfoldable pub reused_block : BlockSpaceManagerV1 → BlockTable → Option ℕ
reused_block m table = elim m.block_sliding_window [
  | none ↦ none
  | some w ↦
      if not (w == 0) && leb w (length table) then get_elem? table (length table % w) else none
]

module _ (hash : List ℤ → ℕ → ℤ) where
  -- `_promote_last_block`.
  unfoldable pub promote_last_block :
      BlockSpaceManagerV1 → Sequence → ℕ → Result (ℕ × BlockSpaceManagerV1)
  promote_last_block m seq last_block = do
    assert m.enable_caching
    let new_hash = hash_of_block hash seq (length seq.logical_token_blocks - 1)
    known ← contains_block m.gpu_allocator new_hash
    if known then (do m' ← free_on m gpu last_block; allocate_on m' gpu (some new_hash) 0) else (do
      (a, h) ← update_hash m.gpu_allocator m.heap new_hash last_block
      ok (last_block, record m { gpu_allocator = a; heap = h }))

  -- `_maybe_promote_last_block`.
  unfoldable pub maybe_promote_last_block :
      BlockSpaceManagerV1 → Sequence → ℕ → Result (ℕ × BlockSpaceManagerV1)
  unfolding promote_last_block is_last_block_full
  maybe_promote_last_block m seq last_block =
      if is_last_block_full seq then promote_last_block m seq last_block else ok (last_block, m)

  -- `_allocate_last_physical_block`.
  unfoldable pub allocate_last_physical_block :
      BlockSpaceManagerV1 → Sequence → Result (ℕ × BlockSpaceManagerV1)
  unfolding is_last_block_full
  allocate_last_physical_block m seq =
      if not m.enable_caching then allocate_on m gpu none 0 else (do
        let last_idx = length seq.logical_token_blocks - 1
        let num_hashed_tokens = num_hashed_tokens_of_block seq last_idx
        if is_last_block_full seq
            then allocate_on m gpu (some (hash_of_block hash seq last_idx)) num_hashed_tokens
            else (do
              (p, m') ← allocate_on m gpu none num_hashed_tokens
              assert ((read m'.heap p).ref_count == 1)
              ok (p, m')))

  -- The second half of `append_slots`: the token goes to the last physical block.
  unfoldable pub append_to_last :
      BlockSpaceManagerV1 → Sequence → BlockTable → Result (Dict ℕ (List ℕ) × BlockSpaceManagerV1)
  unfolding maybe_promote_last_block allocate_last_physical_block
  append_to_last m seq table = do
    last_block ← or_raise (last? table) index_error
    assert (elim (read m.heap last_block).device [ gpu ↦ true | cpu ↦ false ])
    if (read m.heap last_block).ref_count == 1
        then (if m.enable_caching
            then (do
              (p, m') ← maybe_promote_last_block m seq last_block
              ok ([], put_table m' seq (set_last table p)))
            else ok ([], put_table m seq table))
        else (do
          (p, m') ← allocate_last_physical_block m seq
          m'' ← free_on (put_table m' seq (set_last table p)) gpu last_block
          let number : ℕ = (read m''.heap p).block_number
          ok (((read m''.heap last_block).block_number, number ∷ []) ∷ [], m''))

  unfoldable pub append_slots :
      BlockSpaceManagerV1 → Sequence → Result (Dict ℕ (List ℕ) × BlockSpaceManagerV1)
  unfolding append_to_last allocate_last_physical_block
  append_slots m seq = do
    table ← table_of m seq.seq_id
    if ltb (length table) (length seq.logical_token_blocks)
        then (do
          assert (length table + 1 == length seq.logical_token_blocks)
          elim (reused_block m table) [
            | some p ↦ append_to_last m seq (table ++ p ∷ [])
            | none ↦ do
              (p, m') ← allocate_last_physical_block m seq
              ok ([], put_table m' seq (table ++ p ∷ []))
          ])
        else append_to_last m seq table
