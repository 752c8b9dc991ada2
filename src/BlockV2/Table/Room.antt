-- ===== src/BlockV2/Table/Room.antt =====
-- How many blocks `ensure_num_empty_slots` of vllm_blend/vllm/core/block/block_table.py adds, against the
-- number that `get_num_blocks_touched_by_append_slots` announces to the scheduler.
use native.Mathlib.Nat.{add-mul}
use cache_blend.Prelude.{
  ℕ, zero, suc, ◌+◌, ◌-◌, ◌*◌, ◌%◌, ◌≤◌, ◌<◌, ◌≡◌, ap, ◌∙◌, some, List, [], ◌∷◌, ◌++◌, length, drop,
  replicate, length-append, length-drop, length-replicate, arith, leb, leb→le, last?, ok,
  Result-cases, Option-cases, Bool-cases, inl, inr,
}
use cache_blend.Prelude.Int.{ℤ, negsuc}
use cache_blend.Utils.{cdiv}
use cache_blend.Block.{gpu}
use cache_blend.BlockV2.Devices.{CpuGpuBlockAllocator, allocate_mutable_on}
use cache_blend.BlockV2.Table.{
  BlockTable, chunk_list, chunk_token_blocks_for_append, add_blocks, ensure_num_empty_slots,
  num_empty_slots_in, get_num_blocks_touched_by_append_slots,
}
use cache_blend.BlockV2.Table.Chunks.{cdiv-upper, cdiv-least, length-chunks}

length-add_blocks :
    (s : CpuGpuBlockAllocator) (ps : List ℕ) (n : ℕ) {out : List ℕ × CpuGpuBlockAllocator}
    → add_blocks s ps n ≡ ok out
    → length out.0 ≡ length ps + n
unfolding add_blocks
length-add_blocks s ps zero h = ground (arith, h)
length-add_blocks s ps (suc n) {out = out} h = elim (Option-cases (last? ps)) [
  | inl e ↦ ground (arith, h, e)
  | inr (q, e) ↦ elim (Result-cases (allocate_mutable_on s (some q) gpu)) [
    | inl e1 ↦ ground (arith, h, e, e1.1)
    | inr ((p, s1), e1) ↦
        let rest = length-add_blocks s1 (ps ++ p ∷ []) n {out = out} (ground (arith, h, e, e1)) in
        let longer = length-append ps (p ∷ []) in omega (arith, rest, longer)
  ]
]

-- The announced number, counted.
touched_count :
    (t : BlockTable) (token_ids : List ℤ) (lookahead : ℕ)
    → get_num_blocks_touched_by_append_slots t token_ids lookahead
      ≡ suc (
          cdiv
            (length token_ids + lookahead - (t.block_size - t.num_full_slots % t.block_size))
            t.block_size)
unfolding get_num_blocks_touched_by_append_slots chunk_token_blocks_for_append chunk_list
touched_count t token_ids lookahead =
    let first = t.block_size - t.num_full_slots % t.block_size in
    let all = token_ids ++ replicate lookahead (negsuc 0) in
    let a =
      length-chunks (cdiv (length (drop first all)) t.block_size) t.block_size (drop first all) in
    let b = length-drop first all in
    let c = length-append token_ids (replicate lookahead (negsuc 0)) in
    let d = length-replicate lookahead (negsuc 0) in
    let n : length (drop first all) ≡ length token_ids + lookahead - first =
      omega (arith, b, c, d) in
    ap suc (a ∙ ap (λ x. cdiv x t.block_size) n)

-- For a table whose tokens fit into its blocks, with blocks of at least one token: when
-- `ensure_num_empty_slots` returns for some tokens and lookahead slots, the table has the blocks for all of
-- them, and it grew by no more blocks than `get_num_blocks_touched_by_append_slots` announces for them.
pub ensure_num_empty_slots-Room :
    (s : CpuGpuBlockAllocator) (t : BlockTable) (ps : List ℕ) (token_ids : List ℤ) (lookahead : ℕ)
    (t' : BlockTable) (s' : CpuGpuBlockAllocator)
    → 0 < t.block_size
    → t.blocks ≡ some ps
    → t.num_full_slots ≤ length ps * t.block_size
    → ensure_num_empty_slots s t (length token_ids + lookahead) ≡ ok (t', s')
    → (ps' : List ℕ) × (t'.blocks ≡ some ps')
      × (t'.num_full_slots + (length token_ids + lookahead) ≤ length ps' * t'.block_size)
      × (length ps' ≤ length ps + get_num_blocks_touched_by_append_slots t token_ids lookahead)
unfolding ensure_num_empty_slots num_empty_slots_in
ensure_num_empty_slots-Room s t ps token_ids lookahead t' s' pos blocks fit h =
    let n = length token_ids + lookahead in
    let empty = length ps * t.block_size - t.num_full_slots in
    let count = touched_count t token_ids lookahead in
    elim (Bool-cases (leb n empty)) [
      | inl e ↦
          let full : t'.num_full_slots ≡ t.num_full_slots = ground (arith, h, blocks, e) in
          let size : t'.block_size ≡ t.block_size = ground (arith, h, blocks, e) in
          let enough = leb→le n empty e in
          (
            ps,
            ground (arith, h, blocks, e),
            rw (full, size) (omega (arith, fit, enough)),
            omega (arith, count),
          )
      | inr e ↦ elim (Result-cases (add_blocks s ps (cdiv (n - empty) t.block_size))) [
        | inl e1 ↦ ground (arith, h, blocks, e, e1.1)
        | inr ((ps1, s1), e1) ↦
            let full : t'.num_full_slots ≡ t.num_full_slots = ground (arith, h, blocks, e, e1) in
            let size : t'.block_size ≡ t.block_size = ground (arith, h, blocks, e, e1) in
            let long = length-add_blocks s ps (cdiv (n - empty) t.block_size) e1 in
            let holds = cdiv-upper (n - empty) t.block_size pos in
            let first = t.block_size - t.num_full_slots % t.block_size in
            let rest = cdiv-upper (n - first) t.block_size pos in
            let least =
              cdiv-least (n - empty) t.block_size (suc (cdiv (n - first) t.block_size)) pos
                (omega (arith, rest)) in
            let total = add-mul (length ps) (cdiv (n - empty) t.block_size) t.block_size in
            (
              ps1,
              ground (arith, h, blocks, e, e1),
              rw (full, size, long) (omega (arith, fit, holds, total)),
              omega (arith, count, long, least),
            )
      ]
    ]
