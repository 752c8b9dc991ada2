-- ===== src/ManagerV1/Growing/Growth.antt =====
-- What `append_slots` leaves behind, and the manager after the last block of a table has changed.
use mathlib.Core.Path.{subst}
use cache_blend.Prelude.{
  ℕ, ◌+◌, ◌<◌, ◌≡◌, sym, ◌∙◌, ◌⊎◌, false, none, some, List, [], ◌∷◌, ◌++◌, length, Nodup, last?,
  last?-snoc, ltb, ◌==◌, Result, ok, raise, value_error, arith, if◌then◌else◌,
}
use cache_blend.Prelude.Int.{ℤ}
use cache_blend.Prelude.Dict.{Dict, lookup, insert, nat_eq, lookup-insert, insert-Distinct}
use cache_blend.Block.{gpu}
use cache_blend.Allocator.{get_num_free_blocks}
use cache_blend.Sequence.{Sequence}
use cache_blend.ManagerV1.{BlockSpaceManagerV1, BlockTable, allocate_on}
use cache_blend.ManagerV1.Append.{allocate_last_physical_block, reused_block}
use cache_blend.ManagerV1.Counts.{Tidy}
use cache_blend.ManagerV1.Tables.{holders, insert-AllNodup}
use cache_blend.ManagerV1.Sharing.{IsConsistent, IsConsistent-tables}

-- What `append_slots` leaves: a consistent manager in which the sequence has a block for each logical
-- block and its last block to itself, and every other table is as before.
pub record Grown (m : BlockSpaceManagerV1) (seq : Sequence) (m' : BlockSpaceManagerV1)
    : Type 0 where
  pub consistent : IsConsistent m'
  pub table : BlockTable
  pub stored : lookup seq.seq_id m'.block_tables ≡ some table
  pub long : length table ≡ length seq.logical_token_blocks
  pub back : ℕ
  pub at_back : last? table ≡ some back
  pub own : holders back m'.block_tables ≡ 1
  pub others :
      (j : ℕ)
      → lookup j m'.block_tables ≡ (if seq.seq_id == j then some table else lookup j m.block_tables)

-- A new table for the sequence, in a manager that expects the counts of the new tables.
pub grown :
    (m m' : BlockSpaceManagerV1) (seq : Sequence) (front : BlockTable) (p : ℕ)
    → IsConsistent m
    → m'.block_tables ≡ insert seq.seq_id (front ++ p ∷ []) m.block_tables
    → m'.enable_caching ≡ m.enable_caching
    → m'.block_sliding_window ≡ m.block_sliding_window
    → Nodup (front ++ p ∷ [])
    → length (front ++ p ∷ []) ≡ length seq.logical_token_blocks
    → Tidy m' (λ q. holders q (insert seq.seq_id (front ++ p ∷ []) m.block_tables))
    → holders p (insert seq.seq_id (front ++ p ∷ []) m.block_tables) ≡ 1
    → Grown m seq m'
grown m m' seq front p c tables caching window n long t own = record {
  consistent =
      subst (λ (d : Dict ℕ BlockTable). IsConsistent (record m' { block_tables = d })) (sym tables)
        (IsConsistent-tables m m' (insert seq.seq_id (front ++ p ∷ []) m.block_tables) c caching
          window t (insert-Distinct seq.seq_id _ m.block_tables c.distinct)
          (insert-AllNodup seq.seq_id _ m.block_tables n c.nodup));
  table = front ++ p ∷ [];
  stored = rw tables (lookup-insert seq.seq_id seq.seq_id _ m.block_tables ∙ ground arith);
  long = long;
  back = p;
  at_back = last?-snoc front p;
  own = rw tables own;
  others = λ j. rw tables (lookup-insert seq.seq_id j _ m.block_tables);
}

pub reused_none :
    (m : BlockSpaceManagerV1) (t : BlockTable)
    → m.block_sliding_window ≡ none
    → reused_block m t ≡ none
unfolding reused_block
reused_none m t e = rw e

pub ltb_refl : (a b : ℕ) → a ≡ b → ltb a b ≡ false
ltb_refl a b e = ground arith

pub allocate_last_plain :
    (hash : List ℤ → ℕ → ℤ) (m : BlockSpaceManagerV1) (seq : Sequence)
    → m.enable_caching ≡ false
    → allocate_last_physical_block hash m seq ≡ allocate_on m gpu none 0
unfolding allocate_last_physical_block
allocate_last_plain hash m seq e = rw e

-- A block is wanted: the newest logical block has none, or the last one is held by other tables too.
abbrev pub WantsBlock : BlockSpaceManagerV1 → Sequence → BlockTable → ℕ → Type 0
WantsBlock m seq t p =
    (length t + 1 ≡ length seq.logical_token_blocks)
    ⊎ ((length t ≡ length seq.logical_token_blocks) × (1 < holders p m.block_tables))

abbrev pub Outcome :
    BlockSpaceManagerV1
    → Sequence
    → BlockTable
    → ℕ
    → Result (Dict ℕ (List ℕ) × BlockSpaceManagerV1)
    → Type 0
Outcome m seq t p r =
    (WantsBlock m seq t p × (get_num_free_blocks m.gpu_allocator ≡ 0) × (r ≡ raise value_error))
    ⊎ ((copies : Dict ℕ (List ℕ)) × (m' : BlockSpaceManagerV1) × (r ≡ ok (copies, m'))
        × Grown m seq m')
