-- ===== src/ManagerV1/Sharing.antt =====
-- Block tables against reference counts (vllm_blend/vllm/core/block_manager_v1.py, without prefix caching and
-- without a sliding window): forking and freeing.
use cache_blend.Prelude.{
  ℕ, ◌+◌, ◌-◌, ◌≤◌, ◌≡◌, refl, ap, ◌∙◌, ◌⊎◌, inl, inr, false, none, some, List, [], ◌∷◌, Nodup,
  dedup_of_Nodup, Result, ok, raise, key_error, Option-cases, arith,
}
use cache_blend.Prelude.Heap.{read}
use cache_blend.Prelude.Dict.{
  Dict, lookup, contains, insert, delete, Distinct, nat_eq, insert-Distinct, delete-Distinct,
}
use cache_blend.Sequence.{Sequence}
use cache_blend.ManagerV1.{
  BlockSpaceManagerV1, BlockTable, free_on, free_blocks, free_block_table, free, fork, retain_all,
  set_ref_count,
}
use cache_blend.ManagerV1.Counts.{
  Tidy, Tidy-ext, Tidy-tables, Keeps, Keeps-refl, Keeps-trans, Frees, free_on-Frees,
  set_ref_count-Tidy, plus, minus, refs,
}
use cache_blend.ManagerV1.Tables.{
  uses, holders, AllNodup, holders-insert_new, holders-delete, lookup-Nodup, insert-AllNodup,
  delete-AllNodup, uses-le-holders,
}

-- Every block's reference count is the number of tables that hold it, the free lists hold the blocks
-- that no table holds, and no table holds a block twice.
pub record IsConsistent (m : BlockSpaceManagerV1) : Type 0 where
  pub tidy : Tidy m (λ q. holders q m.block_tables)
  pub distinct : Distinct m.block_tables
  pub nodup : AllNodup m.block_tables
  pub uncached : m.enable_caching ≡ false
  pub no_window : m.block_sliding_window ≡ none

-- The blocks of a list lose a reference each.
record FreesAll (m : BlockSpaceManagerV1) (held : ℕ → ℕ) (ps : List ℕ)
    (r : Result BlockSpaceManagerV1) : Type 0 where
  after : BlockSpaceManagerV1
  returns : r ≡ ok after
  tidy : Tidy after (λ q. held q - uses q ps)
  keeps : Keeps m after

free_blocks-FreesAll :
    (m : BlockSpaceManagerV1) (held : ℕ → ℕ) (ps : List ℕ)
    → Nodup ps
    → ((q : ℕ) → uses q ps ≤ held q)
    → Tidy m held
    → FreesAll m held ps (free_blocks ps m)
unfolding free_blocks
free_blocks-FreesAll m held [] n u t = record {
  after = m;
  returns = refl;
  tidy = Tidy-ext m _ _ (λ q. omega arith) t;
  keeps = Keeps-refl m;
}
free_blocks-FreesAll m held (p ∷ ps) n u t =
    let one : Frees m held p (free_on m (read m.heap p).device p) =
      free_on-Frees m held p {n = held p - 1} t (ground (arith, u p)) in
    let rest : FreesAll one.after (minus held p) ps (free_blocks ps one.after) =
      free_blocks-FreesAll one.after (minus held p) ps n.1 (λ q. ground (arith, u q, n.0))
        one.tidy in
    record {
      after = rest.after;
      returns = rw one.returns rest.returns;
      tidy = Tidy-ext rest.after _ _ (λ q. ground (arith, n.0)) rest.tidy;
      keeps = Keeps-trans m one.after rest.after one.keeps rest.keeps;
    }

free_block_table_plain :
    (m : BlockSpaceManagerV1) (t : BlockTable)
    → m.block_sliding_window ≡ none
    → Nodup t
    → free_block_table m t ≡ free_blocks t m
unfolding free_block_table
free_block_table_plain m t w n = rw (w, dedup_of_Nodup t n)

-- The tables change, and the rest of a consistent manager fits them.
pub IsConsistent-tables :
    (m m' : BlockSpaceManagerV1) (tables : Dict ℕ BlockTable)
    → IsConsistent m
    → m'.enable_caching ≡ m.enable_caching
    → m'.block_sliding_window ≡ m.block_sliding_window
    → Tidy m' (λ q. holders q tables)
    → Distinct tables
    → AllNodup tables
    → IsConsistent (record m' { block_tables = tables })
IsConsistent-tables m m' tables c same_caching same_window t d n = record {
  tidy = Tidy-tables m' tables _ t;
  distinct = d;
  nodup = n;
  uncached = same_caching ∙ c.uncached;
  no_window = same_window ∙ c.no_window;
}

-- `free` of a sequence without a table does nothing. Else it succeeds, drops the sequence's table
-- alone, and leaves every count equal to the number of tables that hold the block: no block leaks, and
-- none that another sequence holds is freed.
pub free-IsConsistent :
    (m : BlockSpaceManagerV1) (seq : Sequence)
    → IsConsistent m
    → ((lookup seq.seq_id m.block_tables ≡ none) × (free m seq ≡ ok m))
      ⊎ ((m' : BlockSpaceManagerV1) × (free m seq ≡ ok m')
          × IsConsistent m'
          × (m'.block_tables ≡ delete seq.seq_id m.block_tables))
unfolding free
free-IsConsistent m seq c = elim (Option-cases (lookup seq.seq_id m.block_tables)) [
  | inl e ↦ inl (e, rw (e, free))
  | inr (t, e) ↦
      let n = lookup-Nodup seq.seq_id m.block_tables c.nodup e in
      let z : FreesAll m _ t (free_blocks t m) =
        free_blocks-FreesAll m _ t n (λ q. uses-le-holders q seq.seq_id m.block_tables e) c.tidy in
      inr (
        record (z.after) { block_tables = delete seq.seq_id z.after.block_tables },
        rw (e, free, free_block_table_plain m t c.no_window n, z.returns),
        rw (z.keeps.tables) (
            IsConsistent-tables m z.after (delete seq.seq_id m.block_tables) c z.keeps.caching
              z.keeps.window
              (Tidy-ext z.after _ _
                (λ q. omega (arith, holders-delete q seq.seq_id m.block_tables c.distinct e))
                z.tidy)
              (delete-Distinct seq.seq_id m.block_tables c.distinct)
              (delete-AllNodup seq.seq_id m.block_tables c.nodup)),
        ap (delete seq.seq_id) z.keeps.tables,
      )
]

retain_all-Tidy :
    (m : BlockSpaceManagerV1) (held : ℕ → ℕ) (ps : List ℕ)
    → Nodup ps
    → ((q : ℕ) → uses q ps ≤ held q)
    → Tidy m held
    → Tidy (record m { heap = retain_all ps m.heap }) (λ q. held q + uses q ps)
unfolding retain_all
retain_all-Tidy m held [] n u t = Tidy-ext m _ _ (λ q. omega arith) t
retain_all-Tidy m held (p ∷ ps) n u t =
    let rest =
      retain_all-Tidy (set_ref_count m p (refs m.heap p + 1)) (plus held p) ps n.1
        (λ q. ground (arith, u q))
        (Tidy-ext _ _ _ (λ q. ground (arith, t.counted p, t.unheld p, u p))
          (set_ref_count-Tidy m held p (refs m.heap p + 1) t (ground (arith, u p))
            (omega arith))) in
    Tidy-ext _ _ _ (λ q. ground (arith, n.0)) rest

-- `fork` without a table for the parent raises. Else the child, which has none yet, gets the parent's
-- table, nothing else changes in the tables, and every count is again the number of tables that hold
-- the block.
pub fork-IsConsistent :
    (m : BlockSpaceManagerV1) (parent child : Sequence)
    → IsConsistent m
    → contains child.seq_id m.block_tables ≡ false
    → ((lookup parent.seq_id m.block_tables ≡ none) × (fork m parent child ≡ raise key_error))
      ⊎ ((t : BlockTable) × (m' : BlockSpaceManagerV1) × (lookup parent.seq_id m.block_tables
            ≡ some t)
          × (fork m parent child ≡ ok m')
          × IsConsistent m'
          × (m'.block_tables ≡ insert child.seq_id t m.block_tables))
unfolding fork
fork-IsConsistent m parent child c new = elim (Option-cases (lookup parent.seq_id m.block_tables)) [
  | inl e ↦ inl (e, rw (e, fork))
  | inr (t, e) ↦
      let n = lookup-Nodup parent.seq_id m.block_tables c.nodup e in
      inr (
        t,
        record m {
          block_tables = insert child.seq_id t m.block_tables;
          heap = retain_all t m.heap;
        },
        e,
        rw (e, fork, dedup_of_Nodup t n),
        IsConsistent-tables m (record m { heap = retain_all t m.heap })
            (insert child.seq_id t m.block_tables) c refl refl
            (Tidy-ext _ _ _
              (λ q. omega (arith, holders-insert_new q child.seq_id t m.block_tables new))
              (retain_all-Tidy m _ t n (λ q. uses-le-holders q parent.seq_id m.block_tables e)
                c.tidy))
            (insert-Distinct child.seq_id t m.block_tables c.distinct)
            (insert-AllNodup child.seq_id t m.block_tables n c.nodup),
        refl,
      )
]
