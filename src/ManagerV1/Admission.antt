-- ===== src/ManagerV1/Admission.antt =====
-- `can_allocate` and `allocate` of vllm_blend/vllm/core/block_manager_v1.py without prefix caching and without a
-- sliding window.
pub mod Prompt
use cache_blend.Prelude.{
  ℕ, zero, suc, ◌+◌, ◌≤◌, ◌<◌, ◌≡◌, refl, sym, ap, ◌∙◌, ◌⊎◌, inl, inr, Bool, false, Option, none,
  some, List, [], ◌∷◌, ◌++◌, length, length-append, mem, mem-append, Nodup, ◌==◌, ==_iff, Result,
  ok, raise, ◌>>=◌, value_error, arith, if◌then◌else◌,
}
use cache_blend.Prelude.Int.{ℤ}
use cache_blend.Prelude.Dict.{
  Dict, lookup, contains, insert, Distinct, nat_eq, lookup-insert, insert-Distinct, contains-insert,
}
use cache_blend.Block.{gpu}
use cache_blend.Allocator.{get_num_free_blocks}
use cache_blend.Sequence.{Sequence, waiting}
use cache_blend.Sequence.Group.{SequenceGroup, get_seqs, num_seqs}
use cache_blend.ManagerV1.{
  BlockSpaceManagerV1, BlockTable, fits, allocate_on, set_ref_count, prompt_block, fresh_block,
  prompt_table, assign_tables, allocate, can_allocate, first_waiting,
}
use cache_blend.ManagerV1.Counts.{
  Tidy, Tidy-ext, Keeps, Keeps-refl, Keeps-trans, allocate_on-Allocates, plus, set_ref_count-Tidy,
}
use cache_blend.ManagerV1.Tables.{
  holders, AllNodup, holders-insert_new, insert-AllNodup, Nodup-snoc,
}
use cache_blend.ManagerV1.Sharing.{IsConsistent, IsConsistent-tables}
pub use Prompt.*

abbrev pub ids : List Sequence → List ℕ
ids [] = []
ids (s ∷ ss) = s.seq_id ∷ ids ss

-- None of the sequences has a table.
abbrev pub AllFresh : List Sequence → Dict ℕ BlockTable → Type 0
AllFresh [] d = Unit {0}
AllFresh (s ∷ ss) d = (contains s.seq_id d ≡ false) × AllFresh ss d

-- The sequences have different ids.
abbrev pub DistinctIds : List Sequence → Type 0
DistinctIds [] = Unit {0}
DistinctIds (s ∷ ss) = (mem s.seq_id (ids ss) ≡ false) × DistinctIds ss

AllFresh-insert :
    (k : ℕ) (t : BlockTable) (ss : List Sequence) (d : Dict ℕ BlockTable)
    → mem k (ids ss) ≡ false
    → AllFresh ss d
    → AllFresh ss (insert k t d)
AllFresh-insert k t [] d h f = tt
AllFresh-insert k t (s ∷ ss) d h f = (
  ground (arith, contains-insert k s.seq_id t d, f.0),
  AllFresh-insert k t ss d (ground arith) f.1,
)

module _ (t : BlockTable) where
  holders-assign :
      (q : ℕ) (ss : List Sequence) (d : Dict ℕ BlockTable)
      → DistinctIds ss
      → AllFresh ss d
      → holders q (assign_tables ss t d) ≡ lent (λ p. holders p d) (length ss) t q
  unfolding assign_tables
  holders-assign q [] d n f = ground arith
  holders-assign q (s ∷ ss) d n f = ground (
    arith,
    holders-assign q ss (insert s.seq_id t d) n.1 (AllFresh-insert s.seq_id t ss d n.0 f.1),
    holders-insert_new q s.seq_id t d f.0,
  )

  assign-Distinct :
      (ss : List Sequence) (d : Dict ℕ BlockTable) → Distinct d → Distinct (assign_tables ss t d)
  unfolding assign_tables
  assign-Distinct [] d h = h
  assign-Distinct (s ∷ ss) d h =
      assign-Distinct ss (insert s.seq_id t d) (insert-Distinct s.seq_id t d h)

  assign-AllNodup :
      (ss : List Sequence) (d : Dict ℕ BlockTable)
      → Nodup t
      → AllNodup d
      → AllNodup (assign_tables ss t d)
  unfolding assign_tables
  assign-AllNodup [] d n h = h
  assign-AllNodup (s ∷ ss) d n h =
      assign-AllNodup ss (insert s.seq_id t d) n (insert-AllNodup s.seq_id t d n h)

  -- A table for each of the sequences, and the old one for any other id.
  lookup-assign :
      (j : ℕ) (ss : List Sequence) (d : Dict ℕ BlockTable)
      → lookup j (assign_tables ss t d) ≡ (if mem j (ids ss) then some t else lookup j d)
  unfolding assign_tables
  lookup-assign j [] d = refl
  lookup-assign j (s ∷ ss) d =
      ground (arith, lookup-assign j ss (insert s.seq_id t d), lookup-insert s.seq_id j t d)

-- A group that may be admitted: all its sequences wait, and none has a table.
pub record IsNew (m : BlockSpaceManagerV1) (g : SequenceGroup) : Type 0 where
  pub first : Sequence
  pub others : List Sequence
  pub waits : get_seqs g (some waiting) ≡ first ∷ others
  pub all_wait : num_seqs g none ≡ length (first ∷ others)
  pub distinct : DistinctIds (first ∷ others)
  pub fresh : AllFresh (first ∷ others) m.block_tables

first_new :
    (m : BlockSpaceManagerV1) (g : SequenceGroup) (w : IsNew m g) → first_waiting g ≡ ok w.first
unfolding first_waiting
first_new m g w = rw (w.waits, first_waiting)

allocate_new :
    (hash : List ℤ → ℕ → ℤ) (m : BlockSpaceManagerV1) (g : SequenceGroup) (w : IsNew m g)
    → allocate hash m g ≡ (
        prompt_table hash
          (length w.first.logical_token_blocks)
          m
          w.first
          (length (w.first ∷ w.others))
          0
          []
        >>= λ r. ok (record (r.1) {
          block_tables = assign_tables (w.first ∷ w.others) r.0 r.1.block_tables;
        }))
unfolding allocate
allocate_new hash m g w = rw (first_new m g w, w.waits, w.all_wait)

-- For a group whose sequences all wait and have no table yet, `allocate` raises if the prompt has more
-- logical blocks than are free. Else every sequence of the group gets the same new table with a block
-- for each logical block, the other tables stay, as many blocks are taken, and every count is the
-- number of tables that hold the block.
pub allocate-IsConsistent :
    (hash : List ℤ → ℕ → ℤ) (m : BlockSpaceManagerV1) (g : SequenceGroup)
    → IsConsistent m
    → (w : IsNew m g)
    → ((get_num_free_blocks m.gpu_allocator < length w.first.logical_token_blocks)
        × (allocate hash m g ≡ raise value_error))
      ⊎ ((t : BlockTable) × (m' : BlockSpaceManagerV1) × (allocate hash m g ≡ ok m')
          × IsConsistent m'
          × (length t ≡ length w.first.logical_token_blocks)
          × (m'.block_tables ≡ assign_tables (w.first ∷ w.others) t m.block_tables)
          × (get_num_free_blocks m'.gpu_allocator + length t ≡ get_num_free_blocks m.gpu_allocator))
allocate-IsConsistent hash m g c w =
    elim (prompt_table-Prompted hash (length w.first.logical_token_blocks) m w.first
      (length (w.first ∷ w.others)) 0 [] (λ q. holders q m.block_tables) (omega arith) c.uncached
      c.no_window tt (Tidy-ext m _ _ (λ q. omega arith) c.tidy)) [
        | inl (few, r) ↦ inl (few, rw (allocate_new hash m g w, r))
        | inr o ↦
            let tables = assign_tables (w.first ∷ w.others) o.table m.block_tables in
            inr (
              o.table,
              record (o.after) {
                block_tables = assign_tables (w.first ∷ w.others) o.table o.after.block_tables;
              },
              rw (allocate_new hash m g w, o.returns),
              rw (o.keeps.tables) (
                  IsConsistent-tables m o.after tables c o.keeps.caching o.keeps.window
                    (Tidy-ext o.after _ _
                      (λ q. sym (
                        holders-assign o.table q (w.first ∷ w.others) m.block_tables w.distinct
                          w.fresh))
                      o.tidy)
                    (assign-Distinct o.table (w.first ∷ w.others) m.block_tables c.distinct)
                    (assign-AllNodup o.table (w.first ∷ w.others) m.block_tables o.nodup c.nodup)),
              o.long ∙ omega arith,
              ap (assign_tables (w.first ∷ w.others) o.table) o.keeps.tables,
              omega (arith, o.spent, o.long),
            )
      ]

fits_room :
    (m : BlockSpaceManagerV1) (g : SequenceGroup) (w : IsNew m g)
    → m.block_sliding_window ≡ none
    → can_allocate m g ≡ ok fits
    → m.watermark_blocks + length w.first.logical_token_blocks ≤ get_num_free_blocks m.gpu_allocator
unfolding can_allocate
fits_room m g w e h = ground (arith, first_new m g w)

-- If `can_allocate` answers OK for a group whose sequences all wait and have no table yet, then `allocate` raises nothing, leaves a consistent
-- manager with at least the watermark's blocks free, and a sequence of the group finds a table as long
-- as its prompt's logical blocks, the same for all of them.
pub can_allocate-allocate :
    (hash : List ℤ → ℕ → ℤ) (m : BlockSpaceManagerV1) (g : SequenceGroup)
    → IsConsistent m
    → (w : IsNew m g) → can_allocate m g ≡ ok fits
    → (t : BlockTable) × (m' : BlockSpaceManagerV1) × (allocate hash m g ≡ ok m')
      × IsConsistent m'
      × (length t ≡ length w.first.logical_token_blocks)
      × (m.watermark_blocks ≤ get_num_free_blocks m'.gpu_allocator)
      × ((j : ℕ)
          → lookup j m'.block_tables
            ≡ (if mem j (ids (w.first ∷ w.others)) then some t else lookup j m.block_tables))
can_allocate-allocate hash m g c w h = elim (allocate-IsConsistent hash m g c w) [
  | inl (few, r) ↦ absurd (omega (arith, few, fits_room m g w c.no_window h))
  | inr (t, m', r, c', long, tables, spent) ↦ (
    t,
    m',
    r,
    c',
    long,
    omega (arith, spent, long, fits_room m g w c.no_window h),
    λ j. ap (lookup j) tables ∙ lookup-assign t j (w.first ∷ w.others) m.block_tables,
  )
]
