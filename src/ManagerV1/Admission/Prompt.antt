-- ===== src/ManagerV1/Admission/Prompt.antt =====
-- The blocks that `allocate` takes for a prompt, and their counts.
use cache_blend.Prelude.{
  ℕ, zero, suc, ◌+◌, ◌<◌, ◌≡◌, refl, ap, ◌∙◌, ◌⊎◌, inl, inr, Bool, false, Option, none, List, [],
  ◌∷◌, ◌++◌, length, length-append, mem, mem-append, Nodup, ◌==◌, ==_iff, Result, ok, raise, ◌>>=◌,
  value_error, arith, if◌then◌else◌,
}
use cache_blend.Prelude.Int.{ℤ}
use cache_blend.Prelude.Dict.{nat_eq}
use cache_blend.Block.{gpu}
use cache_blend.Allocator.{get_num_free_blocks}
use cache_blend.Sequence.{Sequence}
use cache_blend.ManagerV1.{
  BlockSpaceManagerV1, BlockTable, allocate_on, set_ref_count, prompt_block, fresh_block,
  prompt_table,
}
use cache_blend.ManagerV1.Counts.{
  Tidy, Tidy-ext, Keeps, Keeps-refl, Keeps-trans, allocate_on-Allocates, plus, set_ref_count-Tidy,
}
use cache_blend.ManagerV1.Tables.{Nodup-snoc}

-- `n` references to each block of a table, on top of the others.
abbrev pub lent : (ℕ → ℕ) → ℕ → BlockTable → ℕ → ℕ
lent base n t q = base q + (if mem q t then n else 0)

-- The table of a prompt: `rounds` new blocks with `n` references each.
pub record Prompted (m : BlockSpaceManagerV1) (base : ℕ → ℕ) (n rounds : ℕ) (t : BlockTable)
    (r : Result (BlockTable × BlockSpaceManagerV1)) : Type 0 where
  pub table : BlockTable
  pub after : BlockSpaceManagerV1
  pub returns : r ≡ ok (table, after)
  pub tidy : Tidy after (lent base n table)
  pub nodup : Nodup table
  pub long : length table ≡ length t + rounds
  pub keeps : Keeps m after
  pub spent : get_num_free_blocks after.gpu_allocator + rounds ≡ get_num_free_blocks m.gpu_allocator

pub prompt_block_plain :
    (hash : List ℤ → ℕ → ℤ) (m : BlockSpaceManagerV1) (seq : Sequence) (n idx : ℕ) (t : BlockTable)
    → m.enable_caching ≡ false
    → m.block_sliding_window ≡ none
    → prompt_block m.block_sliding_window hash m seq n idx t
      ≡ (allocate_on m gpu none 0 >>= λ r. ok (r.0, set_ref_count r.1 r.0 n))
unfolding prompt_block fresh_block
prompt_block_plain hash m seq n idx t e w =
    ap (λ (o : Option ℕ). prompt_block o hash m seq n idx t) w
    ∙ ap (λ (b : Bool). fresh_block b hash m seq n idx) e

pub set_ref_count-Keeps : (m : BlockSpaceManagerV1) (p n : ℕ) → Keeps m (set_ref_count m p n)
set_ref_count-Keeps m p n = record {
  tables = refl;
  caching = refl;
  window = refl;
  device = λ q. ground arith;
}

pub counts_after :
    (base : ℕ → ℕ) (n : ℕ) (t : BlockTable) (p q : ℕ)
    → 0 < n
    → lent base n t p ≡ 0
    → (if q == p then n else plus (lent base n t) p q) ≡ lent base n (t ++ p ∷ []) q
counts_after base n t p q pos h = ground (arith, mem-append q t (p ∷ []), ==_iff q p)

pub prompt_table-Prompted :
    (hash : List ℤ → ℕ → ℤ) (rounds : ℕ) (m : BlockSpaceManagerV1) (seq : Sequence) (n idx : ℕ)
    (t : BlockTable) (base : ℕ → ℕ)
    → 0 < n
    → m.enable_caching ≡ false
    → m.block_sliding_window ≡ none
    → Nodup t
    → Tidy m (lent base n t)
    → ((get_num_free_blocks m.gpu_allocator < rounds)
        × (prompt_table hash rounds m seq n idx t ≡ raise value_error))
      ⊎ Prompted m base n rounds t (prompt_table hash rounds m seq n idx t)
unfolding prompt_table
prompt_table-Prompted hash zero m seq n idx t base pos e w nd y = inr (record {
  table = t;
  after = m;
  returns = refl;
  tidy = y;
  nodup = nd;
  long = omega arith;
  keeps = Keeps-refl m;
  spent = omega arith;
})
prompt_table-Prompted hash (suc rounds) m seq n idx t base pos e w nd y =
    elim (allocate_on-Allocates m (lent base n t) gpu none 0 y) [
      | inl (empty, r) ↦
          inl (omega (arith, empty), rw (prompt_block_plain hash m seq n idx t e w, r))
      | inr z ↦
          let next = set_ref_count z.after z.block n in
          let absent : mem z.block t ≡ false = ground (arith, z.fresh) in
          let marked : Tidy next (lent base n (t ++ z.block ∷ [])) =
            Tidy-ext next _ _ (λ q. counts_after base n t z.block q pos z.fresh)
              (set_ref_count-Tidy z.after _ z.block n z.tidy (ground arith) pos) in
          elim (prompt_table-Prompted hash rounds next seq n (suc idx) (t ++ z.block ∷ []) base pos
            (z.keeps.caching ∙ e) (z.keeps.window ∙ w) (Nodup-snoc t z.block nd absent) marked) [
              | inl (few, r) ↦ inl (
                omega (arith, z.taken, few),
                rw (prompt_block_plain hash m seq n idx t e w, z.returns) r,
              )
              | inr o ↦ inr (record {
                table = o.table;
                after = o.after;
                returns = rw (prompt_block_plain hash m seq n idx t e w, z.returns) (o.returns);
                tidy = o.tidy;
                nodup = o.nodup;
                long = omega (arith, o.long, length-append t (z.block ∷ []));
                keeps =
                    Keeps-trans m z.after o.after z.keeps
                      (Keeps-trans _ _ _ (set_ref_count-Keeps z.after z.block n) o.keeps);
                spent = omega (arith, o.spent, z.taken);
              })
            ]
    ]
