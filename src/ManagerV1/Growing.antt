-- ===== src/ManagerV1/Growing.antt =====
-- `append_slots` of vllm_blend/vllm/core/block_manager_v1.py without prefix caching and without a sliding window:
-- a new block, the last block itself, or a copy of it.
pub mod Growth
use mathlib.Core.Path.{subst}
use cache_blend.Prelude.{
  ℕ, ◌+◌, ◌-◌, ◌≤◌, ◌<◌, ◌≡◌, ◌≢◌, refl, sym, ap, ◌∙◌, ◌⊎◌, inl, inr, true, false, none, some, List,
  [], ◌∷◌, ◌++◌, length, length-append, mem, mem-append, Nodup, last?, set_last, last?-snoc,
  set_last-snoc, ltb, lt→ltb, ◌==◌, ==_iff, Result, ok, raise, ◌>>=◌, value_error, assertion_error,
  Bool-cases, arith, if◌then◌else◌,
}
use cache_blend.Prelude.Int.{ℤ}
use cache_blend.Prelude.Heap.{read}
use cache_blend.Prelude.Dict.{Dict, lookup, insert, nat_eq, lookup-insert, insert-Distinct}
use cache_blend.Block.{Device, gpu, cpu}
use cache_blend.Allocator.{get_num_free_blocks}
use cache_blend.Sequence.{Sequence}
use cache_blend.ManagerV1.{BlockSpaceManagerV1, BlockTable, allocate_on, free_on}
use cache_blend.ManagerV1.Append.{
  append_slots, append_to_last, allocate_last_physical_block, put_table, reused_block,
}
use cache_blend.ManagerV1.Counts.{
  Tidy, Tidy-ext, Tidy-tables, Allocates, allocate_on-Allocates, Frees, free_on-Frees, plus, refs,
}
use cache_blend.ManagerV1.Tables.{
  uses, holders, holders-insert_old, lookup-Nodup, insert-AllNodup, uses-le-holders, last?-split,
  Nodup-snoc, Nodup-front,
}
use cache_blend.ManagerV1.Sharing.{IsConsistent, IsConsistent-tables}
pub use Growth.*

module _ (hash : List ℤ → ℕ → ℤ) (m : BlockSpaceManagerV1) (seq : Sequence) (t : BlockTable)
    (c : IsConsistent m) (stored : lookup seq.seq_id m.block_tables ≡ some t) where
  t-Nodup : Nodup t
  t-Nodup = lookup-Nodup seq.seq_id m.block_tables c.nodup stored

  -- A block that nobody holds goes to the end of the table.
  grow_new :
      length t + 1 ≡ length seq.logical_token_blocks
      → (z : Allocates m (λ q. holders q m.block_tables) gpu (allocate_on m gpu none 0))
      → Grown m seq (put_table z.after seq (t ++ z.block ∷ []))
  grow_new long z =
      grown m (put_table z.after seq (t ++ z.block ∷ [])) seq t z.block c
        (ap (insert seq.seq_id (t ++ z.block ∷ [])) z.keeps.tables) z.keeps.caching z.keeps.window
        (Nodup-snoc t z.block t-Nodup absent) (length-append t (z.block ∷ []) ∙ long)
        (Tidy-tables z.after _ _ (
          Tidy-ext z.after _ _
            (λ q. ground (arith, change q, mem-append q t (z.block ∷ []), absent)) z.tidy))
        (ground (arith, change z.block, mem-append z.block t (z.block ∷ []), absent, z.fresh))
    where
      absent : mem z.block t ≡ false
      absent = ground (arith, uses-le-holders z.block seq.seq_id m.block_tables stored, z.fresh)

      change :
          (q : ℕ)
          → holders q (insert seq.seq_id (t ++ z.block ∷ []) m.block_tables) + uses q t
            ≡ holders q m.block_tables + uses q (t ++ z.block ∷ [])
      change q = holders-insert_old q seq.seq_id (t ++ z.block ∷ []) m.block_tables stored

  module _ (front : BlockTable) (p : ℕ) (split : t ≡ front ++ p ∷ [])
      (long : length t ≡ length seq.logical_token_blocks) where
    parts : Nodup front × (mem p front ≡ false)
    parts = Nodup-front front p (subst Nodup split t-Nodup)

    -- The last block is the sequence's own: the table stays.
    grow_same : refs m.heap p ≡ 1 → ltb p m.heap.next ≡ true → Grown m seq (put_table m seq t)
    grow_same one known =
        grown m (put_table m seq t) seq front p c
          (ap (λ (l : BlockTable). insert seq.seq_id l m.block_tables) split) refl refl
          (subst Nodup split t-Nodup) (sym (ap length split) ∙ long)
          (Tidy-tables m _ _ (Tidy-ext m _ _ (λ q. sym (same q)) c.tidy))
          (same p ∙ sym (c.tidy.counted p known) ∙ one)
      where
        same :
            (q : ℕ)
            → holders q (insert seq.seq_id (front ++ p ∷ []) m.block_tables)
              ≡ holders q m.block_tables
        same q = omega (
          arith,
          holders-insert_old q seq.seq_id (front ++ p ∷ []) m.block_tables stored,
          ap (uses q) split,
        )

    -- The last block is shared: a block that nobody holds takes its place.
    grow_copy :
        (z : Allocates m (λ q. holders q m.block_tables) gpu (allocate_on m gpu none 0))
        → (read m.heap p).device ≡ gpu
        → (m' : BlockSpaceManagerV1) × (free_on
              (put_table z.after seq (front ++ z.block ∷ []))
              gpu
              p
            ≡ ok m')
          × Grown m seq m'
    grow_copy z on = (
      f.after,
      f.returns,
      grown m f.after seq front z.block c
          (f.keeps.tables ∙ ap (insert seq.seq_id (front ++ z.block ∷ [])) z.keeps.tables)
          (f.keeps.caching ∙ z.keeps.caching) (f.keeps.window ∙ z.keeps.window)
          (Nodup-snoc front z.block parts.0 absent)
          (length-append front (z.block ∷ [])
            ∙ sym (length-append front (p ∷ []))
            ∙ sym (ap length split)
            ∙ long)
          (Tidy-ext f.after _ _
            (λ q. ground (
              arith,
              change q,
              was q,
              mem-append q front (z.block ∷ []),
              mem-append q front (p ∷ []),
              parts.1,
              absent,
              held_p,
              z.fresh,
            ))
            f.tidy)
          (ground (
            arith,
            change z.block,
            was z.block,
            mem-append z.block front (z.block ∷ []),
            mem-append z.block front (p ∷ []),
            absent,
            held_p,
            z.fresh,
          )),
    )
      where
        was : (q : ℕ) → uses q t ≡ uses q (front ++ p ∷ [])
        was q = ap (uses q) split

        held_p : 1 ≤ holders p m.block_tables
        held_p = ground (
          arith,
          uses-le-holders p seq.seq_id m.block_tables stored,
          was p,
          mem-append p front (p ∷ []),
        )

        absent : mem z.block front ≡ false
        absent = ground (
          arith,
          uses-le-holders z.block seq.seq_id m.block_tables stored,
          was z.block,
          mem-append z.block front (p ∷ []),
          z.fresh,
        )

        change :
            (q : ℕ)
            → holders q (insert seq.seq_id (front ++ z.block ∷ []) m.block_tables) + uses q t
              ≡ holders q m.block_tables + uses q (front ++ z.block ∷ [])
        change q = holders-insert_old q seq.seq_id (front ++ z.block ∷ []) m.block_tables stored

        put : BlockSpaceManagerV1
        put = put_table z.after seq (front ++ z.block ∷ [])

        on_gpu : (read put.heap p).device ≡ gpu
        on_gpu = z.keeps.device p ∙ on

        f : Frees put (plus (λ q. holders q m.block_tables) z.block) p (free_on put gpu p)
        f =
            subst
              (λ (d : Device).
                Frees put (plus (λ q. holders q m.block_tables) z.block) p (free_on put d p))
              on_gpu
              (free_on-Frees put (plus (λ q. holders q m.block_tables) z.block) p
                {n = holders p m.block_tables - 1} (Tidy-tables z.after _ _ z.tidy)
                (ground (arith, held_p, z.fresh)))

  -- The branch that takes a new block.
  branch_new :
      length t + 1 ≡ length seq.logical_token_blocks
      → append_slots hash m seq
        ≡ (allocate_on m gpu none 0 >>= λ r. ok ([], put_table r.1 seq (t ++ r.0 ∷ [])))
  unfolding append_slots
  branch_new long =
      rw
        (
          stored,
          lt→ltb (length t) (length seq.logical_token_blocks) (omega (arith, long)),
          (==_iff _ _).1 long,
        )
        (rw (reused_none m t c.no_window, allocate_last_plain hash m seq c.uncached))

  branch_last :
      length t ≡ length seq.logical_token_blocks
      → append_slots hash m seq ≡ append_to_last hash m seq t
  unfolding append_slots
  branch_last long = rw (stored, ltb_refl (length t) (length seq.logical_token_blocks) long)

  branch_own :
      (p : ℕ)
      → last? t ≡ some p
      → (read m.heap p).device ≡ gpu
      → refs m.heap p ≡ 1
      → append_to_last hash m seq t ≡ ok ([], put_table m seq t)
  unfolding append_to_last
  branch_own p at on one = rw (at, on, one) (simp c.uncached)

  branch_copy :
      (p : ℕ)
      → last? t ≡ some p
      → (read m.heap p).device ≡ gpu
      → (refs m.heap p == 1) ≡ false
      → append_to_last hash m seq t ≡ (
          allocate_on m gpu none 0 >>= λ r.
          free_on (put_table r.1 seq (set_last t r.0)) gpu p >>= λ m''.
          ok (((read m''.heap p).block_number, (read m''.heap r.0).block_number ∷ []) ∷ [], m''))
  unfolding append_to_last
  branch_copy p at on many = rw (at, on, many) (rw (allocate_last_plain hash m seq c.uncached))

  known_back :
      (p : ℕ) → last? t ≡ some p → (0 < holders p m.block_tables) × (ltb p m.heap.next ≡ true)
  known_back p at =
      let (front, split) = last?-split t at in
      let held : 0 < holders p m.block_tables = ground (
        arith,
        uses-le-holders p seq.seq_id m.block_tables stored,
        ap (uses p) split,
        mem-append p front (p ∷ []),
      ) in
      (held, ground (arith, c.tidy.unheld p, held))

  held_by_many :
      (p : ℕ) → last? t ≡ some p → (refs m.heap p == 1) ≡ false → 1 < holders p m.block_tables
  held_by_many p at many =
      let (held, known) = known_back p at in
      let counted : refs m.heap p ≡ holders p m.block_tables = c.tidy.counted p known in
      ground (arith, held, counted, many)

  grow_last :
      (p : ℕ)
      → last? t ≡ some p
      → (read m.heap p).device ≡ gpu
      → length t ≡ length seq.logical_token_blocks
      → Outcome m seq t p (append_to_last hash m seq t)
  grow_last p at on long = elim (Bool-cases (refs m.heap p == 1)) [
    | inl one ↦ inr (
      [],
      put_table m seq t,
      branch_own p at on ((==_iff _ _).0 one),
      grow_same (last?-split t at).0 p (last?-split t at).1 long ((==_iff _ _).0 one)
          (known_back p at).1,
    )
    | inr many ↦ elim (allocate_on-Allocates m _ gpu none 0 c.tidy) [
      | inl (empty, e) ↦
          inl (inr (long, held_by_many p at many), empty, rw (branch_copy p at on many, e))
      | inr z ↦
          let (front, split) = last?-split t at in
          let (m', frees, g) = grow_copy front p split long z on in
          let set : set_last t z.block ≡ front ++ z.block ∷ [] =
            ap (λ (l : BlockTable). set_last l z.block) split ∙ set_last-snoc front p z.block in
          inr (
            ((read m'.heap p).block_number, (read m'.heap z.block).block_number ∷ []) ∷ [],
            m',
            rw (branch_copy p at on many, z.returns, set, frees),
            g,
          )
    ]
  ]

device-cases : (d : Device) → (d ≡ gpu) ⊎ (d ≡ cpu)
device-cases gpu = inl refl
device-cases cpu = inr refl

on_cpu : {d : Device} → d ≡ cpu → d ≢ gpu
on_cpu e = λ g. ground (arith, e, g)

branch_cpu :
    (hash : List ℤ → ℕ → ℤ) (m : BlockSpaceManagerV1) (seq : Sequence) (t : BlockTable) (p : ℕ)
    → last? t ≡ some p
    → (read m.heap p).device ≡ cpu
    → append_to_last hash m seq t ≡ raise assertion_error
unfolding append_to_last
branch_cpu hash m seq t p at off = rw (at, off)

-- For a sequence whose table lacks at most the newest logical block, `append_slots` fails its assertion if
-- the table lacks none and its last block is not on the GPU; it raises if it wants a block, for the newest
-- logical block or to copy a last block that others hold too, and none is free. Else it leaves a consistent
-- manager: the sequence has one block for each logical block, no other table holds its last block, and the
-- tables of the other sequences are as before.
pub append_slots-Grown :
    (hash : List ℤ → ℕ → ℤ) (m : BlockSpaceManagerV1) (seq : Sequence) (t : BlockTable) (p : ℕ)
    → IsConsistent m
    → lookup seq.seq_id m.block_tables ≡ some t
    → length t ≤ length seq.logical_token_blocks
    → length seq.logical_token_blocks ≤ length t + 1
    → last? t ≡ some p
    → ((length t ≡ length seq.logical_token_blocks)
        × ((read m.heap p).device ≢ gpu)
        × (append_slots hash m seq ≡ raise assertion_error))
      ⊎ (WantsBlock m seq t p
          × (get_num_free_blocks m.gpu_allocator ≡ 0)
          × (append_slots hash m seq ≡ raise value_error))
      ⊎ ((copies : Dict ℕ (List ℕ)) × (m' : BlockSpaceManagerV1) × (append_slots hash m seq
            ≡ ok (copies, m'))
          × Grown m seq m')
append_slots-Grown hash m seq t p c stored lo hi at =
    elim (Bool-cases (length t == length seq.logical_token_blocks)) [
      | inl same ↦
          let long = (==_iff _ _).0 same in
          rw (branch_last hash m seq t c stored long) (elim (device-cases (read m.heap p).device) [
            | inl on ↦ inr (grow_last hash m seq t c stored p at on long)
            | inr off ↦ inl (long, on_cpu off, branch_cpu hash m seq t p at off)
          ])
      | inr more ↦
          let long : length t + 1 ≡ length seq.logical_token_blocks = ground arith in
          elim (allocate_on-Allocates m _ gpu none 0 c.tidy) [
            | inl (empty, e) ↦
                inr (inl (inl long, empty, rw (branch_new hash m seq t c stored long, e)))
            | inr z ↦ inr (
                inr (
                  [],
                  put_table z.after seq (t ++ z.block ∷ []),
                  rw (branch_new hash m seq t c stored long, z.returns),
                  grow_new hash m seq t c stored long z,
                ))
          ]
    ]
