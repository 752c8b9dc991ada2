-- ===== src/Evictor/Order.antt =====
-- Which block `LRUEvictor.evict` takes (vllm_blend/vllm/core/evictor.py).
use mathlib.Core.Path.{subst}
use cache_blend.Prelude.{
  ℕ, suc, ◌+◌, ◌≤◌, ◌<◌, ◌≡◌, refl, sym, ap, ◌⊎◌, inl, inr, true, false, List, [], ◌∷◌, ltb, mem,
  ◌==◌, ==_iff, ok, raise, value_error, Bool-cases, arith,
}
use cache_blend.Prelude.Int.{ℤ, ltb_ℤ, ◌≤ℤ◌, eq_of_parts, pos_part, neg_part}
use cache_blend.Prelude.Heap.{read, write}
use cache_blend.Prelude.Dict.{Dict, contains, delete, int_eq, int_beq_iff, Distinct, length-delete}
use cache_blend.Evictor.{LruEvictor, Blocks, evict, pick_victim, num_blocks}

abbrev pub addresses : Dict ℤ ℕ → List ℕ
addresses [] = []
addresses ((k, p) ∷ d) = p ∷ addresses d

infix 50 ◌<ℤ◌
abbrev pub ◌<ℤ◌ : ℤ → ℤ → Type 0
a <ℤ b = pos_part a + neg_part b < pos_part b + neg_part a

-- `v` goes before `p`: it was used earlier, or at the same time with at least as many tokens.
abbrev pub Before : Blocks → ℕ → ℕ → Type 0
Before h v p =
    ((read h v).last_accessed <ℤ (read h p).last_accessed)
    ⊎ (((read h v).last_accessed ≡ (read h p).last_accessed)
        × ((read h p).num_hashed_tokens ≤ (read h v).num_hashed_tokens))

abbrev pub BeforeAll : Blocks → ℕ → Dict ℤ ℕ → Type 0
BeforeAll h v [] = Unit {0}
BeforeAll h v ((k, p) ∷ d) = Before h v p × BeforeAll h v d

-- The time stamps do not fall along the table.
abbrev pub SortedFrom : Blocks → ℤ → Dict ℤ ℕ → Type 0
SortedFrom h a [] = Unit {0}
SortedFrom h a ((k, p) ∷ d) =
    (a ≤ℤ (read h p).last_accessed) × SortedFrom h (read h p).last_accessed d

abbrev pub IsSorted : Blocks → Dict ℤ ℕ → Type 0
IsSorted h [] = Unit {0}
IsSorted h ((k, p) ∷ d) = SortedFrom h (read h p).last_accessed d

-- A block stands under its own hash.
abbrev pub Keyed : Blocks → Dict ℤ ℕ → Type 0
Keyed h [] = Unit {0}
Keyed h ((k, p) ∷ d) = ((read h p).block_hash ≡ k) × Keyed h d

Before-trans : (h : Blocks) (u v w : ℕ) → Before h u v → Before h v w → Before h u w
Before-trans h u v w a b = grind arith

older-BeforeAll :
    (h : Blocks) (v : ℕ) (a : ℤ) (d : Dict ℤ ℕ)
    → (read h v).last_accessed <ℤ a
    → SortedFrom h a d
    → BeforeAll h v d
older-BeforeAll h v a [] lt s = tt
older-BeforeAll h v a ((k, p) ∷ d) lt s = (
  inl (omega (arith, s.0)),
  older-BeforeAll h v (read h p).last_accessed d (omega (arith, s.0)) s.1,
)

module _ (h : Blocks) (b : ℕ) (k : ℤ) (p : ℕ) (d : Dict ℤ ℕ) where
  pick_older :
      ltb_ℤ (read h b).last_accessed (read h p).last_accessed ≡ true
      → pick_victim h b ((k, p) ∷ d) ≡ b
  unfolding pick_victim
  pick_older e = rw e

  pick_more :
      ltb_ℤ (read h b).last_accessed (read h p).last_accessed ≡ false
      → ltb (read h b).num_hashed_tokens (read h p).num_hashed_tokens ≡ true
      → pick_victim h b ((k, p) ∷ d) ≡ pick_victim h p d
  unfolding pick_victim
  pick_more e f = rw (e, f)

  pick_less :
      ltb_ℤ (read h b).last_accessed (read h p).last_accessed ≡ false
      → ltb (read h b).num_hashed_tokens (read h p).num_hashed_tokens ≡ false
      → pick_victim h b ((k, p) ∷ d) ≡ pick_victim h b d
  unfolding pick_victim
  pick_less e f = rw (e, f)

same_time : (a b : ℤ) → a ≤ℤ b → ltb_ℤ a b ≡ false → a ≡ b
same_time a b le h = eq_of_parts a b (ground arith)

pick_victim-BeforeAll :
    (h : Blocks) (b : ℕ) (d : Dict ℤ ℕ)
    → SortedFrom h (read h b).last_accessed d
    → Before h (pick_victim h b d) b × BeforeAll h (pick_victim h b d) d
pick_victim-BeforeAll h b [] s = unfold pick_victim in (inr (refl, omega arith), tt)
pick_victim-BeforeAll h b ((k, p) ∷ d) s =
    elim (Bool-cases (ltb_ℤ (read h b).last_accessed (read h p).last_accessed)) [
      | inl older ↦ subst Wins (sym (pick_older h b k p d older)) (
        inr (refl, omega arith),
        (inl (ground arith), older-BeforeAll h b (read h p).last_accessed d (ground arith) s.1),
      )
      | inr same ↦
          let e = same_time (read h b).last_accessed (read h p).last_accessed s.0 same in
          elim (Bool-cases (ltb (read h b).num_hashed_tokens (read h p).num_hashed_tokens)) [
            | inl more ↦
                let (first, rest) = pick_victim-BeforeAll h p d s.1 in
                subst Wins (sym (pick_more h b k p d same more))
                  (Before-trans h _ p b first (inr (sym e, ground arith)), (first, rest))
            | inr less ↦
                let (first, rest) = pick_victim-BeforeAll h b d (rw e s.1) in
                subst Wins (sym (pick_less h b k p d same less))
                  (first, (Before-trans h _ b p first (inr (e, ground arith)), rest))
          ]
    ]
  where
    Wins : ℕ → Type 0
    Wins v = Before h v b × (Before h v p × BeforeAll h v d)

pick_victim-mem :
    (h : Blocks) (b : ℕ) (d : Dict ℤ ℕ) → mem (pick_victim h b d) (b ∷ addresses d) ≡ true
unfolding pick_victim
pick_victim-mem h b [] = ground arith
pick_victim-mem h b ((k, p) ∷ d) = ground (arith, pick_victim-mem h b d, pick_victim-mem h p d)

mem-Keyed :
    (h : Blocks) (p : ℕ) (d : Dict ℤ ℕ)
    → Keyed h d
    → mem p (addresses d) ≡ true
    → contains (read h p).block_hash d ≡ true
unfolding contains
mem-Keyed h p [] k m = cc
mem-Keyed h p ((j, q) ∷ d) k m = elim (Bool-cases (q == p)) [
  | inl e ↦ ground (arith, int_beq_iff j (read h p).block_hash, ap (read h) ((==_iff q p).0 e), k.0)
  | inr e ↦ ground (arith, mem-Keyed h p d k.1)
]

-- What `evict` returns on a table.
abbrev pub Evicts : Blocks → LruEvictor → Type 0
Evicts h e =
    ((e.free_table ≡ []) × (evict e h ≡ raise value_error))
    ⊎ ((v : ℕ) × (e' : LruEvictor) × (evict e h
          ≡ ok (v, e', write h v (record (read h v) { computed = false })))
        × (mem v (addresses e.free_table) ≡ true)
        × BeforeAll h v e.free_table
        × (e'.free_table ≡ delete (read h v).block_hash e.free_table)
        × (suc (num_blocks e') ≡ num_blocks e))

evict-Evicts :
    (h : Blocks) (t : Dict ℤ ℕ)
    → Distinct t
    → Keyed h t
    → IsSorted h t
    → Evicts h (record { free_table = t })
unfolding evict num_blocks
evict-Evicts h [] distinct keyed sorted = inl (refl, refl)
evict-Evicts h ((k, p) ∷ d) distinct keyed sorted = inr (
  v,
  record { free_table = delete (read h v).block_hash ((k, p) ∷ d) },
  rw kept,
  member,
  (pick_victim-BeforeAll h p ((k, p) ∷ d) (omega arith, sorted)).1,
  refl,
  length-delete (read h v).block_hash ((k, p) ∷ d) distinct kept,
)
  where
    v : ℕ
    v = pick_victim h p ((k, p) ∷ d)

    member : mem v (addresses ((k, p) ∷ d)) ≡ true
    member = ground (arith, pick_victim-mem h p ((k, p) ∷ d))

    kept : contains (read h v).block_hash ((k, p) ∷ d) ≡ true
    kept = mem-Keyed h v ((k, p) ∷ d) keyed member

-- From a table whose blocks stand under their own hashes, in the order of their time stamps, `evict`
-- takes a block of the table that was used no later than any other and, among those of the same
-- time, has the most hashed tokens. The table loses that entry alone, and the block counts as not
-- computed. From an empty table `evict` raises.
pub evict-BeforeAll :
    (e : LruEvictor) (h : Blocks)
    → Distinct e.free_table
    → Keyed h e.free_table
    → IsSorted h e.free_table
    → ((e.free_table ≡ []) × (evict e h ≡ raise value_error))
      ⊎ ((v : ℕ) × (e' : LruEvictor) × (evict e h
            ≡ ok (v, e', write h v (record (read h v) { computed = false })))
          × (mem v (addresses e.free_table) ≡ true)
          × BeforeAll h v e.free_table
          × (e'.free_table ≡ delete (read h v).block_hash e.free_table)
          × (suc (num_blocks e') ≡ num_blocks e))
evict-BeforeAll e h distinct keyed sorted = evict-Evicts h e.free_table distinct keyed sorted
