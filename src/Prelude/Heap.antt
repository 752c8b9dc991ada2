-- ===== src/Prelude/Heap.antt =====
-- The objects that the program shares by reference. An address is a number; a new object takes the
-- next one. A program of the source holds only addresses that were handed out.
use cache_blend.Prelude.{ℕ, suc, ◌==◌, if◌then◌else◌}

pub record Heap {ℓ} (A : Type ℓ) : Type ℓ where
  pub next : ℕ
  pub cell : ℕ → A

module _ {ℓ} {A : Type ℓ} where
  abbrev pub read : Heap A → ℕ → A
  read h p = h.cell p

  abbrev pub write : Heap A → ℕ → A → Heap A
  write h p a = record h { cell = λ q. if q == p then a else h.cell q }

  -- A new object, and its address.
  abbrev pub alloc : Heap A → A → ℕ × Heap A
  alloc h a =
      (h.next, record { next = suc h.next; cell = λ q. if q == h.next then a else h.cell q })
