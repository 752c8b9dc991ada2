-- ===== src/ManagerV1/Tables.antt =====
-- How many block tables of the manager hold a block.
use cache_blend.Prelude.{
  ℕ, ◌+◌, ◌≤◌, ◌≡◌, refl, ap, false, some, List, [], ◌∷◌, ◌++◌, mem, Nodup, ==_iff, arith,
  if◌then◌else◌, last?, mem-append,
}
use cache_blend.Prelude.Dict.{
  Dict, lookup, contains, insert, delete, Distinct, nat_eq, delete_absent,
}
use cache_blend.ManagerV1.{BlockTable}

abbrev pub uses : ℕ → BlockTable → ℕ
uses p t = if mem p t then 1 else 0

unfoldable pub holders : ℕ → Dict ℕ BlockTable → ℕ
holders p [] = 0
holders p ((k, t) ∷ d) = uses p t + holders p d

abbrev pub AllNodup : Dict ℕ BlockTable → Type 0
AllNodup [] = Unit {0}
AllNodup ((k, t) ∷ d) = Nodup t × AllNodup d

pub holders-insert_new :
    (p k : ℕ) (t : BlockTable) (d : Dict ℕ BlockTable)
    → contains k d ≡ false
    → holders p (insert k t d) ≡ holders p d + uses p t
unfolding holders insert contains
holders-insert_new p k t [] h = omega arith
holders-insert_new p k t ((j, s) ∷ d) h = ground (arith, holders-insert_new p k t d)

pub holders-insert_old :
    (p k : ℕ) (t : BlockTable) (d : Dict ℕ BlockTable) {s : BlockTable}
    → lookup k d ≡ some s
    → holders p (insert k t d) + uses p s ≡ holders p d + uses p t
unfolding holders insert lookup
holders-insert_old p k t [] h = cc
holders-insert_old p k t ((j, s) ∷ d) {s = r} h = ground (arith, holders-insert_old p k t d {s = r})

pub holders-delete :
    (p k : ℕ) (d : Dict ℕ BlockTable) {t : BlockTable}
    → Distinct d
    → lookup k d ≡ some t
    → holders p (delete k d) + uses p t ≡ holders p d
unfolding holders delete lookup
holders-delete p k [] n h = cc
holders-delete p k ((j, s) ∷ d) {t} n h =
    ground (arith, ==_iff j k, delete_absent k d, holders-delete p k d {t = t} n.1)

pub lookup-Nodup :
    (k : ℕ) (d : Dict ℕ BlockTable) {t : BlockTable} → AllNodup d → lookup k d ≡ some t → Nodup t
unfolding lookup
lookup-Nodup k [] n h = cc
lookup-Nodup k ((j, s) ∷ d) {t} n h = ground (arith, n.0, lookup-Nodup k d {t = t} n.1)

pub insert-AllNodup :
    (k : ℕ) (t : BlockTable) (d : Dict ℕ BlockTable)
    → Nodup t
    → AllNodup d
    → AllNodup (insert k t d)
unfolding insert
insert-AllNodup k t [] h n = (h, tt)
insert-AllNodup k t ((j, s) ∷ d) h n = ground (arith, insert-AllNodup k t d h n.1)

pub delete-AllNodup : (k : ℕ) (d : Dict ℕ BlockTable) → AllNodup d → AllNodup (delete k d)
unfolding delete
delete-AllNodup k [] n = tt
delete-AllNodup k ((j, s) ∷ d) n = ground (arith, delete-AllNodup k d n.1)

-- A block of a table is held.
pub uses-le-holders :
    (p k : ℕ) (d : Dict ℕ BlockTable) {t : BlockTable}
    → lookup k d ≡ some t
    → uses p t ≤ holders p d
unfolding holders lookup
uses-le-holders p k [] h = cc
uses-le-holders p k ((j, s) ∷ d) {t} h = ground (arith, uses-le-holders p k d {t = t})

pub last?-split {ℓ} :
    {A : Type ℓ} (t : List A) {a : A} → last? t ≡ some a → (front : List A) × (t ≡ front ++ a ∷ [])
last?-split [] h = cc
last?-split (x ∷ []) h = ([], ground arith)
last?-split (x ∷ y ∷ r) h = let (front, e) = last?-split (y ∷ r) h in (x ∷ front, ap (◌∷◌ x) e)

pub Nodup-snoc : (t : BlockTable) (p : ℕ) → Nodup t → mem p t ≡ false → Nodup (t ++ p ∷ [])
Nodup-snoc [] p n h = (refl, tt)
Nodup-snoc (x ∷ t) p n h = ground (arith, mem-append x t (p ∷ []), Nodup-snoc t p n.1)

pub Nodup-front : (t : BlockTable) (p : ℕ) → Nodup (t ++ p ∷ []) → Nodup t × (mem p t ≡ false)
Nodup-front [] p n = (tt, refl)
Nodup-front (x ∷ t) p n = ground (arith, mem-append x t (p ∷ []), Nodup-front t p n.1)
