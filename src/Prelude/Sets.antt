-- ===== src/Prelude/Sets.antt =====
-- Python's `set` of numbers: a list that holds each number once.
use Prim.Native.Nat.{ℕ, suc}
use mathlib.Core.Path.{◌≡◌, refl}
use mathlib.Core.Bool.{Bool, true, false, ◌||◌, ◌&&◌, not}
use mathlib.Core.List.{List, [], ◌∷◌, ◌++◌}
use native.Mathlib.Omega.{arith}
use cache_blend.Prelude.Tests.{◌==◌, if◌then◌else◌}
use cache_blend.Prelude.Lists.{length}

abbrev pub mem : ℕ → List ℕ → Bool
mem a [] = false
mem a (x ∷ xs) = x == a || mem a xs

abbrev pub Nodup : List ℕ → Type 0
Nodup [] = Unit {0}
Nodup (x ∷ xs) = (mem x xs ≡ false) × Nodup xs

-- `set(xs)`, with the last occurrence of each number.
unfoldable pub dedup : List ℕ → List ℕ
dedup [] = []
dedup (x ∷ xs) = let rest = dedup xs in if mem x rest then rest else x ∷ rest

unfoldable pub remove : ℕ → List ℕ → List ℕ
remove a [] = []
remove a (x ∷ xs) = let rest = remove a xs in if x == a then rest else x ∷ rest

pub mem-append : (a : ℕ) (xs ys : List ℕ) → mem a (xs ++ ys) ≡ (mem a xs || mem a ys)
mem-append a [] ys = refl
mem-append a (x ∷ xs) ys = ground (arith, mem-append a xs ys)

pub mem-dedup : (a : ℕ) (xs : List ℕ) → mem a (dedup xs) ≡ mem a xs
unfolding dedup
mem-dedup a [] = refl
mem-dedup a (x ∷ xs) = ground (arith, mem-dedup a xs, mem-dedup x xs)

pub dedup-Nodup : (xs : List ℕ) → Nodup (dedup xs)
unfolding dedup
dedup-Nodup [] = tt
dedup-Nodup (x ∷ xs) = ground (arith, dedup-Nodup xs)

pub dedup_of_Nodup : (xs : List ℕ) → Nodup xs → dedup xs ≡ xs
unfolding dedup
dedup_of_Nodup [] h = refl
dedup_of_Nodup (x ∷ xs) h = ground (arith, dedup_of_Nodup xs h.1, mem-dedup x xs)

pub mem-remove : (a b : ℕ) (xs : List ℕ) → mem b (remove a xs) ≡ (not (a == b) && mem b xs)
unfolding remove
mem-remove a b [] = ground arith
mem-remove a b (x ∷ xs) = ground (arith, mem-remove a b xs)

pub remove-Nodup : (a : ℕ) (xs : List ℕ) → Nodup xs → Nodup (remove a xs)
unfolding remove
remove-Nodup a [] h = tt
remove-Nodup a (x ∷ xs) h = ground (arith, mem-remove a x xs, remove-Nodup a xs h.1)

pub remove_absent : (a : ℕ) (xs : List ℕ) → mem a xs ≡ false → remove a xs ≡ xs
unfolding remove
remove_absent a [] h = refl
remove_absent a (x ∷ xs) h = ground (arith, remove_absent a xs)

pub length-remove :
    (a : ℕ) (xs : List ℕ) → Nodup xs → mem a xs ≡ true → suc (length (remove a xs)) ≡ length xs
unfolding remove
length-remove a [] n h = cc
length-remove a (x ∷ xs) n h = ground (arith, length-remove a xs n.1, remove_absent a xs)

pub remove-snoc : (x : ℕ) (xs : List ℕ) → mem x xs ≡ false → remove x (xs ++ x ∷ []) ≡ xs
unfolding remove
remove-snoc x [] h = ground arith
remove-snoc x (y ∷ ys) h = ground (arith, remove-snoc x ys)

pub mem-snoc : (x : ℕ) (xs : List ℕ) → mem x (xs ++ x ∷ []) ≡ true
mem-snoc x [] = ground arith
mem-snoc x (y ∷ ys) = ground (arith, mem-snoc x ys)
