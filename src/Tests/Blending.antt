-- ===== src/Tests/Blending.antt =====
-- A check over six rows with a suffix of two, and the layers around it. Rows are numbers; `topk` takes the
-- first places when sorted by falling differences, and sorting is by insertion.
use mathlib.Core.Path.{subst}
use cache_blend.Prelude.{
  ℕ, zero, suc, Bool, ◌==◌, ==_iff, Bool-cases, inl, inr, ◌∙◌, ◌+◌, ◌-◌, ◌<◌, ◌≤◌, ◌≡◌, refl, ap,
  true, false, none, some, List, [], ◌∷◌, ◌++◌, map, mem, take, get_elem?, Nodup, length, Result,
  ok, raise, ◌>>=◌, runtime_error, leb, arith, if◌then◌else◌,
}
use cache_blend.Prelude.Int.{ℤ, pos, negsuc}
use cache_blend.Blend.Rows.{gather, AllBelow}
use cache_blend.Blend.Attention.{
  FuseStatus, decoding, checking, after_check, full_prefill, FuseMetadata, Attended, attend,
  drop_last,
}
use cache_blend.Blend.Chosen.{
  AllFrom, Ascending, upto, length-upto, upto-Nodup, upto-AllBelow, Largest, Torch,
  attend_checking-Ascending,
}
use cache_blend.Blend.Fused.{Merged, attend_after_check-Merged}
use cache_blend.Blend.Layers.{start_metadata, forward}
use cache_blend.Blend.Schedule.{ChecksOnly, blended, forward-blended}

module _ (before : ℕ → ℕ → Bool) where
  sorted_insert : ℕ → List ℕ → List ℕ
  sorted_insert x [] = x ∷ []
  sorted_insert x (y ∷ ys) = if before x y then x ∷ y ∷ ys else y ∷ sorted_insert x ys

  insertion_sort : List ℕ → List ℕ
  insertion_sort [] = []
  insertion_sort (x ∷ xs) = sorted_insert x (insertion_sort xs)

  length-sorted_insert : (x : ℕ) (ys : List ℕ) → length (sorted_insert x ys) ≡ suc (length ys)
  unfolding sorted_insert
  length-sorted_insert x [] = refl
  length-sorted_insert x (y ∷ ys) = ground (arith, length-sorted_insert x ys)

  mem-sorted_insert : (j x : ℕ) (ys : List ℕ) → mem j (sorted_insert x ys) ≡ mem j (x ∷ ys)
  unfolding sorted_insert
  mem-sorted_insert j x [] = refl
  mem-sorted_insert j x (y ∷ ys) = ground (arith, mem-sorted_insert j x ys)

  sorted_insert-AllBelow :
      (n x : ℕ) (ys : List ℕ) → x < n → AllBelow n ys → AllBelow n (sorted_insert x ys)
  unfolding sorted_insert
  sorted_insert-AllBelow n x [] h b = (h, tt)
  sorted_insert-AllBelow n x (y ∷ ys) h b = ground (arith, sorted_insert-AllBelow n x ys h b.1)

  sorted_insert-Nodup :
      (x : ℕ) (ys : List ℕ) → mem x ys ≡ false → Nodup ys → Nodup (sorted_insert x ys)
  unfolding sorted_insert
  sorted_insert-Nodup x [] h n = (refl, tt)
  sorted_insert-Nodup x (y ∷ ys) h n =
      ground (arith, sorted_insert-Nodup x ys, mem-sorted_insert y x ys)

  length-insertion_sort : (xs : List ℕ) → length (insertion_sort xs) ≡ length xs
  unfolding insertion_sort
  length-insertion_sort [] = refl
  length-insertion_sort (x ∷ xs) =
      omega (arith, length-sorted_insert x (insertion_sort xs), length-insertion_sort xs)

  mem-insertion_sort : (j : ℕ) (xs : List ℕ) → mem j (insertion_sort xs) ≡ mem j xs
  unfolding insertion_sort
  mem-insertion_sort j [] = refl
  mem-insertion_sort j (x ∷ xs) =
      rw (mem-sorted_insert j x (insertion_sort xs), mem-insertion_sort j xs)

  insertion_sort-Nodup : (xs : List ℕ) → Nodup xs → Nodup (insertion_sort xs)
  unfolding insertion_sort
  insertion_sort-Nodup [] n = tt
  insertion_sort-Nodup (x ∷ xs) n =
      sorted_insert-Nodup x (insertion_sort xs) (rw (mem-insertion_sort x xs) n.0)
        (insertion_sort-Nodup xs n.1)

  insertion_sort-AllBelow : (n : ℕ) (xs : List ℕ) → AllBelow n xs → AllBelow n (insertion_sort xs)
  unfolding insertion_sort
  insertion_sort-AllBelow n [] b = tt
  insertion_sort-AllBelow n (x ∷ xs) b =
      sorted_insert-AllBelow n x (insertion_sort xs) b.0 (insertion_sort-AllBelow n xs b.1)

sorted_insert-AllFrom :
    (a x : ℕ) (ys : List ℕ) → a ≤ x → AllFrom a ys → AllFrom a (sorted_insert leb x ys)
unfolding sorted_insert
sorted_insert-AllFrom a x [] h f = (h, tt)
sorted_insert-AllFrom a x (y ∷ ys) h f = ground (arith, sorted_insert-AllFrom a x ys h f.1)

AllFrom-mono : (a b : ℕ) (ys : List ℕ) → a ≤ b → AllFrom b ys → AllFrom a ys
AllFrom-mono a b [] h f = tt
AllFrom-mono a b (y ∷ ys) h f = (omega (arith, f.0), AllFrom-mono a b ys h f.1)

sorted_insert-Ascending : (x : ℕ) (ys : List ℕ) → Ascending ys → Ascending (sorted_insert leb x ys)
unfolding sorted_insert
sorted_insert-Ascending x [] s = (tt, tt)
sorted_insert-Ascending x (y ∷ ys) s =
    ground
      (arith, sorted_insert-Ascending x ys s.1, sorted_insert-AllFrom y x ys, AllFrom-mono x y ys)

insertion_sort-Ascending : (xs : List ℕ) → Ascending (insertion_sort leb xs)
unfolding insertion_sort
insertion_sort-Ascending [] = tt
insertion_sort-Ascending (x ∷ xs) =
    sorted_insert-Ascending x (insertion_sort leb xs) (insertion_sort-Ascending xs)

differences : List ℕ → List ℕ → Result (List ℕ)
differences [] [] = ok []
differences (x ∷ xs) (y ∷ ys) = do ds ← differences xs ys; ok (((x - y) + (y - x)) ∷ ds)
differences _ _ = raise runtime_error

differences_runs :
    (a b : List ℕ)
    → length a ≡ length b
    → (ds : List ℕ) × (differences a b ≡ ok ds) × (length ds ≡ length a)
unfolding differences
differences_runs [] [] e = ([], refl, refl)
differences_runs (x ∷ xs) (y ∷ ys) e =
    let (ds, runs, long) = differences_runs xs ys (omega arith) in
    (((x - y) + (y - x)) ∷ ds, rw runs, omega arith)
differences_runs [] (y ∷ ys) e = absurd (omega arith)
differences_runs (x ∷ xs) [] e = absurd (omega arith)

-- The difference at a place.
abbrev at_place : List ℕ → ℕ → ℕ
at_place ds i = elim (get_elem? ds i) [ none ↦ 0 | some x ↦ x ]

-- The places of larger differences come first.
abbrev larger : List ℕ → ℕ → ℕ → Bool
larger ds i j = leb (at_place ds j) (at_place ds i)

ranked : List ℕ → List ℕ
ranked ds = insertion_sort (larger ds) (upto 0 (length ds))

largest_places : List ℕ → ℤ → Result (List ℕ)
largest_places ds (pos k) =
    if leb k (length ds) then ok (take k (ranked ds)) else raise runtime_error
largest_places ds (negsuc k) = raise runtime_error

-- No place of the list has a larger difference than `i`.
abbrev AllUnder : List ℕ → ℕ → List ℕ → Type 0
AllUnder ds i [] = Unit {0}
AllUnder ds i (j ∷ js) = (at_place ds j ≤ at_place ds i) × AllUnder ds i js

abbrev Descending : List ℕ → List ℕ → Type 0
Descending ds [] = Unit {0}
Descending ds (i ∷ is) = AllUnder ds i is × Descending ds is

AllUnder-mono :
    (ds : List ℕ) (i j : ℕ) (js : List ℕ)
    → at_place ds j ≤ at_place ds i
    → AllUnder ds j js
    → AllUnder ds i js
AllUnder-mono ds i j [] h u = tt
AllUnder-mono ds i j (k ∷ ks) h u = (omega (arith, u.0, h), AllUnder-mono ds i j ks h u.1)

insert-AllUnder :
    (ds : List ℕ) (i x : ℕ) (js : List ℕ)
    → at_place ds x ≤ at_place ds i
    → AllUnder ds i js
    → AllUnder ds i (sorted_insert (larger ds) x js)
unfolding sorted_insert
insert-AllUnder ds i x [] h u = (h, tt)
insert-AllUnder ds i x (j ∷ js) h u = elim (Bool-cases (larger ds x j)) [
  | inl e ↦ rw e (h, u)
  | inr e ↦ rw e (u.0, insert-AllUnder ds i x js h u.1)
]

insert-Descending :
    (ds : List ℕ) (x : ℕ) (js : List ℕ)
    → Descending ds js
    → Descending ds (sorted_insert (larger ds) x js)
unfolding sorted_insert
insert-Descending ds x [] d = (tt, tt)
insert-Descending ds x (j ∷ js) d = elim (Bool-cases (larger ds x j)) [
  | inl e ↦
      let under : at_place ds j ≤ at_place ds x = ground (arith, e) in
      rw e ((under, AllUnder-mono ds x j js under d.0), d)
  | inr e ↦
      let over : at_place ds x ≤ at_place ds j = ground (arith, e) in
      rw e (insert-AllUnder ds j x js over d.0, insert-Descending ds x js d.1)
]

sort-Descending : (ds is : List ℕ) → Descending ds (insertion_sort (larger ds) is)
unfolding insertion_sort
sort-Descending ds [] = tt
sort-Descending ds (i ∷ is) =
    insert-Descending ds i (insertion_sort (larger ds) is) (sort-Descending ds is)

under-mem :
    (ds : List ℕ) (i j : ℕ) (js : List ℕ)
    → AllUnder ds i js
    → mem j js ≡ true
    → at_place ds j ≤ at_place ds i
under-mem ds i j [] u m = cc
under-mem ds i j (k ∷ ks) u m = elim (Bool-cases (k == j)) [
  | inl e ↦ subst (λ n. at_place ds n ≤ at_place ds i) ((==_iff k j).0 e) u.0
  | inr e ↦ under-mem ds i j ks u.1 (ground (arith, m, e))
]

take-Largest :
    (ds : List ℕ) (k : ℕ) (is : List ℕ) (i j : ℕ)
    → Descending ds is
    → mem i (take k is) ≡ true
    → mem j (take k is) ≡ false
    → mem j is ≡ true
    → at_place ds j ≤ at_place ds i
take-Largest ds zero is i j d in_take out there = cc
take-Largest ds (suc k) [] i j d in_take out there = cc
take-Largest ds (suc k) (x ∷ is) i j d in_take out there = elim (Bool-cases (x == i)) [
  | inl e ↦
      subst (λ n. at_place ds j ≤ at_place ds n) ((==_iff x i).0 e)
        (under-mem ds x j is d.0 (ground (arith, out, there)))
  | inr e ↦
      take-Largest ds k is i j d.1 (ground (arith, in_take, e)) (ground (arith, out))
        (ground (arith, out, there))
]

take-AllBelow : (n k : ℕ) (is : List ℕ) → AllBelow n is → AllBelow n (take k is)
take-AllBelow n zero is b = tt
take-AllBelow n (suc k) [] b = tt
take-AllBelow n (suc k) (i ∷ is) b = (b.0, take-AllBelow n k is b.1)

mem-take : (i k : ℕ) (is : List ℕ) → mem i is ≡ false → mem i (take k is) ≡ false
mem-take i zero is h = refl
mem-take i (suc k) [] h = refl
mem-take i (suc k) (x ∷ is) h = ground (arith, h, mem-take i k is)

take-Nodup : (k : ℕ) (is : List ℕ) → Nodup is → Nodup (take k is)
take-Nodup zero is n = tt
take-Nodup (suc k) [] n = tt
take-Nodup (suc k) (i ∷ is) n = (mem-take i k is n.0, take-Nodup k is n.1)

length-take_all : (k : ℕ) (is : List ℕ) → k ≤ length is → length (take k is) ≡ k
length-take_all zero is h = refl
length-take_all (suc k) [] h = absurd (omega arith)
length-take_all (suc k) (i ∷ is) h = ap suc (length-take_all k is (omega arith))

mem-places :
    (ds : List ℕ) (j a y : ℕ) → get_elem? ds j ≡ some y → mem (a + j) (upto a (length ds)) ≡ true
mem-places [] j a y h = cc
mem-places (d ∷ ds) zero a y h = ground arith
mem-places (d ∷ ds) (suc j) a y h =
    let rest = mem-places ds j (suc a) y h in
    let same : suc a + j ≡ a + suc j = omega arith in
    let later : mem (a + suc j) (upto (suc a) (length ds)) ≡ true =
      subst (λ n. mem n (upto (suc a) (length ds)) ≡ true) same rest in
    ground (arith, later)

largest_places_runs :
    (ds : List ℕ) (k : ℕ)
    → k ≤ length ds
    → (is : List ℕ) × (largest_places ds (pos k) ≡ ok is)
      × (length is ≡ k)
      × Nodup is
      × AllBelow (length ds) is
      × Largest leb ds is
unfolding largest_places ranked
largest_places_runs ds k h =
    let n = length ds in
    let all = insertion_sort (larger ds) (upto 0 n) in
    let long = length-insertion_sort (larger ds) (upto 0 n) in
    let count = length-upto 0 n in
    (
      take k all,
      ground (arith, h),
      length-take_all k all (omega (arith, h, long, count)),
      take-Nodup k all (insertion_sort-Nodup (larger ds) (upto 0 n) (upto-Nodup 0 n)),
      take-AllBelow n k all
          (insertion_sort-AllBelow (larger ds) n (upto 0 n) (upto-AllBelow 0 n n (omega arith))),
      λ i j x y at off at_i at_j.
          let zero_more : 0 + j ≡ j = omega arith in
          let place : mem j (upto 0 n) ≡ true =
            subst (λ p. mem p (upto 0 n) ≡ true) zero_more (mem-places ds j 0 y at_j) in
          let there = mem-insertion_sort (larger ds) j (upto 0 n) ∙ place in
          let below = take-Largest ds k all i j (sort-Descending ds (upto 0 n)) at off there in
          ground (arith, below, at_i, at_j),
    )

abbrev torch : Torch ℕ ℕ
torch = record {
  row_diffs = differences;
  at_most = leb;
  topk = largest_places;
  sort = insertion_sort leb;
  row_diffs_runs = differences_runs;
  topk_runs = largest_places_runs;
  mem-sort = mem-insertion_sort leb;
  length-sort = length-insertion_sort leb;
  sort-Nodup = insertion_sort-Nodup leb;
  sort-AllBelow = insertion_sort-AllBelow leb;
  sort-Ascending = insertion_sort-Ascending;
}

-- Half of the rows before the suffix are computed again.
abbrev halved : FuseMetadata
halved = record {
  check = true;
  check_layers = 1 ∷ [];
  recomp_num = 50;
  recomp_den = 100;
  suffix_len = 2;
  imp_indices = none;
}

abbrev rows : List ℕ
rows = 10 ∷ 11 ∷ 12 ∷ 13 ∷ 14 ∷ 15 ∷ []

abbrev cached_rows : List ℕ
cached_rows = 20 ∷ 11 ∷ 22 ∷ 13 ∷ 24 ∷ 25 ∷ []

attend_checking-Ascending_example :
    (out : Attended ℕ) × (chosen is : List ℕ) × (ds : List ℕ) × (attend torch.row_diffs torch.topk
        torch.sort checking halved rows rows rows cached_rows cached_rows 6 0
      ≡ ok out)
    × (is ≡ chosen ++ upto 4 2)
    × (length chosen ≡ 2)
    × (torch.row_diffs (drop_last 2 rows) (drop_last 2 cached_rows) ≡ ok ds)
    × Largest leb ds chosen
    × Nodup is
    × AllBelow 6 is
    × Ascending is
    × (out.meta.imp_indices ≡ some (map pos is))
    × (gather rows (map pos is) ≡ ok out.query)
    × (length out.query ≡ length is)
    × (out.stored_key ≡ rows)
    × (out.stored_value ≡ rows)
attend_checking-Ascending_example =
    attend_checking-Ascending torch halved rows rows rows cached_rows cached_rows 6 0 refl refl
      (omega arith) (omega arith) (omega arith)

abbrev chosen_three : FuseMetadata
chosen_three = record halved { imp_indices = some (map pos (1 ∷ 4 ∷ 5 ∷ [])) }

attend_after_check-Merged_example :
    (out : Attended ℕ) × (attend differences largest_places
        (insertion_sort leb)
        after_check
        chosen_three
        (1 ∷ 2 ∷ 3 ∷ [])
        (4 ∷ 5 ∷ 6 ∷ [])
        (7 ∷ 8 ∷ 9 ∷ [])
        rows
        cached_rows
        6
        0
      ≡ ok out)
    × Merged rows (1 ∷ 4 ∷ 5 ∷ []) (4 ∷ 5 ∷ 6 ∷ []) out.stored_key
    × Merged cached_rows (1 ∷ 4 ∷ 5 ∷ []) (7 ∷ 8 ∷ 9 ∷ []) out.stored_value
    × (out.key ≡ take 6 out.stored_key)
    × (out.value ≡ take 6 out.stored_value)
    × (out.key_old ≡ out.stored_key)
    × (out.value_old ≡ out.stored_value)
    × (out.query ≡ 1 ∷ 2 ∷ 3 ∷ [])
attend_after_check-Merged_example =
    attend_after_check-Merged differences largest_places (insertion_sort leb) chosen_three
      (1 ∷ 2 ∷ 3 ∷ []) (4 ∷ 5 ∷ 6 ∷ []) (7 ∷ 8 ∷ 9 ∷ []) rows cached_rows 6 0 (1 ∷ 4 ∷ 5 ∷ []) refl
      (refl, (refl, (refl, tt))) (omega arith, (omega arith, (omega arith, tt))) refl refl refl refl

-- A layer that counts the positions it works on and, at the check, chooses two of them.
abbrev counting_layer : ℕ → FuseStatus → List ℕ → ℕ → FuseMetadata → Result (ℕ × FuseMetadata)
counting_layer i checking positions count meta =
    ok (count + length positions, record meta { imp_indices = some (pos 1 ∷ pos 3 ∷ []) })
counting_layer i _ positions count meta = ok (count + length positions, meta)

counting_layer-keeps :
    (c i : ℕ) (st : FuseStatus) (positions : List ℕ) (count : ℕ) (meta : FuseMetadata) (count' : ℕ)
    (meta' : FuseMetadata)
    → ChecksOnly c meta
    → counting_layer i st positions count meta ≡ ok (count', meta')
    → ChecksOnly c meta'
counting_layer-keeps c i decoding positions count meta count' meta' only e = ground arith
counting_layer-keeps c i full_prefill positions count meta count' meta' only e = ground arith
counting_layer-keeps c i checking positions count meta count' meta' only e = ground arith
counting_layer-keeps c i after_check positions count meta count' meta' only e = ground arith

four_layers :
    forward counting_layer 4 true (0 ∷ 1 ∷ 2 ∷ 3 ∷ []) 0 halved
    ≡ ok (12, record halved { imp_indices = some (pos 1 ∷ pos 3 ∷ []) }, 1 ∷ 3 ∷ [])
unfolding forward start_metadata gather
four_layers = refl

forward-blended_example :
    forward counting_layer 4 true (0 ∷ 1 ∷ 2 ∷ 3 ∷ []) 0 halved
    ≡ blended counting_layer 1 0 2 1 (0 ∷ 1 ∷ 2 ∷ 3 ∷ []) 0 halved
forward-blended_example =
    forward-blended counting_layer 1 (counting_layer-keeps 1) 2 (0 ∷ 1 ∷ 2 ∷ 3 ∷ []) 0 halved
      (refl, refl)
