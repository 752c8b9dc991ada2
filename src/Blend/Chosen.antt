-- ===== src/Blend/Chosen.antt =====
-- The rows that a check layer chooses (`XFormersImpl.forward` of
-- vllm_blend/vllm/attention/backends/xformers.py at status 1).
use native.Mathlib.Nat.{div-le_of_le-mul, mul-le-mul_left, mul_comm}
use mathlib.Core.Path.{subst}
use mathlib.Core.List.{map-append}
use cache_blend.Prelude.{
  ℕ, zero, suc, ◌+◌, ◌-◌, ◌*◌, ◌/◌, ◌<◌, ◌≤◌, ◌≡◌, refl, sym, ap, ◌∙◌, get_elem?, Bool, true, false,
  none, some, List, [], ◌∷◌, ◌++◌, map, mem, Nodup, length, length-map, length-take, take, Result,
  ok, arith, mem-append,
}
use cache_blend.Prelude.Int.{ℤ, pos, ◌+ℤ◌, ◌-ℤ◌}
use cache_blend.Blend.Rows.{place_below, gather, AllBelow}
use cache_blend.Blend.Attention.{
  checking, FuseMetadata, Attended, trunc_ratio, offsets, last_indices, drop_last, select_rows,
  attend,
}

-- No item of the list is below `a`.
abbrev pub AllFrom : ℕ → List ℕ → Type 0
AllFrom a [] = Unit {0}
AllFrom a (x ∷ xs) = (a ≤ x) × AllFrom a xs

abbrev pub Ascending : List ℕ → Type 0
Ascending [] = Unit {0}
Ascending (x ∷ xs) = AllFrom x xs × Ascending xs

-- `range(a, a + n)`.
abbrev pub upto : ℕ → ℕ → List ℕ
upto a zero = []
upto a (suc n) = a ∷ upto (suc a) n

sum_pos : (a : ℕ) → pos a +ℤ pos 1 ≡ pos (suc a)
unfolding ◌+ℤ◌
sum_pos a = ground arith

offsets-upto : (a n : ℕ) → offsets (pos a) n ≡ map pos (upto a n)
unfolding offsets
offsets-upto a zero = refl
offsets-upto a (suc n) = ap (λ is. pos a ∷ is) (rw (sum_pos a, offsets-upto (suc a) n))

sub_pos : (a b : ℕ) → b ≤ a → pos a -ℤ pos b ≡ pos (a - b)
unfolding ◌-ℤ◌
sub_pos a b h = ground arith

pub length-upto : (a n : ℕ) → length (upto a n) ≡ n
length-upto a zero = refl
length-upto a (suc n) = omega (arith, length-upto (suc a) n)

mem-upto_below : (i a n : ℕ) → i < a → mem i (upto a n) ≡ false
mem-upto_below i a zero h = refl
mem-upto_below i a (suc n) h = ground (arith, mem-upto_below i (suc a) n)

mem-upto : (i a n : ℕ) → a ≤ i → i < a + n → mem i (upto a n) ≡ true
mem-upto i a zero h k = absurd (omega arith)
mem-upto i a (suc n) h k = ground (arith, mem-upto i (suc a) n)

pub upto-Nodup : (a n : ℕ) → Nodup (upto a n)
upto-Nodup a zero = tt
upto-Nodup a (suc n) = (mem-upto_below a (suc a) n (omega arith), upto-Nodup (suc a) n)

pub upto-AllBelow : (a n m : ℕ) → a + n ≤ m → AllBelow m (upto a n)
upto-AllBelow a zero m h = tt
upto-AllBelow a (suc n) m h = (omega arith, upto-AllBelow (suc a) n m (omega arith))

upto-AllFrom : (b a n : ℕ) → b ≤ a → AllFrom b (upto a n)
upto-AllFrom b a zero h = tt
upto-AllFrom b a (suc n) h = (h, upto-AllFrom b (suc a) n (omega arith))

upto-Ascending : (a n : ℕ) → Ascending (upto a n)
upto-Ascending a zero = tt
upto-Ascending a (suc n) = (upto-AllFrom a (suc a) n (omega arith), upto-Ascending (suc a) n)

-- A list below `a`, followed by the `n` numbers from `a` on.
append-Nodup : (xs : List ℕ) (a n : ℕ) → AllBelow a xs → Nodup xs → Nodup (xs ++ upto a n)
append-Nodup [] a n b d = upto-Nodup a n
append-Nodup (x ∷ xs) a n b d =
    (rw (mem-append x xs (upto a n), d.0, mem-upto_below x a n b.0), append-Nodup xs a n b.1 d.1)

append-AllBelow :
    (xs : List ℕ) (a n m : ℕ) → AllBelow a xs → a + n ≤ m → AllBelow m (xs ++ upto a n)
append-AllBelow [] a n m b h = upto-AllBelow a n m h
append-AllBelow (x ∷ xs) a n m b h = (omega (arith, b.0), append-AllBelow xs a n m b.1 h)

append-AllFrom : (xs : List ℕ) (y a n : ℕ) → AllFrom y xs → y ≤ a → AllFrom y (xs ++ upto a n)
append-AllFrom [] y a n f h = upto-AllFrom y a n h
append-AllFrom (x ∷ xs) y a n f h = (f.0, append-AllFrom xs y a n f.1 h)

append-Ascending :
    (xs : List ℕ) (a n : ℕ) → AllBelow a xs → Ascending xs → Ascending (xs ++ upto a n)
append-Ascending [] a n b s = upto-Ascending a n
append-Ascending (x ∷ xs) a n b s =
    (append-AllFrom xs x a n s.0 (omega (arith, b.0)), append-Ascending xs a n b.1 s.1)

length-drop_last {ℓ} :
    {R : Type ℓ} (n : ℕ) (rows : List R) → 0 < n → length (drop_last n rows) ≡ length rows - n
unfolding drop_last
length-drop_last zero rows h = absurd (omega arith)
length-drop_last (suc n) rows h = omega (arith, length-take (length rows - suc n) rows)

share_within : (n num den : ℕ) → num ≤ den → n * num / den ≤ n
share_within n num den h = div-le_of_le-mul den (rw (mul_comm den n) (mul-le-mul_left n h))

-- None of the other items is above one at these places.
abbrev pub Largest {κ} : {S : Type κ} → (S → S → Bool) → List S → List ℕ → Type κ
Largest {S} at_most ds is =
    (i j : ℕ) (x y : S)
    → mem i is ≡ true
    → mem j is ≡ false
    → get_elem? ds i ≡ some x
    → get_elem? ds j ≡ some y
    → at_most y x ≡ true

-- What the layer uses of torch: the differences of two tensors with as many rows, their order, the indices
-- of the `k` largest of them, and sorting.
pub record Torch {ℓ κ} (R : Type ℓ) (S : Type κ) : Type (ℓ ⊔ κ) where
  pub row_diffs : List R → List R → Result (List S)
  pub at_most : S → S → Bool
  pub topk : List S → ℤ → Result (List ℕ)
  pub sort : List ℕ → List ℕ
  pub row_diffs_runs :
      (a b : List R)
      → length a ≡ length b
      → (ds : List S) × (row_diffs a b ≡ ok ds) × (length ds ≡ length a)
  pub topk_runs :
      (ds : List S) (k : ℕ)
      → k ≤ length ds
      → (is : List ℕ) × (topk ds (pos k) ≡ ok is)
        × (length is ≡ k)
        × Nodup is
        × AllBelow (length ds) is
        × Largest at_most ds is
  pub mem-sort : (i : ℕ) (is : List ℕ) → mem i (sort is) ≡ mem i is
  pub length-sort : (is : List ℕ) → length (sort is) ≡ length is
  pub sort-Nodup : (is : List ℕ) → Nodup is → Nodup (sort is)
  pub sort-AllBelow : (n : ℕ) (is : List ℕ) → AllBelow n is → AllBelow n (sort is)
  pub sort-Ascending : (is : List ℕ) → Ascending (sort is)

get_below {ℓ} :
    {R : Type ℓ} (xs : List R) (i : ℕ) → i < length xs → (x : R) × (get_elem? xs i ≡ some x)
get_below [] i h = absurd (omega arith)
get_below (x ∷ xs) zero h = (x, refl)
get_below (x ∷ xs) (suc i) h = get_below xs i (omega arith)

gather_runs {ℓ} :
    {R : Type ℓ} (xs : List R) (is : List ℕ)
    → AllBelow (length xs) is
    → (rows : List R) × (gather xs (map pos is) ≡ ok rows) × (length rows ≡ length is)
unfolding gather
gather_runs xs [] h = ([], refl, refl)
gather_runs xs (i ∷ is) h =
    let (x, got) = get_below xs i h.0 in
    let (rows, runs, long) = gather_runs xs is h.1 in
    (x ∷ rows, rw (place_below (length xs) i h.0, got, runs), ap suc long)

module _ {ℓ κ} {R : Type ℓ} {S : Type κ} (t : Torch R S) where
  select_rows-runs :
      (meta : FuseMetadata) (value value_old : List R)
      → length value ≡ length value_old
      → 0 < meta.suffix_len
      → meta.suffix_len ≤ length value
      → meta.recomp_num ≤ meta.recomp_den
      → (chosen : List ℕ) × (ds : List S) × (select_rows t.row_diffs t.topk t.sort meta value
            value_old
          ≡ ok (map pos (chosen ++ upto (length value - meta.suffix_len) meta.suffix_len)))
        × (length chosen ≡ (length value - meta.suffix_len) * meta.recomp_num / meta.recomp_den)
        × Nodup chosen
        × AllBelow (length value - meta.suffix_len) chosen
        × Ascending chosen
        × (t.row_diffs (drop_last meta.suffix_len value) (drop_last meta.suffix_len value_old)
            ≡ ok ds)
        × Largest t.at_most ds chosen
  unfolding select_rows trunc_ratio last_indices
  select_rows-runs meta value value_old e some_suffix fits ratio =
      let n = length value - meta.suffix_len in
      let new_long = length-drop_last meta.suffix_len value some_suffix in
      let old_long = length-drop_last meta.suffix_len value_old some_suffix in
      let (ds, ds_run, ds_long) =
        t.row_diffs_runs (drop_last meta.suffix_len value) (drop_last meta.suffix_len value_old)
          (omega (arith, new_long, old_long)) in
      let (is, is_run, is_long, is_nodup, is_below, is_largest) =
        t.topk_runs ds (n * meta.recomp_num / meta.recomp_den) (
          omega (arith, ds_long, new_long, share_within n meta.recomp_num meta.recomp_den ratio)) in
      (
        t.sort is,
        ds,
        rw (
          sub_pos (length value) meta.suffix_len fits,
          ds_run,
          is_run,
          offsets-upto n meta.suffix_len,
          map-append pos (t.sort is) (upto n meta.suffix_len),
        ),
        omega (arith, is_long, t.length-sort is),
        t.sort-Nodup is is_nodup,
        t.sort-AllBelow n is (subst (λ w. AllBelow w is) (ds_long ∙ new_long) is_below),
        t.sort-Ascending is,
        ds_run,
        λ i j x y at off.
            is_largest i j x y (sym (t.mem-sort i is) ∙ at) (sym (t.mem-sort j is) ∙ off),
      )

  -- At a check layer, with a suffix that is not empty and no longer than the prompt, as many cached rows
  -- as new ones, a query for each, and a ratio of at most one: the chosen places are distinct, in range
  -- and ascending; they are the given share of the places before the suffix, at which the new and the cached
  -- values differ at least as much as at any other place before it, and then the whole suffix.
  -- The queries kept are those of the chosen places, in order, and all keys and values are stored.
  pub attend_checking-Ascending :
      (meta : FuseMetadata) (query key value key_old value_old : List R) (prefill decode : ℕ)
      → length value ≡ length value_old
      → length query ≡ length value
      → 0 < meta.suffix_len
      → meta.suffix_len ≤ length value
      → meta.recomp_num ≤ meta.recomp_den
      → (out : Attended R) × (chosen is : List ℕ) × (ds : List S) × (attend t.row_diffs t.topk
            t.sort checking meta query key value key_old value_old prefill decode
          ≡ ok out)
        × (is ≡ chosen ++ upto (length value - meta.suffix_len) meta.suffix_len)
        × (length chosen ≡ (length value - meta.suffix_len) * meta.recomp_num / meta.recomp_den)
        × (t.row_diffs (drop_last meta.suffix_len value) (drop_last meta.suffix_len value_old)
            ≡ ok ds)
        × Largest t.at_most ds chosen
        × Nodup is
        × AllBelow (length value) is
        × Ascending is
        × (out.meta.imp_indices ≡ some (map pos is))
        × (gather query (map pos is) ≡ ok out.query)
        × (length out.query ≡ length is)
        × (out.stored_key ≡ key)
        × (out.stored_value ≡ value)
  unfolding attend
  attend_checking-Ascending meta query key value key_old value_old prefill decode e q some_suffix
        fits ratio =
      let n = length value - meta.suffix_len in
      let (chosen, ds, chosen_runs, chosen_long, nodup, below, ascending, ds_run, largest) =
        select_rows-runs meta value value_old e some_suffix fits ratio in
      let is = chosen ++ upto n meta.suffix_len in
      let is_below = append-AllBelow chosen n meta.suffix_len (length value) below (omega arith) in
      let (rows, rows_run, rows_long) =
        gather_runs query is (subst (λ w. AllBelow w is) (sym q) is_below) in
      (
        record {
          query = rows;
          decode_query = none;
          key = take prefill key;
          value = take prefill value;
          stored_key = key;
          stored_value = value;
          key_old = key_old;
          value_old = value_old;
          meta = record meta { imp_indices = some (map pos is) };
        },
        chosen,
        is,
        ds,
        rw (chosen_runs, rows_run, rows_long, length-map is pos) (ground arith),
        refl,
        chosen_long,
        ds_run,
        largest,
        append-Nodup chosen n meta.suffix_len below nodup,
        is_below,
        append-Ascending chosen n meta.suffix_len below ascending,
        refl,
        rows_run,
        rows_long,
        refl,
        refl,
      )
