-- ===== src/Blend/Fused.antt =====
-- What the layers after the check hand to attention (`XFormersImpl.forward` of
-- vllm_blend/vllm/attention/backends/xformers.py): new rows at the chosen places, cached rows elsewhere.
use cache_blend.Prelude.{
  ℕ, ◌<◌, ◌≡◌, ◌≢◌, refl, sym, ◌∙◌, false, none, some, List, [], ◌∷◌, map, mem, Nodup, length,
  get_elem?, set, length-set, length-map, get_elem?-set_self, get_elem?-set_ne, take, Result, ok,
  arith,
}
use cache_blend.Prelude.Int.{ℤ, pos}
use cache_blend.Blend.Attention.{after_check, FuseMetadata, Attended, attend}
use cache_blend.Blend.Rows.{place_below, gather, scatter, expand, index_put, AllBelow}

mem-cons_false : (j i : ℕ) (is : List ℕ) → mem j (i ∷ is) ≡ false → (i ≢ j) × (mem j is ≡ false)
mem-cons_false j i is h = (λ e. ground arith, ground arith)

module _ {ℓ} {R : Type ℓ} where
  -- `ys` holds `rows` at the places `is`, and the rows of `xs` elsewhere.
  pub record Merged (xs : List R) (is : List ℕ) (rows ys : List R) : Type ℓ where
    pub long : length ys ≡ length xs
    pub at : gather ys (map pos is) ≡ ok rows
    pub elsewhere : (j : ℕ) → mem j is ≡ false → get_elem? ys j ≡ get_elem? xs j

  gather_step :
      (ys : List R) (i : ℕ) (is : List ℕ) (r : R) (rows : List R)
      → i < length ys
      → get_elem? ys i ≡ some r
      → gather ys (map pos is) ≡ ok rows
      → gather ys (map pos (i ∷ is)) ≡ ok (r ∷ rows)
  unfolding gather
  gather_step ys i is r rows h e q = rw (place_below (length ys) i h, e, q)

  scatter-Merged :
      (xs : List R) (is : List ℕ) (rows : List R)
      → AllBelow (length xs) is
      → Nodup is
      → length rows ≡ length is
      → (ys : List R) × (scatter xs (map pos is) rows ≡ ok ys) × Merged xs is rows ys
  unfolding scatter gather
  scatter-Merged xs [] [] b n e =
      (xs, refl, record { long = refl; at = refl; elsewhere = λ j h. refl })
  scatter-Merged xs (i ∷ is) (r ∷ rows) b n e =
      let (ys, runs, m) =
        scatter-Merged (set xs i r) is rows (rw (length-set xs i r) b.1) n.1 (omega arith) in
      (
        ys,
        rw (place_below (length xs) i b.0, runs),
        record {
          long = omega (arith, m.long, length-set xs i r);
          at =
              gather_step ys i is r rows (omega (arith, m.long, length-set xs i r))
                (m.elsewhere i n.0 ∙ get_elem?-set_self xs i r b.0) m.at;
          elsewhere = λ j h.
              m.elsewhere j (mem-cons_false j i is h).1
              ∙ get_elem?-set_ne xs r (mem-cons_false j i is h).0;
        },
      )
  scatter-Merged xs [] (r ∷ rows) b n e = absurd (omega arith)
  scatter-Merged xs (i ∷ is) [] b n e = absurd (omega arith)

  expand_full : (n : ℕ) (rows : List R) → length rows ≡ n → expand n rows ≡ rows
  unfolding expand
  expand_full n [] h = refl
  expand_full n (r ∷ []) h = rw (sym h)
  expand_full n (r ∷ s ∷ rs) h = refl

  pub index_put-Merged :
      (xs : List R) (is : List ℕ) (rows : List R)
      → AllBelow (length xs) is
      → Nodup is
      → length rows ≡ length is
      → (ys : List R) × (index_put xs (map pos is) rows ≡ ok ys) × Merged xs is rows ys
  unfolding index_put
  index_put-Merged xs is rows b n e =
      rw (length-map is pos, expand_full (length is) rows e) (scatter-Merged xs is rows b n e)

module _ {ℓ κ} {R : Type ℓ} {S : Type κ} (row_diffs : List R → List R → Result (List S))
    (topk : List S → ℤ → Result (List ℕ)) (sort : List ℕ → List ℕ) where
  -- After the check, with the chosen places `is` distinct and in range and a new row for each, attention
  -- gets and stores the new keys and values at those places and the cached ones elsewhere, the cached
  -- tensors are overwritten by the merged ones, and the queries pass through.
  pub attend_after_check-Merged :
      (meta : FuseMetadata) (query key value key_old value_old : List R) (prefill decode : ℕ)
      (is : List ℕ)
      → meta.imp_indices ≡ some (map pos is)
      → Nodup is
      → AllBelow (length key_old) is
      → length value_old ≡ length key_old
      → length key ≡ length is
      → length value ≡ length is
      → length query ≡ length is
      → (out : Attended R) × (attend row_diffs topk sort after_check meta query key value key_old
            value_old prefill decode
          ≡ ok out)
        × Merged key_old is key out.stored_key
        × Merged value_old is value out.stored_value
        × (out.key ≡ take prefill out.stored_key)
        × (out.value ≡ take prefill out.stored_value)
        × (out.key_old ≡ out.stored_key)
        × (out.value_old ≡ out.stored_value)
        × (out.query ≡ query)
  unfolding attend
  attend_after_check-Merged meta query key value key_old value_old prefill decode is imp n b o k v
        q =
      let (key', key_runs, key_merged) = index_put-Merged key_old is key b n k in
      let (value', value_runs, value_merged) = index_put-Merged value_old is value (rw o b) n v in
      (
        record {
          query = query;
          decode_query = none;
          key = take prefill key';
          value = take prefill value';
          stored_key = key';
          stored_value = value';
          key_old = key';
          value_old = value';
          meta = meta;
        },
        rw (imp, key_runs, value_runs, q, length-map is pos) (ground arith),
        key_merged,
        value_merged,
        refl,
        refl,
        refl,
        refl,
        refl,
      )
