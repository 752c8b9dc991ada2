-- ===== src/StopChecker/Continues.antt =====
-- What `maybe_stop_sequence` of vllm_blend/vllm/engine/output_processor/stop_checker.py has ruled out when a
-- sequence goes on, and what it leaves alone.
use mathlib.Core.Path.{subst}
use cache_blend.Prelude.{
  ℕ, zero, suc, ◌+◌, ◌-◌, ◌≤◌, ◌≡◌, ◌≢◌, refl, sym, ◌⊎◌, inl, inr, Bool, true, false, ◌++◌, drop,
  length, ◌==◌, Option-cases, ◌&&◌, ◌||◌, not, Option, none, List, [], ◌∷◌, ltb, ok, Result-cases,
  Bool-cases, arith, ◌<◌,
}
use cache_blend.Prelude.Int.{ℤ}
use cache_blend.Sequence.{
  Sequence, data_get_last_token_id, get_len, is_finished, status_is_finished,
}
use cache_blend.StopChecker.{
  StopParams, StopReason, get_output_len, mem_token, check_strings, check_stop_strings, cap_length,
  starts_with, find_at, find_last, is_eos, is_at, maybe_stop_sequence,
}

-- The string stands nowhere in the text.
abbrev pub IsAbsent : List ℕ → List ℕ → Type 0
IsAbsent s text = (j : ℕ) (rest : List ℕ) → drop j text ≢ s ++ rest

-- No stop string stands in the part of the text that the new characters may have completed.
abbrev pub AllAbsent : List ℕ → ℕ → List (List ℕ) → Type 0
AllAbsent text new_char_count [] = Unit {0}
AllAbsent text new_char_count (s ∷ stops) =
    IsAbsent s (drop (length text - (new_char_count + length s)) text)
    × AllAbsent text new_char_count stops

starts_with-append : (s rest : List ℕ) → starts_with s (s ++ rest) ≡ true
unfolding starts_with
starts_with-append [] rest = refl
starts_with-append (c ∷ s) rest = ground (arith, starts_with-append s rest)

find_at-IsAbsent : (s text : List ℕ) (i : ℕ) → find_at s text i ≡ none → IsAbsent s text
unfolding find_at
find_at-IsAbsent [] [] i h j rest e = ground (arith, h)
find_at-IsAbsent (c ∷ s) [] i h zero rest e = cc
find_at-IsAbsent (c ∷ s) [] i h (suc j) rest e = cc
find_at-IsAbsent s (d ∷ ds) i h zero rest e =
    let starts : starts_with s (d ∷ ds) ≡ true =
      subst (λ (t : List ℕ). starts_with s t ≡ true) (sym e) (starts_with-append s rest) in
    ground (arith, h, starts)
find_at-IsAbsent s (d ∷ ds) i h (suc j) rest e =
    find_at-IsAbsent s ds (suc i) (ground (arith, h)) j rest e

check_strings-AllAbsent :
    (seq : Sequence) (n : ℕ) (include : Bool) (stops : List (List ℕ))
    → (check_strings seq n include stops).1 ≡ none
    → AllAbsent seq.output_text n stops
unfolding check_strings find_last
check_strings-AllAbsent seq n include [] h = tt
check_strings-AllAbsent seq n include (s ∷ stops) h =
    let from = length seq.output_text - (n + length s) in
    elim (Option-cases (find_at s (drop from seq.output_text) from)) [
      | inl e ↦ (
        find_at-IsAbsent s (drop from seq.output_text) from e,
        check_strings-AllAbsent seq n include stops (ground (arith, h, e)),
      )
      | inr (k, e) ↦ ground (arith, h, e)
    ]

check_stop_strings-AllAbsent :
    (seq : Sequence) (n : ℕ) (p : StopParams)
    → (check_stop_strings seq n p).1 ≡ none
    → (n ≡ 0) ⊎ AllAbsent seq.output_text n p.stop
unfolding check_stop_strings
check_stop_strings-AllAbsent seq n p h = elim (Bool-cases (n == 0)) [
  | inl e ↦ inl (ground (arith, e))
  | inr e ↦
      inr (check_strings-AllAbsent seq n p.include_stop_str_in_output p.stop (ground (arith, h, e)))
]

check_strings-data :
    (seq : Sequence) (n : ℕ) (include : Bool) (stops : List (List ℕ))
    → (check_strings seq n include stops).0.seq_data ≡ seq.seq_data
unfolding check_strings
check_strings-data seq n include [] = refl
check_strings-data seq n include (s ∷ stops) =
    let rest = check_strings-data seq n include stops in ground (arith, rest)

-- The checker never changes the tokens of a sequence.
pub maybe_stop_sequence-data :
    (max_model_len : ℕ) (seq : Sequence) (new_char_count : ℕ) (p : StopParams) (seq' : Sequence)
    (reason : Option StopReason)
    → maybe_stop_sequence max_model_len seq new_char_count p ≡ ok (seq', reason)
    → seq'.seq_data ≡ seq.seq_data
unfolding maybe_stop_sequence check_stop_strings cap_length
maybe_stop_sequence-data max_model_len seq new_char_count p seq' reason h =
    let kept = check_strings-data seq new_char_count p.include_stop_str_in_output p.stop in
    ground (arith, h, kept)

-- When the checker returns a sequence that is not finished, the sequence is unchanged and either has fewer
-- tokens than the minimum, or its last token neither is an end that counts nor a stop token, it has
-- no new characters or no stop string stands in the part of the text that these may have completed, and it
-- is not longer than the model allows and has not the maximum of tokens.
pub maybe_stop_sequence-continues :
    (max_model_len : ℕ) (seq : Sequence) (new_char_count : ℕ) (p : StopParams) (seq' : Sequence)
    (reason : Option StopReason)
    → maybe_stop_sequence max_model_len seq new_char_count p ≡ ok (seq', reason)
    → is_finished seq' ≡ false
    → (get_output_len seq < p.min_tokens) × (seq' ≡ seq)
      ⊎ ((t : ℤ) × (data_get_last_token_id seq.seq_data ≡ ok t)
          × (seq' ≡ seq)
          × ((not p.ignore_eos && is_eos t seq.eos_token_id) ≡ false)
          × (mem_token t p.stop_token_ids ≡ false)
          × ((new_char_count ≡ 0) ⊎ AllAbsent seq.output_text new_char_count p.stop)
          × (get_len seq ≤ max_model_len)
          × (is_at (get_output_len seq) p.max_tokens ≡ false))
unfolding maybe_stop_sequence cap_length is_finished status_is_finished
maybe_stop_sequence-continues max_model_len seq new_char_count p seq' reason h runs =
    elim (Bool-cases (ltb (get_output_len seq) p.min_tokens)) [
      | inl e ↦ inl (ground (arith, h, e))
      | inr e ↦ elim (Result-cases (data_get_last_token_id seq.seq_data)) [
        | inl e1 ↦ ground (arith, h, e, e1.1)
        | inr (t, e1) ↦
            let stops : (mem_token t p.stop_token_ids ≡ false)
                × ((not p.ignore_eos && is_eos t seq.eos_token_id) ≡ false)
                × ((check_stop_strings seq new_char_count p).1 ≡ none) =
              (
                ground (arith, h, e, e1, runs),
                ground (arith, h, e, e1, runs),
                ground (arith, h, e, e1, runs),
              ) in
            let short : (ltb max_model_len (get_len seq) || is_at (get_output_len seq) p.max_tokens)
                ≡ false =
              ground (arith, h, e, e1, stops.0, stops.1, stops.2, runs) in
            let same : seq' ≡ seq = ground (arith, h, e, e1, stops.0, stops.1, stops.2, short) in
            inr (
              t,
              e1,
              same,
              stops.1,
              stops.0,
              check_stop_strings-AllAbsent seq new_char_count p stops.2,
              ground (arith, short),
              ground (arith, short),
            )
      ]
    ]
