-- ===== src/StopChecker.antt =====
-- `StopChecker` of vllm_blend/vllm/engine/output_processor/stop_checker.py: whether a sequence ends after a
-- token. A text is a list of characters; the reason of a stop is returned beside the sequence.
pub mod Continues
pub mod Steps
pub mod Outputs
use cache_blend.Prelude.{
  ℕ, zero, suc, ◌+◌, ◌-◌, Bool, true, false, ◌&&◌, ◌||◌, not, Option, none, some, List, [], ◌∷◌,
  length, take, drop, ltb, leb, ◌==◌, Result, ok, raise, ◌>>=◌, if◌then◌else◌,
}
use cache_blend.Prelude.Int.{ℤ}
use cache_blend.Prelude.Dict.{int_beq}
use cache_blend.Sequence.{
  Sequence, SequenceStatus, finished_stopped, finished_length_capped, data_get_last_token_id,
  get_len,
}

-- The fields of `SamplingParams` that the checker reads.
pub record StopParams : Type 0 where
  pub min_tokens : ℕ
  pub max_tokens : Option ℕ
  pub ignore_eos : Bool
  pub detokenize : Bool
  pub include_stop_str_in_output : Bool
  pub stop_token_ids : List ℤ
  pub stop : List (List ℕ)

pub data StopReason : Type 0 where
  stop_token : ℤ → StopReason
  stop_string : List ℕ → StopReason

unfoldable pub get_output_len : Sequence → ℕ
get_output_len seq = length seq.seq_data.output_token_ids

abbrev pub mem_token : ℤ → List ℤ → Bool
mem_token t [] = false
mem_token t (x ∷ xs) = int_beq x t || mem_token t xs

unfoldable pub starts_with : List ℕ → List ℕ → Bool
starts_with [] text = true
starts_with (c ∷ cs) [] = false
starts_with (c ∷ cs) (d ∷ ds) = c == d && starts_with cs ds

-- The first place of a string in a text, whose first character has the number `i`.
unfoldable pub find_at : List ℕ → List ℕ → ℕ → Option ℕ
unfolding starts_with
find_at s [] i = elim s [ [] ↦ some i | c ∷ cs ↦ none ]
find_at s (d ∷ ds) i = if starts_with s (d ∷ ds) then some i else find_at s ds (suc i)

-- `text.find(s, -back)`, for `back` above 0: a start before the text is its first character.
unfoldable pub find_last : List ℕ → List ℕ → ℕ → Option ℕ
unfolding find_at
find_last text s back = let start = length text - back in find_at s (drop start text) start

-- Where the text is cut for a stop string at `stop_index`: after it, or before it.
unfoldable pub cut_text : List ℕ → List ℕ → ℕ → Bool → List ℕ
cut_text text stop_str stop_index include =
    if include
    then (if leb (length text) (stop_index + length stop_str)
        then text
        else take (stop_index + length stop_str) text)
    else take stop_index text

-- The loop of `_check_stop_strings` over the stop strings.
unfoldable pub check_strings : Sequence → ℕ → Bool → List (List ℕ) → Sequence × Option (List ℕ)
unfolding find_last cut_text
check_strings seq new_char_count include [] = (seq, none)
check_strings seq new_char_count include (stop_str ∷ stops) =
    elim (find_last seq.output_text stop_str (new_char_count + length stop_str)) [
      | none ↦ check_strings seq new_char_count include stops
      | some stop_index ↦ (
        record seq { output_text = cut_text seq.output_text stop_str stop_index include },
        some stop_str,
      )
    ]

unfoldable pub check_stop_strings : Sequence → ℕ → StopParams → Sequence × Option (List ℕ)
unfolding check_strings
check_stop_strings seq new_char_count p =
    if new_char_count == 0
    then (seq, none)
    else check_strings seq new_char_count p.include_stop_str_in_output p.stop

abbrev pub is_eos : ℤ → Option ℤ → Bool
is_eos t none = false
is_eos t (some e) = int_beq t e

abbrev pub is_at : ℕ → Option ℕ → Bool
is_at n none = false
is_at n (some m) = n == m

-- The last two checks, on the lengths.
unfoldable pub cap_length : ℕ → Sequence → StopParams → Sequence
unfolding get_output_len get_len
cap_length max_model_len seq p =
    if ltb max_model_len (get_len seq) || is_at (get_output_len seq) p.max_tokens
    then record seq { status = finished_length_capped }
    else seq

unfoldable pub maybe_stop_sequence :
    ℕ → Sequence → ℕ → StopParams → Result (Sequence × Option StopReason)
unfolding get_output_len check_stop_strings cap_length
maybe_stop_sequence max_model_len seq new_char_count p =
    if ltb (get_output_len seq) p.min_tokens then ok (seq, none) else (do
      last_token_id ← data_get_last_token_id seq.seq_data
      ok (
          if not p.ignore_eos && is_eos last_token_id seq.eos_token_id
          then (record seq { status = finished_stopped }, none)
          else if mem_token last_token_id p.stop_token_ids
          then (
            record seq {
              status = finished_stopped;
              output_text =
                  if not (new_char_count == 0) && not p.include_stop_str_in_output
                  then take (length seq.output_text - new_char_count) seq.output_text
                  else seq.output_text;
            },
            some (stop_token last_token_id),
          )
          else elim (check_stop_strings seq new_char_count p).1 [
            | some s ↦ (
              record ((check_stop_strings seq new_char_count p).0) { status = finished_stopped },
              some (stop_string s),
            )
            | none ↦ (cap_length max_model_len seq p, none)
          ]))
