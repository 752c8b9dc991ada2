-- ===== src/Sequence/Data.antt =====
-- How the count of computed tokens and the stage of a sequence move together (`SequenceData` and
-- `get_num_new_tokens` of vllm_blend/vllm/sequence.py).
use cache_blend.Prelude.{
  ℕ, ◌+◌, ◌≤◌, ◌<◌, ◌≡◌, refl, List, [], ◌∷◌, length, length-append, Result, ok, ◌>>=◌, inl, ◌⊎◌,
  arith, bind_ok,
}
use cache_blend.Prelude.Int.{ℤ}
use cache_blend.Sequence.{
  SequenceData, Sequence, prefill, decode, new_sequence_data, data_append_token_id, data_get_len,
  update_num_computed_tokens, data_reset_state_for_recompute, get_num_new_tokens,
  get_num_uncomputed_tokens,
}

-- What the engine does to the data of a sequence: a token is sampled, a forward pass has computed
-- some tokens, the sequence is preempted and starts again.
pub data DataCall : Type 0 where
  sampled : ℤ → ℤ → DataCall
  computed : ℕ → DataCall
  restarted : DataCall

unfoldable pub data_step : SequenceData → DataCall → Result SequenceData
data_step d (sampled t lp) = ok (data_append_token_id d t lp)
data_step d (computed n) = update_num_computed_tokens d n
data_step d restarted = ok (data_reset_state_for_recompute d)

unfoldable pub data_run : SequenceData → List DataCall → Result SequenceData
data_run d [] = ok d
data_run d (c ∷ cs) = data_step d c >>= λ d'. data_run d' cs

-- No more tokens are computed than there are; a sequence in its prefill has some left, and one that decodes
-- has its whole prompt computed.
pub record IsStaged (d : SequenceData) : Type 0 where
  pub prompted : 0 < length d.prompt_token_ids
  pub within : d.num_computed_tokens ≤ data_get_len d
  pub staged :
      ((d.stage ≡ prefill) × (d.num_computed_tokens < data_get_len d))
      ⊎ ((d.stage ≡ decode) × (length d.prompt_token_ids ≤ d.num_computed_tokens))

append-IsStaged :
    (d : SequenceData) (t lp : ℤ) → IsStaged d → IsStaged (data_append_token_id d t lp)
unfolding data_append_token_id data_get_len
append-IsStaged d t lp v = record {
  prompted = v.prompted;
  within = omega (arith, length-append d.output_token_ids (t ∷ []), v.within);
  staged = grind (arith, length-append d.output_token_ids (t ∷ []), v.staged);
}

update-IsStaged :
    (d : SequenceData) (n : ℕ) {d' : SequenceData}
    → IsStaged d
    → update_num_computed_tokens d n ≡ ok d'
    → IsStaged d'
unfolding update_num_computed_tokens data_get_len get_num_uncomputed_tokens
update-IsStaged d n v h = ground (arith, v.prompted, v.within, v.staged)

reset-IsStaged : (d : SequenceData) → IsStaged d → IsStaged (data_reset_state_for_recompute d)
unfolding data_reset_state_for_recompute data_get_len
reset-IsStaged d v = record {
  prompted = v.prompted;
  within = omega arith;
  staged = inl (refl, omega (arith, v.prompted));
}

step-IsStaged :
    (d : SequenceData) (c : DataCall) {d' : SequenceData}
    → IsStaged d
    → data_step d c ≡ ok d'
    → IsStaged d'
unfolding data_step
step-IsStaged d (sampled t lp) v h = ground (arith, append-IsStaged d t lp v)
step-IsStaged d (computed n) v h = update-IsStaged d n v h
step-IsStaged d restarted v h = ground (arith, reset-IsStaged d v)

run-IsStaged :
    (d : SequenceData) (cs : List DataCall) {d' : SequenceData}
    → IsStaged d
    → data_run d cs ≡ ok d'
    → IsStaged d'
unfolding data_run
run-IsStaged d [] v h = ground arith
run-IsStaged d (c ∷ cs) v h =
    let (m, first, rest) = bind_ok (data_step d c) (λ d'. data_run d' cs) h in
    run-IsStaged m cs (step-IsStaged d c v first) rest

-- From a prompt that is not empty, whatever the engine does without an error, no more tokens are
-- computed than there are; the sequence is in its prefill and has tokens left, all of which
-- `get_num_new_tokens` asks for, or it decodes, its prompt is computed, and one token is asked for.
pub data_run-IsStaged :
    (s : Sequence) (prompt : List ℤ) (cs : List DataCall)
    → 0 < length prompt
    → data_run (new_sequence_data prompt) cs ≡ ok s.seq_data
    → IsStaged s.seq_data
      × (((s.seq_data.stage ≡ prefill)
            × (0 < get_num_new_tokens s)
            × (s.seq_data.num_computed_tokens + get_num_new_tokens s ≡ data_get_len s.seq_data))
          ⊎ ((s.seq_data.stage ≡ decode) × (get_num_new_tokens s ≡ 1)))
unfolding get_num_new_tokens get_num_uncomputed_tokens
data_run-IsStaged s prompt cs pos h =
    (staged, unfold data_get_len in ground (arith, staged.staged, staged.within))
  where
    start : IsStaged (new_sequence_data prompt)
    start =
        unfold new_sequence_data data_get_len in
        record { prompted = pos; within = omega arith; staged = inl (refl, omega (arith, pos)) }

    staged : IsStaged s.seq_data
    staged = run-IsStaged (new_sequence_data prompt) cs start h
