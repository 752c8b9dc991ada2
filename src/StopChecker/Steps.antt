-- ===== src/StopChecker/Steps.antt =====
-- `MultiStepOutputProcessor` of vllm_blend/vllm/engine/output_processor/multi_step.py: several new tokens of
-- one sequence. The detokenizer is a parameter: it returns the sequence with its new text and the number of
-- new characters. The end token is the tokenizer's; StopChecker/Outputs has the freeing.
use cache_blend.Prelude.{
  length-take_le, ℕ, suc, ◌+◌, ◌-◌, ◌≤◌, ◌≡◌, ◌∙◌, ap, true, false, Option, none, some, List, [],
  ◌∷◌, length, length-append, take, ltb, Result, ok, ◌>>=◌, or_raise, type_error, Result-cases,
  Option-cases, Bool-cases, inl, inr, if◌then◌else◌, arith,
}
use cache_blend.Prelude.Int.{ℤ, pos, negsuc}
use cache_blend.Prelude.Dict.{int_beq, int_eq}
use cache_blend.Sequence.{
  Sequence, append_token_id, append_tokens_to_blocks, data_append_token_id, is_finished,
}
use cache_blend.StopChecker.{StopParams, get_output_len, maybe_stop_sequence, is_eos}
use cache_blend.StopChecker.Continues.{maybe_stop_sequence-data}

-- The samples whose token is valid: -1 is not.
unfoldable pub valid_tokens : List ℤ → List ℤ
valid_tokens [] = []
valid_tokens (t ∷ ts) =
    let rest = valid_tokens ts in if int_beq t (negsuc 0) then rest else t ∷ rest

-- The tokens up to the first end token.
unfoldable pub up_to_eos : Option ℤ → List ℤ → List ℤ
up_to_eos eos [] = []
up_to_eos eos (t ∷ ts) = let rest = up_to_eos eos ts in if is_eos t eos then t ∷ [] else t ∷ rest

-- `output_token_ids[:remaining_tokens]` for a negative number of remaining tokens, and all else.
unfoldable pub within_max : ℕ → ℕ → List ℤ → List ℤ
within_max max_tokens output_len token_ids =
    if ltb max_tokens (output_len + length token_ids)
    then take (length token_ids - (output_len + length token_ids - max_tokens)) token_ids
    else token_ids

abbrev pub max : ℕ → ℕ → ℕ
max a b = if ltb a b then b else a

module _ (max_model_len : ℕ) (tokenizer_eos : Sequence → Option ℤ)
    (decode : Sequence → Sequence × ℕ) where
  -- The loop that appends the tokens.
  unfoldable pub append_valid : StopParams → Sequence → List ℤ → Result Sequence
  append_valid p seq [] = ok seq
  append_valid p seq (t ∷ ts) = do
    seq1 ←
        append_token_id seq t
          ((t, record { logprob = pos 0; rank = none; decoded_token = none }) ∷ [])
    let decoded : Sequence × ℕ = if p.detokenize then decode seq1 else (seq1, 0)
    (seq2, reason) ← maybe_stop_sequence max_model_len (decoded.0) (decoded.1) p
    elim (is_finished seq2) [ true ↦ ok seq2 | false ↦ append_valid p seq2 ts ]

  -- `_process_seq_outputs`.
  unfoldable pub process_seq_outputs : StopParams → Sequence → List ℤ → Result Sequence
  unfolding append_valid within_max up_to_eos
  process_seq_outputs p seq token_ids = do
    max_tokens ← or_raise p.max_tokens type_error
    let kept = within_max max_tokens (get_output_len seq) token_ids
    append_valid p seq (if p.ignore_eos then kept else up_to_eos (tokenizer_eos seq) kept)

length-up_to_eos : (eos : Option ℤ) (ts : List ℤ) → length (up_to_eos eos ts) ≤ length ts
unfolding up_to_eos
length-up_to_eos eos [] = omega arith
length-up_to_eos eos (t ∷ ts) = ground (arith, length-up_to_eos eos ts)

-- What is kept does not pass the maximum, if the sequence has not passed it; else nothing is kept.
within_max-length :
    (max_tokens output_len : ℕ) (ts : List ℤ)
    → output_len + length (within_max max_tokens output_len ts) ≤ max max_tokens output_len
unfolding within_max
within_max-length max_tokens output_len ts =
    let short = length-take_le (length ts - (output_len + length ts - max_tokens)) ts in
    ground arith

same_output_len :
    (s s' : Sequence) → s.seq_data ≡ s'.seq_data → get_output_len s ≡ get_output_len s'
unfolding get_output_len
same_output_len s s' e = ap (λ d. length d.output_token_ids) e

output_len-append_token_id :
    (seq : Sequence) (t : ℤ) (n : ℤ) (seq' : Sequence)
    → append_token_id seq t ((t, record { logprob = n; rank = none; decoded_token = none }) ∷ [])
      ≡ ok seq'
    → get_output_len seq' ≡ suc (get_output_len seq)
unfolding append_token_id get_output_len append_tokens_to_blocks data_append_token_id
output_len-append_token_id seq t n seq' h =
    let longer = length-append seq.seq_data.output_token_ids (t ∷ []) in ground (arith, h, longer)

module _ (max_model_len : ℕ) (tokenizer_eos : Sequence → Option ℤ)
    (decode : Sequence → Sequence × ℕ)
    (decode_keeps_data : (s : Sequence) → (decode s).0.seq_data ≡ s.seq_data) where
  append_valid-bounded :
      (p : StopParams) (seq : Sequence) (ts : List ℤ) (seq' : Sequence)
      → append_valid max_model_len tokenizer_eos decode p seq ts ≡ ok seq'
      → get_output_len seq' ≤ get_output_len seq + length ts
  unfolding append_valid
  append_valid-bounded p seq [] seq' h =
      let same : seq' ≡ seq = ground (arith, h) in rw same (omega arith)
  append_valid-bounded p seq (t ∷ ts) seq' h =
      elim (Result-cases (
        append_token_id seq t
          ((t, record { logprob = pos 0; rank = none; decoded_token = none }) ∷ []))) [
            | inl e ↦ ground (arith, h, e.1)
            | inr (seq1, e) ↦
                let grew = output_len-append_token_id seq t (pos 0) seq1 e in
                let decoded : Sequence × ℕ = if p.detokenize then decode seq1 else (seq1, 0) in
                let same : decoded.0.seq_data ≡ seq1.seq_data = elim (Bool-cases p.detokenize) [
                  | inl z ↦ rw z (decode_keeps_data seq1)
                  | inr z ↦ rw z
                ] in
                elim (Result-cases (maybe_stop_sequence max_model_len (decoded.0) (decoded.1) p)) [
                  | inl e1 ↦ ground (arith, h, e, e1.1)
                  | inr ((seq2, reason), e1) ↦
                      let kept =
                        maybe_stop_sequence-data max_model_len (decoded.0) (decoded.1) p seq2 reason
                          e1 in
                      let len = same_output_len seq2 seq1 (kept ∙ same) in
                      elim (Bool-cases (is_finished seq2)) [
                        | inl z ↦
                            let out : seq' ≡ seq2 = ground (arith, h, e, e1, z) in
                            rw out (omega (arith, grew, len))
                        | inr z ↦
                            let rest =
                              append_valid-bounded p seq2 ts seq' (ground (arith, h, e, e1, z)) in
                            omega (arith, rest, grew, len)
                      ]
                ]
          ]

  -- With a detokenizer that leaves the tokens alone: when `_process_seq_outputs` returns, there is a maximum
  -- of tokens, and the sequence has at most that many, or as many as before if it had more.
  pub process_seq_outputs-bounded :
      (p : StopParams) (seq : Sequence) (ts : List ℤ) (seq' : Sequence)
      → process_seq_outputs max_model_len tokenizer_eos decode p seq ts ≡ ok seq'
      → (max_tokens : ℕ) × (p.max_tokens ≡ some max_tokens)
        × (get_output_len seq' ≤ max max_tokens (get_output_len seq))
  unfolding process_seq_outputs
  process_seq_outputs-bounded p seq ts seq' h = elim (Option-cases p.max_tokens) [
    | inl e ↦ ground (arith, h, e)
    | inr (m, e) ↦
        let kept = within_max m (get_output_len seq) ts in
        let tokens = if p.ignore_eos then kept else up_to_eos (tokenizer_eos seq) kept in
        let cut : length tokens ≤ length kept = elim (Bool-cases p.ignore_eos) [
          | inl z ↦ rw z (omega arith)
          | inr z ↦ rw z (length-up_to_eos (tokenizer_eos seq) kept)
        ] in
        let bound = append_valid-bounded p seq tokens seq' (ground (arith, h, e)) in
        let few = within_max-length m (get_output_len seq) ts in
        (m, e, ground (arith, cut, bound, few))
  ]
