-- ===== src/StopChecker/Outputs.antt =====
-- `process_outputs` of vllm_blend/vllm/engine/output_processor/multi_step.py, with the freeing of a finished
-- sequence. The new tokens are the first sample of each step.
use cache_blend.Prelude.{
  ℕ, Option, some, List, [], ◌∷◌, length, ltb, ◌==◌, Result, ok, raise, ◌>>=◌, ◌>>◌, assert,
  assertion_error, if◌then◌else◌,
}
use cache_blend.Prelude.Int.{ℤ}
use cache_blend.Prelude.Dict.{insert, nat_eq}
use cache_blend.Sequence.{Sequence, SequenceStatus, is_finished}
use cache_blend.Sequence.Group.{SequenceGroup, get_seqs}
use cache_blend.Interfaces.{BlockSpaceManager}
use cache_blend.Scheduler.{free_seq}
use cache_blend.StopChecker.{StopParams}
use cache_blend.StopChecker.Steps.{valid_tokens, process_seq_outputs}

module _ {M : Type 0} (manager : BlockSpaceManager M) (max_model_len : ℕ)
    (tokenizer_eos : Sequence → Option ℤ) (decode : Sequence → Sequence × ℕ) where
  -- The end of `_process_seq_outputs`.
  unfoldable pub free_if_finished : M → Sequence → Result (Sequence × M)
  unfolding free_seq
  free_if_finished m seq =
      if is_finished seq then (do m' ← free_seq manager m seq; ok (seq, m')) else ok (seq, m)

  unfoldable pub process_outputs :
      M → StopParams → SequenceGroup → List ℤ → Result (SequenceGroup × M)
  unfolding free_if_finished valid_tokens process_seq_outputs
  process_outputs m p group token_ids = do
    let seqs = get_seqs group (some SequenceStatus.running)
    assert (ltb 0 (length seqs))
    assert (length seqs == 1)
    assert (ltb 0 (length (valid_tokens token_ids)))
    elim seqs [
      | [] ↦ raise assertion_error
      | seq ∷ rest ↦ do
        seq1 ← process_seq_outputs max_model_len tokenizer_eos decode p seq (valid_tokens token_ids)
        (seq2, m') ← free_if_finished m seq1
        ok (record group { seqs_dict = insert seq2.seq_id seq2 group.seqs_dict }, m')
    ]
