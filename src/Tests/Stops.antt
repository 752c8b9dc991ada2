-- ===== src/Tests/Stops.antt =====
-- The stop checker and the multi-step processor on a sequence that was given two tokens.
use cache_blend.Prelude.{
  ℕ, ◌≤◌, ◌<◌, ◌≡◌, refl, ◌⊎◌, true, false, ◌&&◌, not, none, some, [], ◌∷◌, Result, ok, raise,
}
use cache_blend.Prelude.Int.{ℤ, pos, ◌+ℤ◌}
use cache_blend.Prelude.Dict.{lookup, int_eq}
use cache_blend.Block.{new_logical_block, append_tokens, get_num_empty_slots, is_full}
use cache_blend.Sequence.{
  Sequence, running, decode, data_get_last_token_id, get_len, data_get_len, is_finished,
  status_is_finished, append_token_id, append_tokens_to_blocks, append_loop, data_append_token_id,
  ensure_room, fill_last, append_logical_block,
}
use cache_blend.StopChecker.{
  StopParams, get_output_len, mem_token, is_eos, is_at, maybe_stop_sequence, check_stop_strings,
  check_strings, cap_length, find_last, find_at, starts_with,
}
use cache_blend.StopChecker.Continues.{AllAbsent, maybe_stop_sequence-continues}
use cache_blend.StopChecker.Steps.{
  max, append_valid, process_seq_outputs, within_max, up_to_eos, process_seq_outputs-bounded,
}

abbrev params : StopParams
params = record {
  min_tokens = 1;
  max_tokens = some 3;
  ignore_eos = false;
  detokenize = true;
  include_stop_str_in_output = false;
  stop_token_ids = pos 9 ∷ [];
  stop = (1 ∷ 2 ∷ []) ∷ [];
}

abbrev going : Sequence
going = record {
  seq_id = 1;
  prompt = [];
  block_size = 8;
  eos_token_id = some (pos 0);
  lora_request = none;
  seq_data = record {
    prompt_token_ids = pos 5 ∷ [];
    output_token_ids = pos 6 ∷ pos 7 ∷ [];
    cumulative_logprob = pos 0;
    num_computed_tokens = 2;
    stage = decode;
  };
  output_logprobs = [];
  output_text = 3 ∷ 1 ∷ [];
  logical_token_blocks = [];
  status = running;
}

going_on : maybe_stop_sequence 8 going 1 params ≡ ok (going, none)
unfolding maybe_stop_sequence get_output_len check_stop_strings check_strings cap_length find_last
    find_at starts_with data_get_last_token_id get_len data_get_len
going_on = refl

not_finished : is_finished going ≡ false
unfolding is_finished status_is_finished
not_finished = refl

maybe_stop_sequence-continues_example :
    (get_output_len going < 1) × (going ≡ going)
    ⊎ ((t : ℤ) × (data_get_last_token_id going.seq_data ≡ ok t)
        × (going ≡ going)
        × ((not false && is_eos t (some (pos 0))) ≡ false)
        × (mem_token t (pos 9 ∷ []) ≡ false)
        × ((◌≡◌ {A = ℕ} 1 0) ⊎ AllAbsent going.output_text 1 params.stop)
        × (get_len going ≤ 8)
        × (is_at (get_output_len going) (some 3) ≡ false))
maybe_stop_sequence-continues_example =
    maybe_stop_sequence-continues 8 going 1 params going none going_on not_finished

abbrev returned : Result Sequence → Sequence
returned (raise error) = going
returned (ok seq) = seq

abbrev ended : Sequence
ended = returned (
    process_seq_outputs 8 (λ s. some (pos 0)) (λ s. (s, 1)) params going
      (pos 4 ∷ pos 5 ∷ pos 6 ∷ []))

ended_returns :
    process_seq_outputs 8
      (λ s. some (pos 0))
      (λ s. (s, 1))
      params
      going
      (pos 4 ∷ pos 5 ∷ pos 6 ∷ [])
    ≡ ok ended
unfolding process_seq_outputs within_max up_to_eos append_valid append_token_id
    append_tokens_to_blocks append_loop data_append_token_id ensure_room fill_last
    append_logical_block append_tokens get_num_empty_slots is_full maybe_stop_sequence
    get_output_len check_stop_strings check_strings cap_length find_last find_at starts_with
    data_get_last_token_id get_len data_get_len is_finished status_is_finished lookup ◌+ℤ◌
    new_logical_block
ended_returns = refl

process_seq_outputs-bounded_example :
    (max_tokens : ℕ) × (some 3 ≡ some max_tokens)
    × (get_output_len ended ≤ max max_tokens (get_output_len going))
process_seq_outputs-bounded_example =
    process_seq_outputs-bounded 8 (λ s. some (pos 0)) (λ s. (s, 1)) (λ s. refl) params going
      (pos 4 ∷ pos 5 ∷ pos 6 ∷ []) ended ended_returns
