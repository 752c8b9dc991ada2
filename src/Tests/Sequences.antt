-- ===== src/Tests/Sequences.antt =====
-- Sequences over blocks of two tokens.
use mathlib.Core.List.{◌++◌}
use cache_blend.Prelude.{
  ◌+◌, ◌<◌, ◌≡◌, refl, ◌⊎◌, inr, true, false, none, some, List, [], ◌∷◌, length, ok, raise,
  assertion_error, value_error, arith, if◌then◌else◌, ◌==◌,
}
use cache_blend.Prelude.Int.{ℤ, pos, negsuc}
use cache_blend.Prelude.Dict.{Dict, Distinct, lookup, contains, int_eq, nat_eq}
use cache_blend.Utils.{cdiv}
use cache_blend.Block.{LogicalTokenBlock, append_tokens, get_token_ids}
use cache_blend.Block.Logical.{IsSound, append_tokens_all}
use cache_blend.Sequence.{
  Sequence, SequenceData, Logprob, prefill, decode, waiting, new_sequence, append_token_id,
  append_tokens_to_blocks, data_get_token_ids, data_get_len, update_num_computed_tokens,
  new_sequence_data, get_num_new_tokens,
}
use cache_blend.Sequence.Slots.{contents}
use cache_blend.Sequence.Synced.{IsSynced, new_sequence-IsSynced, append_token_id-IsSynced}
use cache_blend.Sequence.Data.{
  DataCall, computed, sampled, restarted, data_run, IsStaged, data_run-IsStaged,
}
use cache_blend.Sequence.Group.{SequenceGroup, find, add, remove, find-add, find-remove, num_seqs}

abbrev half_full : LogicalTokenBlock
half_full = record {
  block_number = 0;
  block_size = 2;
  token_ids = pos 5 ∷ negsuc 0 ∷ [];
  num_tokens = 1;
}

append_tokens_all_example :
    ((2 < 2) × (append_tokens half_full (pos 6 ∷ []) ≡ raise assertion_error))
    ⊎ ((c : LogicalTokenBlock) × (append_tokens half_full (pos 6 ∷ []) ≡ ok c)
        × IsSound c
        × (get_token_ids c ≡ get_token_ids half_full ++ pos 6 ∷ []))
append_tokens_all_example = append_tokens_all half_full (pos 6 ∷ []) (refl, omega arith)

abbrev prompt : List ℤ
prompt = pos 5 ∷ pos 6 ∷ pos 7 ∷ []

new_sequence-IsSynced_example :
    (s : Sequence) × (new_sequence 1 [] prompt 2 none none ≡ ok s)
    × IsSynced s
    × (data_get_token_ids s.seq_data ≡ prompt)
    × (s.seq_data.output_token_ids ≡ [])
    × (s.block_size ≡ 2)
    × (contents s.logical_token_blocks ≡ prompt)
    × (length s.logical_token_blocks ≡ cdiv 3 2)
new_sequence-IsSynced_example = new_sequence-IsSynced 1 [] prompt 2 none none (omega arith)

abbrev two_blocks : List LogicalTokenBlock
two_blocks =
    record { block_number = 0; block_size = 2; token_ids = pos 5 ∷ pos 6 ∷ []; num_tokens = 2 }
    ∷ record { block_number = 1; block_size = 2; token_ids = pos 7 ∷ negsuc 0 ∷ []; num_tokens = 1 }
    ∷ []

abbrev three_tokens : Sequence
three_tokens = record {
  seq_id = 1;
  prompt = [];
  block_size = 2;
  eos_token_id = none;
  lora_request = none;
  seq_data = record {
    prompt_token_ids = prompt;
    output_token_ids = [];
    cumulative_logprob = pos 0;
    num_computed_tokens = 0;
    stage = prefill;
  };
  output_logprobs = [];
  output_text = [];
  logical_token_blocks = two_blocks;
  status = waiting;
}

-- What the constructor makes of three tokens.
new_three : new_sequence 1 [] prompt 2 none none ≡ ok three_tokens
unfolding new_sequence cache_blend.Sequence.append_loop cache_blend.Sequence.fill_last
    cache_blend.Sequence.ensure_room cache_blend.Sequence.append_logical_block
    cache_blend.Block.new_logical_block cache_blend.Block.is_full
    cache_blend.Block.get_num_empty_slots append_tokens
new_three = refl

three_tokens-IsSynced : IsSynced three_tokens
unfolding data_get_token_ids cache_blend.Sequence.Slots.contents get_token_ids
three_tokens-IsSynced = record {
  sized = omega arith;
  filled = inr (record {
    front =
        record { block_number = 0; block_size = 2; token_ids = pos 5 ∷ pos 6 ∷ []; num_tokens = 2 }
        ∷ [];
    back = record {
      block_number = 1;
      block_size = 2;
      token_ids = pos 7 ∷ negsuc 0 ∷ [];
      num_tokens = 1;
    };
    split = refl;
    full = omega arith;
    block = omega arith;
    used = omega arith;
  });
  holds = refl;
}

abbrev sampled_logprobs : Dict ℤ Logprob
sampled_logprobs = (pos 8, record { logprob = negsuc 3; rank = some 1; decoded_token = none }) ∷ []

append_token_id-IsSynced_example :
    ((lookup (pos 8) sampled_logprobs ≡ none)
      × (append_token_id three_tokens (pos 8) sampled_logprobs ≡ raise assertion_error))
    ⊎ ((lp : Logprob) × (s' : Sequence) × (lookup (pos 8) sampled_logprobs ≡ some lp)
        × (append_token_id three_tokens (pos 8) sampled_logprobs ≡ ok s')
        × IsSynced s'
        × (data_get_token_ids s'.seq_data ≡ data_get_token_ids three_tokens.seq_data ++ pos 8 ∷ []))
append_token_id-IsSynced_example =
    append_token_id-IsSynced three_tokens (pos 8) sampled_logprobs three_tokens-IsSynced

abbrev half_computed : Sequence
half_computed = record three_tokens {
  seq_data = record {
    prompt_token_ids = prompt;
    output_token_ids = [];
    cumulative_logprob = pos 0;
    num_computed_tokens = 2;
    stage = prefill;
  };
}

data_run-IsStaged_example :
    IsStaged half_computed.seq_data
    × (((half_computed.seq_data.stage ≡ prefill)
          × (0 < get_num_new_tokens half_computed)
          × (2 + get_num_new_tokens half_computed ≡ data_get_len half_computed.seq_data))
        ⊎ ((half_computed.seq_data.stage ≡ decode) × (get_num_new_tokens half_computed ≡ 1)))
unfolding data_run cache_blend.Sequence.Data.data_step update_num_computed_tokens new_sequence_data
data_run-IsStaged_example =
    data_run-IsStaged half_computed prompt (computed 2 ∷ []) (omega arith) refl

abbrev group : SequenceGroup
group = record {
  request_id = 1;
  seqs_dict = (1, three_tokens) ∷ [];
  sampling_params = record { best_of = 1; use_beam_search = false };
  metrics = record {
    arrival_time = pos 0;
    last_token_time = pos 0;
    first_scheduled_time = none;
    first_token_time = none;
    time_in_queue = none;
    finished_time = none;
  };
  lora_request = none;
}

find-add_example :
    ((contains 1 group.seqs_dict ≡ true) × (add group three_tokens ≡ raise value_error))
    ⊎ ((g' : SequenceGroup) × (contains 1 group.seqs_dict ≡ false)
        × (add group three_tokens ≡ ok g')
        × (find g' 2 ≡ (if 1 == 2 then ok three_tokens else find group 2))
        × (num_seqs g' none ≡ num_seqs group none + 1)
        × (remove g' 1 ≡ ok group))
find-add_example = find-add group three_tokens 2

find-remove_example :
    ((find group 1 ≡ raise value_error) × (remove group 1 ≡ raise value_error))
    ⊎ ((seq : Sequence) × (g' : SequenceGroup) × (find group 1 ≡ ok seq)
        × (remove group 1 ≡ ok g')
        × (find g' 1 ≡ (if 1 == 1 then raise value_error else find group 1))
        × (num_seqs g' none + 1 ≡ num_seqs group none)
        × Distinct g'.seqs_dict)
unfolding contains
find-remove_example = find-remove group 1 1 (refl, tt)
