-- ===== src/Sequence/Group.antt =====
-- `SequenceGroup` of vllm_blend/vllm/sequence.py: the sequences of one request, by their ids.
-- Times are integers; `best_of` and `use_beam_search` are the two fields that the group reads of its
-- sampling parameters.
use cache_blend.Prelude.{
  ℕ, ◌+◌, ◌≡◌, Bool, true, false, ◌&&◌, not, Option, none, some, List, [], ◌∷◌, length, ltb, Result,
  ok, raise, ◌>>=◌, ◌>>◌, check, or_raise, value_error, index_error, if◌then◌else◌, ◌==◌,
  Bool-cases, Option-cases, inl, inr, ◌⊎◌, arith,
}
use cache_blend.Prelude.Int.{ℤ, ◌-ℤ◌}
use cache_blend.Prelude.Dict.{
  Dict, lookup, contains, insert, delete, nat_eq, lookup-insert, lookup-delete, contains-lookup,
  contains-insert, delete-insert, length-insert, length-delete, delete-Distinct, Distinct,
}
use cache_blend.Sequence.{
  Sequence, SequenceStatus, waiting, running, swapped, finished_stopped, finished_length_capped,
  finished_aborted, finished_ignored, is_finished, is_prefill, update_num_computed_tokens,
  get_num_uncomputed_tokens,
}

pub record SamplingParams : Type 0 where
  pub best_of : ℕ
  pub use_beam_search : Bool

pub record RequestMetrics : Type 0 where
  pub arrival_time : ℤ
  pub last_token_time : ℤ
  pub first_scheduled_time : Option ℤ
  pub first_token_time : Option ℤ
  pub time_in_queue : Option ℤ
  pub finished_time : Option ℤ

pub record SequenceGroup : Type 0 where
  pub request_id : ℕ
  pub seqs_dict : Dict ℕ Sequence
  pub sampling_params : SamplingParams
  pub metrics : RequestMetrics
  pub lora_request : Option ℕ

unfoldable pub new_seqs_dict : List Sequence → Dict ℕ Sequence → Dict ℕ Sequence
new_seqs_dict [] d = d
new_seqs_dict (s ∷ ss) d = new_seqs_dict ss (insert s.seq_id s d)

-- `SequenceGroup.__init__`.
unfoldable pub new_sequence_group :
    ℕ → List Sequence → SamplingParams → ℤ → Option ℕ → SequenceGroup
unfolding new_seqs_dict
new_sequence_group request_id seqs sampling_params arrival_time lora_request = record {
  request_id = request_id;
  seqs_dict = new_seqs_dict seqs [];
  sampling_params = sampling_params;
  metrics = record {
    arrival_time = arrival_time;
    last_token_time = arrival_time;
    first_scheduled_time = none;
    first_token_time = none;
    time_in_queue = none;
    finished_time = none;
  };
  lora_request = lora_request;
}

abbrev pub status_beq : SequenceStatus → SequenceStatus → Bool
status_beq waiting waiting = true
status_beq running running = true
status_beq swapped swapped = true
status_beq finished_stopped finished_stopped = true
status_beq finished_length_capped finished_length_capped = true
status_beq finished_aborted finished_aborted = true
status_beq finished_ignored finished_ignored = true
status_beq _ _ = false

-- A list comprehension over the values of a dictionary.
unfoldable pub values_where : (Sequence → Bool) → Dict ℕ Sequence → List Sequence
values_where p [] = []
values_where p ((k, s) ∷ d) = let rest = values_where p d in if p s then s ∷ rest else rest

unfoldable pub get_seqs : SequenceGroup → Option SequenceStatus → List Sequence
unfolding values_where
get_seqs g status = elim status [
  | none ↦ values_where (λ _. true) g.seqs_dict
  | some st ↦ values_where (λ s. status_beq s.status st) g.seqs_dict
]

unfoldable pub get_unfinished_seqs : SequenceGroup → List Sequence
unfolding values_where
get_unfinished_seqs g = values_where (λ s. not (is_finished s)) g.seqs_dict

unfoldable get_finished_seqs : SequenceGroup → List Sequence
unfolding values_where
get_finished_seqs g = values_where is_finished g.seqs_dict

unfoldable pub num_seqs : SequenceGroup → Option SequenceStatus → ℕ
unfolding get_seqs
num_seqs g status = elim status [
  | none ↦ length g.seqs_dict
  | some st ↦ length (get_seqs g (some st))
]

unfoldable pub num_unfinished_seqs : SequenceGroup → ℕ
unfolding get_unfinished_seqs
num_unfinished_seqs g = length (get_unfinished_seqs g)

unfoldable num_finished_seqs : SequenceGroup → ℕ
unfolding get_finished_seqs
num_finished_seqs g = length (get_finished_seqs g)

unfoldable pub find : SequenceGroup → ℕ → Result Sequence
find g seq_id = or_raise (lookup seq_id g.seqs_dict) value_error

unfoldable pub add : SequenceGroup → Sequence → Result SequenceGroup
add g seq = do
  check (not (contains seq.seq_id g.seqs_dict)) value_error
  ok (record g { seqs_dict = insert seq.seq_id seq g.seqs_dict })

unfoldable pub remove : SequenceGroup → ℕ → Result SequenceGroup
remove g seq_id = do
  check (contains seq_id g.seqs_dict) value_error
  ok (record g { seqs_dict = delete seq_id g.seqs_dict })

unfoldable pub all_finished : List Sequence → Bool
all_finished [] = true
all_finished (s ∷ ss) = is_finished s && all_finished ss

-- `SequenceGroup.is_finished`.
unfoldable pub group_is_finished : SequenceGroup → Bool
unfolding all_finished get_seqs
group_is_finished g = all_finished (get_seqs g none)

-- `SequenceGroup.is_prefill`.
unfoldable pub group_is_prefill : SequenceGroup → Result Bool
unfolding get_seqs
group_is_prefill g = elim (get_seqs g none) [ [] ↦ raise index_error | s ∷ _ ↦ ok (is_prefill s) ]

update_all : ℕ → Dict ℕ Sequence → Result (Dict ℕ Sequence)
update_all n [] = ok []
update_all n ((k, s) ∷ d) = do
  s' ←
      (if is_finished s
        then ok s
        else (update_num_computed_tokens s.seq_data n >>= λ sd. ok (record s { seq_data = sd })))
  d' ← update_all n d
  ok ((k, s') ∷ d')

-- `SequenceGroup.update_num_computed_tokens`.
unfoldable pub group_update_num_computed_tokens : SequenceGroup → ℕ → Result SequenceGroup
unfolding update_all
group_update_num_computed_tokens g n = do
  d ← update_all n g.seqs_dict
  ok (record g { seqs_dict = d })

uncomputed_sum : List Sequence → ℕ
uncomputed_sum [] = 0
uncomputed_sum (s ∷ ss) = get_num_uncomputed_tokens s.seq_data + uncomputed_sum ss

-- `SequenceGroup.get_num_uncomputed_tokens`.
unfoldable pub group_get_num_uncomputed_tokens : SequenceGroup → ℕ
unfolding uncomputed_sum get_unfinished_seqs
group_get_num_uncomputed_tokens g = uncomputed_sum (get_unfinished_seqs g)

unfoldable pub get_max_num_running_seqs : SequenceGroup → ℕ
unfolding num_seqs num_unfinished_seqs
get_max_num_running_seqs g =
    if g.sampling_params.use_beam_search
    then g.sampling_params.best_of
    else if ltb (num_seqs g none) g.sampling_params.best_of
    then g.sampling_params.best_of
    else num_unfinished_seqs g

unfoldable pub get_last_latency : SequenceGroup → ℤ → ℤ × SequenceGroup
get_last_latency g now = (
  now -ℤ g.metrics.last_token_time,
  record g { metrics = record (g.metrics) { last_token_time = now } },
)

unfoldable pub maybe_set_first_token_time : SequenceGroup → ℤ → SequenceGroup
maybe_set_first_token_time g time = elim g.metrics.first_token_time [
  | none ↦ record g { metrics = record (g.metrics) { first_token_time = some time } }
  | some _ ↦ g
]

unfoldable pub maybe_set_first_scheduled_time : SequenceGroup → ℤ → SequenceGroup
maybe_set_first_scheduled_time g time = elim g.metrics.first_scheduled_time [
  | none ↦ record g {
    metrics = record (g.metrics) {
      first_scheduled_time = some time;
      time_in_queue = some (time -ℤ g.metrics.arrival_time);
    };
  }
  | some _ ↦ g
]

-- `add` of a sequence under an id that is taken is refused. Under a free one it is found afterwards, the
-- others as before, and the group has one sequence more; removing it again gives the old group back.
pub find-add :
    (g : SequenceGroup) (seq : Sequence) (j : ℕ)
    → ((contains seq.seq_id g.seqs_dict ≡ true) × (add g seq ≡ raise value_error))
      ⊎ ((g' : SequenceGroup) × (contains seq.seq_id g.seqs_dict ≡ false)
          × (add g seq ≡ ok g')
          × (find g' j ≡ (if seq.seq_id == j then ok seq else find g j))
          × (num_seqs g' none ≡ num_seqs g none + 1)
          × (remove g' seq.seq_id ≡ ok g))
unfolding add find num_seqs remove
find-add g seq j = elim (Bool-cases (contains seq.seq_id g.seqs_dict)) [
  | inl h ↦ inl (h, rw h)
  | inr h ↦
      let twice = contains-insert seq.seq_id seq.seq_id seq g.seqs_dict in
      let back = delete-insert seq.seq_id seq g.seqs_dict h in
      inr (
        record g { seqs_dict = insert seq.seq_id seq g.seqs_dict },
        h,
        rw h,
        ground (arith, lookup-insert seq.seq_id j seq g.seqs_dict),
        ground (arith, h, length-insert seq.seq_id seq g.seqs_dict),
        ground (arith, twice, back),
      )
]

-- `remove` of an id that is not there is refused, as `find` refuses it. An id that `find` knows is free
-- afterwards, the others are found as before, and, as no id stands twice in a dictionary, the group has one
-- sequence fewer.
pub find-remove :
    (g : SequenceGroup) (k j : ℕ)
    → Distinct g.seqs_dict
    → ((find g k ≡ raise value_error) × (remove g k ≡ raise value_error))
      ⊎ ((seq : Sequence) × (g' : SequenceGroup) × (find g k ≡ ok seq)
          × (remove g k ≡ ok g')
          × (find g' j ≡ (if k == j then raise value_error else find g j))
          × (num_seqs g' none + 1 ≡ num_seqs g none)
          × Distinct g'.seqs_dict)
unfolding remove find num_seqs
find-remove g k j d = elim (Option-cases (lookup k g.seqs_dict)) [
  | inl e ↦ inl (rw e, ground (arith, e, contains-lookup k g.seqs_dict))
  | inr (seq, e) ↦
      let there : contains k g.seqs_dict ≡ true =
        ground (arith, e, contains-lookup k g.seqs_dict) in
      inr (
        seq,
        record g { seqs_dict = delete k g.seqs_dict },
        rw e,
        rw there,
        ground (arith, lookup-delete k j g.seqs_dict),
        ground (arith, length-delete k g.seqs_dict d there),
        delete-Distinct k g.seqs_dict d,
      )
]
