-- ===== src/Scheduler/Calls.antt =====
-- `_schedule` and `schedule` of vllm_blend/vllm/core/scheduler.py. The groups of the outputs are those
-- of the running queue, so that the time of a group's first schedule is set in both, by its request id.
use cache_blend.Prelude.{ℕ, some, List, [], ◌∷◌, mem, Result, ok, ◌>>=◌, if◌then◌else◌}
use cache_blend.Prelude.Int.{ℤ}
use cache_blend.Prelude.Dict.{Dict, insert, nat_eq}
use cache_blend.Sequence.{Sequence, SequenceData, SequenceStatus}
use cache_blend.Sequence.Group.{
  SequenceGroup, get_seqs, group_is_prefill, maybe_set_first_scheduled_time,
}
use cache_blend.Sequence.Metadata.{SequenceGroupMetadata, new_metadata}
use cache_blend.Interfaces.{BlockSpaceManager}
use cache_blend.Scheduler.{Scheduler, ScheduledSequenceGroup}
use cache_blend.Scheduler.Rounds.{SchedulerOutputs, schedule_default}
use cache_blend.Scheduler.Chunked.{schedule_chunked_prefill}

abbrev pub request_ids_of : List ScheduledSequenceGroup → List ℕ
request_ids_of [] = []
request_ids_of (s ∷ ss) = s.seq_group.request_id ∷ request_ids_of ss

-- The groups of the given requests, their first scheduled time set if it was not.
unfoldable pub mark_scheduled : ℤ → List ℕ → List SequenceGroup → List SequenceGroup
mark_scheduled now ids [] = []
mark_scheduled now ids (g ∷ gs) =
    (if mem g.request_id ids then maybe_set_first_scheduled_time g now else g)
    ∷ mark_scheduled now ids gs

unfoldable pub mark_outputs : ℤ → List ScheduledSequenceGroup → List ScheduledSequenceGroup
mark_outputs now [] = []
mark_outputs now (s ∷ ss) =
    record s { seq_group = maybe_set_first_scheduled_time s.seq_group now } ∷ mark_outputs now ss

module _ {M : Type 0} (manager : BlockSpaceManager M) where
  -- `_schedule`.
  unfoldable pub choose_schedule :
      (ℕ → ℤ) → ℤ → ℤ → Scheduler M → Result (SchedulerOutputs × Scheduler M)
  choose_schedule clock now later s =
      if s.scheduler_config.chunked_prefill_enabled
      then schedule_chunked_prefill manager clock now later s
      else schedule_default manager clock now later s

  -- The loop over the running sequences of a group: their data and block tables.
  unfoldable pub tables_of :
      ℤ
      → List Sequence
      → Dict ℕ SequenceData
      → Dict ℕ (List ℕ)
      → M
      → Result (Dict ℕ SequenceData × Dict ℕ (List ℕ) × M)
  tables_of now [] seq_data block_tables m = ok (seq_data, block_tables, m)
  tables_of now (seq ∷ seqs) seq_data block_tables m = do
    table ← manager.get_block_table m seq
    m' ← manager.access_all_blocks_in_seq m seq now
    tables_of now seqs (insert seq.seq_id seq.seq_data seq_data)
        (insert seq.seq_id table block_tables) m'

  -- The body of the loop over the scheduled groups.
  unfoldable pub metadata_of : ℤ → ScheduledSequenceGroup → M → Result (SequenceGroupMetadata × M)
  unfolding tables_of
  metadata_of now scheduled m = do
    let g = scheduled.seq_group
    let seqs = get_seqs g (some SequenceStatus.running)
    (seq_data, block_tables, m') ← tables_of now seqs [] [] m
    common ← manager.get_common_computed_block_ids m' seqs
    is_prompt ← group_is_prefill g
    metadata ←
        new_metadata g.request_id is_prompt seq_data g.sampling_params block_tables
          (some scheduled.token_chunk_size) g.lora_request common
    ok (metadata, m')

  unfoldable pub metadata_list :
      ℤ → List ScheduledSequenceGroup → M → Result (List SequenceGroupMetadata × M)
  unfolding metadata_of
  metadata_list now [] m = ok ([], m)
  metadata_list now (s ∷ ss) m = do
    (metadata, m') ← metadata_of now s m
    (rest, m'') ← metadata_list now ss m'
    ok (metadata ∷ rest, m'')

  -- The loop that marks the blocks of the batch.
  unfoldable pub mark_computed : List ScheduledSequenceGroup → M → Result M
  mark_computed [] m = ok m
  mark_computed (s ∷ ss) m = do
    m' ← manager.mark_blocks_as_computed m s.seq_group
    mark_computed ss m'

  -- `schedule`; `created` is the time read after `_schedule`.
  unfoldable pub schedule :
      (ℕ → ℤ)
      → ℤ
      → ℤ
      → ℤ
      → Scheduler M
      → Result (List SequenceGroupMetadata × SchedulerOutputs × Scheduler M)
  unfolding choose_schedule metadata_list mark_computed mark_scheduled mark_outputs
  schedule clock now later created s = do
    (outputs, s') ← choose_schedule clock now later s
    let batch = mark_outputs created outputs.scheduled_seq_groups
    (metadata, m) ← metadata_list created batch s'.block_manager
    m' ← mark_computed batch m
    ok (
      metadata,
      record outputs { scheduled_seq_groups = batch },
      record s' {
        running = mark_scheduled created (request_ids_of batch) s'.running;
        block_manager = m';
      },
    )
