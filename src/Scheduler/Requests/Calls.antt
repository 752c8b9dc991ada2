-- ===== src/Scheduler/Requests/Calls.antt =====
-- The rounds with chunked prompts and the calls of `schedule` in vllm_blend/vllm/core/scheduler.py lose
-- and double no request.
use cache_blend.Prelude.{
  ℕ, ◌+◌, ◌≤◌, ◌≡◌, refl, true, false, some, List, [], ◌∷◌, ok, Result-cases, Bool-cases, inl, inr,
  arith,
}
use cache_blend.Prelude.Int.{ℤ, pos}
use cache_blend.Sequence.Group.{SequenceGroup, maybe_set_first_scheduled_time}
use cache_blend.Sequence.Metadata.{SequenceGroupMetadata, new_metadata}
use cache_blend.Interfaces.{BlockSpaceManager}
use cache_blend.Scheduler.{Scheduler, ScheduledSequenceGroup, get_num_lookahead_slots}
use cache_blend.Scheduler.Budget.{new_budget}
use cache_blend.Scheduler.Running.{RunningState, schedule_running}
use cache_blend.Scheduler.Swapped.{SwappedState}
use cache_blend.Scheduler.Prefills.{PrefillState, schedule_prefills}
use cache_blend.Scheduler.Rounds.{SchedulerOutputs, post_init, groups_of, swapped_part}
use cache_blend.Scheduler.Chunked.{
  schedule_chunked_prefill, finish_chunked, chunked_outputs, chunked_queues,
}
use cache_blend.Scheduler.Calls.{
  choose_schedule, schedule, mark_scheduled, mark_outputs, request_ids_of, metadata_of,
  metadata_list, mark_computed,
}
use cache_blend.Scheduler.Requests.{occurs, occurs-nil, counts}
use cache_blend.Scheduler.Requests.Running.{running_total, occurs-schedule_running}
use cache_blend.Scheduler.Requests.Swapped.{swapped_total}
use cache_blend.Scheduler.Requests.Prefills.{prefill_total, SameQueues, occurs-schedule_prefills}
use cache_blend.Scheduler.Requests.Rounds.{
  queued, occurs-post_init, total-swapped_part, occurs-schedule_default,
}

module _ {M : Type 0} (manager : BlockSpaceManager M) (i : ℕ) where
  total-chunked_queues :
      (s : Scheduler M) (qp : List SequenceGroup) (p : PrefillState M) (qr : List SequenceGroup)
      (r : RunningState M) (qs : List SequenceGroup) (w : SwappedState M)
      → (queued i (chunked_queues manager qp p qr r qs w)
            + occurs i (chunked_outputs manager s p r w).ignored_seq_groups
          ≡ occurs i qp
            + prefill_total i p
            + (occurs i qr + running_total i r)
            + (occurs i qs + swapped_total i w))
        × (occurs i (groups_of (chunked_outputs manager s p r w).scheduled_seq_groups)
            ≤ occurs i (chunked_queues manager qp p qr r qs w).running)
  unfolding chunked_queues chunked_outputs queued prefill_total running_total swapped_total
  total-chunked_queues s qp p qr r qs w = (omega counts, omega counts)

  total-finish_chunked :
      (s : Scheduler M) (qp : List SequenceGroup) (p : PrefillState M) (qr : List SequenceGroup)
      (r : RunningState M) (qs : List SequenceGroup) (w : SwappedState M) (o : SchedulerOutputs)
      (s' : Scheduler M)
      → finish_chunked manager s qp p qr r qs w ≡ ok (o, s')
      → (queued i s' + occurs i o.ignored_seq_groups
          ≡ occurs i qp
            + prefill_total i p
            + (occurs i qr + running_total i r)
            + (occurs i qs + swapped_total i w))
        × (occurs i (groups_of o.scheduled_seq_groups) ≤ occurs i s'.running)
  unfolding finish_chunked
  total-finish_chunked s qp p qr r qs w o s' h =
      elim (Result-cases (post_init (chunked_outputs manager s p r w))) [
        | inl e ↦ ground (arith, h, e.1)
        | inr (o', e) ↦
            let (ignored, scheduled) = occurs-post_init i (chunked_outputs manager s p r w) e in
            let (t, runs) = total-chunked_queues s qp p qr r qs w in
            ground (arith, h, e, ignored, scheduled, t, runs)
      ]

  -- A round of `_schedule_chunked_prefill` that ends without an error keeps each request in the three
  -- queues as often as before, but for the prompts that it ignores; what it schedules runs.
  pub occurs-schedule_chunked_prefill :
      (clock : ℕ → ℤ) (now later : ℤ) (s : Scheduler M) (o : SchedulerOutputs) (s' : Scheduler M)
      → schedule_chunked_prefill manager clock now later s ≡ ok (o, s')
      → (queued i s' + occurs i o.ignored_seq_groups ≡ queued i s)
        × (occurs i (groups_of o.scheduled_seq_groups) ≤ occurs i s'.running)
  unfolding schedule_chunked_prefill queued SameQueues
  occurs-schedule_chunked_prefill clock now later s o s' h =
      let budget =
        new_budget (pos s.scheduler_config.max_num_batched_tokens)
          (pos s.scheduler_config.max_num_seqs) in
      elim (Result-cases (
        schedule_running manager (get_num_lookahead_slots s false) true now s.running budget
          (some []) s.block_manager)) [
            | inl e ↦ ground (arith, h, e.1)
            | inr ((qr, r), e) ↦ elim (Result-cases (swapped_part manager true later s r)) [
              | inl e1 ↦ ground (arith, h, e, e1.1)
              | inr ((qs, w), e1) ↦
                  let s1 : Scheduler M = record s { block_manager = w.block_manager } in
                  elim (Result-cases
                    (schedule_prefills manager true clock s1 w.budget w.curr_loras)) [
                      | inl e2 ↦ ground (arith, h, e, e1, e2.1)
                      | inr ((qp, p), e2) ↦
                          let (none_left, t) =
                            occurs-schedule_running manager (get_num_lookahead_slots s false) true i
                              now s.running budget (some []) s.block_manager qr r e in
                          let t1 = total-swapped_part manager i true later s r qs w e1 in
                          let (t2, same) =
                            occurs-schedule_prefills manager true i clock s1 w.budget w.curr_loras
                              qp p e2 in
                          let (t3, runs) =
                            total-finish_chunked s qp p qr r qs w o s'
                              (ground (arith, h, e, e1, e2)) in
                          let empty = occurs-nil i in
                          ground (arith, empty, none_left, t, t1, t2, t3, runs)
                    ]
            ]
          ]

  -- `_schedule`, whichever policy the configuration chooses.
  occurs-choose_schedule :
      (clock : ℕ → ℤ) (now later : ℤ) (s : Scheduler M) (o : SchedulerOutputs) (s' : Scheduler M)
      → choose_schedule manager clock now later s ≡ ok (o, s')
      → (queued i s' + occurs i o.ignored_seq_groups ≡ queued i s)
        × (occurs i (groups_of o.scheduled_seq_groups) ≤ occurs i s'.running)
  unfolding choose_schedule
  occurs-choose_schedule clock now later s o s' h =
      elim (Bool-cases s.scheduler_config.chunked_prefill_enabled) [
        | inl e ↦ occurs-schedule_chunked_prefill clock now later s o s' (ground (arith, h, e))
        | inr e ↦ occurs-schedule_default manager i clock now later s o s' (ground (arith, h, e))
      ]

occurs-mark_scheduled :
    (i : ℕ) (now : ℤ) (ids : List ℕ) (gs : List SequenceGroup)
    → occurs i (mark_scheduled now ids gs) ≡ occurs i gs
unfolding mark_scheduled occurs maybe_set_first_scheduled_time
occurs-mark_scheduled i now ids [] = refl
occurs-mark_scheduled i now ids (g ∷ gs) = ground (arith, occurs-mark_scheduled i now ids gs)

occurs-mark_outputs :
    (i : ℕ) (now : ℤ) (ss : List ScheduledSequenceGroup)
    → occurs i (groups_of (mark_outputs now ss)) ≡ occurs i (groups_of ss)
unfolding mark_outputs occurs maybe_set_first_scheduled_time
occurs-mark_outputs i now [] = refl
occurs-mark_outputs i now (s ∷ ss) = ground (arith, occurs-mark_outputs i now ss)

-- The requests of a list of metadata.
abbrev pub metadata_ids : List SequenceGroupMetadata → List ℕ
metadata_ids [] = []
metadata_ids (x ∷ xs) = x.request_id ∷ metadata_ids xs

module _ {M : Type 0} (manager : BlockSpaceManager M) where
  request_id-metadata_of :
      (now : ℤ) (s : ScheduledSequenceGroup) (m : M) {out : SequenceGroupMetadata × M}
      → metadata_of manager now s m ≡ ok out
      → out.0.request_id ≡ s.seq_group.request_id
  unfolding metadata_of new_metadata
  request_id-metadata_of now s m h = ground arith

  ids-metadata_list :
      (now : ℤ) (ss : List ScheduledSequenceGroup) (m : M) (metadata : List SequenceGroupMetadata)
      (m' : M)
      → metadata_list manager now ss m ≡ ok (metadata, m')
      → metadata_ids metadata ≡ request_ids_of ss
  unfolding metadata_list
  ids-metadata_list now [] m metadata m' h = ground arith
  ids-metadata_list now (s ∷ ss) m metadata m' h =
      elim (Result-cases (metadata_of manager now s m)) [
        | inl e ↦ ground (arith, h, e.1)
        | inr ((x, m1), e) ↦ elim (Result-cases (metadata_list manager now ss m1)) [
          | inl e1 ↦ ground (arith, h, e, e1.1)
          | inr ((xs, m2), e1) ↦
              let one = request_id-metadata_of now s m e in
              let rest = ids-metadata_list now ss m1 xs m2 e1 in ground (arith, h, e, e1, one, rest)
        ]
      ]

-- When `schedule` returns, each request stands in the three queues as often as before the call, but for
-- the prompts that the outputs list as ignored; every group of the outputs is in the running queue; and
-- the metadata describe the scheduled groups in their order.
pub occurs-schedule :
    {M : Type 0} (manager : BlockSpaceManager M) (i : ℕ) (clock : ℕ → ℤ) (now later created : ℤ)
    (s : Scheduler M) (metadata : List SequenceGroupMetadata) (o : SchedulerOutputs)
    (s' : Scheduler M)
    → schedule manager clock now later created s ≡ ok (metadata, o, s')
    → (queued i s' + occurs i o.ignored_seq_groups ≡ queued i s)
      × (occurs i (groups_of o.scheduled_seq_groups) ≤ occurs i s'.running)
      × (metadata_ids metadata ≡ request_ids_of o.scheduled_seq_groups)
unfolding schedule queued
occurs-schedule manager i clock now later created s metadata o s' h =
    elim (Result-cases (choose_schedule manager clock now later s)) [
      | inl e ↦ ground (arith, h, e.1)
      | inr ((o1, s1), e) ↦
          let batch = mark_outputs created o1.scheduled_seq_groups in
          elim (Result-cases (metadata_list manager created batch s1.block_manager)) [
            | inl e1 ↦ ground (arith, h, e, e1.1)
            | inr ((xs, m), e1) ↦ elim (Result-cases (mark_computed manager batch m)) [
              | inl e2 ↦ ground (arith, h, e, e1, e2.1)
              | inr (m', e2) ↦
                  let (kept, runs) = occurs-choose_schedule manager i clock now later s o1 s1 e in
                  let ids = ids-metadata_list manager created batch s1.block_manager xs m e1 in
                  let marked = occurs-mark_scheduled i created (request_ids_of batch) s1.running in
                  let out = occurs-mark_outputs i created o1.scheduled_seq_groups in
                  ground (arith, h, e, e1, e2, kept, runs, ids, marked, out)
            ]
          ]
    ]
