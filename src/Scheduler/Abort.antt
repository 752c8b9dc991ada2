-- ===== src/Scheduler/Abort.antt =====
-- `abort_seq_group` of vllm_blend/vllm/core/scheduler.py. The aborted groups are returned too, since the
-- caller still holds them.
pub mod Removal
use cache_blend.Prelude.{
  ℕ, Bool, true, false, Option, none, some, List, [], ◌∷◌, ◌++◌, mem, remove, dedup, Result, ok,
  ◌>>=◌, if◌then◌else◌, ◌==◌,
}
use cache_blend.Prelude.Dict.{Dict}
use cache_blend.Sequence.{Sequence, SequenceStatus, finished_aborted, is_finished}
use cache_blend.Sequence.Group.{SequenceGroup}
use cache_blend.Interfaces.{BlockSpaceManager}
use cache_blend.Scheduler.{Scheduler, with_status, free_seq}

pub record Taken : Type 0 where
  pub request_ids : List ℕ
  pub kept : List SequenceGroup
  pub aborted : List SequenceGroup

-- One queue: the first group of each request is taken out, and the request is done with.
unfoldable pub take_requests : List ℕ → List SequenceGroup → Taken
take_requests ids [] = record { request_ids = ids; kept = []; aborted = [] }
take_requests ids (g ∷ gs) = elim (mem g.request_id ids) [
  | true ↦
      let t = take_requests (remove g.request_id ids) gs in record t { aborted = g ∷ t.aborted }
  | false ↦ let t = take_requests ids gs in record t { kept = g ∷ t.kept }
]

module _ {M : Type 0} (manager : BlockSpaceManager M) where
  -- The sequences of a group that are not finished are aborted and freed.
  unfoldable pub abort_seqs : M → Dict ℕ Sequence → Result (Dict ℕ Sequence × M)
  abort_seqs m [] = ok ([], m)
  abort_seqs m ((k, seq) ∷ d) = elim (is_finished seq) [
    | true ↦ do (d', m') ← abort_seqs m d; ok ((k, seq) ∷ d', m')
    | false ↦ do
      let seq' = with_status finished_aborted seq
      m' ← free_seq manager m seq'
      (d', m'') ← abort_seqs m' d
      ok ((k, seq') ∷ d', m'')
  ]

  unfoldable pub abort_groups : M → List SequenceGroup → Result (List SequenceGroup × M)
  unfolding abort_seqs
  abort_groups m [] = ok ([], m)
  abort_groups m (g ∷ gs) = do
    (d, m') ← abort_seqs m g.seqs_dict
    (gs', m'') ← abort_groups m' gs
    ok (record g { seqs_dict = d } ∷ gs', m'')

  unfoldable pub abort_seq_group : Scheduler M → List ℕ → Result (List SequenceGroup × Scheduler M)
  unfolding take_requests abort_groups
  abort_seq_group s request_id = do
    let w = take_requests (dedup request_id) s.waiting
    (from_waiting, m) ← abort_groups s.block_manager w.aborted
    let r = take_requests w.request_ids s.running
    (from_running, m') ← abort_groups m r.aborted
    let x = take_requests r.request_ids s.swapped
    (from_swapped, m'') ← abort_groups m' x.aborted
    ok (
      from_waiting ++ from_running ++ from_swapped,
      record s { waiting = w.kept; running = r.kept; swapped = x.kept; block_manager = m'' },
    )
