-- ===== src/Scheduler/Abort/Removal.antt =====
-- What `abort_seq_group` of vllm_blend/vllm/core/scheduler.py takes out of the queues.
use cache_blend.Prelude.{
  ℕ, ◌+◌, ◌-◌, ◌≡◌, refl, ap, sym, ◌∙◌, Bool, true, ◌&&◌, List, [], ◌∷◌, ◌++◌, mem, remove, dedup,
  mem-remove, mem-dedup, ok, Result-cases, Bool-cases, inl, inr, ◌==◌, if◌then◌else◌, arith,
}
use mathlib.Core.Path.{subst}
use cache_blend.Prelude.Dict.{Dict}
use cache_blend.Sequence.{Sequence, finished_aborted, is_finished, status_is_finished}
use cache_blend.Sequence.Group.{
  SequenceGroup, group_is_finished, get_seqs, values_where, all_finished,
}
use cache_blend.Interfaces.{BlockSpaceManager}
use cache_blend.Scheduler.{Scheduler, free_seq, with_status}
use cache_blend.Scheduler.Abort.{take_requests, abort_seqs, abort_groups, abort_seq_group}
use cache_blend.Scheduler.Requests.{hit, occurs, occurs-append}
use cache_blend.Scheduler.Requests.Rounds.{queued}

-- One queue: a request that is to be aborted loses its first group, and the others keep theirs.
occurs-take_requests :
    (i : ℕ) (ids : List ℕ) (gs : List SequenceGroup)
    → (occurs i (take_requests ids gs).kept ≡ (if mem i ids then occurs i gs - 1 else occurs i gs))
      × (occurs i (take_requests ids gs).aborted + occurs i (take_requests ids gs).kept
          ≡ occurs i gs)
      × (mem i (take_requests ids gs).request_ids ≡ (mem i ids && occurs i gs == 0))
unfolding take_requests occurs
occurs-take_requests i ids [] = ground arith
occurs-take_requests i ids (g ∷ gs) = elim (Bool-cases (mem g.request_id ids)) [
  | inl e ↦
      let rest = occurs-take_requests i (remove g.request_id ids) gs in
      let removed = mem-remove g.request_id i ids in
      ground (arith, e, rest.0, rest.1, rest.2, removed)
  | inr e ↦ let rest = occurs-take_requests i ids gs in ground (arith, e, rest.0, rest.1, rest.2)
]

-- Groups with every sequence finished.
abbrev pub AllFinished : List SequenceGroup → Type 0
AllFinished [] = Unit {0}
AllFinished (g ∷ gs) = (group_is_finished g ≡ true) × AllFinished gs

AllFinished-append :
    (gs hs : List SequenceGroup) → AllFinished gs → AllFinished hs → AllFinished (gs ++ hs)
AllFinished-append [] hs h k = k
AllFinished-append (g ∷ gs) hs (h, h') k = (h, AllFinished-append gs hs h' k)

every_finished : Dict ℕ Sequence → Bool
every_finished [] = true
every_finished ((k, s) ∷ d) = is_finished s && every_finished d

every_finished_lem :
    (d : Dict ℕ Sequence) → all_finished (values_where (λ _. true) d) ≡ every_finished d
unfolding all_finished values_where every_finished
every_finished_lem [] = refl
every_finished_lem ((k, s) ∷ d) = ap (λ b. is_finished s && b) (every_finished_lem d)

module _ {M : Type 0} (manager : BlockSpaceManager M) where
  finished-abort_seqs :
      (m : M) (d d' : Dict ℕ Sequence) (m' : M)
      → abort_seqs manager m d ≡ ok (d', m')
      → every_finished d' ≡ true
  unfolding abort_seqs every_finished is_finished status_is_finished
  finished-abort_seqs m [] d' m' h = ground arith
  finished-abort_seqs m ((k, s) ∷ d) d' m' h = elim (Bool-cases (is_finished s)) [
    | inl e ↦ elim (Result-cases (abort_seqs manager m d)) [
      | inl e1 ↦ ground (arith, h, e, e1.1)
      | inr ((d1, m1), e1) ↦
          let rest = finished-abort_seqs m d d1 m1 e1 in ground (arith, h, e, e1, rest)
    ]
    | inr e ↦ elim (Result-cases (free_seq manager m (with_status finished_aborted s))) [
      | inl e1 ↦ ground (arith, h, e, e1.1)
      | inr (m1, e1) ↦ elim (Result-cases (abort_seqs manager m1 d)) [
        | inl e2 ↦ ground (arith, h, e, e1, e2.1)
        | inr ((d1, m2), e2) ↦
            let rest = finished-abort_seqs m1 d d1 m2 e2 in ground (arith, h, e, e1, e2, rest)
      ]
    ]
  ]

  finished-abort_groups :
      (i : ℕ) (m : M) (gs gs' : List SequenceGroup) (m' : M)
      → abort_groups manager m gs ≡ ok (gs', m')
      → (occurs i gs' ≡ occurs i gs) × AllFinished gs'
  unfolding abort_groups occurs group_is_finished get_seqs
  finished-abort_groups i m [] gs' m' h = grind arith
  finished-abort_groups i m (g ∷ gs) gs' m' h =
      elim (Result-cases (abort_seqs manager m g.seqs_dict)) [
        | inl e ↦ ground (arith, h, e.1)
        | inr ((d, m1), e) ↦ elim (Result-cases (abort_groups manager m1 gs)) [
          | inl e1 ↦ ground (arith, h, e, e1.1)
          | inr ((gs1, m2), e1) ↦
              let (kept, finished) = finished-abort_groups i m1 gs gs1 m2 e1 in
              let done = finished-abort_seqs m g.seqs_dict d m1 e in
              let done' = every_finished_lem d ∙ done in
              let (same, tail) : (gs' ≡ record g { seqs_dict = d } ∷ gs1) × (m' ≡ m2) =
                ground (arith, h, e, e1) in
              subst (λ x. (occurs i x ≡ hit i g + occurs i gs) × AllFinished x) (sym same)
                (omega (arith, kept), (done', finished))
        ]
      ]

  -- When `abort_seq_group` returns, each listed request has lost one of its groups in the queues, if it had
  -- any, and the other requests none; the groups that left the queues are returned, with every sequence
  -- finished.
  pub queued-abort_seq_group :
      (i : ℕ) (s : Scheduler M) (request_id : List ℕ) (aborted : List SequenceGroup)
      (s' : Scheduler M)
      → abort_seq_group manager s request_id ≡ ok (aborted, s')
      → (queued i s' ≡ (if mem i request_id then queued i s - 1 else queued i s))
        × (occurs i aborted + queued i s' ≡ queued i s)
        × AllFinished aborted
  unfolding abort_seq_group queued
  queued-abort_seq_group i s request_id aborted s' h =
      let w = take_requests (dedup request_id) s.waiting in
      let r = take_requests w.request_ids s.running in
      let x = take_requests r.request_ids s.swapped in
      elim (Result-cases (abort_groups manager s.block_manager w.aborted)) [
        | inl e ↦ ground (arith, h, e.1)
        | inr ((gw, m), e) ↦ elim (Result-cases (abort_groups manager m r.aborted)) [
          | inl e1 ↦ ground (arith, h, e, e1.1)
          | inr ((gr, m1), e1) ↦ elim (Result-cases (abort_groups manager m1 x.aborted)) [
            | inl e2 ↦ ground (arith, h, e, e1, e2.1)
            | inr ((gx, m2), e2) ↦
                let (cw, fw) = finished-abort_groups i s.block_manager w.aborted gw m e in
                let (cr, fr) = finished-abort_groups i m r.aborted gr m1 e1 in
                let (cx, fx) = finished-abort_groups i m1 x.aborted gx m2 e2 in
                let tw = occurs-take_requests i (dedup request_id) s.waiting in
                let tr = occurs-take_requests i w.request_ids s.running in
                let tx = occurs-take_requests i r.request_ids s.swapped in
                let all = AllFinished-append (gw ++ gr) gx (AllFinished-append gw gr fw fr) fx in
                let same = mem-dedup i request_id in
                let law = occurs-append i (gw ++ gr) gx in
                let law' = occurs-append i gw gr in
                let out : aborted ≡ gw ++ gr ++ gx = ground (arith, h, e, e1, e2) in
                (
                  (ground (arith, h, e, e1, e2, tw.0, tw.2, tr.0, tr.2, tx.0, same)),
                  (ground (arith, h, e, e1, e2, cw, cr, cx, tw.1, tr.1, tx.1, law, law')),
                  subst AllFinished (sym out) all,
                )
          ]
        ]
      ]
