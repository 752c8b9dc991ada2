-- ===== src/Scheduler/Requests/Rounds.antt =====
-- A round of vllm_blend/vllm/core/scheduler.py loses and doubles no request.
use cache_blend.Prelude.{
  ℕ, ◌+◌, ◌≤◌, ◌≡◌, refl, Bool, true, false, Option, List, [], ◌∷◌, length, ok, Result-cases,
  Bool-cases, inl, inr, ◌==◌, ◌&&◌, arith,
}
use cache_blend.Prelude.Int.{ℤ}
use cache_blend.Sequence.Group.{SequenceGroup}
use cache_blend.Interfaces.{BlockSpaceManager}
use cache_blend.Scheduler.{Scheduler, ScheduledSequenceGroup, get_num_lookahead_slots}
use cache_blend.Scheduler.Budget.{SchedulingBudget}
use cache_blend.Scheduler.Running.{RunningState, start_running}
use cache_blend.Scheduler.Swapped.{SwappedState, start_swapped}
use cache_blend.Scheduler.Prefills.{PrefillState, start_prefills}
use cache_blend.Scheduler.Rounds.{
  SchedulerOutputs, is_nil, place_by_lora, sort_by_lora_ids, post_init, groups_of, default_prefills,
  default_running, swapped_part, schedule_default, finish_default, default_outputs, default_queues,
  default_budget, start_loras,
}
use cache_blend.Scheduler.Requests.{hit, occurs, occurs-nil, counts, occurs_none}
use cache_blend.Scheduler.Requests.Running.{running_total, occurs-schedule_running}
use cache_blend.Scheduler.Requests.Swapped.{swapped_total, occurs-schedule_swapped}
use cache_blend.Scheduler.Requests.Prefills.{prefill_total, SameQueues, occurs-schedule_prefills}

-- How often a request stands in the queues of the scheduler.
unfoldable pub queued : {M : Type 0} → ℕ → Scheduler M → ℕ
queued i s = occurs i s.waiting + occurs i s.running + occurs i s.swapped

occurs-place_by_lora :
    (i : ℕ) (g : ScheduledSequenceGroup) (gs : List ScheduledSequenceGroup)
    → occurs i (groups_of (place_by_lora g gs)) ≡ hit i g.seq_group + occurs i (groups_of gs)
unfolding place_by_lora occurs
occurs-place_by_lora i g [] = refl
occurs-place_by_lora i g (x ∷ gs) = ground (arith, occurs-place_by_lora i g gs)

pub occurs-sort_by_lora_ids :
    (i : ℕ) (gs : List ScheduledSequenceGroup)
    → occurs i (groups_of (sort_by_lora_ids gs)) ≡ occurs i (groups_of gs)
unfolding sort_by_lora_ids occurs
occurs-sort_by_lora_ids i [] = refl
occurs-sort_by_lora_ids i (g ∷ gs) =
    omega (arith, occurs-place_by_lora i g (sort_by_lora_ids gs), occurs-sort_by_lora_ids i gs)

pub occurs-post_init :
    (i : ℕ) (o : SchedulerOutputs) {o' : SchedulerOutputs}
    → post_init o ≡ ok o'
    → (o'.ignored_seq_groups ≡ o.ignored_seq_groups)
      × (occurs i (groups_of o'.scheduled_seq_groups) ≡ occurs i (groups_of o.scheduled_seq_groups))
unfolding post_init
occurs-post_init i o h = ground (arith, occurs-sort_by_lora_ids i o.scheduled_seq_groups)

module _ {M : Type 0} (manager : BlockSpaceManager M) (i : ℕ) where
  total-default_prefills :
      (clock : ℕ → ℤ) (s : Scheduler M) (budget : SchedulingBudget) (curr_loras : Option (List ℕ))
      (queue' : List SequenceGroup) (p : PrefillState M)
      → default_prefills manager clock s budget curr_loras ≡ ok (queue', p)
      → (occurs i queue' + prefill_total i p ≡ occurs i s.waiting) × SameQueues s p.scheduler
  unfolding default_prefills prefill_total SameQueues start_prefills
  total-default_prefills clock s budget curr_loras queue' p h =
      elim (Bool-cases (is_nil s.swapped)) [
        | inl e ↦
            occurs-schedule_prefills manager false i clock s budget curr_loras queue' p
              (ground (arith, h, e))
        | inr e ↦ ground (arith, h, e, occurs-nil i)
      ]

  total-default_running :
      (now : ℤ) (p : PrefillState M) (queue' : List SequenceGroup) (r : RunningState M)
      → default_running manager now p ≡ ok (queue', r)
      → occurs i queue' + running_total i r ≡ occurs i p.scheduler.running
  unfolding default_running running_total start_running
  total-default_running now p queue' r h = elim (Bool-cases (length p.seq_groups == 0)) [
    | inl e ↦
        let (empty, total) =
          occurs-schedule_running manager (get_num_lookahead_slots p.scheduler false) false i now
            p.scheduler.running p.budget p.curr_loras p.scheduler.block_manager queue' r
            (ground (arith, h, e)) in
        rw (empty, occurs-nil i, total) (omega arith)
    | inr e ↦ ground (arith, h, e, occurs-nil i)
  ]

  pub total-swapped_part :
      (allowed : Bool) (now : ℤ) (s : Scheduler M) (r : RunningState M)
      (queue' : List SequenceGroup) (w : SwappedState M)
      → swapped_part manager allowed now s r ≡ ok (queue', w)
      → occurs i queue' + swapped_total i w ≡ occurs i s.swapped
  unfolding swapped_part swapped_total start_swapped
  total-swapped_part allowed now s r queue' w h =
      elim (Bool-cases (allowed && length r.preempted + length r.swapped_out == 0)) [
        | inl e ↦
            occurs-schedule_swapped manager (get_num_lookahead_slots s false) s.max_loras false i
              now s.swapped r.budget r.curr_loras r.block_manager queue' w (ground (arith, h, e))
        | inr e ↦ ground (arith, h, e, occurs-nil i)
      ]

  -- What the new queues and the ignored prompts hold.
  total-default_queues :
      (s : Scheduler M) (qp : List SequenceGroup) (p : PrefillState M) (qr : List SequenceGroup)
      (r : RunningState M) (qs : List SequenceGroup) (w : SwappedState M)
      → (length r.prefill_seq_groups == 0) ≡ true
      → (length w.prefill_seq_groups == 0) ≡ true
      → (queued i (default_queues manager qp p qr r qs w)
            + occurs i (default_outputs manager s p r w).ignored_seq_groups
          ≡ occurs i qp
            + prefill_total i p
            + (occurs i qr + running_total i r)
            + (occurs i qs + swapped_total i w))
        × (occurs i (groups_of (default_outputs manager s p r w).scheduled_seq_groups)
            ≤ occurs i (default_queues manager qp p qr r qs w).running)
  unfolding default_queues default_outputs queued prefill_total running_total swapped_total
  total-default_queues s qp p qr r qs w none_r none_w =
      let no_r = occurs_none i r.prefill_seq_groups none_r in
      let no_w = occurs_none i w.prefill_seq_groups none_w in (omega counts, omega counts)

  total-finish_default :
      (s : Scheduler M) (qp : List SequenceGroup) (p : PrefillState M) (qr : List SequenceGroup)
      (r : RunningState M) (qs : List SequenceGroup) (w : SwappedState M) (o : SchedulerOutputs)
      (s' : Scheduler M)
      → finish_default manager s qp p qr r qs w ≡ ok (o, s')
      → (queued i s' + occurs i o.ignored_seq_groups
          ≡ occurs i qp
            + prefill_total i p
            + (occurs i qr + running_total i r)
            + (occurs i qs + swapped_total i w))
        × (occurs i (groups_of o.scheduled_seq_groups) ≤ occurs i s'.running)
  unfolding finish_default
  total-finish_default s qp p qr r qs w o s' h =
      elim (Result-cases (post_init (default_outputs manager s p r w))) [
        | inl e ↦ ground (arith, h, e.1)
        | inr (o', e) ↦
            let (ignored, scheduled) = occurs-post_init i (default_outputs manager s p r w) e in
            let (t, runs) =
              total-default_queues s qp p qr r qs w (ground (arith, h)) (ground (arith, h)) in
            ground (arith, h, e, ignored, scheduled, t, runs)
      ]

  -- A round of `_schedule_default` that ends without an error keeps each request in the three queues as
  -- often as before, but for the prompts that it ignores; what it schedules runs.
  pub occurs-schedule_default :
      (clock : ℕ → ℤ) (now later : ℤ) (s : Scheduler M) (o : SchedulerOutputs) (s' : Scheduler M)
      → schedule_default manager clock now later s ≡ ok (o, s')
      → (queued i s' + occurs i o.ignored_seq_groups ≡ queued i s)
        × (occurs i (groups_of o.scheduled_seq_groups) ≤ occurs i s'.running)
  unfolding schedule_default queued SameQueues
  occurs-schedule_default clock now later s o s' h =
      elim (Result-cases
        (default_prefills manager clock s (default_budget manager s) (start_loras manager s))) [
          | inl e ↦ ground (arith, h, e.1)
          | inr ((qp, p), e) ↦ elim (Result-cases (default_running manager now p)) [
            | inl e1 ↦ ground (arith, h, e, e1.1)
            | inr ((qr, r), e1) ↦
                elim (Result-cases
                  (swapped_part manager (length p.seq_groups == 0) later p.scheduler r)) [
                    | inl e2 ↦ ground (arith, h, e, e1, e2.1)
                    | inr ((qs, w), e2) ↦
                        let (t, same) =
                          total-default_prefills clock s (default_budget manager s)
                            (start_loras manager s) qp p e in
                        let t1 = total-default_running now p qr r e1 in
                        let t2 =
                          total-swapped_part (length p.seq_groups == 0) later p.scheduler r qs w
                            e2 in
                        let (t3, runs) =
                          total-finish_default s qp p qr r qs w o s'
                            (ground (arith, h, e, e1, e2)) in
                        ground (arith, t, same.0, same.1, t1, t2, t3, runs)
                  ]
          ]
        ]
