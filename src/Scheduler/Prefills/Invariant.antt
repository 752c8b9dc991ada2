-- ===== src/Scheduler/Prefills/Invariant.antt =====
-- The rule for invariants of `_schedule_prefills`' loop: what each of its steps keeps, it keeps.
use cache_blend.Prelude.{
  ℕ, suc, ◌≡◌, refl, Bool, true, false, List, [], ◌∷◌, ok, Result-cases, Bool-cases, inl, inr,
  arith,
}
use cache_blend.Prelude.Int.{ℤ, pos, ltb_ℤ}
use cache_blend.Sequence.Group.{SequenceGroup, get_max_num_running_seqs}
use cache_blend.ManagerV1.{fits, later, never}
use cache_blend.Interfaces.{BlockSpaceManager}
use cache_blend.Scheduler.{group_lora_int_id}
use cache_blend.Scheduler.Swapped.{lora_is_full, over_budget}
use cache_blend.Scheduler.Prefills.{
  PrefillState, passed_delay, prompt_tokens, ignore_group, start_group, prefills_loop,
}

-- The state once the delay of the `k`-th round is tested.
abbrev pub tested : {M : Type 0} → PrefillState M → ℤ → PrefillState M
tested s now = record s { scheduler = (passed_delay s.scheduler now).1 }

module _ {M : Type 0} (manager : BlockSpaceManager M) (enable_chunking : Bool)
    (Inv : List SequenceGroup → PrefillState M → Type 0)
    (keeps_delay : (queue : List SequenceGroup) (s : PrefillState M) (now : ℤ)
      → Inv queue s
      → Inv queue (tested s now))
    (keeps_ignore : (queue : List SequenceGroup) (s : PrefillState M) (g : SequenceGroup)
      → Inv (g ∷ queue) s
      → Inv queue (ignore_group s g))
    (keeps_leftover : (queue : List SequenceGroup) (s : PrefillState M) (g : SequenceGroup)
      → lora_is_full s.scheduler.max_loras s.curr_loras (group_lora_int_id g) ≡ ok true
      → Inv (g ∷ queue) s
      → Inv queue (record s { leftover = g ∷ s.leftover }))
    (keeps_start : (queue : List SequenceGroup) (s : PrefillState M) (g : SequenceGroup)
        (tokens seqs : ℤ) (s' : PrefillState M)
      → Inv (g ∷ queue) s
      → over_budget s.budget tokens seqs ≡ ok false
      → start_group manager enable_chunking s g tokens seqs ≡ ok s'
      → seqs ≡ pos (get_max_num_running_seqs g)
      → Inv queue s') where
  pub prefills_loop-Invariant :
      (clock : ℕ → ℤ) (k : ℕ) (queue : List SequenceGroup) (s : PrefillState M)
      (queue' : List SequenceGroup) (s' : PrefillState M)
      → Inv queue s
      → prefills_loop manager enable_chunking clock k queue s ≡ ok (queue', s')
      → Inv queue' s'
  unfolding prefills_loop
  prefills_loop-Invariant clock k [] s queue' s' inv h =
      let inv1 = keeps_delay [] s (clock k) inv in grind (arith, h, inv1)
  prefills_loop-Invariant clock k (g ∷ queue) s0 queue' s' inv0 h =
      let s = tested s0 (clock k) in
      let inv = keeps_delay (g ∷ queue) s0 (clock k) inv0 in
      elim (Bool-cases ((passed_delay s0.scheduler (clock k)).0)) [
        | inr e ↦ grind (arith, h, e, inv)
        | inl e ↦ elim (Result-cases (prompt_tokens manager enable_chunking s g)) [
          | inl e1 ↦ ground (arith, h, e, e1.1)
          | inr (n, e1) ↦ elim (Bool-cases (ltb_ℤ (pos s.scheduler.prompt_limit) n)) [
            | inl e2 ↦
                prefills_loop-Invariant clock (suc k) queue (ignore_group s g) queue' s'
                  (keeps_ignore queue s g inv) (ground (arith, h, e, e1, e2))
            | inr e2 ↦ elim (Result-cases (manager.can_allocate s.scheduler.block_manager g)) [
              | inl e3 ↦ ground (arith, h, e, e1, e2, e3.1)
              | inr (later, e3) ↦ grind (arith, h, e, e1, e2, e3, inv)
              | inr (never, e3) ↦
                  prefills_loop-Invariant clock (suc k) queue (ignore_group s g) queue' s'
                    (keeps_ignore queue s g inv) (ground (arith, h, e, e1, e2, e3))
              | inr (fits, e3) ↦
                  elim (Result-cases
                    (lora_is_full s.scheduler.max_loras s.curr_loras (group_lora_int_id g))) [
                      | inl e4 ↦ ground (arith, h, e, e1, e2, e3, e4.1)
                      | inr (true, e4) ↦
                          prefills_loop-Invariant clock (suc k) queue
                            (record s { leftover = g ∷ s.leftover }) queue' s'
                            (keeps_leftover queue s g e4 inv) (ground (arith, h, e, e1, e2, e3, e4))
                      | inr (false, e4) ↦
                          let seqs = pos (get_max_num_running_seqs g) in
                          elim (Result-cases (over_budget s.budget n seqs)) [
                            | inl e5 ↦ ground (arith, h, e, e1, e2, e3, e4, e5.1)
                            | inr (true, e5) ↦ grind (arith, h, e, e1, e2, e3, e4, e5, inv)
                            | inr (false, e5) ↦
                                elim (Result-cases
                                  (start_group manager enable_chunking s g n seqs)) [
                                    | inl e6 ↦ ground (arith, h, e, e1, e2, e3, e4, e5, e6.1)
                                    | inr (s1, e6) ↦
                                        prefills_loop-Invariant clock (suc k) queue s1 queue' s'
                                          (keeps_start queue s g n seqs s1 inv e5 e6 refl)
                                          (ground (arith, h, e, e1, e2, e3, e4, e5, e6))
                                  ]
                          ]
                    ]
            ]
          ]
        ]
      ]
