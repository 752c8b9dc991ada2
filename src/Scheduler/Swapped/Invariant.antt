-- ===== src/Scheduler/Swapped/Invariant.antt =====
-- The rule for invariants of `_schedule_swapped`'s loop: what each of its steps keeps, it keeps.
use cache_blend.Prelude.{
  ℕ, ◌≡◌, refl, Bool, true, false, Option, List, [], ◌∷◌, ok, Result-cases, inl, inr, arith,
}
use cache_blend.Prelude.Int.{ℤ, pos}
use cache_blend.Sequence.{SequenceStatus}
use cache_blend.Sequence.Group.{SequenceGroup, get_max_num_running_seqs}
use cache_blend.Interfaces.{BlockSpaceManager}
use cache_blend.Scheduler.{new_tokens_of, group_lora_int_id}
use cache_blend.Scheduler.Budget.{remaining_token_budget}
use cache_blend.Scheduler.Swapped.{
  SwappedState, lora_is_full, over_budget, swap_in_group, swapped_loop,
}

module _ {M : Type 0} (manager : BlockSpaceManager M) (lookahead : ℕ) (max_loras : Option ℕ)
    (enable_chunking : Bool) (Inv : List SequenceGroup → SwappedState M → Type 0)
    (keeps_leftover : (queue : List SequenceGroup) (s : SwappedState M) (g : SequenceGroup)
      → Inv (g ∷ queue) s
      → Inv queue (record s { leftover = g ∷ s.leftover }))
    (keeps_swap_in : (queue : List SequenceGroup) (s : SwappedState M) (g : SequenceGroup)
        (tokens seqs : ℤ) (s' : SwappedState M)
      → Inv (g ∷ queue) s
      → over_budget s.budget tokens seqs ≡ ok false
      → swap_in_group manager lookahead max_loras enable_chunking s g tokens seqs ≡ ok s'
      → seqs ≡ pos (get_max_num_running_seqs g)
      → Inv queue s') where
  pub swapped_loop-Invariant :
      (queue : List SequenceGroup) (s : SwappedState M) (queue' : List SequenceGroup)
      (s' : SwappedState M)
      → Inv queue s
      → swapped_loop manager lookahead max_loras enable_chunking queue s ≡ ok (queue', s')
      → Inv queue' s'
  unfolding swapped_loop
  swapped_loop-Invariant [] s queue' s' inv h = grind (arith, h, inv)
  swapped_loop-Invariant (g ∷ queue) s queue' s' inv h =
      elim (Result-cases (manager.can_swap_in s.block_manager g 0)) [
        | inl e ↦ ground (arith, e.1)
        | inr (false, e) ↦ grind (arith, h, e, inv)
        | inr (true, e) ↦
            elim (Result-cases (lora_is_full max_loras s.curr_loras (group_lora_int_id g))) [
              | inl e1 ↦ ground (arith, e, e1.1)
              | inr (true, e1) ↦
                  swapped_loop-Invariant queue (record s { leftover = g ∷ s.leftover }) queue' s'
                    (keeps_leftover queue s g inv) (ground (arith, h, e, e1))
              | inr (false, e1) ↦
                  let seqs = pos (get_max_num_running_seqs g) in
                  let tokens =
                    new_tokens_of g SequenceStatus.swapped enable_chunking
                      (remaining_token_budget s.budget) in
                  elim (Result-cases (over_budget s.budget tokens seqs)) [
                    | inl e2 ↦ ground (arith, e, e1, e2.1)
                    | inr (true, e2) ↦ grind (arith, h, e, e1, e2, inv)
                    | inr (false, e2) ↦
                        elim (Result-cases (
                          swap_in_group manager lookahead max_loras enable_chunking s g tokens
                            seqs)) [
                              | inl e3 ↦ ground (arith, e, e1, e2, e3.1)
                              | inr (s1, e3) ↦
                                  swapped_loop-Invariant queue s1 queue' s'
                                    (keeps_swap_in queue s g tokens seqs s1 inv e2 e3 refl)
                                    (ground (arith, h, e, e1, e2, e3))
                            ]
                  ]
            ]
      ]
