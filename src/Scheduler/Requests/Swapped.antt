-- ===== src/Scheduler/Requests/Swapped.antt =====
-- `_schedule_swapped` of vllm_blend/vllm/core/scheduler.py loses and doubles no request.
use cache_blend.Prelude.{
  ℕ, ◌+◌, ◌≡◌, refl, Bool, Option, List, [], ◌∷◌, ok, Result-cases, inl, inr, arith,
}
use cache_blend.Prelude.Int.{ℤ, pos}
use cache_blend.Sequence.Group.{SequenceGroup}
use cache_blend.Interfaces.{BlockSpaceManager}
use cache_blend.Policy.{sort_by_priority}
use cache_blend.Scheduler.{swap_in}
use cache_blend.Scheduler.Budget.{SchedulingBudget}
use cache_blend.Scheduler.Swapped.{
  SwappedState, start_swapped, swap_in_group, swapped_loop, schedule_swapped,
}
use cache_blend.Scheduler.Swapped.Invariant.{swapped_loop-Invariant}
use cache_blend.Scheduler.Rounds.{groups_of}
use cache_blend.Scheduler.Requests.{
  hit, occurs, occurs-cons, occurs-nil, occurs-append, groups_of-append, occurs-sort_by_priority,
  occurs-extendleft, request_id-swap_in,
}

-- How often a request stands in the outputs of the loop.
unfoldable pub swapped_total : {M : Type 0} → ℕ → SwappedState M → ℕ
swapped_total i s =
    occurs i (groups_of s.decode_seq_groups) + occurs i (groups_of s.prefill_seq_groups)

module _ {M : Type 0} (manager : BlockSpaceManager M) (lookahead : ℕ) (max_loras : Option ℕ)
    (enable_chunking : Bool) (i : ℕ) where
  total-swap_in_group :
      (s : SwappedState M) (g : SequenceGroup) (tokens seqs : ℤ) {s' : SwappedState M}
      → swap_in_group manager lookahead max_loras enable_chunking s g tokens seqs ≡ ok s'
      → (swapped_total i s' ≡ swapped_total i s + hit i g) × (s'.leftover ≡ s.leftover)
  unfolding swap_in_group swapped_total
  total-swap_in_group s g tokens seqs h =
      elim (Result-cases (swap_in manager s.block_manager g s.blocks_to_swap_in)) [
        | inl e ↦ ground (arith, e.1)
        | inr ((g', blocks, m), e) ↦
            let same = request_id-swap_in manager s.block_manager g s.blocks_to_swap_in e in
            let one = occurs-cons i g' [] in
            let p =
              groups_of-append s.prefill_seq_groups
                (record { seq_group = g'; token_chunk_size = tokens } ∷ []) in
            let p' = occurs-append i (groups_of s.prefill_seq_groups) (g' ∷ []) in
            let d =
              groups_of-append s.decode_seq_groups
                (record { seq_group = g'; token_chunk_size = pos 1 } ∷ []) in
            let d' = occurs-append i (groups_of s.decode_seq_groups) (g' ∷ []) in
            ground (arith, e, same, one, occurs-nil i, p, p', d, d')
      ]

  abbrev IsCount : ℕ → List SequenceGroup → SwappedState M → Type 0
  IsCount n queue s = occurs i queue + occurs i s.leftover + swapped_total i s ≡ n

  total-leftover :
      (s : SwappedState M) (g : SequenceGroup)
      → swapped_total i (record s { leftover = g ∷ s.leftover }) ≡ swapped_total i s
  unfolding swapped_total
  total-leftover s g = refl

  total-start_swapped :
      (budget : SchedulingBudget) (curr_loras : Option (List ℕ)) (m : M)
      → occurs i ((start_swapped budget curr_loras m).leftover)
          + swapped_total i (start_swapped budget curr_loras m)
        ≡ 0
  unfolding swapped_total start_swapped
  total-start_swapped budget curr_loras m = omega (arith, occurs-nil i)

  -- Each group of the swapped queue either stays in the queue or comes out once: it decodes or goes on
  -- with its prompt.
  pub occurs-schedule_swapped :
      (now : ℤ) (queue : List SequenceGroup) (budget : SchedulingBudget)
      (curr_loras : Option (List ℕ)) (m : M) (queue' : List SequenceGroup) (s' : SwappedState M)
      → schedule_swapped manager lookahead max_loras enable_chunking now queue budget curr_loras m
        ≡ ok (queue', s')
      → occurs i queue' + swapped_total i s' ≡ occurs i queue
  unfolding schedule_swapped
  occurs-schedule_swapped now queue budget curr_loras m queue' s' h =
      elim (Result-cases (
        swapped_loop manager lookahead max_loras enable_chunking (sort_by_priority now queue)
          (start_swapped budget curr_loras m))) [
            | inl e ↦ ground (arith, h, e.1)
            | inr ((q, s), e) ↦
                let sorted = occurs-sort_by_priority i now queue in
                let start = total-start_swapped budget curr_loras m in
                let total =
                  swapped_loop-Invariant manager lookahead max_loras enable_chunking
                    (IsCount (occurs i queue))
                    (λ q s g c.
                      omega (
                        arith,
                        c,
                        total-leftover s g,
                        occurs-cons i g q,
                        occurs-cons i g s.leftover,
                      ))
                    (λ q s g tokens seqs s1 c b e1.
                      let (t, l) = total-swap_in_group s g tokens seqs e1 in
                      ground (arith, c, t, l, occurs-cons i g q))
                    (sort_by_priority now queue) (start_swapped budget curr_loras m) q s
                    (omega (arith, sorted, start)) e in
                let left = occurs-extendleft i q s.leftover in ground (arith, h, e, total, left)
          ]
