-- ===== src/Scheduler/Swapped/Limits.antt =====
-- What `_schedule_swapped` of vllm_blend/vllm/core/scheduler.py takes from the budget.
use cache_blend.Prelude.{
  ℕ, ◌≡◌, sym, ◌∙◌, ap, Bool, true, false, Option, List, [], ◌∷◌, ◌++◌, ok, Result-cases, inl, inr,
  arith,
}
use cache_blend.Prelude.Int.{ℤ, pos, ◌+ℤ◌, +ℤ_comm, +ℤ_assoc}
use cache_blend.Prelude.Dict.{int_beq_iff}
use cache_blend.Sequence.{SequenceStatus, swapped}
use cache_blend.Sequence.Group.{SequenceGroup, get_max_num_running_seqs, group_is_prefill}
use cache_blend.Interfaces.{BlockSpaceManager}
use cache_blend.Policy.{sort_by_priority}
use cache_blend.Scheduler.{ScheduledSequenceGroup, swap_in, set_status, append_slots}
use cache_blend.Scheduler.Budget.{SchedulingBudget}
use cache_blend.Scheduler.Budget.Limits.{IsWithin, counted, add-IsWithin}
use cache_blend.Scheduler.Budget.Spent.{
  Spent, AllFresh, tokens_of, seqs_of, tokens_of-snoc, seqs_of-snoc, tail-AllFresh,
  counted-AllFresh, counted-Spent, nothing-Spent, request_id-set_status, get_max-set_status,
  swapped-IsPaused,
}
use cache_blend.Scheduler.Requests.{occurs-sort_by_priority}
use cache_blend.Scheduler.Swapped.{
  SwappedState, start_swapped, swapped_loop, swap_in_group, schedule_swapped, over_budget,
}
use cache_blend.Scheduler.Swapped.Invariant.{swapped_loop-Invariant}

-- The groups that are in their prefill and those that decode.
abbrev pub all_tokens : {M : Type 0} → SwappedState M → ℤ
all_tokens s = tokens_of s.prefill_seq_groups +ℤ tokens_of s.decode_seq_groups

abbrev pub all_seqs : {M : Type 0} → SwappedState M → ℤ
all_seqs s = seqs_of s.prefill_seq_groups +ℤ seqs_of s.decode_seq_groups

-- A summand is added to the left or to the right part.
add_left : (a b n : ℤ) → a +ℤ n +ℤ b ≡ a +ℤ b +ℤ n
add_left a b n = +ℤ_assoc a n b ∙ ap (λ m. a +ℤ m) (+ℤ_comm n b) ∙ sym (+ℤ_assoc a b n)

add_right : (a b n : ℤ) → a +ℤ (b +ℤ n) ≡ a +ℤ b +ℤ n
add_right a b n = sym (+ℤ_assoc a b n)

sorted-AllFresh :
    (b : SchedulingBudget) (now : ℤ) (queue : List SequenceGroup)
    → AllFresh b queue
    → AllFresh b (sort_by_priority now queue)
sorted-AllFresh b now queue fresh i = rw (occurs-sort_by_priority i now queue) (fresh i)

module _ {M : Type 0} (manager : BlockSpaceManager M) (lookahead : ℕ) (max_loras : Option ℕ)
    (enable_chunking : Bool) (budget : SchedulingBudget) where
  -- The groups taken so far are what was added to `budget`, and those of the queue are not in it.
  record IsPaid (queue : List SequenceGroup) (s : SwappedState M) : Type 0 where
    within : IsWithin s.budget
    fresh : AllFresh s.budget queue
    spent : Spent budget s.budget (all_tokens s) (all_seqs s)

  -- What a group that is swapped in changes.
  record Taken (s s' : SwappedState M) (g : SequenceGroup) (tokens seqs : ℤ) : Type 0 where
    paid : s'.budget ≡ counted s.budget g.request_id tokens seqs
    tokens_more : all_tokens s' ≡ all_tokens s +ℤ tokens
    seqs_more : all_seqs s' ≡ all_seqs s +ℤ seqs

  swap_in_group-Taken :
      (s : SwappedState M) (g : SequenceGroup) (tokens seqs : ℤ) (s' : SwappedState M)
      → swap_in_group manager lookahead max_loras enable_chunking s g tokens seqs ≡ ok s'
      → seqs ≡ pos (get_max_num_running_seqs g)
      → Taken s s' g tokens seqs
  unfolding swap_in_group swap_in
  swap_in_group-Taken s g tokens seqs s' h n =
      elim (Result-cases (manager.swap_in s.block_manager g 0)) [
        | inl e ↦ ground (arith, h, e.1)
        | inr ((mapping, m), e) ↦
            let g' = set_status SequenceStatus.swapped SequenceStatus.running g in
            let same : g'.request_id ≡ g.request_id = request_id-set_status swapped g in
            let most : pos (get_max_num_running_seqs g') ≡ seqs =
              ap pos (get_max-set_status swapped g swapped-IsPaused) ∙ sym n in
            elim (Result-cases (append_slots manager m g' lookahead s.blocks_to_copy)) [
              | inl e1 ↦ ground (arith, h, e, e1.1)
              | inr ((copies, m'), e1) ↦ elim (Result-cases (group_is_prefill g')) [
                | inl e2 ↦ ground (arith, h, e, e1, e2.1)
                | inr (true, e2) ↦
                    let item : ScheduledSequenceGroup = record {
                      seq_group = g';
                      token_chunk_size = tokens;
                    } in
                    let p : s'.prefill_seq_groups ≡ s.prefill_seq_groups ++ item ∷ [] =
                      ground (arith, h, e, e1, e2) in
                    let d : s'.decode_seq_groups ≡ s.decode_seq_groups =
                      ground (arith, h, e, e1, e2) in
                    record {
                      paid = ground (arith, h, e, e1, e2, same);
                      tokens_more =
                          rw (p, d, tokens_of-snoc s.prefill_seq_groups item)
                            (add_left (tokens_of s.prefill_seq_groups)
                              (tokens_of s.decode_seq_groups) tokens);
                      seqs_more =
                          rw (p, d, seqs_of-snoc s.prefill_seq_groups item, most)
                            (add_left (seqs_of s.prefill_seq_groups) (seqs_of s.decode_seq_groups)
                              seqs);
                    }
                | inr (false, e2) ↦
                    let item : ScheduledSequenceGroup = record {
                      seq_group = g';
                      token_chunk_size = pos 1;
                    } in
                    let single : tokens ≡ pos 1 =
                      ground (arith, h, e, e1, e2, int_beq_iff tokens (pos 1)) in
                    let p : s'.prefill_seq_groups ≡ s.prefill_seq_groups =
                      ground (arith, h, e, e1, e2, single) in
                    let d : s'.decode_seq_groups ≡ s.decode_seq_groups ++ item ∷ [] =
                      ground (arith, h, e, e1, e2, single) in
                    record {
                      paid = ground (arith, h, e, e1, e2, same, single);
                      tokens_more =
                          rw (p, d, tokens_of-snoc s.decode_seq_groups item, single)
                            (add_right (tokens_of s.prefill_seq_groups)
                              (tokens_of s.decode_seq_groups) (pos 1));
                      seqs_more =
                          rw (p, d, seqs_of-snoc s.decode_seq_groups item, most)
                            (add_right (seqs_of s.prefill_seq_groups) (seqs_of s.decode_seq_groups)
                              seqs);
                    }
              ]
            ]
      ]

  swap_in_group-IsPaid :
      (queue : List SequenceGroup) (s : SwappedState M) (g : SequenceGroup) (tokens seqs : ℤ)
      (s' : SwappedState M)
      → IsPaid (g ∷ queue) s
      → over_budget s.budget tokens seqs ≡ ok false
      → swap_in_group manager lookahead max_loras enable_chunking s g tokens seqs ≡ ok s'
      → seqs ≡ pos (get_max_num_running_seqs g)
      → IsPaid queue s'
  swap_in_group-IsPaid queue s g tokens seqs s' c b h n =
      let z = swap_in_group-Taken s g tokens seqs s' h n in
      record {
        within = rw z.paid (add-IsWithin s.budget g.request_id tokens seqs c.within b);
        fresh = rw z.paid (counted-AllFresh s.budget g queue tokens seqs c.fresh);
        spent =
            rw (z.paid, z.tokens_more, z.seqs_more)
              (counted-Spent budget s.budget g queue (all_tokens s) (all_seqs s) tokens seqs c.fresh
                c.spent);
      }

-- From a budget within its limits, and for a queue in which no request stands twice or counts in the budget
-- already, `_schedule_swapped` adds to the budget exactly the tokens and the sequences of the groups that it
-- swaps in, in their prefill or decoding, and leaves it within its limits.
pub schedule_swapped-IsWithin :
    {M : Type 0} (manager : BlockSpaceManager M) (lookahead : ℕ) (max_loras : Option ℕ)
    (enable_chunking : Bool) (now : ℤ) (queue : List SequenceGroup) (budget : SchedulingBudget)
    (curr_loras : Option (List ℕ)) (m : M) (queue' : List SequenceGroup) (s' : SwappedState M)
    → IsWithin budget
    → AllFresh budget queue
    → schedule_swapped manager lookahead max_loras enable_chunking now queue budget curr_loras m
      ≡ ok (queue', s')
    → IsWithin s'.budget × Spent budget s'.budget (all_tokens s') (all_seqs s')
unfolding schedule_swapped start_swapped ◌+ℤ◌
schedule_swapped-IsWithin {M} manager lookahead max_loras enable_chunking now queue budget
      curr_loras m queue' s' w f h =
    let start : SwappedState M = start_swapped budget curr_loras m in
    let sorted = sort_by_priority now queue in
    elim (Result-cases (swapped_loop manager lookahead max_loras enable_chunking sorted start)) [
      | inl e ↦ ground (arith, h, e.1)
      | inr ((q, s), e) ↦
          let c =
            swapped_loop-Invariant manager lookahead max_loras enable_chunking
              (IsPaid manager lookahead max_loras enable_chunking budget)
              (λ q s g c. record {
                within = c.within;
                fresh = tail-AllFresh s.budget g q c.fresh;
                spent = c.spent;
              })
              (swap_in_group-IsPaid manager lookahead max_loras enable_chunking budget) sorted start
              q s
              (record {
                within = w;
                fresh = sorted-AllFresh budget now queue f;
                spent = nothing-Spent budget;
              })
              e in
          let same : s' ≡ s = ground (arith, h, e) in rw same (c.within, c.spent)
    ]
