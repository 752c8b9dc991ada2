-- ===== src/Scheduler/Budget/Limits.antt =====
-- The limits of `SchedulingBudget` in vllm_blend/vllm/core/scheduler.py, and that what a request added to
-- the budget can be taken off again.
use cache_blend.Prelude.{ℕ, ◌≡◌, false, mem, mem-snoc, remove-snoc, ok, arith}
use cache_blend.Prelude.Int.{ℤ, ◌≤ℤ◌, +ℤ_cancel}
use cache_blend.Scheduler.Budget.{
  SchedulingBudget, can_schedule, add_num_batched_tokens, subtract_num_batched_tokens, add_num_seqs,
  subtract_num_seqs,
}
use cache_blend.Scheduler.Swapped.{over_budget}

-- The tokens and the sequences stay within their limits.
abbrev pub IsWithin : SchedulingBudget → Type 0
IsWithin b = (b.num_batched_tokens ≤ℤ b.token_budget) × (b.num_curr_seqs ≤ℤ b.max_num_seqs)

pub add-IsWithin :
    (b : SchedulingBudget) (req_id : ℕ) (tokens seqs : ℤ)
    → IsWithin b
    → over_budget b tokens seqs ≡ ok false
    → IsWithin (add_num_seqs (add_num_batched_tokens b req_id tokens) req_id seqs)
unfolding over_budget can_schedule add_num_seqs add_num_batched_tokens
add-IsWithin b req_id tokens seqs w h = ground arith

-- The tokens and the sequences of a request are added, as for a prompt or a swapped group.
abbrev pub counted : SchedulingBudget → ℕ → ℤ → ℤ → SchedulingBudget
counted b req_id tokens seqs = add_num_seqs (add_num_batched_tokens b req_id tokens) req_id seqs

-- For a request that a budget counts neither by its tokens nor by its sequences: once both are added, adding
-- any more for it is ignored, and subtracting both, the tokens first as when a running group gives back its
-- share, leaves the budget as it was.
pub subtract-add :
    (b : SchedulingBudget) (req_id : ℕ) (tokens seqs more_tokens more_seqs : ℤ)
    → mem req_id b.request_ids_num_batched_tokens ≡ false
    → mem req_id b.request_ids_num_curr_seqs ≡ false
    → (add_num_seqs
          (add_num_batched_tokens (counted b req_id tokens seqs) req_id more_tokens)
          req_id
          more_seqs
        ≡ counted b req_id tokens seqs)
      × (subtract_num_seqs
            (subtract_num_batched_tokens (counted b req_id tokens seqs) req_id tokens)
            req_id
            seqs
          ≡ b)
unfolding add_num_batched_tokens subtract_num_batched_tokens add_num_seqs subtract_num_seqs
subtract-add b req_id tokens seqs more_tokens more_seqs no_tokens no_seqs =
    let t = b.request_ids_num_batched_tokens in
    let q = b.request_ids_num_curr_seqs in
    (
      rw (no_tokens, no_seqs, mem-snoc req_id t, mem-snoc req_id q),
      rw (
        no_tokens,
        no_seqs,
        mem-snoc req_id t,
        mem-snoc req_id q,
        remove-snoc req_id t no_tokens,
        remove-snoc req_id q no_seqs,
        +ℤ_cancel b.num_batched_tokens tokens,
        +ℤ_cancel b.num_curr_seqs seqs,
      ),
    )
