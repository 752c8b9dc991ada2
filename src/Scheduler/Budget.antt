-- ===== src/Scheduler/Budget.antt =====
-- `SchedulingBudget` of vllm_blend/vllm/core/scheduler.py. The two counters are integers, since they are
-- subtracted from. The identifiers of requests are numbers, as in the groups.
pub mod Limits
pub mod Spent
use cache_blend.Prelude.{
  ℕ, suc, ◌+◌, ◌-◌, ◌≡◌, refl, Bool, true, false, ◌&&◌, not, List, [], ◌∷◌, ◌++◌, mem, remove,
  mem-remove, Result, ok, raise, ◌>>=◌, ◌>>◌, assert, assertion_error, ◌==◌, ◌⊎◌, inl, inr,
  Bool-cases, arith, if◌then◌else◌,
}
use cache_blend.Prelude.Int.{
  ℤ, pos, negsuc, pos_part, neg_part, ◌+ℤ◌, ◌-ℤ◌, ◌≤ℤ◌, ltb_ℤ, leb_ℤ, int_laws,
}
use cache_blend.Prelude.Dict.{int_beq}

pub record SchedulingBudget : Type 0 where
  pub token_budget : ℤ
  pub max_num_seqs : ℤ
  pub request_ids_num_batched_tokens : List ℕ
  pub request_ids_num_curr_seqs : List ℕ
  pub num_batched_tokens : ℤ
  pub num_curr_seqs : ℤ

unfoldable pub new_budget : ℤ → ℤ → SchedulingBudget
new_budget token_budget max_num_seqs = record {
  token_budget = token_budget;
  max_num_seqs = max_num_seqs;
  request_ids_num_batched_tokens = [];
  request_ids_num_curr_seqs = [];
  num_batched_tokens = pos 0;
  num_curr_seqs = pos 0;
}

unfoldable pub can_schedule : SchedulingBudget → ℤ → ℤ → Result Bool
can_schedule b num_new_tokens num_new_seqs = do
  assert (not (int_beq num_new_tokens (pos 0)))
  assert (not (int_beq num_new_seqs (pos 0)))
  ok (
      leb_ℤ (b.num_batched_tokens +ℤ num_new_tokens) b.token_budget
      && leb_ℤ (b.num_curr_seqs +ℤ num_new_seqs) b.max_num_seqs)

unfoldable pub remaining_token_budget : SchedulingBudget → ℤ
remaining_token_budget b = b.token_budget -ℤ b.num_batched_tokens

unfoldable pub add_num_batched_tokens : SchedulingBudget → ℕ → ℤ → SchedulingBudget
add_num_batched_tokens b req_id num_batched_tokens =
    if mem req_id b.request_ids_num_batched_tokens then b else record b {
      request_ids_num_batched_tokens = b.request_ids_num_batched_tokens ++ req_id ∷ [];
      num_batched_tokens = b.num_batched_tokens +ℤ num_batched_tokens;
    }

unfoldable pub subtract_num_batched_tokens : SchedulingBudget → ℕ → ℤ → SchedulingBudget
subtract_num_batched_tokens b req_id num_batched_tokens =
    if mem req_id b.request_ids_num_batched_tokens
    then record b {
      request_ids_num_batched_tokens = remove req_id b.request_ids_num_batched_tokens;
      num_batched_tokens = b.num_batched_tokens -ℤ num_batched_tokens;
    }
    else b

unfoldable pub add_num_seqs : SchedulingBudget → ℕ → ℤ → SchedulingBudget
add_num_seqs b req_id num_curr_seqs =
    if mem req_id b.request_ids_num_curr_seqs then b else record b {
      request_ids_num_curr_seqs = b.request_ids_num_curr_seqs ++ req_id ∷ [];
      num_curr_seqs = b.num_curr_seqs +ℤ num_curr_seqs;
    }

unfoldable pub subtract_num_seqs : SchedulingBudget → ℕ → ℤ → SchedulingBudget
subtract_num_seqs b req_id num_curr_seqs =
    if mem req_id b.request_ids_num_curr_seqs
    then record b {
      request_ids_num_curr_seqs = remove req_id b.request_ids_num_curr_seqs;
      num_curr_seqs = b.num_curr_seqs -ℤ num_curr_seqs;
    }
    else b
