-- ===== src/Scheduler/Config.antt =====
-- `SchedulerConfig` of vllm_blend/vllm/config.py: its defaults and its check, and the limit on prompts that
-- vllm_blend/vllm/core/scheduler.py takes from it.
use cache_blend.Prelude.{
  ℕ, ◌≤◌, ◌≡◌, ◌⊎◌, inl, inr, Bool, ◌&&◌, not, Option, none, some, ltb, Result, ok, raise, ◌>>◌,
  check, value_error, if◌then◌else◌, arith, Bool-cases, Bool-cases,
}
use cache_blend.Prelude.Int.{ℤ, pos, pos_part, ltb_ℤ}
use cache_blend.Scheduler.{SchedulerConfig, new_scheduler}

abbrev max : ℕ → ℕ → ℕ
max a b = if ltb a b then b else a

-- The default of `max_num_batched_tokens`.
unfoldable pub batched_tokens : Option ℕ → ℕ → Bool → ℕ
batched_tokens (some n) max_model_len enable_chunked_prefill = n
batched_tokens none max_model_len enable_chunked_prefill =
    if enable_chunked_prefill then 768 else max max_model_len 2048

-- `SchedulerConfig.__init__` with `_verify_args`; the delay factor is `delay_num / delay_den`.
unfoldable pub new_scheduler_config : Option ℕ → ℕ → ℕ → ℤ → ℕ → ℕ → Bool → Result SchedulerConfig
unfolding batched_tokens
new_scheduler_config max_num_batched_tokens max_num_seqs max_model_len num_lookahead_slots delay_num
      delay_den enable_chunked_prefill =
    do
      let tokens = batched_tokens max_num_batched_tokens max_model_len enable_chunked_prefill
      check (not (ltb tokens max_model_len && not enable_chunked_prefill)) value_error
      check (not (ltb tokens max_num_seqs)) value_error
      check (not (ltb_ℤ num_lookahead_slots (pos 0))) value_error
      ok (record {
        max_num_batched_tokens = tokens;
        max_num_seqs = max_num_seqs;
        max_model_len = max_model_len;
        num_lookahead_slots = pos_part num_lookahead_slots;
        delay_num = delay_num;
        delay_den = delay_den;
        chunked_prefill_enabled = enable_chunked_prefill;
      })

-- A configuration either is refused or lets the scheduler take every prompt that the model takes: the limit
-- on prompts is the model's length, with and without chunks, and a round has a token for each sequence.
pub new_scheduler_config-prompt_limit :
    {M : Type 0} (max_num_batched_tokens : Option ℕ) (max_num_seqs max_model_len : ℕ)
    (num_lookahead_slots : ℤ) (delay_num delay_den : ℕ) (chunked : Bool) (max_loras : Option ℕ)
    (m : M)
    → (new_scheduler_config max_num_batched_tokens max_num_seqs max_model_len num_lookahead_slots
          delay_num delay_den chunked
        ≡ raise value_error)
      ⊎ ((c : SchedulerConfig) × (new_scheduler_config max_num_batched_tokens max_num_seqs
              max_model_len num_lookahead_slots delay_num delay_den chunked
            ≡ ok c)
          × ((new_scheduler c max_loras m).prompt_limit ≡ max_model_len)
          × (c.max_num_seqs ≤ c.max_num_batched_tokens))
unfolding new_scheduler_config new_scheduler
new_scheduler_config-prompt_limit max_num_batched_tokens max_num_seqs max_model_len
      num_lookahead_slots delay_num delay_den chunked max_loras m =
    let tokens = batched_tokens max_num_batched_tokens max_model_len chunked in
    elim (Bool-cases (ltb tokens max_model_len && not chunked)) [
      | inl e ↦ inl (rw e)
      | inr e ↦ elim (Bool-cases (ltb tokens max_num_seqs)) [
        | inl e1 ↦ inl (rw (e, e1))
        | inr e1 ↦ elim (Bool-cases (ltb_ℤ num_lookahead_slots (pos 0))) [
          | inl e2 ↦ inl (rw (e, e1, e2))
          | inr e2 ↦ inr (
            record {
              max_num_batched_tokens = tokens;
              max_num_seqs = max_num_seqs;
              max_model_len = max_model_len;
              num_lookahead_slots = pos_part num_lookahead_slots;
              delay_num = delay_num;
              delay_den = delay_den;
              chunked_prefill_enabled = chunked;
            },
            rw (e, e1, e2),
            ground (arith, e),
            ground (arith, e1),
          )
        ]
      ]
    ]
