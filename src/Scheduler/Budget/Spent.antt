-- ===== src/Scheduler/Budget/Spent.antt =====
-- What the groups of a round add to the `SchedulingBudget` of vllm_blend/vllm/core/scheduler.py.
use cache_blend.Prelude.{
  ℕ, ◌+◌, ◌≤◌, ◌≡◌, refl, sym, ap, ◌∙◌, true, false, not, List, [], ◌∷◌, ◌++◌, length, mem,
  mem-append, if◌then◌else◌, arith,
}
use cache_blend.Prelude.Int.{ℤ, pos, ◌+ℤ◌, +ℤ_comm, +ℤ_assoc, +ℤ_zero}
use cache_blend.Prelude.Dict.{Dict}
use cache_blend.Sequence.{
  Sequence, SequenceStatus, waiting, running, swapped, is_finished, status_is_finished,
}
use cache_blend.Sequence.Group.{
  SequenceGroup, get_max_num_running_seqs, num_seqs, num_unfinished_seqs, get_unfinished_seqs,
  values_where, status_beq,
}
use cache_blend.Scheduler.{
  ScheduledSequenceGroup, set_status, update_seqs, update_status, with_status,
}
use cache_blend.Scheduler.Budget.{SchedulingBudget, add_num_batched_tokens, add_num_seqs}
use cache_blend.Scheduler.Budget.Limits.{counted}
use cache_blend.Scheduler.Requests.{occurs, occurs-cons}

-- The tokens and the sequences of scheduled groups.
abbrev pub tokens_of : List ScheduledSequenceGroup → ℤ
tokens_of [] = pos 0
tokens_of (g ∷ gs) = g.token_chunk_size +ℤ tokens_of gs

abbrev pub seqs_of : List ScheduledSequenceGroup → ℤ
seqs_of [] = pos 0
seqs_of (g ∷ gs) = pos (get_max_num_running_seqs g.seq_group) +ℤ seqs_of gs

pub tokens_of-snoc :
    (gs : List ScheduledSequenceGroup) (g : ScheduledSequenceGroup)
    → tokens_of (gs ++ g ∷ []) ≡ tokens_of gs +ℤ g.token_chunk_size
tokens_of-snoc [] g = +ℤ_comm g.token_chunk_size (pos 0)
tokens_of-snoc (x ∷ gs) g =
    ap (λ n. x.token_chunk_size +ℤ n) (tokens_of-snoc gs g)
    ∙ sym (+ℤ_assoc x.token_chunk_size (tokens_of gs) g.token_chunk_size)

pub seqs_of-snoc :
    (gs : List ScheduledSequenceGroup) (g : ScheduledSequenceGroup)
    → seqs_of (gs ++ g ∷ []) ≡ seqs_of gs +ℤ pos (get_max_num_running_seqs g.seq_group)
seqs_of-snoc [] g = +ℤ_comm (pos (get_max_num_running_seqs g.seq_group)) (pos 0)
seqs_of-snoc (x ∷ gs) g =
    let first = pos (get_max_num_running_seqs x.seq_group) in
    ap (λ n. first +ℤ n) (seqs_of-snoc gs g)
    ∙ sym (+ℤ_assoc first (seqs_of gs) (pos (get_max_num_running_seqs g.seq_group)))

-- `b` is `b0` with so many tokens and sequences added.
pub record Spent (b0 b : SchedulingBudget) (tokens seqs : ℤ) : Type 0 where
  pub token_limit : b.token_budget ≡ b0.token_budget
  pub seq_limit : b.max_num_seqs ≡ b0.max_num_seqs
  pub all_tokens : b.num_batched_tokens ≡ b0.num_batched_tokens +ℤ tokens
  pub all_seqs : b.num_curr_seqs ≡ b0.num_curr_seqs +ℤ seqs

abbrev pub once : ℕ → List ℕ → ℕ
once i ids = if mem i ids then 1 else 0

-- No request of the queue stands in it twice or counts in the budget already.
abbrev pub AllFresh : SchedulingBudget → List SequenceGroup → Type 0
AllFresh b queue =
    (i : ℕ)
    → (occurs i queue + once i b.request_ids_num_batched_tokens ≤ 1)
      × (occurs i queue + once i b.request_ids_num_curr_seqs ≤ 1)

pub tail-AllFresh :
    (b : SchedulingBudget) (g : SequenceGroup) (queue : List SequenceGroup)
    → AllFresh b (g ∷ queue)
    → AllFresh b queue
tail-AllFresh b g queue fresh i =
    let (t, q) = fresh i in
    let more = occurs-cons i g queue in (omega (arith, t, more), omega (arith, q, more))

head-AllFresh :
    (b : SchedulingBudget) (g : SequenceGroup) (queue : List SequenceGroup)
    → AllFresh b (g ∷ queue)
    → (mem g.request_id b.request_ids_num_batched_tokens ≡ false)
      × (mem g.request_id b.request_ids_num_curr_seqs ≡ false)
head-AllFresh b g queue fresh =
    let (t, q) = fresh g.request_id in
    let more = occurs-cons g.request_id g queue in
    (ground (arith, t, more), ground (arith, q, more))

-- The first group of the queue is added.
pub counted-AllFresh :
    (b : SchedulingBudget) (g : SequenceGroup) (queue : List SequenceGroup) (tokens seqs : ℤ)
    → AllFresh b (g ∷ queue)
    → AllFresh (counted b g.request_id tokens seqs) queue
unfolding add_num_batched_tokens add_num_seqs
counted-AllFresh b g queue tokens seqs fresh i =
    let (t, q) = fresh i in
    let (t0, q0) = head-AllFresh b g queue fresh in
    let more = occurs-cons i g queue in
    let in_t = mem-append i b.request_ids_num_batched_tokens (g.request_id ∷ []) in
    let in_q = mem-append i b.request_ids_num_curr_seqs (g.request_id ∷ []) in
    (ground (arith, t, t0, q0, more, in_t), ground (arith, q, t0, q0, more, in_q))

pub counted-Spent :
    (b0 b : SchedulingBudget) (g : SequenceGroup) (queue : List SequenceGroup)
    (tokens seqs more_tokens more_seqs : ℤ)
    → AllFresh b (g ∷ queue)
    → Spent b0 b tokens seqs
    → Spent b0
        (counted b g.request_id more_tokens more_seqs)
        (tokens +ℤ more_tokens)
        (seqs +ℤ more_seqs)
unfolding add_num_batched_tokens add_num_seqs
counted-Spent b0 b g queue tokens seqs more_tokens more_seqs fresh s =
    let (t, q) = head-AllFresh b g queue fresh in
    rw (t, q)
      (record {
        token_limit = s.token_limit;
        seq_limit = s.seq_limit;
        all_tokens =
            ap (λ n. n +ℤ more_tokens) s.all_tokens
            ∙ +ℤ_assoc b0.num_batched_tokens tokens more_tokens;
        all_seqs = ap (λ n. n +ℤ more_seqs) s.all_seqs ∙ +ℤ_assoc b0.num_curr_seqs seqs more_seqs;
      })

-- A group that starts to run, or runs again, has as many sequences to run as before.
abbrev IsPaused : SequenceStatus → Type 0
IsPaused from = (st : SequenceStatus) → status_beq st from ≡ true → status_is_finished st ≡ false

pub waiting-IsPaused : IsPaused waiting
unfolding status_is_finished
waiting-IsPaused st h = ground arith

pub swapped-IsPaused : IsPaused swapped
unfolding status_is_finished
swapped-IsPaused st h = ground arith

update_status-unfinished :
    (from : SequenceStatus) (d : Dict ℕ Sequence)
    → IsPaused from
    → (length (update_status from (with_status running) d) ≡ length d)
      × (length
            (values_where (λ s. not (is_finished s)) (update_status from (with_status running) d))
          ≡ length (values_where (λ s. not (is_finished s)) d))
unfolding update_status values_where is_finished status_is_finished
update_status-unfinished from [] paused = (refl, refl)
update_status-unfinished from ((k, s) ∷ d) paused =
    let (len, unfinished) = update_status-unfinished from d paused in
    let unended = paused s.status in (ground (arith, len), ground (arith, unfinished, unended))

pub get_max-set_status :
    (from : SequenceStatus) (g : SequenceGroup)
    → IsPaused from
    → get_max_num_running_seqs (set_status from running g) ≡ get_max_num_running_seqs g
unfolding get_max_num_running_seqs num_seqs num_unfinished_seqs get_unfinished_seqs set_status
    update_seqs
get_max-set_status from g paused =
    let (len, unfinished) = update_status-unfinished from g.seqs_dict paused in rw (len, unfinished)

pub nothing-Spent : (b : SchedulingBudget) → Spent b b (pos 0) (pos 0)
nothing-Spent b = record {
  token_limit = refl;
  seq_limit = refl;
  all_tokens = +ℤ_zero b.num_batched_tokens;
  all_seqs = +ℤ_zero b.num_curr_seqs;
}

pub request_id-set_status :
    (from : SequenceStatus) (g : SequenceGroup)
    → (set_status from running g).request_id ≡ g.request_id
unfolding set_status update_seqs
request_id-set_status from g = refl
