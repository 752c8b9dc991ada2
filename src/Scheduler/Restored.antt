-- ===== src/Scheduler/Restored.antt =====
-- A group that vllm_blend/vllm/core/scheduler.py swaps out and in again is as it was.
use cache_blend.Prelude.{
  ℕ, ◌≡◌, refl, sym, ap, ◌∙◌, true, some, [], ◌∷◌, ok, Bool-cases, inl, inr, arith,
}
use cache_blend.Prelude.Dict.{Dict}
use cache_blend.Sequence.{
  Sequence, SequenceStatus, waiting, running, swapped, finished_stopped, finished_length_capped,
  finished_aborted, finished_ignored,
}
use cache_blend.Sequence.Group.{SequenceGroup, get_seqs, values_where, status_beq}
use cache_blend.Interfaces.{BlockSpaceManager}
use cache_blend.Scheduler.{set_status, update_seqs, update_status, with_status, swap_in, swap_out}

with_status_same : (s : Sequence) (st : SequenceStatus) → s.status ≡ st → with_status st s ≡ s
with_status_same s st e = ap (λ x. with_status x s) (sym e)

status_of_test : (s : Sequence) → status_beq s.status running ≡ true → s.status ≡ running
status_of_test s h = elim_status s.status h
  where
    elim_status : (st : SequenceStatus) → status_beq st running ≡ true → st ≡ running
    elim_status running h = refl
    elim_status waiting h = cc
    elim_status swapped h = cc
    elim_status finished_stopped h = cc
    elim_status finished_length_capped h = cc
    elim_status finished_aborted h = cc
    elim_status finished_ignored h = cc

update_status-restored :
    (d : Dict ℕ Sequence)
    → values_where (λ s. status_beq s.status swapped) d ≡ []
    → update_status swapped (with_status running) (update_status running (with_status swapped) d)
      ≡ d
unfolding update_status values_where
update_status-restored [] h = refl
update_status-restored ((k, s) ∷ d) h = elim (Bool-cases (status_beq s.status swapped)) [
  | inl z ↦ ground (arith, h, z)
  | inr z ↦
      let rest = update_status-restored d (ground (arith, h, z)) in
      elim (Bool-cases (status_beq s.status running)) [
        | inl r ↦ let same = with_status_same s running (status_of_test s r) in rw (r, same, rest)
        | inr r ↦ rw (r, z, rest)
      ]
]

-- A running group of which no sequence was swapped out before, swapped out by one call and in by a later
-- one, whatever happened to the blocks meanwhile, is the group it was.
pub swap_in-swap_out :
    {M : Type 0} (manager : BlockSpaceManager M) (m m' m1 m1' : M) (g g' g'' : SequenceGroup)
    (out out' into into' : Dict ℕ ℕ)
    → get_seqs g (some swapped) ≡ []
    → swap_out manager m g out ≡ ok (g', out', m')
    → swap_in manager m1 g' into ≡ ok (g'', into', m1')
    → g'' ≡ g
unfolding swap_out swap_in set_status update_seqs get_seqs
swap_in-swap_out manager m m' m1 m1' g g' g'' out out' into into' none_swapped h k =
    let same = update_status-restored g.seqs_dict none_swapped in
    let gone : g' ≡ set_status running swapped g = ground (arith, h) in
    let back : g'' ≡ set_status swapped running g' = ground (arith, k) in
    back ∙ ap (set_status swapped running) gone ∙ ap (λ d. record g { seqs_dict = d }) same
