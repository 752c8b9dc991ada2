-- ===== src/Scheduler/Requests.antt =====
-- How often a request stands in a queue, and that no call on a group of
-- vllm_blend/vllm/core/scheduler.py changes the request it belongs to.
pub mod Running
pub mod Swapped
pub mod Prefills
pub mod Rounds
pub mod Calls
use cache_blend.Prelude.{
  ℕ, zero, suc, ◌+◌, ◌≡◌, refl, sym, ◌∙◌, Bool, true, false, Option, none, some, List, [], ◌∷◌,
  ◌++◌, length, Result, ok, raise, ◌>>=◌, ◌>>◌, bind_ok, ◌==◌, if◌then◌else◌, arith, last?, ap,
}
use cache_blend.Prelude.Int.{ℤ, ltb_ℤ}
use cache_blend.Prelude.Dict.{Dict}
use cache_blend.Sequence.Group.{SequenceGroup, get_max_num_running_seqs}
use cache_blend.Interfaces.{BlockSpaceManager}
use cache_blend.Policy.{get_priority, place_group, sorted_by, sort_by_priority}
use cache_blend.Scheduler.{
  PreemptionMode, preempt, preempt_by_recompute, swap_out, swap_in, allocate_and_set_running,
  set_status, update_seqs, ScheduledSequenceGroup,
}
use cache_blend.Scheduler.Running.{but_last}
use cache_blend.Scheduler.Swapped.{extendleft}
use cache_blend.Scheduler.Rounds.{groups_of}

abbrev pub hit : ℕ → SequenceGroup → ℕ
hit i g = if g.request_id == i then 1 else 0

unfoldable pub occurs : ℕ → List SequenceGroup → ℕ
occurs i [] = 0
occurs i (g ∷ gs) = hit i g + occurs i gs

pub occurs-cons :
    (i : ℕ) (g : SequenceGroup) (gs : List SequenceGroup)
    → occurs i (g ∷ gs) ≡ hit i g + occurs i gs
unfolding occurs
occurs-cons i g gs = refl

pub occurs-nil : (i : ℕ) → occurs i [] ≡ 0
unfolding occurs
occurs-nil i = refl

pub occurs-append :
    (i : ℕ) (gs hs : List SequenceGroup) → occurs i (gs ++ hs) ≡ occurs i gs + occurs i hs
unfolding occurs
occurs-append i [] hs = omega arith
occurs-append i (g ∷ gs) hs = omega (arith, occurs-append i gs hs)

pub groups_of-append :
    (xs ys : List ScheduledSequenceGroup) → groups_of (xs ++ ys) ≡ groups_of xs ++ groups_of ys
groups_of-append [] ys = refl
groups_of-append (x ∷ xs) ys = rw (groups_of-append xs ys)

pub occurs-groups_of :
    (i : ℕ) (xs ys : List ScheduledSequenceGroup)
    → occurs i (groups_of (xs ++ ys)) ≡ occurs i (groups_of xs) + occurs i (groups_of ys)
unfolding occurs
occurs-groups_of i [] ys = omega arith
occurs-groups_of i (x ∷ xs) ys = omega (arith, occurs-groups_of i xs ys)

pub occurs_none :
    (i : ℕ) (xs : List ScheduledSequenceGroup)
    → (length xs == 0) ≡ true
    → occurs i (groups_of xs) ≡ 0
unfolding occurs
occurs_none i [] h = refl
occurs_none i (x ∷ xs) h = ground arith

occurs-place_group :
    (i : ℕ) (key : SequenceGroup → ℤ) (g : SequenceGroup) (gs : List SequenceGroup)
    → occurs i (place_group key g gs) ≡ hit i g + occurs i gs
unfolding occurs place_group
occurs-place_group i key g [] = refl
occurs-place_group i key g (x ∷ gs) = ground (arith, occurs-place_group i key g gs)

occurs-sorted_by :
    (i : ℕ) (key : SequenceGroup → ℤ) (gs : List SequenceGroup)
    → occurs i (sorted_by key gs) ≡ occurs i gs
unfolding sorted_by occurs
occurs-sorted_by i key [] = refl
occurs-sorted_by i key (g ∷ gs) =
    occurs-place_group i key g (sorted_by key gs) ∙ ap (◌+◌ (hit i g)) (occurs-sorted_by i key gs)

pub occurs-sort_by_priority :
    (i : ℕ) (now : ℤ) (gs : List SequenceGroup) → occurs i (sort_by_priority now gs) ≡ occurs i gs
unfolding sort_by_priority
occurs-sort_by_priority i now gs = occurs-sorted_by i (get_priority now) gs

pub occurs-extendleft :
    (i : ℕ) (queue gs : List SequenceGroup)
    → occurs i (extendleft queue gs) ≡ occurs i queue + occurs i gs
unfolding extendleft occurs
occurs-extendleft i queue [] = omega arith
occurs-extendleft i queue (g ∷ gs) = omega (arith, occurs-extendleft i (g ∷ queue) gs)

pub occurs-but_last :
    (i : ℕ) (queue : List SequenceGroup) (victim : SequenceGroup)
    → last? queue ≡ some victim
    → occurs i (but_last queue) + hit i victim ≡ occurs i queue
unfolding but_last occurs
occurs-but_last i [] victim h = cc
occurs-but_last i (g ∷ []) victim h = ground (arith, h)
occurs-but_last i (g ∷ x ∷ gs) victim h = omega (arith, occurs-but_last i (x ∷ gs) victim h)

pub ruleset counts = (arith, occurs-append, occurs-groups_of, occurs-nil, occurs-extendleft)

module _ {M : Type 0} (manager : BlockSpaceManager M) where
  pub request_id-preempt_by_recompute :
      (m : M) (g : SequenceGroup) {out : SequenceGroup × M}
      → preempt_by_recompute manager m g ≡ ok out
      → out.0.request_id ≡ g.request_id
  unfolding preempt_by_recompute update_seqs
  request_id-preempt_by_recompute m g h = ground arith

  pub request_id-preempt :
      (m : M) (g : SequenceGroup) (blocks : Dict ℕ ℕ)
      {out : PreemptionMode × SequenceGroup × Dict ℕ ℕ × M}
      → preempt manager m g blocks ≡ ok out
      → out.1.request_id ≡ g.request_id
  unfolding preempt preempt_by_recompute swap_out update_seqs set_status
  request_id-preempt m g blocks h = ground arith

  pub request_id-swap_in :
      (m : M) (g : SequenceGroup) (blocks : Dict ℕ ℕ) {out : SequenceGroup × Dict ℕ ℕ × M}
      → swap_in manager m g blocks ≡ ok out
      → out.0.request_id ≡ g.request_id
  unfolding swap_in update_seqs set_status
  request_id-swap_in m g blocks h = ground arith

  pub request_id-allocate_and_set_running :
      (m : M) (g : SequenceGroup) {out : SequenceGroup × M}
      → allocate_and_set_running manager m g ≡ ok out
      → out.0.request_id ≡ g.request_id
  unfolding allocate_and_set_running update_seqs set_status
  request_id-allocate_and_set_running m g h = ground arith
