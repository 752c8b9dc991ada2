-- ===== src/Policy/Sorted.antt =====
-- `sort_by_priority` of vllm_blend/vllm/core/policy.py serves the groups in the order of their arrival.
use cache_blend.Prelude.{◌≡◌, refl, List, [], ◌∷◌, if◌then◌else◌, arith, Bool-cases, inl, inr}
use cache_blend.Prelude.Int.{ℤ, ◌≤ℤ◌, ltb_ℤ, -ℤ_parts}
use cache_blend.Prelude.Dict.{int_beq}
use cache_blend.Sequence.Group.{SequenceGroup}
use cache_blend.Policy.{get_priority, place_group, sorted_by, sort_by_priority}

-- No group of the list arrived before `t`.
abbrev pub AllFrom : ℤ → List SequenceGroup → Type 0
AllFrom t [] = Unit {0}
AllFrom t (g ∷ gs) = (t ≤ℤ g.metrics.arrival_time) × AllFrom t gs

abbrev pub IsSorted : List SequenceGroup → Type 0
IsSorted [] = Unit {0}
IsSorted (g ∷ gs) = AllFrom g.metrics.arrival_time gs × IsSorted gs

-- The groups that arrived at `t`, in their order.
unfoldable pub arrived_at : ℤ → List SequenceGroup → List SequenceGroup
arrived_at t [] = []
arrived_at t (g ∷ gs) =
    let rest = arrived_at t gs in if int_beq g.metrics.arrival_time t then g ∷ rest else rest

-- A higher priority is an earlier arrival.
earlier :
    (now : ℤ) (g x : SequenceGroup)
    → ltb_ℤ (get_priority now g) (get_priority now x)
      ≡ ltb_ℤ x.metrics.arrival_time g.metrics.arrival_time
unfolding get_priority
earlier now g x =
    let a = -ℤ_parts now g.metrics.arrival_time in
    let b = -ℤ_parts now x.metrics.arrival_time in ground (arith, a, b)

AllFrom-trans : (t u : ℤ) (gs : List SequenceGroup) → t ≤ℤ u → AllFrom u gs → AllFrom t gs
AllFrom-trans t u [] h k = tt
AllFrom-trans t u (g ∷ gs) h (k, ks) = (omega (arith, h, k), AllFrom-trans t u gs h ks)

AllFrom-place_group :
    (now t : ℤ) (g : SequenceGroup) (gs : List SequenceGroup)
    → t ≤ℤ g.metrics.arrival_time
    → AllFrom t gs
    → AllFrom t (place_group (get_priority now) g gs)
unfolding place_group
AllFrom-place_group now t g [] h k = (h, tt)
AllFrom-place_group now t g (x ∷ gs) h (k, ks) =
    elim (Bool-cases (ltb_ℤ (get_priority now g) (get_priority now x))) [
      | inl e ↦ rw e (k, AllFrom-place_group now t g gs h ks)
      | inr e ↦ rw e (h, (k, ks))
    ]

place_group-IsSorted :
    (now : ℤ) (g : SequenceGroup) (gs : List SequenceGroup)
    → IsSorted gs
    → IsSorted (place_group (get_priority now) g gs)
unfolding place_group
place_group-IsSorted now g [] h = (tt, tt)
place_group-IsSorted now g (x ∷ gs) (h, hs) =
    let e' = earlier now g x in
    elim (Bool-cases (ltb_ℤ (get_priority now g) (get_priority now x))) [
      | inl e ↦ rw e (
        AllFrom-place_group now x.metrics.arrival_time g gs (ground (arith, e, e')) h,
        place_group-IsSorted now g gs hs,
      )
      | inr e ↦
          let le : g.metrics.arrival_time ≤ℤ x.metrics.arrival_time = ground (arith, e, e') in
          rw e ((le, AllFrom-trans g.metrics.arrival_time x.metrics.arrival_time gs le h), (h, hs))
    ]

arrived_at-place_group :
    (now t : ℤ) (g : SequenceGroup) (gs : List SequenceGroup)
    → arrived_at t (place_group (get_priority now) g gs) ≡ arrived_at t (g ∷ gs)
unfolding place_group arrived_at
arrived_at-place_group now t g [] = refl
arrived_at-place_group now t g (x ∷ gs) =
    let e' = earlier now g x in
    let rest = arrived_at-place_group now t g gs in ground (arith, e', rest)

sort_by_priority-IsSorted :
    (now : ℤ) (gs : List SequenceGroup) → IsSorted (sorted_by (get_priority now) gs)
unfolding sorted_by
sort_by_priority-IsSorted now [] = tt
sort_by_priority-IsSorted now (g ∷ gs) =
    place_group-IsSorted now g (sorted_by (get_priority now) gs) (sort_by_priority-IsSorted now gs)

arrived_at-sorted_by :
    (now t : ℤ) (gs : List SequenceGroup)
    → arrived_at t (sorted_by (get_priority now) gs) ≡ arrived_at t gs
unfolding sorted_by arrived_at
arrived_at-sorted_by now t [] = refl
arrived_at-sorted_by now t (g ∷ gs) =
    let placed = arrived_at-place_group now t g (sorted_by (get_priority now) gs) in
    let rest = arrived_at-sorted_by now t gs in ground (arith, placed, rest)

-- The sorted queue is in the order of arrival, and the groups of each time of arrival are those of the
-- queue, in their order there: nothing is lost, and the sort is stable.
pub sort_by_priority-Stable :
    (now t : ℤ) (gs : List SequenceGroup)
    → IsSorted (sort_by_priority now gs)
      × (arrived_at t (sort_by_priority now gs) ≡ arrived_at t gs)
unfolding sort_by_priority
sort_by_priority-Stable now t gs = (sort_by_priority-IsSorted now gs, arrived_at-sorted_by now t gs)
