-- ===== src/Policy.antt =====
-- vllm_blend/vllm/core/policy.py: the order in which the queues are served. Python's `sorted` with
-- `reverse=True` is stable: groups of the same priority keep their order.
pub mod Sorted
use cache_blend.Prelude.{List, [], ◌∷◌, if◌then◌else◌}
use cache_blend.Prelude.Int.{ℤ, ◌-ℤ◌, ltb_ℤ}
use cache_blend.Sequence.Group.{SequenceGroup}

-- `FCFS.get_priority`.
unfoldable pub get_priority : ℤ → SequenceGroup → ℤ
get_priority now seq_group = now -ℤ seq_group.metrics.arrival_time

-- The place of a group among groups that come after it and are sorted.
unfoldable pub place_group :
    (SequenceGroup → ℤ) → SequenceGroup → List SequenceGroup → List SequenceGroup
place_group key g [] = g ∷ []
place_group key g (x ∷ xs) = if ltb_ℤ (key g) (key x) then x ∷ place_group key g xs else g ∷ x ∷ xs

-- `sorted(groups, key=key, reverse=True)`.
unfoldable pub sorted_by : (SequenceGroup → ℤ) → List SequenceGroup → List SequenceGroup
unfolding place_group
sorted_by key [] = []
sorted_by key (x ∷ xs) = place_group key x (sorted_by key xs)

unfoldable pub sort_by_priority : ℤ → List SequenceGroup → List SequenceGroup
unfolding sorted_by
sort_by_priority now seq_groups = sorted_by (get_priority now) seq_groups
