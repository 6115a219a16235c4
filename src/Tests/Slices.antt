-- ===== src/Tests/Slices.antt =====
-- Examples of the theorems on `OffsetTracker` of src/wasmall/src/util.rs.
use crucible_rt.Prelude.{ℕ, ◌≤◌, ◌<◌, ◌≡◌, ◌⊎◌, refl, arith, List, [], ◌∷◌, none, some}
use crucible_rt.Tracker.{
  insert_slice, new_raw, lookup_parent_raw, first_below, first_from, ends_before, starts_after,
}
use crucible_rt.Tracker.Slices.{new_raw-one, new_raw-two, lookup_parent_raw-one}

abbrev tracked : List (ℕ × ℕ)
tracked = (10, 20) ∷ (40, 60) ∷ []

new_raw-one_example : (25 ≤ 30) × ((20 ≤ 25) ⊎ (30 ≤ 10))
new_raw-one_example =
    new_raw-one 10 20 25 30 ((10, 20) ∷ (25, 30) ∷ [])
      (unfold new_raw first_below first_from ends_before starts_after insert_slice in refl)

new_raw-two_example : new_raw 50 70 tracked ≡ some ((10, 20) ∷ (40, 60) ∷ (50, 70) ∷ [])
new_raw-two_example =
    new_raw-two 10 20 40 60 50 70 (omega arith) (omega arith) (omega arith) (omega arith)
      (omega arith) (omega arith)

lookup_parent_raw-one_example :
    ((10 < 15) × (15 < 20) → lookup_parent_raw 15 ((10, 20) ∷ []) ≡ some (10, 20))
    × (lookup_parent_raw 10 ((10, 20) ∷ []) ≡ none)
lookup_parent_raw-one_example = lookup_parent_raw-one 10 20 15
