-- ===== src/Tracker.antt =====
-- src/wasmall/src/util.rs: `OffsetTracker`, the map of tracked slices from their starts to their
-- ends. The map is the list of its entries by rising start, as a `BTreeMap` iterates them; addresses
-- are numbers. `none` is the panic of an assertion.
pub mod Slices
use crucible_rt.Prelude.{
  ℕ, List, [], ◌∷◌, Option, none, some, ltb, leb, ◌==◌, ◌&&◌, if◌then◌else◌, Bool, true, false,
}

-- `insert` and `remove` of the map.
unfoldable pub insert_slice : ℕ → ℕ → List (ℕ × ℕ) → List (ℕ × ℕ)
insert_slice start end [] = (start, end) ∷ []
insert_slice start end ((s, e) ∷ slices) =
    let rest = insert_slice start end slices in
    if ltb start s
    then (start, end) ∷ (s, e) ∷ slices
    else if start == s
    then (start, end) ∷ slices
    else (s, e) ∷ rest

unfoldable pub remove_slice : ℕ → List (ℕ × ℕ) → List (ℕ × ℕ)
remove_slice start [] = []
remove_slice start ((s, e) ∷ slices) =
    let rest = remove_slice start slices in if start == s then slices else (s, e) ∷ rest

-- `range(..end).next()`: the entry of the lowest start, if that is below the end.
unfoldable pub first_below : ℕ → List (ℕ × ℕ) → Option (ℕ × ℕ)
first_below end [] = none
first_below end ((s, e) ∷ slices) = if ltb s end then some (s, e) else none

-- `range(start..).next()`.
unfoldable pub first_from : ℕ → List (ℕ × ℕ) → Option (ℕ × ℕ)
first_from start [] = none
first_from start ((s, e) ∷ slices) =
    let rest = first_from start slices in if ltb s start then rest else some (s, e)

-- The two assertions on the neighbours.
unfoldable pub ends_before : ℕ → Option (ℕ × ℕ) → Bool
ends_before start none = true
ends_before start (some (s, e)) = leb e start

unfoldable pub starts_after : ℕ → Option (ℕ × ℕ) → Bool
starts_after end none = true
starts_after end (some (s, e)) = leb end s

-- `OffsetTracker::new_raw`: the map afterwards.
unfoldable pub new_raw : ℕ → ℕ → List (ℕ × ℕ) → Option (List (ℕ × ℕ))
unfolding ends_before starts_after
new_raw start end slices =
    if leb start end
      && (ends_before start (first_below end slices) && starts_after end (first_from start slices))
    then some (insert_slice start end slices)
    else none

-- `Drop::drop`.
unfoldable pub drop_tracker : ℕ → List (ℕ × ℕ) → List (ℕ × ℕ)
drop_tracker start slices = remove_slice start slices

unfoldable pub contains : ℕ → Option (ℕ × ℕ) → Option (ℕ × ℕ)
contains addr none = none
contains addr (some (s, e)) = if leb s addr && ltb addr e then some (s, e) else none

unfoldable pub lookup_parent_raw : ℕ → List (ℕ × ℕ) → Option (ℕ × ℕ)
unfolding contains
lookup_parent_raw addr slices = contains addr (first_below addr slices)
