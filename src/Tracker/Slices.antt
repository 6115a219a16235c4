-- ===== src/Tracker/Slices.antt =====
-- What `OffsetTracker` of src/wasmall/src/util.rs accepts and finds.
use crucible_rt.Prelude.{
  ℕ, ◌≤◌, ◌<◌, ◌≡◌, ◌≢◌, ◌⊎◌, inl, inr, refl, ap, arith, List, [], ◌∷◌, none, some, All, ◌==◌,
  false, lt→ltb, le→ltb_false, le→leb, ltb-cases, ==_iff, Bool-cases,
}
use crucible_rt.Tracker.{
  insert_slice, remove_slice, first_below, first_from, new_raw, drop_tracker, contains,
  lookup_parent_raw,
}

-- Dropping the tracker of a slice whose start was not tracked gives the map from before it was
-- inserted.
pub drop_tracker-insert :
    (start end : ℕ) (slices : List (ℕ × ℕ))
    → All (λ p. p.0 ≢ start) slices
    → drop_tracker start (insert_slice start end slices) ≡ slices
unfolding drop_tracker insert_slice remove_slice
drop_tracker-insert start end [] h = rw ((==_iff start start).1 refl)
drop_tracker-insert start end ((s, e) ∷ slices) h = elim (ltb-cases start s) [
  | inl (t, lt) ↦ rw (t, (==_iff start start).1 refl)
  | inr (t, le) ↦
      let apart : (start == s) ≡ false = different start s (λ q. absurd (h.0 (ground arith))) in
      rw (t, apart, apart) (ap (λ l. (s, e) ∷ l) (drop_tracker-insert start end slices h.1))
]
  where
    different : (a b : ℕ) → (a ≡ b → ⊥) → (a == b) ≡ false
    different a b n = elim (Bool-cases (a == b)) [
      | inl q ↦ absurd (n ((==_iff a b).0 q))
      | inr q ↦ q
    ]

-- With one slice tracked, a slice that is accepted is well formed and does not overlap it.
pub new_raw-one :
    (s e start end : ℕ) (slices : List (ℕ × ℕ))
    → new_raw start end ((s, e) ∷ []) ≡ some slices
    → (start ≤ end) × ((e ≤ start) ⊎ (end ≤ s))
unfolding new_raw first_below first_from
new_raw-one s e start end slices h = (ground arith, ground arith)

-- With two slices tracked, a new one that starts behind the start of the second, and behind the
-- end of the first, is accepted wherever the second ends, so that it may overlap it.
pub new_raw-two :
    (s e a b start end : ℕ)
    → s ≤ e
    → e ≤ start
    → a < start
    → start ≤ end
    → s < a
    → s < end
    → new_raw start end ((s, e) ∷ (a, b) ∷ []) ≡ some ((s, e) ∷ (a, b) ∷ (start, end) ∷ [])
unfolding new_raw first_below first_from insert_slice
new_raw-two s e a b start end h1 h2 h3 h4 h5 h6 = ground arith

-- With one slice tracked, a lookup finds it for every address strictly inside, and finds nothing
-- for its first address.
pub lookup_parent_raw-one :
    (s e addr : ℕ)
    → ((s < addr) × (addr < e) → lookup_parent_raw addr ((s, e) ∷ []) ≡ some (s, e))
      × (lookup_parent_raw s ((s, e) ∷ []) ≡ none)
unfolding lookup_parent_raw first_below
lookup_parent_raw-one s e addr = (
  λ h. rw (lt→ltb s addr h.0, contains, le→leb s addr (omega arith), lt→ltb addr e h.1),
  rw (le→ltb_false s s (omega arith)),
)
