-- ===== src/ArcMap/Table.antt =====
-- The table of `ArcMap` in src/cafs/src/util.rs: what a lookup finds and what a removal leaves.
use crucible_rt.Prelude.{
  ℕ, ◌≡◌, ◌≢◌, refl, ap, sym, ◌∙◌, List, [], ◌∷◌, none, some, ◌==◌, ◌&&◌, Bool, true, false, In,
  ◌⊎◌, Bool-cases, ==_iff, inl, inr,
}
use mathlib.Core.Option
use crucible_rt.ArcMap.{from_hash, remove_entry, no_longer}

pub and_true : (a b : Bool) → (a && b) ≡ true → (a ≡ true) × (b ≡ true)
and_true true b e = (refl, e)
and_true false b e = cc

pub In-remove_entry :
    (hash i : ℕ) (h j : ℕ) (table : List (ℕ × ℕ))
    → i ≢ j
    → In (h, j) table
    → In (h, j) (remove_entry hash i table)
unfolding remove_entry
In-remove_entry hash i h j [] differ m = m
In-remove_entry hash i h j ((g, k) ∷ table) differ m = elim (Bool-cases (g == hash && (k == i))) [
  | inl e ↦ rw e (elim m [
    | inl same ↦
        let equal = (==_iff k i).0 (and_true (g == hash) (k == i) e).1 in
        absurd (differ (sym equal ∙ sym (ap (λ p. p.1) same)))
    | inr m' ↦ m'
  ])
  | inr e ↦
      rw e
        (elim m [ inl same ↦ inl same | inr m' ↦ inr (In-remove_entry hash i h j table differ m') ])
]

pub In-no_longer : (i j : ℕ) (js : List ℕ) → In j (no_longer i js) → In j js
unfolding no_longer
In-no_longer i j [] m = m
In-no_longer i j (k ∷ js) m = elim (Bool-cases (k == i)) [
  | inl e ↦ inr (rw e at m)
  | inr e ↦
      let m' : (j ≡ k) ⊎ In j (no_longer i js) = rw e at m in
      elim m' [ inl same ↦ inl same | inr n ↦ inr (In-no_longer i j js n) ]
]

pub from_hash-some :
    (hash : ℕ) (test : ℕ → Bool) (table : List (ℕ × ℕ)) (i : ℕ)
    → from_hash hash test table ≡ some i
    → test i ≡ true
unfolding from_hash
from_hash-some hash test [] i e = cc
from_hash-some hash test ((h, j) ∷ table) i e = elim (Bool-cases (h == hash && test j)) [
  | inl t ↦
      let same : j ≡ i = ap (λ o. Option.get_or o j) (rw t at e) in
      rw (← same) (and_true (h == hash) (test j) t).1
  | inr t ↦ from_hash-some hash test table i (rw t at e)
]

pub from_hash-none :
    (hash : ℕ) (test : ℕ → Bool) (table : List (ℕ × ℕ)) (i : ℕ)
    → from_hash hash test table ≡ none
    → In (hash, i) table
    → test i ≡ false
unfolding from_hash
from_hash-none hash test [] i e m = absurd m
from_hash-none hash test ((h, j) ∷ table) i e m = elim (Bool-cases (h == hash && test j)) [
  | inl t ↦ let e' : some j ≡ none = rw t at e in cc
  | inr t ↦ elim m [
    | inl same ↦
        let found : (h == hash) ≡ true = (==_iff h hash).1 (sym (ap (λ p. p.0) same)) in
        let missed : test j ≡ false = rw found at t in rw (ap (λ p. p.1) same) missed
    | inr m' ↦ from_hash-none hash test table i (rw t at e) m'
  ]
]
