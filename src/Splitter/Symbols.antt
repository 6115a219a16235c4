-- ===== src/Splitter/Symbols.antt =====
-- The blob-local symbols that src/wasmall/src/splitter.rs gives out.
use crucible_rt.Prelude.{
  ℕ, suc, ◌^◌, ◌≤◌, ◌<◌, ◌≡◌, ap, sym, ◌∙◌, arith, List, [], ◌∷◌, ◌++◌, length, length-append, none,
  some, ◌==◌, if◌then◌else◌, get_elem?, All, All-append, get_elem?-some, get_elem?-append,
  get_elem?-append_last, Option-cases, Bool-cases, ==_iff, inl, inr,
}
use crucible_rt.Result.{ok}
use crucible_rt.Coder.Push.{IsU32}
use crucible_rt.Splitter.{find, put}
use crucible_rt.Splitter.Functions.{LocalMap, fresh_symbol, local_symbol}

-- Every local symbol of the map has a value.
abbrev pub Bounded : ℕ → LocalMap → Type 0
Bounded n m = All (λ p. p.1 < n) m

-- The code's choice with its panic left out.
unfoldable pub intern : ℕ → ℕ → LocalMap → List ℕ → ℕ × (LocalMap × List ℕ)
intern index value m values = elim (find index m) [
  | none ↦ fresh_symbol index value m values
  | some entry ↦ elim (get_elem? values entry) [
    | none ↦ fresh_symbol index value m values
    | some entry_value ↦
        if value == entry_value then (entry, (m, values)) else fresh_symbol index value m values
  ]
]

-- What a symbol is for a value: it stands for it, values only grow, and by one at most.
pub record Interned (value : ℕ) (values : List ℕ) (r : ℕ × (LocalMap × List ℕ)) : Type 0 where
  pub known : get_elem? r.1.1 r.0 ≡ some value
  pub bounded : Bounded (length r.1.1) r.1.0
  pub one_more : length r.1.1 ≤ suc (length values)
  pub grows : (i w : ℕ) → get_elem? values i ≡ some w → get_elem? r.1.1 i ≡ some w
  pub small : value < 2 ^ 32 → All IsU32 values → All IsU32 r.1.1

Bounded-mono : (n k : ℕ) (m : LocalMap) → n ≤ k → Bounded n m → Bounded k m
Bounded-mono n k [] h b = tt
Bounded-mono n k (p ∷ m) h b = (omega arith, Bounded-mono n k m h b.1)

put-Bounded : (n j v : ℕ) (m : LocalMap) → v < n → Bounded n m → Bounded n (put j v m)
unfolding put
put-Bounded n j v [] h b = (h, tt)
put-Bounded n j v ((i, w) ∷ m) h b = elim (Bool-cases (i == j)) [
  | inl e ↦ rw e (h, b.1)
  | inr e ↦ rw e (b.0, put-Bounded n j v m h b.1)
]

find-Bounded : (n j v : ℕ) (m : LocalMap) → Bounded n m → find j m ≡ some v → v < n
unfolding find
find-Bounded n j v [] b e = cc
find-Bounded n j v ((i, w) ∷ m) b e = elim (Bool-cases (i == j)) [
  | inl t ↦ let same : w ≡ v = ground (arith, rw t at e) in omega arith
  | inr t ↦ find-Bounded n j v m b.1 (rw t at e)
]

module _ (index value : ℕ) (m : LocalMap) (values : List ℕ)
    (bounded : Bounded (length values) m) where
  fresh_symbol-Interned : Interned value values (fresh_symbol index value m values)
  fresh_symbol-Interned =
      let lengths = length-append values (value ∷ []) in
      record {
        known = get_elem?-append_last values value;
        bounded =
            put-Bounded (length (values ++ (value ∷ []))) index (length values) m (omega arith) (
              Bounded-mono (length values) (length (values ++ (value ∷ []))) m (omega arith)
                bounded);
        one_more = omega arith;
        grows = get_elem?-append values (value ∷ []);
        small = λ h k. All-append IsU32 values (value ∷ []) k (h, tt);
      }

  old-Interned :
      (entry : ℕ) → get_elem? values entry ≡ some value → Interned value values (entry, (m, values))
  old-Interned entry e = record {
    known = e;
    bounded = bounded;
    one_more = omega arith;
    grows = λ i w k. k;
    small = λ h k. k;
  }

  -- A symbol is found or made, with no panic.
  pub local_symbol-intern :
      (local_symbol index value m values ≡ ok (intern index value m values))
      × Interned value values (intern index value m values)
  local_symbol-intern = elim (Option-cases (find index m)) [
    | inl e ↦ (
      unfold local_symbol intern in rw (e, local_symbol, intern),
      unfold intern in rw (e, intern) fresh_symbol-Interned,
    )
    | inr (entry, e) ↦
        let (v, at) =
          get_elem?-some values entry (find-Bounded (length values) index entry m bounded e) in
        elim (Bool-cases (value == v)) [
          | inl t ↦ (
            unfold local_symbol intern in rw (e, local_symbol, intern, at, local_symbol, intern, t),
            unfold intern in
                rw (e, intern, at, intern, t)
                  (old-Interned entry (at ∙ ap some (sym ((==_iff value v).0 t)))),
          )
          | inr t ↦ (
            unfold local_symbol intern in rw (e, local_symbol, intern, at, local_symbol, intern, t),
            unfold intern in rw (e, intern, at, intern, t) fresh_symbol-Interned,
          )
        ]
  ]

  -- When every symbol of the map has a value, choosing the local symbol of an index does not
  -- panic: the symbol has just the value that the index takes here, every symbol of the new map
  -- has a value, the values that were there stay, and one more is added at most.
  pub local_symbol-Interned :
      (r : ℕ × (LocalMap × List ℕ)) × (local_symbol index value m values ≡ ok r)
      × Interned value values r
  local_symbol-Interned =
      (intern index value m values, local_symbol-intern.0, local_symbol-intern.1)
