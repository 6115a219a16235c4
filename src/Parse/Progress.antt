-- ===== src/Parse/Progress.antt =====
-- The loop over a `ByteParseList` of src/wasmall/src/util.rs on any bytes.
use crucible_rt.Prelude.{
  ℕ, zero, suc, ◌<◌, ◌≡◌, ◌≢◌, refl, ap, sym, subst, arith, List, [], ◌∷◌, length, some,
}
use crucible_rt.Result.{Result, ok, err, panic, stuck, ◌>>=◌}
use crucible_rt.Reader.{Read, Reader}
use crucible_rt.Cursor.{lookahead, at_eof}
use crucible_rt.Parse.{parse, next, for_each, for_all}

bind_ends {ℓ κ} :
    {A : Type ℓ} {B : Type κ} (m : Result A) (k : A → Result B)
    → m ≢ stuck
    → ((a : A) → k a ≢ stuck)
    → (m >>= k) ≢ stuck
bind_ends (ok a) k h hk = hk a
bind_ends (err e) k h hk = λ q. cc
bind_ends panic k h hk = λ q. cc
bind_ends stuck k h hk = absurd (h refl)

module _ {A : Type 0} (parser : Reader A) where
  -- The parser ends on every input, and takes a byte where it succeeds.
  abbrev pub Progresses : Type 0
  Progresses =
      (c : List ℕ)
      → (parser c ≢ Read.stuck)
        × ((a : A) (c' : List ℕ) → parser c ≡ Read.ok a c' → length c' < length c)

  module _ {S : Type 0} (body : A → S → Result S) where
    abbrev Ends : ℕ → List ℕ → Type 0
    Ends fuel c = (s : S) → for_each parser body fuel c s ≢ stuck

    for_each_none : (fuel : ℕ) → Ends (suc fuel) []
    for_each_none fuel s = unfold for_each next at_eof in λ q. cc

    -- One round on an item.
    abbrev round : ℕ → S → Read A → Result S
    round fuel s (Read.ok a c) = body a s >>= λ s'. for_each parser body fuel c s'
    round fuel s (Read.err e c) = err e
    round fuel s Read.panic = panic
    round fuel s Read.stuck = stuck

    for_each-round :
        (fuel : ℕ) (c : List ℕ) (s : S) (item : Read A)
        → next parser c ≡ some item
        → for_each parser body (suc fuel) c s ≡ round fuel s item
    for_each-round fuel c s (Read.ok a c') e = unfold for_each in rw (e, for_each)
    for_each-round fuel c s (Read.err x c') e = unfold for_each in rw (e, for_each)
    for_each-round fuel c s Read.panic e = unfold for_each in rw (e, for_each)
    for_each-round fuel c s Read.stuck e = unfold for_each in rw (e, for_each)

    next_parsed :
        (b : ℕ) (bs : List ℕ) (item : Read A)
        → lookahead parser (b ∷ bs) ≡ item
        → next parser (b ∷ bs) ≡ some item
    next_parsed b bs item e = unfold next at_eof parse in ap some e

    after_round :
        (fuel b : ℕ) (bs : List ℕ) (s : S) (item : Read A)
        → lookahead parser (b ∷ bs) ≡ item
        → round fuel s item ≢ stuck
        → for_each parser body (suc fuel) (b ∷ bs) s ≢ stuck
    after_round fuel b bs s item e h =
        subst (λ (m : Result S). m ≢ stuck)
          (sym (for_each-round fuel (b ∷ bs) s item (next_parsed b bs item e))) h

    one_round :
        (fuel b : ℕ) (bs : List ℕ) (s : S) (r : Read A)
        → parser (b ∷ bs) ≡ r
        → r ≢ Read.stuck
        → ((a : A) (s' : S) → body a s' ≢ stuck)
        → ((a : A) (c' : List ℕ) → r ≡ Read.ok a c' → Ends fuel c')
        → for_each parser body (suc fuel) (b ∷ bs) s ≢ stuck
    one_round fuel b bs s (Read.ok a c') e live ends more =
        after_round fuel b bs s (Read.ok a c') (unfold lookahead in rw (e, lookahead)) (
          bind_ends (body a s) (λ s'. for_each parser body fuel c' s') (ends a s)
            (λ s'. more a c' refl s'))
    one_round fuel b bs s (Read.err x c') e live ends more =
        after_round fuel b bs s (Read.err x (b ∷ bs)) (unfold lookahead in rw (e, lookahead))
          (λ q. cc)
    one_round fuel b bs s Read.panic e live ends more =
        after_round fuel b bs s Read.panic (unfold lookahead in rw (e, lookahead)) (λ q. cc)
    one_round fuel b bs s Read.stuck e live ends more = absurd (live refl)

    for_each-Ends :
        (fuel : ℕ) (c : List ℕ)
        → Progresses
        → ((a : A) (s' : S) → body a s' ≢ stuck)
        → length c < fuel
        → Ends fuel c
    for_each-Ends zero c p ends h s = absurd (omega arith)
    for_each-Ends (suc fuel) [] p ends h s = for_each_none fuel s
    for_each-Ends (suc fuel) (b ∷ bs) p ends h s =
        one_round fuel b bs s (parser (b ∷ bs)) refl (p (b ∷ bs)).0 ends
          (λ a c' e s'. for_each-Ends fuel c' p ends (omega (arith, (p (b ∷ bs)).1 a c' e)) s')

    -- When the parser ends on every input and takes a byte where it succeeds, and the body ends,
    -- the loop ends on any bytes: its fuel, one more than the bytes, is enough.
    pub for_all_ends :
        Progresses
        → ((a : A) (s' : S) → body a s' ≢ stuck)
        → (c : List ℕ) (s : S) → for_all parser body c s ≢ stuck
    for_all_ends p ends c s =
        unfold for_all in for_each-Ends (suc (length c)) c p ends (omega arith) s
