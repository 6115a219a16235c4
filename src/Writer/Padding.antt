-- ===== src/Writer/Padding.antt =====
-- `write_leb_zero_extended` of src/wasmall/src/util.rs: what padding does to an encoding.
use crucible_rt.Prelude.{
  ℕ, zero, suc, ◌+◌, ◌-◌, ◌≤◌, ◌<◌, max, ◌≡◌, refl, sym, ap, ◌==◌, ◌∙◌, arith, List, [], ◌∷◌, ◌++◌,
  length, length-append, Option, none, some, ltb, if◌then◌else◌, append_assoc, append-nil,
  ltb-cases, le→ltb_false, lt→ltb, inl, inr, Bool, true, false,
}
use Prim.Native.Nat.{bit_or}
use mathlib.Core.Logic.{ite}
use native.Mathlib.Decide.{ℕ_discrete}
use crucible_rt.Leb.Format.{IsLeb, groups, is_negative}
use crucible_rt.Leb.Values.{IsLeb-cons}
use crucible_rt.Result.{ok}
use crucible_rt.Writer.{
  BufWriter, vec_writer, len_counter, set_last, push_extra, pad, write_leb_zero_extended,
}

-- What the writers have in common: to extend twice is to extend by the concatenation.
pub record IsBufWriter {W : Type 0} (w : BufWriter W) : Type 0 where
  pub extend_twice : (out : W) (a b : List ℕ) → w.extend (w.extend out a) b ≡ w.extend out (a ++ b)
  pub extend_nil : (out : W) → w.extend out [] ≡ out

pub vec_writer-IsBufWriter : IsBufWriter vec_writer
vec_writer-IsBufWriter = record {
  extend_twice = λ out a b. append_assoc out a b;
  extend_nil = λ out. append-nil out;
}

pub len_counter-IsBufWriter : IsBufWriter len_counter
len_counter-IsBufWriter = record {
  extend_twice = λ out a b. omega (arith, length-append a b);
  extend_nil = λ out. omega arith;
}

-- The bytes after the marked encoding: `n` groups of zero, the last one without the top bit.
unfoldable pub zeros : ℕ → List ℕ
zeros zero = []
zeros (suc zero) = 0 ∷ []
zeros (suc (suc n)) = 0x80 ∷ zeros (suc n)

-- An encoding with the top bit of its last byte set.
unfoldable pub marked : List ℕ → List ℕ
marked [] = []
marked (b ∷ []) = (b + 128) ∷ []
marked (b ∷ c ∷ bs) = b ∷ marked (c ∷ bs)

unfoldable pub zero_extended : List ℕ → Option ℕ → List ℕ
unfolding zeros marked
zero_extended bs none = bs
zero_extended bs (some width) =
    if ltb (length bs) width then marked bs ++ zeros (width - length bs) else bs

module _ (f g : ℕ → ℕ) where
  agree_below : ℕ → Bool
  unfolding ℕ_discrete
  agree_below zero = true
  agree_below (suc n) = ite (ℕ_discrete (f n) (g n)) (agree_below n) false

  agree_below→eq : (n : ℕ) → agree_below n ≡ true → (i : ℕ) → i < n → f i ≡ g i
  unfolding agree_below
  agree_below→eq zero e i h = absurd (omega arith)
  agree_below→eq (suc n) e i h = ground (arith, agree_below→eq n (ground arith) i)

set_top_bit : (b : ℕ) → b < 128 → bit_or b 0x80 ≡ b + 128
unfolding agree_below
set_top_bit = agree_below→eq _ _ 128 refl

set_last-marked : (bs : List ℕ) → IsLeb bs → set_last bs ≡ some (marked bs)
unfolding set_last marked
set_last-marked [] h = absurd h
set_last-marked (b ∷ []) h = rw (set_top_bit b h)
set_last-marked (b ∷ c ∷ bs) h = rw (set_last-marked (c ∷ bs) h.1)

length-marked : (bs : List ℕ) → length (marked bs) ≡ length bs
unfolding marked
length-marked [] = refl
length-marked (b ∷ []) = refl
length-marked (b ∷ c ∷ bs) = ap suc (length-marked (c ∷ bs))

length-zeros : (n : ℕ) → length (zeros n) ≡ n
unfolding zeros
length-zeros zero = refl
length-zeros (suc zero) = refl
length-zeros (suc (suc n)) = ap suc (length-zeros (suc n))

zeros-IsLeb : (n : ℕ) → IsLeb (zeros (suc n))
unfolding zeros
zeros-IsLeb zero = omega arith
zeros-IsLeb (suc zero) = omega arith
zeros-IsLeb (suc (suc n)) = (omega arith, zeros-IsLeb (suc n))

groups-zeros : (n : ℕ) → groups (zeros n) ≡ 0
unfolding zeros groups
groups-zeros zero = refl
groups-zeros (suc zero) = refl
groups-zeros (suc (suc n)) = omega (arith, groups-zeros (suc n))

marked-zeros-IsLeb : (bs : List ℕ) (n : ℕ) → IsLeb bs → IsLeb (marked bs ++ zeros (suc n))
unfolding marked
marked-zeros-IsLeb [] n h = absurd h
marked-zeros-IsLeb (b ∷ []) n h = IsLeb-cons (b + 128) _ (omega arith) (omega arith) (zeros-IsLeb n)
marked-zeros-IsLeb (b ∷ c ∷ bs) n h = IsLeb-cons b _ h.0.0 h.0.1 (marked-zeros-IsLeb (c ∷ bs) n h.1)

groups-marked-zeros :
    (bs : List ℕ) (n : ℕ) → IsLeb bs → groups (marked bs ++ zeros (suc n)) ≡ groups bs
unfolding marked groups
groups-marked-zeros [] n h = absurd h
groups-marked-zeros (b ∷ []) n h = omega (arith, groups-zeros (suc n))
groups-marked-zeros (b ∷ c ∷ bs) n h = omega (arith, groups-marked-zeros (c ∷ bs) n h.1)

-- Zero extension keeps an encoding one encoding of the same unsigned groups, and makes it as long
-- as it was or as the width, whichever is more.
pub zero_extended-none : (bs : List ℕ) → zero_extended bs none ≡ bs
unfolding zero_extended
zero_extended-none bs = refl

abbrev pub width_of : Option ℕ → ℕ
width_of none = 0
width_of (some width) = width

pub zero_extended-format :
    (bs : List ℕ) (width : Option ℕ)
    → IsLeb bs
    → IsLeb (zero_extended bs width)
      × (groups (zero_extended bs width) ≡ groups bs)
      × (length (zero_extended bs width) ≡ max (length bs) (width_of width))
unfolding zero_extended
zero_extended-format bs none h = (h, refl, omega arith)
zero_extended-format bs (some width) h = elim (ltb-cases (length bs) width) [
  | inr (e, le) ↦ rw e (h, refl, omega arith)
  | inl (e, lt) ↦
      let n = width - length bs - 1 in
      let more : width - length bs ≡ suc n = omega arith in
      rw (e, more)
        (
          marked-zeros-IsLeb bs n h,
          groups-marked-zeros bs n h,
          omega (
            arith,
            length-append (marked bs) (zeros (suc n)),
            length-marked bs,
            length-zeros (suc n),
          ),
        )
]

-- At its own width or below it an encoding is left as it is.
pub zero_extended_long :
    (bs : List ℕ) (width : Option ℕ) → width_of width ≤ length bs → zero_extended bs width ≡ bs
unfolding zero_extended
zero_extended_long bs none h = refl
zero_extended_long bs (some width) h = rw (le→ltb_false (length bs) width h)

is_negative-zeros : (n : ℕ) → is_negative (zeros (suc n)) ≡ false
unfolding zeros is_negative
is_negative-zeros zero = refl
is_negative-zeros (suc zero) = refl
is_negative-zeros (suc (suc n)) = is_negative-zeros (suc n)

is_negative-cons : (b n : ℕ) → is_negative (b ∷ zeros (suc n)) ≡ false
unfolding zeros is_negative
is_negative-cons b zero = refl
is_negative-cons b (suc n) = is_negative-zeros (suc n)

is_negative-marked-zeros :
    (bs : List ℕ) (n : ℕ) → IsLeb bs → is_negative (marked bs ++ zeros (suc n)) ≡ false
unfolding marked is_negative
is_negative-marked-zeros [] n h = absurd h
is_negative-marked-zeros (b ∷ []) n h = is_negative-cons (b + 128) n
is_negative-marked-zeros (b ∷ c ∷ []) n h = is_negative-marked-zeros (c ∷ []) n h.1
is_negative-marked-zeros (b ∷ c ∷ d ∷ bs) n h = is_negative-marked-zeros (c ∷ d ∷ bs) n h.1

-- Padding clears the sign bit.
pub zero_extended_wide :
    (bs : List ℕ) (width : ℕ)
    → IsLeb bs
    → length bs < width
    → is_negative (zero_extended bs (some width)) ≡ false
unfolding zero_extended
zero_extended_wide bs width h lt =
    let n = width - length bs - 1 in
    let more : width - length bs ≡ suc n = omega arith in
    rw (lt→ltb (length bs) width lt, more) (is_negative-marked-zeros bs n h)

pub zero_extended-pos :
    (bs : List ℕ) (width : Option ℕ)
    → IsLeb bs
    → is_negative bs ≡ false
    → is_negative (zero_extended bs width) ≡ false
zero_extended-pos bs none h e = rw zero_extended-none e
zero_extended-pos bs (some width) h e = elim (ltb-cases (length bs) width) [
  | inl (t, lt) ↦ zero_extended_wide bs width h lt
  | inr (t, le) ↦ rw (zero_extended_long bs (some width) le) e
]

module _ {W : Type 0} ⦃w : BufWriter W⦄ (laws : IsBufWriter w) where
  push_extra_more :
      (rounds i extra : ℕ) (out : W)
      → i < extra
      → push_extra (suc rounds) i extra out
        ≡ push_extra rounds (i + 1) extra (w.extend out (0x80 ∷ []))
  unfolding push_extra
  push_extra_more rounds i extra out h = let more : (i == extra) ≡ false = ground arith in rw more

  push_extra_last :
      (i extra : ℕ) (out : W)
      → i ≡ extra
      → push_extra (suc zero) i extra out ≡ w.extend out (0 ∷ [])
  unfolding push_extra
  push_extra_last i extra out e =
      let last : (i == extra) ≡ true = ground arith in rw (last, push_extra)

  push_extra-zeros :
      (rounds i extra : ℕ) (out : W)
      → i + rounds ≡ extra + 1
      → push_extra rounds i extra out ≡ w.extend out (zeros rounds)
  unfolding zeros
  push_extra-zeros zero i extra out e = unfold push_extra in sym (laws.extend_nil out)
  push_extra-zeros (suc zero) i extra out e = push_extra_last i extra out (omega arith)
  push_extra-zeros (suc (suc n)) i extra out e =
      push_extra_more (suc n) i extra out (omega arith)
      ∙ push_extra-zeros (suc n) (i + 1) extra (w.extend out (0x80 ∷ [])) (omega arith)
      ∙ laws.extend_twice out (0x80 ∷ []) (zeros (suc n))

  pad-extends :
      (out : W) (bs : List ℕ) (width : ℕ)
      → IsLeb bs
      → pad bs width out ≡ ok (w.extend out (marked bs ++ zeros (width - length bs)))
  pad-extends out bs width h =
      let extra = width - length bs in
      unfold pad in
      rw (
        (set_last-marked bs h),
        pad,
        push_extra-zeros extra 1 extra (w.extend out (marked bs)) (omega arith),
        laws.extend_twice out (marked bs) (zeros extra),
      )

  -- For one encoding, `write_leb_zero_extended` does not panic and gives the writer, a byte vector
  -- or a counter, the zero-extended encoding.
  pub write_leb_zero_extended-extends :
      (out : W) (bs : List ℕ) (width : Option ℕ)
      → IsLeb bs
      → write_leb_zero_extended out bs width ≡ ok (w.extend out (zero_extended bs width))
  unfolding write_leb_zero_extended zero_extended
  write_leb_zero_extended-extends out bs none h = refl
  write_leb_zero_extended-extends out bs (some width) h = elim (ltb-cases (length bs) width) [
    | inr (e, le) ↦ rw e
    | inl (e, lt) ↦ rw e (pad-extends out bs width h)
  ]
