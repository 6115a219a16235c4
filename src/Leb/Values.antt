-- ===== src/Leb/Values.antt =====
-- Bounds of the values that an encoding stands for.
use crucible_rt.Prelude.{
  ℕ, zero, suc, ◌+◌, ◌-◌, ◌*◌, ◌^◌, ◌≤◌, ◌<◌, ◌≡◌, refl, arith, List, [], ◌∷◌, length, true, false,
  Bool-cases, inl, inr,
}
use native.Mathlib.Nat.{pow-suc}
use crucible_rt.Leb.Format.{IsLeb, groups, is_negative, signed_groups}

-- More groups behind a byte with the top bit set.
pub IsLeb-cons : (b : ℕ) (bs : List ℕ) → 128 ≤ b → b < 256 → IsLeb bs → IsLeb (b ∷ bs)
IsLeb-cons b [] lo hi h = absurd h
IsLeb-cons b (c ∷ bs) lo hi h = ((lo, hi), h)

pub pow_pos : (n : ℕ) → 0 < 128 ^ n
pow_pos zero = omega arith
pow_pos (suc n) = omega (arith, pow-suc 128 n, pow_pos n)

pub pow_mono : (n k : ℕ) → n ≤ k → 128 ^ n ≤ 128 ^ k
pow_mono zero k h = omega (arith, pow_pos k)
pow_mono (suc n) zero h = absurd (omega arith)
pow_mono (suc n) (suc k) h = omega (arith, pow-suc 128 n, pow-suc 128 k, pow_mono n k (omega arith))

pub groups-lt : (bs : List ℕ) → groups bs < 128 ^ length bs
unfolding groups
groups-lt [] = omega arith
groups-lt (b ∷ bs) = omega (arith, groups-lt bs, pow-suc 128 (length bs))

-- With the sign bit the groups are in the upper half of their range.
is_negative-half : (bs : List ℕ) → is_negative bs ≡ true → 128 ^ length bs ≤ 2 * groups bs
unfolding groups is_negative
is_negative-half [] h = cc
is_negative-half (b ∷ []) h = ground arith
is_negative-half (b ∷ c ∷ bs) h =
    omega (arith, is_negative-half (c ∷ bs) h, pow-suc 128 (length (c ∷ bs)))

-- Without it they are in the lower half.
nonneg-half : (bs : List ℕ) → IsLeb bs → is_negative bs ≡ false → 2 * groups bs < 128 ^ length bs
unfolding groups is_negative
nonneg-half [] l h = absurd l
nonneg-half (b ∷ []) l h = ground arith
nonneg-half (b ∷ c ∷ bs) l h =
    omega
      (arith, nonneg-half (c ∷ bs) l.1 h, pow-suc 128 (length (c ∷ bs)), pow-suc 128 (length bs))

pub signed_groups_pos : (bs : List ℕ) → is_negative bs ≡ false → signed_groups bs ≡ groups bs
unfolding signed_groups
signed_groups_pos bs e = rw e

pub signed_groups_neg :
    (bs : List ℕ) → is_negative bs ≡ true → signed_groups bs ≡ 2 ^ 64 + groups bs - 128 ^ length bs
unfolding signed_groups
signed_groups_neg bs e = rw e

module _ (bs : List ℕ) (leb : IsLeb bs) (short : length bs ≤ 5) where
  cap : 128 ^ length bs ≤ 2 ^ 35
  cap = pow_mono (length bs) 5 short

  -- A number that fits an `i32` and is not negative has no sign bit in at most five groups.
  pub small_value :
      signed_groups bs < 2 ^ 31 → (is_negative bs ≡ false) × (groups bs ≡ signed_groups bs)
  small_value h = elim (Bool-cases (is_negative bs)) [
    | inl e ↦ absurd (omega (arith, cap, signed_groups_neg bs e, is_negative-half bs e))
    | inr e ↦ (e, omega (arith, signed_groups_pos bs e))
  ]

  -- A negative one has it.
  pub big_value :
      2 ^ 63 ≤ signed_groups bs → signed_groups bs ≡ 2 ^ 64 + groups bs - 128 ^ length bs
  big_value h = elim (Bool-cases (is_negative bs)) [
    | inl e ↦ signed_groups_neg bs e
    | inr e ↦ absurd (omega (arith, cap, groups-lt bs, signed_groups_pos bs e))
  ]

pub is_negative-cons : (b : ℕ) (bs : List ℕ) → 0 < length bs → is_negative (b ∷ bs) ≡ is_negative bs
unfolding is_negative
is_negative-cons b [] h = absurd (omega arith)
is_negative-cons b (c ∷ bs) h = refl
