-- ===== src/Leb/Format.antt =====
-- The LEB128 format: groups of seven bits, lowest first, with the top bit set on every byte but
-- the last. Bit 6 of the last byte is the sign of a signed number.
use crucible_rt.Prelude.{
  ℕ, ◌+◌, ◌-◌, ◌*◌, ◌%◌, ◌^◌, ◌≤◌, ◌<◌, List, [], ◌∷◌, length, All, ltb, if◌then◌else◌, Bool, false,
}

-- A byte with the top bit set, and one without.
abbrev pub IsMore : ℕ → Type 0
IsMore b = (128 ≤ b) × (b < 256)

abbrev pub Continues : List ℕ → Type 0
Continues = All IsMore

-- One encoding, of any number of groups.
abbrev pub IsLeb : List ℕ → Type 0
IsLeb [] = ⊥
IsLeb (b ∷ []) = b < 128
IsLeb (b ∷ c ∷ bs) = IsMore b × IsLeb (c ∷ bs)

-- The unsigned value of the groups.
unfoldable pub groups : List ℕ → ℕ
groups [] = 0
groups (b ∷ bs) = b % 128 + 128 * groups bs

-- Bit 6 of the last byte.
unfoldable pub is_negative : List ℕ → Bool
is_negative [] = false
is_negative (b ∷ []) = ltb 63 (b % 128)
is_negative (b ∷ c ∷ bs) = is_negative (c ∷ bs)

-- The signed value as a 64-bit pattern: the groups, extended by their sign.
unfoldable pub signed_groups : List ℕ → ℕ
unfolding groups is_negative
signed_groups bs = if is_negative bs then 2 ^ 64 + groups bs - 128 ^ length bs else groups bs
