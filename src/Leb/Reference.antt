-- ===== src/Leb/Reference.antt =====
-- A concrete codec that behaves as the `leb128` crate documents: it shows that the hypotheses on
-- the crate can be met, and the theorems' instances run on it.
use crucible_rt.Prelude.{
  ℕ, zero, suc, ◌+◌, ◌-◌, ◌*◌, ◌/◌, ◌%◌, ◌^◌, ◌≤◌, ◌<◌, ◌≡◌, refl, ap, ◌∙◌, arith, List, [], ◌∷◌,
  ◌++◌, length, take, ltb, ◌==◌, ◌||◌, if◌then◌else◌, Bool, true, false, length-append, take-append,
  ltb-cases, inl, inr, lt→ltb, le→ltb_false,
}
use native.Mathlib.Nat.{pow-suc}
use crucible_rt.Leb.{Leb128, LebRead, IsLeb128, value, overflow, unexpected_eof, other_io}
use crucible_rt.Leb.Format.{IsLeb, Continues, groups, signed_groups, is_negative}
use crucible_rt.Leb.Values.{IsLeb-cons, is_negative-cons, signed_groups_pos, signed_groups_neg}

abbrev add_low : ℕ → LebRead → LebRead
add_low g (value v rest) = value (g + 128 * v) rest
add_low g overflow = overflow
add_low g unexpected_eof = unexpected_eof
add_low g other_io = other_io

-- `k` is how many bytes may come before the tenth, whose value is tested.
unfoldable pub decode_groups : (ℕ → Bool) → ℕ → List ℕ → LebRead
decode_groups tenth k [] = unexpected_eof
decode_groups tenth zero (b ∷ bs) = if tenth b then value b bs else overflow
decode_groups tenth (suc k) (b ∷ bs) =
    let more = decode_groups tenth k bs in if ltb b 128 then value b bs else add_low (b % 128) more

unfoldable pub encode_groups : ℕ → ℕ → List ℕ
encode_groups zero v = v ∷ []
encode_groups (suc k) v =
    let rest = encode_groups k (v / 128) in if ltb v 128 then v ∷ [] else (v % 128 + 128) ∷ rest

-- A group of a number, or of the complement of a negative one.
abbrev signed_group : Bool → ℕ → ℕ
signed_group negative g = if negative then 127 - g else g

unfoldable pub encode_signed : Bool → ℕ → ℕ → List ℕ
encode_signed negative zero x = signed_group negative x ∷ []
encode_signed negative (suc k) x =
    let rest = encode_signed negative k (x / 128) in
    if ltb x 64
    then signed_group negative x ∷ []
    else (signed_group negative (x % 128) + 128) ∷ rest

-- The bytes that were taken, as a signed number.
abbrev as_signed : List ℕ → LebRead → LebRead
as_signed bs (value v rest) = value (signed_groups (take (length bs - length rest) bs)) rest
as_signed bs overflow = overflow
as_signed bs unexpected_eof = unexpected_eof
as_signed bs other_io = other_io

abbrev at_most_one : ℕ → Bool
at_most_one b = ltb b 2

abbrev all_or_none : ℕ → Bool
all_or_none b = b == 0 || b == 127

abbrev pub reference : Leb128
reference = record {
  read_unsigned = λ bs. decode_groups at_most_one 9 bs;
  read_signed = λ bs. as_signed bs (decode_groups all_or_none 9 bs);
  write_unsigned = λ v. encode_groups 9 v;
  write_signed = λ v.
      if ltb v (2 ^ 63) then encode_signed false 9 v else encode_signed true 9 (2 ^ 64 - 1 - v);
}

module _ (tenth : ℕ → Bool) where
  decode-IsLeb :
      (k : ℕ) (bs rest : List ℕ)
      → IsLeb bs
      → length bs ≤ k
      → decode_groups tenth k (bs ++ rest) ≡ value (groups bs) rest
  unfolding decode_groups groups
  decode-IsLeb k [] rest h e = absurd h
  decode-IsLeb zero (b ∷ bs) rest h e = absurd (omega arith)
  decode-IsLeb (suc k) (b ∷ []) rest h e =
      rw (lt→ltb b 128 h) (ap (λ (n : ℕ). value n rest) (omega arith))
  decode-IsLeb (suc k) (b ∷ c ∷ bs) rest h e =
      rw (le→ltb_false b 128 h.0.0, decode-IsLeb k (c ∷ bs) rest h.1 (omega arith))

  decode-Continues :
      (k : ℕ) (bs : List ℕ)
      → Continues bs
      → length bs ≤ k
      → decode_groups tenth k bs ≡ unexpected_eof
  unfolding decode_groups
  decode-Continues k [] h e = refl
  decode-Continues zero (b ∷ bs) h e = absurd (omega arith)
  decode-Continues (suc k) (b ∷ bs) h e =
      rw (le→ltb_false b 128 h.0.0, decode-Continues k bs h.1 (omega arith))

encode_format :
    (k v : ℕ) → v < 128 ^ suc k → IsLeb (encode_groups k v) × (groups (encode_groups k v) ≡ v)
unfolding encode_groups groups
encode_format zero v h = (omega arith, omega arith)
encode_format (suc k) v h = elim (ltb-cases v 128) [
  | inl (e, lt) ↦ rw e (lt, omega arith)
  | inr (e, le) ↦
      let (leb, same) = encode_format k (v / 128) (omega (arith, pow-suc 128 (suc k))) in
      rw e (IsLeb-cons (v % 128 + 128) _ (omega arith) (omega arith) leb, omega arith)
]

length-encode : (k j v : ℕ) → v < 128 ^ suc j → length (encode_groups k v) ≤ suc j
unfolding encode_groups
length-encode zero j v h = omega arith
length-encode (suc k) zero v h = rw (lt→ltb v 128 (omega arith)) (omega arith)
length-encode (suc k) (suc j) v h = elim (ltb-cases v 128) [
  | inl (e, lt) ↦ rw e (omega arith)
  | inr (e, le) ↦
      rw e (omega (arith, length-encode k j (v / 128) (omega (arith, pow-suc 128 (suc j)))))
]

IsLeb-length : (bs : List ℕ) → IsLeb bs → 0 < length bs
IsLeb-length [] h = absurd h
IsLeb-length (b ∷ bs) h = omega arith

-- What an encoding of `x`, or of the complement of `x`, has to satisfy.
abbrev Means : Bool → ℕ → List ℕ → Type 0
Means false x bs = groups bs ≡ x
Means true x bs = groups bs + x + 1 ≡ 128 ^ length bs

signed_last :
    (s : Bool) (x : ℕ)
    → x < 64
    → IsLeb (signed_group s x ∷ [])
      × (is_negative (signed_group s x ∷ []) ≡ s)
      × Means s x (signed_group s x ∷ [])
unfolding groups is_negative
signed_last false x h = (omega arith, le→ltb_false 63 (x % 128) (omega arith), omega arith)
signed_last true x h = (omega arith, lt→ltb 63 ((127 - x) % 128) (omega arith), omega arith)

signed_more :
    (s : Bool) (x : ℕ) (bs : List ℕ)
    → IsLeb bs
    → is_negative bs ≡ s
    → Means s (x / 128) bs
    → IsLeb ((signed_group s (x % 128) + 128) ∷ bs)
      × (is_negative ((signed_group s (x % 128) + 128) ∷ bs) ≡ s)
      × Means s x ((signed_group s (x % 128) + 128) ∷ bs)
unfolding groups
signed_more false x bs leb e m = (
  IsLeb-cons (x % 128 + 128) bs (omega arith) (omega arith) leb,
  is_negative-cons (x % 128 + 128) bs (IsLeb-length bs leb) ∙ e,
  omega arith,
)
signed_more true x bs leb e m = (
  IsLeb-cons (127 - x % 128 + 128) bs (omega arith) (omega arith) leb,
  is_negative-cons (127 - x % 128 + 128) bs (IsLeb-length bs leb) ∙ e,
  omega (arith, pow-suc 128 (length bs)),
)

encode_signed_format :
    (s : Bool) (k x : ℕ)
    → x < 64 * 128 ^ k
    → IsLeb (encode_signed s k x)
      × (is_negative (encode_signed s k x) ≡ s)
      × Means s x (encode_signed s k x)
unfolding encode_signed
encode_signed_format s zero x h = signed_last s x (omega arith)
encode_signed_format s (suc k) x h = elim (ltb-cases x 64) [
  | inl (e, lt) ↦ rw e (signed_last s x lt)
  | inr (e, le) ↦
      let (leb, sign, same) = encode_signed_format s k (x / 128) (omega (arith, pow-suc 128 k)) in
      rw e (signed_more s x (encode_signed s k (x / 128)) leb sign same)
]

length-encode_signed :
    (s : Bool) (k j x : ℕ) → x < 64 * 128 ^ j → length (encode_signed s k x) ≤ suc j
unfolding encode_signed
length-encode_signed s zero j x h = omega arith
length-encode_signed s (suc k) zero x h = rw (lt→ltb x 64 (omega arith)) (omega arith)
length-encode_signed s (suc k) (suc j) x h = elim (ltb-cases x 64) [
  | inl (e, lt) ↦ rw e (omega arith)
  | inr (e, le) ↦
      rw e (omega (arith, length-encode_signed s k j (x / 128) (omega (arith, pow-suc 128 j))))
]

write_pos :
    (v : ℕ)
    → v < 2 ^ 63
    → IsLeb (encode_signed false 9 v) × (signed_groups (encode_signed false 9 v) ≡ v)
write_pos v h =
    let (leb, sign, same) = encode_signed_format false 9 v (omega arith) in
    (leb, signed_groups_pos (encode_signed false 9 v) sign ∙ same)

write_neg :
    (v : ℕ)
    → v < 2 ^ 64
    → 2 ^ 63 ≤ v
    → IsLeb (encode_signed true 9 (2 ^ 64 - 1 - v))
      × (signed_groups (encode_signed true 9 (2 ^ 64 - 1 - v)) ≡ v)
write_neg v h lo =
    let (leb, sign, same) = encode_signed_format true 9 (2 ^ 64 - 1 - v) (omega arith) in
    (leb, signed_groups_neg (encode_signed true 9 (2 ^ 64 - 1 - v)) sign ∙ omega arith)

write_signed_pos : (v : ℕ) → v < 2 ^ 63 → reference.write_signed v ≡ encode_signed false 9 v
write_signed_pos v h = rw (lt→ltb v (2 ^ 63) h)

write_signed_neg :
    (v : ℕ) → 2 ^ 63 ≤ v → reference.write_signed v ≡ encode_signed true 9 (2 ^ 64 - 1 - v)
write_signed_neg v h = rw (le→ltb_false v (2 ^ 63) h)

write_signed_lem :
    (v : ℕ)
    → v < 2 ^ 64
    → IsLeb (reference.write_signed v) × (signed_groups (reference.write_signed v) ≡ v)
write_signed_lem v h = elim (ltb-cases v (2 ^ 63)) [
  | inl (e, lt) ↦ rw e (write_pos v lt)
  | inr (e, le) ↦ rw e (write_neg v h le)
]

read_signed_lem :
    (bs rest : List ℕ)
    → IsLeb bs
    → length bs ≤ 9
    → reference.read_signed (bs ++ rest) ≡ value (signed_groups bs) rest
read_signed_lem bs rest h e =
    ap (as_signed (bs ++ rest)) (decode-IsLeb all_or_none 9 bs rest h e)
    ∙ ap (λ l. value (signed_groups l) rest)
        (take-append (length (bs ++ rest) - length rest) bs rest
          (omega (arith, length-append bs rest)))

-- The codec keeps every promise of the crate.
pub reference-IsLeb128 : IsLeb128 reference
reference-IsLeb128 = record {
  reads_unsigned = decode-IsLeb at_most_one 9;
  reads_signed = read_signed_lem;
  ends_unsigned = decode-Continues at_most_one 9;
  ends_signed = λ bs h e. ap (as_signed bs) (decode-Continues all_or_none 9 bs h e);
  writes_unsigned = λ v h. encode_format 9 v (omega arith);
  writes_signed = write_signed_lem;
  short_unsigned = λ v k h e. length-encode 9 k v e;
  short_pos = λ v k h e. rw (write_signed_pos v h) (length-encode_signed false 9 k v e);
  short_neg = λ v k h lo e.
      rw (write_signed_neg v lo) (length-encode_signed true 9 k (2 ^ 64 - 1 - v) (omega arith));
}
