-- ===== src/Scalar/Field.antt =====
-- The bytes of a relocated place: what a scalar of src/wasmall/src/reloc.rs reads and writes there.
use crucible_rt.Prelude.{
  ℕ, zero, suc, ◌+◌, ◌*◌, ◌/◌, ◌%◌, ◌^◌, ◌<◌, ◌≡◌, refl, ap, sym, ◌∙◌, arith, List, [], ◌∷◌, ◌++◌,
  length, All, some,
}
use native.Mathlib.Nat.{pow-suc}
use crucible_rt.Leb.{Leb128, IsLeb128}
use crucible_rt.Leb.Format.{IsLeb, groups, signed_groups}
use crucible_rt.Reader.{Read}
use crucible_rt.Cursor.{from_le_bytes, read_u32, read_i32}
use crucible_rt.Cursor.Bytes.{
  IsByte, read_le-append, length-to_le_bytes, from_le_bytes-to_le_bytes, to_le_bytes-IsByte,
}
use crucible_rt.Cursor.Var.{read_var_u32-append, read_var_i32-append}
use crucible_rt.Writer.{to_le_bytes}
use crucible_rt.Writer.Var.{u32_bytes, i32_bytes}
use crucible_rt.Writer.RoundTrip.{u32_bytes-format, i32_bytes-format}
use crucible_rt.Scalar.{
  ScalarRewrite, ScalarRewriteKind, var_u32, var_i32, fixed_u32, fixed_i32, with_value, read,
}

-- `bytes` are a full-width field of the kind that holds `val`: five groups, or four bytes. A signed
-- field holds a number that is not negative.
abbrev pub Holds : ScalarRewriteKind → List ℕ → ℕ → Type 0
Holds var_u32 bytes val = IsLeb bytes × (length bytes ≡ 5) × (groups bytes ≡ val) × (val < 2 ^ 32)
Holds var_i32 bytes val = IsLeb bytes × (length bytes ≡ 5) × (groups bytes ≡ val) × (val < 2 ^ 31)
Holds fixed_u32 bytes val = All IsByte bytes × (length bytes ≡ 4) × (from_le_bytes bytes ≡ val)
Holds fixed_i32 bytes val = All IsByte bytes × (length bytes ≡ 4) × (from_le_bytes bytes ≡ val)

-- The numbers that a full-width field of the kind holds.
abbrev pub Fits : ScalarRewriteKind → ℕ → Type 0
Fits var_u32 val = val < 2 ^ 32
Fits var_i32 val = val < 2 ^ 31
Fits fixed_u32 val = val < 2 ^ 32
Fits fixed_i32 val = val < 2 ^ 32

pub Fits-lt : (kind : ScalarRewriteKind) (val : ℕ) → Fits kind val → val < 2 ^ 32
Fits-lt var_u32 val h = h
Fits-lt var_i32 val h = omega arith
Fits-lt fixed_u32 val h = h
Fits-lt fixed_i32 val h = h

-- The bytes that a rewrite leaves.
unfoldable pub encode : Leb128 → ScalarRewriteKind → ℕ → List ℕ
encode codec var_u32 val = u32_bytes codec val (some 5)
encode codec var_i32 val = i32_bytes codec val (some 5)
encode codec fixed_u32 val = to_le_bytes 4 val
encode codec fixed_i32 val = to_le_bytes 4 val

-- Encodings of one length and one value are one.
IsLeb-unique :
    (as_ bs : List ℕ)
    → IsLeb as_
    → IsLeb bs
    → length as_ ≡ length bs
    → groups as_ ≡ groups bs
    → as_ ≡ bs
unfolding groups
IsLeb-unique [] bs ha hb e g = absurd ha
IsLeb-unique (a ∷ as_) [] ha hb e g = absurd hb
IsLeb-unique (a ∷ []) (b ∷ []) ha hb e g = ap (λ (n : ℕ). n ∷ []) (omega arith)
IsLeb-unique (a ∷ []) (b ∷ d ∷ bs) ha hb e g = absurd (omega arith)
IsLeb-unique (a ∷ c ∷ as_) (b ∷ []) ha hb e g = absurd (omega arith)
IsLeb-unique (a ∷ c ∷ as_) (b ∷ d ∷ bs) ha hb e g =
    let tails = IsLeb-unique (c ∷ as_) (d ∷ bs) ha.1 hb.1 (omega arith) (omega arith) in
    let heads : a ≡ b = omega arith in cc

to_le_bytes-from_le_bytes :
    (n : ℕ) (bs : List ℕ) → All IsByte bs → length bs ≡ n → to_le_bytes n (from_le_bytes bs) ≡ bs
unfolding to_le_bytes from_le_bytes
to_le_bytes-from_le_bytes zero [] h e = refl
to_le_bytes-from_le_bytes zero (b ∷ bs) h e = absurd (omega arith)
to_le_bytes-from_le_bytes (suc n) [] h e = absurd (omega arith)
to_le_bytes-from_le_bytes (suc n) (b ∷ bs) h e =
    let head : (b + 256 * from_le_bytes bs) % 256 ≡ b = omega arith in
    let tail : (b + 256 * from_le_bytes bs) / 256 ≡ from_le_bytes bs = omega arith in
    rw (head, tail, to_le_bytes-from_le_bytes n bs h.1 (omega arith))

pub Holds-length :
    (kind : ScalarRewriteKind) (a b : List ℕ) (u v : ℕ)
    → Holds kind a u
    → Holds kind b v
    → length a ≡ length b
Holds-length var_u32 a b u v h k = omega arith
Holds-length var_i32 a b u v h k = omega arith
Holds-length fixed_u32 a b u v h k = omega arith
Holds-length fixed_i32 a b u v h k = omega arith

from_le_bytes-lt : (bs : List ℕ) → All IsByte bs → from_le_bytes bs < 256 ^ length bs
unfolding from_le_bytes
from_le_bytes-lt [] h = omega arith
from_le_bytes-lt (b ∷ bs) h = omega (arith, from_le_bytes-lt bs h.1, pow-suc 256 (length bs))

four_bytes-lt : (bs : List ℕ) → All IsByte bs → length bs ≡ 4 → from_le_bytes bs < 2 ^ 32
four_bytes-lt bs h e = rw e at (from_le_bytes-lt bs h)

pub Holds-lt :
    (kind : ScalarRewriteKind) (bytes : List ℕ) (val : ℕ) → Holds kind bytes val → val < 2 ^ 32
Holds-lt var_u32 bytes val h = h.3
Holds-lt var_i32 bytes val h = omega arith
Holds-lt fixed_u32 bytes val h = omega (arith, four_bytes-lt bytes h.0 h.1)
Holds-lt fixed_i32 bytes val h = omega (arith, four_bytes-lt bytes h.0 h.1)

module _ (codec : Leb128) (laws : IsLeb128 codec) where
  -- For every kind, a full-width field holds its value in one way: its bytes are what a rewrite to
  -- that value writes.
  pub Holds-encode :
      (kind : ScalarRewriteKind) (bytes : List ℕ) (val : ℕ)
      → Holds kind bytes val
      → encode codec kind val ≡ bytes
  unfolding encode
  Holds-encode var_u32 bytes val h =
      let (leb, value, short, wide) =
        u32_bytes-format codec laws val (some 5) (omega arith) (omega arith) in
      IsLeb-unique (u32_bytes codec val (some 5)) bytes leb h.0 (omega arith) (omega arith)
  Holds-encode var_i32 bytes val h =
      let (leb, value, signed, short, wide) =
        i32_bytes-format codec laws val (some 5) h.3 (omega arith) in
      IsLeb-unique (i32_bytes codec val (some 5)) bytes leb h.0 (omega arith) (omega arith)
  Holds-encode fixed_u32 bytes val h = rw (sym h.2) (to_le_bytes-from_le_bytes 4 bytes h.0 h.1)
  Holds-encode fixed_i32 bytes val h = rw (sym h.2) (to_le_bytes-from_le_bytes 4 bytes h.0 h.1)

  Holds-signed : (bytes : List ℕ) (val : ℕ) → Holds var_i32 bytes val → signed_groups bytes ≡ val
  unfolding encode
  Holds-signed bytes val h =
      let (leb, value, signed, short, wide) =
        i32_bytes-format codec laws val (some 5) h.3 (omega arith) in
      ap signed_groups (sym (Holds-encode var_i32 bytes val h)) ∙ signed

  pub encode-Holds :
      (kind : ScalarRewriteKind) (val : ℕ) → Fits kind val → Holds kind (encode codec kind val) val
  unfolding encode
  encode-Holds var_u32 val h =
      let (leb, value, short, wide) = u32_bytes-format codec laws val (some 5) h (omega arith) in
      (leb, omega arith, value, h)
  encode-Holds var_i32 val h =
      let (leb, value, signed, short, wide) =
        i32_bytes-format codec laws val (some 5) h (omega arith) in
      (leb, omega arith, value, h)
  encode-Holds fixed_u32 val h = (
    to_le_bytes-IsByte 4 val,
    length-to_le_bytes 4 val,
    from_le_bytes-to_le_bytes 4 val (omega arith),
  )
  encode-Holds fixed_i32 val h = (
    to_le_bytes-IsByte 4 val,
    length-to_le_bytes 4 val,
    from_le_bytes-to_le_bytes 4 val (omega arith),
  )

  pub encode-Holds_zero : (kind : ScalarRewriteKind) → Holds kind (encode codec kind 0) 0
  encode-Holds_zero var_u32 = encode-Holds var_u32 0 (omega arith)
  encode-Holds_zero var_i32 = encode-Holds var_i32 0 (omega arith)
  encode-Holds_zero fixed_u32 = encode-Holds fixed_u32 0 (omega arith)
  encode-Holds_zero fixed_i32 = encode-Holds fixed_i32 0 (omega arith)

  -- For every kind, reading a full-width field gives its value and leaves what follows; a signed
  -- field holds a number that is not negative.
  pub read-Holds :
      (kind : ScalarRewriteKind) (bytes rest : List ℕ) (val : ℕ)
      → Holds kind bytes val
      → read codec kind (bytes ++ rest) ≡ Read.ok (with_value kind val) rest
  unfolding read with_value
  read-Holds var_u32 bytes rest val h =
      rw (read_var_u32-append codec laws bytes rest h.0 (omega arith))
        (ap (λ (n : ℕ). Read.ok (ScalarRewrite.var_u32 n) rest) (omega arith))
  read-Holds var_i32 bytes rest val h =
      rw (read_var_i32-append codec laws bytes rest h.0 (omega arith)) (
        ap (λ (n : ℕ). Read.ok (ScalarRewrite.var_i32 n) rest)
          (omega (arith, Holds-signed bytes val h)))
  read-Holds fixed_u32 bytes rest val h =
      unfold read_u32 in
      rw (read_le-append 4 bytes rest h.1)
        (ap (λ (n : ℕ). Read.ok (ScalarRewrite.fixed_u32 n) rest) h.2)
  read-Holds fixed_i32 bytes rest val h =
      unfold read_i32 in
      rw (read_le-append 4 bytes rest h.1)
        (ap (λ (n : ℕ). Read.ok (ScalarRewrite.fixed_i32 n) rest) h.2)
