-- ===== src/Writer/RoundTrip.antt =====
-- Numbers that src/wasmall/src/util.rs writes in LEB128 and reads back.
use crucible_rt.Prelude.{ℕ, ◌^◌, ◌≤◌, ◌<◌, ◌≡◌, ap, ◌∙◌, arith, List, ◌++◌, length, Option, none}
use crucible_rt.Leb.{Leb128, IsLeb128}
use crucible_rt.Leb.Format.{IsLeb, groups, signed_groups}
use crucible_rt.Leb.Values.{small_value, signed_groups_pos}
use crucible_rt.Reader.{Read}
use crucible_rt.Result.{Result}
use crucible_rt.Cursor.{read_var_u32, read_var_i32}
use crucible_rt.Cursor.Var.{read_var_u32-append, read_var_i32-append}
use crucible_rt.Writer.{sign_extend, vec_writer, write_var_u32_with_width, write_var_i32}
use crucible_rt.Writer.Padding.{
  zero_extended, zero_extended-none, zero_extended-format, zero_extended-pos, width_of,
  vec_writer-IsBufWriter,
}
use crucible_rt.Writer.Var.{
  u32_bytes, i32_bytes, length-write_u32, length-write_i32, sign_extend_lem, sign_extend_pos,
  write_u32-extends, write_i32-extends,
}

module _ (codec : Leb128) (laws : IsLeb128 codec) where
  pub u32_bytes-format :
      (v : ℕ) (width : Option ℕ)
      → v < 2 ^ 32
      → width_of width ≤ 5
      → IsLeb (u32_bytes codec v width)
        × (groups (u32_bytes codec v width) ≡ v)
        × (length (u32_bytes codec v width) ≤ 5)
        × (width_of width ≤ length (u32_bytes codec v width))
  u32_bytes-format v width h hw =
      let (leb, value) = laws.writes_unsigned v (omega arith) in
      let (leb', same, long) = zero_extended-format (codec.write_unsigned v) width leb in
      (leb', same ∙ value, omega (arith, length-write_u32 codec laws v h), omega arith)

  pub read_u32_bytes :
      (v : ℕ) (width : Option ℕ) (rest : List ℕ)
      → v < 2 ^ 32
      → width_of width ≤ 5
      → read_var_u32 codec (u32_bytes codec v width ++ rest) ≡ Read.ok v rest
  read_u32_bytes v width rest h hw =
      let (leb, value, short, wide) = u32_bytes-format v width h hw in
      read_var_u32-append codec laws (u32_bytes codec v width) rest leb short
      ∙ ap (λ (n : ℕ). Read.ok n rest) (omega arith)

  -- With a LEB128 codec as documented, a `u32` written at a minimal width of at most five bytes is
  -- read back, and nothing behind it is consumed; the writer appends at least the width and at
  -- most five bytes.
  pub read_var_u32-write_var_u32 :
      (v : ℕ) (width : Option ℕ) (out rest : List ℕ)
      → v < 2 ^ 32
      → width_of width ≤ 5
      → (bs : List ℕ) × (write_var_u32_with_width codec out v width ≡ Result.ok (out ++ bs))
        × (read_var_u32 codec (bs ++ rest) ≡ Read.ok v rest)
        × (width_of width ≤ length bs)
        × (length bs ≤ 5)
  read_var_u32-write_var_u32 v width out rest h hw =
      let (leb, value, short, wide) = u32_bytes-format v width h hw in
      (
        u32_bytes codec v width,
        write_u32-extends codec laws vec_writer-IsBufWriter out v width h,
        read_u32_bytes v width rest h hw,
        wide,
        short,
      )

  signed_bytes :
      (v : ℕ)
      → v < 2 ^ 32
      → IsLeb (codec.write_signed (sign_extend v))
        × (signed_groups (codec.write_signed (sign_extend v)) ≡ sign_extend v)
  signed_bytes v h = laws.writes_signed (sign_extend v) (sign_extend_lem v h).0

  -- Padding a non-negative number keeps its signed value.
  pub i32_bytes-format :
      (v : ℕ) (width : Option ℕ)
      → v < 2 ^ 31
      → width_of width ≤ 5
      → IsLeb (i32_bytes codec v width)
        × (groups (i32_bytes codec v width) ≡ v)
        × (signed_groups (i32_bytes codec v width) ≡ v)
        × (length (i32_bytes codec v width) ≤ 5)
        × (width_of width ≤ length (i32_bytes codec v width))
  i32_bytes-format v width small hw =
      let bs = codec.write_signed (sign_extend v) in
      let (leb, value) = signed_bytes v (omega arith) in
      let short = length-write_i32 codec laws v (omega arith) in
      let (leb', same, long) = zero_extended-format bs width leb in
      let (plus, equal) = small_value bs leb short (omega (arith, sign_extend_pos v small)) in
      let total = same ∙ equal ∙ value ∙ sign_extend_pos v small in
      (
        leb',
        total,
        signed_groups_pos (zero_extended bs width) (zero_extended-pos bs width leb plus) ∙ total,
        omega arith,
        omega arith,
      )

  pub read_i32_bytes :
      (v : ℕ) (width : Option ℕ) (rest : List ℕ)
      → v < 2 ^ 31
      → width_of width ≤ 5
      → read_var_i32 codec (i32_bytes codec v width ++ rest) ≡ Read.ok v rest
  read_i32_bytes v width rest h hw =
      let (leb, plain, value, short, wide) = i32_bytes-format v width h hw in
      read_var_i32-append codec laws (i32_bytes codec v width) rest leb short
      ∙ ap (λ (n : ℕ). Read.ok n rest) (omega arith)

  pub i32_plain-format :
      (v : ℕ)
      → v < 2 ^ 32
      → IsLeb (i32_bytes codec v none)
        × (signed_groups (i32_bytes codec v none) ≡ sign_extend v)
        × (length (i32_bytes codec v none) ≤ 5)
  i32_plain-format v h =
      let bs = codec.write_signed (sign_extend v) in
      let (leb, value) = signed_bytes v h in
      let short = length-write_i32 codec laws v h in rw (zero_extended-none bs) (leb, value, short)

  pub read_i32_plain :
      (v : ℕ) (rest : List ℕ)
      → v < 2 ^ 32
      → read_var_i32 codec (i32_bytes codec v none ++ rest) ≡ Read.ok v rest
  read_i32_plain v rest h =
      let (leb, value, short) = i32_plain-format v h in
      read_var_i32-append codec laws (i32_bytes codec v none) rest leb short
      ∙ ap (λ (n : ℕ). Read.ok n rest) (omega (arith, sign_extend_lem v h))

  -- With a LEB128 codec as documented, every `i32`, negative or not, that `write_var_i32` appends
  -- is read back, and nothing behind it is consumed; the writer appends at most five bytes.
  pub read_var_i32-write_var_i32 :
      (v : ℕ) (out rest : List ℕ)
      → v < 2 ^ 32
      → (bs : List ℕ) × (write_var_i32 codec out v ≡ Result.ok (out ++ bs))
        × (read_var_i32 codec (bs ++ rest) ≡ Read.ok v rest)
        × (length bs ≤ 5)
  read_var_i32-write_var_i32 v out rest h =
      let (leb, value, short) = i32_plain-format v h in
      (
        i32_bytes codec v none,
        unfold write_var_i32 in write_i32-extends codec laws vec_writer-IsBufWriter out v none h,
        read_i32_plain v rest h,
        short,
      )
