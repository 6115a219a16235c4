-- ===== src/Writer/Var.antt =====
-- The LEB128 writers of src/wasmall/src/util.rs as plain byte lists, for every lawful writer.
use crucible_rt.Prelude.{
  ℕ, ◌+◌, ◌-◌, ◌%◌, ◌^◌, ◌≤◌, ◌<◌, ◌≡◌, arith, List, length, Option, none, le→leb, ltb-cases, inl,
  inr,
}
use crucible_rt.Leb.{Leb128, IsLeb128}
use crucible_rt.Result.{ok}
use crucible_rt.Writer.{
  BufWriter, write_var_u32, write_var_u32_with_width, write_var_i32_with_width, sign_extend,
}
use crucible_rt.Writer.Padding.{IsBufWriter, zero_extended, write_leb_zero_extended-extends}

-- The bytes of a number, for each width.
abbrev pub u32_bytes : Leb128 → ℕ → Option ℕ → List ℕ
u32_bytes codec v width = zero_extended (codec.write_unsigned v) width

abbrev pub i32_bytes : Leb128 → ℕ → Option ℕ → List ℕ
i32_bytes codec v width = zero_extended (codec.write_signed (sign_extend v)) width

pub sign_extend_lem : (v : ℕ) → v < 2 ^ 32 → (sign_extend v < 2 ^ 64) × (sign_extend v % 2 ^ 32 ≡ v)
unfolding sign_extend
sign_extend_lem v h = ground arith

pub sign_extend_pos : (v : ℕ) → v < 2 ^ 31 → sign_extend v ≡ v
unfolding sign_extend
sign_extend_pos v h = ground arith

pub sign_extend_neg : (v : ℕ) → 2 ^ 31 ≤ v → sign_extend v ≡ v + (2 ^ 64 - 2 ^ 32)
unfolding sign_extend
sign_extend_neg v h = ground arith

module _ (codec : Leb128) (codec_laws : IsLeb128 codec) where
  -- A `u32` takes at most five bytes.
  pub length-write_u32 : (v : ℕ) → v < 2 ^ 32 → length (codec.write_unsigned v) ≤ 5
  length-write_u32 v h = codec_laws.short_unsigned v 4 (omega arith) (omega arith)

  pub length-write_i32 : (v : ℕ) → v < 2 ^ 32 → length (codec.write_signed (sign_extend v)) ≤ 5
  length-write_i32 v h = elim (ltb-cases v (2 ^ 31)) [
    | inl (e, lt) ↦
        codec_laws.short_pos _ 4 (omega (arith, sign_extend_pos v lt))
          (omega (arith, sign_extend_pos v lt))
    | inr (e, le) ↦
        codec_laws.short_neg _ 4 (omega (arith, sign_extend_neg v le))
          (omega (arith, sign_extend_neg v le)) (omega (arith, sign_extend_neg v le))
  ]

  module _ {W : Type 0} ⦃w : BufWriter W⦄ (laws : IsBufWriter w) where
    pub write_u32-extends :
        (out : W) (v : ℕ) (width : Option ℕ)
        → v < 2 ^ 32
        → write_var_u32_with_width codec out v width ≡ ok (w.extend out (u32_bytes codec v width))
    write_u32-extends out v width h =
        unfold write_var_u32_with_width in
        rw (le→leb (length (codec.write_unsigned v)) 5 (length-write_u32 v h)) (
          write_leb_zero_extended-extends laws out (codec.write_unsigned v) width
            (codec_laws.writes_unsigned v (omega arith)).0)

    pub write_i32-extends :
        (out : W) (v : ℕ) (width : Option ℕ)
        → v < 2 ^ 32
        → write_var_i32_with_width codec out v width ≡ ok (w.extend out (i32_bytes codec v width))
    write_i32-extends out v width h =
        let bs = codec.write_signed (sign_extend v) in
        unfold write_var_i32_with_width in
        rw (le→leb (length bs) 5 (length-write_i32 v h)) (
          write_leb_zero_extended-extends laws out bs width
            (codec_laws.writes_signed (sign_extend v) (sign_extend_lem v h).0).0)

    pub write_var_u32-extends :
        (out : W) (v : ℕ)
        → v < 2 ^ 32
        → write_var_u32 codec out v ≡ ok (w.extend out (u32_bytes codec v none))
    write_var_u32-extends out v h = unfold write_var_u32 in write_u32-extends out v none h
