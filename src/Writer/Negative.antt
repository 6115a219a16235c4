-- ===== src/Writer/Negative.antt =====
-- The full-width signed numbers that src/wasmall/src/util.rs writes, when they are negative.
use crucible_rt.Prelude.{ℕ, ◌-◌, ◌%◌, ◌^◌, ◌≤◌, ◌<◌, ◌≡◌, arith, List, [], ◌++◌, length, some}
use crucible_rt.Leb.{Leb128, IsLeb128}
use crucible_rt.Leb.Format.{IsLeb, signed_groups}
use crucible_rt.Leb.Values.{groups-lt, pow_mono, signed_groups_pos}
use crucible_rt.Result.{Result}
use crucible_rt.Reader.{Read}
use crucible_rt.Cursor.{read_var_i32}
use crucible_rt.Cursor.Var.{read_var_i32-append}
use crucible_rt.Writer.{sign_extend, vec_writer, write_var_i32_full}
use crucible_rt.Writer.Padding.{
  zero_extended, zero_extended-format, zero_extended_wide, vec_writer-IsBufWriter,
}
use crucible_rt.Writer.Var.{i32_bytes, write_i32-extends, sign_extend_neg}

module _ (codec : Leb128) (laws : IsLeb128 codec) (v : ℕ) (lo : 2 ^ 32 - 2 ^ 27 ≤ v)
    (hi : v < 2 ^ 32) where
  short : length (codec.write_signed (sign_extend v)) ≤ 4
  short =
      let e = sign_extend_neg v (omega arith) in
      laws.short_neg (sign_extend v) 3 (omega arith) (omega arith) (omega arith)

  padded_groups :
      (bs : List ℕ)
      → IsLeb bs
      → length bs ≤ 4
      → (IsLeb (zero_extended bs (some 5)))
        × (length (zero_extended bs (some 5)) ≡ 5)
        × (signed_groups (zero_extended bs (some 5)) < 2 ^ 28)
  padded_groups bs leb le =
      let (good, same, long) = zero_extended-format bs (some 5) leb in
      let positive =
        signed_groups_pos (zero_extended bs (some 5)) (zero_extended_wide bs 5 leb (omega arith)) in
      (good, omega arith, omega (arith, groups-lt bs, pow_mono (length bs) 4 le))

  -- With a LEB128 codec as documented, an `i32` from -2^27 up to -1 that is written at full width
  -- is read back as a number from 0 up to 2^28 - 1: the padding clears its sign.
  pub read_var_i32-negative_full :
      (rest : List ℕ)
      → (r : ℕ) × (write_var_i32_full codec [] v ≡ Result.ok (i32_bytes codec v (some 5)))
        × (read_var_i32 codec (i32_bytes codec v (some 5) ++ rest) ≡ Read.ok r rest)
        × (r < 2 ^ 28)
  read_var_i32-negative_full rest =
      let bs = codec.write_signed (sign_extend v) in
      let e = sign_extend_neg v (omega arith) in
      let (good, long, below) =
        padded_groups bs (laws.writes_signed (sign_extend v) (omega arith)).0 short in
      (
        signed_groups (zero_extended bs (some 5)) % 2 ^ 32,
        unfold write_var_i32_full in
            write_i32-extends codec laws vec_writer-IsBufWriter [] v (some 5) hi,
        read_var_i32-append codec laws (zero_extended bs (some 5)) rest good (omega arith),
        omega arith,
      )
