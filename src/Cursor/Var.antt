-- ===== src/Cursor/Var.antt =====
-- The LEB128 readers on one encoding of at most five bytes, for src/wasmall/src/util.rs.
use crucible_rt.Prelude.{ℕ, ◌-◌, ◌%◌, ◌^◌, ◌≤◌, min, ◌≡◌, arith, List, ◌++◌, length, take}
use crucible_rt.Leb.{Leb128, IsLeb128}
use crucible_rt.Leb.Format.{IsLeb, groups, signed_groups}
use crucible_rt.Reader.{Read}
use crucible_rt.Cursor.{read_var_u32, read_var_i32, as_32}
use crucible_rt.Cursor.Bytes.{limit_len-append, finish_var-append}

module _ (codec : Leb128) (laws : IsLeb128 codec) (bs rest : List ℕ) (leb : IsLeb bs) where
  -- With a LEB128 codec as documented, `read_var_u32` at one encoding of at most five bytes gives
  -- its value modulo 2^32 and leaves the cursor behind it; no encoding of five bytes is refused
  -- for its size.
  pub read_var_u32-append :
      length bs ≤ 5 → read_var_u32 codec (bs ++ rest) ≡ Read.ok (groups bs % 2 ^ 32) rest
  read_var_u32-append h =
      let more = take (min (length (bs ++ rest)) 5 - length bs) rest in
      unfold read_var_u32 in
      rw (
        limit_len-append 5 bs rest h,
        laws.reads_unsigned bs more leb (omega arith),
        finish_var-append as_32 (groups bs) bs more rest,
      )

  pub read_var_i32-append :
      length bs ≤ 5 → read_var_i32 codec (bs ++ rest) ≡ Read.ok (signed_groups bs % 2 ^ 32) rest
  read_var_i32-append h =
      let more = take (min (length (bs ++ rest)) 5 - length bs) rest in
      unfold read_var_i32 in
      rw (
        limit_len-append 5 bs rest h,
        laws.reads_signed bs more leb (omega arith),
        finish_var-append as_32 (signed_groups bs) bs more rest,
      )
