-- ===== src/Scalar/Rewriting.antt =====
-- What a rewrite of a relocated place of src/wasmall/src/reloc.rs takes off the cursor and writes.
use crucible_rt.Prelude.{ℕ, ◌^◌, ◌<◌, ◌≡◌, arith, List, ◌++◌, length, some}
use crucible_rt.Leb.{Leb128, IsLeb128}
use crucible_rt.Reader.{Read}
use crucible_rt.Cursor.{
  read_u32, read_i32, read_var_u32, read_var_i32, read_var_u32_full, read_var_i32_full,
}
use crucible_rt.Cursor.Bytes.{read_le-append}
use crucible_rt.Cursor.Lookahead.{read_expecting_width-append}
use crucible_rt.Cursor.Var.{read_var_u32-append, read_var_i32-append}
use crucible_rt.Writer.{BufWriter, write_u32, write_var_u32_full, write_var_i32_full}
use crucible_rt.Writer.Padding.{IsBufWriter}
use crucible_rt.Writer.Var.{write_u32-extends, write_i32-extends}
use crucible_rt.Scalar.{
  ScalarRewriteKind, var_u32, var_i32, fixed_u32, fixed_i32, with_value, rewrite,
}
use crucible_rt.Scalar.Field.{Holds, Fits, Fits-lt, encode, encode-Holds, Holds-length}

module _ (codec : Leb128) (laws : IsLeb128 codec) {W : Type 0} ⦃w : BufWriter W⦄
    (writes : IsBufWriter w) where
  pub rewrite-encode :
      (kind : ScalarRewriteKind) (bytes rest : List ℕ) (old val : ℕ) (writer : W)
      → Holds kind bytes old
      → val < 2 ^ 32
      → rewrite codec (with_value kind val) writer (bytes ++ rest)
        ≡ Read.ok (w.extend writer (encode codec kind val)) rest
  unfolding rewrite with_value encode
  rewrite-encode var_u32 bytes rest old val writer h small =
      unfold read_var_u32_full write_var_u32_full in
      rw (
        read_expecting_width-append 5 (read_var_u32 codec) bytes rest _ h.1
            (read_var_u32-append codec laws bytes rest h.0 (omega arith)),
        write_u32-extends codec laws writes writer val (some 5) small,
      )
  rewrite-encode var_i32 bytes rest old val writer h small =
      unfold read_var_i32_full write_var_i32_full in
      rw (
        read_expecting_width-append 5 (read_var_i32 codec) bytes rest _ h.1
            (read_var_i32-append codec laws bytes rest h.0 (omega arith)),
        write_i32-extends codec laws writes writer val (some 5) small,
      )
  rewrite-encode fixed_u32 bytes rest old val writer h small =
      unfold read_u32 write_u32 in rw (read_le-append 4 bytes rest h.1)
  rewrite-encode fixed_i32 bytes rest old val writer h small =
      unfold read_i32 write_u32 in rw (read_le-append 4 bytes rest h.1)

  -- With a LEB128 codec and a writer as documented, for every kind, a rewrite to a number below
  -- 2^31 in the signed LEB128 kind and below 2^32 in the others takes a full-width field, which
  -- holds such a number, off the cursor, leaves what follows, and writes a field of the same width
  -- that holds the new number.
  pub rewrite-Holds :
      (kind : ScalarRewriteKind) (bytes rest : List ℕ) (old val : ℕ) (writer : W)
      → Holds kind bytes old
      → Fits kind val
      → (new : List ℕ) × (rewrite codec (with_value kind val) writer (bytes ++ rest)
          ≡ Read.ok (w.extend writer new) rest)
        × Holds kind new val
        × (length new ≡ length bytes)
  rewrite-Holds kind bytes rest old val writer h fits =
      let held = encode-Holds codec laws kind val fits in
      (
        encode codec kind val,
        rewrite-encode kind bytes rest old val writer h (Fits-lt kind val fits),
        held,
        Holds-length kind (encode codec kind val) bytes val old held h,
      )
