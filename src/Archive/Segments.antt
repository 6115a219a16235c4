-- ===== src/Archive/Segments.antt =====
-- The segments of an archive of src/wasmall/src/coder.rs, parsed one after the other.
use crucible_rt.Prelude.{
  ℕ, ◌^◌, ◌<◌, ◌≡◌, refl, sym, arith, List, [], ◌∷◌, ◌++◌, length, append_assoc, none,
}
use crucible_rt.Leb.{Leb128, IsLeb128}
use crucible_rt.Reader.{Read, bind}
use crucible_rt.Cursor.{lookahead, read_u8, from_le_bytes}
use crucible_rt.Cursor.Bytes.{consume-append, read_le-append}
use crucible_rt.Cursor.Lookahead.{lookahead_ok}
use crucible_rt.Parse.{parse, var_byte_vec}
use crucible_rt.Parse.Items.{parse_ok}
use crucible_rt.Writer.Var.{u32_bytes}
use crucible_rt.Writer.RoundTrip.{read_u32_bytes}
use crucible_rt.Coder.{SegmentKind}
use crucible_rt.Archive.{
  WasmallModSeg, verbatim, blob, segment_kind, parse_verbatim_naked, parse_blob_segment_naked,
  parse_segment_of, parse_segment_naked, out_len,
}

-- The bytes of a segment.
unfoldable pub seg_bytes : Leb128 → WasmallModSeg → List ℕ
seg_bytes codec (verbatim s) = 0 ∷ (u32_bytes codec (length s.bytes) none ++ s.bytes)
seg_bytes codec (blob s) =
    1 ∷ (s.hash ++ (u32_bytes codec (length s.reloc_values) none ++ s.reloc_values))

abbrev pub FitsSegment : WasmallModSeg → Type 0
FitsSegment (verbatim s) = length s.bytes < 2 ^ 32
FitsSegment (blob s) = (length s.hash ≡ 32) × (length s.reloc_values < 2 ^ 32)

module _ (codec : Leb128) (laws : IsLeb128 codec) where
  var_byte_vec_lem :
      (bytes rest : List ℕ)
      → length bytes < 2 ^ 32
      → parse (var_byte_vec codec) ((u32_bytes codec (length bytes) none ++ bytes) ++ rest)
        ≡ Read.ok bytes rest
  var_byte_vec_lem bytes rest h =
      parse_ok (var_byte_vec codec) ((u32_bytes codec (length bytes) none ++ bytes) ++ rest) rest
        bytes
        (unfold var_byte_vec in
          rw (
            append_assoc (u32_bytes codec (length bytes) none) bytes rest,
            read_u32_bytes codec laws (length bytes) none (bytes ++ rest) h (omega arith),
            consume-append (length bytes) bytes rest refl,
          ))

  kind_byte :
      (b : ℕ) (kind : SegmentKind) (rest : List ℕ)
      → segment_kind b rest ≡ Read.ok kind rest
      → lookahead (λ c. bind (read_u8 c) segment_kind) (b ∷ rest) ≡ Read.ok kind rest
  kind_byte b kind rest e =
      lookahead_ok (λ c. bind (read_u8 c) segment_kind) (b ∷ rest) rest kind
        (unfold read_u8 in rw (read_le-append 1 (b ∷ []) rest refl, one_byte) e)
    where
      one_byte : from_le_bytes (b ∷ []) ≡ b
      one_byte = unfold from_le_bytes in omega arith

  -- With a LEB128 codec as documented, a segment, verbatim below 4 GiB or of a blob with a hash of
  -- 32 bytes and values below 4 GiB, is read off the front of its bytes.
  pub parse_segment_naked-seg_bytes :
      (s : WasmallModSeg) (rest : List ℕ)
      → FitsSegment s
      → parse_segment_naked codec (seg_bytes codec s ++ rest) ≡ Read.ok s rest
  unfolding seg_bytes
  parse_segment_naked-seg_bytes (verbatim s) rest h =
      let body = u32_bytes codec (length s.bytes) none ++ s.bytes in
      unfold parse_segment_naked parse_segment_of in
      rw (
        kind_byte 0 SegmentKind.verbatim (body ++ rest) (unfold segment_kind in refl),
        parse_ok (parse_verbatim_naked codec) (body ++ rest) rest s
            (unfold parse_verbatim_naked in rw (var_byte_vec_lem s.bytes rest h)),
      )
  parse_segment_naked-seg_bytes (blob s) rest h =
      let values = u32_bytes codec (length s.reloc_values) none ++ s.reloc_values in
      let body = s.hash ++ values in
      unfold parse_segment_naked parse_segment_of in
      rw (
        kind_byte 1 SegmentKind.blob (body ++ rest) (unfold segment_kind in refl),
        parse_ok (parse_blob_segment_naked codec) (body ++ rest) rest s (
            unfold parse_blob_segment_naked in
            rw (
              append_assoc s.hash values rest,
              consume-append out_len s.hash (values ++ rest) (sym h.0),
              var_byte_vec_lem s.reloc_values rest h.1,
            )),
      )

  pub seg_bytes_pos : (s : WasmallModSeg) → 0 < length (seg_bytes codec s)
  unfolding seg_bytes
  seg_bytes_pos (verbatim s) = omega arith
  seg_bytes_pos (blob s) = omega arith
