-- ===== src/Archive.antt =====
-- src/wasmall/src/coder.rs: the readers of an archive, `WasmallMod`, `WasmallModSeg` and `WasmallBlob`,
-- and src/wasmall/src/bin/roundtrip.rs: the loop that puts a module together again.
pub mod Lists
pub mod Blob
pub mod Restore
pub mod Store
pub mod Segments
pub mod Parts
pub mod Calls
pub mod RoundTrip
use crucible_rt.Prelude.{
  ℕ, zero, suc, ◌+◌, List, [], ◌∷◌, ◌++◌, length, map, Option, none, some, ltb, ◌==◌, if◌then◌else◌,
  get_elem?, drop,
}
use mathlib.Core.Option
use crucible_rt.Leb.{Leb128}
use crucible_rt.Result.{
  Result, ok, err, panic, stuck, unknown_segment, index_range, ◌>>=◌, ◌>>◌, unwrap_result,
}
use crucible_rt.Reader.{Read, Reader, bind, pure, result, lift}
use crucible_rt.Cursor.{lookahead, consume, get_slice_read, read_u8, read_var_u32}
use crucible_rt.Parse.{parse, for_all, collect, var_u32, var_byte_vec}
use crucible_rt.Writer.{vec_writer}
use crucible_rt.Reloc.{RelocEntry, parse_entry, parse_entry_naked}
use crucible_rt.Scalar.{rewrite_kind, with_value, read, as_u32, wrapping_add}
use crucible_rt.Rewrite.{slice, rewrite_relocated, scalar}
use crucible_rt.Coder.{SegmentKind, WasmallArchive, Range, lookup}

-- `blake3::OUT_LEN`.
abbrev pub out_len : ℕ
out_len = 32

unfoldable pub segment_kind : ℕ → Reader SegmentKind
segment_kind v c =
    if v == 0
    then Read.ok SegmentKind.verbatim c
    else if v == 1
    then Read.ok SegmentKind.blob c
    else Read.err (unknown_segment v) c

pub record WasmallModSegVerbatim : Type 0 where
  pub bytes : List ℕ

pub record WasmallModSegBlob : Type 0 where
  pub hash : List ℕ
  pub reloc_values : List ℕ

pub data WasmallModSeg : Type 0 where
  verbatim : WasmallModSegVerbatim → WasmallModSeg
  blob : WasmallModSegBlob → WasmallModSeg

pub record WasmallBlob : Type 0 where
  pub relocations : List ℕ
  pub bytes : List ℕ

-- The check of one entry's index against the number of the values.
abbrev pub check_index : ℕ → RelocEntry → Unit {0} → Result (Unit {0})
check_index count reloc _ = if ltb reloc.index count then ok tt else err index_range

-- The values that the entries take: `reloc_values[reloc.index].wrapping_add(addend)`.
unfoldable pub entry_values : List ℕ → List RelocEntry → Result (List (ℕ × RelocEntry))
entry_values reloc_values [] = ok []
entry_values reloc_values (reloc ∷ relocs) = elim (get_elem? reloc_values reloc.index) [
  | none ↦ panic
  | some v ↦ entry_values reloc_values relocs >>= λ rest.
      ok ((wrapping_add v (Option.get_or reloc.addend 0), reloc) ∷ rest)
]

module _ (codec : Leb128) where
  unfoldable pub parse_verbatim_naked : Reader WasmallModSegVerbatim
  parse_verbatim_naked c =
      bind (parse (var_byte_vec codec) c) (λ bytes. pure (record { bytes = bytes }))

  unfoldable pub parse_blob_segment_naked : Reader WasmallModSegBlob
  parse_blob_segment_naked c = bind (consume out_len c) λ hash rest.
      bind (parse (var_byte_vec codec) rest)
        λ values. pure (record { hash = hash; reloc_values = values })

  unfoldable pub parse_segment_of : SegmentKind → Reader WasmallModSeg
  parse_segment_of SegmentKind.verbatim c =
      bind (parse parse_verbatim_naked c) (λ s. pure (verbatim s))
  parse_segment_of SegmentKind.blob c = bind (parse parse_blob_segment_naked c) (λ s. pure (blob s))

  -- `WasmallModSeg::parse_naked`.
  unfoldable pub parse_segment_naked : Reader WasmallModSeg
  parse_segment_naked c = bind (lookahead (λ c'. bind (read_u8 c') segment_kind) c) parse_segment_of

  -- `for _ in 0..relocation_count { RelocEntry::parse(c)?; }`.
  unfoldable pub skip_entries : ℕ → Reader (Unit {0})
  skip_entries zero c = Read.ok tt c
  skip_entries (suc count) c = bind (parse_entry codec c) (λ _ c'. skip_entries count c')

  -- `WasmallBlob::parse_naked`: the data is the rest of the buffer, which is not consumed.
  unfoldable pub parse_blob_naked : Reader WasmallBlob
  parse_blob_naked c = bind (read_var_u32 codec c) λ count rest.
      bind (lookahead (get_slice_read (skip_entries count)) rest)
        λ slice_read c'. Read.ok (record { relocations = slice_read.1; bytes = c' }) c'

  -- The debug assertion of `write`: the place holds a zero.
  unfoldable pub check_zero : List ℕ → List RelocEntry → Result (Unit {0})
  check_zero data_ [] = ok tt
  check_zero data_ (reloc ∷ relocs) = do
    here ← slice data_ reloc.offset (length data_)
    value ← unwrap_result (result (read codec (rewrite_kind reloc.ty) here))
    if as_u32 value == 0 then check_zero data_ relocs else panic

  -- `WasmallModSegBlob::write`.
  unfoldable pub write_segment : WasmallModSegBlob → WasmallBlob → List ℕ → Result (List ℕ)
  write_segment seg content out = do
    reloc_values ← collect (var_u32 codec) seg.reloc_values
    for_all (parse_entry_naked codec) (check_index (length reloc_values)) content.relocations tt
    relocs ← unwrap_result (collect (parse_entry_naked codec) content.relocations)
    check_zero content.bytes relocs
    values ← entry_values reloc_values relocs
    written ← rewrite_relocated content.bytes out tt (
        map (λ (val, reloc). (reloc.offset, scalar codec (with_value (rewrite_kind reloc.ty) val)))
          values)
    ok written.0

  -- One round of the loop of bin/roundtrip.rs.
  unfoldable pub decode_segment : WasmallArchive → WasmallModSeg → List ℕ → Result (List ℕ)
  decode_segment archive (verbatim seg) out = ok (out ++ seg.bytes)
  decode_segment archive (blob seg) out = elim (lookup seg.hash archive.hashes) [
    | none ↦ panic
    | some range ↦ slice archive.blob_buf range.start range.end >>= λ bytes.
        result (parse parse_blob_naked bytes) >>= λ content. write_segment seg content out
  ]

  -- The loop over `parsed.segments()`, from the archive's own bytes.
  unfoldable pub decode : WasmallArchive → Result (List ℕ)
  decode archive = for_all parse_segment_naked (decode_segment archive) archive.out_buf []
