-- ===== src/Tests/Archives.antt =====
-- Examples of the theorems on src/wasmall/src/coder.rs, src/wasmall/src/reloc.rs and
-- src/wasmall/src/bin/roundtrip.rs.
use crucible_rt.Prelude.{
  length, In, ℕ, ◌-◌, ◌^◌, ◌≡◌, refl, arith, List, [], ◌∷◌, ◌++◌, some, inl, inr,
}
use crucible_rt.Leb.Reference.{reference, reference-IsLeb128}
use crucible_rt.Result.{Result}
use crucible_rt.Reader
use crucible_rt.Reader.{Read, result}
use crucible_rt.Cursor.{consume}
use crucible_rt.Cursor.Bytes.{consume-append}
use crucible_rt.Parse.{parse}
use crucible_rt.Writer.{vec_writer}
use crucible_rt.Writer.Padding.{vec_writer-IsBufWriter}
use crucible_rt.Reloc.{RelocEntry, memory_addr_leb, has_addend, parse_entry_naked}
use crucible_rt.Scalar.{ScalarRewriteKind, with_value, rewrite}
use crucible_rt.Scalar.Field.{Holds}
use crucible_rt.Scalar.Rewriting.{rewrite-Holds}
use crucible_rt.Rewrite.{rewrite_relocated}
use crucible_rt.Rewrite.Layout.{Patch, layout, replacements, run, rewrite_relocated-layout}
use crucible_rt.Coder.{
  WasmallWriter, WasmallArchive, empty_writer, empty_archive, push_verbatim, push_blob, finish,
  lookup,
}
use crucible_rt.Coder.Entry.{IsEntry, entry_bytes, parse_entry_naked-entry_bytes}
use crucible_rt.Coder.Site.{source, entries}
use crucible_rt.Coder.Blob.{blob_bytes}
use crucible_rt.Coder.Push.{
  Chunk, writer_of, add_verbatim, values_bytes, concretes_bytes, push_verbatim-writer_of,
  push_blob-writer_of,
}
use crucible_rt.Coder.Finish.{archive_after, finish-writer_of}
use crucible_rt.Archive.{
  WasmallModSeg, parse_segment_naked, parse_blob_naked, write_segment, decode,
}
use crucible_rt.Archive.Restore.{blob_of, parse-blob_bytes, write_segment_lem}
use crucible_rt.Archive.Segments.{seg_bytes, parse_segment_naked-seg_bytes}
use crucible_rt.Archive.Store.{Stored, blobs, archive_after-Stored}
use crucible_rt.Archive.Parts.{push_all, module_bytes}
use crucible_rt.Archive.RoundTrip.{decode-finish}
use crucible_rt.Tests.{
  five, five-Holds_var, sites, code_end, values, digest, pushes, sites-AllSites, values_small,
  source_small, pushes-AllPushes, pushes_small, pushes-NoCollision, only_blob,
}

decode-finish_example :
    (w : WasmallWriter) × (a : WasmallArchive) × (push_all reference pushes empty_writer
      ≡ Result.ok w)
    × (finish reference digest w ≡ Result.ok a)
    × (decode reference a ≡ Result.ok (module_bytes pushes))
decode-finish_example =
    decode-finish reference digest reference-IsLeb128 (λ bytes. refl) pushes pushes-AllPushes
      pushes_small pushes-NoCollision

abbrev one_chunk : List Chunk
one_chunk = Chunk.verbatim (0 ∷ 97 ∷ []) ∷ []

push_blob-writer_of_example :
    push_blob reference (writer_of one_chunk) (entries 0 sites) values (source sites code_end)
    ≡ Result.ok (
        writer_of (
          one_chunk
          ++ (Chunk.blob (blob_bytes reference sites code_end) (concretes_bytes reference values)
              ∷ [])))
push_blob-writer_of_example =
    push_blob-writer_of reference reference-IsLeb128 one_chunk sites code_end values sites-AllSites
      (omega arith, tt) (omega arith) source_small values_small

push_verbatim-writer_of_example :
    push_verbatim (writer_of one_chunk) (115 ∷ 109 ∷ [])
    ≡ writer_of (add_verbatim one_chunk (115 ∷ 109 ∷ []))
push_verbatim-writer_of_example = push_verbatim-writer_of one_chunk (115 ∷ 109 ∷ [])

finish-writer_of_example :
    finish reference digest (writer_of one_chunk)
    ≡ Result.ok (archive_after reference digest one_chunk empty_archive)
finish-writer_of_example =
    finish-writer_of reference digest reference-IsLeb128 one_chunk (omega arith, tt)

abbrev two_chunks : List Chunk
two_chunks = Chunk.blob (1 ∷ 2 ∷ []) (0 ∷ []) ∷ Chunk.blob (1 ∷ 2 ∷ []) (3 ∷ []) ∷ []

abbrev one_blob : List (List ℕ)
one_blob = (1 ∷ 2 ∷ []) ∷ []

archive_after-Stored_example :
    ((x : List ℕ)
      → In x (blobs two_chunks)
      → Stored (archive_after reference digest two_chunks empty_archive) (digest x) x)
    × ((h x : List ℕ)
        → Stored empty_archive h x
        → Stored (archive_after reference digest two_chunks empty_archive) h x)
unfolding blobs empty_archive lookup
archive_after-Stored_example =
    archive_after-Stored digest one_blob (λ x y m n e. only_blob x y (1 ∷ 2 ∷ []) m n) reference
      two_chunks empty_archive (λ x m. either x m) (λ h r e. cc)
  where
    either : (x : List ℕ) → In x ((1 ∷ 2 ∷ []) ∷ one_blob) → In x one_blob
    either x m = elim m [ inl e ↦ inl e | inr n ↦ n ]

parse-blob_bytes_example :
    result (parse (parse_blob_naked reference) (blob_bytes reference sites code_end))
    ≡ Result.ok (blob_of reference sites code_end)
parse-blob_bytes_example =
    parse-blob_bytes reference reference-IsLeb128 values sites code_end sites-AllSites source_small
      (omega arith)

write_segment_lem_example :
    write_segment reference
      (record { hash = []; reloc_values = values_bytes reference values })
      (blob_of reference sites code_end)
      (0 ∷ [])
    ≡ Result.ok ((0 ∷ []) ++ source sites code_end)
write_segment_lem_example =
    write_segment_lem reference reference-IsLeb128 values sites code_end sites-AllSites source_small
      [] (0 ∷ []) (omega arith, tt)

-- Two bytes are taken and one is written.
abbrev two_for_one : Patch (List ℕ) (Unit {0})
two_for_one = record {
  before = 1 ∷ [];
  bytes = 2 ∷ 3 ∷ [];
  rewriter = λ writer cx c. Reader.bind (consume 2 c) (λ bs. Reader.pure (writer ++ (9 ∷ []), cx));
  effect = λ writer cx. (writer ++ (9 ∷ []), cx);
}

rewrite_relocated-layout_example :
    rewrite_relocated
      (layout (two_for_one ∷ []) (4 ∷ []))
      []
      (tt {0})
      (replacements 0 (two_for_one ∷ []))
    ≡ Result.ok (run (two_for_one ∷ []) (4 ∷ []) [] tt)
rewrite_relocated-layout_example =
    rewrite_relocated-layout (two_for_one ∷ []) (4 ∷ []) [] tt (is_patch, tt)
  where
    is_patch :
        (writer : List ℕ) (cx : Unit {0}) (rest : List ℕ)
        → two_for_one.rewriter writer cx (two_for_one.bytes ++ rest)
          ≡ Read.ok (two_for_one.effect writer cx) rest
    is_patch writer cx rest = rw (consume-append 2 (2 ∷ 3 ∷ []) rest refl)

rewrite-Holds_example :
    (new : List ℕ) × (rewrite reference
        (with_value ScalarRewriteKind.var_u32 300)
        (1 ∷ [])
        (five ++ (7 ∷ []))
      ≡ Read.ok ((1 ∷ []) ++ new) (7 ∷ []))
    × Holds ScalarRewriteKind.var_u32 new 300
    × (length new ≡ length five)
rewrite-Holds_example =
    rewrite-Holds reference reference-IsLeb128 vec_writer-IsBufWriter ScalarRewriteKind.var_u32 five
      (7 ∷ []) 5 300 (1 ∷ []) five-Holds_var (omega arith)

-- The address of a memory place, eight bytes before symbol 3.
abbrev memory_entry : RelocEntry
memory_entry = record { ty = memory_addr_leb; offset = 10; index = 3; addend = some (2 ^ 32 - 8) }

memory_entry-IsEntry : IsEntry memory_entry
unfolding has_addend
memory_entry-IsEntry = record {
  offset_fits = omega arith;
  index_fits = omega arith;
  addend_fits = omega arith;
}

parse_entry_naked-entry_bytes_example :
    parse_entry_naked reference (entry_bytes reference memory_entry ++ (7 ∷ []))
    ≡ Read.ok memory_entry (7 ∷ [])
parse_entry_naked-entry_bytes_example =
    parse_entry_naked-entry_bytes reference reference-IsLeb128 memory_entry (7 ∷ [])
      memory_entry-IsEntry

abbrev text_segment : WasmallModSeg
text_segment = WasmallModSeg.verbatim (record { bytes = 1 ∷ 2 ∷ 3 ∷ [] })

parse_segment_naked-seg_bytes_example :
    parse_segment_naked reference (seg_bytes reference text_segment ++ (7 ∷ []))
    ≡ Read.ok text_segment (7 ∷ [])
parse_segment_naked-seg_bytes_example =
    parse_segment_naked-seg_bytes reference reference-IsLeb128 text_segment (7 ∷ []) (omega arith)
