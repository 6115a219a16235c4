-- ===== src/Archive/RoundTrip.antt =====
-- A module is split into pushes on a `WasmallWriter`, finished into an archive, and put together
-- again by the loop of src/wasmall/src/bin/roundtrip.rs.
use crucible_rt.Prelude.{
  In, ℕ, ◌^◌, ◌<◌, ◌≡◌, refl, ap, ap₂, sym, ◌∙◌, subst, arith, List, [], ◌∷◌, ◌++◌, length,
  length-append, append_assoc, append-nil, some, map, inl, inr, Option-cases,
}
use crucible_rt.Leb.{Leb128, IsLeb128}
use crucible_rt.Result.{Result}
use crucible_rt.Parse.{for_all}
use crucible_rt.Parse.Items.{AllReads, items_bytes, fold_items, for_all_items}
use crucible_rt.Coder.{
  WasmallWriter, WasmallArchive, Range, finish, empty_writer, empty_archive, insert_vacant, lookup,
}
use crucible_rt.Coder.Site.{Site, source}
use crucible_rt.Coder.Blob.{blob_bytes}
use crucible_rt.Coder.Push.{Chunk, values_bytes, concretes_bytes, writer_of}
use crucible_rt.Coder.Finish.{segment_bytes, out_bytes, store, archive_after, finish-writer_of}
use crucible_rt.Archive.{WasmallModSeg, parse_segment_naked, decode_segment, decode}
use crucible_rt.Archive.Calls.{push_all_nil, AllPushes-parts, parts-AllSmall}
use crucible_rt.Archive.Parts.{
  Push, verbatim, blob, module_bytes, AllPushes, push_all, parts, chunk_of, module_bytes-parts_nil,
}
use crucible_rt.Archive.Restore.{parse-blob_bytes, write_segment_lem}
use crucible_rt.Archive.Segments.{seg_bytes, parse_segment_naked-seg_bytes, seg_bytes_pos}
use crucible_rt.Archive.Store.{blobs, NoCollision, Stored, archive_after-Stored}

module _ (codec : Leb128) (hash : List ℕ → List ℕ) where
  insert_vacant-out_buf :
      (h bytes : List ℕ) (a : WasmallArchive) → (insert_vacant h bytes a).out_buf ≡ a.out_buf
  insert_vacant-out_buf h bytes a = elim (Option-cases (lookup h a.hashes)) [
    | inl e ↦ unfold insert_vacant in rw (e, insert_vacant)
    | inr (r, e) ↦ unfold insert_vacant in rw (e, insert_vacant)
  ]

  store-out_buf : (c : Chunk) (a : WasmallArchive) → (store codec hash c a).out_buf ≡ a.out_buf
  unfolding store
  store-out_buf (Chunk.verbatim bytes) a = refl
  store-out_buf (Chunk.blob body concretes) a = insert_vacant-out_buf (hash body) body a

  archive_after-out_buf :
      (cs : List Chunk) (a : WasmallArchive)
      → (archive_after codec hash cs a).out_buf ≡ a.out_buf ++ out_bytes codec hash cs
  unfolding archive_after out_bytes
  archive_after-out_buf [] a = sym (append-nil a.out_buf)
  archive_after-out_buf (c ∷ cs) a =
      let a' : WasmallArchive = record a { out_buf = a.out_buf ++ segment_bytes codec hash c } in
      archive_after-out_buf cs (store codec hash c a')
      ∙ ap (λ l. l ++ out_bytes codec hash cs) (store-out_buf c a')
      ∙ append_assoc a.out_buf (segment_bytes codec hash c) (out_bytes codec hash cs)

  -- The segment that a part is parsed as.
  unfoldable seg_of : Push → WasmallModSeg
  seg_of (verbatim bytes) = WasmallModSeg.verbatim (record { bytes = bytes })
  seg_of (blob ss tail values) =
      WasmallModSeg.blob (record {
        hash = hash (blob_bytes codec ss tail);
        reloc_values = values_bytes codec values;
      })

  seg_of_bytes :
      (p : Push) → seg_bytes codec (seg_of p) ≡ segment_bytes codec hash (chunk_of codec p)
  unfolding seg_bytes seg_of segment_bytes chunk_of concretes_bytes
  seg_of_bytes (verbatim bytes) = refl
  seg_of_bytes (blob ss tail values) = refl

  segs_bytes :
      (ps : List Push)
      → items_bytes (parse_segment_naked codec) (seg_bytes codec) (map seg_of ps)
        ≡ out_bytes codec hash (map (chunk_of codec) ps)
  unfolding items_bytes out_bytes
  segs_bytes [] = refl
  segs_bytes (p ∷ ps) = ap₂ (λ k l. k ++ l) (seg_of_bytes p) (segs_bytes ps)

  module _ (laws : IsLeb128 codec) (wide : (bytes : List ℕ) → length (hash bytes) ≡ 32) where
    segs_reads :
        (ps : List Push)
        → AllPushes codec ps
        → length (module_bytes ps) < 2 ^ 32
        → AllReads (parse_segment_naked codec) (seg_bytes codec) (map seg_of ps)
    unfolding module_bytes seg_of
    segs_reads [] h small = tt
    segs_reads (verbatim bytes ∷ ps) h small =
        let s = seg_of (verbatim bytes) in
        let lengths = length-append bytes (module_bytes ps) in
        (
          (
            λ rest. parse_segment_naked-seg_bytes codec laws s rest (omega arith),
            seg_bytes_pos codec laws s,
          ),
          segs_reads ps h.1 (omega arith),
        )
    segs_reads (blob ss tail values ∷ ps) h small =
        let s = seg_of (blob ss tail values) in
        let lengths = length-append (source ss tail) (module_bytes ps) in
        (
          (
            λ rest.
                parse_segment_naked-seg_bytes codec laws s rest
                  (wide (blob_bytes codec ss tail), h.0.4),
            seg_bytes_pos codec laws s,
          ),
          segs_reads ps h.1 (omega arith),
        )

    -- Every blob of a part is stored.
    abbrev AllStored : WasmallArchive → List Push → Type 0
    AllStored a [] = Unit {0}
    AllStored a (verbatim bytes ∷ ps) = AllStored a ps
    AllStored a (blob ss tail values ∷ ps) =
        Stored a (hash (blob_bytes codec ss tail)) (blob_bytes codec ss tail) × AllStored a ps

    decode_blob :
        (a : WasmallArchive) (ss : List Site) (tail values out : List ℕ)
        → AllPushes codec (blob ss tail values ∷ [])
        → Stored a (hash (blob_bytes codec ss tail)) (blob_bytes codec ss tail)
        → decode_segment codec a (seg_of (blob ss tail values)) out
          ≡ Result.ok (out ++ source ss tail)
    unfolding decode_segment seg_of
    decode_blob a ss tail values out h (r, found, bytes) =
        let (sites, fit, few, small, short) = h.0 in
        rw (
          found,
          decode_segment,
          bytes,
          parse-blob_bytes codec laws values ss tail sites small few,
          write_segment_lem codec laws values ss tail sites small (hash (blob_bytes codec ss tail))
              out fit,
        )

    decode_verbatim :
        (a : WasmallArchive) (bytes out : List ℕ)
        → decode_segment codec a (seg_of (verbatim bytes)) out ≡ Result.ok (out ++ bytes)
    unfolding decode_segment seg_of
    decode_verbatim a bytes out = refl

    fold_decode :
        (a : WasmallArchive) (ps : List Push) (out : List ℕ)
        → AllPushes codec ps
        → AllStored a ps
        → fold_items (decode_segment codec a) (map seg_of ps) out
          ≡ Result.ok (out ++ module_bytes ps)
    unfolding fold_items module_bytes
    fold_decode a [] out h k = ap Result.ok (sym (append-nil out))
    fold_decode a (verbatim bytes ∷ ps) out h k = rw (decode_verbatim a bytes out) (
        fold_decode a ps (out ++ bytes) h.1 k
        ∙ ap Result.ok (append_assoc out bytes (module_bytes ps)))
    fold_decode a (blob ss tail values ∷ ps) out h k =
        rw (decode_blob a ss tail values out (h.0, tt) k.0) (
          fold_decode a ps (out ++ source ss tail) h.1 k.1
          ∙ ap Result.ok (append_assoc out (source ss tail) (module_bytes ps)))

    Stored-AllStored :
        (a : WasmallArchive) (ps : List Push)
        → ((x : List ℕ) → In x (blobs (map (chunk_of codec) ps)) → Stored a (hash x) x)
        → AllStored a ps
    unfolding blobs chunk_of
    Stored-AllStored a [] k = tt
    Stored-AllStored a (verbatim bytes ∷ ps) k = Stored-AllStored a ps k
    Stored-AllStored a (blob ss tail values ∷ ps) k =
        (k (blob_bytes codec ss tail) (inl refl), Stored-AllStored a ps (λ x m. k x (inr m)))

    empty_none : (h : List ℕ) (r : Range) → lookup h empty_archive.hashes ≡ some r → ⊥
    unfolding lookup empty_archive
    empty_none h r e = cc

    out_buf_lem :
        (ps : List Push)
        → (archive_after codec hash (map (chunk_of codec) ps) empty_archive).out_buf
          ≡ items_bytes (parse_segment_naked codec) (seg_bytes codec) (map seg_of ps)
    unfolding empty_archive
    out_buf_lem ps =
        archive_after-out_buf (map (chunk_of codec) ps) empty_archive ∙ sym (segs_bytes ps)

    decode_parts :
        (ps : List Push)
        → AllPushes codec ps
        → length (module_bytes ps) < 2 ^ 32
        → NoCollision hash (blobs (map (chunk_of codec) ps))
        → decode codec (archive_after codec hash (map (chunk_of codec) ps) empty_archive)
          ≡ Result.ok (module_bytes ps)
    decode_parts ps h small distinct =
        let cs = map (chunk_of codec) ps in
        let a = archive_after codec hash cs empty_archive in
        let stored =
          archive_after-Stored hash (blobs cs) distinct codec cs empty_archive (λ x m. m)
            (λ x r e. absurd (empty_none x r e)) in
        let parser = parse_segment_naked codec in
        unfold decode in
        ap (λ l. for_all parser (decode_segment codec a) l []) (out_buf_lem ps)
        ∙ (for_all_items parser (seg_bytes codec) (decode_segment codec a) (map seg_of ps) []
              (segs_reads ps h small)
            ∙ fold_decode a ps [] h (Stored-AllStored a ps stored.0))

    -- Splitting and decoding give the module back. For calls whose blobs have their places where
    -- their relocations say, at full width, a LEB128 place holding a number below 2^32, or below
    -- 2^31 where it is signed, and with an addend, of 32 bits, just where its type has one, the
    -- number being the value of the index plus the addend modulo 2^32, with indices, values,
    -- counts and lengths below 2^32, of a module below 4 GiB, with a hash of 32 bytes that tells
    -- its blobs apart and a LEB128 codec as documented: no call panics, `finish` gives an archive,
    -- and its decoding is the bytes of the module.
    pub decode-finish :
        (ps : List Push)
        → AllPushes codec ps
        → length (module_bytes ps) < 2 ^ 32
        → NoCollision hash (blobs (map (chunk_of codec) (parts [] ps)))
        → (w : WasmallWriter) × (a : WasmallArchive) × (push_all codec ps empty_writer
            ≡ Result.ok w)
          × (finish codec hash w ≡ Result.ok a)
          × (decode codec a ≡ Result.ok (module_bytes ps))
    decode-finish ps h small distinct =
        let qs = parts [] ps in
        let cs = map (chunk_of codec) qs in
        let same : module_bytes qs ≡ module_bytes ps = module_bytes-parts_nil ps in
        let small' = subst (λ l. length l < 2 ^ 32) (sym same) small in
        (
          writer_of cs,
          archive_after codec hash cs empty_archive,
          push_all_nil codec laws ps h,
          finish-writer_of codec hash laws cs (parts-AllSmall codec qs small'),
          decode_parts qs (AllPushes-parts codec [] ps tt h) small' distinct ∙ ap Result.ok same,
        )
