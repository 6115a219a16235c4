-- ===== src/Coder/Push.antt =====
-- `push_verbatim` and `push_blob` of src/wasmall/src/coder.rs against a list of chunks: the buffer is
-- the chunks one after the other, and the segments are their ranges.
use crucible_rt.Prelude.{
  ℕ, ◌+◌, ◌%◌, ◌^◌, ◌<◌, ◌≡◌, refl, ap, sym, ◌∙◌, arith, List, [], ◌∷◌, ◌++◌, length, length-append,
  append_assoc, append-nil, none, All,
}
use crucible_rt.Leb.{Leb128, IsLeb128}
use crucible_rt.Result.{Result}
use crucible_rt.Writer.{BufWriter, vec_writer, len_counter, len_of}
use crucible_rt.Writer.Padding.{IsBufWriter, vec_writer-IsBufWriter, len_counter-IsBufWriter}
use crucible_rt.Writer.Var.{u32_bytes, write_var_u32-extends}
use crucible_rt.Coder.{
  WasmallWriter, Segment, Range, write_values, write_concretes, push_blob, push_verbatim, grow_last,
}
use crucible_rt.Coder.Site.{Site, AllSites, source, entries}
use crucible_rt.Coder.Blob.{blob_bytes, write_blob_lem}

abbrev pub IsU32 : ℕ → Type 0
IsU32 v = v < 2 ^ 32

unfoldable pub values_bytes : Leb128 → List ℕ → List ℕ
values_bytes codec [] = []
values_bytes codec (v ∷ vs) = u32_bytes codec v none ++ values_bytes codec vs

-- The values of a blob, after the count of their bytes.
unfoldable pub concretes_bytes : Leb128 → List ℕ → List ℕ
concretes_bytes codec vs =
    u32_bytes codec (length (values_bytes codec vs)) none ++ values_bytes codec vs

-- What lies between two segment borders of the buffer.
pub data Chunk : Type 0 where
  verbatim : List ℕ → Chunk
  blob : List ℕ → List ℕ → Chunk

unfoldable pub chunk_bytes : Chunk → List ℕ
chunk_bytes (verbatim bytes) = bytes
chunk_bytes (blob body concretes) = body ++ concretes

unfoldable pub flat : List Chunk → List ℕ
unfolding chunk_bytes
flat [] = []
flat (c ∷ cs) = chunk_bytes c ++ flat cs

abbrev pub range_of : ℕ → List ℕ → Range
range_of start bytes = record { start = start; end = start + length bytes }

unfoldable pub segment_at : ℕ → Chunk → Segment
segment_at start (verbatim bytes) = Segment.verbatim (range_of start bytes)
segment_at start (blob body concretes) =
    Segment.blob (range_of start body) (range_of (start + length body) concretes)

unfoldable pub tile : ℕ → List Chunk → List Segment
unfolding segment_at
tile start [] = []
tile start (c ∷ cs) = segment_at start c ∷ tile (start + length (chunk_bytes c)) cs

-- The writer that holds the chunks.
unfoldable pub writer_of : List Chunk → WasmallWriter
writer_of cs = record { buf = flat cs; segments = tile 0 cs }

-- Verbatim bytes join a verbatim chunk at the end.
unfoldable pub add_verbatim : List Chunk → List ℕ → List Chunk
add_verbatim [] bytes = verbatim bytes ∷ []
add_verbatim (verbatim last ∷ []) bytes = verbatim (last ++ bytes) ∷ []
add_verbatim (blob body concretes ∷ []) bytes = blob body concretes ∷ verbatim bytes ∷ []
add_verbatim (c ∷ d ∷ cs) bytes = c ∷ add_verbatim (d ∷ cs) bytes

flat-add_verbatim :
    (cs : List Chunk) (bytes : List ℕ) → flat (add_verbatim cs bytes) ≡ flat cs ++ bytes
unfolding flat add_verbatim
flat-add_verbatim [] bytes = append-nil bytes
flat-add_verbatim (verbatim last ∷ []) bytes =
    append-nil (last ++ bytes) ∙ ap (λ l. l ++ bytes) (sym (append-nil last))
flat-add_verbatim (blob body concretes ∷ []) bytes =
    ap (λ l. (body ++ concretes) ++ l) (append-nil bytes)
    ∙ ap (λ l. l ++ bytes) (sym (append-nil (body ++ concretes)))
flat-add_verbatim (c ∷ d ∷ cs) bytes =
    ap (λ l. chunk_bytes c ++ l) (flat-add_verbatim (d ∷ cs) bytes)
    ∙ sym (append_assoc (chunk_bytes c) (flat (d ∷ cs)) bytes)

tile-add_verbatim :
    (start end : ℕ) (cs : List Chunk) (bytes : List ℕ)
    → end ≡ start + length (flat cs)
    → grow_last end (end + length bytes) (tile start cs) ≡ tile start (add_verbatim cs bytes)
unfolding grow_last tile add_verbatim flat
tile-add_verbatim start end [] bytes e =
    ap (λ (n : ℕ). Segment.verbatim (range_of n bytes) ∷ []) (omega arith)
tile-add_verbatim start end (verbatim last ∷ []) bytes e =
    ap (λ (n : ℕ). Segment.verbatim (record { start = start; end = n }) ∷ [])
      (omega (arith, length-append last [], length-append last bytes))
tile-add_verbatim start end (blob body concretes ∷ []) bytes e =
    ap
      (λ (n : ℕ). segment_at start (blob body concretes) ∷ Segment.verbatim (range_of n bytes) ∷ [])
      (omega (arith, length-append (body ++ concretes) []))
tile-add_verbatim start end (c ∷ d ∷ cs) bytes e =
    ap (λ l. segment_at start c ∷ l)
      (tile-add_verbatim (start + length (chunk_bytes c)) end (d ∷ cs) bytes
        (omega (arith, length-append (chunk_bytes c) (flat (d ∷ cs)))))

tile-append :
    (start : ℕ) (cs ds : List Chunk)
    → tile start (cs ++ ds) ≡ tile start cs ++ tile (start + length (flat cs)) ds
unfolding tile flat
tile-append start [] ds = ap (λ (n : ℕ). tile n ds) (omega arith)
tile-append start (c ∷ cs) ds =
    let next = start + length (chunk_bytes c) in
    ap (λ l. segment_at start c ∷ l)
      (tile-append next cs ds
        ∙ ap (λ (n : ℕ). tile next cs ++ tile n ds)
            (omega (arith, length-append (chunk_bytes c) (flat cs))))

flat-append : (cs ds : List Chunk) → flat (cs ++ ds) ≡ flat cs ++ flat ds
unfolding flat
flat-append [] ds = refl
flat-append (c ∷ cs) ds =
    ap (λ l. chunk_bytes c ++ l) (flat-append cs ds)
    ∙ sym (append_assoc (chunk_bytes c) (flat cs) (flat ds))

-- Pushing verbatim bytes on a writer of chunks gives the writer of the chunks in which the last
-- verbatim chunk grew, or a new one was appended: buffer and ranges stay in step.
pub push_verbatim-writer_of :
    (cs : List Chunk) (bytes : List ℕ)
    → push_verbatim (writer_of cs) bytes ≡ writer_of (add_verbatim cs bytes)
unfolding push_verbatim writer_of
push_verbatim-writer_of cs bytes =
    let grown = tile-add_verbatim 0 (length (flat cs)) cs bytes (omega arith) in
    rw (length-append (flat cs) bytes, grown, flat-add_verbatim cs bytes)

module _ (codec : Leb128) (laws : IsLeb128 codec) where
  module _ {W : Type 0} ⦃w : BufWriter W⦄ (writes : IsBufWriter w) where
    write_values-extends :
        (vs : List ℕ) (out : W)
        → All IsU32 vs
        → write_values codec vs out ≡ Result.ok (w.extend out (values_bytes codec vs))
    unfolding write_values values_bytes
    write_values-extends [] out h = ap Result.ok (sym (writes.extend_nil out))
    write_values-extends (v ∷ vs) out h = rw (write_var_u32-extends codec laws writes out v h.0) (
        write_values-extends vs (w.extend out (u32_bytes codec v none)) h.1
        ∙ ap Result.ok (writes.extend_twice out (u32_bytes codec v none) (values_bytes codec vs)))

  write_concretes_lem :
      (vs buf : List ℕ)
      → All IsU32 vs
      → length (values_bytes codec vs) < 2 ^ 32
      → write_concretes codec vs buf ≡ Result.ok (buf ++ concretes_bytes codec vs)
  write_concretes_lem vs buf h small =
      let bytes = values_bytes codec vs in
      let size : (0 + length bytes) % 2 ^ 32 ≡ length bytes = omega arith in
      unfold write_concretes len_of concretes_bytes in
      rw (
        write_values-extends len_counter-IsBufWriter vs 0 h,
        size,
        write_var_u32-extends codec laws vec_writer-IsBufWriter buf (length bytes) small,
        write_values-extends vec_writer-IsBufWriter vs (buf ++ u32_bytes codec (length bytes) none)
            h,
        append_assoc buf (u32_bytes codec (length bytes) none) bytes,
      )

  -- With a LEB128 codec as documented, on a writer of chunks, `push_blob` of data whose places lie
  -- as its relocations say, at full width, a LEB128 place holding a number below 2^32, or below
  -- 2^31 where it is signed, and with an addend, of 32 bits, just where its type has one, the
  -- number being the value of the index plus the addend modulo 2^32, with indices, values, counts
  -- and lengths below 2^32, appends one blob chunk (the count, entries and zeroed data, then the
  -- size and the values) and its ranges, and cannot panic.
  pub push_blob-writer_of :
      (cs : List Chunk) (ss : List Site) (tail values : List ℕ)
      → AllSites values ss
      → All IsU32 values
      → length ss < 2 ^ 32
      → length (source ss tail) < 2 ^ 32
      → length (values_bytes codec values) < 2 ^ 32
      → push_blob codec (writer_of cs) (entries 0 ss) values (source ss tail)
        ≡ Result.ok (
            writer_of (cs ++ (blob (blob_bytes codec ss tail) (concretes_bytes codec values) ∷ [])))
  unfolding flat tile
  push_blob-writer_of cs ss tail values h hv few small short =
      let body = blob_bytes codec ss tail in
      let concretes = concretes_bytes codec values in
      let start = flat cs in
      unfold push_blob writer_of in
      rw (
        write_blob_lem codec laws values ss tail start h few small,
        write_concretes_lem values (start ++ body) hv short,
        flat-append cs (blob body concretes ∷ []),
        tile-append 0 cs (blob body concretes ∷ []),
        zero_start,
        append-nil (body ++ concretes),
        length-append (start ++ body) concretes,
        length-append start body,
        append_assoc start body concretes,
      )
    where
      zero_start : 0 + length (flat cs) ≡ length (flat cs)
      zero_start = omega arith
