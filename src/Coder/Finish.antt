-- ===== src/Coder/Finish.antt =====
-- `WasmallWriter::finish` of src/wasmall/src/coder.rs on a writer of chunks.
use crucible_rt.Prelude.{
  ℕ, ◌+◌, ◌^◌, ◌<◌, ◌≡◌, refl, ap, ◌∙◌, arith, List, [], ◌∷◌, ◌++◌, length, length-append,
  append_assoc, none, lt→ltb,
}
use crucible_rt.Leb.{Leb128, IsLeb128}
use crucible_rt.Result.{Result}
use crucible_rt.Writer.{vec_writer}
use crucible_rt.Writer.Padding.{vec_writer-IsBufWriter}
use crucible_rt.Writer.Var.{u32_bytes, write_var_u32-extends}
use crucible_rt.Rewrite.Layout.{slice-append}
use crucible_rt.Coder.{
  WasmallArchive, insert_vacant, finish_segment, finish_segments, finish, empty_archive,
}
use crucible_rt.Coder.Push.{Chunk, verbatim, blob, chunk_bytes, flat, segment_at, tile, writer_of}

abbrev pub IsSmall : Chunk → Type 0
IsSmall (verbatim bytes) = length bytes < 2 ^ 32
IsSmall (blob body concretes) = Unit {0}

abbrev pub AllSmall : List Chunk → Type 0
AllSmall [] = Unit {0}
AllSmall (c ∷ cs) = IsSmall c × AllSmall cs

module _ (codec : Leb128) (hash : List ℕ → List ℕ) where
  -- A chunk in the archive.
  unfoldable pub segment_bytes : Chunk → List ℕ
  segment_bytes (verbatim bytes) = 0 ∷ (u32_bytes codec (length bytes) none ++ bytes)
  segment_bytes (blob body concretes) = 1 ∷ (hash body ++ concretes)

  unfoldable pub out_bytes : List Chunk → List ℕ
  out_bytes [] = []
  out_bytes (c ∷ cs) = segment_bytes c ++ out_bytes cs

  -- The blob of a chunk is stored.
  unfoldable pub store : Chunk → WasmallArchive → WasmallArchive
  store (verbatim bytes) a = a
  store (blob body concretes) a = insert_vacant (hash body) body a

  unfoldable pub archive_after : List Chunk → WasmallArchive → WasmallArchive
  archive_after [] a = a
  archive_after (c ∷ cs) a =
      archive_after cs (store c (record a { out_buf = a.out_buf ++ segment_bytes c }))

  module _ (laws : IsLeb128 codec) where
    finish_segment_at :
        (done : List ℕ) (start : ℕ) (c : Chunk) (rest : List ℕ) (a : WasmallArchive)
        → start ≡ length done
        → IsSmall c
        → finish_segment codec hash (done ++ (chunk_bytes c ++ rest)) (segment_at start c) a
          ≡ Result.ok (store c (record a { out_buf = a.out_buf ++ segment_bytes c }))
    unfolding finish_segment segment_at chunk_bytes store segment_bytes
    finish_segment_at done start (verbatim bytes) rest a e h =
        let head = a.out_buf ++ (0 ∷ []) in
        rw
          (
            slice-append done bytes rest start (start + length bytes) e (omega arith),
            lt→ltb (length bytes) (2 ^ 32) h,
            write_var_u32-extends codec laws vec_writer-IsBufWriter head (length bytes) h,
          )
          (ap (λ l. Result.ok (record a { out_buf = l }))
            (append_assoc head (u32_bytes codec (length bytes) none) bytes
              ∙ append_assoc a.out_buf (0 ∷ []) (u32_bytes codec (length bytes) none ++ bytes)))
    finish_segment_at done start (blob body concretes) rest a e h =
        let second =
          slice-append (done ++ body) concretes rest (start + length body)
            (start + length body + length concretes) (omega (arith, length-append done body))
            (omega (arith, length-append done body)) in
        rw
          (
            append_assoc body concretes rest,
            slice-append done body (concretes ++ rest) start (start + length body) e (omega arith),
            rw (append_assoc done body (concretes ++ rest)) at second,
          )
          (ap (λ l. Result.ok (insert_vacant (hash body) body (record a { out_buf = l })))
            (append_assoc (a.out_buf ++ (1 ∷ [])) (hash body) concretes
              ∙ append_assoc a.out_buf (1 ∷ []) (hash body ++ concretes)))

    finish_segments_at :
        (done : List ℕ) (start : ℕ) (cs : List Chunk) (a : WasmallArchive)
        → start ≡ length done
        → AllSmall cs
        → finish_segments codec hash (done ++ flat cs) (tile start cs) a
          ≡ Result.ok (archive_after cs a)
    unfolding finish_segments flat tile archive_after
    finish_segments_at done start [] a e h = refl
    finish_segments_at done start (c ∷ cs) a e h =
        let a' = store c (record a { out_buf = a.out_buf ++ segment_bytes c }) in
        let more =
          finish_segments_at (done ++ chunk_bytes c) (start + length (chunk_bytes c)) cs a'
            (omega (arith, length-append done (chunk_bytes c))) h.1 in
        rw (finish_segment_at done start c (flat cs) a e h.0)
          (rw (append_assoc done (chunk_bytes c) (flat cs)) at more)

    -- With a LEB128 codec as documented, finishing a writer of chunks whose verbatim chunks are
    -- below 4 GiB succeeds: it writes every chunk in order as its segment and stores the blobs.
    pub finish-writer_of :
        (cs : List Chunk)
        → AllSmall cs
        → finish codec hash (writer_of cs) ≡ Result.ok (archive_after cs empty_archive)
    finish-writer_of cs h =
        unfold finish writer_of in finish_segments_at [] 0 cs empty_archive refl h
