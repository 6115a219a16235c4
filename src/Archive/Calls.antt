-- ===== src/Archive/Calls.antt =====
-- The calls on a `WasmallWriter` of src/wasmall/src/coder.rs make a writer of parts.
use crucible_rt.Prelude.{
  ℕ, ◌^◌, ◌<◌, ◌≡◌, refl, ap, arith, List, [], ◌∷◌, ◌++◌, length, length-append, map,
}
use crucible_rt.Leb.{Leb128, IsLeb128}
use crucible_rt.Result.{Result}
use crucible_rt.Coder.{empty_writer}
use crucible_rt.Coder.Site.{source}
use crucible_rt.Coder.Push.{
  flat, tile, writer_of, add_verbatim, push_verbatim-writer_of, push_blob-writer_of,
}
use crucible_rt.Coder.Finish.{AllSmall}
use crucible_rt.Archive.Parts.{
  Push, verbatim, blob, module_bytes, AllPushes, push_all, add_part, parts, chunk_of,
}

empty_writer_lem : writer_of [] ≡ empty_writer
unfolding writer_of flat tile empty_writer
empty_writer_lem = refl

module _ (codec : Leb128) where
  map-append_chunk :
      (ps qs : List Push)
      → map (chunk_of codec) (ps ++ qs) ≡ map (chunk_of codec) ps ++ map (chunk_of codec) qs
  map-append_chunk [] qs = refl
  map-append_chunk (p ∷ ps) qs = ap (λ l. chunk_of codec p ∷ l) (map-append_chunk ps qs)

  map-add_part :
      (ps : List Push) (bytes : List ℕ)
      → map (chunk_of codec) (add_part ps bytes) ≡ add_verbatim (map (chunk_of codec) ps) bytes
  unfolding add_part add_verbatim chunk_of
  map-add_part [] bytes = refl
  map-add_part (verbatim last ∷ []) bytes = refl
  map-add_part (blob ss tail values ∷ []) bytes = refl
  map-add_part (p ∷ q ∷ ps) bytes = ap (λ l. chunk_of codec p ∷ l) (map-add_part (q ∷ ps) bytes)

  AllPushes-append :
      (ps qs : List Push) → AllPushes codec ps → AllPushes codec qs → AllPushes codec (ps ++ qs)
  AllPushes-append [] qs h k = k
  AllPushes-append (p ∷ ps) qs h k = (h.0, AllPushes-append ps qs h.1 k)

  AllPushes-add_part :
      (ps : List Push) (bytes : List ℕ) → AllPushes codec ps → AllPushes codec (add_part ps bytes)
  unfolding add_part
  AllPushes-add_part [] bytes h = (tt, tt)
  AllPushes-add_part (verbatim last ∷ []) bytes h = (tt, tt)
  AllPushes-add_part (blob ss tail values ∷ []) bytes h = (h.0, (tt, tt))
  AllPushes-add_part (p ∷ q ∷ ps) bytes h = (h.0, AllPushes-add_part (q ∷ ps) bytes h.1)

  pub AllPushes-parts :
      (done ps : List Push)
      → AllPushes codec done
      → AllPushes codec ps
      → AllPushes codec (parts done ps)
  unfolding parts
  AllPushes-parts done [] h k = h
  AllPushes-parts done (verbatim bytes ∷ ps) h k =
      AllPushes-parts (add_part done bytes) ps (AllPushes-add_part done bytes h) k.1
  AllPushes-parts done (blob ss tail values ∷ ps) h k =
      AllPushes-parts (done ++ (blob ss tail values ∷ [])) ps
        (AllPushes-append done (blob ss tail values ∷ []) h (k.0, tt)) k.1

  module _ (laws : IsLeb128 codec) where
    -- The calls make a writer of the parts.
    push_all_lem :
        (done ps : List Push)
        → AllPushes codec ps
        → push_all codec ps (writer_of (map (chunk_of codec) done))
          ≡ Result.ok (writer_of (map (chunk_of codec) (parts done ps)))
    unfolding push_all parts chunk_of
    push_all_lem done [] h = refl
    push_all_lem done (verbatim bytes ∷ ps) h =
        rw (push_verbatim-writer_of (map (chunk_of codec) done) bytes, ← map-add_part done bytes)
          (push_all_lem (add_part done bytes) ps h.1)
    push_all_lem done (blob ss tail values ∷ ps) h =
        let (sites, fit, few, small, short) = h.0 in
        let more = push_all_lem (done ++ (blob ss tail values ∷ [])) ps h.1 in
        rw
          (push_blob-writer_of codec laws (map (chunk_of codec) done) ss tail values sites fit few
            small short)
          (rw (map-append_chunk done (blob ss tail values ∷ [])) at more)

    -- From the empty writer.
    pub push_all_nil :
        (ps : List Push)
        → AllPushes codec ps
        → push_all codec ps empty_writer
          ≡ Result.ok (writer_of (map (chunk_of codec) (parts [] ps)))
    push_all_nil ps h = rw (← empty_writer_lem) (push_all_lem [] ps h)

  pub parts-AllSmall :
      (ps : List Push) → length (module_bytes ps) < 2 ^ 32 → AllSmall (map (chunk_of codec) ps)
  unfolding module_bytes chunk_of
  parts-AllSmall [] h = tt
  parts-AllSmall (verbatim bytes ∷ ps) h =
      let lengths = length-append bytes (module_bytes ps) in
      (omega arith, parts-AllSmall ps (omega arith))
  parts-AllSmall (blob ss tail values ∷ ps) h =
      let lengths = length-append (source ss tail) (module_bytes ps) in
      (tt, parts-AllSmall ps (omega arith))
