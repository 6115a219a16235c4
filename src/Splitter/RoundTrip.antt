-- ===== src/Splitter/RoundTrip.antt =====
-- A module through `split_module` of src/wasmall/src/splitter.rs and the decoding of
-- src/wasmall/src/bin/roundtrip.rs.
use crucible_rt.Prelude.{
  ℕ, ◌^◌, ◌<◌, ◌≡◌, refl, ap, sym, ◌∙◌, subst, arith, List, [], ◌∷◌, ◌++◌, length, length-append,
  map,
}
use crucible_rt.Leb.{IsLeb128}
use crucible_rt.Result.{ok, ◌>>=◌}
use crucible_rt.Coder.{WasmallWriter, WasmallArchive, push_verbatim, empty_writer, finish}
use crucible_rt.Archive.{decode}
use crucible_rt.Archive.Parts.{Push, verbatim, push_all, module_bytes, pushed, parts, chunk_of}
use crucible_rt.Archive.Store.{blobs, NoCollision}
use crucible_rt.Archive.RoundTrip.{decode-finish}
use crucible_rt.Wasm.{Payload, no_section}
use crucible_rt.Splitter.{Crates, Maps, first_pass}
use crucible_rt.Splitter.Module.{
  SplitModuleResult, collect_payloads, magic, split_module, second_pass,
}
use crucible_rt.Splitter.Sections.{
  Section, render, payloads_at, pushes_of, HasRelocs, AllSections, custom_bytes,
}
use crucible_rt.Splitter.Passes.{second_pass-push_all}
use crucible_rt.Splitter.Notes.{Note, Notes}
use crucible_rt.Splitter.Order.{IsSort, HasNotes, HasNotes-HasRelocs, first_pass-add_notes}
use crucible_rt.Splitter.Stripped.{stripped, module_bytes-pushes_of, pushes_of-AllPushes}

pub collect_payloads-map : (ps : List Payload) → collect_payloads (map ok ps) ≡ ok ps
unfolding collect_payloads
collect_payloads-map [] = refl
collect_payloads-map (p ∷ ps) = ap (λ m. m >>= λ l. ok (p ∷ l)) (collect_payloads-map ps)

module _ (crates : Crates) (laws : IsLeb128 crates.codec) (sorts : IsSort crates.sort_relocs)
    (wide : (bytes : List ℕ) → length (crates.hash bytes) ≡ 32) where
  -- What is pushed for a module: its magic number and its sections.
  abbrev module_pushes : List Section → List Push
  module_pushes ss = verbatim magic ∷ pushes_of crates.codec ss

  split_module-finish :
      (ss : List Section) (maps : Maps) (w : WasmallWriter) (a : WasmallArchive)
      → let src = magic ++ render crates.codec ss in
        let ps = no_section ∷ payloads_at crates.codec 8 ss in
        crates.parser.parse_all src ≡ map ok ps
        → first_pass crates ps ≡ ok maps
        → AllSections crates.codec ss
        → HasRelocs crates.codec maps.orig_reloc_map 0 ss
        → length src < 2 ^ 31
        → push_all crates.codec (module_pushes ss) empty_writer ≡ ok w
        → finish crates.codec crates.hash w ≡ ok a
        → split_module crates src ≡ ok (record { archive = a; bytes_truncated = custom_bytes ss })
  unfolding push_all second_pass
  split_module-finish ss maps w a parsed first h k small made done =
      let passed =
        second_pass-push_all crates laws maps.orig_reloc_map magic ss 8 0
          (push_verbatim empty_writer magic) 0 h k refl small in
      unfold split_module in
      rw
        (
          parsed,
          collect_payloads-map (no_section ∷ payloads_at crates.codec 8 ss),
          first,
          passed,
          made,
          done,
        )
        (ap (λ (n : ℕ). ok (record { archive = a; bytes_truncated = n })) (omega arith))

  decode-second_pass :
      (ss : List Section) (maps : Maps)
      → let src = magic ++ render crates.codec ss in
        let ps = no_section ∷ payloads_at crates.codec 8 ss in
        crates.parser.parse_all src ≡ map ok ps
        → first_pass crates ps ≡ ok maps
        → AllSections crates.codec ss
        → HasRelocs crates.codec maps.orig_reloc_map 0 ss
        → length src < 2 ^ 31
        → length (magic ++ stripped crates.codec ss) < 2 ^ 32
        → NoCollision crates.hash (
            blobs
              (map (chunk_of crates.codec) (parts [] (verbatim magic ∷ pushes_of crates.codec ss))))
        → (r : SplitModuleResult) × (split_module crates src ≡ ok r)
          × (decode crates.codec r.archive ≡ ok (magic ++ stripped crates.codec ss))
          × (r.bytes_truncated ≡ custom_bytes ss)
  unfolding module_bytes pushed
  decode-second_pass ss maps parsed first h k small short distinct =
      let same = ap (λ l. magic ++ l) (module_bytes-pushes_of crates.codec ss) in
      let good =
        pushes_of-AllPushes crates.codec laws ss h
          (omega (arith, length-append magic (render crates.codec ss))) in
      let (w, a, made, done, back) =
        decode-finish crates.codec crates.hash laws wide (module_pushes ss) (tt, good)
          (subst (λ l. length l < 2 ^ 32) (sym same) short) distinct in
      (
        record { archive = a; bytes_truncated = custom_bytes ss },
        split_module-finish ss maps w a parsed first h k small made done,
        back ∙ ap ok same,
        refl,
      )

  pub decode-split_module :
      (ss : List Section) (ns : List Note)
      → crates.parser.parse_all (magic ++ render crates.codec ss)
        ≡ map ok (no_section ∷ payloads_at crates.codec 8 ss)
      → AllSections crates.codec ss
      → Notes crates ss ns
      → HasNotes crates.codec ns 0 ss
      → length (magic ++ render crates.codec ss) < 2 ^ 31
      → length (magic ++ stripped crates.codec ss) < 2 ^ 32
      → NoCollision crates.hash (
          blobs
            (map (chunk_of crates.codec) (parts [] (verbatim magic ∷ pushes_of crates.codec ss))))
      → (r : SplitModuleResult) × (split_module crates (magic ++ render crates.codec ss) ≡ ok r)
        × (decode crates.codec r.archive ≡ ok (magic ++ stripped crates.codec ss))
        × (r.bytes_truncated ≡ custom_bytes ss)
  decode-split_module ss ns parsed h notes has small short distinct =
      let (maps, first, same) = first_pass-add_notes crates laws ss ns 8 notes in
      decode-second_pass ss maps parsed first h
        (subst (λ l. HasRelocs crates.codec l 0 ss) (sym same)
          (HasNotes-HasRelocs crates sorts ns ss 0 h has))
        small short distinct
