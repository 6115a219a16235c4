-- ===== src/Splitter/Order.antt =====
-- The relocations of a code section are in the order of their offsets, so that the sort of
-- src/wasmall/src/splitter.rs leaves them.
use crucible_rt.Prelude.{
  ℕ, zero, suc, ◌+◌, ◌≡◌, refl, ap, ◌∙◌, arith, List, [], ◌∷◌, ◌++◌, length, Option, none, some,
  get_elem?, map,
}
use crucible_rt.Leb.{Leb128, IsLeb128}
use crucible_rt.Result.{ok}
use crucible_rt.Writer.Var.{u32_bytes}
use crucible_rt.Scalar.{rewrite_kind}
use crucible_rt.Reloc.{RelocEntry}
use crucible_rt.Coder.Site.{Site, source, entries, over_sites}
use crucible_rt.Wasm.{no_section}
use crucible_rt.Splitter.{Crates, Maps, first_pass, first_pass_loop, first_pass_payload}
use crucible_rt.Splitter.Places.{AllPlaces}
use crucible_rt.Splitter.Blobs.{
  Func, func_bytes, Above, Between, Between-Above, Above-mono, entries-Between, length-Holds,
}
use crucible_rt.Splitter.Pushes.{AllFuncs, func_relocs, func_relocs-Above}
use crucible_rt.Splitter.Sections.{
  Section, custom, plain, code, payloads_at, HasRelocs, AllSections,
}
use crucible_rt.Splitter.Relocs.{Agree}
use crucible_rt.Splitter.Notes.{Note, Notes, noted, add_notes, noted-Agree, first_pass_loop-Notes}

-- Each offset is above those before it.
abbrev pub Ascending : List RelocEntry → Type 0
Ascending [] = Unit {0}
Ascending (e ∷ es) = Above e.offset es × Ascending es

-- `sort_unstable_by` by the offset leaves what is in order.
abbrev pub IsSort : (List RelocEntry → List RelocEntry) → Type 0
IsSort sort = (es : List RelocEntry) → Ascending es → sort es ≡ es

Above-append : (lo : ℕ) (es fs : List RelocEntry) → Above lo es → Above lo fs → Above lo (es ++ fs)
Above-append lo [] fs h k = k
Above-append lo (e ∷ es) fs h k = (h.0, Above-append lo es fs h.1 k)

Ascending-append :
    (lo hi : ℕ) (es fs : List RelocEntry)
    → Ascending es
    → Between lo hi es
    → Ascending fs
    → Above hi fs
    → Ascending (es ++ fs)
Ascending-append lo hi [] fs h b k a = k
Ascending-append lo hi (e ∷ es) fs h b k a = (
  Above-append e.offset es fs h.0 (Above-mono e.offset hi fs b.0.1 a),
  Ascending-append lo hi es fs h.1 b.1 k a,
)

entries-Ascending : (offset : ℕ) (ss : List Site) → AllPlaces ss → Ascending (entries offset ss)
unfolding entries over_sites
entries-Ascending offset [] h = tt
entries-Ascending offset (s ∷ ss) h =
    let next = offset + length s.before + length s.bytes in
    let wide = length-Holds (rewrite_kind s.ty) s.bytes s.val h.0.holds in
    (
      Between-Above (offset + length s.before) next (next + length (source ss [])) (entries next ss)
          (omega arith) (entries-Between next ss []),
      entries-Ascending next ss h.1,
    )

func_relocs-Ascending :
    (codec : Leb128) (offset : ℕ) (fs : List Func)
    → AllFuncs codec fs
    → Ascending (func_relocs offset fs)
unfolding func_relocs
func_relocs-Ascending codec offset [] h = tt
func_relocs-Ascending codec offset (f ∷ fs) h =
    let next = offset + length (func_bytes f) in
    Ascending-append offset next (entries offset f.sites) (func_relocs next fs)
      (entries-Ascending offset f.sites h.0.places) (entries-Between offset f.sites f.tail)
      (func_relocs-Ascending codec next fs h.1) (func_relocs-Above codec next fs h.1)

pub get_elem?-map :
    (f : List RelocEntry → List RelocEntry) (xs : List (List RelocEntry)) (i : ℕ)
    (r : List RelocEntry)
    → get_elem? xs i ≡ some r
    → get_elem? (map f xs) i ≡ some (f r)
get_elem?-map f [] i r e = cc
get_elem?-map f (x ∷ xs) zero r e = cc
get_elem?-map f (x ∷ xs) (suc i) r e = get_elem?-map f xs i r e

Agree-some : (o : Option (List RelocEntry)) (r : List RelocEntry) → Agree (some r) o → o ≡ some r
Agree-some none r h = absurd h
Agree-some (some s) r h = ap some h

-- Each code section has the relocations of its functions among the relocation sections, by its index.
unfoldable pub HasNotes : Leb128 → List Note → ℕ → List Section → Type 0
HasNotes codec ns idx [] = Unit {0}
HasNotes codec ns idx (custom header name data_ data_offset content ∷ ss) =
    HasNotes codec ns (idx + 1) ss
HasNotes codec ns idx (plain header id content ∷ ss) = HasNotes codec ns (idx + 1) ss
HasNotes codec ns idx (code header count fs ∷ ss) =
    (noted idx ns none ≡ some (func_relocs (length (u32_bytes codec count none)) fs))
    × HasNotes codec ns (idx + 1) ss

module _ (crates : Crates) (sorts : IsSort crates.sort_relocs) (ns : List Note) where
  known_relocs :
      (idx : ℕ) (r : List RelocEntry)
      → noted idx ns none ≡ some r
      → Ascending r
      → get_elem? (map crates.sort_relocs (add_notes ns [])) idx ≡ some r
  known_relocs idx r e h =
      let there =
        Agree-some (get_elem? (add_notes ns []) idx) r (rw e at (noted-Agree idx ns none [] tt)) in
      get_elem?-map crates.sort_relocs (add_notes ns []) idx r there ∙ ap some (sorts r h)

  pub HasNotes-HasRelocs :
      (ss : List Section) (idx : ℕ)
      → AllSections crates.codec ss
      → HasNotes crates.codec ns idx ss
      → HasRelocs crates.codec (map crates.sort_relocs (add_notes ns [])) idx ss
  unfolding HasNotes HasRelocs AllSections
  HasNotes-HasRelocs [] idx h k = tt
  HasNotes-HasRelocs (custom header name data_ data_offset content ∷ ss) idx h k =
      HasNotes-HasRelocs ss (idx + 1) h k
  HasNotes-HasRelocs (plain header id content ∷ ss) idx h k = HasNotes-HasRelocs ss (idx + 1) h k
  HasNotes-HasRelocs (code header count fs ∷ ss) idx h k =
      let offset = length (u32_bytes crates.codec count none) in
      (
        known_relocs idx (func_relocs offset fs) k.0
            (func_relocs-Ascending crates.codec offset fs h.0.1),
        HasNotes-HasRelocs ss (idx + 1) h.1 k.1,
      )

-- With a LEB128 codec as documented, for the sections of a module whose relocation sections hold a
-- target and entries that fit, whose linking sections raise no error and whose other custom
-- sections are named otherwise, the first pass succeeds, and its vectors are those that the
-- entries of every relocation section were appended to, by target, each sorted.
pub first_pass-add_notes :
    (crates : Crates) (laws : IsLeb128 crates.codec) (ss : List Section) (ns : List Note)
    (offset : ℕ)
    → Notes crates ss ns
    → (maps : Maps) × (first_pass crates (no_section ∷ payloads_at crates.codec offset ss)
        ≡ ok maps)
      × (maps.orig_reloc_map ≡ map crates.sort_relocs (add_notes ns []))
unfolding first_pass first_pass_loop first_pass_payload
first_pass-add_notes crates laws ss ns offset notes =
    let (m, e) =
      first_pass_loop-Notes crates laws ss ns offset
        (record { orig_reloc_map = []; data_seg_map = [] }) notes in
    (
      record {
        orig_reloc_map = map crates.sort_relocs (add_notes ns []);
        data_seg_map = map (λ (k, ranges). (k, crates.sort_ranges ranges)) m;
      },
      rw e,
      refl,
    )
