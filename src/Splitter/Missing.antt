-- ===== src/Splitter/Missing.antt =====
-- A module whose code section has no relocations, in `split_module` of src/wasmall/src/splitter.rs.
use crucible_rt.Prelude.{
  ℕ, zero, suc, ◌+◌, ◌-◌, ◌^◌, ◌≤◌, ◌<◌, ◌≡◌, refl, ap, sym, ◌∙◌, subst, arith, List, [], ◌∷◌, ◌++◌,
  length, length-append, append_assoc, map, none, All, get_elem?, ==_iff,
}
use crucible_rt.Leb.{IsLeb128}
use crucible_rt.Result.{ok, panic}
use crucible_rt.Writer.Var.{u32_bytes}
use crucible_rt.Writer.RoundTrip.{read_u32_bytes}
use crucible_rt.Reloc.{RelocEntry}
use crucible_rt.Rewrite.Layout.{slice_rest}
use crucible_rt.Coder.{WasmallWriter, push_verbatim, empty_writer}
use crucible_rt.Wasm.{Payload, code_section_entry, no_section}
use crucible_rt.Splitter.{Crates, update_at}
use crucible_rt.Splitter.Module.{magic, split_code, split_module, second_pass}
use crucible_rt.Splitter.Pushes.{funcs_bytes, ranges_of}
use crucible_rt.Splitter.Sections.{
  Section, custom, plain, code, code_content, render, payloads_at, section_header, header_lem,
  section_bytes_lem,
}
use crucible_rt.Splitter.Passes.{content_next, offset_next, content_small}
use crucible_rt.Splitter.Notes.{Note, Notes, add_notes}
use crucible_rt.Splitter.Order.{first_pass-add_notes}
use crucible_rt.Splitter.RoundTrip.{collect_payloads-map}

-- The first code section stands at the bound or behind it, by its index among all sections.
unfoldable pub CodeFrom : ℕ → ℕ → List Section → Type 0
CodeFrom bound idx [] = ⊥
CodeFrom bound idx (custom header name data_ data_offset content ∷ ss) = CodeFrom bound (idx + 1) ss
CodeFrom bound idx (plain header id content ∷ ss) = CodeFrom bound (idx + 1) ss
CodeFrom bound idx (code header count fs ∷ ss) = (bound ≤ idx) × (count < 2 ^ 32)

length-update_at :
    (bound i : ℕ) (f : List RelocEntry → List RelocEntry) (xs : List (List RelocEntry))
    → i < bound
    → length xs ≤ bound
    → length (update_at i f xs) ≤ bound
unfolding update_at
length-update_at bound zero f [] h k = h
length-update_at bound zero f (x ∷ xs) h k = k
length-update_at zero (suc i) f xs h k = absurd (omega arith)
length-update_at (suc bound) (suc i) f [] h k =
    omega (arith, length-update_at bound i f [] (omega arith) (omega arith))
length-update_at (suc bound) (suc i) f (x ∷ xs) h k =
    omega (arith, length-update_at bound i f xs (omega arith) (omega arith))

length-add_notes :
    (bound : ℕ) (ns : List Note) (maps : List (List RelocEntry))
    → All (λ n. n.0 < bound) ns
    → length maps ≤ bound
    → length (add_notes ns maps) ≤ bound
unfolding add_notes
length-add_notes bound [] maps h k = k
length-add_notes bound ((target, es) ∷ ns) maps h k =
    length-add_notes bound ns (update_at target (λ old. old ++ es) maps) h.1
      (length-update_at bound target (λ old. old ++ es) maps h.0 k)

length-map :
    (f : List RelocEntry → List RelocEntry) (xs : List (List RelocEntry))
    → length (map f xs) ≡ length xs
length-map f [] = refl
length-map f (x ∷ xs) = ap suc (length-map f xs)

get_elem?-none : (xs : List (List RelocEntry)) (i : ℕ) → length xs ≤ i → get_elem? xs i ≡ none
get_elem?-none [] i h = refl
get_elem?-none (x ∷ xs) zero h = absurd (omega arith)
get_elem?-none (x ∷ xs) (suc i) h = get_elem?-none xs i (omega arith)

module _ (crates : Crates) (laws : IsLeb128 crates.codec) (relocs : List (List RelocEntry)) where
  split_code_panic :
      (pre rest : List ℕ) (count start last n idx : ℕ) (ps : List Payload) (w : WasmallWriter)
      → count < 2 ^ 32
      → start ≡ length pre
      → last ≡ start + n
      → n < 2 ^ 32
      → get_elem? relocs idx ≡ none
      → split_code crates
          (pre ++ (u32_bytes crates.codec count none ++ rest))
          relocs
          (record { start = start; end = last })
          count
          ps
          idx
          w
        ≡ panic
  split_code_panic pre rest count start last n idx ps w fits at end small missing =
      unfold split_code in
      rw (
        slice_rest pre (u32_bytes crates.codec count none ++ rest) start at,
        read_u32_bytes crates.codec laws count none rest fits (omega arith),
        (==_iff count count).1 refl,
        header_lem crates.codec laws start last n count end small fits,
        missing,
      )

  second_pass_panic :
      (bound : ℕ) (pre : List ℕ) (ss : List Section) (offset idx : ℕ) (w : WasmallWriter) (t : ℕ)
      → length relocs ≤ bound
      → CodeFrom bound idx ss
      → offset ≡ length pre
      → length (pre ++ render crates.codec ss) < 2 ^ 31
      → second_pass crates
          (pre ++ render crates.codec ss)
          relocs
          (payloads_at crates.codec offset ss)
          idx
          w
          t
        ≡ panic
  unfolding render payloads_at CodeFrom second_pass code_content
  second_pass_panic bound pre [] offset idx w t few h at small = absurd h
  second_pass_panic bound pre (custom header name data_ data_offset content ∷ ss) offset idx w t few
        h at small =
      let rest = render crates.codec ss in
      let more =
        second_pass_panic bound (pre ++ (header ++ content)) ss
          (offset + length header + length content) (idx + 1) w
          (t + (offset + length header + length content - (offset + length header))) few h
          (offset_next pre header content rest offset at)
          (subst (λ l. length l < 2 ^ 31) (sym (content_next pre header content rest)) small) in
      rw content_next at more
  second_pass_panic bound pre (plain header id content ∷ ss) offset idx w t few h at small =
      let rest = render crates.codec ss in
      let bytes = section_header crates.codec id (length content) ++ content in
      let more =
        second_pass_panic bound (pre ++ (header ++ content)) ss
          (offset + length header + length content) (idx + 1) (push_verbatim w bytes) t few h
          (offset_next pre header content rest offset at)
          (subst (λ l. length l < 2 ^ 31) (sym (content_next pre header content rest)) small) in
      let one =
        section_bytes_lem crates.codec laws (pre ++ header) content rest id (offset + length header)
          (offset + length header + length content) (omega (arith, length-append pre header)) refl
          (content_small pre header content rest small) in
      rw (rw append_assoc at one) (rw content_next at more)
  second_pass_panic bound pre (code header count fs ∷ ss) offset idx w t few h at small =
      let codec = crates.codec in
      let field = u32_bytes codec count none in
      let rest = render codec ss in
      let start = offset + length header in
      let n = length (field ++ funcs_bytes fs) in
      let regroup : (pre ++ header) ++ (field ++ (funcs_bytes fs ++ rest))
          ≡ pre ++ (header ++ ((field ++ funcs_bytes fs) ++ rest)) =
        append_assoc pre header (field ++ (funcs_bytes fs ++ rest))
        ∙ ap (λ l. pre ++ (header ++ l)) (sym (append_assoc field (funcs_bytes fs) rest)) in
      let one =
        split_code_panic (pre ++ header) (funcs_bytes fs ++ rest) count start (start + n) n idx
          (map code_section_entry (ranges_of (start + length field) fs)
            ++ payloads_at codec (start + n) ss)
          w h.1 (omega (arith, length-append pre header)) refl
          (content_small pre header (field ++ funcs_bytes fs) rest small)
          (get_elem?-none relocs idx (omega arith)) in
      rw (rw regroup at one) refl

-- With a LEB128 codec as documented, a module below 2 GiB, as the parser gives it, whose linking
-- sections raise no error and whose relocation sections hold entries that fit, panics when those
-- all name sections in front of its first code section: the vectors have no element for that
-- section's index.
pub split_module-panic :
    (crates : Crates) (laws : IsLeb128 crates.codec) (bound : ℕ) (ss : List Section)
    (ns : List Note)
    → crates.parser.parse_all (magic ++ render crates.codec ss)
      ≡ map ok (no_section ∷ payloads_at crates.codec 8 ss)
    → Notes crates ss ns
    → All (λ n. n.0 < bound) ns
    → CodeFrom bound 0 ss
    → length (magic ++ render crates.codec ss) < 2 ^ 31
    → split_module crates (magic ++ render crates.codec ss) ≡ panic
unfolding second_pass
split_module-panic crates laws bound ss ns parsed notes below from small =
    let (maps, first, same) = first_pass-add_notes crates laws ss ns 8 notes in
    let few : length maps.orig_reloc_map ≤ bound =
      rw (same, length-map) (length-add_notes bound ns [] below (omega arith)) in
    let passed =
      second_pass_panic crates laws maps.orig_reloc_map bound magic ss 8 0
        (push_verbatim empty_writer magic) 0 few from refl small in
    unfold split_module in
    rw (parsed, collect_payloads-map (no_section ∷ payloads_at crates.codec 8 ss), first, passed)
