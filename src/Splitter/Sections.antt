-- ===== src/Splitter/Sections.antt =====
-- The sections of a module, and the second pass of src/wasmall/src/splitter.rs over them as calls on the
-- writer.
use crucible_rt.Prelude.{
  ℕ, ◌+◌, ◌-◌, ◌^◌, ◌<◌, ◌≡◌, refl, ap, sym, ◌∙◌, arith, List, [], ◌∷◌, ◌++◌, length, none, some,
  get_elem?, lt→ltb, map,
}
use mathlib.Core.Path.{fun_ext}
use crucible_rt.Leb.{Leb128, IsLeb128}
use crucible_rt.Result.{ok, ◌>>=◌, bind_assoc}
use crucible_rt.Writer.{vec_writer}
use crucible_rt.Writer.Padding.{vec_writer-IsBufWriter}
use crucible_rt.Writer.Var.{u32_bytes, write_var_u32-extends}
use crucible_rt.Reloc.{RelocEntry}
use crucible_rt.Rewrite.Layout.{slice-append}
use crucible_rt.Coder.{WasmallWriter, Range, push_verbatim, push_blob}
use crucible_rt.Coder.Site.{source, entries}
use crucible_rt.Archive.Parts.{Push, verbatim, blob, push_all}
use crucible_rt.Wasm.{
  Payload, custom_section, code_section_start, code_section_entry, other_section, no_section,
}
use crucible_rt.Splitter.{Crates}
use crucible_rt.Splitter.Module.{func_ranges, try_u32, code_header, section_bytes, second_pass}
use crucible_rt.Splitter.Blobs.{Func, func_push}
use crucible_rt.Splitter.Pushes.{AllFuncs, funcs_bytes, func_relocs, ranges_of}

-- A section of the module: its header's bytes, and its name, data and their offset with its content;
-- its id and content; or its count and functions.
pub data Section : Type 0 where
  custom : List ℕ → List ℕ → List ℕ → ℕ → List ℕ → Section
  plain : List ℕ → ℕ → List ℕ → Section
  code : List ℕ → ℕ → List Func → Section

module _ (codec : Leb128) where
  unfoldable pub code_content : ℕ → List Func → List ℕ
  code_content count fs = u32_bytes codec count none ++ funcs_bytes fs

  -- The bytes of the module behind its magic number.
  unfoldable pub render : List Section → List ℕ
  unfolding code_content
  render [] = []
  render (custom header name data_ data_offset content ∷ ss) = header ++ (content ++ render ss)
  render (plain header id content ∷ ss) = header ++ (content ++ render ss)
  render (code header count fs ∷ ss) = header ++ (code_content count fs ++ render ss)

  -- The payloads of those bytes, from an offset on.
  unfoldable pub payloads_at : ℕ → List Section → List Payload
  unfolding code_content
  payloads_at offset [] = no_section ∷ []
  payloads_at offset (custom header name data_ data_offset content ∷ ss) =
      let start = offset + length header in
      custom_section name data_ data_offset (record { start = start; end = start + length content })
      ∷ payloads_at (start + length content) ss
  payloads_at offset (plain header id content ∷ ss) =
      let start = offset + length header in
      other_section id (record { start = start; end = start + length content })
      ∷ payloads_at (start + length content) ss
  payloads_at offset (code header count fs ∷ ss) =
      let start = offset + length header in
      let last = start + length (code_content count fs) in
      code_section_start (record { start = start; end = last }) count
      ∷ (map code_section_entry (ranges_of (start + length (u32_bytes codec count none)) fs)
          ++ payloads_at last ss)

  -- Its calls on the writer: a header of the shortest size field for each section that stays.
  unfoldable pub section_header : ℕ → ℕ → List ℕ
  section_header id n = (id ∷ []) ++ u32_bytes codec n none

  unfoldable pub pushes_of : List Section → List Push
  unfolding section_header code_content
  pushes_of [] = []
  pushes_of (custom header name data_ data_offset content ∷ ss) = pushes_of ss
  pushes_of (plain header id content ∷ ss) =
      verbatim (section_header id (length content) ++ content) ∷ pushes_of ss
  pushes_of (code header count fs ∷ ss) =
      verbatim (section_header 10 (length (code_content count fs)) ++ u32_bytes codec count none)
      ∷ (map func_push fs ++ pushes_of ss)

  -- The section of the code has the relocations of its functions, by its index among all sections.
  unfoldable pub HasRelocs : List (List RelocEntry) → ℕ → List Section → Type 0
  HasRelocs relocs idx [] = Unit {0}
  HasRelocs relocs idx (custom header name data_ data_offset content ∷ ss) =
      HasRelocs relocs (idx + 1) ss
  HasRelocs relocs idx (plain header id content ∷ ss) = HasRelocs relocs (idx + 1) ss
  HasRelocs relocs idx (code header count fs ∷ ss) =
      (get_elem? relocs idx ≡ some (func_relocs (length (u32_bytes codec count none)) fs))
      × HasRelocs relocs (idx + 1) ss

  unfoldable pub AllSections : List Section → Type 0
  AllSections [] = Unit {0}
  AllSections (custom header name data_ data_offset content ∷ ss) = AllSections ss
  AllSections (plain header id content ∷ ss) = AllSections ss
  AllSections (code header count fs ∷ ss) = ((count < 2 ^ 32) × AllFuncs codec fs) × AllSections ss

-- How many bytes the custom sections have.
unfoldable pub custom_bytes : List Section → ℕ
custom_bytes [] = 0
custom_bytes (custom header name data_ data_offset content ∷ ss) = length content + custom_bytes ss
custom_bytes (plain header id content ∷ ss) = custom_bytes ss
custom_bytes (code header count fs ∷ ss) = custom_bytes ss

pub push_all-append :
    (codec : Leb128) (ps qs : List Push) (w : WasmallWriter)
    → push_all codec (ps ++ qs) w ≡ (push_all codec ps w >>= push_all codec qs)
unfolding push_all
push_all-append codec [] qs w = refl
push_all-append codec (verbatim bytes ∷ ps) qs w =
    push_all-append codec ps qs (push_verbatim w bytes)
push_all-append codec (blob ss tail values ∷ ps) qs w =
    let pushed = push_blob codec w (entries 0 ss) values (source ss tail) in
    ap (λ k. pushed >>= k) (fun_ext (λ w'. push_all-append codec ps qs w'))
    ∙ sym (bind_assoc pushed (λ w'. push_all codec ps w') (push_all codec qs))

pub func_ranges-entries :
    (codec : Leb128) (rs : List Range) (offset : ℕ) (ss : List Section)
    → func_ranges (map code_section_entry rs ++ payloads_at codec offset ss) ≡ rs
unfolding func_ranges payloads_at
func_ranges-entries codec [] offset [] = refl
func_ranges-entries codec [] offset (custom header name data_ data_offset content ∷ ss) = refl
func_ranges-entries codec [] offset (plain header id content ∷ ss) = refl
func_ranges-entries codec [] offset (code header count fs ∷ ss) = refl
func_ranges-entries codec (r ∷ rs) offset ss =
    ap (λ l. r ∷ l) (func_ranges-entries codec rs offset ss)

module _ (crates : Crates) (src : List ℕ) (relocs : List (List RelocEntry)) where
  pub second_pass-entries :
      (rs : List Range) (ps : List Payload) (idx : ℕ) (w : WasmallWriter) (t : ℕ)
      → second_pass crates src relocs (map code_section_entry rs ++ ps) idx w t
        ≡ second_pass crates src relocs ps idx w t
  unfolding second_pass
  second_pass-entries [] ps idx w t = refl
  second_pass-entries (r ∷ rs) ps idx w t = second_pass-entries rs ps idx w t

try_u32_lem : (n : ℕ) → n < 2 ^ 32 → try_u32 n ≡ ok n
try_u32_lem n h = unfold try_u32 in rw (lt→ltb n (2 ^ 32) h)

module _ (codec : Leb128) (laws : IsLeb128 codec) where
  pub header_lem :
      (start last n count : ℕ)
      → last ≡ start + n
      → n < 2 ^ 32
      → count < 2 ^ 32
      → code_header codec (record { start = start; end = last }) count
        ≡ ok (section_header codec 10 n ++ u32_bytes codec count none)
  unfolding section_header
  header_lem start last n count e small fits =
      unfold code_header in
      let same : last - start ≡ n = omega arith in
      rw (
        same,
        try_u32_lem n small,
        write_var_u32-extends codec laws vec_writer-IsBufWriter (10 ∷ []) n small,
        write_var_u32-extends codec laws vec_writer-IsBufWriter
            ((10 ∷ []) ++ u32_bytes codec n none) count fits,
      )

  pub section_bytes_lem :
      (pre content post : List ℕ) (id start last : ℕ)
      → start ≡ length pre
      → last ≡ start + length content
      → length content < 2 ^ 32
      → section_bytes codec (pre ++ (content ++ post)) id (record { start = start; end = last })
        ≡ ok (section_header codec id (length content) ++ content)
  unfolding section_header
  section_bytes_lem pre content post id start last e f small =
      unfold section_bytes in
      let same : last - start ≡ length content = omega arith in
      rw (
        same,
        try_u32_lem (length content) small,
        write_var_u32-extends codec laws vec_writer-IsBufWriter (id ∷ []) (length content) small,
        slice-append pre content post start last e (f ∙ ap (λ (n : ℕ). n + length content) e),
      )
