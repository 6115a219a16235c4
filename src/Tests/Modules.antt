-- ===== src/Tests/Modules.antt =====
-- A module with a function, its relocation section, a linking section and a note, split by
-- `split_module` of src/wasmall/src/splitter.rs.
use crucible_rt.Prelude.{
  length-append, ◌-◌, ◌≤◌, ℕ, ◌+◌, ◌^◌, ◌<◌, ◌≡◌, refl, arith, List, [], ◌∷◌, ◌++◌, length, none,
  some, map,
}
use crucible_rt.Leb.Reference.{reference, reference-IsLeb128, encode_groups}
use crucible_rt.Result.{Result, ok, panic, ◌>>=◌}
use crucible_rt.Writer.Padding.{zero_extended}
use crucible_rt.Reloc.{RelocEntry, function_index_leb, has_addend}
use crucible_rt.Coder.{empty_writer}
use crucible_rt.Coder.Site.{Site, source, entries, over_sites}
use crucible_rt.Archive.{decode}
use crucible_rt.Archive.Parts.{push_all, verbatim, chunk_of, parts, add_part}
use crucible_rt.Archive.Store.{blobs, NoCollision}
use crucible_rt.Wasm.{
  data_symbol, other_symbol, Linking, symbol_table, other_subsection, no_section,
}
use crucible_rt.Splitter.{Crates, starts_with, linking_name}
use crucible_rt.Splitter.Places.{IsPlace}
use crucible_rt.Splitter.Module.{SplitModuleResult, magic, split_module, second_pass}
use crucible_rt.Splitter.Functions.{LocalMap, local_symbol, split_functions}
use crucible_rt.Splitter.Symbols.{Interned, local_symbol-Interned}
use crucible_rt.Splitter.Passes.{second_pass-push_all}
use crucible_rt.Splitter.Missing.{CodeFrom, split_module-panic}
use crucible_rt.Splitter.Blobs.{Func, IsFunc, func_push}
use crucible_rt.Splitter.Pushes.{func_relocs, funcs_bytes, ranges_of, split_functions-push_all}
use crucible_rt.Splitter.Sections.{
  Section, custom, plain, code, code_content, render, payloads_at, section_header, pushes_of,
  AllSections, HasRelocs, custom_bytes,
}
use crucible_rt.Splitter.Relocs.{reloc_section_bytes}
use crucible_rt.Splitter.Notes.{
  Notes, noted, done, relocs, linking, other, plain_section, code_section,
}
use crucible_rt.Splitter.Order.{HasNotes}
use crucible_rt.Tests.Sorting.{insertion_sort, insertion_sort-IsSort}
use mathlib.Core.Option
use crucible_rt.Splitter.Stripped.{stripped}
use crucible_rt.Splitter.RoundTrip.{decode-split_module}
use crucible_rt.CompareSets.{minus, plus, difference, hash_set, compare_sets}
use crucible_rt.CompareSets.Lines.{custom_bytes-render, compare_sets-difference}
use crucible_rt.Tests.{five, five-Holds, digest, only_blob}

-- The call of function 5 stands behind the size field and the count of locals.
abbrev call : Site
call = record {
  before = 8 ∷ 0 ∷ 0x10 ∷ [];
  bytes = five;
  ty = function_index_leb;
  index = 7;
  addend = none;
  val = 5;
}

abbrev func : Func
func = record { size_width = 1; sites = call ∷ []; tail = 0x0b ∷ [] }

abbrev subsections : List (Result Linking)
subsections =
    ok other_subsection
    ∷ ok (
        symbol_table (
          ok other_symbol
          ∷ ok (data_symbol (some (record { index = 0; offset = 8; size = 4 })))
          ∷ []))
    ∷ []

abbrev func_entries : List RelocEntry
func_entries = record { ty = function_index_leb; offset = 4; index = 7; addend = none } ∷ []

abbrev note_name : List ℕ
note_name = b'n' ∷ b'a' ∷ b'm' ∷ b'e' ∷ []

abbrev reloc_name : List ℕ
reloc_name = b'r' ∷ b'e' ∷ b'l' ∷ b'o' ∷ b'c' ∷ b'.' ∷ b'C' ∷ []

abbrev module_sections : List Section
module_sections =
    plain (1 ∷ 4 ∷ []) 1 (1 ∷ 0x60 ∷ 0 ∷ 0 ∷ [])
    ∷ code (10 ∷ 0x8a ∷ 0 ∷ []) 1 (func ∷ [])
    ∷ custom (0 ∷ 2 ∷ []) linking_name (2 ∷ []) 29 (0 ∷ 2 ∷ [])
    ∷ custom (0 ∷ 3 ∷ []) reloc_name (reloc_section_bytes reference 1 func_entries) 33
        (9 ∷ 9 ∷ 9 ∷ [])
    ∷ custom (0 ∷ 1 ∷ []) note_name [] 40 (7 ∷ [])
    ∷ []

abbrev crates : Crates
crates = record {
  codec = reference;
  hash = digest;
  parser = record {
    parse_all = λ src. map ok (no_section ∷ payloads_at reference 8 module_sections);
    subsections = λ data_ offset. ok subsections;
  };
  sort_relocs = insertion_sort;
  sort_ranges = λ ranges. ranges;
}

call-IsPlace : IsPlace call
call-IsPlace = record { holds = five-Holds; addend_fits = unfold has_addend in tt }

func-IsFunc : IsFunc reference func
func-IsFunc = record {
  places = (call-IsPlace, tt);
  room = omega arith;
  body = 0 ∷ 0x10 ∷ (five ++ (0x0b ∷ []));
  sized = unfold source zero_extended encode_groups in refl;
  width = unfold zero_extended encode_groups in refl;
}

sections-AllSections : AllSections reference module_sections
sections-AllSections = unfold AllSections in ((omega arith, (func-IsFunc, tt)), tt)

sections-Notes : Notes crates module_sections ((1, func_entries) ∷ [])
unfolding starts_with has_addend
sections-Notes = plain_section _ _ _ _ _ (
    code_section _ _ _ _ _ (
      linking _ _ _ _ subsections _ _ refl (omega arith, tt)
        (relocs _ _ _ _ 1 func_entries _ _ refl (omega arith) (omega arith)
          (record { offset_fits = omega arith; index_fits = omega arith; addend_fits = tt }, tt)
          (other _ _ _ _ _ _ _ refl refl done))))

sections-HasNotes : HasNotes reference ((1, func_entries) ∷ []) 0 module_sections
sections-HasNotes =
    unfold HasNotes noted func_relocs entries over_sites zero_extended encode_groups in (refl, tt)

sections_small : length (magic ++ render reference module_sections) < 2 ^ 31
sections_small =
    unfold render code_content funcs_bytes source zero_extended encode_groups in omega arith

stripped_small : length (magic ++ stripped reference module_sections) < 2 ^ 32
stripped_small =
    unfold stripped code_content section_header funcs_bytes source zero_extended encode_groups in
    omega arith

sections-NoCollision : NoCollision digest (
    blobs
      (map (chunk_of reference) (parts [] (verbatim magic ∷ pushes_of reference module_sections))))
unfolding blobs chunk_of parts add_part pushes_of func_push
sections-NoCollision = λ x y m n e. only_blob x y _ m n

local_symbol-Interned_example :
    (r : ℕ × (LocalMap × List ℕ)) × (local_symbol 7 6 ((7, 0) ∷ []) (5 ∷ []) ≡ ok r)
    × Interned 6 (5 ∷ []) r
local_symbol-Interned_example = local_symbol-Interned 7 6 ((7, 0) ∷ []) (5 ∷ []) (omega arith, tt)

abbrev before_func : List ℕ
before_func = 10 ∷ 10 ∷ 1 ∷ []

func_small : length (before_func ++ (funcs_bytes (func ∷ []) ++ [])) < 2 ^ 31
func_small = unfold funcs_bytes source in omega arith

split_functions-push_all_example :
    split_functions reference
      (before_func ++ (funcs_bytes (func ∷ []) ++ []))
      2
      (ranges_of 3 (func ∷ []))
      (func_relocs 1 (func ∷ []))
      empty_writer
    ≡ push_all reference (func_push func ∷ []) empty_writer
split_functions-push_all_example =
    split_functions-push_all reference reference-IsLeb128 2 before_func (func ∷ []) [] empty_writer
      (func-IsFunc, tt) (omega arith) func_small

abbrev relocs_by_section : List (List RelocEntry)
relocs_by_section = [] ∷ func_entries ∷ []

sections-HasRelocs : HasRelocs reference relocs_by_section 0 module_sections
sections-HasRelocs =
    unfold HasRelocs func_relocs entries over_sites zero_extended encode_groups in (refl, tt)

second_pass-push_all_example :
    second_pass crates
      (magic ++ render reference module_sections)
      relocs_by_section
      (payloads_at reference 8 module_sections)
      0
      empty_writer
      0
    ≡ (push_all reference (pushes_of reference module_sections) empty_writer >>= λ w'.
        ok (w', 0 + custom_bytes module_sections))
second_pass-push_all_example =
    second_pass-push_all crates reference-IsLeb128 relocs_by_section magic module_sections 8 0
      empty_writer 0 sections-AllSections sections-HasRelocs refl sections_small

-- The same code with no relocation section.
abbrev bare_sections : List Section
bare_sections = code (10 ∷ 2 ∷ []) 1 [] ∷ []

abbrev bare_crates : Crates
bare_crates = record {
  codec = reference;
  hash = digest;
  parser = record {
    parse_all = λ src. map ok (no_section ∷ payloads_at reference 8 bare_sections);
    subsections = λ data_ offset. ok subsections;
  };
  sort_relocs = insertion_sort;
  sort_ranges = λ ranges. ranges;
}

bare_small : length (magic ++ render reference bare_sections) < 2 ^ 31
bare_small = unfold render code_content funcs_bytes zero_extended encode_groups in omega arith

split_module-panic_example :
    split_module bare_crates (magic ++ render reference bare_sections) ≡ panic
split_module-panic_example =
    split_module-panic bare_crates reference-IsLeb128 0 bare_sections [] refl
      (code_section _ _ _ _ _ done) tt (unfold CodeFrom in (omega arith, omega arith)) bare_small

abbrev whole_module : List ℕ
whole_module = magic ++ render reference module_sections

module_split :
    (r : SplitModuleResult) × (split_module crates whole_module ≡ ok r)
    × (decode reference r.archive ≡ ok (magic ++ stripped reference module_sections))
    × (r.bytes_truncated ≡ custom_bytes module_sections)
module_split =
    decode-split_module crates reference-IsLeb128 insertion_sort-IsSort (λ bytes. refl)
      module_sections ((1, func_entries) ∷ []) refl sections-AllSections sections-Notes
      sections-HasNotes sections_small stripped_small sections-NoCollision

truncated_fits :
    (r : SplitModuleResult)
    → r.bytes_truncated ≡ custom_bytes module_sections
    → r.bytes_truncated ≤ length whole_module
truncated_fits r e = omega (
  arith,
  custom_bytes-render reference module_sections,
  length-append magic (render reference module_sections),
)

compare_sets-difference_example :
    compare_sets crates whole_module whole_module
    ≡ ok (record {
      lines =
          map minus (difference (hash_set module_split.0) (hash_set module_split.0))
          ++ map plus (difference (hash_set module_split.0) (hash_set module_split.0));
      left = (
        length module_split.0.archive.out_buf,
        length whole_module - module_split.0.bytes_truncated,
      );
      right = (
        length module_split.0.archive.out_buf,
        length whole_module - module_split.0.bytes_truncated,
      );
    })
compare_sets-difference_example =
    compare_sets-difference crates whole_module whole_module module_split.0 module_split.0
      module_split.1 module_split.1 (truncated_fits module_split.0 module_split.3)
      (truncated_fits module_split.0 module_split.3)
