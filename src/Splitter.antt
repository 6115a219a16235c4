-- ===== src/Splitter.antt =====
-- src/wasmall/src/splitter.rs: `split_module`, which walks over the payloads of a module twice, first for
-- its relocations and then to push its sections and functions on a `WasmallWriter`. The crates'
-- functions are parameters: the parser, the two sorts, the LEB128 codec and the hash.
-- `section_index` of the first pass is never read and is left out, and so is the offset tracker.
pub mod Functions
pub mod Module
pub mod Symbols
pub mod Places
pub mod Localise
pub mod Blobs
pub mod Pushes
pub mod Sections
pub mod Passes
pub mod Relocs
pub mod Notes
pub mod Order
pub mod Collected
pub mod Stripped
pub mod RoundTrip
pub mod Missing
use crucible_rt.Prelude.{
  ℕ, zero, suc, ◌+◌, ◌-◌, ◌%◌, ◌^◌, List, [], ◌∷◌, ◌++◌, length, map, Option, none, some, Bool,
  true, false, ltb, leb, ◌==◌, ◌&&◌, not, if◌then◌else◌, get_elem?,
}
use mathlib.Core.Option
use crucible_rt.Leb.{Leb128}
use crucible_rt.Result.{Result, ok, err, panic, stuck, too_big, ◌>>=◌, ◌>>◌}
use crucible_rt.Reader.{result, unwrap}
use crucible_rt.Cursor.{read_var_u32}
use crucible_rt.Parse.{parse}
use crucible_rt.Writer.{write_var_u32, len_of, vec_writer, len_counter}
use crucible_rt.Reloc.{RelocEntry, parse_section_naked}
use crucible_rt.Reloc.Section.{take_entries}
use crucible_rt.Scalar.{rewrite_kind, read, as_u32_neg_offset}
use crucible_rt.Rewrite.{slice}
use crucible_rt.Coder.{
  WasmallWriter, WasmallArchive, Range, empty_writer, push_verbatim, push_blob, finish,
}
use crucible_rt.Wasm.{
  Payload, custom_section, code_section_start, code_section_entry, other_section, no_section,
  Linking, symbol_table, other_subsection, SymbolInfo, data_symbol, other_symbol, WasmParser,
  range_len,
}

-- Subtraction on `usize` or `u32`, which panics below zero.
unfoldable pub checked_sub : ℕ → ℕ → Result ℕ
checked_sub a b = if ltb a b then panic else ok (a - b)

-- `VecExt::ensure_index` for a vector of vectors, with a change of the element there.
unfoldable pub update_at {ℓ} : {A : Type ℓ} → ℕ → (List A → List A) → List (List A) → List (List A)
update_at zero f [] = f [] ∷ []
update_at zero f (x ∷ xs) = f x ∷ xs
update_at (suc i) f [] = [] ∷ update_at i f []
update_at (suc i) f (x ∷ xs) = x ∷ update_at i f xs

-- A `FxHashMap` from numbers, as the list of its entries.
unfoldable pub find {ℓ} : {A : Type ℓ} → ℕ → List (ℕ × A) → Option A
find k [] = none
find k ((j, v) ∷ m) = if j == k then some v else find k m

unfoldable pub put {ℓ} : {A : Type ℓ} → ℕ → A → List (ℕ × A) → List (ℕ × A)
put k v [] = (k, v) ∷ []
put k v ((j, w) ∷ m) = if j == k then (k, v) ∷ m else (j, w) ∷ put k v m

-- `for x in xs { body(x?) }`, with the state handed through.
unfoldable pub try_each {ℓ κ} :
    {A : Type ℓ} {S : Type κ} → (A → S → Result S) → List (Result A) → S → Result S
try_each body [] s = ok s
try_each body (x ∷ xs) s = do a ← x; s' ← body a s; try_each body xs s'

abbrev DataMap : Type 0
DataMap = List (ℕ × List (ℕ × Range))

-- What the first pass collects.
pub record Maps : Type 0 where
  pub orig_reloc_map : List (List RelocEntry)
  pub data_seg_map : DataMap

-- A defined data symbol's range; `offset + size` is a sum of `u32`, which panics beyond them.
unfoldable pub add_symbol : SymbolInfo → ℕ × DataMap → Result (ℕ × DataMap)
unfolding find put
add_symbol (data_symbol (some d)) (sym_idx, m) =
    let range : Range = record { start = d.offset; end = d.offset + d.size } in
    if ltb (d.offset + d.size) (2 ^ 32)
    then ok
        (sym_idx + 1, put d.index (Option.get_or (find d.index m) [] ++ ((sym_idx, range) ∷ [])) m)
    else panic
add_symbol (data_symbol none) (sym_idx, m) = ok (sym_idx + 1, m)
add_symbol other_symbol (sym_idx, m) = ok (sym_idx + 1, m)

unfoldable pub add_subsection : Linking → DataMap → Result DataMap
unfolding try_each add_symbol
add_subsection (symbol_table stab) m = do s ← try_each add_symbol stab (0, m); ok s.1
add_subsection other_subsection m = ok m

-- `name == "linking"` and `name.starts_with("reloc.")`.
unfoldable pub starts_with : List ℕ → List ℕ → Bool
starts_with name [] = true
starts_with [] (p ∷ prefix) = false
starts_with (c ∷ name) (p ∷ prefix) = c == p && starts_with name prefix

abbrev pub linking_name : List ℕ
linking_name = b'l' ∷ b'i' ∷ b'n' ∷ b'k' ∷ b'i' ∷ b'n' ∷ b'g' ∷ []

abbrev pub reloc_prefix : List ℕ
reloc_prefix = b'r' ∷ b'e' ∷ b'l' ∷ b'o' ∷ b'c' ∷ b'.' ∷ []

-- What the functions of the crates are.
pub record Crates : Type 0 where
  pub codec : Leb128
  pub hash : List ℕ → List ℕ
  pub parser : WasmParser
  pub sort_relocs : List RelocEntry → List RelocEntry
  pub sort_ranges : List (ℕ × Range) → List (ℕ × Range)

module _ (crates : Crates) where
  -- The arm of a `reloc.` section.
  unfoldable pub add_relocs : List ℕ → Maps → Result Maps
  unfolding update_at
  add_relocs body maps = do
    relocs ← result (parse (parse_section_naked crates.codec) body)
    entries ← take_entries crates.codec relocs.entry_count relocs.entries
    ok (record maps {
      orig_reloc_map =
          update_at relocs.target_section (λ out_vec. out_vec ++ entries) maps.orig_reloc_map;
    })

  -- The arm of the linking section.
  unfoldable pub add_linking : List ℕ → ℕ → Maps → Result Maps
  unfolding try_each add_subsection
  add_linking body offset maps = do
    subsections ← crates.parser.subsections body offset
    m ← try_each add_subsection subsections maps.data_seg_map
    ok (record maps { data_seg_map = m })

  unfoldable pub first_pass_payload : Payload → Maps → Result Maps
  unfolding starts_with
  first_pass_payload (custom_section name body offset range) maps =
      if starts_with name linking_name && leb (length name) (length linking_name)
      then add_linking body offset maps
      else if starts_with name reloc_prefix
      then add_relocs body maps
      else ok maps
  first_pass_payload (code_section_start range count) maps = ok maps
  first_pass_payload (code_section_entry range) maps = ok maps
  first_pass_payload (other_section id range) maps = ok maps
  first_pass_payload no_section maps = ok maps

  unfoldable pub first_pass_loop : List Payload → Maps → Result Maps
  first_pass_loop [] maps = ok maps
  first_pass_loop (p ∷ ps) maps = do maps' ← first_pass_payload p maps; first_pass_loop ps maps'

  abbrev sort_maps : Maps → Maps
  sort_maps maps = record {
    orig_reloc_map = map crates.sort_relocs maps.orig_reloc_map;
    data_seg_map = map (λ (k, ranges). (k, crates.sort_ranges ranges)) maps.data_seg_map;
  }

  unfoldable pub first_pass : List Payload → Result Maps
  unfolding first_pass_loop
  first_pass payloads = do
    maps ← first_pass_loop payloads (record { orig_reloc_map = []; data_seg_map = [] })
    ok (sort_maps maps)
