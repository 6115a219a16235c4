-- ===== src/Splitter/Functions.antt =====
-- The functions of a code section in src/wasmall/src/splitter.rs: each is pushed as one blob, with its
-- relocations moved to blob-local indices.
use crucible_rt.Prelude.{
  ℕ, ◌%◌, ◌^◌, List, [], ◌∷◌, ◌++◌, length, none, some, ltb, leb, ◌==◌, if◌then◌else◌, get_elem?,
}
use mathlib.Core.Option
use crucible_rt.Leb.{Leb128}
use crucible_rt.Result.{Result, ok, panic, ◌>>=◌}
use crucible_rt.Reader.{result}
use crucible_rt.Writer.{write_var_u32, len_of, len_counter}
use crucible_rt.Reloc.{RelocEntry}
use crucible_rt.Scalar.{rewrite_kind, read, as_u32_neg_offset}
use crucible_rt.Rewrite.{slice}
use crucible_rt.Coder.{WasmallWriter, Range, push_blob}
use crucible_rt.Wasm.{range_len}
use crucible_rt.Splitter.{checked_sub, find, put}

-- `global_to_local_sym_map`.
abbrev pub LocalMap : Type 0
LocalMap = List (ℕ × ℕ)

-- A new local symbol at the end of `local_relocation_values`.
abbrev pub fresh_symbol : ℕ → ℕ → LocalMap → List ℕ → ℕ × (LocalMap × List ℕ)
fresh_symbol index value m values =
    (length values, (put index (length values) m, values ++ (value ∷ [])))

-- The local symbol of a global one, by the value that it takes here.
unfoldable pub local_symbol : ℕ → ℕ → LocalMap → List ℕ → Result (ℕ × (LocalMap × List ℕ))
local_symbol index value m values = elim (find index m) [
  | none ↦ ok (fresh_symbol index value m values)
  | some entry ↦ elim (get_elem? values entry) [
    | none ↦ panic
    | some entry_value ↦
        ok
          (if value == entry_value then (entry, (m, values)) else fresh_symbol index value m values)
  ]
]

pub record Locals : Type 0 where
  pub local_relocations : List RelocEntry
  pub sym_map : LocalMap
  pub local_relocation_values : List ℕ

module _ (codec : Leb128) (entry_data : List ℕ) (entry_start : ℕ) where
  -- One relocation, from the section's offsets to the blob's.
  unfoldable pub localise_one : RelocEntry → Locals → Result Locals
  localise_one reloc st = do
    offset ← checked_sub reloc.offset entry_start
    here ← slice entry_data offset (length entry_data)
    scalar ← result (read codec (rewrite_kind reloc.ty) here)
    let reloc_value = as_u32_neg_offset scalar (Option.get_or reloc.addend 0)
    sym ← local_symbol reloc.index reloc_value st.sym_map st.local_relocation_values
    let local : RelocEntry = record reloc { offset = offset; index = sym.0 }
    let st' : Locals = record {
      local_relocations = st.local_relocations ++ (local ∷ []);
      sym_map = sym.1.0;
      local_relocation_values = sym.1.1;
    }
    if ltb sym.0 (2 ^ 32) then ok st' else panic

  unfoldable pub localise : List RelocEntry → Locals → Result Locals
  localise [] st = ok st
  localise (reloc ∷ relocs) st = do st' ← localise_one reloc st; localise relocs st'

abbrev pub no_locals : Locals
no_locals = record { local_relocations = []; sym_map = []; local_relocation_values = [] }

-- The two loops over `relocations_idx`, which is the relocations from it on.
unfoldable pub skip_before : ℕ → List RelocEntry → List RelocEntry
skip_before entry_start [] = []
skip_before entry_start (r ∷ rs) =
    let rest = skip_before entry_start rs in if ltb r.offset entry_start then rest else r ∷ rs

unfoldable pub take_through : ℕ → List RelocEntry → List RelocEntry
take_through entry_end [] = []
take_through entry_end (r ∷ rs) =
    let rest = take_through entry_end rs in if leb r.offset entry_end then r ∷ rest else []

unfoldable pub drop_through : ℕ → List RelocEntry → List RelocEntry
drop_through entry_end [] = []
drop_through entry_end (r ∷ rs) =
    let rest = drop_through entry_end rs in if leb r.offset entry_end then rest else r ∷ rs

module _ (codec : Leb128) (src : List ℕ) (section_start : ℕ) where
  -- One function: the writer with its blob, and the relocations that are left.
  unfoldable pub split_function :
      Range → List RelocEntry → WasmallWriter → Result (WasmallWriter × List RelocEntry)
  split_function func_range relocations writer = do
    size_field_byte_count ← len_of (λ w. write_var_u32 codec w (range_len func_range % 2 ^ 32))
    start ← checked_sub func_range.start size_field_byte_count
    start_in_section ← checked_sub start section_start
    end_in_section ← checked_sub func_range.end section_start
    entry_data ← slice src start func_range.end
    let entry_start = start_in_section % 2 ^ 32
    let left = skip_before entry_start relocations
    let entry_end = end_in_section % 2 ^ 32
    st ← localise codec entry_data entry_start (take_through entry_end left) no_locals
    writer' ← push_blob codec writer st.local_relocations st.local_relocation_values entry_data
    ok (writer', drop_through entry_end left)

  unfoldable pub split_functions :
      List Range → List RelocEntry → WasmallWriter → Result WasmallWriter
  split_functions [] relocations writer = ok writer
  split_functions (range ∷ ranges) relocations writer = do
    done ← split_function range relocations writer
    split_functions ranges done.1 done.0
