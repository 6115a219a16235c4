-- ===== src/Wasm.antt =====
-- What src/wasmall/src/splitter.rs reads of the `wasmparser` crate, which is not in the repository: its
-- payloads, the symbols of a linking section, and the functions that give them, as a parameter.
use crucible_rt.Prelude.{ℕ, ◌-◌, List, Option}
use crucible_rt.Result.{Result}
use crucible_rt.Coder.{Range}

pub record DefinedDataSymbol : Type 0 where
  pub index : ℕ
  pub offset : ℕ
  pub size : ℕ

pub data SymbolInfo : Type 0 where
  data_symbol : Option DefinedDataSymbol → SymbolInfo
  other_symbol : SymbolInfo

pub data Linking : Type 0 where
  symbol_table : List (Result SymbolInfo) → Linking
  other_subsection : Linking

-- A custom section is given by its name, its data with their offset, and its range; the range of a
-- section begins behind its header. Payloads that the splitter tells apart by nothing are one.
pub data Payload : Type 0 where
  custom_section : List ℕ → List ℕ → ℕ → Range → Payload
  code_section_start : Range → ℕ → Payload
  code_section_entry : Range → Payload
  other_section : ℕ → Range → Payload
  no_section : Payload

-- `Parser::parse_all`, and `LinkingSectionReader::new` with its subsections.
pub record WasmParser : Type 0 where
  pub parse_all : List ℕ → List (Result Payload)
  pub subsections : List ℕ → ℕ → Result (List (Result Linking))

-- `Range::len`.
abbrev pub range_len : Range → ℕ
range_len range = range.end - range.start
