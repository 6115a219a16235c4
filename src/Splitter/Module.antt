-- ===== src/Splitter/Module.antt =====
-- The second pass of src/wasmall/src/splitter.rs, and `split_module`.
use crucible_rt.Prelude.{
  ℕ, ◌+◌, ◌^◌, List, [], ◌∷◌, ◌++◌, length, none, some, ltb, ◌==◌, if◌then◌else◌, get_elem?,
}
use crucible_rt.Leb.{Leb128}
use crucible_rt.Result.{Result, ok, err, panic, too_big, ◌>>=◌}
use crucible_rt.Reader.{result, unwrap}
use crucible_rt.Cursor.{read_var_u32}
use crucible_rt.Writer.{write_var_u32, vec_writer}
use crucible_rt.Reloc.{RelocEntry}
use crucible_rt.Rewrite.{slice}
use crucible_rt.Coder.{WasmallWriter, WasmallArchive, Range, empty_writer, push_verbatim, finish}
use crucible_rt.Wasm.{
  Payload, custom_section, code_section_start, code_section_entry, other_section, no_section,
  range_len,
}
use crucible_rt.Splitter.{Crates, first_pass}
use crucible_rt.Splitter.Functions.{split_functions}

pub record SplitModuleResult : Type 0 where
  pub archive : WasmallArchive
  pub bytes_truncated : ℕ

-- The loop that collects the payloads, to its first error.
unfoldable pub collect_payloads : List (Result Payload) → Result (List Payload)
collect_payloads [] = ok []
collect_payloads (p ∷ ps) = do payload ← p; payloads ← collect_payloads ps; ok (payload ∷ payloads)

-- The functions that follow, by `peek`.
unfoldable pub func_ranges : List Payload → List Range
func_ranges [] = []
func_ranges (code_section_entry range ∷ ps) = range ∷ func_ranges ps
func_ranges (custom_section name body offset range ∷ ps) = []
func_ranges (code_section_start range count ∷ ps) = []
func_ranges (other_section id range ∷ ps) = []
func_ranges (no_section ∷ ps) = []

abbrev pub magic : List ℕ
magic = 0 ∷ 0x61 ∷ 0x73 ∷ 0x6D ∷ 1 ∷ 0 ∷ 0 ∷ 0 ∷ []

-- `u32::try_from(…).context(…)`.
unfoldable pub try_u32 : ℕ → Result ℕ
try_u32 n = if ltb n (2 ^ 32) then ok n else err too_big

module _ (codec : Leb128) where
  -- The bytes that the two closures append.
  unfoldable pub code_header : Range → ℕ → Result (List ℕ)
  code_header range count = do
    len ← try_u32 (range_len range)
    sink ← write_var_u32 codec (10 ∷ []) len
    write_var_u32 codec sink count

  unfoldable pub section_bytes : List ℕ → ℕ → Range → Result (List ℕ)
  section_bytes src id range = do
    len ← try_u32 (range_len range)
    sink ← write_var_u32 codec (id ∷ []) len
    body ← slice src range.start range.end
    ok (sink ++ body)

module _ (crates : Crates) (src : List ℕ) (orig_reloc_map : List (List RelocEntry)) where
  -- The code section with the functions that follow it.
  unfoldable pub split_code : Range → ℕ → List Payload → ℕ → WasmallWriter → Result WasmallWriter
  split_code range count parser section_idx writer = do
    here ← slice src range.start (length src)
    read_count ← result (unwrap (read_var_u32 crates.codec here))
    header ← if read_count == count then code_header crates.codec range count else panic
    elim (get_elem? orig_reloc_map section_idx) [
      | none ↦ panic
      | some relocations ↦
          split_functions crates.codec src range.start (func_ranges parser) relocations
            (push_verbatim writer header)
    ]

  -- The loop over the payloads. It goes on behind a code section with that section's functions still
  -- in the list: the code's iterator has passed them, and here they change nothing.
  unfoldable pub second_pass : List Payload → ℕ → WasmallWriter → ℕ → Result (WasmallWriter × ℕ)
  second_pass [] section_idx writer bytes_truncated = ok (writer, bytes_truncated)
  second_pass (code_section_start range count ∷ ps) section_idx writer bytes_truncated = do
    writer' ← split_code range count ps section_idx writer
    second_pass ps (section_idx + 1) writer' bytes_truncated
  second_pass (custom_section name body offset range ∷ ps) section_idx writer bytes_truncated =
      second_pass ps (section_idx + 1) writer (bytes_truncated + range_len range)
  second_pass (other_section id range ∷ ps) section_idx writer bytes_truncated = do
    bytes ← section_bytes crates.codec src id range
    second_pass ps (section_idx + 1) (push_verbatim writer bytes) bytes_truncated
  second_pass (code_section_entry range ∷ ps) section_idx writer bytes_truncated =
      second_pass ps section_idx writer bytes_truncated
  second_pass (no_section ∷ ps) section_idx writer bytes_truncated =
      second_pass ps section_idx writer bytes_truncated

unfoldable pub split_module : Crates → List ℕ → Result SplitModuleResult
split_module crates src = do
  payloads ← collect_payloads (crates.parser.parse_all src)
  maps ← first_pass crates payloads
  done ← second_pass crates src maps.orig_reloc_map payloads 0 (push_verbatim empty_writer magic) 0
  archive ← finish crates.codec crates.hash done.0
  ok (record { archive = archive; bytes_truncated = done.1 })
