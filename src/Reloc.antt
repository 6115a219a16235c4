-- ===== src/Reloc.antt =====
-- src/wasmall/src/reloc.rs: relocation entries, their parser, and the scalars that relocations rewrite.
-- An `i32` is its 32-bit pattern.
pub mod Section
use crucible_rt.Prelude.{ℕ, List, Option, none, some, Bool, true, false, ◌==◌, if◌then◌else◌}
use crucible_rt.Leb.{Leb128}
use crucible_rt.Result.{unknown_reloc}
use crucible_rt.Reader.{Read, Reader, bind, pure, ◌>>=◌}
use crucible_rt.Cursor.{lookahead, read_u8, read_var_u32, read_var_i32}
use crucible_rt.Parse.{parse}

pub data RelocEntryType : Type 0 where
  function_index_leb table_index_sleb table_index_i32 memory_addr_leb : RelocEntryType
  memory_addr_sleb memory_addr_i32 type_index_leb global_index_leb : RelocEntryType
  function_offset_i32 section_offset_i32 event_index_leb global_index_i32 : RelocEntryType

-- `ty as u8`.
unfoldable pub type_byte : RelocEntryType → ℕ
type_byte function_index_leb = 0
type_byte table_index_sleb = 1
type_byte table_index_i32 = 2
type_byte memory_addr_leb = 3
type_byte memory_addr_sleb = 4
type_byte memory_addr_i32 = 5
type_byte type_index_leb = 6
type_byte global_index_leb = 7
type_byte function_offset_i32 = 8
type_byte section_offset_i32 = 9
type_byte event_index_leb = 10
type_byte global_index_i32 = 13

-- `RelocEntryType::parse`.
unfoldable pub parse_type : ℕ → Reader RelocEntryType
parse_type v c =
    if v == 0
    then Read.ok function_index_leb c
    else if v == 1
    then Read.ok table_index_sleb c
    else if v == 2
    then Read.ok table_index_i32 c
    else if v == 3
    then Read.ok memory_addr_leb c
    else if v == 4
    then Read.ok memory_addr_sleb c
    else if v == 5
    then Read.ok memory_addr_i32 c
    else if v == 6
    then Read.ok type_index_leb c
    else if v == 7
    then Read.ok global_index_leb c
    else if v == 8
    then Read.ok function_offset_i32 c
    else if v == 9
    then Read.ok section_offset_i32 c
    else if v == 10
    then Read.ok event_index_leb c
    else if v == 13
    then Read.ok global_index_i32 c
    else Read.err (unknown_reloc v) c

unfoldable pub has_addend : RelocEntryType → Bool
has_addend memory_addr_leb = true
has_addend memory_addr_sleb = true
has_addend memory_addr_i32 = true
has_addend function_offset_i32 = true
has_addend section_offset_i32 = true
has_addend _ = false

pub record RelocEntry : Type 0 where
  pub ty : RelocEntryType
  pub offset : ℕ
  pub index : ℕ
  pub addend : Option ℕ

module _ (codec : Leb128) where
  unfoldable pub read_addend : RelocEntryType → Reader (Option ℕ)
  unfolding read_var_i32 has_addend
  read_addend ty c =
      if has_addend ty
      then bind (read_var_i32 codec c) (λ addend. pure (some addend))
      else Read.ok none c

  -- `RelocEntry::parse_naked` and `RelocEntry::parse`.
  unfoldable pub parse_entry_naked : Reader RelocEntry
  unfolding lookahead read_u8 parse_type read_var_u32 read_addend
  parse_entry_naked = do
    ty ← lookahead (read_u8 >>= parse_type)
    offset ← read_var_u32 codec
    index ← read_var_u32 codec
    addend ← read_addend ty
    pure (record { ty = ty; offset = offset; index = index; addend = addend })

  unfoldable pub parse_entry : Reader RelocEntry
  unfolding parse parse_entry_naked
  parse_entry = parse parse_entry_naked

pub record RelocSection : Type 0 where
  pub target_section : ℕ
  pub entry_count : ℕ
  pub entries : List ℕ

-- `RelocSection::parse_naked`: the entries are the rest of the buffer, which is not consumed.
unfoldable pub parse_section_naked : Leb128 → Reader RelocSection
unfolding read_var_u32
parse_section_naked codec = do
  target_section ← read_var_u32 codec
  entry_count ← read_var_u32 codec
  λ c.
      Read.ok (record { target_section = target_section; entry_count = entry_count; entries = c }) c
