-- ===== src/Coder/Entry.antt =====
-- Relocation entries that src/wasmall/src/coder.rs writes and src/wasmall/src/reloc.rs parses.
use crucible_rt.Prelude.{
  ℕ, ◌%◌, ◌^◌, ◌<◌, ◌≡◌, refl, ap, sym, ◌∙◌, arith, List, [], ◌∷◌, ◌++◌, append_assoc, append-nil,
  Option, none, some, Bool, true, false, if◌then◌else◌,
}
use crucible_rt.Leb.{Leb128, IsLeb128}
use crucible_rt.Result
use crucible_rt.Result.{Result}
use crucible_rt.Reader.{Read, bind, pure}
use crucible_rt.Cursor.{lookahead, read_u8, read_var_i32, from_le_bytes}
use crucible_rt.Cursor.Bytes.{read_le-append}
use crucible_rt.Cursor.Lookahead.{lookahead_ok}
use crucible_rt.Writer.{vec_writer, write_var_u32, write_var_i32}
use crucible_rt.Writer.Padding.{vec_writer-IsBufWriter}
use crucible_rt.Writer.Var.{u32_bytes, i32_bytes, write_u32-extends, write_i32-extends}
use crucible_rt.Writer.RoundTrip.{read_u32_bytes, read_i32_plain}
use crucible_rt.Reloc.{
  RelocEntry, RelocEntryType, type_byte, parse_type, has_addend, read_addend, parse_entry_naked,
  function_index_leb,
}
use crucible_rt.Coder.{write_entry}

-- The addend of an entry is there just if its type has one, and is an `i32`.
abbrev pub FitsAddend : Bool → Option ℕ → Type 0
FitsAddend true (some addend) = addend < 2 ^ 32
FitsAddend true none = ⊥
FitsAddend false (some addend) = ⊥
FitsAddend false none = Unit {0}

pub record IsEntry (e : RelocEntry) : Type 0 where
  pub offset_fits : e.offset < 2 ^ 32
  pub index_fits : e.index < 2 ^ 32
  pub addend_fits : FitsAddend (has_addend e.ty) e.addend

unfoldable pub addend_bytes : Leb128 → Option ℕ → List ℕ
addend_bytes codec none = []
addend_bytes codec (some addend) = i32_bytes codec addend none

-- The bytes of one entry.
unfoldable pub entry_bytes : Leb128 → RelocEntry → List ℕ
entry_bytes codec e =
    type_byte e.ty
    ∷ (u32_bytes codec e.offset none
        ++ (u32_bytes codec e.index none ++ addend_bytes codec e.addend))

-- The byte of each type is parsed as that type.
pub parse_type-type_byte :
    (ty : RelocEntryType) (c : List ℕ) → parse_type (type_byte ty) c ≡ Read.ok ty c
unfolding parse_type type_byte
parse_type-type_byte function_index_leb c = refl
parse_type-type_byte _ c = refl

module _ (codec : Leb128) (laws : IsLeb128 codec) where
  read_addend_if :
      (b : Bool) (addend : Option ℕ) (rest : List ℕ)
      → FitsAddend b addend
      → (if b
          then bind (read_var_i32 codec (addend_bytes codec addend ++ rest)) (λ a. pure (some a))
          else Read.ok none (addend_bytes codec addend ++ rest))
        ≡ Read.ok addend rest
  unfolding addend_bytes
  read_addend_if true (some a) rest h = rw (read_i32_plain codec laws a rest h)
  read_addend_if true none rest h = absurd h
  read_addend_if false (some a) rest h = absurd h
  read_addend_if false none rest h = refl

  read_addend_lem :
      (ty : RelocEntryType) (addend : Option ℕ) (rest : List ℕ)
      → FitsAddend (has_addend ty) addend
      → read_addend codec ty (addend_bytes codec addend ++ rest) ≡ Read.ok addend rest
  read_addend_lem ty addend rest h =
      unfold read_addend in read_addend_if (has_addend ty) addend rest h

  read_type_lem :
      (ty : RelocEntryType) (rest : List ℕ)
      → lookahead (λ c. bind (read_u8 c) parse_type) (type_byte ty ∷ rest) ≡ Read.ok ty rest
  read_type_lem ty rest =
      lookahead_ok (λ c. bind (read_u8 c) parse_type) (type_byte ty ∷ rest) rest ty
        (unfold read_u8 in
          rw (read_le-append 1 (type_byte ty ∷ []) rest refl, one_byte)
            (parse_type-type_byte ty rest))
    where
      one_byte : from_le_bytes (type_byte ty ∷ []) ≡ type_byte ty
      one_byte = unfold from_le_bytes in omega arith

  -- With a LEB128 codec as documented, a relocation entry whose numbers fit and which has an
  -- addend just if its type has one is read off the front of its bytes, for every type.
  pub parse_entry_naked-entry_bytes :
      (e : RelocEntry) (rest : List ℕ)
      → IsEntry e
      → parse_entry_naked codec (entry_bytes codec e ++ rest) ≡ Read.ok e rest
  parse_entry_naked-entry_bytes e rest h =
      let offset = u32_bytes codec e.offset none in
      let index = u32_bytes codec e.index none in
      let addend = addend_bytes codec e.addend in
      unfold parse_entry_naked entry_bytes in
      rw (
        append_assoc offset (index ++ addend) rest,
        append_assoc index addend rest,
        read_type_lem e.ty (offset ++ (index ++ (addend ++ rest))),
        read_u32_bytes codec laws e.offset none (index ++ (addend ++ rest)) h.offset_fits
            (omega arith),
        read_u32_bytes codec laws e.index none (addend ++ rest) h.index_fits (omega arith),
        read_addend_lem e.ty e.addend rest h.addend_fits,
      )

  write_addend_lem :
      (b : Bool) (addend : Option ℕ) (buf : List ℕ)
      → FitsAddend b addend
      → Result.◌>>=◌
          (Result.ok buf)
          (λ out. elim addend [ none ↦ Result.ok out | some a ↦ write_var_i32 codec out a ])
        ≡ Result.ok (buf ++ addend_bytes codec addend)
  unfolding addend_bytes
  write_addend_lem true (some a) buf h =
      unfold write_var_i32 in write_i32-extends codec laws vec_writer-IsBufWriter buf a none h
  write_addend_lem true none buf h = absurd h
  write_addend_lem false (some a) buf h = absurd h
  write_addend_lem false none buf h = ap Result.ok (sym (append-nil buf))

  -- Writing an entry with an index below 2^32 and an addend just if its type has one appends its
  -- bytes, with the offset taken modulo 2^32.
  pub write_entry_lem :
      (e : RelocEntry) (buf : List ℕ) (offset : ℕ)
      → e.index < 2 ^ 32
      → FitsAddend (has_addend e.ty) e.addend
      → write_entry codec e offset buf
        ≡ Result.ok (buf ++ entry_bytes codec (record e { offset = offset % 2 ^ 32 }))
  write_entry_lem e buf offset hi ha =
      let start = buf ++ (type_byte e.ty ∷ []) in
      let place = u32_bytes codec (offset % 2 ^ 32) none in
      let index = u32_bytes codec e.index none in
      unfold write_entry write_var_u32 in
      rw
        (
          write_u32-extends codec laws vec_writer-IsBufWriter start (offset % 2 ^ 32) none
              (omega arith),
          write_u32-extends codec laws vec_writer-IsBufWriter (start ++ place) e.index none hi,
        )
        (write_addend_lem (has_addend e.ty) e.addend ((start ++ place) ++ index) ha
          ∙ ap Result.ok (unfold entry_bytes in simp append_assoc))
