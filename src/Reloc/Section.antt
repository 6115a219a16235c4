-- ===== src/Reloc/Section.antt =====
-- The entries of a relocation section of src/wasmall/src/reloc.rs.
use crucible_rt.Prelude.{ℕ, zero, suc, List, [], ◌∷◌, none, some}
use crucible_rt.Leb.{Leb128}
use crucible_rt.Result.{Result, ok, err, panic, stuck, ◌>>=◌}
use crucible_rt.Reader.{Read}
use crucible_rt.Parse.{next}
use crucible_rt.Reloc.{RelocEntry, parse_entry_naked}

-- `RelocSection::entries`, collected: the list of items up to the count, or its first error.
unfoldable pub take_entries : Leb128 → ℕ → List ℕ → Result (List RelocEntry)
take_entries codec zero cursor = ok []
take_entries codec (suc count) cursor = elim (next (parse_entry_naked codec) cursor) [
  | none ↦ ok []
  | some item ↦ elim item [
    | Read.ok entry rest ↦ take_entries codec count rest >>= λ entries. ok (entry ∷ entries)
    | Read.err e rest ↦ err e
    | Read.panic ↦ panic
    | Read.stuck ↦ stuck
  ]
]
