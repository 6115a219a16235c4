-- ===== src/Splitter/Relocs.antt =====
-- The relocation sections that the first pass of src/wasmall/src/splitter.rs reads, and the vector that
-- it keeps for each section.
use crucible_rt.Prelude.{
  ℕ, zero, suc, ◌^◌, ◌<◌, ◌≡◌, ◌≢◌, refl, ap, ◌∙◌, arith, List, [], ◌∷◌, ◌++◌, length, Option, none,
  some, get_elem?, false,
}
use mathlib.Core.Option
use crucible_rt.Leb.{Leb128, IsLeb128}
use crucible_rt.Result.{ok, ◌>>=◌}
use crucible_rt.Reader.{Read, result}
use crucible_rt.Cursor.{at_eof}
use crucible_rt.Cursor.Lookahead.{lookahead_ok}
use crucible_rt.Parse.{parse, next}
use crucible_rt.Writer.Var.{u32_bytes}
use crucible_rt.Writer.RoundTrip.{read_u32_bytes}
use crucible_rt.Reloc.{RelocEntry, parse_entry_naked, parse_section_naked}
use crucible_rt.Reloc.Section.{take_entries}
use crucible_rt.Coder.Entry.{IsEntry, entry_bytes, parse_entry_naked-entry_bytes}
use crucible_rt.Coder.Blob.{entries_bytes}
use crucible_rt.Archive.Lists.{AllEntries}
use crucible_rt.Splitter.{Crates, Maps, update_at, add_relocs}

-- The data of a relocation section: its target, the number of its entries, and them.
unfoldable pub reloc_section_bytes : Leb128 → ℕ → List RelocEntry → List ℕ
reloc_section_bytes codec target es =
    u32_bytes codec target none ++ (u32_bytes codec (length es) none ++ entries_bytes codec es)

module _ (codec : Leb128) (laws : IsLeb128 codec) where
  next_lem :
      (e : RelocEntry) (rest : List ℕ)
      → IsEntry e
      → next (parse_entry_naked codec) (entry_bytes codec e ++ rest) ≡ some (Read.ok e rest)
  next_lem e rest h =
      let more : at_eof (entry_bytes codec e ++ rest) ≡ false = unfold entry_bytes at_eof in refl in
      unfold next in
      rw more (
        ap some (
          lookahead_ok (parse_entry_naked codec) (entry_bytes codec e ++ rest) rest e
            (parse_entry_naked-entry_bytes codec laws e rest h)))

  take_entries-suc :
      (n : ℕ) (c : List ℕ) (e : RelocEntry) (rest : List ℕ)
      → next (parse_entry_naked codec) c ≡ some (Read.ok e rest)
      → take_entries codec (suc n) c ≡ (take_entries codec n rest >>= λ es. ok (e ∷ es))
  unfolding take_entries
  take_entries-suc n c e rest h = rw (take_entries, h)

  take_entries-entries_bytes :
      (es : List RelocEntry)
      → AllEntries es
      → take_entries codec (length es) (entries_bytes codec es) ≡ ok es
  unfolding take_entries entries_bytes
  take_entries-entries_bytes [] h = refl
  take_entries-entries_bytes (e ∷ es) h =
      let rest = entries_bytes codec es in
      take_entries-suc (length es) (entry_bytes codec e ++ rest) e rest (next_lem e rest h.0)
      ∙ ap (λ m. m >>= λ l. ok (e ∷ l)) (take_entries-entries_bytes es h.1)

  parse_section_naked_lem :
      (target : ℕ) (es : List RelocEntry)
      → target < 2 ^ 32
      → length es < 2 ^ 32
      → parse_section_naked codec (reloc_section_bytes codec target es)
        ≡ Read.ok
            (record {
              target_section = target;
              entry_count = length es;
              entries = entries_bytes codec es;
            })
            (entries_bytes codec es)
  parse_section_naked_lem target es h k =
      let rest = u32_bytes codec (length es) none ++ entries_bytes codec es in
      unfold parse_section_naked reloc_section_bytes in
      rw (
        read_u32_bytes codec laws target none rest h (omega arith),
        read_u32_bytes codec laws (length es) none (entries_bytes codec es) k (omega arith),
      )

  parse_section_lem :
      (target : ℕ) (es : List RelocEntry)
      → target < 2 ^ 32
      → length es < 2 ^ 32
      → result (parse (parse_section_naked codec) (reloc_section_bytes codec target es))
        ≡ ok (record {
          target_section = target;
          entry_count = length es;
          entries = entries_bytes codec es;
        })
  unfolding parse
  parse_section_lem target es h k =
      let bytes = reloc_section_bytes codec target es in
      ap result (
        lookahead_ok (parse_section_naked codec) bytes (entries_bytes codec es)
          (record {
            target_section = target;
            entry_count = length es;
            entries = entries_bytes codec es;
          })
          (parse_section_naked_lem target es h k))

module _ (crates : Crates) (laws : IsLeb128 crates.codec) where
  -- The arm of a relocation section appends its entries.
  pub add_relocs-reloc_section_bytes :
      (target : ℕ) (es : List RelocEntry) (maps : Maps)
      → target < 2 ^ 32
      → length es < 2 ^ 32
      → AllEntries es
      → add_relocs crates (reloc_section_bytes crates.codec target es) maps
        ≡ ok (record maps {
          orig_reloc_map = update_at target (λ old. old ++ es) maps.orig_reloc_map;
        })
  add_relocs-reloc_section_bytes target es maps h k good =
      unfold add_relocs in
      rw (
        parse_section_lem crates.codec laws target es h k,
        take_entries-entries_bytes crates.codec laws es good,
      )

-- The vector of a section, empty where there is none.
abbrev pub relocs_at : ℕ → List (List RelocEntry) → List RelocEntry
relocs_at i maps = Option.get_or (get_elem? maps i) []

pub update_at_same :
    (i : ℕ) (f : List RelocEntry → List RelocEntry) (maps : List (List RelocEntry))
    → get_elem? (update_at i f maps) i ≡ some (f (relocs_at i maps))
unfolding update_at
update_at_same zero f [] = refl
update_at_same zero f (x ∷ xs) = refl
update_at_same (suc i) f [] = update_at_same i f []
update_at_same (suc i) f (x ∷ xs) = update_at_same i f xs

-- Elsewhere a vector stays, and what is made on the way is empty.
abbrev pub Agree : Option (List RelocEntry) → Option (List RelocEntry) → Type 0
Agree none none = Unit {0}
Agree none (some r) = r ≡ []
Agree (some r) none = ⊥
Agree (some r) (some s) = s ≡ r

pub Agree-refl : (o : Option (List RelocEntry)) → Agree o o
Agree-refl none = tt
Agree-refl (some r) = refl

pub update_at_other :
    (i j : ℕ) (f : List RelocEntry → List RelocEntry) (maps : List (List RelocEntry))
    → i ≢ j
    → Agree (get_elem? maps j) (get_elem? (update_at i f maps) j)
unfolding update_at
update_at_other zero zero f maps h = absurd (h refl)
update_at_other zero (suc j) f [] h = tt
update_at_other zero (suc j) f (x ∷ xs) h = Agree-refl (get_elem? xs j)
update_at_other (suc i) zero f [] h = refl
update_at_other (suc i) zero f (x ∷ xs) h = refl
update_at_other (suc i) (suc j) f [] h = update_at_other i j f [] (λ e. h (ap suc e))
update_at_other (suc i) (suc j) f (x ∷ xs) h = update_at_other i j f xs (λ e. h (ap suc e))
