-- ===== src/Splitter/Collected.antt =====
-- The relocations that the first pass of src/wasmall/src/splitter.rs collects for a section.
use crucible_rt.Prelude.{ℕ, ◌≤◌, List, [], ◌∷◌, ◌++◌, Option, ◌==◌, if◌then◌else◌}
use mathlib.Core.List.{Perm}
use mathlib.Core.List.Perm
use mathlib.Core.Option
use crucible_rt.Reloc.{RelocEntry}
use crucible_rt.Splitter.Notes.{Note, Notes}

-- The entries of the relocation sections that name the section, in the order of those sections.
unfoldable pub entries_for : ℕ → List Note → List RelocEntry
entries_for i [] = []
entries_for i ((target, es) ∷ ns) = if target == i then es ++ entries_for i ns else entries_for i ns

-- No offset is above one behind it.
abbrev pub AtLeast : ℕ → List RelocEntry → Type 0
AtLeast lo [] = Unit {0}
AtLeast lo (e ∷ es) = (lo ≤ e.offset) × AtLeast lo es

abbrev pub InOrder : List RelocEntry → Type 0
InOrder [] = Unit {0}
InOrder (e ∷ es) = AtLeast e.offset es × InOrder es

-- What is documented of `sort_unstable_by` by the offset.
abbrev pub Sorts : (List RelocEntry → List RelocEntry) → Type 0
Sorts sort = (es : List RelocEntry) → InOrder (sort es) × Perm (sort es) es
