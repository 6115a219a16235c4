-- ===== src/Tests/Sorting.antt =====
-- A sort of relocations by insertion, for the parameter that stands for `sort_unstable_by` in
-- src/wasmall/src/splitter.rs.
use crucible_rt.Prelude.{
  ℕ, ◌≤◌, ◌≡◌, refl, ap, ◌∙◌, arith, List, [], ◌∷◌, leb, if◌then◌else◌, le→leb, leb-cases, inl, inr,
}
use mathlib.Core.List.{Perm}
use mathlib.Core.List.Perm
use crucible_rt.Reloc.{RelocEntry}
use crucible_rt.Splitter.Blobs.{Above}
use crucible_rt.Splitter.Order.{IsSort}
use crucible_rt.Splitter.Collected.{AtLeast, InOrder, Sorts}

-- A sort by insertion.
unfoldable pub insert_reloc : RelocEntry → List RelocEntry → List RelocEntry
insert_reloc e [] = e ∷ []
insert_reloc e (f ∷ fs) = if leb e.offset f.offset then e ∷ f ∷ fs else f ∷ insert_reloc e fs

unfoldable pub insertion_sort : List RelocEntry → List RelocEntry
insertion_sort [] = []
insertion_sort (e ∷ es) = insert_reloc e (insertion_sort es)

insert_reloc-Above :
    (e : RelocEntry) (es : List RelocEntry) → Above e.offset es → insert_reloc e es ≡ e ∷ es
unfolding insert_reloc
insert_reloc-Above e [] h = refl
insert_reloc-Above e (f ∷ fs) h = rw (le→leb e.offset f.offset (omega arith))

pub insertion_sort-IsSort : IsSort insertion_sort
unfolding insertion_sort
insertion_sort-IsSort [] h = refl
insertion_sort-IsSort (e ∷ es) h =
    ap (insert_reloc e) (insertion_sort-IsSort es h.1) ∙ insert_reloc-Above e es h.0

-- The sort by insertion sorts, and keeps what it is given.
insert_reloc-Perm : (e : RelocEntry) (es : List RelocEntry) → Perm (insert_reloc e es) (e ∷ es)
unfolding insert_reloc
insert_reloc-Perm e [] = Perm.refl (e ∷ [])
insert_reloc-Perm e (f ∷ fs) = elim (leb-cases e.offset f.offset) [
  | inl t ↦ rw t.0 (Perm.refl (e ∷ f ∷ fs))
  | inr t ↦ rw t.0 (Perm.trans (Perm.cons f (insert_reloc-Perm e fs)) (Perm.swap e f fs))
]

insert_reloc-AtLeast :
    (lo : ℕ) (e : RelocEntry) (es : List RelocEntry)
    → lo ≤ e.offset
    → AtLeast lo es
    → AtLeast lo (insert_reloc e es)
unfolding insert_reloc
insert_reloc-AtLeast lo e [] h k = (h, tt)
insert_reloc-AtLeast lo e (f ∷ fs) h k = elim (leb-cases e.offset f.offset) [
  | inl t ↦ rw t.0 (h, k)
  | inr t ↦ rw t.0 (k.0, insert_reloc-AtLeast lo e fs h k.1)
]

AtLeast-mono : (lo hi : ℕ) (es : List RelocEntry) → lo ≤ hi → AtLeast hi es → AtLeast lo es
AtLeast-mono lo hi [] h k = tt
AtLeast-mono lo hi (e ∷ es) h k = (omega arith, AtLeast-mono lo hi es h k.1)

insert_reloc-InOrder :
    (e : RelocEntry) (es : List RelocEntry) → InOrder es → InOrder (insert_reloc e es)
unfolding insert_reloc
insert_reloc-InOrder e [] h = (tt, tt)
insert_reloc-InOrder e (f ∷ fs) h = elim (leb-cases e.offset f.offset) [
  | inl t ↦ rw t.0 ((t.1, AtLeast-mono e.offset f.offset fs t.1 h.0), h)
  | inr t ↦
      rw t.0 (insert_reloc-AtLeast f.offset e fs (omega arith) h.0, insert_reloc-InOrder e fs h.1)
]

pub insertion_sort-Sorts : Sorts insertion_sort
unfolding insertion_sort
insertion_sort-Sorts [] = (tt, Perm.refl [])
insertion_sort-Sorts (e ∷ es) =
    let (ordered, kept) = insertion_sort-Sorts es in
    (
      insert_reloc-InOrder e (insertion_sort es) ordered,
      Perm.trans (insert_reloc-Perm e (insertion_sort es)) (Perm.cons e kept),
    )
