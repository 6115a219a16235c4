-- ===== src/Coder/Site.antt =====
-- The data of a blob as `push_blob` of src/wasmall/src/coder.rs is given it: relocated places, each with
-- the bytes before it, and the bytes behind the last.
use crucible_rt.Prelude.{
  ℕ, suc, ◌+◌, ◌^◌, ◌<◌, ◌≡◌, refl, ap, List, [], ◌∷◌, ◌++◌, length, Option, some, map, get_elem?,
}
use mathlib.Core.Option
use crucible_rt.Leb.{Leb128}
use crucible_rt.Writer.{vec_writer, len_counter}
use crucible_rt.Reloc.{RelocEntry, RelocEntryType, has_addend}
use crucible_rt.Scalar.{rewrite_kind, wrapping_add}
use crucible_rt.Scalar.Field.{Holds, encode}
use crucible_rt.Rewrite.{Rewriter}
use crucible_rt.Rewrite.Layout.{Patch, IsPatch, AllPatches, layout, replacements}
use crucible_rt.Coder.Entry.{FitsAddend}

pub record Site : Type 0 where
  pub before : List ℕ
  pub bytes : List ℕ
  pub ty : RelocEntryType
  pub index : ℕ
  pub addend : Option ℕ
  pub val : ℕ

-- The place holds `val` at full width, and `val` is the value of its index plus its addend.
pub record IsSite (values : List ℕ) (s : Site) : Type 0 where
  pub holds : Holds (rewrite_kind s.ty) s.bytes s.val
  pub base : ℕ
  pub known : get_elem? values s.index ≡ some base
  pub sum : wrapping_add base (Option.get_or s.addend 0) ≡ s.val
  pub index_fits : s.index < 2 ^ 32
  pub addend_fits : FitsAddend (has_addend s.ty) s.addend

abbrev pub AllSites : List ℕ → List Site → Type 0
AllSites values [] = Unit {0}
AllSites values (s ∷ ss) = IsSite values s × AllSites values ss

-- The buffer, with the bytes of each place given by a function.
abbrev pub fill : (Site → List ℕ) → List Site → List ℕ → List ℕ
fill f [] tail = tail
fill f (s ∷ ss) tail = s.before ++ (f s ++ fill f ss tail)

-- The data itself.
unfoldable pub source : List Site → List ℕ → List ℕ
source ss tail = fill (λ s. s.bytes) ss tail

-- The data with every place zeroed.
unfoldable pub zeroed : Leb128 → List Site → List ℕ → List ℕ
zeroed codec ss tail = fill (λ s. encode codec (rewrite_kind s.ty) 0) ss tail

-- The relocation of a place, whose offset is where the place begins.
abbrev pub entry_at : ℕ → Site → RelocEntry
entry_at offset s = record {
  ty = s.ty;
  offset = offset + length s.before;
  index = s.index;
  addend = s.addend;
}

-- Something for each place and its relocation.
unfoldable pub over_sites {ℓ} : {X : Type ℓ} → (RelocEntry → Site → X) → ℕ → List Site → List X
over_sites h offset [] = []
over_sites h offset (s ∷ ss) =
    h (entry_at offset s) s ∷ over_sites h (offset + length s.before + length s.bytes) ss

unfoldable pub entries : ℕ → List Site → List RelocEntry
entries offset ss = over_sites (λ e s. e) offset ss

pub map-over_sites {ℓ κ} :
    {X : Type ℓ} {Y : Type κ} (f : X → Y) (h : RelocEntry → Site → X) (offset : ℕ) (ss : List Site)
    → map f (over_sites h offset ss) ≡ over_sites (λ e s. f (h e s)) offset ss
unfolding over_sites
map-over_sites f h offset [] = refl
map-over_sites f h offset (s ∷ ss) =
    ap (λ l. f (h (entry_at offset s) s) ∷ l)
      (map-over_sites f h (offset + length s.before + length s.bytes) ss)

pub length-over_sites {ℓ} :
    {X : Type ℓ} (h : RelocEntry → Site → X) (offset : ℕ) (ss : List Site)
    → length (over_sites h offset ss) ≡ length ss
unfolding over_sites
length-over_sites h offset [] = refl
length-over_sites h offset (s ∷ ss) =
    ap suc (length-over_sites h (offset + length s.before + length s.bytes) ss)

pub length-entries : (offset : ℕ) (ss : List Site) → length (entries offset ss) ≡ length ss
unfolding entries
length-entries offset ss = length-over_sites (λ e s. e) offset ss

-- The patches of the places, whose bytes in the buffer are given by `f`.
module _ {W C : Type 0} (f : Site → List ℕ) (rewriter : RelocEntry → Site → Rewriter W C)
    (effect : RelocEntry → Site → W → C → W × C) where
  abbrev patch_at : RelocEntry → Site → Patch W C
  patch_at e s = record {
    before = s.before;
    bytes = f s;
    rewriter = rewriter e s;
    effect = effect e s;
  }

  unfoldable pub patches : ℕ → List Site → List (Patch W C)
  patches = over_sites patch_at

  pub layout-patches :
      (offset : ℕ) (ss : List Site) (tail : List ℕ)
      → layout (patches offset ss) tail ≡ fill f ss tail
  unfolding layout patches over_sites
  layout-patches offset [] tail = refl
  layout-patches offset (s ∷ ss) tail =
      ap (λ l. s.before ++ (f s ++ l))
        (layout-patches (offset + length s.before + length s.bytes) ss tail)

  module _ (values : List ℕ)
      (lengths : (s : Site) → IsSite values s → length (f s) ≡ length s.bytes) where
    pub replacements-patches :
        (offset : ℕ) (ss : List Site)
        → AllSites values ss
        → replacements offset (patches offset ss)
          ≡ over_sites (λ e s. (e.offset, rewriter e s)) offset ss
    unfolding replacements patches over_sites
    replacements-patches offset [] h = refl
    replacements-patches offset (s ∷ ss) h =
        let next = offset + length s.before + length s.bytes in
        rw (lengths s h.0) (
          ap (λ l. (offset + length s.before, rewriter (entry_at offset s) s) ∷ l)
            (replacements-patches next ss h.1))

    pub patches-AllPatches :
        (each : (offset : ℕ) (s : Site)
          → IsSite values s
          → IsPatch (patch_at (entry_at offset s) s))
        (offset : ℕ) (ss : List Site)
        → AllSites values ss
        → AllPatches (patches offset ss)
    unfolding patches over_sites
    patches-AllPatches each offset [] h = tt
    patches-AllPatches each offset (s ∷ ss) h = (
      each offset s h.0,
      patches-AllPatches each (offset + length s.before + length s.bytes) ss h.1,
    )
