-- ===== src/Splitter/Places.antt =====
-- The relocated places of a function in src/wasmall/src/splitter.rs, before and after their symbols are
-- made local.
use crucible_rt.Prelude.{
  ℕ, ◌+◌, ◌^◌, ◌≤◌, ◌<◌, ◌≡◌, refl, arith, List, [], ◌∷◌, length, Option, none, some, get_elem?,
  true, false, All, get_elem?-lt, Bool,
}
use mathlib.Core.Option
use crucible_rt.Reloc.{has_addend}
use crucible_rt.Scalar.{
  ScalarRewriteKind, rewrite_kind, with_value, as_u32, wrapping_add, wrapping_neg,
}
use crucible_rt.Scalar.Field.{Holds, Holds-lt}
use crucible_rt.Coder.Entry.{FitsAddend}
use crucible_rt.Coder.Site.{Site, IsSite, AllSites}
use crucible_rt.Coder.Push.{IsU32}
use crucible_rt.Splitter.Functions.{LocalMap}
use crucible_rt.Splitter.Symbols.{Bounded, Interned, intern, local_symbol-intern}

-- A place of the module, whose index is a global symbol: it holds `val` at full width, and has an
-- addend just if its type has one.
pub record IsPlace (s : Site) : Type 0 where
  pub holds : Holds (rewrite_kind s.ty) s.bytes s.val
  pub addend_fits : FitsAddend (has_addend s.ty) s.addend

abbrev pub AllPlaces : List Site → Type 0
AllPlaces = All IsPlace

-- The value of the symbol: that of the place less the addend.
unfoldable pub base_of : Site → ℕ
unfolding wrapping_add wrapping_neg
base_of s = wrapping_add s.val (wrapping_neg (Option.get_or s.addend 0))

-- The places with local symbols, and the map and the values after them.
unfoldable pub relabel : LocalMap → List ℕ → List Site → List Site × (LocalMap × List ℕ)
relabel m values [] = ([], (m, values))
relabel m values (s ∷ ss) =
    let r = intern s.index (base_of s) m values in
    let (places, state) = relabel r.1.0 r.1.1 ss in ((record s { index = r.0 }) ∷ places, state)

base_of-lt : (s : Site) → base_of s < 2 ^ 32
unfolding base_of
base_of-lt s = omega arith

addend-lt : (b : Bool) (addend : Option ℕ) → FitsAddend b addend → Option.get_or addend 0 < 2 ^ 32
addend-lt true (some a) h = h
addend-lt true none h = absurd h
addend-lt false (some a) h = absurd h
addend-lt false none h = omega arith

base_of-add :
    (val a : ℕ)
    → val < 2 ^ 32
    → a < 2 ^ 32
    → wrapping_add (wrapping_add val (wrapping_neg a)) a ≡ val
unfolding wrapping_add wrapping_neg
base_of-add val a h k = omega arith

pub as_u32-with_value : (kind : ScalarRewriteKind) (v : ℕ) → as_u32 (with_value kind v) ≡ v
unfolding as_u32 with_value
as_u32-with_value ScalarRewriteKind.var_u32 v = refl
as_u32-with_value ScalarRewriteKind.var_i32 v = refl
as_u32-with_value ScalarRewriteKind.fixed_u32 v = refl
as_u32-with_value ScalarRewriteKind.fixed_i32 v = refl

-- What relabelling gives, from a map of symbols that have values.
pub record Relabelled (values : List ℕ) (ss : List Site) (r : List Site × (LocalMap × List ℕ))
    : Type 0 where
  pub sites : AllSites r.1.1 r.0
  pub keeps : (i w : ℕ) → get_elem? values i ≡ some w → get_elem? r.1.1 i ≡ some w
  pub few : length r.1.1 ≤ length values + length ss
  pub fit : All IsU32 values → All IsU32 r.1.1
  pub count : length r.0 ≡ length ss

module _ (m : LocalMap) (values : List ℕ) (bounded : Bounded (length values) m) (s : Site)
    (place : IsPlace s) where
  abbrev interned : ℕ × (LocalMap × List ℕ)
  interned = intern s.index (base_of s) m values

  pub facts : Interned (base_of s) values interned
  facts = (local_symbol-intern s.index (base_of s) m values bounded).1

  relabel-IsSite :
      (all : List ℕ)
      → length all < 2 ^ 32
      → ((i w : ℕ) → get_elem? interned.1.1 i ≡ some w → get_elem? all i ≡ some w)
      → IsSite all (record s { index = interned.0 })
  relabel-IsSite all small grown = record {
    holds = place.holds;
    base = base_of s;
    known = grown interned.0 (base_of s) facts.known;
    sum =
        unfold base_of in
        base_of-add s.val (Option.get_or s.addend 0)
          (Holds-lt (rewrite_kind s.ty) s.bytes s.val place.holds)
          (addend-lt (has_addend s.ty) s.addend place.addend_fits);
    index_fits =
        omega (
          arith,
          get_elem?-lt all interned.0 (base_of s) (grown interned.0 (base_of s) facts.known),
        );
    addend_fits = place.addend_fits;
  }

-- Every place is a site of the values that are there at the end.
pub relabel-Relabelled :
    (m : LocalMap) (values : List ℕ) (ss : List Site)
    → Bounded (length values) m
    → AllPlaces ss
    → length values + length ss < 2 ^ 32
    → Relabelled values ss (relabel m values ss)
unfolding relabel
relabel-Relabelled m values [] b h small = record {
  sites = tt;
  keeps = λ i w k. k;
  few = omega arith;
  fit = λ k. k;
  count = refl;
}
relabel-Relabelled m values (s ∷ ss) b h small =
    let r = intern s.index (base_of s) m values in
    let one = facts m values b s h.0 in
    let more = relabel-Relabelled r.1.0 r.1.1 ss one.bounded h.1 (omega (arith, one.one_more)) in
    record {
      sites = (
        relabel-IsSite m values b s h.0 (relabel r.1.0 r.1.1 ss).1.1
            (omega (arith, one.one_more, more.few)) more.keeps,
        more.sites,
      );
      keeps = λ i w k. more.keeps i w (one.grows i w k);
      few = omega (arith, one.one_more, more.few);
      fit = λ k. more.fit (one.small (base_of-lt s) k);
      count = omega (arith, more.count);
    }
