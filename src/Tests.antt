-- ===== src/Tests.antt =====
-- A module with one relocated call, a hash and their facts, on which the children's examples run.
mod Sorting
mod Archives
mod Numbers
mod Hosts
mod Slices
mod Modules
mod Stores
mod Dynamics
use crucible_rt.Prelude.{
  In, ℕ, ◌+◌, ◌^◌, ◌≤◌, ◌<◌, ◌≡◌, refl, sym, ◌∙◌, arith, List, [], ◌∷◌, ◌++◌, length, none, some,
  map, inl, inr,
}
use crucible_rt.Leb.Format.{groups}
use crucible_rt.Leb.Reference.{reference, encode_groups}
use crucible_rt.Reloc.{function_index_leb, has_addend}
use crucible_rt.Scalar.{ScalarRewriteKind, rewrite_kind, wrapping_add}
use crucible_rt.Scalar.Field.{Holds}
use crucible_rt.Writer.Padding.{zero_extended}
use crucible_rt.Coder.Site.{Site, IsSite, source}
use crucible_rt.Coder.Push.{values_bytes}
use crucible_rt.Archive.Parts.{
  Push, verbatim, blob, pushed, module_bytes, AllPushes, parts, add_part, chunk_of,
}
use crucible_rt.Archive.Store.{blobs, NoCollision}

-- Function 5 at full width.
abbrev pub five : List ℕ
five = 0x85 ∷ 0x80 ∷ 0x80 ∷ 0x80 ∷ 0 ∷ []

-- A call of function 5, whose place follows the opcode.
abbrev pub call_site : Site
call_site = record {
  before = 0x10 ∷ [];
  bytes = five;
  ty = function_index_leb;
  index = 0;
  addend = none;
  val = 5;
}

abbrev pub sites : List Site
sites = call_site ∷ []

abbrev pub code_end : List ℕ
code_end = 0x0b ∷ []

abbrev pub values : List ℕ
values = 5 ∷ []

-- A hash of 32 bytes, which tells one blob from no other.
abbrev pub digest : List ℕ → List ℕ
digest bytes =
    1 ∷ 2 ∷ 3 ∷ 4 ∷ 5 ∷ 6 ∷ 7 ∷ 8 ∷ 1 ∷ 2 ∷ 3 ∷ 4 ∷ 5 ∷ 6 ∷ 7 ∷ 8 ∷ 1 ∷ 2 ∷ 3 ∷ 4 ∷ 5 ∷ 6 ∷ 7 ∷ 8
    ∷ 1 ∷ 2 ∷ 3 ∷ 4 ∷ 5 ∷ 6 ∷ 7 ∷ 8 ∷ []

abbrev pub pushes : List Push
pushes = verbatim (0 ∷ 97 ∷ []) ∷ blob sites code_end values ∷ verbatim (1 ∷ []) ∷ []

pub five-Holds : Holds (rewrite_kind function_index_leb) five 5
unfolding rewrite_kind groups
five-Holds = (
  (
    (omega arith, omega arith),
    (
      (omega arith, omega arith),
      ((omega arith, omega arith), ((omega arith, omega arith), omega arith)),
    ),
  ),
  refl,
  refl,
  omega arith,
)

pub five-Holds_var : Holds ScalarRewriteKind.var_u32 five 5
five-Holds_var = unfold rewrite_kind in five-Holds

call_site-IsSite : IsSite values call_site
call_site-IsSite = record {
  holds = five-Holds;
  base = 5;
  known = refl;
  sum = unfold wrapping_add in refl;
  index_fits = omega arith;
  addend_fits = unfold has_addend in tt;
}

pub sites-AllSites : (IsSite values call_site) × Unit {0}
sites-AllSites = (call_site-IsSite, tt)

pub values_small : length (values_bytes reference values) < 2 ^ 32
values_small = unfold values_bytes zero_extended encode_groups in omega arith

pub source_small : length (source sites code_end) < 2 ^ 32
source_small = unfold source in omega arith

pub pushes-AllPushes : AllPushes reference pushes
pushes-AllPushes =
    (tt, ((sites-AllSites, (omega arith, tt), omega arith, source_small, values_small), (tt, tt)))

pub pushes_small : length (module_bytes pushes) < 2 ^ 32
pushes_small = unfold module_bytes pushed source in omega arith

pub only_blob : (x y b : List ℕ) → In x (b ∷ []) → In y (b ∷ []) → x ≡ y
only_blob x y b (inl e) (inl f) = e ∙ sym f
only_blob x y b (inl e) (inr n) = absurd n
only_blob x y b (inr m) n = absurd m

pub pushes-NoCollision : NoCollision digest (blobs (map (chunk_of reference) (parts [] pushes)))
unfolding blobs chunk_of parts add_part
pushes-NoCollision = λ x y m n e. only_blob x y _ m n
