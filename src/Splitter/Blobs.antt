-- ===== src/Splitter/Blobs.antt =====
-- One function of a code section as the blob that src/wasmall/src/splitter.rs pushes for it.
use crucible_rt.Prelude.{
  ℕ, ◌+◌, ◌*◌, ◌^◌, ◌≤◌, ◌<◌, ◌≡◌, refl, ap, sym, ◌∙◌, subst, arith, List, [], ◌∷◌, ◌++◌, length,
  length-append, none, leb, All, le→ltb_false, lt→leb_false, le→leb,
}
use crucible_rt.Leb.{Leb128, IsLeb128}
use crucible_rt.Result.{Result}
use crucible_rt.Writer.{write_var_u32, len_of, len_counter}
use crucible_rt.Writer.Padding.{len_counter-IsBufWriter}
use crucible_rt.Writer.Var.{u32_bytes, write_var_u32-extends}
use crucible_rt.Writer.RoundTrip.{u32_bytes-format}
use crucible_rt.Reloc.{RelocEntry}
use crucible_rt.Scalar.{ScalarRewriteKind, rewrite_kind}
use crucible_rt.Scalar.Field.{Holds}
use crucible_rt.Coder.Site.{Site, source, entries, over_sites}
use crucible_rt.Coder.Push.{IsU32, values_bytes}
use crucible_rt.Archive.Parts.{Push, blob, IsPush}
use crucible_rt.Splitter.Functions.{skip_before, take_through, drop_through}
use crucible_rt.Splitter.Symbols.{intern}
use crucible_rt.Splitter.Places.{base_of, AllPlaces, relabel, relabel-Relabelled}

-- A function with its size field: the width of that field, its relocated places and the bytes behind
-- the last.
pub record Func : Type 0 where
  pub size_width : ℕ
  pub sites : List Site
  pub tail : List ℕ

abbrev pub func_bytes : Func → List ℕ
func_bytes f = source f.sites f.tail

-- The first place is not at the very start, where the size field is.
abbrev pub HasRoom : List Site → Type 0
HasRoom [] = Unit {0}
HasRoom (s ∷ ss) = 0 < length s.before

-- The function begins with the shortest encoding of its body's length.
pub record IsFunc (codec : Leb128) (f : Func) : Type 0 where
  pub places : AllPlaces f.sites
  pub room : HasRoom f.sites
  pub body : List ℕ
  pub sized : func_bytes f ≡ u32_bytes codec (length body) none ++ body
  pub width : f.size_width ≡ length (u32_bytes codec (length body) none)

-- The call that pushes it.
unfoldable pub func_push : Func → Push
func_push f = let r = relabel [] [] f.sites in blob r.0 f.tail r.1.1

pub source-relabel :
    (m : List (ℕ × ℕ)) (values : List ℕ) (ss : List Site) (tail : List ℕ)
    → source (relabel m values ss).0 tail ≡ source ss tail
unfolding relabel source
source-relabel m values [] tail = refl
source-relabel m values (s ∷ ss) tail =
    let r = intern s.index (base_of s) m values in
    ap (λ l. s.before ++ (s.bytes ++ l)) (source-relabel r.1.0 r.1.1 ss tail)

abbrev pub Between : ℕ → ℕ → List RelocEntry → Type 0
Between lo hi = All (λ e. (lo ≤ e.offset) × (e.offset ≤ hi))

abbrev pub Above : ℕ → List RelocEntry → Type 0
Above lo = All (λ e. lo < e.offset)

Between-mono :
    (lo lo' hi : ℕ) (es : List RelocEntry) → lo ≤ lo' → Between lo' hi es → Between lo hi es
Between-mono lo lo' hi [] h b = tt
Between-mono lo lo' hi (e ∷ es) h b = ((omega arith, b.0.1), Between-mono lo lo' hi es h b.1)

pub Above-mono : (lo lo' : ℕ) (es : List RelocEntry) → lo ≤ lo' → Above lo' es → Above lo es
Above-mono lo lo' [] h b = tt
Above-mono lo lo' (e ∷ es) h b = (omega arith, Above-mono lo lo' es h b.1)

pub Between-Above :
    (lo lo' hi : ℕ) (es : List RelocEntry) → lo < lo' → Between lo' hi es → Above lo es
Between-Above lo lo' hi [] h b = tt
Between-Above lo lo' hi (e ∷ es) h b = (omega arith, Between-Above lo lo' hi es h b.1)

pub entries-Between :
    (offset : ℕ) (ss : List Site) (tail : List ℕ)
    → Between offset (offset + length (source ss tail)) (entries offset ss)
unfolding entries over_sites source
entries-Between offset [] tail = tt
entries-Between offset (s ∷ ss) tail =
    let rest = source ss tail in
    let lengths = length-append s.before (s.bytes ++ rest) in
    let lengths' = length-append s.bytes rest in
    let next = offset + length s.before + length s.bytes in
    let same : next + length rest ≡ offset + length (s.before ++ (s.bytes ++ rest)) = omega arith in
    (
      (omega arith, omega arith),
      subst (λ (n : ℕ). Between offset n (entries next ss)) same
          (Between-mono offset next (next + length rest) (entries next ss) (omega arith)
            (entries-Between next ss tail)),
    )

pub entries-Above : (offset : ℕ) (ss : List Site) → HasRoom ss → Above offset (entries offset ss)
unfolding entries over_sites
entries-Above offset [] h = tt
entries-Above offset (s ∷ ss) h =
    let next = offset + length s.before + length s.bytes in
    (
      omega arith,
      Between-Above offset next (next + length (source ss [])) (entries next ss) (omega arith)
          (entries-Between next ss []),
    )

-- The two loops, on relocations in the order of the functions.
skip_before-Above : (k : ℕ) (es : List RelocEntry) → Above k es → skip_before k es ≡ es
unfolding skip_before
skip_before-Above k [] h = refl
skip_before-Above k (e ∷ es) h = rw (le→ltb_false e.offset k (omega arith))

pub skip_before-Between :
    (k hi : ℕ) (es fs : List RelocEntry)
    → Between k hi es
    → Above k fs
    → skip_before k (es ++ fs) ≡ es ++ fs
unfolding skip_before
skip_before-Between k hi [] fs h g = skip_before-Above k fs g
skip_before-Between k hi (e ∷ es) fs h g = rw (le→ltb_false e.offset k h.0.0)

take_through-Above : (k : ℕ) (fs : List RelocEntry) → Above k fs → take_through k fs ≡ []
unfolding take_through
take_through-Above k [] g = refl
take_through-Above k (f ∷ fs) g = rw (lt→leb_false f.offset k g.0)

drop_through-Above : (k : ℕ) (fs : List RelocEntry) → Above k fs → drop_through k fs ≡ fs
unfolding drop_through
drop_through-Above k [] g = refl
drop_through-Above k (f ∷ fs) g = rw (lt→leb_false f.offset k g.0)

pub take_through-append :
    (lo k : ℕ) (es fs : List RelocEntry)
    → Between lo k es
    → Above k fs
    → take_through k (es ++ fs) ≡ es
unfolding take_through
take_through-append lo k [] fs h g = take_through-Above k fs g
take_through-append lo k (e ∷ es) fs h g =
    rw (le→leb e.offset k h.0.1) (ap (λ l. e ∷ l) (take_through-append lo k es fs h.1 g))

pub drop_through-append :
    (lo k : ℕ) (es fs : List RelocEntry)
    → Between lo k es
    → Above k fs
    → drop_through k (es ++ fs) ≡ fs
unfolding drop_through
drop_through-append lo k [] fs h g = drop_through-Above k fs g
drop_through-append lo k (e ∷ es) fs h g =
    rw (le→leb e.offset k h.0.1) (drop_through-append lo k es fs h.1 g)

pub length-Holds :
    (kind : ScalarRewriteKind) (bytes : List ℕ) (val : ℕ) → Holds kind bytes val → 4 ≤ length bytes
length-Holds ScalarRewriteKind.var_u32 bytes val h = omega arith
length-Holds ScalarRewriteKind.var_i32 bytes val h = omega arith
length-Holds ScalarRewriteKind.fixed_u32 bytes val h = omega arith
length-Holds ScalarRewriteKind.fixed_i32 bytes val h = omega arith

module _ (codec : Leb128) (laws : IsLeb128 codec) where
  pub len_of-u32 :
      (v : ℕ)
      → v < 2 ^ 32
      → len_of (λ w. write_var_u32 codec w v) ≡ Result.ok (length (u32_bytes codec v none))
  len_of-u32 v h =
      unfold len_of in
      write_var_u32-extends codec laws len_counter-IsBufWriter 0 v h ∙ ap Result.ok (omega arith)

  -- Values and places are no longer together than five quarters of the function.
  length-values_bytes :
      (vs : List ℕ) → All IsU32 vs → length (values_bytes codec vs) ≤ 5 * length vs
  unfolding values_bytes
  length-values_bytes [] h = omega arith
  length-values_bytes (v ∷ vs) h =
      let (leb, value, short, wide) = u32_bytes-format codec laws v none h.0 (omega arith) in
      omega (
        arith,
        length-append (u32_bytes codec v none) (values_bytes codec vs),
        length-values_bytes vs h.1,
      )

  pub length-places :
      (ss : List Site) (tail : List ℕ) → AllPlaces ss → 4 * length ss ≤ length (source ss tail)
  unfolding source
  length-places [] tail h = omega arith
  length-places (s ∷ ss) tail h = omega (
    arith,
    length-append s.before (s.bytes ++ source ss tail),
    length-append s.bytes (source ss tail),
    length-Holds (rewrite_kind s.ty) s.bytes s.val h.0.holds,
    length-places ss tail h.1,
  )

  -- The call for a function below 2 GiB lies and fits as the format wants.
  pub func_push-IsPush :
      (f : Func) → AllPlaces f.sites → length (func_bytes f) < 2 ^ 31 → IsPush codec (func_push f)
  unfolding func_push
  func_push-IsPush f h small =
      let few = length-places f.sites f.tail h in
      let r = relabel [] [] f.sites in
      let good = relabel-Relabelled [] [] f.sites tt h (omega arith) in
      let u32s = good.fit tt in
      (
        good.sites,
        u32s,
        omega (arith, good.count),
        subst (λ l. length l < 2 ^ 32) (sym (source-relabel [] [] f.sites f.tail)) (omega arith),
        omega (arith, length-values_bytes r.1.1 u32s, good.few),
      )
