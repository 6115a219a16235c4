-- ===== src/Archive/Blob.antt =====
-- A blob that `push_blob` wrote, parsed and written out again by src/wasmall/src/coder.rs.
use crucible_rt.Prelude.{
  ℕ, zero, suc, ◌+◌, ◌^◌, ◌<◌, ◌≡◌, refl, ap, ◌∙◌, arith, List, [], ◌∷◌, ◌++◌, length,
  length-append, append_assoc, some, get_elem?,
}
use crucible_rt.Leb.{Leb128, IsLeb128}
use crucible_rt.Result.{Result}
use crucible_rt.Writer.{vec_writer}
use crucible_rt.Scalar.{rewrite_kind, with_value}
use crucible_rt.Scalar.Field.{
  encode, Holds-encode, Holds-lt, Holds-length, encode-Holds_zero, read-Holds,
}
use crucible_rt.Rewrite.{scalar, rewrite_relocated}
use crucible_rt.Rewrite.Layout.{slice_rest}
use crucible_rt.Coder.Site.{Site, AllSites, fill, source, zeroed, entries, over_sites}
use crucible_rt.Coder.Blob.{rewrite_scalars, as_u32-with_value}
use crucible_rt.Archive.{check_zero, entry_values}
use crucible_rt.Archive.Lists.{AllEntries, IndexBelow}

index-lt-length {ℓ} :
    {A : Type ℓ} (xs : List A) (i : ℕ) (a : A) → get_elem? xs i ≡ some a → i < length xs
index-lt-length [] i a e = cc
index-lt-length (x ∷ xs) zero a e = omega arith
index-lt-length (x ∷ xs) (suc i) a e = omega (arith, index-lt-length xs i a e)

module _ (codec : Leb128) (laws : IsLeb128 codec) (values : List ℕ) where
  pub entries-AllEntries :
      (offset : ℕ) (ss : List Site) (tail : List ℕ)
      → AllSites values ss
      → offset + length (source ss tail) < 2 ^ 32
      → AllEntries (entries offset ss)
  unfolding entries over_sites source
  entries-AllEntries offset [] tail h small = tt
  entries-AllEntries offset (s ∷ ss) tail h small =
      let after = source ss tail in
      let lengths = length-append s.before (s.bytes ++ after) in
      let lengths' = length-append s.bytes after in
      (
        record {
          offset_fits = omega arith;
          index_fits = h.0.index_fits;
          addend_fits = h.0.addend_fits;
        },
        entries-AllEntries (offset + length s.before + length s.bytes) ss tail h.1 (omega arith),
      )

  pub entries-IndexBelow :
      (offset : ℕ) (ss : List Site)
      → AllSites values ss
      → IndexBelow (length values) (entries offset ss)
  unfolding entries over_sites
  entries-IndexBelow offset [] h = tt
  entries-IndexBelow offset (s ∷ ss) h = (
    index-lt-length values s.index h.0.base h.0.known,
    entries-IndexBelow (offset + length s.before + length s.bytes) ss h.1,
  )

  -- The values of the entries are those that the places held.
  pub entry_values_lem :
      (offset : ℕ) (ss : List Site)
      → AllSites values ss
      → entry_values values (entries offset ss)
        ≡ Result.ok (over_sites (λ e s. (s.val, e)) offset ss)
  unfolding entries over_sites entry_values
  entry_values_lem offset [] h = refl
  entry_values_lem offset (s ∷ ss) h = rw (
    h.0.known,
    entry_values,
    entry_values_lem (offset + length s.before + length s.bytes) ss h.1,
    h.0.sum,
  )

  pub check_zero_lem :
      (done : List ℕ) (offset : ℕ) (ss : List Site) (tail : List ℕ)
      → AllSites values ss
      → offset ≡ length done
      → check_zero codec (done ++ zeroed codec ss tail) (entries offset ss) ≡ Result.ok tt
  unfolding entries over_sites zeroed check_zero
  check_zero_lem done offset [] tail h e = refl
  check_zero_lem done offset (s ∷ ss) tail h e =
      let zero = encode codec (rewrite_kind s.ty) 0 in
      let place = s.before ++ zero in
      let rest = zeroed codec ss tail in
      let buf = done ++ (s.before ++ (zero ++ rest)) in
      let empty = encode-Holds_zero codec laws (rewrite_kind s.ty) in
      let at_place : (done ++ s.before) ++ (zero ++ rest) ≡ buf =
        append_assoc done s.before (zero ++ rest) in
      let after : (done ++ place) ++ rest ≡ buf =
        append_assoc done place rest ∙ ap (λ l. done ++ l) (append_assoc s.before zero rest) in
      let here =
        slice_rest (done ++ s.before) (zero ++ rest) (offset + length s.before)
          (omega (arith, length-append done s.before)) in
      let more =
        check_zero_lem (done ++ place) (offset + length s.before + length s.bytes) ss tail h.1 (
          omega (
            arith,
            length-append done place,
            length-append s.before zero,
            Holds-length (rewrite_kind s.ty) zero s.bytes 0 s.val empty h.0.holds,
          )) in
      rw
        (
          rw at_place at here,
          read-Holds codec laws (rewrite_kind s.ty) zero rest 0 empty,
          as_u32-with_value (rewrite_kind s.ty) 0,
        )
        (rw after at more)

  fill-encode :
      (ss : List Site) (tail : List ℕ)
      → AllSites values ss
      → fill (λ s. encode codec (rewrite_kind s.ty) s.val) ss tail ≡ source ss tail
  unfolding source
  fill-encode [] tail h = refl
  fill-encode (s ∷ ss) tail h =
      rw (Holds-encode codec laws (rewrite_kind s.ty) s.bytes s.val h.0.holds)
        (ap (λ l. s.before ++ (s.bytes ++ l)) (fill-encode ss tail h.1))

  pub restore :
      (ss : List Site) (tail out : List ℕ)
      → AllSites values ss
      → rewrite_relocated
          (zeroed codec ss tail)
          out
          (tt {0})
          (over_sites (λ e s. (e.offset, scalar codec (with_value (rewrite_kind e.ty) s.val))) 0 ss)
        ≡ Result.ok (out ++ source ss tail, tt)
  unfolding zeroed
  restore ss tail out h =
      rewrite_scalars codec laws values (λ s. encode codec (rewrite_kind s.ty) 0) (λ s. 0)
        (λ s. s.val) (λ s k. encode-Holds_zero codec laws (rewrite_kind s.ty))
        (λ s k. Holds-lt (rewrite_kind s.ty) s.bytes s.val k.holds) ss tail out h
      ∙ ap (λ (l : List ℕ). Result.ok (out ++ l, tt)) (fill-encode ss tail h)
