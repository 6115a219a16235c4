-- ===== src/Archive/Lists.antt =====
-- The lists of values and of relocation entries inside an archive, read back.
use crucible_rt.Prelude.{
  ℕ, ◌-◌, ◌^◌, ◌<◌, ◌≡◌, refl, ap, ◌∙◌, arith, List, [], ◌∷◌, ◌++◌, length, length-append,
  append_assoc, All, none, lt→ltb, le→ltb_false, take-append,
}
use crucible_rt.Leb.{Leb128, IsLeb128}
use crucible_rt.Leb.Format.{IsLeb}
use crucible_rt.Result.{Result}
use crucible_rt.Reader.{Read, Reader}
use crucible_rt.Cursor.{get_slice_read}
use crucible_rt.Cursor.Lookahead.{lookahead_ok}
use crucible_rt.Parse.{parse, collect, for_all, var_u32}
use crucible_rt.Parse.Items.{AllReads, items_bytes, fold_items, for_all_items, collect_items}
use crucible_rt.Writer.Var.{u32_bytes}
use crucible_rt.Writer.RoundTrip.{u32_bytes-format, read_u32_bytes}
use crucible_rt.Reloc.{RelocEntry, parse_entry, parse_entry_naked}
use crucible_rt.Coder.Entry.{IsEntry, entry_bytes, parse_entry_naked-entry_bytes}
use crucible_rt.Coder.Blob.{entries_bytes}
use crucible_rt.Coder.Push.{values_bytes, IsU32}
use crucible_rt.Archive.{skip_entries, check_index}

abbrev pub AllEntries : List RelocEntry → Type 0
AllEntries [] = Unit {0}
AllEntries (e ∷ es) = IsEntry e × AllEntries es

-- Every index is below a bound.
abbrev pub IndexBelow : ℕ → List RelocEntry → Type 0
IndexBelow count [] = Unit {0}
IndexBelow count (e ∷ es) = (e.index < count) × IndexBelow count es

-- The bytes that a reader took off the cursor, for a front of it.
pub get_slice_read-append {ℓ} :
    {A : Type ℓ} (f : Reader A) (bs rest : List ℕ) (a : A)
    → f (bs ++ rest) ≡ Read.ok a rest
    → get_slice_read f (bs ++ rest) ≡ Read.ok (a, bs) rest
get_slice_read-append f bs rest a e =
    let lengths = length-append bs rest in
    unfold get_slice_read in
    rw (
      e,
      le→ltb_false (length (bs ++ rest)) (length rest) (omega arith),
      take-append (length (bs ++ rest) - length rest) bs rest (omega arith),
    )

module _ (codec : Leb128) (laws : IsLeb128 codec) where
  values_items :
      (vs : List ℕ)
      → items_bytes (var_u32 codec) (λ v. u32_bytes codec v none) vs ≡ values_bytes codec vs
  unfolding items_bytes values_bytes
  values_items [] = refl
  values_items (v ∷ vs) = ap (λ l. u32_bytes codec v none ++ l) (values_items vs)

  u32_pos : (v : ℕ) → v < 2 ^ 32 → 0 < length (u32_bytes codec v none)
  u32_pos v h =
      IsLeb_pos (u32_bytes codec v none) (u32_bytes-format codec laws v none h (omega arith)).0
    where
      IsLeb_pos : (bs : List ℕ) → IsLeb bs → 0 < length bs
      IsLeb_pos [] l = absurd l
      IsLeb_pos (b ∷ bs) l = omega arith

  values_reads :
      (vs : List ℕ) → All IsU32 vs → AllReads (var_u32 codec) (λ v. u32_bytes codec v none) vs
  values_reads [] h = tt
  values_reads (v ∷ vs) h = (
    (
      λ rest. unfold var_u32 in read_u32_bytes codec laws v none rest h.0 (omega arith),
      u32_pos v h.0,
    ),
    values_reads vs h.1,
  )

  pub collect-values_bytes :
      (vs : List ℕ) → All IsU32 vs → collect (var_u32 codec) (values_bytes codec vs) ≡ Result.ok vs
  collect-values_bytes vs h =
      rw (← values_items vs)
        (collect_items (var_u32 codec) (λ v. u32_bytes codec v none) vs (values_reads vs h))

  entries_items :
      (es : List RelocEntry)
      → items_bytes (parse_entry_naked codec) (entry_bytes codec) es ≡ entries_bytes codec es
  unfolding items_bytes entries_bytes
  entries_items [] = refl
  entries_items (e ∷ es) = ap (λ l. entry_bytes codec e ++ l) (entries_items es)

  entries_reads :
      (es : List RelocEntry)
      → AllEntries es
      → AllReads (parse_entry_naked codec) (entry_bytes codec) es
  entries_reads [] h = tt
  entries_reads (e ∷ es) h = (
    (
      λ rest. parse_entry_naked-entry_bytes codec laws e rest h.0,
      unfold entry_bytes in omega arith,
    ),
    entries_reads es h.1,
  )

  -- The list parser gives back the relocation entries whose bytes stand one after the other, in
  -- order, when their numbers fit and their addends agree with their types.
  pub collect-entries_bytes :
      (es : List RelocEntry)
      → AllEntries es
      → collect (parse_entry_naked codec) (entries_bytes codec es) ≡ Result.ok es
  collect-entries_bytes es h =
      rw (← entries_items es)
        (collect_items (parse_entry_naked codec) (entry_bytes codec) es (entries_reads es h))

  fold_check :
      (count : ℕ) (es : List RelocEntry)
      → IndexBelow count es
      → fold_items (check_index count) es tt ≡ Result.ok (tt {0})
  unfolding fold_items
  fold_check count [] h = refl
  fold_check count (e ∷ es) h = rw (lt→ltb e.index count h.0) (fold_check count es h.1)

  pub check-entries_bytes :
      (count : ℕ) (es : List RelocEntry)
      → AllEntries es
      → IndexBelow count es
      → for_all (parse_entry_naked codec) (check_index count) (entries_bytes codec es) tt
        ≡ Result.ok tt
  check-entries_bytes count es h k = rw (← entries_items es) (
      for_all_items (parse_entry_naked codec) (entry_bytes codec) (check_index count) es tt
        (entries_reads es h)
      ∙ fold_check count es k)

  pub skip-entries_bytes :
      (es : List RelocEntry) (rest : List ℕ)
      → AllEntries es
      → skip_entries codec (length es) (entries_bytes codec es ++ rest) ≡ Read.ok tt rest
  unfolding entries_bytes skip_entries
  skip-entries_bytes [] rest h = refl
  skip-entries_bytes (e ∷ es) rest h =
      let after = entries_bytes codec es ++ rest in
      rw (append_assoc (entry_bytes codec e) (entries_bytes codec es) rest, parse_one e after h.0)
        (skip-entries_bytes es rest h.1)
    where
      parse_one :
          (e : RelocEntry) (after : List ℕ)
          → IsEntry e
          → parse_entry codec (entry_bytes codec e ++ after) ≡ Read.ok e after
      parse_one e after h =
          unfold parse_entry parse in
          lookahead_ok (parse_entry_naked codec) (entry_bytes codec e ++ after) after e
            (parse_entry_naked-entry_bytes codec laws e after h)
