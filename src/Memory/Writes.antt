-- ===== src/Memory/Writes.antt =====
-- Writes to a guest's memory by src/marshal-host/src/lib.rs, in a memory that is split at their places.
use crucible_rt.Prelude.{
  ℕ, zero, suc, ◌+◌, ◌^◌, ◌≤◌, ◌<◌, ◌≡◌, refl, ap, sym, ◌∙◌, arith, List, [], ◌∷◌, ◌++◌, length,
  take, drop, none, some, length-append, take-append, drop-append, append_assoc, lt→ltb,
  le→ltb_false, All, ltb-cases, inl, inr, length-drop,
}
use crucible_rt.Memory.{
  get_from, get_to, load_range, write_range_mut, all_written, write_slice_from, write_slice,
  checked_add,
}

-- A range that the memory has is loaded, and a range that reaches beyond it is refused.
pub load_range_lem :
    (mem : List ℕ) (base len : ℕ)
    → (base + len ≤ length mem → load_range mem base len ≡ some (take len (drop base mem)))
      × (length mem < base + len → load_range mem base len ≡ none)
unfolding load_range get_from get_to
load_range_lem mem base len = (
  λ h. rw (
    le→ltb_false (length mem) base (omega arith),
    load_range,
    le→ltb_false (length (drop base mem)) len (omega (arith, length-drop base mem)),
  ),
  λ h. elim (ltb-cases (length mem) base) [
    | inl (e, lt) ↦ rw (e, load_range)
    | inr (e, le) ↦
        rw
          (e, load_range, lt→ltb (length (drop base mem)) len (omega (arith, length-drop base mem)))
  ],
)

module _ (before old after : List ℕ) where
  pub load_range-split :
      load_range (before ++ (old ++ after)) (length before) (length old) ≡ some old
  load_range-split =
      let mem = before ++ (old ++ after) in
      (load_range_lem mem (length before) (length old)).0
        (omega (arith, length-append before (old ++ after), length-append old after))
      ∙ ap (λ l. some (take (length old) l))
          (drop-append (length before) before (old ++ after) refl)
      ∙ ap some (take-append (length old) old after refl)

  -- A write of fewer than 2^32 bytes replaces the bytes of its range by as many others and leaves
  -- the bytes on both sides.
  pub write_range_mut-split :
      (base : ℕ) (data_ : List ℕ)
      → base ≡ length before
      → length data_ ≡ length old
      → length data_ < 2 ^ 32
      → write_range_mut (before ++ (old ++ after)) base data_ ≡ some (before ++ (data_ ++ after))
  write_range_mut-split base data_ e same small =
      let mem = before ++ (old ++ after) in
      let loaded : load_range mem base (length data_) ≡ some old =
        ap (λ (n : ℕ). load_range mem n (length data_)) e
        ∙ ap (λ (n : ℕ). load_range mem (length before) n) same
        ∙ load_range-split in
      let rest : drop (base + length data_) mem ≡ after =
        ap (λ l. drop (base + length data_) l) (sym (append_assoc before old after))
        ∙ drop-append (base + length data_) (before ++ old) after
            (omega (arith, length-append before old)) in
      unfold write_range_mut in
      rw (
        lt→ltb (length data_) (2 ^ 32) small,
        loaded,
        write_range_mut,
        take-append base before (old ++ after) e,
        rest,
      )

-- The objects one after the other.
unfoldable pub flat_items : List (List ℕ) → List ℕ
flat_items [] = []
flat_items (item ∷ items) = item ++ flat_items items

module _ (size : ℕ) where
  abbrev pub HasSize : List ℕ → Type 0
  HasSize item = length item ≡ size

  -- A part of a range as long as the first object.
  front-split : (old : List ℕ) (n : ℕ) → n ≤ length old → length (take n old) ≡ n
  front-split old zero h = refl
  front-split [] (suc n) h = absurd (omega arith)
  front-split (b ∷ old) (suc n) h = omega (arith, front-split old n (omega arith))

  rest-split : (old : List ℕ) (n : ℕ) → take n old ++ drop n old ≡ old
  rest-split old zero = refl
  rest-split [] (suc n) = refl
  rest-split (b ∷ old) (suc n) = ap (λ l. b ∷ l) (rest-split old n)

  write_slice_step :
      (item : List ℕ) (items : List (List ℕ)) (mem mem' : List ℕ) (offset count : ℕ)
      → write_range_mut mem offset item ≡ some mem'
      → offset + size < 2 ^ 32
      → write_slice_from size mem offset count (item ∷ items)
        ≡ write_slice_from size mem' (offset + size) (count + 1) items
  write_slice_step item items mem mem' offset count e fits =
      let added : checked_add offset size ≡ some (offset + size) =
        unfold checked_add in rw (lt→ltb (offset + size) (2 ^ 32) fits) in
      unfold write_slice_from in rw (e, write_slice_from, added, write_slice_from)

  write_slice_from-split :
      (items : List (List ℕ)) (before old after : List ℕ) (offset count : ℕ)
      → All HasSize items
      → offset ≡ length before
      → length old ≡ length (flat_items items)
      → offset + length (flat_items items) < 2 ^ 32
      → write_slice_from size (before ++ (old ++ after)) offset count items
        ≡ all_written (before ++ (flat_items items ++ after)) (count + length items)
  unfolding flat_items
  write_slice_from-split [] before [] after offset count h e same fits =
      unfold write_slice_from in ap (all_written (before ++ after)) (omega arith)
  write_slice_from-split [] before (b ∷ old) after offset count h e same fits = absurd (omega arith)
  write_slice_from-split (item ∷ items) before old after offset count h e same fits =
      let first = take size old in
      let later = drop size old in
      let lengths = length-append item (flat_items items) in
      let taken = front-split old size (omega (arith, h.0)) in
      let mem : before ++ (old ++ after) ≡ before ++ (first ++ (later ++ after)) =
        ap (λ l. before ++ l)
          (ap (λ l. l ++ after) (sym (rest-split old size)) ∙ append_assoc first later after) in
      let written =
        write_range_mut-split before first (later ++ after) offset item e (omega (arith, h.0))
          (omega (arith, h.0)) in
      let next =
        write_slice_from-split items (before ++ item) later after (offset + size) (count + 1) h.1
          (omega (arith, length-append before item, h.0)) (omega (arith, length-drop size old, h.0))
          (omega (arith, h.0)) in
      ap (λ l. write_slice_from size l offset count (item ∷ items)) mem
      ∙ write_slice_step item items (before ++ (first ++ (later ++ after)))
          (before ++ (item ++ (later ++ after))) offset count written (omega (arith, h.0))
      ∙ ap (λ l. write_slice_from size l (offset + size) (count + 1) items)
          (sym (append_assoc before item (later ++ after)))
      ∙ next
      ∙ ap (λ (n : ℕ). all_written ((before ++ item) ++ (flat_items items ++ after)) n)
          (omega arith)
      ∙ ap (λ l. all_written l (count + suc (length items)))
          (append_assoc before item (flat_items items ++ after)
            ∙ ap (λ l. before ++ l) (sym (append_assoc item (flat_items items) after)))

  pub write_slice-split :
      (items : List (List ℕ)) (before old after : List ℕ) (base : ℕ)
      → All HasSize items
      → base ≡ length before
      → length old ≡ length (flat_items items)
      → base + length (flat_items items) < 2 ^ 32
      → write_slice size (before ++ (old ++ after)) base items
        ≡ all_written (before ++ (flat_items items ++ after)) (length items)
  write_slice-split items before old after base h e same fits =
      unfold write_slice in
      write_slice_from-split items before old after base 0 h e same fits
      ∙ ap (λ (n : ℕ). all_written (before ++ (flat_items items ++ after)) n) (omega arith)
