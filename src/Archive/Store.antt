-- ===== src/Archive/Store.antt =====
-- The blobs that `finish` of src/wasmall/src/coder.rs stores, found again by their hashes.
use crucible_rt.Prelude.{
  In, ℕ, zero, suc, ◌+◌, ◌-◌, ◌≤◌, ◌≡◌, refl, ap, sym, ◌∙◌, subst, arith, List, [], ◌∷◌, ◌++◌,
  length, length-append, none, some, inl, inr, if◌then◌else◌, true, false, Bool-cases, Option-cases,
  take, drop, Bool, ltb-cases, le→ltb_false,
}
use mathlib.Core.Option.{some-injective}
use crucible_rt.Result.{ok}
use crucible_rt.Leb.{Leb128}
use crucible_rt.Rewrite.{slice}
use crucible_rt.Rewrite.Layout.{slice_rest}
use crucible_rt.Hashes.{hash_eq, hash_eq→eq, hash_eq_refl}
use crucible_rt.Coder.{WasmallArchive, Range, lookup, insert_vacant}
use crucible_rt.Coder.Push.{Chunk, verbatim, blob}
use crucible_rt.Coder.Finish.{segment_bytes, store, archive_after}

-- A slice stays what it was when the buffer grows.
take-drop_more :
    (n m : ℕ) (xs ys : List ℕ) → m + n ≤ length xs → take n (drop m (xs ++ ys)) ≡ take n (drop m xs)
take-drop_more zero m xs ys h = refl
take-drop_more (suc n) zero [] ys h = absurd (omega arith)
take-drop_more (suc n) zero (x ∷ xs) ys h =
    ap (λ l. x ∷ l) (take-drop_more n zero xs ys (omega arith))
take-drop_more (suc n) (suc m) [] ys h = absurd (omega arith)
take-drop_more (suc n) (suc m) (x ∷ xs) ys h = take-drop_more (suc n) m xs ys (omega arith)

slice_more :
    (xs ys bs : List ℕ) (from to : ℕ) → slice xs from to ≡ ok bs → slice (xs ++ ys) from to ≡ ok bs
unfolding slice
slice_more xs ys bs from to h = elim (ltb-cases to from) [
  | inl (e, lt) ↦ absurd (ground arith)
  | inr (e, le) ↦ elim (ltb-cases (length xs) to) [
    | inl (f, lt) ↦ absurd (ground arith)
    | inr (f, fits) ↦
        rw
          (
            e,
            le→ltb_false (length (xs ++ ys)) to (omega (arith, length-append xs ys)),
            take-drop_more (to - from) from xs ys (omega arith),
          )
          (rw (e, f) at h)
  ]
]

lookup_old :
    (h : List ℕ) (r : Range) (m n : List (List ℕ × Range))
    → lookup h m ≡ some r
    → lookup h (m ++ n) ≡ some r
unfolding lookup
lookup_old h r [] n e = cc
lookup_old h r ((j, s) ∷ m) n e = elim (Bool-cases (hash_eq j h)) [
  | inl t ↦ rw t (rw t at e)
  | inr t ↦ rw t (lookup_old h r m n (rw t at e))
]

lookup_new :
    (h k : List ℕ) (r : Range) (m : List (List ℕ × Range))
    → lookup h m ≡ none
    → lookup h (m ++ ((k, r) ∷ [])) ≡ (if hash_eq k h then some r else none)
unfolding lookup
lookup_new h k r [] e = refl
lookup_new h k r ((j, s) ∷ m) e = elim (Bool-cases (hash_eq j h)) [
  | inl t ↦ cc (rw t at e)
  | inr t ↦ rw t (lookup_new h k r m (rw t at e))
]

-- The blobs of the chunks.
unfoldable pub blobs : List Chunk → List (List ℕ)
blobs [] = []
blobs (verbatim bytes ∷ cs) = blobs cs
blobs (blob body concretes ∷ cs) = body ∷ blobs cs

-- The hash tells the blobs of a module apart.
abbrev pub NoCollision : (List ℕ → List ℕ) → List (List ℕ) → Type 0
NoCollision hash bs = (x y : List ℕ) → In x bs → In y bs → hash x ≡ hash y → x ≡ y

-- The archive holds the bytes under the hash.
abbrev pub Stored : WasmallArchive → List ℕ → List ℕ → Type 0
Stored a h bytes =
    (r : Range) × (lookup h a.hashes ≡ some r) × (slice a.blob_buf r.start r.end ≡ ok bytes)

abbrev with_out : Leb128 → (List ℕ → List ℕ) → Chunk → WasmallArchive → WasmallArchive
with_out codec hash c a = record a { out_buf = a.out_buf ++ segment_bytes codec hash c }

module _ (hash : List ℕ → List ℕ) (all : List (List ℕ)) (distinct : NoCollision hash all) where
  -- Whatever the map holds is one of the module's blobs, under its own hash.
  abbrev Sound : WasmallArchive → Type 0
  Sound a =
      (h : List ℕ) (r : Range)
      → lookup h a.hashes ≡ some r
      → (bytes : List ℕ) × In bytes all
        × (hash bytes ≡ h)
        × (slice a.blob_buf r.start r.end ≡ ok bytes)

  insert_old :
      (body : List ℕ) (a : WasmallArchive) (r : Range)
      → lookup (hash body) a.hashes ≡ some r
      → insert_vacant (hash body) body a ≡ a
  insert_old body a r e = unfold insert_vacant in rw (e, insert_vacant)

  -- The archive after a blob under a vacant hash.
  abbrev appended : List ℕ → WasmallArchive → WasmallArchive
  appended body a = record a {
    blob_buf = a.blob_buf ++ body;
    hashes =
        a.hashes
        ++ ((hash body, record { start = length a.blob_buf; end = length (a.blob_buf ++ body) })
            ∷ []);
  }

  insert_new :
      (body : List ℕ) (a : WasmallArchive)
      → lookup (hash body) a.hashes ≡ none
      → insert_vacant (hash body) body a ≡ appended body a
  insert_new body a e = unfold insert_vacant in rw (e, insert_vacant)

  abbrev fresh : List ℕ → WasmallArchive → Range
  fresh body a = record { start = length a.blob_buf; end = length (a.blob_buf ++ body) }

  slice-fresh :
      (body : List ℕ) (a : WasmallArchive)
      → slice (a.blob_buf ++ body) (fresh body a).start (fresh body a).end ≡ ok body
  slice-fresh body a = slice_rest a.blob_buf body (length a.blob_buf) refl

  -- A key found after the append is an old one, or the new blob's.
  appended_new :
      (body h : List ℕ) (a : WasmallArchive) (r : Range) (b : Bool)
      → hash_eq (hash body) h ≡ b
      → (if b then some (fresh body a) else none) ≡ some r
      → (hash body ≡ h) × (slice (a.blob_buf ++ body) r.start r.end ≡ ok body)
  appended_new body h a r true t e = (
    hash_eq→eq (hash body) h t,
    subst (λ (q : Range). slice (a.blob_buf ++ body) q.start q.end ≡ ok body)
        (some-injective (fresh body a) r e) (slice-fresh body a),
  )
  appended_new body h a r false t e = cc

  appended-Sound :
      (body : List ℕ) (a : WasmallArchive)
      → In body all
      → Sound a
      → lookup (hash body) a.hashes ≡ none
      → Sound (appended body a)
  appended-Sound body a m s vacant h r e = elim (Option-cases (lookup h a.hashes)) [
    | inr (r', old) ↦
        let (bytes, member, named, bs) = s h r' old in
        let same =
          some-injective r' r
            (sym (lookup_old h r' a.hashes ((hash body, fresh body a) ∷ []) old) ∙ e) in
        (
          bytes,
          member,
          named,
          subst (λ (q : Range). slice (a.blob_buf ++ body) q.start q.end ≡ ok bytes) same
              (slice_more a.blob_buf body bytes r'.start r'.end bs),
        )
    | inl new ↦
        let found = sym (lookup_new h (hash body) (fresh body a) a.hashes new) ∙ e in
        let (named, bs) = appended_new body h a r (hash_eq (hash body) h) refl found in
        (body, m, named, bs)
  ]

  insert-Sound :
      (body : List ℕ) (a : WasmallArchive)
      → In body all
      → Sound a
      → Sound (insert_vacant (hash body) body a)
  insert-Sound body a m s = elim (Option-cases (lookup (hash body) a.hashes)) [
    | inr (r, e) ↦ subst Sound (sym (insert_old body a r e)) s
    | inl e ↦ subst Sound (sym (insert_new body a e)) (appended-Sound body a m s e)
  ]

  -- A blob that was inserted is found, whether it was there or not.
  insert-Stored :
      (body : List ℕ) (a : WasmallArchive)
      → In body all
      → Sound a
      → Stored (insert_vacant (hash body) body a) (hash body) body
  insert-Stored body a m s = elim (Option-cases (lookup (hash body) a.hashes)) [
    | inr (r, e) ↦
        let (bytes, member, named, bs) = s (hash body) r e in
        let same = distinct bytes body member m named in
        subst (λ (q : WasmallArchive). Stored q (hash body) body) (sym (insert_old body a r e))
          (r, e, subst (λ l. slice a.blob_buf r.start r.end ≡ ok l) same bs)
    | inl e ↦
        let found =
          lookup_new (hash body) (hash body) (fresh body a) a.hashes e
          ∙ ap (λ (b : Bool). if b then some (fresh body a) else none) (hash_eq_refl (hash body)) in
        subst (λ (q : WasmallArchive). Stored q (hash body) body) (sym (insert_new body a e))
          (fresh body a, found, slice-fresh body a)
  ]

  -- What is stored stays stored.
  insert_keeps :
      (body h bytes : List ℕ) (a : WasmallArchive)
      → Stored a h bytes
      → Stored (insert_vacant (hash body) body a) h bytes
  insert_keeps body h bytes a (r, found, bs) = elim (Option-cases (lookup (hash body) a.hashes)) [
    | inr (r', e) ↦
        subst (λ (q : WasmallArchive). Stored q h bytes) (sym (insert_old body a r' e))
          (r, found, bs)
    | inl e ↦
        subst (λ (q : WasmallArchive). Stored q h bytes) (sym (insert_new body a e))
          (
            r,
            lookup_old h r a.hashes ((hash body, fresh body a) ∷ []) found,
            slice_more a.blob_buf body bytes r.start r.end bs,
          )
  ]

  -- From an archive whose map holds only blobs of a set under their own hashes, with a hash that
  -- tells the set apart, storing chunks with blobs of the set leaves every one of them found under
  -- its hash with its bytes, and every blob that was stored before.
  pub archive_after-Stored :
      (codec : Leb128) (cs : List Chunk) (a : WasmallArchive)
      → ((x : List ℕ) → In x (blobs cs) → In x all)
      → Sound a
      → ((x : List ℕ) → In x (blobs cs) → Stored (archive_after codec hash cs a) (hash x) x)
        × ((h x : List ℕ) → Stored a h x → Stored (archive_after codec hash cs a) h x)
  unfolding archive_after store blobs
  archive_after-Stored codec [] a sub s = (λ x m. absurd m, λ h x k. k)
  archive_after-Stored codec (verbatim bytes ∷ cs) a sub s =
      archive_after-Stored codec cs (with_out codec hash (verbatim bytes) a) sub s
  archive_after-Stored codec (blob body concretes ∷ cs) a sub s =
      let a' = with_out codec hash (blob body concretes) a in
      let next = insert_vacant (hash body) body a' in
      let here = sub body (inl refl) in
      let (later, kept) =
        archive_after-Stored codec cs next (λ x m. sub x (inr m)) (insert-Sound body a' here s) in
      let first = kept (hash body) body (insert-Stored body a' here s) in
      (
        λ x m. elim m [
          | inl e ↦ subst (λ y. Stored (archive_after codec hash cs next) (hash y) y) (sym e) first
          | inr more ↦ later x more
        ],
        λ h x k. kept h x (insert_keeps body h x a' k),
      )
