-- ===== src/Coder/Blob.antt =====
-- What `push_blob` of src/wasmall/src/coder.rs writes for a blob.
use crucible_rt.Prelude.{
  ℕ, ◌+◌, ◌%◌, ◌^◌, ◌<◌, ◌≡◌, refl, ap, sym, ◌∙◌, arith, List, [], ◌∷◌, ◌++◌, length, length-append,
  append_assoc, append-nil, none, map, ==_iff,
}
use mathlib.Core.Option
use crucible_rt.Leb.{Leb128, IsLeb128}
use crucible_rt.Result.{Result}
use crucible_rt.Reader.{Read}
use crucible_rt.Writer.{BufWriter, vec_writer, len_counter, write_var_u32}
use crucible_rt.Writer.Padding.{IsBufWriter, vec_writer-IsBufWriter, len_counter-IsBufWriter}
use crucible_rt.Writer.Var.{u32_bytes, write_u32-extends}
use crucible_rt.Reloc.{RelocEntry}
use crucible_rt.Scalar.{
  ScalarRewriteKind, rewrite_kind, with_value, with_zeroed, wrapping_add, as_u32, var_u32,
}
use crucible_rt.Scalar.Rewriting.{rewrite-encode}
use crucible_rt.Scalar.Field.{Holds, encode, read-Holds, encode-Holds_zero, Holds-length}
use crucible_rt.Rewrite.{Rewriter, rewrite_relocated, scalar}
use crucible_rt.Rewrite.Layout.{Patch, run, rewrite_relocated-layout}
use crucible_rt.Coder.{entry_rewriter, check_value, write_blob}
use crucible_rt.Coder.Entry.{entry_bytes, write_entry_lem}
use crucible_rt.Coder.Site.{
  Site, IsSite, AllSites, fill, source, zeroed, entry_at, entries, over_sites, map-over_sites,
  length-entries, patches, layout-patches, replacements-patches, patches-AllPatches,
}

-- The entries one after the other.
unfoldable pub entries_bytes : Leb128 → List RelocEntry → List ℕ
entries_bytes codec [] = []
entries_bytes codec (e ∷ es) = entry_bytes codec e ++ entries_bytes codec es

-- A blob: the number of its entries, the entries, and its data with every place zeroed.
unfoldable pub blob_bytes : Leb128 → List Site → List ℕ → List ℕ
blob_bytes codec ss tail =
    u32_bytes codec (length ss) none ++ (entries_bytes codec (entries 0 ss) ++ zeroed codec ss tail)

pub as_u32-with_value : (kind : ScalarRewriteKind) (v : ℕ) → as_u32 (with_value kind v) ≡ v
unfolding as_u32 with_value
as_u32-with_value var_u32 v = refl
as_u32-with_value _ v = refl

module _ (codec : Leb128) (laws : IsLeb128 codec) (values : List ℕ) where
  check_value_lem :
      (offset : ℕ) (s : Site) (rest : List ℕ)
      → IsSite values s
      → check_value codec (entry_at offset s) values (s.bytes ++ rest) ≡ Result.ok tt
  check_value_lem offset s rest h =
      let same = (==_iff s.val (wrapping_add h.base (Option.get_or s.addend 0))).1 (sym h.sum) in
      unfold check_value in
      rw (
        read-Holds codec laws (rewrite_kind s.ty) s.bytes rest s.val h.holds,
        check_value,
        h.known,
        as_u32-with_value (rewrite_kind s.ty) s.val,
        same,
      )

  -- What the first pass does at a place, and the second.
  abbrev pub zero_bytes : Site → List ℕ
  zero_bytes s = encode codec (rewrite_kind s.ty) 0

  abbrev entry_effect : RelocEntry → Site → ℕ → List ℕ → ℕ × List ℕ
  entry_effect e s counter buf = (
    counter + length (zero_bytes s),
    buf ++ entry_bytes codec (record e { offset = counter % 2 ^ 32 }),
  )

  module _ {W C : Type 0} ⦃w : BufWriter W⦄ (writes : IsBufWriter w) where
    pub scalar_patch :
        (kind : ScalarRewriteKind) (bytes : List ℕ) (old val : ℕ)
        → Holds kind bytes old
        → val < 2 ^ 32
        → (writer : W) (cx : C) (rest : List ℕ)
        → scalar codec (with_value kind val) writer cx (bytes ++ rest)
          ≡ Read.ok (w.extend writer (encode codec kind val), cx) rest
    scalar_patch kind bytes old val h small writer cx rest =
        unfold scalar in
        rw (rewrite-encode codec laws writes kind bytes rest old val writer h small)

  entry_patch :
      (offset : ℕ) (s : Site)
      → IsSite values s
      → (counter : ℕ) (buf : List ℕ) (rest : List ℕ)
      → entry_rewriter codec values (entry_at offset s) counter buf (s.bytes ++ rest)
        ≡ Read.ok (entry_effect (entry_at offset s) s counter buf) rest
  entry_patch offset s h counter buf rest =
      let e = entry_at offset s in
      let buf' = buf ++ entry_bytes codec (record e { offset = counter % 2 ^ 32 }) in
      unfold entry_rewriter with_zeroed in
      rw (
        write_entry_lem codec laws e buf counter h.index_fits h.addend_fits,
        check_value_lem offset s rest h,
        scalar_patch len_counter-IsBufWriter (rewrite_kind s.ty) s.bytes s.val 0 h.holds
            (omega arith) counter buf' rest,
      )

  pub zero_length : (s : Site) → IsSite values s → length (zero_bytes s) ≡ length s.bytes
  zero_length s h =
      Holds-length (rewrite_kind s.ty) (zero_bytes s) s.bytes 0 s.val
        (encode-Holds_zero codec laws (rewrite_kind s.ty)) h.holds

  entry_patches : ℕ → List Site → List (Patch ℕ (List ℕ))
  entry_patches = patches (λ s. s.bytes) (λ e s. entry_rewriter codec values e) entry_effect

  -- The counter stands at the offset of each place, since a rewrite keeps the length.
  run_entries :
      (offset counter : ℕ) (ss : List Site) (tail buf : List ℕ)
      → AllSites values ss
      → counter ≡ offset
      → offset + length (source ss tail) < 2 ^ 32
      → (run (entry_patches offset ss) tail counter buf).1
        ≡ buf ++ entries_bytes codec (entries offset ss)
  unfolding run entry_patches patches entries over_sites entries_bytes source
  run_entries offset counter [] tail buf h e small = sym (append-nil buf)
  run_entries offset counter (s ∷ ss) tail buf h e small =
      let next = offset + length s.before + length s.bytes in
      let after = source ss tail in
      let lengths = length-append s.before (s.bytes ++ after) in
      let lengths' = length-append s.bytes after in
      let place : (counter + length s.before) % 2 ^ 32 ≡ offset + length s.before = omega arith in
      let buf' = buf ++ entry_bytes codec (entry_at offset s) in
      let counter' = counter + length s.before + length (zero_bytes s) in
      ap
        (λ (k : ℕ).
          (run (entry_patches next ss) tail counter'
            (buf ++ entry_bytes codec (record (entry_at offset s) { offset = k }))).1)
        place
      ∙ run_entries next counter' ss tail buf' h.1 (omega (arith, zero_length s h.0)) (omega arith)
      ∙ append_assoc buf (entry_bytes codec (entry_at offset s))
          (entries_bytes codec (entries next ss))

  -- The places of a run of scalars get their new values.
  pub run_scalars :
      (f new : Site → List ℕ) (rw_ : RelocEntry → Site → Rewriter (List ℕ) (Unit {0})) (offset : ℕ)
      (ss : List Site) (tail buf : List ℕ)
      → run (patches f rw_ (λ e s out cx. (out ++ new s, cx)) offset ss) tail buf tt
        ≡ (buf ++ fill new ss tail, tt)
  unfolding run patches over_sites
  run_scalars f new rw_ offset [] tail buf = refl
  run_scalars f new rw_ offset (s ∷ ss) tail buf =
      let next = offset + length s.before + length s.bytes in
      run_scalars f new rw_ next ss tail ((buf ++ s.before) ++ new s)
      ∙ ap (λ (l : List ℕ). (l, tt))
          (append_assoc (buf ++ s.before) (new s) (fill new ss tail)
            ∙ append_assoc buf s.before (new s ++ fill new ss tail))

  first_pass :
      (ss : List Site) (tail buf : List ℕ)
      → AllSites values ss
      → rewrite_relocated
          (source ss tail)
          0
          buf
          (map (λ reloc. (reloc.offset, entry_rewriter codec values reloc)) (entries 0 ss))
        ≡ Result.ok (run (entry_patches 0 ss) tail 0 buf)
  unfolding entry_patches source entries
  first_pass ss tail buf h =
      let ps = entry_patches 0 ss in
      let bytes = λ (s : Site). s.bytes in
      let rewriter = λ (e : RelocEntry) (s : Site). entry_rewriter codec values e in
      rw
        (
          map-over_sites {Y = ℕ × Rewriter ℕ (List ℕ)}
              (λ (reloc : RelocEntry). (reloc.offset, entry_rewriter codec values reloc)) (λ e s. e)
              0 ss,
          ← replacements-patches bytes rewriter entry_effect values (λ s k. refl) 0 ss h,
          ← layout-patches bytes rewriter entry_effect 0 ss tail,
        )
        (rewrite_relocated-layout ps tail 0 buf
          (patches-AllPatches bytes rewriter entry_effect values (λ s k. refl) entry_patch 0 ss h))

  module _ (f : Site → List ℕ) (old val : Site → ℕ)
      (holds : (s : Site) → IsSite values s → Holds (rewrite_kind s.ty) (f s) (old s))
      (fits : (s : Site) → IsSite values s → val s < 2 ^ 32) where
    abbrev new_bytes : Site → List ℕ
    new_bytes s = encode codec (rewrite_kind s.ty) (val s)

    abbrev site_rewriter : RelocEntry → Site → Rewriter (List ℕ) (Unit {0})
    site_rewriter e s = scalar codec (with_value (rewrite_kind e.ty) (val s))

    abbrev site_effect : RelocEntry → Site → List ℕ → Unit {0} → List ℕ × Unit {0}
    site_effect e s out cx = (out ++ new_bytes s, cx)

    same_length : (s : Site) → IsSite values s → length (f s) ≡ length s.bytes
    same_length s h =
        Holds-length (rewrite_kind s.ty) (f s) s.bytes (old s) s.val (holds s h) h.holds

    site_patch :
        (offset : ℕ) (s : Site)
        → IsSite values s
        → (out : List ℕ) (cx : Unit {0}) (rest : List ℕ)
        → site_rewriter (entry_at offset s) s out cx (f s ++ rest)
          ≡ Read.ok (site_effect (entry_at offset s) s out cx) rest
    site_patch offset s h =
        scalar_patch vec_writer-IsBufWriter (rewrite_kind s.ty) (f s) (old s) (val s) (holds s h)
          (fits s h)

    -- A pass of scalars over places that hold numbers leaves their new values there.
    pub rewrite_scalars :
        (ss : List Site) (tail buf : List ℕ)
        → AllSites values ss
        → rewrite_relocated
            (fill f ss tail)
            buf
            (tt {0})
            (over_sites (λ e s. (e.offset, site_rewriter e s)) 0 ss)
          ≡ Result.ok (buf ++ fill new_bytes ss tail, tt)
    rewrite_scalars ss tail buf h =
        let ps = patches f site_rewriter site_effect 0 ss in
        rw
          (
            ← replacements-patches f site_rewriter site_effect values same_length 0 ss h,
            ← layout-patches f site_rewriter site_effect 0 ss tail,
          )
          (rewrite_relocated-layout ps tail buf tt
              (patches-AllPatches f site_rewriter site_effect values same_length site_patch 0 ss h)
            ∙ ap Result.ok (run_scalars f new_bytes site_rewriter 0 ss tail buf))

  second_pass :
      (ss : List Site) (tail buf : List ℕ)
      → AllSites values ss
      → rewrite_relocated (source ss tail) buf (tt {0}) (
          map
            (λ reloc. (reloc.offset, scalar codec (with_zeroed (rewrite_kind reloc.ty))))
            (entries 0 ss))
        ≡ Result.ok (buf ++ zeroed codec ss tail, tt)
  unfolding source entries with_zeroed zeroed
  second_pass ss tail buf h =
      rw
        (map-over_sites {Y = ℕ × Rewriter (List ℕ) (Unit {0})}
          (λ (reloc : RelocEntry).
            (reloc.offset, scalar codec (with_zeroed (rewrite_kind reloc.ty))))
          (λ e s. e) 0 ss)
        (rewrite_scalars (λ s. s.bytes) (λ s. s.val) (λ s. 0) (λ s k. k.holds) (λ s k. omega arith)
          ss tail buf h)

  -- For places that lie as their relocations say and hold the values of their indices, fewer than
  -- 2^32 in data below 4 GiB, the blob that `push_blob` writes is the count, the entries and the
  -- data with the places zeroed; no panic is reached.
  pub write_blob_lem :
      (ss : List Site) (tail buf : List ℕ)
      → AllSites values ss
      → length ss < 2 ^ 32
      → length (source ss tail) < 2 ^ 32
      → write_blob codec (entries 0 ss) values (source ss tail) buf
        ≡ Result.ok (buf ++ blob_bytes codec ss tail)
  write_blob_lem ss tail buf h few small =
      let start = buf ++ u32_bytes codec (length ss) none in
      let passed = run (entry_patches 0 ss) tail 0 start in
      let count : length (entries 0 ss) % 2 ^ 32 ≡ length ss = omega (arith, length-entries 0 ss) in
      unfold write_blob write_var_u32 in
      rw
        (
          count,
          write_u32-extends codec laws vec_writer-IsBufWriter buf (length ss) none few,
          first_pass ss tail start h,
          second_pass ss tail passed.1 h,
        )
        (ap Result.ok (
          rw (run_entries 0 0 ss tail start h refl (omega arith))
            (unfold blob_bytes in simp append_assoc)))
