-- ===== src/Splitter/Localise.antt =====
-- The relocations of a function in src/wasmall/src/splitter.rs become those of its relabelled places.
use crucible_rt.Prelude.{
  ℕ, ◌+◌, ◌^◌, ◌<◌, ◌≡◌, ap, sym, ◌∙◌, arith, List, [], ◌∷◌, ◌++◌, length, length-append,
  append_assoc, append-nil, get_elem?-lt, lt→ltb, le→ltb_false,
}
use mathlib.Core.Option
use crucible_rt.Leb.{Leb128, IsLeb128}
use crucible_rt.Result.{ok}
use crucible_rt.Reloc.{RelocEntry}
use crucible_rt.Rewrite.Layout.{slice_rest}
use crucible_rt.Scalar.{rewrite_kind, with_value, as_u32_neg_offset}
use crucible_rt.Scalar.Field.{read-Holds}
use crucible_rt.Coder.Site.{Site, source, entries, entry_at, over_sites}
use crucible_rt.Splitter.{checked_sub}
use crucible_rt.Splitter.Functions.{LocalMap, Locals, localise_one, localise}
use crucible_rt.Splitter.Symbols.{Bounded, intern, local_symbol-intern}
use crucible_rt.Splitter.Places.{IsPlace, AllPlaces, base_of, relabel, as_u32-with_value, facts}

module _ (codec : Leb128) (laws : IsLeb128 codec) (start : ℕ) where
  localise_one_place :
      (pre : List ℕ) (s : Site) (rest : List ℕ) (st : Locals)
      → Bounded (length st.local_relocation_values) st.sym_map
      → IsPlace s
      → length st.local_relocation_values + 1 < 2 ^ 32
      → let r = intern s.index (base_of s) st.sym_map st.local_relocation_values in
        localise_one codec
          (pre ++ (s.before ++ (s.bytes ++ rest)))
          start
          (entry_at (start + length pre) s)
          st
        ≡ ok (record {
          local_relocations =
              st.local_relocations ++ (entry_at (length pre) (record s { index = r.0 }) ∷ []);
          sym_map = r.1.0;
          local_relocation_values = r.1.1;
        })
  localise_one_place pre s rest st b h small =
      let at : checked_sub (start + length pre + length s.before) start
          ≡ ok (length pre + length s.before) =
        unfold checked_sub in
        rw (le→ltb_false (start + length pre + length s.before) start (omega arith))
          (ap ok (omega arith)) in
      let here =
        slice_rest (pre ++ s.before) (s.bytes ++ rest) (length pre + length s.before)
          (sym (length-append pre s.before)) in
      let value : as_u32_neg_offset (with_value (rewrite_kind s.ty) s.val)
            (Option.get_or s.addend 0)
          ≡ base_of s =
        unfold as_u32_neg_offset base_of in rw as_u32-with_value in
      let (chosen, one) =
        local_symbol-intern s.index (base_of s) st.sym_map st.local_relocation_values b in
      let r = intern s.index (base_of s) st.sym_map st.local_relocation_values in
      let fits : r.0 < 2 ^ 32 =
        omega (arith, one.one_more, get_elem?-lt r.1.1 r.0 (base_of s) one.known) in
      unfold localise_one in
      rw (
        at,
        rw append_assoc at here,
        read-Holds codec laws (rewrite_kind s.ty) s.bytes rest s.val h.holds,
        value,
        chosen,
        lt→ltb r.0 (2 ^ 32) fits,
      )

  localise-cons :
      (data_ : List ℕ) (reloc : RelocEntry) (relocs : List RelocEntry) (st st' : Locals)
      → localise_one codec data_ start reloc st ≡ ok st'
      → localise codec data_ start (reloc ∷ relocs) st ≡ localise codec data_ start relocs st'
  localise-cons data_ reloc relocs st st' e = unfold localise in rw e

  -- The relocations of a function become those of its relabelled places.
  pub localise-entries :
      (pre : List ℕ) (ss : List Site) (tail : List ℕ) (out : List RelocEntry) (m : LocalMap)
      (values : List ℕ)
      → Bounded (length values) m
      → AllPlaces ss
      → length values + length ss < 2 ^ 32
      → localise codec
          (pre ++ source ss tail)
          start
          (entries (start + length pre) ss)
          (record { local_relocations = out; sym_map = m; local_relocation_values = values })
        ≡ ok (record {
          local_relocations = out ++ entries (length pre) (relabel m values ss).0;
          sym_map = (relabel m values ss).1.0;
          local_relocation_values = (relabel m values ss).1.1;
        })
  unfolding source entries over_sites relabel
  localise-entries pre [] tail out m values b h small =
      unfold localise in
      ap (λ l. ok (record { local_relocations = l; sym_map = m; local_relocation_values = values }))
        (sym (append-nil out))
  localise-entries pre (s ∷ ss) tail out m values b h small =
      let r = intern s.index (base_of s) m values in
      let one = facts m values b s h.0 in
      let rest = source ss tail in
      let data_ = pre ++ (s.before ++ (s.bytes ++ rest)) in
      let place = s.before ++ s.bytes in
      let st : Locals = record {
        local_relocations = out;
        sym_map = m;
        local_relocation_values = values;
      } in
      let head = entry_at (length pre) (record s { index = r.0 }) in
      let next = start + length pre + length s.before + length s.bytes in
      let lengths = length-append pre place in
      let regroup : (pre ++ place) ++ rest ≡ data_ =
        append_assoc pre place rest ∙ ap (λ l. pre ++ l) (append_assoc s.before s.bytes rest) in
      let here : start + length (pre ++ place) ≡ next =
        omega (arith, length-append s.before s.bytes) in
      let there : length (pre ++ place) ≡ length pre + length s.before + length s.bytes =
        omega (arith, length-append s.before s.bytes) in
      let more =
        localise-entries (pre ++ place) ss tail (out ++ (head ∷ [])) r.1.0 r.1.1 one.bounded h.1
          (omega (arith, one.one_more)) in
      localise-cons data_ (entry_at (start + length pre) s) (entries next ss) st
        (record {
          local_relocations = out ++ (head ∷ []);
          sym_map = r.1.0;
          local_relocation_values = r.1.1;
        })
        (localise_one_place pre s rest st b h.0 (omega arith))
      ∙ (rw (regroup, here, there, append_assoc out (head ∷ [])) at more)
