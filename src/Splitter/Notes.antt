-- ===== src/Splitter/Notes.antt =====
-- What the first pass of src/wasmall/src/splitter.rs collects from the custom sections of a module.
use crucible_rt.Prelude.{
  ℕ, ◌+◌, ◌^◌, ◌<◌, ◌≡◌, ◌≢◌, refl, ap, sym, ◌∙◌, List, [], ◌∷◌, ◌++◌, length, Option, none, some,
  ◌==◌, if◌then◌else◌, get_elem?, Bool-cases, ==_iff, inl, inr, true, false, map, lt→ltb,
}
use mathlib.Core.Option
use crucible_rt.Leb.{IsLeb128}
use crucible_rt.Result.{Result, ok, ◌>>=◌}
use crucible_rt.Writer.Var.{u32_bytes}
use crucible_rt.Reloc.{RelocEntry}
use crucible_rt.Archive.Lists.{AllEntries}
use crucible_rt.Coder.{Range}
use crucible_rt.Wasm.{
  Payload, code_section_entry, Linking, symbol_table, other_subsection, SymbolInfo, data_symbol,
  other_symbol,
}
use crucible_rt.Splitter.{
  Crates, Maps, DataMap, update_at, add_linking, add_symbol, add_subsection, try_each, starts_with,
  linking_name, reloc_prefix, first_pass_payload, first_pass_loop,
}
use crucible_rt.Splitter.Blobs.{Func}
use crucible_rt.Splitter.Pushes.{ranges_of}
use crucible_rt.Splitter.Sections.{Section, custom, plain, code, code_content, payloads_at}
use crucible_rt.Splitter.Relocs.{
  reloc_section_bytes, add_relocs-reloc_section_bytes, relocs_at, update_at_same, update_at_other,
  Agree,
}

-- A symbol and a subsection that raise no error: a defined data symbol ends below 4 GiB.
abbrev pub AllSymbols : List (Result SymbolInfo) → Type 0
AllSymbols [] = Unit {0}
AllSymbols (Result.ok (data_symbol (some d)) ∷ ss) = (d.offset + d.size < 2 ^ 32) × AllSymbols ss
AllSymbols (Result.ok (data_symbol none) ∷ ss) = AllSymbols ss
AllSymbols (Result.ok other_symbol ∷ ss) = AllSymbols ss
AllSymbols (Result.err e ∷ ss) = ⊥
AllSymbols (Result.panic ∷ ss) = ⊥
AllSymbols (Result.stuck ∷ ss) = ⊥

abbrev pub AllSubsections : List (Result Linking) → Type 0
AllSubsections [] = Unit {0}
AllSubsections (Result.ok (symbol_table stab) ∷ ss) = AllSymbols stab × AllSubsections ss
AllSubsections (Result.ok other_subsection ∷ ss) = AllSubsections ss
AllSubsections (Result.err e ∷ ss) = ⊥
AllSubsections (Result.panic ∷ ss) = ⊥
AllSubsections (Result.stuck ∷ ss) = ⊥

symbols_lem :
    (stab : List (Result SymbolInfo)) (s : ℕ × DataMap)
    → AllSymbols stab
    → (s' : ℕ × DataMap) × (try_each add_symbol stab s ≡ ok s')
unfolding try_each add_symbol
symbols_lem [] s h = (s, refl)
symbols_lem (Result.ok (data_symbol (some d)) ∷ ss) s h =
    rw (lt→ltb (d.offset + d.size) (2 ^ 32) h.0) (symbols_lem ss _ h.1)
symbols_lem (Result.ok (data_symbol none) ∷ ss) s h = symbols_lem ss _ h
symbols_lem (Result.ok other_symbol ∷ ss) s h = symbols_lem ss _ h
symbols_lem (Result.err e ∷ ss) s h = absurd h
symbols_lem (Result.panic ∷ ss) s h = absurd h
symbols_lem (Result.stuck ∷ ss) s h = absurd h

subsections_lem :
    (subs : List (Result Linking)) (m : DataMap)
    → AllSubsections subs
    → (m' : DataMap) × (try_each add_subsection subs m ≡ ok m')
unfolding try_each add_subsection
subsections_lem [] m h = (m, refl)
subsections_lem (Result.ok (symbol_table stab) ∷ ss) m h =
    let (s, e) = symbols_lem stab (0, m) h.0 in
    let (m', more) = subsections_lem ss s.1 h.1 in
    (m', ap (λ r. r >>= (λ s'. ok s'.1) >>= try_each add_subsection ss) e ∙ more)
subsections_lem (Result.ok other_subsection ∷ ss) m h = subsections_lem ss m h
subsections_lem (Result.err e ∷ ss) m h = absurd h
subsections_lem (Result.panic ∷ ss) m h = absurd h
subsections_lem (Result.stuck ∷ ss) m h = absurd h

abbrev pub Note : Type 0
Note = ℕ × List RelocEntry

-- The relocation sections of a module in order, each with its target and entries. Its linking sections
-- raise no error, and every other section is passed by.
pub data Notes (crates : Crates) : List Section → List Note → Type 0 where
  done : Notes crates [] []
  relocs :
      (header name content : List ℕ) (data_offset target : ℕ) (es : List RelocEntry)
      (ss : List Section) (ns : List Note)
      → starts_with name reloc_prefix ≡ true
      → target < 2 ^ 32
      → length es < 2 ^ 32
      → AllEntries es
      → Notes crates ss ns
      → Notes crates
          (custom header name (reloc_section_bytes crates.codec target es) data_offset content ∷ ss)
          ((target, es) ∷ ns)
  linking :
      (header data_ content : List ℕ) (data_offset : ℕ) (subs : List (Result Linking))
      (ss : List Section) (ns : List Note)
      → crates.parser.subsections data_ data_offset ≡ ok subs
      → AllSubsections subs
      → Notes crates ss ns
      → Notes crates (custom header linking_name data_ data_offset content ∷ ss) ns
  other :
      (header name data_ content : List ℕ) (data_offset : ℕ) (ss : List Section) (ns : List Note)
      → starts_with name linking_name ≡ false
      → starts_with name reloc_prefix ≡ false
      → Notes crates ss ns
      → Notes crates (custom header name data_ data_offset content ∷ ss) ns
  plain_section :
      (header content : List ℕ) (id : ℕ) (ss : List Section) (ns : List Note)
      → Notes crates ss ns
      → Notes crates (plain header id content ∷ ss) ns
  code_section :
      (header : List ℕ) (count : ℕ) (fs : List Func) (ss : List Section) (ns : List Note)
      → Notes crates ss ns
      → Notes crates (code header count fs ∷ ss) ns

-- The vectors after those sections, and the one of a section among them.
unfoldable pub add_notes : List Note → List (List RelocEntry) → List (List RelocEntry)
add_notes [] maps = maps
add_notes ((target, es) ∷ ns) maps = add_notes ns (update_at target (λ old. old ++ es) maps)

unfoldable pub noted : ℕ → List Note → Option (List RelocEntry) → Option (List RelocEntry)
noted i [] o = o
noted i ((target, es) ∷ ns) o =
    noted i ns (if target == i then some (Option.get_or o [] ++ es) else o)

Agree-trans : (a b c : Option (List RelocEntry)) → Agree a b → Agree b c → Agree a c
Agree-trans none none c h k = k
Agree-trans none (some r) none h k = absurd k
Agree-trans none (some r) (some s) h k = k ∙ h
Agree-trans (some r) none c h k = absurd h
Agree-trans (some r) (some s) none h k = absurd k
Agree-trans (some r) (some s) (some t) h k = k ∙ h

pub get_or-Agree :
    (a b : Option (List RelocEntry)) → Agree a b → Option.get_or b [] ≡ Option.get_or a []
get_or-Agree none none h = refl
get_or-Agree none (some r) h = h
get_or-Agree (some r) none h = absurd h
get_or-Agree (some r) (some s) h = h

pub noted-Agree :
    (i : ℕ) (ns : List Note) (o : Option (List RelocEntry)) (maps : List (List RelocEntry))
    → Agree o (get_elem? maps i)
    → Agree (noted i ns o) (get_elem? (add_notes ns maps) i)
unfolding noted add_notes
noted-Agree i [] o maps h = h
noted-Agree i ((target, es) ∷ ns) o maps h = elim (Bool-cases (target == i)) [
  | inl e ↦
      let same = (==_iff target i).0 e in
      let maps' = update_at target (λ old. old ++ es) maps in
      let here : get_elem? maps' i ≡ some (Option.get_or o [] ++ es) =
        ap (get_elem? maps') (sym same)
        ∙ update_at_same target (λ old. old ++ es) maps
        ∙ ap (λ (j : ℕ). some (relocs_at j maps ++ es)) same
        ∙ ap (λ l. some (l ++ es)) (get_or-Agree o (get_elem? maps i) h) in
      rw e (noted-Agree i ns (some (Option.get_or o [] ++ es)) maps' (rw here refl))
  | inr e ↦
      let maps' = update_at target (λ old. old ++ es) maps in
      let differ : target ≢ i = λ same. let t = (==_iff target i).1 same in cc in
      rw e (
        noted-Agree i ns o maps' (
          Agree-trans o (get_elem? maps i) (get_elem? maps' i) h
            (update_at_other target i (λ old. old ++ es) maps differ)))
]

reloc_not_linking :
    (name : List ℕ) → starts_with name reloc_prefix ≡ true → starts_with name linking_name ≡ false
unfolding starts_with
reloc_not_linking [] h = cc
reloc_not_linking (c ∷ name) h = elim (Bool-cases (c == b'l')) [
  | inl e ↦
      let same = (==_iff c b'l').0 e in
      let h' : starts_with (b'l' ∷ name) reloc_prefix ≡ true = rw same at h in cc
  | inr e ↦ rw e
]

module _ (crates : Crates) (laws : IsLeb128 crates.codec) where
  first_pass_loop-entries :
      (rs : List Range) (ps : List Payload) (maps : Maps)
      → first_pass_loop crates (map code_section_entry rs ++ ps) maps
        ≡ first_pass_loop crates ps maps
  unfolding first_pass_loop first_pass_payload
  first_pass_loop-entries [] ps maps = refl
  first_pass_loop-entries (r ∷ rs) ps maps = first_pass_loop-entries rs ps maps

  add_linking_lem :
      (data_ : List ℕ) (data_offset : ℕ) (subs : List (Result Linking)) (maps : Maps) (m : DataMap)
      → crates.parser.subsections data_ data_offset ≡ ok subs
      → try_each add_subsection subs maps.data_seg_map ≡ ok m
      → add_linking crates data_ data_offset maps ≡ ok (record maps { data_seg_map = m })
  unfolding add_linking
  add_linking_lem data_ data_offset subs maps m parsed e = rw (parsed, e)

  pub first_pass_loop-Notes :
      (ss : List Section) (ns : List Note) (offset : ℕ) (maps : Maps)
      → Notes crates ss ns
      → (m : DataMap) × (first_pass_loop crates (payloads_at crates.codec offset ss) maps
          ≡ ok (record { orig_reloc_map = add_notes ns maps.orig_reloc_map; data_seg_map = m }))
  unfolding first_pass_loop payloads_at add_notes first_pass_payload
  first_pass_loop-Notes _ _ offset maps done = (maps.data_seg_map, refl)
  first_pass_loop-Notes _ _ offset maps
        (relocs header name content data_offset target es ss ns named h k good notes) =
      rw
        (
          reloc_not_linking name named,
          named,
          add_relocs-reloc_section_bytes crates laws target es maps h k good,
        )
        (first_pass_loop-Notes ss ns (offset + length header + length content)
          (record maps { orig_reloc_map = update_at target (λ old. old ++ es) maps.orig_reloc_map })
          notes)
  first_pass_loop-Notes _ _ offset maps
        (linking header data_ content data_offset subs ss ns parsed good notes) =
      let (m, e) = subsections_lem subs maps.data_seg_map good in
      rw (add_linking_lem data_ data_offset subs maps m parsed e) (
        first_pass_loop-Notes ss ns (offset + length header + length content)
          (record maps { data_seg_map = m }) notes)
  first_pass_loop-Notes _ _ offset maps
        (other header name data_ content data_offset ss ns a b notes) =
      rw (a, b) (first_pass_loop-Notes ss ns (offset + length header + length content) maps notes)
  first_pass_loop-Notes _ _ offset maps (plain_section header content id ss ns notes) =
      first_pass_loop-Notes ss ns (offset + length header + length content) maps notes
  first_pass_loop-Notes _ _ offset maps (code_section header count fs ss ns notes) =
      let start = offset + length header in
      rw
        (first_pass_loop-entries
          (ranges_of (start + length (u32_bytes crates.codec count none)) fs))
        (first_pass_loop-Notes ss ns (start + length (code_content crates.codec count fs)) maps
          notes)
