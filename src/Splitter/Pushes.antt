-- ===== src/Splitter/Pushes.antt =====
-- `split_function` and its loop in src/wasmall/src/splitter.rs are calls of `push_blob`, one for each
-- function.
use crucible_rt.Prelude.{
  ℕ, ◌+◌, ◌-◌, ◌%◌, ◌^◌, ◌≤◌, ◌<◌, ◌≡◌, refl, ap, sym, ◌∙◌, subst, arith, List, [], ◌∷◌, ◌++◌,
  length, length-append, append_assoc, none, All, All-append, le→ltb_false, map,
}
use mathlib.Core.Path.{fun_ext}
use crucible_rt.Leb.{Leb128, IsLeb128}
use crucible_rt.Result
use crucible_rt.Result.{Result, bind_assoc}
use crucible_rt.Writer.Var.{u32_bytes}
use crucible_rt.Writer.{write_var_u32, len_of, len_counter}
use crucible_rt.Reloc.{RelocEntry}
use crucible_rt.Rewrite.{slice}
use crucible_rt.Rewrite.Layout.{slice-append}
use crucible_rt.Coder.{WasmallWriter, Range, push_blob}
use crucible_rt.Coder.Site.{source, entries}
use crucible_rt.Archive.Parts.{push_all}
use crucible_rt.Wasm.{range_len}
use crucible_rt.Splitter.{checked_sub}
use crucible_rt.Splitter.Functions.{localise, no_locals, split_function, split_functions}
use crucible_rt.Splitter.Places.{relabel}
use crucible_rt.Splitter.Localise.{localise-entries}
use crucible_rt.Splitter.Blobs.{
  Func, IsFunc, func_bytes, func_push, source-relabel, len_of-u32, length-places, Above, Above-mono,
  entries-Between, entries-Above, skip_before-Between, take_through-append, drop_through-append,
}

abbrev pub AllFuncs : Leb128 → List Func → Type 0
AllFuncs codec = All (IsFunc codec)

-- The functions one after the other.
unfoldable pub funcs_bytes : List Func → List ℕ
funcs_bytes [] = []
funcs_bytes (f ∷ fs) = func_bytes f ++ funcs_bytes fs

-- Their relocations, from an offset in the section on.
unfoldable pub func_relocs : ℕ → List Func → List RelocEntry
func_relocs offset [] = []
func_relocs offset (f ∷ fs) =
    entries offset f.sites ++ func_relocs (offset + length (func_bytes f)) fs

pub func_relocs-Above :
    (codec : Leb128) (offset : ℕ) (fs : List Func)
    → AllFuncs codec fs
    → Above offset (func_relocs offset fs)
unfolding func_relocs
func_relocs-Above codec offset [] h = tt
func_relocs-Above codec offset (f ∷ fs) h =
    let next = offset + length (func_bytes f) in
    All-append (λ e. offset < e.offset) (entries offset f.sites) (func_relocs next fs)
      (entries-Above offset f.sites h.0.room)
      (Above-mono offset next (func_relocs next fs) (omega arith)
        (func_relocs-Above codec next fs h.1))

-- The range that the parser gives: the body, behind its size field.
abbrev pub func_range : ℕ → Func → Range
func_range start f = record { start = start + f.size_width; end = start + length (func_bytes f) }

unfoldable pub ranges_of : ℕ → List Func → List Range
ranges_of start [] = []
ranges_of start (f ∷ fs) = func_range start f ∷ ranges_of (start + length (func_bytes f)) fs

module _ (codec : Leb128) (laws : IsLeb128 codec) (section_start : ℕ) where
  module _ (pre post : List ℕ) (f : Func) (h : IsFunc codec f) (inside : section_start ≤ length pre)
      (small : length (pre ++ (func_bytes f ++ post)) < 2 ^ 31) where
    abbrev entry_start : ℕ
    entry_start = length pre - section_start

    lengths : length pre + length (func_bytes f) < 2 ^ 31
    lengths =
        omega (arith, length-append pre (func_bytes f ++ post), length-append (func_bytes f) post)

    body_length : length (func_bytes f) ≡ f.size_width + length h.body
    body_length =
        ap length h.sized
        ∙ length-append (u32_bytes codec (length h.body) none) h.body
        ∙ ap (λ (n : ℕ). n + length h.body) (sym h.width)

    size_field : range_len (func_range (length pre) f) % 2 ^ 32 ≡ length h.body
    size_field = omega (arith, body_length, lengths)

    start_lem : checked_sub (length pre + f.size_width) f.size_width ≡ Result.ok (length pre)
    start_lem =
        unfold checked_sub in
        rw (le→ltb_false (length pre + f.size_width) f.size_width (omega arith))
          (ap Result.ok (omega arith))

    sub_lem :
        (n : ℕ) → section_start ≤ n → checked_sub n section_start ≡ Result.ok (n - section_start)
    sub_lem n le = unfold checked_sub in rw (le→ltb_false n section_start le)

    low : (length pre - section_start) % 2 ^ 32 ≡ length pre - section_start
    low = omega (arith, lengths)

    high :
        (length pre + length (func_bytes f) - section_start) % 2 ^ 32
        ≡ length pre - section_start + length (func_bytes f)
    high = omega (arith, lengths)

    data_lem :
        slice (pre ++ (func_bytes f ++ post)) (length pre) (length pre + length (func_bytes f))
        ≡ Result.ok (func_bytes f)
    data_lem =
        slice-append pre (func_bytes f) post (length pre) (length pre + length (func_bytes f)) refl
          refl

    width_lem :
        len_of (λ w. write_var_u32 codec w (range_len (func_range (length pre) f) % 2 ^ 32))
        ≡ Result.ok f.size_width
    width_lem = rw size_field (
        len_of-u32 codec laws (length h.body) (omega (arith, body_length, lengths))
        ∙ ap Result.ok (sym h.width))

    localise_lem :
        localise codec (func_bytes f) entry_start (entries entry_start f.sites) no_locals
        ≡ Result.ok (record {
          local_relocations = entries 0 (relabel [] [] f.sites).0;
          sym_map = (relabel [] [] f.sites).1.0;
          local_relocation_values = (relabel [] [] f.sites).1.1;
        })
    localise_lem =
        let zero_more : entry_start + 0 ≡ entry_start = omega arith in
        rw zero_more at (
          localise-entries codec laws entry_start [] f.sites f.tail [] [] [] tt h.places
            (omega (arith, length-places codec laws f.sites f.tail h.places, lengths)))

    split_function_lem :
        (later : List RelocEntry) (w : WasmallWriter)
        → Above (length pre - section_start + length (func_bytes f)) later
        → let r = relabel [] [] f.sites in
          split_function codec
            (pre ++ (func_bytes f ++ post))
            section_start
            (func_range (length pre) f)
            (entries (length pre - section_start) f.sites ++ later)
            w
          ≡ Result.◌>>=◌
              (push_blob codec w (entries 0 r.0) r.1.1 (source r.0 f.tail))
              (λ w'. Result.ok (w', later))
    split_function_lem later w above =
        let within = entries-Between entry_start f.sites f.tail in
        let last = entry_start + length (func_bytes f) in
        unfold split_function in
        rw (
          width_lem,
          start_lem,
          sub_lem (length pre) inside,
          sub_lem (length pre + length (func_bytes f)) (omega arith),
          data_lem,
          low,
          high,
          skip_before-Between entry_start last (entries entry_start f.sites) later within
              (Above-mono entry_start last later (omega arith) above),
          take_through-append entry_start last (entries entry_start f.sites) later within above,
          drop_through-append entry_start last (entries entry_start f.sites) later within above,
          localise_lem,
          source-relabel [] [] f.sites f.tail,
        )

  split_functions-cons :
      (src : List ℕ) (range : Range) (ranges : List Range) (relocs later : List RelocEntry)
      (w : WasmallWriter) (m : Result WasmallWriter)
      → split_function codec src section_start range relocs w
        ≡ Result.◌>>=◌ m (λ w'. Result.ok (w', later))
      → split_functions codec src section_start (range ∷ ranges) relocs w
        ≡ Result.◌>>=◌ m (λ w'. split_functions codec src section_start ranges later w')
  split_functions-cons src range ranges relocs later w m e =
      unfold split_functions in
      rw e (
        bind_assoc m (λ w'. Result.ok (w', later))
          (λ done. split_functions codec src section_start ranges done.1 done.0))

  -- With a LEB128 codec as documented, for functions that stand one after the other in the
  -- section, below 2 GiB, each beginning with the shortest encoding of its size and with its
  -- relocated places in order behind the first byte, at full width, a LEB128 place holding a
  -- number below 2^32, or below 2^31 where it is signed, and with an addend, of 32 bits, just
  -- where its type has one, and for the relocations of all of them, the loop pushes one blob for
  -- each function: its bytes with the size field, and its own relocations with offsets from its
  -- start and local symbols.
  pub split_functions-push_all :
      (pre : List ℕ) (fs : List Func) (post : List ℕ) (w : WasmallWriter)
      → AllFuncs codec fs
      → section_start ≤ length pre
      → length (pre ++ (funcs_bytes fs ++ post)) < 2 ^ 31
      → split_functions codec
          (pre ++ (funcs_bytes fs ++ post))
          section_start
          (ranges_of (length pre) fs)
          (func_relocs (length pre - section_start) fs)
          w
        ≡ push_all codec (map func_push fs) w
  unfolding funcs_bytes ranges_of func_relocs push_all func_push
  split_functions-push_all pre [] post w h inside small = unfold split_functions in refl
  split_functions-push_all pre (f ∷ fs) post w h inside small =
      let bytes = func_bytes f in
      let rest = funcs_bytes fs ++ post in
      let r = relabel [] [] f.sites in
      let later = func_relocs (length pre - section_start + length bytes) fs in
      let regroup : (pre ++ bytes) ++ rest ≡ pre ++ ((bytes ++ funcs_bytes fs) ++ post) =
        append_assoc pre bytes rest
        ∙ ap (λ l. pre ++ l) (sym (append_assoc bytes (funcs_bytes fs) post)) in
      let next : length (pre ++ bytes) ≡ length pre + length bytes = length-append pre bytes in
      let moved : length pre + length bytes - section_start
          ≡ length pre - section_start + length bytes =
        omega arith in
      let small' = subst (λ l. length l < 2 ^ 31) (sym regroup) small in
      let small'' = subst (λ l. length l < 2 ^ 31) (append_assoc pre bytes rest) small' in
      let above = func_relocs-Above codec (length pre - section_start + length bytes) fs h.1 in
      let one = split_function_lem pre rest f h.0 inside small'' later w above in
      let more : (w' : WasmallWriter)
          → split_functions codec (pre ++ (bytes ++ rest)) section_start
              (ranges_of (length pre + length bytes) fs) later w'
            ≡ push_all codec (map func_push fs) w' =
        λ w'.
          rw (append_assoc, next, moved) at
            (split_functions-push_all (pre ++ bytes) fs post w' h.1 (omega arith) small') in
      rw (append_assoc bytes (funcs_bytes fs) post) (
        split_functions-cons (pre ++ (bytes ++ rest)) (func_range (length pre) f)
          (ranges_of (length pre + length bytes) fs)
          (entries (length pre - section_start) f.sites ++ later) later w
          (push_blob codec w (entries 0 r.0) r.1.1 (source r.0 f.tail)) one
        ∙ ap (λ k. Result.◌>>=◌ (push_blob codec w (entries 0 r.0) r.1.1 (source r.0 f.tail)) k)
            (fun_ext more))
