-- ===== src/Splitter/Passes.antt =====
-- The second pass of src/wasmall/src/splitter.rs over the payloads of a module's sections.
use crucible_rt.Prelude.{
  ℕ, ◌+◌, ◌-◌, ◌^◌, ◌<◌, ◌≡◌, refl, ap, sym, ◌∙◌, subst, arith, List, [], ◌∷◌, ◌++◌, length,
  length-append, append_assoc, none, some, get_elem?, map, ==_iff,
}
use mathlib.Core.Path.{fun_ext}
use crucible_rt.Leb.{IsLeb128}
use crucible_rt.Result.{Result, ok, ◌>>=◌, bind_assoc}
use crucible_rt.Writer.Var.{u32_bytes}
use crucible_rt.Writer.RoundTrip.{read_u32_bytes}
use crucible_rt.Reloc.{RelocEntry}
use crucible_rt.Rewrite.Layout.{slice_rest}
use crucible_rt.Coder.{WasmallWriter, push_verbatim}
use crucible_rt.Archive.Parts.{push_all}
use crucible_rt.Wasm.{code_section_entry}
use crucible_rt.Splitter.{Crates}
use crucible_rt.Splitter.Module.{split_code, second_pass}
use crucible_rt.Splitter.Blobs.{Func, func_push}
use crucible_rt.Splitter.Pushes.{
  AllFuncs, funcs_bytes, func_relocs, ranges_of, split_functions-push_all,
}
use crucible_rt.Splitter.Sections.{
  Section, custom, plain, code, code_content, render, payloads_at, section_header, pushes_of,
  HasRelocs, AllSections, custom_bytes, push_all-append, func_ranges-entries, second_pass-entries,
  header_lem, section_bytes_lem,
}

module _ (pre header content rest : List ℕ) where
  pub content_next : (pre ++ (header ++ content)) ++ rest ≡ pre ++ (header ++ (content ++ rest))
  content_next =
      append_assoc pre (header ++ content) rest
      ∙ ap (λ l. pre ++ l) (append_assoc header content rest)

  pub offset_next :
      (offset : ℕ)
      → offset ≡ length pre
      → offset + length header + length content ≡ length (pre ++ (header ++ content))
  offset_next offset e =
      omega (arith, length-append pre (header ++ content), length-append header content)

  pub content_small :
      length (pre ++ (header ++ (content ++ rest))) < 2 ^ 31 → length content < 2 ^ 32
  content_small h = omega (
    arith,
    length-append pre (header ++ (content ++ rest)),
    length-append header (content ++ rest),
    length-append content rest,
  )

module _ (crates : Crates) (laws : IsLeb128 crates.codec) (relocs : List (List RelocEntry)) where
  -- The code section is its header and its functions' blobs.
  split_code_lem :
      (pre : List ℕ) (count : ℕ) (fs : List Func) (post : List ℕ) (start last offset : ℕ)
      (ss : List Section) (idx : ℕ) (w : WasmallWriter)
      → AllFuncs crates.codec fs
      → count < 2 ^ 32
      → start ≡ length pre
      → last ≡ start + length (code_content crates.codec count fs)
      → get_elem? relocs idx ≡ some (func_relocs (length (u32_bytes crates.codec count none)) fs)
      → length (pre ++ (code_content crates.codec count fs ++ post)) < 2 ^ 31
      → split_code crates
          (pre ++ (code_content crates.codec count fs ++ post))
          relocs
          (record { start = start; end = last })
          count
          (map code_section_entry
              (ranges_of (start + length (u32_bytes crates.codec count none)) fs)
            ++ payloads_at crates.codec offset ss)
          idx
          w
        ≡ push_all crates.codec (map func_push fs) (
            push_verbatim w (
              section_header crates.codec 10 (length (code_content crates.codec count fs))
              ++ u32_bytes crates.codec count none))
  unfolding code_content
  split_code_lem pre count fs post start last offset ss idx w h fits at end known small =
      let codec = crates.codec in
      let field = u32_bytes codec count none in
      let content = field ++ funcs_bytes fs in
      let regroup : (pre ++ field) ++ (funcs_bytes fs ++ post) ≡ pre ++ (content ++ post) =
        append_assoc pre field (funcs_bytes fs ++ post)
        ∙ ap (λ l. pre ++ l) (sym (append_assoc field (funcs_bytes fs) post)) in
      let lengths = length-append pre (content ++ post) in
      let lengths' = length-append content post in
      let header = header_lem codec laws start last (length content) count end (omega arith) fits in
      let there : length (pre ++ field) ≡ start + length field =
        length-append pre field ∙ ap (λ (n : ℕ). n + length field) (sym at) in
      let offset_in : start + length field - start ≡ length field = omega arith in
      let functions =
        split_functions-push_all codec laws start (pre ++ field) fs post
          (push_verbatim w (section_header codec 10 (length content) ++ field)) h (omega arith)
          (subst (λ l. length l < 2 ^ 31) (sym regroup) small) in
      unfold split_code in
      rw
        (
          slice_rest pre (content ++ post) start at,
          append_assoc field (funcs_bytes fs) post,
          read_u32_bytes codec laws count none (funcs_bytes fs ++ post) fits (omega arith),
          (==_iff count count).1 refl,
          header,
          known,
          func_ranges-entries codec (ranges_of (start + length field) fs) offset ss,
        )
        (rw (there, offset_in, regroup) at functions)

  -- With a LEB128 codec as documented, for sections that follow what was passed over, below 2 GiB
  -- together, whose code sections have the shortest encoding of a count below 2^32 and the
  -- relocations of their functions by their index among all sections, and whose functions begin
  -- with the shortest encoding of their size and have their relocated places in order behind the
  -- first byte, at full width, a LEB128 place holding a number below 2^32, or below 2^31 where it
  -- is signed, and with an addend, of 32 bits, just where its type has one, the second pass is a
  -- run of calls on the writer: one of verbatim bytes for each section that is not custom, then
  -- one blob for each function of a code section. It adds the lengths of the custom sections.
  pub second_pass-push_all :
      (pre : List ℕ) (ss : List Section) (offset idx : ℕ) (w : WasmallWriter) (t : ℕ)
      → AllSections crates.codec ss
      → HasRelocs crates.codec relocs idx ss
      → offset ≡ length pre
      → length (pre ++ render crates.codec ss) < 2 ^ 31
      → second_pass crates
          (pre ++ render crates.codec ss)
          relocs
          (payloads_at crates.codec offset ss)
          idx
          w
          t
        ≡ (push_all crates.codec (pushes_of crates.codec ss) w >>= λ w'.
            ok (w', t + custom_bytes ss))
  unfolding render payloads_at pushes_of HasRelocs AllSections custom_bytes second_pass push_all
  second_pass-push_all pre [] offset idx w t h k at small = ap (λ (n : ℕ). ok (w, n)) (omega arith)
  second_pass-push_all pre (custom header name data_ data_offset content ∷ ss) offset idx w t h k at
        small =
      let rest = render crates.codec ss in
      let next = offset_next pre header content rest offset at in
      let total : t
            + (offset + length header + length content - (offset + length header))
            + custom_bytes ss
          ≡ t + (length content + custom_bytes ss) =
        omega arith in
      let more =
        second_pass-push_all (pre ++ (header ++ content)) ss
          (offset + length header + length content) (idx + 1) w
          (t + (offset + length header + length content - (offset + length header))) h k next
          (subst (λ l. length l < 2 ^ 31) (sym (content_next pre header content rest)) small) in
      rw (content_next, total) at more
  second_pass-push_all pre (plain header id content ∷ ss) offset idx w t h k at small =
      let rest = render crates.codec ss in
      let next = offset_next pre header content rest offset at in
      let bytes = section_header crates.codec id (length content) ++ content in
      let more =
        second_pass-push_all (pre ++ (header ++ content)) ss
          (offset + length header + length content) (idx + 1) (push_verbatim w bytes) t h k next
          (subst (λ l. length l < 2 ^ 31) (sym (content_next pre header content rest)) small) in
      let one =
        section_bytes_lem crates.codec laws (pre ++ header) content rest id (offset + length header)
          (offset + length header + length content) (omega (arith, length-append pre header)) refl
          (content_small pre header content rest small) in
      rw (rw append_assoc at one) (rw content_next at more)
  second_pass-push_all pre (code header count fs ∷ ss) offset idx w t h k at small =
      let codec = crates.codec in
      let content = code_content codec count fs in
      let rest = render codec ss in
      let start = offset + length header in
      let whole = pre ++ (header ++ (content ++ rest)) in
      let next = offset_next pre header content rest offset at in
      let code_writer =
        push_verbatim w (section_header codec 10 (length content) ++ u32_bytes codec count none) in
      let finish : WasmallWriter → Result (WasmallWriter × ℕ) =
        λ w'. ok (w', t + custom_bytes ss) in
      let one =
        split_code_lem (pre ++ header) count fs rest start (start + length content)
          (start + length content) ss idx w h.0.1 h.0.0 (omega (arith, length-append pre header))
          refl k.0
          (subst (λ l. length l < 2 ^ 31) (sym (append_assoc pre header (content ++ rest)))
            small) in
      let entries = ranges_of (start + length (u32_bytes codec count none)) fs in
      let ps = payloads_at codec (start + length content) ss in
      let more : (w' : WasmallWriter)
          → second_pass crates whole relocs (map code_section_entry entries ++ ps) (idx + 1) w' t
            ≡ (push_all codec (pushes_of codec ss) w' >>= finish) =
        λ w'.
          second_pass-entries crates whole relocs entries ps (idx + 1) w' t
          ∙ (rw content_next at (
              second_pass-push_all (pre ++ (header ++ content)) ss (start + length content)
                (idx + 1) w' t h.1 k.1 next
                (subst (λ l. length l < 2 ^ 31) (sym (content_next pre header content rest))
                  small))) in
      rw (rw append_assoc at one) (
        ap (λ g. push_all codec (map func_push fs) code_writer >>= g) (fun_ext more)
        ∙ sym (
            bind_assoc (push_all codec (map func_push fs) code_writer)
              (push_all codec (pushes_of codec ss)) finish)
        ∙ ap (λ m. m >>= finish)
            (sym (push_all-append codec (map func_push fs) (pushes_of codec ss) code_writer)))
