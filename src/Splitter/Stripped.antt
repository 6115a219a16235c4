-- ===== src/Splitter/Stripped.antt =====
-- What src/wasmall/src/splitter.rs keeps of a module: its sections' bytes and the calls that push them.
use crucible_rt.Prelude.{
  ℕ, ◌^◌, ◌<◌, ◌≡◌, refl, ap, ap₂, sym, ◌∙◌, arith, List, [], ◌∷◌, ◌++◌, length, length-append,
  append_assoc, map, none,
}
use crucible_rt.Leb.{Leb128, IsLeb128}
use crucible_rt.Writer.Var.{u32_bytes}
use crucible_rt.Archive.Parts.{Push, module_bytes, pushed, AllPushes}
use crucible_rt.Splitter.Blobs.{Func, func_bytes, func_push, func_push-IsPush, source-relabel}
use crucible_rt.Splitter.Pushes.{AllFuncs, funcs_bytes}
use crucible_rt.Splitter.Sections.{
  Section, custom, plain, code, code_content, render, section_header, pushes_of, AllSections,
}

module _ (codec : Leb128) where
  -- The module without its custom sections, with the shortest size field for each other section.
  unfoldable pub stripped : List Section → List ℕ
  unfolding code_content section_header
  stripped [] = []
  stripped (custom header name data_ data_offset content ∷ ss) = stripped ss
  stripped (plain header id content ∷ ss) =
      section_header codec id (length content) ++ (content ++ stripped ss)
  stripped (code header count fs ∷ ss) =
      section_header codec 10 (length (code_content codec count fs))
      ++ (code_content codec count fs ++ stripped ss)

  pushed-func_push : (f : Func) → pushed (func_push f) ≡ func_bytes f
  pushed-func_push f = unfold pushed func_push in source-relabel [] [] f.sites f.tail

  module_bytes-functions :
      (fs : List Func) (ps : List Push)
      → module_bytes (map func_push fs ++ ps) ≡ funcs_bytes fs ++ module_bytes ps
  unfolding module_bytes funcs_bytes
  module_bytes-functions [] ps = refl
  module_bytes-functions (f ∷ fs) ps =
      ap₂ (λ a b. a ++ b) (pushed-func_push f) (module_bytes-functions fs ps)
      ∙ sym (append_assoc (func_bytes f) (funcs_bytes fs) (module_bytes ps))

  pub module_bytes-pushes_of : (ss : List Section) → module_bytes (pushes_of codec ss) ≡ stripped ss
  unfolding module_bytes pushed pushes_of stripped code_content
  module_bytes-pushes_of [] = refl
  module_bytes-pushes_of (custom header name data_ data_offset content ∷ ss) =
      module_bytes-pushes_of ss
  module_bytes-pushes_of (plain header id content ∷ ss) =
      append_assoc (section_header codec id (length content)) content
        (module_bytes (pushes_of codec ss))
      ∙ ap (λ l. section_header codec id (length content) ++ (content ++ l))
          (module_bytes-pushes_of ss)
  module_bytes-pushes_of (code header count fs ∷ ss) =
      let field = u32_bytes codec count none in
      let first = section_header codec 10 (length (field ++ funcs_bytes fs)) in
      rw (module_bytes-functions fs (pushes_of codec ss), module_bytes-pushes_of ss)
        (append_assoc first field (funcs_bytes fs ++ stripped ss)
          ∙ ap (λ l. first ++ l) (sym (append_assoc field (funcs_bytes fs) (stripped ss))))

  AllPushes-append :
      (ps qs : List Push) → AllPushes codec ps → AllPushes codec qs → AllPushes codec (ps ++ qs)
  AllPushes-append [] qs h k = k
  AllPushes-append (p ∷ ps) qs h k = (h.0, AllPushes-append ps qs h.1 k)

  module _ (laws : IsLeb128 codec) where
    functions-AllPushes :
        (fs : List Func)
        → AllFuncs codec fs
        → length (funcs_bytes fs) < 2 ^ 31
        → AllPushes codec (map func_push fs)
    unfolding funcs_bytes
    functions-AllPushes [] h small = tt
    functions-AllPushes (f ∷ fs) h small =
        let lengths = length-append (func_bytes f) (funcs_bytes fs) in
        (
          func_push-IsPush codec laws f h.0.places (omega arith),
          functions-AllPushes fs h.1 (omega arith),
        )

    pub pushes_of-AllPushes :
        (ss : List Section)
        → AllSections codec ss
        → length (render codec ss) < 2 ^ 31
        → AllPushes codec (pushes_of codec ss)
    unfolding render pushes_of AllSections code_content
    pushes_of-AllPushes [] h small = tt
    pushes_of-AllPushes (custom header name data_ data_offset content ∷ ss) h small =
        pushes_of-AllPushes ss h (
          omega (
            arith,
            length-append header (content ++ render codec ss),
            length-append content (render codec ss),
          ))
    pushes_of-AllPushes (plain header id content ∷ ss) h small = (
      tt,
      pushes_of-AllPushes ss h (
          omega (
            arith,
            length-append header (content ++ render codec ss),
            length-append content (render codec ss),
          )),
    )
    pushes_of-AllPushes (code header count fs ∷ ss) h small =
        let field = u32_bytes codec count none in
        let rest = render codec ss in
        let lengths = length-append header ((field ++ funcs_bytes fs) ++ rest) in
        let lengths' = length-append (field ++ funcs_bytes fs) rest in
        let lengths'' = length-append field (funcs_bytes fs) in
        (
          tt,
          AllPushes-append (map func_push fs) (pushes_of codec ss)
              (functions-AllPushes fs h.0.1 (omega arith))
              (pushes_of-AllPushes ss h.1 (omega arith)),
        )
