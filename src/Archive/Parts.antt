-- ===== src/Archive/Parts.antt =====
-- The calls on a `WasmallWriter` of src/wasmall/src/coder.rs for a module, and the segments they make.
use crucible_rt.Prelude.{
  ℕ, ◌^◌, ◌<◌, ◌≡◌, refl, ap, sym, ◌∙◌, List, [], ◌∷◌, ◌++◌, length, append_assoc, append-nil, All,
}
use crucible_rt.Leb.{Leb128}
use crucible_rt.Result
use crucible_rt.Result.{Result}
use crucible_rt.Coder.{WasmallWriter, push_verbatim, push_blob}
use crucible_rt.Coder.Site.{Site, AllSites, source, entries}
use crucible_rt.Coder.Blob.{blob_bytes}
use crucible_rt.Coder.Push.{Chunk, IsU32, values_bytes, concretes_bytes}

-- One call on the writer: verbatim bytes, or the places of a blob with the bytes behind them and
-- the values of the relocations.
pub data Push : Type 0 where
  verbatim : List ℕ → Push
  blob : List Site → List ℕ → List ℕ → Push

-- The bytes of the module that the call was given.
unfoldable pub pushed : Push → List ℕ
pushed (verbatim bytes) = bytes
pushed (blob ss tail values) = source ss tail

unfoldable pub module_bytes : List Push → List ℕ
unfolding pushed
module_bytes [] = []
module_bytes (p ∷ ps) = pushed p ++ module_bytes ps

-- What a blob's call is given lies and fits as the format wants.
abbrev pub IsPush : Leb128 → Push → Type 0
IsPush codec (verbatim bytes) = Unit {0}
IsPush codec (blob ss tail values) =
    AllSites values ss
    × All IsU32 values
    × (length ss < 2 ^ 32)
    × (length (source ss tail) < 2 ^ 32)
    × (length (values_bytes codec values) < 2 ^ 32)

abbrev pub AllPushes : Leb128 → List Push → Type 0
AllPushes codec [] = Unit {0}
AllPushes codec (p ∷ ps) = IsPush codec p × AllPushes codec ps

-- The calls in order.
unfoldable pub push_all : Leb128 → List Push → WasmallWriter → Result WasmallWriter
push_all codec [] w = Result.ok w
push_all codec (verbatim bytes ∷ ps) w = push_all codec ps (push_verbatim w bytes)
push_all codec (blob ss tail values ∷ ps) w =
    Result.◌>>=◌ (push_blob codec w (entries 0 ss) values (source ss tail))
      (λ w'. push_all codec ps w')

-- Verbatim calls in a row are one segment.
unfoldable pub add_part : List Push → List ℕ → List Push
add_part [] bytes = verbatim bytes ∷ []
add_part (verbatim last ∷ []) bytes = verbatim (last ++ bytes) ∷ []
add_part (blob ss tail values ∷ []) bytes = blob ss tail values ∷ verbatim bytes ∷ []
add_part (p ∷ q ∷ ps) bytes = p ∷ add_part (q ∷ ps) bytes

unfoldable pub parts : List Push → List Push → List Push
parts done [] = done
parts done (verbatim bytes ∷ ps) = parts (add_part done bytes) ps
parts done (blob ss tail values ∷ ps) = parts (done ++ (blob ss tail values ∷ [])) ps

unfoldable pub chunk_of : Leb128 → Push → Chunk
chunk_of codec (verbatim bytes) = Chunk.verbatim bytes
chunk_of codec (blob ss tail values) =
    Chunk.blob (blob_bytes codec ss tail) (concretes_bytes codec values)

module_bytes-append :
    (ps qs : List Push) → module_bytes (ps ++ qs) ≡ module_bytes ps ++ module_bytes qs
unfolding module_bytes
module_bytes-append [] qs = refl
module_bytes-append (p ∷ ps) qs =
    ap (λ l. pushed p ++ l) (module_bytes-append ps qs)
    ∙ sym (append_assoc (pushed p) (module_bytes ps) (module_bytes qs))

module_bytes-add_part :
    (ps : List Push) (bytes : List ℕ) → module_bytes (add_part ps bytes) ≡ module_bytes ps ++ bytes
unfolding module_bytes add_part
module_bytes-add_part [] bytes = append-nil bytes
module_bytes-add_part (verbatim last ∷ []) bytes =
    append-nil (last ++ bytes) ∙ ap (λ l. l ++ bytes) (sym (append-nil last))
module_bytes-add_part (blob ss tail values ∷ []) bytes =
    ap (λ l. source ss tail ++ l) (append-nil bytes)
    ∙ ap (λ l. l ++ bytes) (sym (append-nil (source ss tail)))
module_bytes-add_part (p ∷ q ∷ ps) bytes =
    ap (λ l. pushed p ++ l) (module_bytes-add_part (q ∷ ps) bytes)
    ∙ sym (append_assoc (pushed p) (module_bytes (q ∷ ps)) bytes)

-- Joining verbatim calls keeps the bytes of the module.
module_bytes-parts :
    (done ps : List Push) → module_bytes (parts done ps) ≡ module_bytes done ++ module_bytes ps
unfolding parts module_bytes
module_bytes-parts done [] = sym (append-nil (module_bytes done))
module_bytes-parts done (verbatim bytes ∷ ps) =
    module_bytes-parts (add_part done bytes) ps
    ∙ ap (λ l. l ++ module_bytes ps) (module_bytes-add_part done bytes)
    ∙ append_assoc (module_bytes done) bytes (module_bytes ps)
module_bytes-parts done (blob ss tail values ∷ ps) =
    module_bytes-parts (done ++ (blob ss tail values ∷ [])) ps
    ∙ ap (λ l. l ++ module_bytes ps)
        (module_bytes-append done (blob ss tail values ∷ [])
          ∙ ap (λ l. module_bytes done ++ l) (append-nil (source ss tail)))
    ∙ append_assoc (module_bytes done) (source ss tail) (module_bytes ps)

pub module_bytes-parts_nil : (ps : List Push) → module_bytes (parts [] ps) ≡ module_bytes ps
module_bytes-parts_nil ps = module_bytes-parts [] ps ∙ (unfold module_bytes in refl)
