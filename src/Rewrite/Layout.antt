-- ===== src/Rewrite/Layout.antt =====
-- `rewrite_relocated` of src/wasmall/src/reloc.rs on a buffer that is laid out as its replacements say.
use crucible_rt.Prelude.{
  ℕ, ◌+◌, ◌-◌, ◌≤◌, ◌≡◌, refl, ap, sym, ◌∙◌, arith, List, [], ◌∷◌, ◌++◌, length, length-append,
  take, take-append, drop-append, append_assoc, append-nil, le→ltb_false,
}
use crucible_rt.Result.{ok}
use crucible_rt.Reader.{Read, Reader}
use crucible_rt.Writer.{BufWriter}
use crucible_rt.Parse.{try_count_bytes_read}
use crucible_rt.Rewrite.{Rewriter, slice, replace, finish_rewrite, rewrite_loop, rewrite_relocated}

pub slice-append :
    (a b c : List ℕ) (from to : ℕ)
    → from ≡ length a
    → to ≡ length a + length b
    → slice (a ++ (b ++ c)) from to ≡ ok b
unfolding slice
slice-append a b c from to e f = rw (
  le→ltb_false to from (omega arith),
  le→ltb_false (length (a ++ (b ++ c))) to
      (omega (arith, length-append a (b ++ c), length-append b c)),
  drop-append from a (b ++ c) e,
  take-append (to - from) b c (omega arith),
)

take_all : (n : ℕ) (xs : List ℕ) → n ≡ length xs → take n xs ≡ xs
take_all n xs e = ap (take n) (sym (append-nil xs)) ∙ take-append n xs [] e

pub slice_rest :
    (a b : List ℕ) (from : ℕ) → from ≡ length a → slice (a ++ b) from (length (a ++ b)) ≡ ok b
slice_rest a b from e =
    let lengths = length-append a b in
    unfold slice in
    rw (
      le→ltb_false (length (a ++ b)) from (omega arith),
      le→ltb_false (length (a ++ b)) (length (a ++ b)) (omega arith),
      drop-append from a b e,
      take_all (length (a ++ b) - from) b (omega arith),
    )

try_count-append {ℓ} :
    {A : Type ℓ} (bs rest : List ℕ) (f : Reader A) (a : A)
    → f (bs ++ rest) ≡ Read.ok a rest
    → try_count_bytes_read (bs ++ rest) f ≡ ok (length bs, a)
try_count-append bs rest f a e =
    let lengths = length-append bs rest in
    let count : length (bs ++ rest) - length rest ≡ length bs = omega arith in
    unfold try_count_bytes_read in
    rw (
      e,
      try_count_bytes_read,
      le→ltb_false (length (bs ++ rest)) (length rest) (omega arith),
      count,
    )

-- A place in a buffer: the bytes before it, its own, and its rewriter with what it does there.
pub record Patch (W C : Type 0) : Type 0 where
  pub before : List ℕ
  pub bytes : List ℕ
  pub rewriter : Rewriter W C
  pub effect : W → C → W × C

-- The rewriter takes just the bytes of its place.
abbrev pub IsPatch : {W C : Type 0} → Patch W C → Type 0
IsPatch {W} {C} p =
    (writer : W) (cx : C) (rest : List ℕ)
    → p.rewriter writer cx (p.bytes ++ rest) ≡ Read.ok (p.effect writer cx) rest

module _ {W C : Type 0} where
  abbrev pub AllPatches : List (Patch W C) → Type 0
  AllPatches [] = Unit {0}
  AllPatches (p ∷ ps) = IsPatch p × AllPatches ps

  unfoldable pub layout : List (Patch W C) → List ℕ → List ℕ
  layout [] tail = tail
  layout (p ∷ ps) tail = p.before ++ (p.bytes ++ layout ps tail)

  -- The replacements, from an offset on.
  unfoldable pub replacements : ℕ → List (Patch W C) → List (ℕ × Rewriter W C)
  replacements offset [] = []
  replacements offset (p ∷ ps) =
      (offset + length p.before, p.rewriter)
      ∷ replacements (offset + length p.before + length p.bytes) ps

  module _ ⦃w : BufWriter W⦄ where
    -- The bytes between the places are copied, and each place does its effect, in order.
    unfoldable pub run : List (Patch W C) → List ℕ → W → C → W × C
    run [] tail writer cx = (w.extend writer tail, cx)
    run (p ∷ ps) tail writer cx =
        let state = p.effect (w.extend writer p.before) cx in run ps tail state.0 state.1

    replace_patch :
        (done : List ℕ) (p : Patch W C) (rest : List ℕ) (writer : W) (cx : C)
        → IsPatch p
        → replace
            (done ++ (p.before ++ (p.bytes ++ rest)))
            (length done)
            (length done + length p.before)
            p.rewriter
            writer
            cx
          ≡ ok (
            length done + length p.before + length p.bytes,
            p.effect (w.extend writer p.before) cx,
          )
    replace_patch done p rest writer cx h =
        let writer' = w.extend writer p.before in
        let here =
          slice_rest (done ++ p.before) (p.bytes ++ rest) (length done + length p.before)
            (sym (length-append done p.before)) in
        unfold replace in
        rw (
          slice-append done p.before (p.bytes ++ rest) (length done) (length done + length p.before)
              refl refl,
          rw append_assoc at here,
          try_count-append p.bytes rest (p.rewriter writer' cx) (p.effect writer' cx)
              (h writer' cx rest),
        )

    finish_tail :
        (done tail : List ℕ) (writer : W) (cx : C)
        → finish_rewrite (done ++ tail) (length done) writer cx ≡ ok (w.extend writer tail, cx)
    finish_tail done tail writer cx =
        unfold finish_rewrite in rw (slice_rest done tail (length done) refl)

    rewrite_loop_cons :
        (buf : List ℕ) (cursor at : ℕ) (r : Rewriter W C) (rs : List (ℕ × Rewriter W C))
        (writer : W) (cx : C) (next : ℕ) (state : W × C)
        → cursor ≤ at
        → at ≤ length buf
        → replace buf cursor at r writer cx ≡ ok (next, state)
        → rewrite_loop buf cursor ((at, r) ∷ rs) writer cx
          ≡ rewrite_loop buf next rs state.0 state.1
    rewrite_loop_cons buf cursor at r rs writer cx next state h k e =
        unfold rewrite_loop in rw (le→ltb_false at cursor h, le→ltb_false (length buf) at k, e)

    rewrite_loop-layout :
        (done : List ℕ) (cursor : ℕ) (ps : List (Patch W C)) (tail : List ℕ) (writer : W) (cx : C)
        → cursor ≡ length done
        → AllPatches ps
        → rewrite_loop (done ++ layout ps tail) cursor (replacements cursor ps) writer cx
          ≡ ok (run ps tail writer cx)
    unfolding layout replacements run
    rewrite_loop-layout done cursor [] tail writer cx e h =
        unfold rewrite_loop in rw e (finish_tail done tail writer cx)
    rewrite_loop-layout done cursor (p ∷ ps) tail writer cx e h =
        let place = p.before ++ p.bytes in
        let next = cursor + length p.before + length p.bytes in
        let rest = layout ps tail in
        let buf = done ++ (p.before ++ (p.bytes ++ rest)) in
        let state = p.effect (w.extend writer p.before) cx in
        let regroup : (done ++ place) ++ rest ≡ buf =
          append_assoc done place rest ∙ ap (λ l. done ++ l) (append_assoc p.before p.bytes rest) in
        let one =
          rewrite_loop_cons buf cursor (cursor + length p.before) p.rewriter (replacements next ps)
            writer cx next state (omega arith)
            (omega (
              arith,
              length-append done (p.before ++ (p.bytes ++ rest)),
              length-append p.before (p.bytes ++ rest),
            ))
            (rw e (replace_patch done p rest writer cx h.0)) in
        let more =
          rewrite_loop-layout (done ++ place) next ps tail state.0 state.1
            (omega (arith, length-append done place, length-append p.before p.bytes)) h.1 in
        one ∙ rw regroup at more

    -- On a buffer laid out as patches one after the other, whose rewriters take just the bytes of
    -- their places, `rewrite_relocated` succeeds: the bytes between the places are copied and each
    -- rewriter runs once, in order.
    pub rewrite_relocated-layout :
        (ps : List (Patch W C)) (tail : List ℕ) (writer : W) (cx : C)
        → AllPatches ps
        → rewrite_relocated (layout ps tail) writer cx (replacements 0 ps)
          ≡ ok (run ps tail writer cx)
    rewrite_relocated-layout ps tail writer cx h =
        unfold rewrite_relocated in rewrite_loop-layout [] 0 ps tail writer cx refl h
