-- ===== src/Rewrite.antt =====
-- src/wasmall/src/reloc.rs: `rewrite_relocated` copies a buffer and hands each relocated place to a
-- rewriter. A rewriter takes the cursor at its place, the writer and a context of any type.
pub mod Layout
use crucible_rt.Prelude.{ℕ, ◌+◌, ◌-◌, List, [], ◌∷◌, length, take, drop, ltb, if◌then◌else◌}
use crucible_rt.Result.{Result, ok, err, panic, stuck, ◌>>=◌}
use crucible_rt.Leb.{Leb128}
use crucible_rt.Reader.{Reader, bind, pure}
use crucible_rt.Scalar.{ScalarRewrite, rewrite}
use crucible_rt.Writer.{BufWriter}
use crucible_rt.Parse.{try_count_bytes_read}

abbrev pub Rewriter : Type 0 → Type 0 → Type 0
Rewriter W C = W → C → Reader (W × C)

-- `&buf[from..to]`.
unfoldable pub slice : List ℕ → ℕ → ℕ → Result (List ℕ)
slice buf from to =
    if ltb to from
    then panic
    else if ltb (length buf) to
    then panic
    else ok (take (to - from) (drop from buf))

module _ {W C : Type 0} ⦃w : BufWriter W⦄ where
  -- The writer and the context after the last byte. After an error both are dropped.
  unfoldable pub finish_rewrite : List ℕ → ℕ → W → C → Result (W × C)
  finish_rewrite buf buf_cursor writer cx = do
    rest ← slice buf buf_cursor (length buf)
    ok (w.extend writer rest, cx)

  -- One replacement: the bytes up to it, and what its rewriter writes.
  unfoldable pub replace : List ℕ → ℕ → ℕ → Rewriter W C → W → C → Result (ℕ × (W × C))
  replace buf buf_cursor reloc_start rewriter writer cx = do
    before ← slice buf buf_cursor reloc_start
    let writer' = w.extend writer before
    here ← slice buf reloc_start (length buf)
    (count, state) ← try_count_bytes_read here (rewriter writer' cx)
    ok (reloc_start + count, state)

  -- The debug assertion and the slice before the place fail alike, so that one test models both.
  unfoldable pub rewrite_loop : List ℕ → ℕ → List (ℕ × Rewriter W C) → W → C → Result (W × C)
  rewrite_loop buf buf_cursor [] writer cx = finish_rewrite buf buf_cursor writer cx
  rewrite_loop buf buf_cursor ((reloc_start, rewriter) ∷ replacements) writer cx =
      let more = replace buf buf_cursor reloc_start rewriter writer cx >>= λ step.
      rewrite_loop buf step.0 replacements step.1.0 step.1.1 in
      if ltb reloc_start buf_cursor
      then panic
      else if ltb (length buf) reloc_start
      then finish_rewrite buf buf_cursor writer cx
      else more

  unfoldable pub rewrite_relocated : List ℕ → W → C → List (ℕ × Rewriter W C) → Result (W × C)
  rewrite_relocated buf writer cx replacements = rewrite_loop buf 0 replacements writer cx

-- A scalar as a rewriter, which leaves the context alone.
unfoldable pub scalar : Leb128 → {W C : Type 0} ⦃w : BufWriter W⦄ → ScalarRewrite → Rewriter W C
unfolding rewrite
scalar codec value writer cx c = bind (rewrite codec value writer c) (λ writer'. pure (writer', cx))
