-- ===== src/Cursor/Lookahead.antt =====
-- `lookahead` and `read_expecting_width` of src/wasmall/src/util.rs.
use crucible_rt.Prelude.{
  ℕ, ◌+◌, ◌-◌, ◌≡◌, refl, arith, List, ◌++◌, length, length-append, le→ltb_false, ◌==◌, true,
  ==_iff,
}
use crucible_rt.Result.{Error}
use crucible_rt.Reader.{Read, Reader}
use crucible_rt.Cursor.{lookahead, check_width, read_expecting_width}

module _ {ℓ} {A : Type ℓ} where
  pub lookahead_ok :
      (f : Reader A) (c c' : List ℕ) (a : A) → f c ≡ Read.ok a c' → lookahead f c ≡ Read.ok a c'
  unfolding lookahead
  lookahead_ok f c c' a e = rw (e, lookahead)

  check_width_ok :
      (width start : ℕ) (a : A) (c : List ℕ)
      → start ≡ width + length c
      → check_width width start (Read.ok a c) ≡ Read.ok a c
  unfolding check_width
  check_width_ok width start a c e =
      let same : (start - length c == width) ≡ true =
        (==_iff (start - length c) width).1 (omega arith) in
      rw (le→ltb_false start (length c) (omega arith), same)

  -- When the closure reads a front of the expected width, `read_expecting_width` gives its result
  -- and leaves what follows.
  pub read_expecting_width-append :
      (width : ℕ) (f : Reader A) (bs rest : List ℕ) (a : A)
      → length bs ≡ width
      → f (bs ++ rest) ≡ Read.ok a rest
      → read_expecting_width width f (bs ++ rest) ≡ Read.ok a rest
  read_expecting_width-append width f bs rest a e h =
      unfold read_expecting_width in
      lookahead_ok (λ c. check_width width (length c) (f c)) (bs ++ rest) rest a
        (rw h (
          check_width_ok width (length (bs ++ rest)) a rest (omega (arith, length-append bs rest))))

  lookahead_read : Read A → List ℕ → Read A
  lookahead_read (Read.ok a fork) c = Read.ok a fork
  lookahead_read (Read.err e fork) c = Read.err e c
  lookahead_read Read.panic c = Read.panic
  lookahead_read Read.stuck c = Read.stuck

  lookahead_read_keeps :
      (r : Read A) (c c' : List ℕ) (e : Error) → lookahead_read r c ≡ Read.err e c' → c' ≡ c
  unfolding lookahead_read
  lookahead_read_keeps (Read.ok a fork) c c' e h = cc
  lookahead_read_keeps (Read.err x fork) c c' e h = cc
  lookahead_read_keeps Read.panic c c' e h = cc
  lookahead_read_keeps Read.stuck c c' e h = cc

  lookahead-eq : (f : Reader A) (c : List ℕ) → lookahead f c ≡ lookahead_read (f c) c
  unfolding lookahead lookahead_read
  lookahead-eq f c = elim (f c) as (λ r. lookahead (λ _. r) c ≡ lookahead_read r c) [
    | Read.ok a fork ↦ refl
    | Read.err e fork ↦ refl
    | Read.panic ↦ refl
    | Read.stuck ↦ refl
  ]

  -- A failed lookahead leaves the cursor where it was, wherever the closure stopped.
  pub lookahead_atomic :
      (f : Reader A) (c c' : List ℕ) (e : Error) → lookahead f c ≡ Read.err e c' → c' ≡ c
  lookahead_atomic f c c' e h = lookahead_read_keeps (f c) c c' e (rw lookahead-eq at h)
