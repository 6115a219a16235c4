-- ===== src/Cursor/Wide.antt =====
-- The 64-bit LEB128 readers of src/wasmall/src/util.rs.
use crucible_rt.Prelude.{
  ℕ, ◌-◌, ◌≤◌, ◌≡◌, ap, ◌∙◌, arith, List, ◌++◌, length, take, drop, min, length-append, length-take,
  drop-append, le→ltb_false, le→leb,
}
use crucible_rt.Leb.{Leb128, IsLeb128, value}
use crucible_rt.Leb.Format.{IsLeb, groups}
use crucible_rt.Reader.{Read}
use crucible_rt.Cursor.{read_var_u64, finish_var, as_64, advance, consume}
use crucible_rt.Cursor.Bytes.{limit_len-append}

advance-drop : (n : ℕ) (c : List ℕ) → n ≤ length c → advance n c ≡ Read.ok tt (drop n c)
unfolding advance consume
advance-drop n c h = rw (le→leb n (length c) h)

finish_var-drop :
    (v start : ℕ) (t c : List ℕ)
    → length t ≤ start
    → start ≤ length c
    → finish_var start as_64 (value v t) c ≡ Read.ok v (drop (start - length t) c)
finish_var-drop v start t c h k =
    unfold finish_var in
    rw (le→ltb_false start (length t) h, advance-drop (start - length t) c (omega arith))

-- With a LEB128 codec as documented, `read_var_u64` at a number of at most nine bytes gives the
-- number. With at most ten bytes left the cursor then stands behind it; with ten or more it has as
-- many bytes left as the number is shorter than ten.
pub read_var_u64-append :
    (codec : Leb128)
    → IsLeb128 codec
    → (bs rest : List ℕ) → IsLeb bs
    → length bs ≤ 9
    → (length (bs ++ rest) ≤ 10 → read_var_u64 codec (bs ++ rest) ≡ Read.ok (groups bs) rest)
      × (10 ≤ length (bs ++ rest)
          → read_var_u64 codec (bs ++ rest)
            ≡ Read.ok (groups bs) (drop (length (bs ++ rest) - (10 - length bs)) (bs ++ rest)))
read_var_u64-append codec laws bs rest leb short =
    let t = take (min (length (bs ++ rest)) 10 - length bs) rest in
    let lengths = length-append bs rest in
    let taken = length-take (min (length (bs ++ rest)) 10 - length bs) rest in
    let read : read_var_u64 codec (bs ++ rest)
        ≡ Read.ok (groups bs) (drop (length (bs ++ rest) - length t) (bs ++ rest)) =
      unfold read_var_u64 in
      rw (
        limit_len-append 10 bs rest (omega arith),
        laws.reads_unsigned bs t leb short,
        finish_var-drop (groups bs) (length (bs ++ rest)) t (bs ++ rest) (omega arith)
            (omega arith),
      ) in
    (
      λ h.
          read
          ∙ ap (λ l. Read.ok (groups bs) l)
              (drop-append (length (bs ++ rest) - length t) bs rest (omega arith)),
      λ h.
          read
          ∙ ap (λ (n : ℕ). Read.ok (groups bs) (drop (length (bs ++ rest) - n) (bs ++ rest)))
              (omega arith),
    )
