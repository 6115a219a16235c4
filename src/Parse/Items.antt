-- ===== src/Parse/Items.antt =====
-- Loops over a `ByteParseList` of src/wasmall/src/util.rs whose bytes are items one after the other.
use crucible_rt.Prelude.{
  ℕ, zero, suc, ◌<◌, ◌≡◌, refl, ap, sym, ◌∙◌, arith, List, [], ◌∷◌, ◌++◌, length, length-append,
  append_assoc, append-nil, false, some,
}
use mathlib.Core.Path.{fun_ext}
use crucible_rt.Result.{Result, ok, ◌>>=◌}
use crucible_rt.Reader.{Read, Reader}
use crucible_rt.Cursor.{at_eof}
use crucible_rt.Cursor.Lookahead.{lookahead_ok}
use crucible_rt.Parse.{parse, next, for_each, for_all, collect, push_back}

at_eof_pos : (l : List ℕ) → 0 < length l → at_eof l ≡ false
unfolding at_eof
at_eof_pos [] h = absurd (omega arith)
at_eof_pos (b ∷ bs) h = refl

pub parse_ok {ℓ} :
    {A : Type ℓ} (f : Reader A) (c c' : List ℕ) (a : A)
    → f c ≡ Read.ok a c'
    → parse f c ≡ Read.ok a c'
parse_ok f c c' a e = unfold parse in lookahead_ok f c c' a e

-- A body run on each item in order.
unfoldable pub fold_items {ℓ κ} :
    {A : Type ℓ} {S : Type κ} → (A → S → Result S) → List A → S → Result S
fold_items body [] s = ok s
fold_items body (a ∷ as_) s = body a s >>= λ s'. fold_items body as_ s'

module _ {ℓ} {A : Type ℓ} (parser : Reader A) (bytes : A → List ℕ) where
  -- The parser reads this item off the front of its bytes, and the item has bytes.
  abbrev pub Reads : A → Type ℓ
  Reads a = ((rest : List ℕ) → parser (bytes a ++ rest) ≡ Read.ok a rest) × (0 < length (bytes a))

  abbrev pub AllReads : List A → Type ℓ
  AllReads [] = Unit {ℓ}
  AllReads (a ∷ as_) = Reads a × AllReads as_

  unfoldable pub items_bytes : List A → List ℕ
  items_bytes [] = []
  items_bytes (a ∷ as_) = bytes a ++ items_bytes as_

  next_item :
      (a : A) (rest : List ℕ) → Reads a → next parser (bytes a ++ rest) ≡ some (Read.ok a rest)
  next_item a rest h =
      unfold next in
      rw (
        at_eof_pos (bytes a ++ rest) (omega (arith, length-append (bytes a) rest)),
        parse_ok parser (bytes a ++ rest) rest a (h.0 rest),
      )

  module _ {κ} {S : Type κ} (body : A → S → Result S) where
    for_each-next :
        (fuel : ℕ) (a : A) (cursor rest : List ℕ) (s : S)
        → next parser cursor ≡ some (Read.ok a rest)
        → for_each parser body (suc fuel) cursor s
          ≡ (body a s >>= λ s'. for_each parser body fuel rest s')
    for_each-next fuel a cursor rest s e = unfold for_each in rw (e, for_each)

    for_each_items :
        (fuel : ℕ) (as_ : List A) (s : S)
        → AllReads as_
        → length (items_bytes as_) < fuel
        → for_each parser body fuel (items_bytes as_) s ≡ fold_items body as_ s
    unfolding items_bytes fold_items
    for_each_items zero as_ s h e = absurd (omega arith)
    for_each_items (suc fuel) [] s h e = unfold for_each next at_eof in refl
    for_each_items (suc fuel) (a ∷ as_) s h e =
        for_each-next fuel a (bytes a ++ items_bytes as_) (items_bytes as_) s
          (next_item a (items_bytes as_) h.0)
        ∙ ap (λ k. body a s >>= k)
            (fun_ext (λ s'.
              for_each_items fuel as_ s' h.1
                (omega (arith, h.0.1, length-append (bytes a) (items_bytes as_)))))

    -- Over a list whose bytes are items that the parser reads off the front, each of one byte at
    -- least, the loop runs its body on each item in order and never runs out of its fuel, one more
    -- than the bytes.
    pub for_all_items :
        (as_ : List A) (s : S)
        → AllReads as_
        → for_all parser body (items_bytes as_) s ≡ fold_items body as_ s
    for_all_items as_ s h =
        unfold for_all in for_each_items (suc (length (items_bytes as_))) as_ s h (omega arith)

  collect_fold : (as_ out : List A) → fold_items (push_back parser) as_ out ≡ ok (out ++ as_)
  unfolding fold_items
  collect_fold [] out = ap ok (sym (append-nil out))
  collect_fold (a ∷ as_) out =
      collect_fold as_ (out ++ (a ∷ [])) ∙ ap ok (append_assoc out (a ∷ []) as_)

  pub collect_items : (as_ : List A) → AllReads as_ → collect parser (items_bytes as_) ≡ ok as_
  collect_items as_ h =
      unfold collect in for_all_items (push_back parser) as_ [] h ∙ collect_fold as_ []
