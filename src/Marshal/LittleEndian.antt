-- ===== src/Marshal/LittleEndian.antt =====
-- The little-endian types of src/marshal/src/lib.rs (`define_le`) on a machine of either endianness. A number of n bytes
-- is its pattern.
use crucible_rt.Prelude.{
  ℕ, ◌^◌, ◌<◌, ◌≡◌, refl, ap, ap₂, sym, ◌∙◌, subst, arith, List, [], ◌∷◌, length, length-append,
  All, All-append, Bool, true, false,
}
use mathlib.Core.List.{reverse, reverse-reverse, reverse-cons}
use crucible_rt.Cursor.{from_le_bytes}
use crucible_rt.Cursor.Bytes.{
  IsByte, to_le_bytes-IsByte, length-to_le_bytes, from_le_bytes-to_le_bytes,
}
use crucible_rt.Writer.{to_le_bytes}

-- `swap_bytes`, and the bytes of a number in the machine's memory.
unfoldable pub swap_bytes : ℕ → ℕ → ℕ
swap_bytes n v = from_le_bytes (reverse (to_le_bytes n v))

unfoldable pub native_bytes : Bool → ℕ → ℕ → List ℕ
native_bytes false n v = to_le_bytes n v
native_bytes true n v = reverse (to_le_bytes n v)

-- `new` and `get`: `to_le` and `from_le` of the machine.
unfoldable pub le_new : Bool → ℕ → ℕ → ℕ
le_new false n value = value
le_new true n value = swap_bytes n value

unfoldable pub le_get : Bool → ℕ → ℕ → ℕ
le_get false n me = me
le_get true n me = swap_bytes n me

to_le_bytes-from_le_bytes :
    (bs : List ℕ) → All IsByte bs → to_le_bytes (length bs) (from_le_bytes bs) ≡ bs
unfolding to_le_bytes from_le_bytes
to_le_bytes-from_le_bytes [] h = refl
to_le_bytes-from_le_bytes (b ∷ bs) h =
    ap₂ (λ x l. x ∷ l) (omega arith)
      (ap (to_le_bytes (length bs)) (omega arith) ∙ to_le_bytes-from_le_bytes bs h.1)

length-reverse : (bs : List ℕ) → length (reverse bs) ≡ length bs
length-reverse [] = refl
length-reverse (b ∷ bs) =
    ap length (reverse-cons b bs)
    ∙ length-append (reverse bs) (b ∷ [])
    ∙ (omega (arith, length-reverse bs))

reverse-IsByte : (bs : List ℕ) → All IsByte bs → All IsByte (reverse bs)
reverse-IsByte [] h = tt
reverse-IsByte (b ∷ bs) h =
    subst (All IsByte) (sym (reverse-cons b bs))
      (All-append IsByte (reverse bs) (b ∷ []) (reverse-IsByte bs h.1) (h.0, tt))

-- The bytes of a swapped number are those of the number, reversed.
to_le_bytes-swap_bytes : (n v : ℕ) → to_le_bytes n (swap_bytes n v) ≡ reverse (to_le_bytes n v)
to_le_bytes-swap_bytes n v =
    let bs = reverse (to_le_bytes n v) in
    let size : length bs ≡ n = length-reverse (to_le_bytes n v) ∙ length-to_le_bytes n v in
    unfold swap_bytes in
    subst (λ (k : ℕ). to_le_bytes k (from_le_bytes bs) ≡ bs) size
      (to_le_bytes-from_le_bytes bs (reverse-IsByte (to_le_bytes n v) (to_le_bytes-IsByte n v)))

-- On a little-endian and on a big-endian machine alike, a number of n bytes comes back from its
-- little-endian type, and what lies in memory are its little-endian bytes.
pub le_get-le_new :
    (big : Bool) (n v : ℕ)
    → v < 256 ^ n
    → (le_get big n (le_new big n v) ≡ v) × (native_bytes big n (le_new big n v) ≡ to_le_bytes n v)
unfolding le_get le_new native_bytes
le_get-le_new false n v h = (refl, refl)
le_get-le_new true n v h =
    let back = ap reverse (to_le_bytes-swap_bytes n v) ∙ reverse-reverse (to_le_bytes n v) in
    (unfold swap_bytes in ap from_le_bytes back ∙ from_le_bytes-to_le_bytes n v h, back)
