-- ===== src/Cursor/Bytes.antt =====
-- Reads of a known front off a cursor, for `ByteCursor` of src/wasmall/src/util.rs.
use crucible_rt.Prelude.{
  ap, ◌∙◌, ℕ, zero, suc, ◌-◌, ◌/◌, ◌^◌, ◌≤◌, ◌<◌, min, ◌≡◌, refl, arith, All, List, ◌++◌, length,
  take, length-append, take-append, drop-append, take-append_long, le→leb, le→ltb_false,
  lt→leb_false,
}
use crucible_rt.Leb.{value}
use crucible_rt.Result.{short_read}
use crucible_rt.Reader.{Read}
use crucible_rt.Cursor.{consume, advance, finish_var, limit_len, from_le_bytes, read_le, read_u32}
use crucible_rt.Writer.{to_le_bytes, write_u32, vec_writer}

pub consume-append :
    (n : ℕ) (bs rest : List ℕ) → n ≡ length bs → consume n (bs ++ rest) ≡ Read.ok bs rest
unfolding consume
consume-append n bs rest e = rw (
  le→leb n (length (bs ++ rest)) (omega (arith, length-append bs rest)),
  take-append n bs rest e,
  drop-append n bs rest e,
)

pub consume_short :
    (n : ℕ) (bs : List ℕ) → length bs < n → consume n bs ≡ Read.err (short_read n) bs
unfolding consume
consume_short n bs h = rw (lt→leb_false n (length bs) h)

pub advance-append :
    (n : ℕ) (bs rest : List ℕ) → n ≡ length bs → advance n (bs ++ rest) ≡ Read.ok tt rest
advance-append n bs rest e = unfold advance in rw (consume-append n bs rest e)

-- The crate took `bs` off a slice that goes on with `t`, and the cursor goes on with `rest`.
pub finish_var-append :
    (cast : ℕ → ℕ) (v : ℕ) (bs t rest : List ℕ)
    → finish_var (length (bs ++ t)) cast (value v t) (bs ++ rest) ≡ Read.ok (cast v) rest
finish_var-append cast v bs t rest =
    let lengths = length-append bs t in
    unfold finish_var in
    rw (
      le→ltb_false (length (bs ++ t)) (length t) (omega arith),
      advance-append (length (bs ++ t) - length t) bs rest (omega arith),
    )

-- A front within the limit is kept whole.
pub limit_len-append :
    (n : ℕ) (bs rest : List ℕ)
    → length bs ≤ n
    → limit_len (bs ++ rest) n ≡ bs ++ take (min (length (bs ++ rest)) n - length bs) rest
unfolding limit_len
limit_len-append n bs rest h =
    take-append_long (min (length (bs ++ rest)) n) bs rest (omega (arith, length-append bs rest))

abbrev pub IsByte : ℕ → Type 0
IsByte b = b < 256

pub to_le_bytes-IsByte : (n v : ℕ) → All IsByte (to_le_bytes n v)
unfolding to_le_bytes
to_le_bytes-IsByte zero v = tt
to_le_bytes-IsByte (suc n) v = (omega arith, to_le_bytes-IsByte n (v / 256))

pub length-to_le_bytes : (n v : ℕ) → length (to_le_bytes n v) ≡ n
unfolding to_le_bytes
length-to_le_bytes zero v = refl
length-to_le_bytes (suc n) v = omega (arith, length-to_le_bytes n (v / 256))

-- A number below 256^n is what its n little-endian bytes stand for.
pub from_le_bytes-to_le_bytes : (n v : ℕ) → v < 256 ^ n → from_le_bytes (to_le_bytes n v) ≡ v
unfolding to_le_bytes from_le_bytes
from_le_bytes-to_le_bytes zero v h = omega arith
from_le_bytes-to_le_bytes (suc n) v h =
    omega (arith, from_le_bytes-to_le_bytes n (v / 256) (omega arith))

pub read_le-append :
    (n : ℕ) (bs rest : List ℕ)
    → length bs ≡ n
    → read_le n (bs ++ rest) ≡ Read.ok (from_le_bytes bs) rest
read_le-append n bs rest e = unfold read_le in rw (consume-append n bs rest (omega arith))

-- A `u32` that is written at fixed width takes four bytes and is read back, and nothing behind it
-- is consumed.
pub read_u32-write_u32 :
    (v : ℕ) (out rest : List ℕ)
    → v < 2 ^ 32
    → (bs : List ℕ) × (write_u32 out v ≡ out ++ bs)
      × (read_u32 (bs ++ rest) ≡ Read.ok v rest)
      × (length bs ≡ 4)
read_u32-write_u32 v out rest h = (
  to_le_bytes 4 v,
  unfold write_u32 in refl,
  unfold read_u32 in
      read_le-append 4 (to_le_bytes 4 v) rest (length-to_le_bytes 4 v)
      ∙ ap (λ (n : ℕ). Read.ok n rest) (from_le_bytes-to_le_bytes 4 v (omega arith)),
  length-to_le_bytes 4 v,
)
