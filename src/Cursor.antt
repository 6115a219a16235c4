-- ===== src/Cursor.antt =====
-- src/wasmall/src/util.rs: `ByteCursor`, a byte slice that is read from the front. The cursor is the
-- list of the bytes that are left; a `usize` is at least 64 bits wide, so lengths do not wrap.
pub mod Bytes
pub mod Var
pub mod Lookahead
pub mod Wide
use crucible_rt.Prelude.{
  ℕ, ◌+◌, ◌-◌, ◌*◌, ◌^◌, ◌%◌, zero, suc, min, List, [], ◌∷◌, length, take, drop, leb, ltb, ◌==◌,
  if◌then◌else◌, Bool, true, false,
}
use crucible_rt.Leb.{Leb128, LebRead, value, overflow, unexpected_eof, other_io}
use crucible_rt.Result.{Error, short_read, leb_overflow, leb_eof, wrong_width}
use crucible_rt.Reader.{Read, Reader, bind, unwrap, pure, ◌>>=◌, ◌>>◌}

unfoldable pub at_eof : List ℕ → Bool
at_eof [] = true
at_eof (b ∷ bs) = false

-- `SliceExt::limit_len`.
unfoldable pub limit_len : List ℕ → ℕ → List ℕ
limit_len xs len = take (min (length xs) len) xs

unfoldable pub peek : ℕ → Reader (List ℕ)
peek count c =
    if leb count (length c) then Read.ok (take count c) c else Read.err (short_read count) c

unfoldable pub consume : ℕ → Reader (List ℕ)
consume count c =
    if leb count (length c)
    then Read.ok (take count c) (drop count c)
    else Read.err (short_read count) c

unfoldable pub advance : ℕ → Reader (Unit {0})
unfolding consume
advance count c = unwrap (bind (consume count c) (λ _. pure tt))

-- The fork is kept only if the closure succeeds.
unfoldable pub lookahead {ℓ} : {A : Type ℓ} → Reader A → Reader A
lookahead f c = elim (f c) [
  | Read.ok a fork ↦ Read.ok a fork
  | Read.err e fork ↦ Read.err e c
  | Read.panic ↦ Read.panic
  | Read.stuck ↦ Read.stuck
]

-- The bytes that the closure consumed, with its result.
unfoldable pub get_slice_read {ℓ} : {A : Type ℓ} → Reader A → Reader (A × List ℕ)
get_slice_read f c = bind (f c) λ res rest.
    if ltb (length c) (length rest)
    then Read.panic
    else Read.ok (res, take (length c - length rest) c) rest

-- `uN::from_le_bytes`.
unfoldable pub from_le_bytes : List ℕ → ℕ
from_le_bytes [] = 0
from_le_bytes (b ∷ bs) = b + 256 * from_le_bytes bs

unfoldable pub read_le : ℕ → Reader ℕ
unfolding consume
read_le n = do bs ← consume n; pure (from_le_bytes bs)

unfoldable pub read_u8 : Reader ℕ
unfolding read_le
read_u8 = read_le 1

unfoldable pub read_u32 : Reader ℕ
unfolding read_le
read_u32 = read_le 4

unfoldable pub read_i32 : Reader ℕ
unfolding read_le
read_i32 = read_le 4

unfoldable pub read_u64 : Reader ℕ
unfolding read_le
read_u64 = read_le 8

unfoldable pub read_i64 : Reader ℕ
unfolding read_le
read_i64 = read_le 8

-- The end of each `read_var_*`: the cursor advances by what the crate took off its own slice.
unfoldable pub finish_var : ℕ → (ℕ → ℕ) → LebRead → Reader ℕ
unfolding advance
finish_var start_len cast (value v reader) c =
    if ltb start_len (length reader)
    then Read.panic
    else bind (advance (start_len - length reader) c) (λ _. pure (cast v))
finish_var start_len cast overflow c = Read.err leb_overflow c
finish_var start_len cast unexpected_eof c = Read.err leb_eof c
finish_var start_len cast other_io c = Read.panic

-- Inside `read_expecting_width`: the width is checked before the closure's own error is returned.
unfoldable pub check_width {ℓ} : {A : Type ℓ} → ℕ → ℕ → Read A → Read A
check_width width start (Read.ok a c) =
    if ltb start (length c)
    then Read.panic
    else if start - length c == width
    then Read.ok a c
    else Read.err wrong_width c
check_width width start (Read.err e c) =
    if ltb start (length c)
    then Read.panic
    else if start - length c == width
    then Read.err e c
    else Read.err wrong_width c
check_width width start Read.panic = Read.panic
check_width width start Read.stuck = Read.stuck

unfoldable pub read_expecting_width {ℓ} : {A : Type ℓ} → ℕ → Reader A → Reader A
unfolding lookahead check_width
read_expecting_width width f = lookahead (λ c. check_width width (length c) (f c))

-- `as u32` and `as i32` of a 64-bit value, and a value that is returned as it is.
abbrev pub as_32 : ℕ → ℕ
as_32 v = v % 2 ^ 32

abbrev pub as_64 : ℕ → ℕ
as_64 v = v

module _ (codec : Leb128) where
  unfoldable pub read_var_u32 : Reader ℕ
  unfolding limit_len finish_var
  read_var_u32 c =
      let reader = limit_len c 5 in finish_var (length reader) as_32 (codec.read_unsigned reader) c

  unfoldable pub read_var_i32 : Reader ℕ
  unfolding limit_len finish_var
  read_var_i32 c =
      let reader = limit_len c 5 in finish_var (length reader) as_32 (codec.read_signed reader) c

  -- The 64-bit readers measure the cursor, not the limited slice that the crate reads.
  unfoldable pub read_var_u64 : Reader ℕ
  unfolding limit_len finish_var
  read_var_u64 c =
      let reader = limit_len c 10 in finish_var (length c) as_64 (codec.read_unsigned reader) c

  unfoldable pub read_var_i64 : Reader ℕ
  unfolding limit_len finish_var
  read_var_i64 c =
      let reader = limit_len c 10 in finish_var (length c) as_64 (codec.read_signed reader) c

  unfoldable pub read_var_u32_full : Reader ℕ
  unfolding read_expecting_width read_var_u32
  read_var_u32_full = read_expecting_width 5 read_var_u32

  unfoldable pub read_var_i32_full : Reader ℕ
  unfolding read_expecting_width read_var_i32
  read_var_i32_full = read_expecting_width 5 read_var_i32

  unfoldable pub read_var_u64_full : Reader ℕ
  unfolding read_expecting_width read_var_u64
  read_var_u64_full = read_expecting_width 10 read_var_u64

  unfoldable pub read_var_i64_full : Reader ℕ
  unfolding read_expecting_width read_var_i64
  read_var_i64_full = read_expecting_width 10 read_var_i64
