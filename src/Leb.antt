-- ===== src/Leb.antt =====
-- The `leb128` crate, which src/wasmall/src/util.rs calls and which is not in the repository: its four
-- functions are a parameter, and `IsLeb128` states what its documentation and the LEB128 format
-- promise of them. A byte is a number below 256; an `i64` is its 64-bit pattern.
pub mod Format
pub mod Values
pub mod Reference
use crucible_rt.Prelude.{ℕ, ◌+◌, ◌-◌, ◌*◌, ◌^◌, ◌≤◌, ◌<◌, ◌≡◌, List, ◌++◌, length, suc}
use crucible_rt.Leb.Format.{IsLeb, Continues, groups, signed_groups}

-- What `leb128::read::unsigned` and `leb128::read::signed` answer on a byte slice: a value and the
-- slice that is left, or one of the crate's errors. `other_io` is an I/O error of another kind than
-- `UnexpectedEof`.
pub data LebRead : Type 0 where
  value : ℕ → List ℕ → LebRead
  overflow unexpected_eof other_io : LebRead

-- A written number is the bytes that the crate hands to its writer.
pub record Leb128 : Type 0 where
  pub read_unsigned : List ℕ → LebRead
  pub read_signed : List ℕ → LebRead
  pub write_unsigned : ℕ → List ℕ
  pub write_signed : ℕ → List ℕ

-- The documented behaviour: one encoding is read off the front of any input, an input that ends
-- inside a number is an end of file, and a number is written as one encoding, with no more
-- groups of seven bits than it needs.
pub record IsLeb128 (l : Leb128) : Type 0 where
  pub reads_unsigned :
      (bs rest : List ℕ)
      → IsLeb bs
      → length bs ≤ 9
      → l.read_unsigned (bs ++ rest) ≡ value (groups bs) rest
  pub reads_signed :
      (bs rest : List ℕ)
      → IsLeb bs
      → length bs ≤ 9
      → l.read_signed (bs ++ rest) ≡ value (signed_groups bs) rest
  pub ends_unsigned :
      (bs : List ℕ) → Continues bs → length bs ≤ 9 → l.read_unsigned bs ≡ unexpected_eof
  pub ends_signed : (bs : List ℕ) → Continues bs → length bs ≤ 9 → l.read_signed bs ≡ unexpected_eof
  pub writes_unsigned :
      (v : ℕ) → v < 2 ^ 64 → IsLeb (l.write_unsigned v) × (groups (l.write_unsigned v) ≡ v)
  pub writes_signed :
      (v : ℕ) → v < 2 ^ 64 → IsLeb (l.write_signed v) × (signed_groups (l.write_signed v) ≡ v)
  pub short_unsigned :
      (v k : ℕ) → v < 2 ^ 64 → v < 128 ^ suc k → length (l.write_unsigned v) ≤ suc k
  pub short_pos : (v k : ℕ) → v < 2 ^ 63 → v < 64 * 128 ^ k → length (l.write_signed v) ≤ suc k
  pub short_neg :
      (v k : ℕ)
      → v < 2 ^ 64
      → 2 ^ 63 ≤ v
      → 2 ^ 64 ≤ v + 64 * 128 ^ k
      → length (l.write_signed v) ≤ suc k
