-- ===== src/Writer.antt =====
-- src/wasmall/src/util.rs: `BufWriter`, its two writers and the integers that `Leb128WriteExt` writes.
pub mod Padding
pub mod Var
pub mod RoundTrip
pub mod Negative
use crucible_rt.Prelude.{
  ℕ, zero, suc, ◌+◌, ◌-◌, ◌*◌, ◌/◌, ◌%◌, ◌^◌, List, [], ◌∷◌, ◌++◌, length, Option, none, some, ltb,
  leb, ◌==◌, if◌then◌else◌, Bool, true, false,
}
use mathlib.Core.Option
use crucible_rt.Leb.{Leb128}
use crucible_rt.Result.{Result, ok, panic, ◌>>=◌}
use Prim.Native.Nat.{bit_or}

-- The trait: `push` is `extend` by one byte for each writer.
pub record BufWriter (W : Type 0) : Type 0 where
  pub extend : W → List ℕ → W

-- `Vec<u8>` and `LenCounter`.
instance abbrev pub vec_writer : BufWriter (List ℕ)
vec_writer = record { extend = λ out v. out ++ v }

instance abbrev pub len_counter : BufWriter ℕ
len_counter = record { extend = λ count v. count + length v }

-- `uN::to_le_bytes`, in n bytes.
unfoldable pub to_le_bytes : ℕ → ℕ → List ℕ
to_le_bytes zero v = []
to_le_bytes (suc n) v = (v % 256) ∷ to_le_bytes n (v / 256)

-- `*data.last_mut().unwrap() |= 0x80`; none is the panic on an empty slice.
unfoldable pub set_last : List ℕ → Option (List ℕ)
set_last [] = none
set_last (b ∷ []) = some (bit_or b 0x80 ∷ [])
set_last (b ∷ c ∷ bs) = Option.map (λ l. b ∷ l) (set_last (c ∷ bs))

module _ {W : Type 0} ⦃w : BufWriter W⦄ where
  unfoldable pub write_u8 : W → ℕ → W
  write_u8 out v = w.extend out (v ∷ [])

  -- `write_u32` and `write_i32`; `write_u64` and `write_i64`.
  unfoldable pub write_u32 : W → ℕ → W
  unfolding to_le_bytes
  write_u32 out v = w.extend out (to_le_bytes 4 v)

  unfoldable pub write_u64 : W → ℕ → W
  unfolding to_le_bytes
  write_u64 out v = w.extend out (to_le_bytes 8 v)

  -- `for i in 1..=extra`, from round i on.
  unfoldable pub push_extra : ℕ → ℕ → ℕ → W → W
  push_extra zero i extra out = out
  push_extra (suc rounds) i extra out =
      push_extra rounds (i + 1) extra (w.extend out ((if i == extra then 0 else 0x80) ∷ []))

  unfoldable pub pad : List ℕ → ℕ → W → Result W
  unfolding set_last push_extra
  pad bs width out = elim (set_last bs) [
    | none ↦ panic
    | some marked ↦
        let extra = width - length bs in ok (push_extra extra 1 extra (w.extend out marked))
  ]

  unfoldable pub write_leb_zero_extended : W → List ℕ → Option ℕ → Result W
  unfolding pad
  write_leb_zero_extended out bs none = ok (w.extend out bs)
  write_leb_zero_extended out bs (some width) =
      if ltb (length bs) width then pad bs width out else ok (w.extend out bs)

  -- The crate writes into an array of `size` bytes; what does not fit is an error, and unwrapped.
  unfoldable pub write_var : ℕ → List ℕ → W → Option ℕ → Result W
  unfolding write_leb_zero_extended
  write_var size written out min_width =
      if leb (length written) size then write_leb_zero_extended out written min_width else panic

-- `i64::from` of an `i32`, on bit patterns.
unfoldable pub sign_extend : ℕ → ℕ
sign_extend v = if ltb v (2 ^ 31) then v else v + (2 ^ 64 - 2 ^ 32)

module _ (codec : Leb128) {W : Type 0} ⦃w : BufWriter W⦄ where
  unfoldable pub write_var_u32_with_width : W → ℕ → Option ℕ → Result W
  unfolding write_var
  write_var_u32_with_width out v = write_var 5 (codec.write_unsigned v) out

  unfoldable pub write_var_i32_with_width : W → ℕ → Option ℕ → Result W
  unfolding write_var sign_extend
  write_var_i32_with_width out v = write_var 5 (codec.write_signed (sign_extend v)) out

  unfoldable pub write_var_u64_with_width : W → ℕ → Option ℕ → Result W
  unfolding write_var
  write_var_u64_with_width out v = write_var 10 (codec.write_unsigned v) out

  unfoldable pub write_var_i64_with_width : W → ℕ → Option ℕ → Result W
  unfolding write_var
  write_var_i64_with_width out v = write_var 10 (codec.write_signed v) out

  unfoldable pub write_var_u32 : W → ℕ → Result W
  unfolding write_var_u32_with_width
  write_var_u32 out v = write_var_u32_with_width out v none

  unfoldable pub write_var_i32 : W → ℕ → Result W
  unfolding write_var_i32_with_width
  write_var_i32 out v = write_var_i32_with_width out v none

  unfoldable pub write_var_u64 : W → ℕ → Result W
  unfolding write_var_u64_with_width
  write_var_u64 out v = write_var_u64_with_width out v none

  unfoldable pub write_var_i64 : W → ℕ → Result W
  unfolding write_var_i64_with_width
  write_var_i64 out v = write_var_i64_with_width out v none

  unfoldable pub write_var_u32_full : W → ℕ → Result W
  unfolding write_var_u32_with_width
  write_var_u32_full out v = write_var_u32_with_width out v (some 5)

  unfoldable pub write_var_i32_full : W → ℕ → Result W
  unfolding write_var_i32_with_width
  write_var_i32_full out v = write_var_i32_with_width out v (some 5)

  unfoldable pub write_var_u64_full : W → ℕ → Result W
  unfolding write_var_u64_with_width
  write_var_u64_full out v = write_var_u64_with_width out v (some 10)

  unfoldable pub write_var_i64_full : W → ℕ → Result W
  unfolding write_var_i64_with_width
  write_var_i64_full out v = write_var_i64_with_width out v (some 10)

-- `len_of`: the closure is given an empty counter.
unfoldable pub len_of : (ℕ → Result ℕ) → Result ℕ
len_of f = f 0
