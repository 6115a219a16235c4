-- ===== src/Scalar.antt =====
-- src/wasmall/src/reloc.rs: `ScalarRewriteKind` and `ScalarRewrite`, the values that a relocation
-- overwrites. An `i32` is its 32-bit pattern.
pub mod Field
pub mod Rewriting
use crucible_rt.Prelude.{ℕ, ◌+◌, ◌-◌, ◌%◌, ◌^◌}
use crucible_rt.Leb.{Leb128}
use crucible_rt.Reader.{Read, Reader, bind, pure, lift}
use crucible_rt.Cursor.{
  read_u32, read_i32, read_var_u32, read_var_i32, read_var_u32_full, read_var_i32_full,
}
use crucible_rt.Writer.{BufWriter, write_u32, write_var_u32_full, write_var_i32_full}
use crucible_rt.Reloc.{RelocEntryType}
use crucible_rt.Reloc

pub data ScalarRewriteKind : Type 0 where
  var_u32 var_i32 fixed_u32 fixed_i32 : ScalarRewriteKind

pub data ScalarRewrite : Type 0 where
  var_u32 var_i32 fixed_u32 fixed_i32 : ℕ → ScalarRewrite

-- `RelocEntryType::rewrite_kind`.
unfoldable pub rewrite_kind : RelocEntryType → ScalarRewriteKind
rewrite_kind RelocEntryType.function_index_leb = var_u32
rewrite_kind RelocEntryType.table_index_sleb = var_i32
rewrite_kind RelocEntryType.table_index_i32 = fixed_u32
rewrite_kind RelocEntryType.memory_addr_leb = var_u32
rewrite_kind RelocEntryType.memory_addr_sleb = var_i32
rewrite_kind RelocEntryType.memory_addr_i32 = fixed_u32
rewrite_kind RelocEntryType.type_index_leb = var_u32
rewrite_kind RelocEntryType.global_index_leb = var_u32
rewrite_kind RelocEntryType.function_offset_i32 = fixed_u32
rewrite_kind RelocEntryType.section_offset_i32 = fixed_u32
rewrite_kind RelocEntryType.event_index_leb = var_u32
rewrite_kind RelocEntryType.global_index_i32 = fixed_u32

unfoldable pub with_value : ScalarRewriteKind → ℕ → ScalarRewrite
with_value var_u32 value = var_u32 value
with_value var_i32 value = var_i32 value
with_value fixed_u32 value = fixed_u32 value
with_value fixed_i32 value = fixed_i32 value

unfoldable pub with_zeroed : ScalarRewriteKind → ScalarRewrite
unfolding with_value
with_zeroed kind = with_value kind 0

unfoldable pub as_u32 : ScalarRewrite → ℕ
as_u32 (var_u32 v) = v
as_u32 (var_i32 v) = v
as_u32 (fixed_u32 v) = v
as_u32 (fixed_i32 v) = v

-- `i32::wrapping_neg`, and `u32::wrapping_add` (`wrapping_add_signed` is the same on patterns).
unfoldable pub wrapping_neg : ℕ → ℕ
wrapping_neg v = (2 ^ 32 - v) % 2 ^ 32

unfoldable pub wrapping_add : ℕ → ℕ → ℕ
wrapping_add a b = (a + b) % 2 ^ 32

unfoldable pub as_u32_neg_offset : ScalarRewrite → ℕ → ℕ
unfolding as_u32 wrapping_neg wrapping_add
as_u32_neg_offset s addend = wrapping_add (as_u32 s) (wrapping_neg addend)

unfoldable pub kind : ScalarRewrite → ScalarRewriteKind
kind (var_u32 v) = var_u32
kind (var_i32 v) = var_i32
kind (fixed_u32 v) = fixed_u32
kind (fixed_i32 v) = fixed_i32

module _ (codec : Leb128) where
  -- `ScalarRewriteKind::read`.
  unfoldable pub read : ScalarRewriteKind → Reader ScalarRewrite
  unfolding read_var_u32 read_var_i32 read_u32 read_i32
  read var_u32 c = bind (read_var_u32 codec c) (λ v. pure (var_u32 v))
  read var_i32 c = bind (read_var_i32 codec c) (λ v. pure (var_i32 v))
  read fixed_u32 c = bind (read_u32 c) (λ v. pure (fixed_u32 v))
  read fixed_i32 c = bind (read_i32 c) (λ v. pure (fixed_i32 v))

  module _ {W : Type 0} ⦃w : BufWriter W⦄ where
    unfoldable pub rewrite_var_u32 : ℕ → W → Reader W
    unfolding read_var_u32_full write_var_u32_full
    rewrite_var_u32 val writer c =
        bind (read_var_u32_full codec c) (λ _. lift (write_var_u32_full codec writer val))

    unfoldable pub rewrite_var_i32 : ℕ → W → Reader W
    unfolding read_var_i32_full write_var_i32_full
    rewrite_var_i32 val writer c =
        bind (read_var_i32_full codec c) (λ _. lift (write_var_i32_full codec writer val))

    unfoldable pub rewrite_u32 : ℕ → W → Reader W
    unfolding read_u32 write_u32
    rewrite_u32 val writer c = bind (read_u32 c) (λ _. pure (write_u32 writer val))

    unfoldable pub rewrite_i32 : ℕ → W → Reader W
    unfolding read_i32 write_u32
    rewrite_i32 val writer c = bind (read_i32 c) (λ _. pure (write_u32 writer val))

    -- `ScalarRewrite::rewrite`, which leaves the context alone.
    unfoldable pub rewrite : ScalarRewrite → W → Reader W
    unfolding rewrite_var_u32 rewrite_var_i32 rewrite_u32 rewrite_i32
    rewrite (var_u32 val) writer = rewrite_var_u32 val writer
    rewrite (var_i32 val) writer = rewrite_var_i32 val writer
    rewrite (fixed_u32 val) writer = rewrite_u32 val writer
    rewrite (fixed_i32 val) writer = rewrite_i32 val writer
