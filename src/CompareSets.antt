-- ===== src/CompareSets.antt =====
-- src/wasmall/src/bin/compare_sets.rs: which blobs two modules have and do not share, and how their archives' sizes
-- compare to theirs. A set of hashes is a list, in the order of its iteration; a line is its sign and hash, and the
-- percentages that are printed are left out.
pub mod Lines
use crucible_rt.Prelude.{
  ℕ, ◌-◌, List, [], ◌∷◌, ◌++◌, length, map, Bool, true, false, not, if◌then◌else◌, Option, none,
  some,
}
use crucible_rt.Hashes.{hash_eq}
use crucible_rt.Result.{Result, ok, ◌>>=◌}
use crucible_rt.Coder.{Range}
use crucible_rt.Splitter.{Crates, checked_sub}
use crucible_rt.Splitter.Module.{SplitModuleResult, split_module}

unfoldable pub contains : List ℕ → List (List ℕ) → Bool
contains h [] = false
contains h (x ∷ set) = if hash_eq x h then true else contains h set

-- `difference`, and `symmetric_difference`, which is one difference and then the other.
unfoldable pub difference : List (List ℕ) → List (List ℕ) → List (List ℕ)
difference [] other = []
difference (h ∷ set) other =
    let rest = difference set other in if contains h other then rest else h ∷ rest

unfoldable pub symmetric_difference : List (List ℕ) → List (List ℕ) → List (List ℕ)
unfolding difference
symmetric_difference left right = difference left right ++ difference right left

pub data Line : Type 0 where
  minus : List ℕ → Line
  plus : List ℕ → Line

unfoldable pub diff_line : List (List ℕ) → List ℕ → Line
unfolding contains
diff_line left_set diff = if contains diff left_set then minus diff else plus diff

abbrev pub hash_set : SplitModuleResult → List (List ℕ)
hash_set m = map (λ entry. entry.0) m.archive.hashes

-- What is printed: the lines, and for each side the archive's size and the module's without what was
-- truncated.
pub record Report : Type 0 where
  pub lines : List Line
  pub left : ℕ × ℕ
  pub right : ℕ × ℕ

unfoldable pub compare_sets : Crates → List ℕ → List ℕ → Result Report
unfolding symmetric_difference diff_line
compare_sets crates left_src right_src = do
  left_mod ← split_module crates left_src
  right_mod ← split_module crates right_src
  left_len ← checked_sub (length left_src) left_mod.bytes_truncated
  right_len ← checked_sub (length right_src) right_mod.bytes_truncated
  let left_set = hash_set left_mod
  let right_set = hash_set right_mod
  ok (record {
    lines = map (diff_line left_set) (symmetric_difference left_set right_set);
    left = (length left_mod.archive.out_buf, left_len);
    right = (length right_mod.archive.out_buf, right_len);
  })
