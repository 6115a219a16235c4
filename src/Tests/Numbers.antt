-- ===== src/Tests/Numbers.antt =====
-- Examples of the theorems on the numbers and cursors of src/wasmall/src/util.rs.
use crucible_rt.Prelude.{
  subst, ◌≢◌, ℕ, ◌+◌, ◌-◌, ◌^◌, ◌≤◌, ◌<◌, ◌≡◌, refl, arith, List, [], ◌∷◌, ◌++◌, length, some, max,
  drop,
}
use crucible_rt.Leb.Format.{IsLeb, groups}
use crucible_rt.Leb.Reference.{reference, reference-IsLeb128}
use crucible_rt.Result.{Result}
use crucible_rt.Reader
use crucible_rt.Reader.{Read}
use crucible_rt.Cursor.{read_var_u32, read_var_i32, read_var_u64, read_u8, consume, from_le_bytes}
use crucible_rt.Cursor.Bytes.{read_le-append}
use crucible_rt.Cursor.Var.{read_var_u32-append}
use crucible_rt.Cursor.Wide.{read_var_u64-append}
use crucible_rt.Parse.{for_all}
use crucible_rt.Parse.Progress.{Progresses, for_all_ends}
use crucible_rt.Parse.Items.{Reads, items_bytes, fold_items, for_all_items}
use crucible_rt.Writer.{
  vec_writer, len_counter, write_var_u32_with_width, write_var_i32, write_var_i32_full,
}
use crucible_rt.Writer.Padding.{zero_extended, zero_extended-format, width_of}
use crucible_rt.Writer.Var.{i32_bytes}
use crucible_rt.Writer.RoundTrip.{read_var_u32-write_var_u32, read_var_i32-write_var_i32}
use crucible_rt.Writer.Negative.{read_var_i32-negative_full}
use crucible_rt.Tests.{five, five-Holds_var}

read_var_u32-write_var_u32_example :
    (bs : List ℕ) × (write_var_u32_with_width reference (1 ∷ []) 300 (some 5)
      ≡ Result.ok ((1 ∷ []) ++ bs))
    × (read_var_u32 reference (bs ++ (7 ∷ [])) ≡ Read.ok 300 (7 ∷ []))
    × (width_of (some 5) ≤ length bs)
    × (length bs ≤ 5)
read_var_u32-write_var_u32_example =
    read_var_u32-write_var_u32 reference reference-IsLeb128 300 (some 5) (1 ∷ []) (7 ∷ [])
      (omega arith) (omega arith)

read_var_i32-write_var_i32_example :
    (bs : List ℕ) × (write_var_i32 reference (1 ∷ []) (2 ^ 32 - 8) ≡ Result.ok ((1 ∷ []) ++ bs))
    × (read_var_i32 reference (bs ++ (7 ∷ [])) ≡ Read.ok (2 ^ 32 - 8) (7 ∷ []))
    × (length bs ≤ 5)
read_var_i32-write_var_i32_example =
    read_var_i32-write_var_i32 reference reference-IsLeb128 (2 ^ 32 - 8) (1 ∷ []) (7 ∷ [])
      (omega arith)

read_var_i32-negative_full_example :
    (r : ℕ) × (write_var_i32_full reference [] (2 ^ 32 - 1)
      ≡ Result.ok (i32_bytes reference (2 ^ 32 - 1) (some 5)))
    × (read_var_i32 reference (i32_bytes reference (2 ^ 32 - 1) (some 5) ++ (7 ∷ []))
        ≡ Read.ok r (7 ∷ []))
    × (r < 2 ^ 28)
read_var_i32-negative_full_example =
    read_var_i32-negative_full reference reference-IsLeb128 (2 ^ 32 - 1) (omega arith) (omega arith)
      (7 ∷ [])

abbrev twelve : List ℕ
twelve = 1 ∷ 2 ∷ 3 ∷ 4 ∷ 5 ∷ 6 ∷ 7 ∷ 8 ∷ 9 ∷ 10 ∷ 11 ∷ 12 ∷ []

read_var_u64-append_example :
    (length (five ++ twelve) ≤ 10
      → read_var_u64 reference (five ++ twelve) ≡ Read.ok (groups five) twelve)
    × (10 ≤ length (five ++ twelve)
        → read_var_u64 reference (five ++ twelve)
          ≡ Read.ok
              (groups five)
              (drop (length (five ++ twelve) - (10 - length five)) (five ++ twelve)))
read_var_u64-append_example =
    read_var_u64-append reference reference-IsLeb128 five twelve five-Holds_var.0 (omega arith)

read_var_u32-append_example : read_var_u32 reference (five ++ twelve) ≡ Read.ok 5 twelve
unfolding groups
read_var_u32-append_example =
    read_var_u32-append reference reference-IsLeb128 five twelve five-Holds_var.0 (omega arith)

abbrev one_group : List ℕ
one_group = 5 ∷ []

zero_extended-format_example :
    IsLeb (zero_extended one_group (some 5))
    × (groups (zero_extended one_group (some 5)) ≡ groups one_group)
    × (length (zero_extended one_group (some 5)) ≡ max (length one_group) (width_of (some 5)))
zero_extended-format_example = zero_extended-format one_group (some 5) (omega arith)

-- One byte, and then two where one is left.
abbrev three_bytes : Reader.Reader (List ℕ)
three_bytes c = Reader.bind (consume 1 c) (λ bs. consume 2)

abbrev two_left : List ℕ
two_left = 4 ∷ 5 ∷ []

abbrev one_byte : ℕ → List ℕ
one_byte b = b ∷ []

one_byte_value : (b : ℕ) → from_le_bytes (b ∷ []) ≡ b
unfolding from_le_bytes
one_byte_value b = omega arith

one_byte-Reads : (b : ℕ) → Reads read_u8 one_byte b
unfolding read_u8
one_byte-Reads b =
    ((λ rest. rw (read_le-append 1 (b ∷ []) rest refl, one_byte_value b)), omega arith)

abbrev add_byte : ℕ → ℕ → Result ℕ
add_byte b total = Result.ok (total + b)

for_all_items_example :
    for_all read_u8 add_byte (items_bytes read_u8 one_byte (3 ∷ 4 ∷ [])) 10
    ≡ fold_items add_byte (3 ∷ 4 ∷ []) 10
for_all_items_example =
    for_all_items read_u8 one_byte add_byte (3 ∷ 4 ∷ []) 10
      (one_byte-Reads 3, (one_byte-Reads 4, tt))

read_u8-Progresses : Progresses read_u8
read_u8-Progresses [] = unfold read_u8 consume in ((λ q. cc), (λ a c' q. cc))
read_u8-Progresses (b ∷ bs) =
    let known : read_u8 (b ∷ bs) ≡ Read.ok (from_le_bytes (b ∷ [])) bs =
      unfold read_u8 in read_le-append 1 (b ∷ []) bs refl in
    (
      (λ q. cc),
      λ a c' q.
          let same : bs ≡ c' = cc in subst (λ l. length l < length (b ∷ bs)) same (omega arith),
    )

for_all_ends_example : for_all read_u8 add_byte (3 ∷ 4 ∷ []) 10 ≢ Result.stuck
for_all_ends_example =
    for_all_ends read_u8 add_byte read_u8-Progresses (λ a s' q. cc) (3 ∷ 4 ∷ []) 10
