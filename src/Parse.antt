-- ===== src/Parse.antt =====
-- src/wasmall/src/util.rs: `ByteParse`, the list of parsed items `ByteParseList` and the parsers of
-- integers and of a length with its bytes.
pub mod Items
pub mod Progress
use crucible_rt.Prelude.{
  ℕ, zero, suc, ◌+◌, ◌-◌, List, [], ◌∷◌, ◌++◌, length, Option, none, some, ltb, if◌then◌else◌,
}
use crucible_rt.Leb.{Leb128}
use crucible_rt.Result.{Result, ok, err, panic, stuck, ◌>>=◌}
use crucible_rt.Reader.{Read, Reader, bind}
use crucible_rt.Cursor.{lookahead, at_eof, consume, read_var_u32, read_var_i32}

-- `ByteParse::parse`, of a `parse_naked`.
unfoldable pub parse {ℓ} : {A : Type ℓ} → Reader A → Reader A
unfolding lookahead
parse parse_naked = lookahead parse_naked

module _ {ℓ} {A : Type ℓ} (parser : Reader A) where
  -- `ByteParseList::next`: the list is the cursor.
  unfoldable pub next : List ℕ → Option (Read A)
  unfolding at_eof parse
  next cursor = if at_eof cursor then none else some (parse parser cursor)

  -- `for item in list { body(item?) }`, with the state of the loop handed through.
  unfoldable pub for_each {κ} : {S : Type κ} → (A → S → Result S) → ℕ → List ℕ → S → Result S
  unfolding next
  for_each body zero cursor s = stuck
  for_each body (suc fuel) cursor s = elim (next cursor) [
    | none ↦ ok s
    | some item ↦ elim item [
      | Read.ok a rest ↦ body a s >>= λ s'. for_each body fuel rest s'
      | Read.err e rest ↦ err e
      | Read.panic ↦ panic
      | Read.stuck ↦ stuck
    ]
  ]

  -- The loop over a whole list: each item takes a byte at least.
  unfoldable pub for_all {κ} : {S : Type κ} → (A → S → Result S) → List ℕ → S → Result S
  unfolding for_each
  for_all body cursor s = for_each body (suc (length cursor)) cursor s

  abbrev pub push_back : A → List A → Result (List A)
  push_back a out = ok (out ++ (a ∷ []))

  -- `for item in list { out.push(item?) }`.
  unfoldable pub collect : List ℕ → Result (List A)
  unfolding for_all
  collect cursor = for_all push_back cursor []

-- `try_count_bytes_read`, and what else the closure hands back.
unfoldable pub try_count_bytes_read {ℓ} : {A : Type ℓ} → List ℕ → Reader A → Result (ℕ × A)
try_count_bytes_read v f = elim (f v) [
  | Read.ok a buf ↦ if ltb (length v) (length buf) then panic else ok (length v - length buf, a)
  | Read.err e buf ↦ err e
  | Read.panic ↦ panic
  | Read.stuck ↦ stuck
]

module _ (codec : Leb128) where
  -- `VarU32::parse_naked`, `VarI32::parse_naked` and `VarByteVec::parse_naked`.
  unfoldable pub var_u32 : Reader ℕ
  unfolding read_var_u32
  var_u32 = read_var_u32 codec

  unfoldable pub var_i32 : Reader ℕ
  unfolding read_var_i32
  var_i32 = read_var_i32 codec

  unfoldable pub var_byte_vec : Reader (List ℕ)
  unfolding read_var_u32 consume
  var_byte_vec c = bind (read_var_u32 codec c) (λ len. consume len)
