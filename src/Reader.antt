-- ===== src/Reader.antt =====
-- The outcomes of the wasmall code on a `&mut ByteCursor`, and the chaining of such calls by `?`.
use crucible_rt.Prelude.{ℕ, List}
use crucible_rt.Result.{Result, Error}

-- What a call on a `&mut ByteCursor` leaves: its result and the bytes that the cursor then holds,
-- after an error too.
pub data Read {ℓ} (A : Type ℓ) : Type ℓ where
  ok : A → List ℕ → Read A
  err : Error → List ℕ → Read A
  panic stuck : Read A

abbrev pub Reader {ℓ} : Type ℓ → Type ℓ
Reader A = List ℕ → Read A

abbrev pub bind {ℓ κ} : {A : Type ℓ} {B : Type κ} → Read A → (A → Reader B) → Read B
bind (ok a c) f = f a c
bind (err e c) f = err e c
bind panic f = panic
bind stuck f = stuck

-- The result alone, where the cursor is a temporary.
abbrev pub result {ℓ} : {A : Type ℓ} → Read A → Result A
result (ok a c) = Result.ok a
result (err e c) = Result.err e
result panic = Result.panic
result stuck = Result.stuck

-- `Option::unwrap` and `Result::unwrap`.
abbrev pub unwrap {ℓ} : {A : Type ℓ} → Read A → Read A
unwrap (ok a c) = ok a c
unwrap (err e c) = panic
unwrap panic = panic
unwrap stuck = stuck

-- A step that does not touch the cursor, inside a reader.
abbrev pub lift {ℓ} : {A : Type ℓ} → Result A → Reader A
lift (Result.ok a) c = ok a c
lift (Result.err e) c = err e c
lift Result.panic c = panic
lift Result.stuck c = stuck

-- The monad of readers, for `do` blocks on a cursor.
abbrev pub pure {ℓ} : {A : Type ℓ} → A → Reader A
pure a c = ok a c

infixl 5 ◌>>=◌ ◌>>◌
abbrev pub ◌>>=◌ {ℓ κ} : {A : Type ℓ} {B : Type κ} → Reader A → (A → Reader B) → Reader B
p >>= f = λ c. bind (p c) f

abbrev pub ◌>>◌ {ℓ κ} : {A : Type ℓ} {B : Type κ} → Reader A → Reader B → Reader B
p >> q = λ c. bind (p c) (λ _. q)
