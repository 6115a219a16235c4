-- ===== src/Result.antt =====
-- The outcomes of fallible code: `anyhow::Result` with the panics of Rust. Messages, their contexts and the positions that they
-- print are not modelled; an `Error` says which check refused.
use crucible_rt.Prelude.{ℕ, ◌≡◌, refl, ap}

pub data Error : Type 0 where
  short_read : ℕ → Error
  leb_overflow leb_eof wrong_width : Error
  unknown_segment unknown_reloc : ℕ → Error
  index_range : Error
  too_big io wrong_hash : Error

-- `stuck` is no outcome of the program: a loop of the model ran out of fuel.
pub data Result {ℓ} (A : Type ℓ) : Type ℓ where
  ok : A → Result A
  err : Error → Result A
  panic stuck : Result A

infixl 5 ◌>>=◌ ◌>>◌
abbrev pub ◌>>=◌ {ℓ κ} : {A : Type ℓ} {B : Type κ} → Result A → (A → Result B) → Result B
ok a >>= f = f a
err e >>= f = err e
panic >>= f = panic
stuck >>= f = stuck

abbrev pub ◌>>◌ {ℓ} : {B : Type ℓ} → Result (Unit {0}) → Result B → Result B
m >> k = m >>= λ _. k

-- `Result::unwrap`.
abbrev pub unwrap_result {ℓ} : {A : Type ℓ} → Result A → Result A
unwrap_result (ok a) = ok a
unwrap_result (err e) = panic
unwrap_result panic = panic
unwrap_result stuck = stuck

abbrev value_or {ℓ} : {A : Type ℓ} → A → Result A → A
value_or d (ok a) = a
value_or d (err e) = d
value_or d panic = d
value_or d stuck = d

pub bind_assoc {ℓ κ μ} :
    {A : Type ℓ} {B : Type κ} {C : Type μ} (m : Result A) (f : A → Result B) (g : B → Result C)
    → (m >>= f >>= g) ≡ (m >>= λ a. f a >>= g)
bind_assoc (ok a) f g = refl
bind_assoc (err e) f g = refl
bind_assoc panic f g = refl
bind_assoc stuck f g = refl

pub ok_injective {ℓ} : {A : Type ℓ} (a b : A) → ok a ≡ ok b → a ≡ b
ok_injective a b e = ap (value_or a) e
