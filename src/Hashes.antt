-- ===== src/Hashes.antt =====
-- The comparison of hashes, of blake3's `Hash` in src/wasmall/src/coder.rs and src/cafs/src/lib.rs.
use crucible_rt.Prelude.{
  ℕ, ◌≡◌, refl, arith, List, [], ◌∷◌, ◌==◌, ==_iff, if◌then◌else◌, Bool, true, false,
}

-- Equality of hashes, byte by byte.
unfoldable pub hash_eq : List ℕ → List ℕ → Bool
hash_eq [] [] = true
hash_eq [] (b ∷ bs) = false
hash_eq (a ∷ as_) [] = false
hash_eq (a ∷ as_) (b ∷ bs) = if a == b then hash_eq as_ bs else false

pub hash_eq→eq : (a b : List ℕ) → hash_eq a b ≡ true → a ≡ b
unfolding hash_eq
hash_eq→eq [] [] h = refl
hash_eq→eq [] (y ∷ b) h = cc
hash_eq→eq (x ∷ a) [] h = cc
hash_eq→eq (x ∷ a) (y ∷ b) h = ground (arith, hash_eq→eq a b)

pub hash_eq_refl : (a : List ℕ) → hash_eq a a ≡ true
unfolding hash_eq
hash_eq_refl [] = refl
hash_eq_refl (x ∷ a) = rw ((==_iff x x).1 refl) (hash_eq_refl a)
