-- ===== src/Tests/Hosts.antt =====
-- Examples of the theorems on src/marshal/src/lib.rs and src/marshal-host/src/lib.rs.
use crucible_rt.Prelude.{
  ℕ, ◌%◌, ◌≡◌, ◌≢◌, refl, arith, List, [], ◌∷◌, ◌++◌, length, some, none, Bool, true, false, ◌==◌,
  ◌&&◌, ==_iff, Bool-cases, inl, inr, if◌then◌else◌,
}
use crucible_rt.Memory.{Host, IsHost, Alloc, alloc_slice, load_slice_raw}
use crucible_rt.Memory.Writes.{flat_items}
use crucible_rt.Memory.Alloc.{alloc_slice-load}

abbrev pairs : List (List ℕ)
pairs = (8 ∷ 9 ∷ []) ∷ (6 ∷ 7 ∷ []) ∷ []

abbrev old_bytes : List ℕ
old_bytes = 2 ∷ 3 ∷ 2 ∷ 3 ∷ []

-- An allocator that hands out the bytes from address 1 on.
abbrev alloc_at_one : Alloc
alloc_at_one size align mem = some (1, mem)

-- A host on which the memory starts at an address, with casts that check size and address.
abbrev pub host_at : ℕ → Host
host_at base = record {
  base = base;
  try_from_bytes = λ size align address bytes.
      if (length bytes == size) && (address % align == 0) then some bytes else none;
  try_cast_slice = λ size align address bytes.
      if (length bytes % size == 0) && (address % align == 0) then some bytes else none;
}

equal : (a b : ℕ) → a ≡ b → (a == b) ≡ true
equal a b e = (==_iff a b).1 e

unequal : (a b : ℕ) → a ≢ b → (a == b) ≡ false
unequal a b ne = elim (Bool-cases (a == b)) [ inl t ↦ absurd (ne ((==_iff a b).0 t)) | inr t ↦ t ]

refuse : (b : Bool) (bytes : List ℕ) → (if b && false then some bytes else none) ≡ none
refuse true bytes = refl
refuse false bytes = refl

pub host_at-IsHost : (base : ℕ) → IsHost (host_at base)
host_at-IsHost base = record {
  from_bytes = λ size align address bytes long aligned.
      rw (equal (length bytes) size long, equal (address % align) 0 aligned);
  from_bytes_misaligned = λ size align address bytes ne.
      rw (unequal (address % align) 0 ne) (refuse (length bytes == size) bytes);
  cast_slice = λ size align address bytes sized long aligned.
      rw (equal (length bytes % size) 0 long, equal (address % align) 0 aligned);
  cast_slice_misaligned = λ size align address bytes wide ne.
      rw (unequal (address % align) 0 ne) (refuse (length bytes % size == 0) bytes);
}

alloc_slice-load_example :
    (alloc_slice alloc_at_one 2 2 ((1 ∷ []) ++ (old_bytes ++ (4 ∷ []))) pairs
      ≡ some ((1, 2), (1 ∷ []) ++ (flat_items pairs ++ (4 ∷ []))))
    × (load_slice_raw (host_at 1001) 2 2 ((1 ∷ []) ++ (flat_items pairs ++ (4 ∷ []))) 1 2
        ≡ some (flat_items pairs))
unfolding flat_items
alloc_slice-load_example =
    alloc_slice-load (host_at 1001) (host_at-IsHost 1001) alloc_at_one 2 2
      ((1 ∷ []) ++ (old_bytes ++ (4 ∷ []))) (1 ∷ []) old_bytes (4 ∷ []) pairs (refl, (refl, tt))
      (omega arith) (omega arith) refl refl (omega arith) refl
