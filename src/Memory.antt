-- ===== src/Memory.antt =====
-- src/marshal-host/src/lib.rs: reads and writes of a guest's memory, which is the list of its bytes. A
-- `u32` address is a `usize` of at least 64 bits, so that a sum of addresses does not wrap there. An
-- object is the list of its bytes (`bytemuck::bytes_of`), `size_of_32` of them; where the memory lies on
-- the host, and the casts of `bytemuck`, are a parameter `Host`.
pub mod Writes
pub mod Alloc
use crucible_rt.Prelude.{
  ℕ, zero, suc, ◌+◌, ◌*◌, ◌%◌, ◌^◌, ◌<◌, ◌≡◌, ◌≢◌, List, [], ◌∷◌, ◌++◌, length, take, drop, Option,
  none, some, ltb, leb, if◌then◌else◌,
}

-- `get(base..)` and `get(..len)` of a slice.
unfoldable pub get_from : List ℕ → ℕ → Option (List ℕ)
get_from s base = if ltb (length s) base then none else some (drop base s)

unfoldable pub get_to : List ℕ → ℕ → Option (List ℕ)
get_to s len = if ltb (length s) len then none else some (take len s)

unfoldable pub load_range : List ℕ → ℕ → ℕ → Option (List ℕ)
load_range mem base len = elim (get_from mem base) [ none ↦ none | some s ↦ get_to s len ]

-- `len.checked_mul(size)`.
unfoldable pub checked_mul : ℕ → ℕ → Option ℕ
checked_mul a b = if ltb (a * b) (2 ^ 32) then some (a * b) else none

unfoldable pub checked_add : ℕ → ℕ → Option ℕ
checked_add a b = if ltb (a + b) (2 ^ 32) then some (a + b) else none

-- The address of the memory's first byte on the host, and the casts of `bytemuck`, of bytes at an
-- address to objects of a size and an alignment: the bytes of the objects, or an error.
pub record Host : Type 0 where
  pub base : ℕ
  pub try_from_bytes : ℕ → ℕ → ℕ → List ℕ → Option (List ℕ)
  pub try_cast_slice : ℕ → ℕ → ℕ → List ℕ → Option (List ℕ)

-- What is documented of the casts: bytes of the right number at a multiple of the alignment are the
-- object, or objects that are not empty; at another address the cast is an error.
pub record IsHost (host : Host) : Type 0 where
  pub from_bytes :
      (size align address : ℕ) (bytes : List ℕ)
      → length bytes ≡ size
      → address % align ≡ 0
      → host.try_from_bytes size align address bytes ≡ some bytes
  pub from_bytes_misaligned :
      (size align address : ℕ) (bytes : List ℕ)
      → address % align ≢ 0
      → host.try_from_bytes size align address bytes ≡ none
  pub cast_slice :
      (size align address : ℕ) (bytes : List ℕ)
      → 0 < size
      → length bytes % size ≡ 0
      → address % align ≡ 0
      → host.try_cast_slice size align address bytes ≡ some bytes
  pub cast_slice_misaligned :
      (size align address : ℕ) (bytes : List ℕ)
      → 1 < align
      → address % align ≢ 0
      → host.try_cast_slice size align address bytes ≡ none

-- `load_struct_raw`: the bytes of an object of `size` bytes.
unfoldable pub load_struct : Host → ℕ → ℕ → List ℕ → ℕ → Option (List ℕ)
load_struct host size align mem ptr = elim (load_range mem ptr size) [
  | none ↦ none
  | some bytes ↦ host.try_from_bytes size align (host.base + ptr) bytes
]

-- `load_slice_raw`: the bytes of `len` objects of `size` bytes.
unfoldable pub load_slice_raw : Host → ℕ → ℕ → List ℕ → ℕ → ℕ → Option (List ℕ)
load_slice_raw host size align mem base len = elim (checked_mul len size) [
  | none ↦ none
  | some bytes ↦ elim (load_range mem base bytes) [
    | none ↦ none
    | some data_ ↦ host.try_cast_slice size align (host.base + base) data_
  ]
]

-- The memory after `data` is copied over the range at `base`, where there is such a range.
unfoldable pub write_range_mut : List ℕ → ℕ → List ℕ → Option (List ℕ)
write_range_mut mem base data_ =
    if ltb (length data_) (2 ^ 32)
    then elim (load_range mem base (length data_)) [
      | none ↦ none
      | some old ↦ some (take base mem ++ (data_ ++ drop (base + length data_) mem))
    ]
    else none

-- What `write_slice` leaves: the memory with the count, or the memory after the writes before an
-- error.
pub data Written : Type 0 where
  all_written : List ℕ → ℕ → Written
  refused : List ℕ → Written

-- `write_slice`, of objects of `size` bytes.
unfoldable pub write_slice_from : ℕ → List ℕ → ℕ → ℕ → List (List ℕ) → Written
write_slice_from size mem offset count [] = all_written mem count
write_slice_from size mem offset count (item ∷ items) = elim (write_range_mut mem offset item) [
  | none ↦ refused mem
  | some mem' ↦ elim (checked_add offset size) [
    | none ↦ refused mem'
    | some offset' ↦ write_slice_from size mem' offset' (count + 1) items
  ]
]

unfoldable pub write_slice : ℕ → List ℕ → ℕ → List (List ℕ) → Written
write_slice size mem base items = write_slice_from size mem base 0 items

-- The guest's allocator, called with a size and an alignment: an address and the memory after it, or
-- an error.
abbrev pub Alloc : Type 0
Alloc = ℕ → ℕ → List ℕ → Option (ℕ × List ℕ)

unfoldable pub alloc_struct : Alloc → ℕ → ℕ → List ℕ → List ℕ → Option (ℕ × List ℕ)
alloc_struct alloc size align mem value = elim (alloc size align mem) [
  | none ↦ none
  | some (ptr, mem') ↦ elim (write_range_mut mem' ptr value) [
    | none ↦ none
    | some mem'' ↦ some (ptr, mem'')
  ]
]

-- The base, the length and the memory after `alloc_slice`.
unfoldable pub alloc_slice : Alloc → ℕ → ℕ → List ℕ → List (List ℕ) → Option ((ℕ × ℕ) × List ℕ)
alloc_slice alloc size align mem values =
    if ltb (length values) (2 ^ 32)
    then elim (checked_mul size (length values)) [
      | none ↦ none
      | some bytes ↦ elim (alloc bytes align mem) [
        | none ↦ none
        | some (base, mem') ↦ elim (write_slice size mem' base values) [
          | refused mem'' ↦ none
          | all_written mem'' count ↦ some ((base, length values), mem'')
        ]
      ]
    ]
    else none
