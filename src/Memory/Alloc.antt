-- ===== src/Memory/Alloc.antt =====
-- `alloc_slice` of src/marshal-host/src/lib.rs on the range that the guest's allocator hands out.
use crucible_rt.Prelude.{
  ℕ, ◌+◌, ◌*◌, ◌%◌, ◌^◌, ◌<◌, ◌≡◌, refl, ap, sym, ◌∙◌, arith, List, [], ◌∷◌, ◌++◌, length, some,
  length-append, lt→ltb, All,
}
use native.Mathlib.Nat.{mul_comm, mul-mod_left}
use crucible_rt.Memory.{checked_mul, Host, IsHost, Alloc, alloc_slice, load_slice_raw}
use crucible_rt.Memory.Writes.{flat_items, HasSize, write_slice-split, load_range-split}

length-flat_items :
    (size : ℕ) (items : List (List ℕ))
    → All (HasSize size) items
    → length (flat_items items) ≡ length items * size
unfolding flat_items
length-flat_items size [] h = omega arith
length-flat_items size (item ∷ items) h =
    grind (arith, length-append item (flat_items items), length-flat_items size items h.1, h.0)

flat_items-mod :
    (size : ℕ) (items : List (List ℕ))
    → All (HasSize size) items
    → length (flat_items items) % size ≡ 0
flat_items-mod size items h =
    ap (λ n. n % size) (length-flat_items size items h) ∙ mul-mod_left (length items) size

-- When the allocator hands out a range of its memory as large as the objects that ends below 4
-- GiB, `alloc_slice` of fewer than 2^32 objects of one size, which is not zero, gives its base and
-- their number, the memory has the objects there and is otherwise the allocator's, and loading the
-- slice gives the objects back, when the range starts at a multiple of their alignment on the host
-- and the casts are as documented.
pub alloc_slice-load :
    (host : Host) (laws : IsHost host) (alloc : Alloc) (size align : ℕ)
    (mem before old after : List ℕ) (items : List (List ℕ))
    → All (HasSize size) items
    → 0 < size
    → length items < 2 ^ 32
    → (host.base + length before) % align ≡ 0
    → length old ≡ length (flat_items items)
    → length before + length (flat_items items) < 2 ^ 32
    → alloc (size * length items) align mem ≡ some (length before, before ++ (old ++ after))
    → (alloc_slice alloc size align mem items
        ≡ some ((length before, length items), before ++ (flat_items items ++ after)))
      × (load_slice_raw host size align
            (before ++ (flat_items items ++ after))
            (length before)
            (length items)
          ≡ some (flat_items items))
alloc_slice-load host laws alloc size align mem before old after items h sized few aligned same fits
      given =
    let total : size * length items ≡ length (flat_items items) =
      mul_comm size (length items) ∙ sym (length-flat_items size items h) in
    let product : checked_mul size (length items) ≡ some (size * length items) =
      unfold checked_mul in rw (lt→ltb (size * length items) (2 ^ 32) (omega arith)) in
    let product' : checked_mul (length items) size ≡ some (length (flat_items items)) =
      unfold checked_mul in
      rw (
        sym (length-flat_items size items h),
        lt→ltb (length (flat_items items)) (2 ^ 32) (omega arith),
      ) in
    (
      unfold alloc_slice in
          rw (
            lt→ltb (length items) (2 ^ 32) few,
            product,
            alloc_slice,
            given,
            alloc_slice,
            write_slice-split size items before old after (length before) h refl same fits,
            alloc_slice,
          ),
      unfold load_slice_raw in
          rw (product', load_slice_raw, load_range-split before (flat_items items) after)
            (laws.cast_slice size align (host.base + length before) (flat_items items) sized
              (flat_items-mod size items h) aligned),
    )
