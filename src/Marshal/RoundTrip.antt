-- ===== src/Marshal/RoundTrip.antt =====
-- Marshaled values of src/marshal/src/lib.rs come back as they were.
use crucible_rt.Prelude.{
  ℕ, ◌+◌, ◌-◌, ◌*◌, ◌/◌, ◌%◌, ◌^◌, ◌≤◌, ◌<◌, ◌≡◌, refl, ap, arith, some, true, false, ltb-cases,
  lt→ltb, le→ltb_false, ◌⊎◌, inl, inr,
}
use crucible_rt.Marshal.{
  MarshaledTy, MarshaledTyList, unsigned, signed, sign_extend_from, narrow_to, char, char_from_prim,
  bool, bool_into_prim, bool_from_prim, WasmPtr, wasm_ptr, cast_pair, WasmSlice, slice_into_prim,
  slice_from_prim, wasm_slice, WasmWidePtrRaw, wide_into_prim, wide_from_prim, wasm_wide_ptr,
  wasm_str, wasm_dynamic, map_some, unit_list, cons_from_prims, cons_list, wrap_func, call,
}

-- A value that the type has comes back from its primitive.
abbrev pub Returns : {A : Type 0} → MarshaledTy A → (A → Type 0) → Type 0
Returns m IsValid = (a : _) → IsValid a → m.from_prim (m.into_prim a) ≡ some a

abbrev pub ReturnsList : {A : Type 0} → MarshaledTyList A → (A → Type 0) → Type 0
ReturnsList m IsValid = (a : _) → IsValid a → m.from_prims (m.into_prims a) ≡ some a

-- An unsigned number below its width's limit comes back.
pub unsigned-Returns : (width : ℕ) → Returns (unsigned width) (λ me. me < 2 ^ width)
unsigned-Returns width me h = rw (lt→ltb me (2 ^ width) h)

-- A signed number of any width up to 32 bits comes back from the `i32` that it is sign-extended
-- to.
pub signed-Returns : (half : ℕ) → half ≤ 2 ^ 31 → Returns (signed half) (λ me. me < 2 * half)
unfolding sign_extend_from narrow_to
signed-Returns half h me fits = elim (ltb-cases me half) [
  | inl (e, lt) ↦ rw (e, e)
  | inr (e, le) ↦
      rw
        (
          e,
          le→ltb_false (me + 2 ^ 32 - 2 * half) half (omega arith),
          le→ltb_false (me + 2 ^ 32 - 2 * half) (2 ^ 32 - half) (omega arith),
        )
        (ap some (omega arith))
]

abbrev pub IsScalar : ℕ → Type 0
IsScalar c = (c < 0xD800) ⊎ ((0xE000 ≤ c) × (c < 0x110000))

-- A `char` is parsed just from a Unicode scalar value, and as that value.
pub char_from_prim_lem :
    (prim c : ℕ)
    → (IsScalar prim → char.from_prim prim ≡ some prim)
      × (char.from_prim prim ≡ some c → IsScalar prim × (c ≡ prim))
unfolding char_from_prim
char_from_prim_lem prim c = elim (ltb-cases prim 0xD800) [
  | inl (e, lt) ↦ (λ h. rw e refl, λ h. (inl lt, ground (arith, rw e at h)))
  | inr (e, le) ↦ elim (ltb-cases prim 0xE000) [
    | inl (f, lt) ↦ (λ h. absurd (ground arith), λ h. cc (rw (e, f) at h))
    | inr (f, le') ↦ elim (ltb-cases prim 0x110000) [
      | inl (g, lt) ↦
          (λ h. rw (e, f, g) refl, λ h. (inr (le', lt), ground (arith, rw (e, f, g) at h)))
      | inr (g, le'') ↦ (λ h. absurd (ground arith), λ h. cc (rw (e, f, g) at h))
    ]
  ]
]

pub bool-Returns : Returns bool (λ me. Unit {0})
unfolding bool_into_prim bool_from_prim
bool-Returns true h = refl
bool-Returns false h = refl

abbrev pub IsAddress : WasmPtr → Type 0
IsAddress p = p.addr < 2 ^ 32

pub wasm_ptr-Returns : Returns wasm_ptr IsAddress
wasm_ptr-Returns p h = rw (lt→ltb p.addr (2 ^ 32) h)

abbrev pub IsSlice : WasmSlice → Type 0
IsSlice s = (s.base.addr < 2 ^ 32) × (s.len < 2 ^ 32)

cast_pair_first : (a b : ℕ) → a < 2 ^ 32 → cast_pair a b % 2 ^ 32 ≡ a
unfolding cast_pair
cast_pair_first a b h = omega arith

cast_pair_second : (a b : ℕ) → a < 2 ^ 32 → cast_pair a b / 2 ^ 32 ≡ b
unfolding cast_pair
cast_pair_second a b h = omega arith

-- A slice of the guest with a base and a length below 2^32 comes back from its `u64`, which is
-- below 2^64.
pub wasm_slice-Returns :
    (s : WasmSlice)
    → IsSlice s
    → (wasm_slice.from_prim (wasm_slice.into_prim s) ≡ some s) × (wasm_slice.into_prim s < 2 ^ 64)
wasm_slice-Returns s h = (
  unfold slice_into_prim slice_from_prim in
      rw (cast_pair_first s.base.addr s.len h.0, cast_pair_second s.base.addr s.len h.0),
  unfold slice_into_prim cast_pair in omega arith,
)

abbrev pub IsWide : WasmWidePtrRaw → Type 0
IsWide p = (p.base.addr < 2 ^ 32) × (p.meta.addr < 2 ^ 32)

wasm_wide_ptr-Returns : Returns wasm_wide_ptr IsWide
unfolding wide_into_prim wide_from_prim
wasm_wide_ptr-Returns p h =
    rw (cast_pair_first p.base.addr p.meta.addr h.0, cast_pair_second p.base.addr p.meta.addr h.0)

pub wasm_str-Returns : Returns wasm_str (λ s. IsSlice s.bytes)
wasm_str-Returns s h = unfold map_some in rw ((wasm_slice-Returns s.bytes h).0)

pub wasm_dynamic-Returns : Returns wasm_dynamic (λ d. IsWide d.raw)
wasm_dynamic-Returns d h = unfold map_some in rw (wasm_wide_ptr-Returns d.raw h)

-- A value in front of a list of values comes back from the primitives with it, when it and the
-- list do.
pub cons_list-Returns :
    {A B : Type 0}
    → (first : MarshaledTy A) (rest : MarshaledTyList B) (V : A → Type 0) (W : B → Type 0)
    → Returns first V
    → ReturnsList rest W
    → ReturnsList (cons_list first rest) (λ ab. V ab.0 × W ab.1)
unfolding cons_from_prims map_some
cons_list-Returns first rest V W f r (a, b) h = rw (f a h.0, r b h.1)

pub unit_list-Returns : ReturnsList unit_list (λ u. Unit {0})
unit_list-Returns u h = refl

-- A host call of a wrapped guest function is the function, when the arguments and the results of
-- their types come back from their primitives: no argument is refused and the result parses.
pub call-wrap_func :
    {A R : Type 0}
    → (args : MarshaledTyList A) (res : MarshaledTyList R) (V : A → Type 0) (W : R → Type 0)
      (f : A → R)
    → ReturnsList args V
    → ReturnsList res W
    → (a : A) → V a
    → W (f a)
    → call args res (wrap_func args res f) a ≡ some (f a)
call-wrap_func args res V W f ra rr a va wa =
    let wrapped : wrap_func args res f (args.into_prims a) ≡ some (res.into_prims (f a)) =
      unfold wrap_func map_some in rw (ra a va, map_some) in
    unfold call in rw (wrapped, call, rr (f a) wa)
