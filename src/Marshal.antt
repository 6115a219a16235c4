-- ===== src/Marshal.antt =====
-- src/marshal/src/lib.rs: the values that cross the border of a WebAssembly guest, each as one
-- primitive, and a list of them as a list of primitives. An `i32` is its 32-bit pattern, and an `i8`
-- or `i16` its own pattern. `LeU32` is its number on every machine, so it is left out of a pointer.
pub mod RoundTrip
pub mod LittleEndian
use crucible_rt.Prelude.{
  ℕ, ◌+◌, ◌-◌, ◌*◌, ◌/◌, ◌%◌, ◌^◌, List, [], ◌∷◌, Option, none, some, ltb, leb, if◌then◌else◌, Bool,
  true, false,
}

-- `MarshaledTy`.
pub record MarshaledTy (A : Type 0) : Type 0 where
  pub into_prim : A → ℕ
  pub from_prim : ℕ → Option A

-- `u8`, `u16`, `u32` and `u64`: `try_from` refuses what the width does not hold.
abbrev pub unsigned : ℕ → MarshaledTy ℕ
unsigned width = record {
  into_prim = λ me. me;
  from_prim = λ prim. if ltb prim (2 ^ width) then some prim else none;
}

-- `i8`, `i16` and `i32` in an `i32`: `half` is the first pattern of a negative number.
unfoldable pub sign_extend_from : ℕ → ℕ → ℕ
sign_extend_from half me = if ltb me half then me else me + 2 ^ 32 - 2 * half

unfoldable pub narrow_to : ℕ → ℕ → Option ℕ
narrow_to half prim =
    if ltb prim half
    then some prim
    else if ltb prim (2 ^ 32 - half)
    then none
    else some (prim + 2 * half - 2 ^ 32)

abbrev pub signed : ℕ → MarshaledTy ℕ
signed half = record { into_prim = sign_extend_from half; from_prim = narrow_to half }

-- `char`: a Unicode scalar value.
unfoldable pub char_from_prim : ℕ → Option ℕ
char_from_prim prim =
    if ltb prim 0xD800
    then some prim
    else if ltb prim 0xE000
    then none
    else if ltb prim 0x110000
    then some prim
    else none

abbrev pub char : MarshaledTy ℕ
char = record { into_prim = λ me. me; from_prim = char_from_prim }

unfoldable pub bool_into_prim : Bool → ℕ
bool_into_prim false = 0
bool_into_prim true = 1

unfoldable pub bool_from_prim : ℕ → Option Bool
bool_from_prim prim = if ltb prim 1 then some false else if ltb prim 2 then some true else none

abbrev pub bool : MarshaledTy Bool
bool = record { into_prim = bool_into_prim; from_prim = bool_from_prim }

-- `WasmPtr` and `WasmFunc`: an address.
pub record WasmPtr : Type 0 where
  pub addr : ℕ

abbrev pub wasm_ptr : MarshaledTy WasmPtr
wasm_ptr = record {
  into_prim = λ me. me.addr;
  from_prim = λ prim. if ltb prim (2 ^ 32) then some (record { addr = prim }) else none;
}

pub record WasmFunc : Type 0 where
  pub addr : WasmPtr

abbrev pub wasm_func : MarshaledTy WasmFunc
wasm_func = record {
  into_prim = λ me. me.addr.addr;
  from_prim = λ prim. some (record { addr = record { addr = prim } });
}

-- `bytemuck::cast` between two `u32` fields and a `u64`, on a little-endian machine.
unfoldable pub cast_pair : ℕ → ℕ → ℕ
cast_pair first second = first + 2 ^ 32 * second

-- `WasmSlice` and `WasmWidePtrRaw`.
pub record WasmSlice : Type 0 where
  pub base : WasmPtr
  pub len : ℕ

unfoldable pub slice_into_prim : WasmSlice → ℕ
unfolding cast_pair
slice_into_prim me = cast_pair me.base.addr me.len

unfoldable pub slice_from_prim : ℕ → Option WasmSlice
slice_from_prim prim = some (record { base = record { addr = prim % 2 ^ 32 }; len = prim / 2 ^ 32 })

abbrev pub wasm_slice : MarshaledTy WasmSlice
wasm_slice = record { into_prim = slice_into_prim; from_prim = slice_from_prim }

pub record WasmWidePtrRaw : Type 0 where
  pub base : WasmPtr
  pub meta : WasmPtr

unfoldable pub wide_into_prim : WasmWidePtrRaw → ℕ
unfolding cast_pair
wide_into_prim me = cast_pair me.base.addr me.meta.addr

unfoldable pub wide_from_prim : ℕ → Option WasmWidePtrRaw
wide_from_prim prim =
    some (record { base = record { addr = prim % 2 ^ 32 }; meta = record { addr = prim / 2 ^ 32 } })

abbrev pub wasm_wide_ptr : MarshaledTy WasmWidePtrRaw
wasm_wide_ptr = record { into_prim = wide_into_prim; from_prim = wide_from_prim }

-- `WasmStr` and `WasmDynamic`: another type of one field, by `forward_marshaled_ty`.
pub record WasmStr : Type 0 where
  pub bytes : WasmSlice

pub record WasmDynamic : Type 0 where
  pub raw : WasmWidePtrRaw

unfoldable pub map_some : {A B : Type 0} → (A → B) → Option A → Option B
map_some f none = none
map_some f (some a) = some (f a)

abbrev pub wasm_str : MarshaledTy WasmStr
wasm_str = record {
  into_prim = λ me. wasm_slice.into_prim me.bytes;
  from_prim = λ prim. map_some (λ s. record { bytes = s }) (wasm_slice.from_prim prim);
}

abbrev pub wasm_dynamic : MarshaledTy WasmDynamic
wasm_dynamic = record {
  into_prim = λ me. wasm_wide_ptr.into_prim me.raw;
  from_prim = λ prim. map_some (λ p. record { raw = p }) (wasm_wide_ptr.from_prim prim);
}

-- `MarshaledTyList` of a tuple: its primitives in order, and the tuple if every one of them parses.
pub record MarshaledTyList (A : Type 0) : Type 0 where
  pub into_prims : A → List ℕ
  pub from_prims : List ℕ → Option A

abbrev pub unit_list : MarshaledTyList (Unit {0})
unit_list = record {
  into_prims = λ me. [];
  from_prims = λ prims. elim prims [ [] ↦ some tt | p ∷ ps ↦ none ];
}

unfoldable pub cons_from_prims :
    {A B : Type 0} → MarshaledTy A → MarshaledTyList B → List ℕ → Option (A × B)
cons_from_prims first rest [] = none
cons_from_prims first rest (p ∷ ps) = elim (first.from_prim p) [
  | none ↦ none
  | some a ↦ map_some (λ b. (a, b)) (rest.from_prims ps)
]

-- One more value in front: `push_on_first`'s type.
abbrev pub cons_list : {A B : Type 0} → MarshaledTy A → MarshaledTyList B → MarshaledTyList (A × B)
cons_list first rest = record {
  into_prims = λ me. first.into_prim me.0 ∷ rest.into_prims me.1;
  from_prims = cons_from_prims first rest;
}

-- What `PrimFuncWrapper::FUNC` does around a guest function: `none` is the panic of `unwrap`.
unfoldable pub wrap_func :
    {A R : Type 0} → MarshaledTyList A → MarshaledTyList R → (A → R) → List ℕ → Option (List ℕ)
unfolding map_some
wrap_func args res f prims = map_some (λ arg. res.into_prims (f arg)) (args.from_prims prims)

-- `WasmFuncRef::call` on the host, of a function on primitives; `none` is an error.
unfoldable pub call :
    {A R : Type 0}
    → MarshaledTyList A
    → MarshaledTyList R
    → (List ℕ → Option (List ℕ))
    → A
    → Option R
call args res func arg = elim (func (args.into_prims arg)) [
  | none ↦ none
  | some prims ↦ res.from_prims prims
]
