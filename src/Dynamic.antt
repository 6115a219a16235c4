-- ===== src/Dynamic.antt =====
-- The host's side of dynamic objects in src/marshal-host/src/lib.rs, with their tables of
-- src/marshal/src/lib.rs. The guest's function table is a parameter: a guest function takes primitives and the
-- memory, and gives primitives and the memory after it, or an error. A function's type is a number.
pub mod Calls
use crucible_rt.Prelude.{
  ℕ, List, [], ◌∷◌, ◌++◌, take, drop, Option, none, some, Bool, true, false, ◌==◌, if◌then◌else◌,
}
use crucible_rt.Cursor.{from_le_bytes}
use crucible_rt.Marshal.{
  MarshaledTy, MarshaledTyList, WasmPtr, WasmFunc, WasmDynamic, wasm_ptr, cons_list, unit_list,
}
use crucible_rt.Memory.{Host, load_struct}

abbrev pub GuestFunc : Type 0
GuestFunc = List ℕ → List ℕ → Option (List ℕ × List ℕ)

-- What `Table::get`, `funcref`, `flatten` and `typed` tell of an index.
pub data Entry : Type 0 where
  no_entry : Entry
  not_funcref : Entry
  null_func : Entry
  func_ref : ℕ → GuestFunc → Entry

abbrev pub FuncTable : Type 0
FuncTable = ℕ → Entry

-- `WasmFuncRef::decode`, for the type that is asked for.
unfoldable pub decode : FuncTable → ℕ → WasmFunc → Option GuestFunc
decode table ty idx = elim (table idx.addr.addr) [
  | no_entry ↦ none
  | not_funcref ↦ none
  | null_func ↦ none
  | func_ref has_ty func ↦ if has_ty == ty then some func else none
]

-- `WasmFuncRef::call`, with the memory after it.
unfoldable pub call_func :
    {A R : Type 0}
    → MarshaledTyList A
    → MarshaledTyList R
    → GuestFunc
    → A
    → List ℕ
    → Option (R × List ℕ)
call_func args res func arg mem = elim (func (args.into_prims arg) mem) [
  | none ↦ none
  | some (prims, mem') ↦ elim (res.from_prims prims) [ none ↦ none | some r ↦ some (r, mem') ]
]

-- `WasmVtable`: three little-endian words.
pub record WasmVtable : Type 0 where
  pub dtor : WasmFunc
  pub vtable : WasmPtr
  pub needs_drop : ℕ

unfoldable pub vtable_of : List ℕ → WasmVtable
vtable_of bytes = record {
  dtor = record { addr = record { addr = from_le_bytes (take 4 bytes) } };
  vtable = record { addr = from_le_bytes (take 4 (drop 4 bytes)) };
  needs_drop = from_le_bytes (take 4 (drop 8 bytes));
}

unfoldable pub load_vtable : Host → List ℕ → WasmDynamic → Option WasmVtable
unfolding load_struct vtable_of
load_vtable host mem me = elim (load_struct host 12 4 mem me.raw.meta.addr) [
  | none ↦ none
  | some bytes ↦ some (vtable_of bytes)
]

-- `WasmDynamicExt::get_vtable`, of a table of `size` bytes.
unfoldable pub get_vtable : Host → ℕ → ℕ → List ℕ → WasmDynamic → Option (List ℕ)
unfolding load_vtable load_struct
get_vtable host size align mem me = elim (load_vtable host mem me) [
  | none ↦ none
  | some meta ↦ load_struct host size align mem meta.vtable.addr
]

-- The destructor's arguments: the object and its `WasmVtable`.
abbrev pub dtor_args : MarshaledTyList (WasmPtr × (WasmPtr × Unit {0}))
dtor_args = cons_list wasm_ptr (cons_list wasm_ptr unit_list)

-- `WasmDynamicExt::run_dtor`, with the memory after it.
unfoldable pub run_dtor : Host → FuncTable → ℕ → List ℕ → WasmDynamic → Option (List ℕ)
unfolding load_vtable decode call_func
run_dtor host table ty mem me = elim (load_vtable host mem me) [
  | none ↦ none
  | some meta ↦ if meta.needs_drop == 0 then some mem else elim (decode table ty meta.dtor) [
    | none ↦ none
    | some dtor ↦ elim (call_func dtor_args unit_list dtor (me.raw.base, (me.raw.meta, tt)) mem) [
      | none ↦ none
      | some (u, mem') ↦ some mem'
    ]
  ]
]

-- `push_on_first` and `split_off_first`.
abbrev pub push_on_first : {A B : Type 0} → A → B → B × A
push_on_first me value = (value, me)

abbrev pub split_off_first : {A B : Type 0} → B × A → B × A
split_off_first me = (me.0, me.1)

-- `WasmDynamicFuncExt::call`: the table holds one function, which takes the object first.
unfoldable pub call_dynamic :
    {A R : Type 0}
    → Host
    → MarshaledTyList A
    → MarshaledTyList R
    → FuncTable
    → ℕ
    → List ℕ
    → WasmDynamic
    → A
    → Option (R × List ℕ)
unfolding get_vtable decode call_func
call_dynamic host args res table ty mem me arg = elim (get_vtable host 4 4 mem me) [
  | none ↦ none
  | some bytes ↦ elim (decode table ty (record { addr = record { addr = from_le_bytes bytes } })) [
    | none ↦ none
    | some func ↦ call_func (cons_list wasm_ptr args) res func (push_on_first arg me.raw.base) mem
  ]
]

-- The guest's side: the function of `WasmUnsize::TABLE` for a closure that is found at an address.
unfoldable pub dynamic_shim : {A R : Type 0} → (WasmPtr → A → R) → WasmPtr × A → R
dynamic_shim func_at args = let (me, rest) = split_off_first args in func_at me rest
