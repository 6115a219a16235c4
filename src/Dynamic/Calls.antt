-- ===== src/Dynamic/Calls.antt =====
-- Calls of dynamic objects in src/marshal-host/src/lib.rs reach the guest's function with the object.
use crucible_rt.Prelude.{ℕ, ◌^◌, ◌<◌, List, ◌++◌}
use crucible_rt.Writer.{to_le_bytes}
use crucible_rt.Marshal.{MarshaledTyList, wrap_func, map_some}
use crucible_rt.Dynamic.{GuestFunc, WasmVtable}

-- The bytes of a `WasmVtable`.
unfoldable pub vtable_bytes : WasmVtable → List ℕ
vtable_bytes v =
    to_le_bytes 4 v.dtor.addr.addr ++ (to_le_bytes 4 v.vtable.addr ++ to_le_bytes 4 v.needs_drop)

abbrev pub IsVtable : WasmVtable → Type 0
IsVtable v = (v.dtor.addr.addr < 2 ^ 32) × (v.vtable.addr < 2 ^ 32) × (v.needs_drop < 2 ^ 32)

-- A guest function of marshaled types, with what it does to the memory.
abbrev pub guest_func :
    {A R : Type 0} → MarshaledTyList A → MarshaledTyList R → (A → R) → (List ℕ → List ℕ) → GuestFunc
guest_func args res f effect prims mem =
    map_some (λ r. (r, effect mem)) (wrap_func args res f prims)
