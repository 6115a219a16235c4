-- ===== src/Tests/Dynamics.antt =====
-- Examples of the theorems on dynamic objects of src/marshal-host/src/lib.rs.
use crucible_rt.Prelude.{ℕ, ◌≡◌, arith, List, [], ◌∷◌, ◌++◌, Bool, true, ◌==◌, if◌then◌else◌}
use crucible_rt.Marshal.{
  MarshaledTyList, WasmPtr, WasmDynamic, wasm_ptr, bool, cons_list, unit_list,
}
use crucible_rt.Writer.{to_le_bytes}
use crucible_rt.Marshal.LittleEndian.{le_new, le_get, native_bytes, le_get-le_new}
use crucible_rt.Dynamic.{no_entry, func_ref, FuncTable, WasmVtable, dtor_args, dynamic_shim}
use crucible_rt.Dynamic.Calls.{guest_func}

abbrev object : WasmDynamic
object = record { raw = record { base = record { addr = 64 }; meta = record { addr = 0 } } }

abbrev object_vtable : WasmVtable
object_vtable = record {
  dtor = record { addr = record { addr = 2 } };
  vtable = record { addr = 12 };
  needs_drop = 1;
}

-- The `WasmVtable`, and behind it the table with the function at index 1.
abbrev guest_memory : List ℕ
guest_memory = 2 ∷ 0 ∷ 0 ∷ 0 ∷ 12 ∷ 0 ∷ 0 ∷ 0 ∷ 1 ∷ 0 ∷ 0 ∷ 0 ∷ 1 ∷ 0 ∷ 0 ∷ 0 ∷ []

abbrev flags : MarshaledTyList (Bool × Unit {0})
flags = cons_list bool unit_list

abbrev flag_at : WasmPtr → Bool × Unit {0} → Bool × Unit {0}
flag_at me arg = (me.addr == 64, tt)

abbrev dropped : WasmPtr × (WasmPtr × Unit {0}) → Unit {0}
dropped args = tt

abbrev guest_table : FuncTable
guest_table index =
    if index == 1
    then func_ref 7 (
        guest_func (cons_list wasm_ptr flags) flags (dynamic_shim flag_at) (λ mem. mem ++ (9 ∷ [])))
    else if index == 2
    then func_ref 8 (guest_func dtor_args unit_list dropped (λ mem. []))
    else no_entry

le_get-le_new_example :
    (le_get true 4 (le_new true 4 305419896) ≡ 305419896)
    × (native_bytes true 4 (le_new true 4 305419896) ≡ to_le_bytes 4 305419896)
le_get-le_new_example = le_get-le_new true 4 305419896 (omega arith)
