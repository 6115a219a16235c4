-- ===== src/ArcMap/Handles.antt =====
-- What the handles of `ArcMap` in src/cafs/src/util.rs share and leave behind.
use crucible_rt.Prelude.{
  ℕ, ◌≡◌, ◌≢◌, refl, ap, sym, ◌∙◌, subst, arith, ◌∷◌, none, some, ◌==◌, true, false, In,
  Option-cases, ==_iff, inl, inr,
}
use crucible_rt.ArcMap.{
  Keys, Slot, ArcMap, strong, set_slot, upgrade, from_hash, remove_entry, no_longer, change,
  add_ref, drop_ref, add_temp, drop_temp, has_key, is_candidate, insert, get, release, remove,
  Reach,
}
use crucible_rt.ArcMap.Table.{from_hash-none, from_hash-some}
use crucible_rt.ArcMap.Invariant.{Live, IsMap, set_slot_same}
use crucible_rt.ArcMap.Steps.{Reach-IsMap, has_key-Live, Live-has_key}

module _ {K V : Type 0} (keys : Keys K) where
  change-some :
      (map : ArcMap K V) (i : ℕ) (f : Slot K V → Slot K V) (slot : Slot K V)
      → map.heap i ≡ some slot
      → change i f map ≡ record map { heap = set_slot i (f slot) map.heap }
  change-some map i f slot e = unfold change in rw (change, e)

  release_last :
      (map : ArcMap K V) (i : ℕ) (slot : Slot K V)
      → map.heap i ≡ some slot
      → strong slot ≡ 1
      → release keys i map
        ≡ record map { heap = set_slot i (drop_ref slot) map.heap; pending = i ∷ map.pending }
  release_last map i slot e one =
      let last : (strong slot == 1) ≡ true = (==_iff (strong slot) 1).1 one in
      unfold release in rw (release, e, last, change-some map i drop_ref slot e)

  release_more :
      (map : ArcMap K V) (i : ℕ) (slot : Slot K V)
      → map.heap i ≡ some slot
      → strong slot ≡ 2
      → release keys i map ≡ change i drop_ref map
  release_more map i slot e two =
      let more : (strong slot == 1) ≡ false = rw two refl in unfold release in rw (release, e, more)

  remove-some :
      (map : ArcMap K V) (i : ℕ) (slot : Slot K V)
      → map.heap i ≡ some slot
      → remove keys i map ≡ record map {
        table = remove_entry slot.hash i map.table;
        pending = no_longer i map.pending;
      }
  remove-some map i slot e = unfold remove in rw (remove, e)

  -- An entry that was just inserted, let go of and removed.
  remove-insert :
      (map : ArcMap K V) (key : K) (value : V)
      → let r = insert keys key value map in
        let after = remove keys r.1 (release keys r.1 r.0) in
        In r.1 (release keys r.1 r.0).pending
        × (after.table ≡ map.table)
        × (after.pending ≡ map.pending)
  remove-insert map key value =
      let slot : Slot K V = record {
        hash = keys.hash_one key;
        key = key;
        value = value;
        refs = 1;
        temps = 0;
      } in
      let map' = (insert keys key value map).0 in
      let here : map'.heap map.next ≡ some slot = set_slot_same map.next slot map.heap in
      let last = release_last map' map.next slot here refl in
      let there = set_slot_same map.next (drop_ref slot) map'.heap in
      rw
        (
          last,
          remove-some
              (record map' {
                heap = set_slot map.next (drop_ref slot) map'.heap;
                pending = map.next ∷ map'.pending;
              })
              map.next (drop_ref slot) there,
        )
        (
          inl refl,
          unfold remove_entry in
              rw (
                (==_iff (keys.hash_one key) (keys.hash_one key)).1 refl,
                (==_iff map.next map.next).1 refl,
              ),
          unfold no_longer in rw ((==_iff map.next map.next).1 refl),
        )

  Live-found :
      (map : ArcMap K V)
      → IsMap keys map
      → (key : K) (i : ℕ) (slot : Slot K V) → Live map.heap i slot
      → slot.key ≡ key
      → from_hash (keys.hash_one key) (is_candidate keys map.heap key) map.table ≢ none
  Live-found map h key i slot live same e =
      let m : In (keys.hash_one key, i) map.table =
        subst (λ (n : ℕ). In (n, i) map.table) (h.hashed i slot live.there ∙ ap keys.hash_one same)
          (h.registered i slot live) in
      let missed =
        from_hash-none (keys.hash_one key) (is_candidate keys map.heap key) map.table i e m in
      let found : is_candidate keys map.heap key i ≡ true =
        ap (λ o. has_key keys key (upgrade o)) live.there
        ∙ Live-has_key keys key slot live.counted same in
      cc

  -- In every reachable state, `get` gives a handle of a live entry of the key; if a live entry of
  -- the key was there, the handle is of that one.
  pub get_lem :
      (map : ArcMap K V) (key : K) (value : V)
      → Reach keys map
      → (slot : Slot K V) × Live (get keys key value map).0.heap (get keys key value map).1 slot
        × (slot.key ≡ key)
        × ((j : ℕ) (other : Slot K V)
            → Live map.heap j other
            → other.key ≡ key
            → j ≡ (get keys key value map).1)
  get_lem map key value reach =
      let h = Reach-IsMap keys reach in
      let test = is_candidate keys map.heap key in
      elim (Option-cases (from_hash (keys.hash_one key) test map.table)) [
        | inl e ↦
            unfold get in
            rw (get, e)
              (
                record { hash = keys.hash_one key; key = key; value = value; refs = 1; temps = 0 },
                record { there = set_slot_same map.next _ map.heap; counted = omega arith },
                refl,
                λ j other live same. absurd (Live-found map h key j other live same e),
              )
        | inr (i, e) ↦
            let (slot, there, alive, same) =
              has_key-Live keys key (map.heap i)
                (from_hash-some (keys.hash_one key) test map.table i e) in
            unfold get in
            rw (get, e)
              (
                add_ref slot,
                record {
                  there =
                      ap (λ m. m.heap i) (change-some map i add_ref slot there)
                      ∙ set_slot_same i (add_ref slot) map.heap;
                  counted = omega arith;
                },
                same,
                λ j other live same'.
                    h.unique j i other slot live (record { there = there; counted = alive })
                      (same' ∙ sym same),
              )
      ]

  -- In a reachable state with no live entry of a key, the handle that `get` gives, dropped with no
  -- step of another thread in between, waits for the lock and then takes its entry out: table and
  -- waiting drops are as before.
  pub remove-get :
      (map : ArcMap K V) (key : K) (value : V)
      → Reach keys map
      → ((i : ℕ) (slot : Slot K V) → Live map.heap i slot → slot.key ≢ key)
      → let r = get keys key value map in
        let after = remove keys r.1 (release keys r.1 r.0) in
        In r.1 (release keys r.1 r.0).pending
        × (after.table ≡ map.table)
        × (after.pending ≡ map.pending)
  remove-get map key value reach none_alive =
      elim (Option-cases
        (from_hash (keys.hash_one key) (is_candidate keys map.heap key) map.table)) [
          | inl e ↦ unfold get in rw (get, e) (remove-insert map key value)
          | inr (i, e) ↦
              let (slot, there, alive, same) = has_key-Live keys key (map.heap i) (
                from_hash-some (keys.hash_one key) (is_candidate keys map.heap key) map.table i
                  e) in
              absurd (none_alive i slot (record { there = there; counted = alive }) same)
        ]

  -- In a reachable state, when an entry's only handle is dropped while a lookup of another key
  -- holds the entry upgraded, the entry's slot stays in the table after the lookup lets go, with
  -- nothing that counts on the entry and no drop waiting to remove it.
  pub release-upgrade :
      (map : ArcMap K V) (i : ℕ) (slot : Slot K V)
      → Reach keys map
      → map.heap i ≡ some slot
      → slot.refs ≡ 1
      → slot.temps ≡ 0
      → let after = change i drop_temp (release keys i (change i add_temp map)) in
        In (slot.hash, i) after.table
        × (after.pending ≡ map.pending)
        × ((left : Slot K V) × (after.heap i ≡ some left) × (strong left ≡ 0))
  release-upgrade map i slot reach e one none_ =
      let h = Reach-IsMap keys reach in
      let held : ArcMap K V = record map { heap = set_slot i (add_temp slot) map.heap } in
      let first = change-some map i add_temp slot e in
      let is_held : held.heap i ≡ some (add_temp slot) = set_slot_same i (add_temp slot) map.heap in
      let second =
        release_more held i (add_temp slot) is_held (omega arith)
        ∙ change-some held i drop_ref (add_temp slot) is_held in
      let freed : ArcMap K V = record map {
        heap = set_slot i (drop_ref (add_temp slot)) held.heap;
      } in
      let is_freed : freed.heap i ≡ some (drop_ref (add_temp slot)) =
        set_slot_same i (drop_ref (add_temp slot)) held.heap in
      rw (first, second, change-some freed i drop_temp (drop_ref (add_temp slot)) is_freed)
        (
          h.registered i slot (record { there = e; counted = omega arith }),
          refl,
          (drop_temp (drop_ref (add_temp slot)), set_slot_same i _ freed.heap, omega arith),
        )
