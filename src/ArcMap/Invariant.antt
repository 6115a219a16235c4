-- ===== src/ArcMap/Invariant.antt =====
-- The well-formed states of `ArcMap` in src/cafs/src/util.rs, kept by each change.
use crucible_rt.Prelude.{
  ℕ, zero, suc, ◌<◌, ◌≡◌, ◌≢◌, refl, ap, ap₂, sym, ◌∙◌, arith, ◌∷◌, Option, some, ◌==◌, In, ◌⊎◌,
  Bool-cases, Option-cases, ==_iff, inl, inr,
}
use mathlib.Core.Option
use crucible_rt.ArcMap.{
  Keys, Slot, ArcMap, strong, set_slot, change, drop_ref, insert, release, remove,
}
use crucible_rt.ArcMap.Table.{In-remove_entry, In-no_longer}

positive : (a b : ℕ) → (a ≡ 0 → b ≡ 0) → 0 < b → 0 < a
positive zero b f h = let none_ = f refl in absurd (omega arith)
positive (suc a) b f h = omega arith

module _ {K V : Type 0} where
  -- The allocation is alive: a reference counts on it.
  pub record Live (heap : ℕ → Option (Slot K V)) (i : ℕ) (slot : Slot K V) : Type 0 where
    pub there : heap i ≡ some slot
    pub counted : 0 < strong slot

  -- A live allocation is in the table under its key's hash, no two have one key, and a drop that waits
  -- for the lock has let go of its allocation.
  pub record IsMap (keys : Keys K) (map : ArcMap K V) : Type 0 where
    pub hashed :
        (i : ℕ) (slot : Slot K V) → map.heap i ≡ some slot → slot.hash ≡ keys.hash_one slot.key
    pub registered : (i : ℕ) (slot : Slot K V) → Live map.heap i slot → In (slot.hash, i) map.table
    pub unique :
        (i j : ℕ) (slot other : Slot K V)
        → Live map.heap i slot
        → Live map.heap j other
        → slot.key ≡ other.key
        → i ≡ j
    pub fresh : (i : ℕ) (slot : Slot K V) → map.heap i ≡ some slot → i < map.next
    pub waits : (i : ℕ) → In i map.pending → i < map.next
    pub gone :
        (i : ℕ) (slot : Slot K V) → In i map.pending → map.heap i ≡ some slot → strong slot ≡ 0

  pub set_slot_same :
      (i : ℕ) (slot : Slot K V) (heap : ℕ → Option (Slot K V)) → set_slot i slot heap i ≡ some slot
  set_slot_same i slot heap = unfold set_slot in rw ((==_iff i i).1 refl)

  set_slot-cases :
      (i j : ℕ) (slot other : Slot K V) (heap : ℕ → Option (Slot K V))
      → set_slot i slot heap j ≡ some other
      → ((j ≡ i) × (slot ≡ other)) ⊎ ((j ≢ i) × (heap j ≡ some other))
  unfolding set_slot
  set_slot-cases i j slot other heap e = elim (Bool-cases (j == i)) [
    | inl t ↦ inl ((==_iff j i).0 t, ap (λ o. Option.get_or o slot) (rw t at e))
    | inr t ↦ inr ((λ same. let u = (==_iff j i).1 same in cc), rw t at e)
  ]

  -- One slot changes, which keeps its key and does not come back to life.
  module _ (keys : Keys K) (map : ArcMap K V) (h : IsMap keys map) (i : ℕ) (f : Slot K V → Slot K V)
      (slot : Slot K V) where
    change_heap :
        map.heap i ≡ some slot → change i f map ≡ record map { heap = set_slot i (f slot) map.heap }
    change_heap e = unfold change in rw (change, e)

    module _ (e : map.heap i ≡ some slot) (same_hash : (f slot).hash ≡ slot.hash)
        (same_key : (f slot).key ≡ slot.key) (dead : strong slot ≡ 0 → strong (f slot) ≡ 0) where
      before :
          (j : ℕ) (other : Slot K V)
          → set_slot i (f slot) map.heap j ≡ some other
          → (old : Slot K V) × (map.heap j ≡ some old)
            × (other.hash ≡ old.hash)
            × (other.key ≡ old.key)
            × (strong old ≡ 0 → strong other ≡ 0)
      before j other k = elim (set_slot-cases i j (f slot) other map.heap k) [
        | inl (same, is) ↦ (
          slot,
          rw same e,
          rw (← is) same_hash,
          rw (← is) same_key,
          λ zero_. rw (← is) (dead zero_),
        )
        | inr (differ, there) ↦ (other, there, refl, refl, λ zero_. zero_)
      ]

      Live-before :
          (j : ℕ) (other : Slot K V)
          → Live (set_slot i (f slot) map.heap) j other
          → (old : Slot K V) × Live map.heap j old × (other.hash ≡ old.hash) × (other.key ≡ old.key)
      Live-before j other live =
          let (old, there, hash, key, zero_) = before j other live.there in
          (
            old,
            record {
              there = there;
              counted = positive (strong old) (strong other) zero_ live.counted;
            },
            hash,
            key,
          )

      pub change-IsMap : IsMap keys (change i f map)
      change-IsMap = rw (change_heap e) (record {
        hashed = λ j other k.
            let (old, there, hash, key, zero_) = before j other k in
            hash ∙ h.hashed j old there ∙ ap keys.hash_one (sym key);
        registered = λ j other live.
            let (old, was, hash, key) = Live-before j other live in
            rw hash (h.registered j old was);
        unique = λ j k a b live live' same.
            let (old, was, hash, key) = Live-before j a live in
            let (old', was', hash', key') = Live-before k b live' in
            h.unique j k old old' was was' (sym key ∙ same ∙ key');
        fresh = λ j other k.
            let (old, there, hash, key, zero_) = before j other k in h.fresh j old there;
        waits = h.waits;
        gone = λ j other m k.
            let (old, there, hash, key, zero_) = before j other k in zero_ (h.gone j old m there);
      })

  wait-IsMap :
      (keys : Keys K) (map : ArcMap K V)
      → IsMap keys map
      → (i : ℕ) → i < map.next
      → ((slot : Slot K V) → map.heap i ≡ some slot → strong slot ≡ 0)
      → IsMap keys (record map { pending = i ∷ map.pending })
  wait-IsMap keys map h i below zero_ = record {
    hashed = h.hashed;
    registered = h.registered;
    unique = h.unique;
    fresh = h.fresh;
    waits = λ j m. elim m [ inl same ↦ rw same below | inr n ↦ h.waits j n ];
    gone =
        λ j slot m e. elim m [ inl same ↦ zero_ slot (rw same at e) | inr n ↦ h.gone j slot n e ];
  }

  -- What `get` inserts is the only live one of its key.
  module _ (keys : Keys K) (map : ArcMap K V) (h : IsMap keys map) where
    pub insert-IsMap :
        (key : K) (value : V)
        → ((i : ℕ) (slot : Slot K V) → Live map.heap i slot → slot.key ≢ key)
        → IsMap keys (insert keys key value map).0
    insert-IsMap key value none_alive =
        let slot : Slot K V = record {
          hash = keys.hash_one key;
          key = key;
          value = value;
          refs = 1;
          temps = 0;
        } in
        let split = set_slot-cases map.next in
        record {
          hashed = λ j other k. elim (split j slot other map.heap k) [
            | inl (same, is) ↦ rw (← is) refl
            | inr (differ, there) ↦ h.hashed j other there
          ];
          registered = λ j other live. elim (split j slot other map.heap live.there) [
            | inl (same, is) ↦ inl (ap₂ (λ a b. (a, b)) (ap (λ s. s.hash) (sym is)) same)
            | inr (differ, there) ↦
                inr (h.registered j other (record { there = there; counted = live.counted }))
          ];
          unique = λ j k a b live live' same. elim (split j slot a map.heap live.there) [
            | inl (here, is) ↦ elim (split k slot b map.heap live'.there) [
              | inl (here', is') ↦ here ∙ sym here'
              | inr (differ', there') ↦ absurd (
                  none_alive k b (record { there = there'; counted = live'.counted })
                    (sym same ∙ ap (λ s. s.key) (sym is)))
            ]
            | inr (differ, there) ↦ elim (split k slot b map.heap live'.there) [
              | inl (here', is') ↦ absurd (
                  none_alive j a (record { there = there; counted = live.counted })
                    (same ∙ ap (λ s. s.key) (sym is')))
              | inr (differ', there') ↦
                  h.unique j k a b (record { there = there; counted = live.counted })
                    (record { there = there'; counted = live'.counted }) same
            ]
          ];
          fresh = λ j other k. elim (split j slot other map.heap k) [
            | inl (same, is) ↦ omega arith
            | inr (differ, there) ↦ omega (arith, h.fresh j other there)
          ];
          waits = λ j m. omega (arith, h.waits j m);
          gone = λ j other m k. elim (split j slot other map.heap k) [
            | inl (same, is) ↦ absurd (omega (arith, h.waits j m))
            | inr (differ, there) ↦ h.gone j other m there
          ];
        }

    dead :
        (i j : ℕ) (slot other : Slot K V)
        → strong slot ≡ 0
        → map.heap i ≡ some slot
        → Live map.heap j other
        → i ≢ j
    dead i j slot other zero_ e live same =
        let is : slot ≡ other =
          ap (λ o. Option.get_or o slot) (sym e ∙ ap map.heap same ∙ live.there) in
        let none_ : strong other ≡ 0 = rw (← is) zero_ in let some_ = live.counted in omega arith

    pub remove-IsMap : (i : ℕ) → In i map.pending → IsMap keys (remove keys i map)
    remove-IsMap i m = elim (Option-cases (map.heap i)) [
      | inl e ↦ unfold remove in rw (remove, e) h
      | inr (slot, e) ↦
          unfold remove in
          rw (remove, e)
            (record {
              hashed = h.hashed;
              registered = λ j other live.
                  In-remove_entry slot.hash i other.hash j map.table
                    (dead i j slot other (h.gone i slot m e) e live) (h.registered j other live);
              unique = h.unique;
              fresh = h.fresh;
              waits = λ j n. h.waits j (In-no_longer i j map.pending n);
              gone = λ j other n. h.gone j other (In-no_longer i j map.pending n);
            })
    ]

    pub release-IsMap :
        (i : ℕ) (slot : Slot K V)
        → map.heap i ≡ some slot
        → 0 < slot.refs
        → IsMap keys (release keys i map)
    release-IsMap i slot e held =
        let changed = change-IsMap keys map h i drop_ref slot e refl refl (λ zero_. omega arith) in
        elim (Bool-cases (strong slot == 1)) [
          | inl t ↦
              unfold release in
              rw (release, e, t)
                (wait-IsMap keys (change i drop_ref map) changed i
                  (rw (change_heap keys map h i drop_ref slot e) (h.fresh i slot e))
                  (λ other k.
                    let is : drop_ref slot ≡ other =
                      ap (λ o. Option.get_or o slot)
                        (sym (set_slot_same i (drop_ref slot) map.heap)
                          ∙ sym (ap (λ m. m.heap i) (change_heap keys map h i drop_ref slot e))
                          ∙ k) in
                    rw (← is) (omega (arith, (==_iff (strong slot) 1).0 t))))
          | inr t ↦ unfold release in rw (release, e, t) changed
        ]
