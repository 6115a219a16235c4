-- ===== src/ArcMap/Steps.antt =====
-- The states of `ArcMap` in src/cafs/src/util.rs that its steps reach.
use crucible_rt.Prelude.{
  ℕ, ◌<◌, ◌≡◌, ◌≢◌, refl, ap, sym, ◌∙◌, subst, arith, Option, none, some, true, In, Option-cases,
  inl, inr, lt→ltb, ltb-cases,
}
use crucible_rt.ArcMap.{
  Keys, Slot, ArcMap, strong, upgrade, from_hash, add_ref, add_temp, drop_temp, has_key,
  is_candidate, get, Step, get_step, clone_step, upgrade_step, discard_step, release_step,
  remove_step, Reach, start, later,
}
use crucible_rt.ArcMap.Table.{from_hash-some, from_hash-none}
use crucible_rt.ArcMap.Invariant.{
  Live, IsMap, change-IsMap, insert-IsMap, remove-IsMap, release-IsMap,
}

module _ {K V : Type 0} (keys : Keys K) where
  absurd_none {ℓ} : {A : Type ℓ} (slot : Slot K V) → none ≡ some slot → A
  absurd_none slot e = cc

  pub has_key-Live :
      (key : K) (o : Option (Slot K V))
      → has_key keys key (upgrade o) ≡ true
      → (slot : Slot K V) × (o ≡ some slot) × (0 < strong slot) × (slot.key ≡ key)
  unfolding has_key upgrade
  has_key-Live key none e = cc
  has_key-Live key (some slot) e = elim (ltb-cases 0 (strong slot)) [
    | inl (t, alive) ↦
        (slot, refl, alive, sym ((keys.equivalent_iff key slot.key).0 (rw (t, has_key) at e)))
    | inr (t, dead) ↦ let e' : has_key {V = V} keys key none ≡ true = rw t at e in cc
  ]

  pub Live-has_key :
      (key : K) (slot : Slot K V)
      → 0 < strong slot
      → slot.key ≡ key
      → has_key keys key (upgrade (some slot)) ≡ true
  unfolding has_key upgrade
  Live-has_key key slot alive same =
      rw (lt→ltb 0 (strong slot) alive, has_key) ((keys.equivalent_iff key slot.key).1 (sym same))

  get-IsMap :
      (map : ArcMap K V)
      → IsMap keys map
      → (key : K) (value : V) → IsMap keys (get keys key value map).0
  get-IsMap map h key value =
      let test = is_candidate keys map.heap key in
      elim (Option-cases (from_hash (keys.hash_one key) test map.table)) [
        | inl e ↦
            let none_alive : (i : ℕ) (slot : Slot K V) → Live map.heap i slot → slot.key ≢ key =
              λ i slot live same.
                let m : In (keys.hash_one key, i) map.table =
                  subst (λ (n : ℕ). In (n, i) map.table)
                    (h.hashed i slot live.there ∙ ap keys.hash_one same)
                    (h.registered i slot live) in
                let missed = from_hash-none (keys.hash_one key) test map.table i e m in
                let found : test i ≡ true =
                  ap (λ o. has_key keys key (upgrade o)) live.there
                  ∙ Live-has_key key slot live.counted same in
                cc in
            unfold get in rw (get, e) (insert-IsMap keys map h key value none_alive)
        | inr (i, e) ↦
            let (slot, there, alive, same) =
              has_key-Live key (map.heap i)
                (from_hash-some (keys.hash_one key) test map.table i e) in
            unfold get in
            rw (get, e)
              (change-IsMap keys map h i add_ref slot there refl refl
                (λ zero_. absurd (omega arith)))
      ]

  Step-IsMap : {map map' : ArcMap K V} → Step keys map map' → IsMap keys map → IsMap keys map'
  Step-IsMap (get_step key value) h = get-IsMap _ h key value
  Step-IsMap (clone_step i slot e held) h =
      change-IsMap keys _ h i add_ref slot e refl refl (λ zero_. absurd (omega arith))
  Step-IsMap (upgrade_step i slot e alive) h =
      change-IsMap keys _ h i add_temp slot e refl refl (λ zero_. absurd (omega arith))
  Step-IsMap (discard_step i slot e held) h =
      change-IsMap keys _ h i drop_temp slot e refl refl (λ zero_. omega arith)
  Step-IsMap (release_step i slot e held) h = release-IsMap keys _ h i slot e held
  Step-IsMap (remove_step i m) h = remove-IsMap keys _ h i m

  -- In every state that any threads reach: a live entry is in the table under its key's hash, no
  -- two live entries have one key, and a drop that waits for the lock has let go of its entry for
  -- good.
  pub Reach-IsMap : {map : ArcMap K V} → Reach keys map → IsMap keys map
  Reach-IsMap start = record {
    hashed = λ i slot e. absurd_none slot e;
    registered = λ i slot live. absurd_none slot live.there;
    unique = λ i j a b live live' same. absurd_none a live.there;
    fresh = λ i slot e. absurd_none slot e;
    waits = λ i m. absurd m;
    gone = λ i slot m e. absurd m;
  }
  Reach-IsMap (later reach step) = Step-IsMap step (Reach-IsMap reach)
