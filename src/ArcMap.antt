-- ===== src/ArcMap.antt =====
-- src/cafs/src/util.rs: `ArcMap`, a map of reference-counted entries that holds each weakly, and `ArcMapRef`,
-- whose last drop removes the entry. The hash and the keys' equality are parameters; an allocation is a
-- number that is never given out again while the map knows it.
pub mod Table
pub mod Invariant
pub mod Steps
pub mod Handles
use crucible_rt.Prelude.{
  ℕ, zero, suc, ◌+◌, ◌-◌, ◌<◌, ◌≡◌, ◌↔◌, List, [], ◌∷◌, ◌++◌, Option, none, some, ◌==◌, ◌&&◌, ltb,
  if◌then◌else◌, Bool, true, false, In,
}
use mathlib.Core.Option

-- What the map reads of its keys: `BuildHasher::hash_one` and `Equivalent`.
pub record Keys (K : Type 0) : Type 0 where
  pub hash_one : K → ℕ
  pub equivalent : K → K → Bool
  pub equivalent_iff : (a b : K) → (equivalent a b ≡ true) ↔ (a ≡ b)

-- An allocation: `ArcMapEntry`, with how many `ArcMapRef`s and how many of `get`'s temporary upgrades
-- count on it. At none the entry is dropped.
pub record Slot (K V : Type 0) : Type 0 where
  pub hash : ℕ
  pub key : K
  pub value : V
  pub refs : ℕ
  pub temps : ℕ

-- The map's table of weak references with their hashes, the allocations, and the drops that have
-- taken the entry out of its `Arc` and wait for the lock.
pub record ArcMap (K V : Type 0) : Type 0 where
  pub table : List (ℕ × ℕ)
  pub heap : ℕ → Option (Slot K V)
  pub next : ℕ
  pub pending : List ℕ

-- `raw_entry_mut().from_hash`: the slots with the hash that pass the test.
unfoldable pub from_hash : ℕ → (ℕ → Bool) → List (ℕ × ℕ) → Option ℕ
from_hash hash test [] = none
from_hash hash test ((h, i) ∷ table) =
    if h == hash && test i then some i else from_hash hash test table

unfoldable pub remove_entry : ℕ → ℕ → List (ℕ × ℕ) → List (ℕ × ℕ)
remove_entry hash i [] = []
remove_entry hash i ((h, j) ∷ table) =
    let rest = remove_entry hash i table in if h == hash && (j == i) then table else (h, j) ∷ rest

unfoldable pub no_longer : ℕ → List ℕ → List ℕ
no_longer i [] = []
no_longer i (j ∷ js) = let rest = no_longer i js in if j == i then js else j ∷ rest

module _ {K V : Type 0} where
  -- `Weak::upgrade` fails at none.
  abbrev pub strong : Slot K V → ℕ
  strong slot = slot.refs + slot.temps

  unfoldable pub set_slot : ℕ → Slot K V → (ℕ → Option (Slot K V)) → ℕ → Option (Slot K V)
  set_slot i slot heap j = if j == i then some slot else heap j

  unfoldable pub upgrade : Option (Slot K V) → Option (Slot K V)
  upgrade none = none
  upgrade (some slot) = if ltb 0 (strong slot) then some slot else none

  abbrev pub new_map : ArcMap K V
  new_map = record { table = []; heap = λ i. none; next = 0; pending = [] }

  -- One change of a slot.
  unfoldable pub change : ℕ → (Slot K V → Slot K V) → ArcMap K V → ArcMap K V
  unfolding set_slot
  change i f map = elim (map.heap i) [
    | none ↦ map
    | some slot ↦ record map { heap = set_slot i (f slot) map.heap }
  ]

  abbrev pub add_ref : Slot K V → Slot K V
  add_ref slot = record slot { refs = slot.refs + 1 }

  abbrev pub drop_ref : Slot K V → Slot K V
  drop_ref slot = record slot { refs = slot.refs - 1 }

  abbrev pub add_temp : Slot K V → Slot K V
  add_temp slot = record slot { temps = slot.temps + 1 }

  abbrev pub drop_temp : Slot K V → Slot K V
  drop_temp slot = record slot { temps = slot.temps - 1 }

  module _ (keys : Keys K) where
    -- The closure of `get`: a candidate that is alive and has the key.
    unfoldable pub has_key : K → Option (Slot K V) → Bool
    has_key key none = false
    has_key key (some candidate) = keys.equivalent key candidate.key

    abbrev pub is_candidate : (ℕ → Option (Slot K V)) → K → ℕ → Bool
    is_candidate heap key i = has_key key (upgrade (heap i))

    -- The vacant arm, for what `default` returned.
    abbrev pub insert : K → V → ArcMap K V → ArcMap K V × ℕ
    insert new_key value map =
        let hash = keys.hash_one new_key in
        let slot : Slot K V = record {
          hash = hash;
          key = new_key;
          value = value;
          refs = 1;
          temps = 0;
        } in
        (
          record map {
            table = (hash, map.next) ∷ map.table;
            heap = set_slot map.next slot map.heap;
            next = map.next + 1;
          },
          map.next,
        )

    -- `ArcMap::get`, with the allocation of the `ArcMapRef`.
    unfoldable pub get : K → V → ArcMap K V → ArcMap K V × ℕ
    unfolding from_hash has_key change set_slot
    get key value map = elim (from_hash (keys.hash_one key) (is_candidate map.heap key) map.table) [
      | none ↦ insert key value map
      | some i ↦ (change i add_ref map, i)
    ]

    -- `ArcMapRef`'s drop until it takes the lock: the last one keeps the entry for `remove`.
    unfoldable pub release : ℕ → ArcMap K V → ArcMap K V
    unfolding change
    release i map = elim (map.heap i) [
      | none ↦ map
      | some slot ↦
          let map' = change i drop_ref map in
          if strong slot == 1 then record map' { pending = i ∷ map'.pending } else map'
    ]

    -- Its rest under the lock.
    unfoldable pub remove : ℕ → ArcMap K V → ArcMap K V
    unfolding remove_entry no_longer
    remove i map = elim (map.heap i) [
      | none ↦ map
      | some slot ↦ record map {
        table = remove_entry slot.hash i map.table;
        pending = no_longer i map.pending;
      }
    ]

    -- The steps of any threads in any order. `get` is one step under the lock, and its temporary upgrade of
    -- a candidate of another key can also span steps of other threads.
    pub data Step (map : ArcMap K V) : ArcMap K V → Type 0 where
      get_step : (key : K) (value : V) → Step map (get key value map).0
      clone_step :
          (i : ℕ) (slot : Slot K V)
          → map.heap i ≡ some slot
          → 0 < slot.refs
          → Step map (change i add_ref map)
      upgrade_step :
          (i : ℕ) (slot : Slot K V)
          → map.heap i ≡ some slot
          → 0 < strong slot
          → Step map (change i add_temp map)
      discard_step :
          (i : ℕ) (slot : Slot K V)
          → map.heap i ≡ some slot
          → 0 < slot.temps
          → Step map (change i drop_temp map)
      release_step :
          (i : ℕ) (slot : Slot K V)
          → map.heap i ≡ some slot
          → 0 < slot.refs
          → Step map (release i map)
      remove_step : (i : ℕ) → In i map.pending → Step map (remove i map)

    pub data Reach : ArcMap K V → Type 0 where
      start : Reach new_map
      later : {map map' : ArcMap K V} → Reach map → Step map map' → Reach map'
