-- ===== src/Tests/Stores.antt =====
-- Examples of the theorems on src/cafs/src/util.rs and src/cafs/src/lib.rs.
use crucible_rt.Prelude.{
  ℕ, ◌%◌, ◌≡◌, refl, ap, sym, arith, List, [], ◌∷◌, length, Option, none, some, true, false, In,
  ◌==◌, ==_iff,
}
use crucible_rt.Hashes.{hash_eq}
use crucible_rt.Result.{ok, ok_injective}
use crucible_rt.ArcMap.{
  Keys, Slot, ArcMap, strong, set_slot, from_hash, change, add_temp, drop_temp, get, release,
  remove, new_map, Reach, start, later, get_step,
}
use crucible_rt.ArcMap.Invariant.{Live, IsMap}
use crucible_rt.ArcMap.Steps.{Reach-IsMap}
use crucible_rt.ArcMap.Handles.{get_lem, remove-get, release-upgrade}
use crucible_rt.Cafs.{
  BlobPath, empty_file, Opened, opened, not_found, Files, IsFiles, wait, ready_ok, write, flush,
  shutdown, poll_flush, poll_shutdown, Loader, poll_all, load_big_blob, init, download, load,
  poll_write, keep, reopen, blob_path, parent, create_parent, on_disk,
}
use crucible_rt.Cafs.Writes.{taken, EndsFlushed, unwritten_after, lost_after}
use crucible_rt.Cafs.Loads.{load_big_blob-digest, load_big_blob-taken}

-- Keys whose hashes collide.
abbrev keys : Keys ℕ
keys = record {
  hash_one = λ k. k % 2;
  equivalent = λ a b. a == b;
  equivalent_iff = λ a b. ==_iff a b;
}

abbrev one_entry : ArcMap ℕ ℕ
one_entry = (get keys 5 50 new_map).0

one_entry-Reach : Reach keys one_entry
one_entry-Reach = later start (get_step 5 50)

Reach-IsMap_example : IsMap keys one_entry
Reach-IsMap_example = Reach-IsMap keys one_entry-Reach

get_lem_example :
    (slot : Slot ℕ ℕ) × Live (get keys 5 70 one_entry).0.heap (get keys 5 70 one_entry).1 slot
    × (slot.key ≡ 5)
    × ((j : ℕ) (other : Slot ℕ ℕ)
        → Live one_entry.heap j other
        → other.key ≡ 5
        → j ≡ (get keys 5 70 one_entry).1)
get_lem_example = get_lem keys one_entry 5 70 one_entry-Reach

abbrev added : ArcMap ℕ ℕ × ℕ
added = get keys 7 70 new_map

remove-get_example :
    In added.1 (release keys added.1 added.0).pending
    × ((remove keys added.1 (release keys added.1 added.0)).table ≡ [])
    × ((remove keys added.1 (release keys added.1 added.0)).pending ≡ [])
remove-get_example = remove-get keys new_map 7 70 start (λ i slot live. let e = live.there in cc)

abbrev first_slot : Slot ℕ ℕ
first_slot = record { hash = 1; key = 5; value = 50; refs = 1; temps = 0 }

first_there : one_entry.heap 0 ≡ some first_slot
first_there = unfold get from_hash set_slot in refl

release-upgrade_example :
    In (1, 0) (change 0 drop_temp (release keys 0 (change 0 add_temp one_entry))).table
    × ((change 0 drop_temp (release keys 0 (change 0 add_temp one_entry))).pending
        ≡ one_entry.pending)
    × ((left : Slot ℕ ℕ) × ((change 0 drop_temp (release keys 0 (change 0 add_temp one_entry))).heap
            0
          ≡ some left)
        × (strong left ≡ 0))
release-upgrade_example =
    release-upgrade keys one_entry 0 first_slot one_entry-Reach first_there refl refl

-- A disk with room for one file, and a hash that counts.
abbrev open_one : BlobPath → Option (List ℕ) → Opened
open_one path none = not_found
open_one path (some content) = opened content

abbrev files : Files (Option (List ℕ))
files = record {
  create_dir_all = λ path d. ok d;
  open_file = open_one;
  copy = λ content. ok content;
  new_temp = ok empty_file;
  rename = λ file path d. ok (some file.accepted);
}

files-IsFiles : IsFiles files
files-IsFiles = record {
  copies = λ content read e. ok_injective read content (sym e);
  empty = λ file e. ok_injective file empty_file (sym e);
  renames = λ file path d d' e.
      (file.accepted, ap (open_one path) (sym (ok_injective (some file.accepted) d' e)));
  keeps = λ file path d d' h e. ap (open_one path) (sym (ok_injective (some file.accepted) d' e));
}

abbrev count : List ℕ → List ℕ
count bytes = length bytes ∷ []

abbrev to_hex : List ℕ → List ℕ
to_hex hash = b'0' ∷ b'3' ∷ b'a' ∷ []

abbrev loader : Loader
loader = record {
  polls =
      write (1 ∷ 2 ∷ 3 ∷ []) (ready_ok 2)
      ∷ write (3 ∷ []) wait
      ∷ flush (ready_ok tt)
      ∷ write (3 ∷ []) (ready_ok 1)
      ∷ flush wait
      ∷ shutdown (ready_ok tt)
      ∷ [];
  succeeds = true;
}

ends_flushed : EndsFlushed loader.polls
ends_flushed = unfold unwritten_after lost_after in (refl, refl)

-- The same bytes without a flush.
abbrev hasty_loader : Loader
hasty_loader = record { polls = write (1 ∷ 2 ∷ 3 ∷ []) (ready_ok 3) ∷ []; succeeds = true }

load_big_blob-taken_example :
    load_big_blob files count to_hex [] (3 ∷ []) loader false (some (7 ∷ []))
    ≡ ok (some (taken loader.polls), taken loader.polls)
load_big_blob-taken_example =
    load_big_blob-taken files files-IsFiles count to_hex [] (3 ∷ []) loader
      (omega arith, (omega arith, tt)) (some (7 ∷ [])) (some (7 ∷ [])) (some (taken loader.polls))
      ends_flushed (unfold create_parent blob_path parent in refl) (unfold on_disk hash_eq in refl)
      refl refl (unfold taken in refl) refl

load_one :
    load_big_blob files count to_hex [] (3 ∷ []) loader false (some (7 ∷ []))
    ≡ ok (some (1 ∷ 2 ∷ 3 ∷ []), 1 ∷ 2 ∷ 3 ∷ [])
unfolding load_big_blob init create_parent on_disk download load poll_all poll_write poll_flush
    poll_shutdown keep hash_eq reopen blob_path parent
load_one = refl

load_big_blob-digest_example :
    (count (1 ∷ 2 ∷ 3 ∷ []) ≡ 3 ∷ [])
    × ((content : List ℕ)
        → files.open_file (blob_path [] (to_hex (3 ∷ []))) (some (1 ∷ 2 ∷ 3 ∷ [])) ≡ opened content
        → count content ≡ 3 ∷ [])
load_big_blob-digest_example =
    load_big_blob-digest files files-IsFiles count to_hex [] (3 ∷ []) loader
      (omega arith, (omega arith, tt)) false (some (7 ∷ [])) (some (1 ∷ 2 ∷ 3 ∷ []))
      (1 ∷ 2 ∷ 3 ∷ []) ends_flushed (λ set. let e = set in cc) load_one
