-- ===== src/Cafs/Unflushed.antt =====
-- What `Cafs::load_big_blob` of src/cafs/src/lib.rs can give back when a loader does not flush.
use crucible_rt.Prelude.{ℕ, List, [], Option, none, some, if◌then◌else◌}
use crucible_rt.Result.{ok}
use crucible_rt.Cafs.{TokioFile, empty_file, Opened, opened, not_found, Files}

-- A disk with one file, on which bytes that are not flushed when the file is renamed are not written.
abbrev pub LateDisk : Type 0
LateDisk = Option (List ℕ)

abbrev pub open_late : LateDisk → Opened
open_late none = not_found
open_late (some content) = opened content

abbrev pub written_front : TokioFile → List ℕ
written_front file = if file.unwritten then [] else if file.lost then [] else file.accepted

abbrev pub late_files : Files LateDisk
late_files = record {
  create_dir_all = λ path d. ok d;
  open_file = λ path d. open_late d;
  copy = λ content. ok content;
  new_temp = ok empty_file;
  rename = λ file path d. ok (some (written_front file));
}
