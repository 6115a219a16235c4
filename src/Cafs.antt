-- ===== src/Cafs.antt =====
-- src/cafs/src/lib.rs: big blobs, each in a file that is named by its hash. The file system and blake3 are
-- parameters; `async` code is what it computes, and the calls that a loader makes of its writer are a list.
pub mod Writes
pub mod Loads
pub mod Unflushed
use crucible_rt.Prelude.{
  ℕ, List, [], ◌∷◌, ◌++◌, Option, none, some, take, drop, length, ◌≡◌, ◌≤◌, leb, ◌==◌, ◌&&◌, Bool,
  true, false, if◌then◌else◌,
}
use crucible_rt.Hashes.{hash_eq}
use crucible_rt.Result.{Result, ok, err, panic, stuck, io, wrong_hash, ◌>>=◌}

-- A path below the directory of the blobs, by its components.
abbrev pub BlobPath : Type 0
BlobPath = List (List ℕ)

-- `Cafs::blob_path`, of the hash in hexadecimal.
unfoldable pub blob_path : BlobPath → List ℕ → BlobPath
blob_path big_blob_path hex = big_blob_path ++ (take 2 hex ∷ drop 2 hex ∷ [])

-- `Path::parent`.
unfoldable pub parent : BlobPath → Option BlobPath
parent [] = none
parent (p ∷ []) = some []
parent (p ∷ q ∷ ps) = elim (parent (q ∷ ps)) [ none ↦ none | some qs ↦ some (p ∷ qs) ]

-- The content of a file that was opened, and the two ways to fail that the code tells apart.
pub data Opened : Type 0 where
  opened : List ℕ → Opened
  not_found : Opened
  failed : Opened

-- A `tokio::fs::File` that is written: the bytes that it took, whether some of them may not be written
-- yet, and whether an error came up, so that some may be lost.
pub record TokioFile : Type 0 where
  pub accepted : List ℕ
  pub unwritten : Bool
  pub lost : Bool

abbrev pub empty_file : TokioFile
empty_file = record { accepted = []; unwritten = false; lost = false }

abbrev pub IsFlushed : TokioFile → Type 0
IsFlushed file = (file.unwritten ≡ false) × (file.lost ≡ false)

-- `tokio::fs` on a disk.
pub record Files (D : Type 0) : Type 0 where
  pub create_dir_all : BlobPath → D → Result D
  pub open_file : BlobPath → D → Opened
  pub copy : List ℕ → Result (List ℕ)
  pub new_temp : Result TokioFile
  pub rename : TokioFile → BlobPath → D → Result D

-- What is documented of them: reading gives the content or fails, a temporary file is empty, a
-- renamed file is found under its new path, and it has the bytes that it took when these are flushed.
pub record IsFiles {D : Type 0} (files : Files D) : Type 0 where
  pub copies : (content read : List ℕ) → files.copy content ≡ ok read → read ≡ content
  pub empty : (file : TokioFile) → files.new_temp ≡ ok file → file ≡ empty_file
  pub renames :
      (file : TokioFile) (path : BlobPath) (d d' : D)
      → files.rename file path d ≡ ok d'
      → (content : List ℕ) × (files.open_file path d' ≡ opened content)
  pub keeps :
      (file : TokioFile) (path : BlobPath) (d d' : D)
      → IsFlushed file
      → files.rename file path d ≡ ok d'
      → files.open_file path d' ≡ opened file.accepted

-- What a poll of the file answers: not yet, an error, or a result.
pub data Poll (A : Type 0) : Type 0 where
  wait : Poll A
  ready_err : Poll A
  ready_ok : A → Poll A

-- The file after `File::poll_write` took bytes, after a successful flush, and after an error.
abbrev pub accept : TokioFile → List ℕ → TokioFile
accept file bytes = record file { accepted = file.accepted ++ bytes; unwritten = true }

abbrev pub flushed : TokioFile → TokioFile
flushed file = record file { unwritten = false }

abbrev pub lose : TokioFile → TokioFile
lose file = record file { lost = true }

-- `BigBlobWriter`: the file, and what the hasher was given.
pub record BigBlobWriter : Type 0 where
  pub file : TokioFile
  pub hasher : List ℕ

-- `BigBlobWriter::poll_write`; a file takes a front of the bytes, and `&buf[0..size]` panics on a longer one.
unfoldable pub poll_write : BigBlobWriter → List ℕ → Poll ℕ → Result BigBlobWriter
poll_write me buf wait = ok me
poll_write me buf ready_err = ok (record me { file = lose me.file })
poll_write me buf (ready_ok size) =
    if leb size (length buf)
    then ok (record { file = accept me.file (take size buf); hasher = me.hasher ++ take size buf })
    else panic

-- `BigBlobWriter::poll_flush`, and `poll_shutdown`, which flushes a file.
unfoldable pub poll_flush : BigBlobWriter → Poll (Unit {0}) → BigBlobWriter
poll_flush me wait = me
poll_flush me ready_err = record me { file = lose me.file }
poll_flush me (ready_ok u) = record me { file = flushed me.file }

unfoldable pub poll_shutdown : BigBlobWriter → Poll (Unit {0}) → BigBlobWriter
poll_shutdown me wait = me
poll_shutdown me ready_err = record me { file = lose me.file }
poll_shutdown me (ready_ok u) = record me { file = flushed me.file }

-- A call of the writer, with the file's answer.
pub data Call : Type 0 where
  write : List ℕ → Poll ℕ → Call
  flush : Poll (Unit {0}) → Call
  shutdown : Poll (Unit {0}) → Call

-- A loader: the calls it makes, and whether it succeeds.
pub record Loader : Type 0 where
  pub polls : List Call
  pub succeeds : Bool

unfoldable pub poll_all : List Call → BigBlobWriter → Result BigBlobWriter
unfolding poll_write poll_flush poll_shutdown
poll_all [] me = ok me
poll_all (write buf answer ∷ polls) me = do me' ← poll_write me buf answer; poll_all polls me'
poll_all (flush answer ∷ polls) me = poll_all polls (poll_flush me answer)
poll_all (shutdown answer ∷ polls) me = poll_all polls (poll_shutdown me answer)

unfoldable pub load : Loader → BigBlobWriter → Result BigBlobWriter
unfolding poll_all
load loader me = do me' ← poll_all loader.polls me; if loader.succeeds then ok me' else err io

module _ {D : Type 0} (files : Files D) (digest : List ℕ → List ℕ) (to_hex : List ℕ → List ℕ)
    (big_blob_path : BlobPath) where
  abbrev pub path_of : List ℕ → BlobPath
  path_of hash = blob_path big_blob_path (to_hex hash)

  -- The file on the disk has the hash.
  unfoldable pub on_disk : List ℕ → D → Result Bool
  unfolding hash_eq
  on_disk hash d = elim (files.open_file (path_of hash) d) [
    | opened content ↦ do read ← files.copy content; ok (hash_eq hash (digest read))
    | not_found ↦ ok false
    | failed ↦ err io
  ]

  -- What was loaded is moved to its place when it has the hash.
  unfoldable pub keep : List ℕ → BigBlobWriter → D → Result D
  unfolding hash_eq
  keep hash me d =
      if hash_eq (digest me.hasher) hash
      then files.rename me.file (path_of hash) d
      else err wrong_hash

  -- A new file from the loader.
  unfoldable pub download : List ℕ → Loader → D → Result D
  unfolding load keep
  download hash loader d = do
    file ← files.new_temp
    me ← load loader (record { file = file; hasher = [] })
    keep hash me d

  unfoldable pub create_parent : BlobPath → D → Result D
  unfolding parent
  create_parent path d = elim (parent path) [ none ↦ ok d | some dir ↦ files.create_dir_all dir d ]

  -- The closure of `get_or_try_init`.
  unfoldable pub init : List ℕ → Loader → D → Result D
  unfolding create_parent on_disk download
  init hash loader d = do
    d' ← create_parent (path_of hash) d
    valid ← on_disk hash d'
    if valid then ok d' else download hash loader d'

  -- The last line: the blob is opened again.
  unfoldable pub reopen : List ℕ → D → Result (D × List ℕ)
  reopen hash d = elim (files.open_file (path_of hash) d) [
    | opened content ↦ ok (d, content)
    | not_found ↦ err io
    | failed ↦ err io
  ]

  -- `Cafs::load_big_blob`, where the key's cell is set or not: the disk and the file that is given back.
  unfoldable pub load_big_blob : List ℕ → Loader → Bool → D → Result (D × List ℕ)
  unfolding init reopen
  load_big_blob hash loader cell d = do
    d' ← if cell then ok d else init hash loader d
    reopen hash d'
