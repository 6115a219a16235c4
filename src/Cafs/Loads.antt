-- ===== src/Cafs/Loads.antt =====
-- What `Cafs::load_big_blob` of src/cafs/src/lib.rs gives back.
use crucible_rt.Prelude.{
  ℕ, ◌≡◌, refl, ap, subst, sym, ◌∙◌, List, [], true, false, Bool, Bool-cases, inl, inr, ◌⊎◌,
  if◌then◌else◌,
}
use crucible_rt.Hashes.{hash_eq, hash_eq→eq, hash_eq_refl}
use crucible_rt.Result.{Result, ok, err, panic, stuck, io, wrong_hash, ◌>>=◌, ok_injective}
use crucible_rt.Cafs.{
  BlobPath, TokioFile, empty_file, IsFlushed, Opened, opened, not_found, failed, Files, IsFiles,
  BigBlobWriter, Loader, load, path_of, on_disk, keep, download, create_parent, init, reopen,
  load_big_blob,
}
use crucible_rt.Cafs.Writes.{taken, AllTaken, EndsFlushed, after_calls, poll_all-taken}

-- A chain that succeeds has steps that do.
pub bind_ok {ℓ κ} :
    {A : Type ℓ} {B : Type κ} (m : Result A) (f : A → Result B) (b : B)
    → (m >>= f) ≡ ok b
    → (a : A) × (m ≡ ok a) × (f a ≡ ok b)
bind_ok (ok a) f b e = (a, refl, e)
bind_ok (err x) f b e = cc
bind_ok panic f b e = cc
bind_ok stuck f b e = cc

Opened-cases :
    (o : Opened) → (((content : List ℕ) × (o ≡ opened content)) ⊎ (o ≡ not_found)) ⊎ (o ≡ failed)
Opened-cases (opened content) = inl (inl (content, refl))
Opened-cases not_found = inl (inr refl)
Opened-cases failed = inr refl

-- A writer on a new file.
abbrev pub new_writer : BigBlobWriter
new_writer = record { file = empty_file; hasher = [] }

module _ {D : Type 0} (files : Files D) (laws : IsFiles files) (digest : List ℕ → List ℕ)
    (to_hex : List ℕ → List ℕ) (big_blob_path : BlobPath) where
  -- The file in the key's place has the key for its hash.
  abbrev pub IsValid : List ℕ → D → Type 0
  IsValid hash d =
      (content : List ℕ)
      → files.open_file (path_of files digest to_hex big_blob_path hash) d ≡ opened content
      → digest content ≡ hash

  module _ (hash : List ℕ) (loader : Loader) (took : AllTaken loader.polls) where
    load_lem :
        load loader new_writer
        ≡ (if loader.succeeds then ok (after_calls loader.polls new_writer) else err io)
    load_lem = unfold load in rw (poll_all-taken loader.polls new_writer took)

    loaded :
        (me : BigBlobWriter)
        → EndsFlushed loader.polls
        → load loader new_writer ≡ ok me
        → (me.file.accepted ≡ me.hasher) × IsFlushed me.file
    loaded me ends e = elim (Bool-cases loader.succeeds) [
      | inl t ↦
          let e' : ok (after_calls loader.polls new_writer) ≡ ok me = rw t at (sym load_lem ∙ e) in
          subst (λ m. (m.file.accepted ≡ m.hasher) × IsFlushed m.file)
            (ok_injective (after_calls loader.polls new_writer) me e') (refl, ends)
      | inr t ↦ let e' : err io ≡ ok me = rw t at (sym load_lem ∙ e) in cc
    ]

    on_disk_opened :
        (d : D) (content : List ℕ)
        → files.open_file (path_of files digest to_hex big_blob_path hash) d ≡ opened content
        → on_disk files digest to_hex big_blob_path hash d
          ≡ (files.copy content >>= λ read. ok (hash_eq hash (digest read)))
    on_disk_opened d content there = unfold on_disk in rw (on_disk, there)

    on_disk-IsValid :
        (d : D) → on_disk files digest to_hex big_blob_path hash d ≡ ok true → IsValid hash d
    on_disk-IsValid d e content there =
        let (read, copied, same) =
          bind_ok (files.copy content) (λ read. ok (hash_eq hash (digest read))) true
            (sym (on_disk_opened d content there) ∙ e) in
        let equal : hash_eq hash (digest read) ≡ true = cc in
        ap digest (sym (laws.copies content read copied))
        ∙ sym (hash_eq→eq hash (digest read) equal)

    keep-IsValid :
        (me : BigBlobWriter) (d d' : D)
        → (me.file.accepted ≡ me.hasher) × IsFlushed me.file
        → keep files digest to_hex big_blob_path hash me d ≡ ok d'
        → IsValid hash d'
    unfolding keep
    keep-IsValid me d d' whole e content there =
        elim (Bool-cases (hash_eq (digest me.hasher) hash)) [
          | inl same ↦
              let found =
                laws.keeps me.file (path_of files digest to_hex big_blob_path hash) d d' whole.1
                  (rw same at e) in
              let equal : content ≡ me.file.accepted = cc in
              ap digest (equal ∙ whole.0) ∙ hash_eq→eq (digest me.hasher) hash same
          | inr differ ↦ let wrong : err wrong_hash ≡ ok d' = rw differ at e in cc
        ]

    download-IsValid :
        (d d' : D)
        → EndsFlushed loader.polls
        → download files digest to_hex big_blob_path hash loader d ≡ ok d'
        → IsValid hash d'
    unfolding download
    download-IsValid d d' ends e =
        let save : BigBlobWriter → Result D =
          λ me. keep files digest to_hex big_blob_path hash me d in
        let (file, made, first) =
          bind_ok files.new_temp
            (λ file. load loader (record { file = file; hasher = [] }) >>= save) d' e in
        let (me, wrote, second) =
          bind_ok (load loader (record { file = file; hasher = [] })) save d' first in
        let whole = loaded me ends (
          ap (λ f. load loader (record { file = f; hasher = [] })) (sym (laws.empty file made))
          ∙ wrote) in
        keep-IsValid me d d' whole second

    init-IsValid :
        (d d' : D)
        → EndsFlushed loader.polls
        → init files digest to_hex big_blob_path hash loader d ≡ ok d'
        → IsValid hash d'
    unfolding init
    init-IsValid d d' ends e =
        let path = path_of files digest to_hex big_blob_path hash in
        let fetch : D → Bool → Result D = λ there valid.
          if valid
          then ok there
          else download files digest to_hex big_blob_path hash loader there in
        let (there, made, first) =
          bind_ok (create_parent files digest to_hex big_blob_path path d)
            (λ there. on_disk files digest to_hex big_blob_path hash there >>= fetch there) d' e in
        let (valid, checked, second) =
          bind_ok (on_disk files digest to_hex big_blob_path hash there) (fetch there) d' first in
        elim (Bool-cases valid) [
          | inl t ↦
              let kept : ok there ≡ ok d' = rw t at second in
              subst (IsValid hash) (ok_injective there d' kept)
                (on_disk-IsValid there (checked ∙ ap ok t))
          | inr t ↦ download-IsValid there d' ends (rw t at second)
        ]

    reopen_opened :
        (d : D) (content : List ℕ)
        → files.open_file (path_of files digest to_hex big_blob_path hash) d ≡ opened content
        → reopen files digest to_hex big_blob_path hash d ≡ ok (d, content)
    reopen_opened d content e = unfold reopen in rw (reopen, e)

    reopen_not_found :
        (d : D)
        → files.open_file (path_of files digest to_hex big_blob_path hash) d ≡ not_found
        → reopen files digest to_hex big_blob_path hash d ≡ err io
    reopen_not_found d e = unfold reopen in rw (reopen, e)

    reopen_failed :
        (d : D)
        → files.open_file (path_of files digest to_hex big_blob_path hash) d ≡ failed
        → reopen files digest to_hex big_blob_path hash d ≡ err io
    reopen_failed d e = unfold reopen in rw (reopen, e)

    reopen_lem :
        (d d' : D) (content : List ℕ)
        → reopen files digest to_hex big_blob_path hash d ≡ ok (d', content)
        → (d ≡ d')
          × (files.open_file (path_of files digest to_hex big_blob_path hash) d ≡ opened content)
    reopen_lem d d' content e =
        elim (Opened-cases (files.open_file (path_of files digest to_hex big_blob_path hash) d)) [
          | inl (inl (found, there)) ↦
              let same =
                ok_injective (d, found) (d', content) (sym (reopen_opened d found there) ∙ e) in
              (ap (λ p. p.0) same, there ∙ ap (λ p. opened p.1) same)
          | inl (inr there) ↦ let e' = sym (reopen_not_found d there) ∙ e in cc
          | inr there ↦ let e' = sym (reopen_failed d there) ∙ e in cc
        ]

    -- When `load_big_blob` gives a file, its content has the key for its hash, and so has the file
    -- in the key's place; if the key's cell was set, for a file in place that had it. This is for
    -- a loader whose calls meet no error and end with a flush or shutdown after the last bytes.
    -- The file system reads what is there, makes temporary files empty, and finds a renamed file
    -- under its new path, with the bytes that it took when these are flushed; files take no more
    -- than they are given.
    pub load_big_blob-digest :
        (cell : Bool) (d d' : D) (content : List ℕ)
        → EndsFlushed loader.polls
        → (cell ≡ true → IsValid hash d)
        → load_big_blob files digest to_hex big_blob_path hash loader cell d ≡ ok (d', content)
        → (digest content ≡ hash) × IsValid hash d'
    unfolding load_big_blob
    load_big_blob-digest cell d d' content ends kept e =
        let (there, first, second) =
          bind_ok (if cell then ok d else init files digest to_hex big_blob_path hash loader d)
            (reopen files digest to_hex big_blob_path hash) (d', content) e in
        let (same, found) = reopen_lem there d' content second in
        let valid : IsValid hash there = elim (Bool-cases cell) [
          | inl t ↦
              let stays : ok d ≡ ok there = rw t at first in
              subst (IsValid hash) (ok_injective d there stays) (kept t)
          | inr t ↦ init-IsValid d there ends (rw t at first)
        ] in
        (valid content found, subst (IsValid hash) same valid)

    -- The file that the loader leaves.
    abbrev pub loaded_file : TokioFile
    loaded_file = (after_calls loader.polls new_writer).file

    pub download-taken :
        (d d' : D)
        → files.new_temp ≡ ok empty_file
        → loader.succeeds ≡ true
        → digest (taken loader.polls) ≡ hash
        → files.rename loaded_file (path_of files digest to_hex big_blob_path hash) d ≡ ok d'
        → download files digest to_hex big_blob_path hash loader d ≡ ok d'
    unfolding download
    download-taken d d' temp good right moved =
        let save : BigBlobWriter → Result D =
          λ me. keep files digest to_hex big_blob_path hash me d in
        let all : load loader new_writer ≡ ok (after_calls loader.polls new_writer) =
          load_lem ∙ (rw good) in
        let same : hash_eq (digest (taken loader.polls)) hash ≡ true =
          rw right (hash_eq_refl hash) in
        ap (λ m. m >>= λ file. load loader (record { file = file; hasher = [] }) >>= save) temp
        ∙ ap (λ m. m >>= save) all
        ∙ (unfold keep in rw same moved)

    -- When the blob is missing or corrupted, its directory and a temporary file are made, the
    -- loader succeeds, its calls meet no error and end with a flush or shutdown after the last
    -- bytes, the bytes that the file took have the key for their hash, and the rename succeeds,
    -- `load_big_blob` gives just those bytes, for a file system as documented whose files take no
    -- more than they are given.
    pub load_big_blob-taken :
        (d made d' : D)
        → EndsFlushed loader.polls
        → create_parent files digest to_hex big_blob_path
            (path_of files digest to_hex big_blob_path hash)
            d
          ≡ ok made
        → on_disk files digest to_hex big_blob_path hash made ≡ ok false
        → files.new_temp ≡ ok empty_file
        → loader.succeeds ≡ true
        → digest (taken loader.polls) ≡ hash
        → files.rename loaded_file (path_of files digest to_hex big_blob_path hash) made ≡ ok d'
        → load_big_blob files digest to_hex big_blob_path hash loader false d
          ≡ ok (d', taken loader.polls)
    unfolding load_big_blob init
    load_big_blob-taken d made d' ends parent_made missing temp good right moved =
        rw (parent_made, missing, download-taken made d' temp good right moved)
          (reopen_opened d' (taken loader.polls) (
            laws.keeps loaded_file (path_of files digest to_hex big_blob_path hash) made d' ends
              moved))

    -- A blob that is there is given back as it is, whatever the loader would do.
    pub load_big_blob-on_disk :
        (d made : D) (content : List ℕ)
        → create_parent files digest to_hex big_blob_path
            (path_of files digest to_hex big_blob_path hash)
            d
          ≡ ok made
        → files.open_file (path_of files digest to_hex big_blob_path hash) made ≡ opened content
        → files.copy content ≡ ok content
        → digest content ≡ hash
        → load_big_blob files digest to_hex big_blob_path hash loader false d ≡ ok (made, content)
    unfolding load_big_blob init
    load_big_blob-on_disk d made content parent_made there read right =
        let valid : on_disk files digest to_hex big_blob_path hash made ≡ ok true =
          on_disk_opened made content there ∙ (rw (read, right, hash_eq_refl hash)) in
        rw (parent_made, valid) (reopen_opened made content there)
