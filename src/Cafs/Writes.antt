-- ===== src/Cafs/Writes.antt =====
-- `BigBlobWriter` of src/cafs/src/lib.rs gives the hasher the bytes that the file took.
use crucible_rt.Prelude.{
  ℕ, ◌≤◌, ◌≡◌, ap, sym, ◌∙◌, List, [], ◌∷◌, ◌++◌, length, take, append_assoc, append-nil, le→leb,
  ap₂, Bool, true, false,
}
use crucible_rt.Result.{ok}
use crucible_rt.Cafs.{
  wait, ready_err, ready_ok, accept, flushed, lose, BigBlobWriter, poll_write, poll_flush,
  poll_shutdown, Call, write, flush, shutdown, poll_all,
}

-- The bytes that the file took.
unfoldable pub taken : List Call → List ℕ
taken [] = []
taken (write buf wait ∷ polls) = taken polls
taken (write buf ready_err ∷ polls) = taken polls
taken (write buf (ready_ok size) ∷ polls) = take size buf ++ taken polls
taken (flush answer ∷ polls) = taken polls
taken (shutdown answer ∷ polls) = taken polls

-- Bytes were taken after the last flush.
unfoldable pub unwritten_after : Bool → List Call → Bool
unwritten_after before [] = before
unwritten_after before (write buf wait ∷ polls) = unwritten_after before polls
unwritten_after before (write buf ready_err ∷ polls) = unwritten_after before polls
unwritten_after before (write buf (ready_ok size) ∷ polls) = unwritten_after true polls
unwritten_after before (flush wait ∷ polls) = unwritten_after before polls
unwritten_after before (flush ready_err ∷ polls) = unwritten_after before polls
unwritten_after before (flush (ready_ok u) ∷ polls) = unwritten_after false polls
unwritten_after before (shutdown wait ∷ polls) = unwritten_after before polls
unwritten_after before (shutdown ready_err ∷ polls) = unwritten_after before polls
unwritten_after before (shutdown (ready_ok u) ∷ polls) = unwritten_after false polls

-- A call was answered with an error.
unfoldable pub lost_after : Bool → List Call → Bool
lost_after before [] = before
lost_after before (write buf wait ∷ polls) = lost_after before polls
lost_after before (write buf ready_err ∷ polls) = lost_after true polls
lost_after before (write buf (ready_ok size) ∷ polls) = lost_after before polls
lost_after before (flush wait ∷ polls) = lost_after before polls
lost_after before (flush ready_err ∷ polls) = lost_after true polls
lost_after before (flush (ready_ok u) ∷ polls) = lost_after before polls
lost_after before (shutdown wait ∷ polls) = lost_after before polls
lost_after before (shutdown ready_err ∷ polls) = lost_after true polls
lost_after before (shutdown (ready_ok u) ∷ polls) = lost_after before polls

-- No call fails, and no bytes are taken after the last flush.
abbrev pub EndsFlushed : List Call → Type 0
EndsFlushed polls = (unwritten_after false polls ≡ false) × (lost_after false polls ≡ false)

-- A file takes no more than it is given.
abbrev pub AllTaken : List Call → Type 0
AllTaken [] = Unit {0}
AllTaken (write buf wait ∷ polls) = AllTaken polls
AllTaken (write buf ready_err ∷ polls) = AllTaken polls
AllTaken (write buf (ready_ok size) ∷ polls) = (size ≤ length buf) × AllTaken polls
AllTaken (flush answer ∷ polls) = AllTaken polls
AllTaken (shutdown answer ∷ polls) = AllTaken polls

-- A writer after the calls.
abbrev pub after_calls : List Call → BigBlobWriter → BigBlobWriter
after_calls polls me = record {
  file = record {
    accepted = me.file.accepted ++ taken polls;
    unwritten = unwritten_after me.file.unwritten polls;
    lost = lost_after me.file.lost polls;
  };
  hasher = me.hasher ++ taken polls;
}

pub poll_all-taken :
    (polls : List Call) (me : BigBlobWriter)
    → AllTaken polls
    → poll_all polls me ≡ ok (after_calls polls me)
unfolding poll_all taken unwritten_after lost_after poll_write poll_flush poll_shutdown
poll_all-taken [] me h = ap ok (
    ap₂ (λ a b. record { file = record me.file { accepted = a }; hasher = b })
      (sym (append-nil me.file.accepted)) (sym (append-nil me.hasher)))
poll_all-taken (write buf wait ∷ polls) me h = poll_all-taken polls me h
poll_all-taken (write buf ready_err ∷ polls) me h =
    poll_all-taken polls (record me { file = lose me.file }) h
poll_all-taken (write buf (ready_ok size) ∷ polls) me h =
    let part = take size buf in
    let me' : BigBlobWriter = record { file = accept me.file part; hasher = me.hasher ++ part } in
    rw (le→leb size (length buf) h.0) (
      poll_all-taken polls me' h.1
      ∙ ap ok (
          ap₂
            (λ a b. record {
              file = record {
                accepted = a;
                unwritten = unwritten_after true polls;
                lost = lost_after me.file.lost polls;
              };
              hasher = b;
            })
            (append_assoc me.file.accepted part (taken polls))
            (append_assoc me.hasher part (taken polls))))
poll_all-taken (flush wait ∷ polls) me h = poll_all-taken polls me h
poll_all-taken (flush ready_err ∷ polls) me h =
    poll_all-taken polls (record me { file = lose me.file }) h
poll_all-taken (flush (ready_ok u) ∷ polls) me h =
    poll_all-taken polls (record me { file = flushed me.file }) h
poll_all-taken (shutdown wait ∷ polls) me h = poll_all-taken polls me h
poll_all-taken (shutdown ready_err ∷ polls) me h =
    poll_all-taken polls (record me { file = lose me.file }) h
poll_all-taken (shutdown (ready_ok u) ∷ polls) me h =
    poll_all-taken polls (record me { file = flushed me.file }) h
