-- ===== src/Transfer/Upload/Tests.antt =====
-- Runs of the upload pipeline, and the theorems about it at concrete inputs.
use binbook.Prelude.{
  ℕ, ◌^◌, ◌-◌, ◌+◌, ◌<◌, ◌≤◌, ◌≡◌, ◌⊎◌, refl, true, false, none, List, [], ◌∷◌, ok, arith, ◌++◌,
  ◌==◌, if◌then◌else◌,
}
use binbook.Prelude.{length as list_length}
use binbook.Checksum.Crc32.{update, iso_hdlc}
use binbook.Transfer.Slots as Slots
use binbook.Transfer.Slots.{
  begin_session, abort_session, claim_upload, take_upload_for_storage, complete_upload, Descriptor,
  upload, occupied, stale_generation,
}
use binbook.Transfer.Slots.Count.{held_bytes}
use binbook.Transfer.Upload.{
  Pipeline, Session, Frame, FinishResponse, new, open_upload, admit_check, admit_in, admit,
  take_for_storage, give_credit, store_in, complete_in, complete_storage, finish, abort, committed,
  crc_mismatch, busy,
}
use binbook.Transfer.Upload.Invariant.{new-IsValid}
use binbook.Transfer.Upload.Run.{
  Call, open_call, admit_call, take_call, complete_call, finish_call, step, run, run_conserves,
  run_never_stalls, run_from-IsValid,
}
use binbook.Transfer.Upload.Admit.{admit_accepts}
use binbook.Transfer.Upload.Stored.{opened, account, account_of, finish-account_of}
use binbook.Transfer.Upload.Errors.{error_of, error_keeps}

-- An upload of five bytes in chunks of four, with a window of two.
abbrev first_frame : Frame
first_frame = record {
  stream_id = 7;
  offset = 0;
  end_of_data = false;
  payload = 1 ∷ 2 ∷ 3 ∷ 4 ∷ [];
}

abbrev last_frame : Frame
last_frame = record { stream_id = 7; offset = 4; end_of_data = true; payload = 5 ∷ [] }

abbrev first_slot : Descriptor
first_slot = record { slot = 0; generation = 1; offset = 0; len = 4; direction = upload }

abbrev last_slot : Descriptor
last_slot = record { slot = 1; generation = 1; offset = 4; len = 1; direction = upload }

abbrev session : List Call
session =
    open_call 7 5 0x470b_99f4 4 2 (omega arith)
    ∷ admit_call first_frame
    ∷ take_call first_slot
    ∷ admit_call last_frame
    ∷ take_call last_slot
    ∷ complete_call first_slot (1 ∷ 2 ∷ 3 ∷ 4 ∷ [])
    ∷ []

-- The session then: four bytes are stored, the last one is in its slot, and one credit waits.
abbrev mid : Session
mid = record {
  stream_id = 7;
  total_size = 5;
  expected_crc32 = 0x470b_99f4;
  chunk_size = 4;
  window = 2;
  sender_credits = 0;
  pending_credits = 1;
  admitted_offset = 5;
  durable_offset = 4;
  crc_state = update (2 ^ 32 - 1) (1 ∷ 2 ∷ 3 ∷ 4 ∷ []);
  end_seen = true;
}

abbrev session_stored : List Call
session_stored = session ++ (complete_call last_slot (5 ∷ []) ∷ [])

abbrev finished : List Call
finished = session_stored ++ (finish_call 7 ∷ [])

abbrev book : List ℕ
book = 1 ∷ 2 ∷ 3 ∷ 4 ∷ 5 ∷ []

abbrev response : FinishResponse
response = record {
  stream_id = 7;
  result = committed;
  total_bytes = 5;
  computed_crc32 = 0x470b_99f4;
}

-- The upload of five bytes runs to its end, and is committed.
finished_commits : finish (run new session_stored) 7 ≡ (ok response, run new finished)
unfolding run step new open_upload admit admit_in admit_check take_for_storage complete_storage
    complete_in store_in give_credit finish abort Slots.new begin_session abort_session claim_upload
    take_upload_for_storage complete_upload update
finished_commits = refl

run_conserves_example :
    let pool = (run new session).pool in
    (0 + 1 + occupied pool ≡ 2) × (0 < 2) × (2 ≤ 4) × (4 + held_bytes pool ≡ 5) × (5 ≤ 5)
unfolding run step new open_upload admit admit_in admit_check take_for_storage complete_storage
    complete_in store_in give_credit finish abort Slots.new begin_session abort_session claim_upload
    take_upload_for_storage complete_upload update
run_conserves_example = run_conserves session {s = mid} refl

run_never_stalls_example : 0 < 0 + occupied (run new session).pool
unfolding run step new open_upload admit admit_in admit_check take_for_storage complete_storage
    complete_in store_in give_credit finish abort Slots.new begin_session abort_session claim_upload
    take_upload_for_storage complete_upload update
run_never_stalls_example = run_never_stalls session {s = mid} refl

-- Before the last chunk the sender holds a credit.
abbrev started : Pipeline
started = run new (open_call 7 5 0x470b_99f4 4 2 (omega arith) ∷ [])

abbrev opened_session : Session
opened_session = record {
  stream_id = 7;
  total_size = 5;
  expected_crc32 = 0x470b_99f4;
  chunk_size = 4;
  window = 2;
  sender_credits = 2;
  pending_credits = 0;
  admitted_offset = 0;
  durable_offset = 0;
  crc_state = 2 ^ 32 - 1;
  end_seen = false;
}

admit_accepts_example : (d : Descriptor) × ((admit started first_frame).0 ≡ ok d)
unfolding run step new open_upload admit admit_in admit_check take_for_storage complete_storage
    complete_in store_in give_credit finish abort Slots.new begin_session abort_session claim_upload
    take_upload_for_storage complete_upload update
admit_accepts_example =
    admit_accepts started opened_session first_frame
      (run_from-IsValid new (open_call 7 5 0x470b_99f4 4 2 (omega arith) ∷ []) new-IsValid) refl
      (record { stream = refl; in_order = refl; sized = refl; flagged = refl }) (omega arith)
      (omega arith)

finish-account_of_example :
    (list_length book ≡ 5)
    × (response.total_bytes ≡ 5)
    × (response.computed_crc32 ≡ iso_hdlc book)
    × ((0 < 0) ⊎ (book ≡ book))
    × (response.result ≡ (if iso_hdlc book == 0x470b_99f4 then committed else crc_mismatch))
    × ((run new finished).active ≡ none)
unfolding account account_of run step new open_upload admit admit_in admit_check take_for_storage
    complete_storage complete_in store_in give_credit finish abort Slots.new begin_session
    abort_session claim_upload take_upload_for_storage complete_upload update
finish-account_of_example =
    finish-account_of session_stored 7 {q = run new finished} finished_commits

-- The same upload, with a completion of the first chunk before the storage took it. The pool refuses
-- it, the bytes that are stored in the end are the same, and the upload is not committed.
abbrev session_refused : List Call
session_refused =
    open_call 7 5 0x470b_99f4 4 2 (omega arith)
    ∷ admit_call first_frame
    ∷ complete_call first_slot (1 ∷ 2 ∷ 3 ∷ 4 ∷ [])
    ∷ take_call first_slot
    ∷ admit_call last_frame
    ∷ take_call last_slot
    ∷ complete_call first_slot (1 ∷ 2 ∷ 3 ∷ 4 ∷ [])
    ∷ complete_call last_slot (5 ∷ [])
    ∷ []

refused_stores : account_of new (opened 0 0) session_refused ≡ record {
  total = 5;
  crc = 0x470b_99f4;
  bytes = book;
  fed = 1 ∷ 2 ∷ 3 ∷ 4 ∷ book;
  refusals = 1;
}
unfolding account account_of run step new open_upload admit admit_in admit_check take_for_storage
    complete_storage complete_in store_in give_credit finish abort Slots.new begin_session
    abort_session claim_upload take_upload_for_storage complete_upload update
refused_stores = refl

refused_mismatches :
    (r : FinishResponse) × ((finish (run new session_refused) 7).0 ≡ ok r)
    × (r.result ≡ crc_mismatch)
unfolding run step new open_upload admit admit_in admit_check take_for_storage complete_storage
    complete_in store_in give_credit finish abort Slots.new begin_session abort_session claim_upload
    take_upload_for_storage complete_upload update
refused_mismatches = (_, refl, refl)

error_keeps_example : step (run new session) (finish_call 7) ≡ run new session
unfolding run step new open_upload admit admit_in admit_check take_for_storage complete_storage
    complete_in store_in give_credit finish abort Slots.new begin_session abort_session claim_upload
    take_upload_for_storage complete_upload update
error_keeps_example =
    error_keeps (run new session) (finish_call 7) {e = busy} (unfold error_of in refl) refl
