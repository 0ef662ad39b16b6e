-- ===== src/Transfer/Upload.antt =====
-- firmware/crates/binbook-fw/src/bulk_upload_pipeline.rs and bulk_upload_types.rs: one upload at a
-- time, in chunks that are admitted in order, held in a slot each, stored, and acknowledged by
-- credits. A method on `&mut self` returns its result and the new pipeline, also where it fails.
pub mod Invariant
pub mod Admit
pub mod Complete
pub mod Run
pub mod Errors
pub mod Stored
mod Tests
use binbook.Prelude.{
  ℕ, ◌+◌, ◌-◌, ◌*◌, ◌%◌, ◌^◌, Bool, true, false, not, ◌&&◌, ◌||◌, Option, none, some, List, min,
  ltb, ◌==◌, if◌then◌else◌, Result, ok, err, ◌>>=◌,
}
use binbook.Prelude.{length as list_length}
use binbook.Checksum.Crc32.{update, not_u32}
use binbook.Transfer.Slots.{
  u8_mod, u16_mod, u32_mod, transfer_data_bytes, transfer_slot_count, Direction, upload, Descriptor,
  SlotPool, SlotError, begin_session, abort_session, claim_upload, take_upload_for_storage,
  complete_upload, occupied,
}
use binbook.Transfer.Slots as Slots

pub data UploadError : Type 0 where
  already_active inactive wrong_stream wrong_offset bad_length end_flag no_credit busy : UploadError
  incomplete : UploadError
  slot : SlotError → UploadError

-- `UploadSession`
pub record Session : Type 0 where
  pub stream_id : ℕ
  pub total_size : ℕ
  pub expected_crc32 : ℕ
  pub chunk_size : ℕ
  pub window : ℕ
  pub sender_credits : ℕ
  pub pending_credits : ℕ
  pub admitted_offset : ℕ
  pub durable_offset : ℕ
  pub crc_state : ℕ
  pub end_seen : Bool

-- `BulkUploadPipeline`
pub record Pipeline : Type 0 where
  pub pool : SlotPool
  pub active : Option Session
  pub aborted_tombstone : Option ℕ

-- `StoreBulkData`, `StoreBulkCredit`, `StoreBulkStatusResponse` and `StoreBulkFinishResponse` of the
-- diagnostic protocol, with the enums that they hold.
pub data Status : Type 0 where
  status_ok error bad_request not_found internal_error unsupported : Status

pub data BulkState : Type 0 where
  receiving finishing complete failed : BulkState

pub record Frame : Type 0 where
  pub stream_id : ℕ
  pub offset : ℕ
  pub end_of_data : Bool
  pub payload : List ℕ

pub record Credit : Type 0 where
  pub stream_id : ℕ
  pub durable_offset : ℕ
  pub credits : ℕ
  pub status : Status

pub record StatusResponse : Type 0 where
  pub stream_id : ℕ
  pub direction : Direction
  pub state : BulkState
  pub available_credits : ℕ
  pub durable_offset : ℕ
  pub total_size : ℕ
  pub running_crc32 : ℕ

pub data CommitResult : Type 0 where
  committed crc_mismatch : CommitResult

pub record FinishResponse : Type 0 where
  pub stream_id : ℕ
  pub result : CommitResult
  pub total_bytes : ℕ
  pub computed_crc32 : ℕ

-- `saturating_add` of `u8` values
abbrev saturating_add_u8 : ℕ → ℕ → ℕ
saturating_add_u8 a b = min (a + b) (u8_mod - 1)

abbrev pub bool_eq : Bool → Bool → Bool
bool_eq true b = b
bool_eq false b = not b

pub new : Pipeline
unfolding Slots.new
new = record { pool = Slots.new; active = none; aborted_tombstone = none }

-- `open` is a reserved word.
pub open_upload : Pipeline → ℕ → ℕ → ℕ → ℕ → ℕ → Result UploadError ℕ × Pipeline
open_upload p stream_id total_size expected_crc32 chunk_size window = elim p.active [
  | some s ↦ (err already_active, p)
  | none ↦
      if stream_id == 0
        || total_size == 0
        || chunk_size == 0
        || ltb transfer_data_bytes chunk_size
        || window == 0
        || ltb transfer_slot_count window
      then (err bad_length, p)
      else (
        ok window,
        record {
          pool = (begin_session p.pool).0;
          aborted_tombstone = none;
          active = some (record {
            stream_id = stream_id;
            total_size = total_size;
            expected_crc32 = expected_crc32;
            chunk_size = chunk_size;
            window = window;
            sender_credits = window;
            pending_credits = 0;
            admitted_offset = 0;
            durable_offset = 0;
            crc_state = u32_mod - 1;
            end_seen = false;
          });
        },
      )
]

-- The tests of `admit` in their order, up to the claim of a slot.
pub admit_check : Session → ℕ → Frame → Result UploadError ℕ
admit_check s busy_slots f =
    let len = list_length f.payload in
    let end = f.offset + len in
    if not (f.stream_id == s.stream_id)
    then err wrong_stream
    else if not (f.offset == s.admitted_offset)
    then err wrong_offset
    else if not (ltb len u32_mod)
    then err bad_length
    else if not (ltb end u32_mod)
    then err bad_length
    else if len == 0 || ltb s.chunk_size len || ltb s.total_size end
    then err bad_length
    else if ltb end s.total_size && not (len == s.chunk_size)
    then err bad_length
    else if not (bool_eq f.end_of_data (end == s.total_size))
    then err end_flag
    else if s.sender_credits == 0 && ltb busy_slots transfer_slot_count
    then err no_credit
    else ok end

pub admit_in : Pipeline → Session → Frame → Result UploadError Descriptor × Pipeline
admit_in p s f = elim (admit_check s (occupied p.pool) f) [
  | err e ↦ (err e, p)
  | ok end ↦
      let (r, pool) = claim_upload p.pool f.offset (list_length f.payload % u16_mod) in
      elim r [
        | err e ↦ (err (slot e), record p { pool = pool })
        | ok d ↦ (
          ok d,
          record p {
            pool = pool;
            active = some (record s {
              sender_credits = s.sender_credits - 1;
              admitted_offset = end;
              end_seen = f.end_of_data;
            });
          },
        )
      ]
]

pub admit : Pipeline → Frame → Result UploadError Descriptor × Pipeline
admit p f = elim p.active [ none ↦ (err inactive, p) | some s ↦ admit_in p s f ]

pub take_for_storage : Pipeline → Descriptor → Result UploadError (Unit {0}) × Pipeline
take_for_storage p d = elim p.active [
  | none ↦ (err inactive, p)
  | some s ↦
      let (r, pool) = take_upload_for_storage p.pool d in
      (elim r [ ok u ↦ ok u | err e ↦ err (slot e) ], record p { pool = pool })
]

-- What `complete_storage` does once the slot is given back: count the credit, and send the batch
-- when it fills the window or the upload is stored whole.
pub give_credit : Session → ℕ → Option Credit × Session
give_credit s durable =
    let pending = saturating_add_u8 s.pending_credits 1 in
    if ltb pending s.window && not (durable == s.total_size)
    then (none, record s { durable_offset = durable; pending_credits = pending })
    else (
      some (record {
        stream_id = s.stream_id;
        durable_offset = durable;
        credits = pending;
        status = status_ok;
      }),
      record s {
        durable_offset = durable;
        pending_credits = 0;
        sender_credits = min (saturating_add_u8 s.sender_credits pending) s.window;
      },
    )

-- The part of `complete_storage` behind its tests. The checksum takes the bytes in before the pool
-- is asked, and keeps them if the pool refuses.
pub store_in :
    Pipeline → Session → Descriptor → List ℕ → Result UploadError (Option Credit) × Pipeline
store_in p s d bytes =
    let s' : Session = record s { crc_state = update s.crc_state bytes } in
    let (r, pool) = complete_upload p.pool d in
    elim r [
      | err e ↦ (err (slot e), record p { pool = pool; active = some s' })
      | ok durable ↦
          let (credit, s'') = give_credit s' durable in
          (ok credit, record p { pool = pool; active = some s'' })
    ]

pub complete_in :
    Pipeline → Session → Descriptor → List ℕ → Result UploadError (Option Credit) × Pipeline
complete_in p s d bytes =
    if not (d.offset == s.durable_offset)
    then (err wrong_offset, p)
    else if not (list_length bytes == d.len)
    then (err bad_length, p)
    else store_in p s d bytes

pub complete_storage :
    Pipeline → Descriptor → List ℕ → Result UploadError (Option Credit) × Pipeline
complete_storage p d bytes = elim p.active [
  | none ↦ (err inactive, p)
  | some s ↦ complete_in p s d bytes
]

pub status : Pipeline → ℕ → Result UploadError StatusResponse × Pipeline
status p stream_id = elim p.active [
  | none ↦ (err inactive, p)
  | some s ↦
      if not (stream_id == s.stream_id)
      then (err wrong_stream, p)
      else if not (occupied p.pool == 0)
      then (err busy, p)
      else (
        ok (record {
          stream_id = stream_id;
          direction = upload;
          state = receiving;
          available_credits = s.window;
          durable_offset = s.durable_offset;
          total_size = s.total_size;
          running_crc32 = if s.durable_offset == 0 then 0 else not_u32 s.crc_state;
        }),
        record p { active = some (record s { pending_credits = 0; sender_credits = s.window }) },
      )
]

pub finish : Pipeline → ℕ → Result UploadError FinishResponse × Pipeline
finish p stream_id = elim p.active [
  | none ↦ (err inactive, p)
  | some s ↦
      if not (stream_id == s.stream_id)
      then (err wrong_stream, p)
      else if not (occupied p.pool == 0)
      then (err busy, p)
      else if not s.end_seen
          || not (s.admitted_offset == s.total_size)
          || not (s.durable_offset == s.total_size)
      then (err incomplete, p)
      else (
        ok (record {
          stream_id = stream_id;
          result = if not_u32 s.crc_state == s.expected_crc32 then committed else crc_mismatch;
          total_bytes = s.total_size;
          computed_crc32 = not_u32 s.crc_state;
        }),
        record p { active = none },
      )
]

pub abort : Pipeline → ℕ → Result UploadError (Unit {0}) × Pipeline
abort p stream_id = elim p.active [
  | some s ↦
      if s.stream_id == stream_id
      then (
        ok tt,
        record {
          pool = (abort_session p.pool).0;
          active = none;
          aborted_tombstone = some stream_id;
        },
      )
      else (err wrong_stream, p)
  | none ↦ elim p.aborted_tombstone [
    | some id ↦ if id == stream_id then (ok tt, p) else (err wrong_stream, p)
    | none ↦ (err wrong_stream, p)
  ]
]

-- `stream_id`
pub stream_id : Pipeline → Option ℕ
stream_id p = elim p.active [ some s ↦ some s.stream_id | none ↦ p.aborted_tombstone ]
