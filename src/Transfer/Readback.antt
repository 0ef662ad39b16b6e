-- ===== src/Transfer/Readback.antt =====
-- firmware/crates/binbook-fw/src/bulk_readback_pipeline.rs and bulk_readback_types.rs: one readback
-- at a time, whose chunks are read into slots, sent, and given back as the host acknowledges them. A
-- method on `&mut self` returns its result and the new pipeline, also where it fails.
pub mod Acknowledge
pub mod Reserve
mod Tests
use binbook.Prelude.{
  ℕ, zero, suc, ◌+◌, ◌-◌, ◌*◌, ◌%◌, ◌^◌, ◌≤◌, ◌≡◌, Bool, true, false, not, ◌&&◌, ◌||◌, Option, none,
  some, foldl, drop-drop_one, Bool-cases, Result-cases, inl, inr, ◌∙◌, List, [], ◌∷◌, ◌++◌, min,
  take, drop, arith, ltb, leb, ◌==◌, if◌then◌else◌, Result, ok, err,
}
use binbook.Prelude.{length as list_length}
use binbook.Checksum.Crc32.{update, not_u32}
use binbook.Transfer.Slots.{
  u8_mod, u16_mod, u32_mod, transfer_data_bytes, transfer_slot_count, Direction, readback,
  Descriptor, descriptor_eq, SlotPool, SlotError, full, SlotState, awaiting_ack, state_eq,
  begin_session, abort_session, reserve_read, mark_awaiting_ack, ack_read, slot_state,
}
use binbook.Transfer.Slots as Slots
use binbook.Transfer.Upload.{
  Frame, Credit, Status, status_ok, StatusResponse, receiving, FinishResponse, committed,
}

pub data ReadbackError : Type 0 where
  already_active inactive wrong_stream wrong_offset bad_length bad_credit bad_status busy :
      ReadbackError
  incomplete : ReadbackError
  slot : SlotError → ReadbackError

-- `ReadbackSession`
pub record Session : Type 0 where
  pub stream_id : ℕ
  pub total_size : ℕ
  pub chunk_size : ℕ
  pub window : ℕ
  pub produced_offset : ℕ
  pub durable_offset : ℕ
  pub crc_state : ℕ

-- `BulkReadbackPipeline`. The queue is a list of at most four descriptors, the front first.
pub record Pipeline : Type 0 where
  pub pool : SlotPool
  pub queued : List Descriptor
  pub active : Option Session
  pub aborted_tombstone : Option ℕ

pub new : Pipeline
unfolding Slots.new
new = record { pool = Slots.new; queued = []; active = none; aborted_tombstone = none }

-- `open` is a reserved word.
open_readback : Pipeline → ℕ → ℕ → ℕ → ℕ → Result ReadbackError ℕ × Pipeline
open_readback p stream_id total_size chunk_size window = elim p.active [
  | some s ↦ (err already_active, p)
  | none ↦
      if stream_id == 0
        || total_size == 0
        || chunk_size == 0
        || ltb transfer_data_bytes chunk_size
        || window == 0
        || ltb transfer_slot_count window
      then (err bad_length, p)
      else (
        ok window,
        record {
          pool = (begin_session p.pool).0;
          queued = [];
          aborted_tombstone = none;
          active = some (record {
            stream_id = stream_id;
            total_size = total_size;
            chunk_size = chunk_size;
            window = window;
            produced_offset = 0;
            durable_offset = 0;
            crc_state = u32_mod - 1;
          });
        },
      )
]

-- `push_back` of a queue of four, which fails on a full queue.
push_back : List Descriptor → Descriptor → Option (List Descriptor)
push_back q d = if ltb (list_length q) transfer_slot_count then some (q ++ (d ∷ [])) else none

-- `reserve_next` once a session is open. The wrap-around of the two sums and differences is not
-- reached, since `produced_offset` stays at or below `total_size`.
reserve_in : Pipeline → Session → Result ReadbackError Descriptor × Pipeline
reserve_in p s =
    let len = min (s.total_size - s.produced_offset) s.chunk_size % u16_mod in
    if s.produced_offset == s.total_size
    then (err incomplete, p)
    else if leb s.window (list_length p.queued)
    then (err (slot full), p)
    else (let (r, pool) = reserve_read p.pool s.produced_offset len in
        elim r [
          | err e ↦ (err (slot e), record p { pool = pool })
          | ok d ↦ elim (push_back p.queued d) [
            | none ↦ (err (slot full), record p { pool = pool })
            | some q ↦ (
              ok d,
              record p {
                pool = pool;
                queued = q;
                active = some (record s { produced_offset = s.produced_offset + len });
              },
            )
          ]
        ])

pub reserve_next : Pipeline → Result ReadbackError Descriptor × Pipeline
reserve_next p = elim p.active [ none ↦ (err inactive, p) | some s ↦ reserve_in p s ]

pub complete_read : Pipeline → Descriptor → Result ReadbackError (Unit {0}) × Pipeline
complete_read p d = elim p.active [
  | none ↦ (err inactive, p)
  | some s ↦
      let (r, pool) = Slots.complete_read p.pool d in
      (elim r [ ok u ↦ ok u | err e ↦ err (slot e) ], record p { pool = pool })
]

-- `iter().all(|queued| *queued != descriptor)`
not_queued : List Descriptor → Descriptor → Bool
not_queued [] d = true
not_queued (q ∷ qs) d = not (descriptor_eq q d) && not_queued qs d

mark_sent : Pipeline → Descriptor → List ℕ → Result ReadbackError Frame × Pipeline
mark_sent p d bytes = elim p.active [
  | none ↦ (err inactive, p)
  | some s ↦
      if not_queued p.queued d
      then (err wrong_offset, p)
      else if not (list_length bytes == d.len)
      then (err bad_length, p)
      else (let (r, pool) = mark_awaiting_ack p.pool d in
          elim r [
            | err e ↦ (err (slot e), record p { pool = pool })
            | ok u ↦ (
              ok (record {
                stream_id = s.stream_id;
                offset = d.offset;
                end_of_data = d.offset + d.len == s.total_size;
                payload = bytes;
              }),
              record p { pool = pool },
            )
          ])
]

-- The test that each acknowledged slot awaits its acknowledgement.
all_awaiting : SlotPool → List Descriptor → Bool
all_awaiting pool [] = true
all_awaiting pool (d ∷ ds) =
    elim (slot_state pool d.slot) [ ok st ↦ state_eq st awaiting_ack | err e ↦ false ]
    && all_awaiting pool ds

-- `descriptors.last()` with the end of its chunk.
last_end : List Descriptor → Option ℕ
last_end [] = none
last_end (d ∷ []) = some (d.offset + d.len)
last_end (d ∷ d' ∷ ds) = last_end (d' ∷ ds)

-- The loop of `apply_credit` over the descriptors and their bytes, in the order of `zip`. What it
-- did stays when it fails: the checksum takes in the bytes before the pool is asked.
pub acknowledge :
    Pipeline → Session → List Descriptor → List (List ℕ) → Result ReadbackError Session × Pipeline
acknowledge p s [] bytes = (ok s, p)
acknowledge p s (d ∷ ds) [] = (ok s, p)
acknowledge p s (d ∷ ds) (bytes ∷ rest) =
    if not (list_length bytes == d.len)
    then (err bad_length, record p { active = some s })
    else (let s' : Session = record s { crc_state = update s.crc_state bytes } in
        let (r, pool) = ack_read p.pool d in
        elim r [
          | err e ↦ (err (slot e), record p { pool = pool; active = some s' })
          | ok u ↦
              acknowledge (record p { pool = pool; queued = drop 1 p.queued; active = some s' }) s'
                ds rest
        ])

-- The tests of `apply_credit`, with the offset that the credit confirms.
check_credit : Pipeline → Session → Credit → List (List ℕ) → Result ReadbackError ℕ
check_credit p s c acknowledged =
    if not (c.stream_id == s.stream_id)
    then err wrong_stream
    else if not (elim c.status [ status_ok ↦ true | _ ↦ false ]) || c.credits == 0
    then err bad_status
    else if ltb (list_length p.queued) c.credits || ltb s.window c.credits
    then err bad_credit
    else if not (list_length acknowledged == c.credits)
    then err bad_credit
    else if not (list_length (take c.credits p.queued) == c.credits)
        || not (all_awaiting p.pool (take c.credits p.queued))
    then err bad_credit
    else elim (last_end (take c.credits p.queued)) [
      | none ↦ err bad_credit
      | some expected ↦ if c.durable_offset == expected then ok expected else err wrong_offset
    ]

pub apply_credit : Pipeline → Credit → List (List ℕ) → Result ReadbackError (Unit {0}) × Pipeline
apply_credit p c acknowledged = elim p.active [
  | none ↦ (err inactive, p)
  | some s ↦ elim (check_credit p s c acknowledged) [
    | err e ↦ (err e, p)
    | ok expected ↦
        let (r, p') = acknowledge p s (take c.credits p.queued) acknowledged in
        elim r [
          | err e ↦ (err e, p')
          | ok s' ↦ (ok tt, record p' { active = some (record s' { durable_offset = expected }) })
        ]
  ]
]

pub status : Pipeline → ℕ → Result ReadbackError StatusResponse × Pipeline
status p stream_id = elim p.active [
  | none ↦ (err inactive, p)
  | some s ↦ if not (stream_id == s.stream_id) then (err wrong_stream, p) else (
    ok (record {
      stream_id = stream_id;
      direction = readback;
      state = receiving;
      available_credits = s.window;
      durable_offset = s.durable_offset;
      total_size = s.total_size;
      running_crc32 = if s.durable_offset == 0 then 0 else not_u32 s.crc_state;
    }),
    record p {
      pool = (abort_session p.pool).0;
      queued = [];
      active = some (record s { produced_offset = s.durable_offset });
    },
  )
]

pub finish : Pipeline → ℕ → Result ReadbackError FinishResponse × Pipeline
finish p stream_id = elim p.active [
  | none ↦ (err inactive, p)
  | some s ↦
      if not (stream_id == s.stream_id)
      then (err wrong_stream, p)
      else if not (list_length p.queued == 0) || not (s.durable_offset == s.total_size)
      then (err incomplete, p)
      else (
        ok (record {
          stream_id = stream_id;
          result = committed;
          total_bytes = s.total_size;
          computed_crc32 = not_u32 s.crc_state;
        }),
        record p { active = none },
      )
]

pub abort : Pipeline → ℕ → Result ReadbackError (Unit {0}) × Pipeline
abort p stream_id = elim p.active [
  | some s ↦
      if s.stream_id == stream_id
      then (
        ok tt,
        record {
          pool = (abort_session p.pool).0;
          queued = [];
          active = none;
          aborted_tombstone = some stream_id;
        },
      )
      else (err wrong_stream, p)
  | none ↦ elim p.aborted_tombstone [
    | some id ↦ if id == stream_id then (ok tt, p) else (err wrong_stream, p)
    | none ↦ (err wrong_stream, p)
  ]
]
