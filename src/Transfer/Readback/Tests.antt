-- ===== src/Transfer/Readback/Tests.antt =====
-- The theorems on readbacks, at a pipeline with two sent chunks and at one with a chunk to come.
use binbook.Prelude.{
  ◌+◌, ◌≤◌, ◌<◌, ◌++◌, arith, ℕ, ◌≡◌, refl, none, some, List, [], ◌∷◌, foldl, drop,
}
use binbook.Checksum.Crc32.{update}
use binbook.Transfer.Slots.{
  reserve_read, claim, slot_state, Descriptor, Slot, new_slot, descriptor, readback, awaiting_ack,
  ack_read, validate, validate_mut, descriptor_eq,
}
use binbook.Transfer.Readback.{
  reserve_in, reserve_next, push_back, Pipeline, Session, acknowledge, last_end, all_awaiting,
  check_credit, apply_credit,
}
use binbook.Transfer.Readback.Reserve.{reserve_next_lem}
use binbook.Transfer.Readback.Acknowledge.{apply_credit_lem}
use binbook.Transfer.Upload.{Credit, status_ok}

abbrev sent_slot : ℕ → Slot
sent_slot at = record {
  generation = 4;
  offset = at;
  len = 2;
  direction = readback;
  state = awaiting_ack;
}

abbrev sent : List Descriptor
sent = descriptor (sent_slot 0) 0 ∷ descriptor (sent_slot 2) 1 ∷ []

abbrev chunks : List (List ℕ)
chunks = (1 ∷ 2 ∷ []) ∷ (3 ∷ 4 ∷ []) ∷ []

abbrev session : Session
session = record {
  stream_id = 9;
  total_size = 4;
  chunk_size = 2;
  window = 2;
  produced_offset = 4;
  durable_offset = 0;
  crc_state = 77;
}

abbrev sending : Pipeline
sending = record {
  pool = record {
    slots = sent_slot 0 ∷ sent_slot 2 ∷ new_slot ∷ new_slot ∷ [];
    generation = 4;
    peak_occupied = 2;
  };
  queued = sent;
  active = some session;
  aborted_tombstone = none;
}

abbrev confirmed : Credit
confirmed = record { stream_id = 9; durable_offset = 4; credits = 2; status = status_ok }

abbrev after_credit : Pipeline
after_credit = (apply_credit sending confirmed chunks).1

apply_credit_lem_example :
    (s' : Session) × (after_credit.active ≡ some s')
    × (s'.durable_offset ≡ confirmed.durable_offset)
    × (s'.crc_state ≡ foldl update session.crc_state chunks)
    × (after_credit.queued ≡ drop 2 sent)
unfolding apply_credit check_credit all_awaiting last_end slot_state acknowledge ack_read validate
    validate_mut descriptor_eq
apply_credit_lem_example = apply_credit_lem sending session confirmed chunks refl refl

-- A readback of five bytes with the last one to come.
abbrev reading : Session
reading = record session { total_size = 5; produced_offset = 4; chunk_size = 3 }

abbrev reserving : Pipeline
reserving = record sending { active = some reading; queued = []; aborted_tombstone = some 3 }

abbrev last_chunk : Descriptor
last_chunk = record { slot = 2; generation = 4; offset = 4; len = 1; direction = readback }

abbrev after_reserve : Pipeline
after_reserve = (reserve_next reserving).1

reserve_next_lem_example :
    (s' : Session) × (after_reserve.active ≡ some s')
    × (last_chunk.offset ≡ reading.produced_offset)
    × (s'.produced_offset ≡ last_chunk.offset + last_chunk.len)
    × (s'.produced_offset ≤ reading.total_size)
    × (0 < last_chunk.len)
    × (last_chunk.len ≤ reading.chunk_size)
    × (after_reserve.queued ≡ reserving.queued ++ (last_chunk ∷ []))
unfolding reserve_next reserve_in reserve_read claim push_back
reserve_next_lem_example =
    reserve_next_lem reserving reading {d = last_chunk} refl (omega arith) (omega arith) refl
