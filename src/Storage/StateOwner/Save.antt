-- ===== src/Storage/StateOwner/Save.antt =====
-- `begin_save` and `StateSaveClient` of state_owner.rs. The sorting of the records by the core library
-- is a parameter, as for `encode_with_generation`.
pub mod Slots
pub mod Requests
use binbook.Prelude.{
  ℕ, ◌+◌, ◌-◌, ◌%◌, ◌^◌, min, Bool, true, false, not, ◌&&◌, ◌||◌, ◌==◌, ltb, Option, none, some,
  List, take, if◌then◌else◌, Result, ok, err,
}
use binbook.Reader.State.{ReaderState, ProgressRecord, ReaderStateError}
use binbook.Reader.State.Wire.{encode_with_generation, decode}
use binbook.Storage.Types
use binbook.Storage.Types.{
  state, Request, state_client, client_eq, Response, RequestEnvelope, ResponseEnvelope,
  max_bounded_io_bytes,
}
use binbook.Storage.StateOwner.{
  OwnerStateSlots, slot_name, envelope, next_u32, read_into, write_chunk_bytes,
  matches_except_generation,
}

pub data StateSaveError : Type 0 where
  correlation completion mismatch : StateSaveError
  codec : ReaderStateError → StateSaveError

-- `panics` stands for the `expect` on a read that the owner would refuse.
pub data StateSaveUpdate : Type 0 where
  request_next : RequestEnvelope → StateSaveUpdate
  saved panics : StateSaveUpdate

pub data SavePhase : Type 0 where
  begin complete : SavePhase
  write : ℕ → ℕ → ℕ → SavePhase
  commit : ℕ → SavePhase
  read : ℕ → ℕ → SavePhase
  abort : StateSaveError → SavePhase

-- The slots and the state are those that the client borrows from the task.
pub record StateSaveClient : Type 0 where
  pub slots : OwnerStateSlots
  pub reader : ReaderState
  pub target_slot : ℕ
  pub next_generation : ℕ
  pub used : ℕ
  pub phase : SavePhase
  pub expected_sequence : ℕ
  pub next_sequence : ℕ

-- The slot that `begin_save` chooses; another value than 0 and 1 is unreachable in the source.
unfoldable pub choose_target : Option ℕ → ℕ
choose_target none = 0
choose_target (some slot) = if slot == 0 then 1 else 0

-- The client and its first request, once the state is encoded.
unfoldable pub begun :
    OwnerStateSlots
    → ReaderState
    → (target generation sequence : ℕ) → Result ReaderStateError ℕ
    → Result StateSaveError (StateSaveClient × RequestEnvelope)
unfolding slot_name envelope
begun slots reader target generation sequence (err e) = err (codec e)
begun slots reader target generation sequence (ok used) = ok (
  record {
    slots = slots;
    reader = reader;
    target_slot = target;
    next_generation = generation;
    used = used;
    phase = begin;
    expected_sequence = sequence;
    next_sequence = next_u32 sequence;
  },
  envelope sequence (Request.upload_begin (slot_name target) used 0 true),
)

unfoldable pub begin_save :
    (List ProgressRecord → List ProgressRecord)
    → OwnerStateSlots
    → ReaderState
    → List ℕ
    → ℕ
    → Result StateSaveError (StateSaveClient × RequestEnvelope) × List ℕ
unfolding choose_target begun
begin_save sort slots reader buffer sequence =
    let target = choose_target slots.loaded_slot in
    let generation = next_u32 slots.loaded_generation in
    let (encoded, bytes) = encode_with_generation sort reader generation buffer in
    (begun slots reader target generation sequence encoded, bytes)

-- `take_sequence` before the phase is set; the sequence taken is `c.next_sequence`.
abbrev pub advance : StateSaveClient → SavePhase → StateSaveClient
advance c phase = record c {
  phase = phase;
  expected_sequence = c.next_sequence;
  next_sequence = next_u32 c.next_sequence;
}

abbrev pub Accepted : Type 0
Accepted = StateSaveClient × Result StateSaveError StateSaveUpdate

unfoldable pub issue_write : StateSaveClient → ℕ → ℕ → Accepted
unfolding envelope
issue_write c upload_id offset =
    let len = min (c.used - offset) write_chunk_bytes % 2 ^ 16 in
    (
      advance c (write upload_id offset len),
      ok (
          request_next (
            envelope c.next_sequence
              (Request.upload_write upload_id offset (offset % 2 ^ 16) len state true))),
    )

unfoldable pub issue_read : StateSaveClient → ℕ → Accepted
unfolding envelope slot_name read_into
issue_read c offset =
    let len = min (c.used - offset) max_bounded_io_bytes % 2 ^ 16 in
    (
      advance c (read offset len),
      ok (elim (read_into (slot_name c.target_slot) offset (offset % 2 ^ 16) len state) [
        | err _ ↦ panics
        | ok r ↦ request_next (envelope c.next_sequence r)
      ]),
    )

-- The abort of an upload that may be open.
unfoldable pub issue_abort : StateSaveClient → StateSaveError → ℕ → Accepted
unfolding envelope
issue_abort c error upload_id = (
  advance c (abort error),
  ok (request_next (envelope c.next_sequence (Request.upload_abort upload_id))),
)

unfoldable pub fail_in : SavePhase → StateSaveClient → StateSaveError → Accepted
unfolding issue_abort
fail_in (write upload_id _ _) c error = issue_abort c error upload_id
fail_in (commit upload_id) c error = issue_abort c error upload_id
fail_in _ c error = (record c { phase = complete }, err error)

unfoldable pub fail_or_abort : StateSaveClient → StateSaveError → Accepted
unfolding fail_in
fail_or_abort c error = fail_in c.phase c error

-- What is read back once it is complete.
unfoldable pub verify : StateSaveClient → List ℕ → Accepted
verify c buffer = elim (decode (take c.used buffer)) [
  | err e ↦ (c, err (codec e))
  | ok verified ↦
      if not (verified.generation == c.next_generation)
        || not (matches_except_generation c.reader verified)
      then (c, err mismatch)
      else (
        record c {
          reader = verified;
          slots = record {
            loaded_generation = c.next_generation;
            loaded_slot = some c.target_slot;
          };
          phase = complete;
        },
        ok saved,
      )
]

unfoldable pub issue_commit : StateSaveClient → ℕ → Accepted
unfolding envelope
issue_commit c upload_id = (
  advance c (commit upload_id),
  ok (request_next (envelope c.next_sequence (Request.upload_commit upload_id true))),
)

-- The `match` of `accept` on the phase and an answer.
unfoldable pub answer : SavePhase → Response → StateSaveClient → List ℕ → Accepted
unfolding issue_write issue_commit issue_read verify fail_or_abort
answer begin (Response.upload_started upload_id) c buffer = issue_write c upload_id 0
answer (write upload_id offset len) (Response.written actual) c buffer =
    if not (actual == len)
    then fail_or_abort c completion
    else if ltb (offset + len) c.used
    then issue_write c upload_id (offset + len)
    else issue_commit c upload_id
answer (commit _) Response.ack c buffer = issue_read c 0
answer (read offset len) (Response.read_bytes actual) c buffer =
    if not (actual == len)
    then fail_or_abort c completion
    else if ltb (offset + len) c.used
    then issue_read c (offset + len)
    else verify c buffer
answer (abort error) Response.ack c buffer = (record c { phase = complete }, err error)
answer complete _ c buffer = (c, err completion)
answer _ _ c buffer = fail_or_abort c completion

unfoldable pub accept : StateSaveClient → ResponseEnvelope → List ℕ → Accepted
unfolding answer fail_or_abort
accept c r buffer =
    if not (client_eq r.client state_client) || not (r.sequence == c.expected_sequence)
    then (c, err correlation)
    else elim r.response [
      | err _ ↦ fail_or_abort c completion
      | ok response ↦ answer c.phase response c buffer
    ]
