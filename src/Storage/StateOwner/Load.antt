-- ===== src/Storage/StateOwner/Load.antt =====
-- `begin_load` and `StateLoadClient` of state_owner.rs.
pub mod Ends
pub mod Newest
pub mod Reads
pub mod Selects
use binbook.Prelude.{
  ℕ, ◌+◌, ◌-◌, ◌%◌, ◌^◌, min, Bool, true, false, not, ◌&&◌, ◌||◌, ◌==◌, ltb, Option, none, some,
  List, take, length, if◌then◌else◌, Result, ok, err,
}
use binbook.Reader.State.{ReaderState, empty}
use binbook.Reader.State.Wire.{decode, state_header_size}
use binbook.Storage.Types
use binbook.Storage.Types.{
  state, Request, state_client, client_eq, CompletionError, Response, RequestEnvelope,
  ResponseEnvelope, max_bounded_io_bytes,
}
use binbook.Storage.StateOwner.{
  OwnerStateSlots, slot_name, load_slot_name, envelope, next_u32, read_into, max_state_bytes,
}

pub data StateLoadError : Type 0 where
  correlation completion : StateLoadError

-- `panics` stands for the `expect` on a read that the owner would refuse.
pub data StateLoadUpdate : Type 0 where
  request_next : RequestEnvelope → StateLoadUpdate
  loaded : (warning : Bool) → StateLoadUpdate
  panics : StateLoadUpdate

pub data LoadPhase : Type 0 where
  size : ℕ → LoadPhase
  read : (slot total offset len : ℕ) → LoadPhase
  complete : LoadPhase

-- The slots and the target are those that the client borrows from the task.
pub record StateLoadClient : Type 0 where
  pub slots : OwnerStateSlots
  pub target : ReaderState
  pub phase : LoadPhase
  pub expected_sequence : ℕ
  pub next_sequence : ℕ
  pub selected_slot : Option ℕ
  pub selected_generation : ℕ

unfoldable pub begin_load : OwnerStateSlots → ℕ → StateLoadClient × RequestEnvelope
unfolding slot_name envelope
begin_load slots sequence = (
  record {
    slots = slots;
    target = empty;
    phase = size 0;
    expected_sequence = sequence;
    next_sequence = next_u32 sequence;
    selected_slot = none;
    selected_generation = 0;
  },
  envelope sequence (Request.file_size (slot_name 0)),
)

-- `take_sequence` before the phase is set; the sequence taken is `c.next_sequence`.
abbrev pub advance : StateLoadClient → LoadPhase → StateLoadClient
advance c phase = record c {
  phase = phase;
  expected_sequence = c.next_sequence;
  next_sequence = next_u32 c.next_sequence;
}

unfoldable pub issue_read : StateLoadClient → ℕ → ℕ → ℕ → StateLoadClient × StateLoadUpdate
unfolding load_slot_name envelope read_into
issue_read c slot total offset =
    let len = min (total - offset) max_bounded_io_bytes % 2 ^ 16 in
    (
      advance c (read slot total offset len),
      elim (read_into (load_slot_name slot) offset (offset % 2 ^ 16) len state) [
        | err _ ↦ panics
        | ok r ↦ request_next (envelope c.next_sequence r)
      ],
    )

-- The slot that comes after one: the second legacy slot comes last, and the legacy slots come only
-- where neither slot was read.
unfoldable pub next_slot : ℕ → Option ℕ → Option ℕ
next_slot slot selected =
    if slot == 0
    then some 1
    else if slot == 1
    then elim selected [ none ↦ some 2 | some _ ↦ none ]
    else if slot == 2
    then some 3
    else none

abbrev pub was_none : Option ℕ → Bool
was_none none = true
was_none (some _) = false

unfoldable pub finish_with : Option ℕ → StateLoadClient → StateLoadClient × StateLoadUpdate
unfolding load_slot_name envelope
finish_with (some slot) c = (
  advance c (size slot),
  request_next (envelope c.next_sequence (Request.file_size (load_slot_name slot))),
)
finish_with none c = (
  record c {
    phase = complete;
    slots = record { loaded_slot = c.selected_slot; loaded_generation = c.selected_generation };
  },
  loaded (was_none c.selected_slot),
)

unfoldable pub finish_slot : StateLoadClient → ℕ → StateLoadClient × StateLoadUpdate
unfolding next_slot finish_with
finish_slot c slot = finish_with (next_slot slot c.selected_slot) c

-- `candidate.generation.wrapping_sub(selected) < 0x8000_0000`, or nothing is selected yet
unfoldable pub is_newer : Option ℕ → ℕ → ℕ → Bool
is_newer none selected generation = true
is_newer (some _) selected generation = ltb ((generation + 2 ^ 32 - selected) % 2 ^ 32) 0x80000000

-- A slot that was read in full takes part in the choice where it decodes.
unfoldable pub choose : StateLoadClient → ℕ → ℕ → List ℕ → StateLoadClient
unfolding is_newer
choose c slot total buffer = elim (decode (take total buffer)) [
  | err _ ↦ c
  | ok candidate ↦
      if is_newer c.selected_slot c.selected_generation candidate.generation
      then record c {
        selected_slot = some (slot % 2);
        selected_generation = candidate.generation;
        target = candidate;
      }
      else c
]

abbrev pub Accepted : Type 0
Accepted = StateLoadClient × Result StateLoadError StateLoadUpdate

abbrev pub accepted : StateLoadClient × StateLoadUpdate → Accepted
accepted (c, update) = (c, ok update)

-- The `match` of `accept` on the phase and the answer.
unfoldable pub answer :
    LoadPhase → Result CompletionError Response → StateLoadClient → List ℕ → Accepted
unfolding issue_read finish_slot choose
answer (size slot) (ok (Response.size_of n)) c buffer =
    if (ltb n state_header_size || ltb max_state_bytes n) || ltb (length buffer) n
    then accepted (finish_slot c slot)
    else accepted (issue_read c slot n 0)
answer (size slot) (err _) c buffer = accepted (finish_slot c slot)
answer (read slot total offset len) (ok (Response.read_bytes actual)) c buffer =
    if not (actual == len)
    then (c, err completion)
    else if ltb (offset + len) total
    then accepted (issue_read c slot total (offset + len))
    else accepted (finish_slot (choose c slot total buffer) slot)
answer (read slot total offset len) (err _) c buffer = accepted (finish_slot c slot)
answer _ _ c buffer = (c, err completion)

unfoldable pub accept : StateLoadClient → ResponseEnvelope → List ℕ → Accepted
unfolding answer
accept c r buffer =
    if not (client_eq r.client state_client) || not (r.sequence == c.expected_sequence)
    then (c, err correlation)
    else answer c.phase r.response c buffer
