-- ===== src/Storage/StateOwner.antt =====
-- firmware/crates/binbook-fw/src/state_owner.rs: the reading state is kept in two files, its slots,
-- which the storage owner reads and writes on request. A method on `&mut self` returns the new client
-- beside its result; the buffer that client and owner share is an argument.
pub mod Save
pub mod Load
mod Tests
use binbook.Prelude.{
  ℕ, ◌+◌, ◌*◌, ◌%◌, ◌^◌, Bool, true, false, not, ◌&&◌, ◌==◌, ltb, Option, none, some, List, [], ◌∷◌,
  ◌++◌, length, if◌then◌else◌, Result, ok, err,
}
use binbook.Reader.State.{
  ReaderState, ProgressRecord, SavedMode, menu, reading, ReaderStateError, bytes_eq,
  max_progress_records,
}
use binbook.Reader.State.Wire.{state_header_size, state_record_size}
use binbook.Storage.Types.{
  StorageName, RequestError, BufferSlot, state, Request, StorageClient, state_client,
  RequestEnvelope, validate_len, max_bounded_io_bytes,
}

-- `BINBOOK.A.STATE` and `BINBOOK.B.STATE`
abbrev pub state_slot_a : StorageName
state_slot_a = 66 ∷ 73 ∷ 78 ∷ 66 ∷ 79 ∷ 79 ∷ 75 ∷ 46 ∷ 65 ∷ 46 ∷ 83 ∷ 84 ∷ 65 ∷ 84 ∷ 69 ∷ []

abbrev pub state_slot_b : StorageName
state_slot_b = 66 ∷ 73 ∷ 78 ∷ 66 ∷ 79 ∷ 79 ∷ 75 ∷ 46 ∷ 66 ∷ 46 ∷ 83 ∷ 84 ∷ 65 ∷ 84 ∷ 69 ∷ []

-- `LEGACY.` before one of these
abbrev pub legacy : StorageName → StorageName
legacy name = 76 ∷ 69 ∷ 71 ∷ 65 ∷ 67 ∷ 89 ∷ 46 ∷ name

abbrev pub write_chunk_bytes : ℕ
write_chunk_bytes = 512

abbrev pub max_state_bytes : ℕ
max_state_bytes = 72 + 200 * 44

unfoldable pub slot_name : ℕ → StorageName
slot_name slot = if slot == 0 then state_slot_a else state_slot_b

-- `load_slot_name`, for the slots 0 to 3
unfoldable pub load_slot_name : ℕ → StorageName
load_slot_name slot =
    if slot == 0
    then state_slot_a
    else if slot == 1
    then state_slot_b
    else if slot == 2
    then legacy state_slot_a
    else legacy state_slot_b

unfoldable pub envelope : ℕ → Request → RequestEnvelope
envelope sequence request = record { client = state_client; sequence = sequence; request = request }

-- `wrapping_add(1)` on a `u32`
abbrev pub next_u32 : ℕ → ℕ
next_u32 n = (n + 1) % 2 ^ 32

-- `Request::read_into`
unfoldable pub read_into : StorageName → ℕ → ℕ → ℕ → BufferSlot → Result RequestError Request
unfolding validate_len
read_into name offset buffer_offset len buffer = elim (validate_len len) [
  | err e ↦ err e
  | ok _ ↦ ok (Request.read name offset buffer_offset len buffer)
]

pub record OwnerStateSlots : Type 0 where
  pub loaded_slot : Option ℕ
  pub loaded_generation : ℕ

-- `OwnerStateSlots::new`
abbrev pub new_slots : OwnerStateSlots
new_slots = record { loaded_slot = none; loaded_generation = 0 }

-- The derived `==` of the mode and of a record.
abbrev pub mode_eq : SavedMode → SavedMode → Bool
mode_eq menu menu = true
mode_eq reading reading = true
mode_eq _ _ = false

abbrev pub record_eq : ProgressRecord → ProgressRecord → Bool
record_eq a b =
    a.filename_hash == b.filename_hash
    && bytes_eq a.rendition_hash b.rendition_hash
    && a.page == b.page

abbrev pub any_equal : ProgressRecord → List ProgressRecord → Bool
any_equal r [] = false
any_equal r (other ∷ others) = if record_eq other r then true else any_equal r others

abbrev pub all_among : List ProgressRecord → List ProgressRecord → Bool
all_among [] others = true
all_among (r ∷ rs) others = any_equal r others && all_among rs others

-- `ReaderState::matches_except_generation`
unfoldable pub matches_except_generation : ReaderState → ReaderState → Bool
matches_except_generation s other =
    mode_eq s.saved_mode other.saved_mode
    && s.selected_filename_hash == other.selected_filename_hash
    && s.active_filename_hash == other.active_filename_hash
    && bytes_eq s.active_rendition_hash other.active_rendition_hash
    && length s.records == length other.records
    && all_among s.records other.records
