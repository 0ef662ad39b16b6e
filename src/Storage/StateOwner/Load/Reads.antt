-- ===== src/Storage/StateOwner/Load/Reads.antt =====
-- The files that a load of state_owner.rs reads to their ends, and what may be selected of them.
use mathlib.Core.List.{Memᴰ}
use binbook.Prelude.{
  ℕ, ◌+◌, ◌%◌, ◌<◌, ◌≡◌, not, ◌||◌, ◌==◌, ltb, Option, none, some, List, [], ◌∷◌, All, Result, ok,
  err, if◌then◌else◌, take,
}
use binbook.Reader.State.{ReaderState, ReaderStateError, empty}
use binbook.Reader.State.Wire.{decode}
use binbook.Storage.Types.{
  Request, Response, CompletionError, ResponseEnvelope, StorageName, client_eq, state_client,
}
use binbook.Storage.StateOwner.{load_slot_name}
use binbook.Storage.StateOwner.Load.{
  StateLoadError, StateLoadUpdate, request_next, LoadPhase, read, StateLoadClient, accept,
}

-- A file that was read to its end: the name that was asked for, and the bytes in the buffer.
abbrev pub Whole : Type 0
Whole = StorageName × List ℕ

-- The request that was sent last, once an update is out.
abbrev pub sent_next : Request → Result StateLoadError StateLoadUpdate → Request
sent_next sent (ok (request_next e)) = e.request
sent_next sent _ = sent

-- An answer to a read that ends the file adds its bytes to those of the files that were read before.
abbrev pub filled :
    LoadPhase → Result CompletionError Response → Request → List ℕ → List Whole → List Whole
filled (read slot total offset len) (ok (Response.read_bytes actual)) (Request.read name _ _ _ _)
      buffer seen =
    if not (actual == len) || ltb (offset + len) total
    then seen
    else (name, take total buffer) ∷ seen
filled _ _ _ buffer seen = seen

unfoldable pub noted :
    StateLoadClient → Request → ResponseEnvelope → List ℕ → List Whole → List Whole
noted c sent r buffer seen =
    if not (client_eq r.client state_client) || not (r.sequence == c.expected_sequence)
    then seen
    else filled c.phase r.response sent buffer seen

-- The files that a load has read to their ends after these answers, the last one first.
unfoldable pub reads :
    StateLoadClient → Request → List Whole → List (ResponseEnvelope × List ℕ) → List Whole
unfolding accept noted
reads c sent seen [] = seen
reads c sent seen ((r, buffer) ∷ answers) =
    reads (accept c r buffer).0 (sent_next sent (accept c r buffer).1) (noted c sent r buffer seen)
      answers

abbrev pub Undecodable : Whole → Type 0
Undecodable w = (e : ReaderStateError) × (decode w.1 ≡ err e)

-- What is selected of the files that were read: nothing, where none of them decodes; or the state
-- of one of them, the file of the slot `k` of 0 to 3, as the slot `k % 2` and with its generation.
pub data Selected (seen : List Whole) (target : ReaderState) (slot : Option ℕ) (generation : ℕ)
    : Type 0 where
  nothing :
      slot ≡ none → target ≡ empty → All Undecodable seen → Selected seen target slot generation
  chosen :
      (k : ℕ) (bytes : List ℕ)
      → k < 4
      → Memᴰ (load_slot_name k, bytes) seen
      → decode bytes ≡ ok target
      → slot ≡ some (k % 2)
      → generation ≡ target.generation
      → Selected seen target slot generation
