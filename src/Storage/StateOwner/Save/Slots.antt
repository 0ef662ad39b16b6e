-- ===== src/Storage/StateOwner/Save/Slots.antt =====
-- What `StateSaveClient::accept` of state_owner.rs does to the slots and the reading state.
use binbook.Prelude.{ℕ, ◌≡◌, ◌≢◌, true, some, List, take, ok}
use binbook.Reader.State.{ReaderState}
use binbook.Reader.State.Wire.{decode}
use binbook.Storage.StateOwner.{matches_except_generation}
use binbook.Storage.StateOwner.Save.{saved, StateSaveClient, Accepted}

-- The two ways in which an answer is accepted.
pub data Kept (c : StateSaveClient) (buffer : List ℕ) (out : Accepted) : Type 0 where
  kept : out.0.slots ≡ c.slots → out.0.reader ≡ c.reader → out.1 ≢ ok saved → Kept c buffer out
  replaced :
      (verified : ReaderState)
      → decode (take c.used buffer) ≡ ok verified
      → verified.generation ≡ c.next_generation
      → matches_except_generation c.reader verified ≡ true
      → out.0.reader ≡ verified
      → out.0.slots
        ≡ record { loaded_generation = c.next_generation; loaded_slot = some c.target_slot }
      → out.1 ≡ ok saved
      → Kept c buffer out
