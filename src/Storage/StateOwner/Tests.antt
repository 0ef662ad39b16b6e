-- ===== src/Storage/StateOwner/Tests.antt =====
-- The state owner on concrete answers.
use binbook.Prelude.{
  ℕ, ◌≡◌, ◌≢◌, ◌⊎◌, ◌≤◌, ◌<◌, refl, true, some, List, [], ◌∷◌, ◌++◌, replicate, All, Result, ok,
  err, arith,
}
use binbook.Reader.State.{ReaderState, empty, bytes_eq, all_zero, validate_mode_state}
use binbook.Reader.State.Wire.{
  encode_with_generation, decode, update_masked, decode_state, decode_records,
}
use binbook.Checksum.Crc32.{update}
use binbook.Storage.Types
use binbook.Storage.Types.{
  state_client, Request, RequestEnvelope, ResponseEnvelope, backend_error, Response,
}
use binbook.Storage.StateOwner.{
  OwnerStateSlots, new_slots, envelope, slot_name, load_slot_name, state_slot_b,
}
use binbook.Storage.StateOwner.Save
use binbook.Storage.StateOwner.Save.{StateSaveClient, begin_save, begun, choose_target}
use binbook.Storage.StateOwner.Save.Requests.{Proper, ProperUpdate, save_spares_loaded}
use binbook.Storage.StateOwner.Load
use binbook.Storage.StateOwner.Load.{
  StateLoadClient, begin_load, finish_slot, finish_with, next_slot, choose, complete,
}
use binbook.Storage.StateOwner.Load.Ends.{accepted_count, failure, load_ends}
use binbook.Storage.StateOwner.Load.Ends.{after}
use binbook.Storage.StateOwner.Load.Newest.{choose_newer}
use binbook.Storage.StateOwner.Load.Reads.{Selected, noted, reads}
use binbook.Storage.StateOwner.Load.Selects.{load_selects}

abbrev loaded_slots : OwnerStateSlots
loaded_slots = record { loaded_slot = some 0; loaded_generation = 5 }

abbrev answered : ℕ → Result Types.CompletionError Response → ResponseEnvelope × List ℕ
answered sequence response =
    (record { client = state_client; sequence = sequence; response = response }, replicate 72 0)

abbrev client : StateSaveClient
client = record {
  slots = loaded_slots;
  reader = empty;
  target_slot = 1;
  next_generation = 6;
  used = 72;
  phase = Save.begin;
  expected_sequence = 3;
  next_sequence = 4;
}

abbrev first : RequestEnvelope
first = record {
  client = state_client;
  sequence = 3;
  request = Request.upload_begin state_slot_b 72 0 true;
}

-- A save that is answered as it should be, up to the commit.
abbrev answers : List (ResponseEnvelope × List ℕ)
answers =
    answered 3 (ok (Response.upload_started 1))
    ∷ answered 4 (ok (Response.written 72))
    ∷ answered 5 (ok Response.ack)
    ∷ answered 6 (ok (Response.read_bytes 72))
    ∷ []

-- No slot can be read.
abbrev nothing_there : List (ResponseEnvelope × List ℕ)
nothing_there =
    answered 3 (err backend_error)
    ∷ answered 4 (err backend_error)
    ∷ answered 5 (err backend_error)
    ∷ answered 6 (err backend_error)
    ∷ []

abbrev saved_bytes : List ℕ
saved_bytes =
    (66 ∷ 66 ∷ 83 ∷ 84 ∷ 1 ∷ 0 ∷ 72 ∷ 0 ∷ 6 ∷ 0 ∷ 0 ∷ 0 ∷ [])
    ++ (replicate 56 0 ++ (3 ∷ 245 ∷ 203 ∷ 33 ∷ []))

abbrev saved_state : ReaderState
saved_state = record empty { generation = 6 }

abbrev loading : StateLoadClient
loading = record {
  slots = new_slots;
  target = record empty { generation = 5 };
  phase = Load.read 1 72 0 72;
  expected_sequence = 7;
  next_sequence = 8;
  selected_slot = some 0;
  selected_generation = 5;
}

save_spares_loaded_example :
    (slot_name 1 ≢ slot_name 0)
    × (Proper 1 first.request × All (ProperUpdate 1) (Save.Requests.updates client answers))
unfolding begin_save begun choose_target envelope slot_name encode_with_generation
    validate_mode_state all_zero bytes_eq
save_spares_loaded_example =
    save_spares_loaded (λ rs. rs) loaded_slots empty (replicate 80 1)
      (begin_save (λ rs. rs) loaded_slots empty (replicate 80 1) 3).1 3 0 client first answers refl
      (omega arith) refl

load_ends_example :
    let us = Load.Ends.updates (begin_load new_slots 3).0 nothing_there in
    let c = after (begin_load new_slots 3).0 nothing_there in
    All (λ u. u ≢ ok Load.panics) us
    × ((accepted_count us ≤ 16)
        × ((c.phase ≡ Load.complete)
            ⊎ ((accepted_count us < 16)
                × ((u : Load.StateLoadUpdate) × ((Load.accept c (failure c backend_error) []).1
                      ≡ ok u)))))
load_ends_example = load_ends new_slots 3 nothing_there backend_error []

-- The first slot has a state of 72 bytes, the second is not there.
abbrev first_there : List (ResponseEnvelope × List ℕ)
first_there =
    answered 3 (ok (Response.size_of 72))
    ∷ ((answered 4 (ok (Response.read_bytes 72))).0, saved_bytes)
    ∷ answered 5 (err backend_error)
    ∷ []

first_read :
    reads (begin_load new_slots 3).0 (begin_load new_slots 3).1.request [] first_there
    ≡ (slot_name 0, saved_bytes) ∷ []
unfolding reads begin_load noted envelope slot_name load_slot_name Load.accept Load.answer decode
    bytes_eq update_masked update decode_state decode_records validate_mode_state
first_read = refl

load_selects_example :
    Selected
      (reads (begin_load new_slots 3).0 (begin_load new_slots 3).1.request [] first_there)
      saved_state
      (some 0)
      6
unfolding after begin_load envelope decode update_masked decode_state decode_records
    validate_mode_state bytes_eq update
load_selects_example = load_selects new_slots 3 first_there refl

choose_newer_example :
    ((choose loading 1 72 saved_bytes).target ≡ saved_state)
    × ((choose loading 1 72 saved_bytes).selected_slot ≡ some 1)
unfolding decode update_masked decode_state decode_records validate_mode_state bytes_eq update
choose_newer_example =
    choose_newer loading 0 1 72 1 saved_bytes saved_state refl (omega arith) (omega arith) refl refl
