-- ===== src/Transfer/Slots.antt =====
-- firmware/crates/binbook-fw/src/bulk_slots.rs and bulk_slot_types.rs: the four slots of a bulk
-- transfer, each in one state of its life cycle, named to the rest of the firmware by descriptors
-- that carry the generation of their session. A method on `&mut self` returns the new pool beside
-- its result.
pub mod Invariant
pub mod Count
pub mod Run
pub mod Stale
pub mod Holds
pub mod Lifecycle
mod Tests
use binbook.Prelude.{ℕ, ◌+◌, ◌*◌, ◌%◌, ◌^◌, ◌≤◌, ◌≡◌, Bool, true, false, not, ◌&&◌, ◌||◌}
use binbook.Prelude.{Option, none, some, List, [], ◌∷◌, map, max, replicate, get_elem?, set}
use binbook.Prelude.{ltb, ◌==◌, if◌then◌else◌, Result, ok, err, ◌>>=◌, ok_or, position, sum_of, bit}

abbrev pub transfer_data_bytes : ℕ
transfer_data_bytes = 3584

abbrev pub transfer_slot_count : ℕ
transfer_slot_count = 4

-- `u8`, `u16` and `u32` values are numbers below these.
abbrev pub u8_mod : ℕ
u8_mod = 2 ^ 8

abbrev pub u16_mod : ℕ
u16_mod = 2 ^ 16

abbrev pub u32_mod : ℕ
u32_mod = 2 ^ 32

pub data Direction : Type 0 where
  upload readback unspecified : Direction

pub data SlotState : Type 0 where
  free rx_ready storage_owned tx_ready awaiting_ack : SlotState

pub data SlotError : Type 0 where
  full length invalid_slot stale_generation descriptor_mismatch wrong_state : SlotError

pub record Descriptor : Type 0 where
  pub slot : ℕ
  pub generation : ℕ
  pub offset : ℕ
  pub len : ℕ
  pub direction : Direction

pub record Slot : Type 0 where
  pub generation : ℕ
  pub offset : ℕ
  pub len : ℕ
  pub direction : Direction
  pub state : SlotState

pub record SlotPool : Type 0 where
  pub slots : List Slot
  pub generation : ℕ
  pub peak_occupied : ℕ

-- The derived `==` of the two enums.
abbrev pub direction_eq : Direction → Direction → Bool
direction_eq upload upload = true
direction_eq readback readback = true
direction_eq unspecified unspecified = true
direction_eq _ _ = false

abbrev pub state_eq : SlotState → SlotState → Bool
state_eq free free = true
state_eq rx_ready rx_ready = true
state_eq storage_owned storage_owned = true
state_eq tx_ready tx_ready = true
state_eq awaiting_ack awaiting_ack = true
state_eq _ _ = false

-- `BulkSlot::new`
abbrev pub new_slot : Slot
new_slot = record { generation = 0; offset = 0; len = 0; direction = unspecified; state = free }

-- `BulkSlot::descriptor`, with `slot as u8`
abbrev pub descriptor : Slot → ℕ → Descriptor
descriptor s i = record {
  slot = i % u8_mod;
  generation = s.generation;
  offset = s.offset;
  len = s.len;
  direction = s.direction;
}

-- `BulkSlot::reset`: every field is given anew.
abbrev pub reset : ℕ → Slot
reset g = record { generation = g; offset = 0; len = 0; direction = unspecified; state = free }

-- The derived `==` of descriptors.
unfoldable pub descriptor_eq : Descriptor → Descriptor → Bool
descriptor_eq a b =
    a.slot == b.slot
    && a.generation == b.generation
    && a.offset == b.offset
    && a.len == b.len
    && direction_eq a.direction b.direction

abbrev pub is_free : Slot → Bool
is_free s = state_eq s.state free

abbrev pub is_occupied : Slot → Bool
is_occupied s = not (is_free s)

-- `BulkSlotPool::new`
unfoldable pub new : SlotPool
new = record { slots = replicate transfer_slot_count new_slot; generation = 0; peak_occupied = 0 }

-- `BulkSlotPool::invalidate`
pub invalidate : SlotPool → SlotPool
invalidate p =
    let next = max ((p.generation + 1) % u32_mod) 1 in
    record { slots = map (λ s. reset next) p.slots; generation = next; peak_occupied = 0 }

-- `begin_session` and `abort_session` both invalidate and return the new generation.
unfoldable pub begin_session : SlotPool → SlotPool × ℕ
unfolding invalidate
begin_session p = (invalidate p, (invalidate p).generation)

unfoldable pub abort_session : SlotPool → SlotPool × ℕ
unfolding invalidate
abort_session p = (invalidate p, (invalidate p).generation)

-- `occupied`, with `count() as u8`
abbrev pub occupied : SlotPool → ℕ
occupied p = sum_of (λ s. bit (is_occupied s)) p.slots % u8_mod

pub update_peak : SlotPool → SlotPool
update_peak p = record p { peak_occupied = max p.peak_occupied (occupied p) }

-- `state`
unfoldable pub slot_state : SlotPool → ℕ → Result SlotError SlotState
slot_state p i = elim (get_elem? p.slots i) [ none ↦ err invalid_slot | some s ↦ ok s.state ]

-- `validate`
unfoldable pub validate : SlotPool → Descriptor → Result SlotError Slot
unfolding descriptor_eq
validate p d =
    if not (d.generation == p.generation)
    then err stale_generation
    else elim (get_elem? p.slots d.slot) [
      | none ↦ err invalid_slot
      | some s ↦ if descriptor_eq (descriptor s d.slot) d then ok s else err descriptor_mismatch
    ]

-- `validate_mut`: the slot that the caller then updates in place, at index `d.slot`.
unfoldable pub validate_mut : SlotPool → Descriptor → SlotState → Result SlotError Slot
unfolding validate
validate_mut p d st = do s ← validate p d; if state_eq s.state st then ok s else err wrong_state

-- The common text of `claim_upload` and `reserve_read`, which differ in the direction and the state
-- that they write.
unfoldable pub claim :
    Direction → SlotState → SlotPool → ℕ → ℕ → Result SlotError Descriptor × SlotPool
unfolding update_peak
claim dir st p offset len =
    if len == 0 || ltb transfer_data_bytes len
    then (err length, p)
    else elim (position is_free p.slots) [
      | none ↦ (err full, p)
      | some i ↦
          let s : Slot = record {
            generation = p.generation;
            offset = offset;
            len = len;
            direction = dir;
            state = st;
          } in
          (ok (descriptor s i), update_peak (record p { slots = set p.slots i s }))
    ]

unfoldable pub claim_upload : SlotPool → ℕ → ℕ → Result SlotError Descriptor × SlotPool
unfolding claim
claim_upload = claim upload rx_ready

unfoldable pub reserve_read : SlotPool → ℕ → ℕ → Result SlotError Descriptor × SlotPool
unfolding claim
reserve_read = claim readback storage_owned

-- The common text of the methods that take one slot from a state to another, for one direction.
pub move :
    Direction
    → SlotState
    → SlotState
    → SlotPool
    → Descriptor
    → Result SlotError (Unit {0}) × SlotPool
unfolding validate_mut
move dir from to p d = elim (validate_mut p d from) [
  | err e ↦ (err e, p)
  | ok s ↦
      if not (direction_eq s.direction dir)
      then (err wrong_state, p)
      else (ok tt, record p { slots = set p.slots d.slot (record s { state = to }) })
]

unfoldable pub take_upload_for_storage :
    SlotPool → Descriptor → Result SlotError (Unit {0}) × SlotPool
unfolding move
take_upload_for_storage = move upload rx_ready storage_owned

-- `complete_read` and `mark_awaiting_ack`, by `transition_read`
pub complete_read : SlotPool → Descriptor → Result SlotError (Unit {0}) × SlotPool
unfolding move
complete_read = move readback storage_owned tx_ready

pub mark_awaiting_ack : SlotPool → Descriptor → Result SlotError (Unit {0}) × SlotPool
unfolding move
mark_awaiting_ack = move readback tx_ready awaiting_ack

unfoldable pub ack_read : SlotPool → Descriptor → Result SlotError (Unit {0}) × SlotPool
unfolding validate_mut
ack_read p d = elim (validate_mut p d awaiting_ack) [
  | err e ↦ (err e, p)
  | ok s ↦
      if not (direction_eq s.direction readback)
      then (err wrong_state, p)
      else (ok tt, record p { slots = set p.slots d.slot (reset p.generation) })
]

-- Returns the offset up to which the data is durable, `checked_add` included.
unfoldable pub complete_upload : SlotPool → Descriptor → Result SlotError ℕ × SlotPool
unfolding validate_mut
complete_upload p d = elim (validate_mut p d storage_owned) [
  | err e ↦ (err e, p)
  | ok s ↦
      if not (direction_eq s.direction upload)
      then (err wrong_state, p)
      else if not (ltb (s.offset + s.len) u32_mod)
      then (err length, p)
      else (ok (s.offset + s.len), record p { slots = set p.slots d.slot (reset p.generation) })
]
