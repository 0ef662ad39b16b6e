-- ===== src/Transfer/Slots/Holds.antt =====
-- What a claim of bulk_slots.rs has written, and one step of a life cycle at a time.
use binbook.Prelude.{
  ℕ, ◌+◌, ◌%◌, ◌≤◌, ◌<◌, ◌≡◌, ◌∙◌, inl, inr, true, ◌||◌, some, ok, arith, get_elem?, set, ltb, ◌==◌,
  position, position-some, Bool-cases, Option-cases, get_elem?-set_self, get-lt,
}
use binbook.Transfer.Slots.{
  Direction, upload, readback, SlotState, free, storage_owned, awaiting_ack, Descriptor, Slot,
  SlotPool, u8_mod, u32_mod, transfer_data_bytes, is_free, direction_eq, state_eq, reset,
  descriptor, descriptor_eq, update_peak, validate, validate_mut, claim, move, ack_read,
  complete_upload,
}
use binbook.Transfer.Slots.Invariant.{SlotIsValid, state_eq→eq}

-- What a successful claim has done.
pub record Claimed (dir : Direction) (st : SlotState) (p : SlotPool) (offset len : ℕ)
    (d : Descriptor) (q : SlotPool) : Type 0 where
  pub index : ℕ
  pub before : Slot
  pub found : get_elem? p.slots index ≡ some before
  pub was_free : is_free before ≡ true
  pub fits : (0 < len) × (len ≤ transfer_data_bytes)
  pub written :
      q
      ≡ update_peak (record p {
        slots = set p.slots index (record {
          generation = p.generation;
          offset = offset;
          len = len;
          direction = dir;
          state = st;
        });
      })
  pub named : d ≡ record {
    slot = index % u8_mod;
    generation = p.generation;
    offset = offset;
    len = len;
    direction = dir;
  }

pub claim-Claimed :
    (dir : Direction) (st : SlotState) (p : SlotPool) (offset len : ℕ) {d : Descriptor}
    {q : SlotPool}
    → claim dir st p offset len ≡ (ok d, q)
    → Claimed dir st p offset len d q
unfolding claim
claim-Claimed dir st p offset len {d} {q} h =
    elim (Bool-cases (len == 0 || ltb transfer_data_bytes len)) [
      | inl bad ↦ absurd (cc (rw bad at h))
      | inr good ↦ elim (Option-cases (position is_free p.slots)) [
        | inl none_free ↦ absurd (cc (rw (good, none_free) at h))
        | inr (i, at_i) ↦
            let (s, found, was_free) = position-some is_free p.slots i at_i in
            record {
              index = i;
              before = s;
              found = found;
              was_free = was_free;
              fits = ground arith;
              written = cc (rw (good, at_i) at h);
              named = cc (rw (good, at_i) at h);
            }
      ]
    ]

-- `t` stands at index `i`, in the session of the pool.
pub record Holds (r : SlotPool) (i : ℕ) (t : Slot) : Type 0 where
  pub at_index : get_elem? r.slots i ≡ some t
  pub current : t.generation ≡ r.generation
  pub small : i < u8_mod

eq_refl : (n : ℕ) → (n == n) ≡ true
eq_refl n = ground arith

direction_eq_refl : (a : Direction) → direction_eq a a ≡ true
direction_eq_refl a = ground arith

state_eq_refl : (a : SlotState) → state_eq a a ≡ true
state_eq_refl a = ground arith

descriptor_eq_refl : (d : Descriptor) → descriptor_eq d d ≡ true
unfolding descriptor_eq
descriptor_eq_refl d = simp (
  eq_refl d.slot,
  eq_refl d.generation,
  eq_refl d.offset,
  eq_refl d.len,
  direction_eq_refl d.direction,
)

-- The descriptor of a slot finds that slot.
Holds-validate_mut :
    {r : SlotPool} {i : ℕ} {t : Slot} → Holds r i t → validate_mut r (descriptor t i) t.state ≡ ok t
unfolding validate_mut validate
Holds-validate_mut {r} {i} {t} h =
    let index : i % u8_mod ≡ i = omega (arith, h.small) in
    let found : get_elem? r.slots (i % u8_mod) ≡ some t = rw index h.at_index in
    ground (arith, found, h.current, descriptor_eq_refl (descriptor t i), state_eq_refl t.state)

pub Holds-set :
    {r : SlotPool} {i : ℕ} {t : Slot} (u : Slot)
    → Holds r i t
    → u.generation ≡ t.generation
    → Holds (record r { slots = set r.slots i u }) i u
Holds-set {r} {i} u h e = record {
  at_index = get_elem?-set_self r.slots i u (get-lt r.slots i h.at_index);
  current = e ∙ h.current;
  small = h.small;
}

-- One step of a life cycle, at a slot that is in the state for it.
pub Holds-move :
    (dir : Direction) (to : SlotState) (r : SlotPool) (i : ℕ) (t : Slot)
    → Holds r i t
    → t.direction ≡ dir
    → move dir t.state to r (descriptor t i)
      ≡ (ok tt, record r { slots = set r.slots i (record t { state = to }) })
unfolding move
Holds-move dir to r i t h e =
    let index : i % u8_mod ≡ i = omega (arith, h.small) in
    ground (arith, Holds-validate_mut h, index, e, direction_eq_refl dir)

pub Holds-complete_upload :
    (r : SlotPool) (i : ℕ) (t : Slot)
    → Holds r i t
    → t.direction ≡ upload
    → t.state ≡ storage_owned
    → t.offset + t.len < u32_mod
    → complete_upload r (descriptor t i)
      ≡ (ok (t.offset + t.len), record r { slots = set r.slots i (reset r.generation) })
unfolding complete_upload
Holds-complete_upload r i t h e st fit =
    let index : i % u8_mod ≡ i = omega (arith, h.small) in
    ground (arith, Holds-validate_mut h, index)

pub Holds-ack_read :
    (r : SlotPool) (i : ℕ) (t : Slot)
    → Holds r i t
    → t.direction ≡ readback
    → t.state ≡ awaiting_ack
    → ack_read r (descriptor t i) ≡ (ok tt, record r { slots = set r.slots i (reset r.generation) })
unfolding ack_read
Holds-ack_read r i t h e st =
    let index : i % u8_mod ≡ i = omega (arith, h.small) in
    ground (arith, Holds-validate_mut h, index)

-- A free slot of a valid pool is a reset one.
pub free-eq-reset : (g : ℕ) (s : Slot) → SlotIsValid g s → is_free s ≡ true → s ≡ reset g
free-eq-reset g s v f = ground (arith, state_eq→eq s.state free)
