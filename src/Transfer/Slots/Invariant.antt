-- ===== src/Transfer/Slots/Invariant.antt =====
-- What holds of the slot pool of bulk_slots.rs after any sequence of its operations.
use binbook.Prelude.{
  ℕ, suc, ◌≤◌, ◌<◌, ◌≡◌, refl, ap, ◌∙◌, ◌⊎◌, inl, inr, true, false, ◌||◌, ltb, some, List, [], ◌∷◌,
  map, arith, length, length-set, get_elem?, set, ◌==◌, ok, All, All-set, All-get, sum_of,
  sum_of-set, sum_of-bit_le, bit, position, Result-cases, Bool-cases, Option-cases,
}
use binbook.Transfer.Slots.{
  Direction, upload, readback, unspecified, SlotState, free, rx_ready, storage_owned, tx_ready,
  awaiting_ack, Descriptor, Slot, SlotPool, direction_eq, state_eq, reset, descriptor_eq, is_free,
  is_occupied, new, invalidate, occupied, update_peak, validate, validate_mut, claim, move,
  ack_read, complete_upload, transfer_data_bytes, transfer_slot_count,
}

-- What a slot in a given state holds.
abbrev Fits : SlotState → Direction → ℕ → ℕ → Type 0
Fits free dir offset len = (dir ≡ unspecified) × (offset ≡ 0) × (len ≡ 0)
Fits rx_ready dir offset len = (dir ≡ upload) × (0 < len) × (len ≤ transfer_data_bytes)
Fits storage_owned dir offset len =
    ((dir ≡ upload) ⊎ (dir ≡ readback)) × (0 < len) × (len ≤ transfer_data_bytes)
Fits tx_ready dir offset len = (dir ≡ readback) × (0 < len) × (len ≤ transfer_data_bytes)
Fits awaiting_ack dir offset len = (dir ≡ readback) × (0 < len) × (len ≤ transfer_data_bytes)

abbrev pub SlotIsValid : ℕ → Slot → Type 0
SlotIsValid g s = (s.generation ≡ g) × Fits s.state s.direction s.offset s.len

pub record IsValid (p : SlotPool) : Type 0 where
  pub four : length p.slots ≡ transfer_slot_count
  pub all_valid : All (SlotIsValid p.generation) p.slots
  pub peak_covers : occupied p ≤ p.peak_occupied
  pub peak_bounded : p.peak_occupied ≤ transfer_slot_count

direction_eq→eq : (a b : Direction) → direction_eq a b ≡ true → a ≡ b
direction_eq→eq a b h = ground arith

pub state_eq→eq : (a b : SlotState) → state_eq a b ≡ true → a ≡ b
state_eq→eq a b h = ground arith

-- A descriptor that `validate` accepts names the slot as it stands.
validate-ok :
    (p : SlotPool) (d : Descriptor) {s : Slot}
    → validate p d ≡ ok s
    → (get_elem? p.slots d.slot ≡ some s)
      × (d.generation ≡ p.generation)
      × (s.generation ≡ d.generation)
      × (s.offset ≡ d.offset)
      × (s.len ≡ d.len)
      × (s.direction ≡ d.direction)
unfolding validate descriptor_eq
validate-ok p d {s} h = ground (arith, direction_eq→eq s.direction d.direction)

validate_mut-ok :
    (p : SlotPool) (d : Descriptor) (st : SlotState) {s : Slot}
    → validate_mut p d st ≡ ok s
    → (validate p d ≡ ok s) × (s.state ≡ st)
unfolding validate_mut
validate_mut-ok p d st {s} h = ground (arith, state_eq→eq s.state st)

abbrev pub count_occupied : List Slot → ℕ
count_occupied = sum_of (λ s. bit (is_occupied s))

pub count_occupied-le : {p : SlotPool} → IsValid p → count_occupied p.slots ≤ 4
count_occupied-le {p} v = omega (arith, sum_of-bit_le is_occupied p.slots, v.four)

-- Writing a slot that is no busier than the one it replaces.
set-IsValid :
    (p : SlotPool) (i : ℕ) (s t : Slot)
    → IsValid p
    → get_elem? p.slots i ≡ some s
    → SlotIsValid p.generation t
    → bit (is_occupied t) ≤ bit (is_occupied s)
    → IsValid (record p { slots = set p.slots i t })
set-IsValid p i s t v e ht le = record {
  four = length-set p.slots i t ∙ v.four;
  all_valid = All-set (SlotIsValid p.generation) p.slots i t v.all_valid ht;
  peak_covers = omega (
    arith,
    sum_of-set (λ s. bit (is_occupied s)) p.slots i t e,
    count_occupied-le v,
    v.peak_covers,
  );
  peak_bounded = v.peak_bounded;
}

-- Writing any valid slot, and raising the peak.
set-update_peak-IsValid :
    (p : SlotPool) (i : ℕ) (t : Slot)
    → IsValid p
    → SlotIsValid p.generation t
    → IsValid (update_peak (record p { slots = set p.slots i t }))
unfolding update_peak
set-update_peak-IsValid p i t v ht = record {
  four = length-set p.slots i t ∙ v.four;
  all_valid = All-set (SlotIsValid p.generation) p.slots i t v.all_valid ht;
  peak_covers = omega arith;
  peak_bounded = omega (
    arith,
    sum_of-bit_le is_occupied (set p.slots i t),
    length-set p.slots i t,
    v.four,
    v.peak_bounded,
  );
}

All-reset : (g : ℕ) (xs : List Slot) → All (SlotIsValid g) (map (λ s. reset g) xs)
All-reset g [] = tt
All-reset g (x ∷ xs) = ((refl, (refl, refl, refl)), All-reset g xs)

length-reset : (g : ℕ) (xs : List Slot) → length (map (λ s. reset g) xs) ≡ length xs
length-reset g [] = refl
length-reset g (x ∷ xs) = ap suc (length-reset g xs)

pub count_occupied-reset : (g : ℕ) (xs : List Slot) → count_occupied (map (λ s. reset g) xs) ≡ 0
count_occupied-reset g [] = refl
count_occupied-reset g (x ∷ xs) = omega (arith, count_occupied-reset g xs)

pub new-IsValid : IsValid new
unfolding new
new-IsValid = ground arith

pub invalidate-IsValid : {p : SlotPool} → IsValid p → IsValid (invalidate p)
unfolding invalidate
invalidate-IsValid {p} v = record {
  four = length-reset _ p.slots ∙ v.four;
  all_valid = All-reset _ p.slots;
  peak_covers = omega (arith, count_occupied-reset (invalidate p).generation p.slots);
  peak_bounded = omega arith;
}

-- The two ways in which a slot is claimed.
pub data Claims : Direction → SlotState → Type 0 where
  for_upload : Claims upload rx_ready
  for_read : Claims readback storage_owned

Claims-Fits :
    {dir : Direction} {st : SlotState} (off len : ℕ)
    → Claims dir st
    → 0 < len
    → len ≤ transfer_data_bytes
    → Fits st dir off len
Claims-Fits off len for_upload lo hi = (refl, lo, hi)
Claims-Fits off len for_read lo hi = (inr refl, lo, hi)

pub claim-IsValid :
    (dir : Direction) (st : SlotState) (p : SlotPool) (offset len : ℕ)
    → Claims dir st
    → IsValid p
    → IsValid (claim dir st p offset len).1
unfolding claim
claim-IsValid dir st p offset len c v =
    elim (Bool-cases (len == 0 || ltb transfer_data_bytes len)) [
      | inl bad ↦ rw bad v
      | inr good ↦ elim (Option-cases (position is_free p.slots)) [
        | inl none_free ↦ rw (good, none_free) v
        | inr (i, found) ↦
            rw (good, found)
              (set-update_peak-IsValid p i _ v
                (refl, Claims-Fits offset len c (ground arith) (ground arith)))
      ]
    ]

-- `validate_mut` finds the slot, in the state asked for.
pub validate_mut-get :
    (p : SlotPool) (d : Descriptor) (st : SlotState) {s : Slot}
    → validate_mut p d st ≡ ok s
    → (get_elem? p.slots d.slot ≡ some s) × (s.state ≡ st) × (s.offset ≡ d.offset) × (s.len ≡ d.len)
validate_mut-get p d st {s} h =
    let (h', same) = validate_mut-ok p d st h in
    let (found, _, _, off, len, _) = validate-ok p d h' in (found, same, off, len)

pub get-SlotIsValid :
    {p : SlotPool} (i : ℕ) {s : Slot}
    → IsValid p
    → get_elem? p.slots i ≡ some s
    → SlotIsValid p.generation s
get-SlotIsValid {p} i v e = All-get (SlotIsValid p.generation) p.slots i v.all_valid e

-- The slot that `move` writes keeps its direction, offset and length.
pub move-IsValid :
    (dir : Direction) (from to : SlotState) (p : SlotPool) (d : Descriptor)
    → IsValid p
    → ((off len : ℕ) → Fits from dir off len → Fits to dir off len)
    → state_eq from free ≡ false
    → IsValid (move dir from to p d).1
unfolding move
move-IsValid dir from to p d v keep busy = elim (Result-cases (validate_mut p d from)) [
  | inr (e, h) ↦ rw (h, move) v
  | inl (s, h) ↦ elim (Bool-cases (direction_eq s.direction dir)) [
    | inr other ↦ rw (h, move, other) v
    | inl same ↦
        let (found, state, _, _) = validate_mut-get p d from h in
        let old = get-SlotIsValid d.slot v found in
        let toward = direction_eq→eq s.direction dir same in
        rw (h, move, same)
          (set-IsValid p d.slot s (record s { state = to }) v found
            (old.0, rw toward (keep s.offset s.len (rw (state, toward) at (old.1))))
            (occupied-kept s to state))
  ]
]
  where
    occupied-kept :
        (s : Slot) (to : SlotState)
        → s.state ≡ from
        → bit (is_occupied (record s { state = to })) ≤ bit (is_occupied s)
    occupied-kept s to e = rw (e, busy) (ground arith)

-- A slot that is given back.
reset-SlotIsValid : (g : ℕ) → SlotIsValid g (reset g)
reset-SlotIsValid g = (refl, (refl, refl, refl))

set-reset-IsValid :
    (p : SlotPool) (i : ℕ) (s : Slot)
    → IsValid p
    → get_elem? p.slots i ≡ some s
    → IsValid (record p { slots = set p.slots i (reset p.generation) })
set-reset-IsValid p i s v e =
    set-IsValid p i s (reset p.generation) v e (reset-SlotIsValid _) (ground arith)

pub ack_read-IsValid : (p : SlotPool) (d : Descriptor) → IsValid p → IsValid (ack_read p d).1
unfolding ack_read
ack_read-IsValid p d v = elim (Result-cases (validate_mut p d awaiting_ack)) [
  | inr (e, h) ↦ rw (h, ack_read) v
  | inl (s, h) ↦
      let kept = set-reset-IsValid p d.slot s v (validate_mut-get p d awaiting_ack h).0 in
      elim (Bool-cases (direction_eq s.direction readback)) [
        | inr other ↦ rw (h, ack_read, other) v
        | inl same ↦ rw (h, ack_read, same) kept
      ]
]

pub complete_upload-IsValid :
    (p : SlotPool) (d : Descriptor) → IsValid p → IsValid (complete_upload p d).1
unfolding complete_upload
complete_upload-IsValid p d v = elim (Result-cases (validate_mut p d storage_owned)) [
  | inr (e, h) ↦ rw (h, complete_upload) v
  | inl (s, h) ↦
      let kept = set-reset-IsValid p d.slot s v (validate_mut-get p d storage_owned h).0 in
      ground (arith, h, kept, v)
]
