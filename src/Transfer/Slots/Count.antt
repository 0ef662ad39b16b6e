-- ===== src/Transfer/Slots/Count.antt =====
-- How the operations of bulk_slots.rs change the number of occupied slots and of the bytes in them.
use binbook.Prelude.{
  ℕ, ◌+◌, ◌≡◌, refl, ◌∙◌, inl, inr, not, List, [], ◌∷◌, map, ok, err, arith, set, sum_of,
  sum_of-set, sum_of-bit_le, bit, Result-cases, length-set,
}
use binbook.Transfer.Slots.{
  Direction, upload, free, rx_ready, storage_owned, SlotState, Descriptor, Slot, SlotPool,
  SlotError, is_occupied, state_eq, reset, occupied, update_peak, invalidate, validate_mut, claim,
  move, take_upload_for_storage, complete_upload,
}
use binbook.Transfer.Slots.Invariant.{
  IsValid, move-IsValid, Claims, for_upload, for_read, get-SlotIsValid, count_occupied,
  count_occupied-le, count_occupied-reset, validate_mut-get,
}
use binbook.Transfer.Slots.Holds.{claim-Claimed, free-eq-reset}

-- The bytes that the slots hold.
abbrev pub held_bytes : SlotPool → ℕ
held_bytes p = sum_of (λ s. s.len) p.slots

occupied-eq-count : {p : SlotPool} → IsValid p → occupied p ≡ count_occupied p.slots
occupied-eq-count v = omega (arith, count_occupied-le v)

Claims-busy : {dir : Direction} {st : SlotState} → Claims dir st → bit (not (state_eq st free)) ≡ 1
Claims-busy for_upload = refl
Claims-busy for_read = refl

pub claim_count :
    (dir : Direction) (st : SlotState) (p : SlotPool) (offset len : ℕ) {d : Descriptor}
    {q : SlotPool}
    → IsValid p
    → Claims dir st
    → claim dir st p offset len ≡ (ok d, q)
    → (occupied q ≡ occupied p + 1)
      × (held_bytes q ≡ held_bytes p + len)
      × (d.offset ≡ offset)
      × (d.len ≡ len)
unfolding update_peak
claim_count dir st p offset len {d} {q} v c h =
    let r = claim-Claimed dir st p offset len h in
    let old : r.before ≡ reset p.generation =
      free-eq-reset p.generation r.before (get-SlotIsValid r.index v r.found) r.was_free in
    let t : Slot = record {
      generation = p.generation;
      offset = offset;
      len = len;
      direction = dir;
      state = st;
    } in
    let slots : q.slots ≡ set p.slots r.index t = rw r.written in
    let vq = length-set p.slots r.index t ∙ v.four in
    let bound = sum_of-bit_le is_occupied (set p.slots r.index t) in
    let busy : bit (is_occupied t) ≡ 1 = Claims-busy c in
    let was_free : bit (is_occupied r.before) ≡ 0 = rw old in
    let was_empty : r.before.len ≡ 0 = rw old in
    let count = sum_of-set (λ s. bit (is_occupied s)) p.slots r.index t r.found in
    let bytes = sum_of-set (λ s. s.len) p.slots r.index t r.found in
    (rw slots (omega arith), rw slots (omega arith), rw r.named, rw r.named)

pub complete_upload_count :
    (p : SlotPool) (d : Descriptor) {end : ℕ} {q : SlotPool}
    → IsValid p
    → complete_upload p d ≡ (ok end, q)
    → (occupied p ≡ occupied q + 1)
      × (held_bytes p ≡ held_bytes q + d.len)
      × (end ≡ d.offset + d.len)
unfolding complete_upload
complete_upload_count p d {end} {q} v h = elim (Result-cases (validate_mut p d storage_owned)) [
  | inr (e, bad) ↦ absurd (cc (rw (bad, complete_upload) at h))
  | inl (s, good) ↦
      let (found, state, off, len) = validate_mut-get p d storage_owned good in
      let t = reset p.generation in
      let count = sum_of-set (λ s. bit (is_occupied s)) p.slots d.slot t found in
      let bytes = sum_of-set (λ s. s.len) p.slots d.slot t found in
      let busy : bit (is_occupied s) ≡ 1 = rw state in
      let bound = count_occupied-le v in
      let (slots, end_is) = outcome s good in
      (rw slots (omega arith), rw slots (omega arith), end_is ∙ sum off len)
]
  where
    outcome :
        (s : Slot)
        → validate_mut p d storage_owned ≡ ok s
        → (q.slots ≡ set p.slots d.slot (reset p.generation)) × (end ≡ s.offset + s.len)
    outcome s good = ground (arith, h, good)

    sum : {a b x y : ℕ} → a ≡ x → b ≡ y → a + b ≡ x + y
    sum e f = omega arith

-- A refused claim leaves the pool as it is.
pub claim_error :
    (dir : Direction) (st : SlotState) (p : SlotPool) (offset len : ℕ) {e : SlotError}
    → (claim dir st p offset len).0 ≡ err e
    → (claim dir st p offset len).1 ≡ p
unfolding claim
claim_error dir st p offset len h = ground arith

-- A refused completion leaves the pool as it is.
pub complete_upload_error :
    (p : SlotPool) (d : Descriptor) {e : SlotError} {q : SlotPool}
    → complete_upload p d ≡ (err e, q)
    → q ≡ p
unfolding complete_upload
complete_upload_error p d h = ground arith

-- Taking a slot for storage, whether it succeeds or not, keeps the counts.
pub take_upload_count :
    (p : SlotPool) (d : Descriptor)
    → IsValid p
    → let q = (take_upload_for_storage p d).1 in
      (occupied q ≡ occupied p) × (held_bytes q ≡ held_bytes p)
unfolding take_upload_for_storage move
take_upload_count p d v = elim (Result-cases (validate_mut p d rx_ready)) [
  | inr (e, bad) ↦ rw (bad, move) (refl, refl)
  | inl (s, good) ↦
      let (found, state, off, len) = validate_mut-get p d rx_ready good in
      let t : Slot = record s { state = storage_owned } in
      let count = sum_of-set (λ s. bit (is_occupied s)) p.slots d.slot t found in
      let bytes = sum_of-set (λ s. s.len) p.slots d.slot t found in
      let busy : bit (is_occupied s) ≡ 1 = rw state in ground (arith, good, count, bytes, busy)
]

pub take_upload-IsValid :
    (p : SlotPool) (d : Descriptor) → IsValid p → IsValid (take_upload_for_storage p d).1
unfolding take_upload_for_storage
take_upload-IsValid p d v =
    move-IsValid upload rx_ready storage_owned p d v (λ off len f. (inl refl, f.1, f.2)) refl

held_bytes-reset : (g : ℕ) (xs : List Slot) → sum_of (λ s. s.len) (map (λ s. reset g) xs) ≡ 0
held_bytes-reset g [] = refl
held_bytes-reset g (x ∷ xs) = omega (arith, held_bytes-reset g xs)

pub invalidate_count :
    (p : SlotPool) → (occupied (invalidate p) ≡ 0) × (held_bytes (invalidate p) ≡ 0)
unfolding invalidate
invalidate_count p = (
  omega (arith, count_occupied-reset (invalidate p).generation p.slots),
  held_bytes-reset (invalidate p).generation p.slots,
)

-- A refused move changes nothing.
pub take_upload_error :
    (p : SlotPool) (d : Descriptor) {e : SlotError}
    → (take_upload_for_storage p d).0 ≡ err e
    → (take_upload_for_storage p d).1 ≡ p
unfolding take_upload_for_storage move
take_upload_error p d h = ground arith
