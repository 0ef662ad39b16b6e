-- ===== src/Transfer/Slots/Lifecycle.antt =====
-- Whole life cycles of a slot of bulk_slots.rs, and how many slots can be claimed.
use binbook.Prelude.{
  ℕ, ◌+◌, ◌≤◌, ◌<◌, ◌≡◌, refl, ◌∙◌, inl, inr, ◌⊎◌, true, false, some, List, [], ◌∷◌, ok, err, arith,
  length, get_elem?, set, All, sum_of-set, sum_of-bit_le, bit, position, position-some,
  position-none, Option-cases, get_elem?-set_self, length-set, get-lt, set-set, set-get,
}
use binbook.Transfer.Slots.{
  Direction, upload, readback, SlotState, free, rx_ready, storage_owned, tx_ready, awaiting_ack,
  Descriptor, Slot, SlotPool, u32_mod, transfer_data_bytes, is_free, is_occupied, state_eq, reset,
  descriptor, occupied, update_peak, claim, claim_upload, reserve_read, take_upload_for_storage,
  complete_read, mark_awaiting_ack, ack_read, complete_upload, full,
}
use binbook.Transfer.Slots.Invariant.{IsValid, get-SlotIsValid, count_occupied}
use binbook.Transfer.Slots.Holds.{
  claim-Claimed, Holds, Holds-set, Holds-move, Holds-complete_upload, Holds-ack_read, free-eq-reset,
}

-- The slot that a claim writes.
abbrev fresh_slot : Direction → SlotState → ℕ → ℕ → ℕ → Slot
fresh_slot dir st g offset len = record {
  generation = g;
  offset = offset;
  len = len;
  direction = dir;
  state = st;
}

abbrev claimed_pool : Direction → SlotState → SlotPool → ℕ → ℕ → ℕ → SlotPool
claimed_pool dir st p i offset len =
    update_peak (record p { slots = set p.slots i (fresh_slot dir st p.generation offset len) })

module _ (dir : Direction) (st : SlotState) (p : SlotPool) (i offset len : ℕ) {s : Slot}
    (v : IsValid p) (found : get_elem? p.slots i ≡ some s) where
  claimed-Holds :
      Holds (claimed_pool dir st p i offset len) i (fresh_slot dir st p.generation offset len)
  unfolding update_peak
  claimed-Holds = record {
    at_index = get_elem?-set_self p.slots i _ (get-lt p.slots i found);
    current = refl;
    small = omega (arith, get-lt p.slots i found, v.four);
  }

-- Giving the slot back restores the slots of the pool.
module _ (p : SlotPool) (i : ℕ) {s : Slot} (v : IsValid p) (found : get_elem? p.slots i ≡ some s)
    (was_free : is_free s ≡ true) where
  set-reset_restores : set p.slots i (reset p.generation) ≡ p.slots
  set-reset_restores =
      rw (← free-eq-reset p.generation s (get-SlotIsValid i v found) was_free)
        (set-get p.slots i found)

abbrev UploadCycle : SlotPool → SlotPool → Descriptor → ℕ → Type 0
UploadCycle p q d end =
    let (r1, q1) = take_upload_for_storage q d in
    let (r2, q2) = complete_upload q1 d in
    (r1 ≡ ok tt) × (r2 ≡ ok end) × (q2.slots ≡ p.slots) × (q2.generation ≡ p.generation)

upload_cycle :
    (p : SlotPool) (i offset len : ℕ) {s : Slot}
    → IsValid p
    → get_elem? p.slots i ≡ some s
    → is_free s ≡ true
    → offset + len < u32_mod
    → let t = fresh_slot upload rx_ready p.generation offset len in
      UploadCycle p (claimed_pool upload rx_ready p i offset len) (descriptor t i) (offset + len)
unfolding take_upload_for_storage update_peak
upload_cycle p i offset len v found was_free fit =
    let t = fresh_slot upload rx_ready p.generation offset len in
    let q = claimed_pool upload rx_ready p i offset len in
    let h = claimed-Holds upload rx_ready p i offset len v found in
    let u = fresh_slot upload storage_owned p.generation offset len in
    let h' = Holds-set u h refl in
    let first = Holds-move upload storage_owned q i t h refl in
    let second = Holds-complete_upload _ i u h' refl refl fit in
    rw (first, second)
      (refl, refl, rw (set-set, set-set) (set-reset_restores p i v found was_free), refl)

-- An upload chunk's whole life: in a valid pool, once `claim_upload` has answered with a descriptor
-- and the chunk ends below 2^32, `take_upload_for_storage` accepts that descriptor, then
-- `complete_upload` accepts it and answers with the chunk's end, and all slots are again as they
-- were before the claim, in the same session.
pub claim_upload-complete_upload :
    (p : SlotPool) (offset len : ℕ) {d : Descriptor} {q : SlotPool}
    → IsValid p
    → claim_upload p offset len ≡ (ok d, q)
    → offset + len < u32_mod
    → let (r1, q1) = take_upload_for_storage q d in
      let (r2, q2) = complete_upload q1 d in
      (r1 ≡ ok tt)
      × (r2 ≡ ok (offset + len))
      × (q2.slots ≡ p.slots)
      × (q2.generation ≡ p.generation)
unfolding claim_upload
claim_upload-complete_upload p offset len v h fit =
    let c = claim-Claimed upload rx_ready p offset len h in
    rw (c.written, c.named) (upload_cycle p c.index offset len v c.found c.was_free fit)

abbrev ReadCycle : SlotPool → SlotPool → Descriptor → Type 0
ReadCycle p q d =
    let (r1, q1) = complete_read q d in
    let (r2, q2) = mark_awaiting_ack q1 d in
    let (r3, q3) = ack_read q2 d in
    (r1 ≡ ok tt)
    × (r2 ≡ ok tt)
    × (r3 ≡ ok tt)
    × (q3.slots ≡ p.slots)
    × (q3.generation ≡ p.generation)

read_cycle :
    (p : SlotPool) (i offset len : ℕ) {s : Slot}
    → IsValid p
    → get_elem? p.slots i ≡ some s
    → is_free s ≡ true
    → let t = fresh_slot readback storage_owned p.generation offset len in
      ReadCycle p (claimed_pool readback storage_owned p i offset len) (descriptor t i)
unfolding complete_read mark_awaiting_ack update_peak
read_cycle p i offset len v found was_free =
    let t = fresh_slot readback storage_owned p.generation offset len in
    let q = claimed_pool readback storage_owned p i offset len in
    let h = claimed-Holds readback storage_owned p i offset len v found in
    let u = fresh_slot readback tx_ready p.generation offset len in
    let h' = Holds-set u h refl in
    let w = fresh_slot readback awaiting_ack p.generation offset len in
    let h'' = Holds-set w h' refl in
    let first = Holds-move readback tx_ready q i t h refl in
    let second = Holds-move readback awaiting_ack _ i u h' refl in
    let third = Holds-ack_read _ i w h'' refl refl in
    rw (first, second, third)
      (
        refl,
        refl,
        refl,
        rw (set-set, set-set, set-set) (set-reset_restores p i v found was_free),
        refl,
      )

-- A readback chunk's whole life: in a valid pool, once `reserve_read` has answered with a
-- descriptor, `complete_read`, `mark_awaiting_ack` and `ack_read` accept it in this order, and all
-- slots are again as they were before, in the same session.
pub reserve_read-ack_read :
    (p : SlotPool) (offset len : ℕ) {d : Descriptor} {q : SlotPool}
    → IsValid p
    → reserve_read p offset len ≡ (ok d, q)
    → let (r1, q1) = complete_read q d in
      let (r2, q2) = mark_awaiting_ack q1 d in
      let (r3, q3) = ack_read q2 d in
      (r1 ≡ ok tt)
      × (r2 ≡ ok tt)
      × (r3 ≡ ok tt)
      × (q3.slots ≡ p.slots)
      × (q3.generation ≡ p.generation)
unfolding reserve_read
reserve_read-ack_read p offset len v h =
    let c = claim-Claimed readback storage_owned p offset len h in
    rw (c.written, c.named) (read_cycle p c.index offset len v c.found c.was_free)

none_free-full : (xs : List Slot) → All (λ s. is_free s ≡ false) xs → count_occupied xs ≡ length xs
none_free-full [] h = refl
none_free-full (x ∷ xs) h = ground (arith, none_free-full xs h.1)

-- Below the limit of 3584 bytes and for a chunk that is not empty, a claim succeeds exactly as long
-- as fewer than four slots are occupied, and then occupies one more; with all four occupied it
-- answers `full` and changes nothing.
pub claim-occupied :
    (dir : Direction) (st : SlotState) (p : SlotPool) (offset len : ℕ)
    → IsValid p
    → state_eq st free ≡ false
    → 0 < len
    → len ≤ transfer_data_bytes
    → ((occupied p ≡ 4) × (claim dir st p offset len ≡ (err full, p)))
      ⊎ ((d : Descriptor) × (q : SlotPool) × (claim dir st p offset len ≡ (ok d, q))
          × (occupied p < 4)
          × (occupied q ≡ occupied p + 1))
unfolding claim update_peak
claim-occupied dir st p offset len v busy lo hi = elim (Option-cases (position is_free p.slots)) [
  | inl none_free ↦ inl (
    omega (arith, none_free-full p.slots (position-none is_free p.slots none_free), v.four),
    ground (arith, none_free),
  )
  | inr (i, at_i) ↦
      let (s, found, was_free) = position-some is_free p.slots i at_i in
      let t = fresh_slot dir st p.generation offset len in
      let counts = sum_of-set (λ s. bit (is_occupied s)) p.slots i t found in
      let old : bit (is_occupied s) ≡ 0 = rw was_free in
      let now : bit (is_occupied t) ≡ 1 = rw busy in
      let bound = sum_of-bit_le is_occupied (set p.slots i t) in
      let kept = length-set p.slots i t ∙ v.four in
      inr (
        descriptor t i,
        claimed_pool dir st p i offset len,
        ground (arith, at_i),
        omega arith,
        omega arith,
      )
]
