-- ===== src/Transfer/Upload/Admit.antt =====
-- `admit` of bulk_upload_pipeline.rs keeps the invariant.
use binbook.Prelude.{
  ℕ, ◌+◌, ◌-◌, ◌%◌, ◌≤◌, ◌<◌, ◌≡◌, refl, ap, min, inl, inr, ◌⊎◌, Bool, true, some, Result, ok, err,
  arith, ◌==◌, Result-cases, Option-cases,
}
use binbook.Prelude.{length as list_length}
use binbook.Transfer.Slots.{
  u16_mod, transfer_slot_count, transfer_data_bytes, Descriptor, SlotPool, SlotError, upload,
  rx_ready, claim_upload, occupied,
}
use binbook.Transfer.Slots.Invariant.{
  for_upload, invalidate-IsValid, claim-IsValid, complete_upload-IsValid,
}
use binbook.Transfer.Slots.Invariant as Inv
use binbook.Transfer.Slots.Lifecycle.{claim-occupied}
use binbook.Transfer.Slots.Count.{held_bytes, claim_count, claim_error}
use binbook.Transfer.Upload.{Session, Pipeline, Frame, admit_check, admit_in, admit, bool_eq}
use binbook.Transfer.Upload.Invariant.{IsValid, SessionFits}

-- What the tests of `admit` have shown.
record Admissible (s : Session) (busy_slots : ℕ) (f : Frame) (end : ℕ) : Type 0 where
  pub ends : end ≡ f.offset + list_length f.payload
  pub in_order : f.offset ≡ s.admitted_offset
  pub fits : (0 < list_length f.payload) × (list_length f.payload ≤ s.chunk_size)
  pub within : end ≤ s.total_size
  pub flagged : f.end_of_data ≡ (end == s.total_size)
  pub may_send : (0 < s.sender_credits) ⊎ (transfer_slot_count ≤ busy_slots)

bool_eq→eq : (a b : Bool) → bool_eq a b ≡ true → a ≡ b
bool_eq→eq a b h = ground arith

admit_check-ok :
    (s : Session) (n : ℕ) (f : Frame) {end : ℕ} → admit_check s n f ≡ ok end → Admissible s n f end
unfolding admit_check
admit_check-ok s n f {end} h =
    ground (arith, bool_eq→eq f.end_of_data (f.offset + list_length f.payload == s.total_size))

-- A pool's claim for an upload, by its result.
claim_result :
    (p : SlotPool) (offset len : ℕ) {r : Result SlotError Descriptor}
    → (claim_upload p offset len).0 ≡ r
    → claim_upload p offset len ≡ (r, (claim_upload p offset len).1)
claim_result p offset len e = λ i. (e i, (claim_upload p offset len).1)

claim_upload-IsValid :
    (p : SlotPool) (offset len : ℕ) → Inv.IsValid p → Inv.IsValid (claim_upload p offset len).1
unfolding claim_upload
claim_upload-IsValid p offset len v = claim-IsValid upload rx_ready p offset len for_upload v

claim_upload_error :
    (p : SlotPool) (offset len : ℕ) {e : SlotError}
    → (claim_upload p offset len).0 ≡ err e
    → (claim_upload p offset len).1 ≡ p
unfolding claim_upload
claim_upload_error p offset len h = claim_error upload rx_ready p offset len h

claim_upload_count :
    (p : SlotPool) (offset len : ℕ) {d : Descriptor}
    → Inv.IsValid p
    → (claim_upload p offset len).0 ≡ ok d
    → let q = (claim_upload p offset len).1 in
      (occupied q ≡ occupied p + 1) × (held_bytes q ≡ held_bytes p + len)
unfolding claim_upload
claim_upload_count p offset len v e =
    let (count, bytes, _, _) =
      claim_count upload rx_ready p offset len v for_upload (claim_result p offset len e) in
    (count, bytes)

admit_in-IsValid :
    (p : Pipeline) (s : Session) (f : Frame)
    → Inv.IsValid p.pool
    → SessionFits p.pool s
    → p.active ≡ some s
    → IsValid (admit_in p s f).1
unfolding admit_in
admit_in-IsValid p s f v fit act = elim (Result-cases (admit_check s (occupied p.pool) f)) [
  | inr (e, bad) ↦ rw (bad, admit_in) (record { pool_valid = v; active_fits = rw act fit })
  | inl (end, good) ↦
      let a = admit_check-ok s (occupied p.pool) f good in
      let len = list_length f.payload % u16_mod in
      let v' = claim_upload-IsValid p.pool f.offset len v in
      elim (Result-cases (claim_upload p.pool f.offset len).0) [
        | inr (e, full) ↦
            rw (good, full, admit_in)
              (record {
                pool_valid = v';
                active_fits = rw (act, claim_upload_error p.pool f.offset len full) fit;
              })
        | inl (d, claimed) ↦
            let counts = claim_upload_count p.pool f.offset len v claimed in
            rw (good, claimed, admit_in)
              (record {
                pool_valid = v';
                active_fits = record {
                  window_fits = fit.window_fits;
                  chunk_fits = fit.chunk_fits;
                  total_fits = fit.total_fits;
                  credits = omega (arith, counts.0, v'.peak_covers, v'.peak_bounded);
                  unsent = fit.unsent;
                  bytes = omega (arith, counts.1, a.ends, a.in_order, a.fits);
                  admitted = a.within;
                  end_exact = a.flagged;
                };
              })
      ]
]

pub admit-IsValid : (p : Pipeline) (f : Frame) → IsValid p → IsValid (admit p f).1
unfolding admit
admit-IsValid p f v = elim (Option-cases p.active) [
  | inl idle ↦ rw (idle, admit) v
  | inr (s, act) ↦
      rw (act, admit) (admit_in-IsValid p s f v.pool_valid (rw act at (v.active_fits)) act)
]

-- A pool with a free slot accepts a chunk of a fitting size.
claim_upload_accepts :
    (p : SlotPool) (offset len : ℕ)
    → Inv.IsValid p
    → 0 < len
    → len ≤ transfer_data_bytes
    → occupied p < transfer_slot_count
    → (d : Descriptor) × ((claim_upload p offset len).0 ≡ ok d)
unfolding claim_upload
claim_upload_accepts p offset len v lo hi room =
    elim (claim-occupied upload rx_ready p offset len v refl lo hi) [
      | inl (all_busy, refused) ↦ absurd (omega arith)
      | inr (d, q, claimed, before, after) ↦ (d, ap (λ x. x.0) claimed)
    ]

-- The chunk that the sender owes next: in order, of the full chunk size or up to the end, with the
-- flag on the last one.
pub record IsNext (s : Session) (f : Frame) : Type 0 where
  pub stream : f.stream_id ≡ s.stream_id
  pub in_order : f.offset ≡ s.admitted_offset
  pub sized : list_length f.payload ≡ min s.chunk_size (s.total_size - s.admitted_offset)
  pub flagged : f.end_of_data ≡ (s.admitted_offset + list_length f.payload == s.total_size)

admit_check_accepts :
    (pool : SlotPool) (s : Session) (f : Frame)
    → SessionFits pool s
    → IsNext s f
    → 0 < s.sender_credits
    → s.admitted_offset < s.total_size
    → admit_check s (occupied pool) f ≡ ok (f.offset + list_length f.payload)
unfolding admit_check
admit_check_accepts pool s f fit next credit more = ground arith

-- While the upload is not admitted whole and the sender holds a credit, `admit` accepts the chunk
-- that comes next, whatever its bytes.
pub admit_accepts :
    (p : Pipeline) (s : Session) (f : Frame)
    → IsValid p
    → p.active ≡ some s
    → IsNext s f
    → 0 < s.sender_credits
    → s.admitted_offset < s.total_size
    → (d : Descriptor) × ((admit p f).0 ≡ ok d)
unfolding admit admit_in
admit_accepts p s f v act next credit more =
    let fit : SessionFits p.pool s = rw act at (v.active_fits) in
    let passed = admit_check_accepts p.pool s f fit next credit more in
    let len = list_length f.payload % u16_mod in
    let (d, claimed) =
      claim_upload_accepts p.pool f.offset len v.pool_valid
        (omega (arith, next.sized, fit.chunk_fits)) (omega (arith, next.sized, fit.chunk_fits))
        (omega (arith, fit.credits, fit.window_fits, credit)) in
    (d, rw (act, admit, passed, admit_in, claimed))
