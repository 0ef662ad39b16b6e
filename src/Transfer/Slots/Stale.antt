-- ===== src/Transfer/Slots/Stale.antt =====
-- The generations of bulk_slots.rs: a descriptor of an earlier session reaches no slot.
use binbook.Prelude.{◌<◌, ◌≡◌, err, arith}
use binbook.Transfer.Slots.{
  SlotPool, Descriptor, stale_generation, u32_mod, invalidate, validate, validate_mut, move,
  take_upload_for_storage, complete_read, mark_awaiting_ack, ack_read, complete_upload,
}

validate-stale :
    (p : SlotPool) (d : Descriptor)
    → p.generation < u32_mod
    → d.generation ≡ p.generation
    → validate (invalidate p) d ≡ err stale_generation
unfolding validate invalidate
validate-stale p d small same = ground arith

-- After `begin_session` or `abort_session`, which both invalidate, a descriptor of the generation
-- before is refused as stale by each of the five operations that take one, and the pool stays as
-- it is. This also holds where the 32-bit generation wraps.
pub invalidate_rejects :
    (p : SlotPool) (d : Descriptor)
    → p.generation < u32_mod
    → d.generation ≡ p.generation
    → let q = invalidate p in
      (take_upload_for_storage q d ≡ (err stale_generation, q))
      × (complete_upload q d ≡ (err stale_generation, q))
      × (complete_read q d ≡ (err stale_generation, q))
      × (mark_awaiting_ack q d ≡ (err stale_generation, q))
      × (ack_read q d ≡ (err stale_generation, q))
unfolding take_upload_for_storage complete_read mark_awaiting_ack ack_read complete_upload move
    validate_mut
invalidate_rejects p d small same =
    let e = validate-stale p d small same in (cc e, cc e, cc e, cc e, cc e)
