-- ===== src/Transfer/Slots/Tests.antt =====
-- The slot pool at concrete inputs.
use binbook.Prelude.{◌+◌, ◌≡◌, refl, List, [], ◌∷◌, ok, err, arith}
use binbook.Transfer.Slots.{
  SlotPool, Descriptor, upload, readback, stale_generation, new, invalidate, begin_session, claim,
  claim_upload, move, take_upload_for_storage, complete_read, mark_awaiting_ack, ack_read,
  complete_upload, validate, validate_mut, descriptor_eq, update_peak, occupied,
}
use binbook.Transfer.Slots.Invariant.{IsValid}
use binbook.Transfer.Slots.Run.{Op, begin, claim_up, take_up, step, run, run-IsValid}
use binbook.Transfer.Slots.Stale.{invalidate_rejects}
use binbook.Transfer.Slots.Lifecycle.{claim_upload-complete_upload}

abbrev first : Descriptor
first = record { slot = 0; generation = 1; offset = 0; len = 3584; direction = upload }

abbrev ops : List Op
ops = begin ∷ claim_up 0 3584 ∷ claim_up 3584 16 ∷ take_up first ∷ []

abbrev busy : SlotPool
busy = run new ops

two_busy : (occupied busy ≡ 2) × ((complete_upload busy first).0 ≡ ok 3584)
unfolding run step new begin_session invalidate claim_upload claim update_peak
    take_upload_for_storage move validate_mut validate descriptor_eq complete_upload
two_busy = (refl, refl)

run-IsValid_example : IsValid (run new ops)
run-IsValid_example = run-IsValid ops

invalidate_rejects_example :
    let q = invalidate busy in
    (take_upload_for_storage q first ≡ (err stale_generation, q))
    × (complete_upload q first ≡ (err stale_generation, q))
    × (complete_read q first ≡ (err stale_generation, q))
    × (mark_awaiting_ack q first ≡ (err stale_generation, q))
    × (ack_read q first ≡ (err stale_generation, q))
unfolding run step new begin_session invalidate claim_upload claim update_peak
    take_upload_for_storage move validate_mut validate descriptor_eq
invalidate_rejects_example = invalidate_rejects busy first (omega arith) refl

abbrev third : Descriptor
third = record { slot = 2; generation = 1; offset = 3600; len = 5; direction = upload }

claim_upload-complete_upload_example :
    let (r1, q1) = take_upload_for_storage (claim_upload busy 3600 5).1 third in
    let (r2, q2) = complete_upload q1 third in
    (r1 ≡ ok tt)
    × (r2 ≡ ok (3600 + 5))
    × (q2.slots ≡ busy.slots)
    × (q2.generation ≡ busy.generation)
unfolding run step new begin_session invalidate claim_upload claim update_peak
    take_upload_for_storage move validate_mut validate descriptor_eq
claim_upload-complete_upload_example =
    claim_upload-complete_upload busy 3600 5 {d = third} {q = (claim_upload busy 3600 5).1}
      (run-IsValid ops) refl (omega arith)

abbrev third_read : Descriptor
third_read = record { slot = 2; generation = 1; offset = 64; len = 5; direction = readback }
