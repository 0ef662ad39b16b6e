-- ===== src/Transfer/Slots/Run.antt =====
-- The operations of bulk_slots.rs as one step function, and what holds of every run.
use binbook.Prelude.{ℕ, refl, inl, List, [], ◌∷◌}
use binbook.Transfer.Slots.{
  upload, readback, rx_ready, storage_owned, tx_ready, awaiting_ack, Descriptor, SlotPool, new,
  begin_session, abort_session, claim_upload, reserve_read, take_upload_for_storage, complete_read,
  mark_awaiting_ack, ack_read, complete_upload,
}
use binbook.Transfer.Slots.Invariant.{
  IsValid, for_upload, for_read, new-IsValid, invalidate-IsValid, claim-IsValid, move-IsValid,
  ack_read-IsValid, complete_upload-IsValid,
}

pub data Op : Type 0 where
  begin abort : Op
  claim_up reserve : ℕ → ℕ → Op
  take_up complete_up complete_rd mark ack : Descriptor → Op

unfoldable pub step : SlotPool → Op → SlotPool
step p begin = (begin_session p).0
step p abort = (abort_session p).0
step p (claim_up offset len) = (claim_upload p offset len).1
step p (reserve offset len) = (reserve_read p offset len).1
step p (take_up d) = (take_upload_for_storage p d).1
step p (complete_up d) = (complete_upload p d).1
step p (complete_rd d) = (complete_read p d).1
step p (mark d) = (mark_awaiting_ack p d).1
step p (ack d) = (ack_read p d).1

unfoldable pub run : SlotPool → List Op → SlotPool
run p [] = p
run p (o ∷ os) = run (step p o) os

pub step-IsValid : (p : SlotPool) (o : Op) → IsValid p → IsValid (step p o)
unfolding step begin_session abort_session claim_upload reserve_read take_upload_for_storage
    complete_read mark_awaiting_ack
step-IsValid p begin v = invalidate-IsValid v
step-IsValid p abort v = invalidate-IsValid v
step-IsValid p (claim_up offset len) v = claim-IsValid upload rx_ready p offset len for_upload v
step-IsValid p (reserve offset len) v = claim-IsValid readback storage_owned p offset len for_read v
step-IsValid p (take_up d) v =
    move-IsValid upload rx_ready storage_owned p d v (λ off len f. (inl refl, f.1, f.2)) refl
step-IsValid p (complete_up d) v = complete_upload-IsValid p d v
step-IsValid p (complete_rd d) v =
    move-IsValid readback storage_owned tx_ready p d v (λ off len f. (refl, f.1, f.2)) refl
step-IsValid p (mark d) v = move-IsValid readback tx_ready awaiting_ack p d v (λ off len f. f) refl
step-IsValid p (ack d) v = ack_read-IsValid p d v

run_from-IsValid : (p : SlotPool) (os : List Op) → IsValid p → IsValid (run p os)
unfolding run
run_from-IsValid p [] v = v
run_from-IsValid p (o ∷ os) v = run_from-IsValid (step p o) os (step-IsValid p o v)

-- After any sequence of operations on a new pool, whatever their arguments and results: the pool
-- has four slots, each of the pool's generation and each with a direction and a length that fit its
-- state (a free slot is empty, a busy one holds 1 to 3584 bytes), and the peak lies between the
-- number of occupied slots and four.
pub run-IsValid : (os : List Op) → IsValid (run new os)
run-IsValid os = run_from-IsValid new os new-IsValid
