-- ===== src/Transfer/Upload/Run.antt =====
-- The calls of bulk_upload_pipeline.rs as one step function, and what holds of every run.
use binbook.Prelude.{ℕ, ◌+◌, ◌<◌, ◌≡◌, ◌≤◌, List, [], ◌∷◌, arith, some}
use binbook.Transfer.Slots.{u32_mod, Descriptor, occupied}
use binbook.Transfer.Slots.Count.{held_bytes}
use binbook.Transfer.Upload.{
  Frame, Pipeline, Session, new, open_upload, admit, take_for_storage, complete_storage, status,
  finish, abort,
}
use binbook.Transfer.Upload.Invariant.{
  IsValid, SessionFits, new-IsValid, open_upload-IsValid, take_for_storage-IsValid, status-IsValid,
  finish-IsValid, abort-IsValid,
}
use binbook.Transfer.Upload.Admit.{admit-IsValid}
use binbook.Transfer.Upload.Complete.{complete_storage-IsValid}

-- A call with its arguments; the total size of an upload is a `u32`.
pub data Call : Type 0 where
  open_call : (id total crc chunk window : ℕ) → total < u32_mod → Call
  admit_call : Frame → Call
  take_call : Descriptor → Call
  complete_call : Descriptor → List ℕ → Call
  status_call finish_call abort_call : ℕ → Call

unfoldable pub step : Pipeline → Call → Pipeline
step p (open_call id total crc chunk window small) = (open_upload p id total crc chunk window).1
step p (admit_call f) = (admit p f).1
step p (take_call d) = (take_for_storage p d).1
step p (complete_call d stored) = (complete_storage p d stored).1
step p (status_call id) = (status p id).1
step p (finish_call id) = (finish p id).1
step p (abort_call id) = (abort p id).1

unfoldable pub run : Pipeline → List Call → Pipeline
run p [] = p
run p (c ∷ cs) = run (step p c) cs

pub step-IsValid : (p : Pipeline) (c : Call) → IsValid p → IsValid (step p c)
unfolding step
step-IsValid p (open_call id total crc chunk window small) v =
    open_upload-IsValid p id total crc chunk window small v
step-IsValid p (admit_call f) v = admit-IsValid p f v
step-IsValid p (take_call d) v = take_for_storage-IsValid p d v
step-IsValid p (complete_call d stored) v = complete_storage-IsValid p d stored v
step-IsValid p (status_call id) v = status-IsValid p id v
step-IsValid p (finish_call id) v = finish-IsValid p id v
step-IsValid p (abort_call id) v = abort-IsValid p id v

pub run_from-IsValid : (p : Pipeline) (cs : List Call) → IsValid p → IsValid (run p cs)
unfolding run
run_from-IsValid p [] v = v
run_from-IsValid p (c ∷ cs) v = run_from-IsValid (step p c) cs (step-IsValid p c v)

-- After any sequence of calls on a new pipeline, whatever their arguments and results, an open
-- session accounts for every credit and every byte: the credits of the sender, those that wait to
-- be sent and the occupied slots add up to the window, which is 1 to 4, and the durable offset and
-- the bytes in the slots add up to the admitted offset, which is at most the total size.
pub run_conserves :
    (cs : List Call) {s : Session}
    → (run new cs).active ≡ some s
    → let pool = (run new cs).pool in
      (s.sender_credits + s.pending_credits + occupied pool ≡ s.window)
      × (0 < s.window)
      × (s.window ≤ 4)
      × (s.durable_offset + held_bytes pool ≡ s.admitted_offset)
      × (s.admitted_offset ≤ s.total_size)
run_conserves cs {s} act =
    let v = run_from-IsValid new cs new-IsValid in
    let fit : SessionFits (run new cs).pool s = rw act at (v.active_fits) in
    (fit.credits, fit.window_fits.0, fit.window_fits.1, fit.bytes, fit.admitted)

-- After any sequence of calls on a new pipeline, an open session is never stuck for credits: the
-- sender holds one, or a slot is occupied, whose completion moves the upload on.
pub run_never_stalls :
    (cs : List Call) {s : Session}
    → (run new cs).active ≡ some s
    → 0 < s.sender_credits + occupied (run new cs).pool
run_never_stalls cs {s} act =
    let v = run_from-IsValid new cs new-IsValid in
    let fit : SessionFits (run new cs).pool s = rw act at (v.active_fits) in
    omega (arith, fit.credits, fit.unsent)
