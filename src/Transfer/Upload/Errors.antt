-- ===== src/Transfer/Upload/Errors.antt =====
-- The error paths of bulk_upload_pipeline.rs.
use binbook.Prelude.{
  ℕ, ◌%◌, ◌≡◌, ◌≢◌, ◌⊎◌, inl, inr, Bool, true, false, Option, none, some, Result, ok, err, arith,
  Result-cases,
}
use binbook.Prelude.{length as list_length}
use binbook.Transfer.Slots.{
  u16_mod, Descriptor, SlotPool, upload, rx_ready, claim_upload, take_upload_for_storage,
}
use binbook.Transfer.Slots.Count.{claim_error, take_upload_error}
use binbook.Transfer.Upload.Run.{
  Call, open_call, admit_call, take_call, complete_call, status_call, finish_call, abort_call, step,
}
use binbook.Transfer.Upload.{
  Frame, Pipeline, UploadError, wrong_stream, open_upload, admit_in, admit, take_for_storage,
  complete_storage, status, finish, abort,
}

-- A pool call succeeds, or leaves the pool as it is.
claim_upload_kept :
    (p : SlotPool) (offset len : ℕ)
    → ((d : Descriptor) × ((claim_upload p offset len).0 ≡ ok d))
      ⊎ ((claim_upload p offset len).1 ≡ p)
unfolding claim_upload
claim_upload_kept p offset len = elim (Result-cases (claim_upload p offset len).0) [
  | inl (d, done) ↦ inl (d, done)
  | inr (e, refused) ↦ inr (claim_error upload rx_ready p offset len refused)
]

take_upload_kept :
    (p : SlotPool) (d : Descriptor)
    → ((take_upload_for_storage p d).0 ≡ ok tt) ⊎ ((take_upload_for_storage p d).1 ≡ p)
take_upload_kept p d = elim (Result-cases (take_upload_for_storage p d).0) [
  | inl (u, done) ↦ inl done
  | inr (e, refused) ↦ inr (take_upload_error p d refused)
]

open_upload_error :
    (p : Pipeline) (id total crc chunk window : ℕ) {e : UploadError}
    → (open_upload p id total crc chunk window).0 ≡ err e
    → (open_upload p id total crc chunk window).1 ≡ p
unfolding open_upload
open_upload_error p id total crc chunk window h = ground arith

admit_error :
    (p : Pipeline) (f : Frame) {e : UploadError} → (admit p f).0 ≡ err e → (admit p f).1 ≡ p
unfolding admit admit_in
admit_error p f h =
    ground (arith, claim_upload_kept p.pool f.offset (list_length f.payload % u16_mod))

take_for_storage_error :
    (p : Pipeline) (d : Descriptor) {e : UploadError}
    → (take_for_storage p d).0 ≡ err e
    → (take_for_storage p d).1 ≡ p
unfolding take_for_storage
take_for_storage_error p d h = ground (arith, take_upload_kept p.pool d)

status_error :
    (p : Pipeline) (id : ℕ) {e : UploadError} → (status p id).0 ≡ err e → (status p id).1 ≡ p
unfolding status
status_error p id h = ground arith

finish_error :
    (p : Pipeline) (id : ℕ) {e : UploadError} → (finish p id).0 ≡ err e → (finish p id).1 ≡ p
unfolding finish
finish_error p id h = ground arith

abort_error :
    (p : Pipeline) (id : ℕ) {e : UploadError} → (abort p id).0 ≡ err e → (abort p id).1 ≡ p
unfolding abort
abort_error p id h = ground arith

-- The error that a call answers with.
error_in {ℓ} : {A : Type ℓ} → Result UploadError A → Option UploadError
error_in (ok a) = none
error_in (err e) = some e

unfoldable pub error_of : Pipeline → Call → Option UploadError
unfolding error_in
error_of p (open_call id total crc chunk window small) =
    error_in (open_upload p id total crc chunk window).0
error_of p (admit_call f) = error_in (admit p f).0
error_of p (take_call d) = error_in (take_for_storage p d).0
error_of p (complete_call d stored) = error_in (complete_storage p d stored).0
error_of p (status_call id) = error_in (status p id).0
error_of p (finish_call id) = error_in (finish p id).0
error_of p (abort_call id) = error_in (abort p id).0

abbrev is_completion : Call → Bool
is_completion (complete_call d stored) = true
is_completion _ = false

error_in-some {ℓ} :
    {A : Type ℓ} (r : Result UploadError A) {e : UploadError} → error_in r ≡ some e → r ≡ err e
unfolding error_in
error_in-some (ok a) h = absurd (cc)
error_in-some (err e) h = cc

-- A call that fails, for whatever reason, leaves the pipeline as it is, unless it is a call of
-- `complete_storage`.
pub error_keeps :
    (p : Pipeline) (c : Call) {e : UploadError}
    → error_of p c ≡ some e
    → is_completion c ≡ false
    → step p c ≡ p
unfolding error_of step
error_keeps p (open_call id total crc chunk window small) h k =
    open_upload_error p id total crc chunk window (error_in-some _ h)
error_keeps p (admit_call f) h k = admit_error p f (error_in-some _ h)
error_keeps p (take_call d) h k = take_for_storage_error p d (error_in-some _ h)
error_keeps p (complete_call d stored) h k = absurd (cc)
error_keeps p (status_call id) h k = status_error p id (error_in-some _ h)
error_keeps p (finish_call id) h k = finish_error p id (error_in-some _ h)
error_keeps p (abort_call id) h k = abort_error p id (error_in-some _ h)

-- After an abort that succeeds the pipeline is idle and remembers the stream: the same abort
-- succeeds again and changes nothing, as an abort of any other stream is refused.
pub abort_again :
    (p : Pipeline) (id other : ℕ)
    → (abort p id).0 ≡ ok tt
    → other ≢ id
    → let q = (abort p id).1 in
      (q.active ≡ none) × (abort q id ≡ (ok tt, q)) × (abort q other ≡ (err wrong_stream, q))
unfolding abort
abort_again p id other h ne = ground arith
