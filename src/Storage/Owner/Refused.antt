-- ===== src/Storage/Owner/Refused.antt =====
-- The requests that storage_owner.rs refuses by itself, and those that the card refuses.
use binbook.Prelude.{
  ℕ, ◌≡◌, true, false, ◌==◌, ltb, if◌then◌else◌, Option, none, some, Result, err, arith,
}
use binbook.Storage.Types
use binbook.Storage.Types.{
  StorageName, RequestError, empty, too_large, busy, stale, slot_number, library_index, Request,
  StorageClient, validate_len, max_bounded_io_bytes,
}
use binbook.Storage.Tokens.{StorageOwnerProtocol, is_open, require_scan, require_upload}
use binbook.Storage.Owner.{OwnerBackend, OwnerError, Running}
use binbook.Storage.Owner.Execute.{
  read, start_upload, write_upload, end_upload, begin_scan, step_scan, end_scan, scratch_range,
  execute,
}

abbrev pub length_refusal : ℕ → Option RequestError
length_refusal len =
    if len == 0 then some empty else if ltb max_bounded_io_bytes len then some too_large else none

abbrev pub token_refusal : Option ℕ → ℕ → Option RequestError → Option RequestError
token_refusal held token rest = if is_open held token then rest else some stale

abbrev pub busy_refusal : Option ℕ → Option RequestError
busy_refusal none = none
busy_refusal (some _) = some busy

abbrev pub scratch_refusal : Types.BufferSlot → ℕ → Option RequestError
scratch_refusal buffer len =
    if slot_number buffer == slot_number library_index then length_refusal len else some stale

-- The error, if any, that a request deserves by what is open alone.
abbrev pub refusal : StorageOwnerProtocol → Request → Option RequestError
refusal p (Request.read _ _ _ len _) = length_refusal len
refusal p (Request.upload_begin _ _ _ _) = busy_refusal p.upload
refusal p (Request.upload_write id _ _ len _ _) = token_refusal p.upload id (length_refusal len)
refusal p (Request.upload_commit id _) = token_refusal p.upload id none
refusal p (Request.upload_abort id) = token_refusal p.upload id none
refusal p Request.scan_start = busy_refusal p.scan
refusal p (Request.scan_prefetch token _) = token_refusal p.scan token none
refusal p (Request.scan_step token _) = token_refusal p.scan token none
refusal p (Request.scan_finish token) = token_refusal p.scan token none
refusal p (Request.scan_cancel token) = token_refusal p.scan token none
refusal p (Request.scratch_write _ _ len buffer) = scratch_refusal buffer len
refusal p (Request.scratch_read _ _ len buffer) = scratch_refusal buffer len
refusal p _ = none

module _ {B E : Type 0} (card : OwnerBackend B E) where
  -- A request whose token is not that of the open scan or upload, that would open a second one, that
  -- wants no bytes or more than 4096, or that names a wrong buffer for the scratch file, is refused
  -- with the error for it, and neither the card, the owner nor the buffer is touched.
  pub execute_refuses :
      (r : Request) (s : Running B) (e : RequestError)
      → refusal s.owner.protocol r ≡ some e
      → execute card r s ≡ (s, err (OwnerError.request e))
  unfolding execute read start_upload write_upload end_upload begin_scan step_scan end_scan
      scratch_range require_scan require_upload validate_len
  execute_refuses _ s e h = ground (arith, h)

  -- An end of the upload that the card refuses leaves the upload open.
  pub end_upload-refused :
      (op : StorageName → B → B × Result E (Unit {0})) (id : ℕ) (s : Running B) (name : StorageName)
      (x : E)
      → is_open s.owner.protocol.upload id ≡ true
      → s.owner.upload_name ≡ some name
      → (op name s.owner.backend).1 ≡ err x
      → ((end_upload card op id s).0.owner
          ≡ record s.owner { backend = (op name s.owner.backend).0 })
        × ((end_upload card op id s).1 ≡ err (OwnerError.backend x))
  unfolding end_upload require_upload
  end_upload-refused op id s name x e n f = ground (arith, e, n, f)

  pub end_upload-stale :
      (op : StorageName → B → B × Result E (Unit {0})) (id : ℕ) (s : Running B)
      → is_open s.owner.protocol.upload id ≡ false
      → end_upload card op id s ≡ (s, err (OwnerError.request stale))
  unfolding end_upload require_upload
  end_upload-stale op id s e = ground (arith, e)
