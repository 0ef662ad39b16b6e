-- ===== src/Storage/Owner/Execute.antt =====
-- `StorageOwner::execute` and `execute_owned` of storage_owner.rs, with a handler for each request
-- whose arm does more than call the backend.
use binbook.Prelude.{
  ℕ, Bool, true, false, not, ◌&&◌, Option, none, some, List, replicate, ◌==◌, if◌then◌else◌, Result,
  ok, err,
}
use binbook.Storage.Types.{
  StorageName, busy, stale, BufferSlot, library_index, slot_number, Request, StorageClient,
  library_client, client_eq, Response, ack, size_of, read_bytes, written, upload_started,
  scan_started, scan_progress, CompletionError, request_error, backend_error, buffer_unavailable,
  OwnedRequest, OwnedResponse, validate_len, scan_batch_bytes, scan_entry_budget,
}
use binbook.Storage.Tokens.{
  start_scan, require_scan, finish_scan, begin_upload, require_upload, commit_upload,
}
use binbook.Storage.Owner.{
  OwnerBackend, OwnerError, StorageOwner, Running, Exec, is_none, ensure, ◌>>=◌, return, lift, call,
  range, call_filling, with_protocol, get_protocol, set_upload_name, get_upload_name,
}

module _ {B E : Type 0} (card : OwnerBackend B E) where
  -- `Request::Read`
  unfoldable pub read : StorageName → ℕ → ℕ → ℕ → BufferSlot → Exec B E Response
  unfolding validate_len range
  read name offset buffer_offset len buffer = do
    _ ← lift (validate_len len)
    out ← range buffer buffer_offset len
    _ ← call_filling buffer_offset out (card.read_at name offset)
    return (read_bytes len)

  -- `Request::UploadBegin`
  unfoldable pub start_upload : StorageName → ℕ → ℕ → Exec B E Response
  unfolding begin_upload
  start_upload name expected_size expected_crc32 = do
    protocol ← get_protocol
    _ ← ensure (is_none protocol.upload) busy
    _ ← call (card.upload_begin name expected_size expected_crc32)
    id ← with_protocol begin_upload
    _ ← set_upload_name (some name)
    return (upload_started id)

  -- `Request::UploadWrite`
  unfoldable pub write_upload : ℕ → ℕ → ℕ → ℕ → BufferSlot → Exec B E Response
  unfolding require_upload validate_len range
  write_upload upload_id offset buffer_offset len buffer = do
    protocol ← get_protocol
    _ ← lift (require_upload protocol upload_id)
    _ ← lift (validate_len len)
    bytes ← range buffer buffer_offset len
    name ← get_upload_name
    _ ← call (card.upload_write name offset bytes)
    return (written len)

  -- `Request::UploadCommit` and `Request::UploadAbort`, which differ in the call of the backend.
  unfoldable pub end_upload : (StorageName → B → B × Result E (Unit {0})) → ℕ → Exec B E Response
  unfolding require_upload commit_upload
  end_upload op upload_id = do
    protocol ← get_protocol
    _ ← lift (require_upload protocol upload_id)
    name ← get_upload_name
    _ ← call (op name)
    _ ← with_protocol (λ p. commit_upload p upload_id)
    _ ← set_upload_name none
    return ack

  -- `Request::ScanStart`
  unfoldable pub begin_scan : Exec B E Response
  unfolding start_scan
  begin_scan = do
    protocol ← get_protocol
    _ ← ensure (is_none protocol.scan) busy
    _ ← call card.scan_start
    token ← with_protocol start_scan
    return (scan_started token)

  -- `Request::ScanStep`: the buffer is cleared before the backend fills it.
  unfoldable pub step_scan : ℕ → BufferSlot → Exec B E Response
  unfolding require_scan range
  step_scan token buffer = do
    protocol ← get_protocol
    _ ← lift (require_scan protocol token)
    _ ← range buffer 0 scan_batch_bytes
    progress ← call_filling 0 (replicate scan_batch_bytes 0) (card.scan_step scan_entry_budget)
    return (scan_progress progress)

  -- `Request::ScanFinish` and `Request::ScanCancel`, which differ in the call of the backend.
  unfoldable pub end_scan : (B → B × Result E (Unit {0})) → ℕ → Exec B E Response
  unfolding require_scan finish_scan
  end_scan op token = do
    protocol ← get_protocol
    _ ← lift (require_scan protocol token)
    _ ← call op
    _ ← with_protocol (λ p. finish_scan p token)
    return ack

  -- The guards of `LibraryScratchWrite` and `LibraryScratchRead`.
  unfoldable pub scratch_range : ℕ → ℕ → BufferSlot → Exec B E (List ℕ)
  unfolding validate_len range
  scratch_range buffer_offset len buffer = do
    _ ← ensure (slot_number buffer == slot_number library_index) stale
    _ ← lift (validate_len len)
    range buffer buffer_offset len

  unfoldable pub execute : Request → Exec B E Response
  unfolding read start_upload write_upload end_upload begin_scan step_scan end_scan scratch_range
      require_scan
  execute (Request.activate_file name token) = do
    size ← call (card.activate_file name token)
    return (size_of size)
  execute (Request.file_size name) = do size ← call (card.file_size name); return (size_of size)
  execute (Request.read name offset buffer_offset len buffer) =
      read name offset buffer_offset len buffer
  execute (Request.upload_begin name expected_size expected_crc32 power_save) =
      start_upload name expected_size expected_crc32
  execute (Request.upload_write upload_id offset buffer_offset len buffer power_save) =
      write_upload upload_id offset buffer_offset len buffer
  execute (Request.upload_commit upload_id power_save) = end_upload card.upload_commit upload_id
  execute (Request.upload_abort upload_id) = end_upload card.upload_abort upload_id
  execute (Request.delete name) = do _ ← call (card.delete name); return ack
  execute Request.scan_start = begin_scan
  execute (Request.scan_prefetch token name) = do
    protocol ← get_protocol
    _ ← lift (require_scan protocol token)
    _ ← call (card.scan_prefetch name)
    return ack
  execute (Request.scan_step token buffer) = step_scan token buffer
  execute (Request.scan_finish token) = end_scan card.scan_finish token
  execute (Request.scan_cancel token) = end_scan card.scan_cancel token
  execute Request.scratch_create = do _ ← call card.scratch_create; return ack
  execute (Request.scratch_write offset buffer_offset len buffer) = do
    bytes ← scratch_range buffer_offset len buffer
    _ ← call (card.scratch_write offset bytes)
    return (written len)
  execute (Request.scratch_read offset buffer_offset len buffer) = do
    out ← scratch_range buffer_offset len buffer
    _ ← call_filling buffer_offset out (card.scratch_read offset)
    return (read_bytes len)
  execute Request.scratch_flush = do _ ← call card.scratch_flush; return ack
  execute Request.scratch_delete = do _ ← call card.scratch_delete; return ack

-- The tests of `execute_owned` on the kind of a request.
abbrev pub library_scratch : Request → Bool
library_scratch Request.scratch_create = true
library_scratch (Request.scratch_write _ _ _ _) = true
library_scratch (Request.scratch_read _ _ _ _) = true
library_scratch Request.scratch_flush = true
library_scratch Request.scratch_delete = true
library_scratch _ = false

abbrev pub begins_upload : Request → Bool
begins_upload (Request.upload_begin _ _ _ _) = true
begins_upload _ = false

abbrev pub ends_upload : Request → Bool
ends_upload (Request.upload_commit _ _) = true
ends_upload (Request.upload_abort _) = true
ends_upload _ = false

abbrev pub completion :
    {E : Type 0} → Result (OwnerError E) Response → Result CompletionError Response
completion (ok r) = ok r
completion (err (OwnerError.request e)) = err (request_error e)
completion (err (OwnerError.backend e)) = err backend_error
completion (err OwnerError.no_buffer) = err buffer_unavailable

-- The client that has the upload, after a request that was answered.
abbrev pub next_upload_client :
    {A : Type 0}
    → Request
    → StorageClient
    → Result CompletionError A
    → Option StorageClient
    → Option StorageClient
next_upload_client r client (err e) before = before
next_upload_client r client (ok a) before =
    if begins_upload r then some client else if ends_upload r then none else before

abbrev pub answer_owned :
    {B : Type 0}
    → OwnedRequest
    → Running B
    → Result CompletionError Response
    → StorageOwner B × OwnedResponse
answer_owned r s response = (
  record s.owner {
    upload_client =
        next_upload_client r.envelope.request r.envelope.client response s.owner.upload_client;
  },
  record {
    envelope = record {
      client = r.envelope.client;
      sequence = r.envelope.sequence;
      response = response;
    };
    buffer = s.lease;
  },
)

module _ {B E : Type 0} (card : OwnerBackend B E) where
  unfoldable pub execute_owned : StorageOwner B → OwnedRequest → StorageOwner B × OwnedResponse
  unfolding execute
  execute_owned owner r =
      let start : Running B = record { owner = owner; lease = r.buffer } in
      if library_scratch r.envelope.request && not (client_eq r.envelope.client library_client)
      then answer_owned r start (err (request_error stale))
      else let (s, answer) = execute card r.envelope.request start in
        answer_owned r s (completion answer)
