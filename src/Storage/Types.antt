-- ===== src/Storage/Types.antt =====
-- The requests, answers and envelopes of storage_owner.rs, and `MountFileToken` of library.rs.
-- A file name is the list of its UTF-8 bytes; a token of a mounted file is a number, never 0.
use binbook.Prelude.{
  ℕ, ◌+◌, ◌-◌, ◌*◌, ◌/◌, ◌%◌, ◌^◌, Bool, true, false, ◌||◌, Option, none, some, List, length, ltb,
  leb, ◌==◌, if◌then◌else◌, Result, ok, err,
}

abbrev pub max_bounded_io_bytes : ℕ
max_bounded_io_bytes = 4096

abbrev pub scan_entry_budget : ℕ
scan_entry_budget = 8

abbrev pub max_binbook_name_bytes : ℕ
max_binbook_name_bytes = 121

abbrev pub scan_record_bytes : ℕ
scan_record_bytes = 1 + max_binbook_name_bytes + 8 + 2

abbrev pub scan_batch_bytes : ℕ
scan_batch_bytes = scan_record_bytes * scan_entry_budget

pub data RequestError : Type 0 where
  name_too_long empty too_large busy stale : RequestError

abbrev pub StorageName : Type 0
StorageName = List ℕ

-- `StorageName::new`: the fixed string refuses more than its capacity.
unfoldable pub new_storage_name : List ℕ → Result RequestError StorageName
new_storage_name value =
    if leb (length value) max_binbook_name_bytes then ok value else err name_too_long

-- `MountFileToken::new`
unfoldable pub new_mount_token : ℕ → Option ℕ
new_mount_token value = if value == 0 then none else some value

-- `for_mount_entry`. The index plus one is below 256, so the or of the two bytes is their sum.
unfoldable pub for_mount_entry : ℕ → ℕ → Option ℕ
unfolding new_mount_token
for_mount_entry generation index =
    if generation == 0 || leb 200 index
    then none
    else new_mount_token (generation * 2 ^ 8 + (index + 1))

unfoldable pub mount_generation : ℕ → ℕ
mount_generation token = token / 2 ^ 8

unfoldable pub entry_index : ℕ → Option ℕ
entry_index token =
    let encoded = token % 2 ^ 8 in
    if encoded == 0 || ltb 200 encoded then none else some (encoded - 1)

pub data BufferSlot : Type 0 where
  reader state diagnostic library_index bulk0 bulk1 bulk2 bulk3 : BufferSlot

-- `BufferSlot::bulk`
unfoldable pub bulk : ℕ → Option BufferSlot
bulk index =
    if index == 0
    then some bulk0
    else if index == 1
    then some bulk1
    else if index == 2
    then some bulk2
    else if index == 3
    then some bulk3
    else none

unfoldable pub bulk_index : BufferSlot → Option ℕ
bulk_index bulk0 = some 0
bulk_index bulk1 = some 1
bulk_index bulk2 = some 2
bulk_index bulk3 = some 3
bulk_index _ = none

-- The derived `==` of `BufferSlot`.
abbrev pub slot_number : BufferSlot → ℕ
slot_number reader = 0
slot_number state = 1
slot_number diagnostic = 2
slot_number library_index = 3
slot_number bulk0 = 4
slot_number bulk1 = 5
slot_number bulk2 = 6
slot_number bulk3 = 7

-- Each with the fields of the source, in its order.
pub data Request : Type 0 where
  activate_file : StorageName → ℕ → Request
  file_size delete : StorageName → Request
  read : StorageName → ℕ → ℕ → ℕ → BufferSlot → Request
  upload_begin : StorageName → ℕ → ℕ → Bool → Request
  upload_write : ℕ → ℕ → ℕ → ℕ → BufferSlot → Bool → Request
  upload_commit : ℕ → Bool → Request
  upload_abort : ℕ → Request
  scan_start : Request
  scan_prefetch : ℕ → StorageName → Request
  scan_step : ℕ → BufferSlot → Request
  scan_finish scan_cancel : ℕ → Request
  scratch_create scratch_flush scratch_delete : Request
  scratch_write scratch_read : ℕ → ℕ → ℕ → BufferSlot → Request

-- `RequestPriority`, whose derived order is that of the numbers.
abbrev pub background : ℕ
background = 0

abbrev pub foreground : ℕ
foreground = 1

abbrev pub power_save : ℕ
power_save = 2

abbrev pub control : ℕ
control = 3

unfoldable pub priority : Request → ℕ
priority scan_start = background
priority (scan_prefetch _ _) = background
priority (scan_step _ _) = background
priority (scan_finish _) = background
priority (scan_cancel _) = background
priority scratch_create = background
priority (scratch_write _ _ _ _) = background
priority (scratch_read _ _ _ _) = background
priority scratch_flush = background
priority scratch_delete = background
priority (upload_abort _) = control
priority (upload_begin _ _ _ true) = power_save
priority (upload_write _ _ _ _ _ true) = power_save
priority (upload_commit _ true) = power_save
priority _ = foreground

unfoldable pub validate_len : ℕ → Result RequestError (Unit {0})
validate_len len =
    if len == 0 then err empty else if ltb max_bounded_io_bytes len then err too_large else ok tt

pub data StorageClient : Type 0 where
  reader_client state_client diagnostic_client library_client : StorageClient

-- The derived `==` of `StorageClient`.
abbrev pub client_eq : StorageClient → StorageClient → Bool
client_eq reader_client reader_client = true
client_eq state_client state_client = true
client_eq diagnostic_client diagnostic_client = true
client_eq library_client library_client = true
client_eq _ _ = false

pub record ScanProgress : Type 0 where
  pub entries : ℕ
  pub complete : Bool
  pub unsupported_name : Bool

pub data Response : Type 0 where
  ack : Response
  size_of read_bytes written upload_started scan_started : ℕ → Response
  scan_progress : ScanProgress → Response

pub data CompletionError : Type 0 where
  request_error : RequestError → CompletionError
  backend_error buffer_unavailable : CompletionError

pub record RequestEnvelope : Type 0 where
  pub client : StorageClient
  pub sequence : ℕ
  pub request : Request

pub record ResponseEnvelope : Type 0 where
  pub client : StorageClient
  pub sequence : ℕ
  pub response : Result CompletionError Response

pub record BufferLease : Type 0 where
  pub slot : BufferSlot
  pub bytes : List ℕ

pub record OwnedRequest : Type 0 where
  pub envelope : RequestEnvelope
  pub buffer : Option BufferLease

pub record OwnedResponse : Type 0 where
  pub envelope : ResponseEnvelope
  pub buffer : Option BufferLease

-- `ResponseEnvelope::failure`
unfoldable pub failure : RequestEnvelope → CompletionError → ResponseEnvelope
failure r error = record { client = r.client; sequence = r.sequence; response = err error }

unfoldable pub reject_owned_request : OwnedRequest → CompletionError → OwnedResponse
unfolding failure
reject_owned_request r error = record { envelope = failure r.envelope error; buffer = r.buffer }
