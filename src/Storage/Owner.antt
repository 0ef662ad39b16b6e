-- ===== src/Storage/Owner.antt =====
-- `StorageOwner` and `StorageOwnerPump` of storage_owner.rs. The card behind the owner, an
-- implementation of the trait `OwnerBackend`, is a parameter: each of its calls takes the state of
-- the backend and returns the new one beside its answer. A handler is a small program over the owner
-- and the buffer that the client lent, which stops at the first error and keeps what it did until
-- then.
pub mod Execute
pub mod Pump
pub mod Uploads
pub mod Exclusive
pub mod Service
pub mod Refused
use binbook.Prelude.{
  ℕ, ◌+◌, Bool, true, false, not, ◌&&◌, Option, none, some, List, [], ◌∷◌, ◌++◌, length, take, drop,
  replicate, leb, ◌==◌, if◌then◌else◌, Result, ok, err,
}
use binbook.Format.Wire.{put}
use binbook.Storage.Types
use binbook.Storage.Types.{
  StorageName, RequestError, busy, stale, BufferSlot, library_index, slot_number, Request,
  StorageClient, library_client, client_eq, ScanProgress, Response, CompletionError, BufferLease,
  OwnedRequest, OwnedResponse, validate_len, scan_batch_bytes, scan_entry_budget,
}
use binbook.Storage.Mailbox.{OwnedMailbox, push, pop, pop_client}
use binbook.Storage.Tokens.{
  StorageOwnerProtocol, new_protocol, start_scan, require_scan, finish_scan, begin_upload,
  require_upload, commit_upload,
}

-- The trait `OwnerBackend`: a call that fills a buffer returns what the buffer holds then.
pub record OwnerBackend (B E : Type 0) : Type 0 where
  pub activate_file : StorageName → ℕ → B → B × Result E ℕ
  pub file_size : StorageName → B → B × Result E ℕ
  pub read_at : StorageName → ℕ → List ℕ → B → B × (List ℕ × Result E (Unit {0}))
  pub upload_begin : StorageName → ℕ → ℕ → B → B × Result E (Unit {0})
  pub upload_write : StorageName → ℕ → List ℕ → B → B × Result E (Unit {0})
  pub upload_commit : StorageName → B → B × Result E (Unit {0})
  pub upload_abort : StorageName → B → B × Result E (Unit {0})
  pub delete : StorageName → B → B × Result E (Unit {0})
  pub scan_start : B → B × Result E (Unit {0})
  pub scan_prefetch : StorageName → B → B × Result E (Unit {0})
  pub scan_step : ℕ → List ℕ → B → B × (List ℕ × Result E ScanProgress)
  pub scan_finish : B → B × Result E (Unit {0})
  pub scan_cancel : B → B × Result E (Unit {0})
  pub scratch_create : B → B × Result E (Unit {0})
  pub scratch_write : ℕ → List ℕ → B → B × Result E (Unit {0})
  pub scratch_read : ℕ → List ℕ → B → B × (List ℕ × Result E (Unit {0}))
  pub scratch_flush : B → B × Result E (Unit {0})
  pub scratch_delete : B → B × Result E (Unit {0})

pub data OwnerError (E : Type 0) : Type 0 where
  request : RequestError → OwnerError E
  backend : E → OwnerError E
  no_buffer : OwnerError E

pub record StorageOwner (B : Type 0) : Type 0 where
  pub backend : B
  pub protocol : StorageOwnerProtocol
  pub upload_name : Option StorageName
  pub upload_client : Option StorageClient

-- `StorageOwner::new`
unfoldable pub new_owner : {B : Type 0} → B → StorageOwner B
unfolding new_protocol
new_owner b = record {
  backend = b;
  protocol = new_protocol;
  upload_name = none;
  upload_client = none;
}

-- The owner and the pool of the one lease, which a handler works on.
pub record Running (B : Type 0) : Type 0 where
  pub owner : StorageOwner B
  pub lease : Option BufferLease

abbrev pub Exec : Type 0 → Type 0 → Type 0 → Type 0
Exec B E A = Running B → Running B × Result (OwnerError E) A

abbrev pub is_none : {A : Type 0} → Option A → Bool
is_none none = true
is_none (some _) = false

abbrev pub from_request : {A E : Type 0} → Result RequestError A → Result (OwnerError E) A
from_request (ok a) = ok a
from_request (err e) = err (request e)

abbrev pub from_backend : {A E : Type 0} → Result E A → Result (OwnerError E) A
from_backend (ok a) = ok a
from_backend (err e) = err (backend e)

-- `buffer_range` over a `LeasePool`
unfoldable pub buffer_range : Option BufferLease → BufferSlot → ℕ → ℕ → Option (List ℕ)
buffer_range none slot offset len = none
buffer_range (some lease) slot offset len =
    if slot_number lease.slot == slot_number slot && leb (offset + len) (length lease.bytes)
    then some (take len (drop offset lease.bytes))
    else none

abbrev pub put_back : ℕ → List ℕ → Option BufferLease → Option BufferLease
put_back offset bytes none = none
put_back offset bytes (some lease) = some (record lease { bytes = put offset bytes lease.bytes })

module _ {B E : Type 0} where
  abbrev pub bind_result :
      {A C : Type 0}
      → Running B × Result (OwnerError E) A
      → (A → Exec B E C)
      → Running B × Result (OwnerError E) C
  bind_result (s, ok a) f = f a s
  bind_result (s, err e) f = (s, err e)

  infixl 5 ◌>>=◌
  abbrev pub ◌>>=◌ : {A C : Type 0} → Exec B E A → (A → Exec B E C) → Exec B E C
  (m >>= f) s = bind_result (m s) f

  abbrev pub return : {A : Type 0} → A → Exec B E A
  return a s = (s, ok a)

  -- `map_err(OwnerError::Request)?`
  abbrev pub lift : {A : Type 0} → Result RequestError A → Exec B E A
  lift r s = (s, from_request r)

  -- A test that returns `Err(OwnerError::Request(e))` where it fails.
  abbrev pub ensure : Bool → RequestError → Exec B E (Unit {0})
  ensure test e s = (s, if test then ok tt else err (request e))

  -- A call of the backend with `map_err(OwnerError::Backend)?`
  abbrev pub call : {A : Type 0} → (B → B × Result E A) → Exec B E A
  call op s =
      let (b, answer) = op s.owner.backend in
      (record s { owner = record s.owner { backend = b } }, from_backend answer)

  unfoldable pub range : BufferSlot → ℕ → ℕ → Exec B E (List ℕ)
  unfolding buffer_range
  range slot offset len s = (
    s,
    elim (buffer_range s.lease slot offset len) [ none ↦ err no_buffer | some bytes ↦ ok bytes ],
  )

  -- A call that fills the part of the buffer behind `offset`.
  abbrev pub call_filling :
      {A : Type 0} → ℕ → List ℕ → (List ℕ → B → B × (List ℕ × Result E A)) → Exec B E A
  call_filling offset out op s =
      let (b, (filled, answer)) = op out s.owner.backend in
      (
        record { owner = record s.owner { backend = b }; lease = put_back offset filled s.lease },
        from_backend answer,
      )

  -- A method of the protocol, with `map_err(OwnerError::Request)?`
  abbrev pub with_protocol :
      {A : Type 0}
      → (StorageOwnerProtocol → StorageOwnerProtocol × Result RequestError A)
      → Exec B E A
  with_protocol f s =
      let (p, answer) = f s.owner.protocol in
      lift answer (record s { owner = record s.owner { protocol = p } })

  abbrev pub get_protocol : Exec B E StorageOwnerProtocol
  get_protocol s = (s, ok s.owner.protocol)

  abbrev pub set_upload_name : Option StorageName → Exec B E (Unit {0})
  set_upload_name name s = (record s { owner = record s.owner { upload_name = name } }, ok tt)

  -- `self.upload_name.as_ref().ok_or(OwnerError::Request(RequestError::Stale))?`
  abbrev pub get_upload_name : Exec B E StorageName
  get_upload_name s =
      (s, elim s.owner.upload_name [ none ↦ err (request stale) | some name ↦ ok name ])
