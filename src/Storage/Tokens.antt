-- ===== src/Storage/Tokens.antt =====
-- `StorageOwnerProtocol` of storage_owner.rs: the one scan and the one upload that may be open, each
-- named by a token that the client must show. A method on `&mut self` returns the new state beside
-- its result.
use binbook.Prelude.{
  ℕ, ◌+◌, ◌%◌, ◌^◌, max, Bool, false, Option, none, some, ◌==◌, if◌then◌else◌, Result, ok, err,
}
use binbook.Storage.Types.{RequestError, busy, stale}

pub record StorageOwnerProtocol : Type 0 where
  pub scan : Option ℕ
  pub next_scan : ℕ
  pub upload : Option ℕ
  pub next_upload : ℕ

-- `StorageOwnerProtocol::new`
unfoldable pub new_protocol : StorageOwnerProtocol
new_protocol = record { scan = none; next_scan = 1; upload = none; next_upload = 1 }

-- `wrapping_add(1).max(1)` on a `u32`
unfoldable pub next_token : ℕ → ℕ
next_token n = max ((n + 1) % 2 ^ 32) 1

-- `self.scan == Some(token)`
abbrev pub is_open : Option ℕ → ℕ → Bool
is_open none token = false
is_open (some t) token = t == token

unfoldable pub start_scan : StorageOwnerProtocol → StorageOwnerProtocol × Result RequestError ℕ
unfolding next_token
start_scan s = elim s.scan [
  | some _ ↦ (s, err busy)
  | none ↦
      (record s { scan = some s.next_scan; next_scan = next_token s.next_scan }, ok s.next_scan)
]

-- `require_scan` and `validate_scan`
unfoldable pub require_scan : StorageOwnerProtocol → ℕ → Result RequestError (Unit {0})
require_scan s token = if is_open s.scan token then ok tt else err stale

-- `finish_scan` and `cancel_scan`
unfoldable pub finish_scan :
    StorageOwnerProtocol → ℕ → StorageOwnerProtocol × Result RequestError (Unit {0})
unfolding require_scan
finish_scan s token = elim (require_scan s token) [
  | err e ↦ (s, err e)
  | ok _ ↦ (record s { scan = none }, ok tt)
]

unfoldable pub begin_upload : StorageOwnerProtocol → StorageOwnerProtocol × Result RequestError ℕ
unfolding next_token
begin_upload s = elim s.upload [
  | some _ ↦ (s, err busy)
  | none ↦ (
    record s { upload = some s.next_upload; next_upload = next_token s.next_upload },
    ok s.next_upload,
  )
]

-- `require_upload` and `validate_upload`
unfoldable pub require_upload : StorageOwnerProtocol → ℕ → Result RequestError (Unit {0})
require_upload s id = if is_open s.upload id then ok tt else err stale

-- `commit_upload` and `abort_upload`
unfoldable pub commit_upload :
    StorageOwnerProtocol → ℕ → StorageOwnerProtocol × Result RequestError (Unit {0})
unfolding require_upload
commit_upload s id = elim (require_upload s id) [
  | err e ↦ (s, err e)
  | ok _ ↦ (record s { upload = none }, ok tt)
]
