-- ===== src/Storage/Mounted.antt =====
-- The uploads of `MountedStorageOwnerBackend` of storage_owner.rs. What the backend does with the
-- mounted card beside them, `rest`, and the calls of the card itself are parameters: each takes the
-- state of the card, with the caches of the backend, and returns the new one beside its answer.
pub mod Stuck
pub mod Blocked
use binbook.Prelude.{
  ℕ, Bool, true, false, not, ◌==◌, Option, none, some, List, Result, ok, err, if◌then◌else◌,
}
use binbook.Storage.Types.{StorageName}
use binbook.Storage.Owner.{OwnerBackend}

pub record ActiveUpload (Session Journal : Type 0) : Type 0 where
  pub name : StorageName
  pub session : Session
  pub expected : ℕ
  pub journal : Option Journal

-- The calls of the card, with the error of the size check.
pub record CardCalls (S Session Journal E : Type 0) : Type 0 where
  pub upload_size_mismatch : E
  pub same_name : StorageName → StorageName → Bool
  pub is_metadata : StorageName → Bool
  -- What `upload_begin` does until it has a session: recovery, the directory and the journal.
  pub open_session : StorageName → ℕ → ℕ → S → S × Result E (Session × Option Journal)
  pub write_at : Session → ℕ → List ℕ → S → S × Result E Session
  pub flush : Session → S → S × Result E Session
  pub session_size : Session → S → S × Result E ℕ
  -- `metadata_reads.clear()` and the push of the session that reads from then on.
  pub keep_for_reading : StorageName → Session → S → S × Result E (Unit {0})
  pub publish_book_upload : Journal → S → S × Result E (Unit {0})
  -- `metadata_reads.clear()` or `active_read = None`.
  pub forget_reads : StorageName → S → S
  pub delete_metadata : StorageName → S → S × Result E (Unit {0})
  pub abort_book_upload : Journal → S → S × Result E (Unit {0})

pub record Mounted (S Session Journal : Type 0) : Type 0 where
  pub card : S
  pub active_upload : Option (ActiveUpload Session Journal)

module _ {S Session Journal E : Type 0} (c : CardCalls S Session Journal E) where
  abbrev pub Call : Type 0
  Call = Mounted S Session Journal → Mounted S Session Journal × Result E (Unit {0})

  -- A call of the card in the state behind `m`, whose answer the handler goes on with or returns.
  abbrev pub on_card :
      {A : Type 0}
      → S × Result E A
      → Option (ActiveUpload Session Journal)
      → (A → S → Mounted S Session Journal × Result E (Unit {0}))
      → Mounted S Session Journal × Result E (Unit {0})
  on_card (s, err e) active next = (record { card = s; active_upload = active }, err e)
  on_card (s, ok a) active next = next a s

  unfoldable pub upload_begin : StorageName → ℕ → ℕ → Call
  upload_begin name expected_size expected_crc32 m =
      on_card (c.open_session name expected_size expected_crc32 (c.forget_reads name m.card))
        m.active_upload
        λ (session, journal) s. (
          record {
            card = s;
            active_upload = some (record {
              name = name;
              session = session;
              expected = expected_size;
              journal = journal;
            });
          },
          ok tt,
        )

  unfoldable pub upload_write : StorageName → ℕ → List ℕ → Call
  upload_write name offset bytes m = elim m.active_upload [
    | none ↦ (m, err c.upload_size_mismatch)
    | some u ↦
        if not (c.same_name u.name name)
        then (m, err c.upload_size_mismatch)
        else on_card (c.write_at u.session offset bytes m.card) (some u) λ session s.
          (record { card = s; active_upload = some (record u { session = session }) }, ok tt)
  ]

  -- `publish_book_upload` of the journal, which a book has.
  unfoldable pub publish_journal :
      Option Journal → S → Mounted S Session Journal × Result E (Unit {0})
  publish_journal none s = (record { card = s; active_upload = none }, err c.upload_size_mismatch)
  publish_journal (some j) s =
      on_card (c.publish_book_upload j s) none
        λ _ s'. (record { card = s'; active_upload = none }, ok tt)

  -- What `upload_commit` does with the session that it took, once it is flushed and measured.
  unfoldable pub publish_sized :
      ActiveUpload Session Journal
      → Session
      → ℕ
      → S
      → Mounted S Session Journal × Result E (Unit {0})
  unfolding publish_journal
  publish_sized u session actual s =
      if not (u.expected == actual)
      then (record { card = s; active_upload = none }, err c.upload_size_mismatch)
      else if c.is_metadata u.name
      then (on_card (c.keep_for_reading u.name session s) none
          λ _ s'. (record { card = s'; active_upload = none }, ok tt))
      else publish_journal u.journal s

  unfoldable pub publish : StorageName → ActiveUpload Session Journal → Call
  unfolding publish_sized
  publish name u m =
      if not (c.same_name u.name name)
      then (m, err c.upload_size_mismatch)
      else on_card (c.flush u.session m.card) none λ session s.
        on_card (c.session_size session s) none λ actual s'. publish_sized u session actual s'

  -- `self.active_upload.take()` comes before every check.
  unfoldable pub upload_commit : StorageName → Call
  unfolding publish
  upload_commit name m = elim m.active_upload [
    | none ↦ (m, err c.upload_size_mismatch)
    | some u ↦ publish name u (record m { active_upload = none })
  ]

  unfoldable pub discard_journal : Option Journal → Call
  discard_journal none m = (m, err c.upload_size_mismatch)
  discard_journal (some j) m =
      on_card (c.abort_book_upload j m.card) none
        λ _ s. (record { card = s; active_upload = none }, ok tt)

  -- What `upload_abort` does with the upload that it took.
  unfoldable pub discard : StorageName → ActiveUpload Session Journal → Call
  unfolding discard_journal
  discard name u m =
      if not (c.same_name u.name name)
      then (m, err c.upload_size_mismatch)
      else if c.is_metadata name
      then (on_card (c.delete_metadata name m.card) none
          λ _ s. (record { card = s; active_upload = none }, ok tt))
      else discard_journal u.journal m

  unfoldable pub upload_abort : StorageName → Call
  unfolding discard
  upload_abort name m =
      let forgotten = c.forget_reads name m.card in
      elim m.active_upload [
        | none ↦ (record m { card = forgotten }, err c.upload_size_mismatch)
        | some u ↦ discard name u (record { card = forgotten; active_upload = none })
      ]

  -- A call that leaves the upload alone.
  abbrev pub beside :
      {A : Type 0} → (S → S × A) → Mounted S Session Journal → Mounted S Session Journal × A
  beside op m = let (s, a) = op m.card in (record m { card = s }, a)

  -- The whole backend, with `rest` for the calls that have nothing to do with uploads.
  unfoldable pub backend : OwnerBackend S E → OwnerBackend (Mounted S Session Journal) E
  unfolding upload_begin upload_write upload_commit upload_abort
  backend rest = record {
    activate_file = λ name token. beside (rest.activate_file name token);
    file_size = λ name. beside (rest.file_size name);
    read_at = λ name offset out. beside (rest.read_at name offset out);
    upload_begin = upload_begin;
    upload_write = upload_write;
    upload_commit = upload_commit;
    upload_abort = upload_abort;
    delete = λ name. beside (rest.delete name);
    scan_start = beside rest.scan_start;
    scan_prefetch = λ name. beside (rest.scan_prefetch name);
    scan_step = λ budget out. beside (rest.scan_step budget out);
    scan_finish = beside rest.scan_finish;
    scan_cancel = beside rest.scan_cancel;
    scratch_create = beside rest.scratch_create;
    scratch_write = λ offset bytes. beside (rest.scratch_write offset bytes);
    scratch_read = λ offset out. beside (rest.scratch_read offset out);
    scratch_flush = beside rest.scratch_flush;
    scratch_delete = beside rest.scratch_delete;
  }
