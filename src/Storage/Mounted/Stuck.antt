-- ===== src/Storage/Mounted/Stuck.antt =====
-- What storage_owner.rs does after the card refused to commit an upload.
use binbook.Prelude.{
  ℕ, ◌≡◌, refl, sym, ap, ◌∙◌, inl, inr, Bool, true, false, not, ◌==◌, ◌&&◌, Option, none, some,
  List, Result, ok, err, Bool-cases, Option-cases, arith,
}
use binbook.Storage.Types
use binbook.Storage.Types.{
  StorageName, busy, stale, Request, StorageClient, client_eq, library_client, OwnedRequest,
  backend_error, request_error,
}
use binbook.Storage.Tokens.{is_open}
use binbook.Storage.Owner.{OwnerBackend, OwnerError, StorageOwner, Running, is_none}
use binbook.Storage.Owner.Execute.{
  end_upload, execute, execute_owned, library_scratch, answer_owned, completion, begins_upload,
  ends_upload,
}
use binbook.Storage.Owner.Uploads.{upload_view, view, Leaves, Looks, execute-Keeps}
use binbook.Storage.Owner.Refused.{execute_refuses, end_upload-refused, end_upload-stale}
use binbook.Storage.Owner.Exclusive.{
  begins, commits, aborts, neither, upload_kind, kept_client, plain_client,
}
use binbook.Storage.Mounted.{
  ActiveUpload, CardCalls, Mounted, on_card, upload_write, publish_journal, publish_sized, publish,
  upload_commit, upload_abort, backend,
}

module _ {S Session Journal E : Type 0} (c : CardCalls S Session Journal E) where
  -- Whether the backend has lost its upload.
  abbrev pub lost : Mounted S Session Journal → Bool
  lost m = is_none m.active_upload

  on_card-lost :
      {A : Type 0} (r : S × Result E A)
      (next : A → S → Mounted S Session Journal × Result E (Unit {0}))
      → ((a : A) (s : S) → lost (next a s).0 ≡ true)
      → lost (on_card c r none next).0 ≡ true
  on_card-lost (s, ok a) next h = h a s
  on_card-lost (s, err e) next h = refl

  publish_journal-lost : (j : Option Journal) (s : S) → lost (publish_journal c j s).0 ≡ true
  unfolding publish_journal
  publish_journal-lost none s = refl
  publish_journal-lost (some j) s = on_card-lost (c.publish_book_upload j s) _ λ _ _. refl

  publish_sized-lost :
      (u : ActiveUpload Session Journal) (session : Session) (actual : ℕ) (s : S)
      → lost (publish_sized c u session actual s).0 ≡ true
  unfolding publish_sized
  publish_sized-lost u session actual s = elim (Bool-cases (not (u.expected == actual))) [
    | inl e ↦ rw e refl
    | inr e ↦ elim (Bool-cases (c.is_metadata u.name)) [
      | inl f ↦ rw (e, f) (on_card-lost (c.keep_for_reading u.name session s) _ λ _ _. refl)
      | inr f ↦ rw (e, f) (publish_journal-lost u.journal s)
    ]
  ]

  publish-lost :
      (name : StorageName) (u : ActiveUpload Session Journal) (m : Mounted S Session Journal)
      → lost m ≡ true
      → lost (publish c name u m).0 ≡ true
  unfolding publish
  publish-lost name u m h = elim (Bool-cases (not (c.same_name u.name name))) [
    | inl e ↦ rw e h
    | inr e ↦ rw e (
        on_card-lost (c.flush u.session m.card) _ λ session s.
          on_card-lost (c.session_size session s) _
            λ actual s'. publish_sized-lost u session actual s')
  ]

  pub upload_commit-lost :
      (name : StorageName) (m : Mounted S Session Journal) → lost (upload_commit c name m).0 ≡ true
  unfolding upload_commit
  upload_commit-lost name m = elim (Option-cases m.active_upload) [
    | inl e ↦ rw e refl
    | inr (u, e) ↦ rw e (publish-lost name u (record m { active_upload = none }) refl)
  ]

  lost-none : (m : Mounted S Session Journal) → lost m ≡ true → m.active_upload ≡ none
  lost-none m h = elim (Option-cases m.active_upload) [ inl e ↦ e | inr (u, e) ↦ absurd (cc) ]

  write_leaves :
      (name : StorageName) (offset : ℕ) (bytes : List ℕ)
      → Leaves lost (upload_write c name offset bytes)
  unfolding upload_write
  write_leaves name offset bytes m = ground arith

  module _ (rest : OwnerBackend S E) where
    lost_looked : Looks (backend c rest) lost
    unfolding backend
    lost_looked = record {
      activate_file = λ _ _ _. refl;
      file_size = λ _ _. refl;
      read_at = λ _ _ _ _. refl;
      upload_write = write_leaves;
      delete = λ _ _. refl;
      scan_start = λ _. refl;
      scan_prefetch = λ _ _. refl;
      scan_step = λ _ _ _. refl;
      scan_finish = λ _. refl;
      scan_cancel = λ _. refl;
      scratch_create = λ _. refl;
      scratch_write = λ _ _ _. refl;
      scratch_read = λ _ _ _. refl;
      scratch_flush = λ _. refl;
      scratch_delete = λ _. refl;
    }

    -- The owner has an upload open of which the backend knows nothing.
    pub record Stuck (client : StorageClient) (o : StorageOwner (Mounted S Session Journal))
        : Type 0 where
      pub id : ℕ
      pub name : StorageName
      pub open_view : view lost o ≡ (true, (some id, (some name, some client)))

    -- An answered request keeps the owner stuck where its view is kept and it failed or was neither
    -- the begin nor the end of an upload.
    kept-Stuck :
        (client : StorageClient) (o next : StorageOwner (Mounted S Session Journal))
        → view lost next ≡ view lost o
        → Stuck client o
        → Stuck client next
    kept-Stuck client o next e h = record { id = h.id; name = h.name; open_view = e ∙ h.open_view }

    upload_name-open :
        (client : StorageClient) (o : StorageOwner (Mounted S Session Journal)) (h : Stuck client o)
        → o.upload_name ≡ some h.name
    upload_name-open client o h = ap (λ v. v.1.1.0) h.open_view

    protocol-open :
        (client : StorageClient) (o : StorageOwner (Mounted S Session Journal)) (h : Stuck client o)
        → o.protocol.upload ≡ some h.id
    protocol-open client o h = ap (λ v. v.1.0) h.open_view

    -- The card forgets what it reads from, at most, and refuses.
    commit-none :
        (name : StorageName) (m : Mounted S Session Journal)
        → m.active_upload ≡ none
        → (lost (upload_commit c name m).0 ≡ true)
          × ((upload_commit c name m).1 ≡ err c.upload_size_mismatch)
    unfolding upload_commit
    commit-none name m e = ground (arith, e)

    abort-none :
        (name : StorageName) (m : Mounted S Session Journal)
        → m.active_upload ≡ none
        → (lost (upload_abort c name m).0 ≡ true)
          × ((upload_abort c name m).1 ≡ err c.upload_size_mismatch)
    unfolding upload_abort
    abort-none name m e = ground (arith, e)

    -- An answer that is an error and keeps what is looked at.
    record Fails (s : Running (Mounted S Session Journal))
        (out : Running (Mounted S Session Journal) × Result (OwnerError E) Types.Response)
        : Type 0 where
      error : OwnerError E
      answer : out.1 ≡ err error
      same : view lost out.0.owner ≡ view lost s.owner

    untouched :
        (s : Running (Mounted S Session Journal))
        (out : Running (Mounted S Session Journal) × Result (OwnerError E) Types.Response)
        (e : OwnerError E)
        → out ≡ (s, err e)
        → Fails s out
    untouched s out e q = rw q (record { error = e; answer = refl; same = refl })

    begin-Fails :
        (client : StorageClient) (s : Running (Mounted S Session Journal)) (name : StorageName)
        (size crc : ℕ) (p : Bool)
        → Stuck client s.owner
        → Fails s (execute (backend c rest) (Request.upload_begin name size crc p) s)
    begin-Fails client s name size crc p h = untouched s _ (OwnerError.request busy) (
        execute_refuses (backend c rest) (Request.upload_begin name size crc p) s busy
          (rw (protocol-open client s.owner h) refl))

    end-Fails :
        (client : StorageClient) (s : Running (Mounted S Session Journal)) (id : ℕ)
        (op : StorageName
          → Mounted S Session Journal
          → Mounted S Session Journal × Result E (Unit {0}))
        → Stuck client s.owner
        → ((name : StorageName) (m : Mounted S Session Journal)
            → m.active_upload ≡ none
            → (lost (op name m).0 ≡ true) × ((op name m).1 ≡ err c.upload_size_mismatch))
        → Fails s (end_upload (backend c rest) op id s)
    end-Fails client s id op h none_left = elim (Bool-cases (is_open s.owner.protocol.upload id)) [
      | inr e ↦
          untouched s _ (OwnerError.request stale) (end_upload-stale (backend c rest) op id s e)
      | inl e ↦
          let was_lost : lost s.owner.backend ≡ true = ap (λ v. v.0) h.open_view in
          let (now_lost, failed) =
            none_left h.name s.owner.backend (lost-none s.owner.backend was_lost) in
          let (kept, answer) =
            end_upload-refused (backend c rest) op id s h.name c.upload_size_mismatch e
              (upload_name-open client s.owner h) failed in
          record {
            error = OwnerError.backend c.upload_size_mismatch;
            answer = answer;
            same =
                ap (view lost) kept ∙ ap (λ b. (b, upload_view s.owner)) (now_lost ∙ sym was_lost);
          }
    ]

    failed-Stuck :
        (client : StorageClient) (o : StorageOwner (Mounted S Session Journal)) (r : OwnedRequest)
        (out : Running (Mounted S Session Journal) × Result (OwnerError E) Types.Response)
        → Stuck client o
        → Fails (record { owner = o; lease = r.buffer }) out
        → Stuck client (answer_owned r out.0 (completion out.1)).0
    failed-Stuck client o r out h f =
        let before = out.0.owner.upload_client in
        kept-Stuck client o _
          (rw f.answer (
              ap
                (λ u. (
                  lost out.0.owner.backend,
                  (out.0.owner.protocol.upload, (out.0.owner.upload_name, u)),
                ))
                (kept_client r.envelope.request r.envelope.client f.error before))
            ∙ f.same)
          h

    plain-Stuck :
        (client : StorageClient) (o : StorageOwner (Mounted S Session Journal)) (r : OwnedRequest)
        (out : Running (Mounted S Session Journal) × Result (OwnerError E) Types.Response)
        → Stuck client o
        → begins_upload r.envelope.request ≡ false
        → ends_upload r.envelope.request ≡ false
        → view lost out.0.owner ≡ view lost o
        → Stuck client (answer_owned r out.0 (completion out.1)).0
    plain-Stuck client o r out h b e k =
        kept-Stuck client o _
          (ap
              (λ u. (
                lost out.0.owner.backend,
                (out.0.owner.protocol.upload, (out.0.owner.upload_name, u)),
              ))
              (plain_client r.envelope.request r.envelope.client (completion out.1)
                out.0.owner.upload_client b e)
            ∙ k)
          h

    answered :
        StorageOwner (Mounted S Session Journal)
        → OwnedRequest
        → StorageOwner (Mounted S Session Journal)
    unfolding execute
    answered o r =
        let (s, answer) =
          execute (backend c rest) r.envelope.request (record { owner = o; lease = r.buffer }) in
        (answer_owned r s (completion answer)).0

    by_kind :
        {q r : Request} (s : Running (Mounted S Session Journal))
        → Fails s (execute (backend c rest) q s)
        → r ≡ q
        → Fails s (execute (backend c rest) r s)
    by_kind s h e = rw e h

    answered-Stuck :
        (client : StorageClient) (o : StorageOwner (Mounted S Session Journal)) (r : OwnedRequest)
        → Stuck client o
        → Stuck client (answered o r)
    unfolding answered execute backend
    answered-Stuck client o r h =
        let s : Running (Mounted S Session Journal) = record { owner = o; lease = r.buffer } in
        let out = execute (backend c rest) r.envelope.request s in
        elim (upload_kind r.envelope.request) [
          | begins name size crc p e ↦ failed-Stuck client o r out h (
              by_kind {q = Request.upload_begin name size crc p} s
                (begin-Fails client s name size crc p h) e)
          | commits id p e ↦ failed-Stuck client o r out h (
              by_kind {q = Request.upload_commit id p} s
                (end-Fails client s id (upload_commit c) h commit-none) e)
          | aborts id e ↦ failed-Stuck client o r out h (
              by_kind {q = Request.upload_abort id} s
                (end-Fails client s id (upload_abort c) h abort-none) e)
          | neither b e ↦
              plain-Stuck client o r out h b e
                (execute-Keeps (backend c rest) lost lost_looked r.envelope.request b e s)
        ]

    pub execute_owned-Stuck :
        (client : StorageClient) (o : StorageOwner (Mounted S Session Journal)) (r : OwnedRequest)
        → Stuck client o
        → Stuck client (execute_owned (backend c rest) o r).0
    unfolding execute_owned answered execute
    execute_owned-Stuck client o r h =
        elim (Bool-cases (
          library_scratch r.envelope.request && not (client_eq r.envelope.client library_client))) [
            | inl e ↦ rw e (kept-Stuck client o _ refl h)
            | inr e ↦ rw e (answered-Stuck client o r h)
          ]
