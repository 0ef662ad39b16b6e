-- ===== src/Storage/Owner/Exclusive.antt =====
-- The one upload of storage_owner.rs: opened by `UploadBegin`, closed by `UploadCommit` and
-- `UploadAbort`, and its client served alone until then.
use binbook.Prelude.{
  ℕ, ◌≡◌, refl, ap, ◌∙◌, inl, inr, Bool, true, false, not, ◌&&◌, Option, none, some, Result, ok,
  err, Bool-cases, Option-cases, Result-cases,
}
use binbook.Storage.Types.{
  StorageName, busy, stale, Request, StorageClient, client_eq, library_client, Response, ack,
  OwnedRequest, upload_started, CompletionError,
}
use binbook.Storage.Tokens.{
  StorageOwnerProtocol, is_open, begin_upload, require_upload, commit_upload,
}
use binbook.Storage.Owner.{OwnerBackend, OwnerError, StorageOwner, Running}
use binbook.Storage.Owner.Execute.{
  start_upload, end_upload, execute, execute_owned, begins_upload, ends_upload, library_scratch,
  answer_owned, completion, next_upload_client,
}
use binbook.Storage.Owner.Uploads.{upload_view, upload_view-execute}

-- An upload is open in the protocol exactly where its file and its client are known.
pub data Sound {B : Type 0} (o : StorageOwner B) : Type 0 where
  idle : upload_view o ≡ (none, (none, none)) → Sound o
  uploading :
      (id : ℕ) (name : StorageName) (client : StorageClient)
      → upload_view o ≡ (some id, (some name, some client))
      → Sound o

-- How a request that begins or ends an upload comes out: `next` is the view where it succeeds.
data Ended {B E : Type 0} (s : Running B)
    (next : Option ℕ × (Option StorageName × Option StorageClient))
    (r : Running B × Result (OwnerError E) Response) : Type 0 where
  refused :
      (e : OwnerError E)
      → r.1 ≡ err e
      → upload_view r.0.owner ≡ upload_view s.owner
      → Ended s next r
  done : (a : Response) → r.1 ≡ ok a → upload_view r.0.owner ≡ next → Ended s next r

commit_upload-open :
    (p : StorageOwnerProtocol) (id : ℕ)
    → is_open p.upload id ≡ true
    → commit_upload p id ≡ (record p { upload = none }, ok tt)
unfolding commit_upload require_upload
commit_upload-open p id e = rw (commit_upload, e) refl

-- The requests by what they do to the upload.
pub data UploadKind (r : Request) : Type 0 where
  begins :
      (name : StorageName) (size crc : ℕ) (p : Bool)
      → r ≡ Request.upload_begin name size crc p
      → UploadKind r
  commits : (id : ℕ) (p : Bool) → r ≡ Request.upload_commit id p → UploadKind r
  aborts : (id : ℕ) → r ≡ Request.upload_abort id → UploadKind r
  neither : begins_upload r ≡ false → ends_upload r ≡ false → UploadKind r

pub upload_kind : (r : Request) → UploadKind r
upload_kind (Request.upload_begin name size crc p) = begins name size crc p refl
upload_kind (Request.upload_commit id p) = commits id p refl
upload_kind (Request.upload_abort id) = aborts id refl
upload_kind _ = neither refl refl

Sound-view :
    {B : Type 0} (o next : StorageOwner B) → upload_view next ≡ upload_view o → Sound o → Sound next
Sound-view o next e (idle h) = idle (e ∙ h)
Sound-view o next e (uploading id name client h) = uploading id name client (e ∙ h)

pub kept_client :
    {E : Type 0} (r : Request) (client : StorageClient) (e : OwnerError E)
    (before : Option StorageClient)
    → next_upload_client r client (completion {E = E} (err e)) before ≡ before
kept_client r client (OwnerError.request e) before = refl
kept_client r client (OwnerError.backend e) before = refl
kept_client r client OwnerError.no_buffer before = refl

pub plain_client :
    (r : Request) (client : StorageClient) (a : Result CompletionError Response)
    (before : Option StorageClient)
    → begins_upload r ≡ false
    → ends_upload r ≡ false
    → next_upload_client r client a before ≡ before
plain_client r client (err e) before b c = refl
plain_client r client (ok a) before b c = rw (b, c) refl

pub refused_view :
    {B E : Type 0} (r : OwnedRequest) (out : Running B × Result (OwnerError E) Response)
    (o : StorageOwner B) (e : OwnerError E)
    → out.1 ≡ err e
    → upload_view out.0.owner ≡ upload_view o
    → upload_view (answer_owned r out.0 (completion out.1)).0 ≡ upload_view o
refused_view r out o e f k =
    let before = out.0.owner.upload_client in
    rw f (
      ap (λ u. (out.0.owner.protocol.upload, (out.0.owner.upload_name, u)))
        (kept_client r.envelope.request r.envelope.client e before))
    ∙ k

pub plain_view :
    {B E : Type 0} (r : OwnedRequest) (out : Running B × Result (OwnerError E) Response)
    (o : StorageOwner B)
    → begins_upload r.envelope.request ≡ false
    → ends_upload r.envelope.request ≡ false
    → upload_view out.0.owner ≡ upload_view o
    → upload_view (answer_owned r out.0 (completion out.1)).0 ≡ upload_view o
plain_view r out o b c k =
    ap (λ u. (out.0.owner.protocol.upload, (out.0.owner.upload_name, u)))
      (plain_client r.envelope.request r.envelope.client (completion out.1)
        out.0.owner.upload_client b c)
    ∙ k

module _ {B E : Type 0} (card : OwnerBackend B E) where
  start_upload-Ended :
      (name : StorageName) (size crc : ℕ) (s : Running B)
      → Ended s
          (some s.owner.protocol.next_upload, (some name, s.owner.upload_client))
          (start_upload card name size crc s)
  unfolding start_upload begin_upload
  start_upload-Ended name size crc s = elim (Option-cases s.owner.protocol.upload) [
    | inr (id, e) ↦ rw e (refused (OwnerError.request busy) refl refl)
    | inl e ↦ elim (Result-cases (card.upload_begin name size crc s.owner.backend).1) [
      | inl (_, g) ↦ rw (e, g) (done (upload_started s.owner.protocol.next_upload) refl refl)
      | inr (x, g) ↦ rw (e, g) (refused (OwnerError.backend x) refl refl)
    ]
  ]

  end_upload-Ended :
      (op : StorageName → B → B × Result E (Unit {0})) (id : ℕ) (s : Running B)
      → Ended s (none, (none, s.owner.upload_client)) (end_upload card op id s)
  unfolding end_upload require_upload
  end_upload-Ended op id s = elim (Bool-cases (is_open s.owner.protocol.upload id)) [
    | inr e ↦ rw e (refused (OwnerError.request stale) refl refl)
    | inl e ↦ elim (Option-cases s.owner.upload_name) [
      | inl n ↦
          rw (e, n)
            (refused (OwnerError.request stale) refl
              (ap (λ u. (s.owner.protocol.upload, (u, s.owner.upload_client))) n))
      | inr (name, n) ↦ elim (Result-cases (op name s.owner.backend).1) [
        | inl (_, g) ↦
            let closed = commit_upload-open s.owner.protocol id e in
            rw (e, n, g, closed)
              (done ack refl (ap (λ r. (r.0.upload, (none, s.owner.upload_client))) closed))
        | inr (x, g) ↦
            rw (e, n, g)
              (refused (OwnerError.backend x) refl
                (ap (λ u. (s.owner.protocol.upload, (u, s.owner.upload_client))) n))
      ]
    ]
  ]

  -- The owner after `execute` and the change of the client.
  answered : StorageOwner B → OwnedRequest → StorageOwner B
  unfolding execute
  answered o r =
      let (s, answer) = execute card r.envelope.request (record { owner = o; lease = r.buffer }) in
      (answer_owned r s (completion answer)).0

  begun-Sound :
      (o : StorageOwner B) (r : OwnedRequest) (out : Running B × Result (OwnerError E) Response)
      (id : ℕ) (name : StorageName)
      → Sound o
      → begins_upload r.envelope.request ≡ true
      → Ended (record { owner = o; lease = r.buffer }) (some id, (some name, o.upload_client)) out
      → Sound (answer_owned r out.0 (completion out.1)).0
  begun-Sound o r out id name h b (refused e f k) = Sound-view o _ (refused_view r out o e f k) h
  begun-Sound o r out id name h b (done a f k) =
      let client = r.envelope.client in
      uploading id name client (rw (f, b) (ap (λ v. (v.0, (v.1.0, some client))) k))

  ended-Sound :
      (o : StorageOwner B) (r : OwnedRequest) (out : Running B × Result (OwnerError E) Response)
      → Sound o
      → begins_upload r.envelope.request ≡ false
      → ends_upload r.envelope.request ≡ true
      → Ended (record { owner = o; lease = r.buffer }) (none, (none, o.upload_client)) out
      → Sound (answer_owned r out.0 (completion out.1)).0
  ended-Sound o r out h b c (refused e f k) = Sound-view o _ (refused_view r out o e f k) h
  ended-Sound o r out h b c (done a f k) = idle (rw (f, b, c) (ap (λ v. (v.0, (v.1.0, none))) k))

  by_kind :
      {q r : Request} (s : Running B)
      (next : Option ℕ × (Option StorageName × Option StorageClient))
      → Ended s next (execute card q s)
      → r ≡ q
      → Ended s next (execute card r s)
  by_kind s next h e = rw e h

  answered-Sound : (o : StorageOwner B) (r : OwnedRequest) → Sound o → Sound (answered o r)
  unfolding answered execute
  answered-Sound o r h =
      let s : Running B = record { owner = o; lease = r.buffer } in
      elim (upload_kind r.envelope.request) [
        | begins name size crc p e ↦
            begun-Sound o r (execute card r.envelope.request s) o.protocol.next_upload name h
              (rw e refl)
              (by_kind {q = Request.upload_begin name size crc p} s _
                (start_upload-Ended name size crc s) e)
        | commits id p e ↦
            ended-Sound o r (execute card r.envelope.request s) h (rw e refl) (rw e refl) (
              by_kind {q = Request.upload_commit id p} s _
                (end_upload-Ended card.upload_commit id s) e)
        | aborts id e ↦
            ended-Sound o r (execute card r.envelope.request s) h (rw e refl) (rw e refl) (
              by_kind {q = Request.upload_abort id} s _ (end_upload-Ended card.upload_abort id s) e)
        | neither b c ↦
            Sound-view o _
              (plain_view r (execute card r.envelope.request s) o b c
                (upload_view-execute card r.envelope.request s b c))
              h
      ]

  -- `StorageOwner::execute_owned` keeps the open upload, its file and its client together, whatever
  -- the request, its client and the answer of the card.
  pub execute_owned-Sound :
      (o : StorageOwner B) (r : OwnedRequest) → Sound o → Sound (execute_owned card o r).0
  unfolding execute_owned execute answered
  execute_owned-Sound o r h =
      elim (Bool-cases
        (library_scratch r.envelope.request && not (client_eq r.envelope.client library_client))) [
          | inl e ↦ rw e h
          | inr e ↦ rw e (answered-Sound o r h)
        ]
