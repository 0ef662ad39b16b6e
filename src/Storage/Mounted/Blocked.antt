-- ===== src/Storage/Mounted/Blocked.antt =====
-- The calls of the pump of storage_owner.rs that follow a commit which the card refused.
use binbook.Prelude.{
  ℕ, ◌≡◌, refl, ap, ◌∙◌, inl, inr, Bool, true, Option, some, List, [], ◌∷◌, err, ==_iff, Bool-cases,
  Option-cases, ltb, length,
}
use binbook.Storage.Types.{StorageName, Request, StorageClient, BufferLease, OwnedRequest}
use binbook.Storage.Tokens.{is_open}
use binbook.Storage.Owner.{OwnerBackend, StorageOwner, Running}
use binbook.Storage.Owner.Execute.{execute, execute_owned}
use binbook.Storage.Owner.Pump.{StorageOwnerPump, next_request, run_request, execute_immediate}
use binbook.Storage.Owner.Service.{
  PumpCall, submit, immediate, serve, Served, step, run, submit_room, submit_full, serve_none,
  serve_some,
}
use binbook.Storage.Owner.Uploads.{upload_view, view}
use binbook.Storage.Owner.Refused.{end_upload-refused}
use binbook.Storage.Mounted.{CardCalls, Mounted, upload_commit, backend}
use binbook.Storage.Mounted.Stuck.{lost, Stuck, execute_owned-Stuck, upload_commit-lost}

is_open-same : (id : ℕ) → is_open (some id) id ≡ true
is_open-same id = (==_iff id id).1 refl

abbrev pub commit_request : StorageClient → ℕ → Option BufferLease → ℕ → Bool → OwnedRequest
commit_request client sequence lease id power_save = record {
  envelope = record {
    client = client;
    sequence = sequence;
    request = Request.upload_commit id power_save;
  };
  buffer = lease;
}

module _ {S Session Journal E : Type 0} (c : CardCalls S Session Journal E)
    (rest : OwnerBackend S E) where
  step-Stuck :
      (client : StorageClient) (s : Served (Mounted S Session Journal)) (call : PumpCall)
      → Stuck c rest client s.pump.owner
      → Stuck c rest client (step (backend c rest) s call).pump.owner
  unfolding step run_request execute_immediate
  step-Stuck client s (submit r) h =
      elim (Bool-cases (ltb (length s.pump.mailbox.pending) s.pump.mailbox.capacity)) [
        | inl e ↦ rw (submit_room (backend c rest) s r e) h
        | inr e ↦ rw (submit_full (backend c rest) s r e) h
      ]
  step-Stuck client s (immediate r) h = execute_owned-Stuck c rest client s.pump.owner r h
  step-Stuck client s serve h = elim (Option-cases (next_request s.pump)) [
    | inl e ↦ rw (serve_none (backend c rest) s e) h
    | inr ((r, mailbox), e) ↦
        rw (serve_some (backend c rest) s r mailbox e)
          (execute_owned-Stuck c rest client s.pump.owner r h)
  ]

  run-Stuck :
      (client : StorageClient) (s : Served (Mounted S Session Journal)) (calls : List PumpCall)
      → Stuck c rest client s.pump.owner
      → Stuck c rest client (run (backend c rest) s calls).pump.owner
  unfolding run
  run-Stuck client s [] h = h
  run-Stuck client s (call ∷ calls) h =
      run-Stuck client (step (backend c rest) s call) calls (step-Stuck client s call h)

  commit-Stuck :
      (o : StorageOwner (Mounted S Session Journal)) (from client : StorageClient) (sequence : ℕ)
      (lease : Option BufferLease) (id : ℕ) (power_save : Bool) (name : StorageName) (x : E)
      → upload_view o ≡ (some id, (some name, some client))
      → (upload_commit c name o.backend).1 ≡ err x
      → Stuck c rest client
          (execute_owned (backend c rest) o (commit_request from sequence lease id power_save)).0
  unfolding execute_owned execute backend
  commit-Stuck o from client sequence lease id power_save name x h f =
      let s : Running (Mounted S Session Journal) = record { owner = o; lease = lease } in
      let held : is_open o.protocol.upload id ≡ true = rw (ap (λ v. v.0) h) (is_open-same id) in
      let (kept, answer) =
        end_upload-refused (backend c rest) (upload_commit c) id s name x held (ap (λ v. v.1.0) h)
          f in
      let next =
        (execute_owned (backend c rest) o (commit_request from sequence lease id power_save)).0 in
      let stays : view (lost c) next ≡ (lost c (upload_commit c name o.backend).0, upload_view o) =
        rw answer (ap (view (lost c)) kept) in
      let gone : (lost c (upload_commit c name o.backend).0, upload_view o)
          ≡ (true, (some id, (some name, some client))) =
        rw (upload_commit-lost c name o.backend) (ap (λ v. (true, v)) h) in
      record { id = id; name = name; open_view = stays ∙ gone }

  -- Where an upload is open and the mounted card refuses to commit it, no later call of the pump, of
  -- whatever client and in whatever order, ever closes it: its client stays the one whose upload is
  -- open.
  pub commit_failure_blocks :
      (p : StorageOwnerPump (Mounted S Session Journal)) (from client : StorageClient)
      (sequence : ℕ) (lease : Option BufferLease) (id : ℕ) (power_save : Bool) (name : StorageName)
      (x : E) (calls : List PumpCall)
      → upload_view p.owner ≡ (some id, (some name, some client))
      → (upload_commit c name p.owner.backend).1 ≡ err x
      → let failed =
          (execute_immediate
            (backend c rest)
            p
            (commit_request from sequence lease id power_save)).0 in
        (run
          (backend c rest)
          (record { pump = failed; taken = []; answered = [] })
          calls).pump.owner.upload_client
        ≡ some client
  unfolding execute_immediate run_request
  commit_failure_blocks p from client sequence lease id power_save name x calls h f =
      ap (λ v. v.1.1.1)
        (run-Stuck client _ calls
          (commit-Stuck p.owner from client sequence lease id power_save name x h f)).open_view
