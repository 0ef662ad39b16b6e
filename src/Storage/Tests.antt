-- ===== src/Storage/Tests.antt =====
-- The storage owner on concrete requests and cards.
use binbook.Prelude.{
  ℕ, ◌≡◌, refl, ◌⊎◌, true, false, none, some, List, [], ◌∷◌, ◌++◌, map, All, ok, err,
}
use mathlib.Core.List.{Perm}
use binbook.Storage.Types.{
  stale, Request, StorageClient, reader_client, state_client, library_client, OwnedRequest,
}
use binbook.Storage.Mailbox.{OwnedMailbox, owned_priority, of_client, pop, pop_client}
use binbook.Storage.Mailbox.Priority.{Chosen, pop_takes_first}
use binbook.Storage.Mailbox.OfClient.{ChosenOf, pop_client_takes_first}
use binbook.Storage.Owner.{OwnerBackend, OwnerError, StorageOwner, Running}
use binbook.Storage.Owner.Execute.{execute, execute_owned}
use binbook.Storage.Owner.Pump.{StorageOwnerPump, execute_next, run_request, execute_immediate}
use binbook.Storage.Owner.Service.{
  PumpCall, submit, immediate, serve, run, request_tag, response_tag, run_answers_once,
  execute_next_exclusive,
}
use binbook.Storage.Owner.Exclusive.{Sound, idle, execute_owned-Sound}
use binbook.Storage.Owner.Refused.{execute_refuses}
use binbook.Storage.Mounted.{CardCalls, Mounted, backend, upload_commit}
use binbook.Storage.Mounted.Blocked.{commit_request, commit_failure_blocks}

abbrev request : StorageClient → ℕ → Request → OwnedRequest
request client sequence r = record {
  envelope = record { client = client; sequence = sequence; request = r };
  buffer = none;
}

abbrev scan : OwnedRequest
scan = request library_client 1 Request.scan_start

abbrev first_size : OwnedRequest
first_size = request reader_client 2 (Request.file_size (98 ∷ []))

abbrev second_size : OwnedRequest
second_size = request reader_client 3 (Request.file_size (99 ∷ []))

abbrev begin : OwnedRequest
begin = request state_client 4 (Request.upload_begin (115 ∷ []) 2 0 true)

abbrev waiting : OwnedMailbox
waiting = record { capacity = 8; pending = scan ∷ first_size ∷ second_size ∷ [] }

pop-waiting :
    pop waiting ≡ some (first_size, record { capacity = 8; pending = scan ∷ second_size ∷ [] })
unfolding pop
pop-waiting = refl

-- A card that answers every request.
abbrev quiet : OwnerBackend ℕ ℕ
quiet = record {
  activate_file = λ _ _ b. (b, ok 7);
  file_size = λ _ b. (b, ok 7);
  read_at = λ _ _ out b. (b, (out, ok tt));
  upload_begin = λ _ _ _ b. (b, ok tt);
  upload_write = λ _ _ _ b. (b, ok tt);
  upload_commit = λ _ b. (b, ok tt);
  upload_abort = λ _ b. (b, ok tt);
  delete = λ _ b. (b, ok tt);
  scan_start = λ b. (b, ok tt);
  scan_prefetch = λ _ b. (b, ok tt);
  scan_step =
      λ _ out b. (b, (out, ok (record { entries = 0; complete = true; unsupported_name = false })));
  scan_finish = λ b. (b, ok tt);
  scan_cancel = λ b. (b, ok tt);
  scratch_create = λ b. (b, ok tt);
  scratch_write = λ _ _ b. (b, ok tt);
  scratch_read = λ _ out b. (b, (out, ok tt));
  scratch_flush = λ b. (b, ok tt);
  scratch_delete = λ b. (b, ok tt);
}

abbrev fresh : StorageOwner ℕ
fresh = record {
  backend = 0;
  protocol = record { scan = none; next_scan = 1; upload = none; next_upload = 1 };
  upload_name = none;
  upload_client = none;
}

abbrev uploading : {B : Type 0} → B → StorageOwner B
uploading b = record {
  backend = b;
  protocol = record { scan = none; next_scan = 1; upload = some 1; next_upload = 2 };
  upload_name = some (115 ∷ []);
  upload_client = some state_client;
}

abbrev idle_pump : StorageOwnerPump ℕ
idle_pump = record { owner = fresh; mailbox = record { capacity = 2; pending = [] } }

abbrev busy_pump : StorageOwnerPump ℕ
busy_pump = record { owner = uploading 0; mailbox = waiting }

abbrev a_running : Running ℕ
a_running = record { owner = uploading 0; lease = none }

-- A mounted card whose flush fails.
abbrev broken : CardCalls ℕ ℕ ℕ ℕ
broken = record {
  upload_size_mismatch = 9;
  same_name = λ _ _. true;
  is_metadata = λ _. true;
  open_session = λ _ _ _ s. (s, ok (0, none));
  write_at = λ u _ _ s. (s, ok u);
  flush = λ _ s. (s, err 5);
  session_size = λ _ s. (s, ok 2);
  keep_for_reading = λ _ _ s. (s, ok tt);
  publish_book_upload = λ _ s. (s, ok tt);
  forget_reads = λ _ s. s;
  delete_metadata = λ _ s. (s, ok tt);
  abort_book_upload = λ _ s. (s, ok tt);
}

abbrev mounted : Mounted ℕ ℕ ℕ
mounted = record {
  card = 0;
  active_upload = some (record { name = 115 ∷ []; session = 0; expected = 2; journal = none });
}

abbrev mounted_pump : StorageOwnerPump (Mounted ℕ ℕ ℕ)
mounted_pump = record { owner = uploading mounted; mailbox = waiting }

abbrev calls : List PumpCall
calls = submit begin ∷ submit scan ∷ submit first_size ∷ immediate second_size ∷ serve ∷ serve ∷ []

pop_takes_first_example :
    ((waiting.pending ≡ []) × (pop waiting ≡ none))
    ⊎ ((taken : OwnedRequest) × (rest : List OwnedRequest) × (pop waiting
          ≡ some (taken, record waiting { pending = rest }))
        × Chosen owned_priority waiting.pending taken rest)
pop_takes_first_example = pop_takes_first waiting

pop_client_takes_first_example :
    (All (λ r. of_client library_client r ≡ false) waiting.pending
      × (pop_client waiting library_client ≡ none))
    ⊎ ((taken : OwnedRequest) × (rest : List OwnedRequest) × (pop_client waiting library_client
          ≡ some (taken, record waiting { pending = rest }))
        × ChosenOf owned_priority (of_client library_client) waiting.pending taken rest)
pop_client_takes_first_example = pop_client_takes_first waiting library_client

execute_owned-Sound_example : Sound (execute_owned quiet fresh begin).0
execute_owned-Sound_example = execute_owned-Sound quiet fresh begin (idle refl)

run_answers_once_example :
    let s = run quiet (record { pump = idle_pump; taken = []; answered = [] }) calls in
    Perm s.taken (s.answered ++ map request_tag s.pump.mailbox.pending)
run_answers_once_example = run_answers_once quiet idle_pump calls refl

execute_next_exclusive_example :
    (All (λ r. of_client state_client r ≡ false) waiting.pending
      × (execute_next quiet busy_pump ≡ none))
    ⊎ ((r : OwnedRequest) × (rest : List OwnedRequest) × (execute_next quiet busy_pump
          ≡ some (run_request quiet (uploading 0) (record waiting { pending = rest }) r))
        × (response_tag (run_request quiet (uploading 0) (record waiting { pending = rest }) r).1.1
            ≡ (state_client, r.envelope.sequence))
        × ChosenOf owned_priority (of_client state_client) waiting.pending r rest)
execute_next_exclusive_example = execute_next_exclusive quiet busy_pump state_client refl

execute_refuses_example :
    execute quiet (Request.upload_commit 2 true) a_running
    ≡ (a_running, err (OwnerError.request stale))
execute_refuses_example = execute_refuses quiet (Request.upload_commit 2 true) a_running stale refl

commit_failure_blocks_example :
    let failed =
      (execute_immediate
        (backend broken quiet)
        mounted_pump
        (commit_request state_client 6 none 1 true)).0 in
    (run
      (backend broken quiet)
      (record { pump = failed; taken = []; answered = [] })
      calls).pump.owner.upload_client
    ≡ some state_client
unfolding upload_commit
commit_failure_blocks_example =
    commit_failure_blocks broken quiet mounted_pump state_client state_client 6 none 1 true
      (115 ∷ []) 5 calls refl refl
