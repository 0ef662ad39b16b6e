-- ===== src/Storage/Owner/Service.antt =====
-- Whom the pump of storage_owner.rs answers, and how often.
use binbook.Prelude.{
  ℕ, ◌≡◌, refl, ap, subst, ◌∙◌, ◌⊎◌, inl, inr, true, false, not, ◌&&◌, Option, none, some, List, [],
  ◌∷◌, ◌++◌, map, ok, err, All, ltb, length, Bool-cases, Option-cases,
}
use mathlib.Core.List.{Perm, perm_middle, append-nil, map-append, append_assoc}
use mathlib.Core.List.Perm
use binbook.Storage.Types.{
  StorageClient, client_eq, reader_client, state_client, diagnostic_client, library_client,
  OwnedRequest, OwnedResponse,
}
use binbook.Storage.Mailbox.{OwnedMailbox, owned_priority, of_client, push, push_bounded}
use binbook.Storage.Mailbox.Priority.{pop_takes_first}
use binbook.Storage.Mailbox.OfClient.{ChosenOf, pop_client_takes_first}
use binbook.Storage.Owner.{OwnerBackend, StorageOwner}
use binbook.Storage.Owner.Execute.{execute_owned, library_scratch}
use binbook.Storage.Owner.Pump.{
  StorageOwnerPump, enqueue, next_request, run_request, execute_next, execute_immediate,
}

-- What the answer to a request is correlated by.
abbrev pub request_tag : OwnedRequest → StorageClient × ℕ
request_tag r = (r.envelope.client, r.envelope.sequence)

abbrev pub response_tag : OwnedResponse → StorageClient × ℕ
response_tag r = (r.envelope.client, r.envelope.sequence)

client_eq→eq : (a b : StorageClient) → client_eq a b ≡ true → a ≡ b
client_eq→eq reader_client reader_client e = refl
client_eq→eq state_client state_client e = refl
client_eq→eq diagnostic_client diagnostic_client e = refl
client_eq→eq library_client library_client e = refl
client_eq→eq _ _ e = absurd (cc)

perm_snoc {ℓ} : {A : Type ℓ} (x : A) (xs : List A) → Perm (xs ++ (x ∷ [])) (x ∷ xs)
perm_snoc x xs =
    let h : Perm (xs ++ (x ∷ [])) (x ∷ (xs ++ [])) = perm_middle xs [] in rw (append-nil xs) at h

-- One call of the pump, as the task around it makes them.
pub data PumpCall : Type 0 where
  submit immediate : OwnedRequest → PumpCall
  serve : PumpCall

-- The pump with the tags of the requests that it took and of the answers that it gave.
pub record Served (B : Type 0) : Type 0 where
  pub pump : StorageOwnerPump B
  pub taken : List (StorageClient × ℕ)
  pub answered : List (StorageClient × ℕ)

module _ {B E : Type 0} (card : OwnerBackend B E) where
  execute_owned-tag :
      (o : StorageOwner B) (r : OwnedRequest)
      → response_tag (execute_owned card o r).1 ≡ request_tag r
  unfolding execute_owned
  execute_owned-tag o r =
      elim (Bool-cases
        (library_scratch r.envelope.request && not (client_eq r.envelope.client library_client))) [
          | inl e ↦ rw e refl
          | inr e ↦ rw e refl
        ]

  run_request-tag :
      (o : StorageOwner B) (m : OwnedMailbox) (r : OwnedRequest)
      → response_tag (run_request card o m r).1.1 ≡ request_tag r
  unfolding run_request
  run_request-tag o m r = execute_owned-tag o r

  -- What a choice leaves together with what it takes.
  Split : OwnedMailbox → Option (OwnedRequest × OwnedMailbox) → Type 0
  Split m none = Unit {0}
  Split m (some (r, rest)) =
      Perm (map request_tag m.pending) (request_tag r ∷ map request_tag rest.pending)

  pick-perm :
      (before : List OwnedRequest) (r : OwnedRequest) (after xs rest : List OwnedRequest)
      → xs ≡ before ++ (r ∷ after)
      → rest ≡ before ++ after
      → Perm (map request_tag xs) (request_tag r ∷ map request_tag rest)
  pick-perm before r after xs rest e f = rw (e, f) (Perm.map request_tag (perm_middle before after))

  next_request-Split : (p : StorageOwnerPump B) → Split p.mailbox (next_request p)
  unfolding next_request Split
  next_request-Split p = elim (Option-cases p.owner.upload_client) [
    | inl e ↦ elim (pop_takes_first p.mailbox) [
      | inl (_, f) ↦ rw (e, f) tt
      | inr (r, rest, f, c) ↦ rw (e, f) (pick-perm c.before r c.after _ rest c.whole c.others)
    ]
    | inr (client, e) ↦ elim (pop_client_takes_first p.mailbox client) [
      | inl (_, f) ↦ rw (e, f) tt
      | inr (r, rest, f, c) ↦ rw (e, f) (pick-perm c.before r c.after _ rest c.whole c.others)
    ]
  ]

  -- `enqueue`, `execute_next` and `execute_immediate` with the tags that they take and answer.
  unfoldable pub step : Served B → PumpCall → Served B
  unfolding enqueue execute_next execute_immediate
  step s (submit r) = elim (enqueue s.pump r) [
    | err _ ↦ s
    | ok (pump, _) ↦ record s { pump = pump; taken = request_tag r ∷ s.taken }
  ]
  step s serve = elim (execute_next card s.pump) [
    | none ↦ s
    | some (pump, (_, a)) ↦ record s { pump = pump; answered = response_tag a ∷ s.answered }
  ]
  step s (immediate r) =
      let (pump, (_, a)) = execute_immediate card s.pump r in
      record {
        pump = pump;
        taken = request_tag r ∷ s.taken;
        answered = response_tag a ∷ s.answered;
      }

  Balanced : Served B → Type 0
  Balanced s = Perm s.taken (s.answered ++ map request_tag s.pump.mailbox.pending)

  pub submit_room :
      (s : Served B) (r : OwnedRequest)
      → ltb (length s.pump.mailbox.pending) s.pump.mailbox.capacity ≡ true
      → step s (submit r) ≡ record s {
        pump = record s.pump {
          mailbox = record s.pump.mailbox { pending = s.pump.mailbox.pending ++ (r ∷ []) };
        };
        taken = request_tag r ∷ s.taken;
      }
  unfolding step enqueue push push_bounded
  submit_room s r e = rw (step, e) refl

  pub submit_full :
      (s : Served B) (r : OwnedRequest)
      → ltb (length s.pump.mailbox.pending) s.pump.mailbox.capacity ≡ false
      → step s (submit r) ≡ s
  unfolding step enqueue push push_bounded
  submit_full s r e = rw (step, e) refl

  submit-Balanced : (s : Served B) (r : OwnedRequest) → Balanced s → Balanced (step s (submit r))
  unfolding Balanced
  submit-Balanced s r h =
      elim (Bool-cases (ltb (length s.pump.mailbox.pending) s.pump.mailbox.capacity)) [
        | inl e ↦
            let pending = map request_tag s.pump.mailbox.pending in
            let moved : Perm (s.answered ++ (pending ++ (request_tag r ∷ [])))
                (request_tag r ∷ (s.answered ++ pending)) =
              rw (← append_assoc s.answered pending (request_tag r ∷ []))
                (perm_snoc (request_tag r) (s.answered ++ pending)) in
            rw (submit_room s r e, map-append request_tag s.pump.mailbox.pending (r ∷ []))
              (Perm.trans (Perm.cons (request_tag r) h) (Perm.symm moved))
        | inr e ↦ rw (submit_full s r e) h
      ]

  pub serve_none : (s : Served B) → next_request s.pump ≡ none → step s serve ≡ s
  unfolding step execute_next
  serve_none s e = rw (step, execute_next, e) refl

  pub serve_some :
      (s : Served B) (r : OwnedRequest) (rest : OwnedMailbox)
      → next_request s.pump ≡ some (r, rest)
      → step s serve ≡ record s {
        pump = (run_request card s.pump.owner rest r).0;
        answered = response_tag (run_request card s.pump.owner rest r).1.1 ∷ s.answered;
      }
  unfolding step execute_next
  serve_some s r rest e = rw (step, execute_next, e) refl

  serve-Balanced : (s : Served B) → Balanced s → Balanced (step s serve)
  unfolding Balanced Split run_request
  serve-Balanced s h = elim (Option-cases (next_request s.pump)) [
    | inl e ↦ rw (serve_none s e) h
    | inr ((r, rest), e) ↦
        let split : Split s.pump.mailbox (some (r, rest)) =
          subst (Split s.pump.mailbox) e (next_request-Split s.pump) in
        rw (serve_some s r rest e, execute_owned-tag s.pump.owner r)
          (Perm.trans h (Perm.trans (Perm.append_left s.answered split) (perm_middle s.answered _)))
  ]

  immediate-Balanced :
      (s : Served B) (r : OwnedRequest) → Balanced s → Balanced (step s (immediate r))
  unfolding Balanced step execute_immediate run_request
  immediate-Balanced s r h = rw (execute_owned-tag s.pump.owner r) (Perm.cons (request_tag r) h)

  step-Balanced : (s : Served B) (c : PumpCall) → Balanced s → Balanced (step s c)
  step-Balanced s (submit r) h = submit-Balanced s r h
  step-Balanced s (immediate r) h = immediate-Balanced s r h
  step-Balanced s serve h = serve-Balanced s h

  unfoldable pub run : Served B → List PumpCall → Served B
  run s [] = s
  run s (c ∷ cs) = run (step s c) cs

  run-Balanced : (s : Served B) (cs : List PumpCall) → Balanced s → Balanced (run s cs)
  unfolding run
  run-Balanced s [] h = h
  run-Balanced s (c ∷ cs) h = run-Balanced (step s c) cs (step-Balanced s c h)

  -- Whatever calls of the pump are made in whatever order, from an empty mailbox on, each request
  -- that the pump took has its answer, with its client and its sequence number, or still waits: no
  -- request is lost and none is answered twice. The card may answer anything.
  pub run_answers_once :
      (p : StorageOwnerPump B) (cs : List PumpCall)
      → p.mailbox.pending ≡ []
      → let s = run (record { pump = p; taken = []; answered = [] }) cs in
        Perm s.taken (s.answered ++ map request_tag s.pump.mailbox.pending)
  unfolding Balanced
  run_answers_once p cs e =
      run-Balanced (record { pump = p; taken = []; answered = [] }) cs (rw e Perm.nil)

  -- While a client has an upload open, `execute_next` answers that client alone: it answers with the
  -- tag of one of its pending requests, the oldest of the highest priority, and leaves the requests
  -- of all other clients waiting in their order; or it does nothing, where that client has none.
  pub execute_next_exclusive :
      (p : StorageOwnerPump B) (client : StorageClient)
      → p.owner.upload_client ≡ some client
      → (All (λ r. of_client client r ≡ false) p.mailbox.pending × (execute_next card p ≡ none))
        ⊎ ((r : OwnedRequest) × (rest : List OwnedRequest) × (execute_next card p
              ≡ some (run_request card p.owner (record p.mailbox { pending = rest }) r))
            × (response_tag (run_request card p.owner (record p.mailbox { pending = rest }) r).1.1
                ≡ (client, r.envelope.sequence))
            × ChosenOf owned_priority (of_client client) p.mailbox.pending r rest)
  unfolding execute_next next_request
  execute_next_exclusive p client e = elim (pop_client_takes_first p.mailbox client) [
    | inl (h, f) ↦ inl (h, rw (e, f) refl)
    | inr (r, rest, f, c) ↦
        let same : r.envelope.client ≡ client = client_eq→eq r.envelope.client client c.passes in
        inr (
          r,
          rest,
          rw (e, f) refl,
          run_request-tag p.owner (record p.mailbox { pending = rest }) r
              ∙ ap (λ u. (u, r.envelope.sequence)) same,
          c,
        )
  ]
