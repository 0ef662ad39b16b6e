-- ===== src/Storage/StateOwner/Save/Requests.antt =====
-- The requests that a save of state_owner.rs sends to the storage owner.
use binbook.Prelude.{
  ℕ, suc, ◌+◌, ◌-◌, ◌%◌, ◌^◌, ◌≤◌, ◌<◌, ◌≡◌, ◌≢◌, refl, sym, ap, subst, get_or, zero, ◌∙◌, min,
  true, not, ◌||◌, ◌==◌, ltb, ltb→lt, some, List, [], ◌∷◌, take, All, Result, ok, err, Bool-cases,
  Result-cases, inl, inr, arith,
}
use binbook.Reader.State.{ReaderState, ReaderStateError, ProgressRecord}
use binbook.Reader.State.Wire.{encode_with_generation, decode}
use binbook.Storage.Types.{
  Request, Response, RequestEnvelope, ResponseEnvelope, client_eq, state_client, validate_len,
}
use binbook.Storage.StateOwner.{
  OwnerStateSlots, state_slot_a, state_slot_b, next_u32, slot_name, matches_except_generation,
  read_into, envelope,
}
use binbook.Storage.StateOwner.Save.{
  StateSaveError, completion, StateSaveUpdate, saved, panics, request_next, SavePhase, begin,
  complete, write, commit, read, abort, StateSaveClient, Accepted, begin_save, begun, choose_target,
  issue_write, issue_read, issue_abort, issue_commit, fail_in, fail_or_abort, verify, answer,
  accept,
}

-- A request that leaves all files but that of one slot alone, and that the owner does not refuse for
-- its length.
abbrev pub Proper : ℕ → Request → Type 0
Proper slot (Request.upload_begin name _ _ _) = name ≡ slot_name slot
Proper slot (Request.upload_write _ _ _ len _ _) = validate_len len ≡ ok tt
Proper slot (Request.upload_commit _ _) = Unit {0}
Proper slot (Request.upload_abort _) = Unit {0}
Proper slot (Request.read name _ _ len _) = (name ≡ slot_name slot) × (validate_len len ≡ ok tt)
Proper slot _ = ⊥

abbrev pub ProperUpdate : ℕ → Result StateSaveError StateSaveUpdate → Type 0
ProperUpdate slot (ok (request_next e)) = Proper slot e.request
ProperUpdate slot (ok saved) = Unit {0}
ProperUpdate slot (ok panics) = ⊥
ProperUpdate slot (err e) = Unit {0}

-- What `accept` answers, and that it goes on with the same slot and size.
record Goes (c : StateSaveClient) (out : Accepted) : Type 0 where
  target : out.0.target_slot ≡ c.target_slot
  size : out.0.used ≡ c.used
  update : ProperUpdate c.target_slot out.1

bounded_len :
    (n limit : ℕ) → 0 < n → 0 < limit → limit ≤ 4096 → validate_len (min n limit % 2 ^ 16) ≡ ok tt
unfolding validate_len
bounded_len n limit a b c = ground (arith, a, b, c)

issue_write-Goes :
    (c : StateSaveClient) (id offset : ℕ) → offset < c.used → Goes c (issue_write c id offset)
unfolding issue_write envelope
issue_write-Goes c id offset h = record {
  target = refl;
  size = refl;
  update = bounded_len (c.used - offset) 512 (omega (arith, h)) (omega arith) (omega arith);
}

issue_commit-Goes : (c : StateSaveClient) (id : ℕ) → Goes c (issue_commit c id)
unfolding issue_commit envelope
issue_commit-Goes c id = record { target = refl; size = refl; update = tt }

issue_read-Goes :
    (c : StateSaveClient) (offset : ℕ) → offset < c.used → Goes c (issue_read c offset)
unfolding issue_read envelope read_into
issue_read-Goes c offset h =
    let bounded =
      bounded_len (c.used - offset) 4096 (omega (arith, h)) (omega arith) (omega arith) in
    record { target = refl; size = refl; update = rw (read_into, bounded) (refl, bounded) }

fail_in-Goes :
    (phase : SavePhase) (c : StateSaveClient) (e : StateSaveError) → Goes c (fail_in phase c e)
unfolding fail_in issue_abort envelope
fail_in-Goes (write id _ _) c e = record { target = refl; size = refl; update = tt }
fail_in-Goes (commit id) c e = record { target = refl; size = refl; update = tt }
fail_in-Goes _ c e = record { target = refl; size = refl; update = tt }

fail_or_abort-Goes : (c : StateSaveClient) (e : StateSaveError) → Goes c (fail_or_abort c e)
unfolding fail_or_abort
fail_or_abort-Goes c e = fail_in-Goes c.phase c e

verify-Goes : (c : StateSaveClient) (buffer : List ℕ) → Goes c (verify c buffer)
unfolding verify
verify-Goes c buffer = elim (Result-cases (decode (take c.used buffer))) [
  | inr (e, f) ↦ rw (verify, f) (record { target = refl; size = refl; update = tt })
  | inl (v, f) ↦
      elim (Bool-cases
        (not (v.generation == c.next_generation) || not (matches_except_generation c.reader v))) [
          | inl g ↦ rw (verify, f, g) (record { target = refl; size = refl; update = tt })
          | inr g ↦ rw (verify, f, g) (record { target = refl; size = refl; update = tt })
        ]
]

answer-Goes :
    (phase : SavePhase) (r : Response) (c : StateSaveClient) (buffer : List ℕ)
    → 0 < c.used
    → Goes c (answer phase r c buffer)
unfolding answer
answer-Goes begin (Response.upload_started id) c buffer h = issue_write-Goes c id 0 h
answer-Goes (write id offset len) (Response.written actual) c buffer h =
    elim (Bool-cases (not (actual == len))) [
      | inl e ↦ rw e (fail_or_abort-Goes c completion)
      | inr e ↦ elim (Bool-cases (ltb (offset + len) c.used)) [
        | inl f ↦ rw (e, f) (issue_write-Goes c id (offset + len) (ltb→lt _ _ f))
        | inr f ↦ rw (e, f) (issue_commit-Goes c id)
      ]
    ]
answer-Goes (commit id) Response.ack c buffer h = issue_read-Goes c 0 h
answer-Goes (read offset len) (Response.read_bytes actual) c buffer h =
    elim (Bool-cases (not (actual == len))) [
      | inl e ↦ rw e (fail_or_abort-Goes c completion)
      | inr e ↦ elim (Bool-cases (ltb (offset + len) c.used)) [
        | inl f ↦ rw (e, f) (issue_read-Goes c (offset + len) (ltb→lt _ _ f))
        | inr f ↦ rw (e, f) (verify-Goes c buffer)
      ]
    ]
answer-Goes (abort e) Response.ack c buffer h = record { target = refl; size = refl; update = tt }
answer-Goes complete _ c buffer h = record { target = refl; size = refl; update = tt }
answer-Goes _ _ c buffer h = fail_or_abort-Goes c completion

accept-Goes :
    (c : StateSaveClient) (r : ResponseEnvelope) (buffer : List ℕ)
    → 0 < c.used
    → Goes c (accept c r buffer)
unfolding accept
accept-Goes c r buffer h =
    elim (Bool-cases
      (not (client_eq r.client state_client) || not (r.sequence == c.expected_sequence))) [
        | inl e ↦ rw e (record { target = refl; size = refl; update = tt })
        | inr e ↦ elim (Result-cases r.response) [
          | inl (a, f) ↦ rw (e, f) (answer-Goes c.phase a c buffer h)
          | inr (x, f) ↦ rw (e, f) (fail_or_abort-Goes c completion)
        ]
      ]

-- The updates of a save that gets these answers, each with what the buffer holds then.
unfoldable pub updates :
    StateSaveClient
    → List (ResponseEnvelope × List ℕ)
    → List (Result StateSaveError StateSaveUpdate)
unfolding accept
updates c [] = []
updates c ((r, buffer) ∷ answers) = (accept c r buffer).1 ∷ updates (accept c r buffer).0 answers

updates-Proper :
    (c : StateSaveClient) (slot : ℕ) (answers : List (ResponseEnvelope × List ℕ))
    → c.target_slot ≡ slot
    → 0 < c.used
    → All (ProperUpdate slot) (updates c answers)
unfolding updates
updates-Proper c slot [] e h = tt
updates-Proper c slot ((r, buffer) ∷ answers) e h =
    let goes = accept-Goes c r buffer h in
    (
      rw⁻¹ e goes.update,
      updates-Proper (accept c r buffer).0 slot answers (goes.target ∙ e) (rw goes.size h),
    )

encode-used :
    (sort : List ProgressRecord → List ProgressRecord) (s : ReaderState) (generation : ℕ)
    (out : List ℕ) (used : ℕ)
    → (encode_with_generation sort s generation out).0 ≡ ok used
    → 0 < used
unfolding encode_with_generation
encode-used sort s generation out used e = ground (arith, e)

state_slot_a_other : state_slot_a ≢ state_slot_b
state_slot_a_other e = let k : 65 ≡ 66 = ap (λ name. get_or name 8 0) e in absurd (omega (arith, k))

choose_target-other :
    (loaded : ℕ) → loaded < 2 → slot_name (choose_target (some loaded)) ≢ slot_name loaded
unfolding slot_name choose_target
choose_target-other zero h e = state_slot_a_other (sym e)
choose_target-other (suc zero) h e = state_slot_a_other e
choose_target-other (suc (suc loaded)) h e = absurd (omega (arith, h))

begun-Proper :
    (slots : OwnerStateSlots) (reader : ReaderState) (target generation sequence : ℕ)
    (r : Result ReaderStateError ℕ) (c : StateSaveClient) (first : RequestEnvelope)
    → ((used : ℕ) → r ≡ ok used → 0 < used)
    → begun slots reader target generation sequence r ≡ ok (c, first)
    → (c.target_slot ≡ target) × ((0 < c.used) × Proper target first.request)
unfolding begun envelope
begun-Proper slots reader target generation sequence (err e) c first h b = absurd (cc)
begun-Proper slots reader target generation sequence (ok used) c first h b =
    let client : record {
      slots = slots;
      reader = reader;
      target_slot = target;
      next_generation = generation;
      used = used;
      phase = begin;
      expected_sequence = sequence;
      next_sequence = next_u32 sequence;
    }
        ≡ c =
      cc in
    let request : envelope sequence (Request.upload_begin (slot_name target) used 0 true) ≡ first =
      cc in
    (
      sym (ap (λ k. k.target_slot) client),
      (
        subst (λ k. 0 < k.used) client (h used refl),
        subst (λ k. Proper target k.request) request refl,
      ),
    )

-- A save of the state, once a slot was loaded, never touches the file of that slot, whatever is
-- answered to it in whatever order: the upload that it begins and all that it reads back have the
-- name of the other slot, and no length that it asks for is refused by the owner.
pub save_spares_loaded :
    (sort : List ProgressRecord → List ProgressRecord) (slots : OwnerStateSlots)
    (reader : ReaderState) (buffer bytes : List ℕ) (sequence loaded : ℕ) (c : StateSaveClient)
    (first : RequestEnvelope) (answers : List (ResponseEnvelope × List ℕ))
    → slots.loaded_slot ≡ some loaded
    → loaded < 2
    → begin_save sort slots reader buffer sequence ≡ (ok (c, first), bytes)
    → (slot_name c.target_slot ≢ slot_name loaded)
      × (Proper c.target_slot first.request × All (ProperUpdate c.target_slot) (updates c answers))
unfolding begin_save
save_spares_loaded sort slots reader buffer bytes sequence loaded c first answers e h b =
    let generation = next_u32 slots.loaded_generation in
    let (target, (positive, request)) =
      begun-Proper slots reader (choose_target slots.loaded_slot) generation sequence _ c first
        (encode-used sort reader generation buffer) (ap (λ r. r.0) b) in
    let other : slot_name (choose_target slots.loaded_slot) ≢ slot_name loaded =
      rw e (choose_target-other loaded h) in
    (rw target other, (rw target request, updates-Proper c c.target_slot answers refl positive))
