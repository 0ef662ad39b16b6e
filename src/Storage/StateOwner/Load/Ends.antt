-- ===== src/Storage/StateOwner/Load/Ends.antt =====
-- How many requests a load of state_owner.rs sends.
use binbook.Prelude.{
  ℕ, suc, ◌+◌, ◌*◌, ◌-◌, ◌/◌, ◌%◌, ◌^◌, ◌≤◌, ◌<◌, ◌≡◌, ◌≢◌, refl, min, ap, ◌∙◌, true, not, ◌⊎◌,
  ◌||◌, ◌==◌, ltb, ltb→lt, Option, none, some, List, [], ◌∷◌, All, length, Result, ok, err,
  Bool-cases, Result-cases, inl, inr, arith, take,
}
use binbook.Reader.State.Wire.{decode, state_header_size}
use binbook.Storage.Types.{
  Response, CompletionError, ResponseEnvelope, client_eq, state_client, validate_len,
}
use binbook.Storage.StateOwner.{OwnerStateSlots, read_into, envelope, max_state_bytes}
use binbook.Storage.StateOwner.Load.{
  StateLoadError, correlation, completion, StateLoadUpdate, panics, LoadPhase, size, read, complete,
  StateLoadClient, Accepted, begin_load, issue_read, next_slot, finish_with, finish_slot, choose,
  is_newer, answer, accept,
}

-- The requests that a slot may need: one for its size and three for its bytes.
abbrev slot_budget : ℕ
slot_budget = 4

-- The reads that are wanted for so many bytes.
abbrev chunks : ℕ → ℕ
chunks n = (n + 4095) / 4096

left_in : LoadPhase → ℕ
left_in (size slot) = (4 - slot) * slot_budget
left_in (read slot total offset len) = (3 - slot) * slot_budget + chunks (total - offset)
left_in complete = 0

-- A phase of a load: one of four slots, at most the size of a state, and a chunk that is not empty.
Fits : LoadPhase → Type 0
Fits (size slot) = slot < 4
Fits (read slot total offset len) =
    (slot < 4)
    × ((total ≤ max_state_bytes) × ((offset < total) × (len ≡ min (total - offset) 4096 % 2 ^ 16)))
Fits complete = Unit {0}

-- What an accepted answer makes of a load that has `n` requests left.
record Less (n : ℕ) (c : StateLoadClient) (u : StateLoadUpdate) : Type 0 where
  fits : Fits c.phase
  less : left_in c.phase < n
  bounded : u ≢ panics

pub chunk_len : (n : ℕ) → 0 < n → validate_len (min n 4096 % 2 ^ 16) ≡ ok tt
unfolding validate_len
chunk_len n h = ground (arith, h)

issue_read-Less :
    (c : StateLoadClient) (slot total offset n : ℕ)
    → slot < 4
    → total ≤ max_state_bytes
    → offset < total
    → (3 - slot) * slot_budget + chunks (total - offset) < n
    → Less n (issue_read c slot total offset).0 (issue_read c slot total offset).1
unfolding issue_read left_in Fits
issue_read-Less c slot total offset n a b d h =
    let valid = chunk_len (total - offset) (omega (arith, d)) in
    record {
      fits = (a, (b, (d, refl)));
      less = h;
      bounded = rw (issue_read, read_into, valid) (λ e. cc);
    }

finish_with-Less :
    (next : Option ℕ) (c : StateLoadClient) (n slot : ℕ)
    → ((s : ℕ) → next ≡ some s → (s < 4) × (slot < s))
    → (3 - slot) * slot_budget < n
    → Less n (finish_with next c).0 (finish_with next c).1
unfolding finish_with left_in Fits envelope
finish_with-Less none c n slot k h = record {
  fits = tt;
  less = omega (arith, h);
  bounded = λ e. cc;
}
finish_with-Less (some s) c n slot k h = record {
  fits = (k s refl).0;
  less = omega (arith, h, (k s refl).0, (k s refl).1);
  bounded = λ e. cc;
}

pub next_slot-after :
    (slot : ℕ) (selected : Option ℕ) (s : ℕ)
    → next_slot slot selected ≡ some s
    → (s < 4) × (slot < s)
unfolding next_slot
next_slot-after slot selected s e = ground (arith, e)

finish_slot-Less :
    (c : StateLoadClient) (slot n : ℕ)
    → (3 - slot) * slot_budget < n
    → Less n (finish_slot c slot).0 (finish_slot c slot).1
unfolding finish_slot
finish_slot-Less c slot n h =
    finish_with-Less (next_slot slot c.selected_slot) c n slot
      (next_slot-after slot c.selected_slot) h

choose_phase :
    (c : StateLoadClient) (slot total : ℕ) (buffer : List ℕ)
    → (choose c slot total buffer).phase ≡ c.phase
unfolding choose
choose_phase c slot total buffer = elim (Result-cases (decode (take total buffer))) [
  | inr (e, f) ↦ rw (choose, f) refl
  | inl (v, f) ↦ elim (Bool-cases (is_newer c.selected_slot c.selected_generation v.generation)) [
    | inl g ↦ rw (choose, f, g) refl
    | inr g ↦ rw (choose, f, g) refl
  ]
]

-- An answer moves a load on, or is refused and leaves it where it is.
data Moves (phase : LoadPhase) (out : Accepted) : Type 0 where
  refused : (e : StateLoadError) → out.1 ≡ err e → out.0.phase ≡ phase → Moves phase out
  moved : (u : StateLoadUpdate) → out.1 ≡ ok u → Less (left_in phase) out.0 u → Moves phase out

size-Moves :
    (slot n : ℕ) (c : StateLoadClient) (buffer : List ℕ)
    → slot < 4
    → Moves (size slot) (answer (size slot) (ok (Response.size_of n)) c buffer)
unfolding answer left_in
size-Moves slot n c buffer h =
    elim (Bool-cases
      ((ltb n state_header_size || ltb max_state_bytes n) || ltb (length buffer) n)) [
        | inl e ↦ rw e (moved _ refl (finish_slot-Less c slot _ (omega (arith, h))))
        | inr e ↦
            let least : 72 ≤ n = ground (arith, e) in
            let most : n ≤ 8872 = ground (arith, e) in
            rw e (
              moved _ refl (
                issue_read-Less c slot n 0 _ h most (omega (arith, least))
                  (omega (arith, h, least, most))))
      ]

read-Moves :
    (slot total offset len actual : ℕ) (c : StateLoadClient) (buffer : List ℕ)
    → c.phase ≡ read slot total offset len
    → Fits (read slot total offset len)
    → Moves
        (read slot total offset len)
        (answer (read slot total offset len) (ok (Response.read_bytes actual)) c buffer)
unfolding answer left_in Fits
read-Moves slot total offset len actual c buffer at (a, (b, (d, l))) =
    elim (Bool-cases (not (actual == len))) [
      | inl e ↦ rw e (refused completion refl at)
      | inr e ↦ elim (Bool-cases (ltb (offset + len) total)) [
        | inl f ↦
            let more = ltb→lt _ _ f in
            rw (e, f)
              (moved _ refl (
                issue_read-Less c slot total (offset + len) _ a b more
                  (omega (arith, b, d, l, more))))
        | inr f ↦
            rw (e, f)
              (moved _ refl
                (finish_slot-Less (choose c slot total buffer) slot _ (omega (arith, d))))
      ]
    ]

answer-Moves :
    (phase : LoadPhase) (r : Result CompletionError Response) (c : StateLoadClient)
    (buffer : List ℕ)
    → c.phase ≡ phase
    → Fits phase
    → Moves phase (answer phase r c buffer)
unfolding answer left_in Fits
answer-Moves (size slot) (ok (Response.size_of n)) c buffer at h = size-Moves slot n c buffer h
answer-Moves (size slot) (err _) c buffer at h =
    moved _ refl (finish_slot-Less c slot _ (omega (arith, h)))
answer-Moves (read slot total offset len) (ok (Response.read_bytes actual)) c buffer at h =
    read-Moves slot total offset len actual c buffer at h
answer-Moves (read slot total offset len) (err _) c buffer at h =
    moved _ refl (finish_slot-Less c slot _ (omega (arith, h.1.1.0)))
answer-Moves _ _ c buffer at h = refused completion refl at

accept-Moves :
    (c : StateLoadClient) (r : ResponseEnvelope) (buffer : List ℕ)
    → Fits c.phase
    → Moves c.phase (accept c r buffer)
unfolding accept
accept-Moves c r buffer h =
    elim (Bool-cases
      (not (client_eq r.client state_client) || not (r.sequence == c.expected_sequence))) [
        | inl e ↦ rw e (refused correlation refl refl)
        | inr e ↦ rw e (answer-Moves c.phase r.response c buffer refl h)
      ]

-- The updates of a load that gets these answers, each with what the buffer holds then.
unfoldable pub updates :
    StateLoadClient
    → List (ResponseEnvelope × List ℕ)
    → List (Result StateLoadError StateLoadUpdate)
unfolding accept
updates c [] = []
updates c ((r, buffer) ∷ answers) = (accept c r buffer).1 ∷ updates (accept c r buffer).0 answers

-- The load after these answers.
unfoldable pub after : StateLoadClient → List (ResponseEnvelope × List ℕ) → StateLoadClient
unfolding accept
after c [] = c
after c ((r, buffer) ∷ answers) = after (accept c r buffer).0 answers

-- How many of them are not errors.
abbrev pub accepted_count : List (Result StateLoadError StateLoadUpdate) → ℕ
accepted_count [] = 0
accepted_count (ok u ∷ us) = suc (accepted_count us)
accepted_count (err e ∷ us) = accepted_count us

-- The answers that are accepted come off the requests that are left.
updates-count :
    (c : StateLoadClient) (answers : List (ResponseEnvelope × List ℕ))
    → Fits c.phase
    → All (λ u. u ≢ ok panics) (updates c answers)
      × (Fits (after c answers).phase
          × (accepted_count (updates c answers) + left_in (after c answers).phase
              ≤ left_in c.phase))
unfolding updates after
updates-count c [] h = (tt, (h, omega arith))
updates-count c ((r, buffer) ∷ answers) h = elim (accept-Moves c r buffer h) [
  | refused e f same ↦
      let (later, (fits, count)) = updates-count (accept c r buffer).0 answers (rw same h) in
      rw f ((λ k. absurd (cc), later), (fits, rw same at count))
  | moved u f less ↦
      let (later, (fits, count)) = updates-count (accept c r buffer).0 answers less.fits in
      rw f ((λ k. less.bounded (ok_inj k), later), (fits, omega (arith, count, less.less)))
]
  where
    ok_inj :
        {u v : StateLoadUpdate}
        → ◌≡◌ {A = Result StateLoadError StateLoadUpdate} (ok u) (ok v)
        → u ≡ v
    ok_inj e = cc

-- The failure of the request that was sent last.
abbrev pub failure : StateLoadClient → CompletionError → ResponseEnvelope
failure c x = record { client = state_client; sequence = c.expected_sequence; response = err x }

answer-failure :
    (phase : LoadPhase) (x : CompletionError) (c : StateLoadClient) (buffer : List ℕ)
    → Fits phase
    → (phase ≡ complete)
      ⊎ ((0 < left_in phase) × ((u : StateLoadUpdate) × ((answer phase (err x) c buffer).1 ≡ ok u)))
unfolding answer left_in Fits
answer-failure (size slot) x c buffer h = inr (omega (arith, h), (_, refl))
answer-failure (read slot total offset len) x c buffer h = inr (omega (arith, h.1.1.0), (_, refl))
answer-failure complete x c buffer h = inl refl

accept-failure :
    (c : StateLoadClient) (x : CompletionError) (buffer : List ℕ)
    → (accept c (failure c x) buffer) ≡ answer c.phase (err x) c buffer
unfolding accept
accept-failure c x buffer =
    let same : (c.expected_sequence == c.expected_sequence) ≡ true = ground arith in rw same refl

-- A load comes to its end: whatever is answered to it in whatever order, no read that it sends is
-- refused for its length and at most sixteen answers are accepted. Then it is complete, or it has
-- accepted fewer than sixteen and the failure of the request that it sent last is accepted too.
pub load_ends :
    (slots : OwnerStateSlots) (sequence : ℕ) (answers : List (ResponseEnvelope × List ℕ))
    (x : CompletionError) (buffer : List ℕ)
    → let us = updates (begin_load slots sequence).0 answers in
      let c = after (begin_load slots sequence).0 answers in
      All (λ u. u ≢ ok panics) us
      × ((accepted_count us ≤ 16)
          × ((c.phase ≡ complete)
              ⊎ ((accepted_count us < 16)
                  × ((u : StateLoadUpdate) × ((accept c (failure c x) buffer).1 ≡ ok u)))))
unfolding begin_load left_in Fits
load_ends slots sequence answers x buffer =
    let c = after (begin_load slots sequence).0 answers in
    let (bounded, (fits, count)) =
      updates-count (begin_load slots sequence).0 answers (omega arith) in
    (
      bounded,
      (
        omega (arith, count),
        elim (answer-failure c.phase x c buffer fits) [
          | inl e ↦ inl e
          | inr (more, (u, e)) ↦
              inr (omega (arith, count, more), (u, ap (λ a. a.1) (accept-failure c x buffer) ∙ e))
        ],
      ),
    )
