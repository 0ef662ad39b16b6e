-- ===== src/Storage/StateOwner/Load/Selects.antt =====
-- What a load of state_owner.rs selects of the files that it reads.
use mathlib.Core.List.{Memᴰ}
use binbook.Prelude.{
  ℕ, ◌+◌, ◌-◌, ◌^◌, ◌%◌, ◌<◌, ◌≤◌, ◌≡◌, refl, inl, inr, false, not, ◌||◌, ◌==◌, ltb, ltb→lt, Option,
  none, some, List, [], ◌∷◌, length, Result, ok, err, Bool-cases, Result-cases, arith, take,
}
use binbook.Reader.State.{ReaderState}
use binbook.Reader.State.Wire.{decode, state_header_size}
use binbook.Storage.Types.{
  Request, Response, CompletionError, ResponseEnvelope, client_eq, state_client, state,
}
use binbook.Storage.StateOwner.{
  OwnerStateSlots, load_slot_name, envelope, read_into, max_state_bytes,
}
use binbook.Storage.StateOwner.Load.{
  StateLoadError, StateLoadUpdate, LoadPhase, size, read, complete, StateLoadClient, begin_load,
  issue_read, next_slot, finish_with, finish_slot, choose, is_newer, answer, accept,
}
use binbook.Storage.StateOwner.Load.Ends.{chunk_len, next_slot-after, after}
use binbook.Storage.StateOwner.Load.Reads.{
  Whole, sent_next, filled, noted, reads, Undecodable, Selected, nothing, chosen,
}

undecodable-Selected :
    {seen : List Whole} {target : ReaderState} {slot : Option ℕ} {generation : ℕ} (w : Whole)
    → Undecodable w
    → Selected seen target slot generation
    → Selected (w ∷ seen) target slot generation
undecodable-Selected w u (nothing a b c) = nothing a b (u, c)
undecodable-Selected w u (chosen k bytes a m d s g) = chosen k bytes a (Memᴰ.tail m) d s g

older-Selected :
    {seen : List Whole} {target : ReaderState} {slot : Option ℕ} {generation : ℕ} (w : Whole)
    (n : ℕ)
    → is_newer slot generation n ≡ false
    → Selected seen target slot generation
    → Selected (w ∷ seen) target slot generation
unfolding is_newer
older-Selected w n e (nothing a b c) = absurd (cc (rw a at e))
older-Selected w n e (chosen k bytes a m d s g) = chosen k bytes a (Memᴰ.tail m) d s g

abbrev Selects : List Whole → StateLoadClient → Type 0
Selects seen c = Selected seen c.target c.selected_slot c.selected_generation

-- The slot of a phase is one of four, and the request that was sent last asks for its file.
Asks : LoadPhase → Request → Type 0
Asks (size slot) sent = slot < 4
Asks (read slot total offset len) sent =
    (slot < 4) × (sent ≡ Request.read (load_slot_name slot) offset (offset % 2 ^ 16) len state)
Asks complete sent = Unit {0}

record Sound (seen : List Whole) (c : StateLoadClient) (sent : Request) : Type 0 where
  selects : Selects seen c
  asks : Asks c.phase sent
  done :
      c.phase ≡ complete
      → (c.slots.loaded_slot ≡ c.selected_slot)
        × (c.slots.loaded_generation ≡ c.selected_generation)

choose-Selects :
    (c : StateLoadClient) (slot total : ℕ) (buffer : List ℕ) (seen : List Whole)
    → slot < 4
    → Selects seen c
    → Selects ((load_slot_name slot, take total buffer) ∷ seen) (choose c slot total buffer)
unfolding choose
choose-Selects c slot total buffer seen a h = elim (Result-cases (decode (take total buffer))) [
  | inr (e, f) ↦ rw (choose, f) (undecodable-Selected _ (e, f) h)
  | inl (v, f) ↦ elim (Bool-cases (is_newer c.selected_slot c.selected_generation v.generation)) [
    | inl g ↦ rw (choose, f, g) (chosen slot (take total buffer) a (Memᴰ.head refl) f refl refl)
    | inr g ↦ rw (choose, f, g) (older-Selected _ v.generation g h)
  ]
]

issue_read-Sound :
    (c : StateLoadClient) (slot total offset : ℕ) (seen : List Whole) (sent : Request)
    → slot < 4
    → offset < total
    → Selects seen c
    → Sound seen
        (issue_read c slot total offset).0
        (sent_next sent (ok (issue_read c slot total offset).1))
unfolding issue_read Asks read_into envelope
issue_read-Sound c slot total offset seen sent a b h =
    let valid = chunk_len (total - offset) (omega (arith, b)) in
    record {
      selects = h;
      asks = (a, rw (issue_read, read_into, valid) refl);
      done = λ e. absurd (cc);
    }

finish_with-Sound :
    (next : Option ℕ) (c : StateLoadClient) (seen : List Whole) (sent : Request)
    → ((s : ℕ) → next ≡ some s → s < 4)
    → Selects seen c
    → Sound seen (finish_with next c).0 (sent_next sent (ok (finish_with next c).1))
unfolding finish_with Asks envelope
finish_with-Sound none c seen sent k h = record { selects = h; asks = tt; done = λ e. (refl, refl) }
finish_with-Sound (some slot) c seen sent k h = record {
  selects = h;
  asks = k slot refl;
  done = λ e. absurd (cc);
}

finish_slot-Sound :
    (c : StateLoadClient) (slot : ℕ) (seen : List Whole) (sent : Request)
    → Selects seen c
    → Sound seen (finish_slot c slot).0 (sent_next sent (ok (finish_slot c slot).1))
unfolding finish_slot
finish_slot-Sound c slot seen sent h =
    finish_with-Sound (next_slot slot c.selected_slot) c seen sent
      (λ s e. (next_slot-after slot c.selected_slot s e).0) h

-- The outcome of an answer, with what it adds to the files that were read.
abbrev Goes :
    List Whole → Request → StateLoadClient × Result StateLoadError StateLoadUpdate → Type 0
Goes seen sent out = Sound seen out.0 (sent_next sent out.1)

size-Goes :
    (slot n : ℕ) (c : StateLoadClient) (buffer : List ℕ) (seen : List Whole) (sent : Request)
    → slot < 4
    → Selects seen c
    → Goes seen sent (answer (size slot) (ok (Response.size_of n)) c buffer)
unfolding answer
size-Goes slot n c buffer seen sent a h =
    elim (Bool-cases
      ((ltb n state_header_size || ltb max_state_bytes n) || ltb (length buffer) n)) [
        | inl e ↦ rw e (finish_slot-Sound c slot seen sent h)
        | inr e ↦
            let least : 72 ≤ n = ground (arith, e) in
            rw e (issue_read-Sound c slot n 0 seen sent a (omega (arith, least)) h)
      ]

read-Goes :
    (slot total offset len actual : ℕ) (c : StateLoadClient) (buffer : List ℕ) (seen : List Whole)
    (sent : Request)
    → c.phase ≡ read slot total offset len
    → Sound seen c sent
    → (slot < 4)
    → sent ≡ Request.read (load_slot_name slot) offset (offset % 2 ^ 16) len state
    → Goes
        (filled (read slot total offset len) (ok (Response.read_bytes actual)) sent buffer seen)
        sent
        (answer (read slot total offset len) (ok (Response.read_bytes actual)) c buffer)
unfolding answer
read-Goes slot total offset len actual c buffer seen sent at h a asked =
    elim (Bool-cases (not (actual == len))) [
      | inl e ↦ rw (asked, e) (rw asked at h)
      | inr e ↦ elim (Bool-cases (ltb (offset + len) total)) [
        | inl f ↦
            rw (asked, e, f)
              (issue_read-Sound c slot total (offset + len) seen _ a (ltb→lt _ _ f) h.selects)
        | inr f ↦
            rw (asked, e, f)
              (finish_slot-Sound (choose c slot total buffer) slot
                ((load_slot_name slot, take total buffer) ∷ seen) _
                (choose-Selects c slot total buffer seen a h.selects))
      ]
    ]

answer-Goes :
    (phase : LoadPhase) (r : Result CompletionError Response) (c : StateLoadClient)
    (buffer : List ℕ) (seen : List Whole) (sent : Request)
    → c.phase ≡ phase
    → Asks phase sent
    → Sound seen c sent
    → Goes (filled phase r sent buffer seen) sent (answer phase r c buffer)
unfolding answer Asks
answer-Goes (size slot) (ok (Response.size_of n)) c buffer seen sent at a h =
    size-Goes slot n c buffer seen sent a h.selects
answer-Goes (size slot) (err _) c buffer seen sent at a h =
    finish_slot-Sound c slot seen sent h.selects
answer-Goes (read slot total offset len) (ok (Response.read_bytes actual)) c buffer seen sent at a
      h =
    read-Goes slot total offset len actual c buffer seen sent at h a.0 a.1
answer-Goes (read slot total offset len) (err _) c buffer seen sent at a h =
    finish_slot-Sound c slot seen sent h.selects
answer-Goes _ _ c buffer seen sent at a h = h

accept-Goes :
    (c : StateLoadClient) (r : ResponseEnvelope) (buffer : List ℕ) (seen : List Whole)
    (sent : Request)
    → Sound seen c sent
    → Goes (noted c sent r buffer seen) sent (accept c r buffer)
unfolding accept noted
accept-Goes c r buffer seen sent h =
    elim (Bool-cases
      (not (client_eq r.client state_client) || not (r.sequence == c.expected_sequence))) [
        | inl e ↦ rw e h
        | inr e ↦ rw e (answer-Goes c.phase r.response c buffer seen sent refl h.asks h)
      ]

reads-Sound :
    (c : StateLoadClient) (sent : Request) (seen : List Whole)
    (answers : List (ResponseEnvelope × List ℕ))
    → Sound seen c sent
    → (last : Request) × Sound (reads c sent seen answers) (after c answers) last
unfolding after reads
reads-Sound c sent seen [] h = (sent, h)
reads-Sound c sent seen ((r, buffer) ∷ answers) h =
    reads-Sound (accept c r buffer).0 (sent_next sent (accept c r buffer).1)
      (noted c sent r buffer seen) answers (accept-Goes c r buffer seen sent h)

-- Whatever is answered to a load, once it is complete, of the files that it read to their ends
-- either none decodes, the target is the empty state and no slot is remembered; or the target is
-- what the bytes read from the file of a slot `k` of 0 to 3 decode to, and the slot `k % 2` is
-- remembered with the generation of the target.
pub load_selects :
    (slots : OwnerStateSlots) (sequence : ℕ) (answers : List (ResponseEnvelope × List ℕ))
    → (after (begin_load slots sequence).0 answers).phase ≡ complete
    → let (c, first) = begin_load slots sequence in
      let last = after c answers in
      Selected
        (reads c first.request [] answers)
        last.target
        last.slots.loaded_slot
        last.slots.loaded_generation
unfolding begin_load Asks
load_selects slots sequence answers e =
    let (c, first) = begin_load slots sequence in
    let start : Sound [] c first.request = record {
      selects = nothing refl refl tt;
      asks = omega arith;
      done = λ k. absurd (cc);
    } in
    let (sent, h) = reads-Sound c first.request [] answers start in
    let (slot, generation) = h.done e in rw (slot, generation) h.selects
