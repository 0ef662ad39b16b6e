-- ===== src/Transfer/Upload/Stored.antt =====
-- What an upload through bulk_upload_pipeline.rs has stored, and what `finish` says of it.
use binbook.Prelude.{
  ℕ, suc, ◌-◌, ◌<◌, ◌≡◌, ◌⊎◌, ap, inl, inr, Option, none, some, List, [], ◌∷◌, ◌++◌, Result, ok,
  err, arith, length-append, if◌then◌else◌, ◌==◌, Option-cases, Result-cases,
}
use binbook.Prelude.{length as list_length}
use binbook.Checksum.Crc32.{update, update-append, iso_hdlc}
use binbook.Transfer.Slots.{u32_mod, Descriptor, complete_upload}
use binbook.Transfer.Slots.Invariant as Inv
use binbook.Transfer.Slots.Count.{complete_upload_count}
use binbook.Transfer.Upload.{
  Frame, Pipeline, Session, UploadError, slot, new, committed, crc_mismatch, FinishResponse,
  open_upload, admit, admit_in, take_for_storage, give_credit, store_in, complete_in,
  complete_storage, status, finish, abort,
}
use binbook.Transfer.Upload.Invariant.{IsValid, new-IsValid}
use binbook.Transfer.Upload.Run.{
  Call, open_call, admit_call, take_call, complete_call, status_call, finish_call, abort_call, step,
  run, step-IsValid,
}

-- What bulk_upload_pipeline.rs has stored in the upload that was opened last, by the results of the
-- calls: the size and checksum that were announced, the bytes of the chunks whose completion the
-- pool accepted, the bytes of all chunks that the checksum has taken in, which are more where the
-- pool refused a completion, and how often it did.
pub record Account : Type 0 where
  pub total : ℕ
  pub crc : ℕ
  pub bytes : List ℕ
  pub fed : List ℕ
  pub refusals : ℕ

abbrev pub opened : ℕ → ℕ → Account
opened total crc = record { total = total; crc = crc; bytes = []; fed = []; refusals = 0 }

-- A completion: accepted, refused by the pool, or refused before the pool was asked.
abbrev pub completed {ℓ} : {A : Type ℓ} → Result UploadError A → List ℕ → Account → Account
completed (ok _) chunk a = record a { bytes = a.bytes ++ chunk; fed = a.fed ++ chunk }
completed (err (slot _)) chunk a = record a { fed = a.fed ++ chunk; refusals = suc a.refusals }
completed (err _) chunk a = a

abbrev pub announced {ℓ} : {A : Type ℓ} → Result UploadError A → ℕ → ℕ → Account → Account
announced (ok _) total crc a = opened total crc
announced (err _) total crc a = a

unfoldable pub account : Pipeline → Call → Account → Account
account p (open_call id total crc chunk window small) a =
    announced (open_upload p id total crc chunk window).0 total crc a
account p (complete_call d chunk) a = completed (complete_storage p d chunk).0 chunk a
account p _ a = a

unfoldable pub account_of : Pipeline → Account → List Call → Account
account_of p a [] = a
account_of p a (c ∷ cs) = account_of (step p c) (account p c a) cs

-- The session's own account of what is stored.
record Agrees (a : Account) (s : Session) : Type 0 where
  total_size : s.total_size ≡ a.total
  expected : s.expected_crc32 ≡ a.crc
  checksum : s.crc_state ≡ update (u32_mod - 1) a.fed
  durable : s.durable_offset ≡ list_length a.bytes
  refused : (0 < a.refusals) ⊎ (a.fed ≡ a.bytes)

abbrev Tracks : Account → Option Session → Type 0
Tracks a none = Unit {0}
Tracks a (some s) = Agrees a s

open-Tracks :
    (p : Pipeline) (id total crc chunk window : ℕ) (a : Account)
    → Tracks a p.active
    → Tracks
        (announced (open_upload p id total crc chunk window).0 total crc a)
        (open_upload p id total crc chunk window).1.active
unfolding open_upload update
open-Tracks p id total crc chunk window a h = ground arith

admit_in-Tracks :
    (p : Pipeline) (f : Frame) (s : Session) (a : Account)
    → p.active ≡ some s
    → Agrees a s
    → Tracks a (admit_in p s f).1.active
unfolding admit_in
admit_in-Tracks p f s a act h = ground arith

admit-Tracks :
    (p : Pipeline) (f : Frame) (a : Account) → Tracks a p.active → Tracks a (admit p f).1.active
unfolding admit
admit-Tracks p f a h = elim (Option-cases p.active) [
  | inl idle ↦ rw (idle, admit) h
  | inr (s, act) ↦ rw (act, admit) (admit_in-Tracks p f s a act (rw act at h))
]

status-Tracks :
    (p : Pipeline) (id : ℕ) (a : Account) → Tracks a p.active → Tracks a (status p id).1.active
unfolding status
status-Tracks p id a h = ground arith

take-Tracks :
    (p : Pipeline) (d : Descriptor) (a : Account)
    → Tracks a p.active
    → Tracks a (take_for_storage p d).1.active
unfolding take_for_storage
take-Tracks p d a h = ground arith

finish-Tracks :
    (p : Pipeline) (id : ℕ) (a : Account) → Tracks a p.active → Tracks a (finish p id).1.active
unfolding finish
finish-Tracks p id a h = ground arith

abort-Tracks :
    (p : Pipeline) (id : ℕ) (a : Account) → Tracks a p.active → Tracks a (abort p id).1.active
unfolding abort
abort-Tracks p id a h = ground arith

give_credit-Agrees :
    (s : Session) (durable : ℕ) (a : Account)
    → s.total_size ≡ a.total
    → s.expected_crc32 ≡ a.crc
    → s.crc_state ≡ update (u32_mod - 1) a.fed
    → durable ≡ list_length a.bytes
    → (0 < a.refusals) ⊎ (a.fed ≡ a.bytes)
    → Agrees a (give_credit s durable).1
unfolding give_credit
give_credit-Agrees s durable a b c d e f = ground arith

store_in-Tracks :
    (p : Pipeline) (s : Session) (d : Descriptor) (chunk : List ℕ) (a : Account)
    → Inv.IsValid p.pool
    → d.offset ≡ s.durable_offset
    → list_length chunk ≡ d.len
    → Agrees a s
    → Tracks (completed (store_in p s d chunk).0 chunk a) (store_in p s d chunk).1.active
unfolding store_in
store_in-Tracks p s d chunk a v next whole h =
    let fed : update s.crc_state chunk ≡ update (u32_mod - 1) (a.fed ++ chunk) =
      rw (h.checksum, update-append) in
    elim (Result-cases (complete_upload p.pool d).0) [
      | inr (x, bad) ↦
          rw (bad, store_in)
            (record {
              total_size = h.total_size;
              expected = h.expected;
              checksum = fed;
              durable = h.durable;
              refused = inl (omega arith);
            })
      | inl (durable, good) ↦
          let s' : Session = record s { crc_state = update s.crc_state chunk } in
          let end =
            (complete_upload_count p.pool d v (λ i. (good i, (complete_upload p.pool d).1))).2 in
          let same : (0 < a.refusals) ⊎ (a.fed ++ chunk ≡ a.bytes ++ chunk) = elim h.refused [
            | inl l ↦ inl l
            | inr e ↦ inr (ap (λ b. b ++ chunk) e)
          ] in
          rw (good, store_in)
            (give_credit-Agrees s' durable (completed (ok durable) chunk a) h.total_size h.expected
              fed (omega (arith, end, next, whole, h.durable, length-append a.bytes chunk)) same)
    ]

complete_in-Tracks :
    (p : Pipeline) (s : Session) (d : Descriptor) (chunk : List ℕ) (a : Account)
    → Inv.IsValid p.pool
    → p.active ≡ some s
    → Agrees a s
    → Tracks (completed (complete_in p s d chunk).0 chunk a) (complete_in p s d chunk).1.active
unfolding complete_in
complete_in-Tracks p s d chunk a v act h = ground (arith, store_in-Tracks p s d chunk a v)

complete-Tracks :
    (p : Pipeline) (d : Descriptor) (chunk : List ℕ) (a : Account)
    → Inv.IsValid p.pool
    → Tracks a p.active
    → Tracks
        (completed (complete_storage p d chunk).0 chunk a)
        (complete_storage p d chunk).1.active
unfolding complete_storage
complete-Tracks p d chunk a v h = elim (Option-cases p.active) [
  | inl idle ↦ rw (idle, complete_storage) h
  | inr (s, act) ↦ rw (act, complete_storage) (complete_in-Tracks p s d chunk a v act (rw act at h))
]

account-Tracks :
    (p : Pipeline) (c : Call) (a : Account)
    → IsValid p
    → Tracks a p.active
    → Tracks (account p c a) (step p c).active
unfolding account step
account-Tracks p (open_call id total crc chunk window small) a v h =
    open-Tracks p id total crc chunk window a h
account-Tracks p (admit_call f) a v h = admit-Tracks p f a h
account-Tracks p (take_call d) a v h = take-Tracks p d a h
account-Tracks p (complete_call d chunk) a v h = complete-Tracks p d chunk a v.pool_valid h
account-Tracks p (status_call id) a v h = status-Tracks p id a h
account-Tracks p (finish_call id) a v h = finish-Tracks p id a h
account-Tracks p (abort_call id) a v h = abort-Tracks p id a h

account_of-Tracks :
    (p : Pipeline) (cs : List Call) (a : Account)
    → IsValid p
    → Tracks a p.active
    → Tracks (account_of p a cs) (run p cs).active
unfolding account_of run
account_of-Tracks p [] a v h = h
account_of-Tracks p (c ∷ cs) a v h =
    account_of-Tracks (step p c) cs (account p c a) (step-IsValid p c v) (account-Tracks p c a v h)

new-Tracks : Tracks (opened 0 0) new.active
unfolding new
new-Tracks = tt

finish_lem :
    (p : Pipeline) (id : ℕ) (a : Account) {r : FinishResponse} {q : Pipeline}
    → Tracks a p.active
    → finish p id ≡ (ok r, q)
    → (list_length a.bytes ≡ a.total)
      × (r.total_bytes ≡ a.total)
      × (r.computed_crc32 ≡ iso_hdlc a.fed)
      × ((0 < a.refusals) ⊎ (a.fed ≡ a.bytes))
      × (r.result ≡ (if iso_hdlc a.fed == a.crc then committed else crc_mismatch))
      × (q.active ≡ none)
unfolding finish iso_hdlc
finish_lem p id a t h = ground arith

-- After any sequence of calls on a new pipeline, whatever their arguments and results, an upload
-- that `finish` accepts was stored whole: the chunks whose completion was accepted since it was
-- opened, in this order, have as many bytes as `open` announced. The response gives the CRC-32 of the
-- chunks that the checksum took in and says that the upload is committed exactly when that is the
-- announced checksum. These are the bytes that were stored, unless the pool refused a completion
-- whose offset and length fitted, as such a chunk is taken in too. The pipeline is idle afterwards.
pub finish-account_of :
    (cs : List Call) (id : ℕ) {r : FinishResponse} {q : Pipeline}
    → finish (run new cs) id ≡ (ok r, q)
    → let a = account_of new (opened 0 0) cs in
      (list_length a.bytes ≡ a.total)
      × (r.total_bytes ≡ a.total)
      × (r.computed_crc32 ≡ iso_hdlc a.fed)
      × ((0 < a.refusals) ⊎ (a.fed ≡ a.bytes))
      × (r.result ≡ (if iso_hdlc a.fed == a.crc then committed else crc_mismatch))
      × (q.active ≡ none)
finish-account_of cs id h =
    let a = account_of new (opened 0 0) cs in
    finish_lem (run new cs) id a (account_of-Tracks new cs (opened 0 0) new-IsValid new-Tracks) h
