-- ===== src/Transfer/Readback/Acknowledge.antt =====
-- What `apply_credit` of bulk_readback_pipeline.rs confirms.
use binbook.Prelude.{
  ℕ, ◌≡◌, some, foldl, drop-drop_one, Bool-cases, Result-cases, inl, inr, ◌∙◌, sym, ap,
  Option-cases, List, [], ◌∷◌, take, drop, arith, ◌==◌, ok,
}
use binbook.Prelude.{length as list_length}
use binbook.Checksum.Crc32.{update}
use binbook.Transfer.Slots.{Descriptor, ack_read}
use binbook.Transfer.Upload.{Credit}
use binbook.Transfer.Readback.{Pipeline, Session, acknowledge, last_end, check_credit, apply_credit}

-- A run of `acknowledge` that succeeds feeds the acknowledged bytes to the checksum in their order,
-- takes the acknowledged chunks off the queue, and keeps the produced offset.
acknowledge_lem :
    (p : Pipeline) (s : Session) (ds : List Descriptor) (bytes : List (List ℕ)) {s' : Session}
    {p' : Pipeline}
    → list_length ds ≡ list_length bytes
    → acknowledge p s ds bytes ≡ (ok s', p')
    → (s'.crc_state ≡ foldl update s.crc_state bytes)
      × (p'.queued ≡ drop (list_length ds) p.queued)
      × (s'.produced_offset ≡ s.produced_offset)
unfolding acknowledge
acknowledge_lem p s [] [] l h = ground (arith, h)
acknowledge_lem p s [] (b ∷ bs) l h = ground (arith, l)
acknowledge_lem p s (d ∷ ds) [] l h = ground (arith, l)
acknowledge_lem p s (d ∷ ds) (b ∷ bs) {s'} {p'} l h = elim (Bool-cases (list_length b == d.len)) [
  | inr bad ↦ ground (arith, h)
  | inl good ↦ elim (Result-cases (ack_read p.pool d).0) [
    | inr (e, refused) ↦ ground (arith, h)
    | inl (u, acked) ↦
        let ih =
          acknowledge_lem
            (record p {
              pool = (ack_read p.pool d).1;
              queued = drop 1 p.queued;
              active = some (record s { crc_state = update s.crc_state b });
            })
            (record s { crc_state = update s.crc_state b }) ds bs {s' = s'} {p' = p'}
            (omega (arith, l)) (ground arith) in
        (ih.0, ih.1 ∙ drop-drop_one (list_length ds) p.queued, ih.2)
  ]
]

check_credit-ok :
    (p : Pipeline) (s : Session) (c : Credit) (acknowledged : List (List ℕ)) {expected : ℕ}
    → check_credit p s c acknowledged ≡ ok expected
    → (expected ≡ c.durable_offset)
      × (list_length (take c.credits p.queued) ≡ c.credits)
      × (list_length acknowledged ≡ c.credits)
unfolding check_credit
check_credit-ok p s c acknowledged e = elim (Option-cases (last_end (take c.credits p.queued))) [
  | inl nothing ↦ ground (arith, e)
  | inr (end, last) ↦ ground (arith, e)
]

-- A credit that `apply_credit` accepts confirms what was sent: the durable offset is then the
-- credit's, the checksum has taken in the acknowledged bytes in their order, and as many chunks as
-- the credit counts have left the queue.
pub apply_credit_lem :
    (p : Pipeline) (s : Session) (c : Credit) (acknowledged : List (List ℕ)) {p' : Pipeline}
    → p.active ≡ some s
    → apply_credit p c acknowledged ≡ (ok tt, p')
    → (s' : Session) × (p'.active ≡ some s')
      × (s'.durable_offset ≡ c.durable_offset)
      × (s'.crc_state ≡ foldl update s.crc_state acknowledged)
      × (p'.queued ≡ drop c.credits p.queued)
unfolding apply_credit
apply_credit_lem p s c acknowledged {p'} open_session h =
    let ds = take c.credits p.queued in
    elim (Result-cases (check_credit p s c acknowledged)) [
      | inr (e, refused) ↦ ground (arith, h)
      | inl (expected, checked) ↦ elim (Result-cases (acknowledge p s ds acknowledged).0) [
        | inr (e, failed) ↦ ground (arith, h)
        | inl (s', acked) ↦
            let k = check_credit-ok p s c acknowledged checked in
            let after = (acknowledge p s ds acknowledged).1 in
            let l =
              acknowledge_lem p s ds acknowledged {s' = s'} {p' = after} (omega (arith, k.1, k.2))
                (λ i. (acked i, after)) in
            let result : record after { active = some (record s' { durable_offset = expected }) }
                ≡ p' =
              ground (arith, h) in
            (
              record s' { durable_offset = expected },
              ap (λ q. q.active) (sym result),
              k.0,
              l.0,
              ap (λ q. q.queued) (sym result) ∙ l.1 ∙ ap (λ n. drop n p.queued) k.1,
            )
      ]
    ]
