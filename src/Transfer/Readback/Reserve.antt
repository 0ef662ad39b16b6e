-- ===== src/Transfer/Readback/Reserve.antt =====
-- What `reserve_next` of bulk_readback_pipeline.rs hands out.
use binbook.Prelude.{
  ℕ, ◌+◌, ◌-◌, ◌%◌, ◌≤◌, ◌<◌, ◌≡◌, some, List, [], ◌∷◌, ◌++◌, min, arith, Option-cases,
  Result-cases, inl, inr, ok, position, ap, sym, ◌∙◌,
}
use binbook.Transfer.Slots.{
  transfer_data_bytes, Descriptor, SlotPool, is_free, claim, reserve_read, u16_mod,
}
use binbook.Transfer.Readback.{Pipeline, Session, push_back, reserve_in, reserve_next}

reserve_read-ok :
    (pool : SlotPool) (offset len : ℕ) {d : Descriptor}
    → (reserve_read pool offset len).0 ≡ ok d
    → (d.offset ≡ offset) × (d.len ≡ len) × (0 < len) × (len ≤ transfer_data_bytes)
unfolding reserve_read claim
reserve_read-ok pool offset len e = elim (Option-cases (position is_free pool.slots)) [
  | inl busy ↦ ground (arith, e)
  | inr (i, free_at) ↦ ground (arith, e)
]

push_back-some :
    (q : List Descriptor) (d : Descriptor) {q' : List Descriptor}
    → push_back q d ≡ some q'
    → q' ≡ q ++ (d ∷ [])
unfolding push_back
push_back-some q d e = ground arith

-- The chunks that `reserve_next` hands out follow one another: each starts where the last one ended,
-- is not empty and at most as long as the chunk size, ends within the readback, and joins the queue
-- at its end.
pub reserve_next_lem :
    (p : Pipeline) (s : Session) {d : Descriptor} {p' : Pipeline}
    → p.active ≡ some s
    → s.produced_offset ≤ s.total_size
    → s.chunk_size ≤ transfer_data_bytes
    → reserve_next p ≡ (ok d, p')
    → (s' : Session) × (p'.active ≡ some s')
      × (d.offset ≡ s.produced_offset)
      × (s'.produced_offset ≡ d.offset + d.len)
      × (s'.produced_offset ≤ s.total_size)
      × (0 < d.len)
      × (d.len ≤ s.chunk_size)
      × (p'.queued ≡ p.queued ++ (d ∷ []))
unfolding reserve_next reserve_in
reserve_next_lem p s {d} {p'} open_session produced chunk h =
    let len = min (s.total_size - s.produced_offset) s.chunk_size % u16_mod in
    elim (Result-cases (reserve_read p.pool s.produced_offset len).0) [
      | inr (e, refused) ↦ ground (arith, h)
      | inl (d', got) ↦ elim (Option-cases (push_back p.queued d')) [
        | inl filled ↦ ground (arith, h)
        | inr (q, pushed) ↦
            let k = reserve_read-ok p.pool s.produced_offset len got in
            let same : d' ≡ d = ground (arith, h) in
            let after : Session = record s { produced_offset = s.produced_offset + len } in
            let result : record p {
              pool = (reserve_read p.pool s.produced_offset len).1;
              queued = q;
              active = some after;
            }
                ≡ p' =
              ground (arith, h) in
            (
              after,
              ap (λ r. r.active) (sym result),
              ap (λ r. r.offset) (sym same) ∙ k.0,
              ground (arith, k, same),
              ground (arith, k),
              ground (arith, k, same),
              ground (arith, k, same),
              ap (λ r. r.queued) (sym result)
                  ∙ push_back-some p.queued d' pushed
                  ∙ ap (λ r. p.queued ++ (r ∷ [])) same,
            )
      ]
    ]
