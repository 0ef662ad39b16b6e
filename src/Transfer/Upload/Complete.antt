-- ===== src/Transfer/Upload/Complete.antt =====
-- `complete_storage` of bulk_upload_pipeline.rs keeps the invariant.
use binbook.Prelude.{
  ℕ, ◌+◌, ◌≤◌, ◌<◌, ◌≡◌, inl, inr, not, ◌&&◌, List, Result, arith, ltb, ◌==◌, min, Bool-cases,
  Result-cases, Option-cases, ==_iff,
}
use binbook.Prelude.{length as list_length}
use binbook.Checksum.Crc32.{update}
use binbook.Transfer.Slots.{
  u32_mod, transfer_data_bytes, transfer_slot_count, Descriptor, SlotPool, SlotError,
  complete_upload, occupied,
}
use binbook.Transfer.Slots.Invariant.{
  for_upload, invalidate-IsValid, claim-IsValid, complete_upload-IsValid,
}
use binbook.Transfer.Slots.Invariant as Inv
use binbook.Transfer.Slots.Count.{held_bytes, complete_upload_count, complete_upload_error}
use binbook.Transfer.Upload.{
  Session, Pipeline, give_credit, store_in, complete_in, complete_storage,
}
use binbook.Transfer.Upload.Invariant.{IsValid, SessionFits}

-- The credit of one stored chunk: none is lost or made up.
give_credit-SessionFits :
    (pool : SlotPool) (s : Session) (durable : ℕ)
    → (0 < s.window) × (s.window ≤ transfer_slot_count)
    → (0 < s.chunk_size) × (s.chunk_size ≤ transfer_data_bytes)
    → (0 < s.total_size) × (s.total_size < u32_mod)
    → s.sender_credits + s.pending_credits + occupied pool + 1 ≡ s.window
    → s.pending_credits < s.window
    → durable + held_bytes pool ≡ s.admitted_offset
    → s.admitted_offset ≤ s.total_size
    → s.end_seen ≡ (s.admitted_offset == s.total_size)
    → SessionFits pool (give_credit s durable).1
unfolding give_credit
give_credit-SessionFits pool s durable w c t credits unsent bytes adm end =
    elim (Bool-cases
      (ltb (min (s.pending_credits + 1) 255) s.window && not (durable == s.total_size))) [
        | inl wait ↦ rw wait (record {
          window_fits = w;
          chunk_fits = c;
          total_fits = t;
          credits = omega arith;
          unsent = ground arith;
          bytes = bytes;
          admitted = adm;
          end_exact = end;
        })
        | inr send ↦ rw send (record {
          window_fits = w;
          chunk_fits = c;
          total_fits = t;
          credits = omega arith;
          unsent = ground arith;
          bytes = bytes;
          admitted = adm;
          end_exact = end;
        })
      ]

-- A completion of the pool, by its result.
completion :
    (p : SlotPool) (d : Descriptor) {r : Result SlotError ℕ}
    → (complete_upload p d).0 ≡ r
    → complete_upload p d ≡ (r, (complete_upload p d).1)
completion p d e = λ i. (e i, (complete_upload p d).1)

store_in-IsValid :
    (p : Pipeline) (s : Session) (d : Descriptor) (stored : List ℕ)
    → Inv.IsValid p.pool
    → SessionFits p.pool s
    → d.offset ≡ s.durable_offset
    → IsValid (store_in p s d stored).1
unfolding store_in
store_in-IsValid p s d stored v fit next =
    let v' = complete_upload-IsValid p.pool d v in
    elim (Result-cases (complete_upload p.pool d).0) [
      | inr (e, bad) ↦
          let same = complete_upload_error p.pool d (completion p.pool d bad) in
          rw (bad, store_in) (record { pool_valid = v'; active_fits = rw same (refit fit) })
      | inl (durable, good) ↦
          let (count, bytes, end) = complete_upload_count p.pool d v (completion p.pool d good) in
          rw (good, store_in)
            (record {
              pool_valid = v';
              active_fits =
                  give_credit-SessionFits _ _ durable fit.window_fits fit.chunk_fits fit.total_fits
                    (omega (arith, count, fit.credits)) fit.unsent
                    (omega (arith, bytes, end, next, fit.bytes)) fit.admitted fit.end_exact;
            })
    ]
  where
    refit :
        {pool : SlotPool}
        → SessionFits pool s
        → SessionFits pool (record s { crc_state = update s.crc_state stored })
    refit f = ground arith

complete_in-IsValid :
    (p : Pipeline) (s : Session) (d : Descriptor) (stored : List ℕ)
    → IsValid p
    → SessionFits p.pool s
    → IsValid (complete_in p s d stored).1
unfolding complete_in
complete_in-IsValid p s d stored v fit = elim (Bool-cases (d.offset == s.durable_offset)) [
  | inr other ↦ rw other v
  | inl next ↦ elim (Bool-cases (list_length stored == d.len)) [
    | inr short ↦ rw (next, short) v
    | inl whole ↦
        rw (next, whole) (store_in-IsValid p s d stored v.pool_valid fit ((==_iff _ _).0 next))
  ]
]

pub complete_storage-IsValid :
    (p : Pipeline) (d : Descriptor) (stored : List ℕ)
    → IsValid p
    → IsValid (complete_storage p d stored).1
unfolding complete_storage
complete_storage-IsValid p d stored v = elim (Option-cases p.active) [
  | inl idle ↦ rw (idle, complete_storage) v
  | inr (s, act) ↦
      rw (act, complete_storage) (complete_in-IsValid p s d stored v (rw act at (v.active_fits)))
]
