-- ===== src/Transfer/Upload/Invariant.antt =====
-- What holds of the upload pipeline of bulk_upload_pipeline.rs between its calls.
use binbook.Prelude.{ℕ, ◌+◌, ◌≤◌, ◌<◌, ◌≡◌, inl, inr, Option, none, some, arith, ◌==◌, Option-cases}
use binbook.Transfer.Slots.{
  u32_mod, transfer_data_bytes, transfer_slot_count, Descriptor, SlotPool, begin_session,
  abort_session, take_upload_for_storage, occupied,
}
use binbook.Transfer.Slots.Invariant.{
  for_upload, invalidate-IsValid, claim-IsValid, complete_upload-IsValid,
}
use binbook.Transfer.Slots.Invariant as Inv
use binbook.Transfer.Slots.Count.{
  held_bytes, take_upload_count, take_upload-IsValid, invalidate_count,
}
use binbook.Transfer.Upload.{
  Session, Pipeline, new, open_upload, take_for_storage, status, finish, abort,
}

-- An open session and its pool agree.
pub record SessionFits (pool : SlotPool) (s : Session) : Type 0 where
  pub window_fits : (0 < s.window) × (s.window ≤ transfer_slot_count)
  pub chunk_fits : (0 < s.chunk_size) × (s.chunk_size ≤ transfer_data_bytes)
  pub total_fits : (0 < s.total_size) × (s.total_size < u32_mod)
  -- Every credit is with the sender, with a slot, or waits to be sent.
  pub credits : s.sender_credits + s.pending_credits + occupied pool ≡ s.window
  -- A full batch of credits is sent at once.
  pub unsent : s.pending_credits < s.window
  -- Every admitted byte is stored or in a slot.
  pub bytes : s.durable_offset + held_bytes pool ≡ s.admitted_offset
  pub admitted : s.admitted_offset ≤ s.total_size
  pub end_exact : s.end_seen ≡ (s.admitted_offset == s.total_size)

abbrev ActiveFits : SlotPool → Option Session → Type 0
ActiveFits pool none = Unit {0}
ActiveFits pool (some s) = SessionFits pool s

pub record IsValid (p : Pipeline) : Type 0 where
  pub pool_valid : Inv.IsValid p.pool
  pub active_fits : ActiveFits p.pool p.active

pub new-IsValid : IsValid new
unfolding new
new-IsValid = record { pool_valid = Inv.new-IsValid; active_fits = tt }

pub open_upload-IsValid :
    (p : Pipeline) (id total crc chunk window : ℕ)
    → total < u32_mod
    → IsValid p
    → IsValid (open_upload p id total crc chunk window).1
unfolding open_upload begin_session
open_upload-IsValid p id total crc chunk window small v =
    ground (arith, invalidate-IsValid v.pool_valid, invalidate_count p.pool)

-- A pool with the same counts serves the session as well.
same_counts :
    (p q : SlotPool) (a : Option Session)
    → occupied q ≡ occupied p
    → held_bytes q ≡ held_bytes p
    → ActiveFits p a
    → ActiveFits q a
same_counts p q none e g h = tt
same_counts p q (some s) e g h = ground arith

pub take_for_storage-IsValid :
    (p : Pipeline) (d : Descriptor) → IsValid p → IsValid (take_for_storage p d).1
unfolding take_for_storage
take_for_storage-IsValid p d v = elim (Option-cases p.active) [
  | inl idle ↦ rw (idle, take_for_storage) v
  | inr (s, act) ↦
      let q = (take_upload_for_storage p.pool d).1 in
      let counts = take_upload_count p.pool d v.pool_valid in
      rw (act, take_for_storage)
        (record {
          pool_valid = take_upload-IsValid p.pool d v.pool_valid;
          active_fits = same_counts p.pool q p.active counts.0 counts.1 v.active_fits;
        })
]

pub status-IsValid : (p : Pipeline) (id : ℕ) → IsValid p → IsValid (status p id).1
unfolding status
status-IsValid p id v = ground arith

pub finish-IsValid : (p : Pipeline) (id : ℕ) → IsValid p → IsValid (finish p id).1
unfolding finish
finish-IsValid p id v = ground arith

pub abort-IsValid : (p : Pipeline) (id : ℕ) → IsValid p → IsValid (abort p id).1
unfolding abort abort_session
abort-IsValid p id v = ground (arith, invalidate-IsValid v.pool_valid)
