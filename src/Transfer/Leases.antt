-- ===== src/Transfer/Leases.antt =====
-- firmware/crates/binbook-fw/src/bulk_lease_pool.rs: the four buffers behind the slots, each in the
-- pool or lent to the storage owner. A buffer is its list of bytes, of length 3584, and a lease is the
-- index of its bulk slot, if it is one (`BufferSlot::bulk_index`), beside its buffer.
use binbook.Prelude.{
  ℕ, ◌%◌, ◌<◌, ◌≡◌, Bool, true, false, not, ◌||◌, Option, none, some, List, [], ◌∷◌, ◌++◌, map, max,
  arith, length, take, drop, get_or, set, ltb, leb, ◌==◌, if◌then◌else◌, Result, ok, err, sum_of,
  bit, Option-cases, inl, inr, get_or-set_self, set-get_or, set-set, take-append,
}
use binbook.Transfer.Slots.{u8_mod, transfer_data_bytes, transfer_slot_count, Descriptor}

pub data LeaseError : Type 0 where
  invalid_slot stale_generation bad_length unavailable wrong_lease : LeaseError

-- `BulkLeasePool`
pub record LeasePool : Type 0 where
  pub buffers : List (Option (List ℕ))
  pub generation : ℕ

-- `BufferLease`
pub record Lease : Type 0 where
  pub bulk_index : Option ℕ
  pub bytes : List ℕ

pub new : List (List ℕ) → LeasePool
new buffers = record { buffers = map some buffers; generation = 0 }

abbrev is_none : Option (List ℕ) → Bool
is_none none = true
is_none (some b) = false

-- `buffers.iter().any(Option::is_none)`
any_none : List (Option (List ℕ)) → Bool
any_none [] = false
any_none (b ∷ bs) = is_none b || any_none bs

pub begin_session : LeasePool → ℕ → Result LeaseError (Unit {0}) × LeasePool
begin_session p generation =
    if generation == 0 || any_none p.buffers
    then (err unavailable, p)
    else (ok tt, record p { generation = generation })

pub invalidate : LeasePool → ℕ → LeasePool
invalidate p generation = record p { generation = max generation 1 }

unfoldable pub validate : LeasePool → Descriptor → Result LeaseError (Unit {0})
validate p d =
    if leb transfer_slot_count d.slot
    then err invalid_slot
    else if not (d.generation == p.generation)
    then err stale_generation
    else if d.len == 0 || ltb transfer_data_bytes d.len
    then err bad_length
    else ok tt

-- `write`. The slice of the buffer is in bounds, since `validate` tests the length.
unfoldable pub write : LeasePool → Descriptor → List ℕ → Result LeaseError (Unit {0}) × LeasePool
write p d bytes = elim (validate p d) [
  | err e ↦ (err e, p)
  | ok u ↦
      if not (length bytes == d.len)
      then (err bad_length, p)
      else elim (get_or p.buffers d.slot none) [
        | none ↦ (err unavailable, p)
        | some buffer ↦ (
          ok tt,
          record p { buffers = set p.buffers d.slot (some (bytes ++ drop (length bytes) buffer)) },
        )
      ]
]

pub bytes_of : LeasePool → Descriptor → Result LeaseError (List ℕ)
bytes_of p d = elim (validate p d) [
  | err e ↦ err e
  | ok u ↦ elim (get_or p.buffers d.slot none) [
    | none ↦ err unavailable
    | some buffer ↦ ok (take d.len buffer)
  ]
]

-- `take`. `BufferSlot::bulk` gives a slot for each index below four.
unfoldable pub take_lease : LeasePool → Descriptor → Result LeaseError Lease × LeasePool
take_lease p d = elim (validate p d) [
  | err e ↦ (err e, p)
  | ok u ↦ elim (get_or p.buffers d.slot none) [
    | none ↦ (err unavailable, p)
    | some buffer ↦ (
      ok (record { bulk_index = some d.slot; bytes = buffer }),
      record p { buffers = set p.buffers d.slot none },
    )
  ]
]

abbrev index_is : Option ℕ → ℕ → Bool
index_is none i = false
index_is (some j) i = j == i

-- `restore`. A lease that is refused is dropped.
pub restore : LeasePool → Descriptor → Lease → Result LeaseError (Unit {0}) × LeasePool
restore p d lease =
    if leb transfer_slot_count d.slot
      || not (index_is lease.bulk_index d.slot)
      || not (is_none (get_or p.buffers d.slot none))
    then (err wrong_lease, p)
    else if not (length lease.bytes == transfer_data_bytes)
    then (err bad_length, p)
    else (ok tt, record p { buffers = set p.buffers d.slot (some lease.bytes) })

-- `available`, with `count() as u8`
available : LeasePool → ℕ
available p = sum_of (λ b. bit (not (is_none b))) p.buffers % u8_mod

-- What is written for a slot is what its bytes are afterwards, in a pool of four buffers.
pub bytes_of-write :
    (p : LeasePool) (d : Descriptor) (bytes : List ℕ) {p' : LeasePool}
    → length p.buffers ≡ transfer_slot_count
    → write p d bytes ≡ (ok tt, p')
    → bytes_of p' d ≡ ok bytes
unfolding write bytes_of validate
bytes_of-write p d bytes four h = elim (Option-cases (get_or p.buffers d.slot none)) [
  | inl e ↦ ground (arith, h)
  | inr (buffer, e) ↦
      let inside : d.slot < length p.buffers = ground (arith, h, four) in
      ground (
        arith,
        h,
        take-append bytes (drop (length bytes) buffer),
        get_or-set_self p.buffers d.slot (some (bytes ++ drop (length bytes) buffer)) none inside,
      )
]

-- A buffer of the full length that is lent for a slot and restored leaves the pool as it was.
pub restore-take_lease :
    (p : LeasePool) (d : Descriptor) {lease : Lease} {p' : LeasePool}
    → length p.buffers ≡ transfer_slot_count
    → take_lease p d ≡ (ok lease, p')
    → length lease.bytes ≡ transfer_data_bytes
    → restore p' d lease ≡ (ok tt, p)
unfolding take_lease restore validate
restore-take_lease p d four h full = elim (Option-cases (get_or p.buffers d.slot none)) [
  | inl e ↦ ground (arith, h)
  | inr (buffer, e) ↦
      let inside : d.slot < length p.buffers = ground (arith, h, four) in
      ground (
        arith,
        h,
        full,
        set-set p.buffers d.slot none (some buffer),
        set-get_or p.buffers d.slot none,
        get_or-set_self p.buffers d.slot none none inside,
      )
]
