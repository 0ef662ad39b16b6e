-- ===== src/Storage/Mailbox.antt =====
-- The bounded queues of storage_owner.rs: `StorageRequestQueue`, `StorageMailbox` and
-- `OwnedMailbox`. A queue is the list of its pending requests, oldest first, with its capacity.
pub mod Priority
pub mod OfClient
use binbook.Prelude.{
  ℕ, suc, ◌+◌, Bool, not, Option, none, some, List, [], ◌∷◌, ◌++◌, length, get_elem?, ltb,
  if◌then◌else◌, Result, ok, err, ◌>>=◌, drop, zero,
}
use mathlib.Core.Option.{map}
use binbook.Storage.Types.{
  Request, RequestError, busy, RequestEnvelope, OwnedRequest, StorageClient, client_eq, priority,
}

module _ {ℓ} {A : Type ℓ} where
  -- `Vec::remove`
  unfoldable pub remove : ℕ → List A → Option (A × List A)
  remove i [] = none
  remove zero (x ∷ xs) = some (x, xs)
  remove (suc i) (x ∷ xs) = elim (remove i xs) [ none ↦ none | some (r, rest) ↦ some (r, x ∷ rest) ]

  -- `heapless::Vec::push`
  unfoldable pub push_bounded {κ} : {E : Type κ} → ℕ → E → List A → A → Result E (List A)
  push_bounded capacity full pending x =
      if ltb (length pending) capacity then ok (pending ++ (x ∷ [])) else err full

  -- The priority of `pending[i]`; no loop asks for one that is not there.
  unfoldable pub priority_at : (A → ℕ) → List A → ℕ → ℕ
  priority_at p pending i = elim (get_elem? pending i) [ none ↦ 0 | some x ↦ p x ]

  -- The loop of `pop`: `rest` is what is pending from `index` on.
  unfoldable pub select : (A → ℕ) → List A → ℕ → List A → ℕ → ℕ
  unfolding priority_at
  select p pending index [] selected = selected
  select p pending index (x ∷ rest) selected =
      let next = if ltb (priority_at p pending selected) (p x) then index else selected in
      select p pending (index + 1) rest next

  -- What the body of the loop of `pop_client` makes of the request of the client at `index`.
  unfoldable pub better : (A → ℕ) → List A → ℕ → A → Option ℕ → Option ℕ
  unfolding priority_at
  better p pending index x none = some index
  better p pending index x (some current) =
      if ltb (priority_at p pending current) (p x) then some index else some current

  -- The loop of `pop_client`.
  unfoldable pub select_client : (A → ℕ) → (A → Bool) → List A → ℕ → List A → Option ℕ → Option ℕ
  unfolding better
  select_client p of_client pending index [] selected = selected
  select_client p of_client pending index (x ∷ rest) selected =
      let next = if not (of_client x) then selected else better p pending index x selected in
      select_client p of_client pending (index + 1) rest next

pub record QueuedRequest : Type 0 where
  pub sequence : ℕ
  pub request : Request

pub record StorageRequestQueue : Type 0 where
  pub capacity : ℕ
  pub pending : List QueuedRequest

pub record StorageMailbox : Type 0 where
  pub capacity : ℕ
  pub pending : List RequestEnvelope

pub record OwnedMailbox : Type 0 where
  pub capacity : ℕ
  pub pending : List OwnedRequest

unfoldable pub queued_priority : QueuedRequest → ℕ
unfolding priority
queued_priority q = priority q.request

unfoldable pub envelope_priority : RequestEnvelope → ℕ
unfolding priority
envelope_priority e = priority e.request

unfoldable pub owned_priority : OwnedRequest → ℕ
unfolding priority
owned_priority r = priority r.envelope.request

-- `StorageRequestQueue::push`
unfoldable pub queue_push :
    StorageRequestQueue → ℕ → Request → Result RequestError StorageRequestQueue
unfolding push_bounded
queue_push q sequence request = do
  pending ←
      push_bounded q.capacity busy q.pending (record { sequence = sequence; request = request })
  ok (record q { pending = pending })

-- `StorageRequestQueue::pop`: the loop runs over an empty queue too.
unfoldable pub queue_pop : StorageRequestQueue → Option (QueuedRequest × StorageRequestQueue)
unfolding select remove queued_priority
queue_pop q =
    let selected = select queued_priority q.pending 1 (drop 1 q.pending) 0 in
    elim q.pending [
      | [] ↦ none
      | _ ∷ _ ↦ map (λ (r, rest). (r, record q { pending = rest })) (remove selected q.pending)
    ]

-- `StorageMailbox::push`
unfoldable pub mailbox_push : StorageMailbox → RequestEnvelope → Result RequestError StorageMailbox
unfolding push_bounded
mailbox_push m request = do
  pending ← push_bounded m.capacity busy m.pending request
  ok (record m { pending = pending })

-- `StorageMailbox::pop`
unfoldable pub mailbox_pop : StorageMailbox → Option (RequestEnvelope × StorageMailbox)
unfolding select remove envelope_priority
mailbox_pop m = elim m.pending [
  | [] ↦ none
  | _ ∷ _ ↦
      map (λ (r, rest). (r, record m { pending = rest }))
        (remove (select envelope_priority m.pending 1 (drop 1 m.pending) 0) m.pending)
]

-- `OwnedMailbox::push` gives the request back when there is no room.
unfoldable pub push : OwnedMailbox → OwnedRequest → Result OwnedRequest OwnedMailbox
unfolding push_bounded
push m request = do
  pending ← push_bounded m.capacity request m.pending request
  ok (record m { pending = pending })

-- `OwnedMailbox::pop`
unfoldable pub pop : OwnedMailbox → Option (OwnedRequest × OwnedMailbox)
unfolding select remove owned_priority
pop m = elim m.pending [
  | [] ↦ none
  | _ ∷ _ ↦
      map (λ (r, rest). (r, record m { pending = rest }))
        (remove (select owned_priority m.pending 1 (drop 1 m.pending) 0) m.pending)
]

abbrev pub of_client : StorageClient → OwnedRequest → Bool
of_client client r = client_eq r.envelope.client client

unfoldable pub pop_client : OwnedMailbox → StorageClient → Option (OwnedRequest × OwnedMailbox)
unfolding select_client remove owned_priority
pop_client m client =
    elim (select_client owned_priority (of_client client) m.pending 0 m.pending none) [
      | none ↦ none
      | some selected ↦
          map (λ (r, rest). (r, record m { pending = rest })) (remove selected m.pending)
    ]
