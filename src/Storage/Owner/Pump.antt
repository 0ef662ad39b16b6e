-- ===== src/Storage/Owner/Pump.antt =====
-- `StorageOwnerPump` of storage_owner.rs: the requests wait in the mailbox and run one at a time.
use binbook.Prelude.{Option, none, some, List, [], ◌∷◌, Result, ok, err, ℕ}
use mathlib.Core.Option.{map}
use binbook.Storage.Types.{StorageClient, OwnedRequest, OwnedResponse}
use binbook.Storage.Mailbox.{OwnedMailbox, push, pop, pop_client}
use binbook.Storage.Owner.{OwnerBackend, StorageOwner}
use binbook.Storage.Owner.Execute.{execute_owned}

-- What `observe` is told, each with the client and the sequence number.
pub data StorageOwnerPhase : Type 0 where
  queued executing completed : StorageClient → ℕ → StorageOwnerPhase

pub record StorageOwnerPump (B : Type 0) : Type 0 where
  pub owner : StorageOwner B
  pub mailbox : OwnedMailbox

module _ {B : Type 0} where
  -- The phases that `observe` is told come back in their order.
  unfoldable pub enqueue :
      StorageOwnerPump B
      → OwnedRequest
      → Result OwnedRequest (StorageOwnerPump B × List StorageOwnerPhase)
  unfolding push
  enqueue p r = elim (push p.mailbox r) [
    | err back ↦ err back
    | ok mailbox ↦
        ok (record p { mailbox = mailbox }, queued r.envelope.client r.envelope.sequence ∷ [])
  ]

  -- Which request is next: of the client that has an upload open, if one has.
  unfoldable pub next_request : StorageOwnerPump B → Option (OwnedRequest × OwnedMailbox)
  unfolding pop pop_client
  next_request p = elim p.owner.upload_client [
    | some client ↦ pop_client p.mailbox client
    | none ↦ pop p.mailbox
  ]

module _ {B E : Type 0} (card : OwnerBackend B E) where
  unfoldable pub run_request :
      StorageOwner B
      → OwnedMailbox
      → OwnedRequest
      → StorageOwnerPump B × (List StorageOwnerPhase × OwnedResponse)
  unfolding execute_owned
  run_request owner mailbox r =
      let (after, response) = execute_owned card owner r in
      (
        record { owner = after; mailbox = mailbox },
        (
          executing r.envelope.client r.envelope.sequence
              ∷ completed r.envelope.client r.envelope.sequence
              ∷ [],
          response,
        ),
      )

  unfoldable pub execute_next :
      StorageOwnerPump B → Option (StorageOwnerPump B × (List StorageOwnerPhase × OwnedResponse))
  unfolding next_request run_request
  execute_next p = map (λ (r, mailbox). run_request p.owner mailbox r) (next_request p)

  unfoldable pub execute_immediate :
      StorageOwnerPump B
      → OwnedRequest
      → StorageOwnerPump B × (List StorageOwnerPhase × OwnedResponse)
  unfolding run_request
  execute_immediate p r = run_request p.owner p.mailbox r
