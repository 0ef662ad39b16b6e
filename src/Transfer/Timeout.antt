-- ===== src/Transfer/Timeout.antt =====
-- firmware/crates/binbook-fw/src/bulk_idle_timeout.rs: the timer that ends an idle transfer.
use binbook.Prelude.{
  ℕ, ◌+◌, ◌-◌, ◌^◌, ◌≤◌, ◌<◌, ◌≡◌, Bool, true, false, Option, none, some, min, arith, ltb,
  if◌then◌else◌,
}

abbrev pub bulk_idle_timeout_ms : ℕ
bulk_idle_timeout_ms = 60000

pub record IdleTimeout : Type 0 where
  pub deadline_ms : Option ℕ

pub new : IdleTimeout
new = record { deadline_ms = none }

-- `saturating_add` of `u64` values
pub arm : IdleTimeout → ℕ → IdleTimeout
arm t now_ms = record t { deadline_ms = some (min (now_ms + bulk_idle_timeout_ms) (2 ^ 64 - 1)) }

touch : IdleTimeout → ℕ → IdleTimeout
unfolding arm
touch t now_ms = elim t.deadline_ms [ none ↦ t | some deadline ↦ arm t now_ms ]

disarm : IdleTimeout → IdleTimeout
disarm t = record t { deadline_ms = none }

is_armed : IdleTimeout → Bool
is_armed t = elim t.deadline_ms [ none ↦ false | some deadline ↦ true ]

remaining_ms : IdleTimeout → ℕ → Option ℕ
remaining_ms t now_ms = elim t.deadline_ms [
  | none ↦ none
  | some deadline ↦ some (deadline - now_ms)
]

pub take_expired : IdleTimeout → ℕ → Bool × IdleTimeout
unfolding disarm
take_expired t now_ms = elim t.deadline_ms [
  | none ↦ (false, t)
  | some deadline ↦ if ltb now_ms deadline then (false, t) else (true, disarm t)
]

-- A timer that is armed at one time has expired at a later one exactly when sixty seconds have
-- passed, once: it is disarmed then and does not expire again. The times are far enough from the
-- end of `u64`.
pub take_expired-arm :
    (t : IdleTimeout) (now later last : ℕ)
    → now + bulk_idle_timeout_ms < 2 ^ 64
    → (later < now + bulk_idle_timeout_ms → take_expired (arm t now) later ≡ (false, arm t now))
      × (now + bulk_idle_timeout_ms ≤ later
          → (take_expired (arm t now) later ≡ (true, new)) × (take_expired new last ≡ (false, new)))
unfolding arm take_expired new disarm
take_expired-arm t now later last h = ground arith
