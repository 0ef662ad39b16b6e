-- ===== src/Reader/Power.antt =====
-- firmware/crates/binbook-fw/src/power.rs: the power key, and what must succeed before the CPU may
-- sleep. A time is in milliseconds; `saturating_sub` is `◌-◌`.
pub mod Hold
use binbook.Prelude.{
  ℕ, ◌+◌, ◌-◌, ◌≤◌, ◌<◌, ◌≡◌, ◌≢◌, refl, Bool, true, false, not, ◌&&◌, leb, if◌then◌else◌, Option,
  none, some, List, [], ◌∷◌, ◌++◌, arith,
}

abbrev pub power_hold_ms : ℕ
power_hold_ms = 2_000

abbrev pub power_double_tap_ms : ℕ
power_double_tap_ms = 500

pub data PowerAction : Type 0 where
  nothing full_refresh prepare_sleep : PowerAction

pub data HoldState : Type 0 where
  waiting_for_release : HoldState
  armed : (first_tap_ms : Option ℕ) → HoldState
  holding : (since_ms : ℕ) → (first_tap_ms : Option ℕ) → HoldState
  triggered : HoldState

-- A tap that is young enough at `now_ms`.
recent : ℕ → Option ℕ → Option ℕ
recent now_ms none = none
recent now_ms (some first) = if leb (now_ms - first) power_double_tap_ms then some first else none

release : ℕ → Option ℕ → HoldState × PowerAction
release now_ms none = (armed (some now_ms), nothing)
release now_ms (some first) =
    if leb (now_ms - first) power_double_tap_ms
    then (armed none, full_refresh)
    else (armed (some now_ms), nothing)

-- `PowerHold::update`
unfoldable pub update : HoldState → Bool → ℕ → HoldState × PowerAction
unfolding recent release
update waiting_for_release false now_ms = (armed none, nothing)
update triggered false now_ms = (armed none, nothing)
update (armed first_tap_ms) true now_ms = (holding now_ms (recent now_ms first_tap_ms), nothing)
update (holding since_ms first_tap_ms) false now_ms = release now_ms first_tap_ms
update (holding since_ms first_tap_ms) true now_ms =
    if leb power_hold_ms (now_ms - since_ms)
    then (triggered, prepare_sleep)
    else (holding since_ms first_tap_ms, nothing)
update waiting_for_release true now_ms = (waiting_for_release, nothing)
update (armed first_tap_ms) false now_ms = (armed first_tap_ms, nothing)
update triggered true now_ms = (triggered, nothing)

-- A reading of the key: whether it is pressed, and when.
abbrev Sample : Type 0
Sample = Bool × ℕ

-- The state of a new `PowerHold` after these readings, of which the last stands first.
unfoldable pub after : List Sample → HoldState
after [] = waiting_for_release
after ((pressed, now_ms) ∷ earlier) = (update (after earlier) pressed now_ms).0

pub data PowerRequest : Type 0 where
  request_full_refresh request_prepare_sleep : PowerRequest

pub data PowerAck : Type 0 where
  ack_ready ack_failed : PowerAck

-- `PowerRequestCompletion::may_enter_cpu_deep_sleep`
unfoldable pub completion_may_sleep : PowerRequest → PowerAck → Bool
completion_may_sleep request_prepare_sleep ack_ready = true
completion_may_sleep request_prepare_sleep ack_failed = false
completion_may_sleep request_full_refresh acknowledgement = false

pub data SleepPreparationOutcome : Type 0 where
  await_panel_sleep state_save_failed panel_sleep_failed ready : SleepPreparationOutcome

unfoldable pub after_state_save : Bool → SleepPreparationOutcome
after_state_save succeeded = if succeeded then await_panel_sleep else state_save_failed

unfoldable pub after_panel_sleep : Bool → SleepPreparationOutcome
after_panel_sleep succeeded = if succeeded then ready else panel_sleep_failed

unfoldable pub status_code : SleepPreparationOutcome → ℕ
status_code ready = 0
status_code state_save_failed = 1
status_code panel_sleep_failed = 2
status_code await_panel_sleep = 255

unfoldable pub ack : SleepPreparationOutcome → PowerAck
ack ready = ack_ready
ack await_panel_sleep = ack_failed
ack state_save_failed = ack_failed
ack panel_sleep_failed = ack_failed

unfoldable pub should_sleep_panel : SleepPreparationOutcome → Bool
should_sleep_panel await_panel_sleep = true
should_sleep_panel state_save_failed = false
should_sleep_panel panel_sleep_failed = false
should_sleep_panel ready = false

unfoldable pub render_sleep_cancelled : SleepPreparationOutcome → Bool
render_sleep_cancelled state_save_failed = true
render_sleep_cancelled await_panel_sleep = false
render_sleep_cancelled panel_sleep_failed = false
render_sleep_cancelled ready = false

unfoldable pub may_enter_cpu_deep_sleep : SleepPreparationOutcome → Bool
may_enter_cpu_deep_sleep ready = true
may_enter_cpu_deep_sleep await_panel_sleep = false
may_enter_cpu_deep_sleep state_save_failed = false
may_enter_cpu_deep_sleep panel_sleep_failed = false
