-- ===== src/Reader/Input.antt =====
-- firmware/crates/binbook-fw/src/input.rs: the buttons behind two voltage ladders, debounced. A time is
-- in milliseconds; `saturating_sub` is `◌-◌`.
pub mod Debounce
use binbook.Prelude.{
  ℕ, ◌+◌, ◌-◌, min, ◌^◌, Bool, not, leb, ◌==◌, if◌then◌else◌, Option, none, some, List, [], ◌∷◌,
}

pub data Button : Type 0 where
  left right up down back select power : Button

pub data PageTurn : Type 0 where
  turn_previous turn_next turn_first turn_last : PageTurn

unfoldable pub page_turn_for_button : Button → Option PageTurn
page_turn_for_button right = some turn_next
page_turn_for_button down = some turn_next
page_turn_for_button left = some turn_previous
page_turn_for_button up = some turn_previous
page_turn_for_button back = none
page_turn_for_button select = none
page_turn_for_button power = none

unfoldable pub apply_page_turn : ℕ → ℕ → PageTurn → ℕ
apply_page_turn current_page page_count turn = if page_count == 0 then 0 else elim turn [
  | turn_next ↦ min (min (current_page + 1) (2 ^ 32 - 1)) (page_count - 1)
  | turn_previous ↦ current_page - 1
  | turn_first ↦ 0
  | turn_last ↦ page_count - 1
]

-- The derived `==` of optional buttons.
abbrev pub button_code : Button → ℕ
button_code left = 1
button_code right = 2
button_code up = 3
button_code down = 4
button_code back = 5
button_code select = 6
button_code power = 7

abbrev pub code_of : Option Button → ℕ
code_of none = 0
code_of (some b) = button_code b

unfoldable pub same_button : Option Button → Option Button → Bool
same_button a b = code_of a == code_of b

unfoldable pub decode_ch1_button : ℕ → Option Button
decode_ch1_button ch1 =
    if leb ch1 750
    then some right
    else if leb ch1 1750
    then some left
    else if leb ch1 3000
    then some select
    else if leb ch1 3800
    then some back
    else none

unfoldable pub decode_ch2_button : ℕ → Option Button
decode_ch2_button ch2 = if leb ch2 750 then some down else if leb ch2 2400 then some up else none

abbrev pub debounce_ms : ℕ
debounce_ms = 30

pub record LadderState : Type 0 where
  pub candidate : Option Button
  pub candidate_since_ms : ℕ
  pub stable : Option Button

abbrev pub new_ladder : LadderState
new_ladder = record { candidate = none; candidate_since_ms = 0; stable = none }

-- `LadderState::update`
unfoldable pub update_ladder : LadderState → Option Button → ℕ → LadderState
update_ladder s observed now_ms =
    if not (same_button observed s.candidate)
    then record s { candidate = observed; candidate_since_ms = now_ms }
    else if leb debounce_ms (now_ms - s.candidate_since_ms)
    then record s { stable = observed }
    else s

pub data InputDecision : Type 0 where
  unchanged released : InputDecision
  press : Button → InputDecision

pub record InputPollOutcome : Type 0 where
  pub previous : Option Button
  pub observed : Option Button
  pub elapsed_since_last_press_ms : ℕ
  pub decision : InputDecision

pub record InputState : Type 0 where
  pub raw_button : Option Button
  pub reported_button : Option Button
  pub last_decision_time : ℕ
  pub ch1 : LadderState
  pub ch2 : LadderState

abbrev pub new : InputState
new = record {
  raw_button = none;
  reported_button = none;
  last_decision_time = 0;
  ch1 = new_ladder;
  ch2 = new_ladder;
}

-- `Option::or`
abbrev pub or : Option Button → Option Button → Option Button
or none b = b
or (some a) b = some a

abbrev pub decision_on : Option Button → InputDecision
decision_on none = released
decision_on (some button) = press button

-- The decision, with the button and the time that are kept.
unfoldable pub decide : InputState → Option Button → ℕ → InputDecision × InputState
decide s debounced_observed now_ms =
    if same_button debounced_observed s.reported_button then (unchanged, s) else (
      decision_on debounced_observed,
      record s { last_decision_time = now_ms; reported_button = debounced_observed },
    )

unfoldable pub poll_raw_detailed : InputState → ℕ → ℕ → ℕ → InputPollOutcome × InputState
poll_raw_detailed s ch1 ch2 now_ms =
    let raw_ch1 = decode_ch1_button ch1 in
    let raw_ch2 = decode_ch2_button ch2 in
    let ladder1 = update_ladder s.ch1 raw_ch1 now_ms in
    let ladder2 = update_ladder s.ch2 raw_ch2 now_ms in
    let polled : InputState = record s {
      raw_button = or raw_ch1 raw_ch2;
      ch1 = ladder1;
      ch2 = ladder2;
    } in
    let decided = decide polled (or ladder1.stable ladder2.stable) now_ms in
    (
      record {
        previous = s.raw_button;
        observed = or raw_ch1 raw_ch2;
        elapsed_since_last_press_ms = min (now_ms - s.last_decision_time) (2 ^ 32 - 1);
        decision = decided.0;
      },
      decided.1,
    )
