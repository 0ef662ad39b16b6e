-- ===== src/Reader/Input/Debounce.antt =====
-- The debouncing of input.rs over sequences of readings.
use binbook.Prelude.{
  ℕ, ◌-◌, ◌≤◌, ◌≡◌, ◌⊎◌, refl, sym, ap, subst, ◌∙◌, true, leb, ◌==◌, if◌then◌else◌, inl, inr,
  Option, none, some, List, [], ◌∷◌, ==_iff, arith, Bool-cases,
}
use binbook.Reader.Input.{
  Button, left, right, up, down, back, select, power, code_of, same_button, decode_ch1_button,
  decode_ch2_button, debounce_ms, LadderState, new_ladder, update_ladder, InputState, new, press,
  or, decide, poll_raw_detailed,
}

-- A reading of a ladder: the button that it decodes to, and when.
abbrev pub Sample : Type 0
Sample = Option Button × ℕ

-- The same button is read since `t`; the last reading stands first.
pub data Steady (b : Button) (t : ℕ) : List Sample → Type 0 where
  steady_first : {earlier : List Sample} → Steady b t ((some b, t) ∷ earlier)
  steady_still :
      {now_ms : ℕ} {earlier : List Sample}
      → Steady b t earlier
      → Steady b t ((some b, now_ms) ∷ earlier)

-- At some reading the button was read since 30 milliseconds or more.
pub data WasSteady (b : Button) : List Sample → Type 0 where
  steady_now :
      {now_ms t : ℕ} {earlier : List Sample}
      → Steady b t earlier
      → debounce_ms ≤ now_ms - t
      → WasSteady b ((some b, now_ms) ∷ earlier)
  steady_before :
      {sample : Sample} {earlier : List Sample}
      → WasSteady b earlier
      → WasSteady b (sample ∷ earlier)

unfoldable pub ladder_after : List Sample → LadderState
ladder_after [] = new_ladder
ladder_after ((observed, now_ms) ∷ earlier) = update_ladder (ladder_after earlier) observed now_ms

button_of : ℕ → Option Button
button_of n =
    if n == 1
    then some left
    else if n == 2
    then some right
    else if n == 3
    then some up
    else if n == 4
    then some down
    else if n == 5
    then some back
    else if n == 6
    then some select
    else if n == 7
    then some power
    else none

button_of-code : (b : Option Button) → button_of (code_of b) ≡ b
unfolding button_of
button_of-code none = refl
button_of-code (some left) = refl
button_of-code (some right) = refl
button_of-code (some up) = refl
button_of-code (some down) = refl
button_of-code (some back) = refl
button_of-code (some select) = refl
button_of-code (some power) = refl

same_button-eq : (a b : Option Button) → same_button a b ≡ true → a ≡ b
unfolding same_button
same_button-eq a b e =
    sym (button_of-code a) ∙ ap button_of ((==_iff (code_of a) (code_of b)).0 e) ∙ button_of-code b

-- What the state of a ladder says of its readings.
record Explains (s : LadderState) (samples : List Sample) : Type 0 where
  candidate_steady : (b : Button) → s.candidate ≡ some b → Steady b s.candidate_since_ms samples
  stable_steady : (b : Button) → s.stable ≡ some b → WasSteady b samples

update-Explains :
    (s : LadderState) (observed : Option Button) (now_ms : ℕ) (samples : List Sample)
    → Explains s samples
    → Explains (update_ladder s observed now_ms) ((observed, now_ms) ∷ samples)
unfolding update_ladder
update-Explains s observed now_ms samples h = elim (Bool-cases (same_button observed s.candidate)) [
  | inr differ ↦ rw differ (record {
    candidate_steady = λ b e. rw e steady_first;
    stable_steady = λ b e. steady_before (h.stable_steady b e);
  })
  | inl same ↦
      let still : (b : Button) → observed ≡ some b → Steady b s.candidate_since_ms samples =
        λ b e. h.candidate_steady b (sym (same_button-eq observed s.candidate same) ∙ e) in
      let on : (b : Button)
          → s.candidate ≡ some b
          → Steady b s.candidate_since_ms ((observed, now_ms) ∷ samples) =
        λ b e.
          rw (same_button-eq observed s.candidate same, e)
            (steady_still (h.candidate_steady b e)) in
      elim (Bool-cases (leb debounce_ms (now_ms - s.candidate_since_ms))) [
        | inl long ↦
            rw (same, long)
              (record {
                candidate_steady = on;
                stable_steady = λ b e.
                    subst (λ o. WasSteady b ((o, now_ms) ∷ samples)) (sym e)
                      (steady_now (still b e) (ground (arith, long)));
              })
        | inr short ↦
            rw (same, short)
              (record {
                candidate_steady = on;
                stable_steady = λ b e. steady_before (h.stable_steady b e);
              })
      ]
]

ladder-Explains : (samples : List Sample) → Explains (ladder_after samples) samples
unfolding ladder_after
ladder-Explains [] = record {
  candidate_steady = λ b e. absurd (ground (arith, e));
  stable_steady = λ b e. absurd (ground (arith, e));
}
ladder-Explains ((observed, now_ms) ∷ earlier) =
    update-Explains (ladder_after earlier) observed now_ms earlier (ladder-Explains earlier)

-- A reading of both ladders: their voltages, and when.
abbrev pub Reading : Type 0
Reading = ℕ × ℕ × ℕ

abbrev pub samples1 : List Reading → List Sample
samples1 [] = []
samples1 ((ch1, ch2, now_ms) ∷ earlier) = (decode_ch1_button ch1, now_ms) ∷ samples1 earlier

abbrev pub samples2 : List Reading → List Sample
samples2 [] = []
samples2 ((ch1, ch2, now_ms) ∷ earlier) = (decode_ch2_button ch2, now_ms) ∷ samples2 earlier

-- A new `InputState` after these readings, of which the last stands first.
unfoldable pub input_after : List Reading → InputState
input_after [] = new
input_after ((ch1, ch2, now_ms) ∷ earlier) =
    (poll_raw_detailed (input_after earlier) ch1 ch2 now_ms).1

decide-ladders :
    (s : InputState) (b : Option Button) (now_ms : ℕ)
    → ((decide s b now_ms).1.ch1 ≡ s.ch1) × ((decide s b now_ms).1.ch2 ≡ s.ch2)
unfolding decide
decide-ladders s b now_ms = elim (Bool-cases (same_button b s.reported_button)) [
  | inl e ↦ rw e (refl, refl)
  | inr e ↦ rw e (refl, refl)
]

input_after-ladders :
    (readings : List Reading)
    → ((input_after readings).ch1 ≡ ladder_after (samples1 readings))
      × ((input_after readings).ch2 ≡ ladder_after (samples2 readings))
unfolding input_after poll_raw_detailed ladder_after
input_after-ladders [] = (refl, refl)
input_after-ladders ((ch1, ch2, now_ms) ∷ earlier) =
    let (first, second) = input_after-ladders earlier in
    let kept = decide-ladders _ _ now_ms in
    (
      kept.0 ∙ ap (λ s. update_ladder s (decode_ch1_button ch1) now_ms) first,
      kept.1 ∙ ap (λ s. update_ladder s (decode_ch2_button ch2) now_ms) second,
    )

or-cases : (a c : Option Button) (b : Button) → or a c ≡ some b → (a ≡ some b) ⊎ (c ≡ some b)
or-cases none c b e = inr e
or-cases (some a) c b e = inl e

decide-press :
    (s : InputState) (o : Option Button) (now_ms : ℕ) (b : Button)
    → (decide s o now_ms).0 ≡ press b
    → o ≡ some b
unfolding decide
decide-press s none now_ms b e = absurd (ground (arith, e))
decide-press s (some o) now_ms b e = ground (arith, e)

-- After any readings of the voltages, a press of a button is answered only if one of the ladders
-- decoded to this button, at this reading or an earlier one, and at all readings since a time that is 30
-- milliseconds or more before it.
pub poll_raw_detailed-WasSteady :
    (readings : List Reading) (ch1 ch2 now_ms : ℕ) (b : Button)
    → (poll_raw_detailed (input_after readings) ch1 ch2 now_ms).0.decision ≡ press b
    → WasSteady b (samples1 ((ch1, ch2, now_ms) ∷ readings))
      ⊎ WasSteady b (samples2 ((ch1, ch2, now_ms) ∷ readings))
unfolding poll_raw_detailed ladder_after
poll_raw_detailed-WasSteady readings ch1 ch2 now_ms b e =
    let (first, second) = input_after-ladders readings in
    elim (or-cases _ _ b (decide-press _ _ now_ms b e)) [
      | inl s ↦ inl (
          (ladder-Explains (samples1 ((ch1, ch2, now_ms) ∷ readings))).stable_steady b
            (ap (λ l. (update_ladder l (decode_ch1_button ch1) now_ms).stable) (sym first) ∙ s))
      | inr s ↦ inr (
          (ladder-Explains (samples2 ((ch1, ch2, now_ms) ∷ readings))).stable_steady b
            (ap (λ l. (update_ladder l (decode_ch2_button ch2) now_ms).stable) (sym second) ∙ s))
    ]
