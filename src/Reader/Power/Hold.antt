-- ===== src/Reader/Power/Hold.antt =====
-- The hold of the power key of power.rs over sequences of readings.
use binbook.Prelude.{
  ℕ, ◌-◌, ◌≤◌, ◌<◌, ◌≡◌, ◌↔◌, refl, ap, subst, ◌∙◌, Bool, true, false, leb, inl, inr, Option, none,
  some, List, [], ◌∷◌, arith, Bool-cases,
}
use binbook.Reader.Power.{
  prepare_sleep, HoldState, waiting_for_release, armed, holding, triggered, update, release, recent,
  after, Sample, power_hold_ms, power_double_tap_ms,
}

-- The key is held since `t`: it was read as released, then as pressed at `t`, and as pressed at each
-- reading from then on, none of them two seconds or more behind `t`.
pub data HeldSince (t : ℕ) : List Sample → Type 0 where
  pressed_first : {r : ℕ} {earlier : List Sample} → HeldSince t ((true, t) ∷ (false, r) ∷ earlier)
  pressed_still :
      {now_ms : ℕ} {earlier : List Sample}
      → now_ms - t < power_hold_ms
      → HeldSince t earlier
      → HeldSince t ((true, now_ms) ∷ earlier)

-- What a state says of the readings before it.
Explains : HoldState → List Sample → Type 0
Explains waiting_for_release readings = Unit {0}
Explains (armed first_tap_ms) readings =
    (r : ℕ) × (earlier : List Sample) × (readings ≡ ((false, r) ∷ earlier))
Explains (holding since_ms first_tap_ms) readings = HeldSince since_ms readings
Explains triggered readings = Unit {0}

released-Explains :
    (s : HoldState) (now_ms : ℕ) (readings : List Sample)
    → Explains (update s false now_ms).0 ((false, now_ms) ∷ readings)
unfolding update release Explains
released-Explains waiting_for_release now_ms readings = (_, _, refl)
released-Explains (armed f) now_ms readings = (_, _, refl)
released-Explains triggered now_ms readings = (_, _, refl)
released-Explains (holding t none) now_ms readings = (_, _, refl)
released-Explains (holding t (some first)) now_ms readings =
    elim (Bool-cases (leb (now_ms - first) power_double_tap_ms)) [
      | inl e ↦ rw e (_, _, refl)
      | inr e ↦ rw e (_, _, refl)
    ]

pressed-Explains :
    (s : HoldState) (now_ms : ℕ) (readings : List Sample)
    → Explains s readings
    → Explains (update s true now_ms).0 ((true, now_ms) ∷ readings)
unfolding update Explains
pressed-Explains waiting_for_release now_ms readings h = tt
pressed-Explains triggered now_ms readings h = tt
pressed-Explains (armed f) now_ms readings (r, earlier, same) = rw same pressed_first
pressed-Explains (holding t f) now_ms readings h =
    elim (Bool-cases (leb power_hold_ms (now_ms - t))) [
      | inl e ↦ rw e tt
      | inr e ↦ rw e (pressed_still (ground (arith, e)) h)
    ]

after-Explains : (readings : List Sample) → Explains (after readings) readings
unfolding after Explains
after-Explains [] = tt
after-Explains ((true, now_ms) ∷ earlier) =
    pressed-Explains (after earlier) now_ms earlier (after-Explains earlier)
after-Explains ((false, now_ms) ∷ earlier) = released-Explains (after earlier) now_ms earlier

-- The state in which a released key leaves the machine.
released-armed : (s : HoldState) (r : ℕ) → (f : Option ℕ) × ((update s false r).0 ≡ armed f)
unfolding update release
released-armed waiting_for_release r = (_, refl)
released-armed (armed f) r = (_, refl)
released-armed triggered r = (_, refl)
released-armed (holding t none) r = (_, refl)
released-armed (holding t (some first)) r =
    elim (Bool-cases (leb (r - first) power_double_tap_ms)) [
      | inl e ↦ rw e (_, refl)
      | inr e ↦ rw e (_, refl)
    ]

-- The state after one more reading.
after_pressed :
    (now_ms : ℕ) (earlier : List Sample) (s : HoldState)
    → after earlier ≡ s
    → after ((true, now_ms) ∷ earlier) ≡ (update s true now_ms).0
unfolding after
after_pressed now_ms earlier s e = ap (λ s. (update s true now_ms).0) e

HeldSince-holding :
    {t : ℕ} {readings : List Sample}
    → HeldSince t readings
    → (f : Option ℕ) × (after readings ≡ holding t f)
unfolding update
HeldSince-holding {t} (pressed_first {r} {earlier}) =
    let (f, s) = released-armed (after earlier) r in
    (recent t f, after_pressed t _ (armed f) (unfold after in s))
HeldSince-holding {t} (pressed_still {now_ms} {earlier} young held) =
    let (f, s) = HeldSince-holding held in
    let test : leb power_hold_ms (now_ms - t) ≡ false = ground (arith, young) in
    (f, after_pressed now_ms earlier (holding t f) s ∙ rw test refl)

-- Sleep is asked for in one case only.
prepare_sleep-holding :
    (s : HoldState) (pressed : Bool) (now_ms : ℕ)
    → (update s pressed now_ms).1 ≡ prepare_sleep
    → (pressed ≡ true) × (t : ℕ) × (f : Option ℕ) × (s ≡ holding t f) × (power_hold_ms ≤ now_ms - t)
unfolding update release
prepare_sleep-holding waiting_for_release true now_ms e = absurd (ground (arith, e))
prepare_sleep-holding waiting_for_release false now_ms e = absurd (ground (arith, e))
prepare_sleep-holding triggered true now_ms e = absurd (ground (arith, e))
prepare_sleep-holding triggered false now_ms e = absurd (ground (arith, e))
prepare_sleep-holding (armed f) true now_ms e = absurd (ground (arith, e))
prepare_sleep-holding (armed f) false now_ms e = absurd (ground (arith, e))
prepare_sleep-holding (holding t none) false now_ms e = absurd (ground (arith, e))
prepare_sleep-holding (holding t (some first)) false now_ms e = absurd (ground (arith, e))
prepare_sleep-holding (holding t f) true now_ms e = (refl, t, f, refl, ground (arith, e))

-- After any readings of the key, the next one makes `PowerHold` ask for sleep if, and only if, the key
-- is pressed, was read as released and then as pressed at some time and at all readings since, and
-- this reading is the first of them two seconds or more behind that time.
pub update-prepare_sleep :
    (readings : List Sample) (pressed : Bool) (now_ms : ℕ)
    → ((update (after readings) pressed now_ms).1 ≡ prepare_sleep)
      ↔ ((pressed ≡ true) × (t : ℕ) × HeldSince t readings × (power_hold_ms ≤ now_ms - t))
unfolding update Explains
update-prepare_sleep readings pressed now_ms = (
  λ e.
      let (is_pressed, t, f, s, late) = prepare_sleep-holding (after readings) pressed now_ms e in
      (is_pressed, t, subst (λ s. Explains s readings) s (after-Explains readings), late),
  λ (is_pressed, t, held, late).
      let (f, s) = HeldSince-holding held in
      let test : leb power_hold_ms (now_ms - t) ≡ true = ground (arith, late) in
      rw (is_pressed, s, test) refl,
)
