-- ===== src/Packbits/Decode/Loop.antt =====
-- The loop of `decode` of crates/binbook-decompress/src/packbits.rs: each turn makes progress, so
-- that the fuel is enough, and a run can be followed turn by turn.
use binbook.Prelude.{
  ℕ, zero, suc, ◌+◌, ◌≤◌, ◌<◌, ◌≡◌, ◌≢◌, refl, ◌∙◌, sym, ◌⊎◌, inl, inr, Option, none, some, List,
  [], ◌∷◌, min, ◌==◌, ==_iff, arith, length, take, replicate, length-append, length-take,
  length-drop, length-replicate, Bool-cases, Option-cases,
}
use binbook.Packbits.Decode.{
  Run, literal, repeat_value, repeat, State, remaining_run, turn, loop, measure, decode,
}

-- A run that is under way has bytes left.
abbrev pub RunIsValid : Option Run → Type 0
RunIsValid none = Unit {0}
RunIsValid (some (literal r)) = 1 ≤ r
RunIsValid (some (repeat_value r)) = 1 ≤ r
RunIsValid (some (repeat v r)) = 1 ≤ r

remaining-literal : (r n : ℕ) → RunIsValid (remaining_run r n literal)
unfolding remaining_run
remaining-literal r n = ground arith

remaining-repeat : (v r n : ℕ) → RunIsValid (remaining_run r n (repeat v))
unfolding remaining_run
remaining-repeat v r n = ground arith

-- What one turn has done.
record Progress (s t : State) : Type 0 where
  pub shrinks : measure t < measure s
  pub valid : RunIsValid t.run
  pub filled : length t.out + t.room ≡ length s.out + s.room

turn_by_run :
    (run : Option Run) (rest : List ℕ) (room : ℕ) (out : List ℕ) {t : State}
    → RunIsValid run
    → room ≢ 0
    → turn (record { run = run; rest = rest; room = room; out = out }) ≡ some t
    → Progress (record { run = run; rest = rest; room = room; out = out }) t
unfolding turn
turn_by_run none [] room out v ne e = absurd (cc)
turn_by_run none (c ∷ rest) room out v ne e = ground arith
turn_by_run (some (literal r)) [] room out v ne e = absurd (cc)
turn_by_run (some (literal r)) (c ∷ rest) room out {t} v ne e =
    let n = min (min r (length (c ∷ rest))) room in
    ground (
      arith,
      remaining-literal r n,
      length-drop n (c ∷ rest),
      length-take n (c ∷ rest),
      length-append out (take n (c ∷ rest)),
    )
turn_by_run (some (repeat_value r)) [] room out v ne e = absurd (cc)
turn_by_run (some (repeat_value r)) (c ∷ rest) room out v ne e = ground arith
turn_by_run (some (repeat w r)) rest room out v ne e =
    let n = min r room in
    ground (arith, remaining-repeat w r n, length-replicate n w, length-append out (replicate n w))

-- A turn that is not a `break` takes a byte of the input or fills one of the output.
turn-Progress :
    (s : State) {t : State} → RunIsValid s.run → s.room ≢ 0 → turn s ≡ some t → Progress s t
turn-Progress s v ne e = turn_by_run s.run s.rest s.room s.out v ne e

-- One round of the loop.
loop_round :
    (fuel : ℕ) (s t : State) → s.room ≢ 0 → turn s ≡ some t → loop (suc fuel) s ≡ loop fuel t
unfolding loop
loop_round fuel s t ne e = ground arith

loop_full : (fuel : ℕ) (s : State) → s.room ≡ 0 → loop fuel s ≡ s
unfolding loop
loop_full zero s e = refl
loop_full (suc fuel) s e = ground arith

loop_break : (fuel : ℕ) (s : State) → turn s ≡ none → loop fuel s ≡ s
unfolding loop
loop_break zero s e = refl
loop_break (suc fuel) s e = ground arith

-- Any two fuels that cover the measure give the same result.
loop_enough :
    (f g : ℕ) (s : State) → RunIsValid s.run → measure s ≤ f → measure s ≤ g → loop f s ≡ loop g s
loop_enough zero g s v hf hg = loop_full zero s (omega arith) ∙ sym (loop_full g s (omega arith))
loop_enough (suc f) zero s v hf hg =
    loop_full (suc f) s (omega arith) ∙ sym (loop_full zero s (omega arith))
loop_enough (suc f) (suc g) s v hf hg = elim (Bool-cases (s.room == 0)) [
  | inl full ↦
      let e = (==_iff s.room 0).0 full in loop_full (suc f) s e ∙ sym (loop_full (suc g) s e)
  | inr space ↦ elim (Option-cases (turn s)) [
    | inl stop ↦ loop_break (suc f) s stop ∙ sym (loop_break (suc g) s stop)
    | inr (t, e) ↦
        let ne : s.room ≢ 0 = ground arith in
        let p = turn-Progress s v ne e in
        loop_round f s t ne e
        ∙ loop_enough f g t p.valid (omega (arith, p.shrinks)) (omega (arith, p.shrinks))
        ∙ sym (loop_round g s t ne e)
  ]
]

-- The loop with fuel for the whole of its input and its room.
abbrev pub drain : State → State
drain s = loop (measure s) s

-- The loop from a state is the loop from the state after its first turn.
pub drain-turn : (s t : State) → RunIsValid s.run → s.room ≢ 0 → turn s ≡ some t → drain s ≡ drain t
drain-turn s t v ne e =
    let p = turn-Progress s v ne e in
    loop_enough (measure s) (suc (measure s)) s v (omega arith) (omega arith)
    ∙ loop_round (measure s) s t ne e
    ∙ loop_enough (measure s) (measure t) t p.valid (omega (arith, p.shrinks)) (omega arith)

pub drain_full : (s : State) → s.room ≡ 0 → drain s ≡ s
drain_full s e = loop_full (measure s) s e

pub drain_break : (s : State) → turn s ≡ none → drain s ≡ s
drain_break s e = loop_break (measure s) s e

loop_ends :
    (f : ℕ) (s : State)
    → RunIsValid s.run
    → measure s ≤ f
    → let r = loop f s in
      ((r.room ≡ 0) ⊎ (turn r ≡ none))
      × RunIsValid r.run
      × (length r.out + r.room ≡ length s.out + s.room)
loop_ends zero s v h = rw (loop_full zero s (omega arith)) (inl (omega arith), v, refl)
loop_ends (suc f) s v h = elim (Bool-cases (s.room == 0)) [
  | inl full ↦ let e = (==_iff s.room 0).0 full in rw (loop_full (suc f) s e) (inl e, v, refl)
  | inr space ↦ elim (Option-cases (turn s)) [
    | inl stop ↦ rw (loop_break (suc f) s stop) (inr stop, v, refl)
    | inr (t, e) ↦
        let ne : s.room ≢ 0 = ground arith in
        let p = turn-Progress s v ne e in
        let (ends, valid, filled) = loop_ends f t p.valid (omega (arith, p.shrinks)) in
        rw (loop_round f s t ne e) (ends, valid, filled ∙ p.filled)
  ]
]

-- From any valid run and on any input, the fuel of `decode` is enough: its loop ends by itself, with
-- the buffer full or at a `break`. The bytes produced and the room left make up the buffer, and the
-- run is valid again.
pub decode_ends :
    (run : Option Run) (input : List ℕ) (room : ℕ)
    → RunIsValid run
    → let r = decode run input room in
      ((r.room ≡ 0) ⊎ (turn r ≡ none)) × RunIsValid r.run × (length r.out + r.room ≡ room)
unfolding decode
decode_ends run input room v =
    let s : State = record { run = run; rest = input; room = room; out = [] } in
    let (ends, valid, filled) = loop_ends (measure s) s v (omega arith) in
    (ends, valid, filled ∙ omega arith)
