-- ===== src/Packbits/RoundTrip.antt =====
-- What the decoder of binbook-decompress makes of what the compressor of binbook-compress writes.
use Prim.Native.Nat.{bit_and, bit_or}
use binbook.Prelude.{
  Bool-cases, take-append, ℕ, zero, suc, ◌+◌, ◌-◌, ◌%◌, ◌≤◌, ◌<◌, ◌≡◌, refl, ap, ◌∙◌, sym, inl, inr,
  ◌⊎◌, Bool, true, false, none, some, List, [], ◌∷◌, ◌++◌, min, ◌==◌, ◌&&◌, arith, length, take,
  drop, replicate, length-append, length-take, length-drop, take-append-drop,
}
use mathlib.Core.List.{append-nil, append_assoc}
use binbook.Packbits.Encode
use binbook.Packbits.Encode.{max_run, next_run, emit, encode_loop, encode_runs}
use binbook.Packbits.Encode.Runs.{RunFits, next_run-RunFits}
use binbook.Packbits.Decode.{Run, literal, repeat_value, repeat, State, remaining_run, turn, decode}
use binbook.Packbits.Decode.Loop.{drain, drain-turn, drain_full}

-- Two functions are compared at every number below a bound.
module _ (f g : ℕ → ℕ) where
  agree : ℕ → Bool
  agree zero = true
  agree (suc bound) = agree bound && f bound == g bound

  agree_at : {bound k : ℕ} → agree bound ≡ true → k < bound → f k ≡ g k
  unfolding agree
  agree_at {bound = zero} same below = elim below [ ]
  agree_at {bound = suc bound} {k} same below = elim (Bool-cases (k == bound)) [
    | inl last ↦ ground arith
    | inr earlier ↦ agree_at {bound = bound} (ground arith) (ground arith)
  ]

-- The control byte of a repeat: bit 7 and the length less one.
repeat_control : (k : ℕ) → k < 128 → bit_or 0x80 k ≡ k + 128
unfolding agree
repeat_control k h = agree_at (bit_or 0x80) (λ n. n + 128) {bound = 128} refl h

repeat_count : (k : ℕ) → k < 128 → bit_and (k + 128) 0x7f ≡ k
unfolding agree
repeat_count k h = agree_at (λ n. bit_and (n + 128) 0x7f) (λ n. n) {bound = 128} refl h

remaining_none : (n : ℕ) (build : ℕ → Run) → n ≤ 255 → remaining_run n n build ≡ none
unfolding remaining_run
remaining_none n build h = ground arith

drop-append_left : (xs ys : List ℕ) → drop (length xs) (xs ++ ys) ≡ ys
drop-append_left [] ys = refl
drop-append_left (x ∷ xs) ys = drop-append_left xs ys

-- The turns of a literal run and of a repeat.
turn_literal_control :
    (n : ℕ) (rest out : List ℕ) (room : ℕ)
    → 1 ≤ n
    → n ≤ 128
    → turn (record { run = none; rest = (n - 1) ∷ rest; room = room; out = out })
      ≡ some (record { run = some (literal n); rest = rest; room = room; out = out })
unfolding turn
turn_literal_control n rest out room lo hi = ground arith

turn_literal_bytes :
    (n : ℕ) (bytes tail out : List ℕ) (room : ℕ)
    → 1 ≤ n
    → n ≤ 128
    → length bytes ≡ n
    → n ≤ room
    → turn (record { run = some (literal n); rest = bytes ++ tail; room = room; out = out })
      ≡ some (record { run = none; rest = tail; room = room - n; out = out ++ bytes })
unfolding turn
turn_literal_bytes n bytes tail out room lo hi len fit =
    let whole : min (min n (length (bytes ++ tail))) room ≡ length bytes =
      omega (arith, length-append bytes tail) in
    let some_left : (length (bytes ++ tail) == 0) ≡ false =
      ground (arith, length-append bytes tail) in
    rw (
      some_left,
      turn,
      whole,
      take-append,
      drop-append_left,
      len,
      remaining_none n literal (omega arith),
    )

turn_repeat_control :
    (n : ℕ) (rest out : List ℕ) (room : ℕ)
    → 1 ≤ n
    → n ≤ 128
    → turn (record { run = none; rest = ((n - 1) + 128) ∷ rest; room = room; out = out })
      ≡ some (record { run = some (repeat_value n); rest = rest; room = room; out = out })
unfolding turn
turn_repeat_control n rest out room lo hi = ground (arith, repeat_count (n - 1) (omega arith))

turn_repeat_bytes :
    (n value : ℕ) (tail out : List ℕ) (room : ℕ)
    → n ≤ 128
    → n ≤ room
    → turn (record { run = some (repeat value n); rest = tail; room = room; out = out })
      ≡ some (record { run = none; rest = tail; room = room - n; out = out ++ replicate n value })
unfolding turn
turn_repeat_bytes n value tail out room hi fit =
    let whole : min n room ≡ n = omega arith in
    rw (whole, remaining_none n (repeat value) (omega arith))

turn_repeat_value :
    (n value : ℕ) (tail out : List ℕ) (room : ℕ)
    → turn (record { run = some (repeat_value n); rest = value ∷ tail; room = room; out = out })
      ≡ some (record { run = some (repeat value n); rest = tail; room = room; out = out })
unfolding turn
turn_repeat_value n value tail out room = refl

-- Decoding a literal run of `n` bytes, in front of `tail`.
drain_literal :
    (n : ℕ) (bytes tail out : List ℕ) (room : ℕ)
    → 1 ≤ n
    → n ≤ 128
    → length bytes ≡ n
    → n ≤ room
    → drain (record { run = none; rest = (n - 1) ∷ (bytes ++ tail); room = room; out = out })
      ≡ drain (record { run = none; rest = tail; room = room - n; out = out ++ bytes })
drain_literal n bytes tail out room lo hi len fit =
    drain-turn _ (record { run = some (literal n); rest = bytes ++ tail; room = room; out = out })
      tt (omega arith) (turn_literal_control n (bytes ++ tail) out room lo hi)
    ∙ drain-turn _ (record { run = none; rest = tail; room = room - n; out = out ++ bytes }) lo
        (omega arith) (turn_literal_bytes n bytes tail out room lo hi len fit)

drain_repeat :
    (n value : ℕ) (tail out : List ℕ) (room : ℕ)
    → 1 ≤ n
    → n ≤ 128
    → n ≤ room
    → drain (record { run = none; rest = ((n - 1) + 128) ∷ value ∷ tail; room = room; out = out })
      ≡ drain (record { run = none; rest = tail; room = room - n; out = out ++ replicate n value })
drain_repeat n value tail out room lo hi fit =
    drain-turn _
      (record { run = some (repeat_value n); rest = value ∷ tail; room = room; out = out }) tt
      (omega arith) (turn_repeat_control n (value ∷ tail) out room lo hi)
    ∙ drain-turn _ (record { run = some (repeat value n); rest = tail; room = room; out = out }) lo
        (omega arith) (turn_repeat_value n value tail out room)
    ∙ drain-turn _
        (record { run = none; rest = tail; room = room - n; out = out ++ replicate n value }) lo
        (omega arith) (turn_repeat_bytes n value tail out room hi fit)

-- The decoder between two runs.
abbrev pub idle : List ℕ → ℕ → List ℕ → State
idle rest room out = record { run = none; rest = rest; room = room; out = out }

emit-literal :
    (x : ℕ) (xs : List ℕ) (r : Encode.Run)
    → RunFits x xs r
    → r.kind ≡ Encode.literal
    → emit r (x ∷ xs) ≡ (r.length - 1) ∷ take r.length (x ∷ xs)
unfolding emit
emit-literal x xs r fit e =
    let small : (r.length - 1) % 256 ≡ r.length - 1 = omega (arith, fit.upper) in
    rw (e, emit, small)

emit-repeat :
    (x : ℕ) (xs : List ℕ) (r : Encode.Run)
    → RunFits x xs r
    → r.kind ≡ Encode.repeat
    → emit r (x ∷ xs) ≡ ((r.length - 1) + 128) ∷ x ∷ []
unfolding emit
emit-repeat x xs r fit e =
    let small : (r.length - 1) % 256 ≡ r.length - 1 = omega (arith, fit.upper) in
    rw (e, emit, small, repeat_control (r.length - 1) (omega (arith, fit.upper, fit.lower)))

RunKind-cases : (k : Encode.RunKind) → (k ≡ Encode.literal) ⊎ (k ≡ Encode.repeat)
RunKind-cases Encode.literal = inl refl
RunKind-cases Encode.repeat = inr refl

-- One run of the encoder, in front of `tail`.
drain-emit :
    (x : ℕ) (xs : List ℕ) (r : Encode.Run) (tail out : List ℕ) (room : ℕ)
    → RunFits x xs r
    → r.length ≤ room
    → drain (idle (emit r (x ∷ xs) ++ tail) room out)
      ≡ drain (idle tail (room - r.length) (out ++ take r.length (x ∷ xs)))
drain-emit x xs r tail out room fit space = elim (RunKind-cases r.kind) [
  | inl e ↦ rw (emit-literal x xs r fit e) (
      drain_literal r.length (take r.length (x ∷ xs)) tail out room fit.lower fit.upper
        (omega (arith, length-take r.length (x ∷ xs), fit.inside)) space)
  | inr e ↦
      rw (emit-repeat x xs r fit e, fit.same e)
        (drain_repeat r.length x tail out room fit.lower fit.upper space)
]

pub drain-encode_loop :
    (fuel : ℕ) (input tail out : List ℕ) (room : ℕ)
    → length input ≤ fuel
    → drain (idle (encode_loop fuel input ++ tail) (length input + room) out)
      ≡ drain (idle tail room (out ++ input))
unfolding encode_loop
drain-encode_loop zero [] tail out room h =
    let e : 0 + room ≡ room = omega arith in rw (e, append-nil)
drain-encode_loop (suc fuel) [] tail out room h =
    let e : 0 + room ≡ room = omega arith in rw (e, append-nil)
drain-encode_loop zero (x ∷ xs) tail out room h = absurd (omega arith)
drain-encode_loop (suc fuel) (x ∷ xs) tail out room h =
    let r = next_run (x ∷ xs) in
    let fit = next_run-RunFits x xs in
    let front = take r.length (x ∷ xs) in
    let rest = drop r.length (x ∷ xs) in
    let shorter = length-drop r.length (x ∷ xs) in
    let left : length (x ∷ xs) + room - r.length ≡ length rest + room = omega (arith, fit.inside) in
    let whole : (out ++ front) ++ rest ≡ out ++ (x ∷ xs) =
      append_assoc out front rest ∙ ap (λ l. out ++ l) (take-append-drop r.length (x ∷ xs)) in
    ap (λ l. drain (idle l (length (x ∷ xs) + room) out))
      (append_assoc (emit r (x ∷ xs)) (encode_loop fuel rest) tail)
    ∙ drain-emit x xs r (encode_loop fuel rest ++ tail) out (length (x ∷ xs) + room) fit
        (omega (arith, fit.inside))
    ∙ ap (λ k. drain (idle (encode_loop fuel rest ++ tail) k (out ++ front))) left
    ∙ drain-encode_loop fuel rest tail (out ++ front) room (omega (arith, fit.lower))
    ∙ ap (λ l. drain (idle tail room l)) whole

-- The decoder reads back what the encoder wrote: on the encoding of `input` with any bytes behind
-- it, a `decode` into a buffer of the input's length consumes exactly the encoding, fills the buffer
-- with the input and stands between two runs.
pub decode-encode_runs :
    (input tail : List ℕ)
    → decode none (encode_runs input ++ tail) (length input)
      ≡ record { run = none; rest = tail; room = 0; out = input }
unfolding decode encode_runs
decode-encode_runs input tail =
    let e : length input + 0 ≡ length input = omega arith in
    ap (λ n. drain (idle (encode_loop (length input) input ++ tail) n [])) (sym e)
    ∙ drain-encode_loop (length input) input tail [] 0 (omega arith)
    ∙ drain_full (idle tail 0 input) refl
