-- ===== src/Packbits/Decode.antt =====
-- crates/binbook-decompress/src/packbits.rs: the streaming PackBits decoder. Of the input the model
-- keeps what is not yet consumed, of the output buffer the bytes produced so far and the room left.
pub mod Loop
use Prim.Native.Nat.{bit_and}
use binbook.Prelude.{
  ℕ, zero, suc, ◌+◌, ◌-◌, Bool, true, false, Option, none, some, List, [], ◌∷◌, ◌++◌, min, ltb, leb,
  ◌==◌, if◌then◌else◌, length, take, drop, replicate, Result, ok, err, ◌&&◌, ◌||◌,
}

-- `DecodeError` of error.rs
pub data DecodeError : Type 0 where
  malformed_run lz4_disabled lz4_failure : DecodeError
  output_too_short : (expected actual : ℕ) → DecodeError
  output_too_long : (expected : ℕ) → DecodeError

-- `PackBitsRun`
pub data Run : Type 0 where
  literal : (remaining : ℕ) → Run
  repeat_value : (remaining : ℕ) → Run
  repeat : (value remaining : ℕ) → Run

-- The variables of `decode`: `input[consumed..]`, `output.len() - produced` and
-- `output[..produced]`.
pub record State : Type 0 where
  pub run : Option Run
  pub rest : List ℕ
  pub room : ℕ
  pub out : List ℕ

-- `remaining_run`, with `u8::try_from` and `checked_sub`
unfoldable pub remaining_run : ℕ → ℕ → (ℕ → Run) → Option Run
remaining_run remaining consumed build =
    if ltb 255 consumed
    then none
    else if ltb remaining consumed
    then none
    else if ltb 0 (remaining - consumed)
    then some (build (remaining - consumed))
    else none

-- One turn of the `while` loop of `decode`; `none` is a `break`.
unfoldable pub turn : State → Option State
unfolding remaining_run
turn s = elim s.run [
  | none ↦ elim s.rest [
    | [] ↦ none
    | control ∷ rest ↦
        if leb control 127
        then some (record s { run = some (literal (control + 1)); rest = rest })
        else some (record s { run = some (repeat_value (bit_and control 0x7f + 1)); rest = rest })
  ]
  | some (literal remaining) ↦
      if length s.rest == 0
      then none
      else let count = min (min remaining (length s.rest)) s.room in
        some (record {
          run = remaining_run remaining count literal;
          rest = drop count s.rest;
          room = s.room - count;
          out = s.out ++ take count s.rest;
        })
  | some (repeat_value remaining) ↦ elim s.rest [
    | [] ↦ none
    | value ∷ rest ↦ some (record s { run = some (repeat value remaining); rest = rest })
  ]
  | some (repeat value remaining) ↦
      let count = min remaining s.room in
      some (record {
        run = remaining_run remaining count (repeat value);
        rest = s.rest;
        room = s.room - count;
        out = s.out ++ replicate count value;
      })
]

-- The `while` loop. Each turn takes a byte of the input or of the room (see `Loop`), so as many
-- turns as there are of both are enough.
unfoldable pub loop : ℕ → State → State
loop zero s = s
loop (suc fuel) s = elim (s.room == 0) [
  | true ↦ s
  | false ↦ elim (turn s) [ none ↦ s | some t ↦ loop fuel t ]
]

abbrev pub measure : State → ℕ
measure s = length s.rest + s.room

-- `PackBitsDecoder::decode` over an output buffer of `room` bytes, from the decoder's run.
unfoldable pub decode : Option Run → List ℕ → ℕ → State
decode run input room =
    let s : State = record { run = run; rest = input; room = room; out = [] } in loop (measure s) s

-- `finish`
unfoldable pub finish : Option Run → Result DecodeError (Unit {0})
finish none = ok tt
finish (some r) = err malformed_run

-- The loop of `decode_exact`: it calls `decode` on what is left until the buffer is full or a call
-- makes no progress.
unfoldable pub exact_loop : ℕ → State → State
exact_loop zero s = s
exact_loop (suc fuel) s =
    let t = decode s.run s.rest s.room in
    let next : State = record { run = t.run; rest = t.rest; room = t.room; out = s.out ++ t.out } in
    let more = exact_loop fuel next in
    if s.room == 0
    then s
    else if length t.rest == length s.rest && length t.out == 0
    then next
    else more

-- What `decode_exact` makes of the end of that loop, for a buffer of `expected` bytes.
unfoldable pub exact_result : ℕ → State → Result DecodeError (List ℕ)
exact_result expected s =
    if ltb (length s.out) expected
    then elim s.run [
      | some r ↦ err malformed_run
      | none ↦ err (output_too_short expected (length s.out))
    ]
    else elim s.run [
      | some (repeat_value r) ↦ err malformed_run
      | some (literal r) ↦
          if length s.rest == 0 then err malformed_run else err (output_too_long expected)
      | some (repeat v r) ↦ err (output_too_long expected)
      | none ↦
          if length s.rest == 0
          then ok s.out
          else let probe = decode none s.rest 1 in
            if ltb 0 (length probe.out)
            then err (output_too_long expected)
            else elim probe.run [ some r ↦ err malformed_run | none ↦ ok s.out ]
    ]

-- `decode_exact`; each call that makes progress takes a byte of the input or of the room.
unfoldable pub decode_exact : List ℕ → ℕ → Result DecodeError (List ℕ)
decode_exact input expected =
    let s : State = record { run = none; rest = input; room = expected; out = [] } in
    exact_result expected (exact_loop (suc (measure s)) s)
