-- ===== src/Packbits/Encode.antt =====
-- crates/binbook-compress/src/packbits.rs: the PackBits compressor. `input[offset..]` is the list
-- of the bytes from the offset on, and the output buffer the list of the bytes written.
pub mod Runs
pub mod Length
use Prim.Native.Nat.{bit_or}
use binbook.Prelude.{
  ℕ, zero, suc, ◌+◌, ◌-◌, ◌%◌, Bool, List, [], ◌∷◌, ◌++◌, min, ltb, leb, ◌==◌, if◌then◌else◌,
  length, take, drop, replicate, Result, ok, err,
}

abbrev pub max_run : ℕ
max_run = 128

pub data EncodeError : Type 0 where
  buffer_too_small : (required provided : ℕ) → EncodeError

pub data RunKind : Type 0 where
  literal repeat : RunKind

pub record Run : Type 0 where
  pub kind : RunKind
  pub length : ℕ

-- The loop of `repeat_length`: how many of the next bytes, `n` at most, equal `value`.
pub repeat_more : ℕ → ℕ → List ℕ → ℕ
repeat_more zero value rest = 0
repeat_more (suc n) value [] = 0
repeat_more (suc n) value (y ∷ ys) = if y == value then suc (repeat_more n value ys) else 0

pub repeat_length : List ℕ → ℕ
unfolding repeat_more
repeat_length [] = 0
repeat_length (x ∷ xs) = suc (repeat_more (max_run - 1) x xs)

-- The loop of `next_run`: how many of the next bytes, `n` at most, start no repeat.
pub literal_more : ℕ → List ℕ → ℕ
unfolding repeat_length
literal_more zero rest = 0
literal_more (suc n) [] = 0
literal_more (suc n) (y ∷ ys) =
    if leb 2 (repeat_length (y ∷ ys)) then 0 else suc (literal_more n ys)

-- `next_run` is only called before the end of the input.
unfoldable pub next_run : List ℕ → Run
unfolding literal_more repeat_length
next_run [] = record { kind = literal; length = 1 }
next_run (x ∷ xs) =
    if leb 2 (repeat_length (x ∷ xs))
    then record { kind = repeat; length = repeat_length (x ∷ xs) }
    else record { kind = literal; length = suc (literal_more (max_run - 1) xs) }

-- The bytes of one run: a control byte and the payload.
unfoldable pub emit : Run → List ℕ → List ℕ
emit r input = elim r.kind [
  | literal ↦ ((r.length - 1) % 256) ∷ take r.length input
  | repeat ↦ bit_or 0x80 ((r.length - 1) % 256) ∷ take 1 input
]

-- The loop of `encode_runs`. Each round takes a byte at least, so `length input` rounds are enough.
unfoldable pub encode_loop : ℕ → List ℕ → List ℕ
encode_loop zero input = []
encode_loop (suc fuel) [] = []
encode_loop (suc fuel) (x ∷ xs) =
    let r = next_run (x ∷ xs) in emit r (x ∷ xs) ++ encode_loop fuel (drop r.length (x ∷ xs))

unfoldable pub encode_runs : List ℕ → List ℕ
encode_runs input = encode_loop (length input) input

-- The payload that `encoded_len` counts for a run.
abbrev pub payload : Run → ℕ
payload r = elim r.kind [ literal ↦ r.length | repeat ↦ 1 ]

-- The buffer once `front` is written to its start. (A front that is longer than the buffer would
-- panic; `Length` shows that the runs fit.)
pub write_front : List ℕ → List ℕ → List ℕ
write_front front buffer = front ++ drop (length front) buffer

-- The `usize` of the target is a parameter: `saturating_add` stops at its largest value.
module _ (usize_max : ℕ) where
  pub encoded_len_loop : ℕ → List ℕ → ℕ → ℕ
  encoded_len_loop zero input output_length = output_length
  encoded_len_loop (suc fuel) [] output_length = output_length
  encoded_len_loop (suc fuel) (x ∷ xs) output_length =
      let r = next_run (x ∷ xs) in
      encoded_len_loop fuel (drop r.length (x ∷ xs))
        (min (output_length + (1 + payload r)) usize_max)

  pub encoded_len : List ℕ → ℕ
  encoded_len input = encoded_len_loop (length input) input 0

  -- `encode_into`: the number of bytes written, and the buffer.
  pub encode_into : List ℕ → List ℕ → Result EncodeError (ℕ × List ℕ)
  encode_into input output =
      if ltb (length output) (encoded_len input)
      then err (buffer_too_small (encoded_len input) (length output))
      else ok (length (encode_runs input), write_front (encode_runs input) output)

  -- `encode`, into a buffer of `encoded_len` zeros.
  pub encode : List ℕ → List ℕ
  encode input = write_front (encode_runs input) (replicate (encoded_len input) 0)
