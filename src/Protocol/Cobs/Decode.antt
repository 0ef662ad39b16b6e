-- ===== src/Protocol/Cobs/Decode.antt =====
-- `cobs_decode`.
use binbook.Prelude.{
  ℕ, zero, suc, ◌+◌, ◌-◌, Bool, not, ◌||◌, ◌&&◌, List, [], ◌∷◌, ◌++◌, length, take, drop, get_or,
  ltb, ◌==◌, if◌then◌else◌, Result, ok, err, ◌>>=◌,
}
use binbook.Protocol.Types.{ProtocolError, output_too_small, bad_cobs, frame_delimiter}

-- The rest of a turn of the loop of `cobs_decode`, once `block` is copied: the zero between blocks.
unfoldable pub join : ℕ → ℕ → List ℕ → List ℕ → Result ProtocolError (List ℕ)
join room code rest output =
    if ltb code 0xff && not (length rest == 0)
    then (if ltb (length output) room then ok (output ++ (0 ∷ [])) else err output_too_small)
    else ok output

-- The loop of `cobs_decode` over the input without its delimiter, from `read_pos` on, with the bytes
-- written so far to an output with `room` for so many. Each turn reads a code.
unfoldable pub decode_blocks : (fuel room : ℕ) → List ℕ → List ℕ → Result ProtocolError (List ℕ)
decode_blocks zero room rest output = ok output
decode_blocks (suc fuel) room [] output = ok output
decode_blocks (suc fuel) room (code ∷ rest) output =
    if code == 0 || ltb (length rest) (code - 1)
    then err bad_cobs
    else if ltb room (length output + (code - 1))
    then err output_too_small
    else join room code (drop (code - 1) rest) (output ++ take (code - 1) rest)
      >>= decode_blocks fuel room (drop (code - 1) rest)

abbrev ends_with_delimiter : List ℕ → Bool
ends_with_delimiter input =
    not (length input == 0) && get_or input (length input - 1) 1 == frame_delimiter

-- The bytes that `cobs_decode` writes to an output with `room` for so many; the number that it
-- answers is their length.
unfoldable pub cobs_decode : List ℕ → ℕ → Result ProtocolError (List ℕ)
cobs_decode input room =
    if not (ends_with_delimiter input)
    then err bad_cobs
    else decode_blocks (length input) room (take (length input - 1) input) []
