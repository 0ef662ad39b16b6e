-- ===== src/Protocol/Cobs/Encode.antt =====
-- `cobs_encode`. An index out of bounds, which panics, is `none`.
use binbook.Prelude.{
  ℕ, ◌+◌, Option, none, some, List, [], ◌∷◌, length, set, ltb, ◌==◌, if◌then◌else◌, Result, ok, err,
}
use binbook.Protocol.Types.{ProtocolError, output_too_small, frame_delimiter}

infixl 5 ◌>>=◌
abbrev pub ◌>>=◌ {ℓ κ} : {A : Type ℓ} {B : Type κ} → Option A → (A → Option B) → Option B
none >>= f = none
some a >>= f = f a

-- `output[i] = v`
unfoldable pub store : List ℕ → ℕ → ℕ → Option (List ℕ)
store output i v = if ltb i (length output) then some (set output i v) else none

-- The variables of `cobs_encode`.
pub record Encoder : Type 0 where
  pub output : List ℕ
  pub write_pos : ℕ
  pub code_pos : ℕ
  pub code : ℕ

-- Writes the code of the block and reserves the place for the next code.
unfoldable pub end_block : Encoder → Option Encoder
end_block e = do
  output ← store e.output e.code_pos e.code
  some (record { output = output; write_pos = e.write_pos + 1; code_pos = e.write_pos; code = 1 })

unfoldable pub push_byte : Encoder → ℕ → Option Encoder
push_byte e x = do
  output ← store e.output e.write_pos x
  some (record e { output = output; write_pos = e.write_pos + 1; code = e.code + 1 })

-- One turn of the loop. `code` is at most 255, so that adding one to it does not wrap.
unfoldable pub encode_byte : Encoder → ℕ → Option Encoder
encode_byte e x =
    if x == 0
    then end_block e
    else (do e' ← (if e.code == 0xff then end_block e else some e); push_byte e' x)

unfoldable pub encode_bytes : Encoder → List ℕ → Option Encoder
encode_bytes e [] = some e
encode_bytes e (x ∷ xs) = do e' ← encode_byte e x; encode_bytes e' xs

-- What follows the loop.
unfoldable pub end_message : Encoder → Option (Result ProtocolError ℕ × List ℕ)
end_message e = do
  coded ← store e.output e.code_pos e.code
  output ← store coded e.write_pos frame_delimiter
  some (ok (e.write_pos + 1), output)

unfoldable pub cobs_encode : List ℕ → List ℕ → Option (Result ProtocolError ℕ × List ℕ)
cobs_encode input output =
    if ltb (length output) (length input + 2) then some (err output_too_small, output) else (do
      e ← encode_bytes (record { output = output; write_pos = 1; code_pos = 0; code = 1 }) input
      end_message e)
