-- ===== src/Protocol/Cobs/InPlace.antt =====
-- `cobs_decode_in_place`. An index out of bounds, which panics, is `none`.
mod Copy
pub mod Same
use binbook.Prelude.{
  ℕ, zero, suc, ◌+◌, ◌-◌, Bool, not, ◌||◌, ◌&&◌, Option, none, some, List, length, get_elem?,
  get_or, ltb, ◌==◌, if◌then◌else◌, Result, ok, err,
}
use binbook.Protocol.Types.{ProtocolError, bad_cobs, frame_delimiter}
use binbook.Protocol.Cobs.Encode.{store, ◌>>=◌}

-- The bytes of a block, moved one after the other.
unfoldable pub copy : ℕ → List ℕ → (write_pos read_pos : ℕ) → Option (List ℕ)
copy zero buffer write_pos read_pos = some buffer
copy (suc n) buffer write_pos read_pos = do
  x ← get_elem? buffer read_pos
  moved ← store buffer write_pos x
  copy n moved (write_pos + 1) (read_pos + 1)

-- The variables of the loop, once a block is copied.
pub record Decoder : Type 0 where
  pub buffer : List ℕ
  pub read_pos : ℕ
  pub write_pos : ℕ

-- The zero between blocks.
unfoldable pub join_in_place : (last code : ℕ) → Decoder → Option Decoder
join_in_place last code d =
    if ltb code 0xff && ltb d.read_pos last
    then (do
      buffer ← store d.buffer d.write_pos 0
      some (record d { buffer = buffer; write_pos = d.write_pos + 1 }))
    else some d

-- A block copied, behind its code at `read_pos`.
unfoldable pub copy_block : (last code : ℕ) → Decoder → Option Decoder
copy_block last code d = do
  buffer ← copy (code - 1) d.buffer d.write_pos (d.read_pos + 1)
  join_in_place last code (record {
    buffer = buffer;
    read_pos = d.read_pos + code;
    write_pos = d.write_pos + (code - 1);
  })

-- The loop, where `last` is the position of the delimiter. Each turn reads a code.
unfoldable pub decode_in_place :
    (fuel last : ℕ) → Decoder → Option (Result ProtocolError ℕ × List ℕ)
decode_in_place zero last d = some (ok d.write_pos, d.buffer)
decode_in_place (suc fuel) last d =
    if not (ltb d.read_pos last) then some (ok d.write_pos, d.buffer) else (do
      code ← get_elem? d.buffer d.read_pos
      if code == 0 || ltb last (d.read_pos + code)
          then some (err bad_cobs, d.buffer)
          else (copy_block last code d >>= decode_in_place fuel last))

unfoldable pub cobs_decode_in_place : List ℕ → ℕ → Option (Result ProtocolError ℕ × List ℕ)
cobs_decode_in_place buffer input_len =
    if input_len == 0
      || (ltb (length buffer) input_len || not (get_or buffer (input_len - 1) 1 == frame_delimiter))
    then some (err bad_cobs, buffer)
    else decode_in_place input_len (input_len - 1)
        (record { buffer = buffer; read_pos = 0; write_pos = 0 })
