-- ===== src/Protocol/Frame.antt =====
-- firmware/crates/binbook-diagnostic-protocol/src/frame.rs: frames with a header, a payload and a
-- checksum. The buffer `raw` is the list of the bytes written to it, of which each slice written
-- follows the one before; the observer of `decode_frame_profiled`, the caller's, is left out. A
-- decoder answers the payload that it writes to `payload_out`, which has `room` for so many bytes.
pub mod RoundTrip
use binbook.Prelude.{
  ℕ, ◌+◌, ◌-◌, Bool, true, false, not, ◌&&◌, List, [], ◌∷◌, ◌++◌, length, take, drop, get_or, ltb,
  ◌==◌, if◌then◌else◌, Option, none, some, Result, ok, err, ok_or, ◌>>=◌,
}
use binbook.Format.Wire.{to_le_bytes, from_le_bytes}
use binbook.Protocol.Types.{
  ProtocolError, bad_magic, bad_crc, frame_too_large, unknown_opcode, payload_too_large, bad_status,
  bad_payload_length, bad_version, output_too_small, protocol_version, max_frame_bytes,
  max_payload_bytes, RawFrameHeader, FrameHeader, kind_code, kind_from_u8, opcode_code,
  opcode_from_u8, status_code, status_from_u8,
}
use binbook.Protocol.Crc16.{crc16_ccitt_false}
use binbook.Protocol.Cobs.Encode.{cobs_encode}
use binbook.Protocol.Cobs.Decode.{cobs_decode}

-- What the checksum is of.
abbrev pub frame_body : RawFrameHeader → List ℕ → List ℕ
frame_body header payload =
    66
    ∷ 66
    ∷ protocol_version
    ∷ header.kind
    ∷ header.opcode
    ∷ header.status
    ∷ (to_le_bytes 2 header.sequence ++ (to_le_bytes 2 header.payload_len ++ payload))

abbrev pub raw_frame : RawFrameHeader → List ℕ → List ℕ
raw_frame header payload =
    let body = frame_body header payload in body ++ to_le_bytes 2 (crc16_ccitt_false body)

unfoldable pub encode_raw_frame :
    RawFrameHeader → List ℕ → List ℕ → Option (Result ProtocolError ℕ × List ℕ)
encode_raw_frame header payload output =
    if ltb max_payload_bytes (length payload)
    then some (err payload_too_large, output)
    else if not (header.payload_len == length payload)
    then some (err bad_payload_length, output)
    else cobs_encode (raw_frame header payload) output

-- The value of the two bytes from `i` on.
abbrev pub u16_at : List ℕ → ℕ → ℕ
u16_at raw i = from_le_bytes (get_or raw i 0 ∷ get_or raw (i + 1) 0 ∷ [])

abbrev pub has_magic : List ℕ → Bool
has_magic raw = get_or raw 0 0 == 66 && get_or raw 1 0 == 66

-- The tests of `decode_raw_frame_profiled`, once the framing is undone.
unfoldable pub read_raw_frame : List ℕ → ℕ → Result ProtocolError (RawFrameHeader × List ℕ)
read_raw_frame raw room =
    let payload_len = u16_at raw 8 in
    if ltb (length raw) 12
    then err bad_magic
    else if not (has_magic raw)
    then err bad_magic
    else if not (get_or raw 2 0 == protocol_version)
    then err bad_version
    else if not (length raw == 10 + payload_len + 2)
    then err bad_payload_length
    else if not (u16_at raw (length raw - 2) == crc16_ccitt_false (take (length raw - 2) raw))
    then err bad_crc
    else if ltb room payload_len
    then err output_too_small
    else ok (
      record {
        kind = get_or raw 3 0;
        opcode = get_or raw 4 0;
        status = get_or raw 5 0;
        sequence = u16_at raw 6;
        payload_len = payload_len;
      },
      take payload_len (drop 10 raw),
    )

unfoldable pub decode_raw_frame : List ℕ → ℕ → Result ProtocolError (RawFrameHeader × List ℕ)
decode_raw_frame input room =
    if ltb max_frame_bytes (length input)
    then err frame_too_large
    else (do raw ← cobs_decode input max_frame_bytes; read_raw_frame raw room)

abbrev pub raw_header : FrameHeader → RawFrameHeader
raw_header header = record {
  kind = kind_code header.kind;
  opcode = opcode_code header.opcode;
  status = status_code header.status;
  sequence = header.sequence;
  payload_len = header.payload_len;
}

unfoldable pub encode_frame :
    FrameHeader → List ℕ → List ℕ → Option (Result ProtocolError ℕ × List ℕ)
encode_frame header payload output = encode_raw_frame (raw_header header) payload output

-- The header that `decode_frame_profiled` makes of the raw one.
unfoldable pub typed_header : RawFrameHeader → Result ProtocolError FrameHeader
typed_header raw = do
  kind ← ok_or bad_magic (kind_from_u8 raw.kind)
  opcode ← ok_or unknown_opcode (opcode_from_u8 raw.opcode)
  status ← ok_or bad_status (status_from_u8 raw.status)
  ok (record {
    kind = kind;
    opcode = opcode;
    status = status;
    sequence = raw.sequence;
    payload_len = raw.payload_len;
  })

unfoldable pub decode_frame : List ℕ → ℕ → Result ProtocolError (FrameHeader × List ℕ)
decode_frame input room = do
  (raw, payload) ← decode_raw_frame input room
  header ← typed_header raw
  ok (header, payload)
