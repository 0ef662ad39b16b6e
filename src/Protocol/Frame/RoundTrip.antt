-- ===== src/Protocol/Frame/RoundTrip.antt =====
-- What `decode_frame` makes of what `encode_frame` writes.
use binbook.Prelude.{
  ℕ, suc, ◌+◌, ◌-◌, ◌/◌, ◌%◌, ◌^◌, ◌≤◌, ◌<◌, ◌≡◌, refl, sym, ap, ◌∙◌, true, false, List, [], ◌∷◌,
  ◌++◌, length, take, drop, get_or, ltb, ◌==◌, some, ok, arith, length-append, take-append,
  length-take, ==_iff,
}
use binbook.Format.Wire.{to_le_bytes, from_le_bytes}
use binbook.Protocol.Types.{
  RawFrameHeader, FrameHeader, kind_from_u8-code, opcode_from_u8-code, status_from_u8-code,
  max_frame_bytes, max_payload_bytes, protocol_version,
}
use binbook.Protocol.Crc16.{crc16_ccitt_false, crc16-bound}
use binbook.Protocol.Cobs.Encode.{cobs_encode}
use binbook.Protocol.Cobs.Decode.{cobs_decode}
use binbook.Protocol.Cobs.RoundTrip.{ZerosKept, cobs_decode-cobs_encode}
use binbook.Protocol.Frame.{
  frame_body, raw_frame, encode_raw_frame, u16_at, has_magic, read_raw_frame, decode_raw_frame,
  raw_header, encode_frame, typed_header, decode_frame,
}

-- Two bytes behind a list.
get_or-behind :
    (xs : List ℕ) (x y : ℕ)
    → (get_or (xs ++ (x ∷ y ∷ [])) (length xs) 0 ≡ x)
      × (get_or (xs ++ (x ∷ y ∷ [])) (suc (length xs)) 0 ≡ y)
get_or-behind [] x y = (refl, refl)
get_or-behind (z ∷ xs) x y = get_or-behind xs x y

-- A frame that passes each test.
read_accepted :
    (raw : List ℕ) (room : ℕ)
    → 12 ≤ length raw
    → has_magic raw ≡ true
    → get_or raw 2 0 ≡ protocol_version
    → length raw ≡ 10 + u16_at raw 8 + 2
    → u16_at raw (length raw - 2) ≡ crc16_ccitt_false (take (length raw - 2) raw)
    → u16_at raw 8 ≤ room
    → read_raw_frame raw room
      ≡ ok (
        record {
          kind = get_or raw 3 0;
          opcode = get_or raw 4 0;
          status = get_or raw 5 0;
          sequence = u16_at raw 6;
          payload_len = u16_at raw 8;
        },
        take (u16_at raw 8) (drop 10 raw),
      )
unfolding read_raw_frame
read_accepted raw room long magic version size crc fits =
    let long' : ltb (length raw) 12 ≡ false = ground (arith, long) in
    let version' : get_or raw 2 0 == protocol_version ≡ true = ground (arith, version) in
    let size' : length raw == 10 + u16_at raw 8 + 2 ≡ true = ground (arith, size) in
    let crc' : u16_at raw (length raw - 2) == crc16_ccitt_false (take (length raw - 2) raw) ≡ true =
      (==_iff _ _).1 crc in
    let fits' : ltb room (u16_at raw 8) ≡ false = ground (arith, fits) in
    rw (long', magic, version', size', crc', fits') refl

u16_bytes : (v : ℕ) → v < 2 ^ 16 → from_le_bytes (to_le_bytes 2 v) ≡ v
u16_bytes v h = omega (arith, h)

module _ (header : RawFrameHeader) (payload : List ℕ) where
  abbrev crc : ℕ
  crc = crc16_ccitt_false (frame_body header payload)

  checksum_at :
      (u16_at (raw_frame header payload) (length payload + 10) ≡ crc)
      × (take (length payload + 10) (raw_frame header payload) ≡ frame_body header payload)
  checksum_at =
      let body = frame_body header payload in
      let at : length payload + 10 ≡ length body = omega arith in
      let next : length body + 1 ≡ suc (length body) = omega arith in
      let behind = get_or-behind body (crc % 256) (crc / 256 % 256) in
      (
        rw (at, next, behind.0, behind.1) (u16_bytes crc (crc16-bound body)),
        rw at (take-append body (to_le_bytes 2 crc)),
      )

  pub read_raw_frame-raw_frame :
      (room : ℕ)
      → header.sequence < 2 ^ 16
      → header.payload_len ≡ length payload
      → length payload ≤ max_payload_bytes
      → length payload ≤ room
      → read_raw_frame (raw_frame header payload) room ≡ ok (header, payload)
  read_raw_frame-raw_frame room seq len small fits =
      let raw = raw_frame header payload in
      let whole : length raw ≡ length payload + 12 =
        omega (arith, length-append (frame_body header payload) (to_le_bytes 2 crc)) in
      let plen : u16_at raw 8 ≡ header.payload_len =
        u16_bytes header.payload_len (omega (arith, len, small)) in
      let size : u16_at raw 8 ≡ length payload = plen ∙ len in
      let taken : take header.payload_len (payload ++ to_le_bytes 2 crc) ≡ payload =
        ap (λ n. take n (payload ++ to_le_bytes 2 crc)) len
        ∙ take-append payload (to_le_bytes 2 crc) in
      let behind : length raw - 2 ≡ length payload + 10 = omega (arith, whole) in
      read_accepted raw room (omega (arith, whole)) refl refl (omega (arith, whole, size))
        (rw behind (checksum_at.0 ∙ ap crc16_ccitt_false (sym checksum_at.1)))
        (omega (arith, size, fits))
      ∙ rw (u16_bytes header.sequence seq, plen, taken) refl

-- Frames are short enough for their buffer.
room_for_frame :
    (header : RawFrameHeader) (payload : List ℕ)
    → length payload ≤ max_payload_bytes
    → length (raw_frame header payload) + length (raw_frame header payload) / 254 + 2
      ≤ max_frame_bytes
room_for_frame header payload small =
    omega
      (arith, small, length-append (frame_body header payload) (to_le_bytes 2 (crc header payload)))

encode_frame-raw_frame :
    (header : FrameHeader) (payload output : List ℕ)
    → header.payload_len ≡ length payload
    → length payload ≤ max_payload_bytes
    → encode_frame header payload output
      ≡ cobs_encode (raw_frame (raw_header header) payload) output
unfolding encode_frame encode_raw_frame
encode_frame-raw_frame header payload output len small =
    let test : ltb max_payload_bytes (length payload) ≡ false = ground (arith, small) in
    let same : header.payload_len == length payload ≡ true = ground (arith, len) in
    rw (test, same) refl

typed_header-raw_header : (header : FrameHeader) → typed_header (raw_header header) ≡ ok header
unfolding typed_header
typed_header-raw_header header =
    rw
      (
        kind_from_u8-code header.kind,
        opcode_from_u8-code header.opcode,
        status_from_u8-code header.status,
      )
      refl

decode_frame-raw_frame :
    (header : FrameHeader) (payload input : List ℕ) (room : ℕ)
    → length input ≤ max_frame_bytes
    → cobs_decode input max_frame_bytes ≡ ok (raw_frame (raw_header header) payload)
    → read_raw_frame (raw_frame (raw_header header) payload) room ≡ ok (raw_header header, payload)
    → decode_frame input room ≡ ok (header, payload)
unfolding decode_frame decode_raw_frame
decode_frame-raw_frame header payload input room short framing read =
    let test : ltb max_frame_bytes (length input) ≡ false = ground (arith, short) in
    rw (test, framing, read, typed_header-raw_header header) refl

-- A frame with a payload of up to 4096 bytes of the length that its header gives, in which no zero of
-- the raw frame stands directly behind a full block of 254 bytes, is encoded in a buffer of 4126 bytes,
-- and `decode_frame` reads its header and its payload from the bytes written, if there is room for the
-- payload.
pub decode_frame-encode_frame :
    (header : FrameHeader) (payload output : List ℕ) (room : ℕ)
    → header.sequence < 2 ^ 16
    → header.payload_len ≡ length payload
    → length payload ≤ max_payload_bytes
    → ZerosKept 0 (raw_frame (raw_header header) payload)
    → length output ≡ max_frame_bytes
    → length payload ≤ room
    → (n : ℕ) × (out : List ℕ) × (encode_frame header payload output ≡ some (ok n, out))
      × (decode_frame (take n out) room ≡ ok (header, payload))
decode_frame-encode_frame header payload output room seq len small zeros whole fits =
    let raw = raw_frame (raw_header header) payload in
    let limit = room_for_frame (raw_header header) payload small in
    let (n, out, encoded, decoded, short) =
      cobs_decode-cobs_encode raw output max_frame_bytes zeros (omega (arith, limit, whole))
        (omega (arith, limit)) in
    (
      n,
      out,
      encode_frame-raw_frame header payload output len small ∙ encoded,
      decode_frame-raw_frame header payload (take n out) room
          (omega (arith, short, limit, length-take n out)) decoded
          (read_raw_frame-raw_frame (raw_header header) payload room seq len small fits),
    )
