-- ===== src/Protocol/Tests.antt =====
-- The theorems on the protocol at concrete messages.
use binbook.Prelude.{
  ℕ, zero, suc, ◌≤◌, ◌<◌, ◌+◌, ◌≡◌, refl, List, [], ◌∷◌, ◌++◌, take, length, replicate,
  length-replicate, drop, some, ok, All, arith,
}
use binbook.Protocol.Types.{frame_delimiter}
use binbook.Protocol.Cobs.Encode.{cobs_encode}
use binbook.Protocol.Cobs.Decode.{cobs_decode}
use binbook.Protocol.Cobs.RoundTrip.{
  NonZero, short-ZerosKept, cobs_decode-cobs_encode, cobs_decode-lost_zero, cobs_encode-fits,
}
use binbook.Protocol.Cobs.InPlace.{cobs_decode_in_place}
use binbook.Protocol.Cobs.InPlace.Same.{Matches, cobs_decode_in_place-Matches}
use binbook.Protocol.Types.{FrameHeader, request, op_hello, status_ok}
use binbook.Protocol.Frame.{encode_frame, decode_frame, raw_frame, raw_header}
use binbook.Protocol.Frame.RoundTrip.{decode_frame-encode_frame}

abbrev message : List ℕ
message = 7 ∷ 0 ∷ 0 ∷ 5 ∷ []

abbrev six_bytes : List ℕ
six_bytes = 9 ∷ 9 ∷ 9 ∷ 9 ∷ 9 ∷ 9 ∷ []

ones-NonZero : (n : ℕ) → All NonZero (replicate n 1)
ones-NonZero zero = tt
ones-NonZero (suc n) = (omega arith, ones-NonZero n)

cobs_encode-fits_example :
    (encoded : List ℕ) × (cobs_encode message six_bytes
      ≡ some (
        ok (length encoded + 1),
        encoded ++ (frame_delimiter ∷ drop (length encoded + 1) six_bytes),
      ))
    × (length encoded + 1 ≤ 6)
    × All NonZero encoded
cobs_encode-fits_example = cobs_encode-fits message six_bytes (omega arith)

cobs_decode-cobs_encode_example :
    (n : ℕ) × (out : List ℕ) × (cobs_encode message six_bytes ≡ some (ok n, out))
    × (cobs_decode (take n out) 4 ≡ ok message)
    × (n ≤ 6)
cobs_decode-cobs_encode_example =
    cobs_decode-cobs_encode message six_bytes 4 (short-ZerosKept 0 message (omega arith))
      (omega arith) (omega arith)

cobs_decode-lost_zero_example :
    (n : ℕ) × (out read : List ℕ) × (cobs_encode (replicate 254 1 ++ (0 ∷ 5 ∷ [])) (replicate 260 9)
      ≡ some (ok n, out))
    × (cobs_decode (take n out) 300 ≡ ok read)
    × (length read < 256)
cobs_decode-lost_zero_example =
    cobs_decode-lost_zero (replicate 254 1) (5 ∷ []) (replicate 260 9) 300 (ones-NonZero 254) refl
      (omega arith) (omega arith)

abbrev framed_message : List ℕ
framed_message = 2 ∷ 7 ∷ 1 ∷ 2 ∷ 5 ∷ 0 ∷ 9 ∷ []

cobs_decode_in_place-Matches_example :
    Matches (cobs_decode (take 6 framed_message) 10) (cobs_decode_in_place framed_message 6)
cobs_decode_in_place-Matches_example =
    cobs_decode_in_place-Matches framed_message 6 10 (omega arith) (omega arith)

abbrev hello : FrameHeader
hello = record {
  kind = request;
  opcode = op_hello;
  status = status_ok;
  sequence = 5;
  payload_len = 4;
}

decode_frame-encode_frame_example :
    (n : ℕ) × (out : List ℕ) × (encode_frame hello message (replicate 4126 0) ≡ some (ok n, out))
    × (decode_frame (take n out) 64 ≡ ok (hello, message))
decode_frame-encode_frame_example =
    decode_frame-encode_frame hello message (replicate 4126 0) 64 (omega arith) refl (omega arith)
      (short-ZerosKept 0 (raw_frame (raw_header hello) message) (omega arith))
      (length-replicate {A = ℕ} 4126 0) (omega arith)
