-- ===== src/Protocol/Limits.antt =====
-- firmware/crates/binbook-diagnostic-protocol/src/transfer_limits.rs: what the device announces of a
-- transfer. The first 16 bytes of the output are written in slices that follow one another.
use Prim.Native.Nat.{bit_and}
use binbook.Prelude.{
  ℕ, ◌-◌, ◌^◌, ◌<◌, ◌≤◌, ◌≡◌, refl, not, ◌&&◌, ◌||◌, ltb, le→ltb_false, ◌==◌, if◌then◌else◌, List,
  ◌∷◌, ◌++◌, length, take, drop, get_or, Result, ok, err, ◌>>=◌, arith,
}
use binbook.Format.Wire.{to_le_bytes, from_le_bytes}
use binbook.Protocol.Types.{
  ProtocolError, invalid_value, output_too_small, bad_payload_length, max_payload_bytes,
}

abbrev transfer_limits_schema_version : ℕ
transfer_limits_schema_version = 1

abbrev transfer_limits_bytes : ℕ
transfer_limits_bytes = 16

abbrev bulk_data_header_bytes : ℕ
bulk_data_header_bytes = 12

record TransferLimits : Type 0 where
  flags : ℕ
  max_data_bytes : ℕ
  legacy_upload_window : ℕ
  legacy_read_window : ℕ
  bulk_slots : ℕ
  rx_capacity_bytes : ℕ
  max_frame_bytes : ℕ
  idle_timeout_ms : ℕ

-- The complement of `TRANSFER_LIMIT_FLAGS` is 0xfc.
validate : TransferLimits → Result ProtocolError (Unit {0})
validate value =
    if not (bit_and value.flags 0xfc == 0)
      || (value.max_data_bytes == 0
          || (ltb (max_payload_bytes - bulk_data_header_bytes) value.max_data_bytes
              || (value.legacy_upload_window == 0
                  || (value.legacy_read_window == 0
                      || (value.rx_capacity_bytes == 0
                          || (value.max_frame_bytes == 0
                              || (ltb value.max_frame_bytes value.max_data_bytes
                                  || (value.idle_timeout_ms == 0
                                      || ((not (value.flags == 0) && value.bulk_slots == 0)
                                          || (value.flags == 0
                                              && not (value.bulk_slots == 0)))))))))))
    then err invalid_value
    else ok tt

abbrev limits_bytes : TransferLimits → List ℕ
limits_bytes value =
    transfer_limits_schema_version
    ∷ value.flags
    ∷ (to_le_bytes 2 value.max_data_bytes
        ++ (value.legacy_upload_window
            ∷ value.legacy_read_window
            ∷ value.bulk_slots
            ∷ 0
            ∷ (to_le_bytes 2 value.rx_capacity_bytes
                ++ (to_le_bytes 2 value.max_frame_bytes ++ to_le_bytes 4 value.idle_timeout_ms))))

encode_transfer_limits : TransferLimits → List ℕ → Result ProtocolError ℕ × List ℕ
encode_transfer_limits value out = elim (validate value) [
  | err e ↦ (err e, out)
  | ok valid ↦
      if ltb (length out) transfer_limits_bytes
      then (err output_too_small, out)
      else (ok transfer_limits_bytes, limits_bytes value ++ drop transfer_limits_bytes out)
]

-- The number of `n` bytes from `offset` on.
abbrev number_at : ℕ → List ℕ → ℕ → ℕ
number_at n payload offset = from_le_bytes (take n (drop offset payload))

abbrev limits_of : List ℕ → TransferLimits
limits_of payload = record {
  flags = get_or payload 1 0;
  max_data_bytes = number_at 2 payload 2;
  legacy_upload_window = get_or payload 4 0;
  legacy_read_window = get_or payload 5 0;
  bulk_slots = get_or payload 6 0;
  rx_capacity_bytes = number_at 2 payload 8;
  max_frame_bytes = number_at 2 payload 10;
  idle_timeout_ms = number_at 4 payload 12;
}

decode_transfer_limits : List ℕ → Result ProtocolError TransferLimits
decode_transfer_limits payload =
    if not (length payload == transfer_limits_bytes)
    then err bad_payload_length
    else if not (get_or payload 0 0 == transfer_limits_schema_version)
        || not (get_or payload 7 0 == 0)
    then err invalid_value
    else (do _ ← validate (limits_of payload); ok (limits_of payload))

-- Limits whose fields have their types.
record IsLimits (value : TransferLimits) : Type 0 where
  data_bytes : value.max_data_bytes < 2 ^ 16
  capacity : value.rx_capacity_bytes < 2 ^ 16
  frame_bytes : value.max_frame_bytes < 2 ^ 16
  timeout : value.idle_timeout_ms < 2 ^ 32

limits_eq :
    (value : TransferLimits) {a b c d : ℕ}
    → a ≡ value.max_data_bytes
    → b ≡ value.rx_capacity_bytes
    → c ≡ value.max_frame_bytes
    → d ≡ value.idle_timeout_ms
    → ◌≡◌ {A = TransferLimits}
        (record value {
          max_data_bytes = a;
          rx_capacity_bytes = b;
          max_frame_bytes = c;
          idle_timeout_ms = d;
        })
        value
limits_eq value e f g h = rw (e, f, g, h) refl

limits_of-limits_bytes :
    (value : TransferLimits) → IsLimits value → limits_of (limits_bytes value) ≡ value
limits_of-limits_bytes value h =
    limits_eq value (omega (arith, h.data_bytes)) (omega (arith, h.capacity))
      (omega (arith, h.frame_bytes)) (omega (arith, h.timeout))

-- Valid limits are read back from what is written for them.
decode_transfer_limits-encode :
    (value : TransferLimits) (out : List ℕ)
    → IsLimits value
    → validate value ≡ ok tt
    → 16 ≤ length out
    → (encode_transfer_limits value out ≡ (ok 16, limits_bytes value ++ drop 16 out))
      × (decode_transfer_limits (limits_bytes value) ≡ ok value)
unfolding encode_transfer_limits decode_transfer_limits
decode_transfer_limits-encode value out h valid room = (
  rw (valid, le→ltb_false (length out) 16 room, encode_transfer_limits) refl,
  rw (limits_of-limits_bytes value h, valid, decode_transfer_limits) refl,
)
