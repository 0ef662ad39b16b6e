-- ===== src/Protocol/Crc16.antt =====
-- The CRC-16 of firmware/crates/binbook-diagnostic-protocol/src/cobs.rs, by a table. A `u16` is a number
-- below 2^16, and a shift to the left drops the bits above. For a byte the index is in the table.
use Prim.Native.Nat.{bit_and, bit_xor}
use binbook.Prelude.{
  ℕ, zero, suc, ◌+◌, ◌*◌, ◌/◌, ◌%◌, ◌^◌, ◌<◌, ◌≡◌, refl, List, [], ◌∷◌, get_or, not, ◌==◌,
  if◌then◌else◌, arith, bit_xor-bound, Bool-cases, inl, inr,
}

-- One turn of the inner loop of `make_crc16_table`.
table_round : ℕ → ℕ
table_round value =
    if not (bit_and value 0x8000 == 0)
    then bit_xor (value * 2 % 2 ^ 16) 0x1021
    else value * 2 % 2 ^ 16

table_rounds : ℕ → ℕ → ℕ
table_rounds zero value = value
table_rounds (suc n) value = table_rounds n (table_round value)

-- The entries from `index` on, `n` of them.
table_from : ℕ → ℕ → List ℕ
table_from zero index = []
table_from (suc n) index = table_rounds 8 (index * 256 % 2 ^ 16) ∷ table_from n (index + 1)

-- `make_crc16_table`
table : List ℕ
unfolding table_from table_rounds table_round
table = table_from 256 0

update_byte : ℕ → ℕ → ℕ
unfolding table
update_byte crc byte = bit_xor (crc * 256 % 2 ^ 16) (get_or table (bit_xor (crc / 256) byte) 0)

update : ℕ → List ℕ → ℕ
unfolding update_byte
update crc [] = crc
update crc (byte ∷ bytes) = update (update_byte crc byte) bytes

unfoldable pub crc16_ccitt_false : List ℕ → ℕ
unfolding update
crc16_ccitt_false bytes = update 0xffff bytes

-- The published check value of this CRC: the digits 1 to 9.
crc16_check_value :
    crc16_ccitt_false (b'1' ∷ b'2' ∷ b'3' ∷ b'4' ∷ b'5' ∷ b'6' ∷ b'7' ∷ b'8' ∷ b'9' ∷ []) ≡ 0x29b1
unfolding crc16_ccitt_false
crc16_check_value = refl

-- All values are those of a `u16`.
table_round-bound : (value : ℕ) → table_round value < 2 ^ 16
unfolding table_round
table_round-bound value =
    let turned = bit_xor-bound (value * 2 % 2 ^ 16) 0x1021 (omega arith) (omega arith) in
    elim (Bool-cases (not (bit_and value 0x8000 == 0))) [
      | inl e ↦ rw e turned
      | inr e ↦ rw e (omega arith)
    ]

table_rounds-bound : (n value : ℕ) → value < 2 ^ 16 → table_rounds n value < 2 ^ 16
unfolding table_rounds
table_rounds-bound zero value h = h
table_rounds-bound (suc n) value h =
    table_rounds-bound n (table_round value) (table_round-bound value)

table_from-bound : (n index i : ℕ) → get_or (table_from n index) i 0 < 2 ^ 16
unfolding table_from
table_from-bound zero index i = omega arith
table_from-bound (suc n) index zero = table_rounds-bound 8 (index * 256 % 2 ^ 16) (omega arith)
table_from-bound (suc n) index (suc i) = table_from-bound n (index + 1) i

update-bound : (crc : ℕ) (bytes : List ℕ) → crc < 2 ^ 16 → update crc bytes < 2 ^ 16
unfolding update update_byte table
update-bound crc [] h = h
update-bound crc (byte ∷ bytes) h = update-bound (update_byte crc byte) bytes (
    bit_xor-bound (crc * 256 % 2 ^ 16) (get_or table (bit_xor (crc / 256) byte) 0) (omega arith)
      (table_from-bound 256 0 (bit_xor (crc / 256) byte)))

pub crc16-bound : (bytes : List ℕ) → crc16_ccitt_false bytes < 2 ^ 16
unfolding crc16_ccitt_false
crc16-bound bytes = update-bound 0xffff bytes (omega arith)
