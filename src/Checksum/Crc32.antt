-- ===== src/Checksum/Crc32.antt =====
-- firmware/crates/binbook-fw/src/crc32.rs: CRC-32/ISO-HDLC by a table. A `u32` is a number below
-- 2^32, a byte one below 256; `>> 1` and `>> 8` are divisions.
use Prim.Native.Nat.{bit_and, bit_xor}
use binbook.Prelude.{
  ℕ, zero, suc, ◌+◌, ◌-◌, ◌/◌, ◌^◌, ◌≡◌, refl, List, [], ◌∷◌, ◌++◌, get_or, not, ◌==◌,
  if◌then◌else◌,
}

-- One turn of the inner loop of `make_table`.
table_round : ℕ → ℕ
table_round value =
    if not (bit_and value 1 == 0) then bit_xor (value / 2) 0xedb8_8320 else value / 2

table_rounds : ℕ → ℕ → ℕ
table_rounds zero value = value
table_rounds (suc n) value = table_rounds n (table_round value)

-- The entries from `index` on, `n` of them.
table_from : ℕ → ℕ → List ℕ
table_from zero index = []
table_from (suc n) index = table_rounds 8 index ∷ table_from n (index + 1)

-- `make_table`
pub table : List ℕ
unfolding table_from table_rounds table_round
table = table_from 256 0

update_byte : ℕ → ℕ → ℕ
unfolding table
update_byte state byte =
    bit_xor (get_or table (bit_and (bit_xor state byte) 0xff) 0) (state / 2 ^ 8)

unfoldable pub update : ℕ → List ℕ → ℕ
unfolding update_byte
update state [] = state
update state (byte ∷ bytes) = update (update_byte state byte) bytes

-- `!state` of a `u32`
abbrev pub not_u32 : ℕ → ℕ
not_u32 state = 2 ^ 32 - 1 - state

unfoldable pub iso_hdlc : List ℕ → ℕ
unfolding update
iso_hdlc bytes = not_u32 (update (2 ^ 32 - 1) bytes)

-- Bytes can be fed in pieces.
pub update-append :
    (state : ℕ) (xs ys : List ℕ) → update state (xs ++ ys) ≡ update (update state xs) ys
unfolding update
update-append state [] ys = refl
update-append state (x ∷ xs) ys = update-append (update_byte state x) xs ys

-- The published check value of this CRC: the digits 1 to 9.
check_value :
    iso_hdlc (b'1' ∷ b'2' ∷ b'3' ∷ b'4' ∷ b'5' ∷ b'6' ∷ b'7' ∷ b'8' ∷ b'9' ∷ []) ≡ 0xcbf4_3926
unfolding iso_hdlc
check_value = refl
