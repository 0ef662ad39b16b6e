-- ===== src/Format/Wire.antt =====
-- Little-endian fields of records: `put_u16` to `put_u64` and `require` of
-- crates/binbook-core/src/encode.rs, and what `read_u16` to `read_u64` of header.rs stand on.
use binbook.Prelude.{
  ℕ, zero, suc, ◌+◌, ◌*◌, ◌/◌, ◌%◌, List, [], ◌∷◌, ◌++◌, length, take, drop, replicate, leb,
  if◌then◌else◌, Option, none, some, Result, ok, err,
}

-- `value.to_le_bytes()` of an integer of `n` bytes.
abbrev pub to_le_bytes : ℕ → ℕ → List ℕ
to_le_bytes zero value = []
to_le_bytes (suc n) value = value % 256 ∷ to_le_bytes n (value / 256)

abbrev pub from_le_bytes : List ℕ → ℕ
from_le_bytes [] = 0
from_le_bytes (b ∷ bs) = b + 256 * from_le_bytes bs

-- `bytes.get(offset..offset + n)`
abbrev pub get_range : List ℕ → ℕ → ℕ → Option (List ℕ)
get_range bytes offset n =
    if leb (offset + n) (length bytes) then some (take n (drop offset bytes)) else none

-- `output[offset..offset + n].copy_from_slice(field)`
abbrev pub put : ℕ → List ℕ → List ℕ → List ℕ
put offset field output = take offset output ++ (field ++ drop (offset + length field) output)

abbrev pub put_u16 : ℕ → ℕ → List ℕ → List ℕ
put_u16 offset value output = put offset (to_le_bytes 2 value) output

abbrev pub put_u32 : ℕ → ℕ → List ℕ → List ℕ
put_u32 offset value output = put offset (to_le_bytes 4 value) output

abbrev pub put_u64 : ℕ → ℕ → List ℕ → List ℕ
put_u64 offset value output = put offset (to_le_bytes 8 value) output

-- `EncodeError`
pub data EncodeError : Type 0 where
  buffer_too_small : ℕ → ℕ → EncodeError

-- `require` and `record.fill(0)`: the record is written into the first `n` bytes of the output.
abbrev pub write_record : ℕ → (List ℕ → List ℕ) → List ℕ → Result EncodeError (List ℕ)
write_record n write output =
    if leb n (length output)
    then ok (write (replicate n 0) ++ drop n output)
    else err (buffer_too_small n (length output))
