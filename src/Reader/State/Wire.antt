-- ===== src/Reader/State/Wire.antt =====
-- `encode` and `decode` of firmware/crates/binbook-fw/src/reader_state.rs. The sorting of the records by
-- the core library is a parameter. The output, filled with zeros, is written in slices that follow one
-- another, which are the fields of `state_bytes`.
pub mod Order
pub mod Fields
pub mod Accepted
pub mod RoundTrip
pub mod Saved
use binbook.Prelude.{
  ℕ, zero, suc, ◌+◌, ◌*◌, ◌-◌, ◌^◌, Bool, true, false, not, ◌&&◌, leb, ltb, ◌==◌, if◌then◌else◌,
  Option, none, some, List, [], ◌∷◌, ◌++◌, length, take, drop, get_or, Result, ok, err, ◌>>=◌,
}
use binbook.Format.Wire.{to_le_bytes, from_le_bytes}
use binbook.Checksum.Crc32.{update, iso_hdlc, not_u32}
use binbook.Reader.State.{
  ReaderState, ProgressRecord, SavedMode, menu, reading, ReaderStateError, bad_magic, bad_version,
  header_size, reserved, bad_mode, bad_length, bad_crc, too_many_records, duplicate,
  zero_rendition_hash, buffer_too_small, bytes_eq, all_zero, find_record, validate_mode_state,
  max_progress_records,
}

abbrev pub state_header_size : ℕ
state_header_size = 72

abbrev pub state_record_size : ℕ
state_record_size = 44

-- `BBST`
abbrev pub magic : List ℕ
magic = 66 ∷ 66 ∷ 83 ∷ 84 ∷ []

abbrev pub mode_code : SavedMode → ℕ
mode_code menu = 0
mode_code reading = 1

-- The fields before the hash of the active rendition, and those behind it.
abbrev pub header_front : ReaderState → ℕ → List ℕ
header_front s generation =
    66
    ∷ 66
    ∷ 83
    ∷ 84
    ∷ (to_le_bytes 2 1
        ++ (to_le_bytes 2 state_header_size
            ++ (to_le_bytes 4 generation
                ++ (mode_code s.saved_mode
                    ∷ 0
                    ∷ 0
                    ∷ 0
                    ∷ (to_le_bytes 8 s.selected_filename_hash
                        ++ to_le_bytes 8 s.active_filename_hash)))))

abbrev pub header_rest : (count crc : ℕ) → List ℕ
header_rest count crc = to_le_bytes 2 count ++ (0 ∷ 0 ∷ to_le_bytes 4 crc)

abbrev pub record_bytes : ProgressRecord → List ℕ
record_bytes r = to_le_bytes 8 r.filename_hash ++ (r.rendition_hash ++ to_le_bytes 4 r.page)

unfoldable pub records_bytes : List ProgressRecord → List ℕ
records_bytes [] = []
records_bytes (r ∷ rs) = record_bytes r ++ records_bytes rs

abbrev pub state_bytes : ReaderState → (generation crc : ℕ) → List ProgressRecord → List ℕ
state_bytes s generation crc rs =
    header_front s generation
    ++ (s.active_rendition_hash ++ (header_rest (length rs) crc ++ records_bytes rs))

-- `rewrite_crc` of the bytes
abbrev pub sealed : ReaderState → ℕ → List ProgressRecord → List ℕ
sealed s generation rs = state_bytes s generation (iso_hdlc (state_bytes s generation 0 rs)) rs

module _ (sort : List ProgressRecord → List ProgressRecord) where
  unfoldable pub encode_with_generation :
      ReaderState → ℕ → List ℕ → Result ReaderStateError ℕ × List ℕ
  encode_with_generation s generation out = elim (validate_mode_state s) [
    | err e ↦ (err e, out)
    | ok valid ↦
        let used = state_header_size + length s.records * state_record_size in
        if ltb (length out) used
        then (err buffer_too_small, out)
        else (ok used, sealed s generation (sort s.records) ++ drop used out)
  ]

  unfoldable pub encode : ReaderState → List ℕ → Result ReaderStateError ℕ × List ℕ
  encode s out = encode_with_generation s s.generation out

abbrev pub slice : List ℕ → ℕ → ℕ → List ℕ
slice bytes offset n = take n (drop offset bytes)

-- The bytes of which `decode` takes the checksum, from `index` on: zeros in place of the stored one.
unfoldable pub update_masked : (state index : ℕ) → List ℕ → ℕ
update_masked state index [] = state
update_masked state index (byte ∷ bytes) =
    update_masked (update state ((if leb 68 index && ltb index 72 then 0 else byte) ∷ []))
      (index + 1) bytes

abbrev pub read_record : List ℕ → ProgressRecord
read_record bytes = record {
  filename_hash = from_le_bytes (take 8 bytes);
  rendition_hash = slice bytes 8 32;
  page = from_le_bytes (slice bytes 40 4);
}

-- A record that is read joins the ones before it.
unfoldable pub push_decoded :
    ProgressRecord → List ProgressRecord → Result ReaderStateError (List ProgressRecord)
push_decoded r decoded =
    if all_zero r.rendition_hash
    then err zero_rendition_hash
    else elim (find_record r.filename_hash r.rendition_hash decoded) [
      | some other ↦ err duplicate
      | none ↦
          if ltb (length decoded) max_progress_records
          then ok (decoded ++ (r ∷ []))
          else err too_many_records
    ]

-- The loop over the records that are left.
unfoldable pub decode_records :
    ℕ → List ℕ → List ProgressRecord → Result ReaderStateError (List ProgressRecord)
decode_records zero bytes decoded = ok decoded
decode_records (suc n) bytes decoded =
    push_decoded (read_record bytes) decoded >>= decode_records n (drop state_record_size bytes)

-- What follows the tests of the header.
unfoldable pub decode_state : SavedMode → List ℕ → Result ReaderStateError ReaderState
decode_state mode bytes = do
  records ← decode_records (from_le_bytes (slice bytes 64 2)) (drop state_header_size bytes) []
  let s : ReaderState = record {
    generation = from_le_bytes (slice bytes 8 4);
    saved_mode = mode;
    selected_filename_hash = from_le_bytes (slice bytes 16 8);
    active_filename_hash = from_le_bytes (slice bytes 24 8);
    active_rendition_hash = slice bytes 32 32;
    records = records;
  }
  _ ← validate_mode_state s
  ok s

unfoldable pub decode : List ℕ → Result ReaderStateError ReaderState
decode bytes =
    let count = from_le_bytes (slice bytes 64 2) in
    if ltb (length bytes) state_header_size
    then err bad_length
    else if not (bytes_eq (slice bytes 0 4) magic)
    then err bad_magic
    else if not (from_le_bytes (slice bytes 4 2) == 1)
    then err bad_version
    else if not (from_le_bytes (slice bytes 6 2) == state_header_size)
    then err header_size
    else if not
        (bytes_eq (slice bytes 13 3) (0 ∷ 0 ∷ 0 ∷ []) && bytes_eq (slice bytes 66 2) (0 ∷ 0 ∷ []))
    then err reserved
    else if ltb max_progress_records count
    then err too_many_records
    else if not (length bytes == state_header_size + count * state_record_size)
    then err bad_length
    else if not (not_u32 (update_masked (2 ^ 32 - 1) 0 bytes) == from_le_bytes (slice bytes 68 4))
    then err bad_crc
    else if get_or bytes 12 0 == 0
    then decode_state menu bytes
    else if get_or bytes 12 0 == 1
    then decode_state reading bytes
    else err bad_mode
