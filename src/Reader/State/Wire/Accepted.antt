-- ===== src/Reader/State/Wire/Accepted.antt =====
-- `decode` of reader_state.rs on bytes that pass its tests.
use binbook.Prelude.{
  ℕ, ◌+◌, ◌*◌, ◌-◌, ◌^◌, ◌≤◌, ◌≡◌, refl, true, false, ◌&&◌, ltb, ◌==◌, ==_iff, le→ltb_false,
  if◌then◌else◌, List, [], ◌∷◌, length, drop, get_or, ok, err,
}
use binbook.Format.Wire.{from_le_bytes}
use binbook.Checksum.Crc32.{not_u32}
use binbook.Reader.State.{
  ReaderState, SavedMode, menu, reading, bad_mode, bytes_eq, validate_mode_state,
  max_progress_records,
}
use binbook.Reader.State.Wire.{
  slice, magic, mode_code, update_masked, decode_records, decode_state, decode,
}

-- Bytes that pass each test.
pub decode_accepted :
    (bytes : List ℕ) (mode : SavedMode)
    → 72 ≤ length bytes
    → bytes_eq (slice bytes 0 4) magic ≡ true
    → from_le_bytes (slice bytes 4 2) ≡ 1
    → from_le_bytes (slice bytes 6 2) ≡ 72
    → bytes_eq (slice bytes 13 3) (0 ∷ 0 ∷ 0 ∷ []) && bytes_eq (slice bytes 66 2) (0 ∷ 0 ∷ [])
      ≡ true
    → from_le_bytes (slice bytes 64 2) ≤ max_progress_records
    → length bytes ≡ 72 + from_le_bytes (slice bytes 64 2) * 44
    → not_u32 (update_masked (2 ^ 32 - 1) 0 bytes) ≡ from_le_bytes (slice bytes 68 4)
    → get_or bytes 12 0 ≡ mode_code mode
    → decode bytes ≡ decode_state mode bytes
unfolding decode
decode_accepted bytes mode long first version header zeros few size crc code =
    let long' : ltb (length bytes) 72 ≡ false = le→ltb_false (length bytes) 72 long in
    let version' : from_le_bytes (slice bytes 4 2) == 1 ≡ true = (==_iff _ _).1 version in
    let header' : from_le_bytes (slice bytes 6 2) == 72 ≡ true = (==_iff _ _).1 header in
    let few' : ltb max_progress_records (from_le_bytes (slice bytes 64 2)) ≡ false =
      le→ltb_false max_progress_records (from_le_bytes (slice bytes 64 2)) few in
    let size' : length bytes == 72 + from_le_bytes (slice bytes 64 2) * 44 ≡ true =
      (==_iff _ _).1 size in
    let crc' : not_u32 (update_masked (2 ^ 32 - 1) 0 bytes) == from_le_bytes (slice bytes 68 4)
        ≡ true =
      (==_iff _ _).1 crc in
    rw (long', first, version', header', zeros, few', size', crc') (by_mode mode code)
  where
    by_mode :
        (mode : SavedMode)
        → get_or bytes 12 0 ≡ mode_code mode
        → (if get_or bytes 12 0 == 0
            then decode_state menu bytes
            else if get_or bytes 12 0 == 1
            then decode_state reading bytes
            else err bad_mode)
          ≡ decode_state mode bytes
    by_mode menu code = rw code refl
    by_mode reading code = rw code refl

-- The state that is read, field by field.
pub decode_state-fields :
    (bytes : List ℕ) (s : ReaderState)
    → decode_records (from_le_bytes (slice bytes 64 2)) (drop 72 bytes) [] ≡ ok s.records
    → from_le_bytes (slice bytes 8 4) ≡ s.generation
    → from_le_bytes (slice bytes 16 8) ≡ s.selected_filename_hash
    → from_le_bytes (slice bytes 24 8) ≡ s.active_filename_hash
    → slice bytes 32 32 ≡ s.active_rendition_hash
    → validate_mode_state s ≡ ok tt
    → decode_state s.saved_mode bytes ≡ ok s
unfolding decode_state
decode_state-fields bytes s records counted selected active hash mode =
    rw (records, counted, selected, active, hash, mode) refl
