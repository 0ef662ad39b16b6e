-- ===== src/Reader/State/Wire/RoundTrip.antt =====
-- `decode` of reader_state.rs on the bytes of a state.
use mathlib.Core.List.{append_assoc}
use binbook.Prelude.{
  ℕ, ◌+◌, ◌*◌, ◌^◌, ◌≤◌, ◌<◌, ◌≡◌, refl, sym, ap, ◌∙◌, List, [], ◌∷◌, ◌++◌, length, take, drop, All,
  arith, ok, length-append,
}
use binbook.Format.Wire.{to_le_bytes, from_le_bytes}
use binbook.Checksum.Crc32.{iso_hdlc}
use binbook.Reader.State.{ReaderState, ProgressRecord, bytes_eq, validate_mode_state}
use binbook.Reader.State.Invariant.{Sound}
use binbook.Reader.State.Wire.{
  header_rest, records_bytes, state_bytes, slice, decode_records, decode,
}
use binbook.Reader.State.Wire.Accepted.{decode_accepted, decode_state-fields}
use binbook.Reader.State.Wire.Fields.{
  u16_bytes, u32_bytes, u64_bytes, take_exact, drop_exact, IsRecord, decode_records-records_bytes,
  masked-state_bytes,
}

iso_hdlc-bound : (bytes : List ℕ) → iso_hdlc bytes < 2 ^ 32
unfolding iso_hdlc
iso_hdlc-bound bytes = omega arith

-- A field behind the hash of the active rendition.
drop_past :
    (k : ℕ) (hash pre rest : List ℕ)
    → length hash ≡ 32
    → length pre ≡ k
    → drop (32 + k) (hash ++ (pre ++ rest)) ≡ rest
drop_past k hash pre rest e f =
    ap (drop (32 + k)) (sym (append_assoc hash pre rest))
    ∙ drop_exact (32 + k) (hash ++ pre) rest (omega (arith, e, f, length-append hash pre))

pub length-records_bytes :
    (rs : List ProgressRecord) → All IsRecord rs → length (records_bytes rs) ≡ length rs * 44
unfolding records_bytes
length-records_bytes [] h = refl
length-records_bytes (r ∷ rs) h = omega (
  arith,
  h.0.rendition,
  length-records_bytes rs h.1,
  length-append (r.rendition_hash ++ to_le_bytes 4 r.page) (records_bytes rs),
  length-append r.rendition_hash (to_le_bytes 4 r.page),
)

-- A state whose fields have their types.
pub record IsState (s : ReaderState) : Type 0 where
  pub counted : s.generation < 2 ^ 32
  pub selected : s.selected_filename_hash < 2 ^ 64
  pub active : s.active_filename_hash < 2 ^ 64
  pub hash : length s.active_rendition_hash ≡ 32
  pub entries : All IsRecord s.records

module _ (s : ReaderState) (crc : ℕ) (rs : List ProgressRecord) (h : IsState s)
    (all : All IsRecord rs) where
  abbrev pub written : List ℕ
  written = state_bytes s s.generation crc rs

  pub length-written : length written ≡ 72 + length rs * 44
  length-written = omega (
    arith,
    h.hash,
    length-records_bytes rs all,
    length-append s.active_rendition_hash (header_rest (length rs) crc ++ records_bytes rs),
  )

  count_at : length rs ≤ 200 → from_le_bytes (slice written 64 2) ≡ length rs
  count_at few =
      ap (λ b. from_le_bytes (take 2 b))
        (drop_exact 32 s.active_rendition_hash (header_rest (length rs) crc ++ records_bytes rs)
          h.hash)
      ∙ u16_bytes (length rs) (omega (arith, few))

  reserved_at : slice written 66 2 ≡ 0 ∷ 0 ∷ []
  reserved_at = ap (take 2) (
      drop_past 2 s.active_rendition_hash (to_le_bytes 2 (length rs))
        (0 ∷ 0 ∷ (to_le_bytes 4 crc ++ records_bytes rs)) h.hash refl)

  crc_at : crc < 2 ^ 32 → from_le_bytes (slice written 68 4) ≡ crc
  crc_at small =
      ap (λ b. from_le_bytes (take 4 b))
        (drop_past 4 s.active_rendition_hash (to_le_bytes 2 (length rs) ++ (0 ∷ 0 ∷ []))
          (to_le_bytes 4 crc ++ records_bytes rs) h.hash refl)
      ∙ u32_bytes crc small

  records_at : drop 72 written ≡ records_bytes rs
  records_at =
      drop_past 8 s.active_rendition_hash (header_rest (length rs) crc) (records_bytes rs) h.hash
        refl

  hash_at : slice written 32 32 ≡ s.active_rendition_hash
  hash_at =
      take_exact 32 s.active_rendition_hash (header_rest (length rs) crc ++ records_bytes rs) h.hash

  -- The bytes with their own checksum are read as the state that they were written from.
  pub decode-written :
      crc ≡ iso_hdlc (state_bytes s s.generation 0 rs)
      → Sound rs
      → validate_mode_state (record s { records = rs }) ≡ ok tt
      → decode written ≡ ok (record s { records = rs })
  unfolding bytes_eq
  decode-written own sound mode =
      let count = count_at sound.bounded in
      let small : crc < 2 ^ 32 = rw own (iso_hdlc-bound (state_bytes s s.generation 0 rs)) in
      decode_accepted written s.saved_mode (omega (arith, length-written)) refl refl refl
        (rw reserved_at refl) (omega (arith, count, sound.bounded))
        (omega (arith, count, length-written))
        (masked-state_bytes s s.generation crc rs h.hash ∙ sym own ∙ sym (crc_at small)) refl
      ∙ decode_state-fields written (record s { records = rs })
          (ap (λ n. decode_records n (drop 72 written) []) count
            ∙ ap (λ b. decode_records (length rs) b []) records_at
            ∙ decode_records-records_bytes rs [] all sound)
          (u32_bytes s.generation h.counted) (u64_bytes s.selected_filename_hash h.selected)
          (u64_bytes s.active_filename_hash h.active) hash_at mode
