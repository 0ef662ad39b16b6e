-- ===== src/Format/Header.antt =====
-- crates/binbook-core/src/header.rs, with `FileHeader` of encode.rs: the fixed header of a file.
use binbook.Prelude.{
  ℕ, ◌*◌, ◌≤◌, ◌≡◌, not, ◌&&◌, ◌||◌, List, [], ◌∷◌, Bool, true, false, arith, length, take, ltb,
  ◌==◌, if◌then◌else◌, Result, ok, ◌>>=◌,
}
use binbook.Format.Wire.{put, put_u16, put_u32, put_u64, EncodeError, write_record}
use binbook.Format.Types.{
  FormatError, invalid_header, invalid_magic, unsupported_version, file_out_of_bounds, read_u16,
  read_u32, read_u64, guard,
}

abbrev pub header_size : ℕ
header_size = 256

-- `BINBOOK` and a zero byte
abbrev magic : List ℕ
magic = 66 ∷ 73 ∷ 78 ∷ 66 ∷ 79 ∷ 79 ∷ 75 ∷ 0 ∷ []

-- The `==` of slices.
abbrev bytes_eq : List ℕ → List ℕ → Bool
bytes_eq [] [] = true
bytes_eq (x ∷ xs) (y ∷ ys) = x == y && bytes_eq xs ys
bytes_eq _ _ = false

pub record Header : Type 0 where
  pub file_length : ℕ
  pub section_table_offset : ℕ
  pub section_table_length : ℕ
  pub section_count : ℕ
  pub page_data_offset : ℕ
  pub page_data_length : ℕ

-- `checked_mul(40)` of a `u16` value as `u32` cannot fail. A disjunction that reads is a `guard` for
-- each part.
unfoldable pub parse : List ℕ → ℕ → Result FormatError Header
parse bytes source_length = do
  _ ← guard (not (ltb (length bytes) header_size)) invalid_header
  _ ← guard (bytes_eq (take 8 bytes) magic) invalid_magic
  own_size ← read_u16 bytes 12
  _ ← guard (own_size == 256) unsupported_version
  entry_size ← read_u16 bytes 36
  _ ← guard (entry_size == 40) unsupported_version
  page_size ← read_u16 bytes 40
  _ ← guard (page_size == 128) unsupported_version
  nav_size ← read_u16 bytes 42
  _ ← guard (nav_size == 48) unsupported_version
  declared ← read_u64 bytes 16
  _ ← guard (not (not (declared == 0) && ltb source_length declared)) file_out_of_bounds
  table_offset ← read_u64 bytes 24
  table_length ← read_u32 bytes 32
  count ← read_u16 bytes 38
  data_offset ← read_u64 bytes 44
  data_length ← read_u64 bytes 52
  _ ←
      guard (not (count == 0 || ltb table_offset 256 || ltb table_length (count * 40)))
        invalid_header
  ok (record {
    file_length = if declared == 0 then source_length else declared;
    section_table_offset = table_offset;
    section_table_length = table_length;
    section_count = count;
    page_data_offset = data_offset;
    page_data_length = data_length;
  })

pub record FileHeader : Type 0 where
  pub file_size : ℕ
  pub section_table_offset : ℕ
  pub section_table_length : ℕ
  pub section_count : ℕ
  pub page_data_offset : ℕ
  pub page_data_length : ℕ
  pub file_crc32 : ℕ
  pub header_crc32 : ℕ
  pub header_flags : ℕ

-- `FileHeader::default`
abbrev default_header : FileHeader
default_header = record {
  file_size = 0;
  section_table_offset = header_size;
  section_table_length = 0;
  section_count = 0;
  page_data_offset = 0;
  page_data_length = 0;
  file_crc32 = 0;
  header_crc32 = 0;
  header_flags = 0;
}

pub encode_into : FileHeader → List ℕ → Result EncodeError (List ℕ)
encode_into h = write_record header_size (λ r0.
    let r1 = put 0 magic r0 in
    let r2 = put_u16 12 header_size r1 in
    let r3 = put_u16 14 h.header_flags r2 in
    let r4 = put_u64 16 h.file_size r3 in
    let r5 = put_u64 24 h.section_table_offset r4 in
    let r6 = put_u32 32 h.section_table_length r5 in
    let r7 = put_u16 36 40 r6 in
    let r8 = put_u16 38 h.section_count r7 in
    let r9 = put_u16 40 128 r8 in
    let r10 = put_u16 42 48 r9 in
    let r11 = put_u64 44 h.page_data_offset r10 in
    let r12 = put_u64 52 h.page_data_length r11 in
    let r13 = put_u32 60 h.file_crc32 r12 in put_u32 64 h.header_crc32 r13)

-- A header that `parse` accepts describes a file that is no longer than its source, with at least
-- one section, and a section table that lies behind the header and holds all its entries.
pub parse_header_bounds :
    (bytes : List ℕ) (source_length : ℕ) {h : Header}
    → parse bytes source_length ≡ ok h
    → (h.file_length ≤ source_length)
      × (1 ≤ h.section_count)
      × (header_size ≤ h.section_table_offset)
      × (h.section_count * 40 ≤ h.section_table_length)
unfolding parse
parse_header_bounds bytes source_length e = ground arith
