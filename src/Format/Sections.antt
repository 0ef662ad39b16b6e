-- ===== src/Format/Sections.antt =====
-- crates/binbook-core/src/section.rs, with `SectionTableEntry` of encode.rs: the directory of the
-- sections of a file.
pub mod Accepted
use binbook.Prelude.{
  ℕ, zero, suc, ◌+◌, ◌*◌, ◌^◌, ◌≤◌, ◌≡◌, not, ◌&&◌, ◌||◌, List, [], ◌∷◌, Option, none, some, arith,
  get_or, replicate, set, ltb, ◌==◌, if◌then◌else◌, Result, ok, err, All, Bool-cases, All-set,
  All-replicate, Result-cases, Option-cases, inl, inr, ◌>>=◌,
}
use binbook.Format.Wire.{get_range, put_u16, put_u32, put_u64, EncodeError, write_record}
use binbook.Format.Types.{
  FormatError, file_out_of_bounds, missing_section, duplicate_section, invalid_section,
  invalid_page, read_u16, read_u32, read_u64, guard,
}
use binbook.Format.Header.{Header}

abbrev pub entry_size : ℕ
entry_size = 40

-- The constants `STRING_TABLE` to `PAGE_DATA`, in the order of `REQUIRED`.
abbrev pub required : List ℕ
required =
    1 ∷ 10 ∷ 11 ∷ 12 ∷ 20 ∷ 21 ∷ 22 ∷ 30 ∷ 31 ∷ 32 ∷ 33 ∷ 34 ∷ 35 ∷ 40 ∷ 41 ∷ 43 ∷ 44 ∷ 45 ∷ 50 ∷ []

-- `required_slot`
unfoldable pub required_slot : ℕ → Option ℕ
required_slot id =
    if id == 1
    then some 0
    else if id == 10
    then some 1
    else if id == 11
    then some 2
    else if id == 12
    then some 3
    else if id == 20
    then some 4
    else if id == 21
    then some 5
    else if id == 22
    then some 6
    else if id == 30
    then some 7
    else if id == 31
    then some 8
    else if id == 32
    then some 9
    else if id == 33
    then some 10
    else if id == 34
    then some 11
    else if id == 35
    then some 12
    else if id == 40
    then some 13
    else if id == 41
    then some 14
    else if id == 43
    then some 15
    else if id == 44
    then some 16
    else if id == 45
    then some 17
    else if id == 50
    then some 18
    else none

pub record Section : Type 0 where
  pub id : ℕ
  pub flags : ℕ
  pub offset : ℕ
  pub length : ℕ
  pub entry_size : ℕ
  pub record_count : ℕ
  pub crc32 : ℕ

-- `Section::EMPTY`
abbrev no_section : Section
no_section = record {
  id = 0;
  flags = 0;
  offset = 0;
  length = 0;
  entry_size = 0;
  record_count = 0;
  crc32 = 0;
}

-- The entry that the loop of `SectionDirectory::parse` reads at an index of the table. The
-- `checked_mul` for the index is of a `u16` value and 40 and cannot fail.
unfoldable pub parse_entry : List ℕ → Header → ℕ → Result FormatError Section
parse_entry table h index = do
  bytes ← elim (get_range table (index * entry_size) entry_size) [
    | none ↦ err invalid_section
    | some raw ↦ ok raw
  ]
  id ← read_u16 bytes 0
  flags ← read_u16 bytes 2
  start ← read_u64 bytes 4
  len ← read_u64 bytes 12
  size ← read_u32 bytes 20
  count ← read_u32 bytes 24
  crc ← read_u32 bytes 28
  _ ← guard (ltb (start + len) (2 ^ 64)) file_out_of_bounds
  _ ← guard (not (ltb h.file_length (start + len))) file_out_of_bounds
  _ ←
      guard (size == 0 || (ltb (size * count) (2 ^ 64) && not (ltb len (size * count))))
        invalid_section
  ok (record {
    id = id;
    flags = flags;
    offset = start;
    length = len;
    entry_size = size;
    record_count = count;
    crc32 = crc;
  })

-- The end of a turn of the loop: a section with a required id takes its slot.
unfoldable pub enter : List Section → Section → Result FormatError (List Section)
enter entries s = elim (required_slot s.id) [
  | none ↦ ok entries
  | some slot ↦
      if not ((get_or entries slot no_section).id == 0)
      then err (duplicate_section s.id)
      else ok (set entries slot s)
]

-- The loop, from an index with `count` entries to go.
unfoldable pub parse_entries :
    List ℕ → Header → (index count : ℕ) → List Section → Result FormatError (List Section)
parse_entries table h index zero entries = ok entries
parse_entries table h index (suc count) entries = do
  s ← parse_entry table h index
  entered ← enter entries s
  parse_entries table h (suc index) count entered

-- The loop over `REQUIRED`.
unfoldable pub check_required : List Section → (slot : ℕ) → List ℕ → Result FormatError (Unit {0})
check_required entries slot [] = ok tt
check_required entries slot (id ∷ ids) =
    let rest = check_required entries (suc slot) ids in
    if not ((get_or entries slot no_section).id == id) then err (missing_section id) else rest

unfoldable pub validate_record_section : Section → ℕ → Result FormatError (Unit {0})
validate_record_section s expected = guard (s.entry_size == expected) invalid_section

-- `SectionDirectory::parse`, which gives the 19 entries.
unfoldable pub parse : List ℕ → Header → Result FormatError (List Section)
parse table h = do
  entries ← parse_entries table h 0 h.section_count (replicate 19 no_section)
  _ ← check_required entries 0 required
  _ ← validate_record_section (get_or entries 12 no_section) 80
  _ ← validate_record_section (get_or entries 13 no_section) 128
  _ ← validate_record_section (get_or entries 14 no_section) 48
  _ ← validate_record_section (get_or entries 15 no_section) 32
  _ ← validate_record_section (get_or entries 16 no_section) 24
  _ ← validate_record_section (get_or entries 17 no_section) 24
  let payload = get_or entries 18 no_section
  _ ←
      guard
        (payload.entry_size == 0
          && payload.record_count == 0
          && payload.offset == h.page_data_offset
          && payload.length == h.page_data_length)
        invalid_section
  _ ← guard (not ((get_or entries 13 no_section).record_count == 0)) invalid_page
  ok entries

-- `SectionDirectory::get`
pub get_section : List Section → ℕ → Section
get_section entries id = elim (required_slot id) [
  | some slot ↦ get_or entries slot no_section
  | none ↦ no_section
]

pub record SectionTableEntry : Type 0 where
  pub section_id : ℕ
  pub section_flags : ℕ
  pub offset : ℕ
  pub length : ℕ
  pub entry_size : ℕ
  pub record_count : ℕ
  pub crc32 : ℕ

pub encode_into : SectionTableEntry → List ℕ → Result EncodeError (List ℕ)
encode_into e = write_record entry_size (λ r0.
    let r1 = put_u16 0 e.section_id r0 in
    let r2 = put_u16 2 e.section_flags r1 in
    let r3 = put_u64 4 e.offset r2 in
    let r4 = put_u64 12 e.length r3 in
    let r5 = put_u32 20 e.entry_size r4 in
    let r6 = put_u32 24 e.record_count r5 in put_u32 28 e.crc32 r6)
