-- ===== src/Format/Sections/Accepted.antt =====
-- What holds of a directory that `SectionDirectory::parse` accepts.
use binbook.Prelude.{
  ℕ, zero, suc, ◌+◌, ◌≤◌, ◌≡◌, List, [], ◌∷◌, arith, get_or, replicate, ◌==◌, ok, All, Bool-cases,
  All-set, All-replicate, Result-cases, Option-cases, inl, inr,
}
use binbook.Format.Header.{Header}
use binbook.Format.Sections.{
  required, required_slot, Section, no_section, parse_entry, enter, parse_entries, check_required,
  parse, get_section,
}

pub InFile : ℕ → Section → Type 0
InFile file_length s = s.offset + s.length ≤ file_length

parse_entry-InFile :
    (table : List ℕ) (h : Header) (index : ℕ) {s : Section}
    → parse_entry table h index ≡ ok s
    → InFile h.file_length s
unfolding parse_entry InFile
parse_entry-InFile table h index e = ground arith

no_section-InFile : (n : ℕ) → InFile n no_section
unfolding InFile
no_section-InFile n = omega arith

enter-InFile :
    (n : ℕ) (entries : List Section) (s : Section) {entered : List Section}
    → All (InFile n) entries
    → InFile n s
    → enter entries s ≡ ok entered
    → All (InFile n) entered
unfolding enter
enter-InFile n entries s given inside e = elim (Option-cases (required_slot s.id)) [
  | inl bad ↦ ground (arith, given)
  | inr (slot, good) ↦ ground (arith, given, All-set (InFile n) entries slot s given inside)
]

parse_entries-InFile :
    (table : List ℕ) (h : Header) (index count : ℕ) (entries : List Section) {all : List Section}
    → All (InFile h.file_length) entries
    → parse_entries table h index count entries ≡ ok all
    → All (InFile h.file_length) all
unfolding parse_entries
parse_entries-InFile table h index zero entries given e = ground (arith, given)
parse_entries-InFile table h index (suc count) entries given e =
    elim (Result-cases (parse_entry table h index)) [
      | inr (x, bad) ↦ ground arith
      | inl (s, good) ↦ elim (Result-cases (enter entries s)) [
        | inr (x, bad) ↦ ground arith
        | inl (entered, took) ↦
            parse_entries-InFile table h (suc index) count entered
              (enter-InFile h.file_length entries s given (parse_entry-InFile table h index good)
                took)
              (ground arith)
      ]
    ]

-- Every section of a directory that `parse` accepts ends within the file.
pub parse-InFile :
    (table : List ℕ) (h : Header) {entries : List Section}
    → parse table h ≡ ok entries
    → All (InFile h.file_length) entries
unfolding parse
parse-InFile table h e =
    elim (Result-cases (parse_entries table h 0 h.section_count (replicate 19 no_section))) [
      | inr (x, bad) ↦ ground arith
      | inl (entries, good) ↦
          let inside =
            parse_entries-InFile table h 0 h.section_count (replicate 19 no_section)
              (All-replicate (InFile h.file_length) 19 no_section (no_section-InFile h.file_length))
              good in
          ground (arith, inside)
    ]

-- What the loop over `REQUIRED` has found, from a slot on.
Found : List Section → ℕ → List ℕ → Type 0
Found entries slot [] = Unit {0}
Found entries slot (id ∷ ids) =
    ((get_or entries slot no_section).id ≡ id) × Found entries (suc slot) ids

check_required-Found :
    (entries : List Section) (slot : ℕ) (ids : List ℕ)
    → check_required entries slot ids ≡ ok tt
    → Found entries slot ids
unfolding Found check_required
check_required-Found entries slot [] e = tt
check_required-Found entries slot (id ∷ ids) e =
    elim (Bool-cases ((get_or entries slot no_section).id == id)) [
      | inr other ↦ ground arith
      | inl same ↦ (ground arith, check_required-Found entries (suc slot) ids (ground arith))
    ]

Found-get_section :
    (entries : List Section)
    → Found entries 0 required
    → All (λ id. (get_section entries id).id ≡ id) required
unfolding Found get_section required_slot
Found-get_section entries found = found

parse-check_required :
    (table : List ℕ) (h : Header) {entries : List Section}
    → parse table h ≡ ok entries
    → check_required entries 0 required ≡ ok tt
unfolding parse
parse-check_required table h {entries} e =
    elim (Result-cases (parse_entries table h 0 h.section_count (replicate 19 no_section))) [
      | inr (x, bad) ↦ ground arith
      | inl (all, read) ↦ elim (Result-cases (check_required all 0 required)) [
        | inr (x, bad) ↦ ground arith
        | inl (u, found) ↦ ground (arith, found)
      ]
    ]

-- In a directory that `parse` accepts, `get` finds each of the nineteen required sections.
pub parse-get_section :
    (table : List ℕ) (h : Header) {entries : List Section}
    → parse table h ≡ ok entries
    → All (λ id. (get_section entries id).id ≡ id) required
unfolding parse
parse-get_section table h {entries} e =
    Found-get_section entries
      (check_required-Found entries 0 required (parse-check_required table h e))
