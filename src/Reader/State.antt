-- ===== src/Reader/State.antt =====
-- firmware/crates/binbook-fw/src/reader_state.rs: the pages reached in each book, and what to show
-- after a restart. A hash of a rendition is a list of 32 bytes; the vector of records holds at most
-- `max_progress_records`, and a push to a full one fails. An operation answers its result and the state
-- it leaves. `keep_filename` of `prune`, which the caller gives, is a test on hashes that keeps no
-- state of its own.
pub mod Records
pub mod Lookup
pub mod Mode
pub mod Invariant
pub mod Commit
pub mod Reachable
pub mod Wire
use Prim.Native.Nat.{bit_xor}
use binbook.Prelude.{
  ℕ, ◌+◌, ◌-◌, ◌*◌, ◌%◌, ◌^◌, Bool, true, false, not, ◌&&◌, ◌||◌, ltb, ◌==◌, if◌then◌else◌, Option,
  none, some, List, [], ◌∷◌, ◌++◌, length, replicate, Result, ok, err,
}

abbrev pub max_progress_records : ℕ
max_progress_records = 200

pub data SavedMode : Type 0 where
  menu reading : SavedMode

pub record ProgressRecord : Type 0 where
  pub filename_hash : ℕ
  pub rendition_hash : List ℕ
  pub page : ℕ

pub data ReaderStateError : Type 0 where
  buffer_too_small bad_magic bad_version header_size reserved bad_mode bad_length bad_crc :
      ReaderStateError
  too_many_records duplicate zero_rendition_hash invalid_mode_state : ReaderStateError

pub record ReaderState : Type 0 where
  pub generation : ℕ
  pub saved_mode : SavedMode
  pub selected_filename_hash : ℕ
  pub active_filename_hash : ℕ
  pub active_rendition_hash : List ℕ
  pub records : List ProgressRecord

abbrev pub zero_hash : List ℕ
zero_hash = replicate 32 0

abbrev pub empty : ReaderState
empty = record {
  generation = 0;
  saved_mode = menu;
  selected_filename_hash = 0;
  active_filename_hash = 0;
  active_rendition_hash = zero_hash;
  records = [];
}

-- `==` on byte arrays
unfoldable pub bytes_eq : List ℕ → List ℕ → Bool
bytes_eq [] [] = true
bytes_eq [] (y ∷ ys) = false
bytes_eq (x ∷ xs) [] = false
bytes_eq (x ∷ xs) (y ∷ ys) = x == y && bytes_eq xs ys

-- `iter().all(|byte| *byte == 0)`
unfoldable pub all_zero : List ℕ → Bool
all_zero [] = true
all_zero (x ∷ xs) = x == 0 && all_zero xs

-- The test by which a record is looked up.
unfoldable pub has_key : ℕ → List ℕ → ProgressRecord → Bool
has_key filename rendition r = r.filename_hash == filename && bytes_eq r.rendition_hash rendition

unfoldable pub find_record : ℕ → List ℕ → List ProgressRecord → Option ProgressRecord
find_record filename rendition [] = none
find_record filename rendition (r ∷ rs) =
    if has_key filename rendition r then some r else find_record filename rendition rs

unfoldable pub lookup_page : ReaderState → ℕ → List ℕ → Option ℕ
lookup_page s filename rendition = elim (find_record filename rendition s.records) [
  | none ↦ none
  | some r ↦ some r.page
]

-- `iter_mut().find(…)` and the write to what it found: the record with this key replaced.
unfoldable pub replace_record : ProgressRecord → List ProgressRecord → Option (List ProgressRecord)
replace_record new [] = none
replace_record new (r ∷ rs) =
    if has_key new.filename_hash new.rendition_hash r
    then some (new ∷ rs)
    else elim (replace_record new rs) [ none ↦ none | some rest ↦ some (r ∷ rest) ]

abbrev pub with_records : ReaderState → List ProgressRecord → ReaderState
with_records s records = record s { records = records }

-- What an operation answers, with the state that it leaves.
abbrev pub Outcome : Type 0
Outcome = Result ReaderStateError (Unit {0}) × ReaderState

-- `Vec::push`
unfoldable pub push_record : ReaderState → ProgressRecord → Outcome
push_record s new =
    if ltb (length s.records) max_progress_records
    then (ok tt, with_records s (s.records ++ (new ∷ [])))
    else (err too_many_records, s)

unfoldable pub set_progress : ReaderState → ProgressRecord → Outcome
set_progress s new =
    if all_zero new.rendition_hash
    then (err zero_rendition_hash, s)
    else elim (replace_record new s.records) [
      | none ↦ push_record s new
      | some records ↦ (ok tt, with_records s records)
    ]

unfoldable pub set_reading : ReaderState → ℕ → List ℕ → Outcome
set_reading s filename rendition =
    if filename == 0 || all_zero rendition
    then (err invalid_mode_state, s)
    else elim (lookup_page s filename rendition) [
      | none ↦ (err invalid_mode_state, s)
      | some page ↦ (
        ok tt,
        record s {
          saved_mode = reading;
          active_filename_hash = filename;
          active_rendition_hash = rendition;
        },
      )
    ]

-- `Vec::retain`
abbrev pub retain : (ProgressRecord → Bool) → List ProgressRecord → List ProgressRecord
retain keep [] = []
retain keep (r ∷ rs) = if keep r then r ∷ retain keep rs else retain keep rs

-- What `commit_visible_page` retains: not the records of this file for other renditions.
abbrev pub other_file_or_same : ℕ → List ℕ → ProgressRecord → Bool
other_file_or_same filename rendition r =
    not (r.filename_hash == filename) || bytes_eq r.rendition_hash rendition

-- The selection and the mode, once the progress is set.
unfoldable pub show_page : ℕ → List ℕ → Outcome → Outcome
show_page filename rendition (err e, s) = (err e, s)
show_page filename rendition (ok done, s) =
    set_reading (record s { selected_filename_hash = filename }) filename rendition

unfoldable pub commit_visible_page : ReaderState → ℕ → List ℕ → ℕ → Outcome
commit_visible_page s filename rendition page =
    if filename == 0 || all_zero rendition
    then (err invalid_mode_state, s)
    else let kept = with_records s (retain (other_file_or_same filename rendition) s.records) in
      show_page filename rendition (
        set_progress kept
          (record { filename_hash = filename; rendition_hash = rendition; page = page }))

unfoldable pub set_menu : ReaderState → ReaderState
set_menu s = record s {
  saved_mode = menu;
  active_filename_hash = 0;
  active_rendition_hash = zero_hash;
}

abbrev pub is_reading : SavedMode → Bool
is_reading menu = false
is_reading reading = true

-- The selected file, unless it is dropped.
abbrev pub prune_selected : (ℕ → Bool) → ReaderState → ReaderState
prune_selected keep_filename s =
    if s.selected_filename_hash == 0 || keep_filename s.selected_filename_hash
    then s
    else record s { selected_filename_hash = 0 }

unfoldable pub prune : (ℕ → Bool) → ReaderState → ReaderState
prune keep_filename s =
    let kept = with_records s (retain (λ r. keep_filename r.filename_hash) s.records) in
    let selected = prune_selected keep_filename kept in
    if not (is_reading s.saved_mode) || keep_filename s.active_filename_hash
    then selected
    else set_menu selected

-- `validate_mode_state`
unfoldable pub validate_mode_state : ReaderState → Result ReaderStateError (Unit {0})
validate_mode_state s = elim s.saved_mode [
  | menu ↦
      if s.active_filename_hash == 0 && bytes_eq s.active_rendition_hash zero_hash
      then ok tt
      else err invalid_mode_state
  | reading ↦
      if not (s.active_filename_hash == 0) && not (bytes_eq s.active_rendition_hash zero_hash)
      then elim (lookup_page s s.active_filename_hash s.active_rendition_hash) [
        | none ↦ err invalid_mode_state
        | some page ↦ ok tt
      ]
      else err invalid_mode_state
]

-- `retain_record_mask`: a record behind the mask is dropped, and the number of dropped records
-- answered.
retain_mask : List Bool → List ProgressRecord → List ProgressRecord
retain_mask mask [] = []
retain_mask [] (r ∷ rs) = []
retain_mask (true ∷ mask) (r ∷ rs) = r ∷ retain_mask mask rs
retain_mask (false ∷ mask) (r ∷ rs) = retain_mask mask rs

unfoldable pub retain_record_mask : List Bool → ReaderState → ℕ × ReaderState
unfolding retain_mask
retain_record_mask keep s =
    let kept = retain_mask keep s.records in (length s.records - length kept, with_records s kept)

-- A state saved in this order is the newer one of the two slots: the index of the slot.
unfoldable pub select_newer : Option ReaderState → Option ReaderState → Option ℕ
select_newer none none = none
select_newer (some a) none = some 0
select_newer none (some b) = some 1
select_newer (some a) (some b) =
    if ltb ((b.generation + 2 ^ 32 - a.generation) % 2 ^ 32) 0x8000_0000 then some 1 else some 0

-- `filename_hash`, of 64 bits
unfoldable pub filename_hash_from : ℕ → List ℕ → ℕ
filename_hash_from hash [] = hash
filename_hash_from hash (byte ∷ bytes) =
    filename_hash_from (bit_xor hash byte * 0x0000_0100_0000_01b3 % 2 ^ 64) bytes

unfoldable pub filename_hash_of : List ℕ → ℕ
filename_hash_of filename = filename_hash_from 0xcbf2_9ce4_8422_2325 filename
