-- ===== src/Reader/State/Mode.antt =====
-- What `validate_mode_state` accepts, and how `set_progress` can end.
use binbook.Prelude.{
  ◌≤◌, ◌<◌, ◌≡◌, ◌≢◌, ◌⊎◌, refl, true, false, ◌==◌, ltb, inl, inr, none, some, List, [], ◌∷◌, ◌++◌,
  length, arith, Bool-cases, Option-cases, ok, err,
}
use binbook.Reader.State.{
  ReaderState, ProgressRecord, SavedMode, menu, reading, zero_hash, bytes_eq, all_zero, find_record,
  lookup_page, validate_mode_state, set_progress, push_record, with_records, max_progress_records,
  Outcome, zero_rendition_hash, too_many_records,
}
use binbook.Reader.State.Records.{IsNew, Replaced, replace-cases}

-- The record of the active book.
abbrev pub HasActive : ReaderState → List ProgressRecord → Type 0
HasActive s rs =
    (r : ProgressRecord) × (find_record s.active_filename_hash s.active_rendition_hash rs ≡ some r)

pub data ModeOk (s : ReaderState) : Type 0 where
  in_menu :
      s.saved_mode ≡ menu
      → s.active_filename_hash ≡ 0
      → bytes_eq s.active_rendition_hash zero_hash ≡ true
      → ModeOk s
  in_book :
      s.saved_mode ≡ reading
      → s.active_filename_hash ≢ 0
      → bytes_eq s.active_rendition_hash zero_hash ≡ false
      → HasActive s s.records
      → ModeOk s

pub ModeOk-validate : (s : ReaderState) → ModeOk s → validate_mode_state s ≡ ok tt
unfolding validate_mode_state lookup_page
ModeOk-validate s (in_menu mode file hash) = rw (mode, file, hash) refl
ModeOk-validate s (in_book mode file hash (r, found)) =
    let test : s.active_filename_hash == 0 ≡ false = ground (arith, file) in
    rw (mode, test, hash, found) refl

mode-cases : (m : SavedMode) → (m ≡ menu) ⊎ (m ≡ reading)
mode-cases menu = inl refl
mode-cases reading = inr refl

validate-menu :
    (s : ReaderState)
    → s.saved_mode ≡ menu
    → validate_mode_state s ≡ ok tt
    → (s.active_filename_hash ≡ 0) × (bytes_eq s.active_rendition_hash zero_hash ≡ true)
unfolding validate_mode_state
validate-menu s m e = (ground (arith, m, e), ground (arith, m, e))

validate-reading :
    (s : ReaderState)
    → s.saved_mode ≡ reading
    → validate_mode_state s ≡ ok tt
    → (s.active_filename_hash ≢ 0)
      × (bytes_eq s.active_rendition_hash zero_hash ≡ false)
      × (find_record s.active_filename_hash s.active_rendition_hash s.records ≢ none)
unfolding validate_mode_state lookup_page
validate-reading s m e =
    (λ z. ground (arith, m, e, z), ground (arith, m, e), λ z. ground (arith, m, e, z))

pub validate-ModeOk : (s : ReaderState) → validate_mode_state s ≡ ok tt → ModeOk s
validate-ModeOk s e = elim (mode-cases s.saved_mode) [
  | inl m ↦ let (file, hash) = validate-menu s m e in in_menu m file hash
  | inr m ↦
      let (file, hash, found) = validate-reading s m e in
      in_book m file hash
        (elim (Option-cases
          (find_record s.active_filename_hash s.active_rendition_hash s.records)) [
            | inl missing ↦ absurd (found missing)
            | inr there ↦ there
          ])
]

-- How `set_progress` ends.
pub data Progress (s : ReaderState) (new : ProgressRecord) : Outcome → Type 0 where
  refused : all_zero new.rendition_hash ≡ true → Progress s new (err zero_rendition_hash, s)
  full : max_progress_records ≤ length s.records → Progress s new (err too_many_records, s)
  replaced :
      {rest : List ProgressRecord}
      → all_zero new.rendition_hash ≡ false
      → Replaced new s.records rest
      → Progress s new (ok tt, with_records s rest)
  pushed :
      all_zero new.rendition_hash ≡ false
      → IsNew new s.records
      → length s.records < max_progress_records
      → Progress s new (ok tt, with_records s (s.records ++ (new ∷ [])))

pub set_progress-Progress :
    (s : ReaderState) (new : ProgressRecord) → Progress s new (set_progress s new)
unfolding set_progress push_record
set_progress-Progress s new = elim (Bool-cases (all_zero new.rendition_hash)) [
  | inl z ↦ rw z (refused z)
  | inr z ↦ elim (replace-cases new s.records) [
    | inl (rest, same, r) ↦ rw (z, same) (replaced z r)
    | inr (same, fresh) ↦ elim (Bool-cases (ltb (length s.records) max_progress_records)) [
      | inl e ↦ rw (z, same, e) (pushed z fresh (ground (arith, e)))
      | inr e ↦ rw (z, same, e) (full (ground (arith, e)))
    ]
  ]
]
