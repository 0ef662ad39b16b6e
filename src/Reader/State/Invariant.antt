-- ===== src/Reader/State/Invariant.antt =====
-- Well-formedness of the reading state of reader_state.rs, for `set_progress`, `set_reading` and
-- `set_menu`.
use binbook.Prelude.{
  ℕ, ◌≤◌, ◌<◌, ◌≡◌, ◌≢◌, refl, sym, ◌∙◌, Bool, true, false, ◌||◌, ◌==◌, inl, inr, some, List, [],
  ◌∷◌, ◌++◌, length, All, arith, Bool-cases, Option-cases, ok, length-append,
}
use binbook.Reader.State.{
  ReaderState, ProgressRecord, reading, zero_hash, bytes_eq, all_zero, has_key, find_record,
  lookup_page, validate_mode_state, set_progress, set_reading, set_menu, retain, with_records,
  max_progress_records, Outcome,
}
use binbook.Reader.State.Records.{
  bytes_eq-eq, has_key-eq, IsNew, Distinct, Replaced, Replaced-All, Replaced-length,
  Replaced-Distinct, All-push, push-Distinct, retain-All, retain-Distinct, length-retain,
}
use binbook.Reader.State.Lookup.{
  Replaced-find_new, Replaced-find_other, push-find_new, push-find_other,
}
use binbook.Reader.State.Mode.{
  HasActive, ModeOk, in_menu, in_book, ModeOk-validate, validate-ModeOk, Progress, refused, full,
  replaced, pushed, set_progress-Progress,
}

abbrev pub HasHash : ProgressRecord → Type 0
HasHash r = all_zero r.rendition_hash ≡ false

pub record Sound (rs : List ProgressRecord) : Type 0 where
  pub distinct : Distinct rs
  pub bounded : length rs ≤ max_progress_records
  pub hashes : All HasHash rs

abbrev pub IsValid : ReaderState → Type 0
IsValid s = Sound s.records × (validate_mode_state s ≡ ok tt)

-- The records.
pub Replaced-Sound :
    {new : ProgressRecord} {rs rest : List ProgressRecord}
    → HasHash new
    → Replaced new rs rest
    → Sound rs
    → Sound rest
Replaced-Sound hash r h = record {
  distinct = Replaced-Distinct r h.distinct;
  bounded = omega (arith, h.bounded, Replaced-length r);
  hashes = Replaced-All HasHash r hash h.hashes;
}

pub push-Sound :
    (rs : List ProgressRecord) (new : ProgressRecord)
    → HasHash new
    → IsNew new rs
    → length rs < max_progress_records
    → Sound rs
    → Sound (rs ++ (new ∷ []))
push-Sound rs new hash fresh room h = record {
  distinct = push-Distinct rs new fresh h.distinct;
  bounded = omega (arith, room, length-append rs (new ∷ []));
  hashes = All-push HasHash rs new h.hashes hash;
}

pub retain-Sound :
    (keep : ProgressRecord → Bool) (rs : List ProgressRecord) → Sound rs → Sound (retain keep rs)
retain-Sound keep rs h = record {
  distinct = retain-Distinct keep rs h.distinct;
  bounded = omega (arith, h.bounded, length-retain keep rs);
  hashes = retain-All keep HasHash rs h.hashes;
}

-- The record that is looked up is still there.
found-after :
    (filename : ℕ) (rendition : List ℕ) (new : ProgressRecord) (rs rest : List ProgressRecord)
    → find_record new.filename_hash new.rendition_hash rest ≡ some new
    → (has_key filename rendition new ≡ false
        → find_record filename rendition rest ≡ find_record filename rendition rs)
    → (r : ProgressRecord) × (find_record filename rendition rs ≡ some r)
    → (r : ProgressRecord) × (find_record filename rendition rest ≡ some r)
found-after filename rendition new rs rest mine others (r, found) =
    elim (Bool-cases (has_key filename rendition new)) [
      | inl k ↦
          let (file, hash) = has_key-eq filename rendition new k in
          (new, rw (sym file, sym hash) mine)
      | inr k ↦ (r, others k ∙ found)
    ]

ModeOk-records :
    (s : ReaderState) (rest : List ProgressRecord)
    → (HasActive s s.records → HasActive s rest)
    → ModeOk s
    → ModeOk (with_records s rest)
ModeOk-records s rest still (in_menu mode file hash) = in_menu mode file hash
ModeOk-records s rest still (in_book mode file hash there) = in_book mode file hash (still there)

Progress-IsValid :
    {s : ReaderState} {new : ProgressRecord} {o : Outcome}
    → Progress s new o
    → IsValid s
    → IsValid o.1
Progress-IsValid (refused z) h = h
Progress-IsValid (full e) h = h
Progress-IsValid {s} {new} (replaced {rest} hash r) h = (
  Replaced-Sound hash r h.0,
  ModeOk-validate (with_records s rest) (
      ModeOk-records s rest
        (found-after s.active_filename_hash s.active_rendition_hash new s.records rest
          (Replaced-find_new r)
          (λ k. Replaced-find_other s.active_filename_hash s.active_rendition_hash k r))
        (validate-ModeOk s h.1)),
)
Progress-IsValid {s} {new} (pushed hash fresh room) h = (
  push-Sound s.records new hash fresh room h.0,
  ModeOk-validate (with_records s (s.records ++ (new ∷ []))) (
      ModeOk-records s (s.records ++ (new ∷ []))
        (found-after s.active_filename_hash s.active_rendition_hash new s.records _
          (push-find_new s.records new fresh)
          (λ k. push-find_other s.active_filename_hash s.active_rendition_hash s.records new k))
        (validate-ModeOk s h.1)),
)

pub set_progress-IsValid :
    (s : ReaderState) (new : ProgressRecord) → IsValid s → IsValid (set_progress s new).1
set_progress-IsValid s new h = Progress-IsValid (set_progress-Progress s new) h

not_zero_hash : (xs : List ℕ) → all_zero xs ≡ false → bytes_eq xs zero_hash ≡ false
not_zero_hash xs e = elim (Bool-cases (bytes_eq xs zero_hash)) [
  | inl z ↦
      let same = bytes_eq-eq xs zero_hash z in
      let zeros : all_zero zero_hash ≡ true = unfold all_zero in refl in
      absurd (ground (arith, e, same, zeros))
  | inr n ↦ n
]

-- The state that shows a book.
abbrev pub in_reading : ReaderState → ℕ → List ℕ → ReaderState
in_reading s filename rendition = record s {
  saved_mode = reading;
  active_filename_hash = filename;
  active_rendition_hash = rendition;
}

pub in_reading-IsValid :
    (s : ReaderState) (filename : ℕ) (rendition : List ℕ)
    → filename ≢ 0
    → all_zero rendition ≡ false
    → (r : ProgressRecord) × (find_record filename rendition s.records ≡ some r)
    → Sound s.records
    → IsValid (in_reading s filename rendition)
in_reading-IsValid s filename rendition file hash there h = (
  h,
  ModeOk-validate (in_reading s filename rendition)
      (in_book refl file (not_zero_hash rendition hash) there),
)

-- `set_reading` of a book that has a record, and of none.
pub set_reading-found :
    (s : ReaderState) (filename : ℕ) (rendition : List ℕ) (r : ProgressRecord)
    → filename ≢ 0
    → all_zero rendition ≡ false
    → find_record filename rendition s.records ≡ some r
    → set_reading s filename rendition ≡ (ok tt, in_reading s filename rendition)
unfolding set_reading lookup_page
set_reading-found s filename rendition r file hash found =
    let test : filename == 0 ≡ false = ground (arith, file) in rw (test, hash, found) refl

pub set_reading-IsValid :
    (s : ReaderState) (filename : ℕ) (rendition : List ℕ)
    → IsValid s
    → IsValid (set_reading s filename rendition).1
set_reading-IsValid s filename rendition h =
    elim (Bool-cases (filename == 0 || all_zero rendition)) [
      | inl refuse ↦ unfold set_reading in rw refuse h
      | inr accept ↦ elim (Option-cases (find_record filename rendition s.records)) [
        | inl missing ↦ unfold set_reading lookup_page in rw (accept, missing) h
        | inr (r, found) ↦
            let file : filename ≢ 0 = λ z. ground (arith, accept, z) in
            let hash : all_zero rendition ≡ false = ground (arith, accept) in
            rw (set_reading-found s filename rendition r file hash found)
              (in_reading-IsValid s filename rendition file hash (r, found) h.0)
      ]
    ]

pub set_menu-IsValid : (s : ReaderState) → Sound s.records → IsValid (set_menu s)
unfolding set_menu
set_menu-IsValid s h = (h, ModeOk-validate _ (in_menu refl refl (unfold bytes_eq in refl)))
