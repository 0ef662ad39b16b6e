-- ===== src/Reader/State/Commit.antt =====
-- `prune` and `commit_visible_page` of reader_state.rs.
use binbook.Prelude.{
  ℕ, ◌≤◌, ◌≡◌, ◌≢◌, refl, sym, ap, ◌∙◌, Bool, true, false, not, ◌||◌, ◌==◌, inl, inr, ◌⊎◌, none,
  some, List, [], ◌∷◌, ◌++◌, length, arith, Bool-cases, ok, err,
}
use binbook.Reader.State.{
  ReaderState, ProgressRecord, bytes_eq, all_zero, has_key, find_record, prune, is_reading, retain,
  with_records, max_progress_records, Outcome, other_file_or_same, show_page, commit_visible_page,
  ReaderStateError,
}
use binbook.Reader.State.Records.{bytes_eq-eq, has_key-eq, length-retain}
use binbook.Reader.State.Lookup.{
  Replaced-find_new, Replaced-find_other, push-find_new, push-find_other, retain-find,
}
use binbook.Reader.State.Mode.{
  ModeOk, in_menu, in_book, ModeOk-validate, validate-ModeOk, Progress, refused, full, replaced,
  pushed, set_progress-Progress,
}
use binbook.Reader.State.Invariant.{
  Sound, IsValid, retain-Sound, Replaced-Sound, push-Sound, set_menu-IsValid, in_reading,
  in_reading-IsValid, set_reading-found,
}

-- The state after `prune` where the active book is kept.
ModeOk-kept :
    (keep : ℕ → Bool) (s : ReaderState) (selected : ℕ)
    → not (is_reading s.saved_mode) || keep s.active_filename_hash ≡ true
    → ModeOk s
    → ModeOk (record s {
      selected_filename_hash = selected;
      records = retain (λ r. keep r.filename_hash) s.records;
    })
ModeOk-kept keep s selected test (in_menu mode file hash) = in_menu mode file hash
ModeOk-kept keep s selected test (in_book mode file hash (r, found)) =
    let active : keep s.active_filename_hash ≡ true = ground (arith, test, mode) in
    let still =
      retain-find s.active_filename_hash s.active_rendition_hash (λ r. keep r.filename_hash)
        s.records
        (λ r k. rw (has_key-eq s.active_filename_hash s.active_rendition_hash r k).0 active) in
    in_book mode file hash (r, still ∙ found)

pub prune-IsValid : (keep : ℕ → Bool) (s : ReaderState) → IsValid s → IsValid (prune keep s)
unfolding prune
prune-IsValid keep s h =
    let records = retain-Sound (λ r. keep r.filename_hash) s.records h.0 in
    let kept = with_records s (retain (λ r. keep r.filename_hash) s.records) in
    elim (Bool-cases (not (is_reading s.saved_mode) || keep s.active_filename_hash)) [
      | inl active ↦
          let at = λ (n : ℕ). ModeOk-kept keep s n active (validate-ModeOk s h.1) in
          elim (Bool-cases (s.selected_filename_hash == 0 || keep s.selected_filename_hash)) [
            | inl e ↦ rw (active, e) (records, ModeOk-validate _ (at s.selected_filename_hash))
            | inr e ↦ rw (active, e) (records, ModeOk-validate _ (at 0))
          ]
      | inr dropped ↦
          elim (Bool-cases (s.selected_filename_hash == 0 || keep s.selected_filename_hash)) [
            | inl e ↦ rw (dropped, e) (set_menu-IsValid kept records)
            | inr e ↦
                rw (dropped, e)
                  (set_menu-IsValid (record kept { selected_filename_hash = 0 }) records)
          ]
    ]

-- Nothing is dropped by a `retain` that leaves as many records.
retain-id :
    (keep : ProgressRecord → Bool) (rs : List ProgressRecord)
    → length rs ≤ length (retain keep rs)
    → retain keep rs ≡ rs
retain-id keep [] e = refl
retain-id keep (r ∷ rs) e = elim (Bool-cases (keep r)) [
  | inl k ↦
      let same : retain keep (r ∷ rs) ≡ (r ∷ retain keep rs) = rw k refl in
      rw k (ap (λ rest. r ∷ rest) (retain-id keep rs (omega (arith, e, ap length same))))
  | inr k ↦
      let same : retain keep (r ∷ rs) ≡ retain keep rs = rw k refl in
      absurd (omega (arith, e, ap length same, length-retain keep rs))
]

find-dropped :
    (filename : ℕ) (rendition : List ℕ) (keep : ProgressRecord → Bool) (rs : List ProgressRecord)
    → ((r : ProgressRecord) → has_key filename rendition r ≡ true → keep r ≡ false)
    → find_record filename rendition (retain keep rs) ≡ none
unfolding find_record
find-dropped filename rendition keep [] drop = refl
find-dropped filename rendition keep (r ∷ rs) drop =
    let later = find-dropped filename rendition keep rs drop in
    elim (Bool-cases (keep r)) [
      | inl k ↦ elim (Bool-cases (has_key filename rendition r)) [
        | inl e ↦ absurd (ground (arith, k, drop r e))
        | inr e ↦ rw (k, e, find_record) later
      ]
      | inr k ↦ rw k later
    ]

-- How `commit_visible_page` ends.
pub data Shown (s : ReaderState) (new : ProgressRecord) : Outcome → Type 0 where
  -- It is refused for a hash of zero or for want of room, and nothing changes.
  unchanged :
      {e : ReaderStateError}
      → (new.filename_hash ≡ 0)
        ⊎ ((all_zero new.rendition_hash ≡ true) ⊎ (max_progress_records ≤ length s.records))
      → Shown s new (err e, s)
  -- The book is shown at this page. No other rendition of it has a record, and the records of the
  -- other books are as they were.
  shown :
      {rest : List ProgressRecord}
      → new.filename_hash ≢ 0
      → all_zero new.rendition_hash ≡ false
      → Sound rest
      → find_record new.filename_hash new.rendition_hash rest ≡ some new
      → ((rendition : List ℕ)
          → rendition ≢ new.rendition_hash
          → find_record new.filename_hash rendition rest ≡ none)
      → ((filename : ℕ) (rendition : List ℕ)
          → filename ≢ new.filename_hash
          → find_record filename rendition rest ≡ find_record filename rendition s.records)
      → Shown s new (
        ok tt,
        in_reading
            (record s { selected_filename_hash = new.filename_hash; records = rest })
            new.filename_hash
            new.rendition_hash,
      )

-- A book's own records are dropped but for this rendition's, and the others' kept.
module _ (new : ProgressRecord) (records : List ProgressRecord) where
  kept : List ProgressRecord
  kept = retain (other_file_or_same new.filename_hash new.rendition_hash) records

  kept-other :
      (filename : ℕ) (rendition : List ℕ)
      → filename ≢ new.filename_hash
      → find_record filename rendition kept ≡ find_record filename rendition records
  unfolding kept
  kept-other filename rendition other =
      retain-find filename rendition (other_file_or_same new.filename_hash new.rendition_hash)
        records
        (λ r k. let file = (has_key-eq filename rendition r k).0 in ground (arith, file, other))

  kept-same :
      (rendition : List ℕ)
      → rendition ≢ new.rendition_hash
      → find_record new.filename_hash rendition kept ≡ none
  unfolding kept
  kept-same rendition other =
      find-dropped new.filename_hash rendition
        (other_file_or_same new.filename_hash new.rendition_hash) records
        (λ r k.
          let (file, hash) = has_key-eq new.filename_hash rendition r k in
          elim (Bool-cases (bytes_eq r.rendition_hash new.rendition_hash)) [
            | inl e ↦ absurd (other (sym hash ∙ bytes_eq-eq r.rendition_hash new.rendition_hash e))
            | inr e ↦ ground (arith, file, e)
          ])

has_key-other_file :
    (filename : ℕ) (rendition : List ℕ) (new : ProgressRecord)
    → filename ≢ new.filename_hash
    → has_key filename rendition new ≡ false
unfolding has_key
has_key-other_file filename rendition new other = ground (arith, other)

has_key-other_hash :
    (filename : ℕ) (rendition : List ℕ) (new : ProgressRecord)
    → rendition ≢ new.rendition_hash
    → has_key filename rendition new ≡ false
has_key-other_hash filename rendition new other =
    elim (Bool-cases (has_key filename rendition new)) [
      | inl k ↦ absurd (other (sym (has_key-eq filename rendition new k).1))
      | inr k ↦ k
    ]

-- The end of `commit_visible_page`, with these records.
show_page_found :
    (s : ReaderState) (new : ProgressRecord) (rest : List ProgressRecord)
    → new.filename_hash ≢ 0
    → all_zero new.rendition_hash ≡ false
    → Sound rest
    → find_record new.filename_hash new.rendition_hash rest ≡ some new
    → ((filename : ℕ) (rendition : List ℕ)
        → has_key filename rendition new ≡ false
        → find_record filename rendition rest ≡ find_record filename rendition (kept new s.records))
    → Shown s new (show_page new.filename_hash new.rendition_hash (ok tt, with_records s rest))
unfolding show_page
show_page_found s new rest file hash sound found others =
    rw
      (set_reading-found (record s { selected_filename_hash = new.filename_hash; records = rest })
        new.filename_hash new.rendition_hash new file hash found)
      (shown file hash sound found
        (λ k other.
          others new.filename_hash k (has_key-other_hash new.filename_hash k new other)
          ∙ kept-same new s.records k other)
        (λ g k other.
          others g k (has_key-other_file g k new other) ∙ kept-other new s.records g k other))

show_page-Shown :
    (s : ReaderState) (new : ProgressRecord) {o : Outcome}
    → new.filename_hash ≢ 0
    → all_zero new.rendition_hash ≡ false
    → Sound s.records
    → Progress (with_records s (kept new s.records)) new o
    → Shown s new (show_page new.filename_hash new.rendition_hash o)
unfolding kept
show_page-Shown s new file hash h (refused z) = absurd (ground (arith, hash, z))
show_page-Shown s new file hash h (full e) =
    let all : kept new s.records ≡ s.records =
      retain-id _ s.records (omega (arith, e, h.bounded)) in
    unfold show_page in
    unfold show_page in rw all (unchanged (inr (inr (omega (arith, e, ap length all)))))
show_page-Shown s new file hash h (replaced {rest} z r) =
    show_page_found s new rest file hash (Replaced-Sound hash r (retain-Sound _ s.records h))
      (Replaced-find_new r) (λ g k other. Replaced-find_other g k other r)
show_page-Shown s new file hash h (pushed z fresh room) =
    show_page_found s new (kept new s.records ++ (new ∷ [])) file hash
      (push-Sound (kept new s.records) new hash fresh room (retain-Sound _ s.records h))
      (push-find_new (kept new s.records) new fresh)
      (λ g k other. push-find_other g k (kept new s.records) new other)

-- `commit_visible_page` on sound records is refused, for a hash of zero or for 200 records or more, which
-- changes nothing, or the book is shown: the records stay sound, the page is the one that a lookup of this rendition answers, no other rendition
-- of this book has a record, and a lookup of another book answers what it did.
pub commit_visible_page-Shown :
    (s : ReaderState) (filename : ℕ) (rendition : List ℕ) (page : ℕ)
    → Sound s.records
    → Shown s
        (record { filename_hash = filename; rendition_hash = rendition; page = page })
        (commit_visible_page s filename rendition page)
unfolding commit_visible_page kept
commit_visible_page-Shown s filename rendition page h =
    let new : ProgressRecord = record {
      filename_hash = filename;
      rendition_hash = rendition;
      page = page;
    } in
    elim (Bool-cases (filename == 0 || all_zero rendition)) [
      | inl refuse ↦ rw refuse (
          unchanged (elim (Bool-cases (all_zero rendition)) [
            | inl z ↦ inr (inl z)
            | inr z ↦ inl (ground (arith, refuse, z))
          ]))
      | inr accept ↦ rw accept (
          show_page-Shown s new (λ z. ground (arith, accept, z)) (ground (arith, accept)) h
            (set_progress-Progress (with_records s (kept new s.records)) new))
    ]

Shown-IsValid :
    {s : ReaderState} {new : ProgressRecord} {o : Outcome} → Shown s new o → IsValid s → IsValid o.1
Shown-IsValid (unchanged why) h = h
Shown-IsValid {s} {new} (shown {rest} file hash sound found same others) h =
    in_reading-IsValid (record s { selected_filename_hash = new.filename_hash; records = rest })
      new.filename_hash new.rendition_hash file hash (new, found) sound

pub commit_visible_page-IsValid :
    (s : ReaderState) (filename : ℕ) (rendition : List ℕ) (page : ℕ)
    → IsValid s
    → IsValid (commit_visible_page s filename rendition page).1
commit_visible_page-IsValid s filename rendition page h =
    Shown-IsValid (commit_visible_page-Shown s filename rendition page h.0) h
