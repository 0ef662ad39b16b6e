-- ===== src/Reader/Tests.antt =====
-- The theorems on the reader's state machines at concrete states.
use binbook.Prelude.{
  ℕ, ◌⊎◌, ◌-◌, ◌≤◌, ◌<◌, ◌≡◌, ◌↔◌, min, Bool, true, false, List, [], ◌∷◌, replicate, refl, leb,
  if◌then◌else◌, take, ok, inl, inr, Bool-cases, arith,
}
use binbook.Reader.Power.{prepare_sleep, update, after, power_hold_ms}
use binbook.Reader.Power.Hold.{HeldSince, update-prepare_sleep}
use binbook.Reader.State.{empty, commit_visible_page, prune}
use binbook.Reader.State.Invariant.{IsValid}
use binbook.Reader.State.Commit.{Shown, commit_visible_page-Shown}
use binbook.Reader.State.Reachable.{start, by_commit, by_prune, Reachable-IsValid}
use binbook.Reader.Menu.{
  MenuState, previous, new, transition, is_visible, selected_row, visible_count, viewport_rows,
}
use binbook.Reader.Menu.Visible.{made, acted, Reachable-is_visible}
use mathlib.Core.List.Permᴰ
use mathlib.Core.List.{Permᴰ}
use binbook.Reader.State.{
  ReaderState, ProgressRecord, reading, lookup_page, find_record, has_key, bytes_eq, all_zero,
  validate_mode_state,
}
use binbook.Reader.State.Wire.{encode, decode}
use binbook.Reader.State.Wire.RoundTrip.{IsState}
use binbook.Reader.State.Wire.Saved.{sorted, decode-encode}
use binbook.Reader.Input.{
  right, press, poll_raw_detailed, update_ladder, same_button, decode_ch1_button, decode_ch2_button,
  decide,
}
use binbook.Reader.Input.Debounce.{
  Reading, samples1, samples2, input_after, WasSteady, poll_raw_detailed-WasSteady,
}

abbrev held_key : List (Bool × ℕ)
held_key = (true, 1_900) ∷ (true, 100) ∷ (false, 50) ∷ []

update-prepare_sleep_example :
    ((update (after held_key) true 2_100).1 ≡ prepare_sleep)
    ↔ ((true ≡ true) × (t : ℕ) × HeldSince t held_key × (power_hold_ms ≤ 2_100 - t))
update-prepare_sleep_example = update-prepare_sleep held_key true 2_100

abbrev rendition : List ℕ
rendition = replicate 32 7

commit_visible_page-Shown_example :
    Shown empty
      (record { filename_hash = 3; rendition_hash = rendition; page = 12 })
      (commit_visible_page empty 3 rendition 12)
commit_visible_page-Shown_example =
    commit_visible_page-Shown empty 3 rendition 12 (Reachable-IsValid start).0

Reachable-IsValid_example :
    IsValid (prune (λ filename. false) (commit_visible_page empty 3 rendition 12).1)
Reachable-IsValid_example =
    Reachable-IsValid (by_prune (by_commit start 3 rendition 12) (λ filename. false))

abbrev moved : MenuState
moved = (transition previous (new 7)).1

Reachable-is_visible_example :
    (is_visible moved moved.selected ≡ true)
    × (selected_row moved < visible_count moved)
    × (visible_count moved ≡ min viewport_rows moved.count)
Reachable-is_visible_example =
    Reachable-is_visible (acted (made 7) previous) (unfold transition in omega arith)

-- A sort by the hash of the file.
insert : ProgressRecord → List ProgressRecord → List ProgressRecord
insert r [] = r ∷ []
insert r (x ∷ xs) = if leb r.filename_hash x.filename_hash then r ∷ x ∷ xs else x ∷ insert r xs

insertion_sort : List ProgressRecord → List ProgressRecord
insertion_sort [] = []
insertion_sort (r ∷ rs) = insert r (insertion_sort rs)

insert-Perm : (r : ProgressRecord) (xs : List ProgressRecord) → Permᴰ (r ∷ xs) (insert r xs)
unfolding insert
insert-Perm r [] = Permᴰ.refl (r ∷ [])
insert-Perm r (x ∷ xs) = elim (Bool-cases (leb r.filename_hash x.filename_hash)) [
  | inl e ↦ rw e (Permᴰ.refl (r ∷ x ∷ xs))
  | inr e ↦ rw e (Permᴰ.trans (Permᴰ.swap refl refl) (Permᴰ.cons refl (insert-Perm r xs)))
]

insertion_sort-Perm : (rs : List ProgressRecord) → Permᴰ rs (insertion_sort rs)
unfolding insertion_sort
insertion_sort-Perm [] = Permᴰ.nil
insertion_sort-Perm (r ∷ rs) =
    Permᴰ.trans (Permᴰ.cons refl (insertion_sort-Perm rs)) (insert-Perm r (insertion_sort rs))

abbrev two_books : ReaderState
two_books = record {
  generation = 4;
  saved_mode = reading;
  selected_filename_hash = 3;
  active_filename_hash = 3;
  active_rendition_hash = rendition;
  records =
      record { filename_hash = 9; rendition_hash = rendition; page = 12 }
      ∷ record { filename_hash = 3; rendition_hash = rendition; page = 5 }
      ∷ [];
}

two_books-IsValid : IsValid two_books
unfolding validate_mode_state lookup_page find_record has_key bytes_eq all_zero
two_books-IsValid = (
  record { distinct = ((refl, tt), (tt, tt)); bounded = omega arith; hashes = (refl, (refl, tt)) },
  refl,
)

two_books-IsState : IsState two_books
two_books-IsState = record {
  counted = omega arith;
  selected = omega arith;
  active = omega arith;
  hash = refl;
  entries = (
    record { filename = omega arith; rendition = refl; page = omega arith },
    (record { filename = omega arith; rendition = refl; page = omega arith }, tt),
  );
}

decode-encode_example :
    (n : ℕ) × (saved : List ℕ) × (encode insertion_sort two_books (replicate 200 1) ≡ (ok n, saved))
    × (decode (take n saved) ≡ ok (sorted insertion_sort two_books))
    × ((filename : ℕ) (rendition : List ℕ)
        → lookup_page (sorted insertion_sort two_books) filename rendition
          ≡ lookup_page two_books filename rendition)
decode-encode_example =
    decode-encode insertion_sort two_books (replicate 200 1) insertion_sort-Perm two_books-IsValid
      two_books-IsState (omega arith)

abbrev voltages : List Reading
voltages = (500, 4_000, 40) ∷ (500, 4_000, 20) ∷ (4_000, 4_000, 0) ∷ []

right_pressed : (poll_raw_detailed (input_after voltages) 500 4_000 60).0.decision ≡ press right
unfolding input_after poll_raw_detailed update_ladder same_button decode_ch1_button
    decode_ch2_button decide
right_pressed = refl

poll_raw_detailed-WasSteady_example :
    WasSteady right (samples1 ((500, 4_000, 60) ∷ voltages))
    ⊎ WasSteady right (samples2 ((500, 4_000, 60) ∷ voltages))
poll_raw_detailed-WasSteady_example =
    poll_raw_detailed-WasSteady voltages 500 4_000 60 right right_pressed
