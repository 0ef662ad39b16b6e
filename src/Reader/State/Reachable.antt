-- ===== src/Reader/State/Reachable.antt =====
-- The states that the operations of reader_state.rs reach.
use binbook.Prelude.{ℕ, refl, Bool, List, arith}
use binbook.Reader.State.{
  ReaderState, ProgressRecord, empty, bytes_eq, set_progress, set_reading, set_menu, prune,
  commit_visible_page,
}
use binbook.Reader.State.Mode.{ModeOk-validate, in_menu}
use binbook.Reader.State.Invariant.{
  IsValid, set_progress-IsValid, set_reading-IsValid, set_menu-IsValid,
}
use binbook.Reader.State.Commit.{prune-IsValid, commit_visible_page-IsValid}

-- A state that operations of the public interface make of the empty one, whatever they answer.
pub data Reachable : ReaderState → Type 0 where
  start : Reachable empty
  by_progress :
      {s : ReaderState} → Reachable s → (new : ProgressRecord) → Reachable (set_progress s new).1
  by_commit :
      {s : ReaderState}
      → Reachable s
      → (filename : ℕ) (rendition : List ℕ) (page : ℕ)
      → Reachable (commit_visible_page s filename rendition page).1
  by_reading :
      {s : ReaderState}
      → Reachable s
      → (filename : ℕ) (rendition : List ℕ) → Reachable (set_reading s filename rendition).1
  by_menu : {s : ReaderState} → Reachable s → Reachable (set_menu s)
  by_prune :
      {s : ReaderState}
      → Reachable s
      → (keep_filename : ℕ → Bool) → Reachable (prune keep_filename s)

-- In each state that `set_progress`, `commit_visible_page`, `set_reading`, `set_menu` and `prune` make
-- of the empty one, no two records are of the same rendition of a book, there are at most 200, none
-- has a zero hash, and `validate_mode_state` accepts the mode.
pub Reachable-IsValid : {s : ReaderState} → Reachable s → IsValid s
Reachable-IsValid start = (
  record { distinct = tt; bounded = omega arith; hashes = tt },
  ModeOk-validate empty (in_menu refl refl (unfold bytes_eq in refl)),
)
Reachable-IsValid (by_progress {s} r new) = set_progress-IsValid s new (Reachable-IsValid r)
Reachable-IsValid (by_commit {s} r filename rendition page) =
    commit_visible_page-IsValid s filename rendition page (Reachable-IsValid r)
Reachable-IsValid (by_reading {s} r filename rendition) =
    set_reading-IsValid s filename rendition (Reachable-IsValid r)
Reachable-IsValid (by_menu {s} r) = set_menu-IsValid s (Reachable-IsValid r).0
Reachable-IsValid (by_prune {s} r keep_filename) =
    prune-IsValid keep_filename s (Reachable-IsValid r)
