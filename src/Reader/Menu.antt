-- ===== src/Reader/Menu.antt =====
-- firmware/crates/binbook-fw/src/menu.rs: the rows of the library menu that are shown, and the selected
-- one. An index is a `usize`; `saturating_sub` is `◌-◌`.
pub mod Visible
use binbook.Prelude.{
  ℕ, ◌+◌, ◌-◌, min, Bool, true, false, not, ◌&&◌, ltb, leb, ◌==◌, if◌then◌else◌, List, [], ◌∷◌,
}

pub data MenuAction : Type 0 where
  next previous no_op : MenuAction
  open_entry : ℕ → MenuAction

abbrev pub viewport_rows : ℕ
viewport_rows = 5

pub record MenuState : Type 0 where
  pub top : ℕ
  pub selected : ℕ
  pub count : ℕ

abbrev pub new : ℕ → MenuState
new count = record { top = 0; selected = 0; count = count }

unfoldable pub selected_row : MenuState → ℕ
selected_row m = m.selected - m.top

unfoldable pub is_visible : MenuState → ℕ → Bool
is_visible m index = leb m.top index && ltb index (m.top + viewport_rows) && ltb index m.count

unfoldable pub visible_count : MenuState → ℕ
visible_count m = min viewport_rows (m.count - m.top)

unfoldable pub reset : MenuState → ℕ → MenuState
reset m count = record m { top = 0; selected = 0; count = count }

unfoldable pub restore_selected : MenuState → ℕ → MenuState
restore_selected m index =
    if m.count == 0
    then record m { top = 0; selected = 0 }
    else let selected = min index (m.count - 1) in
      record m { selected = selected; top = selected - (viewport_rows - 1) }

-- The moves of the selection, before the rows are scrolled.
abbrev pub move_down : MenuState → MenuState
move_down m =
    if ltb (m.selected + 1) m.count
    then record m { selected = m.selected + 1 }
    else record m { selected = 0; top = 0 }

abbrev pub move_up : MenuState → MenuState
move_up m =
    if ltb 0 m.selected
    then record m { selected = m.selected - 1 }
    else record m { selected = m.count - 1; top = m.count - viewport_rows }

abbrev pub scroll_down : MenuState → MenuState
scroll_down m =
    if leb (m.top + viewport_rows) m.selected
    then record m { top = m.selected + 1 - viewport_rows }
    else m

abbrev pub scroll_up : MenuState → MenuState
scroll_up m = if ltb m.selected m.top then record m { top = m.selected } else m

-- The action of a menu that is not empty.
abbrev pub act : MenuAction → MenuState → MenuAction × MenuState
act next m = (next, scroll_down (move_down m))
act previous m = (previous, scroll_up (move_up m))
act (open_entry index) m = (open_entry m.selected, m)
act no_op m = (no_op, m)

unfoldable pub transition : MenuAction → MenuState → MenuAction × MenuState
transition action m = if m.count == 0 then (no_op, m) else act action m

-- The state after several actions.
unfoldable pub transitions : List MenuAction → MenuState → MenuState
transitions [] m = m
transitions (action ∷ actions) m = transitions actions (transition action m).1
