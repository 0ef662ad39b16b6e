-- ===== src/Reader/Menu/Visible.antt =====
-- The visible rows of menu.rs.
use binbook.Prelude.{ℕ, ◌+◌, ◌-◌, ◌≤◌, ◌<◌, ◌≡◌, min, true, ◌==◌, inl, inr, arith, Bool-cases}
use binbook.Reader.Menu.{
  MenuAction, next, previous, no_op, open_entry, MenuState, viewport_rows, new, selected_row,
  is_visible, visible_count, reset, restore_selected, act, transition,
}

-- The selected entry stands in a row that is shown, and no row is blank that could show an entry.
pub record IsShown (m : MenuState) : Type 0 where
  pub above : m.top ≤ m.selected
  pub below : m.selected < m.top + viewport_rows
  pub within : m.selected ≤ m.count - 1
  pub filled : m.top + min viewport_rows m.count ≤ m.count

act-IsShown :
    (action : MenuAction) (m : MenuState) → 0 < m.count → IsShown m → IsShown (act action m).1
act-IsShown next m some_entry h = record {
  above = ground (arith, h.above, h.below, h.within, h.filled);
  below = ground (arith, h.above, h.below, h.within, h.filled);
  within = ground (arith, h.above, h.below, h.within, h.filled);
  filled = ground (arith, h.above, h.below, h.within, h.filled);
}
act-IsShown previous m some_entry h = record {
  above = ground (arith, h.above, h.below, h.within, h.filled);
  below = ground (arith, h.above, h.below, h.within, h.filled);
  within = ground (arith, h.above, h.below, h.within, h.filled);
  filled = ground (arith, h.above, h.below, h.within, h.filled);
}
act-IsShown (open_entry index) m some_entry h = h
act-IsShown no_op m some_entry h = h

transition-IsShown :
    (action : MenuAction) (m : MenuState) → IsShown m → IsShown (transition action m).1
unfolding transition
transition-IsShown action m h = elim (Bool-cases (m.count == 0)) [
  | inl e ↦ rw e h
  | inr e ↦ rw e (act-IsShown action m (ground (arith, e)) h)
]

new-IsShown : (count : ℕ) → IsShown (new count)
new-IsShown count = record {
  above = omega arith;
  below = omega arith;
  within = omega arith;
  filled = omega arith;
}

restored-IsShown : (m : MenuState) (index : ℕ) → IsShown (restore_selected m index)
unfolding restore_selected
restored-IsShown m index = elim (Bool-cases (m.count == 0)) [
  | inl e ↦ rw e (record {
    above = omega arith;
    below = omega arith;
    within = omega arith;
    filled = ground (arith, e);
  })
  | inr e ↦ rw e (record {
    above = omega arith;
    below = omega arith;
    within = omega arith;
    filled = ground (arith, e);
  })
]

-- A state that the operations make of a new one.
pub data Reachable : MenuState → Type 0 where
  made : (count : ℕ) → Reachable (new count)
  acted : {m : MenuState} → Reachable m → (action : MenuAction) → Reachable (transition action m).1
  emptied : {m : MenuState} → Reachable m → (count : ℕ) → Reachable (reset m count)
  restored : {m : MenuState} → Reachable m → (index : ℕ) → Reachable (restore_selected m index)

Reachable-IsShown : {m : MenuState} → Reachable m → IsShown m
unfolding reset
Reachable-IsShown (made count) = new-IsShown count
Reachable-IsShown (acted {m} r action) = transition-IsShown action m (Reachable-IsShown r)
Reachable-IsShown (emptied r count) = new-IsShown count
Reachable-IsShown (restored {m} r index) = restored-IsShown m index

-- In each state that `transition`, `reset` and `restore_selected` make of a new menu, if there is an
-- entry, the selected one is visible, its row is one of those that are shown, and as many rows are
-- shown as there are entries, up to five.
pub Reachable-is_visible :
    {m : MenuState}
    → Reachable m
    → 0 < m.count
    → (is_visible m m.selected ≡ true)
      × (selected_row m < visible_count m)
      × (visible_count m ≡ min viewport_rows m.count)
unfolding is_visible selected_row visible_count
Reachable-is_visible {m} r some_entry =
    let h = Reachable-IsShown r in
    (
      ground (arith, h.above, h.below, h.within),
      omega (arith, h.above, h.below, h.within),
      omega (arith, h.above, h.within, h.filled),
    )
