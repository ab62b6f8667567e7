-- ===== src/Model/Keys/Reach.antt =====
-- The states that events lead to, and what holds of all of them.
use volute.Prelude.{
  ap, ◌∙◌, drop, get_elem?-take, get_elem?-drop, lt→get_elem?, get_elem?, ◌-◌, min, ℕ, ◌+◌, ◌≤◌,
  ◌<◌, ◌≡◌, refl, Bool, true, false, Option, none, some, length, arith, Bool-cases, inl, inr,
}
use volute.Bytes.{Bytes}
use volute.Model.{Flow, Data, RowInfo, Key, KeyEvent, Bar, Mode, Words, Model, key_of_event}
use volute.Model.Rows.{
  entry_at, usize_max, move_back, move_on, selected_entry, set_info, too_small, layout, drawn_top,
  ensure_visible, drawn_rows,
}
use volute.Model.Rows.Within.{
  IsWithin, drawn_top_bounds, rebuild_visible-IsWithin, move_to-IsWithin, expand_selected-IsWithin,
  collapse_or_ascend-IsWithin,
}
use volute.Model.Pages.{clamp_scroll, scroll_page, resized, set_size}
use volute.Model.Loads.{new, apply, switch_to, set_status, show_blocked, told}
use volute.Transcript.Maps.{is_some}
use volute.Model.Keys.{
  start_flow, handle_key, page_key, bar_key, flow_of, mode_key, list_char, list_key,
}
use volute.Model.Picker.{
  choose, picker_key, picker_up, picker_down, usable_before, usable_from, open_picker,
}

-- One event that the loop passes on.
pub data Step (w : Words) : Model → Model → Type 0 where
  press : (event : KeyEvent) (m : Model) → Step w m (handle_key w event m).0
  resize : (width height : ℕ) (m : Model) → Step w m (set_size w width height m)
  load : (data_ : Data) (m : Model) → Step w m (apply w data_ m)
  switch : (name : Bytes) (data_ : Data) (m : Model) → Step w m (switch_to w name data_ m)
  read : (id : Bytes) (info : Option RowInfo) (m : Model) → Step w m (set_info id info m)
  say : (text : Bytes) (m : Model) → Step w m (set_status w text m)
  refuse : (reason : Bytes) (m : Model) → Step w m (show_blocked w reason m)
  tell : (is_share : Bool) (said : Bytes) (m : Model) → Step w m (told w is_share said m)

pub data Reach (w : Words) (allowed : Bool) : Model → Type 0 where
  start :
      (data_ : Data) (requested : Option Bytes) → Reach w allowed (new w data_ requested allowed)
  after : {m n : Model} → Reach w allowed m → Step w m n → Reach w allowed n

-- The row under the cursor is the selected one, and is drawn where a row is.
abbrev pub IsSelected : Words → Model → Type 0
IsSelected w m =
    0 < length m.visible
    → (index : ℕ) × (get_elem? m.visible m.cursor ≡ some index)
      × (selected_entry m ≡ some (entry_at m.tree index))
      × (0 < (layout w m).list → get_elem? (drawn_rows w m) (m.cursor - drawn_top w m) ≡ some index)

IsWithin-IsSelected : (w : Words) (m : Model) → m.cursor ≤ length m.visible - 1 → IsSelected w m
unfolding selected_entry drawn_rows
IsWithin-IsSelected w m inside some_row =
    let (above, below) = drawn_top_bounds w m in
    let top = drawn_top w m in
    let (index, found) = lt→get_elem? m.visible m.cursor (omega arith) in
    let place : top + (m.cursor - top) ≡ m.cursor = omega arith in
    (
      index,
      found,
      rw found,
      λ room.
          get_elem?-take (layout w m).list (m.cursor - top) (drop top m.visible) (omega arith)
          ∙ (get_elem?-drop top (m.cursor - top) m.visible
              ∙ (ap (get_elem? m.visible) place ∙ found)),
    )

module _ (w : Words) where
  list_char-IsWithin : (c : ℕ) (m : Model) → IsWithin m → IsWithin (list_char w c m).0
  unfolding list_char open_picker move_back move_on
  list_char-IsWithin c m h =
      let back = move_to-IsWithin w (m.cursor - 1) m h in
      let on = move_to-IsWithin w (min (m.cursor + 1) usize_max) m h in
      let opened = expand_selected-IsWithin w m h in
      let left = collapse_or_ascend-IsWithin w m h in ground arith

  list_key-IsWithin : (key : Key) (m : Model) → IsWithin m → IsWithin (list_key w key m).0
  unfolding list_key move_back move_on
  list_key-IsWithin Key.up m h = move_to-IsWithin w _ m h
  list_key-IsWithin Key.down m h = move_to-IsWithin w _ m h
  list_key-IsWithin Key.page_up m h = move_to-IsWithin w _ m h
  list_key-IsWithin Key.page_down m h = move_to-IsWithin w _ m h
  list_key-IsWithin Key.home m h = move_to-IsWithin w _ m h
  list_key-IsWithin Key.end m h = move_to-IsWithin w _ m h
  list_key-IsWithin Key.right m h = expand_selected-IsWithin w m h
  list_key-IsWithin Key.left m h = collapse_or_ascend-IsWithin w m h
  list_key-IsWithin Key.enter m h = elim (Bool-cases (is_some (selected_entry m))) [
    | inl selected ↦ rw selected h
    | inr nothing ↦ rw nothing h
  ]
  list_key-IsWithin (Key.char c) m h = list_char-IsWithin c m h
  list_key-IsWithin Key.esc m h = h
  list_key-IsWithin Key.interrupt m h = h
  list_key-IsWithin Key.other m h = h

  scroll_page-IsWithin : (key : Key) (m : Model) → IsWithin m → IsWithin (scroll_page w key m)
  unfolding scroll_page
  scroll_page-IsWithin key m h = ground arith

  page_key-IsWithin :
      (is_help : Bool) (key : Key) (m : Model) → IsWithin m → IsWithin (page_key w is_help key m).0
  unfolding page_key
  page_key-IsWithin is_help key m h = ground (arith, scroll_page-IsWithin key m h)

  choose-IsWithin : (o : Option ℕ) (m : Model) → IsWithin m → IsWithin (choose o m)
  choose-IsWithin none m h = h
  choose-IsWithin (some cursor) m h = h

  picker_key-IsWithin :
      (cursor : ℕ) (key : Key) (m : Model) → IsWithin m → IsWithin (picker_key cursor key m).0
  unfolding picker_key picker_up picker_down
  picker_key-IsWithin cursor key m h =
      let up = choose-IsWithin (usable_before m cursor) m h in
      let down =
        choose-IsWithin (usable_from m (cursor + 1) (length m.remotes - (cursor + 1))) m h in
      let first = choose-IsWithin (usable_from m 0 (length m.remotes)) m h in
      let last = choose-IsWithin (usable_before m (length m.remotes)) m h in ground arith

  start_flow-IsWithin : (o : Option Flow) (m : Model) → IsWithin m → IsWithin (start_flow o m).0
  start_flow-IsWithin none m h = h
  start_flow-IsWithin (some flow) m h = h

  bar_key-IsWithin :
      (bar : Bar) (key : Key) (m : Model) → IsWithin m → IsWithin (bar_key bar key m).0
  unfolding bar_key
  bar_key-IsWithin bar key m h =
      let started = start_flow-IsWithin (flow_of bar key) m h in ground arith

  mode_key-IsWithin :
      (mode : Mode) (key : Key) (m : Model) → IsWithin m → IsWithin (mode_key w mode key m).0
  unfolding mode_key
  mode_key-IsWithin Mode.list key m h = list_key-IsWithin key m h
  mode_key-IsWithin (Mode.details scroll) key m h = page_key-IsWithin false key m h
  mode_key-IsWithin (Mode.help scroll) key m h = page_key-IsWithin true key m h
  mode_key-IsWithin (Mode.remotes cursor) key m h = picker_key-IsWithin cursor key m h
  mode_key-IsWithin (Mode.bar bar) key m h = bar_key-IsWithin bar key m h

  handle_key-IsWithin :
      (event : KeyEvent) (m : Model) → IsWithin m → IsWithin (handle_key w event m).0
  unfolding handle_key
  handle_key-IsWithin event m h =
      let pressed = mode_key-IsWithin m.mode (key_of_event event) (record m { status = none }) h in
      ground arith

  resized-IsWithin : (width height : ℕ) (m : Model) → IsWithin m → IsWithin (resized width height m)
  unfolding resized
  resized-IsWithin width height m h =
      elim (Bool-cases (too_small (record m { size = (width, height) }))) [
        | inl small ↦ rw small h
        | inr large ↦ rw large h
      ]

  set_size-IsWithin :
      (width height : ℕ) (m : Model) → IsWithin m → IsWithin (set_size w width height m)
  unfolding set_size clamp_scroll ensure_visible
  set_size-IsWithin width height m h = let sized = resized-IsWithin width height m h in ground arith

  Step-IsWithin : {m n : Model} → Step w m n → IsWithin m → IsWithin n
  unfolding apply switch_to set_info set_status show_blocked told
  Step-IsWithin (press event m) h = handle_key-IsWithin event m h
  Step-IsWithin (resize width height m) h = set_size-IsWithin width height m h
  Step-IsWithin (load data_ m) h = rebuild_visible-IsWithin w _ _ data_.summaries refl
  Step-IsWithin (switch name data_ m) h = rebuild_visible-IsWithin w _ _ data_.summaries refl
  Step-IsWithin (read id info m) h = h
  Step-IsWithin (say text m) h = h
  Step-IsWithin (refuse reason m) h = h
  Step-IsWithin (tell is_share said m) h = h

  Reach-IsWithin : {allowed : Bool} {m : Model} → Reach w allowed m → IsWithin m
  unfolding new
  Reach-IsWithin (start data_ requested) = rebuild_visible-IsWithin w none _ data_.summaries refl
  Reach-IsWithin (after r step) = Step-IsWithin step (Reach-IsWithin r)

  -- In every state that events lead to from a new view, the tree is one that `build` makes, the list is
  -- that of the tree and the open parents, and if it has a row, one is selected, which is the one under
  -- the cursor, and if there is room for a row on the screen, which a terminal that is too small has not,
  -- the selected one is among those drawn.
  pub Reach-IsSelected :
      {allowed : Bool} {m : Model} → Reach w allowed m → IsWithin m × IsSelected w m
  Reach-IsSelected {m} r =
      let within = Reach-IsWithin r in (within, IsWithin-IsSelected w m within.inside)
