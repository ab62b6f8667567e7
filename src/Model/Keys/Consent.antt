-- ===== src/Model/Keys/Consent.antt =====
-- What the bar of a reachable state vouches for.
use volute.Prelude.{
  ℕ, ◌+◌, ◌-◌, min, length, ◌≡◌, Bool, true, false, Option, none, some, arith, Bool-cases, inl, inr,
  sym, subst, ◌∙◌,
}
use volute.Model.{Data, Flow, Key, KeyEvent, Bar, Mode, Words, Model, key_of_event}
use volute.Model.Rows.{
  set_info, ensure_visible, too_small, move_to, move_back, move_on, usize_max, selected_entry,
  expand_selected, collapse_or_ascend,
}
use volute.Transcript.Maps.{is_some}
use volute.Model.Pages.{scroll_page, resized, without_bar, clamp_scroll, set_size}
use volute.Model.Loads.{new, apply, switch_to, set_status, show_blocked, told}
use volute.Model.Rows.Frame.{
  Keeps, move_to-Keeps, expand_selected-Keeps, collapse_or_ascend-Keeps, rebuild_visible-Keeps,
}
use volute.Model.Bars.Allowed.{
  BarAllowed, share_bar-BarAllowed, unshare_bar-BarAllowed, publish_bar-BarAllowed,
}
use volute.Model.Keys.{
  start_flow, handle_key, mode_key, page_key, list_key, list_char, bar_key, flow_of,
}
use volute.Model.Picker.{
  picker_up, picker_down, usable_before, usable_from, open_picker, picker_key, choose,
}
use volute.Model.Keys.Reach.{
  Step, Reach, start, after, press, resize, load, switch, read, say, refuse, tell,
}

module _ (w : Words) (allowed : Bool) where
  abbrev pub ModeAllowed : Mode → Type 0
  ModeAllowed (Mode.bar bar) = BarAllowed w allowed bar
  ModeAllowed Mode.list = Unit
  ModeAllowed (Mode.details scroll) = Unit
  ModeAllowed (Mode.help scroll) = Unit
  ModeAllowed (Mode.remotes cursor) = Unit

  abbrev pub IsConsenting : Model → Type 0
  IsConsenting m = (m.consent_actions ≡ allowed) × ModeAllowed m.mode

  Keeps-IsConsenting : (m n : Model) → Keeps m n → IsConsenting m → IsConsenting n
  Keeps-IsConsenting m n k h = (k.0 ∙ h.0, subst ModeAllowed (sym k.1) h.1)

  moved : (p : ℕ) (m : Model) → IsConsenting m → IsConsenting (move_to w p m)
  moved p m = Keeps-IsConsenting m (move_to w p m) (move_to-Keeps w p m)

  opened : (m : Model) → IsConsenting m → IsConsenting (expand_selected w m)
  opened m = Keeps-IsConsenting m (expand_selected w m) (expand_selected-Keeps w m)

  closed : (m : Model) → IsConsenting m → IsConsenting (collapse_or_ascend w m)
  closed m = Keeps-IsConsenting m (collapse_or_ascend w m) (collapse_or_ascend-Keeps w m)

  list_char-IsConsenting : (c : ℕ) (m : Model) → IsConsenting m → IsConsenting (list_char w c m).0
  unfolding list_char open_picker move_back move_on
  list_char-IsConsenting c m h =
      let share = share_bar-BarAllowed w allowed m h.0 in
      let unshare = unshare_bar-BarAllowed w allowed m h.0 in
      let publish = publish_bar-BarAllowed w allowed m h.0 in
      let back = moved (m.cursor - 1) m h in
      let on = moved (min (m.cursor + 1) usize_max) m h in
      let right = opened m h in let left = closed m h in ground arith

  list_key-IsConsenting :
      (key : Key) (m : Model) → IsConsenting m → IsConsenting (list_key w key m).0
  unfolding list_key move_back move_on
  list_key-IsConsenting Key.up m h = moved _ m h
  list_key-IsConsenting Key.down m h = moved _ m h
  list_key-IsConsenting Key.page_up m h = moved _ m h
  list_key-IsConsenting Key.page_down m h = moved _ m h
  list_key-IsConsenting Key.home m h = moved _ m h
  list_key-IsConsenting Key.end m h = moved _ m h
  list_key-IsConsenting Key.right m h = opened m h
  list_key-IsConsenting Key.left m h = closed m h
  list_key-IsConsenting Key.enter m h = elim (Bool-cases (is_some (selected_entry m))) [
    | inl selected ↦ rw selected (h.0, tt)
    | inr nothing ↦ rw nothing h
  ]
  list_key-IsConsenting (Key.char c) m h = list_char-IsConsenting c m h
  list_key-IsConsenting Key.esc m h = h
  list_key-IsConsenting Key.interrupt m h = h
  list_key-IsConsenting Key.other m h = h

  page_key-IsConsenting :
      (is_help : Bool) (key : Key) (m : Model)
      → IsConsenting m
      → IsConsenting (page_key w is_help key m).0
  unfolding page_key scroll_page
  page_key-IsConsenting is_help key m h = ground arith

  choose-IsConsenting : (o : Option ℕ) (m : Model) → IsConsenting m → IsConsenting (choose o m)
  choose-IsConsenting none m h = h
  choose-IsConsenting (some cursor) m h = (h.0, tt)

  picker_key-IsConsenting :
      (cursor : ℕ) (key : Key) (m : Model)
      → IsConsenting m
      → IsConsenting (picker_key cursor key m).0
  unfolding picker_key picker_up picker_down
  picker_key-IsConsenting cursor key m h =
      let up = choose-IsConsenting (usable_before m cursor) m h in
      let down =
        choose-IsConsenting (usable_from m (cursor + 1) (length m.remotes - (cursor + 1))) m h in
      let first = choose-IsConsenting (usable_from m 0 (length m.remotes)) m h in
      let last = choose-IsConsenting (usable_before m (length m.remotes)) m h in ground arith

  start_flow-IsConsenting :
      (o : Option Flow) (m : Model) → IsConsenting m → IsConsenting (start_flow o m).0
  start_flow-IsConsenting none m h = h
  start_flow-IsConsenting (some flow) m h = (h.0, tt)

  bar_key-IsConsenting :
      (bar : Bar) (key : Key) (m : Model) → IsConsenting m → IsConsenting (bar_key bar key m).0
  unfolding bar_key
  bar_key-IsConsenting bar key m h =
      let started = start_flow-IsConsenting (flow_of bar key) m h in ground arith

  mode_key-IsConsenting :
      (mode : Mode) (key : Key) (m : Model)
      → IsConsenting m
      → IsConsenting (mode_key w mode key m).0
  unfolding mode_key
  mode_key-IsConsenting Mode.list key m h = list_key-IsConsenting key m h
  mode_key-IsConsenting (Mode.details scroll) key m h = page_key-IsConsenting false key m h
  mode_key-IsConsenting (Mode.help scroll) key m h = page_key-IsConsenting true key m h
  mode_key-IsConsenting (Mode.remotes cursor) key m h = picker_key-IsConsenting cursor key m h
  mode_key-IsConsenting (Mode.bar bar) key m h = bar_key-IsConsenting bar key m h

  handle_key-IsConsenting :
      (event : KeyEvent) (m : Model) → IsConsenting m → IsConsenting (handle_key w event m).0
  unfolding handle_key
  handle_key-IsConsenting event m h =
      let pressed =
        mode_key-IsConsenting m.mode (key_of_event event) (record m { status = none }) h in
      ground arith

  resized-IsConsenting :
      (width height : ℕ) (m : Model) → IsConsenting m → IsConsenting (resized width height m)
  unfolding resized
  resized-IsConsenting width height m h =
      elim (Bool-cases (too_small (record m { size = (width, height) }))) [
        | inl small ↦ rw small (h.0, no_bar m.mode h.1)
        | inr large ↦ rw large h
      ]
    where
      no_bar : (mode : Mode) → ModeAllowed mode → ModeAllowed (without_bar mode)
      no_bar Mode.list h = tt
      no_bar (Mode.details scroll) h = tt
      no_bar (Mode.help scroll) h = tt
      no_bar (Mode.remotes cursor) h = tt
      no_bar (Mode.bar bar) h = tt

  set_size-IsConsenting :
      (width height : ℕ) (m : Model) → IsConsenting m → IsConsenting (set_size w width height m)
  unfolding set_size clamp_scroll ensure_visible
  set_size-IsConsenting width height m h =
      let sized = resized-IsConsenting width height m h in ground arith

  loaded : (data_ : Data) (m : Model) → IsConsenting m → IsConsenting (apply w data_ m)
  unfolding apply
  loaded data_ m h = Keeps-IsConsenting m (apply w data_ m) (rebuild_visible-Keeps w _ _) h

  Step-IsConsenting : {m n : Model} → Step w m n → IsConsenting m → IsConsenting n
  unfolding switch_to set_info set_status show_blocked told
  Step-IsConsenting (press event m) h = handle_key-IsConsenting event m h
  Step-IsConsenting (resize width height m) h = set_size-IsConsenting width height m h
  Step-IsConsenting (load data_ m) h = loaded data_ m h
  Step-IsConsenting (switch name data_ m) h = loaded data_ (record m { remote = some name }) h
  Step-IsConsenting (read id info m) h = h
  Step-IsConsenting (say text m) h = h
  Step-IsConsenting (refuse reason m) h = (h.0, tt)
  Step-IsConsenting (tell is_share said m) h = h

  pub Reach-IsConsenting : {m : Model} → Reach w allowed m → IsConsenting m
  unfolding new
  Reach-IsConsenting (start data_ requested) =
      let kept = rebuild_visible-Keeps w none _ in (kept.0, subst ModeAllowed (sym kept.1) tt)
  Reach-IsConsenting (after r step) = Step-IsConsenting step (Reach-IsConsenting r)
