-- ===== src/Model/Keys.antt =====
-- model.rs: what a key press does, and asks the event loop to do.
pub mod Reach
mod Consent
pub mod Flows
use volute.Prelude.{
  ℕ, zero, suc, ◌+◌, ◌-◌, Bool, true, false, not, ◌&&◌, ◌||◌, Option, none, some, List, [], ◌∷◌,
  ◌==◌, ltb, if◌then◌else◌, length, get_elem?, first_some,
}
use volute.Bytes.{Bytes, bytes_eq}
use volute.Tree.{is_positive}
use volute.Model.{
  RemoteOverview, FutureSharePolicy, Flow, Action, Key, KeyEvent, ShareAsk, Bar, Mode, Words, Model,
  key_of_event,
}
use volute.Transcript.Maps.{is_some}
use volute.Model.Remote.{is_ok}
use volute.Model.Rows.{
  selected_entry, too_small, move_to, move_back, move_on, usize_max, page, expand_selected,
  collapse_or_ascend,
}
use volute.Model.Picker.{
  Pressed, asks_nothing, in_mode, is_usable, usable_at, is_called, place_where, or_zero,
  open_picker, usable_before, usable_from, choose, is_named, switch_of, picker_up, picker_down,
  picker_key,
}
use volute.Model.Pages.{scroll_page}
use volute.Model.Bars.{share_bar, unshare_bar, publish_bar}

-- The flow that a bar lists for a key.
unfoldable pub flow_of : Bar → Key → Option Flow
unfolding is_positive
flow_of (Bar.share id ask) Key.enter =
    if is_positive ask.unshared then some (Flow.share id FutureSharePolicy.private) else none
flow_of (Bar.share id ask) (Key.char c) =
    if c == b'f' then some (Flow.share id FutureSharePolicy.shared) else none
flow_of (Bar.unshare id title shared) Key.enter = some (Flow.unshare id)
flow_of (Bar.publish waiting) Key.enter = some Flow.publish
flow_of Bar.authorize Key.enter = some Flow.authorize
flow_of _ _ = none

unfoldable pub is_esc : Key → Bool
is_esc Key.esc = true
is_esc _ = false

abbrev pub start_flow : Option Flow → Model → Pressed
start_flow none m = asks_nothing m
start_flow (some flow) m = (in_mode Mode.list m, some (Action.run flow))

unfoldable pub bar_key : Bar → Key → Model → Pressed
unfolding flow_of is_esc
bar_key (Bar.blocked reason) key m = asks_nothing (in_mode Mode.list m)
bar_key bar key m =
    if is_esc key then asks_nothing (in_mode Mode.list m) else start_flow (flow_of bar key) m

unfoldable pub is_quit : Key → Bool
is_quit (Key.char c) = c == b'q'
is_quit _ = false

unfoldable pub is_interrupt : Key → Bool
is_interrupt Key.interrupt = true
is_interrupt _ = false

module _ (w : Words) where
  unfoldable pub list_char : ℕ → Model → Pressed
  unfolding open_picker
  list_char c m =
      if c == b'k'
      then asks_nothing (move_back w 1 m)
      else if c == b'j'
      then asks_nothing (move_on w 1 m)
      else if c == b'l'
      then asks_nothing (expand_selected w m)
      else if c == b'h'
      then asks_nothing (collapse_or_ascend w m)
      else if c == b's'
      then asks_nothing (in_mode (Mode.bar (share_bar w m)) m)
      else if c == b'u'
      then asks_nothing (in_mode (Mode.bar (unshare_bar w m)) m)
      else if c == b'p'
      then asks_nothing (in_mode (Mode.bar (publish_bar w m)) m)
      else if c == b'r'
      then asks_nothing (open_picker m)
      else if c == b'?'
      then asks_nothing (in_mode (Mode.help 0) m)
      else if c == b'q'
      then (m, some Action.quit)
      else asks_nothing m

  unfoldable pub list_key : Key → Model → Pressed
  unfolding list_char
  list_key Key.up m = asks_nothing (move_back w 1 m)
  list_key Key.down m = asks_nothing (move_on w 1 m)
  list_key Key.page_up m = asks_nothing (move_back w (page w m) m)
  list_key Key.page_down m = asks_nothing (move_on w (page w m) m)
  list_key Key.home m = asks_nothing (move_to w 0 m)
  list_key Key.end m = asks_nothing (move_to w usize_max m)
  list_key Key.right m = asks_nothing (expand_selected w m)
  list_key Key.left m = asks_nothing (collapse_or_ascend w m)
  list_key Key.enter m =
      asks_nothing (if is_some (selected_entry m) then in_mode (Mode.details 0) m else m)
  list_key (Key.char c) m = list_char c m
  list_key _ m = asks_nothing m

  unfoldable pub page_char : Bool → ℕ → Model → Pressed
  page_char is_help c m =
      if (c == b'q') || ((c == b'?') && is_help)
      then asks_nothing (in_mode Mode.list m)
      else if (c == b'k') || (c == b'j')
      then asks_nothing (scroll_page w (Key.char c) m)
      else asks_nothing m

  unfoldable pub page_key : Bool → Key → Model → Pressed
  unfolding page_char
  page_key is_help Key.enter m = asks_nothing (in_mode Mode.list m)
  page_key is_help Key.esc m = asks_nothing (in_mode Mode.list m)
  page_key is_help Key.up m = asks_nothing (scroll_page w Key.up m)
  page_key is_help Key.down m = asks_nothing (scroll_page w Key.down m)
  page_key is_help Key.page_up m = asks_nothing (scroll_page w Key.page_up m)
  page_key is_help Key.page_down m = asks_nothing (scroll_page w Key.page_down m)
  page_key is_help Key.home m = asks_nothing (scroll_page w Key.home m)
  page_key is_help Key.end m = asks_nothing (scroll_page w Key.end m)
  page_key is_help (Key.char c) m = page_char is_help c m
  page_key is_help _ m = asks_nothing m

  unfoldable pub mode_key : Mode → Key → Model → Pressed
  unfolding list_key page_key picker_key bar_key
  mode_key Mode.list key m = list_key key m
  mode_key (Mode.details scroll) key m = page_key false key m
  mode_key (Mode.help scroll) key m = page_key true key m
  mode_key (Mode.remotes cursor) key m = picker_key cursor key m
  mode_key (Mode.bar bar) key m = bar_key bar key m

  unfoldable pub handle_key : KeyEvent → Model → Pressed
  unfolding mode_key is_quit is_interrupt
  handle_key event m =
      let key = key_of_event event in
      let quiet = record m { status = none } in
      if is_interrupt key
      then (quiet, some Action.quit)
      else if too_small quiet
      then (quiet, if is_quit key then some Action.quit else none)
      else mode_key m.mode key quiet
