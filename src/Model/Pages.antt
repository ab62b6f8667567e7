-- ===== src/Model/Pages.antt =====
-- model.rs: the pages over the list, their scrolling, and a change of the terminal's size.
use volute.Prelude.{ℕ, ◌+◌, ◌-◌, min, max, ◌&&◌, none, some, ◌==◌, if◌then◌else◌, get_elem?}
use volute.Model.{Key, Mode, Words, Model, header_rows, overlay_max_width}
use volute.Model.Remote.{remote_view}
use volute.Model.Rows.{selected_info, too_small, bottom_len, ensure_visible}

abbrev pub without_bar : Mode → Mode
without_bar (Mode.bar bar) = Mode.list
without_bar mode = mode

unfoldable pub resized : ℕ → ℕ → Model → Model
resized width height m =
    let m' = record m { size = (width, height) } in
    if too_small m' then record m' { mode = without_bar m.mode } else m'

module _ (w : Words) where
  -- The width and the height of `overlay_text_area`.
  unfoldable pub area_width : Model → ℕ
  area_width m = min m.size.0 overlay_max_width - 4

  unfoldable pub area_height : Model → ℕ
  area_height m = m.size.1 - (header_rows + bottom_len w m) - 2

  unfoldable pub page_lines : Model → ℕ
  unfolding area_width
  page_lines m = elim m.mode [
    | Mode.details scroll ↦ elim (get_elem? m.visible m.cursor) [
      | none ↦ 0
      | some index ↦ w.details_len m.tree index (selected_info m) (remote_view m) (area_width m)
    ]
    | Mode.help scroll ↦ w.help_len (area_width m)
    | _ ↦ 0
  ]

  unfoldable pub max_scroll : Model → ℕ
  unfolding page_lines area_height
  max_scroll m = page_lines m - area_height m

  unfoldable pub clamp_scroll : Model → Model
  unfolding max_scroll
  clamp_scroll m = elim m.mode [
    | Mode.details scroll ↦ record m { mode = Mode.details (min scroll (max_scroll m)) }
    | Mode.help scroll ↦ record m { mode = Mode.help (min scroll (max_scroll m)) }
    | _ ↦ m
  ]

  -- What a key makes of the first line shown, of pages of `page` lines.
  unfoldable pub scrolled : Key → ℕ → ℕ → ℕ → ℕ
  scrolled Key.up page last scroll = scroll - 1
  scrolled Key.down page last scroll = min (scroll + 1) last
  scrolled Key.page_up page last scroll = scroll - page
  scrolled Key.page_down page last scroll = min (scroll + page) last
  scrolled Key.home page last scroll = 0
  scrolled Key.end page last scroll = last
  scrolled (Key.char c) page last scroll =
      if c == b'k' then scroll - 1 else if c == b'j' then min (scroll + 1) last else scroll
  scrolled _ page last scroll = scroll

  unfoldable pub scroll_page : Key → Model → Model
  unfolding scrolled max_scroll
  scroll_page key m =
      let page = max (area_height m - 1) 1 in
      elim m.mode [
        | Mode.details scroll ↦ record m {
          mode = Mode.details (scrolled key page (max_scroll m) scroll);
        }
        | Mode.help scroll ↦ record m { mode = Mode.help (scrolled key page (max_scroll m) scroll) }
        | _ ↦ m
      ]

  unfoldable pub set_size : ℕ → ℕ → Model → Model
  unfolding clamp_scroll resized
  set_size width height m =
      if (width == m.size.0) && (height == m.size.1)
      then m
      else clamp_scroll (ensure_visible w (resized width height m))
