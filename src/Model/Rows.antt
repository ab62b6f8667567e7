-- ===== src/Model/Rows.antt =====
-- model.rs: the list of conversations, the selection and what is drawn of the list.
pub mod Frame
pub mod Within
pub mod Kept
use volute.Prelude.{
  ℕ, zero, suc, ◌+◌, ◌-◌, min, max, Bool, true, false, not, ◌&&◌, ◌||◌, Option, none, some, List,
  [], ◌∷◌, leb, ltb, ◌==◌, if◌then◌else◌, length, take, drop, get_elem?, get_or, first_some, ◌>>=◌,
}
use volute.Bytes.{Bytes, bytes_eq}
use volute.Tree.{Kind, Entry, Tree, build, no_entry, visible, parent_of, position}
use volute.Transcript.Maps.{lookup}
use volute.Model.{
  RowInfo, Data, Mode, Words, Layout, Model, min_width, min_height, strip_min_height, strip_rows,
  header_rows, notice_max_rows, overlay_max_width,
}
use volute.Model.Remote.{remote_view, initial_remote}

unfoldable pub holds : List Bytes → Bytes → Bool
holds [] id = false
holds (x ∷ xs) id = bytes_eq x id || holds xs id

unfoldable pub removed : List Bytes → Bytes → List Bytes
removed [] id = []
removed (x ∷ xs) id = if bytes_eq x id then removed xs id else x ∷ removed xs id

unfoldable pub entry_at : Tree → ℕ → Entry
entry_at tree index = get_or tree.entries index no_entry

-- Whether an entry's agents are shown.
unfoldable pub is_expanded : List Bytes → Entry → Bool
is_expanded expanded entry = holds expanded entry.summary.id

unfoldable pub selected_entry : Model → Option Entry
unfolding entry_at
selected_entry m = get_elem? m.visible m.cursor >>= (λ index. some (entry_at m.tree index))

unfoldable pub selected_id : Model → Option Bytes
selected_id m = selected_entry m >>= (λ entry. some entry.summary.id)

unfoldable pub wants_info : Model → Option Bytes
wants_info m =
    selected_id m >>= (λ id. elim (lookup m.info id) [ none ↦ some id | some info ↦ none ])

unfoldable pub set_info : Bytes → Option RowInfo → Model → Model
set_info id info m = record m { info = (id, info) ∷ m.info }

abbrev pub flat {ℓ} : {A : Type ℓ} → Option (Option A) → Option A
flat none = none
flat (some o) = o

unfoldable pub selected_info : Model → Option RowInfo
selected_info m = selected_id m >>= (λ id. flat (lookup m.info id))

unfoldable pub too_small : Model → Bool
too_small m = ltb m.size.0 min_width || ltb m.size.1 min_height

abbrev pub or_last : Option ℕ → ℕ → ℕ
or_last none last = last
or_last (some position) last = position

abbrev pub place_of : ℕ → ℕ → List ℕ → Option ℕ
place_of index at [] = none
place_of index at (i ∷ rest) = if i == index then some at else place_of index (at + 1) rest

unfoldable pub row_from : Tree → Bytes → ℕ → List ℕ → Option ℕ
unfolding entry_at
row_from tree id at [] = none
row_from tree id at (index ∷ rest) =
    if bytes_eq (entry_at tree index).summary.id id then some at else row_from tree id (at + 1) rest

-- Where the conversation is listed.
unfoldable pub position_of : Model → Bytes → Option ℕ
unfolding row_from
position_of m id = row_from m.tree id 0 m.visible

unfoldable pub parent_position : Model → Bytes → Option ℕ
unfolding position_of
parent_position m id =
    position m.tree id
    >>= (λ index. parent_of m.tree index)
    >>= (λ parent. position_of m (entry_at m.tree parent).summary.id)

unfoldable pub kept_cursor : Model → Option Bytes → ℕ
unfolding position_of parent_position
kept_cursor m none = min m.cursor (length m.visible - 1)
kept_cursor m (some id) =
    or_last (first_some (position_of m id) (parent_position m id))
      (min m.cursor (length m.visible - 1))

-- `usize::MAX`
abbrev pub usize_max : ℕ
usize_max = 18446744073709551615

module _ (w : Words) where
  unfoldable pub notice_len : Model → ℕ
  notice_len m = elim m.status [
    | none ↦ 0
    | some status ↦ min (w.wrapped_len status (max (m.size.0 - 1) 1)) notice_max_rows
  ]

  unfoldable pub bottom_len : Model → ℕ
  bottom_len m = elim m.mode [ Mode.bar bar ↦ w.bar_len bar (remote_view m) (m.size.0 - 1) | _ ↦ 1 ]

  unfoldable pub layout : Model → Layout
  unfolding too_small notice_len bottom_len
  layout m =
      if too_small m
      then record { header = 0; notice = 0; head = 0; list = 0; strip = 0; bottom = 0 }
      else (let strip = if leb strip_min_height m.size.1 then strip_rows else 0 in
          record {
            header = header_rows;
            notice = notice_len m;
            head = 1;
            list = m.size.1 - (header_rows + notice_len m + 1 + strip + bottom_len m);
            strip = strip;
            bottom = bottom_len m;
          })

  -- `top`: the first listed row that is drawn.
  unfoldable pub drawn_top : Model → ℕ
  drawn_top m =
      let rows = max (layout m).list 1 in
      if ltb m.cursor m.top
      then m.cursor
      else if leb (m.top + rows) m.cursor
      then m.cursor + 1 - rows
      else m.top

  -- `rows`: the listed rows that are drawn, without their texts.
  unfoldable pub drawn_rows : Model → List ℕ
  unfolding drawn_top layout
  drawn_rows m = take (layout m).list (drop (drawn_top m) m.visible)

  unfoldable pub ensure_visible : Model → Model
  unfolding drawn_top
  ensure_visible m =
      let rows = max (layout m).list 1 in
      record m { top = min (drawn_top m) (length m.visible - rows) }

  unfoldable pub restore_cursor : Option Bytes → Model → Model
  unfolding kept_cursor ensure_visible
  restore_cursor keep m =
      if length m.visible == 0
      then record m { cursor = 0; top = 0 }
      else ensure_visible (record m { cursor = kept_cursor m keep })

  unfoldable pub rebuild_visible : Option Bytes → Model → Model
  unfolding restore_cursor
  rebuild_visible keep m =
      restore_cursor (first_some keep (selected_id m))
        (record m { visible = visible m.tree (is_expanded m.expanded) })

  unfoldable pub move_to : ℕ → Model → Model
  unfolding ensure_visible
  move_to position m =
      if length m.visible == 0
      then m
      else ensure_visible (record m { cursor = min position (length m.visible - 1) })

  -- `move_by` of a negative and of a positive number.
  unfoldable pub move_back : ℕ → Model → Model
  move_back delta m = move_to (m.cursor - delta) m

  unfoldable pub move_on : ℕ → Model → Model
  move_on delta m = move_to (min (m.cursor + delta) usize_max) m

  unfoldable pub page : Model → ℕ
  page m = max (layout m).list 2 - 1

  unfoldable pub expand : Kind → Bytes → Model → Model
  expand (Kind.parent_of_agents children) id m =
      if holds m.expanded id
      then m
      else rebuild_visible none (record m { expanded = id ∷ m.expanded })
  expand _ id m = m

  unfoldable pub expand_selected : Model → Model
  unfolding expand
  expand_selected m = elim (selected_entry m) [
    | none ↦ m
    | some entry ↦ expand entry.kind entry.summary.id m
  ]

  unfoldable pub ascend : ℕ → Model → Model
  ascend parent m = elim (place_of parent 0 m.visible) [
    | none ↦ m
    | some position ↦ move_to position m
  ]

  unfoldable pub collapse : Kind → Bytes → Model → Model
  unfolding ascend
  collapse (Kind.parent_of_agents children) id m =
      if holds m.expanded id
      then rebuild_visible none (record m { expanded = removed m.expanded id })
      else m
  collapse (Kind.child parent) id m = ascend parent m
  collapse _ id m = m

  unfoldable pub collapse_or_ascend : Model → Model
  unfolding collapse
  collapse_or_ascend m = elim (selected_entry m) [
    | none ↦ m
    | some entry ↦ collapse entry.kind entry.summary.id m
  ]
