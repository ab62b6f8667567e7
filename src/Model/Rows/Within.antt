-- ===== src/Model/Rows/Within.antt =====
-- The cursor stays in the list, and the selected row is drawn.
use volute.Prelude.{
  ℕ, ◌+◌, ◌-◌, ◌≤◌, ◌<◌, ◌≡◌, refl, max, Option, none, some, List, [], ◌∷◌, length, arith, ◌==◌,
  Bool-cases, Option-cases, inl, inr, sym, ap₂, ◌>>=◌, >>=-eq-some, ◌∙◌, first_some,
}
use volute.Bytes.{Bytes}
use volute.Tree.{Tree, ConversationSummary, Kind, build, position, parent_of, visible}
use volute.Model.{Words, Model}
use volute.Model.Rows.{
  holds, entry_at, is_expanded, selected_entry, selected_id, layout, drawn_top, ensure_visible,
  row_from, position_of, parent_position, kept_cursor, restore_cursor, rebuild_visible, move_to,
  place_of, expand, expand_selected, ascend, collapse, collapse_or_ascend,
}

-- The tree is one that `build` makes. The list is that of the tree and the open parents, and the cursor is on a row of it, if there is one.
pub record IsListed (tree : Tree) (expanded : List Bytes) (rows : List ℕ) (cursor : ℕ)
    : Type 0 where
  pub built : (summaries : List ConversationSummary) × (tree ≡ build summaries)
  pub listed : rows ≡ visible tree (is_expanded expanded)
  pub inside : cursor ≤ length rows - 1

abbrev pub IsWithin : Model → Type 0
IsWithin m = IsListed m.tree m.expanded m.visible m.cursor

pub row_from-lt :
    (tree : Tree) (id : Bytes) (at : ℕ) (rows : List ℕ) (p : ℕ)
    → row_from tree id at rows ≡ some p
    → p < at + length rows
unfolding row_from
row_from-lt tree id at [] p h = cc
row_from-lt tree id at (row ∷ rows) p h = ground (arith, row_from-lt tree id (at + 1) rows p)

position_of-le :
    (m : Model) (id : Bytes) (p : ℕ) → position_of m id ≡ some p → p ≤ length m.visible - 1
unfolding position_of
position_of-le m id p h = omega (arith, row_from-lt m.tree id 0 m.visible p h)

parent_position-le :
    (m : Model) (id : Bytes) (p : ℕ) → parent_position m id ≡ some p → p ≤ length m.visible - 1
unfolding parent_position
parent_position-le m id p h =
    let (parent, found, here) =
      >>=-eq-some (position m.tree id >>= (λ index. parent_of m.tree index))
        (λ parent. position_of m (entry_at m.tree parent).summary.id) h in
    position_of-le m (entry_at m.tree parent).summary.id p here

kept_cursor-le : (m : Model) (keep : Option Bytes) → kept_cursor m keep ≤ length m.visible - 1
unfolding kept_cursor
kept_cursor-le m none = omega arith
kept_cursor-le m (some id) = elim (Option-cases (position_of m id)) [
  | inr (p, here) ↦ rw here (position_of-le m id p here)
  | inl missing ↦ elim (Option-cases (parent_position m id)) [
    | inr (p, above) ↦ rw (missing, above) (parent_position-le m id p above)
    | inl none_above ↦ rw (missing, none_above) (omega arith)
  ]
]

module _ (w : Words) where
  -- The selected row is among those drawn.
  pub drawn_top_bounds :
      (m : Model)
      → (drawn_top w m ≤ m.cursor) × (m.cursor < drawn_top w m + max (layout w m).list 1)
  unfolding drawn_top
  drawn_top_bounds m = (ground arith, ground arith)

  restore_cursor-inside :
      (keep : Option Bytes) (m : Model)
      → ((restore_cursor w keep m).cursor ≤ length m.visible - 1)
        × ((restore_cursor w keep m).visible ≡ m.visible)
        × ((restore_cursor w keep m).tree ≡ m.tree)
        × ((restore_cursor w keep m).expanded ≡ m.expanded)
  unfolding restore_cursor ensure_visible
  restore_cursor-inside keep m =
      let kept = kept_cursor-le m keep in
      elim (Bool-cases (length m.visible == 0)) [
        | inl empty ↦ rw empty (omega arith, refl, refl, refl)
        | inr some_rows ↦ rw some_rows (kept, refl, refl, refl)
      ]

  pub rebuild_visible-IsWithin :
      (keep : Option Bytes) (m : Model) (summaries : List ConversationSummary)
      → m.tree ≡ build summaries
      → IsWithin (rebuild_visible w keep m)
  unfolding rebuild_visible
  rebuild_visible-IsWithin keep m summaries built =
      let shown = visible m.tree (is_expanded m.expanded) in
      let (inside, rows, tree, open_) =
        restore_cursor-inside (first_some keep (selected_id m)) (record m { visible = shown }) in
      record {
        built = (summaries, tree ∙ built);
        listed = rows ∙ ap₂ (λ t e. visible t (is_expanded e)) (sym tree) (sym open_);
        inside = rw rows inside;
      }

  pub move_to-IsWithin : (p : ℕ) (m : Model) → IsWithin m → IsWithin (move_to w p m)
  unfolding move_to ensure_visible
  move_to-IsWithin p m h = elim (Bool-cases (length m.visible == 0)) [
    | inl empty ↦ rw empty h
    | inr some_rows ↦
        rw some_rows (record { built = h.built; listed = h.listed; inside = omega arith })
  ]

  expand-IsWithin :
      (kind : Kind) (id : Bytes) (m : Model) → IsWithin m → IsWithin (expand w kind id m)
  unfolding expand
  expand-IsWithin (Kind.parent_of_agents children) id m h =
      elim (Bool-cases (holds m.expanded id)) [
        | inl open_ ↦ rw open_ h
        | inr shut ↦ rw shut (rebuild_visible-IsWithin none _ h.built.0 h.built.1)
      ]
  expand-IsWithin Kind.plain id m h = h
  expand-IsWithin (Kind.child parent) id m h = h
  expand-IsWithin Kind.orphan id m h = h

  pub expand_selected-IsWithin : (m : Model) → IsWithin m → IsWithin (expand_selected w m)
  unfolding expand_selected
  expand_selected-IsWithin m h = elim (Option-cases (selected_entry m)) [
    | inl nothing ↦ rw (nothing, expand_selected) h
    | inr (entry, found) ↦
        rw (found, expand_selected) (expand-IsWithin entry.kind entry.summary.id m h)
  ]

  ascend-IsWithin : (parent : ℕ) (m : Model) → IsWithin m → IsWithin (ascend w parent m)
  unfolding ascend
  ascend-IsWithin parent m h = elim (Option-cases (place_of parent 0 m.visible)) [
    | inl nothing ↦ rw (nothing, ascend) h
    | inr (p, found) ↦ rw (found, ascend) (move_to-IsWithin p m h)
  ]

  collapse-IsWithin :
      (kind : Kind) (id : Bytes) (m : Model) → IsWithin m → IsWithin (collapse w kind id m)
  unfolding collapse
  collapse-IsWithin (Kind.parent_of_agents children) id m h =
      elim (Bool-cases (holds m.expanded id)) [
        | inl open_ ↦ rw open_ (rebuild_visible-IsWithin none _ h.built.0 h.built.1)
        | inr shut ↦ rw shut h
      ]
  collapse-IsWithin Kind.plain id m h = h
  collapse-IsWithin (Kind.child parent) id m h = ascend-IsWithin parent m h
  collapse-IsWithin Kind.orphan id m h = h

  pub collapse_or_ascend-IsWithin : (m : Model) → IsWithin m → IsWithin (collapse_or_ascend w m)
  unfolding collapse_or_ascend
  collapse_or_ascend-IsWithin m h = elim (Option-cases (selected_entry m)) [
    | inl nothing ↦ rw (nothing, collapse_or_ascend) h
    | inr (entry, found) ↦
        rw (found, collapse_or_ascend) (collapse-IsWithin entry.kind entry.summary.id m h)
  ]
