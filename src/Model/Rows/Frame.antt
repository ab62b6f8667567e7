-- ===== src/Model/Rows/Frame.antt =====
-- What moving about the list leaves alone.
use volute.Prelude.{◌∷◌, ℕ, ◌≡◌, refl, Option, none, Option-cases, inl, inr, arith}
use volute.Bytes.{Bytes}
use volute.Tree.{Kind}
use volute.Model.{Words, Model}
use volute.Model.Rows.{
  removed, selected_entry, restore_cursor, rebuild_visible, move_to, ensure_visible, place_of,
  expand, expand_selected, ascend, collapse, collapse_or_ascend,
}

-- The mode stays, and so does the permission to act.
abbrev pub Keeps : Model → Model → Type 0
Keeps m n = (n.consent_actions ≡ m.consent_actions) × (n.mode ≡ m.mode)

module _ (w : Words) where
  pub rebuild_visible-Keeps : (keep : Option Bytes) (m : Model) → Keeps m (rebuild_visible w keep m)
  unfolding rebuild_visible restore_cursor ensure_visible
  rebuild_visible-Keeps keep m = ground arith

  pub move_to-Keeps : (p : ℕ) (m : Model) → Keeps m (move_to w p m)
  unfolding move_to ensure_visible
  move_to-Keeps p m = ground arith

  expand-Keeps : (kind : Kind) (id : Bytes) (m : Model) → Keeps m (expand w kind id m)
  unfolding expand
  expand-Keeps (Kind.parent_of_agents children) id m =
      let rebuilt = rebuild_visible-Keeps none (record m { expanded = id ∷ m.expanded }) in
      ground arith
  expand-Keeps Kind.plain id m = (refl, refl)
  expand-Keeps (Kind.child parent) id m = (refl, refl)
  expand-Keeps Kind.orphan id m = (refl, refl)

  pub expand_selected-Keeps : (m : Model) → Keeps m (expand_selected w m)
  unfolding expand_selected
  expand_selected-Keeps m = elim (Option-cases (selected_entry m)) [
    | inl nothing ↦ rw (nothing, expand_selected) (refl, refl)
    | inr (entry, found) ↦ rw (found, expand_selected) (expand-Keeps entry.kind entry.summary.id m)
  ]

  ascend-Keeps : (parent : ℕ) (m : Model) → Keeps m (ascend w parent m)
  unfolding ascend
  ascend-Keeps parent m = elim (Option-cases (place_of parent 0 m.visible)) [
    | inl nothing ↦ rw (nothing, ascend) (refl, refl)
    | inr (p, found) ↦ rw (found, ascend) (move_to-Keeps p m)
  ]

  collapse-Keeps : (kind : Kind) (id : Bytes) (m : Model) → Keeps m (collapse w kind id m)
  unfolding collapse
  collapse-Keeps (Kind.parent_of_agents children) id m =
      let rebuilt = rebuild_visible-Keeps none (record m { expanded = removed m.expanded id }) in
      ground arith
  collapse-Keeps Kind.plain id m = (refl, refl)
  collapse-Keeps (Kind.child parent) id m = ascend-Keeps parent m
  collapse-Keeps Kind.orphan id m = (refl, refl)

  pub collapse_or_ascend-Keeps : (m : Model) → Keeps m (collapse_or_ascend w m)
  unfolding collapse_or_ascend
  collapse_or_ascend-Keeps m = elim (Option-cases (selected_entry m)) [
    | inl nothing ↦ rw (nothing, collapse_or_ascend) (refl, refl)
    | inr (entry, found) ↦
        rw (found, collapse_or_ascend) (collapse-Keeps entry.kind entry.summary.id m)
  ]
