-- ===== src/Model/Rows/Kept.antt =====
-- A reload keeps the selection on the same conversation.
use volute.Prelude.{
  zero, suc, ℕ, ◌+◌, ◌<◌, ◌≡◌, refl, true, false, Option, none, some, List, [], ◌∷◌, length,
  get_elem?, arith, ◌==◌, Bool-cases, Option-cases, inl, inr, ap, ◌∙◌, some-eq, ◌>>=◌,
}
use volute.Bytes.{Bytes, bytes_eq}
use volute.Bytes.Laws.{bytes_eq→≡, bytes_eq_refl}
use volute.Tree.{Tree, position, parent_of, build, visible}
use volute.Model.{Words, Model, Data}
use volute.Model.Rows.{
  entry_at, is_expanded, selected_entry, selected_id, row_from, position_of, parent_position,
  kept_cursor, ensure_visible, restore_cursor, rebuild_visible,
}
use volute.Model.Rows.Within.{row_from-lt}
use volute.Model.Loads.{apply}

-- A row of the list is of the conversation.
pub record IsListedAs (tree : Tree) (rows : List ℕ) (id : Bytes) : Type 0 where
  pub place : ℕ
  pub index : ℕ
  pub row : get_elem? rows place ≡ some index
  pub named : (entry_at tree index).summary.id ≡ id

-- The conversation to select after a reload: the one selected before, if it is still in the list, or its
-- parent, if it is only hidden below it.
pub data Stays (tree : Tree) (rows : List ℕ) (id : Bytes) : Bytes → Type 0 where
  shown : IsListedAs tree rows id → Stays tree rows id id
  hidden :
      (index parent : ℕ)
      → ¬ IsListedAs tree rows id
      → position tree id ≡ some index
      → parent_of tree index ≡ some parent
      → IsListedAs tree rows (entry_at tree parent).summary.id
      → Stays tree rows id (entry_at tree parent).summary.id

row_from-some :
    (tree : Tree) (id : Bytes) (at : ℕ) (rows : List ℕ) (k index : ℕ)
    → get_elem? rows k ≡ some index
    → (entry_at tree index).summary.id ≡ id
    → (p : ℕ) × (row_from tree id at rows ≡ some p)
unfolding row_from
row_from-some tree id at [] k index h named = cc
row_from-some tree id at (row ∷ rows) zero index h named =
    let same : bytes_eq (entry_at tree row).summary.id id ≡ true =
      ap (λ i. bytes_eq (entry_at tree i).summary.id id) (some-eq h)
      ∙ (ap (λ name. bytes_eq name id) named ∙ bytes_eq_refl id) in
    (at, rw same)
row_from-some tree id at (row ∷ rows) (suc k) index h named =
    elim (Bool-cases (bytes_eq (entry_at tree row).summary.id id)) [
      | inl same ↦ (at, rw same)
      | inr other ↦ rw other (row_from-some tree id (at + 1) rows k index h named)
    ]

-- The row that a search finds is of the conversation.
row_from-get_elem? :
    (tree : Tree) (id : Bytes) (at : ℕ) (rows : List ℕ) (p : ℕ)
    → row_from tree id at rows ≡ some p
    → (k : ℕ) × (index : ℕ) × (p ≡ at + k)
      × (get_elem? rows k ≡ some index)
      × ((entry_at tree index).summary.id ≡ id)
unfolding row_from
row_from-get_elem? tree id at [] p h = cc
row_from-get_elem? tree id at (row ∷ rows) p h =
    elim (Bool-cases (bytes_eq (entry_at tree row).summary.id id)) [
      | inl same ↦ (0, row, ground arith, refl, bytes_eq→≡ _ id same)
      | inr other ↦
          let rest : row_from tree id (at + 1) rows ≡ some p = ground arith in
          let (k, index, place, found, named) = row_from-get_elem? tree id (at + 1) rows p rest in
          (suc k, index, omega arith, found, named)
    ]

selected_at :
    (m : Model) (id : Bytes) (p : ℕ)
    → m.cursor ≡ p
    → position_of m id ≡ some p
    → selected_id m ≡ some id
unfolding selected_id selected_entry position_of
selected_at m id p at h =
    let (k, index, place, found, named) = row_from-get_elem? m.tree id 0 m.visible p h in
    let e : m.cursor ≡ k = omega arith in
    let row : get_elem? m.visible m.cursor ≡ some index = ap (get_elem? m.visible) e ∙ found in
    ap (λ o. (o >>= (λ i. some (entry_at m.tree i))) >>= (λ entry. some entry.summary.id)) row
    ∙ ap some named

absent→none :
    (tree : Tree) (rows : List ℕ) (id : Bytes)
    → ¬ IsListedAs tree rows id
    → row_from tree id 0 rows ≡ none
absent→none tree rows id absent = elim (Option-cases (row_from tree id 0 rows)) [
  | inl nothing ↦ nothing
  | inr (p, at) ↦
      let (k, index, place, found, named) = row_from-get_elem? tree id 0 rows p at in
      absurd (absent (record { place = k; index = index; row = found; named = named }))
]

module _ (w : Words) where
  restored :
      (m : Model) (keep : Option Bytes)
      → 0 < length m.visible
      → restore_cursor w keep m ≡ ensure_visible w (record m { cursor = kept_cursor m keep })
  unfolding restore_cursor
  restored m keep h =
      let some_rows : (length m.visible == 0) ≡ false = ground arith in rw some_rows refl

  rebuilt :
      (b : Model) (id name : Bytes) (p : ℕ)
      → kept_cursor b (some id) ≡ p
      → position_of b name ≡ some p
      → selected_id (restore_cursor w (some id) b) ≡ some name
  unfolding ensure_visible position_of
  rebuilt b id name p at found =
      let some_row : 0 < length b.visible =
        omega (arith, row_from-lt b.tree name 0 b.visible p found) in
      ap selected_id (restored b (some id) some_row)
      ∙ selected_at (ensure_visible w (record b { cursor = kept_cursor b (some id) })) name p at
          found

  -- The selection that `rebuild_visible` is to keep goes where it stays.
  restore_cursor-Stays :
      (b : Model) (id name : Bytes)
      → Stays b.tree b.visible id name
      → selected_id (restore_cursor w (some id) b) ≡ some name
  unfolding kept_cursor position_of parent_position
  restore_cursor-Stays b id name (shown s) =
      let (p, found) = row_from-some b.tree id 0 b.visible s.place s.index s.row s.named in
      rebuilt b id id p (rw found refl) found
  restore_cursor-Stays b id name (hidden index parent absent at above s) =
      let parent_id = (entry_at b.tree parent).summary.id in
      let (p, found) = row_from-some b.tree parent_id 0 b.visible s.place s.index s.row s.named in
      let missing : row_from b.tree id 0 b.visible ≡ none =
        absent→none b.tree b.visible id absent in
      rebuilt b id parent_id p (rw (missing, at, above, found) refl) found

  -- After `apply`, the conversation that was selected is selected again if it is in the new list, and its
  -- parent if it is not, but is in the new tree below a parent that is in the list.
  pub apply-Stays :
      (data_ : Data) (m : Model) (id name : Bytes)
      → selected_id m ≡ some id
      → Stays
          (build data_.summaries)
          (visible (build data_.summaries) (is_expanded m.expanded))
          id
          name
      → selected_id (apply w data_ m) ≡ some name
  unfolding apply rebuild_visible
  apply-Stays data_ m id name selected stays =
      let b = record m {
        remotes = data_.remotes;
        counts = data_.counts;
        tree = build data_.summaries;
        visible = visible (build data_.summaries) (is_expanded m.expanded);
        info = [];
      } in
      rw selected (restore_cursor-Stays b id name stays)
