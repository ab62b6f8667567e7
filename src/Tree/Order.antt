-- ===== src/Tree/Order.antt =====
-- The tops and the agents of each are in order.
mod Keys
pub use Keys.{IsEarlier, IsAtMost, ByKeys, IsNewest, IsOneOf}
use volute.Tree.Order.Keys.{
  leb_keys-total, leb_keys_trans, leb_keys-crossed, leb_keys-ByKeys, newest_of-IsNewest,
}
use volute.Prelude.{
  ℕ, ◌<◌, ◌≡◌, refl, ap, ◌∙◌, Bool, Option-cases, none, some, true, false, List, [], ◌∷◌, length,
  replicate, get_or, arith, All, Bool-cases, inl, inr,
}
use volute.Bytes.{Bytes}
use volute.Tree.{
  Tree, ℤ, pos, negsuc, leb_int, leb_bytes, leb_keys, insert_by, sort_by, ConversationSummary,
  with_thoughts, summary_at, spawned_before, listed_before, newest_of, children_lists,
  push_children, parents_of, build, tops_from, children_of, children_in, kind_of,
}
use volute.Tree.Count.{get_or-sort_all}
use volute.Tree.Parents.{parents}
use volute.Tree.Once.{kind_lem, children_of_lem, order_tops}

-- Each element comes before all that follow it, by a test and by a relation.
abbrev IsSorted : (ℕ → ℕ → Bool) → List ℕ → Type 0
IsSorted le [] = Unit
IsSorted le (x ∷ xs) = All (λ y. le x y ≡ true) xs × IsSorted le xs

abbrev pub InOrder : (ℕ → ℕ → Type 0) → List ℕ → Type 0
InOrder R [] = Unit
InOrder R (x ∷ xs) = All (R x) xs × InOrder R xs

-- A test that orders any two elements.
pub record IsOrder {ℓ} {A : Type ℓ} (le : A → A → Bool) : Type ℓ where
  pub total : (x y : A) → le x y ≡ false → le y x ≡ true
  pub trans : (x y z : A) → le x y ≡ true → le y z ≡ true → le x z ≡ true

module _ (le : ℕ → ℕ → Bool) (order : IsOrder le) where
  All-trans :
      (x y : ℕ) (xs : List ℕ)
      → le x y ≡ true
      → All (λ z. le y z ≡ true) xs
      → All (λ z. le x z ≡ true) xs
  All-trans x y [] h hs = tt
  All-trans x y (z ∷ zs) h hs = (order.trans x y z h hs.0, All-trans x y zs h hs.1)

  All-insert_by :
      (x y : ℕ) (xs : List ℕ)
      → le y x ≡ true
      → All (λ z. le y z ≡ true) xs
      → All (λ z. le y z ≡ true) (insert_by le x xs)
  unfolding insert_by
  All-insert_by x y [] h hs = (h, tt)
  All-insert_by x y (z ∷ zs) h hs = elim (Bool-cases (le x z)) [
    | inl first ↦ rw first (h, hs)
    | inr later ↦ rw later (hs.0, All-insert_by x y zs h hs.1)
  ]

  insert_by-IsSorted : (x : ℕ) (xs : List ℕ) → IsSorted le xs → IsSorted le (insert_by le x xs)
  unfolding insert_by
  insert_by-IsSorted x [] h = (tt, tt)
  insert_by-IsSorted x (y ∷ ys) h = elim (Bool-cases (le x y)) [
    | inl first ↦ rw first ((first, All-trans x y ys first h.0), h)
    | inr later ↦
        rw later (All-insert_by x y ys (order.total x y later) h.0, insert_by-IsSorted x ys h.1)
  ]

  pub sort_by-IsSorted : (xs : List ℕ) → IsSorted le (sort_by le xs)
  unfolding sort_by
  sort_by-IsSorted [] = tt
  sort_by-IsSorted (x ∷ xs) = insert_by-IsSorted x (sort_by le xs) (sort_by-IsSorted xs)

module _ (listed : List ConversationSummary) where
  spawned_before-IsOrder : IsOrder (spawned_before listed)
  unfolding spawned_before
  spawned_before-IsOrder =
      let time : ℕ → ℤ = λ x. (summary_at listed x).first_activity in
      let id : ℕ → Bytes = λ x. (summary_at listed x).id in
      record {
        total = λ x y. leb_keys-total (time x) (time y) (id x) (id y);
        trans = λ x y z. leb_keys_trans (time x) (time y) (time z) (id x) (id y) (id z);
      }

  listed_before-IsOrder : (children : List (List ℕ)) → IsOrder (listed_before listed children)
  unfolding listed_before
  listed_before-IsOrder children =
      let time : ℕ → ℤ = λ x. newest_of listed (get_or children x []) x in
      let id : ℕ → Bytes = λ x. (summary_at listed x).id in
      record {
        total = λ x y. leb_keys-total (time y) (time x) (id x) (id y);
        trans = λ x y z. leb_keys-crossed (time x) (time y) (time z) (id x) (id y) (id z);
      }

  children_lists-IsSorted :
      (p : ℕ) → IsSorted (spawned_before listed) (get_or (children_lists listed) p [])
  unfolding children_lists
  children_lists-IsSorted p = rw get_or-sort_all (
      sort_by-IsSorted (spawned_before listed) spawned_before-IsOrder
        (get_or (push_children 0 (parents_of listed) (replicate (length listed) [])) p []))

-- One is spawned before the other, or with it and its id is no greater.
abbrev pub Spawned : List ConversationSummary → ℕ → ℕ → Type 0
Spawned listed a b =
    let s = summary_at listed a in
    let t = summary_at listed b in ByKeys s.first_activity s.id t.first_activity t.id

-- The latest activity of one and its agents is later than that of the other, or as late and its id is no
-- greater.
abbrev pub Newer : Tree → List ConversationSummary → ℕ → ℕ → Type 0
Newer tree listed a b =
    (s t : ℤ) × IsNewest listed (children_of tree a) a s
    × IsNewest listed (children_of tree b) b t
    × ByKeys t (summary_at listed a).id s (summary_at listed b).id

-- Of elements with a property.
IsSorted-InOrder :
    (le : ℕ → ℕ → Bool) (P : ℕ → Type 0) (R : ℕ → ℕ → Type 0)
    → ((x y : ℕ) → P x → P y → le x y ≡ true → R x y)
    → (xs : List ℕ) → IsSorted le xs
    → All P xs
    → InOrder R xs
IsSorted-InOrder le P R step [] sorted all = tt
IsSorted-InOrder le P R step (x ∷ xs) sorted all =
    (after xs sorted.0 all.1, IsSorted-InOrder le P R step xs sorted.1 all.1)
  where
    after : (ys : List ℕ) → All (λ y. le x y ≡ true) ys → All P ys → All (R x) ys
    after [] les ps = tt
    after (y ∷ ys) les ps = (step x y all.0 ps.0 les.0, after ys les.1 ps.1)

All-refl : (xs : List ℕ) → All (λ x. x ≡ x) xs
All-refl [] = tt
All-refl (x ∷ xs) = (refl, All-refl xs)

InOrder-Spawned :
    (listed : List ConversationSummary) (xs : List ℕ)
    → IsSorted (spawned_before listed) xs
    → InOrder (Spawned listed) xs
unfolding spawned_before
InOrder-Spawned listed xs sorted =
    IsSorted-InOrder (spawned_before listed) (λ x. x ≡ x) (Spawned listed)
      (λ x y p q. leb_keys-ByKeys _ _ _ _) xs sorted (All-refl xs)

-- Two tops as the code compares them.
Newer-tops :
    (summaries : List ConversationSummary) (x y : ℕ)
    → let listed = with_thoughts summaries in
      (x < length listed) × (get_or (parents listed) x none ≡ none)
      → (y < length listed) × (get_or (parents listed) y none ≡ none)
      → listed_before listed (children_lists listed) x y ≡ true
      → Newer (build summaries) listed x y
unfolding listed_before
Newer-tops summaries x y h k le =
    let listed = with_thoughts summaries in
    let newest : (i : ℕ) → ℤ = λ i. newest_of listed (get_or (children_lists listed) i []) i in
    (
      newest x,
      newest y,
      rw (children_of_lem summaries x h.0 h.1)
          (newest_of-IsNewest listed (get_or (children_lists listed) x []) x),
      rw (children_of_lem summaries y k.0 k.1)
          (newest_of-IsNewest listed (get_or (children_lists listed) y []) y),
      leb_keys-ByKeys _ _ _ _ le,
    )

child_has_none :
    (summaries : List ConversationSummary) (p : ℕ) {q : ℕ}
    → p < length (with_thoughts summaries)
    → get_or (parents (with_thoughts summaries)) p none ≡ some q
    → children_of (build summaries) p ≡ []
unfolding children_of kind_of
child_has_none summaries p h below = ap children_in (kind_lem summaries p h) ∙ rw below refl

order-IsSorted :
    (summaries : List ConversationSummary)
    → let listed = with_thoughts summaries in
      IsSorted (listed_before listed (children_lists listed)) (build summaries).order
unfolding build
order-IsSorted summaries =
    let listed = with_thoughts summaries in
    sort_by-IsSorted _ (listed_before-IsOrder listed (children_lists listed))
      (tops_from 0 (parents_of listed))

-- The tops of the tree that `build` makes stand with the latest activity, theirs or that of an agent
-- of theirs, first, and by id where it is the same; and the agents of every entry stand with the
-- earliest first activity first, and by id where it is the same.
pub build-InOrder :
    (summaries : List ConversationSummary)
    → InOrder (Newer (build summaries) (with_thoughts summaries)) (build summaries).order
      × ((p : ℕ)
          → p < length (with_thoughts summaries)
          → InOrder (Spawned (with_thoughts summaries)) (children_of (build summaries) p))
build-InOrder summaries =
    let listed = with_thoughts summaries in
    (
      IsSorted-InOrder (listed_before listed (children_lists listed)) _ _ (Newer-tops summaries)
          (build summaries).order (order-IsSorted summaries) (order_tops summaries),
      λ p h. elim (Option-cases (get_or (parents listed) p none)) [
        | inl top ↦ rw (children_of_lem summaries p h top) (
            InOrder-Spawned listed (get_or (children_lists listed) p [])
              (children_lists-IsSorted listed p))
        | inr (q, below) ↦ rw (child_has_none summaries p h below) tt
      ],
    )
