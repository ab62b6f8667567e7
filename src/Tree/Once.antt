-- ===== src/Tree/Once.antt =====
-- Every listed conversation is shown once, at its own place or under its parent.
use volute.Prelude.{
  ℕ, zero, suc, ◌+◌, ◌≤◌, ◌<◌, ◌≡◌, refl, sym, ap, ◌∙◌, Bool, true, false, Option, none, some, List,
  [], ◌∷◌, ◌==◌, if◌then◌else◌, length, get_or, arith, All, Bool-cases, Option-cases, inl, inr,
}
use volute.Tree.{
  ConversationSummary, Entry, Tree, build, with_thoughts, listed_before, tops_from, kind_of,
  no_summary, no_entry, children_in, children_of, parent_in, parent_of, visible_from, visible,
}
use volute.Tree.Count.{
  one_if, count, points_to, is_none, parent_at, count-append, count-sort_by, sort_by-All,
  parent_at-get_or, count-tops_from,
}
use volute.Tree.Parents.{
  parents, children, parent-IsTop, length-parents, length-children, count-children,
  get_or-entries_from, parent_in-kind_of, children_in-kind_of,
}

All-weaken {ℓ κ} :
    {A : Type ℓ} (P Q : A → Type κ) (xs : List A) → ((x : A) → P x → Q x) → All P xs → All Q xs
All-weaken P Q [] f h = tt
All-weaken P Q (x ∷ xs) f h = (f x h.0, All-weaken P Q xs f h.1)

-- A place with no parent, of those from `at` on.
abbrev IsTopFrom : ℕ → List (Option ℕ) → ℕ → Type 0
IsTopFrom at os t = (at ≤ t) × (t < at + length os) × (parent_at at os t ≡ none)

IsTopFrom-suc :
    (at : ℕ) (o : Option ℕ) (os : List (Option ℕ)) (t : ℕ)
    → IsTopFrom (at + 1) os t
    → IsTopFrom at (o ∷ os) t
IsTopFrom-suc at o os t h =
    let off : (at == t) ≡ false = ground arith in
    (omega (arith, h.0), omega (arith, h.1), rw off h.2)

tops_from-All : (at : ℕ) (os : List (Option ℕ)) → All (IsTopFrom at os) (tops_from at os)
unfolding tops_from
tops_from-All at [] = tt
tops_from-All at (none ∷ os) =
    let here : (at == at) ≡ true = ground arith in
    (
      (omega arith, omega arith, rw here),
      All-weaken _ _ (tops_from (at + 1) os) (IsTopFrom-suc at none os) (tops_from-All (at + 1) os),
    )
tops_from-All at (some p ∷ os) =
    All-weaken _ _ (tops_from (at + 1) os) (IsTopFrom-suc at (some p) os)
      (tops_from-All (at + 1) os)

-- The sum of `n` times `x`.
abbrev times : ℕ → ℕ → ℕ
times zero x = 0
times (suc n) x = x + times n x

times-zero : (n : ℕ) → times n 0 ≡ 0
times-zero zero = refl
times-zero (suc n) = omega (arith, times-zero n)

visible_from-count :
    (tree : Tree) (expanded : Entry → Bool) (i p x : ℕ) (tops : List ℕ)
    → All
        (λ t.
          count i (if expanded (get_or tree.entries t no_entry) then children_of tree t else [])
          ≡ (if p == t then x else 0))
        tops
    → count i (visible_from tree expanded tops) ≡ count i tops + times (count p tops) x
unfolding visible_from
visible_from-count tree expanded i p x [] h = omega arith
visible_from-count tree expanded i p x (t ∷ tops) h =
    let more = visible_from-count tree expanded i p x tops h.1 in
    let under = if expanded (get_or tree.entries t no_entry) then children_of tree t else [] in
    let both = count-append i under (visible_from tree expanded tops) in
    elim (Bool-cases (p == t)) [
      | inl same ↦
          let here : (t == p) ≡ true = ground arith in
          let next : 1 + count p tops ≡ suc (count p tops) = omega arith in
          let first = rw same at h.0 in rw (here, next) (omega (arith, both, more, first))
      | inr other ↦
          let off : (t == p) ≡ false = ground arith in
          let next : 0 + count p tops ≡ count p tops = omega arith in
          let first = rw other at h.0 in rw (off, next) (omega (arith, both, more, first))
    ]

-- How often a conversation is shown: once at its own place, or if its parent is open.
abbrev pub times_shown : Tree → (Entry → Bool) → Option ℕ → ℕ
times_shown tree expanded none = 1
times_shown tree expanded (some p) = one_if (expanded (get_or tree.entries p no_entry))

swap_tests :
    (open_ : ℕ → Bool) (p t : ℕ)
    → if◌then◌else◌ {A = ℕ} (open_ t) (one_if (p == t)) 0 ≡ (if p == t then one_if (open_ p) else 0)
swap_tests open_ p t = elim (Bool-cases (p == t)) [
  | inl same ↦ let e : t ≡ p = ground arith in rw (same, e)
  | inr other ↦ elim (Bool-cases (open_ t)) [
    | inl shown ↦ rw (shown, other)
    | inr hidden ↦ rw (hidden, other)
  ]
]

no_tests : (b c : Bool) → if◌then◌else◌ {A = ℕ} b 0 0 ≡ (if c then 0 else 0)
no_tests true true = refl
no_tests true false = refl
no_tests false true = refl
no_tests false false = refl

module _ (summaries : List ConversationSummary) where
  abbrev listed : List ConversationSummary
  listed = with_thoughts summaries

  abbrev tree : Tree
  tree = build summaries

  pub kind_lem :
      (i : ℕ)
      → i < length listed
      → (get_or tree.entries i no_entry).kind
        ≡ kind_of
            (get_or listed i no_summary)
            (get_or (parents listed) i none)
            (get_or (children listed) i [])
  unfolding build
  kind_lem i h =
      get_or-entries_from listed (parents listed) (children listed) i (length-parents listed)
        (length-children listed) h

  parent_of_lem : (i : ℕ) → i < length listed → parent_of tree i ≡ get_or (parents listed) i none
  unfolding parent_of
  parent_of_lem i h = ap parent_in (kind_lem i h) ∙ parent_in-kind_of _ _ _

  pub children_of_lem :
      (t : ℕ)
      → t < length listed
      → get_or (parents listed) t none ≡ none
      → children_of tree t ≡ get_or (children listed) t []
  unfolding children_of
  children_of_lem t h top = ap children_in (kind_lem t h) ∙ rw top (children_in-kind_of _ _)

  -- What a top shows of a conversation.
  under_top :
      (expanded : Entry → Bool) (i t : ℕ)
      → t < length listed
      → get_or (parents listed) t none ≡ none
      → count i (if expanded (get_or tree.entries t no_entry) then children_of tree t else []) ≡ (
          if expanded (get_or tree.entries t no_entry)
          then one_if (points_to (get_or (parents listed) i none) t)
          else 0)
  under_top expanded i t h top = elim (Bool-cases (expanded (get_or tree.entries t no_entry))) [
    | inl open_ ↦ rw (open_, children_of_lem t h top) (count-children listed i t h)
    | inr shut ↦ rw shut
  ]

  pub order_tops :
      All (λ t. (t < length listed) × (get_or (parents listed) t none ≡ none)) tree.order
  unfolding build
  order_tops =
      sort_by-All _ (listed_before listed (children listed)) (tops_from 0 (parents listed)) (
        All-weaken _ _ (tops_from 0 (parents listed))
          (λ t h.
            let zero_add : 0 + t ≡ t = omega arith in
            (
              omega (arith, h.1, length-parents listed),
              sym (rw zero_add at (parent_at-get_or 0 (parents listed) t)) ∙ h.2,
            ))
          (tops_from-All 0 (parents listed)))

  order_count :
      (i : ℕ)
      → i < length listed
      → count i tree.order ≡ one_if (is_none (get_or (parents listed) i none))
  unfolding build
  order_count i h =
      let zero_add : 0 + i ≡ i = omega arith in
      count-sort_by (listed_before listed (children listed)) i (tops_from 0 (parents listed))
      ∙ (count-tops_from 0 (parents listed) i (omega arith)
            (omega (arith, h, length-parents listed))
          ∙ ap (λ o. one_if (is_none o)) (rw zero_add at (parent_at-get_or 0 (parents listed) i)))

  count-visible :
      (expanded : Entry → Bool) (i : ℕ)
      → i < length listed
      → count i (visible tree expanded) ≡ times_shown tree expanded (get_or (parents listed) i none)
  unfolding visible
  count-visible expanded i h =
      let opened : ℕ → Bool = λ t. expanded (get_or tree.entries t no_entry) in
      elim (Option-cases (get_or (parents listed) i none)) [
        | inl top ↦
            let counted = visible_from-count tree expanded i 0 0 tree.order (
              All-weaken _ _ tree.order
                (λ t k. under_top expanded i t k.0 k.1 ∙ rw top (no_tests (opened t) (0 == t)))
                order_tops) in
            let own = rw top at (order_count i h) in
            rw top (omega (arith, counted, own, times-zero (count 0 tree.order)))
        | inr (p, below) ↦
            let (p_listed, p_top) = parent-IsTop listed i below in
            let counted = visible_from-count tree expanded i p (one_if (opened p)) tree.order (
              All-weaken _ _ tree.order
                (λ t k. under_top expanded i t k.0 k.1 ∙ rw below (swap_tests opened p t))
                order_tops) in
            let own = rw below at (order_count i h) in
            let parent_own = rw p_top at (order_count p p_listed) in
            let counted_once = rw parent_own at counted in
            rw below (omega (arith, counted_once, own))
      ]

-- Each conversation of the tree that `build` makes, and that has no parent in it, is in `visible`
-- exactly once, whatever is expanded; each other one is once where its parent is expanded, and not at
-- all where it is not; and a parent is an entry with no parent of its own.
pub visible-once :
    (summaries : List ConversationSummary) (expanded : Entry → Bool) (i : ℕ)
    → i < length (with_thoughts summaries)
    → (count i (visible (build summaries) expanded)
        ≡ times_shown (build summaries) expanded (parent_of (build summaries) i))
      × ((p : ℕ)
          → parent_of (build summaries) i ≡ some p
          → (p < length (with_thoughts summaries)) × (parent_of (build summaries) p ≡ none))
visible-once summaries expanded i h = (
  rw (parent_of_lem summaries i h) (count-visible summaries expanded i h),
  λ p below.
      let (p_listed, p_top) =
        parent-IsTop (with_thoughts summaries) i (sym (parent_of_lem summaries i h) ∙ below) in
      (p_listed, parent_of_lem summaries p p_listed ∙ p_top),
)
