-- ===== src/Tree/Parents.antt =====
-- The parent of a conversation, and the lists of the agents under each.
use volute.Prelude.{
  ℕ, zero, suc, ◌+◌, ◌≤◌, ◌<◌, ◌≡◌, refl, sym, ap, subst, ◌∙◌, Bool, true, Option, none, some, List,
  [], ◌∷◌, map, length, get_or, length-set, replicate, length-replicate, length-map, arith,
  Bool-cases, Option-cases, inl, inr, >>=-eq-some,
}
use volute.Bytes.{Bytes, bytes_eq}
use volute.Tree.{
  ConversationSummary, no_summary, index_from, candidate_of, split_agent_id, is_top, parent_from,
  parents_of, push_children, sort_all, spawned_before, children_lists, entries_from, kind_of,
  no_entry, children_in, parent_in,
}
use volute.Tree.Count.{
  one_if, count, points_to, count-sort_by, get_or-sort_all, parent_at-get_or, count-push_children,
}

index_from-range :
    (at : ℕ) (ss : List ConversationSummary) (id : Bytes) {p : ℕ}
    → index_from at ss id ≡ some p
    → (at ≤ p) × (p < at + length ss)
unfolding index_from
index_from-range at [] id h = cc
index_from-range at (s ∷ ss) id {p} h = elim (Option-cases (index_from (at + 1) ss id)) [
  | inl missing ↦ elim (Bool-cases (bytes_eq s.id id)) [
    | inl same ↦ let e : at ≡ p = ground arith in (omega (arith, e), omega (arith, e))
    | inr other ↦ absurd (ground arith)
  ]
  | inr (q, found) ↦
      let e : q ≡ p = ground arith in
      let more = index_from-range (at + 1) ss id found in
      (omega (arith, e, more.0), omega (arith, e, more.1))
]

get_or-map :
    (f : Option ℕ → Option ℕ) (xs : List (Option ℕ)) (i : ℕ)
    → f none ≡ none
    → get_or (map f xs) i none ≡ f (get_or xs i none)
get_or-map f [] i h = sym h
get_or-map f (x ∷ xs) zero h = refl
get_or-map f (x ∷ xs) (suc i) h = get_or-map f xs i h

is_top-none : (cs : List (Option ℕ)) (q : ℕ) → is_top cs q ≡ true → get_or cs q none ≡ none
unfolding is_top
is_top-none cs q h = elim (Option-cases (get_or cs q none)) [
  | inl missing ↦ missing
  | inr (p, found) ↦ absurd (ground arith)
]

parent_from-some :
    (cs : List (Option ℕ)) (o : Option ℕ) {p : ℕ}
    → parent_from cs o ≡ some p
    → (o ≡ some p) × (get_or cs p none ≡ none)
unfolding parent_from
parent_from-some cs none h = cc
parent_from-some cs (some q) {p} h = elim (Bool-cases (is_top cs q)) [
  | inl top ↦
      let e : q ≡ p = ground arith in
      subst (λ r. (some q ≡ some r) × (get_or cs r none ≡ none)) e (refl, is_top-none cs q top)
  | inr low ↦ absurd (ground arith)
]

get_or-replicate : (n p : ℕ) → get_or (replicate {A = List ℕ} n []) p [] ≡ []
get_or-replicate zero p = refl
get_or-replicate (suc n) zero = refl
get_or-replicate (suc n) (suc p) = get_or-replicate n p

length-sort_all : (le : ℕ → ℕ → Bool) (xss : List (List ℕ)) → length (sort_all le xss) ≡ length xss
unfolding sort_all
length-sort_all le [] = refl
length-sort_all le (xs ∷ xss) = ap suc (length-sort_all le xss)

length-push_children :
    (at : ℕ) (os : List (Option ℕ)) (children : List (List ℕ))
    → length (push_children at os children) ≡ length children
unfolding push_children
length-push_children at [] children = refl
length-push_children at (none ∷ os) children = length-push_children (at + 1) os children
length-push_children at (some q ∷ os) children =
    length-push_children (at + 1) os _ ∙ length-set children q _

-- The kind that an entry has at a position.
pub get_or-entries_from :
    (ss : List ConversationSummary) (os : List (Option ℕ)) (children : List (List ℕ)) (i : ℕ)
    → length os ≡ length ss
    → length children ≡ length ss
    → i < length ss
    → (get_or (entries_from ss os children) i no_entry).kind
      ≡ kind_of (get_or ss i no_summary) (get_or os i none) (get_or children i [])
unfolding entries_from
get_or-entries_from [] os children i h k lt = absurd (omega arith)
get_or-entries_from (s ∷ ss) [] children i h k lt = absurd (omega arith)
get_or-entries_from (s ∷ ss) (o ∷ os) [] i h k lt = absurd (omega arith)
get_or-entries_from (s ∷ ss) (o ∷ os) (c ∷ cs) zero h k lt = refl
get_or-entries_from (s ∷ ss) (o ∷ os) (c ∷ cs) (suc i) h k lt =
    get_or-entries_from ss os cs i (omega arith) (omega arith) (omega arith)

pub parent_in-kind_of :
    (s : ConversationSummary) (o : Option ℕ) (cs : List ℕ) → parent_in (kind_of s o cs) ≡ o
unfolding kind_of
parent_in-kind_of s (some p) cs = refl
parent_in-kind_of s none (c ∷ cs) = refl
parent_in-kind_of s none [] = elim (Option-cases (split_agent_id s.id)) [
  | inl plain_id ↦ rw (plain_id, parent_in) refl
  | inr (found, agent_id) ↦ rw (agent_id, parent_in) refl
]

pub children_in-kind_of :
    (s : ConversationSummary) (cs : List ℕ) → children_in (kind_of s none cs) ≡ cs
unfolding kind_of
children_in-kind_of s (c ∷ cs) = refl
children_in-kind_of s [] = elim (Option-cases (split_agent_id s.id)) [
  | inl plain_id ↦ rw (plain_id, children_in) refl
  | inr (found, agent_id) ↦ rw (agent_id, children_in) refl
]

module _ (listed : List ConversationSummary) where
  candidates : List (Option ℕ)
  candidates = map (candidate_of listed) listed

  candidates-range :
      (ss : List ConversationSummary) (i : ℕ) {p : ℕ}
      → get_or (map (candidate_of listed) ss) i none ≡ some p
      → p < length listed
  unfolding candidate_of
  candidates-range [] i h = cc
  candidates-range (s ∷ ss) zero {p} h =
      let (ids, split, found) = >>=-eq-some (split_agent_id s.id) _ h in
      omega (arith, (index_from-range 0 listed ids.0 found).1)
  candidates-range (s ∷ ss) (suc i) h = candidates-range ss i h

  abbrev pub parents : List (Option ℕ)
  parents = parents_of listed

  parents_lem : (i : ℕ) → get_or parents i none ≡ parent_from candidates (get_or candidates i none)
  unfolding parents_of parent_from candidates
  parents_lem i = get_or-map (parent_from candidates) candidates i refl

  -- A parent is a listed conversation, and has no parent.
  pub parent-IsTop :
      (i : ℕ) {p : ℕ}
      → get_or parents i none ≡ some p
      → (p < length listed) × (get_or parents p none ≡ none)
  unfolding candidates parent_from is_top
  parent-IsTop i {p} h =
      let (candidate, top) = parent_from-some candidates _ (sym (parents_lem i) ∙ h) in
      (candidates-range listed i candidate, parents_lem p ∙ ap (parent_from candidates) top)

  abbrev pub children : List (List ℕ)
  children = children_lists listed

  pub length-parents : length parents ≡ length listed
  unfolding parents_of candidates
  length-parents =
      length-map candidates (parent_from candidates) ∙ length-map listed (candidate_of listed)

  pub length-children : length children ≡ length listed
  unfolding children_lists
  length-children =
      length-sort_all (spawned_before listed) _
      ∙ (length-push_children 0 parents _ ∙ length-replicate (length listed) [])

  pub count-children :
      (i p : ℕ)
      → p < length listed
      → count i (get_or children p []) ≡ one_if (points_to (get_or parents i none) p)
  unfolding children_lists
  count-children i p h =
      let start = replicate {A = List ℕ} (length listed) [] in
      let zero_add : 0 + i ≡ i = omega arith in
      let at_i = parent_at-get_or 0 parents i in
      let at_i' = rw zero_add at at_i in
      rw get_or-sort_all (
        count-sort_by (spawned_before listed) i _
        ∙ (count-push_children 0 parents start i p
              (omega (arith, h, length-replicate {A = List ℕ} (length listed) []))
            ∙ rw (get_or-replicate, at_i') (omega arith)))
