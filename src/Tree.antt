-- ===== src/Tree.antt =====
-- cvc-cli/src/tui/tree.rs: grouping conversations into parents and their agents, and their order.
pub mod Count
pub mod Parents
pub mod Once
pub mod Agent
pub mod Order
mod Tests
use volute.Prelude.{
  ℕ, zero, suc, ◌+◌, ◌-◌, Bool, true, false, not, ◌&&◌, ◌||◌, Option, none, some, List, [], ◌∷◌,
  ◌++◌, map, leb, ltb, ◌==◌, if◌then◌else◌, length, drop, get_or, set, replicate, ◌>>=◌,
}
use volute.Bytes.{Bytes, codes, bytes_eq, starts_with, rsplit_once}

-- `i64`: a count or a time.
pub data ℤ : Type 0 where
  pos negsuc : ℕ → ℤ

unfoldable pub leb_int : ℤ → ℤ → Bool
leb_int (pos a) (pos b) = leb a b
leb_int (pos a) (negsuc b) = false
leb_int (negsuc a) (pos b) = true
leb_int (negsuc a) (negsuc b) = leb b a

unfoldable pub is_positive : ℤ → Bool
is_positive (pos a) = ltb 0 a
is_positive (negsuc a) = false

unfoldable pub max_int : ℤ → ℤ → ℤ
unfolding leb_int
max_int a b = if leb_int a b then b else a

-- The order of `str`: by bytes, a prefix first.
unfoldable pub leb_bytes : Bytes → Bytes → Bool
leb_bytes [] ys = true
leb_bytes (x ∷ xs) [] = false
leb_bytes (x ∷ xs) (y ∷ ys) = ltb x y || (x == y && leb_bytes xs ys)

-- cvc-core/src/db.rs, `ConversationSummary`.
pub record ConversationSummary : Type 0 where
  pub id : Bytes
  pub title : Bytes
  pub thoughts : ℤ
  pub linked : ℤ
  pub first_activity : ℤ
  pub last_activity : ℤ
  pub shared : Bool
  pub shared_count : ℤ
  pub published : ℤ
  pub unconfirmed : ℤ
  pub share_future : Option Bool
  pub imported : Bool
  pub held : ℤ
  pub held_published : ℤ

abbrev pub agent_marker : Bytes
agent_marker = codes ":agent-"

unfoldable pub both_sides : Bytes → Bytes → Option (Bytes × Bytes)
both_sides [] agent = none
both_sides (p ∷ ps) [] = none
both_sides (p ∷ ps) (a ∷ as_) = some (p ∷ ps, a ∷ as_)

unfoldable pub split_agent_id : Bytes → Option (Bytes × Bytes)
unfolding rsplit_once both_sides
split_agent_id id = do (parent, agent) ← rsplit_once agent_marker id; both_sides parent agent

pub data Kind : Type 0 where
  plain : Kind
  parent_of_agents : (children : List ℕ) → Kind
  child : (parent : ℕ) → Kind
  orphan : Kind

pub record Entry : Type 0 where
  pub summary : ConversationSummary
  pub kind : Kind

pub record Tree : Type 0 where
  pub entries : List Entry
  pub order : List ℕ

-- `summaries.iter().filter(|s| s.thoughts > 0)`
unfoldable pub with_thoughts : List ConversationSummary → List ConversationSummary
unfolding is_positive
with_thoughts [] = []
with_thoughts (s ∷ ss) =
    let rest = with_thoughts ss in if is_positive s.thoughts then s ∷ rest else rest

-- What the map from ids to positions holds: the last position of an id, of those from `at` on.
unfoldable pub index_from : ℕ → List ConversationSummary → Bytes → Option ℕ
unfolding bytes_eq
index_from at [] id = none
index_from at (s ∷ ss) id = elim (index_from (at + 1) ss id) [
  | some later ↦ some later
  | none ↦ if bytes_eq s.id id then some at else none
]

unfoldable pub candidate_of : List ConversationSummary → ConversationSummary → Option ℕ
unfolding split_agent_id index_from
candidate_of listed s = do (parent, agent) ← split_agent_id s.id; index_from 0 listed parent

-- `candidate[p].is_none()`
unfoldable pub is_top : List (Option ℕ) → ℕ → Bool
is_top candidates p = elim (get_or candidates p none) [ none ↦ true | some q ↦ false ]

-- `c.filter(|&p| candidate[p].is_none())`
unfoldable pub parent_from : List (Option ℕ) → Option ℕ → Option ℕ
unfolding is_top
parent_from candidates none = none
parent_from candidates (some p) = if is_top candidates p then some p else none

-- The loop that fills `children`, for the parents of the positions from `at` on.
unfoldable pub push_children : ℕ → List (Option ℕ) → List (List ℕ) → List (List ℕ)
push_children at [] children = children
push_children at (none ∷ parents) children = push_children (at + 1) parents children
push_children at (some p ∷ parents) children =
    push_children (at + 1) parents (set children p (get_or children p [] ++ (at ∷ [])))

-- `list.sort_by`, which keeps the order of equal elements; `le a b` holds unless `a` comes after `b`.
unfoldable pub insert_by : (ℕ → ℕ → Bool) → ℕ → List ℕ → List ℕ
insert_by le x [] = x ∷ []
insert_by le x (y ∷ ys) = if le x y then x ∷ y ∷ ys else y ∷ insert_by le x ys

unfoldable pub sort_by : (ℕ → ℕ → Bool) → List ℕ → List ℕ
unfolding insert_by
sort_by le [] = []
sort_by le (x ∷ xs) = insert_by le x (sort_by le xs)

abbrev pub no_summary : ConversationSummary
no_summary = record {
  id = [];
  title = [];
  thoughts = pos 0;
  linked = pos 0;
  first_activity = pos 0;
  last_activity = pos 0;
  shared = false;
  shared_count = pos 0;
  published = pos 0;
  unconfirmed = pos 0;
  share_future = none;
  imported = false;
  held = pos 0;
  held_published = pos 0;
}

-- The order of pairs of a time and an id.
unfoldable pub leb_keys : ℤ → Bytes → ℤ → Bytes → Bool
unfolding leb_int leb_bytes
leb_keys a i b j = if leb_int a b then (if leb_int b a then leb_bytes i j else true) else false

module _ (listed : List ConversationSummary) where
  unfoldable pub summary_at : ℕ → ConversationSummary
  summary_at i = get_or listed i no_summary

  -- Spawn order.
  unfoldable pub spawned_before : ℕ → ℕ → Bool
  unfolding leb_keys summary_at
  spawned_before a b =
      leb_keys (summary_at a).first_activity (summary_at a).id (summary_at b).first_activity
        (summary_at b).id

  unfoldable pub newest_of : List ℕ → ℕ → ℤ
  unfolding max_int summary_at
  newest_of [] top = (summary_at top).last_activity
  newest_of (c ∷ cs) top = max_int (summary_at c).last_activity (newest_of cs top)

  -- The latest activity first, ties by id.
  unfoldable pub listed_before : List (List ℕ) → ℕ → ℕ → Bool
  unfolding leb_keys summary_at newest_of
  listed_before children a b =
      leb_keys (newest_of (get_or children b []) b) (summary_at a).id
        (newest_of (get_or children a []) a) (summary_at b).id

unfoldable pub sort_all : (ℕ → ℕ → Bool) → List (List ℕ) → List (List ℕ)
unfolding sort_by
sort_all le [] = []
sort_all le (xs ∷ xss) = sort_by le xs ∷ sort_all le xss

unfoldable pub kind_of : ConversationSummary → Option ℕ → List ℕ → Kind
unfolding split_agent_id
kind_of s (some parent) children = child parent
kind_of s none (c ∷ cs) = parent_of_agents (c ∷ cs)
kind_of s none [] = elim (split_agent_id s.id) [ some _ ↦ orphan | none ↦ plain ]

-- `summaries.iter().enumerate().map(..)`
unfoldable pub entries_from :
    List ConversationSummary → List (Option ℕ) → List (List ℕ) → List Entry
unfolding kind_of
entries_from (s ∷ ss) (parent ∷ parents) (children ∷ rest) =
    record { summary = s; kind = kind_of s parent children } ∷ entries_from ss parents rest
entries_from _ _ _ = []

-- The positions with no parent, from `at` on.
unfoldable pub tops_from : ℕ → List (Option ℕ) → List ℕ
tops_from at [] = []
tops_from at (none ∷ parents) = at ∷ tops_from (at + 1) parents
tops_from at (some p ∷ parents) = tops_from (at + 1) parents

unfoldable pub parents_of : List ConversationSummary → List (Option ℕ)
unfolding candidate_of parent_from
parents_of listed =
    let candidates = map (candidate_of listed) listed in map (parent_from candidates) candidates

unfoldable pub children_lists : List ConversationSummary → List (List ℕ)
unfolding push_children sort_all spawned_before parents_of
children_lists listed =
    sort_all (spawned_before listed)
      (push_children 0 (parents_of listed) (replicate (length listed) []))

unfoldable pub build : List ConversationSummary → Tree
unfolding with_thoughts parents_of children_lists entries_from sort_by listed_before tops_from
build summaries =
    let listed = with_thoughts summaries in
    let parents = parents_of listed in
    let children = children_lists listed in
    record {
      entries = entries_from listed parents children;
      order = sort_by (listed_before listed children) (tops_from 0 parents);
    }

abbrev pub children_in : Kind → List ℕ
children_in (parent_of_agents children) = children
children_in _ = []

abbrev pub no_entry : Entry
no_entry = record { summary = no_summary; kind = plain }

-- `self.children_of(index)`
unfoldable pub children_of : Tree → ℕ → List ℕ
children_of tree index = children_in (get_or tree.entries index no_entry).kind

abbrev pub parent_in : Kind → Option ℕ
parent_in (child parent) = some parent
parent_in _ = none

unfoldable pub parent_of : Tree → ℕ → Option ℕ
parent_of tree index = parent_in (get_or tree.entries index no_entry).kind

unfoldable pub visible_from : Tree → (Entry → Bool) → List ℕ → List ℕ
unfolding children_of
visible_from tree expanded [] = []
visible_from tree expanded (top ∷ tops) =
    let shown = expanded (get_or tree.entries top no_entry) in
    top ∷ ((if shown then children_of tree top else []) ++ visible_from tree expanded tops)

unfoldable pub visible : Tree → (Entry → Bool) → List ℕ
unfolding visible_from
visible tree expanded = visible_from tree expanded tree.order

unfoldable pub position_from : ℕ → List Entry → Bytes → Option ℕ
unfolding bytes_eq
position_from at [] id = none
position_from at (e ∷ es) id =
    if bytes_eq e.summary.id id then some at else position_from (at + 1) es id

unfoldable pub position : Tree → Bytes → Option ℕ
unfolding position_from
position tree id = position_from 0 tree.entries id
