-- ===== src/Tree/Tests.antt =====
-- Runs of the tree, and the witnesses of the theorems.
use volute.Prelude.{
  Option, ℕ, ◌<◌, ◌≡◌, ◌↔◌, refl, Bool, true, false, none, some, List, [], ◌∷◌, length, arith,
}
use volute.Bytes.{Bytes, codes, starts_with, rsplit_once}
use volute.Tree.{
  pos, ConversationSummary, Entry, no_summary, with_thoughts, is_positive, agent_marker,
  split_agent_id, both_sides, build, visible, parent_of, children_of,
}
use volute.Tree.Count.{count}
use volute.Tree.Once.{times_shown, visible-once}
use volute.Tree.Order.{InOrder, Newer, Spawned, build-InOrder}
use volute.Bytes.Split.{IsLastSplit}
use volute.Tree.Agent.{split_agent_id-IsLastSplit}

abbrev conversation : Bytes → ℕ → ℕ → ConversationSummary
conversation id first last = record {
  id = id;
  title = codes "a title";
  thoughts = pos 2;
  linked = pos 0;
  first_activity = pos first;
  last_activity = pos last;
  shared = false;
  shared_count = pos 0;
  published = pos 0;
  unconfirmed = pos 0;
  share_future = none;
  imported = false;
  held = pos 0;
  held_published = pos 0;
}

abbrev sample : List ConversationSummary
sample =
    conversation (codes "s1") 5 10
    ∷ conversation (codes "s1:agent-b") 7 30
    ∷ conversation (codes "s2") 1 20
    ∷ no_summary
    ∷ conversation (codes "s1:agent-a") 6 9
    ∷ conversation (codes "gone:agent-c") 2 3
    ∷ []

abbrev all_open : Entry → Bool
all_open entry = true

abbrev shown : List ℕ
shown = visible (build sample) all_open

visible-once_example :
    (count 1 (visible (build sample) all_open)
      ≡ times_shown (build sample) all_open (parent_of (build sample) 1))
    × ((p : ℕ)
        → parent_of (build sample) 1 ≡ some p
        → (p < length (with_thoughts sample)) × (parent_of (build sample) p ≡ none))
unfolding with_thoughts is_positive
visible-once_example = visible-once sample all_open 1 (omega arith)

build-InOrder_example :
    InOrder (Newer (build sample) (with_thoughts sample)) (build sample).order
    × ((p : ℕ)
        → p < length (with_thoughts sample)
        → InOrder (Spawned (with_thoughts sample)) (children_of (build sample) p))
build-InOrder_example = build-InOrder sample

split_agent_id-IsLastSplit_example :
    (split_agent_id (codes "s:agent-a:agent-b") ≡ some (codes "s:agent-a", codes "b")) ↔ (
      IsLastSplit agent_marker (codes "s:agent-a:agent-b") (codes "s:agent-a", codes "b")
      × (0 < length (codes "s:agent-a"))
      × (0 < length (codes "b")))
split_agent_id-IsLastSplit_example =
    split_agent_id-IsLastSplit (codes "s:agent-a:agent-b") (codes "s:agent-a") (codes "b")

split_at_the_last : split_agent_id (codes "s:agent-a:agent-b") ≡ some (codes "s:agent-a", codes "b")
unfolding split_agent_id rsplit_once both_sides starts_with
split_at_the_last = refl

-- An agent of an agent of an agent: the third is no child, since its candidate has a candidate.
abbrev nested : List ConversationSummary
nested =
    conversation (codes "s") 1 1
    ∷ conversation (codes "s:agent-a") 2 2
    ∷ conversation (codes "s:agent-a:agent-b") 3 3
    ∷ conversation (codes "s:agent-a:agent-b:agent-c") 4 4
    ∷ []

abbrev nested_parents : List (Option ℕ)
nested_parents =
    parent_of (build nested) 0
    ∷ parent_of (build nested) 1
    ∷ parent_of (build nested) 2
    ∷ parent_of (build nested) 3
    ∷ []
