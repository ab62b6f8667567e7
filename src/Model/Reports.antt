-- ===== src/Model/Reports.antt =====
-- model.rs: `report`, what the view says of a flow that has ended.
use volute.Prelude.{
  ℕ, ◌+◌, Bool, true, false, not, ◌&&◌, Option, none, some, List, [], ◌∷◌, ◌++◌, if◌then◌else◌,
}
use volute.Bytes.{Bytes, codes}
use volute.Tree.{ConversationSummary, Tree, children_of, position}
use volute.Model.{FutureSharePolicy, RemoteOverview, Words, Model}
use volute.Model.Remote.{usable_in, remote_view}
use volute.Model.Rows.{entry_at}
use volute.Model.Bars.{is_zero}
use volute.Model.Loads.{told}

-- words.rs
pub data FlowKind : Type 0 where
  share unshare publish authorize : FlowKind

-- `P` holds the outcomes of a publish, `F` the failures of a flow.
pub data Report (P F : Type 0) : Type 0 where
  shared : Bytes → ℕ → FutureSharePolicy → Report P F
  unshared : ℕ → Report P F
  published : P → Report P F
  authorized remote_changed : Report P F
  failed : FlowKind → F → Report P F

-- The sentences of words.rs, the last text of each being the remote's label.
pub record Statuses (P F : Type 0) : Type 0 where
  pub shared_status : ℕ → FutureSharePolicy → Bool → ℕ → Bytes → Bytes
  pub unshared_status : ℕ → Bytes → Bytes
  pub published_status : P → Bytes → Bytes
  pub authorized_status : Bytes → Bytes
  pub failure_status : FlowKind → F → Bytes → Bytes

unfoldable pub is_unshared : ConversationSummary → Bool
unfolding is_zero
is_unshared summary = not summary.imported && is_zero summary.shared_count

unfoldable pub count_unshared : Tree → List ℕ → ℕ
unfolding is_unshared
count_unshared tree [] = 0
count_unshared tree (child ∷ children) =
    (if is_unshared (entry_at tree child).summary then 1 else 0) + count_unshared tree children

unfoldable pub unshared_agents_of : Tree → Bytes → ℕ
unfolding count_unshared
unshared_agents_of tree id = elim (position tree id) [
  | none ↦ 0
  | some index ↦ count_unshared tree (children_of tree index)
]

abbrev pub pushes : Option RemoteOverview → Bool
pushes none = false
pushes (some overview) = overview.auto_push

module _ (w : Words) where
  unfoldable pub remote_label : Model → Bytes
  remote_label m = elim m.remote [ none ↦ [] | some name ↦ w.sanitize name ]

  module _ {P F : Type 0} (s : Statuses P F) where
    unfoldable pub said_of : Report P F → Model → Bytes
    unfolding remote_label unshared_agents_of
    said_of (shared id count future) m =
        s.shared_status count future (pushes (usable_in (remote_view m)))
          (unshared_agents_of m.tree id) (remote_label m)
    said_of (unshared made_private) m = s.unshared_status made_private (remote_label m)
    said_of (published outcome) m = s.published_status outcome (remote_label m)
    said_of authorized m = s.authorized_status (remote_label m)
    said_of (failed kind failure) m = s.failure_status kind failure (remote_label m)
    said_of remote_changed m =
        codes "Remote '"
        ++ (remote_label m
            ++ codes
                "' changed while this view was open, so nothing was done. The remote list was refreshed.")

    abbrev is_share : Report P F → Bool
    is_share (shared id count future) = true
    is_share (unshared made_private) = false
    is_share (published outcome) = false
    is_share authorized = false
    is_share remote_changed = false
    is_share (failed kind failure) = false

    unfoldable pub report : Report P F → Model → Model
    unfolding said_of
    report r m = told w (is_share r) (said_of r m) m
