-- ===== src/Squash/Build.antt =====
-- squash.rs: ValidatedSquashPlan::build, the plan that relinks a range's sources to a squashed commit.
mod Equal
pub mod Events
pub mod Outcome
use volute.Prelude.{
  ℕ, Bool, true, false, not, ◌&&◌, Option, none, some, List, [], ◌∷◌, ◌==◌, if◌then◌else◌,
}
use volute.Bytes.{Bytes, codes, bytes_eq}
use volute.Stimulus.Token.{Sha256}
use volute.Derivation.{
  DerivationEvent, squash_exact, locally_observed, local_hook, sorted_once, canonical_id,
}
use volute.Squash.{RangeMember, RangeEvidence, RangeSourceSnapshot, Match, commit_oids, texts_eq}
use volute.Squash.Partition.{validate_events}

pub record ValidatedSquashPlan (S : Type 0) : Type 0 where
  pub worktree : Bytes
  pub symbolic_ref : Bytes
  pub expected_cursor : Bytes
  pub candidate : Bytes
  pub expected_parent : Bytes
  pub expected_head : Bytes
  pub range : RangeEvidence
  pub sources : List (RangeSourceSnapshot S)
  pub events : List DerivationEvent

-- The error of a library is its text.
pub data SquashError : Type 0 where
  git db changeset invalid layout : Bytes → SquashError
  deadline : SquashError

pub data SquashResult {ℓ} (A : Type ℓ) : Type ℓ where
  ok : A → SquashResult A
  err : SquashError → SquashResult A

infixl 5 ◌>>=◌
-- `?`
abbrev pub ◌>>=◌ {ℓ κ} :
    {A : Type ℓ} {B : Type κ} → SquashResult A → (A → SquashResult B) → SquashResult B
ok a >>= f = f a
err e >>= f = err e

-- What build asks of the Git library, of changeset.rs and of the database, with the errors as `?` converts
-- them: ids, commits and trees of Git, the algorithm and digest of a changeset, and its trusted ranges.
pub record Readings (S Oid Commit GitTree : Type 0) : Type 0 where
  pub from_str : Bytes → SquashResult Oid
  pub find_commit : Oid → SquashResult Commit
  pub parent_count : Commit → ℕ
  pub parent_id : Commit → SquashResult Bytes
  pub parent : Commit → SquashResult Commit
  pub tree : Commit → SquashResult GitTree
  pub identify : GitTree → GitTree → SquashResult (Bytes × Bytes)
  pub trusted_ranges_for_changeset : Bytes → Bytes → SquashResult (List (Match S))

-- `==` on ranges, field by field.
unfoldable pub range_eq : RangeEvidence → RangeEvidence → Bool
unfolding commit_oids texts_eq
range_eq a b =
    bytes_eq a.range_id b.range_id
    && (bytes_eq a.format b.format
        && (a.version == b.version
            && (bytes_eq a.repository_identity b.repository_identity
                && (bytes_eq a.object_format b.object_format
                    && (bytes_eq a.base_oid b.base_oid
                        && (bytes_eq a.tip_oid b.tip_oid
                            && (bytes_eq a.base_tree_oid b.base_tree_oid
                                && (bytes_eq a.result_tree_oid b.result_tree_oid
                                    && (texts_eq (commit_oids a.commits) (commit_oids b.commits)
                                        && (bytes_eq a.changeset_algorithm b.changeset_algorithm
                                            && bytes_eq a.changeset_digest
                                                b.changeset_digest))))))))))

module _ {S : Type 0} where
  unfoldable pub interactions_of : List (RangeSourceSnapshot S) → List Bytes
  interactions_of [] = []
  interactions_of (source ∷ sources) = source.interaction_id ∷ interactions_of sources

  -- The ids of an interaction's sources.
  unfoldable pub source_ids : Bytes → List (RangeSourceSnapshot S) → List Bytes
  source_ids interaction [] = []
  source_ids interaction (source ∷ sources) =
      let rest = source_ids interaction sources in
      if bytes_eq source.interaction_id interaction then source.source_id ∷ rest else rest

  -- `filter(|(candidate, _)| candidate.range_id == range.range_id)`
  unfoldable pub with_id : Bytes → List (Match S) → List (Match S)
  with_id id [] = []
  with_id id (m ∷ ms) =
      let rest = with_id id ms in if bytes_eq m.0.range_id id then m ∷ rest else rest

  -- `?` on what validate_events returns.
  unfoldable pub validated :
      Option Bytes → ValidatedSquashPlan S → SquashResult (ValidatedSquashPlan S)
  validated none plan = ok plan
  validated (some message) plan = err (invalid message)

-- The event before it has an id.
unfoldable pub unnamed_event : Bytes → Bytes → Bytes → List Bytes → DerivationEvent
unnamed_event candidate range_id interaction ids = record {
  event_id = [];
  interaction_id = interaction;
  target_commit = candidate;
  relation = squash_exact;
  evidence = record { version = 1; kind = locally_observed };
  origin = local_hook;
  source_event_ids = ids;
  old_oid = none;
  new_oid = none;
  range_id = some range_id;
  linked_by = none;
}

-- `event.event_id = event.canonical_id()`
unfoldable pub named_event : Sha256 → DerivationEvent → DerivationEvent
unfolding canonical_id
named_event sha event = record {
  event_id = canonical_id sha event;
  interaction_id = event.interaction_id;
  target_commit = event.target_commit;
  relation = event.relation;
  evidence = event.evidence;
  origin = event.origin;
  source_event_ids = event.source_event_ids;
  old_oid = event.old_oid;
  new_oid = event.new_oid;
  range_id = event.range_id;
  linked_by = event.linked_by;
}

module _ {S : Type 0} (sha : Sha256) (candidate range_id : Bytes)
    (sources : List (RangeSourceSnapshot S)) where
  unfoldable pub squash_event : Bytes → DerivationEvent
  unfolding unnamed_event named_event source_ids sorted_once
  squash_event interaction =
      named_event sha (
        unnamed_event candidate range_id interaction (sorted_once (source_ids interaction sources)))

  -- The loop over the interactions.
  unfoldable pub events_for : List Bytes → List DerivationEvent
  unfolding squash_event
  events_for [] = []
  events_for (interaction ∷ interactions) = squash_event interaction ∷ events_for interactions

  -- The interactions of the sources in order and once, and an event of each.
  unfoldable pub build_events : List DerivationEvent
  unfolding events_for interactions_of sorted_once
  build_events = events_for (sorted_once (interactions_of sources))

module _ {S : Type 0} (sha : Sha256)
    (worktree symbolic_ref expected_cursor candidate expected_parent expected_head : Bytes)
    (range : RangeEvidence) where
  -- With the range's own match.
  unfoldable pub build_match : Match S → SquashResult (ValidatedSquashPlan S)
  unfolding validated build_events validate_events range_eq
  build_match (persisted_range, []) = err (invalid (codes "range has no source snapshots"))
  build_match (persisted_range, source ∷ sources) =
      let events = build_events sha candidate range.range_id (source ∷ sources) in
      if range_eq persisted_range range
      then validated (validate_events sha candidate range.range_id (source ∷ sources) events)
          (record {
            worktree = worktree;
            symbolic_ref = symbolic_ref;
            expected_cursor = expected_cursor;
            candidate = candidate;
            expected_parent = expected_parent;
            expected_head = expected_head;
            range = persisted_range;
            sources = source ∷ sources;
            events = events;
          })
      else err (invalid (codes "range payload changed"))

  unfoldable pub build_persisted : List (Match S) → SquashResult (ValidatedSquashPlan S)
  unfolding build_match
  build_persisted (m ∷ []) = build_match m
  build_persisted _ = err (invalid (codes "trusted range changed"))

  -- The calls that read Git and the database.
  module _ {Oid Commit GitTree : Type 0} (readings : Readings S Oid Commit GitTree) where
    -- Whether the commit has one parent, the one expected: its id is read only where there is one.
    unfoldable pub parent_matches : Commit → SquashResult Bool
    parent_matches commit =
        if readings.parent_count commit == 1
        then (readings.parent_id commit >>= (λ id. ok (bytes_eq id expected_parent)))
        else ok false

    unfoldable pub change_of : Commit → SquashResult (Bytes × Bytes)
    change_of commit = readings.parent commit >>= (λ parent.
        readings.tree parent
        >>= (λ base. readings.tree commit >>= (λ result. readings.identify base result)))

    unfoldable pub build_change : Bytes × Bytes → SquashResult (ValidatedSquashPlan S)
    unfolding with_id build_persisted
    build_change (algorithm, digest) =
        if not
          (bytes_eq algorithm range.changeset_algorithm && bytes_eq digest range.changeset_digest)
        then err (invalid (codes "candidate changeset differs from range"))
        else (readings.trusted_ranges_for_changeset algorithm digest
            >>= (λ matches. build_persisted (with_id range.range_id matches)))

    unfoldable pub build_child : Commit → Bool → SquashResult (ValidatedSquashPlan S)
    unfolding change_of build_change
    build_child commit false = err (invalid (codes "candidate topology changed"))
    build_child commit true = change_of commit >>= (λ change. build_change change)

    unfoldable pub build : SquashResult (ValidatedSquashPlan S)
    unfolding parent_matches build_child
    build = readings.from_str candidate >>= (λ oid.
        readings.find_commit oid
        >>= (λ commit. parent_matches commit >>= (λ matches. build_child commit matches)))
