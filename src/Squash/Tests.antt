-- ===== src/Squash/Tests.antt =====
-- The theorems on the choice of a range, on validate_events and on build at concrete inputs.
use volute.Prelude.{
  ℕ, List, ◌<◌, All-replicate, replicate, length-replicate, arith, ◌≡◌, refl, some, none, [], ◌∷◌,
  inl, inr,
}
use volute.Bytes.{Bytes, codes, bytes_eq}
use volute.Stimulus.Token.{Sha256, hex}
use volute.Derivation.{
  DerivationEvent, squash_exact, locally_observed, local_hook, less, sorted_once, insert_once,
  ascending, sources_are_canonical, verify_id, canonical_id,
}
use volute.Squash.{
  RangeEvidence, RangeSourceSnapshot, Match, range_claim, commit_oids, texts_eq, claim_eq,
  any_differs, is_greater, max_from, select_relink_range,
}
use volute.Squash.Build.{
  ValidatedSquashPlan, SquashResult, ok, Readings, build_child, build_change, change_of,
  parent_matches, range_eq, interactions_of, source_ids, with_id, unnamed_event, named_event,
  squash_event, events_for, build_events, validated, build_match, build_persisted, build,
}
use volute.Squash.Build.Outcome.{Outcome, build-Outcome}
use volute.Squash.Partition.{
  held_ids, alter, push_id, collect, sort_values, maps_eq, is_absent, is_squash_event,
  is_squash_exact, is_locally_observed, is_local_hook, names, insert_events, compare_partition,
  validate_events,
}
use volute.Squash.Partition.Complete.{IsPartition-validate_events}
use volute.Squash.Partition.Exact.{IsPartition, validate_events-IsPartition}
use volute.Squash.Select.{Relinks, select_relink_range-Relinks}
use volute.Squash.Reorder.{Includes, SameChoice, select_relink_range-SameChoice}

-- A range of one commit, as a worktree observed it.
abbrev observed : Bytes → Bytes → RangeEvidence
observed worktree tip = record {
  range_id = worktree;
  format = codes "range";
  version = 1;
  repository_identity = worktree;
  object_format = codes "sha1";
  base_oid = codes "a";
  tip_oid = tip;
  base_tree_oid = codes "t";
  result_tree_oid = codes "u";
  commits = record { commit_oid = tip } ∷ [];
  changeset_algorithm = codes "net";
  changeset_digest = codes "d";
}

abbrev two_sources : Match ℕ
two_sources = (
  observed (codes "r2") (codes "b"),
  record { interaction_id = codes "i"; source_id = codes "s"; snapshot = 0 }
      ∷ record { interaction_id = codes "j"; source_id = codes "s"; snapshot = 1 }
      ∷ [],
)

abbrev two_more : Match ℕ
two_more = (observed (codes "r1") (codes "b"), two_sources.1)

abbrev no_source : Match ℕ
no_source = (observed (codes "r0") (codes "b"), [])

abbrev elsewhere : Match ℕ
elsewhere = (observed (codes "r3") (codes "c"), two_sources.1)

chosen : select_relink_range (no_source ∷ two_sources ∷ two_more ∷ []) ≡ some two_more
unfolding select_relink_range any_differs claim_eq texts_eq bytes_eq range_claim commit_oids
    max_from is_greater less
chosen = refl

refused : select_relink_range (two_sources ∷ elsewhere ∷ []) ≡ none
unfolding select_relink_range any_differs claim_eq texts_eq bytes_eq range_claim commit_oids
refused = refl

select_relink_range-Relinks_example :
    Relinks
      (no_source ∷ two_sources ∷ two_more ∷ [])
      (select_relink_range (no_source ∷ two_sources ∷ two_more ∷ []))
select_relink_range-Relinks_example =
    select_relink_range-Relinks (no_source ∷ two_sources ∷ two_more ∷ [])

swapped : (x y : Match ℕ) → Includes (x ∷ y ∷ []) (y ∷ x ∷ [])
swapped x y m (inl e) = inr (inl e)
swapped x y m (inr (inl e)) = inl e
swapped x y m (inr (inr among)) = elim among [ ]

select_relink_range-SameChoice_example :
    SameChoice
      (select_relink_range (two_sources ∷ two_more ∷ []))
      (select_relink_range (two_more ∷ two_sources ∷ []))
select_relink_range-SameChoice_example =
    select_relink_range-SameChoice (two_sources ∷ two_more ∷ []) (two_more ∷ two_sources ∷ [])
      (swapped two_more two_sources) (swapped two_sources two_more)

-- One digest for all texts.
abbrev toy_sha : Sha256
toy_sha = record {
  digest = λ m. replicate 32 171;
  length_digest = λ m. length-replicate {A = ℕ} 32 171;
  digest_bytes = λ m. All-replicate (λ b. b < 256) 32 171 (omega arith);
}

abbrev squashed : Bytes → List Bytes → DerivationEvent
squashed interaction sources = record {
  event_id = hex (replicate 32 171);
  interaction_id = interaction;
  target_commit = codes "c";
  relation = squash_exact;
  evidence = record { version = 1; kind = locally_observed };
  origin = local_hook;
  source_event_ids = sources;
  old_oid = none;
  new_oid = none;
  range_id = some (codes "r1");
  linked_by = none;
}

abbrev events : List DerivationEvent
events =
    squashed (codes "j") (codes "s" ∷ []) ∷ squashed (codes "i") (codes "s" ∷ codes "t" ∷ []) ∷ []

abbrev sources : List (RangeSourceSnapshot ℕ)
sources =
    record { interaction_id = codes "i"; source_id = codes "t"; snapshot = 0 }
    ∷ record { interaction_id = codes "j"; source_id = codes "s"; snapshot = 1 }
    ∷ record { interaction_id = codes "i"; source_id = codes "s"; snapshot = 2 }
    ∷ []

events_valid : validate_events toy_sha (codes "c") (codes "r1") sources events ≡ none
unfolding held_ids alter push_id collect sort_values maps_eq is_absent is_squash_event
    is_squash_exact is_locally_observed is_local_hook names insert_events compare_partition
    validate_events sources_are_canonical ascending verify_id canonical_id bytes_eq less sorted_once
    insert_once texts_eq hex
events_valid = refl

events_repeated :
    validate_events toy_sha (codes "c") (codes "r1") sources (squashed (codes "i") [] ∷ events)
    ≡ some (codes "invalid squash event partition")
unfolding held_ids alter push_id collect sort_values maps_eq is_absent is_squash_event
    is_squash_exact is_locally_observed is_local_hook names insert_events compare_partition
    validate_events sources_are_canonical ascending verify_id canonical_id bytes_eq less sorted_once
    insert_once texts_eq hex
events_repeated = refl

validate_events-IsPartition_example : IsPartition toy_sha (codes "c") (codes "r1") sources events
validate_events-IsPartition_example =
    validate_events-IsPartition toy_sha (codes "c") (codes "r1") sources events events_valid

IsPartition-validate_events_example :
    validate_events toy_sha (codes "c") (codes "r1") sources events ≡ none
IsPartition-validate_events_example =
    IsPartition-validate_events toy_sha (codes "c") (codes "r1") sources events
      (validate_events-IsPartition toy_sha (codes "c") (codes "r1") sources events events_valid)

-- Git with the ids 0 and 1 for the candidate and its parent, and a tree as its commit's id.
abbrev read_commit : ℕ → SquashResult ℕ
read_commit oid = ok oid

-- The range of the sources, between ranges of other ids.
abbrev trusted : Readings ℕ ℕ ℕ ℕ
trusted = record {
  from_str = λ text. ok 0;
  find_commit = read_commit;
  parent_count = λ commit. 1;
  parent_id = λ commit. ok (codes "p");
  parent = λ commit. ok 1;
  tree = read_commit;
  identify = λ base result. ok (codes "net", codes "d");
  trusted_ranges_for_changeset = λ algorithm digest.
      ok (two_sources ∷ (observed (codes "r1") (codes "b"), sources) ∷ no_source ∷ []);
}

abbrev relinked : SquashResult (ValidatedSquashPlan ℕ)
relinked =
    build toy_sha (codes "/w") (codes "refs/heads/x") (codes "o") (codes "c") (codes "p")
      (codes "c") (observed (codes "r1") (codes "b")) trusted

builds :
    relinked
    ≡ ok (record {
      worktree = codes "/w";
      symbolic_ref = codes "refs/heads/x";
      expected_cursor = codes "o";
      candidate = codes "c";
      expected_parent = codes "p";
      expected_head = codes "c";
      range = observed (codes "r1") (codes "b");
      sources = sources;
      events =
          squashed (codes "i") (codes "s" ∷ codes "t" ∷ [])
          ∷ squashed (codes "j") (codes "s" ∷ [])
          ∷ [];
    })
unfolding build build_child build_change change_of parent_matches build_persisted build_match
    validated range_eq with_id build_events events_for squash_event named_event unnamed_event
    source_ids interactions_of held_ids alter push_id collect sort_values maps_eq is_absent
    is_squash_event is_squash_exact is_locally_observed is_local_hook names insert_events
    compare_partition validate_events sources_are_canonical ascending verify_id canonical_id
    bytes_eq less sorted_once insert_once texts_eq commit_oids hex
builds = refl

build-Outcome_example :
    Outcome toy_sha trusted
      (codes "/w")
      (codes "refs/heads/x")
      (codes "o")
      (codes "c")
      (codes "p")
      (codes "c")
      (observed (codes "r1") (codes "b"))
      relinked
build-Outcome_example =
    build-Outcome toy_sha trusted (codes "/w") (codes "refs/heads/x") (codes "o") (codes "c")
      (codes "p") (codes "c") (observed (codes "r1") (codes "b"))
