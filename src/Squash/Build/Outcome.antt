-- ===== src/Squash/Build/Outcome.antt =====
-- What build returns.
use mathlib.Core.Bool.{false≢true}
use volute.Prelude.{
  ◌≡◌, ◌≢◌, ◌⊎◌, refl, ap, ◌∙◌, sym, subst, Bool, true, ◌&&◌, ◌==◌, List, [], ◌∷◌, Bool-cases, inl,
  inr, arith,
}
use volute.Bytes.{Bytes, codes, bytes_eq}
use volute.Bytes.Laws.{bytes_eq→≡, bytes_eq_refl}
use volute.Stimulus.Token.{Sha256}
use volute.Derivation.{DerivationEvent}
use volute.Squash.{RangeEvidence, RangeSourceSnapshot, Match}
use volute.Squash.Partition.Exact.{IsPartition}
use volute.Squash.Partition.Complete.{IsPartition-validate_events}
use volute.Squash.Build.{
  ValidatedSquashPlan, SquashError, invalid, SquashResult, ok, err, ◌>>=◌, Readings, range_eq,
  with_id, build_events, validated, build_match, build_persisted, parent_matches, change_of,
  build_change, build_child, build,
}
use volute.Squash.Build.Equal.{range_eq→≡, range_eq_refl, range_differs, bytes_differ, bind-cases}
use volute.Squash.Build.Events.{build_events-IsPartition}

module _ {S Oid Commit GitTree : Type 0} (sha : Sha256) (readings : Readings S Oid Commit GitTree)
    (worktree symbolic_ref expected_cursor candidate expected_parent expected_head : Bytes)
    (range : RangeEvidence) where
  -- The candidate names the commit.
  abbrev pub IsFound : Commit → Type 0
  IsFound commit =
      (oid : Oid) × (readings.from_str candidate ≡ ok oid) × (readings.find_commit oid ≡ ok commit)

  -- The commit of the candidate, whose only parent is the one expected.
  abbrev pub IsChild : Commit → Type 0
  IsChild commit =
      IsFound commit
      × (readings.parent_count commit ≡ 1)
      × (readings.parent_id commit ≡ ok expected_parent)

  -- There is not one parent, or it is another one.
  abbrev pub IsOther : Commit → Type 0
  IsOther commit =
      (readings.parent_count commit ≢ 1)
      ⊎ ((readings.parent_count commit ≡ 1)
          × ((id : Bytes) × ((readings.parent_id commit ≡ ok id) × (id ≢ expected_parent))))

  -- The commit's changeset, from the tree of its parent to its own, or the error of the first call for it
  -- that fails.
  pub data Changes (commit : Commit) : SquashResult (Bytes × Bytes) → Type 0 where
    no_parent : {e : SquashError} → readings.parent commit ≡ err e → Changes commit (err e)
    no_base :
        (parent : Commit) {e : SquashError}
        → readings.parent commit ≡ ok parent
        → readings.tree parent ≡ err e
        → Changes commit (err e)
    no_tree :
        (parent : Commit) (base : GitTree) {e : SquashError}
        → readings.parent commit ≡ ok parent
        → readings.tree parent ≡ ok base
        → readings.tree commit ≡ err e
        → Changes commit (err e)
    identified :
        (parent : Commit) (base result : GitTree) {change : SquashResult (Bytes × Bytes)}
        → readings.parent commit ≡ ok parent
        → readings.tree parent ≡ ok base
        → readings.tree commit ≡ ok result
        → readings.identify base result ≡ change
        → Changes commit change

  abbrev pub IsItsChange : Bytes × Bytes → Type 0
  IsItsChange change = (change.0 ≡ range.changeset_algorithm) × (change.1 ≡ range.changeset_digest)

  -- All is as expected, and these are the trusted ranges of the changeset that have the range's id.
  pub record Reads (persisted : List (Match S)) : Type 0 where
    pub commit : Commit
    pub change : Bytes × Bytes
    pub matches : List (Match S)
    pub is_child : IsChild commit
    pub changes : Changes commit (ok change)
    pub is_its : IsItsChange change
    pub trusted : readings.trusted_ranges_for_changeset change.0 change.1 ≡ ok matches
    pub own : with_id range.range_id matches ≡ persisted

  pub data Outcome : SquashResult (ValidatedSquashPlan S) → Type 0 where
    no_oid : (e : SquashError) → readings.from_str candidate ≡ err e → Outcome (err e)
    no_commit :
        (oid : Oid) (e : SquashError)
        → readings.from_str candidate ≡ ok oid
        → readings.find_commit oid ≡ err e
        → Outcome (err e)
    no_parent_id :
        (commit : Commit) (e : SquashError)
        → IsFound commit
        → readings.parent_count commit ≡ 1
        → readings.parent_id commit ≡ err e
        → Outcome (err e)
    topology :
        (commit : Commit)
        → IsFound commit
        → IsOther commit
        → Outcome (err (invalid (codes "candidate topology changed")))
    no_change :
        (commit : Commit) (e : SquashError)
        → IsChild commit
        → Changes commit (err e)
        → Outcome (err e)
    changeset :
        (commit : Commit) (change : Bytes × Bytes)
        → IsChild commit
        → Changes commit (ok change)
        → ¬ IsItsChange change
        → Outcome (err (invalid (codes "candidate changeset differs from range")))
    no_ranges :
        (commit : Commit) (change : Bytes × Bytes) (e : SquashError)
        → IsChild commit
        → Changes commit (ok change)
        → IsItsChange change
        → readings.trusted_ranges_for_changeset change.0 change.1 ≡ err e
        → Outcome (err e)
    ambiguous :
        (persisted : List (Match S))
        → Reads persisted
        → ((m : Match S) → persisted ≢ m ∷ [])
        → Outcome (err (invalid (codes "trusted range changed")))
    no_source :
        (persisted : RangeEvidence)
        → Reads ((persisted, []) ∷ [])
        → Outcome (err (invalid (codes "range has no source snapshots")))
    payload :
        (persisted : RangeEvidence) (sources : List (RangeSourceSnapshot S))
        → Reads ((persisted, sources) ∷ [])
        → sources ≢ []
        → persisted ≢ range
        → Outcome (err (invalid (codes "range payload changed")))
    made :
        (sources : List (RangeSourceSnapshot S)) (events : List DerivationEvent)
        → Reads ((range, sources) ∷ [])
        → IsPartition sha candidate range.range_id sources events
        → Outcome (
            ok (record {
              worktree = worktree;
              symbolic_ref = symbolic_ref;
              expected_cursor = expected_cursor;
              candidate = candidate;
              expected_parent = expected_parent;
              expected_head = expected_head;
              range = range;
              sources = sources;
              events = events;
            }))

  abbrev matched : Match S → SquashResult (ValidatedSquashPlan S)
  matched =
      build_match sha worktree symbolic_ref expected_cursor candidate expected_parent expected_head
        range

  -- validate_events passes the events.
  match-Outcome : (m : Match S) → Reads (m ∷ []) → Outcome (matched m)
  unfolding build_match validated
  match-Outcome (r, []) reads = no_source r reads
  match-Outcome (r, s ∷ ss) reads = elim (Bool-cases (range_eq r range)) [
    | inl same ↦
        let events = build_events sha candidate range.range_id (s ∷ ss) in
        let h = build_events-IsPartition sha candidate range.range_id (s ∷ ss) (λ none. cc) in
        let passes = IsPartition-validate_events sha candidate range.range_id (s ∷ ss) events h in
        let at = range_eq→≡ r range same in
        let step : matched (range, s ∷ ss) ≡ ok _ = simp (range_eq_refl, passes) in
        subst (λ x. Outcome (matched (x, s ∷ ss))) (sym at)
          (subst Outcome (sym step)
            (made (s ∷ ss) events (subst (λ x. Reads ((x, s ∷ ss) ∷ [])) at reads) h))
    | inr other ↦
        let step : matched (r, s ∷ ss) ≡ err (invalid (codes "range payload changed")) =
          simp other in
        subst Outcome (sym step)
          (payload r (s ∷ ss) reads (λ none. cc) (range_differs r range other))
  ]

  persisted-Outcome :
      (ms : List (Match S))
      → Reads ms
      → Outcome (
          build_persisted sha worktree symbolic_ref expected_cursor candidate expected_parent
            expected_head range ms)
  unfolding build_persisted
  persisted-Outcome [] reads = ambiguous [] reads (λ m one. cc)
  persisted-Outcome (m ∷ []) reads = match-Outcome m reads
  persisted-Outcome (m ∷ n ∷ ms) reads = ambiguous (m ∷ n ∷ ms) reads (λ o one. cc)

  change-Outcome :
      (commit : Commit) (change : Bytes × Bytes)
      → IsChild commit
      → Changes commit (ok change)
      → Outcome (
          build_change sha worktree symbolic_ref expected_cursor candidate expected_parent
            expected_head range readings change)
  unfolding build_change
  change-Outcome commit (algorithm, digest) child changes =
      elim (Bool-cases
        (bytes_eq algorithm range.changeset_algorithm && bytes_eq digest range.changeset_digest)) [
          | inl same ↦
              let first : bytes_eq algorithm range.changeset_algorithm ≡ true = ground arith in
              let second : bytes_eq digest range.changeset_digest ≡ true = ground arith in
              let is_its : IsItsChange (algorithm, digest) = (
                bytes_eq→≡ algorithm range.changeset_algorithm first,
                bytes_eq→≡ digest range.changeset_digest second,
              ) in
              rw same (
                bind-cases (readings.trusted_ranges_for_changeset algorithm digest) Outcome
                  (λ e fails. no_ranges commit (algorithm, digest) e child changes is_its fails)
                  (λ matches trusted. persisted-Outcome (with_id range.range_id matches) (record {
                    commit = commit;
                    change = (algorithm, digest);
                    matches = matches;
                    is_child = child;
                    changes = changes;
                    is_its = is_its;
                    trusted = trusted;
                    own = refl;
                  })))
          | inr other ↦ rw other (
              changeset commit (algorithm, digest) child changes
                (λ is_its.
                  let first : bytes_eq algorithm range.changeset_algorithm ≡ true =
                    subst (λ x. bytes_eq algorithm x ≡ true) is_its.0 (bytes_eq_refl algorithm) in
                  let second : bytes_eq digest range.changeset_digest ≡ true =
                    subst (λ x. bytes_eq digest x ≡ true) is_its.1 (bytes_eq_refl digest) in
                  false≢true (sym other ∙ simp (first, second))))
        ]

  change_of-Changes :
      (commit : Commit)
      → Changes commit (
          change_of sha worktree symbolic_ref expected_cursor candidate expected_parent
            expected_head range readings commit)
  unfolding change_of
  change_of-Changes commit =
      bind-cases (readings.parent commit) (Changes commit) (λ e fails. no_parent fails)
        (λ parent a.
          bind-cases (readings.tree parent) (Changes commit) (λ e fails. no_base parent a fails)
            (λ base b.
              bind-cases (readings.tree commit) (Changes commit)
                (λ e fails. no_tree parent base a b fails)
                (λ result c. identified parent base result a b c refl)))

  child-Outcome :
      (commit : Commit)
      → IsChild commit
      → Outcome (
          build_child sha worktree symbolic_ref expected_cursor candidate expected_parent
            expected_head range readings commit true)
  unfolding build_child
  child-Outcome commit child =
      let change =
        change_of sha worktree symbolic_ref expected_cursor candidate expected_parent expected_head
          range readings commit in
      let changes = change_of-Changes commit in
      bind-cases change Outcome
        (λ e fails. no_change commit e child (subst (Changes commit) fails changes))
        (λ found goes. change-Outcome commit found child (subst (Changes commit) goes changes))

  -- The build goes on from whether the parent matches.
  abbrev further : Commit → Bool → SquashResult (ValidatedSquashPlan S)
  further commit matches =
      build_child sha worktree symbolic_ref expected_cursor candidate expected_parent expected_head
        range readings commit matches

  parent_id-Outcome :
      (commit : Commit) (r : SquashResult Bytes)
      → IsFound commit
      → readings.parent_count commit ≡ 1
      → readings.parent_id commit ≡ r
      → Outcome
          (r >>= (λ id. ok (bytes_eq id expected_parent)) >>= (λ matches. further commit matches))
  unfolding build_child
  parent_id-Outcome commit (err e) found count named = no_parent_id commit e found count named
  parent_id-Outcome commit (ok id) found count named =
      elim (Bool-cases (bytes_eq id expected_parent)) [
        | inl same ↦
            let at = bytes_eq→≡ id expected_parent same in
            rw same (child-Outcome commit (found, count, named ∙ ap ok at))
        | inr other ↦
            let differs = bytes_differ id expected_parent other in
            rw other (topology commit found (inr (count, (id, (named, differs)))))
      ]

  commit-Outcome :
      (commit : Commit)
      → IsFound commit
      → Outcome (
          parent_matches sha worktree symbolic_ref expected_cursor candidate expected_parent
            expected_head range readings commit
          >>= (λ matches. further commit matches))
  unfolding parent_matches build_child
  commit-Outcome commit found = elim (Bool-cases (readings.parent_count commit == 1)) [
    | inl one ↦
        let count : readings.parent_count commit ≡ 1 = ground arith in
        rw one (parent_id-Outcome commit (readings.parent_id commit) found count refl)
    | inr other ↦
        let count : readings.parent_count commit ≢ 1 = λ e. ground arith in
        rw other (topology commit found (inl count))
  ]

  -- Every branch of `build`, the errors of Git, of the changeset and of the database included. It fails
  -- with the error of the first call that fails, of those that read the candidate's id, the commit, its
  -- parent's id, its changeset against its parent, and the trusted ranges; it is refused where the candidate
  -- has not the expected parent alone, where its changeset is not that of the range, where not exactly one
  -- trusted range of the changeset has the id of the range, where that one has no sources, or where it is
  -- not the same range. Else it gives the plan of that range and its sources with events that cover the
  -- sources: each event passes every test of `validate_events`, and for every interaction the events of it
  -- are a single one that lists the ids of its sources in order and once, or none where it has no source.
  -- No other error is returned, so `validate_events` never refuses the events.
  pub build-Outcome : Outcome (
      build sha worktree symbolic_ref expected_cursor candidate expected_parent expected_head range
        readings)
  unfolding build
  build-Outcome =
      bind-cases (readings.from_str candidate) Outcome (λ e fails. no_oid e fails)
        (λ oid named.
          bind-cases (readings.find_commit oid) Outcome (λ e fails. no_commit oid e named fails)
            (λ commit found. commit-Outcome commit (oid, named, found)))
