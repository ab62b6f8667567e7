-- ===== src/Squash/Partition.antt =====
-- squash.rs: validate_events, the check that the events of a squash cover its sources.
mod Maps
pub mod Complete
pub mod Exact
use volute.Prelude.{
  Bool, true, false, not, ◌&&◌, Option, none, some, List, [], ◌∷◌, ◌++◌, if◌then◌else◌, ◌==◌,
}
use volute.Bytes.{Bytes, codes, bytes_eq}
use volute.Stimulus.Token.{Sha256}
use volute.Derivation.{
  DerivationEvent, DerivationRelation, EvidenceKind, DerivationOrigin, less, sorted_once,
  sources_are_canonical, verify_id,
}
use volute.Squash.{RangeSourceSnapshot, texts_eq}

-- `BTreeMap<String, Vec<String>>`: its entries, with the keys in ascending order.
abbrev pub BTreeMap : Type 0
BTreeMap = List (Bytes × List Bytes)

unfoldable pub held_ids : Bytes → BTreeMap → Option (List Bytes)
held_ids k [] = none
held_ids k (e ∷ m) = if bytes_eq e.0 k then some e.1 else held_ids k m

-- The entry of the key made of what was there: `entry` and `insert`.
unfoldable pub alter : Bytes → (Option (List Bytes) → List Bytes) → BTreeMap → BTreeMap
alter k f [] = (k, f none) ∷ []
alter k f (e ∷ m) =
    let rest = alter k f m in
    if bytes_eq k e.0
    then (e.0, f (some e.1)) ∷ m
    else if less k e.0
    then (k, f none) ∷ e ∷ m
    else e ∷ rest

-- `or_default().push(id)`
unfoldable pub push_id : Bytes → Option (List Bytes) → List Bytes
push_id id none = id ∷ []
push_id id (some ids) = ids ++ id ∷ []

module _ {S : Type 0} where
  unfoldable pub collect : List (RangeSourceSnapshot S) → BTreeMap → BTreeMap
  collect [] m = m
  collect (source ∷ sources) m =
      collect sources (alter source.interaction_id (push_id source.source_id) m)

-- `ids.sort(); ids.dedup()` for every value.
unfoldable pub sort_values : BTreeMap → BTreeMap
sort_values [] = []
sort_values (e ∷ m) = (e.0, sorted_once e.1) ∷ sort_values m

unfoldable pub maps_eq : BTreeMap → BTreeMap → Bool
maps_eq [] [] = true
maps_eq (x ∷ xs) (y ∷ ys) = (bytes_eq x.0 y.0 && texts_eq x.1 y.1) && maps_eq xs ys
maps_eq _ _ = false

unfoldable pub is_squash_exact : DerivationRelation → Bool
is_squash_exact DerivationRelation.squash_exact = true
is_squash_exact _ = false

unfoldable pub is_locally_observed : EvidenceKind → Bool
is_locally_observed EvidenceKind.locally_observed = true
is_locally_observed _ = false

unfoldable pub is_local_hook : DerivationOrigin → Bool
is_local_hook DerivationOrigin.local_hook = true
is_local_hook _ = false

unfoldable pub is_absent {ℓ} : {A : Type ℓ} → Option A → Bool
is_absent none = true
is_absent (some x) = false

unfoldable pub names : Bytes → Option Bytes → Bool
names id none = false
names id (some given) = bytes_eq given id

-- The tests of one event before its insertion, none of which fails.
unfoldable pub is_squash_event : Sha256 → Bytes → Bytes → DerivationEvent → Bool
unfolding verify_id is_squash_exact is_locally_observed is_local_hook is_absent names
    sources_are_canonical
is_squash_event sha candidate range_id event =
    verify_id sha event
    && (bytes_eq event.target_commit candidate
        && (is_squash_exact event.relation
            && (event.evidence.version == 1
                && (is_locally_observed event.evidence.kind
                    && (is_local_hook event.origin
                        && (is_absent event.old_oid
                            && (is_absent event.new_oid
                                && (names range_id event.range_id
                                    && sources_are_canonical event))))))))

-- The loop over the events; none where it returns an error.
unfoldable pub insert_events :
    Sha256 → Bytes → Bytes → List DerivationEvent → BTreeMap → Option BTreeMap
insert_events sha candidate range_id [] actual = some actual
insert_events sha candidate range_id (event ∷ events) actual =
    let id = event.interaction_id in
    let rest =
      insert_events sha candidate range_id events (alter id (λ _. event.source_event_ids) actual) in
    if is_squash_event sha candidate range_id event && is_absent (held_ids id actual)
    then rest
    else none

unfoldable pub compare_partition : Option BTreeMap → BTreeMap → Option Bytes
compare_partition none expected = some (codes "invalid squash event partition")
compare_partition (some actual) expected =
    if maps_eq actual expected then none else some (codes "incomplete squash event partition")

-- The message of `SquashError::Invalid`, or none for `Ok`.
module _ {S : Type 0} where
  unfoldable pub validate_events :
      Sha256 → Bytes → Bytes → List (RangeSourceSnapshot S) → List DerivationEvent → Option Bytes
  validate_events sha candidate range_id [] events = some (codes "empty squash source set")
  validate_events sha candidate range_id (source ∷ sources) events =
      compare_partition (insert_events sha candidate range_id events [])
        (sort_values (collect (source ∷ sources) []))
