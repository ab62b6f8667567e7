-- ===== src/Derivation.antt =====
-- cvc-core/src/models.rs: the explanation of why an interaction is related to a commit, and its id.
mod Names
pub mod Put
pub mod Payload
mod Tests
use volute.Prelude.{
  ℕ, ◌+◌, ◌/◌, Bool, true, false, ◌&&◌, ◌||◌, Option, none, some, List, [], ◌∷◌, ◌++◌, ltb, ◌==◌,
  if◌then◌else◌, length,
}
use volute.Bytes.{Bytes, codes, bytes_eq, decimal}
use volute.Stimulus.Token.{Sha256, hex, be_bytes}

pub data DerivationRelation : Type 0 where
  generated temporal verified rewrite_exact squash_exact : DerivationRelation

pub data EvidenceKind : Type 0 where
  locally_observed imported_legacy remote_assertion : EvidenceKind

pub record Evidence : Type 0 where
  pub version : ℕ
  pub kind : EvidenceKind

pub data DerivationOrigin : Type 0 where
  local_hook local_linker remote_origin legacy_import : DerivationOrigin

-- An id is its text.
pub record DerivationEvent : Type 0 where
  pub event_id : Bytes
  pub interaction_id : Bytes
  pub target_commit : Bytes
  pub relation : DerivationRelation
  pub evidence : Evidence
  pub origin : DerivationOrigin
  pub source_event_ids : List Bytes
  pub old_oid : Option Bytes
  pub new_oid : Option Bytes
  pub range_id : Option Bytes
  pub linked_by : Option Bytes

-- The order of `str`, strictly.
unfoldable pub less : Bytes → Bytes → Bool
less xs [] = false
less [] (y ∷ ys) = true
less (x ∷ xs) (y ∷ ys) = ltb x y || (x == y && less xs ys)

-- `windows(2).all(|pair| pair[0] < pair[1])`
unfoldable pub ascending : List Bytes → Bool
unfolding less
ascending [] = true
ascending (x ∷ []) = true
ascending (x ∷ y ∷ ys) = less x y && ascending (y ∷ ys)

unfoldable pub sources_are_canonical : DerivationEvent → Bool
unfolding ascending
sources_are_canonical event = ascending event.source_event_ids

-- `(n as u64).to_be_bytes()`
unfoldable pub u64_bytes : ℕ → Bytes
unfolding be_bytes
u64_bytes n = be_bytes (n / 0x100000000) ++ be_bytes n

-- What `put` adds to the digest's input.
unfoldable pub put : ℕ → Bytes → Bytes
unfolding u64_bytes
put tag value = tag ∷ (u64_bytes (length value) ++ value)

unfoldable pub relation_name : DerivationRelation → Bytes
relation_name generated = codes "generated"
relation_name temporal = codes "temporal"
relation_name verified = codes "verified"
relation_name rewrite_exact = codes "rewrite_exact"
relation_name squash_exact = codes "squash_exact"

unfoldable pub evidence_name : EvidenceKind → Bytes
evidence_name locally_observed = codes "locally_observed"
evidence_name imported_legacy = codes "imported_legacy"
evidence_name remote_assertion = codes "remote_assertion"

unfoldable pub origin_name : DerivationOrigin → Bytes
origin_name local_hook = codes "local_hook"
origin_name local_linker = codes "local_linker"
origin_name remote_origin = codes "remote_assertion"
origin_name legacy_import = codes "legacy_import"

-- `sources.sort(); sources.dedup()`: what is there already is not put in again.
unfoldable pub insert_once : Bytes → List Bytes → List Bytes
unfolding less bytes_eq
insert_once x [] = x ∷ []
insert_once x (y ∷ ys) =
    let rest = insert_once x ys in
    if less x y then x ∷ y ∷ ys else if bytes_eq x y then y ∷ ys else y ∷ rest

unfoldable pub sorted_once : List Bytes → List Bytes
unfolding insert_once
sorted_once [] = []
sorted_once (x ∷ xs) = insert_once x (sorted_once xs)

unfoldable pub put_sources : List Bytes → Bytes
unfolding put
put_sources [] = []
put_sources (id ∷ ids) = put 8 id ++ put_sources ids

unfoldable pub put_option : ℕ → Option Bytes → Bytes
unfolding put
put_option tag none = tag ∷ 0 ∷ []
put_option tag (some value) = tag ∷ 1 ∷ put tag value

-- The digest's input.
unfoldable pub canonical_payload : DerivationEvent → Bytes
unfolding put relation_name evidence_name origin_name sorted_once put_sources put_option u64_bytes
canonical_payload event =
    let sources = sorted_once event.source_event_ids in
    codes "cvc.derivation-event/canonical/v2"
    ++ (0
        ∷ (put 1 event.interaction_id
            ++ (put 2 event.target_commit
                ++ (put 3 (relation_name event.relation)
                    ++ (put 4 (decimal event.evidence.version)
                        ++ (put 5 (evidence_name event.evidence.kind)
                            ++ (put 6 (origin_name event.origin)
                                ++ (7
                                    ∷ (u64_bytes (length sources)
                                        ++ (put_sources sources
                                            ++ (put_option 9 event.old_oid
                                                ++ (put_option 10 event.new_oid
                                                    ++ (put_option 11 event.range_id
                                                        ++ put_option 12
                                                            event.linked_by)))))))))))))

unfoldable pub canonical_id : Sha256 → DerivationEvent → Bytes
unfolding canonical_payload hex
canonical_id sha event = hex (sha.digest (canonical_payload event))

unfoldable pub verify_id : Sha256 → DerivationEvent → Bool
unfolding canonical_id bytes_eq
verify_id sha event = bytes_eq event.event_id (canonical_id sha event)
