-- ===== src/Squash.antt =====
-- cvc-core/src/squash.rs: the choice of the range that a squash candidate may relink to, with the range
-- records of models.rs.
pub mod Build
mod Order
pub mod Partition
pub mod Reorder
pub mod Select
mod Tests
use volute.Prelude.{
  ℕ, Bool, true, false, not, ◌&&◌, ◌||◌, Option, none, some, List, [], ◌∷◌, length, ltb, ◌==◌,
  if◌then◌else◌,
}
use volute.Bytes.{Bytes, bytes_eq}
use volute.Derivation.{less}

pub record RangeMember : Type 0 where
  pub commit_oid : Bytes

pub record RangeEvidence : Type 0 where
  pub range_id : Bytes
  pub format : Bytes
  pub version : ℕ
  pub repository_identity : Bytes
  pub object_format : Bytes
  pub base_oid : Bytes
  pub tip_oid : Bytes
  pub base_tree_oid : Bytes
  pub result_tree_oid : Bytes
  pub commits : List RangeMember
  pub changeset_algorithm : Bytes
  pub changeset_digest : Bytes

-- `S` holds the snapshots.
pub record RangeSourceSnapshot (S : Type 0) : Type 0 where
  pub interaction_id : Bytes
  pub source_id : Bytes
  pub snapshot : S

pub record RangeClaim : Type 0 where
  pub object_format : Bytes
  pub base_oid : Bytes
  pub tip_oid : Bytes
  pub base_tree_oid : Bytes
  pub result_tree_oid : Bytes
  pub changeset_algorithm : Bytes
  pub changeset_digest : Bytes
  pub commits : List Bytes

unfoldable pub commit_oids : List RangeMember → List Bytes
commit_oids [] = []
commit_oids (member ∷ members) = member.commit_oid ∷ commit_oids members

unfoldable pub range_claim : RangeEvidence → RangeClaim
unfolding commit_oids
range_claim range = record {
  object_format = range.object_format;
  base_oid = range.base_oid;
  tip_oid = range.tip_oid;
  base_tree_oid = range.base_tree_oid;
  result_tree_oid = range.result_tree_oid;
  changeset_algorithm = range.changeset_algorithm;
  changeset_digest = range.changeset_digest;
  commits = commit_oids range.commits;
}

unfoldable pub texts_eq : List Bytes → List Bytes → Bool
unfolding bytes_eq
texts_eq [] [] = true
texts_eq (x ∷ xs) (y ∷ ys) = bytes_eq x y && texts_eq xs ys
texts_eq _ _ = false

-- `==` on claims, field by field.
unfoldable pub claim_eq : RangeClaim → RangeClaim → Bool
claim_eq a b =
    bytes_eq a.object_format b.object_format
    && (bytes_eq a.base_oid b.base_oid
        && (bytes_eq a.tip_oid b.tip_oid
            && (bytes_eq a.base_tree_oid b.base_tree_oid
                && (bytes_eq a.result_tree_oid b.result_tree_oid
                    && (bytes_eq a.changeset_algorithm b.changeset_algorithm
                        && (bytes_eq a.changeset_digest b.changeset_digest
                            && texts_eq a.commits b.commits))))))

abbrev pub Match : Type 0 → Type 0
Match S = RangeEvidence × List (RangeSourceSnapshot S)

module _ {S : Type 0} where
  -- `matches.iter().any(|(range, _)| range_claim(range) != claim)`
  unfoldable pub any_differs : RangeClaim → List (Match S) → Bool
  any_differs claim [] = false
  any_differs claim (m ∷ ms) = not (claim_eq (range_claim m.0) claim) || any_differs claim ms

  -- The comparison of `max_by` says that the left one is greater: it has more sources, or as many and the
  -- lower id.
  unfoldable pub is_greater : Match S → Match S → Bool
  is_greater left right =
      ltb (length right.1) (length left.1)
      || (length left.1 == length right.1 && less left.0.range_id right.0.range_id)

  -- `max_by`, from the greatest so far on: of equal ones the last stays.
  unfoldable pub max_from : Match S → List (Match S) → Match S
  max_from best [] = best
  max_from best (m ∷ ms) = max_from (if is_greater best m then best else m) ms

  unfoldable pub select_relink_range : List (Match S) → Option (Match S)
  select_relink_range [] = none
  select_relink_range (m ∷ ms) =
      if any_differs (range_claim m.0) (m ∷ ms) then none else some (max_from m ms)
