-- ===== src/Derivation/Tests.antt =====
-- The witness of the theorem on canonical payloads.
use volute.Prelude.{◌≡◌, refl, none, some, [], ◌∷◌, arith}
use volute.Bytes.{codes, decimal, bytes_eq}
use volute.Derivation.{
  DerivationEvent, canonical_payload, squash_exact, locally_observed, local_hook, relation_name,
  evidence_name, origin_name, sorted_once, insert_once, less,
}
use volute.Derivation.Payload.{IsStored, IsSame, canonical_payload-IsSame}

abbrev event : DerivationEvent
event = record {
  event_id = [];
  interaction_id = codes "3c2b1a09";
  target_commit = codes "f00d";
  relation = squash_exact;
  evidence = record { version = 2; kind = locally_observed };
  origin = local_hook;
  source_event_ids = codes "b" ∷ codes "a" ∷ codes "b" ∷ [];
  old_oid = none;
  new_oid = some (codes "beef");
  range_id = none;
  linked_by = some [];
}

-- The same sources, in order and once each.
abbrev event_again : DerivationEvent
event_again = record {
  event_id = codes "another id";
  interaction_id = codes "3c2b1a09";
  target_commit = codes "f00d";
  relation = squash_exact;
  evidence = record { version = 2; kind = locally_observed };
  origin = local_hook;
  source_event_ids = codes "a" ∷ codes "b" ∷ [];
  old_oid = none;
  new_oid = some (codes "beef");
  range_id = none;
  linked_by = some [];
}

event-IsStored : IsStored event
unfolding relation_name evidence_name origin_name sorted_once insert_once less bytes_eq decimal
event-IsStored = record {
  interaction_id = omega arith;
  target_commit = omega arith;
  relation = omega arith;
  version = omega arith;
  evidence = omega arith;
  origin = omega arith;
  count = omega arith;
  sources = (omega arith, (omega arith, tt));
  old_oid = tt;
  new_oid = omega arith;
  range_id = tt;
  linked_by = omega arith;
}

event_again-IsStored : IsStored event_again
unfolding relation_name evidence_name origin_name sorted_once insert_once less bytes_eq decimal
event_again-IsStored = record {
  interaction_id = omega arith;
  target_commit = omega arith;
  relation = omega arith;
  version = omega arith;
  evidence = omega arith;
  origin = omega arith;
  count = omega arith;
  sources = (omega arith, (omega arith, tt));
  old_oid = tt;
  new_oid = omega arith;
  range_id = tt;
  linked_by = omega arith;
}

same_payload : canonical_payload event ≡ canonical_payload event_again
unfolding canonical_payload sorted_once insert_once less bytes_eq
same_payload = refl

canonical_payload-IsSame_example : IsSame event event_again
canonical_payload-IsSame_example =
    canonical_payload-IsSame event event_again event-IsStored event_again-IsStored same_payload
