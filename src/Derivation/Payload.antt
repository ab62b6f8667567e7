-- ===== src/Derivation/Payload.antt =====
-- The canonical payload tells every field of an event.
use volute.Prelude.{◌<◌, ◌^◌, ◌≡◌, sym, ap, ◌∙◌, [], length, drop, All, append-nil}
use volute.Bytes.{Bytes, decimal}
use volute.Derivation.{
  DerivationEvent, put_option, relation_name, evidence_name, origin_name, sorted_once,
  canonical_payload,
}
use volute.Derivation.Put.{
  put_inj, u64_bytes_inj, put_option_inj, put_sources_inj, IsShort, AllShort,
}
use volute.Derivation.Names.{relation_name_inj, evidence_name_inj, origin_name_inj, decimal_inj}

-- Every text of an event fits in memory.
pub record IsStored (e : DerivationEvent) : Type 0 where
  pub interaction_id : IsShort e.interaction_id
  pub target_commit : IsShort e.target_commit
  pub relation : IsShort (relation_name e.relation)
  pub version : IsShort (decimal e.evidence.version)
  pub evidence : IsShort (evidence_name e.evidence.kind)
  pub origin : IsShort (origin_name e.origin)
  pub count : length (sorted_once e.source_event_ids) < 2 ^ 64
  pub sources : All IsShort (sorted_once e.source_event_ids)
  pub old_oid : AllShort e.old_oid
  pub new_oid : AllShort e.new_oid
  pub range_id : AllShort e.range_id
  pub linked_by : AllShort e.linked_by

-- The fields of two events are the same, but for the order and repetition of the sources.
pub record IsSame (e e' : DerivationEvent) : Type 0 where
  pub interaction_id : e.interaction_id ≡ e'.interaction_id
  pub target_commit : e.target_commit ≡ e'.target_commit
  pub relation : e.relation ≡ e'.relation
  pub version : e.evidence.version ≡ e'.evidence.version
  pub evidence : e.evidence.kind ≡ e'.evidence.kind
  pub origin : e.origin ≡ e'.origin
  pub sources : sorted_once e.source_event_ids ≡ sorted_once e'.source_event_ids
  pub old_oid : e.old_oid ≡ e'.old_oid
  pub new_oid : e.new_oid ≡ e'.new_oid
  pub range_id : e.range_id ≡ e'.range_id
  pub linked_by : e.linked_by ≡ e'.linked_by

-- If the canonical payloads of two events are the same, so are all their fields, except for the event id,
-- which is no part of it, and their sources in order and without duplicates; for events whose texts have
-- fewer than 2 ^ 64 bytes each, and that have fewer than 2 ^ 64 sources.
pub canonical_payload-IsSame :
    (e e' : DerivationEvent)
    → IsStored e
    → IsStored e'
    → canonical_payload e ≡ canonical_payload e'
    → IsSame e e'
unfolding canonical_payload
canonical_payload-IsSame e e' h k same =
    let (t1, interaction, r1) =
      put_inj 1 1 _ _ _ _ h.interaction_id k.interaction_id
        (ap (λ (xs : Bytes). drop 34 xs) same) in
    let (t2, commit, r2) = put_inj 2 2 _ _ _ _ h.target_commit k.target_commit r1 in
    let (t3, relation, r3) = put_inj 3 3 _ _ _ _ h.relation k.relation r2 in
    let (t4, version, r4) = put_inj 4 4 _ _ _ _ h.version k.version r3 in
    let (t5, evidence, r5) = put_inj 5 5 _ _ _ _ h.evidence k.evidence r4 in
    let (t6, origin, r6) = put_inj 6 6 _ _ _ _ h.origin k.origin r5 in
    let (count, r7) = u64_bytes_inj _ _ _ _ h.count k.count (ap (λ (xs : Bytes). drop 1 xs) r6) in
    let (sources, r8) = put_sources_inj _ _ _ _ count h.sources k.sources r7 in
    let (old_oid, r9) = put_option_inj 9 _ _ _ _ h.old_oid k.old_oid r8 in
    let (new_oid, r10) = put_option_inj 10 _ _ _ _ h.new_oid k.new_oid r9 in
    let (range_id, r11) = put_option_inj 11 _ _ _ _ h.range_id k.range_id r10 in
    let (linked_by, r12) =
      put_option_inj 12 e.linked_by e'.linked_by [] [] h.linked_by k.linked_by (
        append-nil (put_option 12 e.linked_by)
        ∙ (r11 ∙ sym (append-nil (put_option 12 e'.linked_by)))) in
    record {
      interaction_id = interaction;
      target_commit = commit;
      relation = relation_name_inj e.relation e'.relation relation;
      version = decimal_inj e.evidence.version e'.evidence.version version;
      evidence = evidence_name_inj e.evidence.kind e'.evidence.kind evidence;
      origin = origin_name_inj e.origin e'.origin origin;
      sources = sources;
      old_oid = old_oid;
      new_oid = new_oid;
      range_id = range_id;
      linked_by = linked_by;
    }
