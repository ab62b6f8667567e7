-- ===== src/Squash/Partition/Exact.antt =====
-- What validate_events accepts.
use volute.Prelude.{
  map, ◌≡◌, ◌≢◌, refl, ap, ap₂, ◌∙◌, sym, subst, true, Option, none, some, List, [], ◌∷◌, ◌++◌,
  if◌then◌else◌, Bool-cases, inl, inr, All, arith, append-nil, append_assoc, some-eq,
}
use volute.Bytes.{Bytes, bytes_eq}
use volute.Bytes.Laws.{bytes_eq→≡}
use volute.Stimulus.Token.{Sha256}
use volute.Derivation.{DerivationEvent, sorted_once}
use volute.Squash.{RangeSourceSnapshot, texts_eq}
use volute.Squash.Order.{texts_eq→≡}
use volute.Squash.Partition.{
  BTreeMap, held_ids, alter, push_id, collect, sort_values, maps_eq, is_absent, is_squash_event,
  insert_events, compare_partition, validate_events,
}
use volute.Squash.Partition.Maps.{
  IsAscending, alter-IsAscending, held_ids-alter_same, held_ids-alter_other,
}

-- The sources of an interaction, in order.
abbrev pub ids_of : {S : Type 0} → Bytes → List (RangeSourceSnapshot S) → List Bytes
ids_of k [] = []
ids_of k (s ∷ ss) = if bytes_eq s.interaction_id k then s.source_id ∷ ids_of k ss else ids_of k ss

-- What the events of an interaction list, each one.
abbrev pub lists_of : Bytes → List DerivationEvent → List (List Bytes)
lists_of k [] = []
lists_of k (e ∷ es) =
    if bytes_eq e.interaction_id k then e.source_event_ids ∷ lists_of k es else lists_of k es

-- What they should list: all ids in order and once, in a single event, if there is any id.
abbrev pub single : List Bytes → List (List Bytes)
single [] = []
single (id ∷ ids) = sorted_once (id ∷ ids) ∷ []

abbrev pub listed : Option (List Bytes) → List (List Bytes)
listed none = []
listed (some ids) = ids ∷ []

abbrev pub pushed : Option (List Bytes) → List Bytes → Option (List Bytes)
pushed o [] = o
pushed o (id ∷ ids) = pushed (some (push_id id o)) ids

pushed-some : (xs ids : List Bytes) → pushed (some xs) ids ≡ some (xs ++ ids)
unfolding push_id
pushed-some xs [] = ap some (sym (append-nil xs))
pushed-some xs (id ∷ ids) =
    pushed-some (xs ++ id ∷ []) ids ∙ ap some (append_assoc xs (id ∷ []) ids)

pub held_ids-collect :
    {S : Type 0} (k : Bytes) (sources : List (RangeSourceSnapshot S)) (m : BTreeMap)
    → IsAscending m
    → held_ids k (collect sources m) ≡ pushed (held_ids k m) (ids_of k sources)
unfolding collect
held_ids-collect k [] m h = refl
held_ids-collect k (s ∷ ss) m h =
    let m' = alter s.interaction_id (push_id s.source_id) m in
    let rest =
      held_ids-collect k ss m' (alter-IsAscending s.interaction_id (push_id s.source_id) m h) in
    elim (Bool-cases (bytes_eq s.interaction_id k)) [
      | inl same ↦
          let found : held_ids k m' ≡ some (push_id s.source_id (held_ids k m)) =
            subst
              (λ i.
                held_ids k (alter i (push_id s.source_id) m)
                ≡ some (push_id s.source_id (held_ids k m)))
              (sym (bytes_eq→≡ _ _ same)) (held_ids-alter_same k (push_id s.source_id) m h) in
          let ids : ids_of k (s ∷ ss) ≡ s.source_id ∷ ids_of k ss = simp same in
          rest ∙ ap (λ o. pushed o (ids_of k ss)) found ∙ ap (pushed (held_ids k m)) (sym ids)
      | inr other ↦
          let kept : held_ids k m' ≡ held_ids k m =
            held_ids-alter_other k s.interaction_id (push_id s.source_id) m other in
          let ids : ids_of k (s ∷ ss) ≡ ids_of k ss = simp other in
          rest ∙ ap (λ o. pushed o (ids_of k ss)) kept ∙ ap (pushed (held_ids k m)) (sym ids)
    ]

is_absent→none : (o : Option (List Bytes)) → is_absent o ≡ true → o ≡ none
unfolding is_absent
is_absent→none none h = refl
is_absent→none (some x) h = cc

pub held_ids-insert_events :
    (sha : Sha256) (candidate range_id k : Bytes) (events : List DerivationEvent) (m : BTreeMap)
    {actual : BTreeMap}
    → IsAscending m
    → insert_events sha candidate range_id events m ≡ some actual
    → listed (held_ids k m) ++ lists_of k events ≡ listed (held_ids k actual)
unfolding insert_events
held_ids-insert_events sha candidate range_id k [] m asc h =
    append-nil (listed (held_ids k m)) ∙ ap (λ a. listed (held_ids k a)) (some-eq h)
held_ids-insert_events sha candidate range_id k (e ∷ es) m {actual} asc h =
    let id = e.interaction_id in
    let m' = alter id (λ _. e.source_event_ids) m in
    let absent : is_absent (held_ids id m) ≡ true = ground arith in
    let goes : insert_events sha candidate range_id es m' ≡ some actual = ground arith in
    let rest =
      held_ids-insert_events sha candidate range_id k es m' (alter-IsAscending id _ m asc) goes in
    elim (Bool-cases (bytes_eq id k)) [
      | inl same ↦
          let at : id ≡ k = bytes_eq→≡ id k same in
          let missing : held_ids k m ≡ none =
            subst (λ i. held_ids i m ≡ none) at (is_absent→none (held_ids id m) absent) in
          let found : held_ids k m' ≡ some e.source_event_ids =
            subst (λ i. held_ids k (alter i (λ _. e.source_event_ids) m) ≡ some e.source_event_ids)
              (sym at) (held_ids-alter_same k (λ _. e.source_event_ids) m asc) in
          let lists : lists_of k (e ∷ es) ≡ e.source_event_ids ∷ lists_of k es = simp same in
          ap₂ (λ o l. listed o ++ l) missing lists
          ∙ ap (λ o. listed o ++ lists_of k es) (sym found)
          ∙ rest
      | inr other ↦
          let kept : held_ids k m' ≡ held_ids k m = held_ids-alter_other k id _ m other in
          let lists : lists_of k (e ∷ es) ≡ lists_of k es = simp other in
          ap (◌++◌ (listed (held_ids k m))) lists
          ∙ ap (λ o. listed o ++ lists_of k es) (sym kept)
          ∙ rest
    ]

pub held_ids-sort_values :
    (k : Bytes) (m : BTreeMap)
    → listed (held_ids k (sort_values m)) ≡ map sorted_once (listed (held_ids k m))
unfolding held_ids sort_values
held_ids-sort_values k [] = refl
held_ids-sort_values k (e ∷ m) =
    let rest = held_ids-sort_values k m in
    elim (Bool-cases (bytes_eq e.0 k)) [ inl same ↦ simp same | inr other ↦ simp (other, rest) ]

maps_eq→≡ : (m n : BTreeMap) → maps_eq m n ≡ true → m ≡ n
unfolding maps_eq
maps_eq→≡ [] [] h = refl
maps_eq→≡ [] (y ∷ ys) h = cc
maps_eq→≡ (x ∷ xs) [] h = cc
maps_eq→≡ (x ∷ xs) (y ∷ ys) h =
    let keys : bytes_eq x.0 y.0 ≡ true = ground arith in
    let values : texts_eq x.1 y.1 ≡ true = ground arith in
    let rest : maps_eq xs ys ≡ true = ground arith in
    ap₂ (λ z zs. z ∷ zs) (ap₂ (λ k v. (k, v)) (bytes_eq→≡ _ _ keys) (texts_eq→≡ _ _ values))
      (maps_eq→≡ xs ys rest)

pub single-pushed : (ids : List Bytes) → map sorted_once (listed (pushed none ids)) ≡ single ids
unfolding push_id
single-pushed [] = refl
single-pushed (id ∷ ids) = ap (λ o. map sorted_once (listed o)) (pushed-some (id ∷ []) ids)

insert_events-All :
    (sha : Sha256) (candidate range_id : Bytes) (events : List DerivationEvent) (m : BTreeMap)
    {actual : BTreeMap}
    → insert_events sha candidate range_id events m ≡ some actual
    → All (λ e. is_squash_event sha candidate range_id e ≡ true) events
unfolding insert_events
insert_events-All sha candidate range_id [] m h = tt
insert_events-All sha candidate range_id (e ∷ es) m {actual} h =
    let m' = alter e.interaction_id (λ _. e.source_event_ids) m in
    let goes : insert_events sha candidate range_id es m' ≡ some actual = ground arith in
    (ground arith, insert_events-All sha candidate range_id es m' goes)

module _ {S : Type 0} where
  pub record IsPartition (sha : Sha256) (candidate range_id : Bytes)
      (sources : List (RangeSourceSnapshot S)) (events : List DerivationEvent) : Type 0 where
    pub is_squash : All (λ e. is_squash_event sha candidate range_id e ≡ true) events
    pub some_source : sources ≢ []
    pub lists : (k : Bytes) → lists_of k events ≡ single (ids_of k sources)

  compare-IsPartition :
      (sha : Sha256) (candidate range_id : Bytes) (s : RangeSourceSnapshot S)
      (ss : List (RangeSourceSnapshot S)) (events : List DerivationEvent) (o : Option BTreeMap)
      → insert_events sha candidate range_id events [] ≡ o
      → compare_partition o (sort_values (collect (s ∷ ss) [])) ≡ none
      → IsPartition sha candidate range_id (s ∷ ss) events
  unfolding compare_partition held_ids
  compare-IsPartition sha candidate range_id s ss events none inserted h = cc
  compare-IsPartition sha candidate range_id s ss events (some actual) inserted h =
      let expected = sort_values (collect (s ∷ ss) []) in
      let equal : maps_eq actual expected ≡ true = ground arith in
      record {
        is_squash = insert_events-All sha candidate range_id events [] inserted;
        some_source = λ e. cc;
        lists = λ k.
            held_ids-insert_events sha candidate range_id k events [] tt inserted
            ∙ ap (λ m. listed (held_ids k m)) (maps_eq→≡ actual expected equal)
            ∙ held_ids-sort_values k (collect (s ∷ ss) [])
            ∙ ap (λ o. map sorted_once (listed o)) (held_ids-collect k (s ∷ ss) [] tt)
            ∙ single-pushed (ids_of k (s ∷ ss));
      }

  -- Where `validate_events` returns no error, there is a source; each event passes every test, its own
  -- id and the candidate, relation, evidence, origin and range included; and for every interaction, the
  -- events of it are a single one that lists the ids of its sources in order and once, or none where it
  -- has no source.
  pub validate_events-IsPartition :
      (sha : Sha256) (candidate range_id : Bytes) (sources : List (RangeSourceSnapshot S))
      (events : List DerivationEvent)
      → validate_events sha candidate range_id sources events ≡ none
      → IsPartition sha candidate range_id sources events
  unfolding validate_events
  validate_events-IsPartition sha candidate range_id [] events h = cc
  validate_events-IsPartition sha candidate range_id (s ∷ ss) events h =
      compare-IsPartition sha candidate range_id s ss events _ refl h
