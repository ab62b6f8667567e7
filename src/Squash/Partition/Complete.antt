-- ===== src/Squash/Partition/Complete.antt =====
-- validate_events accepts every partition.
mod Equal
use volute.Squash.Partition.Complete.Equal.{
  held_ids_ext, sort_values-IsAscending, collect-IsAscending, maps_eq_refl,
}
use volute.Prelude.{
  ◌≡◌, ◌≤◌, refl, ap, ap₂, ◌∙◌, sym, subst, true, false, Option, none, some, List, [], ◌∷◌, ◌++◌,
  map, length, Bool-cases, inl, inr, All, All-imp, arith, some-eq,
}
use volute.Bytes.{Bytes, bytes_eq}
use volute.Bytes.Laws.{bytes_eq→≡, bytes_eq_refl}
use volute.Stimulus.Token.{Sha256}
use volute.Derivation.{DerivationEvent, less, sorted_once}
use volute.Squash.{RangeSourceSnapshot}
use volute.Squash.Order.{less_total, less_trans, texts_eq_refl}
use volute.Squash.Partition.{
  BTreeMap, held_ids, alter, collect, sort_values, maps_eq, is_absent, is_squash_event,
  insert_events, compare_partition, validate_events,
}
use volute.Squash.Partition.Maps.{
  Above, IsAscending, alter-IsAscending, held_ids-Above, held_ids-alter_same, held_ids-alter_other,
}
use volute.Squash.Partition.Exact.{
  ids_of, lists_of, single, listed, IsPartition, held_ids-collect, held_ids-insert_events,
  held_ids-sort_values, single-pushed,
}

-- No interaction is listed twice, by what is held and by the events that follow.
abbrev AtMostOnce : List DerivationEvent → BTreeMap → Type 0
AtMostOnce events m = (k : Bytes) → length (listed (held_ids k m) ++ lists_of k events) ≤ 1

module _ (e : DerivationEvent) (es : List DerivationEvent) (m : BTreeMap) where
  abbrev inserted : BTreeMap
  inserted = alter e.interaction_id (λ _. e.source_event_ids) m

  first-none : AtMostOnce (e ∷ es) m → held_ids e.interaction_id m ≡ none
  first-none once = go (held_ids e.interaction_id m) (
      subst (λ l. length (listed (held_ids e.interaction_id m) ++ l) ≤ 1) lists
        (once e.interaction_id))
    where
      lists : lists_of e.interaction_id (e ∷ es) ≡ e.source_event_ids ∷ lists_of e.interaction_id es
      lists = simp (bytes_eq_refl e.interaction_id)

      go :
          (o : Option (List Bytes))
          → length (listed o ++ e.source_event_ids ∷ lists_of e.interaction_id es) ≤ 1
          → o ≡ none
      go none h = refl
      go (some ids) h = absurd (omega arith)

  -- What follows stays so after the insertion.
  inserted-AtMostOnce : IsAscending m → AtMostOnce (e ∷ es) m → AtMostOnce es inserted
  inserted-AtMostOnce asc once k = elim (Bool-cases (bytes_eq e.interaction_id k)) [
    | inl same ↦
        let at = bytes_eq→≡ e.interaction_id k same in
        let found : held_ids k inserted ≡ some e.source_event_ids =
          subst (λ i. held_ids i inserted ≡ some e.source_event_ids) at
            (held_ids-alter_same e.interaction_id (λ _. e.source_event_ids) m asc) in
        let missing : held_ids k m ≡ none = subst (λ i. held_ids i m ≡ none) at (first-none once) in
        let lists : lists_of k (e ∷ es) ≡ e.source_event_ids ∷ lists_of k es = simp same in
        subst (λ l. length l ≤ 1)
          (ap₂ (λ o l. listed o ++ l) missing lists
            ∙ ap (λ o. listed o ++ lists_of k es) (sym found))
          (once k)
    | inr other ↦
        let kept : held_ids k inserted ≡ held_ids k m = held_ids-alter_other k _ _ m other in
        let lists : lists_of k (e ∷ es) ≡ lists_of k es = simp other in
        subst (λ l. length l ≤ 1) (ap₂ (λ o l. listed o ++ l) (sym kept) lists) (once k)
  ]

-- The loop then returns no error.
insert_events-some :
    (sha : Sha256) (candidate range_id : Bytes) (events : List DerivationEvent) (m : BTreeMap)
    → All (λ e. is_squash_event sha candidate range_id e ≡ true) events
    → IsAscending m
    → AtMostOnce events m
    → (actual : BTreeMap) × (insert_events sha candidate range_id events m ≡ some actual)
      × IsAscending actual
unfolding insert_events is_absent
insert_events-some sha candidate range_id [] m all asc once = (m, refl, asc)
insert_events-some sha candidate range_id (e ∷ es) m all asc once =
    let rest =
      insert_events-some sha candidate range_id es (inserted e es m) all.1
        (alter-IsAscending e.interaction_id _ m asc) (inserted-AtMostOnce e es m asc once) in
    let missing = first-none e es m once in
    let passes = all.0 in
    let goes = rest.1 in
    let step : insert_events sha candidate range_id (e ∷ es) m
        ≡ insert_events sha candidate range_id es (inserted e es m) =
      simp (passes, missing) in
    (rest.0, step ∙ goes, rest.2)

listed-inj : (o p : Option (List Bytes)) → listed o ≡ listed p → o ≡ p
listed-inj none none h = refl
listed-inj none (some p) h = cc
listed-inj (some o) none h = cc
listed-inj (some o) (some p) h = cc

single-le : (ids : List Bytes) → length (single ids) ≤ 1
single-le [] = omega arith
single-le (id ∷ ids) = omega arith

module _ {S : Type 0} where
  -- For every interaction.
  wanted_ids :
      (k : Bytes) (sources : List (RangeSourceSnapshot S))
      → listed (held_ids k (sort_values (collect sources []))) ≡ single (ids_of k sources)
  unfolding held_ids
  wanted_ids k sources =
      held_ids-sort_values k (collect sources [])
      ∙ ap (λ o. map sorted_once (listed o)) (held_ids-collect k sources [] tt)
      ∙ single-pushed (ids_of k sources)

  partition-AtMostOnce :
      {sha : Sha256} {candidate range_id : Bytes} (sources : List (RangeSourceSnapshot S))
      (events : List DerivationEvent)
      → IsPartition sha candidate range_id sources events
      → AtMostOnce events []
  unfolding held_ids
  partition-AtMostOnce sources events h k =
      subst (λ l. length l ≤ 1) (sym (h.lists k)) (single-le (ids_of k sources))

  -- Where there is a source, each event passes every test, and for every interaction the events of it are
  -- a single one that lists the ids of its sources in order and once, or none where it has no source,
  -- `validate_events` returns no error.
  pub IsPartition-validate_events :
      (sha : Sha256) (candidate range_id : Bytes) (sources : List (RangeSourceSnapshot S))
      (events : List DerivationEvent)
      → IsPartition sha candidate range_id sources events
      → validate_events sha candidate range_id sources events ≡ none
  unfolding validate_events compare_partition held_ids
  IsPartition-validate_events sha candidate range_id [] events h = absurd (h.some_source refl)
  IsPartition-validate_events sha candidate range_id (s ∷ ss) events h =
      let (actual, goes, asc) =
        insert_events-some sha candidate range_id events [] h.is_squash tt
          (partition-AtMostOnce (s ∷ ss) events h) in
      let expected = sort_values (collect (s ∷ ss) []) in
      let asc' : IsAscending expected =
        sort_values-IsAscending _ (collect-IsAscending (s ∷ ss) [] tt) in
      let same : actual ≡ expected = held_ids_ext actual expected asc asc' (λ k. listed-inj _ _ (
        sym (held_ids-insert_events sha candidate range_id k events [] tt goes)
        ∙ h.lists k
        ∙ sym (wanted_ids k (s ∷ ss)))) in
      let equal : maps_eq actual expected ≡ true =
        subst (λ m. maps_eq actual m ≡ true) same (maps_eq_refl actual) in
      ap (λ o. compare_partition o expected) goes ∙ simp equal
