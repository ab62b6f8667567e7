-- ===== src/Squash/Build/Events.antt =====
-- The events of build cover the sources.
use mathlib.Core.Bool.{false≢true}
use volute.Prelude.{
  ◌≡◌, ◌≢◌, refl, ap, ◌∙◌, sym, subst, Bool, true, false, ◌||◌, List, [], ◌∷◌, Bool-cases, inl, inr,
  All, All-imp, arith,
}
use volute.Bytes.{Bytes, bytes_eq}
use volute.Bytes.Laws.{bytes_eq→≡, bytes_eq_refl}
use volute.Stimulus.Token.{Sha256}
use volute.Derivation.{
  less, ascending, sorted_once, insert_once, canonical_id, canonical_payload, verify_id,
  sources_are_canonical,
}
use volute.Squash.{RangeSourceSnapshot}
use volute.Squash.Order.{less_irrefl, less_trans, less_other}
use volute.Squash.Partition.{
  is_squash_event, is_squash_exact, is_locally_observed, is_local_hook, is_absent, names,
}
use volute.Squash.Partition.Exact.{ids_of, lists_of, single, IsPartition}
use volute.Squash.Build.{
  interactions_of, source_ids, unnamed_event, named_event, squash_event, events_for, build_events,
}

abbrev Over : Bytes → List Bytes → Type 0
Over k xs = All (λ x. less k x ≡ true) xs

abbrev IsRising : List Bytes → Type 0
IsRising [] = Unit
IsRising (x ∷ xs) = Over x xs × IsRising xs

-- The three outcomes of a round of `insert_once`.
insert_once-round :
    (x y : Bytes) (ys : List Bytes) (P : List Bytes → Type 0)
    → (less x y ≡ true → P (x ∷ y ∷ ys))
    → (bytes_eq x y ≡ true → P (y ∷ ys))
    → (less y x ≡ true → P (y ∷ insert_once x ys))
    → P (insert_once x (y ∷ ys))
unfolding insert_once
insert_once-round x y ys P before found after = elim (Bool-cases (less x y)) [
  | inl low ↦
      let step : insert_once x (y ∷ ys) ≡ x ∷ y ∷ ys = simp low in subst P (sym step) (before low)
  | inr high ↦ elim (Bool-cases (bytes_eq x y)) [
    | inl same ↦
        let step : insert_once x (y ∷ ys) ≡ y ∷ ys = simp (high, same) in
        subst P (sym step) (found same)
    | inr other ↦
        let step : insert_once x (y ∷ ys) ≡ y ∷ insert_once x ys = simp (high, other) in
        subst P (sym step) (after (less_other x y other high))
  ]
]

insert_once-Over :
    (k x : Bytes) (ys : List Bytes) → less k x ≡ true → Over k ys → Over k (insert_once x ys)
unfolding insert_once
insert_once-Over k x [] low over = (low, tt)
insert_once-Over k x (y ∷ ys) low over =
    insert_once-round x y ys (Over k) (λ before. (low, over)) (λ same. over)
      (λ after. (over.0, insert_once-Over k x ys low over.1))

insert_once-IsRising : (x : Bytes) (ys : List Bytes) → IsRising ys → IsRising (insert_once x ys)
unfolding insert_once
insert_once-IsRising x [] h = (tt, tt)
insert_once-IsRising x (y ∷ ys) h =
    insert_once-round x y ys IsRising
      (λ before. ((before, All-imp ys (λ z over. less_trans x y z before over) h.0), h)) (λ same. h)
      (λ after. (insert_once-Over y x ys after h.0, insert_once-IsRising x ys h.1))

sorted_once-IsRising : (xs : List Bytes) → IsRising (sorted_once xs)
unfolding sorted_once
sorted_once-IsRising [] = tt
sorted_once-IsRising (x ∷ xs) = insert_once-IsRising x (sorted_once xs) (sorted_once-IsRising xs)

IsRising-ascending : (xs : List Bytes) → IsRising xs → ascending xs ≡ true
unfolding ascending
IsRising-ascending [] h = refl
IsRising-ascending (x ∷ []) h = refl
IsRising-ascending (x ∷ y ∷ ys) h =
    let low = h.0.0 in let rest = IsRising-ascending (y ∷ ys) h.1 in simp (low, rest)

abbrev among : Bytes → List Bytes → Bool
among k [] = false
among k (x ∷ xs) = bytes_eq x k || among k xs

among-insert_once :
    (k x : Bytes) (ys : List Bytes) → among k (insert_once x ys) ≡ bytes_eq x k || among k ys
unfolding insert_once
among-insert_once k x [] = refl
among-insert_once k x (y ∷ ys) =
    insert_once-round x y ys (λ zs. among k zs ≡ bytes_eq x k || among k (y ∷ ys)) (λ before. refl)
      (λ same.
        let e : bytes_eq x k ≡ bytes_eq y k = ap (λ z. bytes_eq z k) (bytes_eq→≡ x y same) in
        ground (arith, e))
      (λ after. let rest = among-insert_once k x ys in ground (arith, rest))

among-sorted_once : (k : Bytes) (xs : List Bytes) → among k (sorted_once xs) ≡ among k xs
unfolding sorted_once
among-sorted_once k [] = refl
among-sorted_once k (x ∷ xs) =
    among-insert_once k x (sorted_once xs) ∙ ap (◌||◌ (bytes_eq x k)) (among-sorted_once k xs)

Over-among : (k : Bytes) (xs : List Bytes) → Over k xs → among k xs ≡ false
Over-among k [] h = refl
Over-among k (x ∷ xs) h = elim (Bool-cases (bytes_eq x k)) [
  | inl same ↦
      let low = subst (λ z. less k z ≡ true) (bytes_eq→≡ x k same) h.0 in
      absurd (false≢true (sym (less_irrefl k) ∙ low))
  | inr other ↦ let rest = Over-among k xs h.1 in ground (arith, other, rest)
]

abbrev once_if : Bool → List Bytes → List (List Bytes)
once_if true ids = ids ∷ []
once_if false ids = []

module _ {S : Type 0} where
  source_ids-ids_of :
      (k : Bytes) (sources : List (RangeSourceSnapshot S)) → source_ids k sources ≡ ids_of k sources
  unfolding source_ids
  source_ids-ids_of k [] = refl
  source_ids-ids_of k (s ∷ ss) = let rest = source_ids-ids_of k ss in simp rest

  -- An interaction with no source has no ids, and any other has.
  once_if-single :
      (k : Bytes) (sources : List (RangeSourceSnapshot S))
      → once_if (among k (interactions_of sources)) (sorted_once (ids_of k sources))
        ≡ single (ids_of k sources)
  unfolding interactions_of
  once_if-single k [] = refl
  once_if-single k (s ∷ ss) =
      let rest = once_if-single k ss in
      elim (Bool-cases (bytes_eq s.interaction_id k)) [
        | inl same ↦ simp same
        | inr other ↦ simp (other, rest)
      ]

  module _ (sha : Sha256) (candidate range_id : Bytes)
      (sources : List (RangeSourceSnapshot S)) where
    -- Its own id is right, since the id is no part of the digest's input, and its sources are in order.
    squash_event-is_squash_event :
        (i : Bytes)
        → is_squash_event sha candidate range_id (squash_event sha candidate range_id sources i)
          ≡ true
    unfolding is_squash_event squash_event unnamed_event named_event verify_id canonical_id
        canonical_payload is_squash_exact is_locally_observed is_local_hook is_absent names
        sources_are_canonical
    squash_event-is_squash_event i =
        let rising = sorted_once-IsRising (source_ids i sources) in
        let ordered = IsRising-ascending _ rising in simp (bytes_eq_refl, ordered)

    events_for-All :
        (is : List Bytes)
        → All
            (λ e. is_squash_event sha candidate range_id e ≡ true)
            (events_for sha candidate range_id sources is)
    unfolding events_for
    events_for-All [] = tt
    events_for-All (i ∷ is) = (squash_event-is_squash_event i, events_for-All is)

    events_for-lists :
        (k : Bytes) (is : List Bytes)
        → IsRising is
        → lists_of k (events_for sha candidate range_id sources is)
          ≡ once_if (among k is) (sorted_once (ids_of k sources))
    unfolding events_for squash_event unnamed_event named_event
    events_for-lists k [] h = refl
    events_for-lists k (i ∷ is) h =
        let rest = events_for-lists k is h.1 in
        elim (Bool-cases (bytes_eq i k)) [
          | inl same ↦
              let at = bytes_eq→≡ i k same in
              let none = Over-among k is (subst (λ j. Over j is) at h.0) in
              let ids = ap (λ j. source_ids j sources) at ∙ source_ids-ids_of k sources in
              simp (same, rest, none, ids)
          | inr other ↦ simp (other, rest)
        ]

    pub build_events-IsPartition :
        sources ≢ []
        → IsPartition sha candidate range_id sources (build_events sha candidate range_id sources)
    unfolding build_events
    build_events-IsPartition h = record {
      is_squash = events_for-All (sorted_once (interactions_of sources));
      some_source = h;
      lists = λ k.
          events_for-lists k _ (sorted_once-IsRising (interactions_of sources))
          ∙ ap (λ b. once_if b (sorted_once (ids_of k sources)))
              (among-sorted_once k (interactions_of sources))
          ∙ once_if-single k sources;
    }
