-- ===== src/Squash/Select.antt =====
-- What select_relink_range chooses.
use mathlib.Core.Bool.{false≢true}
use volute.Prelude.{
  ◌<◌, ◌≡◌, refl, ap, ◌∙◌, sym, subst, true, false, Option, none, some, List, [], ◌∷◌, length, ltb,
  if◌then◌else◌, arith, Bool-cases, inl, inr, ◌⊎◌, All,
}
use volute.Derivation.{less}
use volute.Squash.{
  RangeClaim, range_claim, claim_eq, Match, any_differs, is_greater, max_from, select_relink_range,
}
use volute.Squash.Order.{not_less_trans, less_asym, less_irrefl, claim_eq_refl, claim_eq→≡}

module _ {S : Type 0} where
  -- The second has more sources, or as many and no greater id.
  abbrev pub Below : Match S → Match S → Type 0
  Below o m =
      (length o.1 < length m.1)
      ⊎ ((length o.1 ≡ length m.1) × (less o.0.range_id m.0.range_id ≡ false))

  Below-refl : (m : Match S) → Below m m
  Below-refl m = inr (refl, less_irrefl m.0.range_id)

  Below-trans : (l m n : Match S) → Below l m → Below m n → Below l n
  Below-trans l m n (inl h) (inl k) = inl (omega arith)
  Below-trans l m n (inl h) (inr k) = inl (let e = k.0 in omega arith)
  Below-trans l m n (inr h) (inl k) = inl (let e = h.0 in omega arith)
  Below-trans l m n (inr h) (inr k) = inr (h.0 ∙ k.0, not_less_trans _ _ _ h.1 k.1)

  is_greater→Below : (l r : Match S) → is_greater l r ≡ true → Below r l
  unfolding is_greater
  is_greater→Below l r h = elim (Bool-cases (ltb (length r.1) (length l.1))) [
    | inl fewer ↦ inl (ground arith)
    | inr many ↦
        let lower : less l.0.range_id r.0.range_id ≡ true = ground arith in
        inr (ground arith, less_asym _ _ lower)
  ]

  not_greater→Below : (l r : Match S) → is_greater l r ≡ false → Below l r
  unfolding is_greater
  not_greater→Below l r h = elim (Bool-cases (ltb (length l.1) (length r.1))) [
    | inl fewer ↦ inl (ground arith)
    | inr many ↦ let same : length l.1 ≡ length r.1 = ground arith in inr (same, ground arith)
  ]

  abbrev pub Among : Match S → List (Match S) → Type 0
  Among m [] = ⊥
  Among m (o ∷ os) = (m ≡ o) ⊎ Among m os

  -- One that is in the list, with all others below it.
  abbrev pub IsBest : Match S → List (Match S) → Type 0
  IsBest m ms = Among m ms × All (λ o. Below o m) ms

  max_from-IsBest : (b : Match S) (ms : List (Match S)) → IsBest (max_from b ms) (b ∷ ms)
  unfolding max_from
  max_from-IsBest b [] = (inl refl, (Below-refl b, tt))
  max_from-IsBest b (m ∷ ms) = elim (Bool-cases (is_greater b m)) [
    | inl keeps ↦
        let best = max_from-IsBest b ms in
        let e : max_from (if is_greater b m then b else m) ms ≡ max_from b ms = simp keeps in
        let below = best.1.0 in
        subst (λ x. IsBest x (b ∷ m ∷ ms)) (sym e)
          (
            skip (max_from b ms) best.0,
            (below, (Below-trans m b (max_from b ms) (is_greater→Below b m keeps) below, best.1.1)),
          )
    | inr takes ↦
        let best = max_from-IsBest m ms in
        let e : max_from (if is_greater b m then b else m) ms ≡ max_from m ms = simp takes in
        let below = best.1.0 in
        subst (λ x. IsBest x (b ∷ m ∷ ms)) (sym e)
          (
            inr best.0,
            (Below-trans b m (max_from m ms) (not_greater→Below b m takes) below, best.1),
          )
  ]
    where
      skip : (x : Match S) → Among x (b ∷ ms) → Among x (b ∷ m ∷ ms)
      skip x (inl e) = inl e
      skip x (inr among) = inr (inr among)

  -- All make the claim.
  abbrev pub Claims : RangeClaim → List (Match S) → Type 0
  Claims c ms = All (λ m. range_claim m.0 ≡ c) ms

  any_differs-Claims :
      (c : RangeClaim) (ms : List (Match S)) → any_differs c ms ≡ false → Claims c ms
  unfolding any_differs
  any_differs-Claims c [] h = tt
  any_differs-Claims c (m ∷ ms) h =
      let same : claim_eq (range_claim m.0) c ≡ true = ground arith in
      (claim_eq→≡ _ _ same, any_differs-Claims c ms (ground arith))

  Claims→any_differs :
      (c : RangeClaim) (ms : List (Match S)) → Claims c ms → any_differs c ms ≡ false
  unfolding any_differs
  Claims→any_differs c [] h = refl
  Claims→any_differs c (m ∷ ms) h =
      let same = ap (λ d. claim_eq d c) h.0 ∙ claim_eq_refl c in
      let rest = Claims→any_differs c ms h.1 in ground arith

  pub All-Among :
      (P : Match S → Type 0) (ms : List (Match S)) → All P ms → (m : Match S) → Among m ms → P m
  All-Among P [] h m among = elim among [ ]
  All-Among P (o ∷ os) h m (inl e) = subst P (sym e) h.0
  All-Among P (o ∷ os) h m (inr among) = All-Among P os h.1 m among

  -- What a choice among the matches has to be.
  abbrev pub Relinks : List (Match S) → Option (Match S) → Type 0
  Relinks ms none = (ms ≡ []) ⊎ ((c : RangeClaim) → ¬ Claims c ms)
  Relinks ms (some m) = Claims (range_claim m.0) ms × IsBest m ms

  -- `select_relink_range` refuses exactly where there is no match or no claim that all matches make. Else
  -- it chooses one of the matches, whose claim all make, and no match has more sources, or as many and a
  -- lower id.
  pub select_relink_range-Relinks : (ms : List (Match S)) → Relinks ms (select_relink_range ms)
  unfolding select_relink_range
  select_relink_range-Relinks [] = inl refl
  select_relink_range-Relinks (m ∷ ms) =
      elim (Bool-cases (any_differs (range_claim m.0) (m ∷ ms))) [
        | inl differs ↦
            let e : select_relink_range (m ∷ ms) ≡ none = simp differs in
            subst (Relinks (m ∷ ms)) (sym e) (
              inr (λ c all.
                let same =
                  Claims→any_differs _ (m ∷ ms) (subst (λ d. Claims d (m ∷ ms)) (sym all.0) all) in
                false≢true (sym same ∙ differs)))
        | inr agree ↦
            let e : select_relink_range (m ∷ ms) ≡ some (max_from m ms) = simp agree in
            let all = any_differs-Claims _ (m ∷ ms) agree in
            let best = max_from-IsBest m ms in
            subst (Relinks (m ∷ ms)) (sym e) (
              subst (λ d. Claims d (m ∷ ms))
                  (sym (All-Among (λ o. range_claim o.0 ≡ _) (m ∷ ms) all _ best.0)) all,
              best,
            )
      ]
