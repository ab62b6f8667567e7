-- ===== src/Squash/Reorder.antt =====
-- select_relink_range does not look at the order of its matches.
use volute.Prelude.{
  ◌≡◌, refl, subst, Option, none, some, List, [], ◌∷◌, length, arith, inl, inr, All,
}
use volute.Squash.{range_claim, Match, select_relink_range}
use volute.Squash.Order.{less_total}
use volute.Squash.Select.{Below, Among, Relinks, All-Among, select_relink_range-Relinks}

module _ {S : Type 0} where
  abbrev pub Includes : List (Match S) → List (Match S) → Type 0
  Includes ns ms = (m : Match S) → Among m ms → Among m ns

  Among-All :
      (P : Match S → Type 0) (ms : List (Match S)) → ((m : Match S) → Among m ms → P m) → All P ms
  Among-All P [] h = tt
  Among-All P (o ∷ os) h = (h o (inl refl), Among-All P os (λ m among. h m (inr among)))

  Includes-All :
      (P : Match S → Type 0) (ms ns : List (Match S)) → Includes ns ms → All P ns → All P ms
  Includes-All P ms ns h all = Among-All P ms (λ m among. All-Among P ns all m (h m among))

  abbrev pub Ties : Match S → Match S → Type 0
  Ties m n = (length m.1 ≡ length n.1) × (m.0.range_id ≡ n.0.range_id)

  Below-Ties : (m n : Match S) → Below m n → Below n m → Ties m n
  Below-Ties m n (inl h) (inl k) = absurd (omega arith)
  Below-Ties m n (inl h) (inr k) = let e = k.0 in absurd (omega arith)
  Below-Ties m n (inr h) (inl k) = let e = h.0 in absurd (omega arith)
  Below-Ties m n (inr h) (inr k) = (h.0, less_total _ _ h.1 k.1)

  abbrev pub SameChoice : Option (Match S) → Option (Match S) → Type 0
  SameChoice none none = Unit
  SameChoice none (some n) = ⊥
  SameChoice (some m) none = ⊥
  SameChoice (some m) (some n) = (range_claim m.0 ≡ range_claim n.0) × Ties m n

  nothing-of :
      (ms ns : List (Match S)) (n : Match S)
      → Includes ms ns
      → Includes ns ms
      → Relinks ms none
      → Relinks ns (some n)
      → ⊥
  nothing-of ms ns n to from (inl e) k = subst (Among n) e (to n k.1.0)
  nothing-of ms ns n to from (inr refused) k =
      refused (range_claim n.0) (Includes-All (λ o. range_claim o.0 ≡ _) ms ns from k.0)

  Relinks-SameChoice :
      (ms ns : List (Match S))
      → Includes ns ms
      → Includes ms ns
      → (x y : Option (Match S)) → Relinks ms x
      → Relinks ns y
      → SameChoice x y
  Relinks-SameChoice ms ns to from none none h k = tt
  Relinks-SameChoice ms ns to from none (some n) h k = nothing-of ms ns n from to h k
  Relinks-SameChoice ms ns to from (some m) none h k = nothing-of ns ms m to from k h
  Relinks-SameChoice ms ns to from (some m) (some n) h k = (
    All-Among (λ o. range_claim o.0 ≡ _) ns k.0 m (to m h.1.0),
    Below-Ties m n (All-Among (λ o. Below o n) ns k.1.1 m (to m h.1.0))
        (All-Among (λ o. Below o m) ms h.1.1 n (from n k.1.0)),
  )

  -- Of two lists with the same matches, in any order and number, `select_relink_range` refuses both or
  -- chooses matches with the same id, the same claim and as many sources.
  pub select_relink_range-SameChoice :
      (ms ns : List (Match S))
      → Includes ns ms
      → Includes ms ns
      → SameChoice (select_relink_range ms) (select_relink_range ns)
  select_relink_range-SameChoice ms ns to from =
      Relinks-SameChoice ms ns to from _ _ (select_relink_range-Relinks ms)
        (select_relink_range-Relinks ns)
