-- ===== src/Squash/Partition/Complete/Equal.antt =====
-- Maps that hold the same are equal.
use volute.Prelude.{
  ◌≡◌, refl, ap, ap₂, ◌∙◌, sym, subst, true, false, none, some, List, [], ◌∷◌, Bool-cases, inl, inr,
  All-imp, some-eq,
}
use volute.Bytes.{Bytes, bytes_eq}
use volute.Bytes.Laws.{bytes_eq→≡, bytes_eq_refl}
use volute.Derivation.{less}
use volute.Squash.{RangeSourceSnapshot}
use volute.Squash.Order.{less_total, less_trans, texts_eq_refl}
use volute.Squash.Partition.{BTreeMap, held_ids, collect, sort_values, maps_eq}
use volute.Squash.Partition.Maps.{Above, IsAscending, alter-IsAscending, held_ids-Above}

held_ids-head : (e : Bytes × List Bytes) (m : BTreeMap) → held_ids e.0 (e ∷ m) ≡ some e.1
unfolding held_ids
held_ids-head e m = simp (bytes_eq_refl e.0)

-- An ascending map does not hold a key below its first.
held_ids-below :
    (k : Bytes) (e : Bytes × List Bytes) (m : BTreeMap)
    → less k e.0 ≡ true
    → IsAscending (e ∷ m)
    → held_ids k (e ∷ m) ≡ none
held_ids-below k e m low h =
    held_ids-Above k (e ∷ m) (low, All-imp m (λ x above. less_trans k e.0 x.0 low above) h.0)

not_below :
    (x y : Bytes × List Bytes) (m n : BTreeMap)
    → IsAscending (y ∷ n)
    → held_ids x.0 (x ∷ m) ≡ held_ids x.0 (y ∷ n)
    → less x.0 y.0 ≡ false
not_below x y m n asc h = elim (Bool-cases (less x.0 y.0)) [
  | inl low ↦ let found = held_ids-head x m in let missing = held_ids-below x.0 y n low asc in cc
  | inr high ↦ high
]

tail_holds :
    (k : Bytes) (x y : Bytes × List Bytes) (m n : BTreeMap)
    → x.0 ≡ y.0
    → IsAscending (x ∷ m)
    → IsAscending (y ∷ n)
    → held_ids k (x ∷ m) ≡ held_ids k (y ∷ n)
    → held_ids k m ≡ held_ids k n
unfolding held_ids
tail_holds k x y m n e hm hn h = elim (Bool-cases (bytes_eq x.0 k)) [
  | inl same ↦
      let at = bytes_eq→≡ x.0 k same in
      held_ids-Above k m (subst (λ i. Above i m) at hm.0)
      ∙ sym (held_ids-Above k n (subst (λ i. Above i n) (sym e ∙ at) hn.0))
  | inr other ↦
      let other' = ap (λ i. bytes_eq i k) (sym e) ∙ other in
      let left : held_ids k (x ∷ m) ≡ held_ids k m = simp other in
      let right : held_ids k (y ∷ n) ≡ held_ids k n = simp other' in sym left ∙ h ∙ right
]

pub held_ids_ext :
    (m n : BTreeMap)
    → IsAscending m
    → IsAscending n
    → ((k : Bytes) → held_ids k m ≡ held_ids k n)
    → m ≡ n
unfolding held_ids
held_ids_ext [] [] hm hn h = refl
held_ids_ext [] (y ∷ n) hm hn h = let found = held_ids-head y n in let e = h y.0 in cc
held_ids_ext (x ∷ m) [] hm hn h = let found = held_ids-head x m in let e = h x.0 in cc
held_ids_ext (x ∷ m) (y ∷ n) hm hn h =
    let keys =
      less_total x.0 y.0 (not_below x y m n hn (h x.0)) (not_below y x n m hm (sym (h y.0))) in
    let values : x.1 ≡ y.1 = some-eq (
      sym (held_ids-head x m)
      ∙ h x.0
      ∙ subst (λ i. held_ids i (y ∷ n) ≡ some y.1) (sym keys) (held_ids-head y n)) in
    ap₂ (λ z zs. z ∷ zs) (ap₂ (λ k v. (k, v)) keys values)
      (held_ids_ext m n hm.1 hn.1 (λ k. tail_holds k x y m n keys hm hn (h k)))

sort_values-Above : (k : Bytes) (m : BTreeMap) → Above k m → Above k (sort_values m)
unfolding sort_values
sort_values-Above k [] h = tt
sort_values-Above k (e ∷ m) h = (h.0, sort_values-Above k m h.1)

pub sort_values-IsAscending : (m : BTreeMap) → IsAscending m → IsAscending (sort_values m)
unfolding sort_values
sort_values-IsAscending [] h = tt
sort_values-IsAscending (e ∷ m) h = (sort_values-Above e.0 m h.0, sort_values-IsAscending m h.1)

pub collect-IsAscending :
    {S : Type 0} (sources : List (RangeSourceSnapshot S)) (m : BTreeMap)
    → IsAscending m
    → IsAscending (collect sources m)
unfolding collect
collect-IsAscending [] m h = h
collect-IsAscending (s ∷ ss) m h =
    collect-IsAscending ss _ (alter-IsAscending s.interaction_id _ m h)

pub maps_eq_refl : (m : BTreeMap) → maps_eq m m ≡ true
unfolding maps_eq
maps_eq_refl [] = refl
maps_eq_refl (x ∷ xs) = simp (bytes_eq_refl, texts_eq_refl, maps_eq_refl xs)
