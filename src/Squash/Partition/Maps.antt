-- ===== src/Squash/Partition/Maps.antt =====
-- Laws of `alter` and `held_ids` on ascending entries.
use mathlib.Core.Bool.{false≢true}
use volute.Prelude.{
  ◌≡◌, refl, ap, ◌∙◌, sym, subst, true, false, Option, none, some, List, [], ◌∷◌, Bool-cases, inl,
  inr, All, All-imp, arith,
}
use volute.Bytes.{Bytes, bytes_eq}
use volute.Bytes.Laws.{bytes_eq→≡, bytes_eq_refl}
use volute.Derivation.{less}
use volute.Squash.Order.{less_irrefl, less_trans, less_other}
use volute.Squash.Partition.{BTreeMap, held_ids, alter}

bytes_eq_sym : (xs ys : Bytes) → bytes_eq xs ys ≡ bytes_eq ys xs
unfolding bytes_eq
bytes_eq_sym [] [] = refl
bytes_eq_sym [] (y ∷ ys) = refl
bytes_eq_sym (x ∷ xs) [] = refl
bytes_eq_sym (x ∷ xs) (y ∷ ys) = ground (arith, bytes_eq_sym xs ys)

abbrev pub Above : Bytes → BTreeMap → Type 0
Above k m = All (λ e. less k e.0 ≡ true) m

abbrev pub IsAscending : BTreeMap → Type 0
IsAscending [] = Unit
IsAscending (e ∷ m) = Above e.0 m × IsAscending m

pub held_ids-Above : (k : Bytes) (m : BTreeMap) → Above k m → held_ids k m ≡ none
unfolding held_ids
held_ids-Above k [] h = refl
held_ids-Above k (e ∷ m) h = elim (Bool-cases (bytes_eq e.0 k)) [
  | inl same ↦
      let low = subst (λ x. less k x ≡ true) (bytes_eq→≡ e.0 k same) h.0 in
      absurd (false≢true (sym (less_irrefl k) ∙ low))
  | inr other ↦ let rest = held_ids-Above k m h.1 in ground (arith, other)
]

-- The three outcomes of a round of `alter`.
alter-round :
    (k : Bytes) (f : Option (List Bytes) → List Bytes) (e : Bytes × List Bytes) (m : BTreeMap)
    (P : BTreeMap → Type 0)
    → (bytes_eq k e.0 ≡ true → P ((e.0, f (some e.1)) ∷ m))
    → (bytes_eq k e.0 ≡ false → less k e.0 ≡ true → P ((k, f none) ∷ e ∷ m))
    → (bytes_eq k e.0 ≡ false → less e.0 k ≡ true → P (e ∷ alter k f m))
    → P (alter k f (e ∷ m))
unfolding alter
alter-round k f e m P found before after = elim (Bool-cases (bytes_eq k e.0)) [
  | inl same ↦
      let step : alter k f (e ∷ m) ≡ (e.0, f (some e.1)) ∷ m = simp same in
      subst P (sym step) (found same)
  | inr other ↦ elim (Bool-cases (less k e.0)) [
    | inl low ↦
        let step : alter k f (e ∷ m) ≡ (k, f none) ∷ e ∷ m = simp (other, low) in
        subst P (sym step) (before other low)
    | inr high ↦
        let step : alter k f (e ∷ m) ≡ e ∷ alter k f m = simp (other, high) in
        subst P (sym step) (after other (less_other k e.0 other high))
  ]
]

alter-Above :
    (i k : Bytes) (f : Option (List Bytes) → List Bytes) (m : BTreeMap)
    → less i k ≡ true
    → Above i m
    → Above i (alter k f m)
unfolding alter
alter-Above i k f [] h low = (h, tt)
alter-Above i k f (e ∷ m) h low =
    alter-round k f e m (Above i) (λ same. low) (λ other below. (h, low))
      (λ other below. (low.0, alter-Above i k f m h low.1))

pub alter-IsAscending :
    (k : Bytes) (f : Option (List Bytes) → List Bytes) (m : BTreeMap)
    → IsAscending m
    → IsAscending (alter k f m)
unfolding alter
alter-IsAscending k f [] h = (tt, tt)
alter-IsAscending k f (e ∷ m) h =
    alter-round k f e m IsAscending (λ same. h)
      (λ other below. ((below, All-imp m (λ x low. less_trans k e.0 x.0 below low) h.0), h))
      (λ other above. (alter-Above e.0 k f m above h.0, alter-IsAscending k f m h.1))

pub held_ids-alter_same :
    (k : Bytes) (f : Option (List Bytes) → List Bytes) (m : BTreeMap)
    → IsAscending m
    → held_ids k (alter k f m) ≡ some (f (held_ids k m))
unfolding held_ids alter
held_ids-alter_same k f [] h = simp (bytes_eq_refl k)
held_ids-alter_same k f (e ∷ m) h =
    alter-round k f e m (λ x. held_ids k x ≡ some (f (held_ids k (e ∷ m))))
      (λ same. let turned = bytes_eq_sym e.0 k ∙ same in simp turned)
      (λ other below.
        let turned = bytes_eq_sym e.0 k ∙ other in
        let missing =
          held_ids-Above k m (All-imp m (λ x low. less_trans k e.0 x.0 below low) h.0) in
        simp (bytes_eq_refl k, turned, missing))
      (λ other above.
        let turned = bytes_eq_sym e.0 k ∙ other in
        let rest = held_ids-alter_same k f m h.1 in simp (turned, rest))

pub held_ids-alter_other :
    (i k : Bytes) (f : Option (List Bytes) → List Bytes) (m : BTreeMap)
    → bytes_eq k i ≡ false
    → held_ids i (alter k f m) ≡ held_ids i m
unfolding held_ids alter
held_ids-alter_other i k f [] h = simp h
held_ids-alter_other i k f (e ∷ m) h =
    alter-round k f e m (λ x. held_ids i x ≡ held_ids i (e ∷ m))
      (λ same.
        let differs = ap (λ x. bytes_eq x i) (sym (bytes_eq→≡ k e.0 same)) ∙ h in simp differs)
      (λ other below. simp h)
      (λ other above. let rest = held_ids-alter_other i k f m h in simp rest)
