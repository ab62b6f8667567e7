-- ===== src/Prelude/Pigeonhole.antt =====
-- Lists of numbers without repetition: as many as there are numbers below a bound, at most.
use Prim.Native.Nat.{ℕ, zero, suc, ◌≤◌, ◌<◌}
use mathlib.Core.Path.{◌≡◌, refl, ap}
use mathlib.Core.Logic.{◌≢◌, inl, inr}
use mathlib.Core.Bool.{false}
use mathlib.Core.List.{List, [], ◌∷◌}
use native.Mathlib.Omega.{arith}
use volute.Prelude.Tests.{◌==◌, if◌then◌else◌, Bool-cases}
use volute.Prelude.Lists.{length, All}

abbrev pub NotIn : ℕ → List ℕ → Type 0
NotIn p = All (λ q. q ≢ p)

abbrev pub Distinct : List ℕ → Type 0
Distinct [] = Unit
Distinct (p ∷ ps) = NotIn p ps × Distinct ps

without : ℕ → List ℕ → List ℕ
without m [] = []
without m (x ∷ xs) = let rest = without m xs in if x == m then rest else x ∷ rest

without-NotIn : (m : ℕ) (xs : List ℕ) → NotIn m xs → without m xs ≡ xs
unfolding without
without-NotIn m [] h = refl
without-NotIn m (x ∷ xs) h =
    let off : (x == m) ≡ false = ground arith in rw off (ap (◌∷◌ x) (without-NotIn m xs h.1))

length-without : (m : ℕ) (xs : List ℕ) → Distinct xs → length xs ≤ suc (length (without m xs))
unfolding without
length-without m [] h = omega arith
length-without m (x ∷ xs) h = elim (Bool-cases (x == m)) [
  | inl here ↦
      let e : x ≡ m = ground arith in
      rw here (omega (arith, ap length (without-NotIn m xs (rw (← e) (h.0)))))
  | inr other ↦ rw other (omega (arith, length-without m xs h.1))
]

module _ {ℓ} (P : ℕ → Type ℓ) where
  All-without : (m : ℕ) (xs : List ℕ) → All P xs → All P (without m xs)
  unfolding without
  All-without m [] h = tt
  All-without m (x ∷ xs) h = elim (Bool-cases (x == m)) [
    | inl here ↦ rw here (All-without m xs h.1)
    | inr other ↦ rw other (h.0, All-without m xs h.1)
  ]

Distinct-without : (m : ℕ) (xs : List ℕ) → Distinct xs → Distinct (without m xs)
unfolding without
Distinct-without m [] h = tt
Distinct-without m (x ∷ xs) h = elim (Bool-cases (x == m)) [
  | inl here ↦ rw here (Distinct-without m xs h.1)
  | inr other ↦ rw other (All-without (λ q. q ≢ x) m xs h.0, Distinct-without m xs h.1)
]

below-without : (m : ℕ) (xs : List ℕ) → All (λ q. q < suc m) xs → All (λ q. q < m) (without m xs)
unfolding without
below-without m [] h = tt
below-without m (x ∷ xs) h = elim (Bool-cases (x == m)) [
  | inl here ↦ rw here (below-without m xs h.1)
  | inr other ↦ rw other (ground arith, below-without m xs h.1)
]

-- The pigeonhole principle.
pub length-Distinct : (n : ℕ) (xs : List ℕ) → Distinct xs → All (λ q. q < n) xs → length xs ≤ n
length-Distinct n [] h below = omega arith
length-Distinct zero (x ∷ xs) h below = absurd (omega (arith, below.0))
length-Distinct (suc m) (x ∷ xs) h below = omega (
  arith,
  length-without m (x ∷ xs) h,
  length-Distinct m (without m (x ∷ xs)) (Distinct-without m (x ∷ xs) h)
      (below-without m (x ∷ xs) below),
)
