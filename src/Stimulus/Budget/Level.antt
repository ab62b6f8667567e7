-- ===== src/Stimulus/Budget/Level.antt =====
-- `largest_level` finds the largest level that fits.
use volute.Prelude.{
  ℕ, zero, suc, ◌+◌, ◌-◌, ◌/◌, ◌≤◌, ◌<◌, max, ◌≡◌, inl, inr, leb, ltb, Bool-cases, leb→le, arith,
}
use native.Mathlib.Decide.{dec_le}
use volute.Stimulus.Budget.{bisect, largest_level}

abbrev pub IsMonotone : (ℕ → ℕ) → Type 0
IsMonotone total = (a b : ℕ) → a ≤ b → total a ≤ total b

-- A level that fits, and that no larger one up to the ceiling does.
pub record IsLargest (low high capacity : ℕ) (total : ℕ → ℕ) (level : ℕ) : Type 0 where
  pub above : low ≤ level
  pub below : level ≤ high
  pub fits : total level ≤ capacity
  pub largest : (m : ℕ) → level < m → m ≤ high → capacity < total m

module _ (capacity : ℕ) (total : ℕ → ℕ) (mono : IsMonotone total) where
  from_middle :
      (low middle high : ℕ) {level : ℕ}
      → low ≤ middle
      → IsLargest middle high capacity total level
      → IsLargest low high capacity total level
  from_middle low middle high le h = record {
    above = omega arith;
    below = h.below;
    fits = h.fits;
    largest = h.largest;
  }

  to_middle :
      (low middle high : ℕ) {level : ℕ}
      → middle ≤ high
      → capacity < total middle
      → IsLargest low middle capacity total level
      → IsLargest low high capacity total level
  to_middle low middle high le over h = record {
    above = h.above;
    below = omega arith;
    fits = h.fits;
    largest = λ m above below. elim (dec_le m middle) [
      | yes in_reach ↦ h.largest m above in_reach
      | no past ↦ omega (arith, mono middle m (omega arith))
    ];
  }

  bisect-IsLargest :
      (fuel low high : ℕ)
      → high - low ≤ fuel
      → low < high
      → total low ≤ capacity
      → capacity < total high
      → IsLargest low high capacity total (bisect fuel low high capacity total)
  unfolding bisect
  bisect-IsLargest zero low high enough lt fits over = absurd (omega arith)
  bisect-IsLargest (suc fuel) low high enough lt fits over =
      let middle = low + (high - low) / 2 in
      elim (Bool-cases (ltb 1 (high - low))) [
        | inr done ↦
            let near : high ≤ low + 1 = ground arith in
            rw (done, bisect)
              (record {
                above = omega arith;
                below = omega arith;
                fits = fits;
                largest = λ m above below. omega (arith, mono high m (omega arith));
              })
        | inl more ↦
            let far : low + 1 < high = ground arith in
            elim (Bool-cases (leb (total middle) capacity)) [
              | inl fit ↦
                  rw (more, fit, bisect)
                    (from_middle low middle high (omega arith) (
                      bisect-IsLargest fuel middle high (omega arith) (omega arith) (leb→le _ _ fit)
                        over))
              | inr big ↦
                  rw (more, big, bisect)
                    (to_middle low middle high (omega arith) (ground arith) (
                      bisect-IsLargest fuel low middle (omega arith) (omega arith) fits
                        (ground arith)))
            ]
      ]

  -- For a total that grows with the level and that fits at the floor, `largest_level` gives the largest
  -- level that fits between the floor and the ceiling, or the floor where the ceiling is below it.
  pub largest_level-IsLargest :
      (low high : ℕ)
      → total low ≤ capacity
      → IsLargest low (max low high) capacity total (largest_level low high capacity total)
  unfolding largest_level
  largest_level-IsLargest low high fits = elim (Bool-cases (leb high low)) [
    | inl under ↦
        let le : high ≤ low = leb→le _ _ under in
        rw under (record {
          above = omega arith;
          below = omega arith;
          fits = fits;
          largest = λ m above below. absurd (omega arith);
        })
    | inr over ↦
        let lt : low < high = ground arith in
        let top : max low high ≡ high = omega arith in
        rw (over, top)
          (elim (Bool-cases (leb (total high) capacity)) [
            | inl all_fit ↦ rw all_fit (record {
              above = omega arith;
              below = omega arith;
              fits = leb→le _ _ all_fit;
              largest = λ m above below. absurd (omega arith);
            })
            | inr tight ↦
                rw tight
                  (bisect-IsLargest (high - low) low high (omega arith) lt fits (ground arith))
          ])
  ]
