-- ===== src/Stimulus/Budget/Sums.antt =====
-- What the wants and the allowances of the slots add up to, class by class.
use volute.Prelude.{
  ℕ, zero, suc, ◌+◌, ◌≤◌, ◌≡◌, List, [], ◌∷◌, map, length, take, get_or, sum, arith,
}
use volute.Stimulus.{tool_result_floor_bytes}
use volute.Stimulus.Budget.{
  Slot, fixed, tool, other, floor, wants_of, sum_at, overhead, overheads, minimum_from, tools_give,
  others_give,
}

pub sum-wants :
    (slots : List Slot)
    → sum (map (λ slot. slot.want) slots)
      ≡ sum (wants_of fixed slots) + sum (wants_of other slots) + sum (wants_of tool slots)
unfolding wants_of
sum-wants [] = omega arith
sum-wants (slot ∷ slots) = ground (arith, sum-wants slots)

pub sum-floor :
    (slots : List Slot)
    → sum (map floor slots)
      ≡ sum (wants_of fixed slots)
        + sum_at tool_result_floor_bytes (wants_of other slots)
        + sum_at tool_result_floor_bytes (wants_of tool slots)
unfolding wants_of sum_at floor
sum-floor [] = omega arith
sum-floor (slot ∷ slots) = ground (arith, sum-floor slots)

pub sum-tools_give :
    (level : ℕ) (slots : List Slot)
    → sum (map (λ slot. tools_give level slot.class slot.want) slots)
      ≡ sum (wants_of fixed slots) + sum (wants_of other slots) + sum_at level (wants_of tool slots)
unfolding wants_of sum_at tools_give
sum-tools_give level [] = omega arith
sum-tools_give level (slot ∷ slots) = ground (arith, sum-tools_give level slots)

pub sum-others_give :
    (level : ℕ) (slots : List Slot)
    → sum (map (λ slot. others_give level slot.class slot.want) slots)
      ≡ sum (wants_of fixed slots)
        + sum_at tool_result_floor_bytes (wants_of tool slots)
        + sum_at level (wants_of other slots)
unfolding wants_of sum_at others_give
sum-others_give level [] = omega arith
sum-others_give level (slot ∷ slots) = ground (arith, sum-others_give level slots)

pub sum_at_mono : (wants : List ℕ) (a b : ℕ) → a ≤ b → sum_at a wants ≤ sum_at b wants
unfolding sum_at
sum_at_mono [] a b h = omega arith
sum_at_mono (want ∷ wants) a b h = omega (arith, sum_at_mono wants a b h)

-- Entry `k` of the prefix sums is what `k` leading parts need at their floors.
pub minimum_lem :
    (index acc : ℕ) (slots : List Slot) (k : ℕ)
    → k ≤ length slots
    → get_or (minimum_from index acc slots) k 0
      ≡ acc + overheads index (take k slots) + sum (map floor (take k slots))
unfolding minimum_from overheads
minimum_lem index acc [] zero h = omega arith
minimum_lem index acc (slot ∷ slots) zero h = omega arith
minimum_lem index acc [] (suc k) h = absurd (omega arith)
minimum_lem index acc (slot ∷ slots) (suc k) h =
    omega (
      arith,
      minimum_lem (index + 1) (acc + overhead index slot + floor slot) slots k (omega arith),
    )
