-- ===== src/Stimulus/Budget.antt =====
-- cvc-core/src/stimulus.rs, "the size budget": how many parts are shown and how much each keeps.
pub mod Level
pub mod Sums
pub mod Fits
use volute.Prelude.{
  ℕ, zero, suc, ◌+◌, ◌-◌, ◌/◌, min, max, Bool, true, false, List, [], ◌∷◌, map, leb, ltb, ◌==◌,
  if◌then◌else◌, length, take, get_or, sum,
}
use volute.Stimulus.{
  separator, note_reserve, omitted_reserve, tool_result_floor_bytes, tool_result_head_bytes,
  tool_result_tail_bytes,
}

-- A part of class `fixed` cannot be cut, a `tool` shrinks first.
pub data Class : Type 0 where
  fixed tool other : Class

pub record Slot : Type 0 where
  pub marker_len : ℕ
  pub want : ℕ
  pub class : Class

-- The loop of `largest_level`, for at most `fuel` rounds.
unfoldable pub bisect : ℕ → ℕ → ℕ → ℕ → (ℕ → ℕ) → ℕ
bisect zero low high capacity total = low
bisect (suc fuel) low high capacity total =
    let middle = low + (high - low) / 2 in
    elim (ltb 1 (high - low)) [
      | true ↦ elim (leb (total middle) capacity) [
        | true ↦ bisect fuel middle high capacity total
        | false ↦ bisect fuel low middle capacity total
      ]
      | false ↦ low
    ]

-- Each round brings the ends nearer, so `high - low` rounds are enough.
unfoldable pub largest_level : ℕ → ℕ → ℕ → (ℕ → ℕ) → ℕ
unfolding bisect
largest_level low high capacity total =
    if leb high low
    then low
    else if leb (total high) capacity
    then high
    else bisect (high - low) low high capacity total

unfoldable pub overhead : ℕ → Slot → ℕ
overhead index slot = slot.marker_len + (if index == 0 then 0 else length separator) + note_reserve

by_class_floor : Class → ℕ → ℕ
by_class_floor fixed want = want
by_class_floor _ want = min want tool_result_floor_bytes

unfoldable pub floor : Slot → ℕ
unfolding by_class_floor
floor slot = by_class_floor slot.class slot.want

-- The sums of what the leading parts need at their floors: entry `k` is that of `k` parts.
unfoldable pub minimum_from : ℕ → ℕ → List Slot → List ℕ
unfolding overhead floor
minimum_from index acc [] = acc ∷ []
minimum_from index acc (slot ∷ slots) =
    acc ∷ minimum_from (index + 1) (acc + overhead index slot + floor slot) slots

unfoldable pub closing : ℕ → ℕ → ℕ
closing kept total_parts = if ltb kept total_parts then omitted_reserve else 0

-- The loop over `kept`.
unfoldable pub fit_parts : List ℕ → ℕ → ℕ → ℕ → ℕ
unfolding closing
fit_parts minimum total_parts budget zero = zero
fit_parts minimum total_parts budget (suc zero) = suc zero
fit_parts minimum total_parts budget (suc (suc k)) =
    let fewer = fit_parts minimum total_parts budget (suc k) in
    let kept = suc (suc k) in
    if leb (get_or minimum kept 0 + closing kept total_parts) budget then kept else fewer

-- `(0..kept).map(overhead).sum()`
unfoldable pub overheads : ℕ → List Slot → ℕ
unfolding overhead
overheads index [] = 0
overheads index (slot ∷ slots) = overhead index slot + overheads (index + 1) slots

unfoldable pub same_class : Class → Class → Bool
same_class fixed fixed = true
same_class tool tool = true
same_class other other = true
same_class _ _ = false

-- The wants of the slots of a class.
unfoldable pub wants_of : Class → List Slot → List ℕ
unfolding same_class
wants_of class [] = []
wants_of class (slot ∷ slots) =
    let rest = wants_of class slots in
    if same_class slot.class class then slot.want ∷ rest else rest

unfoldable pub sum_at : ℕ → List ℕ → ℕ
sum_at level [] = 0
sum_at level (want ∷ wants) = min want level + sum_at level wants

-- `wants.max().unwrap_or(0)`
unfoldable pub widest : List ℕ → ℕ
widest [] = 0
widest (want ∷ wants) = max want (widest wants)

-- What a slot keeps where only tool results give way, and where the rest gives way too.
unfoldable pub tools_give : ℕ → Class → ℕ → ℕ
tools_give level tool want = min want level
tools_give level _ want = want

unfoldable pub others_give : ℕ → Class → ℕ → ℕ
others_give level tool want = min want tool_result_floor_bytes
others_give level other want = min want level
others_give level fixed want = want

-- `allocate` once `kept` is known: the allowances of the kept slots.
unfoldable pub allowances : List Slot → ℕ → List ℕ
unfolding largest_level wants_of sum_at widest tools_give others_give
allowances slots available =
    let fixed_other = sum (wants_of fixed slots) + sum (wants_of other slots) in
    let tools = wants_of tool slots in
    let others = wants_of other slots in
    let ceiling = tool_result_head_bytes + tool_result_tail_bytes in
    let tool_level =
      largest_level tool_result_floor_bytes ceiling available
        (λ level. fixed_other + sum_at level tools) in
    let room = available - (sum (wants_of fixed slots) + sum_at tool_result_floor_bytes tools) in
    let other_level =
      largest_level tool_result_floor_bytes (widest others) room (λ level. sum_at level others) in
    if leb (sum (map (λ slot. slot.want) slots)) available
    then map (λ slot. slot.want) slots
    else if leb (fixed_other + sum_at tool_result_floor_bytes tools) available
    then map (λ slot. tools_give tool_level slot.class slot.want) slots
    else map (λ slot. others_give other_level slot.class slot.want) slots

unfoldable pub kept_parts : List Slot → ℕ → ℕ → ℕ
unfolding fit_parts minimum_from
kept_parts slots total_parts budget =
    fit_parts (minimum_from 0 0 slots) total_parts budget (length slots)

-- The leading parts shown, and the content bytes that each may keep.
unfoldable pub allocate : List Slot → ℕ → ℕ → ℕ × List ℕ
unfolding kept_parts allowances overheads closing
allocate slots total_parts budget =
    let kept = kept_parts slots total_parts budget in
    let shown = take kept slots in
    let reserved = overheads 0 shown + closing kept total_parts in
    (kept, allowances shown (budget - reserved))
