-- ===== src/Stimulus/Budget/Fits.antt =====
-- `allocate` stays within the budget.
use native.Mathlib.Decide.{dec_le}
use volute.Prelude.{
  ℕ, refl, zero, suc, ◌+◌, ◌-◌, ◌≤◌, ◌<◌, ◌≡◌, max, List, [], ◌∷◌, map, length, take, get_or, sum,
  leb, arith, subst, inl, inr, Bool-cases, leb→le,
}
use volute.Stimulus.{
  tool_result_floor_bytes, tool_result_head_bytes, tool_result_tail_bytes, omitted_reserve,
}
use volute.Stimulus.Budget.{
  Slot, fixed, tool, other, floor, wants_of, sum_at, widest, overhead, overheads, minimum_from,
  tools_give, others_give, closing, fit_parts, allowances, kept_parts, allocate,
}
use volute.Stimulus.Budget.Level.{IsLargest, largest_level-IsLargest}
use volute.Stimulus.Budget.Sums.{
  sum-floor, sum-tools_give, sum-others_give, sum_at_mono, minimum_lem,
}

-- What the leading parts need at their floors, with the closing note if some are left out.
abbrev pub need : List Slot → ℕ → ℕ → ℕ
need slots total_parts k =
    overheads 0 (take k slots) + sum (map floor (take k slots)) + closing k total_parts

-- The number of parts kept: at least one, it fits if it is more than one, and no larger one does.
pub record IsKept (minimum : List ℕ) (total_parts budget count kept : ℕ) : Type 0 where
  pub positive : 0 < count → 0 < kept
  pub below : kept ≤ count
  pub fits : 1 < kept → get_or minimum kept 0 + closing kept total_parts ≤ budget
  pub largest : (m : ℕ) → kept < m → m ≤ count → budget < get_or minimum m 0 + closing m total_parts

module _ (minimum : List ℕ) (total_parts budget : ℕ) where
  fit_parts-IsKept :
      (count : ℕ)
      → IsKept minimum total_parts budget count (fit_parts minimum total_parts budget count)
  unfolding fit_parts
  fit_parts-IsKept zero = record {
    positive = λ h. h;
    below = omega arith;
    fits = λ h. absurd (omega arith);
    largest = λ m a b. absurd (omega arith);
  }
  fit_parts-IsKept (suc zero) = record {
    positive = λ h. omega arith;
    below = omega arith;
    fits = λ h. absurd (omega arith);
    largest = λ m a b. absurd (omega arith);
  }
  fit_parts-IsKept (suc (suc k)) =
      let kept = suc (suc k) in
      let fewer = fit_parts-IsKept (suc k) in
      elim (Bool-cases (leb (get_or minimum kept 0 + closing kept total_parts) budget)) [
        | inl fit ↦
            rw (fit, fit_parts)
              (record {
                positive = λ h. omega arith;
                below = omega arith;
                fits = λ h. leb→le _ _ fit;
                largest = λ m a b. absurd (omega arith);
              })
        | inr over ↦
            rw (over, fit_parts)
              (record {
                positive = λ h. fewer.positive (omega arith);
                below = omega (arith, fewer.below);
                fits = fewer.fits;
                largest = λ m a b. elim (dec_le m (suc k)) [
                  | yes small ↦ fewer.largest m a small
                  | no big ↦
                      let top : kept ≡ m = omega arith in
                      subst (λ n. budget < get_or minimum n 0 + closing n total_parts) top
                        (ground arith)
                ];
              })
      ]

-- Enough for the first part, and the closing note.
abbrev pub FirstFits : List Slot → ℕ → Type 0
FirstFits [] budget = Unit
FirstFits (slot ∷ slots) budget = overhead 0 slot + floor slot + omitted_reserve ≤ budget

closing-le : (kept total_parts : ℕ) → closing kept total_parts ≤ omitted_reserve
unfolding closing
closing-le kept total_parts = ground arith

need_of_kept :
    (slots : List Slot) (total_parts budget kept : ℕ)
    → omitted_reserve ≤ budget
    → FirstFits slots budget
    → IsKept (minimum_from 0 0 slots) total_parts budget (length slots) kept
    → need slots total_parts kept ≤ budget
unfolding overheads
need_of_kept slots total_parts budget zero room first h = omega (arith, closing-le 0 total_parts)
need_of_kept [] total_parts budget (suc kept) room first h = absurd (omega (arith, h.below))
need_of_kept (slot ∷ slots) total_parts budget (suc zero) room first h =
    omega (arith, closing-le 1 total_parts)
need_of_kept (slot ∷ slots) total_parts budget (suc (suc k)) room first h =
    omega (arith, h.fits (omega arith), minimum_lem 0 0 (slot ∷ slots) (suc (suc k)) h.below)

-- The ways in which the bytes are shared. Every slot keeps what it wants; or the tool results alone
-- give way, evenly, at the largest level that fits; or these sit at their floor and the parts that
-- can be cut give way, evenly, at the largest level that fits.
pub data Shares (slots : List Slot) (available : ℕ) : List ℕ → Type 0 where
  plenty :
      sum (map (λ slot. slot.want) slots) ≤ available
      → Shares slots available (map (λ slot. slot.want) slots)
  tools_shrink :
      (level : ℕ)
      → available < sum (map (λ slot. slot.want) slots)
      → IsLargest tool_result_floor_bytes
          (tool_result_head_bytes + tool_result_tail_bytes)
          available
          (λ n.
            sum (wants_of fixed slots)
            + sum (wants_of other slots)
            + sum_at n (wants_of tool slots))
          level
      → Shares slots available (map (λ slot. tools_give level slot.class slot.want) slots)
  others_shrink :
      (level room : ℕ)
      → available
        < sum (wants_of fixed slots)
          + sum (wants_of other slots)
          + sum_at tool_result_floor_bytes (wants_of tool slots)
      → room + sum (wants_of fixed slots) + sum_at tool_result_floor_bytes (wants_of tool slots)
        ≡ available
      → IsLargest tool_result_floor_bytes
          (max tool_result_floor_bytes (widest (wants_of other slots)))
          room
          (λ n. sum_at n (wants_of other slots))
          level
      → Shares slots available (map (λ slot. others_give level slot.class slot.want) slots)

pub allowances-Shares :
    (slots : List Slot) (available : ℕ)
    → sum (map floor slots) ≤ available
    → Shares slots available (allowances slots available)
unfolding allowances
allowances-Shares slots available floors =
    let fixed_other = sum (wants_of fixed slots) + sum (wants_of other slots) in
    let tools = wants_of tool slots in
    let others = wants_of other slots in
    let room = available - (sum (wants_of fixed slots) + sum_at tool_result_floor_bytes tools) in
    elim (Bool-cases (leb (sum (map (λ slot. slot.want) slots)) available)) [
      | inl all_fit ↦ rw (all_fit, allowances) (plenty (leb→le _ _ all_fit))
      | inr tight ↦
          elim (Bool-cases (leb (fixed_other + sum_at tool_result_floor_bytes tools) available)) [
            | inl tools_enough ↦
                rw (tight, tools_enough, allowances)
                  (tools_shrink _ (ground arith) (
                    largest_level-IsLargest available (λ n. fixed_other + sum_at n tools)
                      (λ a b h. omega (arith, sum_at_mono tools a b h)) tool_result_floor_bytes
                      (tool_result_head_bytes + tool_result_tail_bytes) (leb→le _ _ tools_enough)))
            | inr others_too ↦
                rw (tight, others_too, allowances)
                  (others_shrink _ room (ground arith) (omega (arith, sum-floor slots)) (
                    largest_level-IsLargest room (λ n. sum_at n others)
                      (λ a b h. sum_at_mono others a b h) tool_result_floor_bytes (widest others)
                      (omega (arith, sum-floor slots))))
          ]
    ]

-- What the slots keep comes to no more than is available.
pub Shares-le :
    (slots : List Slot) (available : ℕ) {kept : List ℕ}
    → Shares slots available kept
    → sum kept ≤ available
Shares-le slots available (plenty h) = h
Shares-le slots available (tools_shrink level tight l) =
    omega (arith, sum-tools_give level slots, l.fits)
Shares-le slots available (others_shrink level room tight e l) =
    omega (arith, sum-others_give level slots, l.fits)

-- What is promised of the number of parts shown and of the bytes that each may keep.
pub record Allocated (slots : List Slot) (total_parts budget : ℕ) (result : ℕ × List ℕ)
    : Type 0 where
  pub positive : 0 < length slots → 0 < result.0
  pub below : result.0 ≤ length slots
  pub fits :
      overheads 0 (take result.0 slots) + sum result.1 + closing result.0 total_parts ≤ budget
  pub most : (m : ℕ) → result.0 < m → m ≤ length slots → budget < need slots total_parts m
  pub shares :
      (available : ℕ) × (overheads 0 (take result.0 slots)
          + closing result.0 total_parts
          + available
        ≡ budget)
      × Shares (take result.0 slots) available result.1

-- If the budget is enough for the closing note and for the first part at its floor with it, `allocate`
-- shows at least one part, if there is one; the markers, the separators, a note for each part, what
-- the parts keep and the closing note come to at most the budget; no larger number of parts would fit
-- at their floors; and the bytes that are left are shared in one of the three ways of `Shares`.
pub allocate-Allocated :
    (slots : List Slot) (total_parts budget : ℕ)
    → omitted_reserve ≤ budget
    → FirstFits slots budget
    → Allocated slots total_parts budget (allocate slots total_parts budget)
unfolding allocate
allocate-Allocated slots total_parts budget room first =
    let minimum = minimum_from 0 0 slots in
    let kept = kept_parts slots total_parts budget in
    let shown = take kept slots in
    let reserved = overheads 0 shown + closing kept total_parts in
    let is_kept : IsKept minimum total_parts budget (length slots) kept =
      unfold kept_parts in fit_parts-IsKept minimum total_parts budget (length slots) in
    let enough = need_of_kept slots total_parts budget kept room first is_kept in
    let shared = allowances-Shares shown (budget - reserved) (omega arith) in
    record {
      positive = is_kept.positive;
      below = is_kept.below;
      fits = omega (arith, Shares-le shown (budget - reserved) shared);
      most = λ m a b. omega (arith, is_kept.largest m a b, minimum_lem 0 0 slots m b);
      shares = (budget - reserved, omega arith, shared);
    }

-- What cannot be cut keeps what it wants.
abbrev pub Keeps : List Slot → List ℕ → Type 0
Keeps [] [] = Unit
Keeps (slot ∷ slots) (kept ∷ rest) = ((slot.class ≡ fixed) → kept ≡ slot.want) × Keeps slots rest
Keeps _ _ = ⊥

Keeps-map :
    (share : Slot → ℕ) (slots : List Slot)
    → ((slot : Slot) → slot.class ≡ fixed → share slot ≡ slot.want)
    → Keeps slots (map share slots)
Keeps-map share [] h = tt
Keeps-map share (slot ∷ slots) h = (h slot, Keeps-map share slots h)

pub Shares-Keeps :
    (slots : List Slot) (available : ℕ) {kept : List ℕ}
    → Shares slots available kept
    → Keeps slots kept
unfolding tools_give others_give
Shares-Keeps slots available (plenty h) = Keeps-map _ slots (λ slot e. refl)
Shares-Keeps slots available (tools_shrink level tight l) =
    Keeps-map _ slots (λ slot e. ground arith)
Shares-Keeps slots available (others_shrink level room tight e l) =
    Keeps-map _ slots (λ slot e. ground arith)
