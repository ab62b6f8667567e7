-- ===== src/Stimulus/Cut/Fit.antt =====
-- What `fit` keeps of a body, and what it says that it removed.
use volute.Prelude.{
  ℕ, ◌+◌, ◌-◌, ◌*◌, ◌/◌, ◌≤◌, ◌<◌, ◌≡◌, refl, Bool, true, false, [], ◌++◌, length, take, drop, inl,
  inr, Bool-cases, leb, leb→le, ◌==◌, arith, length-take-le, length-drop, take-take-drop,
  drop-length,
}
use volute.Bytes.{Bytes}
use volute.Stimulus.Cut.{Content, whole, cut, withheld, cut_at, fit}
use volute.Stimulus.Cut.Bounds.{MarkerFinder, head_end-IsCut, tail_start-IsCut, IsCut}

-- The bytes that the head and the tail may take: a tool result shares them three to one.
abbrev pub head_share : Bool → ℕ → ℕ
head_share true allowance = allowance * 3 / 4
head_share false allowance = allowance

abbrev pub tail_share : Bool → ℕ → ℕ
tail_share true allowance = allowance - allowance * 3 / 4
tail_share false allowance = 0

-- A body kept whole fits its allowance. One that is cut does not: a head and a tail of it are kept, no
-- longer together than the allowance, and the count is that of the bytes between them; both cuts are at
-- character boundaries outside the redaction markers; only a tool result keeps a tail; no larger head
-- within its share, and no larger tail within its own, could be cut so.
abbrev pub Fits : MarkerFinder → Bytes → ℕ → Bool → Content → Type 0
Fits finder body allowance is_tool (whole text) = (text ≡ body) × (length body ≤ allowance)
Fits finder body allowance is_tool (cut head tail removed) =
    (middle : Bytes) × (head ++ (middle ++ tail) ≡ body)
    × (length middle ≡ removed)
    × (0 < removed)
    × (length head + length tail ≤ allowance)
    × IsCut body (finder.spans body) (length head)
    × ((is_tool ≡ false) → tail ≡ [])
    × ((is_tool ≡ true) → 0 < length tail → IsCut body (finder.spans body) (length head + removed))
    × (allowance < length body)
    × ((m : ℕ)
        → length head < m
        → m ≤ head_share is_tool allowance
        → ¬ IsCut body (finder.spans body) m)
    × ((m : ℕ)
        → length body ≤ m + tail_share is_tool allowance
        → m < length head + removed
        → ¬ IsCut body (finder.spans body) m)
Fits finder body allowance is_tool withheld = ⊥

module _ (finder : MarkerFinder) (body : Bytes) where
  cut_at-Fits :
      (allowance head tail : ℕ) (is_tool : Bool)
      → head < tail
      → tail ≤ length body
      → head + (length body - tail) ≤ allowance
      → IsCut body (finder.spans body) head
      → ((is_tool ≡ false) → tail ≡ length body)
      → ((is_tool ≡ true) → 0 < length body - tail → IsCut body (finder.spans body) tail)
      → allowance < length body
      → ((m : ℕ) → head < m → m ≤ head_share is_tool allowance → ¬ IsCut body (finder.spans body) m)
      → ((m : ℕ)
          → length body ≤ m + tail_share is_tool allowance
          → m < tail
          → ¬ IsCut body (finder.spans body) m)
      → Fits finder body allowance is_tool (cut_at body head tail)
  unfolding cut_at
  cut_at-Fits allowance head tail is_tool lt le kept at_head no_tail at_tail over no_more_head
        no_more_tail =
      let middle = take (tail - head) (drop head body) in
      let head_length = length-take-le head body (omega arith) in
      let end : head + (tail - head) ≡ tail = omega arith in
      (
        middle,
        take-take-drop head tail body (omega arith),
        omega (arith, length-take-le (tail - head) (drop head body), length-drop head body),
        omega arith,
        omega (arith, head_length, length-drop tail body),
        rw head_length at_head,
        λ plain. rw (no_tail plain) (drop-length body),
        λ tool nonempty.
            rw (head_length, end) (at_tail tool (omega (arith, length-drop tail body))),
        over,
        λ m above within. no_more_head m (omega arith) within,
        λ m from below. no_more_tail m from (omega (arith, head_length)),
      )

  -- Whatever the allowance, `fit` keeps a body that fits, and only such a one, whole; and of one that does
  -- not, a head and for a tool result a tail, within the allowance, that with `removed` bytes between them
  -- make up the body; both cuts are at character boundaries outside the redaction markers, which the finder
  -- gives in order, apart and at character boundaries, and neither the head nor the tail could be larger
  -- within its share of the allowance.
  pub fit-Fits :
      (allowance : ℕ) (is_tool : Bool)
      → Fits finder body allowance is_tool (fit finder.spans body allowance is_tool)
  unfolding fit
  fit-Fits allowance true = elim (Bool-cases (leb (length body) allowance)) [
    | inl small ↦ rw small (refl, leb→le _ _ small)
    | inr large ↦
        let tail_budget = allowance - allowance * 3 / 4 in
        let over : allowance < length body = ground arith in
        let at_head = head_end-IsCut finder body (allowance * 3 / 4) in
        let at_tail = tail_start-IsCut finder body (length body - tail_budget) (omega arith) in
        rw large (elim (Bool-cases (tail_budget == 0)) [
          | inl none_left ↦
              let nothing : tail_budget ≡ 0 = ground arith in
              rw none_left (
                cut_at-Fits allowance _ (length body) true (omega (arith, at_head.0)) (omega arith)
                  (omega (arith, at_head.0)) at_head.2 (λ e. refl) (λ e more. absurd (omega arith))
                  over (λ m a b. at_head.3 m a b (omega arith)) (λ m a b. absurd (omega arith)))
          | inr some_left ↦ rw some_left (
              cut_at-Fits allowance _ _ true (omega (arith, at_head.0, at_tail.0)) at_tail.1
                (omega (arith, at_head.0, at_tail.0)) at_head.2 (λ e. cc) (λ e more. at_tail.2) over
                (λ m a b. at_head.3 m a b (omega arith)) (λ m a b. at_tail.3 m (omega arith) b))
        ])
  ]
  fit-Fits allowance false = elim (Bool-cases (leb (length body) allowance)) [
    | inl small ↦ rw small (refl, leb→le _ _ small)
    | inr large ↦
        let over : allowance < length body = ground arith in
        let at_head = head_end-IsCut finder body allowance in
        rw large (
          cut_at-Fits allowance _ (length body) false (omega (arith, at_head.0)) (omega arith)
            (omega (arith, at_head.0)) at_head.2 (λ e. refl) (λ e more. cc) over
            (λ m a b. at_head.3 m a b (omega arith)) (λ m a b. absurd (omega arith)))
  ]
