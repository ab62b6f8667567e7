-- ===== src/Stimulus/Cut/Bounds.antt =====
-- Where `head_end` and `tail_start` cut: at a character boundary, outside the redaction markers, and
-- as near to the limit as there is one.
mod Markers
pub use Markers.{Disjoint, MarkerFinder, IsCut}
use volute.Stimulus.Cut.Bounds.Markers.{around_none, around_lem, around_in_text, IsAround}
use volute.Prelude.{
  ℕ, zero, suc, ◌+◌, ◌-◌, ◌≤◌, ◌<◌, ◌≡◌, ◌≢◌, refl, min, true, false, none, some, List, [], ◌∷◌,
  length, inl, inr, Bool-cases, Option-cases, ◌&&◌, ltb, arith, All, subst,
}
use native.Mathlib.Decide.{dec_le}
use volute.Bytes.{Bytes, is_char_boundary}
use volute.Stimulus.Note.{Range}
use volute.Stimulus.Cut.{
  Spans, marker_around, back_to_boundary, forward_to_boundary, head_end, tail_start,
}

zero-boundary : (text : Bytes) → is_char_boundary text 0 ≡ true
unfolding is_char_boundary
zero-boundary text = refl

length-boundary : (text : Bytes) → is_char_boundary text (length text) ≡ true
unfolding is_char_boundary
length-boundary text = ground arith

back_lem :
    (text : Bytes) (end : ℕ)
    → (back_to_boundary text end ≤ end)
      × (is_char_boundary text (back_to_boundary text end) ≡ true)
      × ((m : ℕ) → back_to_boundary text end < m → m ≤ end → is_char_boundary text m ≡ false)
unfolding back_to_boundary
back_lem text zero = (omega arith, zero-boundary text, λ m a b. absurd (omega arith))
back_lem text (suc end) = elim (Bool-cases (is_char_boundary text (suc end))) [
  | inl at ↦ rw (at, back_to_boundary) (omega arith, at, λ m a b. absurd (omega arith))
  | inr off ↦
      let (le, bound, none_above) = back_lem text end in
      rw (off, back_to_boundary)
        (
          omega arith,
          bound,
          λ m a b. elim (dec_le m end) [
            | yes small ↦ none_above m a small
            | no big ↦
                let top : suc end ≡ m = omega arith in
                subst (λ n. is_char_boundary text n ≡ false) top off
          ],
        )
]

forward_lem :
    (text : Bytes) (fuel start : ℕ)
    → start + fuel ≡ length text
    → (start ≤ forward_to_boundary text fuel start)
      × (forward_to_boundary text fuel start ≤ length text)
      × (is_char_boundary text (forward_to_boundary text fuel start) ≡ true)
      × ((m : ℕ)
          → start ≤ m
          → m < forward_to_boundary text fuel start
          → is_char_boundary text m ≡ false)
unfolding forward_to_boundary
forward_lem text zero start e =
    let end : length text ≡ start = omega arith in
    (
      omega arith,
      omega arith,
      subst (λ n. is_char_boundary text n ≡ true) end (length-boundary text),
      λ m a b. absurd (omega arith),
    )
forward_lem text (suc fuel) start e = elim (Bool-cases (is_char_boundary text start)) [
  | inl at ↦
      rw (at, forward_to_boundary) (omega arith, omega arith, at, λ m a b. absurd (omega arith))
  | inr off ↦
      let (ge, le, bound, none_below) = forward_lem text fuel (start + 1) (omega arith) in
      rw (off, forward_to_boundary)
        (
          omega arith,
          le,
          bound,
          λ m a b. elim (dec_le (start + 1) m) [
            | yes big ↦ none_below m big b
            | no small ↦
                let bottom : start ≡ m = omega arith in
                subst (λ n. is_char_boundary text n ≡ false) bottom off
          ],
        )
]

module _ (finder : MarkerFinder) (text : Bytes) where
  -- For every limit, `head_end` gives an index of the text, no larger than the limit, that is at a
  -- character boundary and outside the redaction markers, and no larger index within the limit is; the
  -- finder gives these markers in order, apart and at character boundaries.
  pub head_end-IsCut :
      (limit : ℕ)
      → let end = head_end text (finder.spans text) limit in
        (end ≤ limit)
        × (end ≤ length text)
        × IsCut text (finder.spans text) end
        × ((m : ℕ) → end < m → m ≤ limit → m ≤ length text → ¬ IsCut text (finder.spans text) m)
  unfolding head_end
  head_end-IsCut limit =
      let spans = finder.spans text in
      let back = back_to_boundary text (min limit (length text)) in
      let (le, bound, none_above) = back_lem text (min limit (length text)) in
      elim (Option-cases (marker_around back spans)) [
        | inl free ↦
            rw (free, head_end)
              (
                omega arith,
                omega arith,
                (bound, free),
                λ m a b c is_cut. cc (none_above m a (omega arith), is_cut.0),
              )
        | inr (span, found) ↦
            let around = around_lem spans 0 back (finder.disjoint text) found in
            let law = around_in_text text spans back (finder.in_text text) found in
            rw (found, head_end)
              (
                omega (arith, around.before),
                omega (arith, around.before),
                (law.0, around.at_start),
                λ m a b c is_cut. elim (dec_le m back) [
                  | yes small ↦ around.inside m a (omega (arith, around.after)) is_cut.1
                  | no big ↦ cc (none_above m (omega arith) (omega arith), is_cut.0)
                ],
              )
      ]

  -- From every index of the text, `tail_start` gives an index, no smaller, that is at a character
  -- boundary and outside the redaction markers, and no smaller index from the given one on is; the
  -- finder gives these markers in order, apart and at character boundaries.
  pub tail_start-IsCut :
      (from : ℕ)
      → from ≤ length text
      → let start = tail_start text (finder.spans text) from in
        (from ≤ start)
        × (start ≤ length text)
        × IsCut text (finder.spans text) start
        × ((m : ℕ) → from ≤ m → m < start → ¬ IsCut text (finder.spans text) m)
  unfolding tail_start
  tail_start-IsCut from h =
      let spans = finder.spans text in
      let from' = min from (length text) in
      let start = forward_to_boundary text (length text - from') from' in
      let (ge, le, bound, none_below) =
        forward_lem text (length text - from') from' (omega arith) in
      elim (Option-cases (marker_around start spans)) [
        | inl free ↦
            rw (free, tail_start)
              (
                omega arith,
                le,
                (bound, free),
                λ m a b is_cut. cc (none_below m (omega arith) b, is_cut.0),
              )
        | inr (span, found) ↦
            let around = around_lem spans 0 start (finder.disjoint text) found in
            let law = around_in_text text spans start (finder.in_text text) found in
            rw (found, tail_start)
              (
                omega (arith, around.after),
                law.2,
                (law.1, around.at_end),
                λ m a b is_cut. elim (dec_le start m) [
                  | yes big ↦ around.inside m (omega (arith, around.before)) b is_cut.1
                  | no small ↦ cc (none_below m (omega arith) (omega arith), is_cut.0)
                ],
              )
      ]
