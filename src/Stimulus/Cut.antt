-- ===== src/Stimulus/Cut.antt =====
-- cvc-core/src/stimulus.rs: where a text that is too long is cut.
pub mod Bounds
pub mod Fit
use volute.Prelude.{
  ℕ, zero, suc, ◌+◌, ◌-◌, ◌*◌, ◌/◌, min, Bool, ◌&&◌, Option, none, some, List, [], ◌∷◌, leb, ltb,
  ◌==◌, if◌then◌else◌, length, take, drop,
}
use volute.Bytes.{Bytes, is_char_boundary}
use volute.Stimulus.Note.{Range}

-- `markers.iter().find(|span| span.start < at && at < span.end)`
unfoldable pub marker_around : ℕ → List Range → Option Range
marker_around at [] = none
marker_around at (span ∷ spans) =
    let rest = marker_around at spans in
    if ltb span.start at && ltb at span.end then some span else rest

-- `while !text.is_char_boundary(end) { end -= 1; }`
unfoldable pub back_to_boundary : Bytes → ℕ → ℕ
unfolding is_char_boundary
back_to_boundary text zero = zero
back_to_boundary text (suc end) =
    let back = back_to_boundary text end in
    if is_char_boundary text (suc end) then suc end else back

-- `while !text.is_char_boundary(start) { start += 1; }`: the end of the text is a boundary, so the
-- bytes that are left are fuel enough.
unfoldable pub forward_to_boundary : Bytes → ℕ → ℕ → ℕ
unfolding is_char_boundary
forward_to_boundary text zero start = start
forward_to_boundary text (suc fuel) start =
    let forward = forward_to_boundary text fuel (start + 1) in
    if is_char_boundary text start then start else forward

unfoldable pub head_end : Bytes → List Range → ℕ → ℕ
unfolding marker_around back_to_boundary
head_end text markers limit =
    let end = back_to_boundary text (min limit (length text)) in
    elim (marker_around end markers) [ some span ↦ span.start | none ↦ end ]

unfoldable pub tail_start : Bytes → List Range → ℕ → ℕ
unfolding marker_around forward_to_boundary
tail_start text markers from =
    let from' = min from (length text) in
    let start = forward_to_boundary text (length text - from') from' in
    elim (marker_around start markers) [ some span ↦ span.end | none ↦ start ]

pub data Content : Type 0 where
  whole : Bytes → Content
  cut : (head tail : Bytes) (removed : ℕ) → Content
  withheld : Content

-- The regular expression engine's search for redaction markers, `redaction_marker_spans`.
abbrev pub Spans : Type 0
Spans = Bytes → List Range

unfoldable pub head_len : Spans → Bytes → ℕ → ℕ
unfolding head_end
head_len spans text limit = head_end text (spans text) limit

-- The cut of a body that is longer than its allowance.
unfoldable pub cut_at : Bytes → ℕ → ℕ → Content
cut_at body head tail = cut (take head body) (drop tail body) (tail - head)

unfoldable pub fit : Spans → Bytes → ℕ → Bool → Content
unfolding head_end tail_start cut_at
fit spans body allowance is_tool =
    let markers = spans body in
    let head_budget = if is_tool then allowance * 3 / 4 else allowance in
    let tail_budget = if is_tool then allowance - allowance * 3 / 4 else 0 in
    let head = head_end body markers head_budget in
    let tail =
      if tail_budget == 0
      then length body
      else tail_start body markers (length body - tail_budget) in
    if leb (length body) allowance then whole body else cut_at body head tail
