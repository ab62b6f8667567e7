-- ===== src/Stimulus/Render/Size.antt =====
-- A stimulus that is rendered is within its size.
mod Notes
mod Marker
pub use Notes.{count_limit}
pub use Marker.{one_part_bound}
use volute.Stimulus.Render.Size.Notes.{
  length-truncated_note, length-withheld_note, length-omitted_note, length-around_note,
}
use volute.Stimulus.Render.Size.Marker.{marker_size}
use volute.Prelude.{
  ℕ, suc, ◌+◌, ◌*◌, ◌≤◌, ◌<◌, ◌≡◌, refl, ap, Bool, true, false, Option, none, some, List, [], ◌∷◌,
  ◌++◌, map, length, All, arith, length-append, sum, if◌then◌else◌, ltb, ◌==◌,
}
use volute.Bytes.{Bytes, codes, decimal}
use volute.Bytes.Laws.{pow10, length-decimal}
use volute.Stimulus.{
  PartKind, prompt, task, meta, compaction_summary, tool_result, separator, note_reserve,
  omitted_reserve, boundary_len, placeholder_token, truncated_open,
}
use volute.Stimulus.Token.{is_valid_name}
use volute.Stimulus.Marker.{opening, label, terminator, render_marker}
use volute.Stimulus.Marker.Laws.{Labels, length-render_marker}
use volute.Stimulus.Note.{truncated_note, withheld_note, omitted_note}
use volute.Stimulus.Budget.{fixed, floor, overhead, overheads, closing}
use volute.Stimulus.Budget.Fits.{Keeps}
use volute.Stimulus.Cut.{Content, whole, cut, withheld}
use volute.Stimulus.Cut.Bounds.{MarkerFinder}
use volute.Stimulus.Cut.Fit.{Fits, fit-Fits}
use volute.Stimulus.Render.{
  Prepared, slot, slot_of, bounded, contents_of, around_note, content_text, assemble_from,
  undivided_text, undivided_parts,
}

module _ (finder : MarkerFinder) (body : Bytes) (allowance : ℕ) (is_tool : Bool) where
  removed-le :
      (head tail : Bytes) (removed : ℕ)
      → Fits finder body allowance is_tool (cut head tail removed)
      → (removed ≤ length body) × (length head + length tail ≤ allowance)
  removed-le head tail removed fits =
      let (
        middle, joined, counted, positive, kept, at_head, no_tail, at_tail, over, no_head, no_more,
      ) =
        fits in
      (
        omega (
          arith,
          ap (λ (xs : Bytes). length xs) joined,
          length-append head (middle ++ tail),
          length-append middle tail,
        ),
        kept,
      )

  -- A bounded content takes its allowance and the reserve of one note at most, and its plain form less.
  content_size :
      (content : Content) (token : Bytes)
      → length token ≡ boundary_len
      → length body < count_limit
      → Fits finder body allowance is_tool content
      → (length (content_text token content) ≤ allowance + note_reserve)
        × (length (undivided_text content) ≤ allowance + 42)
  unfolding content_text undivided_text
  content_size (whole text) token e small fits =
      let same = ap (λ (xs : Bytes). length xs) fits.0 in
      (omega (arith, fits.1), omega (arith, fits.1))
  content_size (cut head tail removed) token e small fits =
      let (le, kept) = removed-le head tail removed fits in
      let digits = length-decimal 13 removed (omega arith) in
      (
        omega (
          arith,
          length-around_note head (truncated_note removed token) tail,
          length-truncated_note removed token,
        ),
        omega (
          arith,
          length-around_note head (truncated_open ++ (decimal removed ++ codes " bytes]")) tail,
          length-append (decimal removed) (codes " bytes]"),
        ),
      )
  content_size withheld token e small fits = absurd fits

abbrev pub SmallBody : Option Bytes → Type 0
SmallBody none = Unit
SmallBody (some body) = length body < count_limit

length-gap :
    (first : Bool)
    → length (if first then [] else separator) ≡ (if first then 0 else length separator)
length-gap true = refl
length-gap false = refl

module _ (finder : MarkerFinder) (token : Bytes) (e : length token ≡ boundary_len) where
  bounded_size :
      (marker_len allowance : ℕ) (kind : PartKind) (body : Option Bytes)
      → SmallBody body
      → ((slot_of marker_len kind body).class ≡ fixed
          → allowance ≡ (slot_of marker_len kind body).want)
      → let content = bounded finder.spans allowance kind body in
        (length (content_text token content) ≤ allowance + note_reserve)
        × (length (undivided_text content) ≤ allowance + 42)
  unfolding bounded slot_of content_text undivided_text
  bounded_size n allowance prompt none small keep =
      let full = keep refl in (omega (arith, length-withheld_note token), omega arith)
  bounded_size n allowance kind none small keep =
      let full = keep refl in (omega (arith, length-withheld_note token), omega arith)
  bounded_size n allowance prompt (some body) small keep =
      content_size finder body allowance false _ token e small
        (fit-Fits finder body allowance false)
  bounded_size n allowance kind (some body) small keep =
      content_size finder body allowance _ _ token e small (fit-Fits finder body allowance _)

  part_size :
      (item : Prepared) (allowance : ℕ)
      → SmallBody item.body
      → ((slot item).class ≡ fixed → allowance ≡ (slot item).want)
      → let content = bounded finder.spans allowance item.kind item.body in
        (length (content_text token content) ≤ allowance + note_reserve)
        × (length (undivided_text content) ≤ allowance + 42)
  unfolding slot
  part_size item allowance small keep = bounded_size _ allowance item.kind item.body small keep

  -- The marked parts take what is reserved for them and what they keep, at most.
  pub assemble_from_size :
      (items : List Prepared) (kept : List ℕ) (index : ℕ)
      → All (λ item. SmallBody item.body) items
      → Keeps (map slot items) kept
      → length (assemble_from index items (contents_of finder.spans items kept) token)
        ≤ overheads index (map slot items) + sum kept
  unfolding assemble_from contents_of overheads overhead
  assemble_from_size [] [] index small keep = omega arith
  assemble_from_size [] (k ∷ kept) index small keep = absurd keep
  assemble_from_size (item ∷ items) [] index small keep = absurd keep
  assemble_from_size (item ∷ items) (k ∷ kept) index small keep =
      let gap : Bytes = if index == 0 then [] else separator in
      let marker = render_marker item.kind item.name item.is_error token in
      let content = content_text token (bounded finder.spans k item.kind item.body) in
      let rest = assemble_from (index + 1) items (contents_of finder.spans items kept) token in
      omega (
        arith,
        length-append gap (marker ++ (content ++ rest)),
        length-append marker (content ++ rest),
        length-append content rest,
        length-gap (index == 0),
        marker_size item token e,
        (part_size item k small.0 keep.0).0,
        assemble_from_size items kept (index + 1) small.1 keep.1,
      )

  -- The parts without markers take less, by what a marker takes.
  pub undivided_parts_size :
      (items : List Prepared) (kept : List ℕ) (index : ℕ)
      → All (λ item. SmallBody item.body) items
      → Keeps (map slot items) kept
      → length (undivided_parts (contents_of finder.spans items kept)) + 43 * length items
        ≤ overheads (suc index) (map slot items) + sum kept
  unfolding undivided_parts contents_of overheads overhead
  undivided_parts_size [] [] index small keep = omega arith
  undivided_parts_size [] (k ∷ kept) index small keep = absurd keep
  undivided_parts_size (item ∷ items) [] index small keep = absurd keep
  undivided_parts_size (item ∷ items) (k ∷ kept) index small keep =
      let content = undivided_text (bounded finder.spans k item.kind item.body) in
      let rest = undivided_parts (contents_of finder.spans items kept) in
      let more : suc index + 1 ≡ suc (suc index) = omega arith in
      let later : (suc index == 0) ≡ false = ground arith in
      rw (later, more)
        (omega (
          arith,
          length-append content rest,
          marker_size item token e,
          length-render_marker item.kind item.name item.is_error token,
          (part_size item k small.0 keep.0).1,
          undivided_parts_size items kept (suc index) small.1 keep.1,
        ))

pub closing_size :
    (kept omitted total : ℕ) (token : Bytes)
    → kept + omitted ≡ total
    → total < count_limit
    → length token ≡ boundary_len
    → length (if ltb 0 omitted then separator ++ omitted_note omitted token else [])
      ≤ closing kept total
unfolding closing
closing_size kept omitted total token e small t =
    let digits = length-decimal 13 omitted (omega arith) in
    ground (arith, length-omitted_note omitted token)

pub undivided_closing_size :
    (kept omitted total : ℕ)
    → kept + omitted ≡ total
    → total < count_limit
    → length (
        if ltb 0 omitted
        then separator ++ (codes "[cvc: omitted " ++ (decimal omitted ++ codes " parts]"))
        else [])
      ≤ closing kept total
unfolding closing
undivided_closing_size kept omitted total e small =
    let digits = length-decimal 13 omitted (omega arith) in
    ground (arith, length-append (decimal omitted) (codes " parts]"))
