-- ===== src/Stimulus/Render.antt =====
-- cvc-core/src/stimulus.rs, "rendering": scrub each part, bound the whole, choose the boundary, mark.
pub mod Prepare
pub mod Size
pub mod Bound
use volute.Prelude.{
  ℕ, zero, suc, ◌+◌, ◌-◌, min, Bool, true, false, not, ◌&&◌, ◌||◌, Option, none, some, List, [],
  ◌∷◌, ◌++◌, map, ltb, ◌==◌, if◌then◌else◌, length, take,
}
use volute.Bytes.{Bytes, codes, bytes_eq, decimal}
use volute.Privacy.{Result, ok, err, too_large}
use volute.Stimulus.{
  Scrub, PartKind, prompt, task, meta, tool_result, is_tool_result, StimulusPart, of, no_stimulus,
  max_stimulus_bytes, max_parts, max_scrubbed_bytes, boundary_candidates, unknown_tool,
  redacted_tool, separator, placeholder_token, undivided_note, truncated_open, withheld_note_bytes,
  tool_result_head_bytes, tool_result_tail_bytes,
}
use volute.Stimulus.Token.{Sha256, is_valid_name, tokens_in, shape_of, boundary}
use volute.Stimulus.Marker.{render_marker}
use volute.Stimulus.Note.{truncated_note, withheld_note, omitted_note}
use volute.Stimulus.Budget.{Slot, fixed, tool, other, allocate}
use volute.Stimulus.Cut.{Spans, Content, whole, cut, withheld, fit}

-- `body` is `none` when the part was withheld.
pub record Prepared : Type 0 where
  pub kind : PartKind
  pub name : Option Bytes
  pub is_error : Bool
  pub body : Option Bytes

unfoldable pub unchanged_name : Bytes → Result Bytes → Bytes
unchanged_name name (ok scrubbed) = if bytes_eq scrubbed name then name else redacted_tool
unchanged_name name (err e) = redacted_tool

-- A tool name that a marker can carry.
unfoldable pub safe_name : Option Bytes → Scrub → Bytes
safe_name none scrub = unknown_tool
safe_name (some name) scrub =
    if is_valid_name name then unchanged_name name (scrub name) else unknown_tool

-- The body that a scrubbed text gives, and what is left of the budget of bytes to scan.
unfoldable pub scanned : Bytes → ℕ → Result Bytes → Option Bytes × ℕ
scanned text unscrubbed (ok body) = (some body, unscrubbed - length text)
scanned text unscrubbed (err too_large) = (none, unscrubbed)
scanned text unscrubbed (err _) = (none, unscrubbed - length text)

unfoldable pub prepare : StimulusPart → Scrub → ℕ → Prepared × ℕ
prepare part scrub unscrubbed =
    let (body, left) =
      if ltb unscrubbed (length part.text)
      then (none, unscrubbed)
      else scanned part.text unscrubbed (scrub part.text) in
    let is_tool = is_tool_result part.kind in
    (
      record {
        kind = part.kind;
        name = if is_tool then some (safe_name part.name scrub) else none;
        is_error = is_tool && part.is_error;
        body = body;
      },
      left,
    )

abbrev pub is_person : PartKind → Bool
is_person prompt = true
is_person task = true
is_person _ = false

-- One pass of the loop that fills `prepared`: the parts for which `wanted` holds, in order.
unfoldable pub prepare_pass :
    (PartKind → Bool)
    → Scrub
    → List (StimulusPart × Option Prepared)
    → ℕ
    → List (StimulusPart × Option Prepared) × ℕ
prepare_pass wanted scrub [] left = ([], left)
prepare_pass wanted scrub ((part, filled) ∷ parts) left =
    let (item, left') = prepare part scrub left in
    let (rest, left'') =
      prepare_pass wanted scrub parts (if wanted part.kind then left' else left) in
    ((part, if wanted part.kind then some item else filled) ∷ rest, left'')

-- `prepared.into_iter().flatten()`
unfoldable pub filled_items : List (StimulusPart × Option Prepared) → List Prepared
filled_items [] = []
filled_items ((part, none) ∷ parts) = filled_items parts
filled_items ((part, some item) ∷ parts) = item ∷ filled_items parts

-- A person's words are scrubbed first.
unfoldable pub prepare_all : List StimulusPart → Scrub → List Prepared
prepare_all shown scrub =
    let (persons, left) =
      prepare_pass is_person scrub (map (λ part. (part, none)) shown) max_scrubbed_bytes in
    let (all, _) = prepare_pass (λ kind. not (is_person kind)) scrub persons left in
    filled_items all

unfoldable pub slot_of : ℕ → PartKind → Option Bytes → Slot
slot_of marker_len kind none = record {
  marker_len = marker_len;
  want = withheld_note_bytes;
  class = fixed;
}
slot_of marker_len tool_result (some body) = record {
  marker_len = marker_len;
  want = min (length body) (tool_result_head_bytes + tool_result_tail_bytes);
  class = tool;
}
slot_of marker_len kind (some body) = record {
  marker_len = marker_len;
  want = length body;
  class = other;
}

unfoldable pub slot : Prepared → Slot
slot item =
    slot_of (length (render_marker item.kind item.name item.is_error placeholder_token)) item.kind
      item.body

unfoldable pub bounded : Spans → ℕ → PartKind → Option Bytes → Content
bounded spans allowance kind none = withheld
bounded spans allowance kind (some body) = fit spans body allowance (is_tool_result kind)

-- `shown.iter().zip(&allowances)`
unfoldable pub contents_of : Spans → List Prepared → List ℕ → List Content
contents_of spans [] allowances = []
contents_of spans (item ∷ items) [] = []
contents_of spans (item ∷ items) (allowance ∷ allowances) =
    bounded spans allowance item.kind item.body ∷ contents_of spans items allowances

unfoldable pub name_tokens : Option Bytes → List Bytes
name_tokens none = []
name_tokens (some name) = tokens_in name

unfoldable pub content_tokens : Content → List Bytes
content_tokens (whole text) = tokens_in text
content_tokens (cut head tail removed) = tokens_in head ++ tokens_in tail
content_tokens withheld = []

-- Every token in the final bytes.
unfoldable pub present_tokens : List Prepared → List Content → List Bytes
present_tokens (item ∷ items) (content ∷ contents) =
    name_tokens item.name ++ (content_tokens content ++ present_tokens items contents)
present_tokens _ _ = []

unfoldable pub contains : List Bytes → Bytes → Bool
contains [] token = false
contains (x ∷ xs) token = bytes_eq x token || contains xs token

-- The first of `count` candidates, from `candidate` on, whose token is free.
unfoldable pub choose : Sha256 → Bytes → Bytes → List Bytes → ℕ → ℕ → Option (ℕ × Bytes)
choose sha id shape present zero candidate = none
choose sha id shape present (suc count) candidate =
    let token = boundary sha id shape candidate in
    let rest = choose sha id shape present count (candidate + 1) in
    if contains present token then rest else some (candidate, token)

-- A head on lines of its own before a note, and a tail after it.
unfoldable pub around_note : Bytes → Bytes → Bytes → Bytes
around_note [] note [] = note
around_note [] note tail = note ++ (10 ∷ tail)
around_note head note [] = head ++ (10 ∷ note)
around_note head note tail = head ++ (10 ∷ (note ++ (10 ∷ tail)))

unfoldable pub content_text : Bytes → Content → Bytes
content_text token (whole text) = text
content_text token (cut head tail removed) = around_note head (truncated_note removed token) tail
content_text token withheld = withheld_note token

unfoldable pub assemble_from : ℕ → List Prepared → List Content → Bytes → Bytes
assemble_from index (item ∷ items) (content ∷ contents) token =
    (if index == 0 then [] else separator)
    ++ (render_marker item.kind item.name item.is_error token
        ++ (content_text token content ++ assemble_from (index + 1) items contents token))
assemble_from index _ _ token = []

unfoldable pub assemble : List Prepared → List Content → Bytes → ℕ → Bytes
assemble shown contents token omitted =
    assemble_from 0 shown contents token
    ++ (if ltb 0 omitted then separator ++ omitted_note omitted token else [])

unfoldable pub undivided_text : Content → Bytes
undivided_text (whole text) = text
undivided_text (cut head tail removed) =
    around_note head (truncated_open ++ (decimal removed ++ codes " bytes]")) tail
undivided_text withheld = codes "[cvc: withheld]"

unfoldable pub undivided_parts : List Content → Bytes
undivided_parts [] = []
undivided_parts (content ∷ contents) =
    separator ++ (undivided_text content ++ undivided_parts contents)

unfoldable pub assemble_undivided : List Content → ℕ → Bytes
assemble_undivided contents omitted =
    undivided_note
    ++ (undivided_parts contents
        ++ (if ltb 0 omitted
            then separator ++ (codes "[cvc: omitted " ++ (decimal omitted ++ codes " parts]"))
            else []))

pub record Rendered : Type 0 where
  pub text : Bytes
  pub candidate : Option ℕ
  pub kept_parts : ℕ
  pub omitted_parts : ℕ

unfoldable pub marked : List Prepared → List Content → ℕ → ℕ → Option (ℕ × Bytes) → Rendered
marked shown contents kept omitted (some (candidate, token)) = record {
  text = assemble shown contents token omitted;
  candidate = some candidate;
  kept_parts = kept;
  omitted_parts = omitted;
}
marked shown contents kept omitted none = record {
  text = assemble_undivided contents omitted;
  candidate = none;
  kept_parts = kept;
  omitted_parts = omitted;
}

module _ (sha : Sha256) (spans : Spans) where
  -- The stages after the parts are prepared: bound, choose the boundary, mark.
  unfoldable pub render_prepared : Bytes → List Prepared → ℕ → Rendered
  render_prepared id prepared total =
      let (kept, allowances) = allocate (map slot prepared) total max_stimulus_bytes in
      let shown = take kept prepared in
      let contents = contents_of spans shown allowances in
      let shape = shape_of (map (λ item. item.kind) shown) in
      marked shown contents kept (total - kept)
        (choose sha id shape (present_tokens shown contents) boundary_candidates 0)

  unfoldable pub render_detailed : Bytes → List StimulusPart → Scrub → Rendered
  render_detailed id [] scrub = record {
    text = no_stimulus;
    candidate = none;
    kept_parts = 0;
    omitted_parts = 0;
  }
  render_detailed id (part ∷ parts) scrub =
      let total = length (part ∷ parts) in
      render_prepared id (prepare_all (take (min total max_parts) (part ∷ parts)) scrub) total

  unfoldable pub render : Bytes → List StimulusPart → Scrub → Bytes
  render id parts scrub = (render_detailed id parts scrub).text

  unfoldable pub withheld_stimulus : Bytes → Bytes
  withheld_stimulus id = render id (of meta [] ∷ []) (λ _. err too_large)
