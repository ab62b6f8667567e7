-- ===== src/Stimulus/Read.antt =====
-- cvc-core/src/stimulus.rs, "reading": the reference reader.
use volute.Prelude.{
  ℕ, zero, suc, ◌+◌, ◌-◌, Bool, true, false, ◌&&◌, ◌||◌, Option, none, some, List, [], ◌∷◌, map,
  leb, ◌==◌, if◌then◌else◌, length, get_elem?, ◌>>=◌,
}
use volute.Bytes.{Bytes, codes, bytes_eq, slice, match_indices}
use volute.Stimulus.{PartKind, no_stimulus, separator, boundary_candidates}
use volute.Stimulus.Token.{Sha256, contains_token, shape_of, boundary}
use volute.Stimulus.Marker.{Marker, marker_at}
use volute.Stimulus.Note.{Range, Note, NoteKind, truncated, withheld, omitted, note_at}

pub record ReadPart : Type 0 where
  pub kind : PartKind
  pub name : Option Bytes
  pub is_error : Bool
  pub marker : Range
  pub content : Range

pub record Verified : Type 0 where
  pub boundary : Bytes
  pub parts : List ReadPart
  pub omitted_parts : Option ℕ

pub data Reading : Type 0 where
  verified : Verified → Reading
  undivided legacy : Reading

-- `part.content_of(text)`
unfoldable pub content_of : ReadPart → Bytes → Bytes
content_of part text = slice text part.content.start part.content.end

-- Whether a separator ends at `at`, and starts no earlier than `from`.
unfoldable pub separated : Bytes → ℕ → ℕ → Bool
separated text from at =
    leb 2 at && bytes_eq (slice text (at - 2) at) separator && leb from (at - 2)

-- A marker with the boundary as its token.
unfoldable pub with_token : Bytes → Option Marker → Option Marker
with_token token none = none
with_token token (some marker) = if bytes_eq marker.token token then some marker else none

-- The markers that the loop pushes at the offsets of `[`, after one that ends at `last_end`.
unfoldable pub more_markers : Bytes → Bytes → ℕ → List ℕ → List Marker
more_markers text token last_end [] = []
more_markers text token last_end (at ∷ ats) =
    let found = if separated text last_end at then with_token token (marker_at text at) else none in
    elim found [
      | some marker ↦ marker ∷ more_markers text token marker.end ats
      | none ↦ more_markers text token last_end ats
    ]

unfoldable pub is_marker_token : List Marker → ℕ → Bool
is_marker_token [] at = false
is_marker_token (marker ∷ markers) at = marker.token_offset == at || is_marker_token markers at

-- The notes of the occurrences that are no marker's; `none` if one of them spells no note.
unfoldable pub other_notes : Bytes → List Marker → List ℕ → Option (List Note)
other_notes text markers [] = some []
other_notes text markers (at ∷ ats) =
    let rest = other_notes text markers ats in
    if is_marker_token markers at
    then rest
    else (do note ← note_at text at; notes ← rest; some (note ∷ notes))

unfoldable pub last_end : ℕ → List Marker → ℕ
last_end end [] = end
last_end end (marker ∷ markers) = last_end marker.end markers

-- The `omitted` notes, with their counts.
unfoldable pub omitted_notes : List Note → List (ℕ × Range)
omitted_notes [] = []
omitted_notes (note ∷ notes) =
    let rest = omitted_notes notes in
    elim note.kind [ omitted count ↦ (count, note.range) ∷ rest | _ ↦ rest ]

-- Where the parts end, and how many parts the closing note says were left out.
unfoldable pub close_parts : Bytes → ℕ → List (ℕ × Range) → Option (ℕ × Option ℕ)
close_parts text last [] = some (length text, none)
close_parts text last ((count, range) ∷ []) =
    if range.end == length text && separated text last range.start
    then some (range.start - 2, some count)
    else none
close_parts text last (_ ∷ _ ∷ _) = none

-- Where a part's content ends: at the separator before the next marker, or at the end of the parts.
unfoldable pub content_end : ℕ → List Marker → ℕ
content_end end_of_parts [] = end_of_parts
content_end end_of_parts (marker ∷ _) = marker.start - length separator

unfoldable pub read_parts : ℕ → List Marker → List ReadPart
read_parts end_of_parts [] = []
read_parts end_of_parts (marker ∷ markers) =
    record {
      kind = marker.kind;
      name = marker.name;
      is_error = marker.is_error;
      marker = record { start = marker.start; end = marker.end };
      content = record { start = marker.end; end = content_end end_of_parts markers };
    }
    ∷ read_parts end_of_parts markers

-- `parts.partition_point(|part| part.content.start <= at)`
unfoldable pub starting_by : ℕ → List ReadPart → ℕ
starting_by at [] = 0
starting_by at (part ∷ parts) = if leb part.content.start at then suc (starting_by at parts) else 0

-- The last part that starts before the note, if the note lies inside it.
unfoldable pub holder : Range → List ReadPart → Option ReadPart
holder range parts =
    let count = starting_by range.start parts in
    if count == 0 then none else (do
      part ← get_elem? parts (count - 1)
      if leb range.end part.content.end then some part else none)

-- A `withheld` note is a part's whole content, a `truncated` note lies inside one.
unfoldable pub well_placed : NoteKind → Range → Option ReadPart → Bool
well_placed (omitted _) range part = true
well_placed withheld range (some part) =
    part.content.start == range.start && part.content.end == range.end
well_placed (truncated _) range (some part) = true
well_placed _ range none = false

unfoldable pub all_placed : List ReadPart → List Note → Bool
all_placed parts [] = true
all_placed parts (note ∷ notes) =
    well_placed note.kind note.range (holder note.range parts) && all_placed parts notes

-- Whether the token is the boundary of one of `count` candidates from `candidate` on.
unfoldable pub any_candidate : Sha256 → Bytes → Bytes → Bytes → ℕ → ℕ → Bool
any_candidate sha id shape token zero candidate = false
any_candidate sha id shape token (suc count) candidate =
    bytes_eq (boundary sha id shape candidate) token
    || any_candidate sha id shape token count (candidate + 1)

unfoldable pub verify : Sha256 → Bytes → Bytes → Marker → Option Verified
verify sha id text first = do
  let token = first.token
  let markers = first ∷ more_markers text token first.end (match_indices (codes "[") text)
  notes ← other_notes text markers (match_indices token text)
  (end_of_parts, omitted_parts) ← close_parts text (last_end 0 markers) (omitted_notes notes)
  let parts = read_parts end_of_parts markers
  let shape = shape_of (map (λ part. part.kind) parts)
  if all_placed parts notes && any_candidate sha id shape token boundary_candidates 0
      then some (record { boundary = token; parts = parts; omitted_parts = omitted_parts })
      else none

unfoldable pub unopened : Bytes → Reading
unopened text = if contains_token text then undivided else legacy

unfoldable pub opened_by : Option Verified → Reading
opened_by (some v) = verified v
opened_by none = undivided

unfoldable pub read : Sha256 → Bytes → Bytes → Reading
read sha id text = if bytes_eq text no_stimulus then legacy else elim (marker_at text 0) [
  | none ↦ unopened text
  | some first ↦ opened_by (verify sha id text first)
]
