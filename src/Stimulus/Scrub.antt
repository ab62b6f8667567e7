-- ===== src/Stimulus/Scrub.antt =====
-- cvc-core/src/stimulus.rs, "scrubbing a stimulus": part by part, and around the notes.
use volute.Prelude.{ℕ, Option, none, some, List, [], ◌∷◌, ◌++◌, if◌then◌else◌, drop, ◌>>=◌}
use volute.Bytes.{Bytes, bytes_eq, slice}
use volute.Privacy.{Result, ok, err}
use volute.Stimulus.{Scrub}
use volute.Stimulus.Token.{Sha256}
use volute.Stimulus.Marker.{render_marker}
use volute.Stimulus.Note.{Note, notes_in, withheld_note}
use volute.Stimulus.Read.{Reading, ReadPart, Verified, verified, read, content_of}
use volute.Stimulus.Render.{safe_name}

unfoldable pub result_ok : Result Bytes → Option Bytes
result_ok (ok text) = some text
result_ok (err e) = none

-- `scrub(segment).ok()`, and nothing to do for an empty segment.
unfoldable pub scrub_segment : Scrub → Bytes → Option Bytes
scrub_segment scrub [] = some []
scrub_segment scrub (b ∷ bs) = result_ok (scrub (b ∷ bs))

-- The content from `at` on, around the notes; `none` if a segment cannot be scrubbed.
unfoldable pub scrub_around : Scrub → Bytes → ℕ → List Note → Option Bytes
scrub_around scrub content at [] = scrub_segment scrub (drop at content)
scrub_around scrub content at (note ∷ notes) = do
  scrubbed ← scrub_segment scrub (slice content at note.range.start)
  rest ← scrub_around scrub content note.range.end notes
  some (scrubbed ++ (slice content note.range.start note.range.end ++ rest))

unfoldable pub or_withheld : Bytes → Option Bytes → Bytes
or_withheld token none = withheld_note token
or_withheld token (some text) = text

unfoldable pub scrub_content : Scrub → Bytes → Bytes → Bytes
scrub_content scrub content token =
    or_withheld token (scrub_around scrub content 0 (notes_in content token))

-- The marker, with its tool name scrubbed on its own.
unfoldable pub marker_named : Scrub → Bytes → ReadPart → Bytes → Option Bytes → Bytes
marker_named scrub marker part token none = marker
marker_named scrub marker part token (some name) =
    let safe = safe_name (some name) scrub in
    if bytes_eq safe name then marker else render_marker part.kind (some safe) part.is_error token

unfoldable pub scrub_marker : Scrub → Bytes → ReadPart → Bytes → Bytes
scrub_marker scrub text part token =
    marker_named scrub (slice text part.marker.start part.marker.end) part token part.name

-- The parts from offset `copied` on, with what lies between them.
unfoldable pub scrub_parts : Scrub → Bytes → Bytes → ℕ → List ReadPart → Bytes
scrub_parts scrub text token copied [] = drop copied text
scrub_parts scrub text token copied (part ∷ parts) =
    slice text copied part.marker.start
    ++ (scrub_marker scrub text part token
        ++ (scrub_content scrub (content_of part text) token
            ++ scrub_parts scrub text token part.content.end parts))

unfoldable pub scrub_verified : Scrub → Bytes → Verified → Bytes
scrub_verified scrub text v = scrub_parts scrub text v.boundary 0 v.parts

unfoldable pub scrub_reading : Scrub → Bytes → Reading → Result Bytes
scrub_reading scrub text (verified v) = ok (scrub_verified scrub text v)
scrub_reading scrub text _ = scrub text

unfoldable pub scrub_stimulus : Sha256 → Bytes → Bytes → Scrub → Result Bytes
scrub_stimulus sha id text scrub = scrub_reading scrub text (read sha id text)
