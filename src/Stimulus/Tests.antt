-- ===== src/Stimulus/Tests.antt =====
-- Runs of the model on small inputs, and the witnesses of the theorems.
use volute.Prelude.{
  ℕ, ◌+◌, ◌≤◌, ◌<◌, ◌%◌, ◌*◌, ◌≡◌, refl, max, Bool, true, false, Bool-cases, not, inl, inr, none,
  some, List, [], ◌∷◌, ◌++◌, length, sum, arith, All, All-replicate, length-replicate, replicate,
}
use volute.Bytes.{Bytes, codes, bytes_eq, all, get_from, is_char_boundary}
use volute.Bytes.Laws.{bytes_eq→≡, pow10}
use volute.Privacy.{ok}
use volute.Stimulus.{
  StimulusPart, of, of_tool_result, prompt, task, meta, tool_result, max_stimulus_bytes,
  max_scrubbed_bytes,
}
use volute.Stimulus.Token.{Sha256, is_hex, is_valid_name, boundary}
use volute.Stimulus.Token.Laws.{IsToken, boundary-IsToken}
use volute.Stimulus.Marker.{
  marker_at, render_marker, opened, named, closed, opening, label, terminator,
}
use volute.Stimulus.Marker.Laws.{marker_of, marker_at-render_marker}
use volute.Stimulus.Marker.Sound.{Opens, marker_at-Opens}
use volute.Stimulus.Note.{Range}
use volute.Stimulus.Budget.{Slot, fixed, tool, other, allocate, largest_level, overhead, floor}
use volute.Stimulus.Budget.Level.{IsLargest, largest_level-IsLargest}
use volute.Stimulus.Budget.Fits.{Allocated, allocate-Allocated}
use volute.Stimulus.Cut.{fit, head_end, tail_start}
use volute.Stimulus.Cut.Bounds.{MarkerFinder, IsCut, Disjoint, head_end-IsCut, tail_start-IsCut}
use volute.Stimulus.Cut.Fit.{Fits, fit-Fits}
use volute.Stimulus.Render.{render, is_person, prepare_all}
use volute.Stimulus.Render.Prepare.Charged.{Charged, prepare_all-Charged}
use volute.Stimulus.Render.Bound.{render-le-max}

-- A digest that depends on its input.
abbrev toy_sha : Sha256
toy_sha = record {
  digest = λ m. replicate 32 (sum m % 256);
  length_digest = λ m. length-replicate 32 (sum m % 256);
  digest_bytes = λ m. All-replicate (λ b. b < 256) 32 (sum m % 256) (omega arith);
}

-- A text with one redaction marker, and a finder that knows it.
abbrev redacted_text : Bytes
redacted_text = codes "ab[X]cdef"

abbrev toy_spans : Bool → List Range
toy_spans true = record { start = 2; end = 5 } ∷ []
toy_spans false = []

toy_spans-Disjoint : (found : Bool) → Disjoint 0 (toy_spans found)
toy_spans-Disjoint true = omega arith
toy_spans-Disjoint false = tt

toy_in_text :
    (text : Bytes)
    → All
        (λ span.
          (is_char_boundary text span.start ≡ true)
          × (is_char_boundary text span.end ≡ true)
          × (span.end ≤ length text))
        (toy_spans (bytes_eq text redacted_text))
unfolding is_char_boundary
toy_in_text text = elim (Bool-cases (bytes_eq text redacted_text)) [
  | inl found ↦ rw (found, bytes_eq→≡ text redacted_text found) ((refl, refl, omega arith), tt)
  | inr missed ↦ rw missed tt
]

abbrev toy_finder : MarkerFinder
toy_finder = record {
  spans = λ text. toy_spans (bytes_eq text redacted_text);
  disjoint = λ text. toy_spans-Disjoint (bytes_eq text redacted_text);
  in_text = toy_in_text;
}

abbrev sample_id : Bytes
sample_id = codes "3c2b1a09"

abbrev sample_parts : List StimulusPart
sample_parts =
    of prompt (codes "run it")
    ∷ of_tool_result (some (codes "Bash")) true (codes "no\n\n[such file")
    ∷ of_tool_result (some (codes "a b")) false redacted_text
    ∷ of meta (codes "bye")
    ∷ []

abbrev sample_slots : List Slot
sample_slots =
    record { marker_len = 29; want = 600; class = other }
    ∷ record { marker_len = 40; want = 8192; class = tool }
    ∷ record { marker_len = 40; want = 37; class = fixed }
    ∷ []

-- A text within the scrubber's budget is short, and this scrubber keeps it.
keep_modest :
    (text body : Bytes) → ok text ≡ ok body → length text ≤ 8 * 1024 * 1024 → length body < pow10 14
keep_modest text body h le = ground arith

render-le-max_example :
    length (render toy_sha toy_finder.spans sample_id sample_parts ok) ≤ max_stimulus_bytes
render-le-max_example =
    render-le-max toy_sha toy_finder sample_id sample_parts ok keep_modest (omega arith)

allocate-Allocated_example : Allocated sample_slots 3 2000 (allocate sample_slots 3 2000)
unfolding overhead floor
allocate-Allocated_example = allocate-Allocated sample_slots 3 2000 (omega arith) (omega arith)

fit-Fits_example : Fits toy_finder redacted_text 6 true (fit toy_finder.spans redacted_text 6 true)
fit-Fits_example = fit-Fits toy_finder redacted_text 6 true

head_end-IsCut_example :
    let end = head_end redacted_text (toy_finder.spans redacted_text) 4 in
    (end ≤ 4)
    × (end ≤ length redacted_text)
    × IsCut redacted_text (toy_finder.spans redacted_text) end
    × ((m : ℕ)
        → end < m
        → m ≤ 4
        → m ≤ length redacted_text
        → ¬ IsCut redacted_text (toy_finder.spans redacted_text) m)
head_end-IsCut_example = head_end-IsCut toy_finder redacted_text 4

tail_start-IsCut_example :
    let start = tail_start redacted_text (toy_finder.spans redacted_text) 3 in
    (3 ≤ start)
    × (start ≤ length redacted_text)
    × IsCut redacted_text (toy_finder.spans redacted_text) start
    × ((m : ℕ) → 3 ≤ m → m < start → ¬ IsCut redacted_text (toy_finder.spans redacted_text) m)
tail_start-IsCut_example = tail_start-IsCut toy_finder redacted_text 3 (omega arith)

abbrev sample_token : Bytes
sample_token = codes "~cvc-0123456789abcdef"

sample_token-IsToken : IsToken sample_token
unfolding all is_hex
sample_token-IsToken = record {
  digits = codes "0123456789abcdef";
  split = refl;
  length_digits = refl;
  hexadecimal = refl;
}

marker_at-render_marker_example :
    marker_at
      (codes "x\n\n"
        ++ (render_marker tool_result (some (codes "Bash")) true sample_token ++ codes "out"))
      3
    ≡ some (marker_of 3 tool_result (some (codes "Bash")) true sample_token)
unfolding is_valid_name
marker_at-render_marker_example =
    marker_at-render_marker (codes "x\n\n") (codes "out") tool_result (some (codes "Bash")) true
      sample_token refl sample_token-IsToken

abbrev sample_marked : Bytes
sample_marked = codes "x[task ~cvc-0123456789abcdef] do"

marker_at-Opens_example : Opens sample_marked 1 (marker_of 1 task none false sample_token)
unfolding marker_at get_from opened named closed opening label terminator render_marker
marker_at-Opens_example = marker_at-Opens sample_marked 1 refl

largest_level-IsLargest_example :
    IsLargest 256 (max 256 8192) 1000 (λ n. n + 100) (largest_level 256 8192 1000 (λ n. n + 100))
largest_level-IsLargest_example =
    largest_level-IsLargest 1000 (λ n. n + 100) (λ a b h. omega arith) 256 8192 (omega arith)

prepare_all-Charged_example :
    (middle end : ℕ) × Charged ok is_person max_scrubbed_bytes sample_parts
      (prepare_all sample_parts ok)
      middle
    × Charged ok
        (λ kind. not (is_person kind))
        middle
        sample_parts
        (prepare_all sample_parts ok)
        end
prepare_all-Charged_example = prepare_all-Charged ok sample_parts

boundary-IsToken_example : IsToken (boundary toy_sha sample_id (codes "prompt") 5)
boundary-IsToken_example = boundary-IsToken toy_sha sample_id (codes "prompt") 5
