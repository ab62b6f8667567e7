-- ===== src/Stimulus/Note.antt =====
-- cvc-core/src/stimulus.rs, "markers and notes": the notes that stand for what was removed.
use volute.Prelude.{
  ℕ, ◌+◌, ◌-◌, not, ◌||◌, Option, none, some, List, [], ◌∷◌, ◌++◌, ltb, ◌==◌, if◌then◌else◌, length,
  take, drop, ◌>>=◌, first_some,
}
use mathlib.Core.List.{reverse}
use volute.Bytes.{
  Bytes, codes, strip_suffix, starts_with, ends_with, get_from, get_to, count_while, is_digit,
  decimal, parse_digits, match_indices,
}
use volute.Stimulus.{boundary_len, truncated_open, withheld_open, omitted_open}

-- Half-open, as `Range<usize>`.
pub record Range : Type 0 where
  pub start : ℕ
  pub end : ℕ

pub data NoteKind : Type 0 where
  truncated : ℕ → NoteKind
  withheld : NoteKind
  omitted : ℕ → NoteKind

pub record Note : Type 0 where
  pub kind : NoteKind
  pub range : Range

-- The writer's notes.
unfoldable pub truncated_note : ℕ → Bytes → Bytes
truncated_note removed token =
    truncated_open ++ (decimal removed ++ (codes " bytes " ++ (token ++ codes "]")))

unfoldable pub withheld_note : Bytes → Bytes
withheld_note token = withheld_open ++ (token ++ codes "]")

unfoldable pub omitted_note : ℕ → Bytes → Bytes
omitted_note count token =
    omitted_open ++ (decimal count ++ (codes " parts " ++ (token ++ codes "]")))

-- The digits that end a text, as a count, and how many they are.
unfoldable pub trailing_count : Bytes → Option (ℕ × ℕ)
trailing_count text =
    let digits = count_while is_digit (reverse text) in
    let run = drop (length text - digits) text in
    if digits == 0 || ltb 18 digits
    then none
    else if starts_with (codes "0") run
    then none
    else some (parse_digits 0 run, digits)

-- A note that counts something, before the token: its opening, the count and the unit.
unfoldable pub counted_note : Bytes → Bytes → (ℕ → NoteKind) → Bytes → ℕ → Option Note
counted_note open_ unit kind before end = do
  head ← strip_suffix unit before
  (count, digits) ← trailing_count head
  let head' = take (length head - digits) head
  if ends_with open_ head'
      then some (record {
        kind = kind count;
        range = record { start = length head' - length open_; end = end };
      })
      else none

unfoldable pub plain_note : Bytes → ℕ → Option Note
plain_note before end =
    if ends_with withheld_open before
    then some (record {
      kind = withheld;
      range = record { start = length before - length withheld_open; end = end };
    })
    else none

-- The note whose token starts at `at`, if the text around the token spells one.
unfoldable pub note_at : Bytes → ℕ → Option Note
note_at text at = do
  before ← get_to text at
  after ← get_from text (at + boundary_len)
  let end = at + boundary_len + 1
  if not (starts_with (codes "]") after)
      then none
      else first_some (counted_note truncated_open (codes " bytes ") truncated before end) (
          first_some (plain_note before end)
            (counted_note omitted_open (codes " parts ") omitted before end))

unfoldable pub notes_at : Bytes → List ℕ → List Note
notes_at text [] = []
notes_at text (at ∷ ats) =
    let rest = notes_at text ats in elim (note_at text at) [ some note ↦ note ∷ rest | none ↦ rest ]

-- The notes that carry the token, in order.
unfoldable pub notes_in : Bytes → Bytes → List Note
notes_in text token = notes_at text (match_indices token text)
