-- ===== src/Stimulus/Render/Size/Notes.antt =====
-- The length of a note in a rendered stimulus.
use volute.Prelude.{ℕ, ◌+◌, ◌≤◌, ◌≡◌, [], ◌∷◌, ◌++◌, length, arith, length-append}
use volute.Bytes.{Bytes, codes, decimal}
use volute.Bytes.Laws.{pow10}
use volute.Stimulus.Note.{truncated_note, withheld_note, omitted_note}
use volute.Stimulus.Render.{around_note}

-- Notes count less than this many bytes or parts: their digits fit what is reserved for them.
abbrev pub count_limit : ℕ
count_limit = pow10 14

pub length-truncated_note :
    (removed : ℕ) (token : Bytes)
    → length (truncated_note removed token) ≡ 27 + length (decimal removed) + length token
unfolding truncated_note
length-truncated_note removed token = omega (
  arith,
  length-append (decimal removed) (codes " bytes " ++ (token ++ codes "]")),
  length-append token (codes "]"),
)

pub length-withheld_note : (token : Bytes) → length (withheld_note token) ≡ 16 + length token
unfolding withheld_note
length-withheld_note token = omega (arith, length-append token (codes "]"))

pub length-omitted_note :
    (count : ℕ) (token : Bytes)
    → length (omitted_note count token) ≡ 22 + length (decimal count) + length token
unfolding omitted_note
length-omitted_note count token = omega (
  arith,
  length-append (decimal count) (codes " parts " ++ (token ++ codes "]")),
  length-append token (codes "]"),
)

pub length-around_note :
    (head note tail : Bytes)
    → length (around_note head note tail) ≤ length head + length note + length tail + 2
unfolding around_note
length-around_note [] note [] = omega arith
length-around_note [] note (t ∷ tail) = omega (arith, length-append note (10 ∷ t ∷ tail))
length-around_note (h ∷ head) note [] = omega (arith, length-append head (10 ∷ note))
length-around_note (h ∷ head) note (t ∷ tail) =
    omega (
      arith,
      length-append head (10 ∷ (note ++ (10 ∷ t ∷ tail))),
      length-append note (10 ∷ t ∷ tail),
    )
