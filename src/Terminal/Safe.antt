-- ===== src/Terminal/Safe.antt =====
-- No unsafe character comes out of the filters.
use mathlib.Core.Bool.{false≢true}
use volute.Prelude.{
  ℕ, ◌≤◌, ◌≡◌, refl, sym, ◌∙◌, ◌⊎◌, inl, inr, Bool, true, false, ◌||◌, ◌==◌, List, [], ◌∷◌, map,
  All, All-imp, arith, Bool-cases,
}
use volute.Terminal.{
  Text, within, is_control, is_format, is_unsafe_for_terminal, any, shown_as, replace_where,
  sanitize_for_terminal, is_unsafe_in_lines, sanitize_lines_for_terminal,
}

-- Each character is kept, or is unsafe and has become a question mark.
abbrev pub Replaced : (ℕ → Bool) → Text → Text → Type 0
Replaced is_unsafe [] [] = Unit
Replaced is_unsafe (c ∷ cs) (d ∷ ds) =
    ((is_unsafe c ≡ false × d ≡ c) ⊎ (is_unsafe c ≡ true × d ≡ b'?')) × Replaced is_unsafe cs ds
Replaced is_unsafe _ _ = ⊥

-- Unicode's general category Cf, by ranges.
abbrev pub format_ranges : List (ℕ × ℕ)
format_ranges =
    (0xad, 0xad)
    ∷ (0x600, 0x605)
    ∷ (0x61c, 0x61c)
    ∷ (0x6dd, 0x6dd)
    ∷ (0x70f, 0x70f)
    ∷ (0x890, 0x891)
    ∷ (0x8e2, 0x8e2)
    ∷ (0x180e, 0x180e)
    ∷ (0x200b, 0x200f)
    ∷ (0x202a, 0x202e)
    ∷ (0x2060, 0x2064)
    ∷ (0x2066, 0x206f)
    ∷ (0xfeff, 0xfeff)
    ∷ (0xfff9, 0xfffb)
    ∷ (0x110bd, 0x110bd)
    ∷ (0x110cd, 0x110cd)
    ∷ (0x13430, 0x1343f)
    ∷ (0x1bca0, 0x1bca3)
    ∷ (0x1d173, 0x1d17a)
    ∷ (0xe0001, 0xe0001)
    ∷ (0xe0020, 0xe007f)
    ∷ []

-- The control characters, and what separates lines and paragraphs.
abbrev pub controls : List (ℕ × ℕ)
controls = (0, 0x1f) ∷ (0x7f, 0x9f) ∷ []

abbrev pub separators : List (ℕ × ℕ)
separators = (0x2028, 0x2029) ∷ []

abbrev pub InRanges : List (ℕ × ℕ) → ℕ → Type 0
InRanges [] c = ⊥
InRanges (range ∷ ranges) c = ((range.0 ≤ c) × (c ≤ range.1)) ⊎ InRanges ranges c

-- A control character, a format character, or one that separates lines or paragraphs.
abbrev pub IsUnsafe : ℕ → Type 0
IsUnsafe c = InRanges controls c ⊎ (InRanges format_ranges c ⊎ InRanges separators c)

-- Each character is shown as itself if it is safe, and else as a question mark.
abbrev pub Shown : Text → Text → Type 0
Shown [] [] = Unit
Shown (c ∷ cs) (d ∷ ds) = (((¬ IsUnsafe c) × d ≡ c) ⊎ (IsUnsafe c × d ≡ b'?')) × Shown cs ds
Shown _ _ = ⊥

in_ranges : List (ℕ × ℕ) → ℕ → Bool
in_ranges [] c = false
in_ranges (range ∷ ranges) c = within range.0 range.1 c || in_ranges ranges c

in_ranges→InRanges : (ranges : List (ℕ × ℕ)) (c : ℕ) → in_ranges ranges c ≡ true → InRanges ranges c
unfolding in_ranges
in_ranges→InRanges [] c h = cc
in_ranges→InRanges (range ∷ ranges) c h = elim (Bool-cases (within range.0 range.1 c)) [
  | inl inside ↦ inl (ground arith, ground arith)
  | inr outside ↦ inr (in_ranges→InRanges ranges c (ground arith))
]

InRanges→in_ranges : (ranges : List (ℕ × ℕ)) (c : ℕ) → InRanges ranges c → in_ranges ranges c ≡ true
unfolding in_ranges
InRanges→in_ranges [] c h = absurd h
InRanges→in_ranges (range ∷ ranges) c (inl h) = ground arith
InRanges→in_ranges (range ∷ ranges) c (inr h) =
    let rest = InRanges→in_ranges ranges c h in ground arith

eq-within : (n c : ℕ) → (c == n) ≡ within n n c
eq-within n c = ground arith

or-false : (b : Bool) → (b || false) ≡ b
or-false true = refl
or-false false = refl

or_assoc : (a b c : Bool) → ((a || b) || c) ≡ (a || (b || c))
or_assoc true b c = refl
or_assoc false b c = refl

is_format_lem : (c : ℕ) → is_format c ≡ in_ranges format_ranges c
unfolding is_format in_ranges
is_format_lem c = simp (eq-within, in_ranges, or-false, or_assoc)

is_control_lem : (c : ℕ) → is_control c ≡ in_ranges controls c
unfolding is_control in_ranges
is_control_lem c = simp or-false

is_separator_lem : (c : ℕ) → ((c == 0x2028) || (c == 0x2029)) ≡ in_ranges separators c
unfolding in_ranges
is_separator_lem c = ground arith

is_unsafe_lem :
    (c : ℕ)
    → is_unsafe_for_terminal c
      ≡ (in_ranges controls c || (in_ranges format_ranges c || in_ranges separators c))
unfolding is_unsafe_for_terminal
is_unsafe_lem c =
    rw (is_control_lem c, is_format_lem c, is_separator_lem c)
      (or_assoc (in_ranges controls c) (in_ranges format_ranges c) (in_ranges separators c))

unsafe→IsUnsafe : (c : ℕ) → is_unsafe_for_terminal c ≡ true → IsUnsafe c
unsafe→IsUnsafe c h =
    let e = is_unsafe_lem c in
    elim (Bool-cases (in_ranges controls c)) [
      | inl control ↦ inl (in_ranges→InRanges controls c control)
      | inr other ↦ elim (Bool-cases (in_ranges format_ranges c)) [
        | inl format ↦ inr (inl (in_ranges→InRanges format_ranges c format))
        | inr neither ↦ inr (inr (in_ranges→InRanges separators c (ground arith)))
      ]
    ]

IsUnsafe→unsafe : (c : ℕ) → IsUnsafe c → is_unsafe_for_terminal c ≡ true
IsUnsafe→unsafe c h = is_unsafe_lem c ∙ elim h [
  | inl control ↦ let here = InRanges→in_ranges controls c control in ground arith
  | inr (inl format) ↦ let here = InRanges→in_ranges format_ranges c format in ground arith
  | inr (inr separator) ↦ let here = InRanges→in_ranges separators c separator in ground arith
]

safe→IsSafe : (c : ℕ) → is_unsafe_for_terminal c ≡ false → ¬ IsUnsafe c
safe→IsSafe c h bad = false≢true (sym h ∙ IsUnsafe→unsafe c bad)

Replaced-Shown : (text out : Text) → Replaced is_unsafe_for_terminal text out → Shown text out
Replaced-Shown [] [] h = tt
Replaced-Shown [] (d ∷ ds) h = absurd h
Replaced-Shown (c ∷ cs) [] h = absurd h
Replaced-Shown (c ∷ cs) (d ∷ ds) (inl (safe, same), hs) =
    (inl (safe→IsSafe c safe, same), Replaced-Shown cs ds hs)
Replaced-Shown (c ∷ cs) (d ∷ ds) (inr (bad, mark), hs) =
    (inr (unsafe→IsUnsafe c bad, mark), Replaced-Shown cs ds hs)

module _ (is_unsafe : ℕ → Bool) where
  shown-Replaced : (text : Text) → Replaced is_unsafe text (map (shown_as is_unsafe) text)
  unfolding shown_as
  shown-Replaced [] = tt
  shown-Replaced (c ∷ cs) = elim (Bool-cases (is_unsafe c)) [
    | inl bad ↦ rw bad (inr (refl, refl), shown-Replaced cs)
    | inr good ↦ rw good (inl (refl, refl), shown-Replaced cs)
  ]

  kept-Replaced : (text : Text) → any is_unsafe text ≡ false → Replaced is_unsafe text text
  unfolding any
  kept-Replaced [] h = tt
  kept-Replaced (c ∷ cs) h = (inl (ground arith, refl), kept-Replaced cs (ground arith))

  pub replace_where-Replaced :
      (text : Text) → Replaced is_unsafe text (replace_where is_unsafe text)
  unfolding replace_where
  replace_where-Replaced text = elim (Bool-cases (any is_unsafe text)) [
    | inl found ↦ rw found (shown-Replaced text)
    | inr clean ↦ rw clean (kept-Replaced text clean)
  ]

  pub Replaced-safe :
      (text out : Text)
      → is_unsafe b'?' ≡ false
      → Replaced is_unsafe text out
      → All (λ c. is_unsafe c ≡ false) out
  Replaced-safe [] [] q h = tt
  Replaced-safe [] (d ∷ ds) q h = absurd h
  Replaced-safe (c ∷ cs) [] q h = absurd h
  Replaced-safe (c ∷ cs) (d ∷ ds) q (h, hs) =
      (elim h [ inl (safe, same) ↦ cc | inr (bad, mark) ↦ cc ], Replaced-safe cs ds q hs)

question_mark-safe : is_unsafe_for_terminal b'?' ≡ false
unfolding is_unsafe_for_terminal is_control is_format
question_mark-safe = refl

question_mark_in_lines-safe : is_unsafe_in_lines b'?' ≡ false
unfolding is_unsafe_in_lines is_unsafe_for_terminal is_control is_format
question_mark_in_lines-safe = refl

-- For every text, `sanitize_for_terminal` keeps each character that is safe, makes each other one a
-- question mark, and gives only safe characters. The unsafe ones are the control characters, from 0 to
-- 0x1f and from 0x7f to 0x9f, the format characters by their ranges in Unicode, and 0x2028 and 0x2029.
pub sanitize_for_terminal-Shown :
    (text : Text)
    → Shown text (sanitize_for_terminal text) × All (λ c. ¬ IsUnsafe c) (sanitize_for_terminal text)
unfolding sanitize_for_terminal
sanitize_for_terminal-Shown text =
    let out = replace_where is_unsafe_for_terminal text in
    let replaced = replace_where-Replaced is_unsafe_for_terminal text in
    let safe = Replaced-safe is_unsafe_for_terminal text out question_mark-safe replaced in
    (Replaced-Shown text out replaced, All-imp out safe→IsSafe safe)

pub sanitize_lines_for_terminal-safe :
    (text : Text) → All (λ c. is_unsafe_in_lines c ≡ false) (sanitize_lines_for_terminal text)
unfolding sanitize_lines_for_terminal
sanitize_lines_for_terminal-safe text =
    Replaced-safe is_unsafe_in_lines text _ question_mark_in_lines-safe
      (replace_where-Replaced is_unsafe_in_lines text)
