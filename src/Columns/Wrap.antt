-- ===== src/Columns/Wrap.antt =====
-- Every line of a wrapped text fits.
pub mod Content
use volute.Prelude.{
  ℕ, zero, suc, ◌+◌, ◌-◌, ◌≤◌, ◌<◌, ◌≡◌, refl, false, max, List, [], ◌∷◌, ◌++◌, leb, ltb, ◌&&◌,
  ◌||◌, ◌==◌, if◌then◌else◌, length, drop, arith, Bool-cases, inl, inr, All, All-append,
  length-drop, length-append,
}
use volute.Terminal.{Text}
use volute.Columns.{
  Wrapping, width, take_columns, after_head, push_head, break_word, start_word, add_word, add_words,
  finished, words_of, wrap,
}
use volute.Columns.Laws.{width-append, IsLongest, take_columns-IsLongest}

pub after_head-shorter :
    (head : Text) (c : ℕ) (rest : Text) → length (after_head head (c ∷ rest)) ≤ length rest
unfolding after_head
after_head-shorter [] c rest = omega arith
after_head-shorter (x ∷ xs) c rest = omega (arith, length-drop (length xs) rest)

module _ (char_width : ℕ → ℕ) (columns : ℕ) where
  abbrev pub FitsLine : Text → Type 0
  FitsLine line = width char_width line ≤ columns

  push_head-fits :
      (head : Text) (lines : List Text)
      → FitsLine head
      → All FitsLine lines
      → All FitsLine (push_head head lines)
  unfolding push_head
  push_head-fits [] lines h hs = hs
  push_head-fits (c ∷ cs) lines h hs = (h, hs)

  break_word-fits :
      (fuel : ℕ) (rest : Text)
      → length rest ≤ fuel
      → All FitsLine (break_word char_width columns fuel rest).0
        × FitsLine (break_word char_width columns fuel rest).1
  unfolding break_word width
  break_word-fits zero [] h = (tt, omega arith)
  break_word-fits zero (c ∷ cs) h = absurd (omega arith)
  break_word-fits (suc fuel) [] h =
      let short : ltb columns 0 ≡ false = ground arith in rw short (tt, omega arith)
  break_word-fits (suc fuel) (c ∷ cs) h =
      let rest = c ∷ cs in
      let head = take_columns char_width rest columns in
      elim (Bool-cases (ltb columns (width char_width rest))) [
        | inl long ↦
            let more =
              break_word-fits fuel (after_head head rest)
                (omega (arith, h, after_head-shorter head c cs)) in
            rw (long, break_word)
              (
                push_head-fits head _ (take_columns-IsLongest char_width rest columns).fits more.0,
                more.1,
              )
        | inr short ↦ rw (short, break_word) (tt, ground arith)
      ]

  -- The width that is kept is the line's, and the lines fit.
  pub record IsFilling (state : Wrapping) : Type 0 where
    pub counted : width char_width state.line ≡ state.line_width
    pub line_fits : state.line_width ≤ columns
    pub lines_fit : All FitsLine state.lines

  start_word-IsFilling :
      (word : Text) (state : Wrapping)
      → IsFilling state
      → IsFilling (start_word char_width columns word state)
  unfolding start_word
  start_word-IsFilling word state h =
      let broken = break_word-fits (length word) word (omega arith) in
      elim (Bool-cases (ltb 0 state.line_width)) [
        | inl some_line ↦ rw some_line (record {
          counted = refl;
          line_fits = broken.1;
          lines_fit =
              All-append FitsLine _ _
                (All-append FitsLine state.lines _ h.lines_fit
                  (omega (arith, h.counted, h.line_fits), tt))
                broken.0;
        })
        | inr no_line ↦ rw no_line (record {
          counted =
              let zero_width : state.line_width ≡ 0 = ground arith in
              omega (
                arith,
                width-append char_width state.line
                    (break_word char_width columns (length word) word).1,
                h.counted,
                zero_width,
              );
          line_fits = broken.1;
          lines_fit = All-append FitsLine state.lines _ h.lines_fit broken.0;
        })
      ]

  module _ (space : char_width b' ' ≡ 1) where
    add_word-IsFilling :
        (word : Text) (state : Wrapping)
        → IsFilling state
        → IsFilling (add_word char_width columns word state)
    unfolding add_word width
    add_word-IsFilling word state h =
        elim (Bool-cases
          (ltb 0 state.line_width && leb (state.line_width + 1 + width char_width word) columns)) [
            | inl room ↦ rw room (record {
              counted =
                  omega (arith, width-append char_width state.line (b' ' ∷ word), h.counted, space);
              line_fits = ground arith;
              lines_fit = h.lines_fit;
            })
            | inr full ↦ rw full (start_word-IsFilling word state h)
          ]

    add_words-IsFilling :
        (words : List Text) (state : Wrapping)
        → IsFilling state
        → IsFilling (add_words char_width columns words state)
    unfolding add_words
    add_words-IsFilling [] state h = h
    add_words-IsFilling (word ∷ words) state h =
        add_words-IsFilling words (add_word char_width columns word state)
          (add_word-IsFilling word state h)

finished-fits :
    (char_width : ℕ → ℕ) (columns : ℕ) (state : Wrapping)
    → IsFilling char_width columns state
    → All (FitsLine char_width columns) (finished state) × (0 < length (finished state))
unfolding finished
finished-fits char_width columns state h =
    elim (Bool-cases (ltb 0 state.line_width || (length state.lines == 0))) [
      | inl last ↦ rw last (
        All-append _ state.lines _ h.lines_fit (omega (arith, h.counted, h.line_fits), tt),
        omega (arith, length-append state.lines (state.line ∷ [])),
      )
      | inr none ↦ rw none (h.lines_fit, ground arith)
    ]

-- Where a space is one column wide, `wrap` gives at least one line, and no line is wider than the
-- columns, or than one column where there are none, however wide the other characters are.
pub wrap-fits :
    (char_width : ℕ → ℕ) (text : Text) (columns : ℕ)
    → char_width b' ' ≡ 1
    → All (λ line. width char_width line ≤ max columns 1) (wrap char_width text columns)
      × (0 < length (wrap char_width text columns))
unfolding wrap width
wrap-fits char_width text columns space = finished-fits char_width (max columns 1) _ (
    add_words-IsFilling char_width (max columns 1) space (words_of text) _
      (record { counted = refl; line_fits = omega arith; lines_fit = tt }))
