-- ===== src/Columns/Wrap/Content.antt =====
-- A wrapped text keeps every character but the spaces between words.
use volute.Prelude.{
  ℕ, zero, suc, ◌+◌, ◌≤◌, ◌≡◌, refl, sym, ap, ◌∙◌, false, max, List, [], ◌∷◌, ◌++◌, leb, ltb, ◌&&◌,
  ◌||◌, ◌==◌, if◌then◌else◌, length, arith, Bool-cases, inl, inr, All, All-append, All-drop,
  append_assoc, append-nil, drop-length-append,
}
use volute.Terminal.{Text}
use volute.Columns.{
  Wrapping, width, take_columns, after_head, push_head, break_word, start_word, add_word, add_words,
  finished, split_spaces, not_empty, words_of, wrap,
}
use volute.Columns.Laws.{width-append, take_columns-IsLongest}

-- The characters that are not spaces.
abbrev pub visible : Text → Text
visible [] = []
visible (c ∷ cs) = if c == b' ' then visible cs else c ∷ visible cs

abbrev pub joined : List Text → Text
joined [] = []
joined (xs ∷ xss) = xs ++ joined xss

visible-append : (xs ys : Text) → visible (xs ++ ys) ≡ visible xs ++ visible ys
visible-append [] ys = refl
visible-append (c ∷ cs) ys = elim (Bool-cases (c == b' ')) [
  | inl space ↦ rw space (visible-append cs ys)
  | inr other ↦ rw other (ap (◌∷◌ c) (visible-append cs ys))
]

joined-append : (xs ys : List Text) → joined (xs ++ ys) ≡ joined xs ++ joined ys
joined-append [] ys = refl
joined-append (x ∷ xs) ys = rw (joined-append xs ys, append_assoc)

joined-not_empty :
    (word : Text) (words : List Text)
    → joined (not_empty (word ∷ words)) ≡ word ++ joined (not_empty words)
unfolding not_empty
joined-not_empty [] words = refl
joined-not_empty (c ∷ cs) words = refl

split_spaces_lem :
    (text : Text)
    → visible ((split_spaces text).0 ++ joined (not_empty (split_spaces text).1)) ≡ visible text
unfolding split_spaces not_empty
split_spaces_lem [] = refl
split_spaces_lem (c ∷ cs) = elim (Bool-cases (c == b' ')) [
  | inl space ↦
      rw space (
        ap visible (joined-not_empty (split_spaces cs).0 (split_spaces cs).1) ∙ split_spaces_lem cs)
  | inr other ↦ rw (other, other) (ap (◌∷◌ c) (split_spaces_lem cs))
]

words_of_lem : (text : Text) → visible (joined (words_of text)) ≡ visible text
unfolding words_of
words_of_lem text =
    ap visible (joined-not_empty (split_spaces text).0 (split_spaces text).1)
    ∙ split_spaces_lem text

module _ (char_width : ℕ → ℕ) (columns : ℕ) where
  -- A character has a width, and a line has room for it.
  abbrev pub Fitting : ℕ → Type 0
  Fitting c = (1 ≤ char_width c) × (char_width c ≤ columns)

  split_spaces-Fitting :
      (text : Text)
      → All Fitting text
      → All Fitting (split_spaces text).0 × All (All Fitting) (split_spaces text).1
  unfolding split_spaces
  split_spaces-Fitting [] h = (tt, tt)
  split_spaces-Fitting (c ∷ cs) h =
      let more = split_spaces-Fitting cs h.1 in
      elim (Bool-cases (c == b' ')) [
        | inl space ↦ rw space (tt, (more.0, more.1))
        | inr other ↦ rw other ((h.0, more.0), more.1)
      ]

  not_empty-Fitting :
      (words : List Text) → All (All Fitting) words → All (All Fitting) (not_empty words)
  unfolding not_empty
  not_empty-Fitting [] h = tt
  not_empty-Fitting ([] ∷ words) h = not_empty-Fitting words h.1
  not_empty-Fitting ((c ∷ cs) ∷ words) h = (h.0, not_empty-Fitting words h.1)

  joined-push_head :
      (head : Text) (lines : List Text) → joined (push_head head lines) ≡ head ++ joined lines
  unfolding push_head
  joined-push_head [] lines = refl
  joined-push_head (c ∷ cs) lines = refl

  -- Where the head is not empty, it and what follows it are the text.
  one_width : (c : ℕ) → width char_width (c ∷ []) ≡ char_width c
  unfolding width
  one_width c = omega arith

  cut_head_lem :
      (head rest text : Text)
      → text ≡ head ++ rest
      → 1 ≤ length head
      → head ++ after_head head text ≡ text
  unfolding after_head
  cut_head_lem [] rest text split some_head = absurd (omega arith)
  cut_head_lem (x ∷ xs) rest text split some_head = rw (split, drop-length-append)

  after_head-Fitting : (head text : Text) → All Fitting text → All Fitting (after_head head text)
  unfolding after_head
  after_head-Fitting [] text h = All-drop Fitting 1 text h
  after_head-Fitting (x ∷ xs) text h = All-drop Fitting (suc (length xs)) text h

  head_lem :
      (c : ℕ) (cs : Text)
      → Fitting c
      → let head = take_columns char_width (c ∷ cs) columns in
        head ++ after_head head (c ∷ cs) ≡ c ∷ cs
  unfolding after_head
  head_lem c cs fitting =
      let longest = take_columns-IsLongest char_width (c ∷ cs) columns in
      cut_head_lem _ longest.rest (c ∷ cs) longest.split
        (longest.longest 1 (omega (arith, fitting.1, one_width c)) (omega arith))

  break_word_lem :
      (fuel : ℕ) (rest : Text)
      → All Fitting rest
      → let broken = break_word char_width columns fuel rest in
        (joined broken.0 ++ broken.1 ≡ rest) × All Fitting broken.1
  unfolding break_word width
  break_word_lem zero rest h = (refl, h)
  break_word_lem (suc fuel) [] h =
      let short : ltb columns 0 ≡ false = ground arith in rw short (refl, h)
  break_word_lem (suc fuel) (c ∷ cs) h =
      let rest = c ∷ cs in
      let head = take_columns char_width rest columns in
      let more = break_word_lem fuel (after_head head rest) (after_head-Fitting head rest h) in
      elim (Bool-cases (ltb columns (width char_width rest))) [
        | inl long ↦
            rw (long, break_word)
              (rw (joined-push_head, append_assoc, more.0) (head_lem c cs h.0), more.1)
        | inr short ↦ rw (short, break_word) (refl, h)
      ]

  -- All that has been put on the lines.
  content : Wrapping → Text
  content state = joined state.lines ++ state.line

  -- The width that is kept is the line's, whose characters fit.
  record IsTight (state : Wrapping) : Type 0 where
    counted : width char_width state.line ≡ state.line_width
    fitting : All Fitting state.line

  no_width : (line : Text) → All Fitting line → width char_width line ≡ 0 → line ≡ []
  unfolding width
  no_width [] h e = refl
  no_width (c ∷ cs) h e = absurd (omega (arith, h.0.0))

  start_word-IsTight :
      (word : Text) (state : Wrapping)
      → All Fitting word
      → IsTight state
      → IsTight (start_word char_width columns word state)
        × (content (start_word char_width columns word state) ≡ content state ++ word)
  unfolding start_word content
  start_word-IsTight word state fits h =
      let broken = break_word_lem (length word) word fits in
      elim (Bool-cases (ltb 0 state.line_width)) [
        | inl some_line ↦ rw some_line (
          record { counted = refl; fitting = broken.1 },
          simp (joined-append, append_assoc, append-nil, broken.0),
        )
        | inr no_line ↦
            let empty : state.line ≡ [] =
              no_width state.line h.fitting
                (let none : state.line_width ≡ 0 = ground arith in h.counted ∙ none) in
            rw (no_line, empty)
              (
                record { counted = refl; fitting = broken.1 },
                simp (joined-append, append_assoc, append-nil, broken.0),
              )
      ]

  module _ (space : char_width b' ' ≡ 1) (room : 1 ≤ columns) where
    add_word-IsTight :
        (word : Text) (state : Wrapping)
        → All Fitting word
        → IsTight state
        → IsTight (add_word char_width columns word state)
          × (visible (content (add_word char_width columns word state))
              ≡ visible (content state) ++ visible word)
    unfolding add_word content width
    add_word-IsTight word state fits h =
        elim (Bool-cases
          (ltb 0 state.line_width && leb (state.line_width + 1 + width char_width word) columns)) [
            | inl on_line ↦ rw on_line (
              record {
                counted =
                    omega
                      (arith, width-append char_width state.line (b' ' ∷ word), h.counted, space);
                fitting =
                    All-append Fitting state.line _ h.fitting
                      ((omega (arith, space), omega (arith, space, room)), fits);
              },
              simp (visible-append, append_assoc),
            )
            | inr full ↦
                let more = start_word-IsTight word state fits h in
                rw full (more.0, ap visible more.1 ∙ visible-append (content state) word)
          ]

    add_words-IsTight :
        (words : List Text) (state : Wrapping)
        → All (All Fitting) words
        → IsTight state
        → IsTight (add_words char_width columns words state)
          × (visible (content (add_words char_width columns words state))
              ≡ visible (content state) ++ visible (joined words))
    unfolding add_words
    add_words-IsTight [] state fits h = (h, sym (append-nil (visible (content state))))
    add_words-IsTight (word ∷ words) state fits h =
        let first = add_word-IsTight word state fits.0 h in
        let more =
          add_words-IsTight words (add_word char_width columns word state) fits.1 first.0 in
        (more.0, simp (more.1, first.1, visible-append, append_assoc))

  finished_lem : (state : Wrapping) → IsTight state → joined (finished state) ≡ content state
  unfolding finished content
  finished_lem state h = elim (Bool-cases (ltb 0 state.line_width || (length state.lines == 0))) [
    | inl last ↦ rw last (
        joined-append state.lines (state.line ∷ [])
        ∙ ap (λ r. joined state.lines ++ r) (append-nil state.line))
    | inr none ↦
        let empty : state.line ≡ [] =
          no_width state.line h.fitting
            (let none : state.line_width ≡ 0 = ground arith in h.counted ∙ none) in
        rw (none, empty) (sym (append-nil (joined state.lines)))
  ]

-- Where a space is one column wide, and each character of the text at least one and no wider than a
-- line, the lines of `wrap` hold the characters of the text that are not spaces, in their order, and
-- no others that are not.
pub wrap-visible :
    (char_width : ℕ → ℕ) (text : Text) (columns : ℕ)
    → char_width b' ' ≡ 1
    → All (λ c. (1 ≤ char_width c) × (char_width c ≤ max columns 1)) text
    → visible (joined (wrap char_width text columns)) ≡ visible text
unfolding wrap words_of width content
wrap-visible char_width text columns space fits =
    let start : Wrapping = record { lines = []; line = []; line_width = 0 } in
    let split = split_spaces-Fitting char_width (max columns 1) text fits in
    let done =
      add_words-IsTight char_width (max columns 1) space (omega arith) (words_of text) start
        (not_empty-Fitting char_width (max columns 1)
          ((split_spaces text).0 ∷ (split_spaces text).1) (split.0, split.1))
        (record { counted = refl; fitting = tt }) in
    ap visible (finished_lem char_width (max columns 1) _ done.0) ∙ (done.1 ∙ words_of_lem text)
