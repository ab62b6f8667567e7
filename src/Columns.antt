-- ===== src/Columns.antt =====
-- cvc-cli/src/tui/text.rs: fitting a text into a number of terminal columns. A text is the list of its
-- characters; how wide each is comes from the crate `unicode-width`, a parameter here.
pub mod Laws
pub mod Wrap
pub mod Environment
mod Tests
use volute.Prelude.{
  ℕ, zero, suc, ◌+◌, ◌-◌, max, Bool, true, false, not, ◌&&◌, ◌||◌, List, [], ◌∷◌, ◌++◌, leb, ltb,
  ◌==◌, if◌then◌else◌, length, drop, replicate,
}
use volute.Bytes.{codes, all}
use volute.Terminal.{Text, is_whitespace, sanitize_for_terminal}

abbrev pub untitled : Text
untitled = codes "(untitled)"

-- A title as shown: `text.trim().is_empty()` holds where all of the text is white space.
unfoldable pub title : Text → Text
unfolding all is_whitespace sanitize_for_terminal
title text = if all is_whitespace text then untitled else sanitize_for_terminal text

-- The words of `text.split(' ')` that are not empty.
unfoldable pub split_spaces : Text → Text × List Text
split_spaces [] = ([], [])
split_spaces (c ∷ cs) =
    let (word, words) = split_spaces cs in
    if c == b' ' then ([], word ∷ words) else (c ∷ word, words)

unfoldable pub not_empty : List Text → List Text
not_empty [] = []
not_empty ([] ∷ words) = not_empty words
not_empty ((c ∷ cs) ∷ words) = (c ∷ cs) ∷ not_empty words

unfoldable pub words_of : Text → List Text
unfolding split_spaces not_empty
words_of text = let (word, words) = split_spaces text in not_empty (word ∷ words)

-- The loop of `wrap`: the lines that are done, and the line being filled with its width.
pub record Wrapping : Type 0 where
  pub lines : List Text
  pub line : Text
  pub line_width : ℕ

-- `&rest[head.len()..]`, or `rest` without its first character where the head is empty.
unfoldable pub after_head : Text → Text → Text
after_head [] rest = drop 1 rest
after_head (c ∷ cs) rest = drop (length (c ∷ cs)) rest

-- `lines.push(head)`, where the head is not empty.
unfoldable pub push_head : Text → List Text → List Text
push_head [] lines = lines
push_head (c ∷ cs) lines = (c ∷ cs) ∷ lines

-- The last line is kept where it has a width, or where it is the only one.
unfoldable pub finished : Wrapping → List Text
finished state =
    if ltb 0 state.line_width || (length state.lines == 0)
    then state.lines ++ (state.line ∷ [])
    else state.lines

module _ (char_width : ℕ → ℕ) where
  unfoldable pub width : Text → ℕ
  width [] = 0
  width (c ∷ cs) = char_width c + width cs

  -- The loop of `take_columns`, with the columns used.
  unfoldable pub take_columns_from : ℕ → Text → ℕ → Text
  take_columns_from used [] max = []
  take_columns_from used (c ∷ cs) max =
      let rest = take_columns_from (used + char_width c) cs max in
      if ltb max (used + char_width c) then [] else c ∷ rest

  unfoldable pub take_columns : Text → ℕ → Text
  unfolding take_columns_from
  take_columns text max = take_columns_from 0 text max

  unfoldable pub truncate : Text → ℕ → Text → Text
  unfolding width take_columns
  truncate text max ellipsis =
      if leb (width text) max
      then text
      else if leb max (width ellipsis)
      then take_columns ellipsis max
      else take_columns text (max - width ellipsis) ++ ellipsis

  unfoldable pub pad_start : Text → ℕ → Text
  unfolding width
  pad_start text columns = replicate (columns - width text) b' ' ++ text

  -- The loop that breaks a word longer than a line: the full lines, and what is left. Each round takes
  -- a character at least, so the length of the word is fuel enough.
  unfoldable pub break_word : ℕ → ℕ → Text → List Text × Text
  unfolding width take_columns after_head push_head
  break_word columns zero rest = ([], rest)
  break_word columns (suc fuel) rest =
      let head = take_columns rest columns in
      let (lines, last) = break_word columns fuel (after_head head rest) in
      if ltb columns (width rest) then (push_head head lines, last) else ([], rest)

  -- A word that does not go on the line: it starts the next one, broken where it must be.
  unfoldable pub start_word : ℕ → Text → Wrapping → Wrapping
  unfolding width break_word
  start_word columns word state =
      let flushed : List Text × Text =
        if ltb 0 state.line_width
        then (state.lines ++ (state.line ∷ []), [])
        else (state.lines, state.line) in
      let (full, rest) = break_word columns (length word) word in
      record { lines = flushed.0 ++ full; line = flushed.1 ++ rest; line_width = width rest }

  unfoldable pub add_word : ℕ → Text → Wrapping → Wrapping
  unfolding width start_word
  add_word columns word state =
      if ltb 0 state.line_width && leb (state.line_width + 1 + width word) columns
      then record {
        lines = state.lines;
        line = state.line ++ (b' ' ∷ word);
        line_width = state.line_width + (1 + width word);
      }
      else start_word columns word state

  unfoldable pub add_words : ℕ → List Text → Wrapping → Wrapping
  unfolding add_word
  add_words columns [] state = state
  add_words columns (word ∷ words) state = add_words columns words (add_word columns word state)

  unfoldable pub wrap : Text → ℕ → List Text
  unfolding add_words finished words_of
  wrap text columns =
      finished (
        add_words (max columns 1) (words_of text)
          (record { lines = []; line = []; line_width = 0 }))
