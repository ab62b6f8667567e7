-- ===== src/Transcript/Window/Outcome.antt =====
-- What parse_window gives, errors included.
use volute.Prelude.{
  ℕ, zero, suc, ◌+◌, ◌≤◌, ◌≡◌, ◌≢◌, refl, ◌∙◌, sym, subst, Bool, true, false, List, [], ◌∷◌, ◌++◌,
  append_assoc, append-nil, length, length-append, arith, Option-cases, inl, inr, ◌⊎◌,
}
use volute.Bytes.{Bytes, split_once}
use volute.Transcript.{TranscriptError, Parsed, ok, err, ◌>>=◌, ParsedLine}
use volute.Transcript.Line.{Readers, parse_line}
use volute.Transcript.Window.{
  Window, empty_window, push_parsed, parse_tail, rounds, read_lines, parse_window,
}
use volute.Transcript.Window.Newline.{newline, NoNewline, newline-none, newline-some}
use volute.Transcript.Window.Round.{rounds-some, rounds-none, rounds-empty, length-line}

abbrev pub is_malformed : TranscriptError → Bool
is_malformed (TranscriptError.malformed offset reason) = true
is_malformed (TranscriptError.unsupported_version offset version supported) = false
is_malformed (TranscriptError.session_mismatch offset expected found) = false

cons-ne : {x : ℕ} {xs : Bytes} → (x ∷ xs) ≢ []
cons-ne e = cc

module _ {V T : Type 0} (parse : Bytes → ℕ → Parsed (ParsedLine V T)) (base : ℕ) where
  -- The text, which starts at the byte `at` of the window, is lines that parse to these, each of which a
  -- newline ends.
  pub data Reads : ℕ → Bytes → List (ParsedLine V T) → Type 0 where
    nothing : (at : ℕ) → Reads at [] []
    line :
        {at : ℕ} (text rest : Bytes) (p : ParsedLine V T) {ps : List (ParsedLine V T)}
        → NoNewline text
        → parse text (base + at) ≡ ok p
        → Reads (at + (length text + 1)) rest ps
        → Reads at (text ++ 10 ∷ rest) (p ∷ ps)

  -- What follows a line that fails: a newline, or nothing where the error is no malformed line.
  abbrev pub Stopped : TranscriptError → Bytes → Type 0
  Stopped e back = ((more : Bytes) × (back ≡ 10 ∷ more)) ⊎ ((back ≡ []) × (is_malformed e ≡ false))

  -- What comes of the text from the byte `at` on, when these lines were read before.
  pub data Outcome (at : ℕ) (before : List (ParsedLine V T)) (text : Bytes)
      : Parsed (Window V T) → Type 0 where
    read :
        (ps : List (ParsedLine V T)) (w : Window V T)
        → Reads at text ps
        → w.lines ≡ before ++ ps
        → w.consumed ≡ at + length text
        → w.truncated_tail ≡ false
        → Outcome at before text (ok w)
    read_last :
        (front last : Bytes) (ps : List (ParsedLine V T)) (p : ParsedLine V T) (w : Window V T)
        → text ≡ front ++ last
        → Reads at front ps
        → last ≢ []
        → NoNewline last
        → parse last (base + (at + length front)) ≡ ok p
        → w.lines ≡ before ++ (ps ++ p ∷ [])
        → w.consumed ≡ at + length text
        → w.truncated_tail ≡ false
        → Outcome at before text (ok w)
    truncated :
        (front tail : Bytes) (ps : List (ParsedLine V T)) (e : TranscriptError) (w : Window V T)
        → text ≡ front ++ tail
        → Reads at front ps
        → tail ≢ []
        → NoNewline tail
        → parse tail (base + (at + length front)) ≡ err e
        → is_malformed e ≡ true
        → w.lines ≡ before ++ ps
        → w.consumed ≡ at + length front
        → w.truncated_tail ≡ true
        → Outcome at before text (ok w)
    failed :
        (front bad back : Bytes) (ps : List (ParsedLine V T)) (e : TranscriptError)
        → text ≡ front ++ (bad ++ back)
        → Reads at front ps
        → NoNewline bad
        → parse bad (base + (at + length front)) ≡ err e
        → Stopped e back
        → Outcome at before text (err e)

  line_place :
      (at : ℕ) (text front : Bytes)
      → at + (length text + 1) + length front ≡ at + length (text ++ 10 ∷ front)
  line_place at text front = omega (arith, length-append text (10 ∷ front))

  -- A line before.
  Outcome-line :
      (at : ℕ) (before : List (ParsedLine V T)) (text rest : Bytes) (p : ParsedLine V T)
      {r : Parsed (Window V T)}
      → NoNewline text
      → parse text (base + at) ≡ ok p
      → Outcome (at + (length text + 1)) (before ++ p ∷ []) rest r
      → Outcome at before (text ++ 10 ∷ rest) r
  Outcome-line at before text rest p no_newline parsed (Outcome.read ps w reads lines n flag) =
      Outcome.read (p ∷ ps) w (Reads.line text rest p no_newline parsed reads)
        (lines ∙ append_assoc before (p ∷ []) ps) (omega (arith, n, length-append text (10 ∷ rest)))
        flag
  Outcome-line at before text rest p no_newline parsed
        (Outcome.read_last front last ps q w e reads some_in no_break parsed' lines n flag) =
      let place = line_place at text front in
      Outcome.read_last (text ++ 10 ∷ front) last (p ∷ ps) q w (rw (e, append_assoc) refl)
        (Reads.line text front p no_newline parsed reads) some_in no_break (rw (← place) parsed')
        (lines ∙ append_assoc before (p ∷ []) (ps ++ q ∷ []))
        (omega (arith, n, length-append text (10 ∷ rest))) flag
  Outcome-line at before text rest p no_newline parsed
        (Outcome.truncated front tail ps x w e reads some_in no_break fails malformed lines n
          flag) =
      let place = line_place at text front in
      Outcome.truncated (text ++ 10 ∷ front) tail (p ∷ ps) x w (rw (e, append_assoc) refl)
        (Reads.line text front p no_newline parsed reads) some_in no_break (rw (← place) fails)
        malformed (lines ∙ append_assoc before (p ∷ []) ps) (n ∙ place) flag
  Outcome-line at before text rest p no_newline parsed
        (Outcome.failed front bad back ps x e reads no_break fails stop) =
      let place = line_place at text front in
      Outcome.failed (text ++ 10 ∷ front) bad back (p ∷ ps) x (rw (e, append_assoc) refl)
        (Reads.line text front p no_newline parsed reads) no_break (rw (← place) fails) stop

  here :
      (rest : Bytes) (at : ℕ) {r : Parsed (ParsedLine V T)}
      → parse rest (base + at) ≡ r
      → parse rest (base + (at + 0)) ≡ r
  here rest at e = let place : at + 0 ≡ at = omega arith in rw place e

  parse_tail-Outcome :
      (rest : Bytes) (at : ℕ) (w : Window V T) (r : Parsed (ParsedLine V T))
      → rest ≢ []
      → NoNewline rest
      → parse rest (base + at) ≡ r
      → w.consumed ≡ at
      → Outcome at w.lines rest (parse_tail w r (at + length rest))
  unfolding parse_tail push_parsed
  parse_tail-Outcome rest at w (ok p) some_in no_newline e consumed =
      Outcome.read_last [] rest [] p _ refl (Reads.nothing at) some_in no_newline (here rest at e)
        refl refl refl
  parse_tail-Outcome rest at w (err (TranscriptError.malformed o r)) some_in no_newline e consumed =
      Outcome.truncated [] rest [] _ _ refl (Reads.nothing at) some_in no_newline (here rest at e)
        refl (sym (append-nil w.lines)) (omega (arith, consumed)) refl
  parse_tail-Outcome rest at w (err (TranscriptError.unsupported_version o v s)) some_in no_newline
        e consumed =
      Outcome.failed [] rest [] [] _ (sym (append-nil rest)) (Reads.nothing at) no_newline
        (here rest at e) (inr (refl, refl))
  parse_tail-Outcome rest at w (err (TranscriptError.session_mismatch o v s)) some_in no_newline e
        consumed =
      Outcome.failed [] rest [] [] _ (sym (append-nil rest)) (Reads.nothing at) no_newline
        (here rest at e) (inr (refl, refl))

  -- The rounds after a line.
  after-line :
      (at : ℕ) (w : Window V T) (text rest : Bytes) (fuel : ℕ) (r : Parsed (ParsedLine V T))
      → NoNewline text
      → parse text (base + at) ≡ r
      → ((p : ParsedLine V T)
          → Outcome (at + (length text + 1)) (w.lines ++ p ∷ []) rest (
              rounds parse base fuel rest
                (at + (length text + 1))
                (push_parsed w p (at + (length text + 1)))))
      → Outcome at w.lines (text ++ 10 ∷ rest) (
          r >>= (λ p.
            rounds parse base fuel rest
              (at + (length text + 1))
              (push_parsed w p (at + (length text + 1)))))
  after-line at w text rest fuel (ok p) no_newline parsed more =
      Outcome-line at w.lines text rest p no_newline parsed (more p)
  after-line at w text rest fuel (err x) no_newline parsed more =
      Outcome.failed [] text (10 ∷ rest) [] x refl (Reads.nothing at) no_newline
        (here text at parsed) (inl (rest, refl))

  rounds-Outcome :
      (fuel : ℕ) (rest : Bytes) (at : ℕ) (w : Window V T)
      → length rest ≤ fuel
      → w.consumed ≡ at
      → w.truncated_tail ≡ false
      → Outcome at w.lines rest (rounds parse base fuel rest at w)
  unfolding push_parsed
  rounds-Outcome fuel [] at w h consumed tail =
      subst (Outcome at w.lines []) (sym (rounds-empty parse base fuel at w)) (
        Outcome.read [] w (Reads.nothing at) (sym (append-nil w.lines)) (omega (arith, consumed))
          tail)
  rounds-Outcome zero (x ∷ xs) at w h consumed tail = absurd (omega arith)
  rounds-Outcome (suc fuel) (x ∷ xs) at w h consumed tail =
      elim (Option-cases (split_once newline (x ∷ xs))) [
        | inl missing ↦
            subst (Outcome at w.lines (x ∷ xs))
              (sym (rounds-none parse base fuel x xs at w missing))
              (parse_tail-Outcome (x ∷ xs) at w (parse (x ∷ xs) (base + at)) cons-ne
                (newline-none (x ∷ xs) missing) refl consumed)
        | inr (found, e) ↦
            let n = length found.0 + 1 in
            let (split, no_newline) = newline-some (x ∷ xs) e in
            let short = length-line (x ∷ xs) e in
            subst (λ t. Outcome at w.lines t (rounds parse base (suc fuel) (x ∷ xs) at w))
              (sym split)
              (subst (Outcome at w.lines (found.0 ++ 10 ∷ found.1))
                (sym (rounds-some parse base fuel x xs found at w e))
                (after-line at w found.0 found.1 fuel (parse found.0 (base + at)) no_newline refl
                  (λ p.
                    rounds-Outcome fuel found.1 (at + n) (push_parsed w p (at + n)) (omega arith)
                      refl refl)))
      ]

  -- Where a text starts, no line was read before.
  read_lines-Outcome : (text : Bytes) → Outcome 0 [] text (read_lines parse base text)
  unfolding read_lines
  read_lines-Outcome text = rounds-Outcome (length text) text 0 empty_window (omega arith) refl refl

-- Every outcome of parse_window. It gives lines, each the parse of one line of the text at its own
-- offset, in order, and the bytes they take. Either they take all bytes, and a newline ends each line, but
-- perhaps the last one; or a newline ends each, `truncated_tail` is set, and what is left is not empty, has
-- no newline and is malformed as it stands. Or it gives the error of the first line that fails, before
-- which all lines parse and a newline ends each, and which a newline ends itself if the error is a
-- malformed line.
pub parse_window-Outcome :
    {V T : Type 0} (readers : Readers V T) (text : Bytes) (base : ℕ) (session : Bytes)
    (sidechain : Bool)
    → Outcome
        (λ line offset. parse_line readers line offset session sidechain)
        base
        0
        []
        text
        (parse_window readers text base session sidechain)
unfolding parse_window
parse_window-Outcome readers text base session sidechain =
    read_lines-Outcome (λ line offset. parse_line readers line offset session sidechain) base text
