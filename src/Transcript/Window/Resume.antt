-- ===== src/Transcript/Window/Resume.antt =====
-- parse_window over two reads: the first ends with a newline, the second starts where it ended.
use volute.Prelude.{
  ℕ, zero, suc, ◌+◌, ◌≤◌, ◌≡◌, refl, ap, ◌∙◌, sym, subst, Bool, false, some, [], ◌∷◌, ◌++◌,
  append_assoc, append-nil, length, length-append, arith, Option-cases, inl, inr,
}
use volute.Bytes.{Bytes, split_once}
use volute.Transcript.{TranscriptError, Parsed, ok, err, ◌>>=◌, ParsedLine}
use volute.Transcript.Line.{Readers, parse_line}
use volute.Transcript.Window.{
  Window, empty_window, push_parsed, parse_tail, rounds, read_lines, parse_window,
}
use volute.Transcript.Window.Round.{
  rounds-some, rounds-none, rounds-fuel, rounds-empty, bind_cong, bind_cong_at, bind-eq-ok, ok-eq,
  bind_assoc, length-line,
}
use volute.Transcript.Window.Newline.{
  newline, EndsLine, EndsLine-newline, EndsLine-after, EndsLine-holds, newline-none, newline-some,
  newline-append,
}

module _ {V T : Type 0} where
  -- The window of two reads, of which the second starts `at` bytes after the first.
  abbrev pub joined : Window V T → ℕ → Window V T → Window V T
  joined a at b = record {
    lines = a.lines ++ b.lines;
    consumed = at + b.consumed;
    truncated_tail = b.truncated_tail;
  }

  -- The window of the second read, put behind the first.
  abbrev pub after : Window V T → ℕ → Parsed (Window V T) → Parsed (Window V T)
  after a at r = r >>= (λ b. ok (joined a at b))

  after-parse_tail :
      (a b : Window V T) (r : Parsed (ParsedLine V T)) (at n m : ℕ)
      → m ≡ at + n
      → parse_tail (joined a at b) r m ≡ after a at (parse_tail b r n)
  unfolding parse_tail push_parsed
  after-parse_tail a b (ok line) at n m e = rw (e, append_assoc) refl
  after-parse_tail a b (err (TranscriptError.malformed o r)) at n m e = refl
  after-parse_tail a b (err (TranscriptError.unsupported_version o v s)) at n m e = refl
  after-parse_tail a b (err (TranscriptError.session_mismatch o x f)) at n m e = refl

  joined-push :
      (a b : Window V T) (line : ParsedLine V T) (at n m : ℕ)
      → m ≡ at + n
      → push_parsed (joined a at b) line m ≡ joined a at (push_parsed b line n)
  unfolding push_parsed
  joined-push a b line at n m e = rw (e, append_assoc) refl

  -- A window that holds all up to a byte.
  abbrev pub IsAt : Window V T → ℕ → Type 0
  IsAt w cursor = (w.consumed ≡ cursor) × (w.truncated_tail ≡ false)

  joined-empty : (w : Window V T) (n : ℕ) → IsAt w n → joined w n empty_window ≡ w
  joined-empty w n (consumed, tail) =
      let e : n + 0 ≡ w.consumed = omega (arith, consumed) in
      λ i. record { lines = append-nil w.lines i; consumed = e i; truncated_tail = sym tail i }

  module _ (parse : Bytes → ℕ → Parsed (ParsedLine V T)) (base : ℕ) where
    -- The rounds after a line of that read.
    shift-line :
        (fuel : ℕ) (rest : Bytes) (a b : Window V T) (at n m : ℕ) (r : Parsed (ParsedLine V T))
        → ((line : ParsedLine V T)
            → rounds parse base fuel rest (at + n) (joined a at (push_parsed b line n))
              ≡ after a at (rounds parse (base + at) fuel rest n (push_parsed b line n)))
        → m ≡ at + n
        → (r >>= (λ line. rounds parse base fuel rest m (push_parsed (joined a at b) line m)))
          ≡ after a at (r >>= (λ line. rounds parse (base + at) fuel rest n (push_parsed b line n)))
    shift-line fuel rest a b at n m (err e) more h = refl
    shift-line fuel rest a b at n m (ok line) more h =
        rw (joined-push a b line at n m h, h) (more line)

    -- A read that starts later is the same, put behind what came before.
    rounds-shift :
        (fuel : ℕ) (rest : Bytes) (a b : Window V T) (at cursor : ℕ)
        → rounds parse base fuel rest (at + cursor) (joined a at b)
          ≡ after a at (rounds parse (base + at) fuel rest cursor b)
    unfolding rounds
    rounds-shift zero rest a b at cursor = refl
    rounds-shift (suc fuel) [] a b at cursor = refl
    rounds-shift (suc fuel) (x ∷ xs) a b at cursor =
        let place : base + (at + cursor) ≡ base + at + cursor = omega arith in
        elim (Option-cases (split_once newline (x ∷ xs))) [
          | inl missing ↦
              rounds-none parse base fuel x xs (at + cursor) (joined a at b) missing
              ∙ rw (rounds-none parse (base + at) fuel x xs cursor b missing, place)
                  (after-parse_tail a b (parse (x ∷ xs) (base + at + cursor)) at
                    (cursor + length (x ∷ xs)) (at + cursor + length (x ∷ xs)) (omega arith))
          | inr (found, e) ↦
              rounds-some parse base fuel x xs found (at + cursor) (joined a at b) e
              ∙ rw (rounds-some parse (base + at) fuel x xs found cursor b e, place)
                  (shift-line fuel found.1 a b at (cursor + (length found.0 + 1))
                    (at + cursor + (length found.0 + 1)) (parse found.0 (base + at + cursor))
                    (λ line.
                      rounds-shift fuel found.1 a
                        (push_parsed b line (cursor + (length found.0 + 1))) at
                        (cursor + (length found.0 + 1)))
                    (omega arith))
        ]

    -- A text that ends with a newline, and then another.
    rounds-append :
        (fuel first second : ℕ) (rest back : Bytes) (cursor : ℕ) (w : Window V T)
        → EndsLine rest
        → length (rest ++ back) ≤ fuel
        → length rest ≤ first
        → length back ≤ second
        → rounds parse base fuel (rest ++ back) cursor w ≡ (
            rounds parse base first rest cursor w
            >>= (λ (v : Window V T). rounds parse base second back (cursor + length rest) v))
    rounds-append fuel first second [] back cursor w ends h k l =
        let e : cursor + 0 ≡ cursor = omega arith in
        rw (rounds-empty parse base first cursor w, e)
          (rounds-fuel parse base fuel second back cursor w h l)
    rounds-append zero first second (x ∷ xs) back cursor w ends h k l = absurd (omega arith)
    rounds-append (suc fuel) zero second (x ∷ xs) back cursor w ends h k l = absurd (omega arith)
    rounds-append (suc fuel) (suc first) second (x ∷ xs) back cursor w ends h k l =
        elim (Option-cases (split_once newline (x ∷ xs))) [
          | inl missing ↦ EndsLine-holds x xs ends (newline-none (x ∷ xs) missing)
          | inr (found, e) ↦
              let n = length found.0 + 1 in
              let short = length-line (x ∷ xs) e in
              let at = newline-some (x ∷ xs) e in
              let whole : split_once newline (x ∷ (xs ++ back)) ≡ some (found.0, found.1 ++ back) =
                ap (λ t. split_once newline (t ++ back)) at.0
                ∙ rw append_assoc (newline-append found.0 (found.1 ++ back) at.1) in
              let ends_after : EndsLine found.1 =
                EndsLine-after found.0 found.1 (subst EndsLine at.0 ends) in
              let place : cursor + n + length found.1 ≡ cursor + length (x ∷ xs) = omega arith in
              rounds-some parse base fuel x (xs ++ back) (found.0, found.1 ++ back) cursor w whole
              ∙ rw (rounds-some parse base first x xs found cursor w e, bind_assoc, ← place)
                  (bind_cong (parse found.0 (base + cursor)) (λ line.
                    rounds-append fuel first second found.1 back (cursor + n)
                      (push_parsed w line (cursor + n)) ends_after
                      (omega (arith, length-append found.1 back, length-append (x ∷ xs) back))
                      (omega arith) l))
        ]

    rounds-IsAt :
        (fuel : ℕ) (rest : Bytes) (cursor : ℕ) (w : Window V T) {v : Window V T}
        → EndsLine rest
        → length rest ≤ fuel
        → IsAt w cursor
        → rounds parse base fuel rest cursor w ≡ ok v
        → IsAt v (cursor + length rest)
    unfolding push_parsed
    rounds-IsAt fuel [] cursor w ends h is_at e =
        subst (λ v. IsAt v (cursor + 0)) (ok-eq (sym (rounds-empty parse base fuel cursor w) ∙ e))
          (omega (arith, is_at.0), is_at.1)
    rounds-IsAt zero (x ∷ xs) cursor w ends h is_at e = absurd (omega arith)
    rounds-IsAt (suc fuel) (x ∷ xs) cursor w {v} ends h is_at e =
        elim (Option-cases (split_once newline (x ∷ xs))) [
          | inl missing ↦ EndsLine-holds x xs ends (newline-none (x ∷ xs) missing)
          | inr (found, hit) ↦
              let n = length found.0 + 1 in
              let short = length-line (x ∷ xs) hit in
              let place : cursor + n + length found.1 ≡ cursor + length (x ∷ xs) = omega arith in
              let (line, parsed, more) =
                bind-eq-ok (parse found.0 (base + cursor))
                  (λ line.
                    rounds parse base fuel found.1 (cursor + n) (push_parsed w line (cursor + n)))
                  (sym (rounds-some parse base fuel x xs found cursor w hit) ∙ e) in
              subst (IsAt v) place (
                rounds-IsAt fuel found.1 (cursor + n) (push_parsed w line (cursor + n))
                  (EndsLine-after found.0 found.1
                    (subst EndsLine (newline-some (x ∷ xs) hit).0 ends))
                  (omega arith) (refl, refl) more)
        ]

    -- Reading on from a newline is reading on.
    read_lines-append :
        (front back : Bytes)
        → read_lines parse base (front ++ newline ++ back) ≡ (
            read_lines parse base (front ++ newline) >>= (λ (v : Window V T).
              after v
                (length (front ++ newline))
                (read_lines parse (base + length (front ++ newline)) back)))
    unfolding read_lines
    read_lines-append front back =
        let text = front ++ newline in
        let ends = EndsLine-newline front in
        rounds-append (length (text ++ back)) (length text) (length back) text back 0 empty_window
          ends (omega arith) (omega arith) (omega arith)
        ∙ bind_cong_at (rounds parse base (length text) text 0 empty_window) (λ (v : Window V T) e.
          let (consumed, tail) =
            rounds-IsAt (length text) text 0 empty_window ends (omega arith) (refl, refl) e in
          let whole = joined-empty v (length text) (consumed ∙ omega arith, tail) in
          let place : 0 + length text ≡ length text + 0 = omega arith in
          ap (rounds parse base (length back) back (0 + length text)) (sym whole)
          ∙ rw place (rounds-shift (length back) back v empty_window (length text) 0))

  -- A transcript that is read in two steps, the first of which ends with a newline, gives what one read
  -- gives: the lines of both, the bytes of both and the second's tail, or the error that comes first.
  pub parse_window-append :
      (readers : Readers V T) (front back : Bytes) (base : ℕ) (session : Bytes) (sidechain : Bool)
      → let text = front ++ newline in
        parse_window readers (text ++ back) base session sidechain ≡ (
          parse_window readers text base session sidechain >>= (λ (v : Window V T).
            after v
              (length text)
              (parse_window readers back (base + length text) session sidechain)))
  unfolding parse_window
  parse_window-append readers front back base session sidechain =
      read_lines-append (λ line offset. parse_line readers line offset session sidechain) base front
        back
