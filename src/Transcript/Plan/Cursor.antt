-- ===== src/Transcript/Plan/Cursor.antt =====
-- The cursor that `plan` gives for a window stays within the bytes of that window.
use volute.Prelude.{
  append-nil, ap, ◌∙◌, ℕ, zero, suc, ◌+◌, ◌≤◌, ◌<◌, ◌≡◌, ◌≢◌, sym, subst, Bool, List, [], ◌∷◌, ◌++◌,
  map, length, length-append, get_or, arith, Bool-cases, inl, inr, All, All-imp,
}
use volute.Bytes.{Bytes}
use volute.Stimulus.Token.{Sha256}
use volute.Transcript.{Json, Parsed, ok, err, ParsedLine, Entry}
use volute.Transcript.Line.{Readers, parse_line}
use volute.Transcript.Line.Offset.{HasOffset, parse_line-HasOffset}
use volute.Transcript.Window.{Window, parse_window}
use volute.Transcript.Window.Round.{ok-eq}
use volute.Transcript.Window.Outcome.{Reads, Outcome, parse_window-Outcome}
use volute.Transcript.Group.{Grouping, entries_of, grouping}
use volute.Transcript.Group.Keys.{key_of, is_wanted, positions_of, keys_from}
use volute.Transcript.Group.ByKey.{fresh, grouping-groups}
use volute.Transcript.Context.{PlanInput}
use volute.Transcript.Plan.{is_closed, first_entry, respond, plan}
use volute.Transcript.Plan.Closed.{closed_of, last_offset, plan-IsPlanned}
use volute.Transcript.Plan.Pending.{keys_from-some, List-cases}

module _ {V T : Type 0} where
  -- An entry that starts between two bytes.
  abbrev pub IsBetween : ℕ → ℕ → Entry V T → Type 0
  IsBetween low high e = (low ≤ e.offset) × (e.offset ≤ high)

  All-widen :
      (low low' high high' : ℕ) (es : List (Entry V T))
      → low' ≤ low
      → high ≤ high'
      → All (IsBetween low high) es
      → All (IsBetween low' high') es
  All-widen low low' high high' es h k =
      All-imp es (λ e between. (omega (arith, between.0, h), omega (arith, between.1, k)))

  module _ (parse : Bytes → ℕ → Parsed (ParsedLine V T)) (base : ℕ)
      (from : (text : Bytes) (offset : ℕ) → HasOffset offset (parse text offset)) where
    line-IsBetween :
        (text : Bytes) (at high : ℕ) (p : ParsedLine V T) (ps : List (ParsedLine V T))
        → parse text (base + at) ≡ ok p
        → base + at ≤ high
        → All (IsBetween (base + at) high) (entries_of ps)
        → All (IsBetween (base + at) high) (entries_of (p ∷ ps))
    unfolding entries_of
    line-IsBetween text at high (ParsedLine.entry e) ps h le more =
        let offset = subst (HasOffset (base + at)) h (from text (base + at)) in
        ((omega (arith, offset), omega (arith, offset, le)), more)
    line-IsBetween text at high (ParsedLine.title t s) ps h le more = more
    line-IsBetween text at high ParsedLine.skipped ps h le more = more

    -- With what follows them.
    Reads-IsBetween :
        {at : ℕ} {text : Bytes} {ps : List (ParsedLine V T)} (qs : List (ParsedLine V T)) (high : ℕ)
        → Reads parse base at text ps
        → base + (at + length text) ≤ high
        → All (IsBetween (base + (at + length text)) high) (entries_of qs)
        → All (IsBetween (base + at) high) (entries_of (ps ++ qs))
    unfolding entries_of
    Reads-IsBetween qs high (Reads.nothing at) le after =
        All-widen (base + (at + 0)) (base + at) high high (entries_of qs) (omega arith)
          (omega arith) after
    Reads-IsBetween {at} qs high (Reads.line text rest p {ps} no_newline h more) le after =
        let n = length text + 1 in
        let size = length-append text (10 ∷ rest) in
        line-IsBetween text at high p (ps ++ qs) h (omega arith) (
          All-widen (base + (at + n)) (base + at) high high (entries_of (ps ++ qs)) (omega arith)
            (omega arith)
            (Reads-IsBetween qs high more (omega arith) (
              All-widen (base + (at + length (text ++ 10 ∷ rest))) (base + (at + n + length rest))
                high high (entries_of qs) (omega arith) (omega arith) after)))

    read-IsBetween :
        (text : Bytes) (high : ℕ) (ps : List (ParsedLine V T))
        → Reads parse base 0 text ps
        → base + length text ≤ high
        → All (IsBetween base high) (entries_of ps)
    unfolding entries_of
    read-IsBetween text high ps reads le =
        All-widen (base + 0) base high high (entries_of ps) (omega arith) (omega arith) (
          subst (λ lines. All (IsBetween (base + 0) high) (entries_of lines)) (append-nil ps)
            (Reads-IsBetween [] high reads (omega arith) tt))

    window-IsBetween :
        (text : Bytes) (v : Window V T)
        → Outcome parse base 0 [] text (ok v)
        → All (IsBetween base (base + v.consumed)) (entries_of v.lines)
    unfolding entries_of
    window-IsBetween text v (Outcome.read ps x reads lines size flag) =
        rw lines (read-IsBetween text (base + v.consumed) ps reads (omega (arith, size)))
    window-IsBetween text v
          (Outcome.truncated front tail ps y x e reads some_in no_newline fails bad lines size
            flag) =
        rw lines (read-IsBetween front (base + v.consumed) ps reads (omega (arith, size)))
    window-IsBetween text v
          (Outcome.read_last front last ps q x e reads some_in no_newline h lines size flag) =
        let split = ap (λ (xs : Bytes). length xs) e ∙ length-append front last in
        let high = base + v.consumed in
        rw lines (
          All-widen (base + 0) base high high (entries_of (ps ++ q ∷ [])) (omega arith)
            (omega arith)
            (Reads-IsBetween (q ∷ []) high reads (omega (arith, size, split))
              (line-IsBetween last (0 + length front) high q [] h (omega (arith, size, split)) tt)))

    Outcome-IsBetween :
        (text : Bytes) (r : Parsed (Window V T)) (w : Window V T)
        → Outcome parse base 0 [] text r
        → r ≡ ok w
        → All (IsBetween base (base + w.consumed)) (entries_of w.lines)
    Outcome-IsBetween text (ok v) w o h =
        subst (λ (w : Window V T). All (IsBetween base (base + w.consumed)) (entries_of w.lines))
          (ok-eq h) (window-IsBetween text v o)
    Outcome-IsBetween text (err x) w o h = cc

  All-get_or :
      (P : Entry V T → Type 0) (es : List (Entry V T)) (i : ℕ) (d : Entry V T)
      → i < length es
      → All P es
      → P (get_or es i d)
  All-get_or P [] i d h all = absurd (omega arith)
  All-get_or P (e ∷ es) zero d h all = all.0
  All-get_or P (e ∷ es) (suc i) d h all = All-get_or P es i d (omega arith) all.1

  positions_of-lt :
      (k : Bytes) (at n : ℕ) (es : List (Entry V T))
      → at + length es ≤ n
      → All (λ p. p < n) (positions_of k at es)
  positions_of-lt k at n [] h = tt
  positions_of-lt k at n (e ∷ es) h = elim (Bool-cases (is_wanted k (key_of e))) [
    | inl hit ↦ rw hit (omega arith, positions_of-lt k (at + 1) n es (omega arith))
    | inr other ↦ rw other (positions_of-lt k (at + 1) n es (omega arith))
  ]

  module _ (entries : List (Entry V T)) (low high : ℕ)
      (all : All (IsBetween low high) entries) where
    first_entry-IsBetween :
        (k : Bytes)
        → positions_of k 0 entries ≢ []
        → IsBetween low high (first_entry entries (fresh 0 entries k))
    unfolding first_entry
    first_entry-IsBetween k some_in = elim (List-cases (positions_of k 0 entries)) [
      | inl nothing ↦ absurd (some_in nothing)
      | inr (p, ps, e) ↦
          let inside =
            subst (All (λ p. p < length entries)) e
              (positions_of-lt k 0 (length entries) entries (omega arith)) in
          rw e (All-get_or (IsBetween low high) entries p _ inside.0 all)
    ]

    module _ (json : Json V) (sha : Sha256) (now : T) (input : PlanInput) (found : Grouping) where
      last_offset-between :
          (ks : List Bytes) (start : ℕ)
          → All (λ k. positions_of k 0 entries ≢ []) ks
          → low ≤ start
          → start ≤ high
          → let planned =
              map
                (respond json sha now input entries found)
                (closed_of input.final_mode entries found (map (fresh 0 entries) ks)) in
            (low ≤ last_offset start planned) × (last_offset start planned ≤ high)
      unfolding respond
      last_offset-between [] start some_in h k = (h, k)
      last_offset-between (x ∷ xs) start some_in h k =
          elim (Bool-cases (is_closed input.final_mode entries found (fresh 0 entries x))) [
            | inl closed ↦
                let (lo, hi) = first_entry-IsBetween x some_in.0 in
                rw closed (
                  last_offset-between xs (first_entry entries (fresh 0 entries x)).offset some_in.1
                    lo hi)
            | inr pending ↦ rw pending (last_offset-between xs start some_in.1 h k)
          ]

  -- Reading a window and planning its lines from where it starts puts the cursor in the window: never before
  -- its start, and never past the bytes that were read.
  pub plan-cursor-between :
      (readers : Readers V T) (sha : Sha256) (now : T) (input : PlanInput) (text : Bytes) (base : ℕ)
      (session : Bytes) (sidechain : Bool) (w : Window V T)
      → parse_window readers text base session sidechain ≡ ok w
      → let p = plan readers.json sha now input w.lines base in
        (base ≤ p.cursor_offset) × (p.cursor_offset ≤ base + w.consumed)
  plan-cursor-between readers sha now input text base session sidechain w h =
      let entries = entries_of w.lines in
      let found = grouping entries in
      let all =
        Outcome-IsBetween (λ line offset. parse_line readers line offset session sidechain) base
          (λ line offset. parse_line-HasOffset readers line offset session sidechain) text
          (parse_window readers text base session sidechain) w
          (parse_window-Outcome readers text base session sidechain) h in
      let (is, (cursor, count)) = plan-IsPlanned readers.json sha now input w.lines base in
      let between =
        subst
          (λ gs.
            let planned =
              map (respond readers.json sha now input entries found)
                (closed_of input.final_mode entries found gs) in
            (base ≤ last_offset base planned) × (last_offset base planned ≤ base + w.consumed))
          (sym (grouping-groups entries))
          (last_offset-between entries base (base + w.consumed) all readers.json sha now input found
            (keys_from [] entries) base (keys_from-some [] 0 entries) (omega arith)
            (omega arith)) in
      rw cursor between
