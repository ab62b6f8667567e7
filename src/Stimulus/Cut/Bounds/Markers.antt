-- ===== src/Stimulus/Cut/Bounds/Markers.antt =====
-- The redaction markers of a text, which no cut may divide, and the one around an index.
use volute.Prelude.{
  ℕ, ◌≤◌, ◌<◌, ◌≡◌, ◌≢◌, refl, true, none, some, List, [], ◌∷◌, length, inl, inr, Bool-cases, ◌&&◌,
  ltb, arith, All, subst,
}
use volute.Bytes.{Bytes, is_char_boundary}
use volute.Stimulus.Note.{Range}
use volute.Stimulus.Cut.{Spans, marker_around}

-- The spans come in order, from `low` on, and no two overlap.
abbrev pub Disjoint : ℕ → List Range → Type 0
Disjoint low [] = Unit
Disjoint low (span ∷ spans) = (low ≤ span.start) × (span.start < span.end) × Disjoint span.end spans

-- What a regular expression engine's search over a text gives for a pattern that matches no empty
-- text: ordered and disjoint matches, which begin and end at character boundaries of the text.
pub record MarkerFinder : Type 0 where
  pub spans : Spans
  pub disjoint : (text : Bytes) → Disjoint 0 (spans text)
  pub in_text :
      (text : Bytes)
      → All
          (λ span.
            (is_char_boundary text span.start ≡ true)
            × (is_char_boundary text span.end ≡ true)
            × (span.end ≤ length text))
          (spans text)

-- An index at which a text may be cut.
abbrev pub IsCut : Bytes → List Range → ℕ → Type 0
IsCut text markers at = (is_char_boundary text at ≡ true) × (marker_around at markers ≡ none)

pub around_none :
    (spans : List Range) (low at : ℕ)
    → Disjoint low spans
    → at ≤ low
    → marker_around at spans ≡ none
unfolding marker_around
around_none [] low at d h = refl
around_none (span ∷ spans) low at d h =
    ground (arith, around_none spans span.end at d.2 (omega arith))

-- What is known of the marker around an index.
pub record IsAround (spans : List Range) (low at : ℕ) (span : Range) : Type 0 where
  pub from : low ≤ span.start
  pub before : span.start < at
  pub after : at < span.end
  pub at_start : marker_around span.start spans ≡ none
  pub at_end : marker_around span.end spans ≡ none
  pub inside : (m : ℕ) → span.start < m → m < span.end → marker_around m spans ≢ none

pub around_lem :
    (spans : List Range) (low at : ℕ) {span : Range}
    → Disjoint low spans
    → marker_around at spans ≡ some span
    → IsAround spans low at span
unfolding marker_around
around_lem [] low at d h = cc
around_lem (first ∷ spans) low at {span} d h =
    elim (Bool-cases (ltb first.start at && ltb at first.end)) [
      | inl here ↦
          let same : first ≡ span = ground arith in
          subst (λ found. IsAround (first ∷ spans) low at found) same
            (record {
              from = d.0;
              before = ground arith;
              after = ground arith;
              at_start = ground (arith, around_none spans first.end first.start d.2 (omega arith));
              at_end = ground (arith, around_none spans first.end first.end d.2 (omega arith));
              inside = λ m a b. ground arith;
            })
      | inr past ↦
          let further : marker_around at spans ≡ some span = ground arith in
          let rest : IsAround spans first.end at span = around_lem spans first.end at d.2 further in
          record {
            from = omega (arith, rest.from);
            before = rest.before;
            after = rest.after;
            at_start = ground (arith, rest.from, rest.at_start);
            at_end = ground (arith, rest.from, rest.before, rest.after, rest.at_end);
            inside = λ m a b. ground (arith, rest.from, rest.inside m a b);
          }
    ]

-- The law of the finder at the marker around an index.
pub around_in_text :
    (text : Bytes) (spans : List Range) (at : ℕ) {span : Range}
    → All
        (λ s.
          (is_char_boundary text s.start ≡ true)
          × (is_char_boundary text s.end ≡ true)
          × (s.end ≤ length text))
        spans
    → marker_around at spans ≡ some span
    → (is_char_boundary text span.start ≡ true)
      × (is_char_boundary text span.end ≡ true)
      × (span.end ≤ length text)
unfolding marker_around
around_in_text text [] at laws h = cc
around_in_text text (first ∷ spans) at {span} laws h =
    elim (Bool-cases (ltb first.start at && ltb at first.end)) [
      | inl here ↦
          let same : first ≡ span = ground arith in
          subst
            (λ (s : Range).
              (is_char_boundary text s.start ≡ true)
              × (is_char_boundary text s.end ≡ true)
              × (s.end ≤ length text))
            same laws.0
      | inr past ↦ around_in_text text spans at {span = span} laws.1 (ground arith)
    ]
