-- ===== src/Transcript/Window/Newline.antt =====
-- Texts that end with a newline, and where parse_window finds the first one.
use volute.Prelude.{
  ℕ, ◌≡◌, ◌≢◌, refl, ap, ◌∙◌, sym, subst, false, none, some, [], ◌∷◌, ◌++◌, ◌==◌, arith, All,
  Bool-cases, Option-cases, some-eq, inl, inr,
}
use volute.Bytes.{Bytes, split_once, starts_with}

abbrev pub newline : Bytes
newline = 10 ∷ []

abbrev pub NoNewline : Bytes → Type 0
NoNewline = All (λ b. b ≢ 10)

-- Nothing, or a text whose last byte is a newline.
abbrev pub EndsLine : Bytes → Type 0
EndsLine [] = Unit
EndsLine (x ∷ []) = x ≡ 10
EndsLine (x ∷ y ∷ ys) = EndsLine (y ∷ ys)

pub EndsLine-newline : (front : Bytes) → EndsLine (front ++ newline)
EndsLine-newline [] = refl
EndsLine-newline (x ∷ []) = refl
EndsLine-newline (x ∷ y ∷ ys) = EndsLine-newline (y ∷ ys)

-- What follows the first newline ends with one too.
pub EndsLine-after : (front back : Bytes) → EndsLine (front ++ 10 ∷ back) → EndsLine back
EndsLine-after [] [] h = tt
EndsLine-after [] (y ∷ ys) h = h
EndsLine-after (x ∷ []) back h = EndsLine-after [] back h
EndsLine-after (x ∷ y ∷ ys) back h = EndsLine-after (y ∷ ys) back h

pub EndsLine-append : (front back : Bytes) → EndsLine back → EndsLine (front ++ 10 ∷ back)
EndsLine-append [] [] h = refl
EndsLine-append [] (y ∷ ys) h = h
EndsLine-append (x ∷ []) back h = EndsLine-append [] back h
EndsLine-append (x ∷ y ∷ ys) back h = EndsLine-append (y ∷ ys) back h

pub EndsLine-holds {ℓ} :
    {A : Type ℓ} (x : ℕ) (xs : Bytes) → EndsLine (x ∷ xs) → NoNewline (x ∷ xs) → A
EndsLine-holds x [] h none_in = absurd (none_in.0 h)
EndsLine-holds x (y ∷ ys) h none_in = EndsLine-holds y ys h none_in.1

starts_newline : (x : ℕ) (xs : Bytes) → starts_with newline (x ∷ xs) ≡ (10 == x)
unfolding starts_with
starts_newline x xs = elim (Bool-cases (10 == x)) [ inl e ↦ rw e refl | inr e ↦ rw e refl ]

pub newline-none : (text : Bytes) → split_once newline text ≡ none → NoNewline text
unfolding split_once
newline-none [] h = tt
newline-none (x ∷ xs) h = elim (Bool-cases (10 == x)) [
  | inl here ↦ absurd (ground (arith, starts_newline x xs))
  | inr other ↦ elim (Option-cases (split_once newline xs)) [
    | inl missing ↦ (ground arith, newline-none xs missing)
    | inr (found, e) ↦ absurd (ground (arith, starts_newline x xs))
  ]
]

-- The first newline, and what stands before it.
abbrev pub IsFirstLine : Bytes → Bytes × Bytes → Type 0
IsFirstLine text (line, back) = (text ≡ line ++ 10 ∷ back) × NoNewline line

pub newline-some :
    (text : Bytes) {found : Bytes × Bytes}
    → split_once newline text ≡ some found
    → IsFirstLine text found
unfolding split_once
newline-some [] h = cc
newline-some (x ∷ xs) {found} h = elim (Bool-cases (10 == x)) [
  | inl here ↦
      let start = starts_newline x xs ∙ here in
      let e : x ≡ 10 = ground arith in
      let f : ([], xs) ≡ found = some-eq (sym (rw start refl) ∙ h) in
      subst (IsFirstLine (x ∷ xs)) f (rw e refl, tt)
  | inr other ↦
      let off = starts_newline x xs ∙ other in
      elim (Option-cases (split_once newline xs)) [
        | inl missing ↦ absurd (ground arith)
        | inr (later, e) ↦
            let f : (x ∷ later.0, later.1) ≡ found = ground arith in
            let more = newline-some xs e in
            subst (IsFirstLine (x ∷ xs)) f (ap (◌∷◌ x) more.0, (ground arith, more.1))
      ]
]

pub newline-append :
    (line back : Bytes)
    → NoNewline line
    → split_once newline (line ++ 10 ∷ back) ≡ some (line, back)
unfolding split_once
newline-append [] back h = refl
newline-append (x ∷ xs) back h =
    let off : (10 == x) ≡ false = ground arith in
    rw (starts_newline x (xs ++ 10 ∷ back), off, newline-append xs back h.1) refl
