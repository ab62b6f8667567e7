-- ===== src/Bytes/Split.antt =====
-- What splitting a text around an occurrence gives.
use volute.Prelude.{
  ℕ, ◌≡◌, refl, ap, true, false, none, some, [], ◌∷◌, ◌++◌, length, drop, ◌==◌, subst, arith,
  Bool-cases, Option-cases, inl, inr, drop-length-append,
}
use volute.Bytes.{Bytes, starts_with, rsplit_once, split_once}

pub starts_with-split :
    (pattern text : Bytes)
    → starts_with pattern text ≡ true
    → text ≡ pattern ++ drop (length pattern) text
unfolding starts_with
starts_with-split [] text h = refl
starts_with-split (p ∷ ps) [] h = cc
starts_with-split (p ∷ ps) (x ∷ xs) h =
    let e : p ≡ x = ground arith in rw (← e) (ap (◌∷◌ p) (starts_with-split ps xs (ground arith)))

-- No occurrence of the pattern begins in the text.
abbrev pub NoStart : Bytes → Bytes → Type 0
NoStart pattern [] = Unit
NoStart pattern (c ∷ cs) = (starts_with pattern (c ∷ cs) ≡ false) × NoStart pattern cs

pub rsplit_once-none :
    (pattern text : Bytes) → rsplit_once pattern text ≡ none → NoStart pattern text
unfolding rsplit_once
rsplit_once-none pattern [] h = tt
rsplit_once-none pattern (c ∷ cs) h = elim (Option-cases (rsplit_once pattern cs)) [
  | inl later ↦ (ground arith, rsplit_once-none pattern cs later)
  | inr (found, e) ↦ absurd (ground arith)
]

-- A text split around an occurrence of the pattern, after whose first character none begins.
abbrev pub IsLastSplit : Bytes → Bytes → Bytes × Bytes → Type 0
IsLastSplit pattern text (front, back) =
    (text ≡ front ++ (pattern ++ back)) × NoStart pattern (drop 1 (pattern ++ back))

IsLastSplit-here :
    (pattern : Bytes) (c : ℕ) (cs : Bytes)
    → starts_with pattern (c ∷ cs) ≡ true
    → NoStart pattern cs
    → IsLastSplit pattern (c ∷ cs) ([], drop (length pattern) (c ∷ cs))
IsLastSplit-here pattern c cs h later =
    let whole = starts_with-split pattern (c ∷ cs) h in
    (whole, subst (λ r. NoStart pattern (drop 1 r)) whole later)

pub rsplit_once-IsLastSplit :
    (pattern text : Bytes) {found : Bytes × Bytes}
    → rsplit_once pattern text ≡ some found
    → IsLastSplit pattern text found
unfolding rsplit_once
rsplit_once-IsLastSplit pattern [] h = cc
rsplit_once-IsLastSplit pattern (c ∷ cs) {found} h = elim (Option-cases (rsplit_once pattern cs)) [
  | inl missing ↦ elim (Bool-cases (starts_with pattern (c ∷ cs))) [
    | inl here ↦
        let e : ([], drop (length pattern) (c ∷ cs)) ≡ found = ground arith in
        subst (IsLastSplit pattern (c ∷ cs)) e
          (IsLastSplit-here pattern c cs here (rsplit_once-none pattern cs missing))
    | inr other ↦ absurd (ground arith)
  ]
  | inr (later, at) ↦
      let e : (c ∷ later.0, later.1) ≡ found = ground arith in
      let more = rsplit_once-IsLastSplit pattern cs at in
      subst (IsLastSplit pattern (c ∷ cs)) e (ap (◌∷◌ c) more.0, more.1)
]

pub NoStart-none : (pattern text : Bytes) → NoStart pattern text → rsplit_once pattern text ≡ none
unfolding rsplit_once
NoStart-none pattern [] h = refl
NoStart-none pattern (c ∷ cs) h = rw (NoStart-none pattern cs h.1, h.0)

pub starts_with-append : (pattern rest : Bytes) → starts_with pattern (pattern ++ rest) ≡ true
unfolding starts_with
starts_with-append [] rest = refl
starts_with-append (p ∷ ps) rest =
    let same : (p == p) ≡ true = ground arith in rw same (starts_with-append ps rest)

pub rsplit_once-append :
    (front : Bytes) (p : ℕ) (ps back : Bytes)
    → NoStart (p ∷ ps) (ps ++ back)
    → rsplit_once (p ∷ ps) (front ++ (p ∷ ps ++ back)) ≡ some (front, back)
unfolding rsplit_once
rsplit_once-append [] p ps back h = rw (
  NoStart-none (p ∷ ps) (ps ++ back) h,
  starts_with-append (p ∷ ps) back,
  drop-length-append ps back,
)
rsplit_once-append (x ∷ xs) p ps back h = rw (rsplit_once-append xs p ps back h)

pub split_once-some :
    (pattern text : Bytes) {found : Bytes × Bytes}
    → split_once pattern text ≡ some found
    → text ≡ found.0 ++ (pattern ++ found.1)
unfolding split_once
split_once-some pattern [] h = cc
split_once-some pattern (c ∷ cs) {found} h = elim (Bool-cases (starts_with pattern (c ∷ cs))) [
  | inl here ↦
      let e : ([], drop (length pattern) (c ∷ cs)) ≡ found = ground arith in
      subst (λ (r : Bytes × Bytes). c ∷ cs ≡ r.0 ++ (pattern ++ r.1)) e
        (starts_with-split pattern (c ∷ cs) here)
  | inr later ↦ elim (Option-cases (split_once pattern cs)) [
    | inl missing ↦ absurd (ground arith)
    | inr (rest, at) ↦
        let e : (c ∷ rest.0, rest.1) ≡ found = ground arith in
        subst (λ (r : Bytes × Bytes). c ∷ cs ≡ r.0 ++ (pattern ++ r.1)) e
          (ap (◌∷◌ c) (split_once-some pattern cs at))
  ]
]
