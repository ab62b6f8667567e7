-- ===== src/Terminal/Find.antt =====
-- What the searches of `without_url_userinfo` find.
use volute.Prelude.{
  ℕ, zero, suc, ◌<◌, ◌≡◌, refl, ap, subst, true, false, inl, inr, none, some, [], ◌∷◌, ◌++◌, ◌==◌,
  length, take, drop, arith, All, Bool-cases, Option-cases,
}
use volute.Bytes.{codes, starts_with}
use volute.Terminal.{Text, find_scheme, ends_authority, authority_len, last_at}

-- Where a text has `://` first.
abbrev pub IsFirst : Text → ℕ → Type 0
IsFirst text at =
    (starts_with (codes "://") (drop at text) ≡ true)
    × ((i : ℕ) → i < at → starts_with (codes "://") (drop i text) ≡ false)

-- A text ends, or goes on with a character that ends an authority.
abbrev pub IsEnded : Text → Type 0
IsEnded [] = Unit
IsEnded (c ∷ cs) = ends_authority c ≡ true

pub starts-nil : (i : ℕ) → starts_with (codes "://") (drop i []) ≡ false
unfolding starts_with
starts-nil zero = refl
starts-nil (suc i) = refl

none-suc :
    (c : ℕ) (cs : Text)
    → starts_with (codes "://") (c ∷ cs) ≡ false
    → ((i : ℕ) → starts_with (codes "://") (drop i cs) ≡ false)
    → (i : ℕ) → starts_with (codes "://") (drop i (c ∷ cs)) ≡ false
none-suc c cs here later zero = here
none-suc c cs here later (suc i) = later i

pub find_scheme-none :
    (text : Text)
    → find_scheme text ≡ none
    → (i : ℕ) → starts_with (codes "://") (drop i text) ≡ false
unfolding find_scheme
find_scheme-none [] h i = starts-nil i
find_scheme-none (c ∷ cs) h i = elim (Bool-cases (starts_with (codes "://") (c ∷ cs))) [
  | inl here ↦ absurd (ground arith)
  | inr later ↦ elim (Option-cases (find_scheme cs)) [
    | inl missing ↦ none-suc c cs later (find_scheme-none cs missing) i
    | inr (k, found) ↦ absurd (ground arith)
  ]
]

IsFirst-zero : (text : Text) → starts_with (codes "://") text ≡ true → IsFirst text 0
IsFirst-zero text h = (h, λ i lt. absurd (omega arith))

first-below :
    (c : ℕ) (cs : Text) (k : ℕ)
    → starts_with (codes "://") (c ∷ cs) ≡ false
    → ((i : ℕ) → i < k → starts_with (codes "://") (drop i cs) ≡ false)
    → (i : ℕ) → i < suc k
    → starts_with (codes "://") (drop i (c ∷ cs)) ≡ false
first-below c cs k here later zero lt = here
first-below c cs k here later (suc i) lt = later i (omega arith)

IsFirst-suc :
    (c : ℕ) (cs : Text) (k : ℕ)
    → starts_with (codes "://") (c ∷ cs) ≡ false
    → IsFirst cs k
    → IsFirst (c ∷ cs) (suc k)
IsFirst-suc c cs k later first = (first.0, first-below c cs k later first.1)

pub find_scheme-IsFirst : (text : Text) {at : ℕ} → find_scheme text ≡ some at → IsFirst text at
unfolding find_scheme
find_scheme-IsFirst [] h = cc
find_scheme-IsFirst (c ∷ cs) {at} h = elim (Bool-cases (starts_with (codes "://") (c ∷ cs))) [
  | inl here ↦ let e : 0 ≡ at = ground arith in subst (IsFirst (c ∷ cs)) e (IsFirst-zero _ here)
  | inr later ↦ elim (Option-cases (find_scheme cs)) [
    | inl missing ↦ absurd (ground arith)
    | inr (k, found) ↦
        let e : suc k ≡ at = ground arith in
        subst (IsFirst (c ∷ cs)) e (IsFirst-suc c cs k later (find_scheme-IsFirst cs found))
  ]
]

pub starts-drop :
    (text : Text) → starts_with (codes "://") text ≡ true → text ≡ codes "://" ++ drop 3 text
unfolding starts_with
starts-drop [] h = cc
starts-drop (a ∷ []) h = ground arith
starts-drop (a ∷ b ∷ []) h = ground arith
starts-drop (a ∷ b ∷ c ∷ rest) h =
    let ea : a ≡ b':' = ground arith in
    let eb : b ≡ b'/' = ground arith in let ec : c ≡ b'/' = ground arith in rw (ea, eb, ec)

pub authority_lem :
    (text : Text)
    → All (λ c. ends_authority c ≡ false) (take (authority_len text) text)
      × IsEnded (drop (authority_len text) text)
unfolding authority_len
authority_lem [] = (tt, tt)
authority_lem (c ∷ cs) = elim (Bool-cases (ends_authority c)) [
  | inl ended ↦ rw (ended, authority_len) (tt, ended)
  | inr inside ↦ rw (inside, authority_len) ((inside, (authority_lem cs).0), (authority_lem cs).1)
]

pub last_at-none : (text : Text) → last_at text ≡ none → All (λ c. (c == b'@') ≡ false) text
unfolding last_at
last_at-none [] h = tt
last_at-none (c ∷ cs) h = elim (Option-cases (last_at cs)) [
  | inl missing ↦ (ground arith, last_at-none cs missing)
  | inr (k, found) ↦ absurd (ground arith)
]

-- The last at sign is at an offset.
abbrev pub IsLast : Text → ℕ → Type 0
IsLast text at =
    (text ≡ take at text ++ (b'@' ∷ drop (suc at) text))
    × All (λ c. (c == b'@') ≡ false) (drop (suc at) text)
    × (at < length text)

pub last_at-IsLast : (text : Text) {at : ℕ} → last_at text ≡ some at → IsLast text at
unfolding last_at
last_at-IsLast [] h = cc
last_at-IsLast (c ∷ cs) {at} h = elim (Option-cases (last_at cs)) [
  | inl missing ↦
      let e : 0 ≡ at = ground arith in
      let sign : c ≡ b'@' = ground arith in
      subst (IsLast (c ∷ cs)) e (ap (λ d. d ∷ cs) sign, last_at-none cs missing, omega arith)
  | inr (k, found) ↦
      let e : suc k ≡ at = ground arith in
      let last = last_at-IsLast cs found in
      subst (IsLast (c ∷ cs)) e (ap (◌∷◌ c) last.0, last.1, omega (arith, last.2))
]
