-- ===== src/Transcript/Group/Keys.antt =====
-- The keys of the assistant entries, each once, in the order in which they appear, and the positions of
-- the entries of a key: what the responses should be.
use volute.Prelude.{
  ℕ, ◌+◌, ◌≡◌, refl, ap, ◌∙◌, sym, Bool, true, false, ◌||◌, Option, none, some, List, [], ◌∷◌, ◌++◌,
  if◌then◌else◌, Bool-cases, inl, inr, All, All-imp,
}
use volute.Bytes.{Bytes, bytes_eq}
use volute.Bytes.Laws.{bytes_eq_refl, bytes_eq→≡}
use volute.Transcript.{Entry, Payload}
use volute.Transcript.Group.{response_key}

abbrev pub has : List Bytes → Bytes → Bool
has [] k = false
has (t ∷ ts) k = bytes_eq t k || has ts k

abbrev pub Unique : List Bytes → Type 0
Unique [] = Unit
Unique (k ∷ ks) = (has ks k ≡ false) × Unique ks

module _ {V T : Type 0} where
  -- The key of an assistant entry.
  unfoldable pub key_of : Entry V T → Option Bytes
  key_of e = elim e.payload [
    | Payload.assistant message ↦ some (response_key e message)
    | Payload.user message ↦ none
    | Payload.other kind ↦ none
  ]

abbrev pub is_wanted : Bytes → Option Bytes → Bool
is_wanted wanted none = false
is_wanted wanted (some k) = bytes_eq wanted k

abbrev pub next_keys : List Bytes → Option Bytes → (List Bytes → List Bytes) → List Bytes
next_keys seen none rest = rest seen
next_keys seen (some k) rest = if has seen k then rest seen else k ∷ rest (seen ++ k ∷ [])

module _ {V T : Type 0} where
  abbrev pub positions_of : Bytes → ℕ → List (Entry V T) → List ℕ
  positions_of wanted at [] = []
  positions_of wanted at (e ∷ es) =
      let rest = positions_of wanted (at + 1) es in
      if is_wanted wanted (key_of e) then at ∷ rest else rest

  -- The keys that are not among those seen.
  abbrev pub keys_from : List Bytes → List (Entry V T) → List Bytes
  keys_from seen [] = []
  keys_from seen (e ∷ es) = next_keys seen (key_of e) (λ seen. keys_from seen es)

pub has-append : (xs ys : List Bytes) (k : Bytes) → has (xs ++ ys) k ≡ (has xs k || has ys k)
has-append [] ys k = refl
has-append (x ∷ xs) ys k = elim (Bool-cases (bytes_eq x k)) [
  | inl here ↦ rw here refl
  | inr other ↦ rw (other, has-append xs ys k) refl
]

-- What is not there is no key that is there.
pub has-apart :
    (xs : List Bytes) (k k' : Bytes) → has xs k ≡ true → has xs k' ≡ false → bytes_eq k' k ≡ false
has-apart xs k k' h h' = elim (Bool-cases (bytes_eq k' k)) [
  | inl same ↦ let e = ap (has xs) (bytes_eq→≡ k' k same) in absurd cc
  | inr apart ↦ apart
]

pub bytes_eq-apart : (k k' : Bytes) → bytes_eq k k' ≡ false → bytes_eq k' k ≡ false
bytes_eq-apart k k' h = elim (Bool-cases (bytes_eq k' k)) [
  | inl same ↦
      let e = ap (bytes_eq k) (bytes_eq→≡ k' k same) in let r = bytes_eq_refl k in absurd cc
  | inr apart ↦ apart
]

has-append-new :
    (seen : List Bytes) (k k' : Bytes) → has (seen ++ k ∷ []) k' ≡ false → has seen k' ≡ false
has-append-new seen k k' h = elim (Bool-cases (has seen k')) [
  | inl there ↦ let e = rw there at (sym (has-append seen (k ∷ []) k') ∙ h) in absurd cc
  | inr apart ↦ apart
]

pub has-last :
    (seen : List Bytes) (k k' : Bytes) → has (seen ++ k ∷ []) k' ≡ false → bytes_eq k' k ≡ false
has-last seen k k' h = elim (Bool-cases (bytes_eq k k')) [
  | inl same ↦
      let e = sym (has-append seen (k ∷ []) k') ∙ h in
      elim (Bool-cases (has seen k')) [
        | inl there ↦ let e' = rw there at e in absurd cc
        | inr apart ↦ let e' = rw (apart, same) at e in absurd cc
      ]
  | inr apart ↦ bytes_eq-apart k k' apart
]

pub has-cons :
    (k' : Bytes) (ks : List Bytes) (k : Bytes)
    → has (k' ∷ ks) k ≡ false
    → (bytes_eq k' k ≡ false) × (has ks k ≡ false)
has-cons k' ks k h = elim (Bool-cases (bytes_eq k' k)) [
  | inl same ↦ let e = rw same at h in absurd cc
  | inr apart ↦ (apart, rw apart at h)
]

pub Unique-append :
    (ks : List Bytes) (k : Bytes) → Unique ks → has ks k ≡ false → Unique (ks ++ k ∷ [])
Unique-append [] k u h = (refl, tt)
Unique-append (k' ∷ ks) k u h =
    let (apart, more) = has-cons k' ks k h in
    (
      rw (has-append ks (k ∷ []) k', u.0, bytes_eq-apart k' k apart) refl,
      Unique-append ks k u.1 more,
    )

-- None of the keys is in a list, and they differ.
has-All : (k : Bytes) (ks : List Bytes) → All (λ k'. bytes_eq k' k ≡ false) ks → has ks k ≡ false
has-All k [] h = refl
has-All k (k' ∷ ks) h = rw (h.0) (has-All k ks h.1)

All-next :
    (seen : List Bytes) (k : Option Bytes) (rest : List Bytes → List Bytes)
    → ((seen : List Bytes) → All (λ k'. has seen k' ≡ false) (rest seen))
    → All (λ k'. has seen k' ≡ false) (next_keys seen k rest)
All-next seen none rest h = h seen
All-next seen (some k) rest h = elim (Bool-cases (has seen k)) [
  | inl there ↦ rw there (h seen)
  | inr new ↦
      rw new (new, All-imp (rest (seen ++ k ∷ [])) (has-append-new seen k) (h (seen ++ k ∷ [])))
]

Unique-next :
    (seen : List Bytes) (k : Option Bytes) (rest : List Bytes → List Bytes)
    → ((seen : List Bytes) → All (λ k'. has seen k' ≡ false) (rest seen))
    → ((seen : List Bytes) → Unique (rest seen))
    → Unique (next_keys seen k rest)
Unique-next seen none rest h u = u seen
Unique-next seen (some k) rest h u = elim (Bool-cases (has seen k)) [
  | inl there ↦ rw there (u seen)
  | inr new ↦
      let more = rest (seen ++ k ∷ []) in
      rw new
        (has-All k more (All-imp more (has-last seen k) (h (seen ++ k ∷ []))), u (seen ++ k ∷ []))
]

pub All-next-any {ℓ} :
    {P : Bytes → Type ℓ} (seen : List Bytes) (o : Option Bytes) (rest : List Bytes → List Bytes)
    → ((seen : List Bytes) → All P (rest seen))
    → ((k : Bytes) → o ≡ some k → P k)
    → All P (next_keys seen o rest)
All-next-any seen none rest h p = h seen
All-next-any seen (some k) rest h p = elim (Bool-cases (has seen k)) [
  | inl there ↦ rw there (h seen)
  | inr new ↦ rw new (p k refl, h (seen ++ k ∷ []))
]

module _ {V T : Type 0} where
  -- No key that was seen comes again, and each comes once.
  pub keys_from-All :
      (seen : List Bytes) (es : List (Entry V T))
      → All (λ k. has seen k ≡ false) (keys_from seen es)
  keys_from-All seen [] = tt
  keys_from-All seen (e ∷ es) =
      All-next seen (key_of e) (λ seen. keys_from seen es) (λ seen. keys_from-All seen es)

  pub keys_from-Unique : (seen : List Bytes) (es : List (Entry V T)) → Unique (keys_from seen es)
  keys_from-Unique seen [] = tt
  keys_from-Unique seen (e ∷ es) =
      Unique-next seen (key_of e) (λ seen. keys_from seen es) (λ seen. keys_from-All seen es)
        (λ seen. keys_from-Unique seen es)
