-- ===== src/Transcript/Maps.antt =====
-- A HashMap whose keys are texts, as the list of its entries: `entry(key).or_insert(value)` and `get`.
use volute.Prelude.{
  Bool, true, false, Option, none, some, List, [], ◌∷◌, ◌++◌, if◌then◌else◌, ◌≡◌, refl, ◌∙◌,
  Bool-cases, Option-cases, inl, inr, some-eq, ◌⊎◌, sym,
}
use volute.Bytes.{Bytes, bytes_eq}

abbrev pub Entries {ℓ} : Type ℓ → Type ℓ
Entries A = List (Bytes × A)

module _ {ℓ} {A : Type ℓ} where
  unfoldable pub lookup : Entries A → Bytes → Option A
  unfolding bytes_eq
  lookup [] key = none
  lookup ((k, v) ∷ entries) key =
      let later = lookup entries key in if bytes_eq k key then some v else later

  -- `entry(key).or_insert(value)`: the first value of a key stays.
  unfoldable pub or_insert : Entries A → Bytes → A → Entries A
  unfolding lookup
  or_insert entries key value = elim (lookup entries key) [
    | some found ↦ entries
    | none ↦ entries ++ (key, value) ∷ []
  ]

-- `contains_key(key)`
abbrev pub is_some {ℓ} : {A : Type ℓ} → Option A → Bool
is_some none = false
is_some (some a) = true

module _ {ℓ} {A : Type ℓ} where
  pub lookup-append :
      (entries : Entries A) (key : Bytes) (value : A) (k : Bytes)
      → lookup (entries ++ (key, value) ∷ []) k ≡ elim (lookup entries k) [
        | some found ↦ some found
        | none ↦ if bytes_eq key k then some value else none
      ]
  unfolding lookup
  lookup-append [] key value k = refl
  lookup-append ((k0, v0) ∷ entries) key value k = elim (Bool-cases (bytes_eq k0 k)) [
    | inl here ↦ rw here refl
    | inr later ↦ rw later (lookup-append entries key value k)
  ]

  -- What was there stays.
  pub lookup-or_insert_kept :
      (entries : Entries A) (key : Bytes) (value : A) (k : Bytes) {found : A}
      → lookup entries k ≡ some found
      → lookup (or_insert entries key value) k ≡ some found
  unfolding or_insert
  lookup-or_insert_kept entries key value k h = elim (Option-cases (lookup entries key)) [
    | inl missing ↦ rw (missing, or_insert) (lookup-append entries key value k ∙ rw h refl)
    | inr (there, e) ↦ rw (e, or_insert) h
  ]

  -- A key's value was there, or is the new one.
  pub lookup-or_insert_inv :
      (entries : Entries A) (key : Bytes) (value : A) (k : Bytes) {found : A}
      → lookup (or_insert entries key value) k ≡ some found
      → (lookup entries k ≡ some found) ⊎ (found ≡ value)
  unfolding or_insert
  lookup-or_insert_inv entries key value k h = elim (Option-cases (lookup entries key)) [
    | inl missing ↦
        let now = sym (rw (missing, or_insert) at h) ∙ lookup-append entries key value k in
        elim (Option-cases (lookup entries k)) [
          | inl new ↦ elim (Bool-cases (bytes_eq key k)) [
            | inl same ↦ let e = rw (new, same) at now in inr (some-eq e)
            | inr other ↦ let e = rw (new, other) at now in absurd cc
          ]
          | inr (there, e) ↦ let e' = rw e at now in inl (e ∙ sym e')
        ]
    | inr (there, e) ↦ inl (rw (e, or_insert) at h)
  ]

  pub or_insert-new :
      (entries : Entries A) (key : Bytes) (value : A)
      → lookup entries key ≡ none
      → or_insert entries key value ≡ entries ++ (key, value) ∷ []
  unfolding or_insert
  or_insert-new entries key value missing = rw (missing, or_insert) refl
