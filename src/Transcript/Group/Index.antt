-- ===== src/Transcript/Group/Index.antt =====
-- The index that the grouping keeps, of the responses by their keys.
use volute.Prelude.{
  ℕ, suc, ◌≡◌, refl, ap, ◌∙◌, sym, false, Option, none, some, List, [], ◌∷◌, ◌++◌, length,
  if◌then◌else◌, Bool-cases, Option-cases, inl, inr, some-eq, subst,
}
use volute.Bytes.{Bytes, bytes_eq}
use volute.Transcript.{Entry, AssistantMessage}
use volute.Transcript.Maps.{Entries, lookup, lookup-append, or_insert-new}
use volute.Transcript.Group.{
  Group, Grouping, push_position, group_for, response_key, group_assistant,
}

abbrev pub shifted : Option ℕ → Option ℕ
shifted none = none
shifted (some i) = some (suc i)

-- The first response of a key.
abbrev pub find_key : Bytes → List Group → Option ℕ
find_key k [] = none
find_key k (g ∷ gs) =
    let rest = shifted (find_key k gs) in if bytes_eq g.key k then some 0 else rest

-- A position more in the response of a key, which is a new one if there is none.
abbrev pub push_key : List Group → Bytes → ℕ → List Group
push_key [] k p = record { key = k; positions = p ∷ [] } ∷ []
push_key (g ∷ gs) k p =
    let rest = push_key gs k p in
    if bytes_eq g.key k
    then record { key = g.key; positions = g.positions ++ p ∷ [] } ∷ gs
    else g ∷ rest

-- The index knows each response by its key.
abbrev pub IsIndex : Entries ℕ → List Group → Type 0
IsIndex index groups = (k : Bytes) → lookup index k ≡ find_key k groups

push_position-found :
    (groups : List Group) (k : Bytes) (i p : ℕ)
    → find_key k groups ≡ some i
    → push_position groups i p ≡ push_key groups k p
unfolding push_position
push_position-found [] k i p h = cc
push_position-found (g ∷ gs) k i p h = elim (Bool-cases (bytes_eq g.key k)) [
  | inl here ↦
      let e : 0 ≡ i = some-eq (rw here at h) in
      subst (λ i. push_position (g ∷ gs) i p ≡ push_key (g ∷ gs) k p) e (rw here refl)
  | inr later ↦ elim (Option-cases (find_key k gs)) [
    | inl missing ↦ let e = rw (later, missing) at h in absurd cc
    | inr (j, at) ↦
        let e : suc j ≡ i = some-eq (rw (later, at) at h) in
        subst (λ i. push_position (g ∷ gs) i p ≡ push_key (g ∷ gs) k p) e
          (rw later (ap (◌∷◌ g) (push_position-found gs k j p at)))
  ]
]

-- Inversion of a search that finds nothing.
find_key-none :
    (g : Group) (gs : List Group) (k : Bytes)
    → find_key k (g ∷ gs) ≡ none
    → (bytes_eq g.key k ≡ false) × (find_key k gs ≡ none)
find_key-none g gs k h = elim (Bool-cases (bytes_eq g.key k)) [
  | inl here ↦ let e = rw here at h in absurd cc
  | inr later ↦ elim (Option-cases (find_key k gs)) [
    | inl missing ↦ (later, missing)
    | inr (j, at) ↦ let e = rw (later, at) at h in absurd cc
  ]
]

push_position-new :
    (groups : List Group) (k : Bytes) (p : ℕ)
    → find_key k groups ≡ none
    → push_position (groups ++ record { key = k; positions = [] } ∷ []) (length groups) p
      ≡ push_key groups k p
unfolding push_position
push_position-new [] k p h = refl
push_position-new (g ∷ gs) k p h =
    let (later, missing) = find_key-none g gs k h in
    rw later (ap (◌∷◌ g) (push_position-new gs k p missing))

find_key-push_key :
    (groups : List Group) (k : Bytes) (i p : ℕ) (k' : Bytes)
    → find_key k groups ≡ some i
    → find_key k' (push_key groups k p) ≡ find_key k' groups
find_key-push_key [] k i p k' h = cc
find_key-push_key (g ∷ gs) k i p k' h = elim (Bool-cases (bytes_eq g.key k)) [
  | inl here ↦ rw here refl
  | inr later ↦ elim (Option-cases (find_key k gs)) [
    | inl missing ↦ let e = rw (later, missing) at h in absurd cc
    | inr (j, at) ↦ let e = find_key-push_key gs k j p k' at in rw later (rw e refl)
  ]
]

find_key-new :
    (groups : List Group) (k : Bytes) (p : ℕ) (k' : Bytes)
    → find_key k groups ≡ none
    → find_key k' (push_key groups k p) ≡ elim (find_key k' groups) [
      | some i ↦ some i
      | none ↦ if bytes_eq k k' then some (length groups) else none
    ]
find_key-new [] k p k' h = refl
find_key-new (g ∷ gs) k p k' h =
    let (later, missing) = find_key-none g gs k h in
    let more = find_key-new gs k p k' missing in
    elim (Bool-cases (bytes_eq g.key k')) [
      | inl here ↦ rw (later, here) refl
      | inr other ↦ elim (Option-cases (find_key k' gs)) [
        | inl none_there ↦ elim (Bool-cases (bytes_eq k k')) [
          | inl same ↦
              let e = rw (none_there, same) at more in rw (later, other, e, none_there, same) refl
          | inr apart ↦
              let e = rw (none_there, apart) at more in rw (later, other, e, none_there, apart) refl
        ]
        | inr (j, at) ↦ let e = rw at at more in rw (later, other, e, at) refl
      ]
    ]

module _ {V T : Type 0} where
  -- What an assistant entry does to the responses, and to their index.
  pub group_assistant-groups :
      (s : Grouping) (at : ℕ) (e : Entry V T) (message : AssistantMessage V)
      → IsIndex s.group_index s.groups
      → (group_assistant s at e message).groups ≡ push_key s.groups (response_key e message) at
  unfolding group_assistant group_for
  group_assistant-groups s at e message index =
      let k = response_key e message in
      elim (Option-cases (lookup s.group_index k)) [
        | inl missing ↦
            rw (missing, group_for, group_assistant)
              (push_position-new s.groups k at (sym (index k) ∙ missing))
        | inr (i, there) ↦
            rw (there, group_for, group_assistant)
              (push_position-found s.groups k i at (sym (index k) ∙ there))
      ]

  pub group_assistant-IsIndex :
      (s : Grouping) (at : ℕ) (e : Entry V T) (message : AssistantMessage V)
      → IsIndex s.group_index s.groups
      → IsIndex
          (group_assistant s at e message).group_index
          (push_key s.groups (response_key e message) at)
  unfolding group_assistant group_for
  group_assistant-IsIndex s at e message index k' =
      let k = response_key e message in
      elim (Option-cases (lookup s.group_index k)) [
        | inl missing ↦
            rw
              (
                missing,
                group_for,
                group_assistant,
                or_insert-new s.group_index k (length s.groups) missing,
              )
              (lookup-append s.group_index k (length s.groups) k'
                ∙ (rw (index k') refl
                    ∙ sym (find_key-new s.groups k at k' (sym (index k) ∙ missing))))
        | inr (i, there) ↦
            rw (there, group_for, group_assistant)
              (index k' ∙ sym (find_key-push_key s.groups k i at k' (sym (index k) ∙ there)))
      ]
