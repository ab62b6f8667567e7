-- ===== src/Transcript/Walk/Chain.antt =====
-- The walk along the chain of parents reaches the end of every chain that has one.
use volute.Prelude.{
  ℕ, zero, suc, ◌+◌, ◌≤◌, ◌<◌, ◌≡◌, refl, ap, ◌∙◌, sym, subst, Option, none, some, List, [], ◌∷◌,
  length, get_elem?, get_elem?→lt, get_or, arith, All, Distinct, NotIn, length-Distinct, some-eq,
}
use volute.Bytes.{Bytes}
use volute.Transcript.{Entry, Payload, AssistantMessage}
use volute.Transcript.Maps.{Entries, lookup}
use volute.Transcript.Walk.{Walked, push_found, walk, walk_back}

-- An entry that the walk goes past, and what it adds.
abbrev pub Passes : {V : Type 0} → Payload V → Type 0
Passes (Payload.assistant message) = ⊥
Passes (Payload.user message) = Unit
Passes (Payload.other kind) = Unit

abbrev pub passed : {V : Type 0} → Payload V → ℕ → Walked → Walked
passed (Payload.assistant message) position w = w
passed (Payload.user message) position w = record {
  stimulus_positions = position ∷ w.stimulus_positions;
  parent_group = w.parent_group;
}
passed (Payload.other kind) position w = w

payload-passed :
    {V : Type 0} (payload : Payload V) (p : ℕ) (ended w : Walked)
    → Passes payload
    → elim payload [
      | Payload.assistant message ↦ ended
      | Payload.user message ↦ push_found p w
      | Payload.other kind ↦ w
    ]
      ≡ passed payload p w
unfolding push_found
payload-passed (Payload.assistant message) p ended w h = absurd h
payload-passed (Payload.user message) p ended w h = refl
payload-passed (Payload.other kind) p ended w h = refl

module _ {V T : Type 0} (entries : List (Entry V T)) (uuids : Entries ℕ)
    (group_of : List (Option ℕ)) where
  -- A chain of parents that ends: the positions on it, and what is found.
  pub data Chain : Option Bytes → List ℕ → Walked → Type 0 where
    root : Chain none [] (record { stimulus_positions = []; parent_group = none })
    outside :
        (uuid : Bytes)
        → lookup uuids uuid ≡ none
        → Chain (some uuid) [] (record { stimulus_positions = []; parent_group = none })
    response :
        (uuid : Bytes) (p : ℕ) (e : Entry V T) (message : AssistantMessage V)
        → lookup uuids uuid ≡ some p
        → get_elem? entries p ≡ some e
        → e.payload ≡ Payload.assistant message
        → Chain
            (some uuid)
            (p ∷ [])
            (record { stimulus_positions = []; parent_group = get_or group_of p none })
    past :
        (uuid : Bytes) (p : ℕ) (e : Entry V T) {ps : List ℕ} {w : Walked}
        → lookup uuids uuid ≡ some p
        → get_elem? entries p ≡ some e
        → Passes e.payload
        → Chain e.parent_uuid ps w
        → Chain (some uuid) (p ∷ ps) (passed e.payload p w)

  pub walk-past :
      (steps p : ℕ) (uuid : Bytes) (e : Entry V T)
      → lookup uuids uuid ≡ some p
      → get_elem? entries p ≡ some e
      → Passes e.payload
      → walk entries uuids group_of (suc steps) (some uuid)
        ≡ passed e.payload p (walk entries uuids group_of steps e.parent_uuid)
  unfolding walk
  walk-past steps p uuid e at here passes =
      rw (at, walk, here)
        (payload-passed e.payload p _ (walk entries uuids group_of steps e.parent_uuid) passes)

  -- Enough steps for the positions of the chain find its end.
  walk-Chain :
      (steps : ℕ) {cursor : Option Bytes} {ps : List ℕ} {w : Walked}
      → Chain cursor ps w
      → length ps < steps
      → walk entries uuids group_of steps cursor ≡ w
  unfolding walk
  walk-Chain zero chain h = absurd (omega arith)
  walk-Chain (suc steps) Chain.root h = refl
  walk-Chain (suc steps) (Chain.outside uuid missing) h = rw (missing, walk) refl
  walk-Chain (suc steps) (Chain.response uuid p e message at here payload) h =
      rw (at, here, payload, walk) refl
  walk-Chain (suc steps) (Chain.past uuid p e at here passes more) h =
      walk-past steps p uuid e at here passes
      ∙ ap (passed e.payload p) (walk-Chain steps more (omega arith))

  -- The positions of a chain, in as many steps as are given.
  visited : ℕ → Option Bytes → List ℕ
  visited zero cursor = []
  visited (suc steps) none = []
  visited (suc steps) (some uuid) = elim (lookup uuids uuid) [
    | none ↦ []
    | some p ↦ elim (get_elem? entries p) [
      | none ↦ []
      | some e ↦ elim e.payload [
        | Payload.assistant message ↦ p ∷ []
        | Payload.user message ↦ p ∷ visited steps e.parent_uuid
        | Payload.other kind ↦ p ∷ visited steps e.parent_uuid
      ]
    ]
  ]

  visited-past :
      (payload : Payload V) (p : ℕ) (ps : List ℕ)
      → Passes payload
      → elim payload [
        | Payload.assistant message ↦ p ∷ []
        | Payload.user message ↦ p ∷ ps
        | Payload.other kind ↦ p ∷ ps
      ]
        ≡ p ∷ ps
  visited-past (Payload.assistant message) p ps h = absurd h
  visited-past (Payload.user message) p ps h = refl
  visited-past (Payload.other kind) p ps h = refl

  visited-Chain :
      (steps : ℕ) {cursor : Option Bytes} {ps : List ℕ} {w : Walked}
      → Chain cursor ps w
      → length ps < steps
      → visited steps cursor ≡ ps
  unfolding visited
  visited-Chain zero chain h = absurd (omega arith)
  visited-Chain (suc steps) Chain.root h = refl
  visited-Chain (suc steps) (Chain.outside uuid missing) h = rw (missing, visited) refl
  visited-Chain (suc steps) (Chain.response uuid p e message at here payload) h =
      rw (at, visited, here, payload) refl
  visited-Chain (suc steps) (Chain.past uuid p e {ps} at here passes more) h =
      rw (at, visited, here)
        (visited-past e.payload p (visited steps e.parent_uuid) passes
          ∙ ap (◌∷◌ p) (visited-Chain steps more (omega arith)))

  -- Two chains from one entry are one.
  Chain-unique :
      {cursor : Option Bytes} {ps qs : List ℕ} {w v : Walked}
      → Chain cursor ps w
      → Chain cursor qs v
      → ps ≡ qs
  Chain-unique {cursor} {ps} {qs} a b =
      sym (visited-Chain (length ps + length qs + 1) a (omega arith))
      ∙ visited-Chain (length ps + length qs + 1) b (omega arith)

  -- A position is not again on the chain that goes on from it.
  Chain-NotIn :
      (p : ℕ) (e : Entry V T) {ps : List ℕ} {w : Walked}
      → get_elem? entries p ≡ some e
      → Passes e.payload
      → Chain e.parent_uuid ps w
      → {cursor : Option Bytes} {qs : List ℕ} {v : Walked} → Chain cursor qs v
      → length qs ≤ length ps
      → NotIn p qs
  Chain-NotIn p e here passes more Chain.root h = tt
  Chain-NotIn p e here passes more (Chain.outside uuid missing) h = tt
  Chain-NotIn p e here passes more (Chain.response uuid q e' message at there payload) h = (
    (λ same.
        let e'≡e : e' ≡ e = some-eq (sym there ∙ (ap (get_elem? entries) same ∙ here)) in
        subst Passes (ap (λ (x : Entry V T). x.payload) (sym e'≡e) ∙ payload) passes),
    tt,
  )
  Chain-NotIn p e here passes more (Chain.past uuid q e' {ps = qs} {w = v'} at there passes' more')
        h =
      (
        (λ same.
            let e'≡e : e' ≡ e = some-eq (sym there ∙ (ap (get_elem? entries) same ∙ here)) in
            let again = subst (λ (x : Entry V T). Chain x.parent_uuid qs v') e'≡e more' in
            omega (arith, h, ap length (Chain-unique again more))),
        Chain-NotIn p e here passes more more' (omega arith),
      )

  Chain-Distinct :
      {cursor : Option Bytes} {ps : List ℕ} {w : Walked} → Chain cursor ps w → Distinct ps
  Chain-Distinct Chain.root = tt
  Chain-Distinct (Chain.outside uuid missing) = tt
  Chain-Distinct (Chain.response uuid p e message at here payload) = (tt, tt)
  Chain-Distinct (Chain.past uuid p e at here passes more) =
      (Chain-NotIn p e here passes more more (omega arith), Chain-Distinct more)

  Chain-below :
      {cursor : Option Bytes} {ps : List ℕ} {w : Walked}
      → Chain cursor ps w
      → All (λ p. p < length entries) ps
  Chain-below Chain.root = tt
  Chain-below (Chain.outside uuid missing) = tt
  Chain-below (Chain.response uuid p e message at here payload) = (get_elem?→lt entries p here, tt)
  Chain-below (Chain.past uuid p e at here passes more) =
      (get_elem?→lt entries p here, Chain-below more)

  -- Its positions are distinct entries.
  pub Chain-is_short :
      {cursor : Option Bytes} {ps : List ℕ} {w : Walked}
      → Chain cursor ps w
      → length ps ≤ length entries
  Chain-is_short {ps} chain =
      length-Distinct (length entries) ps (Chain-Distinct chain) (Chain-below chain)

  -- Wherever the chain of parents ends, the walk finds the user entries up to there, and the response that
  -- is there.
  pub walk_back-Chain :
      {cursor : Option Bytes} {ps : List ℕ} {w : Walked}
      → Chain cursor ps w
      → walk_back entries uuids group_of cursor ≡ w
  unfolding walk_back
  walk_back-Chain chain =
      walk-Chain (length entries + 1) chain (omega (arith, Chain-is_short chain))
