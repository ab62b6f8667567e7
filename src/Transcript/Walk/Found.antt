-- ===== src/Transcript/Walk/Found.antt =====
-- What the walk along the parents finds, whether the chain ends or goes round in a circle.
use volute.Prelude.{
  ℕ, zero, suc, ◌+◌, ◌≤◌, ◌≡◌, refl, sym, ◌∙◌, ap, subst, Option, none, some, List, [], ◌∷◌, length,
  get_elem?, lt→get_elem?, arith, Option-cases, inl, inr, some-eq,
}
use volute.Bytes.{Bytes}
use volute.Transcript.{Entry, Payload}
use volute.Transcript.Maps.{lookup}
use volute.Transcript.Group.{by_uuid}
use volute.Transcript.Walk.{Walked, walk, walk_back}
use volute.Transcript.Walk.Chain.{Passes, passed, Chain, walk-past, Chain-is_short}
use volute.Transcript.Walk.Ends.{by_uuid-lt}

module _ {V T : Type 0} (entries : List (Entry V T)) (group_of : List (Option ℕ)) where
  -- So many steps along the parents go past as many entries, and this is found on them; no end is.
  pub data Trail : ℕ → Option Bytes → Walked → Type 0 where
    stop :
        (cursor : Option Bytes)
        → Trail 0 cursor (record { stimulus_positions = []; parent_group = none })
    step :
        {steps : ℕ} (uuid : Bytes) (p : ℕ) (e : Entry V T) {w : Walked}
        → lookup (by_uuid entries) uuid ≡ some p
        → get_elem? entries p ≡ some e
        → Passes e.payload
        → Trail steps e.parent_uuid w
        → Trail (suc steps) (some uuid) (passed e.payload p w)

  -- The end of the chain is found, or there is none and the walk took one step more than there are entries.
  pub data Found (cursor : Option Bytes) : Walked → Type 0 where
    ended :
        (ps : List ℕ) (w : Walked)
        → Chain entries (by_uuid entries) group_of cursor ps w
        → Found cursor w
    endless :
        (w : Walked)
        → Trail (length entries + 1) cursor w
        → ((ps : List ℕ) (v : Walked) → ¬ Chain entries (by_uuid entries) group_of cursor ps v)
        → Found cursor w

  -- In any number of steps.
  data Walks (steps : ℕ) (cursor : Option Bytes) : Walked → Type 0 where
    ends :
        (ps : List ℕ) (w : Walked)
        → Chain entries (by_uuid entries) group_of cursor ps w
        → Walks steps cursor w
    goes_on : (w : Walked) → Trail steps cursor w → Walks steps cursor w

  Walks-past :
      (steps p : ℕ) (uuid : Bytes) (e : Entry V T) {w : Walked}
      → lookup (by_uuid entries) uuid ≡ some p
      → get_elem? entries p ≡ some e
      → Passes e.payload
      → Walks steps e.parent_uuid w
      → Walks (suc steps) (some uuid) (passed e.payload p w)
  Walks-past steps p uuid e at here passes (ends ps w chain) =
      ends (p ∷ ps) _ (Chain.past uuid p e at here passes chain)
  Walks-past steps p uuid e at here passes (goes_on w trail) =
      goes_on _ (step uuid p e at here passes trail)

  -- One step more, through an entry.
  module _ (steps : ℕ)
      (more : (cursor : Option Bytes)
        → Walks steps cursor (walk entries (by_uuid entries) group_of steps cursor))
      (uuid : Bytes) (p : ℕ) (e : Entry V T) (at : lookup (by_uuid entries) uuid ≡ some p)
      (here : get_elem? entries p ≡ some e) where
    abbrev Further : Type 0
    Further =
        Walks (suc steps) (some uuid)
          (walk entries (by_uuid entries) group_of (suc steps) (some uuid))

    Walks-beyond : Passes e.payload → Further
    Walks-beyond passes =
        subst (Walks (suc steps) (some uuid))
          (sym (walk-past entries (by_uuid entries) group_of steps p uuid e at here passes))
          (Walks-past steps p uuid e at here passes (more e.parent_uuid))

    Walks-at : (payload : Payload V) → e.payload ≡ payload → Further
    unfolding walk
    Walks-at (Payload.assistant message) payload =
        rw (at, here, payload, walk)
          (ends (p ∷ []) _ (Chain.response uuid p e message at here payload))
    Walks-at (Payload.user message) payload = Walks-beyond (subst Passes (sym payload) tt)
    Walks-at (Payload.other kind) payload = Walks-beyond (subst Passes (sym payload) tt)

  walk-Walks :
      (steps : ℕ) (cursor : Option Bytes)
      → Walks steps cursor (walk entries (by_uuid entries) group_of steps cursor)
  unfolding walk
  walk-Walks zero cursor = goes_on _ (stop cursor)
  walk-Walks (suc steps) none = ends [] _ Chain.root
  walk-Walks (suc steps) (some uuid) = elim (Option-cases (lookup (by_uuid entries) uuid)) [
    | inl missing ↦ rw (missing, walk) (ends [] _ (Chain.outside uuid missing))
    | inr (p, at) ↦
        let (e, here) = lt→get_elem? entries p (by_uuid-lt entries uuid p at) in
        Walks-at steps (λ cursor. walk-Walks steps cursor) uuid p e at here e.payload refl
  ]

  -- A chain that ends is shorter than any trail along it.
  Chain-Trail :
      {steps : ℕ} {cursor : Option Bytes} {ps : List ℕ} {v w : Walked}
      → Chain entries (by_uuid entries) group_of cursor ps v
      → Trail steps cursor w
      → steps ≤ length ps
  Chain-Trail chain (stop cursor) = omega arith
  Chain-Trail (Chain.outside uuid missing) (step uuid' p e at here passes more) = cc
  Chain-Trail (Chain.response uuid q e' message at' there payload)
        (step uuid' p e at here passes more) =
      let position : q ≡ p = some-eq (sym at' ∙ at) in
      let same : e' ≡ e = some-eq (sym there ∙ (ap (get_elem? entries) position ∙ here)) in
      absurd (subst Passes (ap (λ (x : Entry V T). x.payload) (sym same) ∙ payload) passes)
  Chain-Trail (Chain.past uuid q e' {ps} {w = v} at' there passes' chain)
        (step uuid' p e at here passes more) =
      let position : q ≡ p = some-eq (sym at' ∙ at) in
      let same : e' ≡ e = some-eq (sym there ∙ (ap (get_elem? entries) position ∙ here)) in
      let again =
        subst (λ (x : Entry V T). Chain entries (by_uuid entries) group_of x.parent_uuid ps v) same
          chain in
      omega (arith, Chain-Trail again more)

  -- For every start, the walk finds the end of the chain of parents, the user entries up to there, and the
  -- response that is there; or the chain has no end, and the walk stops after `entries.len() + 1` steps,
  -- each past an entry that is no response, with the user entries among them.
  pub walk_back-Found :
      (cursor : Option Bytes) → Found cursor (walk_back entries (by_uuid entries) group_of cursor)
  unfolding walk_back
  walk_back-Found cursor = settle (walk-Walks (length entries + 1) cursor)
    where
      settle : {w : Walked} → Walks (length entries + 1) cursor w → Found cursor w
      settle (ends ps w chain) = ended ps w chain
      settle (goes_on w trail) = endless w trail (λ ps v chain.
          omega (
            arith,
            Chain-Trail chain trail,
            Chain-is_short entries (by_uuid entries) group_of chain,
          ))
