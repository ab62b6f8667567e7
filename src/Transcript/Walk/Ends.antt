-- ===== src/Transcript/Walk/Ends.antt =====
-- Where each entry's parent stands before it, every chain of parents ends, and so the walk finds its end.
use volute.Prelude.{
  ℕ, zero, suc, ◌+◌, ◌≤◌, ◌<◌, ◌≡◌, refl, sym, subst, Option, none, some, List, [], ◌∷◌, length,
  get_elem?, lt→get_elem?, arith, Option-cases, inl, inr,
}
use volute.Bytes.{Bytes}
use volute.Transcript.{Entry, Payload}
use volute.Transcript.Maps.{Entries, lookup, or_insert, lookup-or_insert_inv}
use volute.Transcript.Group.{by_uuid_from, by_uuid}
use volute.Transcript.Walk.{Walked, walk_back}
use volute.Transcript.Walk.Chain.{Passes, Chain, walk_back-Chain}

module _ {V T : Type 0} where
  by_uuid_from-lt :
      (at n : ℕ) (es : List (Entry V T)) (seen : Entries ℕ)
      → ((uuid : Bytes) (q : ℕ) → lookup seen uuid ≡ some q → q < n)
      → at + length es ≤ n
      → (uuid : Bytes) (q : ℕ) → lookup (by_uuid_from at es seen) uuid ≡ some q
      → q < n
  unfolding by_uuid_from
  by_uuid_from-lt at n [] seen below h uuid q e = below uuid q e
  by_uuid_from-lt at n (x ∷ xs) seen below h uuid q e =
      by_uuid_from-lt (at + 1) n xs (or_insert seen x.uuid at)
        (λ uuid q e. elim (lookup-or_insert_inv seen x.uuid at uuid e) [
          | inl there ↦ below uuid q there
          | inr new ↦ omega (arith, new)
        ])
        (omega arith) uuid q e

  -- The map holds positions of entries.
  pub by_uuid-lt :
      (entries : List (Entry V T)) (uuid : Bytes) (q : ℕ)
      → lookup (by_uuid entries) uuid ≡ some q
      → q < length entries
  unfolding by_uuid lookup
  by_uuid-lt entries uuid q e =
      by_uuid_from-lt 0 (length entries) entries [] (λ uuid q e. cc) (omega arith) uuid q e

  module _ (entries : List (Entry V T)) (group_of : List (Option ℕ)) where
    ChainFrom : Option Bytes → Type 0
    ChainFrom cursor =
        (ps : List ℕ) × (w : Walked) × Chain entries (by_uuid entries) group_of cursor ps w

    -- The chain through an entry.
    chain-at :
        (uuid : Bytes) (p : ℕ) (e : Entry V T)
        → lookup (by_uuid entries) uuid ≡ some p
        → get_elem? entries p ≡ some e
        → (payload : Payload V) → e.payload ≡ payload
        → ChainFrom e.parent_uuid
        → ChainFrom (some uuid)
    unfolding ChainFrom
    chain-at uuid p e at here (Payload.assistant message) payload (ps, w, more) =
        (_, _, Chain.response uuid p e message at here payload)
    chain-at uuid p e at here (Payload.user message) payload (ps, w, more) =
        (_, _, Chain.past uuid p e at here (subst Passes (sym payload) tt) more)
    chain-at uuid p e at here (Payload.other kind) payload (ps, w, more) =
        (_, _, Chain.past uuid p e at here (subst Passes (sym payload) tt) more)

    module _
        (before : (p : ℕ) (e : Entry V T) (uuid : Bytes) (q : ℕ)
          → get_elem? entries p ≡ some e
          → e.parent_uuid ≡ some uuid
          → lookup (by_uuid entries) uuid ≡ some q
          → q < p) where
      chain-below :
          (n : ℕ) (cursor : Option Bytes)
          → ((uuid : Bytes) (q : ℕ)
              → cursor ≡ some uuid
              → lookup (by_uuid entries) uuid ≡ some q
              → q < n)
          → ChainFrom cursor
      unfolding ChainFrom
      chain-below n none below = (_, _, Chain.root)
      chain-below zero (some uuid) below = elim (Option-cases (lookup (by_uuid entries) uuid)) [
        | inl missing ↦ (_, _, Chain.outside uuid missing)
        | inr (q, at) ↦ absurd (omega (arith, below uuid q refl at))
      ]
      chain-below (suc n) (some uuid) below = elim (Option-cases (lookup (by_uuid entries) uuid)) [
        | inl missing ↦ (_, _, Chain.outside uuid missing)
        | inr (q, at) ↦
            let (e, here) = lt→get_elem? entries q (by_uuid-lt entries uuid q at) in
            chain-at uuid q e at here e.payload refl (
              chain-below n e.parent_uuid (λ uuid' q' parent at'.
                omega (arith, before q e uuid' q' here parent at', below uuid q refl at)))
      ]

      -- Where a parent stands before its children, as in a file that is only appended to, every walk
      -- finds the end of a chain: it never stops because it took too many steps.
      pub walk_back_ends :
          (cursor : Option Bytes)
          → (ps : List ℕ) × Chain entries
              (by_uuid entries)
              group_of
              cursor
              ps
              (walk_back entries (by_uuid entries) group_of cursor)
      unfolding ChainFrom
      walk_back_ends cursor =
          let (ps, w, chain) =
            chain-below (length entries) cursor (λ uuid q e at. by_uuid-lt entries uuid q at) in
          (
            ps,
            subst (Chain entries (by_uuid entries) group_of cursor ps)
                (sym (walk_back-Chain entries (by_uuid entries) group_of chain)) chain,
          )
