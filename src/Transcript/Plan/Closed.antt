-- ===== src/Transcript/Plan/Closed.antt =====
-- The interactions that `plan` makes are those of the closed responses, in order.
use volute.Prelude.{
  ℕ, ◌+◌, ◌≡◌, refl, ap, ◌∙◌, sym, Bool, true, false, List, [], ◌∷◌, ◌++◌, map, append_assoc,
  append-nil, length, length-map, if◌then◌else◌, arith, Bool-cases, inl, inr,
}
use volute.Bytes.{Bytes}
use volute.Stimulus.Token.{Sha256}
use volute.Transcript.{Json, ParsedLine, Entry}
use volute.Transcript.Group.{Group, Grouping, entries_of, grouping}
use volute.Transcript.Group.Keys.{keys_from}
use volute.Transcript.Group.ByKey.{fresh, grouping-groups}
use volute.Transcript.Context.{PlanInput}
use volute.Transcript.Plan.{
  PlannedInteraction, Plan, is_closed, first_entry, respond, plan_group, plan_groups, plan,
}

-- The offset of the last one, or the start.
abbrev pub last_offset : {T : Type 0} → ℕ → List (PlannedInteraction T) → ℕ
last_offset start [] = start
last_offset start (i ∷ is) = last_offset i.first_offset is

module _ {V T : Type 0} where
  -- The closed responses, in order.
  abbrev pub closed_of : Bool → List (Entry V T) → Grouping → List Group → List Group
  closed_of final entries found [] = []
  closed_of final entries found (g ∷ gs) =
      let rest = closed_of final entries found gs in
      if is_closed final entries found g then g ∷ rest else rest

  module _ (json : Json V) (sha : Sha256) (now : T) (input : PlanInput) where
    -- What the loop over the responses adds to a plan.
    abbrev pub IsPlanned : List (Entry V T) → Grouping → Plan T → List Group → Plan T → Type 0
    IsPlanned entries found before groups after =
        let planned =
          map (respond json sha now input entries found)
            (closed_of input.final_mode entries found groups) in
        (after.interactions ≡ before.interactions ++ planned)
        × ((after.cursor_offset ≡ last_offset before.cursor_offset planned)
            × (after.pending_responses + length planned ≡ before.pending_responses + length groups))

    -- The plan after a closed response, and after one that is not.
    abbrev pub one_more : List (Entry V T) → Grouping → Plan T → Group → Plan T
    one_more entries found before g = record before {
      cursor_offset = (first_entry entries g).offset;
      interactions = before.interactions ++ respond json sha now input entries found g ∷ [];
    }

    abbrev pub one_pending : Plan T → Plan T
    one_pending before = record before { pending_responses = before.pending_responses + 1 }

    plan_groups-closed :
        (entries : List (Entry V T)) (found : Grouping) (before : Plan T) (g : Group)
        (gs : List Group)
        → is_closed input.final_mode entries found g ≡ true
        → plan_groups json sha now input entries found before (g ∷ gs)
          ≡ plan_groups json sha now input entries found (one_more entries found before g) gs
    unfolding plan_groups plan_group
    plan_groups-closed entries found before g gs h = rw (h, plan_groups, plan_group) refl

    plan_groups-pending :
        (entries : List (Entry V T)) (found : Grouping) (before : Plan T) (g : Group)
        (gs : List Group)
        → is_closed input.final_mode entries found g ≡ false
        → plan_groups json sha now input entries found before (g ∷ gs)
          ≡ plan_groups json sha now input entries found (one_pending before) gs
    unfolding plan_groups plan_group
    plan_groups-pending entries found before g gs h = rw (h, plan_groups, plan_group) refl

    plan_groups-IsPlanned :
        (entries : List (Entry V T)) (found : Grouping) (before : Plan T) (groups : List Group)
        → IsPlanned entries found before groups
            (plan_groups json sha now input entries found before groups)
    unfolding plan_groups respond
    plan_groups-IsPlanned entries found before [] =
        (sym (append-nil before.interactions), (refl, refl))
    plan_groups-IsPlanned entries found before (g ∷ gs) =
        elim (Bool-cases (is_closed input.final_mode entries found g)) [
          | inl closed ↦
              let (all, (cursor, count)) =
                plan_groups-IsPlanned entries found (one_more entries found before g) gs in
              rw (plan_groups-closed entries found before g gs closed, closed)
                (all ∙ append_assoc before.interactions _ _, (cursor, omega (arith, count)))
          | inr pending ↦
              let (all, (cursor, count)) =
                plan_groups-IsPlanned entries found (one_pending before) gs in
              rw (plan_groups-pending entries found before g gs pending, pending)
                (all, (cursor, omega (arith, count)))
        ]

    -- `plan` makes an interaction of each closed response, in order, counts each other one as pending, and
    -- puts the cursor at the first byte of the last closed response, or leaves it at the start.
    pub plan-IsPlanned :
        (lines : List (ParsedLine V T)) (start : ℕ)
        → let entries = entries_of lines in
          let found = grouping entries in
          let p = plan json sha now input lines start in
          let planned =
            map
              (respond json sha now input entries found)
              (closed_of input.final_mode entries found found.groups) in
          (p.interactions ≡ planned)
          × ((p.cursor_offset ≡ last_offset start planned)
              × (p.pending_responses + length planned ≡ length found.groups))
    unfolding plan
    plan-IsPlanned lines start =
        let entries = entries_of lines in
        let (all, (cursor, count)) =
          plan_groups-IsPlanned entries (grouping entries) _ (grouping entries).groups in
        (all, (cursor, omega (arith, count)))

  closed_of-final :
      (entries : List (Entry V T)) (found : Grouping) (groups : List Group)
      → closed_of true entries found groups ≡ groups
  unfolding is_closed
  closed_of-final entries found [] = refl
  closed_of-final entries found (g ∷ gs) = ap (◌∷◌ g) (closed_of-final entries found gs)

  keys-fresh :
      (entries : List (Entry V T)) (ks : List Bytes)
      → map (λ (g : Group). g.key) (map (fresh 0 entries) ks) ≡ ks
  keys-fresh entries [] = refl
  keys-fresh entries (k ∷ ks) = ap (◌∷◌ k) (keys-fresh entries ks)

  module _ (json : Json V) (sha : Sha256) (now : T) (input : PlanInput) where
    keys-respond :
        (entries : List (Entry V T)) (found : Grouping) (groups : List Group)
        → map
            (λ (i : PlannedInteraction T). i.response_key)
            (map (respond json sha now input entries found) groups)
          ≡ map (λ (g : Group). g.key) groups
    unfolding respond
    keys-respond entries found [] = refl
    keys-respond entries found (g ∷ gs) = ap (◌∷◌ g.key) (keys-respond entries found gs)

    -- In the final mode nothing stays pending: the plan has an interaction for the key of each assistant
    -- entry of the window, once, in the order in which the keys first appear.
    pub plan-final :
        (lines : List (ParsedLine V T)) (start : ℕ)
        → input.final_mode ≡ true
        → ((plan json sha now input lines start).pending_responses ≡ 0)
          × (map
                (λ (i : PlannedInteraction T). i.response_key)
                (plan json sha now input lines start).interactions
              ≡ keys_from [] (entries_of lines))
    plan-final lines start final =
        let entries = entries_of lines in
        let found = grouping entries in
        let (all, (cursor, count)) = plan-IsPlanned json sha now input lines start in
        let closed : closed_of input.final_mode entries found found.groups ≡ found.groups =
          rw final (closed_of-final entries found found.groups) in
        let none_left = rw (closed, length-map) at count in
        (
          omega (arith, none_left),
          ap (map (λ (i : PlannedInteraction T). i.response_key)) all
              ∙ (keys-respond entries found (closed_of input.final_mode entries found found.groups)
                  ∙ (ap (map (λ (g : Group). g.key)) (closed ∙ grouping-groups entries)
                      ∙ keys-fresh entries (keys_from [] entries))),
        )
