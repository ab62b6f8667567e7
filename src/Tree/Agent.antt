-- ===== src/Tree/Agent.antt =====
-- The id of an agent's conversation, and the ids of its parent and itself.
use volute.Prelude.{◌≡◌, refl, some, [], ◌∷◌, length, ◌<◌, ◌↔◌, subst, arith, >>=-eq-some, some-eq}
use volute.Bytes.{Bytes, rsplit_once}
use volute.Bytes.Split.{IsLastSplit, rsplit_once-IsLastSplit, rsplit_once-append}
use volute.Tree.{agent_marker, both_sides, split_agent_id}

both_sides-some :
    (p a parent agent : Bytes)
    → both_sides p a ≡ some (parent, agent)
    → ◌≡◌ {A = Bytes × Bytes} (p, a) (parent, agent) × (0 < length parent) × (0 < length agent)
unfolding both_sides
both_sides-some [] a parent agent h = cc
both_sides-some (p ∷ ps) [] parent agent h = cc
both_sides-some (p ∷ ps) (a ∷ rest) parent agent h =
    let e = some-eq h in
    (
      e,
      subst (λ (r : Bytes × Bytes). 0 < length r.0) e (omega arith),
      subst (λ (r : Bytes × Bytes). 0 < length r.1) e (omega arith),
    )

both_sides_full : (p a : Bytes) → 0 < length p → 0 < length a → both_sides p a ≡ some (p, a)
unfolding both_sides
both_sides_full [] a h k = absurd (omega arith)
both_sides_full (p ∷ ps) [] h k = absurd (omega arith)
both_sides_full (p ∷ ps) (a ∷ rest) h k = refl

-- An id splits into a parent and an agent, neither empty, exactly where it is the parent, the marker
-- and the agent, and no other marker begins after the start of that one.
pub split_agent_id-IsLastSplit :
    (id parent agent : Bytes)
    → (split_agent_id id ≡ some (parent, agent))
      ↔ (IsLastSplit agent_marker id (parent, agent) × (0 < length parent) × (0 < length agent))
unfolding split_agent_id
split_agent_id-IsLastSplit id parent agent = (
  λ h.
      let (found, at, kept) = >>=-eq-some (rsplit_once agent_marker id) _ h in
      let (e, some_parent, some_agent) = both_sides-some found.0 found.1 parent agent kept in
      (
        subst (IsLastSplit agent_marker id) e (rsplit_once-IsLastSplit agent_marker id at),
        some_parent,
        some_agent,
      ),
  λ (split, some_parent, some_agent).
      rw (split.0, rsplit_once-append parent _ _ agent split.1)
        (both_sides_full parent agent some_parent some_agent),
)
