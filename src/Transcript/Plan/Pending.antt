-- ===== src/Transcript/Plan/Pending.antt =====
-- At most one response of a window is pending.
use volute.Prelude.{
  ℕ, zero, suc, ◌+◌, ◌-◌, ◌≤◌, ◌≡◌, ◌≢◌, refl, ap, ◌∙◌, sym, subst, Bool, true, false, ◌||◌, ◌&&◌,
  Option, none, some, List, [], ◌∷◌, map, drop, length, length-map, ltb, arith, Bool-cases, inl,
  inr, ◌⊎◌, All, All-imp, some-eq,
}
use volute.Bytes.{Bytes, bytes_eq}
use volute.Bytes.Laws.{bytes_eq→≡, bytes_eq_refl}
use volute.Stimulus.Token.{Sha256}
use volute.Transcript.{Json, ParsedLine, Entry, Payload}
use volute.Transcript.Group.{Group, Grouping, entries_of, grouping}
use volute.Transcript.Group.Keys.{
  has, Unique, key_of, is_wanted, keys_from, positions_of, keys_from-Unique, has-cons, All-next-any,
}
use volute.Transcript.Group.ByKey.{fresh, grouping-groups}
use volute.Transcript.Context.{PlanInput}
use volute.Transcript.Respond.{last_of, moves_on}
use volute.Transcript.Plan.{is_closed, any_moves_on, plan}
use volute.Transcript.Plan.Closed.{closed_of, plan-IsPlanned}

pub List-cases {ℓ} :
    {A : Type ℓ} (xs : List A) → (xs ≡ []) ⊎ ((x : A) × (ys : List A) × (xs ≡ x ∷ ys))
List-cases [] = inl refl
List-cases (x ∷ xs) = inr (x, xs, refl)

last_of-le : (n q : ℕ) (qs : List ℕ) → All (λ p. n ≤ p) (q ∷ qs) → n ≤ last_of (q ∷ qs)
unfolding last_of
last_of-le n q [] h = h.0
last_of-le n q (p ∷ ps) h = last_of-le n p ps h.1

is_wanted-some : (k : Bytes) (o : Option Bytes) → is_wanted k o ≡ true → o ≡ some k
is_wanted-some k none h = cc
is_wanted-some k (some k') h = ap some (sym (bytes_eq→≡ k k' h))

not_closed :
    (final inside complete moves : Bool)
    → (final || (inside && (complete || moves))) ≡ false
    → inside ≡ true
    → moves ≡ false
not_closed true inside complete moves h i = cc
not_closed false false complete moves h i = cc
not_closed false true true moves h i = cc
not_closed false true false moves h i = h

module _ {V T : Type 0} where
  -- The key of the last assistant entry.
  last_key : List (Entry V T) → Option Bytes
  last_key [] = none
  last_key (e ∷ es) = elim (last_key es) [ none ↦ key_of e | some k ↦ some k ]

  -- An assistant entry moves on.
  key_of-moves_on :
      (e : Entry V T) (payload : Payload V)
      → e.payload ≡ payload
      → moves_on e.payload ≡ false
      → key_of e ≡ none
  unfolding moves_on key_of
  key_of-moves_on e (Payload.assistant message) h still = let e = rw h at still in absurd cc
  key_of-moves_on e (Payload.user message) h still = rw (h, key_of) refl
  key_of-moves_on e (Payload.other kind) h still = rw (h, key_of) refl

  last_key-none : (es : List (Entry V T)) → any_moves_on es ≡ false → last_key es ≡ none
  unfolding last_key any_moves_on
  last_key-none [] h = refl
  last_key-none (e ∷ es) h = elim (Bool-cases (moves_on e.payload)) [
    | inl moves ↦ let e = rw moves at h in absurd cc
    | inr still ↦ rw (last_key-none es (rw still at h)) (key_of-moves_on e e.payload refl still)
  ]

  positions_of-le :
      (k : Bytes) (at n : ℕ) (es : List (Entry V T))
      → n ≤ at
      → All (λ p. n ≤ p) (positions_of k at es)
  positions_of-le k at n [] h = tt
  positions_of-le k at n (e ∷ es) h = elim (Bool-cases (is_wanted k (key_of e))) [
    | inl hit ↦ rw hit (h, positions_of-le k (at + 1) n es (omega arith))
    | inr other ↦ rw other (positions_of-le k (at + 1) n es (omega arith))
  ]

  -- A response after whose last entry no entry moves on is that of the last assistant entry.
  last_of-last_key :
      (k : Bytes) (at : ℕ) (es : List (Entry V T)) (p : ℕ) (ps : List ℕ)
      → positions_of k at es ≡ p ∷ ps
      → any_moves_on (drop (last_of (p ∷ ps) + 1 - at) es) ≡ false
      → last_key es ≡ some k
  unfolding last_key last_of
  last_of-last_key k at [] p ps h still = cc
  last_of-last_key k at (e ∷ es) p ps h still = elim (List-cases (positions_of k (at + 1) es)) [
    | inl nothing ↦ elim (Bool-cases (is_wanted k (key_of e))) [
      | inl hit ↦
          let alone : at ∷ [] ≡ p ∷ ps = rw (hit, nothing) at h in
          let one : last_of (p ∷ ps) + 1 - at ≡ 1 =
            subst (λ qs. last_of qs + 1 - at ≡ 1) alone (omega arith) in
          let after : any_moves_on es ≡ false = rw one at still in
          rw (last_key-none es after) (is_wanted-some k (key_of e) hit)
      | inr other ↦ let e = rw (other, nothing) at h in absurd cc
    ]
    | inr (q, qs, more) ↦
        let same : last_of (p ∷ ps) ≡ last_of (q ∷ qs) =
          elim (Bool-cases (is_wanted k (key_of e))) [
            | inl hit ↦
                let whole : at ∷ q ∷ qs ≡ p ∷ ps = rw (hit, more) at h in sym (ap last_of whole)
            | inr other ↦
                let whole : q ∷ qs ≡ p ∷ ps = rw (other, more) at h in sym (ap last_of whole)
          ] in
        let below : at + 1 ≤ last_of (q ∷ qs) = last_of-le (at + 1) q qs (
          subst (All (λ p. at + 1 ≤ p)) more
            (positions_of-le k (at + 1) (at + 1) es (omega arith))) in
        let step : last_of (p ∷ ps) + 1 - at ≡ suc (last_of (q ∷ qs) + 1 - (at + 1)) =
          omega arith in
        rw (last_of-last_key k (at + 1) es q qs more (rw step at still)) refl
  ]

  -- Past the end no entry moves on.
  any_moves_on-end :
      (n : ℕ) (es : List (Entry V T)) → length es ≤ n → any_moves_on (drop n es) ≡ false
  unfolding any_moves_on
  any_moves_on-end zero [] h = refl
  any_moves_on-end (suc n) [] h = refl
  any_moves_on-end zero (e ∷ es) h = absurd (omega arith)
  any_moves_on-end (suc n) (e ∷ es) h = any_moves_on-end n es (omega arith)

  -- A response that is not closed is followed by no entry that moves on.
  is_closed-still :
      (final : Bool) (entries : List (Entry V T)) (found : Grouping) (g : Group)
      → is_closed final entries found g ≡ false
      → any_moves_on (drop (last_of g.positions + 1) entries) ≡ false
  unfolding is_closed
  is_closed-still final entries found g h =
      let last = last_of g.positions in
      elim (Bool-cases (ltb (last + 1) (length entries))) [
        | inl inside ↦ not_closed final (ltb (last + 1) (length entries)) _ _ h inside
        | inr outside ↦ any_moves_on-end (last + 1) entries (ground arith)
      ]

  -- The responses that are not closed are all that of the last assistant entry.
  pending-last :
      (final : Bool) (entries : List (Entry V T)) (found : Grouping) (k : Bytes)
      → positions_of k 0 entries ≢ []
      → is_closed final entries found (fresh 0 entries k) ≡ false
      → last_key entries ≡ some k
  pending-last final entries found k some_in h = elim (List-cases (positions_of k 0 entries)) [
    | inl nothing ↦ absurd (some_in nothing)
    | inr (p, ps, e) ↦
        let still : any_moves_on (drop (last_of (p ∷ ps) + 1) entries) ≡ false =
          subst (λ qs. any_moves_on (drop (last_of qs + 1) entries) ≡ false) e
            (is_closed-still final entries found (fresh 0 entries k) h) in
        let place : last_of (p ∷ ps) + 1 - 0 ≡ last_of (p ∷ ps) + 1 = omega arith in
        last_of-last_key k 0 entries p ps e (rw place still)
  ]

  positions_of-more :
      (k : Bytes) (at : ℕ) (e : Entry V T) (es : List (Entry V T))
      → positions_of k (at + 1) es ≢ []
      → positions_of k at (e ∷ es) ≢ []
  positions_of-more k at e es h = elim (Bool-cases (is_wanted k (key_of e))) [
    | inl hit ↦ rw hit (λ e. absurd cc)
    | inr other ↦ rw other h
  ]

  positions_of-hit :
      (k : Bytes) (at : ℕ) (e : Entry V T) (es : List (Entry V T))
      → key_of e ≡ some k
      → positions_of k at (e ∷ es) ≢ []
  positions_of-hit k at e es h =
      let hit : is_wanted k (key_of e) ≡ true = rw h (bytes_eq_refl k) in rw hit (λ e. absurd cc)

  -- Each key is that of an entry.
  pub keys_from-some :
      (seen : List Bytes) (at : ℕ) (es : List (Entry V T))
      → All (λ k. positions_of k at es ≢ []) (keys_from seen es)
  keys_from-some seen at [] = tt
  keys_from-some seen at (e ∷ es) =
      All-next-any seen (key_of e) (λ seen. keys_from seen es)
        (λ seen.
          All-imp (keys_from seen es) (λ k. positions_of-more k at e es)
            (keys_from-some seen (at + 1) es))
        (λ k. positions_of-hit k at e es)

  module _ (final : Bool) (entries : List (Entry V T)) (found : Grouping) where
    closed_keys : List Bytes → List Group
    closed_keys ks = closed_of final entries found (map (fresh 0 entries) ks)

    -- All are closed that are not of the last key.
    others-closed :
        (last : Bytes) (ks : List Bytes)
        → last_key entries ≡ some last
        → All (λ k. positions_of k 0 entries ≢ []) ks
        → has ks last ≡ false
        → length ks ≤ length (closed_keys ks)
    unfolding closed_keys
    others-closed last [] h some_in apart = omega arith
    others-closed last (k ∷ ks) h some_in apart =
        let (differ, more) = has-cons k ks last apart in
        elim (Bool-cases (is_closed final entries found (fresh 0 entries k))) [
          | inl closed ↦ rw closed (omega (arith, others-closed last ks h some_in.1 more))
          | inr open_ ↦
              let same : k ≡ last =
                some-eq (sym (pending-last final entries found k some_in.0 open_) ∙ h) in
              let e = sym differ ∙ (ap (λ x. bytes_eq x last) same ∙ bytes_eq_refl last) in
              absurd cc
        ]

    closed-le :
        (ks : List Bytes)
        → Unique ks
        → All (λ k. positions_of k 0 entries ≢ []) ks
        → length ks ≤ length (closed_keys ks) + 1
    unfolding closed_keys
    closed-le [] u some_in = omega arith
    closed-le (k ∷ ks) u some_in =
        elim (Bool-cases (is_closed final entries found (fresh 0 entries k))) [
          | inl closed ↦ rw closed (omega (arith, closed-le ks u.1 some_in.1))
          | inr open_ ↦ rw open_ (
              omega (
                arith,
                others-closed k ks (pending-last final entries found k some_in.0 open_) some_in.1
                    u.0,
              ))
        ]

  -- At most one response of a window stays pending, whatever the lines are.
  pub plan-pending-le :
      (json : Json V) (sha : Sha256) (now : T) (input : PlanInput) (lines : List (ParsedLine V T))
      (start : ℕ)
      → (plan json sha now input lines start).pending_responses ≤ 1
  unfolding closed_keys
  plan-pending-le json sha now input lines start =
      let entries = entries_of lines in
      let found = grouping entries in
      let ks = keys_from [] entries in
      let (all, (cursor, count)) = plan-IsPlanned json sha now input lines start in
      let groups = grouping-groups entries in
      let le =
        closed-le input.final_mode entries found ks (keys_from-Unique [] entries)
          (keys_from-some [] 0 entries) in
      let closed = ap (λ gs. length (closed_of input.final_mode entries found gs)) groups in
      let total : length found.groups ≡ length ks =
        ap length groups ∙ length-map ks (fresh 0 entries) in
      let count' = rw length-map at count in omega (arith, count', le, closed, total)
