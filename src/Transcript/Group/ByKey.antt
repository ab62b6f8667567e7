-- ===== src/Transcript/Group/ByKey.antt =====
-- The responses that the grouping finds are the assistant entries by their keys.
use volute.Prelude.{
  ℕ, ◌+◌, ◌≡◌, refl, ap, ap₂, ◌∙◌, sym, subst, true, false, Option, none, some, List, [], ◌∷◌, ◌++◌,
  map, append-nil, append_assoc, Bool-cases, inl, inr, All, All-imp, map-append,
}
use volute.Bytes.{Bytes, bytes_eq}
use volute.Bytes.Laws.{bytes_eq_refl, bytes_eq→≡}
use volute.Transcript.{Entry, Payload}
use volute.Transcript.Maps.{lookup}
use volute.Transcript.Group.{Group, Grouping, group_entry, group_user, group_from, grouping}
use volute.Transcript.Group.Index.{
  push_key, IsIndex, group_assistant-groups, group_assistant-IsIndex,
}
use volute.Transcript.Group.Keys.{
  has, Unique, key_of, is_wanted, next_keys, positions_of, keys_from, has-apart, has-cons,
  Unique-append, has-last, keys_from-All,
}

abbrev pub push_next : List Group → Option Bytes → ℕ → List Group
push_next gs none at = gs
push_next gs (some k) at = push_key gs k at

abbrev pub keys : List Group → List Bytes
keys gs = map (λ (g : Group). g.key) gs

has→All : (k : Bytes) (ks : List Bytes) → has ks k ≡ false → All (λ k'. bytes_eq k' k ≡ false) ks
has→All k [] h = tt
has→All k (k' ∷ ks) h = let (apart, more) = has-cons k' ks k h in (apart, has→All k ks more)

push_key-new :
    (gs : List Group) (k : Bytes) (at : ℕ)
    → has (keys gs) k ≡ false
    → push_key gs k at ≡ gs ++ record { key = k; positions = at ∷ [] } ∷ []
push_key-new [] k at h = refl
push_key-new (g ∷ gs) k at h =
    let (apart, more) = has-cons g.key (keys gs) k h in
    rw apart (ap (◌∷◌ g) (push_key-new gs k at more))

keys-push_key :
    (gs : List Group) (k : Bytes) (at : ℕ)
    → has (keys gs) k ≡ true
    → keys (push_key gs k at) ≡ keys gs
keys-push_key [] k at h = cc
keys-push_key (g ∷ gs) k at h = elim (Bool-cases (bytes_eq g.key k)) [
  | inl same ↦ rw same refl
  | inr apart ↦ rw apart (ap (◌∷◌ g.key) (keys-push_key gs k at (rw apart at h)))
]

module _ {V T : Type 0} where
  none_wanted :
      (e : Entry V T)
      → key_of e ≡ none
      → (ks : List Bytes) → All (λ k. is_wanted k (key_of e) ≡ false) ks
  none_wanted e h [] = tt
  none_wanted e h (k ∷ ks) = (rw h refl, none_wanted e h ks)

  push_keys : ℕ → List (Entry V T) → List Group → List Group
  push_keys at [] gs = gs
  push_keys at (e ∷ es) gs = push_keys (at + 1) es (push_next gs (key_of e) at)

  group_entry-groups :
      (s : Grouping) (at : ℕ) (e : Entry V T) (payload : Payload V)
      → e.payload ≡ payload
      → IsIndex s.group_index s.groups
      → ((group_entry s at e).groups ≡ push_next s.groups (key_of e) at)
        × IsIndex (group_entry s at e).group_index (group_entry s at e).groups
  unfolding group_entry key_of group_user
  group_entry-groups s at e (Payload.assistant message) h index =
      let now = group_assistant-groups s at e message index in
      rw (h, group_entry, key_of)
        (now, subst (IsIndex _) (sym now) (group_assistant-IsIndex s at e message index))
  group_entry-groups s at e (Payload.user message) h index =
      rw (h, group_entry, key_of) (refl, index)
  group_entry-groups s at e (Payload.other kind) h index = rw (h, group_entry, key_of) (refl, index)

  group_from-groups :
      (at : ℕ) (es : List (Entry V T)) (s : Grouping)
      → IsIndex s.group_index s.groups
      → (group_from at es s).groups ≡ push_keys at es s.groups
  unfolding group_from push_keys
  group_from-groups at [] s index = refl
  group_from-groups at (e ∷ es) s index =
      let (now, next) = group_entry-groups s at e e.payload refl index in
      group_from-groups (at + 1) es (group_entry s at e) next ∙ rw now refl

  -- The response of a key, and a response with what the entries add to it.
  abbrev pub fresh : ℕ → List (Entry V T) → Bytes → Group
  fresh at es k = record { key = k; positions = positions_of k at es }

  grown : ℕ → List (Entry V T) → Group → Group
  grown at es g = record { key = g.key; positions = g.positions ++ positions_of g.key at es }

  positions_of-skip :
      (at : ℕ) (e : Entry V T) (es : List (Entry V T)) (k : Bytes)
      → is_wanted k (key_of e) ≡ false
      → positions_of k at (e ∷ es) ≡ positions_of k (at + 1) es
  positions_of-skip at e es k h = rw h refl

  fresh-skip :
      (at : ℕ) (e : Entry V T) (es : List (Entry V T)) (ks : List Bytes)
      → All (λ k. is_wanted k (key_of e) ≡ false) ks
      → map (fresh (at + 1) es) ks ≡ map (fresh at (e ∷ es)) ks
  fresh-skip at e es [] h = refl
  fresh-skip at e es (k ∷ ks) h =
      rw (positions_of-skip at e es k h.0)
        (ap (◌∷◌ (fresh (at + 1) es k)) (fresh-skip at e es ks h.1))

  grown-skip :
      (at : ℕ) (e : Entry V T) (es : List (Entry V T)) (gs : List Group)
      → All (λ k. is_wanted k (key_of e) ≡ false) (keys gs)
      → map (grown (at + 1) es) gs ≡ map (grown at (e ∷ es)) gs
  unfolding grown
  grown-skip at e es [] h = refl
  grown-skip at e es (g ∷ gs) h =
      rw (positions_of-skip at e es g.key h.0)
        (ap (◌∷◌ (grown (at + 1) es g)) (grown-skip at e es gs h.1))

grown-nil : (V T : Type 0) (at : ℕ) (gs : List Group) → map (grown {V = V} {T = T} at []) gs ≡ gs
unfolding grown
grown-nil V T at [] = refl
grown-nil V T at (g ∷ gs) =
    let e : grown {V = V} {T = T} at [] g ≡ g =
      λ i. record { key = g.key; positions = append-nil g.positions i } in
    ap₂ (λ h hs. h ∷ hs) e (grown-nil V T at gs)

module _ {V T : Type 0} where
  -- The response of the entry's key, which is there, gets the position.
  grown-push :
      (at : ℕ) (e : Entry V T) (es : List (Entry V T)) (k : Bytes) (gs : List Group)
      → key_of e ≡ some k
      → Unique (keys gs)
      → has (keys gs) k ≡ true
      → map (grown (at + 1) es) (push_key gs k at) ≡ map (grown at (e ∷ es)) gs
  unfolding grown
  grown-push at e es k [] h u there = cc
  grown-push at e es k (g ∷ gs) h u there = elim (Bool-cases (bytes_eq g.key k)) [
    | inl here ↦
        let same = bytes_eq→≡ g.key k here in
        let apart = has→All k (keys gs) (rw (← same) (u.0)) in
        let hit : is_wanted g.key (key_of e) ≡ true = rw h here in
        let now : grown (at + 1) es (record { key = g.key; positions = g.positions ++ at ∷ [] })
            ≡ grown at (e ∷ es) g =
          rw (hit, append_assoc) refl in
        rw here (ap₂ (λ h hs. h ∷ hs) now (grown-skip at e es gs (rw h apart)))
    | inr later ↦
        let skip : is_wanted g.key (key_of e) ≡ false = rw h later in
        rw (later, positions_of-skip at e es g.key skip)
          (ap (◌∷◌ (grown (at + 1) es g)) (grown-push at e es k gs h u.1 (rw later at there)))
  ]

  -- At an entry with a key, or with none.
  closed-next :
      (at : ℕ) (e : Entry V T) (es : List (Entry V T)) (gs : List Group) (o : Option Bytes)
      → key_of e ≡ o
      → Unique (keys gs)
      → ((gs' : List Group)
          → Unique (keys gs')
          → push_keys (at + 1) es gs'
            ≡ map (grown (at + 1) es) gs' ++ map (fresh (at + 1) es) (keys_from (keys gs') es))
      → push_keys (at + 1) es (push_next gs o at)
        ≡ map (grown at (e ∷ es)) gs
          ++ map (fresh at (e ∷ es)) (next_keys (keys gs) o (λ seen. keys_from seen es))
  unfolding grown
  closed-next at e es gs none h u more =
      let skip : (ks : List Bytes) → All (λ k. is_wanted k (key_of e) ≡ false) ks =
        none_wanted e h in
      more gs u
      ∙ ap₂ (λ hs ks. hs ++ ks) (grown-skip at e es gs (skip (keys gs)))
          (fresh-skip at e es (keys_from (keys gs) es) (skip (keys_from (keys gs) es)))
  closed-next at e es gs (some k) h u more = elim (Bool-cases (has (keys gs) k)) [
    | inl there ↦
        let same = keys-push_key gs k at there in
        let skip : All (λ k'. is_wanted k' (key_of e) ≡ false) (keys_from (keys gs) es) = rw h (
          All-imp (keys_from (keys gs) es) (λ k' new. has-apart (keys gs) k k' there new)
            (keys_from-All (keys gs) es)) in
        rw there (
          more (push_key gs k at) (subst Unique (sym same) u)
          ∙ ap₂ (λ hs ks. hs ++ ks) (grown-push at e es k gs h u there)
              (rw same (fresh-skip at e es (keys_from (keys gs) es) skip)))
    | inr new ↦
        let one : Group = record { key = k; positions = at ∷ [] } in
        let ks : keys (gs ++ one ∷ []) ≡ keys gs ++ k ∷ [] =
          map-append (λ (g : Group). g.key) gs (one ∷ []) in
        let later = keys_from (keys gs ++ k ∷ []) es in
        let hit : is_wanted k (key_of e) ≡ true = rw h (bytes_eq_refl k) in
        let first : grown (at + 1) es one ≡ fresh at (e ∷ es) k = rw hit refl in
        let skip : All (λ k'. is_wanted k' (key_of e) ≡ false) later =
          rw h (All-imp later (has-last (keys gs) k) (keys_from-All (keys gs ++ k ∷ []) es)) in
        let before : All (λ k'. is_wanted k' (key_of e) ≡ false) (keys gs) =
          rw h (has→All k (keys gs) new) in
        rw (new, push_key-new gs k at new)
          (more (gs ++ one ∷ []) (subst Unique (sym ks) (Unique-append (keys gs) k u new))
            ∙ rw (ks, map-append (grown (at + 1) es) gs (one ∷ []), append_assoc)
                (ap₂ (λ hs ks. hs ++ ks) (grown-skip at e es gs before)
                  (ap₂ (λ h hs. h ∷ hs) first (fresh-skip at e es later skip))))
  ]

  push_keys-closed :
      (at : ℕ) (es : List (Entry V T)) (gs : List Group)
      → Unique (keys gs)
      → push_keys at es gs ≡ map (grown at es) gs ++ map (fresh at es) (keys_from (keys gs) es)
  unfolding push_keys
  push_keys-closed at [] gs u = sym (append-nil (map (grown at []) gs) ∙ grown-nil V T at gs)
  push_keys-closed at (e ∷ es) gs u =
      closed-next at e es gs (key_of e) refl u (λ gs' u'. push_keys-closed (at + 1) es gs' u')

  -- The responses are the keys of the assistant entries, each once and in the order in which they first
  -- appear, and each response holds the positions of all assistant entries of its key, ascending.
  pub grouping-groups :
      (entries : List (Entry V T))
      → (grouping entries).groups ≡ map (fresh 0 entries) (keys_from [] entries)
  unfolding grouping lookup
  grouping-groups entries =
      group_from-groups 0 entries _ (λ k. refl) ∙ push_keys-closed 0 entries [] tt
