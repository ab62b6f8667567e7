-- ===== src/Tree/Order/Keys.antt =====
-- The keys that conversations are ordered by: times and ids.
use volute.Prelude.{
  ℕ, ◌<◌, ◌≡◌, refl, ap, sym, subst, ◌⊎◌, inl, inr, true, false, List, [], ◌∷◌, arith, All, All-imp,
  Bool-cases, ltb,
}
use volute.Bytes.{Bytes}
use volute.Tree.{
  ℤ, pos, negsuc, leb_int, max_int, leb_bytes, leb_keys, ConversationSummary, summary_at, newest_of,
}

-- The first time is earlier.
abbrev pub IsEarlier : ℤ → ℤ → Type 0
IsEarlier (pos a) (pos b) = a < b
IsEarlier (pos a) (negsuc b) = ⊥
IsEarlier (negsuc a) (pos b) = Unit
IsEarlier (negsuc a) (negsuc b) = b < a

-- The first text is a prefix of the second, or has the smaller byte where they first differ.
abbrev pub IsAtMost : Bytes → Bytes → Type 0
IsAtMost [] ys = Unit
IsAtMost (x ∷ xs) [] = ⊥
IsAtMost (x ∷ xs) (y ∷ ys) = (x < y) ⊎ ((x ≡ y) × IsAtMost xs ys)

-- By time, and by id at one time.
abbrev pub ByKeys : ℤ → Bytes → ℤ → Bytes → Type 0
ByKeys s a t b = IsEarlier s t ⊎ ((s ≡ t) × IsAtMost a b)

leb_int-total : (a b : ℤ) → leb_int a b ≡ false → leb_int b a ≡ true
unfolding leb_int
leb_int-total (pos a) (pos b) h = ground arith
leb_int-total (pos a) (negsuc b) h = refl
leb_int-total (negsuc a) (pos b) h = cc
leb_int-total (negsuc a) (negsuc b) h = ground arith

leb_int_trans : (a b c : ℤ) → leb_int a b ≡ true → leb_int b c ≡ true → leb_int a c ≡ true
unfolding leb_int
leb_int_trans (pos a) (pos b) (pos c) h k = ground arith
leb_int_trans (pos a) (pos b) (negsuc c) h k = cc
leb_int_trans (pos a) (negsuc b) c h k = cc
leb_int_trans (negsuc a) b (pos c) h k = refl
leb_int_trans (negsuc a) (pos b) (negsuc c) h k = cc
leb_int_trans (negsuc a) (negsuc b) (negsuc c) h k = ground arith

leb_bytes-total : (x y : Bytes) → leb_bytes x y ≡ false → leb_bytes y x ≡ true
unfolding leb_bytes
leb_bytes-total [] y h = cc
leb_bytes-total (x ∷ xs) [] h = refl
leb_bytes-total (x ∷ xs) (y ∷ ys) h = elim (Bool-cases (leb_bytes xs ys)) [
  | inl le ↦ ground arith
  | inr gt ↦ let le = leb_bytes-total xs ys gt in ground arith
]

leb_bytes_trans :
    (x y z : Bytes) → leb_bytes x y ≡ true → leb_bytes y z ≡ true → leb_bytes x z ≡ true
unfolding leb_bytes
leb_bytes_trans [] y z h k = refl
leb_bytes_trans (x ∷ xs) [] z h k = cc
leb_bytes_trans (x ∷ xs) (y ∷ ys) [] h k = cc
leb_bytes_trans (x ∷ xs) (y ∷ ys) (z ∷ zs) h k = elim (Bool-cases (leb_bytes xs ys)) [
  | inl le ↦ elim (Bool-cases (leb_bytes ys zs)) [
    | inl le' ↦ let le'' = leb_bytes_trans xs ys zs le le' in ground arith
    | inr gt ↦ ground arith
  ]
  | inr gt ↦ ground arith
]

pub leb_keys-total : (a b : ℤ) (i j : Bytes) → leb_keys a i b j ≡ false → leb_keys b j a i ≡ true
unfolding leb_keys
leb_keys-total a b i j h =
    let times = leb_int-total a b in let ids = leb_bytes-total i j in ground arith

pub leb_keys_trans :
    (a b c : ℤ) (i j k : Bytes)
    → leb_keys a i b j ≡ true
    → leb_keys b j c k ≡ true
    → leb_keys a i c k ≡ true
unfolding leb_keys
leb_keys_trans a b c i j k h h' =
    let up = leb_int_trans a b c in
    let down = leb_int_trans c a b in
    let down' = leb_int_trans b c a in let ids = leb_bytes_trans i j k in ground arith

-- The later time first.
pub leb_keys-crossed :
    (a b c : ℤ) (i j k : Bytes)
    → leb_keys b i a j ≡ true
    → leb_keys c j b k ≡ true
    → leb_keys c i a k ≡ true
unfolding leb_keys
leb_keys-crossed a b c i j k h h' =
    let up = leb_int_trans c b a in
    let down = leb_int_trans a c b in
    let down' = leb_int_trans b a c in let ids = leb_bytes_trans i j k in ground arith

not_leb-IsEarlier : (a b : ℤ) → leb_int b a ≡ false → IsEarlier a b
unfolding leb_int
not_leb-IsEarlier (pos a) (pos b) h = ground arith
not_leb-IsEarlier (pos a) (negsuc b) h = cc
not_leb-IsEarlier (negsuc a) (pos b) h = tt
not_leb-IsEarlier (negsuc a) (negsuc b) h = ground arith

leb-not_IsEarlier : (a b : ℤ) → leb_int b a ≡ true → ¬ IsEarlier a b
unfolding leb_int
leb-not_IsEarlier (pos a) (pos b) h e = ground arith
leb-not_IsEarlier (pos a) (negsuc b) h e = e
leb-not_IsEarlier (negsuc a) (pos b) h e = cc
leb-not_IsEarlier (negsuc a) (negsuc b) h e = ground arith

leb_int_antisym : (a b : ℤ) → leb_int a b ≡ true → leb_int b a ≡ true → a ≡ b
unfolding leb_int
leb_int_antisym (pos a) (pos b) h k = let e : a ≡ b = ground arith in ap pos e
leb_int_antisym (pos a) (negsuc b) h k = cc
leb_int_antisym (negsuc a) (pos b) h k = cc
leb_int_antisym (negsuc a) (negsuc b) h k = let e : a ≡ b = ground arith in ap negsuc e

leb_bytes-IsAtMost : (xs ys : Bytes) → leb_bytes xs ys ≡ true → IsAtMost xs ys
unfolding leb_bytes
leb_bytes-IsAtMost [] ys h = tt
leb_bytes-IsAtMost (x ∷ xs) [] h = cc
leb_bytes-IsAtMost (x ∷ xs) (y ∷ ys) h = elim (Bool-cases (leb_bytes xs ys)) [
  | inl le ↦ elim (Bool-cases (ltb x y)) [
    | inl less ↦ inl (ground arith)
    | inr more ↦ inr (ground arith, leb_bytes-IsAtMost xs ys le)
  ]
  | inr gt ↦ inl (ground arith)
]

pub leb_keys-ByKeys : (s t : ℤ) (a b : Bytes) → leb_keys s a t b ≡ true → ByKeys s a t b
unfolding leb_keys
leb_keys-ByKeys s t a b h = elim (Bool-cases (leb_int t s)) [
  | inl back ↦
      let forth : leb_int s t ≡ true = ground arith in
      let ids : leb_bytes a b ≡ true = ground arith in
      inr (leb_int_antisym s t forth back, leb_bytes-IsAtMost a b ids)
  | inr later ↦ inl (not_leb-IsEarlier s t later)
]

leb_int_refl : (a : ℤ) → leb_int a a ≡ true
unfolding leb_int
leb_int_refl (pos a) = ground arith
leb_int_refl (negsuc a) = ground arith

leb-max_left : (a b : ℤ) → leb_int a (max_int a b) ≡ true
unfolding max_int
leb-max_left a b = elim (Bool-cases (leb_int a b)) [
  | inl le ↦ rw le le
  | inr gt ↦ rw gt (leb_int_refl a)
]

leb-max_right : (a b : ℤ) → leb_int b (max_int a b) ≡ true
unfolding max_int
leb-max_right a b = elim (Bool-cases (leb_int a b)) [
  | inl le ↦ rw le (leb_int_refl b)
  | inr gt ↦ rw gt (leb_int-total a b gt)
]

module _ (listed : List ConversationSummary) where
  -- A conversation's last activity.
  abbrev pub last_of : ℕ → ℤ
  last_of i = (summary_at listed i).last_activity

  -- The time is the last activity of the conversation or of one of its agents.
  abbrev pub IsOneOf : ℤ → List ℕ → ℕ → Type 0
  IsOneOf time [] top = time ≡ last_of top
  IsOneOf time (c ∷ cs) top = (time ≡ last_of c) ⊎ IsOneOf time cs top

  -- The latest activity of a conversation and its agents.
  pub record IsNewest (agents : List ℕ) (top : ℕ) (time : ℤ) : Type 0 where
    pub own : ¬ IsEarlier time (last_of top)
    pub theirs : All (λ c. ¬ IsEarlier time (last_of c)) agents
    pub is_one : IsOneOf time agents top

  newest_of-own : (cs : List ℕ) (top : ℕ) → leb_int (last_of top) (newest_of listed cs top) ≡ true
  unfolding newest_of
  newest_of-own [] top = leb_int_refl (last_of top)
  newest_of-own (c ∷ cs) top =
      leb_int_trans (last_of top) (newest_of listed cs top) _ (newest_of-own cs top)
        (leb-max_right (last_of c) (newest_of listed cs top))

  newest_of-theirs :
      (cs : List ℕ) (top : ℕ) → All (λ c. leb_int (last_of c) (newest_of listed cs top) ≡ true) cs
  unfolding newest_of
  newest_of-theirs [] top = tt
  newest_of-theirs (c ∷ cs) top =
      let rest = newest_of listed cs top in
      (
        leb-max_left (last_of c) rest,
        All-imp cs (λ d le. leb_int_trans (last_of d) rest _ le (leb-max_right (last_of c) rest))
            (newest_of-theirs cs top),
      )

  newest_of-IsOneOf : (cs : List ℕ) (top : ℕ) → IsOneOf (newest_of listed cs top) cs top
  unfolding newest_of max_int
  newest_of-IsOneOf [] top = refl
  newest_of-IsOneOf (c ∷ cs) top =
      elim (Bool-cases (leb_int (last_of c) (newest_of listed cs top))) [
        | inl le ↦
            let step : newest_of listed (c ∷ cs) top ≡ newest_of listed cs top = rw le refl in
            subst (λ t. IsOneOf t (c ∷ cs) top) (sym step) (inr (newest_of-IsOneOf cs top))
        | inr gt ↦ inl (rw gt refl)
      ]

  pub newest_of-IsNewest : (cs : List ℕ) (top : ℕ) → IsNewest cs top (newest_of listed cs top)
  newest_of-IsNewest cs top = record {
    own = leb-not_IsEarlier _ _ (newest_of-own cs top);
    theirs = All-imp cs (λ c. leb-not_IsEarlier _ (last_of c)) (newest_of-theirs cs top);
    is_one = newest_of-IsOneOf cs top;
  }
