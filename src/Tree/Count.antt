-- ===== src/Tree/Count.antt =====
-- How often a position stands in the lists of the tree.
use volute.Prelude.{
  ℕ, zero, suc, ◌+◌, ◌≤◌, ◌<◌, ◌≡◌, refl, ap, ◌∙◌, Bool, true, false, Option, none, some, List, [],
  ◌∷◌, ◌++◌, ◌==◌, if◌then◌else◌, length, length-set, get_or, set, arith, All, Bool-cases, inl, inr,
}
use volute.Tree.{insert_by, sort_by, sort_all, push_children, tops_from}

abbrev pub one_if : Bool → ℕ
one_if b = if b then 1 else 0

abbrev pub count : ℕ → List ℕ → ℕ
count i [] = 0
count i (x ∷ xs) = one_if (x == i) + count i xs

-- Whether a position is the parent.
abbrev pub points_to : Option ℕ → ℕ → Bool
points_to none p = false
points_to (some q) p = q == p

abbrev pub is_none : Option ℕ → Bool
is_none none = true
is_none (some q) = false

pub count-append : (i : ℕ) (xs ys : List ℕ) → count i (xs ++ ys) ≡ count i xs + count i ys
count-append i [] ys = omega arith
count-append i (x ∷ xs) ys = omega (arith, count-append i xs ys)

count-insert_by :
    (le : ℕ → ℕ → Bool) (i x : ℕ) (xs : List ℕ)
    → count i (insert_by le x xs) ≡ one_if (x == i) + count i xs
unfolding insert_by
count-insert_by le i x [] = refl
count-insert_by le i x (y ∷ ys) = elim (Bool-cases (le x y)) [
  | inl first ↦ rw first refl
  | inr later ↦ rw later (omega (arith, count-insert_by le i x ys))
]

pub count-sort_by : (le : ℕ → ℕ → Bool) (i : ℕ) (xs : List ℕ) → count i (sort_by le xs) ≡ count i xs
unfolding sort_by
count-sort_by le i [] = refl
count-sort_by le i (x ∷ xs) =
    omega (arith, count-insert_by le i x (sort_by le xs), count-sort_by le i xs)

module _ {ℓ} (P : ℕ → Type ℓ) (le : ℕ → ℕ → Bool) where
  insert_by-All : (x : ℕ) (xs : List ℕ) → P x → All P xs → All P (insert_by le x xs)
  unfolding insert_by
  insert_by-All x [] h hs = (h, tt)
  insert_by-All x (y ∷ ys) h hs = elim (Bool-cases (le x y)) [
    | inl first ↦ rw first (h, hs)
    | inr later ↦ rw later (hs.0, insert_by-All x ys h hs.1)
  ]

  pub sort_by-All : (xs : List ℕ) → All P xs → All P (sort_by le xs)
  unfolding sort_by
  sort_by-All [] h = tt
  sort_by-All (x ∷ xs) h = insert_by-All x (sort_by le xs) h.0 (sort_by-All xs h.1)

pub get_or-sort_all :
    (le : ℕ → ℕ → Bool) (xss : List (List ℕ)) (p : ℕ)
    → get_or (sort_all le xss) p [] ≡ sort_by le (get_or xss p [])
unfolding sort_all sort_by
get_or-sort_all le [] p = refl
get_or-sort_all le (xs ∷ xss) zero = refl
get_or-sort_all le (xs ∷ xss) (suc p) = get_or-sort_all le xss p

get_or-set :
    (xss : List (List ℕ)) (q p : ℕ) (xs : List ℕ)
    → p < length xss
    → get_or (set xss q xs) p [] ≡ (if q == p then xs else get_or xss p [])
get_or-set [] q p xs h = absurd (omega arith)
get_or-set (y ∷ ys) zero zero xs h = refl
get_or-set (y ∷ ys) zero (suc p) xs h = let off : (0 == suc p) ≡ false = ground arith in rw off
get_or-set (y ∷ ys) (suc q) zero xs h = let off : (suc q == 0) ≡ false = ground arith in rw off
get_or-set (y ∷ ys) (suc q) (suc p) xs h =
    let shift : (suc q == suc p) ≡ (q == p) = ground arith in
    rw shift (get_or-set ys q p xs (omega arith))

-- The place of a position in the list of those from `at` on.
abbrev pub parent_at : ℕ → List (Option ℕ) → ℕ → Option ℕ
parent_at at [] i = none
parent_at at (o ∷ os) i = if at == i then o else parent_at (at + 1) os i

pub parent_at-before :
    (at : ℕ) (parents : List (Option ℕ)) (i : ℕ) → i < at → parent_at at parents i ≡ none
parent_at-before at [] i h = refl
parent_at-before at (o ∷ os) i h =
    let off : (at == i) ≡ false = ground arith in
    rw off (parent_at-before (at + 1) os i (omega arith))

pub parent_at-get_or :
    (at : ℕ) (parents : List (Option ℕ)) (i : ℕ)
    → parent_at at parents (at + i) ≡ get_or parents i none
parent_at-get_or at [] i = refl
parent_at-get_or at (o ∷ os) zero = let here : (at == at + 0) ≡ true = ground arith in rw here
parent_at-get_or at (o ∷ os) (suc i) =
    let off : (at == at + suc i) ≡ false = ground arith in
    let shift : at + suc i ≡ at + 1 + i = omega arith in
    rw (off, shift) (parent_at-get_or (at + 1) os i)

count-pushed :
    (children : List (List ℕ)) (q at i p : ℕ)
    → p < length children
    → count i (get_or (set children q (get_or children q [] ++ (at ∷ []))) p [])
      ≡ count i (get_or children p []) + (if q == p then one_if (at == i) else 0)
count-pushed children q at i p h =
    let list = get_or children q [] ++ (at ∷ []) in
    let now = ap (count i) (get_or-set children q p list h) in
    elim (Bool-cases (q == p)) [
      | inl same ↦
          let e : q ≡ p = ground arith in
          rw same at now
          ∙ rw (same, e) (count-append i (get_or children p []) (at ∷ []) ∙ omega arith)
      | inr other ↦ rw other at now ∙ rw other (omega arith)
    ]

-- A position is pushed once, on its parent's list.
pub count-push_children :
    (at : ℕ) (parents : List (Option ℕ)) (children : List (List ℕ)) (i p : ℕ)
    → p < length children
    → count i (get_or (push_children at parents children) p [])
      ≡ count i (get_or children p []) + one_if (points_to (parent_at at parents i) p)
unfolding push_children
count-push_children at [] children i p h = omega arith
count-push_children at (none ∷ os) children i p h =
    let more = count-push_children (at + 1) os children i p h in
    elim (Bool-cases (at == i)) [
      | inl here ↦ rw here (more ∙ rw (parent_at-before (at + 1) os i (ground arith)))
      | inr other ↦ rw other more
    ]
count-push_children at (some q ∷ os) children i p h =
    let pushed = set children q (get_or children q [] ++ (at ∷ [])) in
    let more =
      count-push_children (at + 1) os pushed i p
        (omega (arith, length-set children q (get_or children q [] ++ (at ∷ [])))) in
    let now = count-pushed children q at i p h in
    elim (Bool-cases (at == i)) [
      | inl here ↦
          let last : parent_at (at + 1) os i ≡ none =
            parent_at-before (at + 1) os i (ground arith) in
          let pushed_here = rw here at now in rw here (more ∙ rw last (omega (arith, pushed_here)))
      | inr other ↦
          let pushed_other = rw other at now in
          let nothing : if◌then◌else◌ {A = ℕ} (q == p) 0 0 ≡ 0 = ground arith in
          rw other (more ∙ omega (arith, pushed_other, nothing))
    ]

count-tops_from-before :
    (at : ℕ) (parents : List (Option ℕ)) (i : ℕ) → i < at → count i (tops_from at parents) ≡ 0
unfolding tops_from
count-tops_from-before at [] i h = refl
count-tops_from-before at (none ∷ os) i h =
    let off : (at == i) ≡ false = ground arith in
    rw off (omega (arith, count-tops_from-before (at + 1) os i (omega arith)))
count-tops_from-before at (some q ∷ os) i h = count-tops_from-before (at + 1) os i (omega arith)

-- A position stands once among the tops, if it has no parent.
pub count-tops_from :
    (at : ℕ) (parents : List (Option ℕ)) (i : ℕ)
    → at ≤ i
    → i < at + length parents
    → count i (tops_from at parents) ≡ one_if (is_none (parent_at at parents i))
unfolding tops_from
count-tops_from at [] i h k = absurd (omega arith)
count-tops_from at (none ∷ os) i h k = elim (Bool-cases (at == i)) [
  | inl here ↦ rw here (omega (arith, count-tops_from-before (at + 1) os i (ground arith)))
  | inr other ↦ rw other (omega (arith, count-tops_from (at + 1) os i (ground arith) (omega arith)))
]
count-tops_from at (some q ∷ os) i h k = elim (Bool-cases (at == i)) [
  | inl here ↦ rw here (count-tops_from-before (at + 1) os i (ground arith))
  | inr other ↦ rw other (count-tops_from (at + 1) os i (ground arith) (omega arith))
]
