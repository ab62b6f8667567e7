-- ===== src/Squash/Order.antt =====
-- The order of ids, and when two claims are equal.
use mathlib.Core.Bool.{false≢true}
use volute.Prelude.{
  ◌≡◌, refl, ap₂, ◌∙◌, sym, subst, true, false, List, [], ◌∷◌, arith, Bool-cases, inl, inr,
}
use volute.Bytes.{Bytes, bytes_eq}
use volute.Bytes.Laws.{bytes_eq→≡, bytes_eq_refl}
use volute.Derivation.{less}
use volute.Squash.{RangeClaim, texts_eq, claim_eq}

-- The order of ids is total, and transitive where one is not above the other.
pub less_total : (a b : Bytes) → less a b ≡ false → less b a ≡ false → a ≡ b
unfolding less
less_total [] [] h k = refl
less_total [] (y ∷ ys) h k = cc
less_total (x ∷ xs) [] h k = cc
less_total (x ∷ xs) (y ∷ ys) h k =
    let e : x ≡ y = ground arith in
    let hs : less xs ys ≡ false = ground arith in
    let ks : less ys xs ≡ false = ground arith in ap₂ (λ z zs. z ∷ zs) e (less_total xs ys hs ks)

pub not_less_trans : (a b c : Bytes) → less a b ≡ false → less b c ≡ false → less a c ≡ false
unfolding less
not_less_trans [] b [] h k = refl
not_less_trans (x ∷ xs) b [] h k = refl
not_less_trans a [] (z ∷ zs) h k = cc
not_less_trans [] (y ∷ ys) (z ∷ zs) h k = cc
not_less_trans (x ∷ xs) (y ∷ ys) (z ∷ zs) h k = elim (Bool-cases (less xs ys)) [
  | inl low ↦ ground arith
  | inr high ↦ elim (Bool-cases (less ys zs)) [
    | inl low' ↦ ground arith
    | inr high' ↦ let more = not_less_trans xs ys zs high high' in ground arith
  ]
]

pub less_asym : (a b : Bytes) → less a b ≡ true → less b a ≡ false
unfolding less
less_asym a [] h = cc
less_asym [] (y ∷ ys) h = refl
less_asym (x ∷ xs) (y ∷ ys) h = elim (Bool-cases (less xs ys)) [
  | inl low ↦ let more = less_asym xs ys low in ground arith
  | inr high ↦ ground arith
]

pub less_irrefl : (a : Bytes) → less a a ≡ false
unfolding less
less_irrefl [] = refl
less_irrefl (x ∷ xs) = let more = less_irrefl xs in ground arith

pub less_trans : (a b c : Bytes) → less a b ≡ true → less b c ≡ true → less a c ≡ true
less_trans a b c h k = elim (Bool-cases (less a c)) [
  | inl low ↦ low
  | inr high ↦ absurd (false≢true (sym (not_less_trans b a c (less_asym a b h) high) ∙ k))
]

pub less_other : (a b : Bytes) → bytes_eq a b ≡ false → less a b ≡ false → less b a ≡ true
less_other a b h k = elim (Bool-cases (less b a)) [
  | inl low ↦ low
  | inr high ↦
      let same = subst (λ x. bytes_eq a x ≡ true) (less_total a b k high) (bytes_eq_refl a) in
      absurd (false≢true (sym h ∙ same))
]

pub texts_eq→≡ : (xs ys : List Bytes) → texts_eq xs ys ≡ true → xs ≡ ys
unfolding texts_eq
texts_eq→≡ [] [] h = refl
texts_eq→≡ [] (y ∷ ys) h = cc
texts_eq→≡ (x ∷ xs) [] h = cc
texts_eq→≡ (x ∷ xs) (y ∷ ys) h =
    let first : bytes_eq x y ≡ true = ground arith in
    let rest : texts_eq xs ys ≡ true = ground arith in
    ap₂ (λ z zs. z ∷ zs) (bytes_eq→≡ x y first) (texts_eq→≡ xs ys rest)

pub texts_eq_refl : (xs : List Bytes) → texts_eq xs xs ≡ true
unfolding texts_eq
texts_eq_refl [] = refl
texts_eq_refl (x ∷ xs) = ground (arith, bytes_eq_refl x, texts_eq_refl xs)

pub claim_eq_refl : (c : RangeClaim) → claim_eq c c ≡ true
unfolding claim_eq
claim_eq_refl c = simp (bytes_eq_refl, texts_eq_refl)

pub claim_eq→≡ : (c d : RangeClaim) → claim_eq c d ≡ true → c ≡ d
unfolding claim_eq
claim_eq→≡ c d h =
    let h0 : bytes_eq c.object_format d.object_format ≡ true = ground arith in
    let h1 : bytes_eq c.base_oid d.base_oid ≡ true = ground arith in
    let h2 : bytes_eq c.tip_oid d.tip_oid ≡ true = ground arith in
    let h3 : bytes_eq c.base_tree_oid d.base_tree_oid ≡ true = ground arith in
    let h4 : bytes_eq c.result_tree_oid d.result_tree_oid ≡ true = ground arith in
    let h5 : bytes_eq c.changeset_algorithm d.changeset_algorithm ≡ true = ground arith in
    let h6 : bytes_eq c.changeset_digest d.changeset_digest ≡ true = ground arith in
    let h7 : texts_eq c.commits d.commits ≡ true = ground arith in
    λ i. record {
      object_format = bytes_eq→≡ _ _ h0 i;
      base_oid = bytes_eq→≡ _ _ h1 i;
      tip_oid = bytes_eq→≡ _ _ h2 i;
      base_tree_oid = bytes_eq→≡ _ _ h3 i;
      result_tree_oid = bytes_eq→≡ _ _ h4 i;
      changeset_algorithm = bytes_eq→≡ _ _ h5 i;
      changeset_digest = bytes_eq→≡ _ _ h6 i;
      commits = texts_eq→≡ _ _ h7 i;
    }
