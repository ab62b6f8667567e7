-- ===== src/Derivation/Names.antt =====
-- The names of relations, evidence and origins, and numbers in decimal, tell what they name.
use volute.Prelude.{
  ℕ, zero, suc, ◌+◌, ◌-◌, ◌*◌, ◌/◌, ◌%◌, ◌<◌, ◌≡◌, refl, sym, ap, ◌∙◌, [], ◌∷◌, ◌++◌, get_or,
  length, ltb, ◌==◌, if◌then◌else◌, arith, Bool-cases, inl, inr,
}
use volute.Bytes.{Bytes, decimal, decimal_rounds, parse_digits}
use volute.Derivation.{
  DerivationRelation, generated, temporal, verified, rewrite_exact, squash_exact, EvidenceKind,
  locally_observed, imported_legacy, remote_assertion, DerivationOrigin, local_hook, local_linker,
  remote_origin, legacy_import, relation_name, evidence_name, origin_name,
}

-- By the first letter.
relation_of : ℕ → DerivationRelation
relation_of c =
    if c == b'g'
    then generated
    else if c == b't'
    then temporal
    else if c == b'v'
    then verified
    else if c == b'r'
    then rewrite_exact
    else squash_exact

relation_of-name : (r : DerivationRelation) → relation_of (get_or (relation_name r) 0 0) ≡ r
unfolding relation_of relation_name
relation_of-name generated = refl
relation_of-name temporal = refl
relation_of-name verified = refl
relation_of-name rewrite_exact = refl
relation_of-name squash_exact = refl

pub relation_name_inj : (r s : DerivationRelation) → relation_name r ≡ relation_name s → r ≡ s
relation_name_inj r s e =
    sym (relation_of-name r)
    ∙ (ap (λ (xs : Bytes). relation_of (get_or xs 0 0)) e ∙ relation_of-name s)

evidence_of : ℕ → EvidenceKind
evidence_of c =
    if c == b'l' then locally_observed else if c == b'i' then imported_legacy else remote_assertion

evidence_of-name : (k : EvidenceKind) → evidence_of (get_or (evidence_name k) 0 0) ≡ k
unfolding evidence_of evidence_name
evidence_of-name locally_observed = refl
evidence_of-name imported_legacy = refl
evidence_of-name remote_assertion = refl

pub evidence_name_inj : (k l : EvidenceKind) → evidence_name k ≡ evidence_name l → k ≡ l
evidence_name_inj k l e =
    sym (evidence_of-name k)
    ∙ (ap (λ (xs : Bytes). evidence_of (get_or xs 0 0)) e ∙ evidence_of-name l)

-- By the length.
origin_of : ℕ → DerivationOrigin
origin_of n =
    if n == 10
    then local_hook
    else if n == 12
    then local_linker
    else if n == 16
    then remote_origin
    else legacy_import

origin_of-name : (o : DerivationOrigin) → origin_of (length (origin_name o)) ≡ o
unfolding origin_of origin_name
origin_of-name local_hook = refl
origin_of-name local_linker = refl
origin_of-name remote_origin = refl
origin_of-name legacy_import = refl

pub origin_name_inj : (o p : DerivationOrigin) → origin_name o ≡ origin_name p → o ≡ p
origin_name_inj o p e =
    sym (origin_of-name o) ∙ (ap (λ (xs : Bytes). origin_of (length xs)) e ∙ origin_of-name p)

parse_digits-append :
    (n d : ℕ) (xs : Bytes) → parse_digits n (xs ++ d ∷ []) ≡ parse_digits n xs * 10 + (d - b'0')
unfolding parse_digits
parse_digits-append n d [] = refl
parse_digits-append n d (x ∷ xs) = parse_digits-append (n * 10 + (x - b'0')) d xs

parse_digits-decimal_rounds :
    (rounds n : ℕ) → n < rounds → parse_digits 0 (decimal_rounds rounds n) ≡ n
unfolding decimal_rounds parse_digits
parse_digits-decimal_rounds zero n h = absurd (omega arith)
parse_digits-decimal_rounds (suc rounds) n h = elim (Bool-cases (ltb n 10)) [
  | inl small ↦ ground arith
  | inr large ↦
      let front = decimal_rounds rounds (n / 10) in
      let value = parse_digits-decimal_rounds rounds (n / 10) (ground arith) in
      rw large (omega (arith, parse_digits-append 0 (b'0' + n % 10) front, value))
]

pub decimal_inj : (n m : ℕ) → decimal n ≡ decimal m → n ≡ m
unfolding decimal
decimal_inj n m e =
    sym (parse_digits-decimal_rounds (suc n) n (omega arith))
    ∙ (ap (parse_digits 0) e ∙ parse_digits-decimal_rounds (suc m) m (omega arith))
