-- ===== src/Squash/Build/Equal.antt =====
-- What the comparisons of build decide.
use mathlib.Core.Bool.{false≢true}
use volute.Prelude.{◌≡◌, ◌≢◌, refl, ap₂, ◌∙◌, sym, subst, true, false, List, [], ◌∷◌, arith, ◌==◌}
use volute.Bytes.{Bytes, bytes_eq}
use volute.Bytes.Laws.{bytes_eq→≡, bytes_eq_refl}
use volute.Squash.{RangeMember, RangeEvidence, commit_oids}
use volute.Squash.Order.{texts_eq→≡, texts_eq_refl}
use volute.Squash.Build.{SquashError, SquashResult, ok, err, ◌>>=◌, range_eq}

commit_oids_inj : (xs ys : List RangeMember) → commit_oids xs ≡ commit_oids ys → xs ≡ ys
unfolding commit_oids
commit_oids_inj [] [] h = refl
commit_oids_inj [] (y ∷ ys) h = cc
commit_oids_inj (x ∷ xs) [] h = cc
commit_oids_inj (x ∷ xs) (y ∷ ys) h =
    let first : x.commit_oid ≡ y.commit_oid = cc in
    let rest : commit_oids xs ≡ commit_oids ys = cc in
    ap₂ (λ z zs. z ∷ zs) (λ i. record { commit_oid = first i }) (commit_oids_inj xs ys rest)

pub range_eq→≡ : (a b : RangeEvidence) → range_eq a b ≡ true → a ≡ b
unfolding range_eq
range_eq→≡ a b h =
    let range_id = bytes_eq→≡ a.range_id b.range_id (ground arith) in
    let format = bytes_eq→≡ a.format b.format (ground arith) in
    let repository_identity =
      bytes_eq→≡ a.repository_identity b.repository_identity (ground arith) in
    let object_format = bytes_eq→≡ a.object_format b.object_format (ground arith) in
    let base_oid = bytes_eq→≡ a.base_oid b.base_oid (ground arith) in
    let tip_oid = bytes_eq→≡ a.tip_oid b.tip_oid (ground arith) in
    let base_tree_oid = bytes_eq→≡ a.base_tree_oid b.base_tree_oid (ground arith) in
    let result_tree_oid = bytes_eq→≡ a.result_tree_oid b.result_tree_oid (ground arith) in
    let changeset_algorithm =
      bytes_eq→≡ a.changeset_algorithm b.changeset_algorithm (ground arith) in
    let changeset_digest = bytes_eq→≡ a.changeset_digest b.changeset_digest (ground arith) in
    let version : a.version ≡ b.version = ground arith in
    let oids = texts_eq→≡ (commit_oids a.commits) (commit_oids b.commits) (ground arith) in
    let commits = commit_oids_inj a.commits b.commits oids in
    λ i. record {
      range_id = range_id i;
      format = format i;
      version = version i;
      repository_identity = repository_identity i;
      object_format = object_format i;
      base_oid = base_oid i;
      tip_oid = tip_oid i;
      base_tree_oid = base_tree_oid i;
      result_tree_oid = result_tree_oid i;
      commits = commits i;
      changeset_algorithm = changeset_algorithm i;
      changeset_digest = changeset_digest i;
    }

pub range_eq_refl : (a : RangeEvidence) → range_eq a a ≡ true
unfolding range_eq
range_eq_refl a =
    let version : (a.version == a.version) ≡ true = ground arith in
    simp (bytes_eq_refl, texts_eq_refl, version)

pub range_differs : (a b : RangeEvidence) → range_eq a b ≡ false → a ≢ b
range_differs a b h e = false≢true (sym h ∙ subst (λ x. range_eq a x ≡ true) e (range_eq_refl a))

pub bytes_differ : (xs ys : Bytes) → bytes_eq xs ys ≡ false → xs ≢ ys
bytes_differ xs ys h e = false≢true (sym h ∙ subst (λ x. bytes_eq xs x ≡ true) e (bytes_eq_refl xs))

-- What holds of `r >>= f`, by whether `r` fails.
pub bind-cases {ℓ κ μ} :
    {A : Type ℓ} {B : Type κ} (r : SquashResult A) {f : A → SquashResult B}
    (P : SquashResult B → Type μ)
    → ((e : SquashError) → r ≡ err e → P (err e))
    → ((a : A) → r ≡ ok a → P (f a))
    → P (r >>= f)
bind-cases (ok a) P fails goes = goes a refl
bind-cases (err e) P fails goes = fails e refl
