-- ===== src/Privacy/Url/Stripped.antt =====
-- What is left of a push URL.
use volute.Prelude.{◌≡◌, ◌⊎◌, false, true, false, none, [], ◌∷◌, ◌++◌, ◌==◌, All}
use volute.Bytes.{Bytes, codes}
use volute.Bytes.Split.{NoStart}
use volute.Privacy.{Result, ok, err}
use volute.Privacy.Url.{
  is_transport_helper, has_url_scheme_separator, unlocatable_host, is_scheme, split_scheme_url,
  no_host,
}

-- What an authority ends at.
abbrev pub IsRest : Bytes → Type 0
IsRest [] = Unit
IsRest (b ∷ bs) = (b == b'/') ≡ true

-- A URL in the parts that libgit2 reads.
pub record IsUrl (url scheme authority rest : Bytes) : Type 0 where
  pub written : url ≡ scheme ++ (codes "://" ++ (authority ++ rest))
  pub scheme_valid : is_scheme scheme ≡ true
  pub no_slash : All (λ b. (b == b'/') ≡ false) authority
  pub rest_begins : IsRest rest

-- A transport-helper address, or a text without a scheme separator.
abbrev pub IsPlain : Bytes → Type 0
IsPlain url = (is_transport_helper url ≡ true) ⊎ (has_url_scheme_separator url ≡ false)

-- How a push URL is stripped, or refused; only one that is not plain is.
pub data Outcome (url : Bytes) : Result Bytes → Type 0 where
  not_url : IsPlain url → Outcome url (ok url)
  no_scheme : ¬ IsPlain url → split_scheme_url url ≡ none → Outcome url (err unlocatable_host)
  no_user :
      ¬ IsPlain url
      → (scheme authority rest : Bytes) → IsUrl url scheme authority rest
      → NoStart (codes "@") authority
      → Outcome url (ok url)
  user_removed :
      ¬ IsPlain url
      → (scheme user host rest : Bytes) → IsUrl url scheme (user ++ (codes "@" ++ host)) rest
      → NoStart (codes "@") host
      → no_host host ≡ false
      → Outcome url (ok (scheme ++ (codes "://" ++ (host ++ rest))))
  user_alone :
      ¬ IsPlain url
      → (scheme user host rest : Bytes) → IsUrl url scheme (user ++ (codes "@" ++ host)) rest
      → NoStart (codes "@") host
      → no_host host ≡ true
      → Outcome url (err unlocatable_host)
