-- ===== src/Privacy/Url.antt =====
-- cvc-core/src/privacy.rs: the push URL without its user information, and what a fingerprint is.
pub mod Stripped
use volute.Prelude.{
  ℕ, zero, suc, ◌+◌, ◌-◌, Bool, true, false, not, ◌&&◌, ◌||◌, Option, none, some, List, [], ◌∷◌,
  ◌++◌, leb, ◌==◌, if◌then◌else◌, length, take, drop, ◌>>=◌,
}
use volute.Bytes.{Bytes, codes, all, count_while, starts_with, split_once, rsplit_once}
use volute.Privacy.{Result, ok, err, PrivacyError, remote}

-- `byte.is_ascii_alphanumeric()`
unfoldable pub is_alphanumeric : ℕ → Bool
is_alphanumeric b =
    (leb b'0' b && leb b b'9') || ((leb b'A' b && leb b b'Z') || (leb b'a' b && leb b b'z'))

-- `byte.is_ascii_hexdigit()`
unfoldable pub is_hexdigit : ℕ → Bool
is_hexdigit b =
    (leb b'0' b && leb b b'9') || ((leb b'A' b && leb b b'F') || (leb b'a' b && leb b b'f'))

unfoldable pub is_destination_fingerprint : Bytes → Bool
unfolding all is_hexdigit
is_destination_fingerprint value = (length value == 64) && all is_hexdigit value

unfoldable pub unlocatable_host : PrivacyError
unlocatable_host = remote (codes "remote push URL has no host that can be located")

unfoldable pub is_scheme_byte : ℕ → Bool
unfolding is_alphanumeric
is_scheme_byte b = is_alphanumeric b || (b == b'+' || (b == b'-' || b == b'.'))

-- The scheme characters that open a text, the first of them a letter or a digit.
unfoldable pub helper_length : Bytes → ℕ
unfolding is_alphanumeric count_while is_scheme_byte
helper_length [] = 0
helper_length (b ∷ bs) = if is_alphanumeric b then suc (count_while is_scheme_byte bs) else 0

unfoldable pub is_transport_helper : Bytes → Bool
unfolding helper_length starts_with
is_transport_helper url = starts_with (codes "::") (drop (helper_length url) url)

unfoldable pub has_url_scheme_separator : Bytes → Bool
unfolding count_while is_scheme_byte starts_with
has_url_scheme_separator url = starts_with (codes "://") (drop (count_while is_scheme_byte url) url)

-- `after.find('/').unwrap_or(after.len())`
unfoldable pub find_slash : Bytes → ℕ
find_slash [] = 0
find_slash (b ∷ bs) = if b == b'/' then 0 else suc (find_slash bs)

unfoldable pub is_scheme : Bytes → Bool
unfolding all is_scheme_byte
is_scheme [] = false
is_scheme (b ∷ bs) = all is_scheme_byte (b ∷ bs)

unfoldable pub split_scheme_url : Bytes → Option (Bytes × Bytes × Bytes)
unfolding split_once is_scheme find_slash
split_scheme_url url = do
  (scheme, after) ← split_once (codes "://") url
  let end = find_slash after
  if is_scheme scheme then some (scheme, take end after, drop end after) else none

-- `host_port.is_empty() || host_port.starts_with(':')`
unfoldable pub no_host : Bytes → Bool
no_host [] = true
no_host (b ∷ bs) = b == b':'

unfoldable pub strip_split : Bytes → Option (Bytes × Bytes × Bytes) → Result Bytes
unfolding rsplit_once no_host unlocatable_host
strip_split url none = err unlocatable_host
strip_split url (some (scheme, authority, rest)) = elim (rsplit_once (codes "@") authority) [
  | none ↦ ok url
  | some found ↦
      if no_host found.1
      then err unlocatable_host
      else ok (scheme ++ (codes "://" ++ (found.1 ++ rest)))
]

unfoldable pub url_without_userinfo : Bytes → Result Bytes
unfolding is_transport_helper has_url_scheme_separator split_scheme_url strip_split
url_without_userinfo url =
    if is_transport_helper url || not (has_url_scheme_separator url)
    then ok url
    else strip_split url (split_scheme_url url)
