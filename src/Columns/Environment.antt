-- ===== src/Columns/Environment.antt =====
-- cvc-cli/src/tui/text.rs: the glyphs that the view draws with, and what the environment says of them.
use volute.Prelude.{
  ℕ, ◌+◌, ◌≡◌, ap, Bool, true, false, not, ◌&&◌, ◌||◌, Option, none, some, List, [], ◌∷◌, ◌++◌,
  ◌==◌, if◌then◌else◌, All, arith,
}
use volute.Bytes.{codes, bytes_eq}
use volute.Terminal.{Text, within}

pub record Glyphs : Type 0 where
  pub unicode : Bool

unfoldable pub pick : Glyphs → Text → Text → Text
pick glyphs unicode ascii = if glyphs.unicode then unicode else ascii

module _ (glyphs : Glyphs) where
  unfoldable pub collapsed : Text
  unfolding pick
  collapsed = pick glyphs (0x25b8 ∷ []) (codes ">")

  unfoldable pub expanded : Text
  unfolding pick
  expanded = pick glyphs (0x25be ∷ []) (codes "v")

  unfoldable pub child : Text
  unfolding pick
  child = pick glyphs (0x2514 ∷ 0x2500 ∷ []) (codes "`-")

  unfoldable pub dot : Text
  unfolding pick
  dot = pick glyphs (0xb7 ∷ []) (codes "-")

  unfoldable pub ellipsis : Text
  unfolding pick
  ellipsis = pick glyphs (0x2026 ∷ []) (codes "...")

  unfoldable pub rule : Text
  unfolding pick
  rule = pick glyphs (0x2500 ∷ []) (codes "-")

  unfoldable pub dash : Text
  unfolding pick
  dash = pick glyphs (0x2013 ∷ []) (codes "-")

  unfoldable pub up_down : Text
  unfolding pick
  up_down = pick glyphs (0x2191 ∷ 0x2193 ∷ []) (codes "up/down")

  unfoldable pub left_right : Text
  unfolding pick
  left_right = pick glyphs (0x2190 ∷ 0x2192 ∷ []) (codes "left/right")

  unfoldable pub right : Text
  unfolding pick
  right = pick glyphs (0x2192 ∷ []) (codes "->")

  unfoldable pub private : Text
  unfolding pick
  private = pick glyphs (0x25cb ∷ []) (codes "o")

  unfoldable pub waiting : Text
  unfolding pick
  waiting = pick glyphs (0x25d0 ∷ []) (codes "~")

  unfoldable pub published : Text
  unfolding pick
  published = pick glyphs (0x25cf ∷ []) (codes "*")

  unfoldable pub unconfirmed : Text
  unfolding pick
  unconfirmed = pick glyphs (codes "?") (codes "?")

-- `text.split(c).next()`: what precedes the first `c`.
unfoldable pub up_to : ℕ → Text → Text
up_to c [] = []
up_to c (x ∷ xs) = if x == c then [] else x ∷ up_to c xs

-- What follows the first `c`, as `text.split_once(c)` gives it.
unfoldable pub after_first : ℕ → Text → Option Text
after_first c [] = none
after_first c (x ∷ xs) = if x == c then some xs else after_first c xs

-- `c.to_ascii_lowercase()`
unfoldable pub to_ascii_lowercase : ℕ → ℕ
to_ascii_lowercase c = if within b'A' b'Z' c then c + 32 else c

-- A codeset without hyphens and underscores, in lower case.
unfoldable pub plain_codeset : Text → Text
unfolding to_ascii_lowercase
plain_codeset [] = []
plain_codeset (c ∷ cs) =
    if c == b'-' || (c == b'_') then plain_codeset cs else to_ascii_lowercase c ∷ plain_codeset cs

unfoldable pub names_utf8 : Text → Option Text → Bool
unfolding plain_codeset bytes_eq
names_utf8 name (some codeset) = bytes_eq (plain_codeset codeset) (codes "utf8")
names_utf8 name none =
    not (bytes_eq name [] || (bytes_eq name (codes "C") || bytes_eq name (codes "POSIX")))

unfoldable pub codeset_is_utf8 : Text → Bool
unfolding up_to after_first names_utf8
codeset_is_utf8 locale = let name = up_to b'@' locale in names_utf8 name (after_first b'.' name)

-- Whether the first of the names that is set and not empty names UTF-8.
unfoldable pub first_is_utf8 : (Text → Option Text) → List Text → Bool
unfolding codeset_is_utf8
first_is_utf8 lookup [] = false
first_is_utf8 lookup (name ∷ names) = elim (lookup name) [
  | none ↦ first_is_utf8 lookup names
  | some value ↦ if bytes_eq value [] then first_is_utf8 lookup names else codeset_is_utf8 value
]

unfoldable pub locale_is_utf8 : (Text → Option Text) → Bool
unfolding first_is_utf8
locale_is_utf8 lookup = first_is_utf8 lookup (codes "LC_ALL" ∷ codes "LC_CTYPE" ∷ codes "LANG" ∷ [])

pub record Environment : Type 0 where
  pub glyphs : Glyphs
  pub color : Bool

unfoldable pub is_linux : Option Text → Bool
is_linux none = false
is_linux (some term) = bytes_eq term (codes "linux")

-- `is_none_or(|value| value.is_empty())`
unfoldable pub none_or_empty : Option Text → Bool
none_or_empty none = true
none_or_empty (some value) = bytes_eq value []

unfoldable pub from_lookup : (Text → Option Text) → Environment
unfolding is_linux locale_is_utf8 none_or_empty
from_lookup lookup = record {
  glyphs = record { unicode = not (is_linux (lookup (codes "TERM"))) && locale_is_utf8 lookup };
  color = none_or_empty (lookup (codes "NO_COLOR"));
}

-- A text without a character.
abbrev pub Without : ℕ → Text → Type 0
Without c text = All (λ x. (x == c) ≡ false) text

up_to-append : (c : ℕ) (xs ys : Text) → Without c xs → up_to c (xs ++ (c ∷ ys)) ≡ xs
unfolding up_to
up_to-append c [] ys h = let here : (c == c) ≡ true = ground arith in rw here
up_to-append c (x ∷ xs) ys h = rw (h.0) (ap (◌∷◌ x) (up_to-append c xs ys h.1))

after_first-append :
    (c : ℕ) (xs ys : Text) → Without c xs → after_first c (xs ++ (c ∷ ys)) ≡ some ys
unfolding after_first
after_first-append c [] ys h = let here : (c == c) ≡ true = ground arith in rw here
after_first-append c (x ∷ xs) ys h = rw (h.0) (after_first-append c xs ys h.1)

-- A locale of a language without a dot or an at sign, a dot, a codeset without an at sign, an at sign
-- and any modifier is UTF-8 exactly where the codeset, without hyphens and underscores and in lower
-- case, is `utf8`: neither the language nor the modifier counts.
codeset_is_utf8-append :
    (language codeset modifier : Text)
    → Without b'.' language
    → Without b'@' (language ++ (b'.' ∷ codeset))
    → codeset_is_utf8 (language ++ (b'.' ∷ codeset) ++ (b'@' ∷ modifier))
      ≡ bytes_eq (plain_codeset codeset) (codes "utf8")
unfolding codeset_is_utf8 names_utf8
codeset_is_utf8-append language codeset modifier no_dot no_at = rw (
  up_to-append b'@' (language ++ (b'.' ∷ codeset)) modifier no_at,
  after_first-append b'.' language codeset no_dot,
)
