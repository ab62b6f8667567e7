-- ===== src/Terminal.antt =====
-- cvc-cli/src/terminal_text.rs: what text may reach a terminal as itself. A text is the list of its
-- characters, each the number of its Unicode scalar value, and offsets count characters.
pub mod Safe
pub mod Find
pub mod Userinfo
mod Tests
use volute.Prelude.{
  ℕ, zero, suc, ◌+◌, ◌-◌, Bool, true, false, not, ◌&&◌, ◌||◌, Option, none, some, List, [], ◌∷◌,
  ◌++◌, map, leb, ◌==◌, if◌then◌else◌, length, take, drop,
}
use volute.Bytes.{codes, starts_with}

abbrev pub Text : Type 0
Text = List ℕ

-- `low..=high`
abbrev pub within : ℕ → ℕ → ℕ → Bool
within low high c = leb low c && leb c high

-- `char::is_control`, the general category Cc.
unfoldable pub is_control : ℕ → Bool
is_control c = within 0 0x1f c || within 0x7f 0x9f c

-- `char::is_whitespace`, the property White_Space.
unfoldable pub is_whitespace : ℕ → Bool
is_whitespace c =
    within 9 13 c
    || (c == 32)
    || (c == 0x85)
    || (c == 0xa0)
    || (c == 0x1680)
    || within 0x2000 0x200a c
    || within 0x2028 0x2029 c
    || (c == 0x202f)
    || (c == 0x205f)
    || (c == 0x3000)

unfoldable pub is_format : ℕ → Bool
is_format c =
    (c == 0xad)
    || within 0x600 0x605 c
    || (c == 0x61c)
    || (c == 0x6dd)
    || (c == 0x70f)
    || within 0x890 0x891 c
    || (c == 0x8e2)
    || (c == 0x180e)
    || within 0x200b 0x200f c
    || within 0x202a 0x202e c
    || within 0x2060 0x2064 c
    || within 0x2066 0x206f c
    || (c == 0xfeff)
    || within 0xfff9 0xfffb c
    || (c == 0x110bd)
    || (c == 0x110cd)
    || within 0x13430 0x1343f c
    || within 0x1bca0 0x1bca3 c
    || within 0x1d173 0x1d17a c
    || (c == 0xe0001)
    || within 0xe0020 0xe007f c

unfoldable pub is_unsafe_for_terminal : ℕ → Bool
unfolding is_control is_format
is_unsafe_for_terminal c = is_control c || is_format c || ((c == 0x2028) || (c == 0x2029))

unfoldable pub any : (ℕ → Bool) → Text → Bool
any p [] = false
any p (c ∷ cs) = p c || any p cs

-- `if is_unsafe(c) { '?' } else { c }`
unfoldable pub shown_as : (ℕ → Bool) → ℕ → ℕ
shown_as is_unsafe c = if is_unsafe c then b'?' else c

unfoldable pub replace_where : (ℕ → Bool) → Text → Text
unfolding any shown_as
replace_where is_unsafe text =
    if not (any is_unsafe text) then text else map (shown_as is_unsafe) text

unfoldable pub sanitize_for_terminal : Text → Text
unfolding replace_where is_unsafe_for_terminal
sanitize_for_terminal text = replace_where is_unsafe_for_terminal text

-- A line feed is kept here.
unfoldable pub is_unsafe_in_lines : ℕ → Bool
unfolding is_unsafe_for_terminal
is_unsafe_in_lines c = not (c == 10) && is_unsafe_for_terminal c

unfoldable pub sanitize_lines_for_terminal : Text → Text
unfolding replace_where is_unsafe_in_lines
sanitize_lines_for_terminal text = replace_where is_unsafe_in_lines text

-- `text.find("://")`
unfoldable pub find_scheme : Text → Option ℕ
unfolding starts_with
find_scheme [] = none
find_scheme (c ∷ cs) =
    if starts_with (codes "://") (c ∷ cs)
    then some 0
    else elim (find_scheme cs) [ some at ↦ some (suc at) | none ↦ none ]

unfoldable pub ends_authority : ℕ → Bool
unfolding is_whitespace
ends_authority c = (c == b'/') || is_whitespace c

-- `text.find(ends_authority)`, or the length of the text.
unfoldable pub authority_len : Text → ℕ
unfolding ends_authority
authority_len [] = 0
authority_len (c ∷ cs) = if ends_authority c then 0 else suc (authority_len cs)

-- `text.rfind('@')`
unfoldable pub last_at : Text → Option ℕ
last_at [] = none
last_at (c ∷ cs) = elim (last_at cs) [
  | some at ↦ some (suc at)
  | none ↦ if c == b'@' then some 0 else none
]

-- `&text[from..to]`
abbrev pub part : Text → ℕ → ℕ → Text
part text from to = take (to - from) (drop from text)

-- `stripped.get_or_insert_with(String::new)`
unfoldable pub or_new : Option Text → Text
or_new none = []
or_new (some out) = out

-- What is stripped, and the end of the text that it accounts for, after an authority.
unfoldable pub strip_authority : Text → ℕ → ℕ → Option Text × ℕ → Option Text × ℕ
unfolding last_at or_new
strip_authority text start end (stripped, kept_until) = elim (last_at (part text start end)) [
  | some at ↦ (some (or_new stripped ++ part text kept_until start), start + at + 1)
  | none ↦ (stripped, kept_until)
]

-- The loop, for at most `fuel` rounds: each goes past a `://`.
unfoldable pub strip_urls : Text → ℕ → ℕ → Option Text × ℕ → Option Text × ℕ
unfolding find_scheme authority_len strip_authority
strip_urls text zero from state = state
strip_urls text (suc fuel) from state = elim (find_scheme (drop from text)) [
  | none ↦ state
  | some found ↦
      let start = from + found + 3 in
      let end = start + authority_len (drop start text) in
      strip_urls text fuel end (strip_authority text start end state)
]

unfoldable pub rejoined : Text → Option Text × ℕ → Text
rejoined text (none, kept_until) = text
rejoined text (some out, kept_until) = out ++ drop kept_until text

unfoldable pub without_url_userinfo : Text → Text
unfolding strip_urls rejoined
without_url_userinfo text = rejoined text (strip_urls text (length text) 0 (none, 0))

unfoldable pub sanitize_error_for_terminal : Text → Text
unfolding sanitize_lines_for_terminal without_url_userinfo
sanitize_error_for_terminal text = without_url_userinfo (sanitize_lines_for_terminal text)
