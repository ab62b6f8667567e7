-- ===== src/Bytes/Trim.antt =====
-- White space, lines and letters, as `str` reads them, for claude_code/transcript.rs.
use volute.Prelude.{
  ℕ, zero, suc, ◌+◌, ◌-◌, Bool, true, false, ◌&&◌, ◌||◌, Option, none, some, List, [], ◌∷◌, ◌++◌,
  leb, ◌==◌, if◌then◌else◌, map,
}
use volute.Bytes.{Bytes, starts_with}

-- The white space whose first byte is 0xe2: U+2000 to U+200A, U+2028, U+2029, U+202F and U+205F.
is_space_e2 : ℕ → ℕ → Bool
is_space_e2 b c =
    (b == 0x80 && (leb c 0x8a || (c == 0xa8 || (c == 0xa9 || c == 0xaf))))
    || (b == 0x81 && c == 0x9f)

-- How many bytes the character at the start takes, if it is white space, and else none.
unfoldable pub space_len : Bytes → ℕ
unfolding is_space_e2
space_len [] = 0
space_len (a ∷ []) = if (leb 9 a && leb a 13) || a == 32 then 1 else 0
space_len (a ∷ b ∷ []) =
    if (leb 9 a && leb a 13) || a == 32
    then 1
    else if a == 0xc2 && (b == 0x85 || b == 0xa0)
    then 2
    else 0
space_len (a ∷ b ∷ c ∷ rest) =
    if (leb 9 a && leb a 13) || a == 32
    then 1
    else if a == 0xc2 && (b == 0x85 || b == 0xa0)
    then 2
    else if (a == 0xe1 && (b == 0x9a && c == 0x80))
        || ((a == 0xe2 && is_space_e2 b c) || (a == 0xe3 && (b == 0x80 && c == 0x80)))
    then 3
    else 0

trim_start_from : ℕ → Bytes → Bytes
unfolding space_len
trim_start_from skip [] = []
trim_start_from (suc skip) (x ∷ xs) = trim_start_from skip xs
trim_start_from zero (x ∷ xs) =
    let n = space_len (x ∷ xs) in
    let rest = trim_start_from (n - 1) xs in if n == 0 then x ∷ xs else rest

unfoldable pub trim_start : Bytes → Bytes
unfolding trim_start_from
trim_start text = trim_start_from 0 text

abbrev pub is_empty {ℓ} : {A : Type ℓ} → List A → Bool
is_empty [] = true
is_empty (x ∷ xs) = false

-- `text.trim().is_empty()`
unfoldable pub is_blank : Bytes → Bool
unfolding trim_start
is_blank text = is_empty (trim_start text)

unfoldable pub trim_end : Bytes → Bytes
unfolding is_blank
trim_end [] = []
trim_end (x ∷ xs) = let rest = trim_end xs in if is_blank (x ∷ xs) then [] else x ∷ rest

unfoldable pub trim : Bytes → Bytes
unfolding trim_start trim_end
trim text = trim_end (trim_start text)

-- `text.split_whitespace().next()`
until_space : Bytes → Bytes
unfolding space_len
until_space [] = []
until_space (x ∷ xs) = let rest = until_space xs in if space_len (x ∷ xs) == 0 then x ∷ rest else []

unfoldable pub first_word : Bytes → Option Bytes
unfolding trim_start until_space
first_word text = elim (trim_start text) [ [] ↦ none | x ∷ xs ↦ some (until_space (x ∷ xs)) ]

-- The pieces of `text.split(p)`; there is one at least.
unfoldable pub split_where : (ℕ → Bool) → Bytes → Bytes × List Bytes
split_where p [] = ([], [])
split_where p (x ∷ xs) =
    let rest = split_where p xs in if p x then ([], rest.0 ∷ rest.1) else (x ∷ rest.0, rest.1)

unfoldable pub split_all : (ℕ → Bool) → Bytes → List Bytes
unfolding split_where
split_all p text = let pieces = split_where p text in pieces.0 ∷ pieces.1

-- A line without the carriage return at its end.
unfoldable pub strip_cr : Bytes → Bytes
strip_cr [] = []
strip_cr (x ∷ []) = if x == 13 then [] else x ∷ []
strip_cr (x ∷ y ∷ ys) = x ∷ strip_cr (y ∷ ys)

-- Every piece but the last ended in a newline; the last is no line if it is empty.
lines_of : List Bytes → List Bytes
unfolding strip_cr
lines_of [] = []
lines_of ([] ∷ []) = []
lines_of ((x ∷ xs) ∷ []) = (x ∷ xs) ∷ []
lines_of (l ∷ m ∷ ls) = strip_cr l ∷ lines_of (m ∷ ls)

-- `text.lines()`
unfoldable pub lines : Bytes → List Bytes
unfolding split_all lines_of
lines text = lines_of (split_all (λ b. b == 10) text)

unfoldable pub is_ascii_whitespace : ℕ → Bool
is_ascii_whitespace b = b == 32 || (b == 9 || (b == 10 || (b == 12 || b == 13)))

unfoldable pub is_ascii_hexdigit : ℕ → Bool
is_ascii_hexdigit b =
    (leb b'0' b && leb b b'9') || ((leb b'a' b && leb b b'f') || (leb b'A' b && leb b b'F'))

unfoldable pub lower : ℕ → ℕ
lower b = if leb b'A' b && leb b b'Z' then b + 32 else b

unfoldable pub to_ascii_lowercase : Bytes → Bytes
unfolding lower
to_ascii_lowercase text = map lower text

-- `text.contains(pattern)`, at a pattern that is not empty.
unfoldable pub contains_bytes : Bytes → Bytes → Bool
unfolding starts_with
contains_bytes pattern [] = false
contains_bytes pattern (x ∷ xs) = starts_with pattern (x ∷ xs) || contains_bytes pattern xs

-- `text.trim_end_matches(c)`
unfoldable pub trim_end_matches : ℕ → Bytes → Bytes
trim_end_matches c [] = []
trim_end_matches c (x ∷ xs) =
    let rest = trim_end_matches c xs in if x == c && is_empty rest then [] else x ∷ rest

-- What `join` makes of texts.
unfoldable pub join : Bytes → List Bytes → Bytes
join between [] = []
join between (t ∷ []) = t
join between (t ∷ u ∷ ts) = t ++ (between ++ join between (u ∷ ts))
