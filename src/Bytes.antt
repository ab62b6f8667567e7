-- ===== src/Bytes.antt =====
-- UTF-8 text as the bytes that `str::as_bytes` gives, and the standard library's string operations
-- that cvc-core/src/stimulus.rs calls, over those bytes.
pub mod Laws
pub mod Split
pub mod Trim
use Prim.Native.Char.{code}
use volute.Prelude.{
  ℕ, zero, suc, ◌+◌, ◌-◌, ◌*◌, ◌/◌, ◌%◌, String, Bool, true, false, not, ◌&&◌, Option, none, some,
  List, [], ◌∷◌, ◌++◌, leb, ltb, ◌==◌, if◌then◌else◌, length, take, drop, get_elem?,
}

abbrev pub Bytes : Type 0
Bytes = List ℕ

-- The bytes of an ASCII literal.
abbrev pub codes : String → Bytes
codes String.[] = []
codes (String.◌∷◌ c s) = code c ∷ codes s

-- `a == b` on byte strings.
unfoldable pub bytes_eq : Bytes → Bytes → Bool
bytes_eq [] [] = true
bytes_eq (x ∷ xs) (y ∷ ys) = x == y && bytes_eq xs ys
bytes_eq _ _ = false

-- `text.strip_prefix(pattern)`: what follows the pattern.
unfoldable pub strip_prefix : Bytes → Bytes → Option Bytes
strip_prefix [] text = some text
strip_prefix (p ∷ ps) [] = none
strip_prefix (p ∷ ps) (x ∷ xs) = let rest = strip_prefix ps xs in if p == x then rest else none

-- `text.starts_with(pattern)`
unfoldable pub starts_with : Bytes → Bytes → Bool
starts_with [] text = true
starts_with (p ∷ ps) [] = false
starts_with (p ∷ ps) (x ∷ xs) = p == x && starts_with ps xs

-- `&text[from..to]`, at bounds that the callers have checked.
unfoldable pub slice : Bytes → ℕ → ℕ → Bytes
slice text from to = take (to - from) (drop from text)

-- `text.strip_suffix(pattern)`: what precedes the pattern.
unfoldable pub strip_suffix : Bytes → Bytes → Option Bytes
unfolding bytes_eq
strip_suffix pattern text =
    let n = length text - length pattern in
    if leb (length pattern) (length text) && bytes_eq (drop n text) pattern
    then some (take n text)
    else none

-- `text.ends_with(pattern)`
unfoldable pub ends_with : Bytes → Bytes → Bool
unfolding bytes_eq
ends_with pattern text =
    leb (length pattern) (length text)
    && bytes_eq (drop (length text - length pattern) text) pattern

unfoldable pub all : (ℕ → Bool) → Bytes → Bool
all p [] = true
all p (x ∷ xs) = p x && all p xs

-- `text.bytes().take_while(p).count()`
unfoldable pub count_while : (ℕ → Bool) → Bytes → ℕ
count_while p [] = 0
count_while p (x ∷ xs) = if p x then suc (count_while p xs) else 0

-- Whether a byte continues a character: 10xxxxxx.
unfoldable pub is_continuation : ℕ → Bool
is_continuation b = leb 0x80 b && ltb b 0xc0

is_start : Option ℕ → Bool
unfolding is_continuation
is_start none = false
is_start (some b) = not (is_continuation b)

-- `text.is_char_boundary(at)`: an end of the text, or the first byte of a character.
unfoldable pub is_char_boundary : Bytes → ℕ → Bool
unfolding is_start
is_char_boundary text at =
    if at == 0 then true else if at == length text then true else is_start (get_elem? text at)

-- `text.get(at..)`
unfoldable pub get_from : Bytes → ℕ → Option Bytes
unfolding is_char_boundary
get_from text at = if is_char_boundary text at then some (drop at text) else none

-- `text.get(..at)`
unfoldable pub get_to : Bytes → ℕ → Option Bytes
unfolding is_char_boundary
get_to text at = if is_char_boundary text at then some (take at text) else none

-- The offsets of the non-overlapping occurrences of `pattern`, from the left: those in a text that
-- starts at offset `at`, of which the first `skip` bytes belong to the occurrence before.
unfoldable pub match_from : Bytes → ℕ → ℕ → Bytes → List ℕ
unfolding starts_with
match_from pattern at skip [] = []
match_from pattern at (suc skip) (x ∷ xs) = match_from pattern (at + 1) skip xs
match_from pattern at zero (x ∷ xs) =
    let hit = starts_with pattern (x ∷ xs) in
    let rest = match_from pattern (at + 1) (if hit then length pattern - 1 else 0) xs in
    if hit then at ∷ rest else rest

-- `text.match_indices(pattern)`, at a pattern that is not empty.
unfoldable pub match_indices : Bytes → Bytes → List ℕ
unfolding match_from
match_indices pattern text = match_from pattern 0 0 text

unfoldable pub is_digit : ℕ → Bool
is_digit b = leb b'0' b && leb b b'9'

-- `format!("{n}")`, one round for each digit.
unfoldable pub decimal_rounds : ℕ → ℕ → Bytes
decimal_rounds zero n = []
decimal_rounds (suc rounds) n =
    let front = decimal_rounds rounds (n / 10) in
    let last = (b'0' + n % 10) ∷ [] in if ltb n 10 then last else front ++ last

unfoldable pub decimal : ℕ → Bytes
unfolding decimal_rounds
decimal n = decimal_rounds (suc n) n

-- `run.parse::<u64>()` of a run of digits, at most eighteen here, so that the value fits.
unfoldable pub parse_digits : ℕ → Bytes → ℕ
parse_digits n [] = n
parse_digits n (d ∷ ds) = parse_digits (n * 10 + (d - b'0')) ds

-- `text.rsplit_once(pattern)`: what precedes and follows the last occurrence.
unfoldable pub rsplit_once : Bytes → Bytes → Option (Bytes × Bytes)
unfolding starts_with
rsplit_once pattern [] = none
rsplit_once pattern (c ∷ cs) = elim (rsplit_once pattern cs) [
  | some found ↦ some (c ∷ found.0, found.1)
  | none ↦ if starts_with pattern (c ∷ cs) then some ([], drop (length pattern) (c ∷ cs)) else none
]

-- `text.split_once(pattern)`: what precedes and follows the first occurrence.
unfoldable pub split_once : Bytes → Bytes → Option (Bytes × Bytes)
unfolding starts_with
split_once pattern [] = none
split_once pattern (c ∷ cs) =
    if starts_with pattern (c ∷ cs)
    then some ([], drop (length pattern) (c ∷ cs))
    else elim (split_once pattern cs) [ some found ↦ some (c ∷ found.0, found.1) | none ↦ none ]
