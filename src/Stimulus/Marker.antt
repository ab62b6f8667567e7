-- ===== src/Stimulus/Marker.antt =====
-- cvc-core/src/stimulus.rs, "markers and notes": the marker that opens a part.
pub mod Laws
pub mod Sound
use volute.Prelude.{
  ℕ, ◌+◌, ◌-◌, Bool, true, false, ◌||◌, Option, none, some, [], ◌∷◌, ◌++◌, ltb, ◌==◌, if◌then◌else◌,
  length, take, drop, ◌>>=◌,
}
use volute.Bytes.{Bytes, codes, strip_prefix, starts_with, get_from, count_while}
use volute.Stimulus.{
  PartKind, prompt, task, meta, compaction_summary, tool_result, max_name_bytes, boundary_prefix,
  boundary_len, unknown_tool,
}
use volute.Stimulus.Token.{is_name_byte, token_at}

pub record Marker : Type 0 where
  pub kind : PartKind
  pub name : Option Bytes
  pub is_error : Bool
  pub token : Bytes
  pub start : ℕ
  pub token_offset : ℕ
  pub end : ℕ

-- What opens a marker of each kind, up to the name or the token.
unfoldable pub opening : PartKind → Bytes
opening prompt = codes "[prompt "
opening task = codes "[task "
opening meta = codes "[meta "
opening compaction_summary = codes "[compaction summary "
opening tool_result = codes "[tool_result "

unfoldable pub terminator : PartKind → Bytes
terminator compaction_summary = b']' ∷ 10 ∷ []
terminator _ = codes "] "

-- `name.unwrap_or(UNKNOWN_TOOL)`
unfoldable pub name_or_unknown : Option Bytes → Bytes
name_or_unknown none = unknown_tool
name_or_unknown (some name) = name

-- What stands between the opening and the token.
unfoldable pub label : PartKind → Option Bytes → Bool → Bytes
unfolding name_or_unknown
label tool_result name is_error =
    name_or_unknown name ++ (codes " " ++ (if is_error then codes "error " else []))
label _ name is_error = []

unfoldable pub render_marker : PartKind → Option Bytes → Bool → Bytes → Bytes
render_marker kind name is_error token =
    opening kind ++ (label kind name is_error ++ (token ++ terminator kind))

opened_as : PartKind → Bytes → Option (PartKind × Bytes) → Option (PartKind × Bytes)
unfolding strip_prefix opening
opened_as kind rest other = elim (strip_prefix (opening kind) rest) [
  | some tail ↦ some (kind, tail)
  | none ↦ other
]

-- The ladder of `strip_prefix` calls: the kind, and what follows its opening.
unfoldable pub opened : Bytes → Option (PartKind × Bytes)
unfolding opened_as
opened rest = opened_as prompt rest (
    opened_as task rest
      (opened_as meta rest (opened_as compaction_summary rest (opened_as tool_result rest none))))

-- The `error` flag counts only if a token follows it.
flagged : Bytes → Bytes → Option Bytes → Option Bytes × Bool × Bytes
unfolding starts_with
flagged name after none = (some name, false, after)
flagged name after (some tail) =
    if starts_with boundary_prefix tail then (some name, true, tail) else (some name, false, after)

-- The tool's name and flag, and what follows them.
unfoldable pub named : PartKind → Bytes → Option (Option Bytes × Bool × Bytes)
unfolding flagged count_while is_name_byte strip_prefix
named tool_result tail =
    let n = count_while is_name_byte tail in
    if n == 0 || ltb max_name_bytes n then none else (do
      after ← strip_prefix (codes " ") (drop n tail)
      some (flagged (take n tail) after (strip_prefix (codes "error ") after)))
named _ tail = some (none, false, tail)

-- The token and the terminator.
unfoldable pub closed : ℕ → Bytes → PartKind → Option Bytes → Bool → Bytes → Option Marker
unfolding token_at strip_prefix terminator
closed at rest kind name is_error tail =
    if token_at tail 0
    then (do
      _ ← strip_prefix (terminator kind) (drop boundary_len tail)
      some (record {
        kind = kind;
        name = name;
        is_error = is_error;
        token = take boundary_len tail;
        start = at;
        token_offset = at + (length rest - length tail);
        end = at + (length rest - length tail) + boundary_len + length (terminator kind);
      }))
    else none

-- The marker that starts at byte `at`, if the strict grammar holds.
unfoldable pub marker_at : Bytes → ℕ → Option Marker
marker_at text at = do
  rest ← get_from text at
  (kind, tail) ← opened rest
  (name, is_error, tail') ← named kind tail
  closed at rest kind name is_error tail'
