-- ===== src/Transcript/Candidate.antt =====
-- transcript.rs: the commit hashes that a committing command's recorded output names.
pub mod Commits
use volute.Prelude.{
  ℕ, ◌+◌, Bool, false, not, ◌&&◌, ◌||◌, Option, none, some, List, [], ◌∷◌, ◌++◌, length, leb, ◌==◌,
  if◌then◌else◌, drop, ◌>>=◌,
}
use volute.Bytes.{Bytes, codes, bytes_eq, all, starts_with, match_indices, rsplit_once}
use volute.Bytes.Trim.{
  trim, lines, first_word, split_where, split_all, is_ascii_hexdigit, to_ascii_lowercase,
  contains_bytes, trim_end_matches,
}
use volute.Transcript.{Json}

unfoldable pub creates_commit : Bytes → Bool
unfolding to_ascii_lowercase contains_bytes
creates_commit command =
    let normalized = to_ascii_lowercase command in
    contains_bytes (codes "git") normalized
    && (contains_bytes (codes "commit") normalized
        || (contains_bytes (codes "merge") normalized
            || (contains_bytes (codes "cherry-pick") normalized
                || (contains_bytes (codes "revert") normalized
                    || contains_bytes (codes "rev-parse") normalized))))

unfoldable pub is_hex_token : Bytes → Bool
unfolding all is_ascii_hexdigit
is_hex_token token = (leb 7 (length token) && leb (length token) 40) && all is_ascii_hexdigit token

-- `candidates.contains(&token)`
unfoldable pub has_text : List Bytes → Bytes → Bool
unfolding bytes_eq
has_text [] token = false
has_text (t ∷ ts) token = bytes_eq t token || has_text ts token

unfoldable pub push_new : List Bytes → Bytes → List Bytes
unfolding has_text
push_new candidates token =
    if has_text candidates token then candidates else candidates ++ token ∷ []

-- The inner function `push`.
unfoldable pub push : List Bytes → Bytes → List Bytes
unfolding is_hex_token push_new to_ascii_lowercase
push candidates token =
    if is_hex_token token then push_new candidates (to_ascii_lowercase token) else candidates

unfoldable pub push_option : List Bytes → Option Bytes → List Bytes
unfolding push
push_option candidates none = candidates
push_option candidates (some token) = push candidates token

-- `[<branch> <short-sha>] <subject>`: the last word of what a bracket holds.
unfoldable pub bracketed : Bytes → ℕ → Option Bytes
unfolding split_where rsplit_once
bracketed line at =
    elim (rsplit_once (codes " ") (split_where (λ b. b == b']') (drop (at + 1) line)).0) [
      | some found ↦ some found.1
      | none ↦ none
    ]

unfoldable pub push_bracketed : List Bytes → Bytes → List ℕ → List Bytes
unfolding bracketed push_option
push_bracketed candidates line [] = candidates
push_bracketed candidates line (at ∷ opens) =
    push_bracketed (push_option candidates (bracketed line at)) line opens

-- `CVC: Linked <n> thought(s) to commit <sha>.`
unfoldable pub linked_commit : Bytes → Option Bytes
unfolding starts_with rsplit_once trim_end_matches trim
linked_commit line =
    if starts_with (codes "CVC:") line
    then elim (rsplit_once (codes " to commit ") line) [
      | some found ↦ some (trim (trim_end_matches b'.' found.1))
      | none ↦ none
    ]
    else none

-- The body of the loop over the lines.
unfoldable pub push_line : List Bytes → Bytes → List Bytes
unfolding push_bracketed push_option linked_commit first_word match_indices trim
push_line candidates raw =
    let line = trim raw in
    let named = push_bracketed candidates line (match_indices (codes "[") line) in
    push_option (push_option named (linked_commit line)) (first_word line)

unfoldable pub push_lines : List Bytes → List Bytes → List Bytes
unfolding push_line
push_lines candidates [] = candidates
push_lines candidates (l ∷ ls) = push_lines (push_line candidates l) ls

-- A full-length hash anywhere.
unfoldable pub push_full : List Bytes → List Bytes → List Bytes
unfolding push
push_full candidates [] = candidates
push_full candidates (t ∷ ts) =
    push_full (if length t == 40 then push candidates t else candidates) ts

unfoldable pub candidates_in : Bytes → List Bytes
unfolding push_lines push_full lines split_all is_ascii_hexdigit
candidates_in result =
    push_full (push_lines [] (lines result)) (split_all (λ b. not (is_ascii_hexdigit b)) result)

module _ {V : Type 0} (json : Json V) where
  unfoldable pub command_of : V → Option Bytes
  command_of input = do value ← json.get input (codes "command"); json.as_str value

  unfoldable pub commit_candidates_from_tool : Bytes → V → Bytes → List Bytes
  unfolding bytes_eq command_of creates_commit candidates_in
  commit_candidates_from_tool tool_name input result =
      if bytes_eq tool_name (codes "Bash")
      then elim (command_of input) [
        | none ↦ []
        | some command ↦ if creates_commit command then candidates_in result else []
      ]
      else []
