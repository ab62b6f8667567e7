-- ===== src/Transcript/Candidate/Commits.antt =====
-- What the commit candidates of a response are.
use volute.Prelude.{
  ℕ, ◌≤◌, ◌≡◌, refl, ap, Bool, true, false, ◌&&◌, ◌||◌, not, Option, none, some, List, [], ◌∷◌, map,
  length, length-map, leb, leb→le, ◌==◌, arith, Bool-cases, Option-cases, inl, inr, All, All-append,
}
use volute.Bytes.{Bytes, codes, bytes_eq, all, match_indices}
use volute.Bytes.Trim.{
  trim, lines, first_word, split_all, is_ascii_hexdigit, lower, to_ascii_lowercase,
}
use volute.Transcript.{Json, Entry, ToolStatus, ToolResultBlock}
use volute.Transcript.Maps.{Entries, lookup}
use volute.Transcript.Group.Keys.{has, Unique, Unique-append}
use volute.Transcript.Candidate.{
  is_hex_token, has_text, push_new, push, push_option, bracketed, push_bracketed, linked_commit,
  push_line, push_lines, push_full, candidates_in, commit_candidates_from_tool,
}
use volute.Transcript.Context.{PlanInput}
use volute.Transcript.Respond.{ToolCall, add_outcomes, tool_calls, derived_interaction_id}
use volute.Transcript.Group.{Group, Grouping}
use volute.Transcript.Plan.{group_blocks, respond}
use volute.Stimulus.Token.{Sha256}
use volute.Transcript.Calls.{
  Calls, push_candidates, status_of, is_success, named_commits, add_call, add_calls,
}

-- A digit, or a letter from a to f.
abbrev pub is_lower_hex : ℕ → Bool
is_lower_hex b = (leb b'0' b && leb b b'9') || (leb b'a' b && leb b b'f')

-- A commit's hash, whole or shortened, in small letters.
abbrev pub IsCommit : Bytes → Type 0
IsCommit token = (7 ≤ length token) × ((length token ≤ 40) × (all is_lower_hex token ≡ true))

-- Such hashes, none of them twice.
abbrev pub AreCommits : List Bytes → Type 0
AreCommits tokens = All IsCommit tokens × Unique tokens

lower-is_lower_hex : (b : ℕ) → is_ascii_hexdigit b ≡ true → is_lower_hex (lower b) ≡ true
unfolding is_ascii_hexdigit lower
lower-is_lower_hex b h = ground arith

lowercase-all :
    (token : Bytes) → all is_ascii_hexdigit token ≡ true → all is_lower_hex (map lower token) ≡ true
unfolding all
lowercase-all [] h = refl
lowercase-all (b ∷ bs) h = elim (Bool-cases (is_ascii_hexdigit b)) [
  | inl hit ↦ rw (lower-is_lower_hex b hit) (lowercase-all bs (rw hit at h))
  | inr other ↦ let e = rw other at h in absurd cc
]

has_text-has : (ts : List Bytes) (token : Bytes) → has_text ts token ≡ has ts token
unfolding has_text
has_text-has [] token = refl
has_text-has (t ∷ ts) token = ap (λ b. bytes_eq t token || b) (has_text-has ts token)

and_true : (a b : Bool) → (a && b) ≡ true → (a ≡ true) × (b ≡ true)
and_true true b h = (refl, h)
and_true false b h = cc

is_hex_token-IsCommit :
    (token : Bytes) → is_hex_token token ≡ true → IsCommit (to_ascii_lowercase token)
unfolding is_hex_token to_ascii_lowercase
is_hex_token-IsCommit token h =
    let (sized, hex) =
      and_true (leb 7 (length token) && leb (length token) 40) (all is_ascii_hexdigit token) h in
    let (low, high) = and_true (leb 7 (length token)) (leb (length token) 40) sized in
    (
      omega (arith, length-map token lower, leb→le 7 (length token) low),
      (
        omega (arith, length-map token lower, leb→le (length token) 40 high),
        lowercase-all token hex,
      ),
    )

push_new-AreCommits :
    (tokens : List Bytes) (token : Bytes)
    → IsCommit token
    → AreCommits tokens
    → AreCommits (push_new tokens token)
unfolding push_new
push_new-AreCommits tokens token h k = elim (Bool-cases (has_text tokens token)) [
  | inl there ↦ rw (there, push_new) k
  | inr new ↦
      rw (new, push_new)
        (
          All-append IsCommit tokens (token ∷ []) k.0 (h, tt),
          Unique-append tokens token k.1 (rw (has_text-has tokens token) at new),
        )
]

push-AreCommits :
    (tokens : List Bytes) (token : Bytes) → AreCommits tokens → AreCommits (push tokens token)
unfolding push
push-AreCommits tokens token k = elim (Bool-cases (is_hex_token token)) [
  | inl hex ↦ rw (hex, push) (push_new-AreCommits tokens _ (is_hex_token-IsCommit token hex) k)
  | inr other ↦ rw (other, push) k
]

push_option-AreCommits :
    (tokens : List Bytes) (token : Option Bytes)
    → AreCommits tokens
    → AreCommits (push_option tokens token)
unfolding push_option
push_option-AreCommits tokens none k = k
push_option-AreCommits tokens (some token) k = push-AreCommits tokens token k

push_bracketed-AreCommits :
    (tokens : List Bytes) (line : Bytes) (opens : List ℕ)
    → AreCommits tokens
    → AreCommits (push_bracketed tokens line opens)
unfolding push_bracketed
push_bracketed-AreCommits tokens line [] k = k
push_bracketed-AreCommits tokens line (at ∷ opens) k =
    push_bracketed-AreCommits (push_option tokens (bracketed line at)) line opens
      (push_option-AreCommits tokens (bracketed line at) k)

push_line-AreCommits :
    (tokens : List Bytes) (line : Bytes) → AreCommits tokens → AreCommits (push_line tokens line)
unfolding push_line
push_line-AreCommits tokens raw k =
    let line = trim raw in
    let opens = match_indices (codes "[") line in
    let named = push_bracketed tokens line opens in
    push_option-AreCommits (push_option named (linked_commit line)) (first_word line) (
      push_option-AreCommits named (linked_commit line)
        (push_bracketed-AreCommits tokens line opens k))

push_lines-AreCommits :
    (tokens ls : List Bytes) → AreCommits tokens → AreCommits (push_lines tokens ls)
unfolding push_lines
push_lines-AreCommits tokens [] k = k
push_lines-AreCommits tokens (l ∷ ls) k =
    push_lines-AreCommits (push_line tokens l) ls (push_line-AreCommits tokens l k)

push_full-AreCommits :
    (tokens pieces : List Bytes) → AreCommits tokens → AreCommits (push_full tokens pieces)
unfolding push_full
push_full-AreCommits tokens [] k = k
push_full-AreCommits tokens (t ∷ ts) k = elim (Bool-cases (length t == 40)) [
  | inl full ↦ rw full (push_full-AreCommits (push tokens t) ts (push-AreCommits tokens t k))
  | inr other ↦ rw other (push_full-AreCommits tokens ts k)
]

candidates_in-AreCommits : (result : Bytes) → AreCommits (candidates_in result)
unfolding candidates_in
candidates_in-AreCommits result =
    push_full-AreCommits (push_lines [] (lines result))
      (split_all (λ b. not (is_ascii_hexdigit b)) result)
      (push_lines-AreCommits [] (lines result) (tt, tt))

push_candidates-AreCommits :
    (tokens new : List Bytes)
    → All IsCommit new
    → AreCommits tokens
    → AreCommits (push_candidates tokens new)
unfolding push_candidates push_new
push_candidates-AreCommits tokens [] h k = k
push_candidates-AreCommits tokens (c ∷ cs) h k =
    push_candidates-AreCommits (push_new tokens c) cs h.1 (push_new-AreCommits tokens c h.0 k)

module _ {V : Type 0} (json : Json V) where
  tool-AreCommits :
      (name : Bytes) (input : V) (result : Bytes)
      → AreCommits (commit_candidates_from_tool json name input result)
  unfolding commit_candidates_from_tool
  tool-AreCommits name input result = ground (arith, candidates_in-AreCommits result)

  module _ (outcomes : Entries ToolStatus) (results : Entries ToolResultBlock) (input : PlanInput)
      (id : Bytes) where
    named-AreCommits :
        (call : ToolCall V) → AreCommits (named_commits outcomes results json input id call)
    unfolding named_commits
    named-AreCommits call =
        elim (Bool-cases (is_success (status_of outcomes results call) && not call.server)) [
          | inl went_well ↦ elim (Option-cases (lookup results call.id)) [
            | inl missing ↦ rw (went_well, named_commits, missing) (tt, tt)
            | inr (result, there) ↦
                rw (went_well, named_commits, there)
                  (tool-AreCommits call.name call.input result.content)
          ]
          | inr other ↦ rw (other, named_commits) (tt, tt)
        ]

    add_calls-AreCommits :
        (done : Calls) (calls : List (ToolCall V))
        → AreCommits done.commit_candidates
        → AreCommits (add_calls outcomes results json input id done calls).commit_candidates
    unfolding add_calls add_call
    add_calls-AreCommits done [] k = k
    add_calls-AreCommits done (call ∷ calls) k =
        let named = named_commits outcomes results json input id call in
        add_calls-AreCommits (add_call outcomes results json input id done call) calls
          (push_candidates-AreCommits done.commit_candidates named (named-AreCommits call).0 k)

module _ {V T : Type 0} where
  -- The commit candidates of an interaction are hashes of 7 to 40 hexadecimal digits in small letters, none
  -- of which is there twice.
  pub respond-AreCommits :
      (json : Json V) (sha : Sha256) (now : T) (input : PlanInput) (entries : List (Entry V T))
      (found : Grouping) (group : Group)
      → AreCommits (respond json sha now input entries found group).commit_candidates
  unfolding respond
  respond-AreCommits json sha now input entries found group =
      let blocks = group_blocks entries group.positions in
      add_calls-AreCommits json (add_outcomes [] blocks) found.results input
        (derived_interaction_id sha input.session_id group.key) _ (tool_calls blocks) (tt, tt)
