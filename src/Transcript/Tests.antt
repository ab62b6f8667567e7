-- ===== src/Transcript/Tests.antt =====
-- The theorems on transcripts at concrete inputs.
use volute.Prelude.{
  ℕ, zero, suc, ap, some-eq, subst, ◌∙◌, ◌+◌, ◌%◌, ◌<◌, ◌≤◌, ◌≡◌, refl, sym, Bool, true, false,
  Option, none, some, List, [], ◌∷◌, ◌++◌, map, length, if◌then◌else◌, ◌⊎◌, inl, inr, arith,
  replicate, length-replicate, All-replicate, get_elem?,
}
use volute.Bytes.{Bytes, codes, bytes_eq, split_once, starts_with, all, is_digit, parse_digits}
use volute.Bytes.Trim.{strip_cr, is_ascii_whitespace, split_where}
use volute.Stimulus.Token.{Sha256}
use volute.Transcript.{
  ℤ, pos, Json, ok, ◌>>=◌, ParsedLine, Entry, Payload, AssistantMessage, AssistantBlock,
  UserMessage,
}
use volute.Transcript.Maps.{lookup, or_insert}
use volute.Transcript.Content.{get_str, parse_user_content, push_text}
use volute.Transcript.Line.{
  RawEntry, Readers, parse_line, parse_raw, check_session, or_false, entry_of, message_entry,
  required_timestamp, check_version, payload_of, check_role, parse_timestamp, parse_u64,
}
use volute.Transcript.Window.{Window, parse_window, read_lines, rounds, push_parsed, parse_tail}
use volute.Transcript.Window.Newline.{newline}
use volute.Transcript.Window.Resume.{after, parse_window-append}
use volute.Transcript.Window.Outcome.{Outcome, parse_window-Outcome}
use volute.Transcript.Group.{by_uuid, by_uuid_from, entries_of, grouping}
use volute.Transcript.Group.Keys.{keys_from}
use volute.Transcript.Group.ByKey.{fresh, grouping-groups}
use volute.Transcript.Walk.{Walked, walk_back}
use volute.Transcript.Walk.Chain.{Chain, walk_back-Chain}
use volute.Transcript.Walk.Found.{Found, walk_back-Found}
use volute.Transcript.Walk.Ends.{walk_back_ends}
use volute.Transcript.Context.{
  Component, root_dir, normal, is_absolute, resolve, PlanInput, components, worktree_relative,
  line_number, read_range,
}
use volute.Transcript.Context.Inside.{IsInside, worktree_relative-IsInside}
use volute.Transcript.Context.Bounds.{IsRange, read_range-IsRange}
use volute.Transcript.Candidate.Commits.{AreCommits, respond-AreCommits}
use volute.Transcript.Plan.{PlannedInteraction, respond, plan}
use volute.Transcript.Plan.Closed.{closed_of, last_offset, plan-IsPlanned, plan-final}
use volute.Transcript.Plan.Pending.{plan-pending-le}
use volute.Transcript.Plan.Cursor.{plan-cursor-between}

abbrev toy_sha : Sha256
toy_sha = record {
  digest = λ m. replicate 32 (length m % 256);
  length_digest = λ m. length-replicate 32 (length m % 256);
  digest_bytes = λ m. All-replicate (λ b. b < 256) 32 (length m % 256) (omega arith);
}

-- JSON values with one level of fields.
data Leaf : Type 0 where
  text : Bytes → Leaf
  number : ℤ → Leaf

data Value : Type 0 where
  leaf : Leaf → Value
  object : List (Bytes × Leaf) → Value

abbrev toy_field : Option Leaf → Option Value
toy_field none = none
toy_field (some l) = some (leaf l)

toy_get : Value → Bytes → Option Value
unfolding lookup
toy_get (leaf l) key = none
toy_get (object fields) key = toy_field (lookup fields key)

abbrev toy_str : Value → Option Bytes
toy_str (leaf (text t)) = some t
toy_str (leaf (number n)) = none
toy_str (object fields) = none

abbrev toy_int : Value → Option ℤ
toy_int (leaf (text t)) = none
toy_int (leaf (number n)) = some n
toy_int (object fields) = none

abbrev is_toy_object : Value → Bool
is_toy_object (leaf l) = false
is_toy_object (object fields) = true

toy_json : Json Value
unfolding toy_get
toy_json = record {
  get = toy_get;
  as_str = toy_str;
  as_bool = λ v. none;
  as_i64 = toy_int;
  as_u64 = λ v. none;
  as_array = λ v. none;
  is_object = is_toy_object;
  null = leaf (text []);
  is_null = λ v. false;
  display = λ v. [];
}

abbrev toy_raw : Bytes → Bytes → Option Bytes → Bytes → RawEntry Value
toy_raw kind id parent content = record {
  kind = some kind;
  uuid = some id;
  parent_uuid = parent;
  logical_parent_uuid = none;
  session_id = some (codes "s");
  timestamp = some (codes "noon");
  version = some (codes "2.1.0");
  request_id = some (codes "req");
  subtype = none;
  custom_title = none;
  ai_title = none;
  summary = none;
  cwd = none;
  is_sidechain = none;
  is_meta = none;
  is_compact_summary = none;
  is_api_error_message = none;
  message = some (object ((codes "role", text kind) ∷ (codes "content", text content) ∷ []));
}

-- A line that is `U` stands for a person's entry, and one that is `A` for the assistant's.
toy_slice : Bytes → Bytes ⊎ RawEntry Value
unfolding bytes_eq
toy_slice line =
    if bytes_eq line (codes "U")
    then inr (toy_raw (codes "user") (codes "u1") none (codes "Fix it"))
    else if bytes_eq line (codes "A")
    then inr (toy_raw (codes "assistant") (codes "a1") (some (codes "u1")) (codes "Done"))
    else inl (codes "unexpected end")

toy_readers : Readers Value ℕ
unfolding toy_json toy_slice
toy_readers = record {
  json = toy_json;
  from_slice = toy_slice;
  parse_from_rfc3339 = λ value. inr (length value);
  debug = λ value. value;
}

-- Two lines, and the start of a third.
abbrev window_text : Bytes
window_text = codes "U" ++ (newline ++ (codes "A" ++ (newline ++ codes "{")))

parse_window-Outcome_example :
    Outcome
      (λ line offset. parse_line toy_readers line offset (codes "s") false)
      7
      0
      []
      window_text
      (parse_window toy_readers window_text 7 (codes "s") false)
parse_window-Outcome_example = parse_window-Outcome toy_readers window_text 7 (codes "s") false

parse_window-append_example :
    parse_window toy_readers ((codes "U" ++ newline) ++ codes "A") 7 (codes "s") false ≡ (
      parse_window toy_readers (codes "U" ++ newline) 7 (codes "s") false
      >>= (λ (v : Window Value ℕ).
          after v 2 (parse_window toy_readers (codes "A") 9 (codes "s") false)))
parse_window-append_example =
    parse_window-append toy_readers (codes "U") (codes "A") 7 (codes "s") false

abbrev assistant_message : Bytes → AssistantMessage Value
assistant_message id = record {
  request_id = some id;
  model = some (codes "model");
  blocks =
      AssistantBlock.plain (codes "Done")
      ∷ AssistantBlock.tool_use (codes "t1") (codes "Bash")
          (object ((codes "command", text (codes "git commit -qm x")) ∷ [])) false
      ∷ [];
}

abbrev user_message : UserMessage
user_message = record {
  texts = codes "Fix it" ∷ [];
  tool_results =
      record { tool_use_id = codes "t1"; content = codes "[main 0A1B2C3D] x"; is_error = false }
      ∷ [];
  meta = false;
  compact_summary = false;
  unrecorded = [];
}

abbrev toy_entry : ℕ → Bytes → Option Bytes → Payload Value → Entry Value ℕ
toy_entry offset id parent payload = record {
  offset = offset;
  uuid = id;
  parent_uuid = parent;
  timestamp = some 3;
  cwd = none;
  payload = payload;
}

-- A response in two entries, the prompt before the next one, and that one.
abbrev toy_entries : List (Entry Value ℕ)
toy_entries =
    toy_entry 0 (codes "a") none (Payload.assistant (assistant_message (codes "r1")))
    ∷ toy_entry 5 (codes "b") (some (codes "a"))
        (Payload.assistant (assistant_message (codes "r1")))
    ∷ toy_entry 9 (codes "c") (some (codes "b")) (Payload.user user_message)
    ∷ toy_entry 12 (codes "d") (some (codes "c"))
        (Payload.assistant (assistant_message (codes "r2")))
    ∷ []

grouping-groups_example :
    (grouping toy_entries).groups ≡ map (fresh 0 toy_entries) (keys_from [] toy_entries)
grouping-groups_example = grouping-groups toy_entries

-- The walk from the second response goes past the prompt to the first.
abbrev toy_walked : Walked
toy_walked = record { stimulus_positions = 2 ∷ []; parent_group = some 0 }

toy-Chain :
    Chain toy_entries
      (by_uuid toy_entries)
      (some 0 ∷ some 0 ∷ none ∷ some 1 ∷ [])
      (some (codes "c"))
      (2 ∷ 1 ∷ [])
      toy_walked
unfolding by_uuid by_uuid_from or_insert lookup bytes_eq
toy-Chain =
    Chain.past (codes "c") 2 _ refl refl tt (Chain.response (codes "b") 1 _ _ refl refl refl)

toy_walk :
    walk_back toy_entries
      (by_uuid toy_entries)
      (some 0 ∷ some 0 ∷ none ∷ some 1 ∷ [])
      (some (codes "c"))
    ≡ toy_walked
toy_walk =
    walk_back-Chain toy_entries (by_uuid toy_entries) (some 0 ∷ some 0 ∷ none ∷ some 1 ∷ [])
      toy-Chain

walk_back-Found_example :
    Found toy_entries (some 0 ∷ some 0 ∷ none ∷ some 1 ∷ []) (some (codes "c")) (
      walk_back toy_entries
        (by_uuid toy_entries)
        (some 0 ∷ some 0 ∷ none ∷ some 1 ∷ [])
        (some (codes "c")))
walk_back-Found_example =
    walk_back-Found toy_entries (some 0 ∷ some 0 ∷ none ∷ some 1 ∷ []) (some (codes "c"))

abbrev toy_lines : List (ParsedLine Value ℕ)
toy_lines = map (λ (e : Entry Value ℕ). ParsedLine.entry e) toy_entries

abbrev toy_input : Bool → PlanInput
toy_input final = record {
  session_id = codes "s";
  worktree_root = root_dir ∷ normal (codes "w") ∷ [];
  path_aliases = [];
  final_mode = final;
  subagent = false;
}

plan-pending-le_example :
    (plan toy_json toy_sha 8 (toy_input false) toy_lines 0).pending_responses ≤ 1
plan-pending-le_example = plan-pending-le toy_json toy_sha 8 (toy_input false) toy_lines 0

plan-final_example :
    ((plan toy_json toy_sha 8 (toy_input true) toy_lines 0).pending_responses ≡ 0)
    × (map
          (λ (i : PlannedInteraction ℕ). i.response_key)
          (plan toy_json toy_sha 8 (toy_input true) toy_lines 0).interactions
        ≡ keys_from [] (entries_of toy_lines))
plan-final_example = plan-final toy_json toy_sha 8 (toy_input true) toy_lines 0 refl

respond-AreCommits_example :
    AreCommits
      (respond toy_json toy_sha 8
        (toy_input true)
        toy_entries
        (grouping toy_entries)
        (record { key = codes "r1"; positions = 0 ∷ 1 ∷ [] })).commit_candidates
respond-AreCommits_example =
    respond-AreCommits toy_json toy_sha 8 (toy_input true) toy_entries (grouping toy_entries)
      (record { key = codes "r1"; positions = 0 ∷ 1 ∷ [] })

plan-IsPlanned_example :
    let found = grouping (entries_of toy_lines) in
    let p = plan toy_json toy_sha 8 (toy_input false) toy_lines 0 in
    let planned =
      map
        (respond toy_json toy_sha 8 (toy_input false) (entries_of toy_lines) found)
        (closed_of false (entries_of toy_lines) found found.groups) in
    (p.interactions ≡ planned)
    × ((p.cursor_offset ≡ last_offset 0 planned)
        × (p.pending_responses + length planned ≡ length found.groups))
plan-IsPlanned_example = plan-IsPlanned toy_json toy_sha 8 (toy_input false) toy_lines 0

abbrev two_entries : List (Entry Value ℕ)
two_entries =
    toy_entry 0 (codes "a") none (Payload.assistant (assistant_message (codes "r1")))
    ∷ toy_entry 9 (codes "c") (some (codes "a")) (Payload.user user_message)
    ∷ []

toy_before :
    (p : ℕ) (e : Entry Value ℕ) (uuid : Bytes) (q : ℕ)
    → get_elem? two_entries p ≡ some e
    → e.parent_uuid ≡ some uuid
    → lookup (by_uuid two_entries) uuid ≡ some q
    → q < p
unfolding by_uuid by_uuid_from or_insert lookup bytes_eq
toy_before zero e uuid q h k l =
    let none_there = ap (λ (x : Entry Value ℕ). x.parent_uuid) (some-eq h) ∙ k in absurd cc
toy_before (suc zero) e uuid q h k l =
    let parent = some-eq (ap (λ (x : Entry Value ℕ). x.parent_uuid) (some-eq h) ∙ k) in
    let found = subst (λ u. lookup (by_uuid two_entries) u ≡ some q) (sym parent) l in
    omega (arith, some-eq found)
toy_before (suc (suc p)) e uuid q h k l = cc

walk_back_ends_example :
    (ps : List ℕ) × Chain two_entries
      (by_uuid two_entries)
      (none ∷ [])
      (some (codes "c"))
      ps
      (walk_back two_entries (by_uuid two_entries) (none ∷ []) (some (codes "c")))
walk_back_ends_example = walk_back_ends two_entries (none ∷ []) toy_before (some (codes "c"))

abbrev toy_window : Window Value ℕ
toy_window = record {
  lines =
      ParsedLine.entry (record {
        offset = 7;
        uuid = codes "u1";
        parent_uuid = none;
        timestamp = some 4;
        cwd = none;
        payload = Payload.user (record {
          texts = codes "Fix it" ∷ [];
          tool_results = [];
          meta = false;
          compact_summary = false;
          unrecorded = [];
        });
      })
      ∷ [];
  consumed = 2;
  truncated_tail = false;
}

toy_read : parse_window toy_readers (codes "U" ++ newline) 7 (codes "s") false ≡ ok toy_window
unfolding parse_window read_lines rounds push_parsed parse_tail parse_line parse_raw check_session
    or_false entry_of message_entry required_timestamp check_version payload_of check_role get_str
    parse_user_content push_text parse_timestamp parse_u64 toy_readers toy_json toy_slice toy_get
    split_once starts_with bytes_eq lookup strip_cr all is_ascii_whitespace is_digit parse_digits
    split_where
toy_read = refl

plan-cursor-between_example :
    (7 ≤ (plan toy_json toy_sha 8 (toy_input false) toy_window.lines 7).cursor_offset)
    × ((plan toy_json toy_sha 8 (toy_input false) toy_window.lines 7).cursor_offset ≤ 9)
unfolding toy_readers
plan-cursor-between_example =
    plan-cursor-between toy_readers toy_sha 8 (toy_input false) (codes "U" ++ newline) 7 (codes "s")
      false toy_window toy_read

toy_path :
    worktree_relative (codes "/w/src/a.rs") (root_dir ∷ normal (codes "w") ∷ []) []
    ≡ some (codes "src/a.rs")
unfolding worktree_relative
toy_path = refl

worktree_relative-IsInside_example :
    (is_absolute (components (codes "/w/src/a.rs")) ≡ true)
    × ((path : List Component) × ((resolve
              (components (codes "/w/src/a.rs"))
              (root_dir ∷ normal (codes "w") ∷ [])
              []
            ≡ some path)
          × IsInside (root_dir ∷ normal (codes "w") ∷ []) path (codes "src/a.rs")))
worktree_relative-IsInside_example =
    worktree_relative-IsInside (codes "/w/src/a.rs") (root_dir ∷ normal (codes "w") ∷ []) []
      (codes "src/a.rs") toy_path

abbrev toy_call : Value
toy_call =
    object
      ((codes "offset", number (pos 9223372036854775807)) ∷ (codes "limit", number (pos 2)) ∷ [])

read_range-IsRange_example :
    IsRange
      (line_number toy_json toy_call (codes "offset"))
      (line_number toy_json toy_call (codes "limit"))
      (read_range toy_json toy_call)
read_range-IsRange_example = read_range-IsRange toy_json toy_call
