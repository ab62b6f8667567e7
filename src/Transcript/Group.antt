-- ===== src/Transcript/Group.antt =====
-- transcript.rs, the first half of `plan`: the entries, the title, the responses that the assistant
-- entries make up, and the results and names of their tool calls.
pub mod Index
pub mod Keys
pub mod ByKey
use volute.Prelude.{
  ℕ, zero, suc, ◌+◌, Bool, true, false, not, ◌&&◌, Option, none, some, List, [], ◌∷◌, ◌++◌, length,
  first_some, set, replicate, if◌then◌else◌,
}
use volute.Bytes.{Bytes, codes}
use volute.Bytes.Trim.{is_blank}
use volute.Transcript.{
  ParsedLine, Entry, Payload, UserMessage, AssistantMessage, AssistantBlock, ToolResultBlock,
  TitleSource,
}
use volute.Transcript.Maps.{Entries, lookup, or_insert}

pub record Group : Type 0 where
  pub key : Bytes
  pub positions : List ℕ

-- The variables of the loop over the entries.
pub record Grouping : Type 0 where
  pub groups : List Group
  pub group_index : Entries ℕ
  pub group_of : List (Option ℕ)
  pub results : Entries ToolResultBlock
  pub tool_names : Entries Bytes
  pub first_human_prompt : Option Bytes

-- `source == wanted`
same_source : TitleSource → TitleSource → Bool
same_source TitleSource.custom TitleSource.custom = true
same_source TitleSource.generated TitleSource.generated = true
same_source _ _ = false

-- The first text that is not blank.
unfoldable pub find_text : List Bytes → Option Bytes
unfolding is_blank
find_text [] = none
find_text (t ∷ ts) = if is_blank t then find_text ts else some t

unfoldable pub add_results :
    Entries ToolResultBlock → List ToolResultBlock → Entries ToolResultBlock
unfolding or_insert
add_results results [] = results
add_results results (r ∷ rs) = add_results (or_insert results r.tool_use_id r) rs

-- `groups[index].positions.push(position)`
unfoldable pub push_position : List Group → ℕ → ℕ → List Group
push_position [] index position = []
push_position (g ∷ gs) zero position =
    record { key = g.key; positions = g.positions ++ position ∷ [] } ∷ gs
push_position (g ∷ gs) (suc index) position = g ∷ push_position gs index position

module _ {V T : Type 0} where
  unfoldable pub entries_of : List (ParsedLine V T) → List (Entry V T)
  entries_of [] = []
  entries_of (ParsedLine.entry e ∷ lines) = e ∷ entries_of lines
  entries_of (ParsedLine.title text source ∷ lines) = entries_of lines
  entries_of (ParsedLine.skipped ∷ lines) = entries_of lines

  unfoldable pub latest_title : TitleSource → List (ParsedLine V T) → Option Bytes
  unfolding same_source
  latest_title wanted [] = none
  latest_title wanted (ParsedLine.entry e ∷ lines) = latest_title wanted lines
  latest_title wanted (ParsedLine.title text source ∷ lines) =
      first_some (latest_title wanted lines) (if same_source source wanted then some text else none)
  latest_title wanted (ParsedLine.skipped ∷ lines) = latest_title wanted lines

  unfoldable pub title_of : List (ParsedLine V T) → Option Bytes
  unfolding latest_title
  title_of lines =
      first_some (latest_title TitleSource.custom lines) (latest_title TitleSource.generated lines)

  -- The map from uuids to the positions from `at` on: the first entry of a uuid stays.
  unfoldable pub by_uuid_from : ℕ → List (Entry V T) → Entries ℕ → Entries ℕ
  unfolding or_insert
  by_uuid_from at [] seen = seen
  by_uuid_from at (e ∷ es) seen = by_uuid_from (at + 1) es (or_insert seen e.uuid at)

  unfoldable pub by_uuid : List (Entry V T) → Entries ℕ
  unfolding by_uuid_from
  by_uuid entries = by_uuid_from 0 entries []

  unfoldable pub response_key : Entry V T → AssistantMessage V → Bytes
  response_key e message = elim message.request_id [ some id ↦ id | none ↦ codes "uuid:" ++ e.uuid ]

module _ {V : Type 0} where
  unfoldable pub add_names : Entries Bytes → List (AssistantBlock V) → Entries Bytes
  unfolding or_insert
  add_names names [] = names
  add_names names (AssistantBlock.tool_use id name input server ∷ blocks) =
      add_names (or_insert names id name) blocks
  add_names names (AssistantBlock.plain text ∷ blocks) = add_names names blocks
  add_names names (AssistantBlock.thinking text ∷ blocks) = add_names names blocks
  add_names names (AssistantBlock.server_tool_result id text status ∷ blocks) =
      add_names names blocks
  add_names names (AssistantBlock.unrecorded_block kind ∷ blocks) = add_names names blocks

-- The response of a key: the index it has, or a new one at the end.
unfoldable pub group_for : Grouping → Bytes → ℕ × Grouping
unfolding lookup or_insert
group_for s key = elim (lookup s.group_index key) [
  | some index ↦ (index, s)
  | none ↦ (
    length s.groups,
    record s {
      groups = s.groups ++ record { key = key; positions = [] } ∷ [];
      group_index = or_insert s.group_index key (length s.groups);
    },
  )
]

unfoldable pub group_user : Grouping → UserMessage → Grouping
unfolding add_results find_text
group_user s message = record s {
  results = add_results s.results message.tool_results;
  first_human_prompt =
      first_some s.first_human_prompt
        (if not message.meta && not message.compact_summary then find_text message.texts else none);
}

module _ {V T : Type 0} where
  unfoldable pub group_assistant : Grouping → ℕ → Entry V T → AssistantMessage V → Grouping
  unfolding group_for push_position add_names response_key
  group_assistant s position e message =
      let found = group_for s (response_key e message) in
      record found.1 {
        groups = push_position found.1.groups found.0 position;
        group_of = set found.1.group_of position (some found.0);
        tool_names = add_names found.1.tool_names message.blocks;
      }

  unfoldable pub group_entry : Grouping → ℕ → Entry V T → Grouping
  unfolding group_assistant group_user
  group_entry s position e = elim e.payload [
    | Payload.assistant message ↦ group_assistant s position e message
    | Payload.user message ↦ group_user s message
    | Payload.other kind ↦ s
  ]

  -- The loop, at the entries from `at` on.
  unfoldable pub group_from : ℕ → List (Entry V T) → Grouping → Grouping
  unfolding group_entry
  group_from at [] s = s
  group_from at (e ∷ es) s = group_from (at + 1) es (group_entry s at e)

  unfoldable pub grouping : List (Entry V T) → Grouping
  unfolding group_from
  grouping entries = group_from 0 entries (record {
    groups = [];
    group_index = [];
    group_of = replicate (length entries) none;
    results = [];
    tool_names = [];
    first_human_prompt = none;
  })
