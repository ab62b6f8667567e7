-- ===== src/Transcript/Walk.antt =====
-- transcript.rs, `plan`: the walk from a response back to the response before it, along the chain of
-- parents, and the stimulus that the user entries on the way make up.
pub mod Chain
pub mod Ends
pub mod Found
use volute.Prelude.{
  ℕ, zero, suc, ◌+◌, Bool, true, false, Option, none, some, List, [], ◌∷◌, ◌++◌, length, get_elem?,
  if◌then◌else◌, map, get_or, ◌||◌,
}
use volute.Bytes.{Bytes}
use volute.Stimulus.{StimulusPart, PartKind, of, of_tool_result}
use volute.Transcript.{Entry, Payload, UserMessage, ToolResultBlock, Author}
use volute.Transcript.Maps.{Entries, lookup}

-- What the walk finds: the user entries, the nearest first, and the group of the entry it ends at.
pub record Walked : Type 0 where
  pub stimulus_positions : List ℕ
  pub parent_group : Option ℕ

unfoldable pub nowhere : Walked
nowhere = record { stimulus_positions = []; parent_group = none }

unfoldable pub push_found : ℕ → Walked → Walked
push_found position w = record {
  stimulus_positions = position ∷ w.stimulus_positions;
  parent_group = w.parent_group;
}

module _ {V T : Type 0} (entries : List (Entry V T)) (uuids : Entries ℕ)
    (group_of : List (Option ℕ)) where
  -- The loop, in as many steps as are left. The code reads only positions in range.
  unfoldable pub walk : ℕ → Option Bytes → Walked
  unfolding nowhere push_found lookup
  walk zero cursor = nowhere
  walk (suc steps) none = nowhere
  walk (suc steps) (some uuid) = elim (lookup uuids uuid) [
    | none ↦ nowhere
    | some position ↦ elim (get_elem? entries position) [
      | none ↦ nowhere
      | some e ↦ elim e.payload [
        | Payload.assistant message ↦ record {
          stimulus_positions = [];
          parent_group = get_or group_of position none;
        }
        | Payload.user message ↦ push_found position (walk steps e.parent_uuid)
        | Payload.other kind ↦ walk steps e.parent_uuid
      ]
    ]
  ]

  -- From the parent of the response's first entry, in at most `entries.len() + 1` steps.
  unfoldable pub walk_back : Option Bytes → Walked
  unfolding walk
  walk_back cursor = walk (length entries + 1) cursor

unfoldable pub text_kind : Bool → UserMessage → PartKind
text_kind subagent message =
    if message.compact_summary
    then PartKind.compaction_summary
    else if message.meta
    then PartKind.meta
    else if subagent
    then PartKind.task
    else PartKind.prompt

unfoldable pub result_part : Entries Bytes → ToolResultBlock → StimulusPart
unfolding lookup
result_part tool_names result =
    of_tool_result (lookup tool_names result.tool_use_id) result.is_error result.content

unfoldable pub user_parts : Entries Bytes → Bool → UserMessage → List StimulusPart
unfolding text_kind result_part
user_parts tool_names subagent message =
    map (of (text_kind subagent message)) message.texts
    ++ map (result_part tool_names) message.tool_results

-- The stimulus, and the block types that it leaves out.
module _ {V T : Type 0} (entries : List (Entry V T)) (tool_names : Entries Bytes)
    (subagent : Bool) where
  unfoldable pub parts_at : ℕ → List StimulusPart × List Bytes
  unfolding user_parts
  parts_at position = elim (get_elem? entries position) [
    | none ↦ ([], [])
    | some e ↦ elim e.payload [
      | Payload.user message ↦ (user_parts tool_names subagent message, message.unrecorded)
      | Payload.assistant message ↦ ([], [])
      | Payload.other kind ↦ ([], [])
    ]
  ]

  unfoldable pub stimulus_of : List ℕ → List StimulusPart × List Bytes
  unfolding parts_at
  stimulus_of [] = ([], [])
  stimulus_of (position ∷ positions) =
      let first = parts_at position in
      let rest = stimulus_of positions in (first.0 ++ rest.0, first.1 ++ rest.1)

-- `matches!(part.kind, PartKind::Prompt | PartKind::Task)`
unfoldable pub is_person_kind : PartKind → Bool
is_person_kind PartKind.prompt = true
is_person_kind PartKind.task = true
is_person_kind _ = false

unfoldable pub any_person : List StimulusPart → Bool
unfolding is_person_kind
any_person [] = false
any_person (part ∷ parts) = is_person_kind part.kind || any_person parts

unfoldable pub author_of : List StimulusPart → Author
unfolding any_person
author_of stimulus = if any_person stimulus then Author.human else Author.system
