-- ===== src/Transcript/Plan.antt =====
-- transcript.rs: `plan`, which makes interactions of the lines of a window, and `user_prompt`.
pub mod Closed
pub mod Pending
pub mod Cursor
use volute.Prelude.{
  ℕ, ◌+◌, Bool, false, ◌&&◌, ◌||◌, Option, none, some, List, [], ◌∷◌, ◌++◌, length, drop, get_elem?,
  get_or, first_some, ltb, if◌then◌else◌,
}
use volute.Bytes.{Bytes}
use volute.Stimulus.{StimulusPart, Scrub}
use volute.Stimulus.Cut.{Spans}
use volute.Stimulus.Render.{render}
use volute.Stimulus.Token.{Sha256}
use volute.Transcript.{
  Json, ParsedLine, Entry, Payload, AssistantMessage, AssistantBlock, ToolExecution, ContextItem,
  Author,
}
use volute.Transcript.Group.{Group, Grouping, entries_of, title_of, by_uuid, grouping}
use volute.Transcript.Walk.{walk_back, stimulus_of, author_of}
use volute.Transcript.Context.{PlanInput}
use volute.Transcript.Respond.{
  derived_interaction_id, last_of, tool_calls, add_outcomes, texts_in, thoughts_in, unrecorded_in,
  results_complete, moves_on, join_texts,
}
use volute.Transcript.Calls.{add_calls}

-- `T` holds instants.
pub record PlannedInteraction (T : Type 0) : Type 0 where
  pub id : Bytes
  pub response_key : Bytes
  pub parent_id : Option Bytes
  pub timestamp : T
  pub author : Author
  pub stimulus : List StimulusPart
  pub model_name : Option Bytes
  pub model_cot : Option Bytes
  pub model_response : Option Bytes
  pub tool_executions : List ToolExecution
  pub context_items : List ContextItem
  pub commit_candidates : List Bytes
  pub unrecorded_blocks : List Bytes
  pub first_offset : ℕ

pub record Plan (T : Type 0) : Type 0 where
  pub interactions : List (PlannedInteraction T)
  pub pending_responses : ℕ
  pub cursor_offset : ℕ
  pub title : Option Bytes
  pub first_human_prompt : Option Bytes

abbrev pub reversed : List ℕ → List ℕ
reversed [] = []
reversed (p ∷ ps) = reversed ps ++ p ∷ []

abbrev pub no_message : {V : Type 0} → AssistantMessage V
no_message = record { request_id = none; model = none; blocks = [] }

unfoldable pub timestamp_or : {T : Type 0} → T → Option T → T
timestamp_or now none = now
timestamp_or now (some stamp) = stamp

module _ {V T : Type 0} where
  -- The message of the assistant entry at a position; a group holds positions of such entries only.
  unfoldable pub message_at : List (Entry V T) → ℕ → AssistantMessage V
  message_at entries position = elim (get_elem? entries position) [
    | none ↦ no_message
    | some e ↦ elim e.payload [
      | Payload.assistant message ↦ message
      | Payload.user message ↦ no_message
      | Payload.other kind ↦ no_message
    ]
  ]

  unfoldable pub group_blocks : List (Entry V T) → List ℕ → List (AssistantBlock V)
  unfolding message_at
  group_blocks entries [] = []
  group_blocks entries (p ∷ ps) = (message_at entries p).blocks ++ group_blocks entries ps

  -- The first model that an entry of the response names.
  unfoldable pub model_name_of : List (Entry V T) → List ℕ → Option Bytes
  unfolding message_at
  model_name_of entries [] = none
  model_name_of entries (p ∷ ps) =
      first_some (message_at entries p).model (model_name_of entries ps)

  unfoldable pub any_moves_on : List (Entry V T) → Bool
  unfolding moves_on
  any_moves_on [] = false
  any_moves_on (e ∷ es) = moves_on e.payload || any_moves_on es

  unfoldable pub is_closed : Bool → List (Entry V T) → Grouping → Group → Bool
  unfolding group_blocks tool_calls add_outcomes results_complete any_moves_on last_of
  is_closed final_mode entries found group =
      let last = last_of group.positions in
      let blocks = group_blocks entries group.positions in
      let complete = results_complete (add_outcomes [] blocks) found.results (tool_calls blocks) in
      final_mode
      || (ltb (last + 1) (length entries) && (complete || any_moves_on (drop (last + 1) entries)))

  unfoldable pub blank_entry : Entry V T
  blank_entry = record {
    offset = 0;
    uuid = [];
    parent_uuid = none;
    timestamp = none;
    cwd = none;
    payload = Payload.assistant no_message;
  }

  -- `entries[group.positions[0]]`; a group has entries, and they are in range.
  unfoldable pub first_entry : List (Entry V T) → Group → Entry V T
  unfolding blank_entry
  first_entry entries group = get_or entries (get_or group.positions 0 0) blank_entry

unfoldable pub parent_id_of : Sha256 → Bytes → List Group → Option ℕ → Option Bytes
unfolding derived_interaction_id
parent_id_of sha session_id groups none = none
parent_id_of sha session_id groups (some index) = elim (get_elem? groups index) [
  | none ↦ none
  | some group ↦ some (derived_interaction_id sha session_id group.key)
]

module _ {V T : Type 0} (json : Json V) (sha : Sha256) (now : T) (input : PlanInput) where
  module _ (entries : List (Entry V T)) (found : Grouping) where
    -- What is planned for a closed response.
    unfoldable pub respond : Group → PlannedInteraction T
    unfolding first_entry group_blocks walk_back by_uuid stimulus_of author_of
        derived_interaction_id parent_id_of texts_in thoughts_in unrecorded_in join_texts
        model_name_of tool_calls add_outcomes add_calls timestamp_or
    respond group =
        let first = first_entry entries group in
        let blocks = group_blocks entries group.positions in
        let walked = walk_back entries (by_uuid entries) found.group_of first.parent_uuid in
        let given =
          stimulus_of entries found.tool_names input.subagent
            (reversed walked.stimulus_positions) in
        let id = derived_interaction_id sha input.session_id group.key in
        let calls =
          add_calls (add_outcomes [] blocks) found.results json input id
            (record { tool_executions = []; context_items = []; commit_candidates = [] })
            (tool_calls blocks) in
        record {
          id = id;
          response_key = group.key;
          parent_id = parent_id_of sha input.session_id found.groups walked.parent_group;
          timestamp = timestamp_or now first.timestamp;
          author = author_of given.0;
          stimulus = given.0;
          model_name = model_name_of entries group.positions;
          model_cot = join_texts (thoughts_in blocks);
          model_response = join_texts (texts_in blocks);
          tool_executions = calls.tool_executions;
          context_items = calls.context_items;
          commit_candidates = calls.commit_candidates;
          unrecorded_blocks = given.1 ++ unrecorded_in blocks;
          first_offset = first.offset;
        }

    unfoldable pub plan_group : Plan T → Group → Plan T
    unfolding is_closed respond first_entry
    plan_group done group =
        if is_closed input.final_mode entries found group
        then record done {
          cursor_offset = (first_entry entries group).offset;
          interactions = done.interactions ++ respond group ∷ [];
        }
        else record done { pending_responses = done.pending_responses + 1 }

    unfoldable pub plan_groups : Plan T → List Group → Plan T
    unfolding plan_group
    plan_groups done [] = done
    plan_groups done (group ∷ groups) = plan_groups (plan_group done group) groups

  unfoldable pub plan : List (ParsedLine V T) → ℕ → Plan T
  unfolding entries_of title_of grouping plan_groups
  plan lines window_start =
      let entries = entries_of lines in
      let found = grouping entries in
      plan_groups entries found
        (record {
          interactions = [];
          pending_responses = 0;
          cursor_offset = window_start;
          title = title_of lines;
          first_human_prompt = found.first_human_prompt;
        })
        found.groups

-- The text of an id is the UUID library's.
module _ {T : Type 0} (sha : Sha256) (spans : Spans) (id_text : Bytes → Bytes) where
  unfoldable pub user_prompt : PlannedInteraction T → Scrub → Bytes
  unfolding render
  user_prompt planned scrub = render sha spans (id_text planned.id) planned.stimulus scrub
