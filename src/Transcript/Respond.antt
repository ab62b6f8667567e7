-- ===== src/Transcript/Respond.antt =====
-- transcript.rs, `plan`: what is planned for one response: whether it is closed, its texts, and its id.
use volute.Prelude.{
  ℕ, ◌+◌, ◌%◌, Bool, true, false, not, ◌&&◌, ◌||◌, Option, none, some, List, [], ◌∷◌, ◌++◌, take,
  get_or, set, if◌then◌else◌,
}
use volute.Bytes.{Bytes, codes}
use volute.Bytes.Trim.{is_blank, is_empty, join}
use volute.Stimulus.Token.{Sha256}
use volute.Transcript.{Payload, AssistantBlock, OtherKind, ToolStatus, ToolResultBlock}
use volute.Transcript.Maps.{Entries, lookup, or_insert, is_some}

-- The bits of the version and of the variant.
unfoldable pub as_uuid : Bytes → Bytes
as_uuid bytes =
    let versioned = set bytes 6 (get_or bytes 6 0 % 0x10 + 0x80) in
    set versioned 8 (get_or bytes 8 0 % 0x40 + 0x80)

unfoldable pub derived_interaction_id : Sha256 → Bytes → Bytes → Bytes
unfolding as_uuid
derived_interaction_id sha session_id response_key = as_uuid (
    take 16 (
      sha.digest
        (codes "cvc.claude-code.interaction/v1" ++ (0 ∷ (session_id ++ (0 ∷ response_key))))))

pub record ToolCall (V : Type 0) : Type 0 where
  pub id : Bytes
  pub name : Bytes
  pub input : V
  pub server : Bool

-- `positions.last()`; a group has entries.
unfoldable pub last_of : List ℕ → ℕ
last_of [] = 0
last_of (p ∷ []) = p
last_of (p ∷ q ∷ ps) = last_of (q ∷ ps)

module _ {V : Type 0} where
  unfoldable pub tool_calls : List (AssistantBlock V) → List (ToolCall V)
  tool_calls [] = []
  tool_calls (AssistantBlock.tool_use id name input server ∷ blocks) =
      record { id = id; name = name; input = input; server = server } ∷ tool_calls blocks
  tool_calls (AssistantBlock.plain text ∷ blocks) = tool_calls blocks
  tool_calls (AssistantBlock.thinking text ∷ blocks) = tool_calls blocks
  tool_calls (AssistantBlock.server_tool_result id text status ∷ blocks) = tool_calls blocks
  tool_calls (AssistantBlock.unrecorded_block kind ∷ blocks) = tool_calls blocks

  unfoldable pub add_outcomes : Entries ToolStatus → List (AssistantBlock V) → Entries ToolStatus
  unfolding or_insert
  add_outcomes outcomes [] = outcomes
  add_outcomes outcomes (AssistantBlock.server_tool_result id text status ∷ blocks) =
      add_outcomes (or_insert outcomes id status) blocks
  add_outcomes outcomes (AssistantBlock.tool_use id name input server ∷ blocks) =
      add_outcomes outcomes blocks
  add_outcomes outcomes (AssistantBlock.plain text ∷ blocks) = add_outcomes outcomes blocks
  add_outcomes outcomes (AssistantBlock.thinking text ∷ blocks) = add_outcomes outcomes blocks
  add_outcomes outcomes (AssistantBlock.unrecorded_block kind ∷ blocks) =
      add_outcomes outcomes blocks

  -- The texts that the blocks add to the response: the placeholder that is next is that of the block.
  unfoldable pub texts_in : List (AssistantBlock V) → List Bytes
  texts_in [] = []
  texts_in (AssistantBlock.plain text ∷ blocks) = text ∷ texts_in blocks
  texts_in (AssistantBlock.thinking text ∷ blocks) = texts_in blocks
  texts_in (AssistantBlock.tool_use id name input server ∷ blocks) = texts_in blocks
  texts_in (AssistantBlock.server_tool_result id text status ∷ blocks) = text ∷ texts_in blocks
  texts_in (AssistantBlock.unrecorded_block kind ∷ blocks) =
      (codes "[" ++ (kind ++ codes "]")) ∷ texts_in blocks

  unfoldable pub thoughts_in : List (AssistantBlock V) → List Bytes
  thoughts_in [] = []
  thoughts_in (AssistantBlock.thinking text ∷ blocks) = text ∷ thoughts_in blocks
  thoughts_in (AssistantBlock.plain text ∷ blocks) = thoughts_in blocks
  thoughts_in (AssistantBlock.tool_use id name input server ∷ blocks) = thoughts_in blocks
  thoughts_in (AssistantBlock.server_tool_result id text status ∷ blocks) = thoughts_in blocks
  thoughts_in (AssistantBlock.unrecorded_block kind ∷ blocks) = thoughts_in blocks

  unfoldable pub unrecorded_in : List (AssistantBlock V) → List Bytes
  unrecorded_in [] = []
  unrecorded_in (AssistantBlock.unrecorded_block kind ∷ blocks) = kind ∷ unrecorded_in blocks
  unrecorded_in (AssistantBlock.plain text ∷ blocks) = unrecorded_in blocks
  unrecorded_in (AssistantBlock.thinking text ∷ blocks) = unrecorded_in blocks
  unrecorded_in (AssistantBlock.tool_use id name input server ∷ blocks) = unrecorded_in blocks
  unrecorded_in (AssistantBlock.server_tool_result id text status ∷ blocks) = unrecorded_in blocks

  -- A call has its result: a provider's in the response itself, another's among the user entries.
  unfoldable pub is_answered : Entries ToolStatus → Entries ToolResultBlock → ToolCall V → Bool
  unfolding lookup
  is_answered outcomes results call =
      if call.server then is_some (lookup outcomes call.id) else is_some (lookup results call.id)

  unfoldable pub results_complete :
      Entries ToolStatus → Entries ToolResultBlock → List (ToolCall V) → Bool
  unfolding is_answered
  results_complete outcomes results [] = true
  results_complete outcomes results (call ∷ calls) =
      is_answered outcomes results call && results_complete outcomes results calls

  unfoldable pub moves_on : Payload V → Bool
  moves_on (Payload.user message) = not (is_empty message.texts) || message.compact_summary
  moves_on (Payload.assistant message) = true
  moves_on (Payload.other OtherKind.stop_hook_summary) = true
  moves_on (Payload.other OtherKind.compact_boundary) = true
  moves_on (Payload.other OtherKind.attachment) = false
  moves_on (Payload.other OtherKind.unknown) = false

-- `parts.iter().filter(|part| !part.trim().is_empty())`
unfoldable pub not_blank : List Bytes → List Bytes
unfolding is_blank
not_blank [] = []
not_blank (t ∷ ts) = if is_blank t then not_blank ts else t ∷ not_blank ts

unfoldable pub join_texts : List Bytes → Option Bytes
unfolding not_blank join
join_texts parts =
    let joined = join (10 ∷ 10 ∷ []) (not_blank parts) in
    if is_empty joined then none else some joined
