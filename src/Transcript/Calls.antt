-- ===== src/Transcript/Calls.antt =====
-- transcript.rs, `plan`: the tool calls of a response: their outcomes, the files they touched and the
-- commits that their results name.
use volute.Prelude.{
  ℕ, Bool, true, false, not, ◌&&◌, ◌||◌, Option, none, some, List, [], ◌∷◌, ◌++◌, ◌==◌,
  if◌then◌else◌,
}
use volute.Bytes.{Bytes, codes, starts_with, bytes_eq}
use volute.Transcript.{Json, ToolStatus, ToolResultBlock, ToolExecution, ContextItem}
use volute.Transcript.Maps.{Entries, lookup}
use volute.Transcript.Candidate.{has_text, commit_candidates_from_tool}
use volute.Transcript.Context.{PlanInput, context_item_for}
use volute.Transcript.Respond.{ToolCall}

unfoldable pub status_of_result : Option ToolResultBlock → ToolStatus
status_of_result none = ToolStatus.failure
status_of_result (some result) = if result.is_error then ToolStatus.failure else ToolStatus.success

unfoldable pub or_failure : Option ToolStatus → ToolStatus
or_failure none = ToolStatus.failure
or_failure (some outcome) = outcome

unfoldable pub is_success : ToolStatus → Bool
is_success ToolStatus.success = true
is_success ToolStatus.failure = false

unfoldable pub same_line : Option ℕ → Option ℕ → Bool
same_line none none = true
same_line (some a) (some b) = a == b
same_line _ _ = false

unfoldable pub same_item : ContextItem → ContextItem → Bool
unfolding bytes_eq same_line
same_item a b =
    bytes_eq a.file_path b.file_path
    && (same_line a.start_line b.start_line && same_line a.end_line b.end_line)

unfoldable pub has_item : List ContextItem → ContextItem → Bool
unfolding same_item
has_item [] item = false
has_item (existing ∷ items) item = same_item existing item || has_item items item

unfoldable pub push_item : List ContextItem → Option ContextItem → List ContextItem
unfolding has_item
push_item items none = items
push_item items (some item) = if has_item items item then items else items ++ item ∷ []

-- The candidates that are not there yet, at the end.
unfoldable pub push_candidates : List Bytes → List Bytes → List Bytes
unfolding has_text
push_candidates candidates [] = candidates
push_candidates candidates (c ∷ cs) =
    push_candidates (if has_text candidates c then candidates else candidates ++ c ∷ []) cs

-- What the loop over the tool calls fills.
pub record Calls : Type 0 where
  pub tool_executions : List ToolExecution
  pub context_items : List ContextItem
  pub commit_candidates : List Bytes

module _ {V : Type 0} (outcomes : Entries ToolStatus) (results : Entries ToolResultBlock) where
  unfoldable pub status_of : ToolCall V → ToolStatus
  unfolding lookup or_failure status_of_result
  status_of call =
      if call.server
      then or_failure (lookup outcomes call.id)
      else status_of_result (lookup results call.id)

  unfoldable pub protocol_of : ToolCall V → Bytes
  unfolding starts_with
  protocol_of call =
      if call.server
      then codes "server"
      else if starts_with (codes "mcp__") call.name
      then codes "mcp"
      else codes "native"

  module _ (json : Json V) (input : PlanInput) (id : Bytes) where
    -- The candidates in the result of a call that went well.
    unfoldable pub named_commits : ToolCall V → List Bytes
    unfolding status_of is_success lookup commit_candidates_from_tool
    named_commits call =
        if is_success (status_of call) && not call.server
        then elim (lookup results call.id) [
          | none ↦ []
          | some result ↦ commit_candidates_from_tool json call.name call.input result.content
        ]
        else []

    unfoldable pub add_call : Calls → ToolCall V → Calls
    unfolding status_of protocol_of named_commits push_candidates push_item context_item_for
    add_call done call = record {
      tool_executions =
          done.tool_executions
          ++ record {
            interaction_id = id;
            tool_protocol = protocol_of call;
            tool_name = call.name;
            arguments = json.display call.input;
            status = status_of call;
          }
            ∷ [];
      context_items =
          push_item done.context_items (context_item_for json call.name call.input input id);
      commit_candidates = push_candidates done.commit_candidates (named_commits call);
    }

    unfoldable pub add_calls : Calls → List (ToolCall V) → Calls
    unfolding add_call
    add_calls done [] = done
    add_calls done (call ∷ calls) = add_calls (add_call done call) calls
