-- ===== src/Transcript/Content.antt =====
-- transcript.rs: the content of a message: parse_user_content, render_tool_result_content,
-- parse_assistant_content and server_result_status.
use volute.Prelude.{
  ℕ, zero, suc, Bool, true, false, ◌&&◌, ◌||◌, Option, none, some, List, [], ◌∷◌, ◌++◌,
  if◌then◌else◌,
}
use volute.Bytes.{Bytes, codes, bytes_eq, ends_with}
use volute.Bytes.Trim.{join}
use volute.Transcript.{
  pos, negsuc, Json, TranscriptError, Parsed, ok, err, ◌>>=◌, ok_or, UserMessage, ToolResultBlock,
  AssistantBlock, ToolStatus,
}
use volute.Transcript.Maps.{is_some}

unfoldable pub malformed {ℓ} : {A : Type ℓ} → ℕ → Bytes → Parsed A
malformed offset reason = err (TranscriptError.malformed offset reason)

abbrev pub server_tool_prefix : Bytes
server_tool_prefix = codes "server:"

-- A block's type in brackets.
unfoldable pub in_brackets : Bytes → Bytes
in_brackets kind = codes "[" ++ (kind ++ codes "]")

unfoldable pub or_empty : Option Bytes → Bytes
or_empty none = []
or_empty (some text) = text

module _ {V : Type 0} (json : Json V) where
  -- `value.get(key).and_then(Value::as_str)`
  unfoldable pub get_str : V → Bytes → Option Bytes
  get_str value key = elim (json.get value key) [ none ↦ none | some found ↦ json.as_str found ]

  unfoldable pub get_flag : V → Bytes → Bool
  get_flag value key = elim (json.get value key) [
    | none ↦ false
    | some found ↦ elim (json.as_bool found) [ none ↦ false | some flag ↦ flag ]
  ]

  unfoldable pub result_text : V → Bytes
  unfolding get_str or_empty in_brackets bytes_eq
  result_text block = elim (get_str block (codes "type")) [
    | none ↦ codes "[block]"
    | some kind ↦
        if bytes_eq kind (codes "text")
        then or_empty (get_str block (codes "text"))
        else in_brackets kind
  ]

  unfoldable pub result_texts : List V → List Bytes
  unfolding result_text
  result_texts [] = []
  result_texts (block ∷ blocks) = result_text block ∷ result_texts blocks

  unfoldable pub render_value : V → Bytes
  unfolding join result_texts
  render_value value = if json.is_null value then [] else elim (json.as_str value) [
    | some text ↦ text
    | none ↦ elim (json.as_array value) [
      | some blocks ↦ join (10 ∷ []) (result_texts blocks)
      | none ↦ json.display value
    ]
  ]

  unfoldable pub render_tool_result_content : Option V → Bytes
  unfolding render_value
  render_tool_result_content none = []
  render_tool_result_content (some value) = render_value value

  unfoldable pub tool_result_block : V → ℕ → Parsed ToolResultBlock
  unfolding get_str get_flag render_tool_result_content
  tool_result_block block offset = do
    id ←
        ok_or (get_str block (codes "tool_use_id"))
          (TranscriptError.malformed offset (codes "tool_result has no tool_use_id"))
    ok (record {
      tool_use_id = id;
      content = render_tool_result_content (json.get block (codes "content"));
      is_error = get_flag block (codes "is_error");
    })

unfoldable pub push_text : UserMessage → Bytes → UserMessage
push_text message text = record message { texts = message.texts ++ text ∷ [] }

unfoldable pub push_unrecorded : UserMessage → Bytes → UserMessage
unfolding push_text in_brackets
push_unrecorded message kind = record (push_text message (in_brackets kind)) {
  unrecorded = message.unrecorded ++ kind ∷ [];
}

module _ {V : Type 0} (json : Json V) where
  -- The body of the loop over the blocks.
  unfoldable pub user_block : UserMessage → V → Bytes → ℕ → Parsed UserMessage
  unfolding bytes_eq get_str or_empty push_text push_unrecorded tool_result_block
  user_block message block kind offset =
      if bytes_eq kind (codes "text")
      then ok (push_text message (or_empty (get_str json block (codes "text"))))
      else if bytes_eq kind (codes "tool_result")
      then tool_result_block json block offset
        >>= (λ result. ok (record message { tool_results = message.tool_results ++ result ∷ [] }))
      else if bytes_eq kind (codes "image")
      then ok (push_text message (codes "[image]"))
      else if bytes_eq kind (codes "document")
      then ok (push_text message (codes "[document]"))
      else ok (push_unrecorded message kind)

  unfoldable pub user_blocks : UserMessage → List V → ℕ → Parsed UserMessage
  unfolding get_str user_block
  user_blocks message [] offset = ok message
  user_blocks message (block ∷ blocks) offset = do
    kind ←
        ok_or (get_str json block (codes "type"))
          (TranscriptError.malformed offset (codes "user content block has no type"))
    next ← user_block message block kind offset
    user_blocks next blocks offset

  unfoldable pub parse_user_content : V → ℕ → Bool → Bool → Parsed UserMessage
  unfolding push_text user_blocks malformed
  parse_user_content content offset meta compact_summary =
      let message : UserMessage = record {
        texts = [];
        tool_results = [];
        meta = meta;
        compact_summary = compact_summary;
        unrecorded = [];
      } in
      elim (json.as_str content) [
        | some text ↦ ok (push_text message text)
        | none ↦ elim (json.as_array content) [
          | some blocks ↦ user_blocks message blocks offset
          | none ↦ malformed offset (codes "user content is neither text nor blocks")
        ]
      ]

  unfoldable pub is_non_zero_integer : V → Bool
  is_non_zero_integer value = elim (json.as_i64 value) [
    | some (pos zero) ↦ false
    | some (pos (suc n)) ↦ true
    | some (negsuc n) ↦ true
    | none ↦ elim (json.as_u64 value) [ none ↦ false | some zero ↦ false | some (suc n) ↦ true ]
  ]

  -- Whether the object in a result block's `content` reports a failure.
  unfoldable pub reports_failure : Bytes → V → Bool
  unfolding get_str ends_with bytes_eq is_non_zero_integer
  reports_failure block_type content =
      is_some (json.get content (codes "error_code"))
      || (elim (get_str json content (codes "type")) [
        | none ↦ false
        | some kind ↦ ends_with (codes "_error") kind
      ]
          || ((bytes_eq block_type (codes "bash_code_execution_tool_result")
                || bytes_eq block_type (codes "code_execution_tool_result"))
              && elim (json.get content (codes "return_code")) [
                | none ↦ false
                | some code ↦ is_non_zero_integer code
              ]))

  unfoldable pub server_result_status : Bytes → V → ToolStatus
  unfolding get_flag reports_failure
  server_result_status block_type block =
      if get_flag json block (codes "is_error")
      then ToolStatus.failure
      else elim (json.get block (codes "content")) [
        | none ↦ ToolStatus.success
        | some content ↦
            if json.is_object content && reports_failure block_type content
            then ToolStatus.failure
            else ToolStatus.success
      ]

  unfoldable pub call_block : V → Bool → ℕ → Parsed (AssistantBlock V)
  unfolding get_str
  call_block block server offset = do
    id ←
        ok_or (get_str json block (codes "id"))
          (TranscriptError.malformed offset (codes "tool_use has no id"))
    name ←
        ok_or (get_str json block (codes "name"))
          (TranscriptError.malformed offset (codes "tool_use has no name"))
    ok (
        AssistantBlock.tool_use id (if server then server_tool_prefix ++ name else name)
          (elim (json.get block (codes "input")) [ none ↦ json.null | some input ↦ input ]) server)

  unfoldable pub result_block : V → Bytes → AssistantBlock V
  unfolding get_str in_brackets server_result_status bytes_eq
  result_block block kind = elim (get_str json block (codes "tool_use_id")) [
    | some id ↦
        AssistantBlock.server_tool_result id (in_brackets kind) (server_result_status kind block)
    | none ↦
        if bytes_eq kind (codes "web_search_tool_result")
          || (bytes_eq kind (codes "web_fetch_tool_result")
              || bytes_eq kind (codes "code_execution_tool_result"))
        then AssistantBlock.plain (in_brackets kind)
        else AssistantBlock.unrecorded_block kind
  ]

  -- What a block adds, at its type.
  unfoldable pub assistant_block : V → Bytes → ℕ → Parsed (List (AssistantBlock V))
  unfolding bytes_eq get_str or_empty call_block ends_with result_block
  assistant_block block kind offset =
      if bytes_eq kind (codes "text")
      then ok (AssistantBlock.plain (or_empty (get_str json block (codes "text"))) ∷ [])
      else if bytes_eq kind (codes "thinking")
      then ok (AssistantBlock.thinking (or_empty (get_str json block (codes "thinking"))) ∷ [])
      else if bytes_eq kind (codes "redacted_thinking") || bytes_eq kind (codes "fallback")
      then ok []
      else if bytes_eq kind (codes "tool_use") || bytes_eq kind (codes "server_tool_use")
      then call_block block (bytes_eq kind (codes "server_tool_use")) offset
        >>= (λ call. ok (call ∷ []))
      else if ends_with (codes "_tool_result") kind
      then ok (result_block block kind ∷ [])
      else ok (AssistantBlock.unrecorded_block kind ∷ [])

  unfoldable pub assistant_blocks : List V → ℕ → Parsed (List (AssistantBlock V))
  unfolding get_str assistant_block
  assistant_blocks [] offset = ok []
  assistant_blocks (block ∷ blocks) offset = do
    kind ←
        ok_or (get_str json block (codes "type"))
          (TranscriptError.malformed offset (codes "assistant content block has no type"))
    added ← assistant_block block kind offset
    rest ← assistant_blocks blocks offset
    ok (added ++ rest)

  unfoldable pub parse_assistant_content : V → ℕ → Parsed (List (AssistantBlock V))
  unfolding assistant_blocks malformed
  parse_assistant_content content offset = elim (json.as_str content) [
    | some text ↦ ok (AssistantBlock.plain text ∷ [])
    | none ↦ elim (json.as_array content) [
      | some blocks ↦ assistant_blocks blocks offset
      | none ↦ malformed offset (codes "assistant content is neither text nor blocks")
    ]
  ]
