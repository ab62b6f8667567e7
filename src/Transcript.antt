-- ===== src/Transcript.antt =====
-- cvc-core/src/claude_code/transcript.rs: the lines of a Claude Code transcript as they are parsed,
-- and the records of models.rs that a planned interaction holds.
pub mod Maps
pub mod Content
pub mod Line
pub mod Window
pub mod Group
pub mod Walk
pub mod Candidate
pub mod Context
pub mod Respond
pub mod Calls
pub mod Plan
mod Tests
use volute.Prelude.{ℕ, Bool, Option, none, some, List}
use volute.Bytes.{Bytes}

-- An `i64`.
pub data ℤ : Type 0 where
  pos negsuc : ℕ → ℤ

-- What the code reads of a `serde_json::Value`.
pub record Json (V : Type 0) : Type 0 where
  pub get : V → Bytes → Option V
  pub as_str : V → Option Bytes
  pub as_bool : V → Option Bool
  pub as_i64 : V → Option ℤ
  pub as_u64 : V → Option ℕ
  pub as_array : V → Option (List V)
  pub is_object : V → Bool
  pub null : V
  pub is_null : V → Bool
  pub display : V → Bytes

pub data TranscriptError : Type 0 where
  malformed : (offset : ℕ) (reason : Bytes) → TranscriptError
  unsupported_version : (offset : ℕ) (version : Bytes) (supported : ℕ) → TranscriptError
  session_mismatch : (offset : ℕ) (expected found : Bytes) → TranscriptError

-- `Result<A, TranscriptError>`
pub data Parsed {ℓ} (A : Type ℓ) : Type ℓ where
  ok : A → Parsed A
  err : TranscriptError → Parsed A

infixl 5 ◌>>=◌
abbrev pub ◌>>=◌ {ℓ κ} : {A : Type ℓ} {B : Type κ} → Parsed A → (A → Parsed B) → Parsed B
ok a >>= f = f a
err e >>= f = err e

-- `option.ok_or_else(|| error)?`
abbrev pub ok_or {ℓ} : {A : Type ℓ} → Option A → TranscriptError → Parsed A
ok_or none e = err e
ok_or (some a) e = ok a

pub data TitleSource : Type 0 where
  custom generated : TitleSource

pub data OtherKind : Type 0 where
  stop_hook_summary compact_boundary attachment unknown : OtherKind

pub data ToolStatus : Type 0 where
  success failure : ToolStatus

pub data Author : Type 0 where
  human agent system external : Author

pub record ToolResultBlock : Type 0 where
  pub tool_use_id : Bytes
  pub content : Bytes
  pub is_error : Bool

pub record UserMessage : Type 0 where
  pub texts : List Bytes
  pub tool_results : List ToolResultBlock
  pub meta : Bool
  pub compact_summary : Bool
  pub unrecorded : List Bytes

pub data AssistantBlock (V : Type 0) : Type 0 where
  plain : Bytes → AssistantBlock V
  thinking : Bytes → AssistantBlock V
  tool_use : (id name : Bytes) (input : V) (server : Bool) → AssistantBlock V
  server_tool_result : (tool_use_id placeholder : Bytes) (status : ToolStatus) → AssistantBlock V
  unrecorded_block : Bytes → AssistantBlock V

pub record AssistantMessage (V : Type 0) : Type 0 where
  pub request_id : Option Bytes
  pub model : Option Bytes
  pub blocks : List (AssistantBlock V)

pub data Payload (V : Type 0) : Type 0 where
  user : UserMessage → Payload V
  assistant : AssistantMessage V → Payload V
  other : OtherKind → Payload V

-- `V` holds JSON values, and `T` instants.
pub record Entry (V T : Type 0) : Type 0 where
  pub offset : ℕ
  pub uuid : Bytes
  pub parent_uuid : Option Bytes
  pub timestamp : Option T
  pub cwd : Option Bytes
  pub payload : Payload V

pub data ParsedLine (V T : Type 0) : Type 0 where
  entry : Entry V T → ParsedLine V T
  title : Bytes → TitleSource → ParsedLine V T
  skipped : ParsedLine V T

-- An id is the sixteen bytes of its UUID. The database's ids are none here.
pub record ToolExecution : Type 0 where
  pub interaction_id : Bytes
  pub tool_protocol : Bytes
  pub tool_name : Bytes
  pub arguments : Bytes
  pub status : ToolStatus

-- `id`, `git_blob_sha` and `dirty_patch` are none in what the code plans.
pub record ContextItem : Type 0 where
  pub interaction_id : Bytes
  pub file_path : Bytes
  pub start_line : Option ℕ
  pub end_line : Option ℕ
