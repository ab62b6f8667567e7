-- ===== src/Stimulus.antt =====
-- cvc-core/src/stimulus.rs: the constants, the part kinds and the parts. The children hold the
-- tokens, the markers, the notes, the size budget, the cuts, the writer, the reader and the scrubber.
pub mod Token
pub mod Marker
pub mod Note
pub mod Budget
pub mod Cut
pub mod Render
pub mod Read
pub mod Scrub
mod Tests
use volute.Prelude.{ℕ, ◌+◌, ◌*◌, Bool, true, false, Option, none, List, [], ◌∷◌, ◌++◌}
use volute.Bytes.{Bytes, codes}
use volute.Privacy.{Result}

-- A scrubber: the policy's, or the built-in one.
abbrev pub Scrub : Type 0
Scrub = Bytes → Result Bytes

abbrev pub no_stimulus : Bytes
no_stimulus = codes "[no stimulus recorded]"

abbrev pub max_stimulus_bytes : ℕ
max_stimulus_bytes = 64 * 1024

abbrev pub max_parts : ℕ
max_parts = 512

abbrev pub max_name_bytes : ℕ
max_name_bytes = 200

abbrev pub tool_result_head_bytes : ℕ
tool_result_head_bytes = 6 * 1024

abbrev pub tool_result_tail_bytes : ℕ
tool_result_tail_bytes = 2 * 1024

abbrev pub tool_result_floor_bytes : ℕ
tool_result_floor_bytes = 256

abbrev pub boundary_candidates : ℕ
boundary_candidates = 64

abbrev pub boundary_prefix : Bytes
boundary_prefix = codes "~cvc-"

abbrev pub boundary_len : ℕ
boundary_len = 21

abbrev pub unknown_tool : Bytes
unknown_tool = codes "unknown-tool"

abbrev pub redacted_tool : Bytes
redacted_tool = codes "redacted-tool"

abbrev pub separator : Bytes
separator = 10 ∷ 10 ∷ []

abbrev pub boundary_domain : Bytes
boundary_domain = codes "cvc.stimulus-boundary/v2" ++ 0 ∷ []

-- The ellipsis U+2026 is three bytes.
abbrev pub truncated_open : Bytes
truncated_open = 0xe2 ∷ 0x80 ∷ 0xa6 ∷ codes "[cvc: truncated "

abbrev pub withheld_open : Bytes
withheld_open = codes "[cvc: withheld "

abbrev pub omitted_open : Bytes
omitted_open = codes "[cvc: omitted "

abbrev pub placeholder_token : Bytes
placeholder_token = codes "~cvc-0000000000000000"

abbrev pub note_reserve : ℕ
note_reserve = 64

abbrev pub omitted_reserve : ℕ
omitted_reserve = 64

abbrev pub max_scrubbed_bytes : ℕ
max_scrubbed_bytes = 8 * 1024 * 1024

abbrev pub undivided_note : Bytes
undivided_note = codes "[cvc: stimulus parts not marked]"

-- `WITHHELD_OPEN.len() + BOUNDARY_LEN + 1`
abbrev pub withheld_note_bytes : ℕ
withheld_note_bytes = 15 + boundary_len + 1

pub data PartKind : Type 0 where
  prompt task meta compaction_summary tool_result : PartKind

unfoldable pub shape_name : PartKind → Bytes
shape_name prompt = codes "prompt"
shape_name task = codes "task"
shape_name meta = codes "meta"
shape_name compaction_summary = codes "compaction_summary"
shape_name tool_result = codes "tool_result"

-- `kind == PartKind::ToolResult`
abbrev pub is_tool_result : PartKind → Bool
is_tool_result tool_result = true
is_tool_result _ = false

pub record StimulusPart : Type 0 where
  pub kind : PartKind
  pub name : Option Bytes
  pub is_error : Bool
  pub text : Bytes

-- `StimulusPart::of`; `prompt`, `task`, `meta` and `compaction_summary` are it at their kind.
abbrev pub of : PartKind → Bytes → StimulusPart
of kind text = record { kind = kind; name = none; is_error = false; text = text }

-- `StimulusPart::tool_result`
abbrev pub of_tool_result : Option Bytes → Bool → Bytes → StimulusPart
of_tool_result name is_error text = record {
  kind = tool_result;
  name = name;
  is_error = is_error;
  text = text;
}
