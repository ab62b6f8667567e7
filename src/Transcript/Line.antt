-- ===== src/Transcript/Line.antt =====
-- transcript.rs: parse_line, which reads one line as JSON and checks it, and what it calls for titles,
-- versions and the lines that are no message. `Transcript/Content` reads the blocks of a message.
pub mod Offset
use volute.Prelude.{
  ℕ, ◌*◌, ◌^◌, Bool, false, not, ◌&&◌, ◌||◌, Option, none, some, [], ◌∷◌, ◌++◌, length, ltb, ◌==◌,
  if◌then◌else◌, ◌⊎◌, inl, inr, first_some,
}
use volute.Bytes.{Bytes, codes, bytes_eq, all, is_digit, parse_digits}
use volute.Bytes.Trim.{trim, is_empty, split_where, strip_cr, is_ascii_whitespace}
use volute.Transcript.{
  Json, TranscriptError, Parsed, ok, err, ◌>>=◌, ok_or, ParsedLine, TitleSource, OtherKind, Payload,
}
use volute.Transcript.Maps.{is_some}
use volute.Transcript.Content.{get_str, parse_user_content, parse_assistant_content, malformed}

pub record RawEntry (V : Type 0) : Type 0 where
  pub kind : Option Bytes
  pub uuid : Option Bytes
  pub parent_uuid : Option Bytes
  pub logical_parent_uuid : Option Bytes
  pub session_id : Option Bytes
  pub timestamp : Option Bytes
  pub version : Option Bytes
  pub request_id : Option Bytes
  pub subtype : Option Bytes
  pub custom_title : Option Bytes
  pub ai_title : Option Bytes
  pub summary : Option Bytes
  pub cwd : Option Bytes
  pub is_sidechain : Option Bool
  pub is_meta : Option Bool
  pub is_compact_summary : Option Bool
  pub is_api_error_message : Option Bool
  pub message : Option V

-- What the libraries read: `serde_json::from_slice`, `DateTime::parse_from_rfc3339`, each with its
-- error's text, and the text of `{:?}`.
pub record Readers (V T : Type 0) : Type 0 where
  pub json : Json V
  pub from_slice : Bytes → Bytes ⊎ RawEntry V
  pub parse_from_rfc3339 : Bytes → Bytes ⊎ T
  pub debug : Bytes → Bytes

abbrev pub supported_major_version : ℕ
supported_major_version = 2

abbrev pub max_line_bytes : ℕ
max_line_bytes = 32 * 1024 * 1024

abbrev pub placeholder_title : Bytes
placeholder_title = codes "New session"

unfoldable pub or_false : Option Bool → Bool
or_false none = false
or_false (some b) = b

unfoldable pub title_line : {V T : Type 0} → Option Bytes → TitleSource → ParsedLine V T
unfolding trim bytes_eq
title_line none source = ParsedLine.skipped
title_line (some raw) source =
    let text = trim raw in
    if not (is_empty text) && not (bytes_eq text placeholder_title)
    then ParsedLine.title text source
    else ParsedLine.skipped

-- `part.parse::<u64>().ok()`: digits, after a plus sign or none, whose value fits.
digits_u64 : Bytes → Option ℕ
unfolding all is_digit parse_digits
digits_u64 digits =
    if not (is_empty digits) && (all is_digit digits && ltb (parse_digits 0 digits) (2 ^ 64))
    then some (parse_digits 0 digits)
    else none

unfoldable pub parse_u64 : Bytes → Option ℕ
unfolding digits_u64
parse_u64 [] = none
parse_u64 (d ∷ ds) = if d == b'+' then digits_u64 ds else digits_u64 (d ∷ ds)

module _ {V T : Type 0} (readers : Readers V T) where
  unfoldable pub parse_timestamp : Bytes → ℕ → Parsed T
  unfolding malformed
  parse_timestamp value offset = elim (readers.parse_from_rfc3339 value) [
    | inl error ↦
        malformed offset
          (codes "invalid timestamp " ++ (readers.debug value ++ (codes ": " ++ error)))
    | inr stamp ↦ ok stamp
  ]

  unfoldable pub check_version : Option Bytes → ℕ → Parsed {0} Unit
  unfolding malformed split_where parse_u64
  check_version none offset = malformed offset (codes "message entry has no version")
  check_version (some version) offset = elim (parse_u64 (split_where (λ b. b == b'.') version).0) [
    | none ↦ malformed offset (codes "unparsable version " ++ readers.debug version)
    | some major ↦
        if major == supported_major_version
        then ok tt
        else err (TranscriptError.unsupported_version offset version supported_major_version)
  ]

  unfoldable pub optional_timestamp : Option Bytes → ℕ → Parsed (Option T)
  unfolding parse_timestamp
  optional_timestamp none offset = ok none
  optional_timestamp (some value) offset = do stamp ← parse_timestamp value offset; ok (some stamp)

  unfoldable pub required_timestamp : Option Bytes → ℕ → Parsed T
  unfolding parse_timestamp malformed
  required_timestamp none offset = malformed offset (codes "message entry has no timestamp")
  required_timestamp (some value) offset = parse_timestamp value offset

unfoldable pub same_text : Option Bytes → Bytes → Bool
unfolding bytes_eq
same_text none name = false
same_text (some text) name = bytes_eq text name

unfoldable pub other_kind : Bytes → Option Bytes → OtherKind
unfolding same_text bytes_eq
other_kind kind subtype =
    if bytes_eq kind (codes "system") && same_text subtype (codes "compact_boundary")
    then OtherKind.compact_boundary
    else if bytes_eq kind (codes "system") && same_text subtype (codes "stop_hook_summary")
    then OtherKind.stop_hook_summary
    else if bytes_eq kind (codes "attachment")
    then OtherKind.attachment
    else OtherKind.unknown

-- The parent in the chain: past a compaction, the logical one.
unfoldable pub chain_parent : OtherKind → Option Bytes → Option Bytes → Option Bytes
chain_parent OtherKind.compact_boundary logical parent = first_some logical parent
chain_parent OtherKind.stop_hook_summary logical parent = parent
chain_parent OtherKind.attachment logical parent = parent
chain_parent OtherKind.unknown logical parent = parent

unfoldable pub request_id_of : Option Bytes → Option Bytes
request_id_of none = none
request_id_of (some id) = if is_empty id then none else some id

module _ {V T : Type 0} (readers : Readers V T) where
  -- A chained entry that is no message.
  unfoldable pub chain_entry : RawEntry V → Bytes → Bytes → ℕ → Parsed (ParsedLine V T)
  unfolding optional_timestamp other_kind chain_parent malformed bytes_eq
  chain_entry raw kind id offset =
      if is_some raw.message
        && (not (bytes_eq kind (codes "system")) && not (bytes_eq kind (codes "attachment")))
      then malformed offset
          (codes "unknown entry type " ++ (readers.debug kind ++ codes " carries a message"))
      else do
        stamp ← optional_timestamp readers raw.timestamp offset
        ok (
            ParsedLine.entry (record {
              offset = offset;
              uuid = id;
              parent_uuid =
                  chain_parent (other_kind kind raw.subtype) raw.logical_parent_uuid
                    raw.parent_uuid;
              timestamp = stamp;
              cwd = raw.cwd;
              payload = Payload.other (other_kind kind raw.subtype);
            }))

  unfoldable pub payload_of : RawEntry V → Bytes → V → V → ℕ → Parsed (Payload V)
  unfolding or_false request_id_of get_str parse_user_content parse_assistant_content bytes_eq
  payload_of raw kind message content offset =
      if bytes_eq kind (codes "user")
      then parse_user_content readers.json content offset (or_false raw.is_meta)
          (or_false raw.is_compact_summary)
        >>= (λ parsed. ok (Payload.user parsed))
      else if or_false raw.is_api_error_message
      then ok (Payload.other OtherKind.unknown)
      else do
        blocks ← parse_assistant_content readers.json content offset
        ok (
            Payload.assistant (record {
              request_id = request_id_of raw.request_id;
              model = get_str readers.json message (codes "model");
              blocks = blocks;
            }))

  unfoldable pub check_role : Bytes → Bytes → ℕ → Parsed {0} Unit
  unfolding bytes_eq malformed
  check_role role kind offset =
      if bytes_eq role kind
      then ok tt
      else malformed offset (
          codes "message role "
          ++ (readers.debug role ++ (codes " does not match entry type " ++ readers.debug kind)))

  unfoldable pub message_entry : RawEntry V → Bytes → ℕ → Parsed (ParsedLine V T)
  unfolding required_timestamp check_version payload_of check_role get_str
  message_entry raw kind offset = do
    id ← ok_or raw.uuid (TranscriptError.malformed offset (codes "message entry has no uuid"))
    session ←
        ok_or raw.session_id
          (TranscriptError.malformed offset (codes "message entry has no sessionId"))
    stamp ← required_timestamp readers raw.timestamp offset
    checked ← check_version readers raw.version offset
    message ←
        ok_or raw.message (TranscriptError.malformed offset (codes "message entry has no message"))
    role ←
        ok_or (get_str readers.json message (codes "role"))
          (TranscriptError.malformed offset (codes "message has no role"))
    matching ← check_role role kind offset
    content ←
        ok_or (readers.json.get message (codes "content"))
          (TranscriptError.malformed offset (codes "message has no content"))
    payload ← payload_of raw kind message content offset
    ok (
        ParsedLine.entry (record {
          offset = offset;
          uuid = id;
          parent_uuid = raw.parent_uuid;
          timestamp = some stamp;
          cwd = raw.cwd;
          payload = payload;
        }))

  -- The `match kind` and what follows it.
  unfoldable pub entry_of : RawEntry V → Bytes → ℕ → Parsed (ParsedLine V T)
  entry_of raw kind offset =
      if bytes_eq kind (codes "user") || bytes_eq kind (codes "assistant")
      then message_entry raw kind offset
      else if bytes_eq kind (codes "custom-title")
      then ok (title_line raw.custom_title TitleSource.custom)
      else if bytes_eq kind (codes "ai-title")
      then ok (title_line raw.ai_title TitleSource.generated)
      else if bytes_eq kind (codes "summary")
      then ok (title_line raw.summary TitleSource.generated)
      else elim raw.uuid [ none ↦ ok ParsedLine.skipped | some id ↦ chain_entry raw kind id offset ]

  unfoldable pub check_session : Option Bytes → Bytes → ℕ → Parsed {0} Unit
  unfolding bytes_eq
  check_session none expected offset = ok tt
  check_session (some session) expected offset =
      if bytes_eq session expected
      then ok tt
      else err (TranscriptError.session_mismatch offset expected session)

  unfoldable pub parse_raw : RawEntry V → ℕ → Bytes → Bool → Parsed (ParsedLine V T)
  parse_raw raw offset expected_session include_sidechain = do
    kind ← ok_or raw.kind (TranscriptError.malformed offset (codes "entry has no type"))
    matching ← check_session raw.session_id expected_session offset
    if or_false raw.is_sidechain && not include_sidechain
        then ok ParsedLine.skipped
        else entry_of raw kind offset

  unfoldable pub parse_line : Bytes → ℕ → Bytes → Bool → Parsed (ParsedLine V T)
  parse_line whole offset expected_session include_sidechain =
      let line = strip_cr whole in
      if all is_ascii_whitespace line
      then ok ParsedLine.skipped
      else if ltb max_line_bytes (length line)
      then malformed offset (codes "line exceeds the supported size")
      else elim (readers.from_slice line) [
        | inl error ↦ malformed offset (codes "not a JSON transcript entry: " ++ error)
        | inr raw ↦ parse_raw raw offset expected_session include_sidechain
      ]
