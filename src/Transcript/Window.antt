-- ===== src/Transcript/Window.antt =====
-- transcript.rs: parse_window, over the complete lines of one read of a transcript.
pub mod Newline
pub mod Round
pub mod Outcome
pub mod Resume
use volute.Prelude.{ℕ, zero, suc, ◌+◌, Bool, true, false, none, some, List, [], ◌∷◌, ◌++◌, length}
use volute.Bytes.{Bytes, split_once}
use volute.Transcript.{TranscriptError, Parsed, ok, err, ◌>>=◌, ParsedLine}
use volute.Transcript.Line.{Readers, parse_line}

pub record Window (V T : Type 0) : Type 0 where
  pub lines : List (ParsedLine V T)
  pub consumed : ℕ
  pub truncated_tail : Bool

abbrev pub empty_window : {V T : Type 0} → Window V T
empty_window = record { lines = []; consumed = 0; truncated_tail = false }

module _ {V T : Type 0} where
  -- A line more, up to the byte `consumed`.
  unfoldable pub push_parsed : Window V T → ParsedLine V T → ℕ → Window V T
  push_parsed window line consumed = record {
    lines = window.lines ++ line ∷ [];
    consumed = consumed;
    truncated_tail = false;
  }

  -- The bytes after the last newline, of which there are some.
  unfoldable pub parse_tail : Window V T → Parsed (ParsedLine V T) → ℕ → Parsed (Window V T)
  unfolding push_parsed
  parse_tail window (ok parsed) consumed = ok (push_parsed window parsed consumed)
  parse_tail window (err (TranscriptError.malformed offset reason)) consumed =
      ok (record window { truncated_tail = true })
  parse_tail window (err (TranscriptError.unsupported_version offset version supported)) consumed =
      err (TranscriptError.unsupported_version offset version supported)
  parse_tail window (err (TranscriptError.session_mismatch offset expected found)) consumed =
      err (TranscriptError.session_mismatch offset expected found)

  module _ (parse : Bytes → ℕ → Parsed (ParsedLine V T)) (base : ℕ) where
    -- The loop, from `cursor` on, where `rest` is left: every round takes a byte at least.
    unfoldable pub rounds : ℕ → Bytes → ℕ → Window V T → Parsed (Window V T)
    unfolding push_parsed parse_tail
    rounds zero rest cursor window = ok window
    rounds (suc fuel) [] cursor window = ok window
    rounds (suc fuel) (b ∷ bs) cursor window = elim (split_once (10 ∷ []) (b ∷ bs)) [
      | none ↦ parse_tail window (parse (b ∷ bs) (base + cursor)) (cursor + length (b ∷ bs))
      | some found ↦ parse found.0 (base + cursor) >>= (λ parsed.
          rounds fuel found.1 (cursor + (length found.0 + 1))
            (push_parsed window parsed (cursor + (length found.0 + 1))))
    ]

    unfoldable pub read_lines : Bytes → Parsed (Window V T)
    unfolding rounds
    read_lines bytes = rounds (length bytes) bytes 0 empty_window

  unfoldable pub parse_window : Readers V T → Bytes → ℕ → Bytes → Bool → Parsed (Window V T)
  unfolding read_lines parse_line
  parse_window readers bytes base expected_session include_sidechain =
      read_lines (λ line offset. parse_line readers line offset expected_session include_sidechain)
        base bytes
