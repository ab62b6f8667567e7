-- ===== src/Lib.antt =====
-- Verification of CVC (Cognitive Version Control), which keeps the context of AI-assisted work beside
-- a Git history: a local SQLite store, a privacy scrubber, capture of agent transcripts, and a
-- projection into `refs/cvc/main` (crates cvc-core, cvc-cli, cvc-mcp, cvc-lsp).
--
-- The stimulus of an interaction is what its agent was given: prompts, tasks, tool results and
-- injected text. cvc-core/src/stimulus.rs writes the parts as one text with a marker before each part,
-- whose boundary token is a digest that no part's content holds; reads such a text back and verifies
-- it; and scrubs one part by part. Capture and import call it with the scrubber of privacy.rs.
--
-- Files and code:
--   Prelude, Prelude/Tests, Prelude/Lists   helpers over the native numbers: tests, options, lists
--   Bytes, Bytes/Laws, Split     the functions of Rust's `str` that the code calls, over bytes
--   Privacy                      cvc-core/src/privacy.rs: PrivacyError and its Result
--   Privacy/Url, Url/Stripped    privacy.rs: url_without_userinfo, is_destination_fingerprint
--   Stimulus                     stimulus.rs: its constants, PartKind, StimulusPart
--   Stimulus/Token               is_valid_name, token_at, tokens_in, shape_of, boundary
--   Stimulus/Marker              Marker, render_marker, marker_at
--   Stimulus/Note                Note, note_at, notes_in and the writer's notes
--   Stimulus/Budget              Slot, largest_level, allocate
--   Stimulus/Cut                 head_end, tail_start, head_len, Content, fit
--   Stimulus/Render              prepare, slot, assemble, assemble_undivided, render_detailed, render
--   Stimulus/Read                Reading, read, verify
--   Stimulus/Scrub               scrub_stimulus and what it calls
--   Stimulus/Tests               the theorems at concrete inputs
--   Terminal                     cvc-cli/src/terminal_text.rs: what may reach a terminal
--   Terminal/Safe, Find, Userinfo   sanitize_for_terminal; without_url_userinfo and its searches
--   Columns                      cvc-cli/src/tui/text.rs: title, truncate, pad_start, wrap
--   Columns/Laws, Wrap, Wrap/Content   proofs on cutting and on wrapping
--   Columns/Environment          tui/text.rs: Glyphs, Environment::from_lookup, codeset_is_utf8
--   Tree                         cvc-cli/src/tui/tree.rs: split_agent_id, Tree::build, visible
--   Tree/Agent, Count, Parents, Once, Order   proofs on ids, positions and order
--   Derivation                   cvc-core/src/models.rs: DerivationEvent, canonical_id, verify_id
--   Derivation/Names, Put, Payload   proofs on the payload
--   Squash                       cvc-core/src/squash.rs: range_claim, select_relink_range; models.rs: ranges
--   Squash/Order, Select, Reorder  orders of ids and claims, the match chosen, other orders of the matches
--   Squash/Build                 ValidatedSquashPlan::build; Build/Equal, Events, Outcome: its proofs
--   Squash/Partition             validate_events; BTreeMap by its entries; Partition/Maps, Exact, Complete: proofs
--   Transcript                   cvc-core/src/claude_code/transcript.rs: its types, and those of models.rs
--   Transcript/Maps              HashMap as the list of its entries
--   Transcript/Content           parse_user_content, parse_assistant_content, server_result_status
--   Transcript/Line              parse_line, check_version, title_line; Line/Offset: offsets of entries
--   Transcript/Window            parse_window; Window/Newline, Round, Outcome, Resume: its proofs
--   Transcript/Group             plan: entries, titles, responses; Group/Index, Keys, ByKey: proofs
--   Transcript/Walk              plan: the chain of parents, the stimulus; Walk/Chain, Ends, Found: proofs
--   Transcript/Candidate         commit_candidates_from_tool; Candidate/Commits: what they are
--   Transcript/Context           read_range, worktree_relative, context_item_for; Bounds, Inside: proofs
--   Transcript/Respond, Calls    plan: the texts and the tool calls of a response
--   Transcript/Plan              plan, user_prompt; Plan/Closed, Pending, Cursor: proofs
--   Model                        cvc-cli/src/tui/model.rs: its types; Remote, Bars: the remote, the bars and
--                                their reasons (tui/words.rs)
--   Model/Rows, Pages, Loads     the list and the selection; the pages and the size; new, apply, set_status
--   Model/Reports, Picker        report; the picker of remotes
--   Model/Keys                   handle_key; Keys/Reach, Consent, Flows: the events and what holds after them
--   Model/Rows/Within, Kept, Frame, Bars/Allowed   proofs on the cursor, a reload and the bars
-- A proof stands in a child of the module whose code it is about.
--
-- An interaction is related to a commit by derivation events, whose id is the digest of a canonical
-- payload (models.rs). squash.rs makes such events for a squashed commit from the range that matches it:
-- select_relink_range chooses among several, build makes a plan of the events, and validate_events checks
-- the events against the sources. What Git, changeset.rs and the database answer to
-- build, errors included, is its argument Readings.
--
-- transcript.rs reads the transcript that Claude Code appends to, from a cursor on: parse_window parses
-- its complete lines, and plan makes an interaction of each closed response: the assistant entries of
-- one request, what they react to (found along the chain of parents), their tool calls and the commits
-- these name. user_prompt renders the stimulus by stimulus.rs. The plan's cursor starts the next read.
--
-- The screens of cvc-cli draw titles, ids and errors: terminal_text.rs keeps control characters and the
-- passwords of URLs off the terminal, tui/text.rs fits what is left into columns, and
-- tui/tree.rs groups the conversations that cvc-core/src/db.rs summarises for the list. tui/model.rs keeps
-- the state of the view: the event loop hands it data and keys, and it asks for one action at most, which
-- is to run a flow only where the bar of that flow is open. The lengths of the texts it draws, and how a
-- text is made fit to be shown, are interfaces (Words, Statuses), which any functions fill.
--
-- In Stimulus, Privacy, Tree, Derivation, Squash, Transcript and Model a text is the list of its bytes
-- in UTF-8; in Terminal and
-- Columns, whose code looks at characters, that of its characters, and offsets count these. `usize` is
-- ℕ: each sum the code forms is of lengths of texts in memory, and where the code subtracts, the guard
-- before it is written out, or the subtraction stops at zero as `saturating_sub` does. A closure that
-- changes a captured counter (`unscrubbed`) is a function that passes the counter on.
--
-- Loops are structural recursion, on the list or on the index that falls. Six run on fuel: the
-- bisection of `largest_level`, for which the distance of its ends is enough since each round brings
-- them nearer, and the walk of `tail_start`, for which the bytes that are left are enough since the end
-- of a text is a boundary; the search for URLs, each round of which goes on by three characters at
-- least; and the breaking of a long word, each round of which takes a character; the rounds of
-- parse_window, each of which takes a byte at least, so that their number is enough; and the walk along
-- the parents, whose limit of steps is the code's own.
--
-- Parameters, since their code is not in the repository: SHA-256 (a digest of 32 bytes); the columns
-- that a character takes (a space takes one); and the regular expression engine's search for redaction
-- markers, `redaction_marker_spans` of privacy.rs (matches in order, apart, not empty, at character
-- boundaries); JSON values and their parsing, instants and their parsing, the text of a UUID, and the
-- text of `{:?}`, which stands in error messages only. A path of the transcript is a Unix path of UTF-8, by
-- its components. The scrubber is an argument of the code itself.
--
-- Not modelled: the rest of cvc-core (SQLite statements, Git objects, file system), the commands and
-- screens of cvc-cli, the servers cvc-mcp and cvc-lsp, and all that is not Rust.
pub mod Prelude
pub mod Bytes
pub mod Privacy
pub mod Stimulus
pub mod Terminal
pub mod Columns
pub mod Tree
pub mod Derivation
pub mod Squash
pub mod Transcript
pub mod Model
