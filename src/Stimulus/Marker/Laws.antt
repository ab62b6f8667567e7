-- ===== src/Stimulus/Marker/Laws.antt =====
-- The markers that `marker_at` accepts are those that `render_marker` writes.
use volute.Prelude.{
  ℕ, ◌+◌, ◌-◌, ◌≤◌, ◌≡◌, refl, ◌∙◌, Bool, true, false, Option, none, some, ◌∷◌, ◌++◌, length, take,
  drop, arith, length-append, append_assoc, take-length-append, drop-length-append, ltb, leb, ◌==◌,
  ◌||◌, ◌&&◌,
}
use native.Mathlib.Nat.{add_assoc}
use volute.Bytes.{Bytes, codes, strip_prefix, get_from, all}
use volute.Bytes.Laws.{strip_prefix-append, count_while-append, get_from-append}
use volute.Stimulus.{
  PartKind, prompt, task, meta, compaction_summary, tool_result, boundary_len, max_name_bytes,
}
use volute.Stimulus.Token.{is_name_byte, is_valid_name}
use volute.Stimulus.Token.Laws.{IsToken, length-IsToken, token_at-append}
use volute.Stimulus.Marker.{
  Marker, opening, terminator, label, render_marker, opened, flagged, named, closed, marker_at,
}

-- The names and flags that a marker of a kind can carry.
abbrev pub Labels : PartKind → Option Bytes → Bool → Type 0
Labels tool_result (some name) is_error = is_valid_name name ≡ true
Labels tool_result none is_error = ⊥
Labels _ name is_error = (name ≡ none) × (is_error ≡ false)

opened_lem : (kind : PartKind) (tail : Bytes) → opened (opening kind ++ tail) ≡ some (kind, tail)
unfolding opened
opened_lem prompt tail = refl
opened_lem task tail = refl
opened_lem meta tail = refl
opened_lem compaction_summary tail = refl
opened_lem tool_result tail = refl

valid_name_parts :
    (name : Bytes)
    → is_valid_name name ≡ true
    → (1 ≤ length name) × (length name ≤ max_name_bytes) × (all is_name_byte name ≡ true)
unfolding is_valid_name
valid_name_parts name h =
    let test = leb 1 (length name) && leb (length name) max_name_bytes in
    (ground (arith), ground arith, ground arith)

space-not-name : is_name_byte b' ' ≡ false
unfolding is_name_byte
space-not-name = refl

-- A valid name and the space after it.
named_valid :
    (name after : Bytes)
    → is_valid_name name ≡ true
    → named tool_result (name ++ (b' ' ∷ after))
      ≡ some (flagged name after (strip_prefix (codes "error ") after))
unfolding named
named_valid name after h =
    let parts = valid_name_parts name h in
    let n = count_while-append is_name_byte name b' ' after parts.2 space-not-name in
    let in_range : (length name == 0 || ltb max_name_bytes (length name)) ≡ false = ground arith in
    rw (n, take-length-append, drop-length-append, in_range)

named_lem :
    (kind : PartKind) (name : Option Bytes) (is_error : Bool) (token rest : Bytes)
    → Labels kind name is_error
    → IsToken token
    → named kind (label kind name is_error ++ (token ++ rest))
      ≡ some (name, is_error, token ++ rest)
unfolding named label
named_lem prompt name is_error token rest h t = cc
named_lem task name is_error token rest h t = cc
named_lem meta name is_error token rest h t = cc
named_lem compaction_summary name is_error token rest h t = cc
named_lem tool_result none is_error token rest h t = absurd h
named_lem tool_result (some name) true token rest h t =
    rw append_assoc (named_valid name (codes "error " ++ (token ++ rest)) h ∙ rw t.split)
named_lem tool_result (some name) false token rest h t =
    rw append_assoc (named_valid name (token ++ rest) h ∙ rw t.split)

closed_lem :
    (at : ℕ) (whole_marker : Bytes) (kind : PartKind) (name : Option Bytes) (is_error : Bool)
    (token rest : Bytes)
    → IsToken token
    → closed at whole_marker kind name is_error (token ++ (terminator kind ++ rest))
      ≡ some (record {
        kind = kind;
        name = name;
        is_error = is_error;
        token = token;
        start = at;
        token_offset = at + (length whole_marker - length (token ++ (terminator kind ++ rest)));
        end =
            at
            + (length whole_marker - length (token ++ (terminator kind ++ rest)))
            + boundary_len
            + length (terminator kind);
      })
unfolding closed
closed_lem at whole_marker kind name is_error token rest t =
    let kept : take boundary_len (token ++ (terminator kind ++ rest)) ≡ token =
      rw (← length-IsToken t) (take-length-append token _) in
    let left : drop boundary_len (token ++ (terminator kind ++ rest)) ≡ terminator kind ++ rest =
      rw (← length-IsToken t) (drop-length-append token _) in
    rw (token_at-append token _ t, kept, left, strip_prefix-append)

-- The marker that `render_marker` writes, at an offset.
abbrev pub marker_of : ℕ → PartKind → Option Bytes → Bool → Bytes → Marker
marker_of at kind name is_error token = record {
  kind = kind;
  name = name;
  is_error = is_error;
  token = token;
  start = at;
  token_offset = at + length (opening kind) + length (label kind name is_error);
  end = at + length (render_marker kind name is_error token);
}

pub render_marker-append :
    (kind : PartKind) (name : Option Bytes) (is_error : Bool) (token rest : Bytes)
    → render_marker kind name is_error token ++ rest
      ≡ opening kind ++ (label kind name is_error ++ (token ++ (terminator kind ++ rest)))
unfolding render_marker
render_marker-append kind name is_error token rest = simp append_assoc

pub length-render_marker :
    (kind : PartKind) (name : Option Bytes) (is_error : Bool) (token : Bytes)
    → length (render_marker kind name is_error token)
      ≡ length (opening kind)
        + length (label kind name is_error)
        + length token
        + length (terminator kind)
unfolding render_marker
length-render_marker kind name is_error token = simp (length-append, add_assoc)

get_from-opening :
    (before tail : Bytes) (kind : PartKind)
    → get_from (before ++ (opening kind ++ tail)) (length before) ≡ some (opening kind ++ tail)
unfolding opening
get_from-opening before tail prompt = get_from-append before _ _ (omega arith)
get_from-opening before tail task = get_from-append before _ _ (omega arith)
get_from-opening before tail meta = get_from-append before _ _ (omega arith)
get_from-opening before tail compaction_summary = get_from-append before _ _ (omega arith)
get_from-opening before tail tool_result = get_from-append before _ _ (omega arith)

-- `marker_at` reads back each field of a marker that `render_marker` writes, and its offsets, whatever
-- bytes stand before and after it, if the token is one and if the name is valid for a tool result, and
-- absent, as the flag is, for the other kinds.
pub marker_at-render_marker :
    (before rest : Bytes) (kind : PartKind) (name : Option Bytes) (is_error : Bool) (token : Bytes)
    → Labels kind name is_error
    → IsToken token
    → marker_at (before ++ (render_marker kind name is_error token ++ rest)) (length before)
      ≡ some (marker_of (length before) kind name is_error token)
unfolding marker_at
marker_at-render_marker before rest kind name is_error token h t =
    let tail = token ++ (terminator kind ++ rest) in
    let text = opening kind ++ (label kind name is_error ++ tail) in
    let skipped : length text - length tail
        ≡ length (opening kind) + length (label kind name is_error) =
      omega (
        arith,
        length-append (opening kind) (label kind name is_error ++ tail),
        length-append (label kind name is_error) tail,
      ) in
    let start : length before + (length text - length tail)
        ≡ length before + length (opening kind) + length (label kind name is_error) =
      omega (arith, skipped) in
    let end : length before + (length text - length tail) + boundary_len + length (terminator kind)
        ≡ length before + length (render_marker kind name is_error token) =
      omega (arith, skipped, length-render_marker kind name is_error token, length-IsToken t) in
    rw
      (
        render_marker-append kind name is_error token rest,
        get_from-opening before (label kind name is_error ++ tail) kind,
        opened_lem kind (label kind name is_error ++ tail),
        named_lem kind name is_error token (terminator kind ++ rest) h t,
        closed_lem (length before) text kind name is_error token rest t,
      )
      (λ i. some (record {
        kind = kind;
        name = name;
        is_error = is_error;
        token = token;
        start = length before;
        token_offset = start i;
        end = end i;
      }))
