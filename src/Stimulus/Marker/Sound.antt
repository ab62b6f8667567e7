-- ===== src/Stimulus/Marker/Sound.antt =====
-- What `marker_at` accepts is what `render_marker` writes.
use volute.Prelude.{
  ℕ, ◌+◌, ◌-◌, ◌≡◌, sym, ap, subst, ◌∙◌, Bool, true, false, Option, some, [], ◌++◌, ◌⊎◌, length,
  take, drop, Bool-cases, Option-cases, inl, inr, arith, length-append, append_assoc,
  take-append-drop, if◌then◌else◌, ltb, ◌==◌, ◌||◌, >>=-eq-some, some-eq, if-eq-some,
  length-take-le,
}
use volute.Bytes.{Bytes, codes, strip_prefix, get_from, count_while, slice}
use volute.Bytes.Laws.{strip_prefix→append, get_from→drop, all-take-count_while, count_while-le}
use volute.Stimulus.{
  PartKind, prompt, task, meta, compaction_summary, tool_result, boundary_len, max_name_bytes,
}
use volute.Stimulus.Token.{is_name_byte, is_valid_name, token_at}
use volute.Stimulus.Token.Laws.{IsToken, length-IsToken, token_at-IsToken}
use volute.Stimulus.Marker.{
  Marker, opening, terminator, label, render_marker, opened_as, opened, flagged, named, closed,
  marker_at,
}
use volute.Stimulus.Marker.Laws.{Labels, marker_of, render_marker-append, length-render_marker}

opened_as_sound :
    (kind : PartKind) (rest : Bytes) (other : Option (PartKind × Bytes)) {k : PartKind}
    {tail : Bytes}
    → opened_as kind rest other ≡ some (k, tail)
    → (rest ≡ opening k ++ tail) ⊎ (other ≡ some (k, tail))
unfolding opened_as
opened_as_sound kind rest other {k} {tail} h =
    elim (Option-cases (strip_prefix (opening kind) rest)) [
      | inl miss ↦ inr (ground arith)
      | inr (found, hit) ↦
          inl (ground (arith, strip_prefix→append (opening kind) rest {xs = found} hit))
    ]

opened_sound :
    (rest : Bytes) {kind : PartKind} {tail : Bytes}
    → opened rest ≡ some (kind, tail)
    → rest ≡ opening kind ++ tail
unfolding opened
opened_sound rest {kind} {tail} h = elim (opened_as_sound prompt rest _ h) [
  | inl e ↦ e
  | inr h ↦ elim (opened_as_sound task rest _ h) [
    | inl e ↦ e
    | inr h ↦ elim (opened_as_sound meta rest _ h) [
      | inl e ↦ e
      | inr h ↦ elim (opened_as_sound compaction_summary rest _ h) [
        | inl e ↦ e
        | inr h ↦ elim (opened_as_sound tool_result rest _ h) [ inl e ↦ e | inr h ↦ cc ]
      ]
    ]
  ]
]

name_taken :
    (tail : Bytes)
    → let n = count_while is_name_byte tail in
      (n == 0 || ltb max_name_bytes n) ≡ false → is_valid_name (take n tail) ≡ true
unfolding is_valid_name
name_taken tail good =
    let n = count_while is_name_byte tail in
    let bytes = all-take-count_while is_name_byte tail in
    let taken = length-take-le n tail (count_while-le is_name_byte tail) in
    rw (taken, bytes) (ground arith)

flagged_sound :
    (name' after : Bytes) {name : Option Bytes} {is_error : Bool} {tail : Bytes}
    → flagged name' after (strip_prefix (codes "error ") after) ≡ (name, is_error, tail)
    → (name ≡ some name') × (after ≡ (if is_error then codes "error " else []) ++ tail)
unfolding flagged
flagged_sound name' after {name} {is_error} {tail} h =
    elim (Option-cases (strip_prefix (codes "error ") after)) [
      | inl plain ↦ ground (arith, h)
      | inr (rest, error) ↦
          ground (arith, strip_prefix→append (codes "error ") after {xs = rest} error)
    ]

named_sound :
    (kind : PartKind) (tail : Bytes) {name : Option Bytes} {is_error : Bool} {tail' : Bytes}
    → named kind tail ≡ some (name, is_error, tail')
    → Labels kind name is_error × (tail ≡ label kind name is_error ++ tail')
unfolding named label
named_sound tool_result tail {name} {is_error} {tail'} h =
    let n = count_while is_name_byte tail in
    elim (Bool-cases (n == 0 || ltb max_name_bytes n)) [
      | inl bad ↦ cc (rw bad at h)
      | inr good ↦
          let (after, spaced, flags) =
            >>=-eq-some (strip_prefix (codes " ") (drop n tail)) _ (rw good at h) in
          let named_as =
            flagged_sound (take n tail) after {name = name} {is_error = is_error} {tail = tail'}
              (some-eq flags) in
          let split : tail ≡ take n tail ++ (codes " " ++ after) =
            sym (take-append-drop n tail)
            ∙ ap (λ (rest : Bytes). take n tail ++ rest)
                (strip_prefix→append (codes " ") (drop n tail) spaced) in
          rw (named_as.0) (
            name_taken tail good,
            split
                ∙ (ap (λ (rest : Bytes). take n tail ++ (codes " " ++ rest)) named_as.1
                    ∙ sym (
                        append_assoc (take n tail)
                          (codes " " ++ (if is_error then codes "error " else [])) tail')),
          )
    ]
named_sound prompt tail h = ground arith
named_sound task tail h = ground arith
named_sound meta tail h = ground arith
named_sound compaction_summary tail h = ground arith

closed_sound :
    (at : ℕ) (rest : Bytes) (kind : PartKind) (name : Option Bytes) (is_error : Bool) (tail : Bytes)
    {m : Marker}
    → closed at rest kind name is_error tail ≡ some m
    → (after : Bytes) × (tail ≡ m.token ++ (terminator kind ++ after))
      × IsToken m.token
      × (m ≡ record {
        kind = kind;
        name = name;
        is_error = is_error;
        token = m.token;
        start = at;
        token_offset = at + (length rest - length tail);
        end = at + (length rest - length tail) + boundary_len + length (terminator kind);
      })
unfolding closed slice
closed_sound at rest kind name is_error tail {m} h =
    let (found, ended) = if-eq-some (token_at tail 0) _ h in
    let (after, terminated, made) =
      >>=-eq-some (strip_prefix (terminator kind) (drop boundary_len tail)) _ ended in
    let (room, token) = token_at-IsToken tail 0 found in
    let made_of = some-eq made in
    let token_is : take boundary_len tail ≡ m.token = ap (λ (m : Marker). m.token) made_of in
    let split : tail ≡ take boundary_len tail ++ (terminator kind ++ after) =
      sym (take-append-drop boundary_len tail)
      ∙ ap (λ (rest : Bytes). take boundary_len tail ++ rest)
          (strip_prefix→append (terminator kind) (drop boundary_len tail) terminated) in
    (
      after,
      split ∙ ap (λ (t : Bytes). t ++ (terminator kind ++ after)) token_is,
      subst IsToken token_is token,
      sym made_of ∙ (λ i. record {
        kind = kind;
        name = name;
        is_error = is_error;
        token = token_is i;
        start = at;
        token_offset = at + (length rest - length tail);
        end = at + (length rest - length tail) + boundary_len + length (terminator kind);
      }),
    )

-- A text opens with the marker at an offset.
pub record Opens (text : Bytes) (at : ℕ) (m : Marker) : Type 0 where
  pub after : Bytes
  pub labels : Labels m.kind m.name m.is_error
  pub token : IsToken m.token
  pub written : drop at text ≡ render_marker m.kind m.name m.is_error m.token ++ after
  pub placed : m ≡ marker_of at m.kind m.name m.is_error m.token

module _ (text : Bytes) (at : ℕ) (rest : Bytes) (kind : PartKind) (tail : Bytes)
    (name : Option Bytes) (is_error : Bool) (tail' after token : Bytes) (from : rest ≡ drop at text)
    (opens : rest ≡ opening kind ++ tail)
    (names : Labels kind name is_error × (tail ≡ label kind name is_error ++ tail'))
    (closes : tail' ≡ token ++ (terminator kind ++ after)) (is_token : IsToken token) where
  offset_lem :
      length rest - length tail' ≡ length (opening kind) + length (label kind name is_error)
  offset_lem = omega (
    arith,
    ap (λ (xs : Bytes). length xs) opens,
    ap (λ (xs : Bytes). length xs) names.1,
    length-append (opening kind) tail,
    length-append (label kind name is_error) tail',
  )

  make-Opens : Opens text at (record {
    kind = kind;
    name = name;
    is_error = is_error;
    token = token;
    start = at;
    token_offset = at + (length rest - length tail');
    end = at + (length rest - length tail') + boundary_len + length (terminator kind);
  })
  make-Opens = record {
    after = after;
    labels = names.0;
    token = is_token;
    written =
        rw (render_marker-append kind name is_error token after)
          (cc (from, opens, names.1, closes));
    placed = λ i. record {
      kind = kind;
      name = name;
      is_error = is_error;
      token = token;
      start = at;
      token_offset = start i;
      end = end i;
    };
  }
    where
      start :
          at + (length rest - length tail')
          ≡ at + length (opening kind) + length (label kind name is_error)
      start = omega (arith, offset_lem)

      end :
          at + (length rest - length tail') + boundary_len + length (terminator kind)
          ≡ at + length (render_marker kind name is_error token)
      end = omega (
        arith,
        offset_lem,
        length-render_marker kind name is_error token,
        length-IsToken is_token,
      )

-- Where `marker_at` accepts a marker at an offset, the text there opens with exactly the bytes that
-- `render_marker` writes for its fields, which have a token, and a name and a flag fit for the kind,
-- and the offsets it gives are those of these bytes.
pub marker_at-Opens :
    (text : Bytes) (at : ℕ) {m : Marker} → marker_at text at ≡ some m → Opens text at m
unfolding marker_at
marker_at-Opens text at {m} h =
    let (rest, whole, h1) = >>=-eq-some (get_from text at) _ h in
    let (first, kinds, h2) = >>=-eq-some (opened rest) _ h1 in
    let (second, names, h3) = >>=-eq-some (named first.0 first.1) _ h2 in
    let (after, closes, token, made) = closed_sound at rest first.0 second.0 second.1 second.2 h3 in
    subst (Opens text at) (sym made) (
      make-Opens text at rest first.0 first.1 second.0 second.1 second.2 after m.token
        (get_from→drop text at whole) (opened_sound rest kinds) (named_sound first.0 first.1 names)
        closes token)
