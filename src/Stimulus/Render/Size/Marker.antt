-- ===== src/Stimulus/Render/Size/Marker.antt =====
-- The length of the marker that opens a part, and of the least that is shown.
use volute.Prelude.{
  ℕ, ◌+◌, ◌≤◌, ◌≡◌, refl, Bool, Option, none, some, [], ◌++◌, length, arith, length-append,
  if◌then◌else◌,
}
use volute.Bytes.{Bytes, codes}
use volute.Stimulus.{
  PartKind, prompt, task, meta, compaction_summary, tool_result, omitted_reserve, boundary_len,
  placeholder_token,
}
use volute.Stimulus.Token.{is_valid_name}
use volute.Stimulus.Marker.{opening, label, terminator, render_marker}
use volute.Stimulus.Marker.Laws.{Labels, length-render_marker}
use volute.Stimulus.Budget.{floor, overhead}
use volute.Stimulus.Render.{Prepared, slot, slot_of}

slot-marker_len :
    (marker_len : ℕ) (kind : PartKind) (body : Option Bytes)
    → (slot_of marker_len kind body).marker_len ≡ marker_len
unfolding slot_of
slot-marker_len n prompt none = refl
slot-marker_len n prompt (some body) = refl
slot-marker_len n task none = refl
slot-marker_len n task (some body) = refl
slot-marker_len n meta none = refl
slot-marker_len n meta (some body) = refl
slot-marker_len n compaction_summary none = refl
slot-marker_len n compaction_summary (some body) = refl
slot-marker_len n tool_result none = refl
slot-marker_len n tool_result (some body) = refl

pub marker_size :
    (item : Prepared) (token : Bytes)
    → length token ≡ boundary_len
    → length (render_marker item.kind item.name item.is_error token) ≡ (slot item).marker_len
unfolding slot
marker_size item token e = rw slot-marker_len (
    omega (
      arith,
      length-render_marker item.kind item.name item.is_error token,
      length-render_marker item.kind item.name item.is_error placeholder_token,
    ))

label_size :
    (kind : PartKind) (name : Option Bytes) (is_error : Bool)
    → Labels kind name is_error
    → length (opening kind) + length (label kind name is_error) + length (terminator kind) ≤ 300
unfolding opening label terminator is_valid_name
label_size tool_result none is_error h = absurd h
label_size tool_result (some name) is_error h =
    let flag : length (if is_error then codes "error " else []) ≤ 6 = ground arith in
    let short : length name ≤ 200 = ground arith in
    omega (arith, length-append name (codes " " ++ (if is_error then codes "error " else [])))
label_size prompt name is_error h = omega arith
label_size task name is_error h = omega arith
label_size meta name is_error h = omega arith
label_size compaction_summary name is_error h = omega arith

marker_len_bounds :
    (item : Prepared)
    → Labels item.kind item.name item.is_error
    → (boundary_len ≤ (slot item).marker_len) × ((slot item).marker_len ≤ 321)
marker_len_bounds item h =
    let size = marker_size item placeholder_token refl in
    let written = length-render_marker item.kind item.name item.is_error placeholder_token in
    (omega arith, omega (arith, label_size item.kind item.name item.is_error h))

floor_bound_of : (n : ℕ) (kind : PartKind) (body : Option Bytes) → floor (slot_of n kind body) ≤ 256
unfolding slot_of floor
floor_bound_of n prompt none = omega arith
floor_bound_of n kind none = omega arith
floor_bound_of n prompt (some body) = omega arith
floor_bound_of n kind (some body) = omega arith

-- One part always fits the size of a stimulus.
pub one_part_bound :
    (item : Prepared)
    → Labels item.kind item.name item.is_error
    → overhead 0 (slot item) + floor (slot item) + omitted_reserve ≤ 705
unfolding overhead
one_part_bound item h =
    let bound : floor (slot item) ≤ 256 = unfold slot in floor_bound_of _ item.kind item.body in
    omega (arith, marker_len_bounds item h)
