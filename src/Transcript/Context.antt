-- ===== src/Transcript/Context.antt =====
-- transcript.rs: read_range, worktree_relative and context_item_for. A path is a Unix path of UTF-8,
-- given as the components that `Path::components` yields.
pub mod Bounds
pub mod Inside
use volute.Prelude.{
  ℕ, zero, suc, ◌+◌, ◌-◌, min, max, Bool, true, false, ◌||◌, Option, none, some, List, [], ◌∷◌,
  ◌++◌, ◌==◌, if◌then◌else◌, ◌>>=◌, first_some,
}
use volute.Bytes.{Bytes, codes, bytes_eq}
use volute.Bytes.Trim.{split_all}
use volute.Transcript.{ℤ, pos, negsuc, Json, ContextItem}

abbrev pub i32_max : ℕ
i32_max = 2147483647

abbrev pub i64_max : ℕ
i64_max = 9223372036854775807

-- `filter(|value| *value >= 1)`
unfoldable pub at_least_one : ℤ → Option ℕ
at_least_one (pos zero) = none
at_least_one (pos (suc n)) = some (suc n)
at_least_one (negsuc n) = none

module _ {V : Type 0} (json : Json V) where
  unfoldable pub line_number : V → Bytes → Option ℕ
  unfolding at_least_one
  line_number input key = do value ← json.get input key; n ← json.as_i64 value; at_least_one n

-- `value.clamp(1, i32::MAX)`
unfoldable pub held : ℕ → ℕ
held value = max 1 (min value i32_max)

-- `offset.saturating_add(limit - 1)` on `i64`.
unfoldable pub last_line : ℕ → ℕ → ℕ
last_line offset limit = min (offset + (limit - 1)) i64_max

unfoldable pub range_of : Option ℕ → Option ℕ → Option ℕ × Option ℕ
unfolding held last_line
range_of (some offset) (some limit) = (some (held offset), some (held (last_line offset limit)))
range_of (some offset) none = (some (held offset), none)
range_of none limit = (none, none)

module _ {V : Type 0} (json : Json V) where
  unfoldable pub read_range : V → Option ℕ × Option ℕ
  unfolding range_of line_number
  read_range input =
      range_of (line_number json input (codes "offset")) (line_number json input (codes "limit"))

pub data Component : Type 0 where
  root_dir cur_dir parent_dir : Component
  normal : Bytes → Component

unfoldable pub component_eq : Component → Component → Bool
unfolding bytes_eq
component_eq root_dir root_dir = true
component_eq cur_dir cur_dir = true
component_eq parent_dir parent_dir = true
component_eq (normal a) (normal b) = bytes_eq a b
component_eq _ _ = false

-- The pieces between slashes: empty ones and, but for a first one, single dots are none.
pieces : Bool → List Bytes → List Component
unfolding bytes_eq
pieces first [] = []
pieces first (p ∷ ps) =
    let rest = pieces false ps in
    if bytes_eq p []
    then rest
    else if bytes_eq p (codes ".")
    then (if first then cur_dir ∷ rest else rest)
    else if bytes_eq p (codes "..")
    then parent_dir ∷ rest
    else normal p ∷ rest

-- `Path::new(raw).components()`
unfoldable pub components : Bytes → List Component
unfolding pieces split_all
components [] = []
components (x ∷ xs) =
    if x == b'/'
    then root_dir ∷ pieces false (split_all (λ b. b == b'/') xs)
    else pieces true (split_all (λ b. b == b'/') (x ∷ xs))

unfoldable pub is_absolute : List Component → Bool
is_absolute (root_dir ∷ cs) = true
is_absolute _ = false

-- `path.strip_prefix(base)`
unfoldable pub strip_path : List Component → List Component → Option (List Component)
unfolding component_eq
strip_path [] path = some path
strip_path (b ∷ base) [] = none
strip_path (b ∷ base) (c ∷ path) =
    let rest = strip_path base path in if component_eq b c then rest else none

-- `.map(|rest| canonical.join(rest))`
joined_path : List Component → Option (List Component) → Option (List Component)
joined_path canonical none = none
joined_path canonical (some rest) = some (canonical ++ rest)

-- `path_aliases.iter().find_map(...)`
unfoldable pub aliased :
    List Component → List (List Component × List Component) → Option (List Component)
unfolding strip_path joined_path
aliased path [] = none
aliased path ((spelled, canonical) ∷ aliases) =
    first_some (joined_path canonical (strip_path spelled path)) (aliased path aliases)

-- The names of components that are all `Component::Normal`.
unfoldable pub names_of : List Component → Option (List Bytes)
names_of [] = some []
names_of (normal name ∷ cs) = do names ← names_of cs; some (name ∷ names)
names_of (root_dir ∷ cs) = none
names_of (cur_dir ∷ cs) = none
names_of (parent_dir ∷ cs) = none

-- The names with a slash between.
unfoldable pub rendered : List Bytes → Bytes
rendered [] = []
rendered (n ∷ []) = n
rendered (n ∷ m ∷ ns) = n ++ (b'/' ∷ rendered (m ∷ ns))

unfoldable pub relative_names : List Component → Option Bytes
unfolding names_of rendered
relative_names [] = none
relative_names (c ∷ cs) = do names ← names_of (c ∷ cs); some (rendered names)

unfoldable pub resolve :
    List Component
    → List Component
    → List (List Component × List Component)
    → Option (List Component)
unfolding strip_path aliased
resolve path worktree_root path_aliases = elim (strip_path worktree_root path) [
  | some rest ↦ some path
  | none ↦ aliased path path_aliases
]

unfoldable pub relative_path :
    List Component → List Component → List (List Component × List Component) → Option Bytes
unfolding resolve strip_path relative_names
relative_path path worktree_root path_aliases = do
  resolved ← resolve path worktree_root path_aliases
  relative ← strip_path worktree_root resolved
  relative_names relative

unfoldable pub worktree_relative :
    Bytes → List Component → List (List Component × List Component) → Option Bytes
unfolding components is_absolute relative_path
worktree_relative raw worktree_root path_aliases =
    let path = components raw in
    if is_absolute path then relative_path path worktree_root path_aliases else none

-- `PlanInput`, with the worktree's root and the aliases as components.
pub record PlanInput : Type 0 where
  pub session_id : Bytes
  pub worktree_root : List Component
  pub path_aliases : List (List Component × List Component)
  pub final_mode : Bool
  pub subagent : Bool

-- The key that names the path in a tool's input.
unfoldable pub path_key : Bytes → Option Bytes
unfolding bytes_eq
path_key tool_name =
    if bytes_eq tool_name (codes "Read")
      || (bytes_eq tool_name (codes "Edit")
          || (bytes_eq tool_name (codes "Write") || bytes_eq tool_name (codes "MultiEdit")))
    then some (codes "file_path")
    else if bytes_eq tool_name (codes "NotebookEdit")
    then some (codes "notebook_path")
    else none

module _ {V : Type 0} (json : Json V) where
  unfoldable pub item_for : Bytes → V → Bytes → Bytes → ContextItem
  unfolding read_range bytes_eq
  item_for tool_name input interaction_id file_path =
      let range =
        if bytes_eq tool_name (codes "Read") then read_range json input else (none, none) in
      record {
        interaction_id = interaction_id;
        file_path = file_path;
        start_line = range.0;
        end_line = range.1;
      }

  unfoldable pub context_item_for : Bytes → V → PlanInput → Bytes → Option ContextItem
  unfolding path_key worktree_relative item_for
  context_item_for tool_name input plan_input interaction_id = do
    key ← path_key tool_name
    value ← json.get input key
    raw ← json.as_str value
    file_path ← worktree_relative raw plan_input.worktree_root plan_input.path_aliases
    some (item_for tool_name input interaction_id file_path)
