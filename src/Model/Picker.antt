-- ===== src/Model/Picker.antt =====
-- model.rs: the picker of remotes, and its keys.
use volute.Prelude.{
  ℕ, zero, suc, ◌+◌, ◌-◌, Bool, false, not, ◌&&◌, Option, none, some, List, [], ◌∷◌, ◌==◌,
  if◌then◌else◌, length, get_elem?, first_some,
}
use volute.Bytes.{Bytes, bytes_eq}
use volute.Model.{RemoteOverview, Action, Key, Mode, Model}
use volute.Model.Remote.{is_ok}

-- The state after a key press, and the action it asks for.
abbrev pub Pressed : Type 0
Pressed = Model × Option Action

abbrev pub asks_nothing : Model → Pressed
asks_nothing m = (m, none)

abbrev pub in_mode : Mode → Model → Model
in_mode mode m = record m { mode = mode }

abbrev pub is_usable : Option RemoteOverview → Bool
is_usable none = false
is_usable (some remote) = is_ok remote.fingerprint

unfoldable pub usable_at : Model → ℕ → Bool
usable_at m index = is_usable (get_elem? m.remotes index)

unfoldable pub is_called : Option Bytes → RemoteOverview → Bool
is_called none remote = false
is_called (some name) remote = bytes_eq remote.name name && is_ok remote.fingerprint

-- `iter().position(test)`
unfoldable pub place_where : (RemoteOverview → Bool) → ℕ → List RemoteOverview → Option ℕ
place_where test at [] = none
place_where test at (r ∷ rs) = if test r then some at else place_where test (at + 1) rs

abbrev pub or_zero : Option ℕ → ℕ
or_zero none = 0
or_zero (some n) = n

unfoldable pub open_picker : Model → Model
unfolding place_where is_called
open_picker m =
    in_mode
      (Mode.remotes (
        or_zero (
          first_some (place_where (is_called m.remote) 0 m.remotes)
            (place_where (λ remote. is_ok remote.fingerprint) 0 m.remotes))))
      m

-- The greatest usable index below the given one: `(0..cursor).rev().find(usable)`.
unfoldable pub usable_before : Model → ℕ → Option ℕ
unfolding usable_at
usable_before m zero = none
usable_before m (suc n) = if usable_at m n then some n else usable_before m n

-- The least usable index of `n` from the given one on: `(from..from + n).find(usable)`.
unfoldable pub usable_from : Model → ℕ → ℕ → Option ℕ
unfolding usable_at
usable_from m from zero = none
usable_from m from (suc n) = if usable_at m from then some from else usable_from m (from + 1) n

abbrev pub choose : Option ℕ → Model → Model
choose none m = m
choose (some cursor) m = in_mode (Mode.remotes cursor) m

abbrev pub is_named : Option Bytes → Bytes → Bool
is_named none name = false
is_named (some selected) name = bytes_eq selected name

abbrev pub switch_of : Option RemoteOverview → Option Bytes → Option Action
switch_of none selected = none
switch_of (some remote) selected =
    if is_ok remote.fingerprint && not (is_named selected remote.name)
    then some (Action.switch remote.name)
    else none

unfoldable pub picker_up : ℕ → Model → Model
unfolding usable_before
picker_up cursor m = choose (usable_before m cursor) m

unfoldable pub picker_down : ℕ → Model → Model
unfolding usable_from
picker_down cursor m = choose (usable_from m (cursor + 1) (length m.remotes - (cursor + 1))) m

unfoldable pub picker_key : ℕ → Key → Model → Pressed
unfolding picker_up picker_down
picker_key cursor Key.esc m = asks_nothing (in_mode Mode.list m)
picker_key cursor Key.up m = asks_nothing (picker_up cursor m)
picker_key cursor Key.down m = asks_nothing (picker_down cursor m)
picker_key cursor Key.home m = asks_nothing (choose (usable_from m 0 (length m.remotes)) m)
picker_key cursor Key.end m = asks_nothing (choose (usable_before m (length m.remotes)) m)
picker_key cursor Key.enter m =
    (in_mode Mode.list m, switch_of (get_elem? m.remotes cursor) m.remote)
picker_key cursor (Key.char c) m =
    if c == b'q'
    then asks_nothing (in_mode Mode.list m)
    else if c == b'k'
    then asks_nothing (picker_up cursor m)
    else if c == b'j'
    then asks_nothing (picker_down cursor m)
    else asks_nothing m
picker_key cursor _ m = asks_nothing m
