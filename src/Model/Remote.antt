-- ===== src/Model/Remote.antt =====
-- model.rs: the selected remote, and why nothing can be done with it (words.rs).
use volute.Prelude.{Bool, true, false, not, Option, none, some, List, [], ◌∷◌, if◌then◌else◌}
use volute.Bytes.{Bytes, codes, bytes_eq}
use volute.Model.{
  TextResult, RemoteOverview, RemoteView, usable, unusable, missing, none_selected, no_remotes,
  Model,
}

abbrev pub is_ok : {A : Type 0} → TextResult A → Bool
is_ok (TextResult.ok a) = true
is_ok (TextResult.err text) = false

-- `find(|remote| remote.name == name)`
unfoldable pub find_remote : Bytes → List RemoteOverview → Option RemoteOverview
find_remote name [] = none
find_remote name (r ∷ rs) = if bytes_eq r.name name then some r else find_remote name rs

abbrev pub name_of : Option RemoteOverview → Option Bytes
name_of none = none
name_of (some r) = some r.name

unfoldable pub initial_remote : List RemoteOverview → Option Bytes → Option Bytes
unfolding find_remote
initial_remote remotes (some name) = some name
initial_remote remotes none = name_of (find_remote (codes "origin") remotes)

abbrev pub has_no_remote : List RemoteOverview → Bool
has_no_remote [] = true
has_no_remote (r ∷ rs) = false

unfoldable pub view_of : Bytes → Bool → Option RemoteOverview → RemoteView
view_of name others none = missing name others
view_of name others (some r) = if is_ok r.fingerprint then usable r else unusable r

abbrev pub view_for : List RemoteOverview → Option Bytes → RemoteView
unfolding view_of find_remote
view_for remotes (some name) = view_of name (not (has_no_remote remotes)) (find_remote name remotes)
view_for remotes none = if has_no_remote remotes then no_remotes else none_selected

unfoldable pub remote_view : Model → RemoteView
unfolding view_for
remote_view m = view_for m.remotes m.remote

unfoldable pub usable_in : RemoteView → Option RemoteOverview
usable_in (usable overview) = some overview
usable_in _ = none

-- `RemoteView::problem`
unfoldable pub problem : RemoteView → Option Bytes
problem (usable overview) = none
problem (unusable overview) =
    some (codes "Sharing and publishing are off for this remote. Press r to choose another.")
problem (missing name true) =
    some (codes "Sharing and publishing need a configured remote. Press r to choose one.")
problem (missing name false) = some (codes "Add a remote to share: git remote add origin <url>")
problem none_selected = some (codes "Choose a remote to see share state. Press r.")
problem no_remotes = some (codes "Add a remote to share: git remote add origin <url>")
