-- ===== src/Model/Loads.antt =====
-- model.rs: what the event loop hands to the view.
use volute.Prelude.{if◌then◌else◌, Bool, Option, none, some, []}
use volute.Bytes.{Bytes}
use volute.Tree.{build}
use volute.Model.{Data, Mode, bar, blocked, Words, Model}
use volute.Model.Remote.{initial_remote}
use volute.Model.Rows.{selected_id, rebuild_visible}

module _ (w : Words) where
  -- `new`, given the settings' `consent_actions`.
  unfoldable pub new : Data → Option Bytes → Bool → Model
  unfolding initial_remote
  new data_ requested consent_actions = rebuild_visible w none (record {
    consent_actions = consent_actions;
    size = (100, 30);
    remotes = data_.remotes;
    counts = data_.counts;
    remote = initial_remote data_.remotes requested;
    tree = build data_.summaries;
    expanded = [];
    visible = [];
    cursor = 0;
    top = 0;
    info = [];
    mode = Mode.list;
    status = none;
    shared_remote = none;
  })

  unfoldable pub apply : Data → Model → Model
  apply data_ m = rebuild_visible w (selected_id m) (record m {
    remotes = data_.remotes;
    counts = data_.counts;
    tree = build data_.summaries;
    visible = [];
    info = [];
  })

  unfoldable pub switch_to : Bytes → Data → Model → Model
  unfolding apply
  switch_to name data_ m = apply data_ (record m { remote = some name })

  unfoldable pub set_status : Bytes → Model → Model
  set_status text m = record m { status = some (w.sanitize text) }

  unfoldable pub show_blocked : Bytes → Model → Model
  show_blocked reason m = record m { mode = bar (blocked (w.sanitize reason)) }

  -- The state after `report`, of the sentence that is said, and whether it is of a share.
  unfoldable pub told : Bool → Bytes → Model → Model
  told is_share said m = record m {
    status = some (w.sanitize said);
    shared_remote = if is_share then m.remote else m.shared_remote;
  }
