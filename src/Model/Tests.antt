-- ===== src/Model/Tests.antt =====
-- Runs of the view, and the witnesses of the theorems.
use volute.Prelude.{ℕ, ◌≡◌, refl, true, false, none, some, List, [], ◌∷◌}
use volute.Bytes.{Bytes, codes}
use volute.Tree.{pos, ConversationSummary, build, visible}
use volute.Model.{
  ok, RemoteOverview, Data, RowInfo, FutureSharePolicy, Flow, Action, KeyCode, KeyEvent, Words,
  Model, key_of_event,
}
use volute.Transcript.Maps.{lookup}
use volute.Model.Bars.{share_bar, remote_of_view, share_decision}
use volute.Model.Remote.{remote_view}
use volute.Model.Rows.{
  too_small, selected_info, set_info, rebuild_visible, holds, selected_id, selected_entry,
  is_expanded,
}
use volute.Model.Rows.Within.{IsWithin}
use volute.Model.Rows.Kept.{IsListedAs, shown, apply-Stays}
use volute.Model.Loads.{new, apply}
use volute.Model.Keys.{handle_key}
use volute.Model.Keys.Reach.{IsSelected, Reach, start, after, press, read, Reach-IsSelected}
use volute.Model.Keys.Flows.{SafeFlow, FlowOpen, handle_key-FlowOpen}

abbrev toy_words : Words
toy_words = record {
  sanitize = λ text. text;
  title = λ text. text;
  wrapped_len = λ text width. 1;
  bar_len = λ bar view width. 3;
  details_len = λ tree index info view width. 40;
  help_len = λ width. 25;
}

abbrev origin : RemoteOverview
origin = record {
  name = codes "origin";
  fingerprint = ok (codes "f00d");
  location = none;
  sharing_consented = true;
  auto_push = false;
  consent_error = none;
}

abbrev conversation : Bytes → ℕ → ConversationSummary
conversation id last = record {
  id = id;
  title = codes "a title";
  thoughts = pos 2;
  linked = pos 0;
  first_activity = pos 1;
  last_activity = pos last;
  shared = false;
  shared_count = pos 0;
  published = pos 0;
  unconfirmed = pos 0;
  share_future = none;
  imported = false;
  held = pos 0;
  held_published = pos 0;
}

abbrev data_of : List ConversationSummary → Data
data_of summaries = record { summaries = summaries; remotes = origin ∷ []; counts = none }

abbrev two : Data
two = data_of (conversation (codes "s1") 1 ∷ conversation (codes "s2") 2 ∷ [])

abbrev read_row : RowInfo
read_row = record {
  details = record {
    summary = conversation (codes "s2") 2;
    snapshot_count = 2;
    snapshot_shared = 0;
    snapshot_new = 2;
  };
  unshare = none;
}

abbrev key_event : KeyCode → KeyEvent
key_event code = record { code = code; control = false; other_modifier = false }

abbrev begun : Model
begun = new toy_words two none true

begun_reached : Reach toy_words true begun
begun_reached = start two none

first_row : selected_id begun ≡ some (codes "s2")
unfolding new rebuild_visible visible build is_expanded holds selected_entry selected_id
first_row = refl

abbrev known : Model
known = set_info (codes "s2") (some read_row) begun

abbrev asked : Model
asked = (handle_key toy_words (key_event (KeyCode.char b'S')) known).0

asked_reached : Reach toy_words true asked
asked_reached = after (after begun_reached (read _ _ begun)) (press _ known)

started :
    (handle_key toy_words (key_event KeyCode.enter) asked).1
    ≡ some (Action.run (Flow.share (codes "s2") FutureSharePolicy.private))
unfolding new rebuild_visible visible build is_expanded holds selected_entry selected_id set_info
    handle_key key_of_event too_small share_bar remote_of_view remote_view selected_info lookup
    share_decision
started = refl

ignored : (handle_key toy_words (key_event (KeyCode.char b'y')) asked).1 ≡ none
unfolding new rebuild_visible visible build is_expanded holds selected_entry selected_id set_info
    handle_key key_of_event too_small share_bar remote_of_view remote_view selected_info lookup
    share_decision
ignored = refl

Reach-IsSelected_example : IsWithin asked × IsSelected toy_words asked
Reach-IsSelected_example = Reach-IsSelected toy_words asked_reached

handle_key-FlowOpen_example :
    (true ≡ true)
    × SafeFlow toy_words (Flow.share (codes "s2") FutureSharePolicy.private)
    × FlowOpen asked.mode
        (key_of_event (key_event KeyCode.enter))
        (Flow.share (codes "s2") FutureSharePolicy.private)
    × (too_small asked ≡ false)
handle_key-FlowOpen_example =
    handle_key-FlowOpen toy_words asked_reached (key_event KeyCode.enter)
      (Flow.share (codes "s2") FutureSharePolicy.private) started

-- `s2` is older now, and stands below `s3`.
abbrev reloaded : Data
reloaded =
    data_of
      (conversation (codes "s1") 1 ∷ conversation (codes "s2") 2 ∷ conversation (codes "s3") 3 ∷ [])

still_listed :
    IsListedAs
      (build reloaded.summaries)
      (visible (build reloaded.summaries) (is_expanded begun.expanded))
      (codes "s2")
unfolding new rebuild_visible visible build is_expanded holds
still_listed = record { place = 1; index = 1; row = refl; named = refl }

apply-Stays_example : selected_id (apply toy_words reloaded begun) ≡ some (codes "s2")
apply-Stays_example =
    apply-Stays toy_words reloaded begun (codes "s2") (codes "s2") first_row (shown still_listed)
