-- ===== src/Model/Bars.antt =====
-- model.rs: the bar that a key opens, or why it is blocked (words.rs).
pub mod Allowed
use volute.Prelude.{
  ◌+◌, Bool, false, not, ◌&&◌, Option, none, some, [], ◌∷◌, ◌++◌, ◌==◌, if◌then◌else◌,
}
use volute.Bytes.{Bytes, codes, bytes_eq, decimal}
use volute.Tree.{ℤ, pos, negsuc, is_positive, Entry}
use volute.Model.{
  TextResult, ok, err, ◌>>=◌, RemoteOverview, RemoteView, RowInfo, UnshareCheck, Bar, Words, Model,
  add_int, unpublished,
}
use volute.Model.Remote.{remote_view, problem}
use volute.Model.Rows.{selected_entry, selected_info}

abbrev pub not_on_this_platform : Bytes
not_on_this_platform =
    codes
      "Not available on this platform yet. Use cvc share, cvc unshare or cvc push --manual; on this platform they cannot discard keys typed ahead of the phrase."

abbrev pub imported_is_read_only : Bytes
imported_is_read_only = codes "Imported from a remote, so it is read-only here."

abbrev pub no_details : Bytes
no_details = codes "This conversation could not be read, so nothing can be done with it from here."

abbrev pub unsafe_id : Bytes
unsafe_id =
    codes
      "This conversation's id contains characters that cannot be shown safely, so it cannot be shared or unshared from here."

unfoldable pub is_zero : ℤ → Bool
is_zero (pos n) = n == 0
is_zero (negsuc n) = false

abbrev pub or_default : Option Bytes → Bytes
or_default none = []
or_default (some text) = text

abbrev pub is_on : Option Bool → Bool
is_on none = false
is_on (some on) = on

unfoldable pub published_clause : ℤ → Bytes
unfolding decimal
published_clause (pos n) =
    if n == 1 then codes "1 thought is" else decimal n ++ codes " thoughts are"
published_clause (negsuc n) = b'-' ∷ (decimal (n + 1) ++ codes " thoughts are")

-- `UnshareCheck::blocked`
unfoldable pub blocked_by : UnshareCheck → ℤ
unfolding add_int
blocked_by check = add_int (add_int check.published check.pending) check.unknown

unfoldable pub unshare_refusal : UnshareCheck → Bytes → Option Bytes
unfolding blocked_by published_clause is_positive
unshare_refusal check remote =
    if is_positive check.published
    then some (
        codes "Cannot unshare: "
        ++ (published_clause check.published
            ++ (codes " already published to '"
                ++ (remote ++ codes "', and published thoughts cannot be recalled."))))
    else if is_positive (blocked_by check)
    then some (
        codes "Cannot unshare yet: an earlier publish to '"
        ++ (remote
            ++ (codes "' did not finish cleanly. Run: cvc privacy reconcile --remote " ++ remote)))
    else none

abbrev pub refusal_of : Option UnshareCheck → Bytes → Option Bytes
unfolding unshare_refusal
refusal_of none remote = none
refusal_of (some check) remote = unshare_refusal check remote

module _ (w : Words) where
  unfoldable pub id_is_safe : Bytes → Bool
  id_is_safe id = bytes_eq (w.sanitize id) id

  unfoldable pub privacy_unreadable : Bytes → Bytes
  privacy_unreadable reason =
      codes "CVC privacy state cannot be read ("
      ++ (w.sanitize reason ++ codes "); sharing and publishing from this view are off.")

  unfoldable pub remote_of_view : RemoteView → TextResult RemoteOverview
  unfolding privacy_unreadable problem
  remote_of_view (RemoteView.usable overview) = elim overview.consent_error [
    | none ↦ ok overview
    | some reason ↦ err (privacy_unreadable reason)
  ]
  remote_of_view (RemoteView.unusable overview) =
      err (or_default (problem (RemoteView.unusable overview)))
  remote_of_view (RemoteView.missing name others) =
      err (or_default (problem (RemoteView.missing name others)))
  remote_of_view RemoteView.none_selected = err (or_default (problem RemoteView.none_selected))
  remote_of_view RemoteView.no_remotes = err (or_default (problem RemoteView.no_remotes))

  unfoldable pub action_remote : Model → TextResult RemoteOverview
  action_remote m =
      if m.consent_actions then remote_of_view (remote_view m) else err not_on_this_platform

  abbrev pub with_info : Entry → Option RowInfo → TextResult (Entry × RowInfo)
  with_info entry none = err no_details
  with_info entry (some info) = ok (entry, info)

  unfoldable pub selected_for_action : Model → TextResult (Entry × RowInfo)
  selected_for_action m = elim (selected_entry m) [
    | none ↦ err (codes "There is no conversation to act on.")
    | some entry ↦ with_info entry (selected_info m)
  ]

  -- `unwrap_or_else(Bar::Blocked)`
  abbrev pub or_blocked : TextResult Bar → Bar
  or_blocked (ok bar) = bar
  or_blocked (err reason) = Bar.blocked reason

  unfoldable pub share_decision : RemoteOverview → Entry × RowInfo → TextResult Bar
  unfolding id_is_safe
  share_decision remote (entry, info) =
      let summary = info.details.summary in
      let future_on = is_on summary.share_future in
      if summary.imported
      then err imported_is_read_only
      else if not (id_is_safe entry.summary.id)
      then err unsafe_id
      else if (info.details.snapshot_new == 0) && future_on
      then err (
          codes "All thoughts and future thoughts are already shared for '"
          ++ (w.sanitize remote.name ++ codes "'."))
      else if not remote.sharing_consented
      then ok Bar.authorize
      else ok (
          Bar.share entry.summary.id (record {
            title = w.title summary.title;
            thoughts = pos info.details.snapshot_count;
            unshared = pos info.details.snapshot_new;
            future_on = future_on;
          }))

  unfoldable pub share_bar : Model → Bar
  unfolding action_remote selected_for_action
  share_bar m =
      or_blocked
        (action_remote m >>= (λ remote. selected_for_action m >>= (λ p. share_decision remote p)))

  unfoldable pub unshare_decision : RemoteOverview → Entry × RowInfo → TextResult Bar
  unfolding id_is_safe is_zero
  unshare_decision remote (entry, info) =
      let summary = info.details.summary in
      let name = w.sanitize remote.name in
      if summary.imported
      then err imported_is_read_only
      else if not (id_is_safe entry.summary.id)
      then err unsafe_id
      else if is_zero summary.shared_count
      then err (codes "Not shared for '" ++ (name ++ codes "', so there is nothing to unshare."))
      else elim (refusal_of info.unshare name) [
        | some refusal ↦ err refusal
        | none ↦ ok (Bar.unshare entry.summary.id (w.title summary.title) summary.shared_count)
      ]

  unfoldable pub unshare_bar : Model → Bar
  unfolding action_remote selected_for_action
  unshare_bar m =
      or_blocked
        (action_remote m >>= (λ remote. selected_for_action m >>= (λ p. unshare_decision remote p)))

  abbrev pub waiting_count : Model → ℤ
  unfolding unpublished
  waiting_count m = elim m.counts [ none ↦ pos 0 | some counts ↦ unpublished counts ]

  unfoldable pub publish_bar : Model → Bar
  unfolding action_remote waiting_count
  publish_bar m = or_blocked (
      action_remote m >>= (λ remote.
        if remote.sharing_consented then ok (Bar.publish (waiting_count m)) else ok Bar.authorize))
