-- ===== src/Model/Bars/Allowed.antt =====
-- No bar that leads to a flow opens where consent actions are not available.
use volute.Prelude.{◌≡◌, Bool, true, false, arith, Bool-cases, inl, inr, sym, ◌∙◌}
use volute.Tree.{Entry}
use volute.Model.{TextResult, ok, err, ◌>>=◌, RemoteOverview, RowInfo, Bar, Words, Model}
use volute.Model.Remote.{remote_view}
use volute.Model.Bars.{
  id_is_safe, is_zero, remote_of_view, action_remote, selected_for_action, or_blocked,
  share_decision, share_bar, unshare_decision, unshare_bar, publish_bar,
}

module _ (w : Words) (allowed : Bool) where
  -- What an open bar vouches for.
  abbrev pub BarAllowed : Bar → Type 0
  BarAllowed (Bar.share id ask) = (allowed ≡ true) × (id_is_safe w id ≡ true)
  BarAllowed (Bar.unshare id title shared) =
      (allowed ≡ true) × (id_is_safe w id ≡ true) × (is_zero shared ≡ false)
  BarAllowed (Bar.publish waiting) = allowed ≡ true
  BarAllowed Bar.authorize = allowed ≡ true
  BarAllowed (Bar.blocked reason) = Unit

  share_decision-BarAllowed :
      (remote : RemoteOverview) (entry : Entry) (info : RowInfo)
      → allowed ≡ true
      → BarAllowed (or_blocked w (share_decision w remote (entry, info)))
  unfolding share_decision
  share_decision-BarAllowed remote entry info h = ground arith

  unshare_decision-BarAllowed :
      (remote : RemoteOverview) (entry : Entry) (info : RowInfo)
      → allowed ≡ true
      → BarAllowed (or_blocked w (unshare_decision w remote (entry, info)))
  unfolding unshare_decision
  unshare_decision-BarAllowed remote entry info h = ground arith

  -- A bar that is decided from the remote and the selection.
  chained :
      {A : Type 0} (r : TextResult A) (f : A → TextResult Bar)
      → ((a : A) → BarAllowed (or_blocked w (f a)))
      → BarAllowed (or_blocked w (r >>= f))
  chained (ok a) f h = h a
  chained (err reason) f h = tt

  acting :
      (m : Model) (f : RemoteOverview → TextResult Bar)
      → m.consent_actions ≡ allowed
      → ((remote : RemoteOverview) → allowed ≡ true → BarAllowed (or_blocked w (f remote)))
      → BarAllowed (or_blocked w (action_remote w m >>= f))
  unfolding action_remote remote_view
  acting m f same h = elim (Bool-cases m.consent_actions) [
    | inl on ↦
        rw on (chained (remote_of_view w (remote_view m)) f (λ remote. h remote (sym same ∙ on)))
    | inr off ↦ rw off tt
  ]

  pub share_bar-BarAllowed : (m : Model) → m.consent_actions ≡ allowed → BarAllowed (share_bar w m)
  unfolding share_bar
  share_bar-BarAllowed m same = acting m _ same (λ remote on.
      chained (selected_for_action w m) _ (λ p. share_decision-BarAllowed remote p.0 p.1 on))

  pub unshare_bar-BarAllowed :
      (m : Model) → m.consent_actions ≡ allowed → BarAllowed (unshare_bar w m)
  unfolding unshare_bar
  unshare_bar-BarAllowed m same = acting m _ same (λ remote on.
      chained (selected_for_action w m) _ (λ p. unshare_decision-BarAllowed remote p.0 p.1 on))

  pub publish_bar-BarAllowed :
      (m : Model) → m.consent_actions ≡ allowed → BarAllowed (publish_bar w m)
  unfolding publish_bar
  publish_bar-BarAllowed m same = acting m _ same (λ remote on. ground arith)
