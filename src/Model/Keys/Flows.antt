-- ===== src/Model/Keys/Flows.antt =====
-- No flow runs but by the key that its open bar lists, and where consent actions are available.
use volute.Prelude.{ℕ, ◌≡◌, subst, Bool, true, false, Option, none, some, arith, some-eq}
use volute.Bytes.{Bytes}
use volute.Tree.{ℤ, is_positive}
use volute.Model.{
  FutureSharePolicy, Flow, Action, Key, KeyEvent, ShareAsk, Bar, Mode, Words, Model, key_of_event,
}
use volute.Model.Rows.{too_small}
use volute.Model.Bars.{id_is_safe}
use volute.Model.Keys.{
  start_flow, handle_key, mode_key, page_key, list_key, list_char, bar_key, flow_of,
}
use volute.Model.Picker.{picker_key}
use volute.Model.Keys.Reach.{Reach}
use volute.Model.Keys.Consent.{ModeAllowed, Reach-IsConsenting}

-- The bar lists the key for the flow, as its drawn lines do (words.rs): that of a share lists Enter for
-- the thoughts so far if some are not shared yet, and `f` for those to come too; any other lists Enter.
pub data Lists : Bar → Key → Flow → Type 0 where
  share_now :
      (id : Bytes) (ask : ShareAsk)
      → is_positive ask.unshared ≡ true
      → Lists (Bar.share id ask) Key.enter (Flow.share id FutureSharePolicy.private)
  share_future :
      (id : Bytes) (ask : ShareAsk)
      → Lists (Bar.share id ask) (Key.char b'f') (Flow.share id FutureSharePolicy.shared)
  unshare :
      (id title : Bytes) (shared : ℤ)
      → Lists (Bar.unshare id title shared) Key.enter (Flow.unshare id)
  publish : (waiting : ℤ) → Lists (Bar.publish waiting) Key.enter Flow.publish
  authorize : Lists Bar.authorize Key.enter Flow.authorize

-- The bar is open and lists the key for the flow.
abbrev pub FlowOpen : Mode → Key → Flow → Type 0
FlowOpen (Mode.bar bar) key flow = Lists bar key flow
FlowOpen _ key flow = ⊥

abbrev pub SafeFlow : Words → Flow → Type 0
SafeFlow w (Flow.share id future) = id_is_safe w id ≡ true
SafeFlow w (Flow.unshare id) = id_is_safe w id ≡ true
SafeFlow w Flow.publish = Unit
SafeFlow w Flow.authorize = Unit

flow_of-Lists :
    (bar : Bar) (key : Key) (flow : Flow) → flow_of bar key ≡ some flow → Lists bar key flow
unfolding flow_of
flow_of-Lists (Bar.share id ask) Key.enter flow h =
    let some_left : is_positive ask.unshared ≡ true = ground arith in
    let e : Flow.share id FutureSharePolicy.private ≡ flow = ground arith in
    subst (Lists (Bar.share id ask) Key.enter) e (share_now id ask some_left)
flow_of-Lists (Bar.share id ask) (Key.char c) flow h =
    let key : b'f' ≡ c = ground arith in
    let e : Flow.share id FutureSharePolicy.shared ≡ flow = ground arith in
    subst (λ k. Lists (Bar.share id ask) (Key.char k) flow) key
      (subst (Lists (Bar.share id ask) (Key.char b'f')) e (share_future id ask))
flow_of-Lists (Bar.unshare id title shared) Key.enter flow h =
    subst (Lists (Bar.unshare id title shared) Key.enter) (some-eq h) (unshare id title shared)
flow_of-Lists (Bar.publish waiting) Key.enter flow h =
    subst (Lists (Bar.publish waiting) Key.enter) (some-eq h) (publish waiting)
flow_of-Lists Bar.authorize Key.enter flow h =
    subst (Lists Bar.authorize Key.enter) (some-eq h) authorize
flow_of-Lists bar key flow h = cc

start_flow-run :
    (o : Option Flow) (m : Model) (flow : Flow)
    → (start_flow o m).1 ≡ some (Action.run flow)
    → o ≡ some flow
start_flow-run none m flow h = cc
start_flow-run (some started) m flow h = cc

bar_key-run :
    (bar : Bar) (key : Key) (m : Model) (flow : Flow)
    → (bar_key bar key m).1 ≡ some (Action.run flow)
    → flow_of bar key ≡ some flow
unfolding bar_key
bar_key-run bar key m flow h = ground (arith, start_flow-run (flow_of bar key) m flow)

module _ (w : Words) where
  list_key_none :
      (key : Key) (m : Model) (flow : Flow) → (list_key w key m).1 ≡ some (Action.run flow) → ⊥
  unfolding list_key list_char
  list_key_none key m flow h = ground arith

  page_key_none :
      (is_help : Bool) (key : Key) (m : Model) (flow : Flow)
      → (page_key w is_help key m).1 ≡ some (Action.run flow)
      → ⊥
  unfolding page_key
  page_key_none is_help key m flow h = ground arith

  picker_key_none :
      (cursor : ℕ) (key : Key) (m : Model) (flow : Flow)
      → (picker_key cursor key m).1 ≡ some (Action.run flow)
      → ⊥
  unfolding picker_key
  picker_key_none cursor key m flow h = ground arith

  mode_key-FlowOpen :
      (mode : Mode) (key : Key) (m : Model) (flow : Flow)
      → (mode_key w mode key m).1 ≡ some (Action.run flow)
      → FlowOpen mode key flow
  unfolding mode_key
  mode_key-FlowOpen Mode.list key m flow h = absurd (list_key_none key m flow h)
  mode_key-FlowOpen (Mode.details scroll) key m flow h = absurd (page_key_none false key m flow h)
  mode_key-FlowOpen (Mode.help scroll) key m flow h = absurd (page_key_none true key m flow h)
  mode_key-FlowOpen (Mode.remotes cursor) key m flow h =
      absurd (picker_key_none cursor key m flow h)
  mode_key-FlowOpen (Mode.bar bar) key m flow h =
      flow_of-Lists bar key flow (bar_key-run bar key m flow h)

  handle_key-run :
      (event : KeyEvent) (m : Model) (flow : Flow)
      → (handle_key w event m).1 ≡ some (Action.run flow)
      → ((mode_key w m.mode (key_of_event event) (record m { status = none })).1
          ≡ some (Action.run flow))
        × (too_small m ≡ false)
  unfolding handle_key too_small
  handle_key-run event m flow h = (ground arith, ground arith)

  Lists-SafeFlow :
      (allowed : Bool) (bar : Bar) (key : Key) (flow : Flow)
      → ModeAllowed w allowed (Mode.bar bar)
      → Lists bar key flow
      → (allowed ≡ true) × SafeFlow w flow
  Lists-SafeFlow allowed bar key flow h (share_now id ask left) = ground arith
  Lists-SafeFlow allowed bar key flow h (share_future id ask) = ground arith
  Lists-SafeFlow allowed bar key flow h (unshare id title shared) = ground arith
  Lists-SafeFlow allowed bar key flow h (publish waiting) = ground arith
  Lists-SafeFlow allowed bar key flow h authorize = ground arith

  FlowOpen-SafeFlow :
      (allowed : Bool) (mode : Mode) (key : Key) (flow : Flow)
      → ModeAllowed w allowed mode
      → FlowOpen mode key flow
      → (allowed ≡ true) × SafeFlow w flow
  FlowOpen-SafeFlow allowed (Mode.bar bar) key flow h k = Lists-SafeFlow allowed bar key flow h k
  FlowOpen-SafeFlow allowed mode key flow h k = absurd k

  -- Where consent actions are not available no event leads to a flow. Where they are, in every state that
  -- events lead to from a new view, a key press asks for a flow only if the bar that asks about this flow
  -- and this conversation is open and lists the key for it (Enter, and for a share only if some thoughts are
  -- not shared yet, or `f` for a share of the thoughts to come too), the terminal is large enough for the view to be drawn, and the id of a
  -- conversation to be shared or unshared can be shown as it is.
  pub handle_key-FlowOpen :
      {allowed : Bool} {m : Model}
      → Reach w allowed m
      → (event : KeyEvent) (flow : Flow) → (handle_key w event m).1 ≡ some (Action.run flow)
      → (allowed ≡ true)
        × SafeFlow w flow
        × FlowOpen m.mode (key_of_event event) flow
        × (too_small m ≡ false)
  handle_key-FlowOpen {allowed} {m} r event flow h =
      let (asked, large) = handle_key-run event m flow h in
      let listed = mode_key-FlowOpen m.mode (key_of_event event) _ flow asked in
      let (may, safe) =
        FlowOpen-SafeFlow allowed m.mode (key_of_event event) flow
          (Reach-IsConsenting w allowed r).1 listed in
      (may, safe, listed, large)
