-- ===== src/Model.antt =====
-- cvc-cli/src/tui/model.rs: the state of the conversations view, its keys and its actions.
pub mod Remote
pub mod Rows
pub mod Bars
pub mod Pages
pub mod Loads
pub mod Reports
pub mod Picker
pub mod Keys
mod Tests
use volute.Prelude.{
  ℕ, ◌+◌, ◌-◌, Bool, true, false, ◌&&◌, ◌||◌, Option, none, some, List, [], ◌∷◌, leb, ◌==◌,
  if◌then◌else◌,
}
use volute.Bytes.{Bytes}
use volute.Bytes.Trim.{lower}
use volute.Tree.{ℤ, pos, negsuc, ConversationSummary, Tree}
use volute.Transcript.Maps.{Entries}

abbrev pub min_width : ℕ
min_width = 60

abbrev pub min_height : ℕ
min_height = 12

abbrev pub strip_min_height : ℕ
strip_min_height = 26

abbrev pub strip_rows : ℕ
strip_rows = 5

abbrev pub header_rows : ℕ
header_rows = 2

abbrev pub notice_max_rows : ℕ
notice_max_rows = 2

abbrev pub overlay_max_width : ℕ
overlay_max_width = 100

-- `Result<T, String>`
pub data TextResult (A : Type 0) : Type 0 where
  ok : A → TextResult A
  err : Bytes → TextResult A

infixl 5 ◌>>=◌
abbrev pub ◌>>=◌ : {A B : Type 0} → TextResult A → (A → TextResult B) → TextResult B
ok a >>= f = f a
err text >>= f = err text

-- commands/conversations.rs
pub record RemoteOverview : Type 0 where
  pub name : Bytes
  pub fingerprint : TextResult Bytes
  pub location : Option Bytes
  pub sharing_consented : Bool
  pub auto_push : Bool
  pub consent_error : Option Bytes

-- cvc-core/src/db.rs; the context paths, which are only shown, are left out.
pub record ConversationDetails : Type 0 where
  pub summary : ConversationSummary
  pub snapshot_count : ℕ
  pub snapshot_shared : ℕ
  pub snapshot_new : ℕ

pub record UnshareCheck : Type 0 where
  pub published : ℤ
  pub pending : ℤ
  pub unknown : ℤ

pub record DestinationPublicationCounts : Type 0 where
  pub shared : ℤ
  pub published : ℤ
  pub unconfirmed : ℤ

pub record Data : Type 0 where
  pub summaries : List ConversationSummary
  pub remotes : List RemoteOverview
  pub counts : Option DestinationPublicationCounts

pub record RowInfo : Type 0 where
  pub details : ConversationDetails
  pub unshare : Option UnshareCheck

pub data FutureSharePolicy : Type 0 where
  private shared : FutureSharePolicy

pub data Flow : Type 0 where
  share : Bytes → FutureSharePolicy → Flow
  unshare : Bytes → Flow
  publish authorize : Flow

pub data Action : Type 0 where
  quit : Action
  run : Flow → Action
  switch : Bytes → Action

-- A character is its code point.
pub data Key : Type 0 where
  up down left right page_up page_down home end enter esc interrupt other : Key
  char : ℕ → Key

-- The codes of crossterm that `Key::of` names, and `unnamed` for the rest.
pub data KeyCode : Type 0 where
  up down left right page_up page_down home end enter esc unnamed : KeyCode
  char : ℕ → KeyCode

pub record KeyEvent : Type 0 where
  pub code : KeyCode
  pub control : Bool
  -- ALT, SUPER, HYPER or META is among the modifiers.
  pub other_modifier : Bool

-- words.rs
pub record ShareAsk : Type 0 where
  pub title : Bytes
  pub thoughts : ℤ
  pub unshared : ℤ
  pub future_on : Bool

pub data Bar : Type 0 where
  share : Bytes → ShareAsk → Bar
  unshare : Bytes → Bytes → ℤ → Bar
  publish : ℤ → Bar
  authorize : Bar
  blocked : Bytes → Bar

pub data Mode : Type 0 where
  list : Mode
  details help remotes : ℕ → Mode
  bar : Bar → Mode

-- words.rs
pub data RemoteView : Type 0 where
  usable unusable : RemoteOverview → RemoteView
  missing : Bytes → Bool → RemoteView
  none_selected no_remotes : RemoteView

-- The lengths of the texts of words.rs and text.rs, and how a text is made fit to be shown: what the
-- model asks of them. The page of details is of the selected conversation, of what was read about it.
pub record Words : Type 0 where
  pub sanitize : Bytes → Bytes
  pub title : Bytes → Bytes
  pub wrapped_len : Bytes → ℕ → ℕ
  pub bar_len : Bar → RemoteView → ℕ → ℕ
  pub details_len : Tree → ℕ → Option RowInfo → RemoteView → ℕ → ℕ
  pub help_len : ℕ → ℕ

pub record Layout : Type 0 where
  pub header : ℕ
  pub notice : ℕ
  pub head : ℕ
  pub list : ℕ
  pub strip : ℕ
  pub bottom : ℕ

-- `glyphs` and `columns`, which only the drawing reads, are left out. `expanded` is a set, `info` a map
-- whose later entries hide the earlier ones of a key.
pub record Model : Type 0 where
  pub consent_actions : Bool
  pub size : ℕ × ℕ
  pub remotes : List RemoteOverview
  pub counts : Option DestinationPublicationCounts
  pub remote : Option Bytes
  pub tree : Tree
  pub expanded : List Bytes
  pub visible : List ℕ
  pub cursor : ℕ
  pub top : ℕ
  pub info : Entries (Option RowInfo)
  pub mode : Mode
  pub status : Option Bytes
  pub shared_remote : Option Bytes

unfoldable pub key_of_code : KeyCode → Key
unfolding lower
key_of_code KeyCode.up = Key.up
key_of_code KeyCode.down = Key.down
key_of_code KeyCode.left = Key.left
key_of_code KeyCode.right = Key.right
key_of_code KeyCode.page_up = Key.page_up
key_of_code KeyCode.page_down = Key.page_down
key_of_code KeyCode.home = Key.home
key_of_code KeyCode.end = Key.end
key_of_code KeyCode.enter = Key.enter
key_of_code KeyCode.esc = Key.esc
key_of_code (KeyCode.char c) = Key.char (lower c)
key_of_code KeyCode.unnamed = Key.other

unfoldable pub interrupts : KeyCode → Bool
unfolding lower
interrupts (KeyCode.char c) = lower c == b'c'
interrupts _ = false

-- `Key::of`
unfoldable pub key_of_event : KeyEvent → Key
unfolding key_of_code interrupts
key_of_event event =
    if event.control
    then (if interrupts event.code then Key.interrupt else Key.other)
    else if event.other_modifier
    then Key.other
    else key_of_code event.code

abbrev pub sub_nat : ℕ → ℕ → ℤ
sub_nat a b = if leb b a then pos (a - b) else negsuc (b - a - 1)

unfoldable pub sub_int : ℤ → ℤ → ℤ
sub_int (pos a) (pos b) = sub_nat a b
sub_int (pos a) (negsuc b) = pos (a + b + 1)
sub_int (negsuc a) (pos b) = negsuc (a + b)
sub_int (negsuc a) (negsuc b) = sub_nat b a

unfoldable pub add_int : ℤ → ℤ → ℤ
add_int (pos a) (pos b) = pos (a + b)
add_int (pos a) (negsuc b) = sub_nat a (b + 1)
add_int (negsuc a) (pos b) = sub_nat b (a + 1)
add_int (negsuc a) (negsuc b) = negsuc (a + b + 1)

unfoldable pub unpublished : DestinationPublicationCounts → ℤ
unfolding sub_int
unpublished counts = sub_int counts.shared counts.published
