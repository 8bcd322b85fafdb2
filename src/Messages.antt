-- ===== src/Messages.antt =====
-- assets/store/Messages.js: the messages of a conversation. The HTML and the embedded cards of a
-- message are not modelled; `shown` holds what `render` works out once, when `embeds` is set.
pub mod Rendering
mod Tests
use convos.Prelude.{
  ℕ, suc, ◌+◌, ◌-◌, ◌≡◌, Bool, true, false, not, ◌&&◌, ◌==◌, Text, text_eq, codes, is_empty,
  or_text, List, [], ◌∷◌, ◌++◌, Option, none, some, get_or, get_elem?, length, ltb, if◌then◌else◌,
}
use convos.Prelude.Int.{ℤ, pos, negsuc}
use convos.Host.{Host}
use convos.Util.Color.{str2color}

-- What `render` works out: the class for the sender, and whether a new day begins.
pub record Shown : Type 0 where
  pub same_from : Bool
  pub day_changed : Bool

-- `from` and `type` are empty where the source has undefined. `ts` is a number of milliseconds.
pub record ChatMessage : Type 0 where
  pub from : Text
  pub type : Text
  pub message : Text
  pub vars : List Text
  pub highlight : Bool
  pub yourself : Bool
  pub fresh : Bool
  pub internal : Bool
  pub ts : Option ℕ
  pub id : ℕ
  pub color : Text
  pub connection_id : Text
  pub conversation_id : Text
  pub shown : Option Shown

-- `last_id` is the variable `ID` of the file.
pub record Messages : Type 0 where
  pub messages : List ChatMessage
  pub last_id : ℕ
  pub raw : Bool

module _ (host : Host) (now : ℕ) where
  -- One round of `_fill`.
  abbrev pub signed : ChatMessage → ChatMessage
  signed m = if is_empty m.from then record m { internal = true; from = codes "Convos" } else m

  unfoldable pub fill_one : ℕ → ChatMessage → ChatMessage
  fill_one id m =
      let s = signed m in
      record s {
        type = or_text s.type (codes "notice");
        color =
            if text_eq s.from (codes "Convos")
            then codes "inherit"
            else str2color host (host.to_lower_case s.from) 100;
        ts = some (get_or s.ts now);
        id = suc id;
      }

  -- `_fill(messages)`, after `id` messages of the page.
  unfoldable pub fill : ℕ → List ChatMessage → List ChatMessage
  unfolding fill_one
  fill id [] = []
  fill id (m ∷ list) = fill_one id m ∷ fill (suc id) list

  -- `push(list)` and `unshift(list)`
  unfoldable pub push : List ChatMessage → Messages → Messages
  unfolding fill
  push list ms = record ms {
    messages = ms.messages ++ fill ms.last_id list;
    last_id = ms.last_id + length list;
  }

  unfoldable pub unshift : List ChatMessage → Messages → Messages
  unfolding fill
  unshift list ms = record ms {
    messages = fill ms.last_id list ++ ms.messages;
    last_id = ms.last_id + length list;
  }

-- `clear()`
unfoldable pub clear : Messages → Messages
clear ms = record ms { messages = [] }

-- `get(i)`; `slice(i)[0]` of an index below the list's length from the end is the first message.
unfoldable pub get : ℤ → Messages → Option ChatMessage
get (pos n) ms = get_elem? ms.messages n
get (negsuc n) ms = get_elem? ms.messages (length ms.messages - suc n)

-- The date of a time in the time zone of the browser (`getDate`, the day of the month).
module _ (get_date : ℕ → ℕ) where
  -- `_dayChanged(msg, prev)`: `prev` is `none` for the empty object before the first message.
  unfoldable pub day_changed : ChatMessage → Option ChatMessage → Bool
  day_changed m none = false
  day_changed m (some prev) = elim prev.ts [
    | none ↦ false
    | some t ↦ not (get_date (get_or m.ts 0) == get_date t)
  ]

  -- `sameFrom`; undefined fields of the empty object differ from every text.
  unfoldable pub same_from : ChatMessage → Option ChatMessage → Bool
  same_from m none = false
  same_from m (some prev) =
      text_eq m.from prev.from
      && (text_eq m.conversation_id prev.conversation_id
          && text_eq m.connection_id prev.connection_id)

  -- One round of `render`: a message that has embeds is left as it is.
  unfoldable pub show_if : Option Shown → Option ChatMessage → ChatMessage → ChatMessage
  unfolding day_changed same_from
  show_if (some s) prev m = m
  show_if none prev m = record m {
    shown = some (record {
      same_from = not (day_changed m prev) && same_from m prev;
      day_changed = day_changed m prev;
    });
  }

  unfoldable pub show : Option ChatMessage → ChatMessage → ChatMessage
  unfolding show_if
  show prev m = show_if m.shown prev m

  -- `render()`, of all messages.
  unfoldable pub render_from : Option ChatMessage → List ChatMessage → List ChatMessage
  unfolding show
  render_from prev [] = []
  render_from prev (m ∷ ms) = show prev m ∷ render_from (some (show prev m)) ms

  unfoldable pub render : Messages → Messages
  unfolding render_from
  render ms = record ms { messages = render_from none ms.messages }
