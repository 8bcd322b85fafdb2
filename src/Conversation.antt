-- ===== src/Conversation.antt =====
-- assets/store/Conversation.js: one conversation; its messages, participants, counters, and the
-- handlers of the server's events. What leaves the object (notifications, messages to the server,
-- the event "unread") is logged in `out`, in order. `load` is in
-- Conversation/History. A Connection's overrides are not modelled.
pub mod Unread
pub mod History
pub mod Loading
pub mod Events
pub mod Parting
mod Tests
use convos.Prelude.{
  ℕ, suc, ◌+◌, ◌*◌, ◌≡◌, ◌==◌, Bool, true, false, not, ◌&&◌, ◌||◌, Text, text_eq, codes, is_empty,
  or_text, List, [], ◌∷◌, ◌++◌, Option, none, some, get_or, get_elem?, get_last?, length, ltb, leb,
  if◌then◌else◌, find, filter, string_eq,
}
use convos.Prelude.Dict
use convos.Prelude.Dict.{Dict}
use convos.Constants.{channel_mode_char_to_mode_name}
use convos.Host.{Host}
use convos.Messages
use convos.Messages.{ChatMessage, Messages, push, unshift}
use convos.Participants.{Participants, named, get_nick, has_nick, delete_nick, rename}
use convos.Participants
use convos.Util.Modes.{calculate_modes}

pub data Effect : Type 0 where
  notifies : ChatMessage → Effect
  sends : Text → Effect
  emits_unread : Effect

-- The values of `status`, which are those of the operation that loads messages.
pub data Status : Type 0 where
  pending loading success failed : Status

abbrev pub is_success : Status → Bool
is_success pending = false
is_success loading = false
is_success success = true
is_success failed = false

abbrev pub is_loading : Status → Bool
is_loading pending = false
is_loading loading = true
is_loading success = false
is_loading failed = false

-- `info_ts` is `info.ts`, a number of seconds, `none` if missing or 0.
pub record Conversation : Type 0 where
  pub connection_id : Text
  pub conversation_id : Text
  pub name : Text
  pub frozen : Text
  pub topic : Text
  pub modes : Dict Text Bool
  pub info_ts : Option ℕ
  pub notifications : ℕ
  pub unread : ℕ
  pub want_notifications : Bool
  pub history_start_at : Option ℕ
  pub history_stop_at : Option ℕ
  pub status : Status
  pub op_status : Status
  pub participants_loaded : Bool
  pub messages : Messages
  pub participants : Participants
  pub out : List Effect

-- `is('private')`: the id does not begin with "#" or "&".
unfoldable pub is_private : Conversation → Bool
is_private c = elim c.conversation_id [ [] ↦ false | x ∷ rest ↦ not (x == b'#' || x == b'&') ]

-- What `_loadInformation()` sends past its guards; the answer is a later step.
unfoldable pub asks : ℕ → Conversation → List Effect
unfolding is_private
asks now c =
    let recent : Bool = elim c.info_ts [ none ↦ false | some t ↦ ltb now ((t + 300) * 1000) ] in
    if not (is_private c)
    then sends (codes "/names " ++ c.conversation_id) ∷ []
    else if recent
    then []
    else sends (codes "/whois " ++ c.conversation_id) ∷ []

-- Its guards.
unfoldable pub is_informed : Conversation → Bool
is_informed c =
    c.participants_loaded
    || (is_empty c.conversation_id || (not (is_empty c.frozen) || not (is_success c.op_status)))

-- `_loadInformation()`
unfoldable pub load_information : ℕ → Conversation → Conversation
unfolding asks is_informed
load_information now c = record c {
  participants_loaded = if is_informed c then c.participants_loaded else true;
  out = c.out ++ (if is_informed c then [] else asks now c);
}

-- `['action', 'error', 'private'].indexOf(type) !== -1`
abbrev pub is_spoken : Text → Bool
is_spoken type =
    text_eq type (codes "action")
    || (text_eq type (codes "error") || text_eq type (codes "private"))

-- `msg.from && !msg.yourself && …`, the test of `_maybeIncreaseUnread` and `_maybeNotify`.
unfoldable pub is_from_others : ChatMessage → Bool
is_from_others m = not (is_empty m.from) && (not m.yourself && is_spoken m.type)

-- `_maybeIncreaseUnread(msg)`
unfoldable pub maybe_increase_unread : ℕ → ChatMessage → Conversation → Conversation
unfolding is_from_others load_information
maybe_increase_unread now m c =
    let d = load_information now c in
    if is_from_others m
    then record d { unread = suc d.unread; out = d.out ++ emits_unread ∷ [] }
    else c

-- `_maybeNotify(msg)` and `notify(msg)`
unfoldable pub notify : Bool → ChatMessage → Conversation → Conversation
notify has_focus m c = if has_focus then c else record c { out = c.out ++ notifies m ∷ [] }

unfoldable pub maybe_notify : Bool → ChatMessage → Conversation → Conversation
unfolding notify is_from_others
maybe_notify has_focus m c =
    if is_from_others m && (m.highlight || c.want_notifications) then notify has_focus m c else c

-- `!this.historyStopAt && ['action', 'private'].indexOf(type) !== -1`
unfoldable pub is_beyond : ChatMessage → Conversation → Bool
is_beyond m c =
    (elim c.history_stop_at [ none ↦ true | some t ↦ false ])
    && (text_eq m.type (codes "action") || text_eq m.type (codes "private"))

module _ (host : Host) (now : ℕ) where
  -- `addMessages(messages)` of one message.
  unfoldable pub add_message : Bool → ChatMessage → Conversation → Conversation
  unfolding maybe_increase_unread maybe_notify is_beyond push
  add_message has_focus m c =
      let told = maybe_notify has_focus m (maybe_increase_unread now m c) in
      if is_beyond m told
      then told
      else record told { messages = push host now (record m { fresh = true } ∷ []) told.messages }

  -- `addMessages(messages, method)` of an array.
  unfoldable pub add_list : Bool → List ChatMessage → Conversation → Conversation
  unfolding push unshift
  add_list in_front list c = record c {
    messages = if in_front then unshift host now list c.messages else push host now list c.messages;
  }

  -- A message of the page itself: `{message, vars}`.
  abbrev pub note : Text → List Text → ChatMessage
  note message vars = record {
    from = [];
    type = [];
    message = message;
    vars = vars;
    highlight = false;
    yourself = false;
    fresh = false;
    internal = false;
    ts = none;
    id = 0;
    color = [];
    connection_id = [];
    conversation_id = [];
    shown = none;
  }

  -- `_partMessage(params)`
  unfoldable pub part_message : Text → Text → Text → ChatMessage
  part_message nick kicker message =
      if not (is_empty kicker)
      then note (codes "%1 was kicked by %2" ++ (if is_empty message then [] else codes ": %3"))
          (nick ∷ kicker ∷ message ∷ [])
      else if not (is_empty message)
      then note (codes "%1 parted. Reason: %2") (nick ∷ message ∷ [])
      else note (codes "%1 parted.") (nick ∷ [])

  -- `wsEventPart(params)`
  unfoldable pub ws_event_part : Bool → Text → Text → Text → Bool → Conversation → Conversation
  unfolding part_message add_message delete_nick load_information
  ws_event_part has_focus nick kicker message silent c =
      let gone =
        load_information now (record c { participants = delete_nick host c.participants nick }) in
      elim (get_nick host c.participants nick) [
        | none ↦ c
        | some p ↦
            if p.me
            then c
            else if silent
            then gone
            else add_message has_focus (part_message nick kicker message) gone
      ]

  -- `wsEventNickChange(params)`; `none` if `rename` throws.
  unfoldable pub ws_event_nick_change :
      Bool → Text → Text → Bool → Conversation → Option Conversation
  unfolding add_message
  ws_event_nick_change has_focus old_nick new_nick is_me c =
      let message =
        if is_me then codes "You (%1) changed nick to %2." else codes "%1 changed nick to %2." in
      if not (has_nick host c.participants old_nick) || text_eq old_nick new_nick
      then some c
      else elim (rename host c.participants old_nick new_nick) [
        | none ↦ none
        | some ps ↦ some (
            add_message has_focus (note message (old_nick ∷ new_nick ∷ []))
              (record c { participants = ps }))
      ]

  -- `wsEventSentTopic(params)`
  unfoldable pub ws_event_sent_topic : Bool → Text → Conversation → Conversation
  unfolding add_message load_information
  ws_event_sent_topic has_focus topic c =
      let message =
        if is_empty topic then codes "No topic is set for %1." else codes "Topic for %1 is: %2" in
      record (load_information now (add_message has_focus (note message (c.name ∷ topic ∷ [])) c)) {
        topic = topic;
      }

  -- `wsEventSentClear(params)`
  unfoldable pub ws_event_sent_clear : Bool → Bool → Conversation → Conversation
  unfolding add_message Messages.clear
  ws_event_sent_clear has_focus errors c =
      if errors
      then c
      else add_message has_focus (note (codes "History was cleared for %1.") (c.name ∷ []))
          (record c { messages = Messages.clear c.messages })
