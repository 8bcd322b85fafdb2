-- ===== src/Connection.antt =====
-- assets/store/Connection.js: a connection to a chat server. It is a conversation itself, `base`, and
-- holds the conversations by their ids. A conversation that a handler changes stays where it is in the
-- map; `set` alone sorts. `update({conversations: true})` only tells the page to draw and is left out.
pub mod Handlers
pub mod Kept
pub mod Ensure
pub mod Steps
pub mod Events
pub mod Valid
pub mod Parting
mod Tests
use convos.Prelude.{
  ℕ, Bool, true, false, not, ◌&&◌, ◌||◌, ◌≡◌, Text, codes, text_eq, is_empty, or_text, List, [],
  ◌∷◌, ◌++◌, Option, none, some, get_or, is_some, if◌then◌else◌, string_eq,
}
use convos.Prelude.Dict
use convos.Prelude.Dict.{Dict, get, set, delete}
use convos.Host.{Host}
use convos.SortedMap
use convos.Participants.{Participant, named, add_all}
use convos.Conversation.{Conversation, Status, pending, emits_unread, is_private, load_information}

-- The parameters of a conversation in an event of the server or in the list of conversations, as far
-- as `update` and `new Conversation` read them; `none` for a key that is missing.
pub record Params : Type 0 where
  pub conversation_id : Text
  pub name : Option Text
  pub frozen : Option Text
  pub topic : Option Text
  pub notifications : Option ℕ
  pub unread : Option ℕ
  pub info_ts : Option ℕ
  pub status : Option Status

abbrev pub with_id : Text → Params
with_id id = record {
  conversation_id = id;
  name = none;
  frozen = none;
  topic = none;
  notifications = none;
  unread = none;
  info_ts = none;
  status = none;
}

pub data State : Type 0 where
  connected connecting disconnected disconnecting unreachable other : State

pub data Effect : Type 0 where
  added : Text → Effect
  removed : Text → Effect
  shows : Text → Text → Effect

-- `base.frozen` is not read: `frozen` below is its value.
pub record Connection : Type 0 where
  pub base : Conversation
  pub conversations : Dict Text Conversation
  pub state : State
  pub nick : Text
  pub server_op : Bool
  pub real_host : Text
  pub out : List Effect

-- `sortConversations(a, b)`, positive.
unfoldable pub comes_after : Host → Conversation → Conversation → Bool
unfolding is_private
comes_after host a b =
    if is_private a
    then (if is_private b then host.locale_gt a.name b.name else true)
    else if is_private b
    then false
    else host.locale_gt a.name b.name

-- `_calculateFrozen()`
unfoldable pub calculate_frozen : (Text → Text) → State → Text
calculate_frozen l connected = []
calculate_frozen l connecting = l (codes "Connecting...")
calculate_frozen l disconnected = l (codes "Disconnected.")
calculate_frozen l disconnecting = l (codes "Disconnecting...")
calculate_frozen l unreachable = l (codes "Unreachable.")
calculate_frozen l other = l (codes "Connecting...")

-- `findConversation(params)`
abbrev pub find_conversation : Text → Connection → Option Conversation
find_conversation id c = get id c.conversations

-- A conversation that has been changed, at its place.
abbrev pub put : Text → Conversation → Connection → Connection
put id conv c = record c { conversations = set id conv c.conversations }

-- `update(params)` of a conversation.
unfoldable pub update : ℕ → Params → Conversation → Conversation
unfolding load_information
update now p conv =
    let d = load_information now conv in
    record d {
      name = get_or p.name d.name;
      frozen = get_or p.frozen d.frozen;
      topic = get_or p.topic d.topic;
      notifications = get_or p.notifications d.notifications;
      unread = get_or p.unread d.unread;
      info_ts = if is_some p.info_ts then p.info_ts else d.info_ts;
      status = get_or p.status d.status;
      out =
          d.out ++ (if is_some p.notifications || is_some p.unread then emits_unread ∷ [] else []);
    }

-- What the page keeps across calls: the variable `ID` of Messages.js, whether messages are shown raw,
-- and what the storage has for `<id>:wantNotifications`.
pub record Page : Type 0 where
  pub last_id : ℕ
  pub raw : Bool
  pub want_notifications : Text → Option Bool

-- `new Conversation({...params, connection_id})`
unfoldable pub new_conversation : Page → Text → Params → Conversation
unfolding is_private
new_conversation page connection_id p =
    let bare : Conversation = record {
      connection_id = connection_id;
      conversation_id = p.conversation_id;
      name =
          or_text (get_or p.name [])
            (or_text p.conversation_id (or_text connection_id (codes "ERR")));
      frozen = get_or p.frozen [];
      topic = get_or p.topic [];
      modes = [];
      info_ts = p.info_ts;
      notifications = get_or p.notifications 0;
      unread = get_or p.unread 0;
      want_notifications = false;
      history_start_at = none;
      history_stop_at = none;
      status = pending;
      op_status = pending;
      participants_loaded = false;
      messages = record { messages = []; last_id = page.last_id; raw = page.raw };
      participants = [];
      out = [];
    } in
    record bare {
      want_notifications = get_or (page.want_notifications p.conversation_id) (is_private bare);
    }

-- The participants of `_addDefaultParticipants(conversation)`.
unfoldable pub default_participants : Text → Conversation → List Participant
unfolding is_private
default_participants nick conv =
    record (named nick) { me = true } ∷ (if is_private conv then named conv.name ∷ [] else [])

-- `_addDefaultParticipants(conversation)`, unless the conversation is frozen.
unfoldable pub populated : Host → Text → Bool → Conversation → Option Conversation
unfolding default_participants add_all
populated host nick is_frozen conv =
    if is_frozen
    then some conv
    else elim (add_all host conv.participants (default_participants nick conv)) [
      | none ↦ none
      | some ps ↦ some (record conv { participants = ps })
    ]

-- `params` as `ensureConversation` leaves it for a new conversation.
unfoldable pub inherited : (Text → Text) → Params → Connection → Params
unfolding calculate_frozen
inherited l p c =
    if is_empty (get_or p.frozen []) && not (is_empty (calculate_frozen l c.state))
    then record p { frozen = some (calculate_frozen l c.state) }
    else p

module _ (host : Host) (now : ℕ) (page : Page) (l : Text → Text) where
  unfoldable pub add_conversation : Params → Connection → Option Connection
  unfolding new_conversation populated
  add_conversation p c =
      elim (populated host c.nick (not (is_empty (get_or p.frozen [])))
        (new_conversation page c.base.connection_id p)) [
          | none ↦ none
          | some conv ↦ some (record c {
            conversations = SortedMap.set (comes_after host) p.conversation_id conv c.conversations;
            out = c.out ++ added p.conversation_id ∷ [];
          })
        ]

  -- `ensureConversation(params)`
  unfoldable pub ensure_conversation : Params → Connection → Option Connection
  unfolding add_conversation inherited update
  ensure_conversation p c = elim (find_conversation p.conversation_id c) [
    | none ↦ add_conversation (inherited l p c) c
    | some conv ↦ some (put p.conversation_id (update now p conv) c)
  ]

-- `removeConversation(params)`; the event carries the parameters when there is no conversation.
unfoldable pub remove_conversation : Text → Connection → Connection
remove_conversation id c = record c {
  conversations = delete id c.conversations;
  out = c.out ++ removed id ∷ [];
}
