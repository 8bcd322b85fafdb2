-- ===== src/User/Dispatch.antt =====
-- assets/store/User.js: `_dispatchMessage` and `_getEventNameFromMessage`.
use convos.Prelude.{
  ℕ, suc, ◌==◌, Bool, false, not, ◌&&◌, ◌||◌, Text, codes, text_eq, is_empty, List, [], ◌∷◌, ◌++◌,
  Option, none, some, if◌then◌else◌, string_eq, drop, filter,
}
use convos.Prelude.Chars.{is_space}
use convos.Prelude.Dict.{get}
use convos.Host.{Host}
use convos.Commands.{words}
use convos.Messages.{ChatMessage, push}
use convos.Participants.{Participant}
use convos.Conversation.{
  Conversation, is_private, emits_unread, load_information, ws_event_part, ws_event_nick_change,
  ws_event_sent_topic, ws_event_sent_clear,
}
use convos.Conversation.Events.{
  ModeParams, ws_event_mode, ws_event_participants, ws_event_sent_names,
}
use convos.Connection.{Connection, Page, find_conversation, put}
use convos.Connection.Events
use convos.Connection.Events.{Event}
use convos.User.{User, is_shown, changed}

-- A message of the server as far as its name is made from it.
pub record Named : Type 0 where
  pub errors : Bool
  pub event : Text
  pub type : Text
  pub message : Text

-- `message.match(/\/\S+/)`
unfoldable pub has_command : Text → Bool
has_command [] = false
has_command (c ∷ []) = false
has_command (c ∷ d ∷ s) = (c == b'/' && not (is_space d)) || has_command (d ∷ s)

abbrev pub first_command : List Text → Text
first_command [] = []
first_command (word ∷ rest) = drop 1 word

-- `_getEventNameFromMessage(msg)`
unfoldable pub event_name : (Text → Text) → Named → Text
unfolding has_command words
event_name lower m =
    if m.errors
    then codes "error"
    else if text_eq m.event (codes "state")
    then m.type
    else if text_eq m.event (codes "sent") && has_command m.message
    then codes "sent_"
      ++ lower (first_command (filter (λ word. not (is_empty word)) (words m.message)))
    else m.event

-- The handlers of a conversation that a message can be dispatched to.
pub data ConversationEvent : Type 0 where
  mode : ModeParams → ConversationEvent
  nick_change : Text → Text → Bool → ConversationEvent
  part : Text → Text → Text → Bool → ConversationEvent
  participants : List Participant → ConversationEvent
  sent_clear : Bool → ConversationEvent
  sent_names : Text → Text → List Participant → ConversationEvent
  sent_topic : Text → ConversationEvent

-- A message, with the handlers that there are for its name, once `silent` is set.
pub record Dispatched : Type 0 where
  pub connection_id : Text
  pub conversation_id : Text
  pub bubbles : Bool
  pub highlight : Bool
  pub on_connection : Bool → Option Event
  pub on_conversation : Bool → Option ConversationEvent
  pub chat : ChatMessage

module _ (host : Host) (now : ℕ) (has_focus : Bool) (page : Page) (l : Text → Text) where
  -- `conversation[msg.dispatchTo](msg)`
  unfoldable pub handle_conversation : ConversationEvent → Conversation → Option Conversation
  unfolding ws_event_mode ws_event_nick_change ws_event_part ws_event_participants
      ws_event_sent_clear ws_event_sent_names ws_event_sent_topic
  handle_conversation (mode p) c = ws_event_mode host now has_focus l p c
  handle_conversation (nick_change old new is_me) c =
      ws_event_nick_change host now has_focus old new is_me c
  handle_conversation (part nick kicker reason silent) c =
      some (ws_event_part host now has_focus nick kicker reason silent c)
  handle_conversation (participants list) c = ws_event_participants host now has_focus l list c
  handle_conversation (sent_clear errors) c = some (ws_event_sent_clear host now has_focus errors c)
  handle_conversation (sent_names from type list) c =
      ws_event_sent_names host now has_focus from type list c
  handle_conversation (sent_topic topic) c = some (ws_event_sent_topic host now has_focus topic c)

  abbrev handled : Option ConversationEvent → Conversation → Option Conversation
  handled none c = some c
  handled (some e) c = handle_conversation e c

  -- The notifications of a conversation after a highlight: none when the user looks at it, where
  -- `markAsRead` also sends a request, else one more.
  unfoldable pub highlighted : Bool → Conversation → Conversation
  unfolding load_information
  highlighted is_active conv =
      let d = load_information now conv in
      record d {
        notifications = if is_active && has_focus then 0 else suc d.notifications;
        out = d.out ++ emits_unread ∷ [];
      }

  -- The end of `_dispatchMessage`, for a message that bubbles; `none` is a TypeError for a highlight
  -- outside the conversations.
  unfoldable pub bubble : Dispatched → Connection → User → Option User
  unfolding handle_conversation highlighted is_private push
  bubble m c u = elim (find_conversation m.conversation_id c) [
    | none ↦ if m.highlight then none else some u
    | some conv ↦ elim (handled (m.on_conversation u.ignore_statuses) conv) [
      | none ↦ none
      | some d ↦
          if m.highlight && not (is_private d)
          then some
              (record (changed m.connection_id c
                (put m.conversation_id
                  (highlighted (is_shown m.connection_id m.conversation_id u.active) d) c)
                u) {
                  notifications = record u.notifications {
                    messages = push host now (m.chat ∷ []) u.notifications.messages;
                  };
                })
          else some (changed m.connection_id c (put m.conversation_id d c) u)
    ]
  ]

  -- `_dispatchMessage(msg)`; the event of the user itself is left to its listeners.
  unfoldable pub dispatch_message : Dispatched → User → Option User
  unfolding bubble changed Events.handle
  dispatch_message m u = elim (get m.connection_id u.connections) [
    | none ↦ some u
    | some c ↦
        let handled : Option Connection = elim (m.on_connection u.ignore_statuses) [
          | none ↦ some c
          | some e ↦ Events.handle host now has_focus page l e c
        ] in
        elim handled [
          | none ↦ none
          | some d ↦
              let v = changed m.connection_id c d u in if m.bubbles then bubble m d v else some v
        ]
  ]
