-- ===== src/Connection/Events.antt =====
-- The events of the server as data, and the handlers as one function: assets/store/User.js calls the
-- one that the name of a message gives.
use convos.Prelude.{ℕ, Bool, Text, List, [], ◌∷◌, Option, none, some, string_eq}
use convos.Host.{Host}
use convos.ChatHelpers.{Whois}
use convos.Messages.{ChatMessage}
use convos.Conversation.Events.{ModeParams}
use convos.Connection.{Params, State, Connection, Page, ensure_conversation}
use convos.Connection.Handlers.{
  Failure, ws_event_sent_away, ws_event_connection, ws_event_frozen, ws_event_message,
  ws_event_nick_change_all, ws_event_info, ws_event_error, ws_event_join, ws_event_part_any,
  ws_event_sent_list, ws_event_sent_mode, ws_event_sent_whois,
}

-- The events of the server that a connection handles; a nick that is missing is `none`.
pub data Event : Type 0 where
  sent_away : Text → Text → Event
  connection : State → Event
  frozen : Params → Event
  info : Option Text → Option Bool → Option Text → Option State → Event
  message : Params → ChatMessage → Event
  nick_change : Option Text → Option Text → Option Text → Bool → Event
  error : Failure → Event
  join : Text → Option Text → Bool → Event
  part : Text → Option Text → Text → Text → Bool → Event
  sent_list : Bool → ℕ → ℕ → Text → Event
  sent_mode : Text → Text → ModeParams → Event
  sent_query : Params → Event
  sent_whois : Text → Whois → Event

module _ (host : Host) (now : ℕ) (has_focus : Bool) (page : Page) (l : Text → Text) where
  -- `conn[msg.dispatchTo](msg)`
  unfoldable pub handle : Event → Connection → Option Connection
  unfolding ws_event_sent_away ws_event_connection ws_event_frozen ws_event_info ws_event_message
      ws_event_nick_change_all ws_event_error ws_event_join ws_event_part_any ws_event_sent_list
      ws_event_sent_mode ensure_conversation ws_event_sent_whois
  handle (sent_away id reason) c = some (ws_event_sent_away host now has_focus page l id reason c)
  handle (connection state) c = some (ws_event_connection host now has_focus page l state c)
  handle (frozen p) c = ws_event_frozen host now has_focus page l p c
  handle (info nick op real_host state) c =
      ws_event_info host now has_focus page l nick op real_host state c
  handle (message p m) c = ws_event_message host now has_focus page l p m c
  handle (nick_change old new nick is_me) c =
      ws_event_nick_change_all host now has_focus page l old new nick is_me c
  handle (error e) c = ws_event_error host now has_focus page l e c
  handle (join id nick silent) c = ws_event_join host now has_focus page l id nick silent c
  handle (part id nick kicker reason silent) c =
      ws_event_part_any host now has_focus page l id nick kicker reason silent c
  handle (sent_list is_done n m args) c =
      some (ws_event_sent_list host now has_focus page l is_done n m args c)
  handle (sent_mode id target p) c = ws_event_sent_mode host now has_focus page l id target p c
  handle (sent_query p) c = ensure_conversation host now page l p c
  handle (sent_whois id w) c = some (ws_event_sent_whois host now has_focus page l id w c)

  unfoldable pub handle_all : List Event → Connection → Option Connection
  unfolding handle
  handle_all [] c = some c
  handle_all (e ∷ events) c = elim (handle e c) [ none ↦ none | some d ↦ handle_all events d ]
