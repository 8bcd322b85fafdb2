-- ===== src/User/Tests.antt =====
-- A user with one connection.
use convos.Prelude.{
  Option, some, ℕ, ◌+◌, ◌≡◌, refl, Bool, true, false, not, Text, codes, text_eq, List, [], ◌∷◌,
  none, if◌then◌else◌, string_eq,
}
use convos.Prelude.Dict.{get}
use convos.Connection.Ensure
use convos.User.{ConnectionParams}
use convos.User.Loading.{Answer}
use convos.Conversation.{Conversation, is_private}
use convos.Connection.{Connection, Page, with_id, connected, new_conversation}
use convos.User.{User, live, missing, pending, conversations, remove_conversation}
use convos.User.Unread.{calculate_unread, calculate_unread_lem, total}
use convos.User.Dispatch.{event_name}

abbrev page : Page
page = record { last_id = 0; raw = false; want_notifications = λ id. none }

abbrev talk : Text → ℕ → ℕ → Conversation
talk id notifications unread =
    new_conversation page (codes "irc-libera")
      (record (with_id id) { notifications = some notifications; unread = some unread })

abbrev libera : Connection
libera = record {
  base = talk [] 0 0;
  conversations =
      (codes "#convos", talk (codes "#convos") 2 5)
      ∷ (codes "batman", talk (codes "batman") 1 3)
      ∷ [];
  state = connected;
  nick = codes "superman";
  server_op = false;
  real_host = [];
  out = [];
}

abbrev superman : User
superman = record {
  connections = (codes "irc-libera", libera) ∷ [];
  notifications = record {
    notifications = 0;
    unread = 0;
    messages = record { messages = []; last_id = 0; raw = false };
  };
  roles = [];
  active = live (codes "irc-libera") (codes "batman");
  status = pending;
  email = [];
  id = [];
  ignore_statuses = false;
  unread_include_private_messages = true;
}

counters : (calculate_unread superman).notifications.notifications ≡ 5
unfolding calculate_unread new_conversation
counters = refl

gone :
    (remove_conversation (codes "irc-libera") (codes "batman") superman).active
    ≡ missing (codes "irc-libera") (codes "batman")
unfolding remove_conversation text_eq new_conversation convos.Prelude.Dict.get
    convos.Prelude.Dict.set convos.Prelude.Dict.delete
gone = refl

sent_name :
    event_name
      (λ s. s)
      (record { errors = false; event = codes "sent"; type = []; message = codes "/join #convos" })
    ≡ codes "sent_join"
unfolding event_name text_eq
sent_name = refl

calculate_unread_lem_example :
    let d = calculate_unread superman in
    (d.notifications.unread
      ≡ total (λ conv. conv.notifications) (conversations (λ conv. not (is_private conv)) superman))
    × (d.notifications.notifications
        ≡ d.notifications.unread
          + (if true then total (λ conv. conv.unread) (conversations is_private superman) else 0))
calculate_unread_lem_example = calculate_unread_lem superman

abbrev params : ConnectionParams
params = record {
  connection_id = codes "irc-libera";
  base = with_id [];
  state = none;
  nick = none;
  server_op = none;
  real_host = none;
  fresh = libera;
}

abbrev as_is : Text → Text
as_is s = s

abbrev answer : Answer
answer = record {
  errors = false;
  connections = params ∷ [];
  conversations = (params, with_id (codes "batman")) ∷ [];
  roles = codes "admin" ∷ [];
  unread = 3;
  email = codes "superman@example.com";
  uid = codes "1";
}
