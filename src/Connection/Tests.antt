-- ===== src/Connection/Tests.antt =====
-- A connection with one channel.
use convos.Prelude.{
  ◌≡◌, refl, false, Text, codes, text_eq, List, [], ◌∷◌, Option, none, some, string_eq,
}
use convos.Prelude.Dict
use convos.Prelude.Dict.{get}
use convos.Host.{ascii_host}
use convos.Conversation.{Conversation}
use convos.Connection.{
  with_id, connected, connecting, Connection, Page, new_conversation, find_conversation,
  ensure_conversation, comes_after,
}
use convos.Connection.Ensure.{IsValid, Ensures, ensure_conversation_lem}
use convos.Connection.Valid.{handle_all-IsValid}
use convos.Connection.Events.{Event, connection, nick_change, join, part, sent_query, handle_all}
use convos.Connection.Handlers.{ws_event_part_from}
use convos.Connection.Parting.{after_part, ws_event_part_from_lem}

abbrev page : Page
page = record { last_id = 0; raw = false; want_notifications = λ id. none }

abbrev base : Conversation
base = new_conversation page (codes "irc-libera") (with_id [])

abbrev channel : Conversation
channel = new_conversation page (codes "irc-libera") (with_id (codes "#convos"))

abbrev libera : Connection
libera = record {
  base = base;
  conversations = (codes "#convos", channel) ∷ [];
  state = connecting;
  nick = codes "superman";
  server_op = false;
  real_host = [];
  out = [];
}

libera-IsValid : IsValid libera
unfolding new_conversation get
libera-IsValid = record { distinct = (refl, tt); own = (refl, tt) }

abbrev ids : Option Connection → List Text
ids none = []
ids (some c) = Dict.keys c.conversations

abbrev as_is : Text → Text
as_is s = s

-- A private conversation goes behind the channels.
ids_after :
    ids (
      handle_all ascii_host 5 false page as_is
        (sent_query (with_id (codes "batman"))
          ∷ join (codes "#abc") none false
          ∷ part (codes "#convos") (some (codes "superman")) [] [] false
          ∷ [])
        libera)
    ≡ codes "#abc" ∷ codes "batman" ∷ []
unfolding handle_all text_eq get convos.SortedMap.set comes_after convos.Host.code_gt Dict.delete
ids_after = refl

ensure_conversation_lem_example :
    (d : Connection) × (conv : Conversation) × (ensure_conversation ascii_host 5 page as_is
        (with_id (codes "batman"))
        libera
      ≡ some d)
    × Ensures 5 (with_id (codes "batman")) (codes "#convos") libera d conv
ensure_conversation_lem_example =
    ensure_conversation_lem ascii_host 5 page as_is (with_id (codes "batman")) (codes "#convos")
      libera libera-IsValid

abbrev events : List Event
events =
    connection connected
    ∷ join (codes "#convos") (some (codes "robin")) false
    ∷ nick_change (some (codes "robin")) none (some (codes "batgirl")) false
    ∷ []

handle_all-IsValid_example :
    (d : Connection) × (handle_all ascii_host 5 false page as_is events libera ≡ some d) × IsValid d
handle_all-IsValid_example =
    handle_all-IsValid ascii_host 5 false page as_is events libera (tt, (tt, (refl, tt)))
      libera-IsValid

ws_event_part_from_lem_example :
    (d : Connection) × (ws_event_part_from ascii_host 5 false page as_is []
        (codes "robin")
        []
        (codes "bye")
        false
        libera
      ≡ some d)
    × (find_conversation (codes "#convos") d
        ≡ after_part ascii_host 5 false page as_is []
            (codes "robin")
            []
            (codes "bye")
            false
            (codes "#convos")
            libera)
ws_event_part_from_lem_example =
    ws_event_part_from_lem ascii_host 5 false page as_is [] (codes "robin") [] (codes "bye") false
      (codes "#convos") libera
