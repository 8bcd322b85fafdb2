-- ===== src/Conversation/Tests.antt =====
-- A channel with one message.
use convos.Prelude.{
  ◌≡◌, refl, true, false, ◌&&◌, codes, [], ◌∷◌, ◌++◌, none, some, arith, if◌then◌else◌, text_eq,
}
use convos.Host.{ascii_host}
use convos.Messages.{ChatMessage, fill, fill_one}
use convos.Conversation.{
  Conversation, success, failed, is_from_others, is_beyond, add_message, ws_event_part, note,
}
use convos.Conversation.History.{LoadBody, loaded, load}
use convos.Conversation.Unread.{notified, add_message_lem}
use convos.Participants.{Participant, named, get_nick}
use convos.Conversation.Parting.{ws_event_part_lem}
use convos.Conversation.Loading.{older, load-older}

abbrev greeting : ChatMessage
greeting = record (note ascii_host 0 (codes "hi") []) {
  from = codes "alice";
  type = codes "private";
  highlight = true;
}

abbrev channel : Conversation
channel = record {
  connection_id = codes "irc-libera";
  conversation_id = codes "#convos";
  name = codes "#convos";
  frozen = [];
  topic = [];
  modes = [];
  info_ts = none;
  notifications = 0;
  unread = 3;
  want_notifications = false;
  history_start_at = none;
  history_stop_at = some 10;
  status = success;
  op_status = success;
  participants_loaded = true;
  messages = record { messages = greeting ∷ []; last_id = 1; raw = false };
  participants = [];
  out = [];
}

counted : (add_message ascii_host 5 false greeting channel).unread ≡ 4
unfolding add_message text_eq
counted = refl

add_message_lem_example :
    let d = add_message ascii_host 5 false greeting channel in
    (d.unread ≡ (if is_from_others greeting then 4 else 3))
    × (notified d.out
        ≡ notified [] ++ (if is_from_others greeting && true then greeting ∷ [] else []))
    × (d.messages.messages ≡ (
        if is_beyond greeting channel
        then greeting ∷ []
        else greeting ∷ fill_one ascii_host 5 1 (record greeting { fresh = true }) ∷ []))
add_message_lem_example = add_message_lem ascii_host 5 false greeting channel

abbrev failure : LoadBody
failure = record { messages = []; before = true; after = false }

-- After a call that failed no older messages are asked for any more.
load-older_example :
    let d = loaded ascii_host 7 (older 3) failed failure channel in
    (d.messages.messages ≡ fill ascii_host 7 1 [] ++ greeting ∷ [])
    × ((load ascii_host 8 (older 2) d).1 ≡ false)
load-older_example = load-older ascii_host 7 8 3 2 failed failure channel refl (omega arith)

abbrev crowded : Conversation
crowded = record channel {
  participants =
      (codes "a", named (codes "a")) ∷ (codes "b", record (named (codes "b")) { me = true }) ∷ [];
}

ws_event_part_lem_example :
    let d = ws_event_part ascii_host 9 false (codes "A") [] [] false crowded in
    ((p : Participant)
      → get_nick ascii_host crowded.participants (codes "A") ≡ some p
      → p.me ≡ false
      → get_nick ascii_host d.participants (codes "b") ≡ (
          if text_eq (codes "a") (codes "b")
          then none
          else get_nick ascii_host crowded.participants (codes "b")))
    × ((p : Participant)
        → get_nick ascii_host crowded.participants (codes "A") ≡ some p
        → p.me ≡ true
        → d ≡ crowded)
    × (get_nick ascii_host crowded.participants (codes "A") ≡ none → d ≡ crowded)
ws_event_part_lem_example =
    ws_event_part_lem ascii_host 9 false (codes "A") [] [] (codes "b") false crowded
