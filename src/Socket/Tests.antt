-- ===== src/Socket/Tests.antt =====
-- Runs of a socket, and the theorems at concrete histories.
use convos.Prelude.{
  ℕ, ◌≡◌, refl, true, false, codes, List, [], ◌∷◌, ◌++◌, none, some, map, text_eq, if◌then◌else◌,
  is_empty, string_eq,
}
use convos.Prelude.Decimal.{decimal}
use convos.Prelude.Dict
use convos.Prelude.Dict.{get}
use convos.Socket.{
  connecting, Message, Answer, Socket, Connect, new, on_message, emit_message, emit_id, is_open,
}
use convos.Socket.Events.{Event, sends, closes, timer_fires, ws_open, ws_close, run, frames}
use convos.Socket.Fifo.{line, accepted_all, run-line}
use convos.Socket.Timers.{IsValid, run-IsValid, close_reconnects}
use convos.Socket.Answers.{on_message_lem}
use convos.Socket.Recovery.{run-recovers}

abbrev takes_all : Connect
takes_all url = none

abbrev message : ℕ → Message
message n = record { id = []; content = n; size = 2; waiting_for_response = false; ts = none }

abbrev at_url : Socket
at_url = record new { url = codes "wss://convos.chat/events" }

abbrev session : List (ℕ × Event)
session =
    (1, sends (message 7))
    ∷ (2, ws_open)
    ∷ (3, sends (message 8))
    ∷ (4, ws_close 1006)
    ∷ (5, sends (message 9))
    ∷ []

abbrev answer : Answer
answer = record { id = codes "1"; errors = false; content = 0 }

-- Two messages have gone out, the third waits for the new connection.
session_sent : map (λ m. m.content) (run takes_all session at_url).queue ≡ 9 ∷ []
unfolding run
session_sent = refl

session_ids :
    map (λ m. m.id) (line (run takes_all session at_url)) ≡ codes "1" ∷ codes "2" ∷ codes "3" ∷ []
unfolding run decimal
session_ids = refl

run-line_example :
    line (run takes_all session at_url) ≡ line at_url ++ accepted_all takes_all session at_url
run-line_example = run-line takes_all session at_url

at_url-IsValid : IsValid at_url
at_url-IsValid = record { alive = refl; waits = λ e. cc; drained = λ e. refl }

run-IsValid_example : IsValid (run takes_all session at_url)
run-IsValid_example = run-IsValid takes_all session at_url at_url-IsValid

close_reconnects_example :
    let after =
      run takes_all
        ((9, closes) ∷ (9, ws_close 1000) ∷ (1009, timer_fires) ∷ [])
        (run takes_all session at_url) in
    (after.ws ≡ some connecting) × (after.keep_closed ≡ false)
unfolding run
close_reconnects_example =
    close_reconnects takes_all 9 1009 1000 (run takes_all session at_url) refl refl refl

on_message_lem_example :
    (is_empty answer.id ≡ false
      → get (codes "2") (on_message answer false (run takes_all session at_url)).waiting ≡ (
          if text_eq answer.id (codes "2")
          then none
          else get (codes "2") (run takes_all session at_url).waiting))
    × (is_empty answer.id ≡ true
        → answer.errors ≡ true
        → ((on_message answer false (run takes_all session at_url)).waiting ≡ [])
          × ((on_message answer false (run takes_all session at_url)).out
              ≡ (run takes_all session at_url).out
                ++ emit_message answer
                  ∷ map
                      (λ id. emit_id id answer)
                      (Dict.keys (run takes_all session at_url).waiting)))
    × (is_empty answer.id ≡ true
        → answer.errors ≡ false
        → (on_message answer false (run takes_all session at_url)).waiting
          ≡ (run takes_all session at_url).waiting)
on_message_lem_example = on_message_lem answer false (codes "2") (run takes_all session at_url)

abbrev waiting : Socket
waiting = record at_url { queue = message 7 ∷ message 8 ∷ [] }

run-recovers_example :
    let d = run takes_all ((1, ws_close 1006) ∷ (2, timer_fires) ∷ (3, ws_open) ∷ []) waiting in
    (frames d.out ≡ frames waiting.out ++ waiting.queue) × (d.queue ≡ []) × (is_open d.ws ≡ true)
run-recovers_example = run-recovers takes_all 1 2 3 1006 waiting refl refl refl
