-- ===== src/Socket.antt =====
-- assets/js/Socket.js: the wrapper around a WebSocket. It queues what is sent while the connection is
-- down, keeps what waits for an answer, and reconnects. One call of the model is one call of a
-- method or of a handler that the browser makes; what it passes on (frames, events) is logged in
-- `out`, in order. Listeners run after the call: a listener that calls the socket is a later step.
pub mod Backoff
pub mod Events
pub mod Fifo
pub mod Answers
pub mod Timers
pub mod Recovery
mod Tests
use convos.Prelude.{
  ℕ, suc, ◌+◌, ◌*◌, ◌==◌, ◌||◌, ◌&&◌, not, Bool, true, false, Text, codes, starts_with, is_empty,
  List, [], ◌∷◌, ◌++◌, Option, none, some, get_or, map, leb, ltb, if◌then◌else◌, string_eq,
}
use convos.Prelude.Decimal.{decimal}
use convos.Prelude.Dict
use convos.Prelude.Dict.{Dict, set, delete}

pub data ReadyState : Type 0 where
  connecting opened closing closed : ReadyState

-- A message to the server. `content` stands for the caller's other keys, `size` for their number.
pub record Message : Type 0 where
  pub id : Text
  pub content : ℕ
  pub size : ℕ
  pub waiting_for_response : Bool
  pub ts : Option ℕ

-- A message from the server, as far as the socket reads it.
pub record Answer : Type 0 where
  pub id : Text
  pub errors : Bool
  pub content : ℕ

pub data Effect : Type 0 where
  frame : Message → Effect
  close_frame : Effect
  emit_message : Answer → Effect
  emit_id : Text → Answer → Effect

-- `ws` is `none` for the stand-in `{readyState: CLOSED}`, which has no `close`. `reconnect` holds the
-- delay of the timer `reconnectTid`, `keepalive` says whether `keepaliveTid` is set.
pub record Socket : Type 0 where
  pub ws : Option ReadyState
  pub waiting : Dict Text Message
  pub closed_times : ℕ
  pub error : Text
  pub reconnect_at : ℕ
  pub url : Text
  pub id : ℕ
  pub queue : List Message
  pub keep_closed : Bool
  pub keepalive : Bool
  pub reconnect : Option ℕ
  pub out : List Effect

-- `new Socket()`
abbrev pub new : Socket
new = record {
  ws = none;
  waiting = [];
  closed_times = 0;
  error = [];
  reconnect_at = 0;
  url = [];
  id = 0;
  queue = [];
  keep_closed = true;
  keepalive = false;
  reconnect = none;
  out = [];
}

-- `this.ws.readyState === WS_OPEN`
abbrev pub is_open : Option ReadyState → Bool
is_open (some opened) = true
is_open (some connecting) = false
is_open (some closing) = false
is_open (some closed) = false
is_open none = false

-- `_onError`: the message of the error, and the one that is shown for it.
unfoldable pub on_error : Text → Socket → Socket
on_error message s = record s {
  error =
      if is_empty message || starts_with message (codes "[")
      then codes "Could not connect."
      else message;
}

-- `_resetWebSocket`, `_keepAliveStop` and `_reconnectStop`
unfoldable pub reset_web_socket : Socket → Socket
reset_web_socket s = record s { ws = none }

unfoldable pub keep_alive_stop : Socket → Socket
keep_alive_stop s = record s { keepalive = false }

unfoldable pub reconnect_stop : Socket → Socket
reconnect_stop s = record s { reconnect = none }

-- `_keepAliveStart`
unfoldable pub keep_alive_start : Socket → Socket
unfolding keep_alive_stop
keep_alive_start s = record (keep_alive_stop s) { keepalive = true }

-- One round of `_dequeue`: the frame, and the message among those that wait for an answer.
unfoldable pub send_frame : ℕ → Message → Socket → Socket
send_frame now m s =
    let sent = record m { waiting_for_response = true; ts = some (get_or m.ts now) } in
    record s { waiting = set m.id sent s.waiting; out = s.out ++ frame m ∷ [] }

unfoldable pub dequeue_from : ℕ → List Message → Socket → Socket
unfolding send_frame
dequeue_from now [] s = record s { queue = [] }
dequeue_from now (m ∷ queue) s = elim (is_open s.ws) [
  | true ↦ dequeue_from now queue (send_frame now m s)
  | false ↦ record s { queue = m ∷ queue }
]

-- `_dequeue`
unfoldable pub dequeue : ℕ → Socket → Socket
unfolding dequeue_from
dequeue now s = dequeue_from now s.queue s

-- The WebSocket constructor, not under the repository: `none` if it takes the URL, else its error.
abbrev pub Connect : Type 0
Connect = Text → Option Text

-- `open()` past its first line.
unfoldable pub open_with : Option Text → Socket → Socket
unfolding keep_alive_start reconnect_stop on_error
open_with none s = record (reconnect_stop (keep_alive_start s)) {
  ws = some connecting;
  keep_closed = false;
  error = [];
}
open_with (some message) s = on_error message s

abbrev no_url : Text
no_url = codes "Can't open WebSocket connection without URL."

unfoldable pub open_socket : Connect → Socket → Socket
unfolding open_with
open_socket connect s = elim s.ws [
  | some state ↦ s
  | none ↦ open_with (if is_empty s.url then some no_url else connect s.url) s
]

-- `send(msg)`; the callback is a listener of the id.
abbrev pub numbered : Message → Socket → Message
numbered m s = if is_empty m.id then record m { id = decimal (suc s.id) } else m

abbrev pub enqueue : Message → Socket → Socket
enqueue m s = record s {
  id = if is_empty m.id then suc s.id else s.id;
  queue = s.queue ++ numbered m s ∷ [];
}

unfoldable pub send : Connect → ℕ → Message → Socket → Socket
unfolding open_socket dequeue
send connect now m s = dequeue now (open_socket connect (enqueue m s))

-- `close()`
unfoldable pub close : Socket → Socket
unfolding reset_web_socket keep_alive_stop reconnect_stop
close s =
    let asked : Socket = elim s.ws [
      | some state ↦ record s { out = s.out ++ close_frame ∷ [] }
      | none ↦ s
    ] in
    reset_web_socket (reconnect_stop (keep_alive_stop (record asked { keep_closed = true })))

-- `reconnectIn(e)`: milliseconds, or `none` for false.
unfoldable pub reconnect_in : ℕ → ℕ → Option ℕ
reconnect_in code times =
    if code == 1008 || code == 1011
    then none
    else if leb times 1
    then some 1000
    else if ltb 5 times
    then some 10000
    else some (1000 * (times * 2))

-- `_reconnectStart(delay)`
unfoldable pub reconnect_start : ℕ → Option ℕ → Socket → Socket
unfolding reconnect_stop
reconnect_start now none s = record (reconnect_stop s) { keep_closed = true }
reconnect_start now (some delay) s = record (reconnect_stop s) {
  reconnect = some delay;
  reconnect_at = now + delay;
}

-- `Object.keys(msg).length` of a waiting message: its own keys, `id`, `waitingForResponse`, `ts`.
abbrev pub key_count : Message → ℕ
key_count m = m.size + 3

-- The loop of `_onClose` over the waiting messages.
unfoldable pub close_waiting : Dict Text Message → Dict Text Message
close_waiting [] = []
close_waiting ((id, m) ∷ rest) =
    let others = close_waiting rest in
    if leb (key_count m) 1 then others else (id, record m { waiting_for_response = false }) ∷ others

-- `_onClose(e)`
unfoldable pub on_close : ℕ → ℕ → Socket → Socket
unfolding close_waiting keep_alive_stop reset_web_socket reconnect_start reconnect_in
on_close now code s =
    let quiet =
      reset_web_socket (keep_alive_stop (record s { waiting = close_waiting s.waiting })) in
    let counted = record quiet { closed_times = suc s.closed_times } in
    reconnect_start now (reconnect_in code (suc s.closed_times)) counted

-- `_onOpen(e)`
unfoldable pub on_open : ℕ → Socket → Socket
unfolding dequeue
on_open now s = dequeue now (record s { closed_times = 0; error = []; reconnect_at = 0 })

-- The events for one message from the server. `stopped` says whether a listener of the id called
-- `stopPropagation`.
unfoldable pub told : Answer → Bool → List Effect
told msg stopped =
    let has_id = not (is_empty msg.id) in
    (if has_id then emit_id msg.id msg ∷ [] else [])
    ++ (if has_id && stopped then [] else emit_message msg ∷ [])

-- The events for an error without an id: everybody who waits is told.
unfoldable pub told_all : Answer → List Text → List Effect
told_all msg ids = map (λ id. emit_id id msg) ids

-- `!(!msg.errors || msg.id)`
abbrev pub is_global_error : Answer → Bool
is_global_error msg = msg.errors && is_empty msg.id

-- `_onMessage(e)`
unfoldable pub on_message : Answer → Bool → Socket → Socket
unfolding told told_all
on_message msg stopped s =
    let left = if is_empty msg.id then s.waiting else delete msg.id s.waiting in
    record s {
      waiting = if is_global_error msg then [] else left;
      out =
          s.out
          ++ (told msg stopped
              ++ (if is_global_error msg then told_all msg (Dict.keys left) else []));
    }

-- `deleteWaitingMessage(id)`
unfoldable pub delete_waiting_message : Text → Socket → Socket
delete_waiting_message id s = record s { waiting = delete id s.waiting }

-- `getWaitingMessages()`, and with a list of ids.
abbrev pub get_waiting_messages : Socket → List Message
get_waiting_messages s = Dict.values s.waiting

abbrev pub get_waiting_messages_of : List Text → Socket → List (Option Message)
get_waiting_messages_of ids s = map (λ id. Dict.get id s.waiting) ids
