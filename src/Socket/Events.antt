-- ===== src/Socket/Events.antt =====
-- Everything that can happen to a socket, as steps: the calls of the program and those of the
-- browser. The browser sets the state of the current WebSocket before it calls the handler.
use convos.Prelude.{ℕ, Bool, Text, List, [], ◌∷◌, Option, none, some}
use convos.Socket.{
  ReadyState, opened, closing, Message, Answer, Socket, Connect, send, close, open_socket, on_open,
  on_close, on_error, on_message, delete_waiting_message, numbered, Effect, frame, close_frame,
  emit_message, emit_id,
}

-- `ws` opens: of a socket that has no WebSocket any more the handler alone runs.
unfoldable pub set_opened : Option ReadyState → Option ReadyState
set_opened none = none
set_opened (some state) = some opened

unfoldable pub set_closing : Option ReadyState → Option ReadyState
set_closing none = none
set_closing (some state) = some closing

pub data Event : Type 0 where
  sends : Message → Event
  opens closes timer_fires : Event
  ws_open ws_closing : Event
  ws_close : ℕ → Event
  ws_error : Text → Event
  ws_message : Answer → Bool → Event
  deletes : Text → Event

-- The timer `reconnectTid` calls `open()`, if it is set; its id stays until `_reconnectStop`.
unfoldable pub fire : Connect → Socket → Socket
unfolding open_socket
fire connect s = elim s.reconnect [ none ↦ s | some delay ↦ open_socket connect s ]

unfoldable pub step : Connect → ℕ → Event → Socket → Socket
unfolding set_opened set_closing send open_socket close fire on_open on_close on_error on_message
    delete_waiting_message
step connect now (sends m) s = send connect now m s
step connect now opens s = open_socket connect s
step connect now closes s = close s
step connect now timer_fires s = fire connect s
step connect now ws_open s = on_open now (record s { ws = set_opened s.ws })
step connect now ws_closing s = record s { ws = set_closing s.ws }
step connect now (ws_close code) s = on_close now code s
step connect now (ws_error message) s = on_error message s
step connect now (ws_message msg stopped) s = on_message msg stopped s
step connect now (deletes id) s = delete_waiting_message id s

-- A history: each event with its time.
unfoldable pub run : Connect → List (ℕ × Event) → Socket → Socket
unfolding step
run connect [] s = s
run connect ((now, ev) ∷ rest) s = run connect rest (step connect now ev s)

-- The messages of the frames that have gone out, in order.
abbrev pub frames : List Effect → List Message
frames [] = []
frames (frame m ∷ out) = m ∷ frames out
frames (close_frame ∷ out) = frames out
frames (emit_message a ∷ out) = frames out
frames (emit_id id a ∷ out) = frames out

-- The message that an event hands to the socket, with the id that it gets.
abbrev pub accepted : Event → Socket → List Message
accepted (sends m) s = numbered m s ∷ []
accepted opens s = []
accepted closes s = []
accepted timer_fires s = []
accepted ws_open s = []
accepted ws_closing s = []
accepted (ws_close code) s = []
accepted (ws_error message) s = []
accepted (ws_message msg stopped) s = []
accepted (deletes id) s = []
