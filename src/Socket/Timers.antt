-- ===== src/Socket/Timers.antt =====
-- The timers, the queue and the connection belong together.
use convos.Prelude.{
  ℕ, ◌≡◌, refl, sym, ap, ◌∙◌, true, false, List, [], ◌∷◌, Option, none, some, arith, is_some,
  is_empty, if◌then◌else◌, Bool-cases, inl, inr, ◌==◌, ◌||◌, suc, leb, ltb, ◌*◌,
}
use convos.Socket.{
  ReadyState, connecting, opened, Message, Socket, Connect, send, close, open_socket, open_with,
  on_open, on_close, on_error, on_message, delete_waiting_message, enqueue, dequeue, dequeue_from,
  send_frame, is_open, reconnect_start, reconnect_in, keep_alive_start, new,
}
use convos.Socket.Events.{
  Event, sends, opens, closes, timer_fires, ws_open, ws_closing, ws_close, ws_error, ws_message,
  deletes, set_opened, set_closing, fire, step, run,
}

-- Keepalive frames are sent exactly while there is a WebSocket; a reconnect waits only while there is
-- none; while it is open nothing is queued.
pub record IsValid (s : Socket) : Type 0 where
  pub alive : s.keepalive ≡ is_some s.ws
  pub waits : is_some s.reconnect ≡ true → s.ws ≡ none
  pub drained : s.ws ≡ some opened → s.queue ≡ []

-- `_dequeue` leaves an empty queue on an open connection, and else does nothing.
dequeue_from_lem :
    (now : ℕ) (queue : List Message) (s : Socket)
    → ((dequeue_from now queue s).ws ≡ s.ws)
      × ((dequeue_from now queue s).keepalive ≡ s.keepalive)
      × ((dequeue_from now queue s).reconnect ≡ s.reconnect)
      × (s.ws ≡ some opened → (dequeue_from now queue s).queue ≡ [])
unfolding dequeue_from send_frame
dequeue_from_lem now [] s = (refl, refl, refl, λ e. refl)
dequeue_from_lem now (m ∷ queue) s = elim (Bool-cases (is_open s.ws)) [
  | inl up ↦ rw (up, dequeue_from) (dequeue_from_lem now queue (send_frame now m s))
  | inr down ↦ rw (down, dequeue_from) (refl, refl, refl, λ e. cc (down, ap is_open e))
]

dequeue-IsValid :
    (now : ℕ) (s : Socket)
    → s.keepalive ≡ is_some s.ws
    → (is_some s.reconnect ≡ true → s.ws ≡ none)
    → IsValid (dequeue now s)
unfolding dequeue
dequeue-IsValid now s alive waits =
    let (w, k, r, q) = dequeue_from_lem now s.queue s in
    record {
      alive = k ∙ alive ∙ ap is_some (sym w);
      waits = λ e. w ∙ waits (ap is_some (sym r) ∙ e);
      drained = λ e. q (sym w ∙ e);
    }

-- `open` keeps what belongs together, whatever is in the queue.
open_socket_lem :
    (connect : Connect) (s : Socket)
    → s.keepalive ≡ is_some s.ws
    → (is_some s.reconnect ≡ true → s.ws ≡ none)
    → ((open_socket connect s).keepalive ≡ is_some (open_socket connect s).ws)
      × (is_some (open_socket connect s).reconnect ≡ true → (open_socket connect s).ws ≡ none)
      × ((open_socket connect s).ws ≡ some opened → s.ws ≡ some opened)
      × ((open_socket connect s).queue ≡ s.queue)
unfolding open_socket open_with keep_alive_start on_error
open_socket_lem connect s alive waits = ground arith

open_socket-IsValid : (connect : Connect) (s : Socket) → IsValid s → IsValid (open_socket connect s)
open_socket-IsValid connect s v =
    let (a, w, o, q) = open_socket_lem connect s v.alive v.waits in
    record { alive = a; waits = w; drained = λ e. q ∙ v.drained (o e) }

set_opened-some : (o : Option ReadyState) → is_some (set_opened o) ≡ is_some o
unfolding set_opened
set_opened-some none = refl
set_opened-some (some x) = refl

set_opened-none : (o : Option ReadyState) → o ≡ none → set_opened o ≡ none
unfolding set_opened
set_opened-none none e = refl
set_opened-none (some x) e = cc

-- Every step keeps the socket well-formed.
pub step-IsValid :
    (connect : Connect) (now : ℕ) (ev : Event) (s : Socket)
    → IsValid s
    → IsValid (step connect now ev s)
unfolding step
step-IsValid connect now (sends m) s v =
    let (a, w, o, q) = open_socket_lem connect (enqueue m s) v.alive v.waits in
    unfold send in dequeue-IsValid now (open_socket connect (enqueue m s)) a w
step-IsValid connect now opens s v = open_socket-IsValid connect s v
step-IsValid connect now closes s v = unfold close in ground arith
step-IsValid connect now timer_fires s v =
    unfold fire in ground (arith, open_socket-IsValid connect s v)
step-IsValid connect now ws_open s v =
    unfold on_open in
    dequeue-IsValid now
      (record s { ws = set_opened s.ws; closed_times = 0; error = []; reconnect_at = 0 })
      (v.alive ∙ sym (set_opened-some s.ws)) (λ e. set_opened-none s.ws (v.waits e))
step-IsValid connect now ws_closing s v = unfold set_closing in ground arith
step-IsValid connect now (ws_close code) s v = unfold on_close reconnect_start in ground arith
step-IsValid connect now (ws_error message) s v = unfold on_error in ground arith
step-IsValid connect now (ws_message msg stopped) s v = unfold on_message in ground arith
step-IsValid connect now (deletes id) s v = unfold delete_waiting_message in ground arith

-- Over any history that begins in a consistent socket: the keepalive timer is set exactly while there
-- is a WebSocket, a reconnect is planned only while there is none, and an open connection leaves
-- nothing in the queue.
pub run-IsValid :
    (connect : Connect) (history : List (ℕ × Event)) (s : Socket)
    → IsValid s
    → IsValid (run connect history s)
unfolding run
run-IsValid connect [] s v = v
run-IsValid connect ((now, ev) ∷ rest) s v =
    run-IsValid connect rest (step connect now ev s) (step-IsValid connect now ev s v)

pub new-IsValid : IsValid new
new-IsValid = record { alive = refl; waits = λ e. cc; drained = λ e. refl }

delay_some :
    (code n : ℕ)
    → (code == 1008 || code == 1011) ≡ false
    → (d : ℕ) × (reconnect_in code (suc n) ≡ some d)
unfolding reconnect_in
delay_some code n h = (
  if leb (suc n) 1 then 1000 else if ltb 5 (suc n) then 10000 else 1000 * (suc n * 2),
  ground arith,
)

-- A socket that the program closes does not stay closed. The browser answers `close()` with the event
-- of the old WebSocket, and its handler starts the reconnect timer unless the code is 1008 or 1011;
-- when that fires, the socket is connecting again, if it has a URL that the browser takes.
pub close_reconnects :
    (connect : Connect) (now later code : ℕ) (s : Socket)
    → (code == 1008 || code == 1011) ≡ false
    → is_empty s.url ≡ false
    → connect s.url ≡ none
    → let after =
        run connect ((now, closes) ∷ (now, ws_close code) ∷ (later, timer_fires) ∷ []) s in
      (after.ws ≡ some connecting) × (after.keep_closed ≡ false)
unfolding run step
close_reconnects connect now later code s ok url accepts =
    ground (arith, delay_some code s.closed_times ok)
