-- ===== src/Socket/Fifo.antt =====
-- Nothing that is sent is lost, doubled or overtaken on its way to the wire.
use convos.Prelude.{
  ℕ, ◌≡◌, refl, sym, ap, ap₂, ◌∙◌, Bool, Text, List, [], ◌∷◌, ◌++◌, append_assoc, append-nil, arith,
  is_empty, if◌then◌else◌, Bool-cases, inl, inr, Option-cases, string_eq,
}
use convos.Prelude.Dict
use convos.Prelude.Dict.{delete}
use convos.Socket.{
  Message, Answer, Socket, Connect, send, close, open_socket, open_with, on_close, on_error,
  on_message, numbered, enqueue, Effect, frame, close_frame, emit_message, emit_id, told, told_all,
  is_global_error, dequeue, dequeue_from, send_frame, is_open, reconnect_start, keep_alive_start,
}
use convos.Socket.Events.{
  Event, sends, opens, closes, timer_fires, ws_open, ws_closing, ws_close, ws_error, ws_message,
  deletes, set_opened, fire, step, run, frames, accepted,
}

-- What went out and what is still queued.
abbrev pub line : Socket → List Message
line s = frames s.out ++ s.queue

frames-append : (a b : List Effect) → frames (a ++ b) ≡ frames a ++ frames b
frames-append [] b = refl
frames-append (frame m ∷ a) b = ap (m ∷◌) (frames-append a b)
frames-append (close_frame ∷ a) b = frames-append a b
frames-append (emit_message m ∷ a) b = frames-append a b
frames-append (emit_id i m ∷ a) b = frames-append a b

dequeue_from-line :
    (now : ℕ) (queue : List Message) (s : Socket)
    → line (dequeue_from now queue s) ≡ frames s.out ++ queue
unfolding dequeue_from send_frame
dequeue_from-line now [] s = refl
dequeue_from-line now (m ∷ queue) s = elim (Bool-cases (is_open s.ws)) [
  | inl up ↦
      rw (up, dequeue_from)
        (dequeue_from-line now queue (send_frame now m s)
          ∙ ap (λ l. l ++ queue) (frames-append s.out (frame m ∷ []))
          ∙ append_assoc (frames s.out) (m ∷ []) queue)
  | inr down ↦ rw (down, dequeue_from)
]

dequeue-line : (now : ℕ) (s : Socket) → line (dequeue now s) ≡ line s
unfolding dequeue
dequeue-line now s = dequeue_from-line now s.queue s

open_socket-line : (connect : Connect) (s : Socket) → line (open_socket connect s) ≡ line s
unfolding open_socket open_with keep_alive_start on_error
open_socket-line connect s = ground arith

told-frames : (msg : Answer) (stopped : Bool) → frames (told msg stopped) ≡ []
unfolding told
told-frames msg stopped = ground arith

told_all-frames : (msg : Answer) (ids : List Text) → frames (told_all msg ids) ≡ []
unfolding told_all
told_all-frames msg [] = refl
told_all-frames msg (i ∷ ids) = told_all-frames msg ids

quiet-frames : (out more : List Effect) → frames more ≡ [] → frames (out ++ more) ≡ frames out
quiet-frames out more e =
    frames-append out more ∙ ap (λ l. frames out ++ l) e ∙ append-nil (frames out)

on_message-line :
    (msg : Answer) (stopped : Bool) (s : Socket) → line (on_message msg stopped s) ≡ line s
unfolding on_message
on_message-line msg stopped s =
    let left = if is_empty msg.id then s.waiting else delete msg.id s.waiting in
    let all : frames (if is_global_error msg then told_all msg (Dict.keys left) else []) ≡ [] =
      ground (arith, told_all-frames msg (Dict.keys left)) in
    ap (λ l. l ++ s.queue)
      (quiet-frames s.out _
        (frames-append (told msg stopped) _ ∙ ap₂ ◌++◌ (told-frames msg stopped) all))

close-line : (s : Socket) → line (close s) ≡ line s
unfolding close
close-line s = elim (Option-cases s.ws) [
  | inl e ↦ rw (e, close)
  | inr (state, e) ↦
      rw (e, close) (ap (λ l. l ++ s.queue) (quiet-frames s.out (close_frame ∷ []) refl))
]

fire-line : (connect : Connect) (s : Socket) → line (fire connect s) ≡ line s
unfolding fire
fire-line connect s = ground (arith, open_socket-line connect s)

on_close-line : (now code : ℕ) (s : Socket) → line (on_close now code s) ≡ line s
unfolding on_close reconnect_start
on_close-line now code s = ground arith

send-line :
    (connect : Connect) (now : ℕ) (m : Message) (s : Socket)
    → line (send connect now m s) ≡ line s ++ numbered m s ∷ []
unfolding send
send-line connect now m s =
    dequeue-line now (open_socket connect (enqueue m s))
    ∙ open_socket-line connect (enqueue m s)
    ∙ sym (append_assoc (frames s.out) s.queue (numbered m s ∷ []))

-- One step adds to the line of messages exactly the message that it accepts, at the end.
step-line :
    (connect : Connect) (now : ℕ) (ev : Event) (s : Socket)
    → line (step connect now ev s) ≡ line s ++ accepted ev s
unfolding step
step-line connect now (sends m) s = send-line connect now m s
step-line connect now opens s = open_socket-line connect s ∙ sym (append-nil (line s))
step-line connect now closes s = close-line s ∙ sym (append-nil (line s))
step-line connect now timer_fires s = fire-line connect s ∙ sym (append-nil (line s))
step-line connect now ws_open s =
    dequeue-line now
      (record s { ws = set_opened s.ws; closed_times = 0; error = []; reconnect_at = 0 })
    ∙ sym (append-nil (line s))
step-line connect now ws_closing s = sym (append-nil (line s))
step-line connect now (ws_close code) s = on_close-line now code s ∙ sym (append-nil (line s))
step-line connect now (ws_error message) s = sym (append-nil (line s))
step-line connect now (ws_message msg stopped) s =
    on_message-line msg stopped s ∙ sym (append-nil (line s))
step-line connect now (deletes id) s = sym (append-nil (line s))

-- All that a history hands to the socket, in order, with the ids given.
unfoldable pub accepted_all : Connect → List (ℕ × Event) → Socket → List Message
accepted_all connect [] s = []
accepted_all connect ((now, ev) ∷ rest) s =
    accepted ev s ++ accepted_all connect rest (step connect now ev s)

-- Over any history of calls, losses, errors and reconnects, the frames sent, followed by the messages
-- still queued, are those from before and then all that was handed to `send`: in order, each once,
-- none lost.
pub run-line :
    (connect : Connect) (history : List (ℕ × Event)) (s : Socket)
    → line (run connect history s) ≡ line s ++ accepted_all connect history s
unfolding run accepted_all
run-line connect [] s = sym (append-nil (line s))
run-line connect ((now, ev) ∷ rest) s =
    run-line connect rest (step connect now ev s)
    ∙ ap (λ l. l ++ accepted_all connect rest (step connect now ev s)) (step-line connect now ev s)
    ∙ append_assoc (line s) (accepted ev s) _
