-- ===== src/Socket/Recovery.antt =====
-- After a lost connection the socket comes back and sends what has been queued.
use convos.Prelude.{
  ℕ, suc, ◌==◌, ◌||◌, ◌≡◌, refl, sym, ap, ◌∙◌, true, false, List, [], ◌∷◌, ◌++◌, append-nil, Option,
  none, some, is_empty, inl, inr, is_some, Option-cases, arith,
}
use convos.Socket.{
  ReadyState, Message, Socket, Connect, is_open, on_close, reconnect_start, reconnect_in,
  reconnect_stop, open_socket, open_with, keep_alive_start, on_open, dequeue, dequeue_from,
  send_frame,
}
use convos.Socket.Events.{
  Event, timer_fires, ws_open, ws_close, set_opened, fire, step, run, frames,
}
use convos.Socket.Fifo.{line, run-line, accepted_all}

-- On an open connection everything goes out, and the connection stays.
dequeue_from-open :
    (now : ℕ) (queue : List Message) (s : Socket)
    → is_open s.ws ≡ true
    → ((dequeue_from now queue s).queue ≡ []) × ((dequeue_from now queue s).ws ≡ s.ws)
unfolding dequeue_from send_frame
dequeue_from-open now [] s h = (refl, refl)
dequeue_from-open now (m ∷ queue) s h =
    rw (h, dequeue_from) (dequeue_from-open now queue (send_frame now m s) h)

-- The timer is set unless the server has refused the connection for good.
reconnects :
    (code times : ℕ)
    → (code == 1008 || code == 1011) ≡ false
    → is_some (reconnect_in code times) ≡ true
unfolding reconnect_in
reconnects code times h = ground arith

after_close :
    (now code : ℕ) (o : Option ℕ) (s : Socket)
    → is_some o ≡ true
    → s.ws ≡ none
    → ((reconnect_start now o s).ws ≡ none)
      × (is_some (reconnect_start now o s).reconnect ≡ true)
      × ((reconnect_start now o s).url ≡ s.url)
unfolding reconnect_start reconnect_stop
after_close now code none s h e = cc
after_close now code (some delay) s h e = (e, refl, refl)

after_fire :
    (connect : Connect) (s : Socket)
    → s.ws ≡ none
    → is_some s.reconnect ≡ true
    → is_empty s.url ≡ false
    → connect s.url ≡ none
    → is_some (fire connect s).ws ≡ true
unfolding fire open_socket open_with keep_alive_start reconnect_stop
after_fire connect s e h u c = elim (Option-cases s.reconnect) [
  | inl no_timer ↦ absurd (timerless s.reconnect no_timer h)
  | inr (delay, timer) ↦ rw (timer, e, u, c, fire, open_socket, open_with) refl
]
  where
    timerless : (o : Option ℕ) → o ≡ none → is_some o ≡ true → ⊥
    timerless none f g = cc
    timerless (some n) f g = cc

is_open-set_opened : (o : Option ReadyState) → is_some o ≡ true → is_open (set_opened o) ≡ true
unfolding set_opened
is_open-set_opened none h = cc
is_open-set_opened (some state) h = refl

on_open-sends :
    (now : ℕ) (s : Socket)
    → is_open s.ws ≡ true
    → ((on_open now s).queue ≡ []) × (is_open (on_open now s).ws ≡ true)
unfolding on_open dequeue
on_open-sends now s h =
    let r =
      dequeue_from-open now s.queue (record s { closed_times = 0; error = []; reconnect_at = 0 })
        h in
    (r.0, ap is_open r.1 ∙ h)

-- From any state: when the connection is lost, for another reason than the codes 1008 and 1011, then a
-- timer is set; when it fires and the browser takes the URL and opens the connection, everything
-- that was queued has gone out, in order, behind what had gone out before, and nothing is queued.
pub run-recovers :
    (connect : Connect) (lost fired opens code : ℕ) (s : Socket)
    → (code == 1008 || code == 1011) ≡ false
    → is_empty s.url ≡ false
    → connect s.url ≡ none
    → let d =
        run connect ((lost, ws_close code) ∷ (fired, timer_fires) ∷ (opens, ws_open) ∷ []) s in
      (frames d.out ≡ frames s.out ++ s.queue) × (d.queue ≡ []) × (is_open d.ws ≡ true)
unfolding run step on_close accepted_all
run-recovers connect lost fired opens code s c u k =
    let history : List (ℕ × Event) =
      (lost, ws_close code) ∷ (fired, timer_fires) ∷ (opens, ws_open) ∷ [] in
    let a = on_close lost code s in
    let closed =
      after_close lost code (reconnect_in code (suc s.closed_times)) _
        (reconnects code (suc s.closed_times) c) refl in
    let b = fire connect a in
    let up =
      after_fire connect a closed.0 closed.1 (ap is_empty closed.2 ∙ u) (ap connect closed.2 ∙ k) in
    let sent =
      on_open-sends opens (record b { ws = set_opened b.ws }) (is_open-set_opened b.ws up) in
    (
      ends (run connect history s) (frames s.out ++ s.queue) sent.0
          (run-line connect history s ∙ append-nil (line s)),
      sent.0,
      sent.1,
    )
  where
    ends : (d : Socket) (all : List Message) → d.queue ≡ [] → line d ≡ all → frames d.out ≡ all
    ends d all e f = sym (append-nil (frames d.out)) ∙ ap (λ q. frames d.out ++ q) (sym e) ∙ f
