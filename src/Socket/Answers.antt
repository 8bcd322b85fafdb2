-- ===== src/Socket/Answers.antt =====
-- What waits for an answer.
use convos.Prelude.{
  ℕ, ◌≡◌, refl, ap, Bool, true, false, Text, text_eq, [], ◌∷◌, ◌++◌, none, arith, map, is_empty,
  if◌then◌else◌, leb, string_eq,
}
use convos.Prelude.Dict
use convos.Prelude.Dict.{Dict, get, set, delete, get-delete}
use convos.Socket.{
  Message, Answer, Socket, emit_message, emit_id, on_message, told, told_all, close_waiting,
  on_close, reconnect_start, key_count,
}

-- An answer with an id ends the wait for that id alone. An error without an id ends every wait, and
-- every waiting id is told of it, in order, after the listeners of all messages. Any other message
-- ends no wait.
pub on_message_lem :
    (msg : Answer) (stopped : Bool) (other : Text) (s : Socket)
    → (is_empty msg.id ≡ false
        → get other (on_message msg stopped s).waiting
          ≡ (if text_eq msg.id other then none else get other s.waiting))
      × (is_empty msg.id ≡ true
          → msg.errors ≡ true
          → ((on_message msg stopped s).waiting ≡ [])
            × ((on_message msg stopped s).out
                ≡ s.out ++ emit_message msg ∷ map (λ id. emit_id id msg) (Dict.keys s.waiting)))
      × (is_empty msg.id ≡ true
          → msg.errors ≡ false
          → (on_message msg stopped s).waiting ≡ s.waiting)
unfolding on_message told told_all
on_message_lem msg stopped other s = (
  λ id. ground (arith, get-delete other msg.id s.waiting),
  λ no_id failed. (ground arith, rw (no_id, failed)),
  λ no_id fine. ground arith,
)

many_keys : (m : Message) → leb (key_count m) 1 ≡ false
many_keys m = ground arith

close_waiting_lem :
    (m : Dict Text Message)
    → close_waiting m ≡ map (λ e. (e.0, record e.1 { waiting_for_response = false })) m
unfolding close_waiting
close_waiting_lem [] = refl
close_waiting_lem ((id, m) ∷ rest) =
    rw (many_keys m)
      (ap (λ l. (id, record m { waiting_for_response = false }) ∷ l) (close_waiting_lem rest))

-- The loss of the connection drops no waiting message: it marks each as not waiting for a response
-- any more, and keeps the queue.
pub on_close_waiting :
    (now code : ℕ) (s : Socket)
    → ((on_close now code s).waiting
        ≡ map (λ e. (e.0, record e.1 { waiting_for_response = false })) s.waiting)
      × ((on_close now code s).queue ≡ s.queue)
unfolding on_close reconnect_start
on_close_waiting now code s = ground (arith, close_waiting_lem s.waiting)
