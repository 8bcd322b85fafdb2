-- ===== src/Conversation/History.antt =====
-- assets/store/Conversation.js: `load`, before and after its `await`, and the ends of the history.
use convos.Prelude.{
  ℕ, ◌==◌, Bool, true, false, not, ◌&&◌, ◌||◌, List, [], ◌∷◌, Option, none, some, get_or, get_elem?,
  get_last?, length, leb, if◌then◌else◌, filter, string_eq,
}
use convos.Host.{Host}
use convos.Messages
use convos.Messages.{ChatMessage}
use convos.Conversation.{
  Conversation, Status, loading, is_loading, is_success, load_information, add_list,
}

-- What `load` is asked for, with the times of its messages in milliseconds, and what the server
-- answers: whether there are messages before and after the ones it gives.
pub record LoadParams : Type 0 where
  pub around : Option ℕ
  pub before : Option ℕ
  pub after : Option ℕ

pub record LoadBody : Type 0 where
  pub messages : List ChatMessage
  pub before : Bool
  pub after : Bool

abbrev pub is_given : Option ℕ → Bool
is_given none = false
is_given (some t) = true

-- Whether one of the messages has the given time.
unfoldable pub has_time : ℕ → List ChatMessage → Bool
has_time t [] = false
has_time t (m ∷ list) = (elim m.ts [ none ↦ false | some s ↦ s == t ]) || has_time t list

-- `_skipLoad(opParams)` past its first two lines.
unfoldable pub skip_more : LoadParams → Conversation → Bool
unfolding has_time
skip_more params c = elim params.around [
  | some t ↦ has_time t c.messages.messages
  | none ↦
      is_given params.before && is_given c.history_start_at
      || is_given params.after && is_given c.history_stop_at
]

-- `_skipLoad(opParams)`
unfoldable pub skip_load : LoadParams → Conversation → Bool
unfolding skip_more
skip_load params c =
    if is_loading c.status
    then true
    else if leb (length c.messages.messages) 0
    then is_success c.status
    else skip_more params c

module _ (host : Host) (now : ℕ) where
  -- `load(params)` up to its `await`: whether the server is asked.
  unfoldable pub load : LoadParams → Conversation → Conversation × Bool
  unfolding skip_load load_information
  load params c =
      if skip_load params c
      then (c, false)
      else (record (load_information now c) { status = loading; op_status = loading }, true)

  -- `_setEndOfStream(params, body)`, one function per condition.
  abbrev pub stamp : Option ChatMessage → Option ℕ
  stamp none = some now
  stamp (some m) = some (get_or m.ts now)

  unfoldable pub stop_at : LoadParams → LoadBody → Option ℕ → Option ℕ
  stop_at params body old =
      if body.after
      then none
      else if is_given params.before
      then old
      else stamp (get_last? body.messages)

  unfoldable pub start_at : LoadParams → LoadBody → Option ℕ → Option ℕ
  start_at params body old =
      if body.before
      then none
      else if is_given params.after
      then old
      else stamp (get_elem? body.messages 0)

  unfoldable pub set_end_of_stream : LoadParams → LoadBody → Conversation → Conversation
  unfolding start_at stop_at load_information
  set_end_of_stream params body c =
      let few = leb (length body.messages) 1 in
      record (load_information now c) {
        history_start_at = if few then some now else start_at params body c.history_start_at;
        history_stop_at = if few then some now else stop_at params body c.history_stop_at;
      }

  -- Whether the messages that are there make way for the new ones.
  abbrev pub starts_over : LoadParams → Bool
  starts_over params =
      is_given params.around || (not (is_given params.after) && not (is_given params.before))

  -- `load(params)` after its `await`, with the status of the operation and the body of its answer.
  unfoldable pub loaded : LoadParams → Status → LoadBody → Conversation → Conversation
  unfolding load_information add_list set_end_of_stream Messages.clear
  loaded params op_status body c =
      let d = record (load_information now (record c { op_status = op_status })) {
        status = op_status;
      } in
      let internal = filter (λ m. m.internal) d.messages.messages in
      let cleared =
        if starts_over params then record d { messages = Messages.clear d.messages } else d in
      let added = add_list host now (is_given params.before) body.messages cleared in
      set_end_of_stream params body
        (add_list host now false (if starts_over params then internal else []) added)
