-- ===== src/Conversation/Loading.antt =====
-- Loading older messages until the server has no more.
use convos.Prelude.{
  ℕ, ◌≡◌, refl, ap, ◌∙◌, Bool, true, false, not, ◌&&◌, ◌||◌, ◌++◌, Option, none, some, arith,
  if◌then◌else◌, Bool-cases, inl, inr, length, leb, ◌≤◌, get_elem?, length-append, append-nil,
}
use convos.Host.{Host}
use convos.Messages.{ChatMessage, fill}
use convos.Conversation.{Status, Conversation, is_loading}
use convos.Conversation.History.{
  LoadParams, LoadBody, is_given, skip_load, skip_more, load, start_at, stamp, loaded,
}

abbrev pub older : ℕ → LoadParams
older t = record { around = none; before = some t; after = none }

-- Older messages go in front of those that are there, in their order.
loaded-older :
    (host : Host) (now t : ℕ) (op_status : Status) (body : LoadBody) (c : Conversation)
    → let d = loaded host now (older t) op_status body c in
      (d.messages.messages ≡ fill host now c.messages.last_id body.messages ++ c.messages.messages)
      × (d.status ≡ op_status)
      × (d.history_start_at ≡ (
          if leb (length body.messages) 1
          then some now
          else start_at host now (older t) body c.history_start_at))
unfolding loaded
loaded-older host now t op_status body c =
    (append-nil (fill host now c.messages.last_id body.messages ++ c.messages.messages), refl, refl)

stamp-given : (host : Host) (now : ℕ) (m : Option ChatMessage) → is_given (stamp host now m) ≡ true
stamp-given host now none = refl
stamp-given host now (some m) = refl

start_at-given :
    (host : Host) (now t : ℕ) (body : LoadBody) (old : Option ℕ)
    → is_given
        (if leb (length body.messages) 1 then some now else start_at host now (older t) body old)
      ≡ not (body.before && not (leb (length body.messages) 1))
unfolding start_at
start_at-given host now t body old = elim (Bool-cases body.before) [
  | inl more ↦ elim (Bool-cases (leb (length body.messages) 1)) [
    | inl few ↦ rw (few, more)
    | inr many ↦ rw (many, more)
  ]
  | inr end ↦ elim (Bool-cases (leb (length body.messages) 1)) [
    | inl few ↦ rw (few, end)
    | inr many ↦ rw (many, end) (stamp-given host now (get_elem? body.messages 0))
  ]
]

or_false : (b : Bool) → (b || false) ≡ b
or_false true = refl
or_false false = refl

load-asks :
    (host : Host) (now : ℕ) (params : LoadParams) (d : Conversation)
    → (load host now params d).1 ≡ not (skip_load params d)
unfolding load
load-asks host now params d = elim (Bool-cases (skip_load params d)) [
  | inl skips ↦ rw (skips, load)
  | inr asks ↦ rw (asks, load)
]

not-not : (b : Bool) → not (not b) ≡ b
not-not true = refl
not-not false = refl

nonempty : (n : ℕ) → 1 ≤ n → leb n 0 ≡ false
nonempty n h = ground arith

skip_older :
    (u : ℕ) (d : Conversation)
    → is_loading d.status ≡ false
    → leb (length d.messages.messages) 0 ≡ false
    → skip_load (older u) d ≡ is_given d.history_start_at
unfolding skip_load skip_more
skip_older u d ready there = rw (ready, there, skip_load) (or_false (is_given d.history_start_at))

-- Loading older messages, in a conversation that has some and whose operation is not "loading": those
-- of the body go in front of those that are there, and the next such call asks the server exactly if
-- the body says that there are more and has more than one message.
pub load-older :
    (host : Host) (now later t u : ℕ) (op_status : Status) (body : LoadBody) (c : Conversation)
    → is_loading op_status ≡ false
    → 1 ≤ length c.messages.messages
    → let d = loaded host now (older t) op_status body c in
      (d.messages.messages ≡ fill host now c.messages.last_id body.messages ++ c.messages.messages)
      × ((load host later (older u) d).1 ≡ (body.before && not (leb (length body.messages) 1)))
load-older host now later t u op_status body c ready there =
    let (list, status, start) = loaded-older host now t op_status body c in
    let d = loaded host now (older t) op_status body c in
    let n : 1 ≤ length d.messages.messages = omega (
      arith,
      ap length list,
      length-append (fill host now c.messages.last_id body.messages) c.messages.messages,
      there,
    ) in
    (
      list,
      load-asks host later (older u) d
          ∙ ap not (
              skip_older u d (ap is_loading status ∙ ready)
                (nonempty (length d.messages.messages) n)
              ∙ ap is_given start
              ∙ start_at-given host now t body c.history_start_at)
          ∙ not-not (body.before && not (leb (length body.messages) 1)),
    )
