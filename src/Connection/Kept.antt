-- ===== src/Connection/Kept.antt =====
-- What the handlers keep of a conversation: its id.
use convos.Prelude.{
  ℕ, ◌≡◌, refl, ◌∙◌, subst, Bool, true, false, ◌&&◌, ◌||◌, not, Text, codes, text_eq, [], ◌∷◌,
  Option, none, some, if◌then◌else◌, get_or, Bool-cases, Option-cases, inl, inr, string_eq,
}
use convos.Host.{Host}
use convos.Messages.{ChatMessage}
use convos.Participants.{
  Participant, Participants, named, or_option, is_true, add-some, has_nick, get_nick, rename,
  delete_nick, renamed,
}
use convos.Conversation.{
  Conversation, note, load_information, is_from_others, maybe_increase_unread, maybe_notify, notify,
  is_beyond, add_message, ws_event_part, part_message, ws_event_nick_change,
}
use convos.Conversation.Events.{ModeParams, ws_event_mode, mode_of_nick}
use convos.Connection.Handlers.{join_in, thawed, joined, is_nick, nick_changed}

-- There was no exception, and the conversation has the given id.
abbrev pub HasId : Text → Option Conversation → Type 0
HasId id none = ⊥
HasId id (some conv) = conv.conversation_id ≡ id

pub is_true-some : (o : Option Text) → is_true o ≡ true → (nick : Text) × (o ≡ some nick)
is_true-some none h = cc
is_true-some (some nick) h = (nick, refl)

-- `a || b` is given if `b` is.
pub or_option-some :
    (o : Option Text) (default : Text) → (nick : Text) × (or_option o (some default) ≡ some nick)
or_option-some none default = (default, refl)
or_option-some (some []) default = (default, refl)
or_option-some (some (c ∷ s)) default = (c ∷ s, refl)

increased-id :
    (now : ℕ) (m : ChatMessage) (c : Conversation)
    → (maybe_increase_unread now m c).conversation_id ≡ c.conversation_id
unfolding maybe_increase_unread load_information
increased-id now m c = elim (Bool-cases (is_from_others m)) [
  | inl others ↦ rw (others, maybe_increase_unread)
  | inr own ↦ rw (own, maybe_increase_unread)
]

told-id :
    (has_focus : Bool) (m : ChatMessage) (c : Conversation)
    → (maybe_notify has_focus m c).conversation_id ≡ c.conversation_id
unfolding maybe_notify notify
told-id has_focus m c =
    elim (Bool-cases (is_from_others m && (m.highlight || c.want_notifications))) [
      | inl yes_it ↦ elim (Bool-cases has_focus) [
        | inl seen ↦ rw (yes_it, seen, maybe_notify, notify)
        | inr unseen ↦ rw (yes_it, unseen, maybe_notify, notify)
      ]
      | inr no_it ↦ rw (no_it, maybe_notify)
    ]

module _ (host : Host) (now : ℕ) (has_focus : Bool) where
  pub add_message-id :
      (m : ChatMessage) (c : Conversation)
      → (add_message host now has_focus m c).conversation_id ≡ c.conversation_id
  unfolding add_message
  add_message-id m c =
      let told = maybe_notify has_focus m (maybe_increase_unread now m c) in
      let same = told-id has_focus m (maybe_increase_unread now m c) ∙ increased-id now m c in
      elim (Bool-cases (is_beyond m told)) [
        | inl e ↦ rw (e, add_message) same
        | inr e ↦ rw (e, add_message) same
      ]

  pub ws_event_part-id :
      (nick kicker message : Text) (silent : Bool) (c : Conversation)
      → (ws_event_part host now has_focus nick kicker message silent c).conversation_id
        ≡ c.conversation_id
  unfolding ws_event_part load_information
  ws_event_part-id nick kicker message silent c =
      elim (Option-cases (get_nick host c.participants nick)) [
        | inl absent ↦ rw (absent, ws_event_part)
        | inr (p, there) ↦ elim (Bool-cases p.me) [
          | inl own ↦ rw (there, own, ws_event_part)
          | inr stranger ↦ elim (Bool-cases silent) [
            | inl quiet ↦ rw (there, stranger, quiet, ws_event_part, load_information)
            | inr loud ↦
                rw (there, stranger, loud, ws_event_part)
                  (add_message-id (part_message host now nick kicker message) (
                    load_information now
                      (record c { participants = delete_nick host c.participants nick })))
          ]
        ]
      ]

  pub join_in-HasId :
      (p : Participant) (nick : Text) (c : Conversation)
      → p.nick ≡ some nick
      → HasId c.conversation_id (join_in host p c)
  unfolding join_in
  join_in-HasId p nick c e = rw (add-some host c.participants p nick e, join_in) refl

  rename-some :
      (ps : Participants) (old_nick new_nick : Text)
      → (qs : Participants) × (rename host ps old_nick new_nick ≡ some qs)
  unfolding rename
  rename-some ps old_nick new_nick = (
    _,
    add-some host (delete_nick host ps old_nick)
        (renamed (get_or (get_nick host ps old_nick) (named new_nick)) new_nick) new_nick refl,
  )

  pub ws_event_nick_change-HasId :
      (old_nick new_nick : Text) (is_me : Bool) (c : Conversation)
      → HasId c.conversation_id (ws_event_nick_change host now has_focus old_nick new_nick is_me c)
  unfolding ws_event_nick_change
  ws_event_nick_change-HasId old_nick new_nick is_me c =
      elim (Bool-cases (not (has_nick host c.participants old_nick) || text_eq old_nick new_nick)) [
        | inl e ↦ rw (e, ws_event_nick_change) refl
        | inr e ↦
            let (qs, done) = rename-some c.participants old_nick new_nick in
            rw (e, ws_event_nick_change, done) (search add_message-id)
      ]

  pub nick_changed-HasId :
      (old_nick new_nick : Option Text) (old new : Text) (is_me : Bool) (c : Conversation)
      → old_nick ≡ some old
      → new_nick ≡ some new
      → HasId c.conversation_id (nick_changed host now has_focus old_nick new_nick is_me c)
  unfolding nick_changed
  nick_changed-HasId old_nick new_nick old new is_me c e f =
      rw (e, f, nick_changed) (ws_event_nick_change-HasId old new is_me c)

  pub ws_event_mode-HasId :
      (l : Text → Text) (p : ModeParams) (c : Conversation)
      → HasId c.conversation_id (ws_event_mode host now has_focus l p c)
  unfolding ws_event_mode load_information
  ws_event_mode-HasId l p c = elim (Option-cases p.listed) [
    | inr (x, e) ↦ rw (e, ws_event_mode) (search add_message-id)
    | inl e ↦ elim (Bool-cases (is_true p.nick)) [
      | inl has_one ↦
          let (nick, given) = is_true-some p.nick has_one in
          rw
            (
              e,
              has_one,
              ws_event_mode,
              mode_of_nick,
              add-some host c.participants (record (named []) { nick = p.nick; mode = some p.mode })
                  nick given,
            )
            (search add_message-id)
      | inr no_one ↦ elim (Bool-cases p.mode_changed) [
        | inl x ↦ rw (e, no_one, x, ws_event_mode) (search add_message-id)
        | inr x ↦ rw (e, no_one, x, ws_event_mode) (search add_message-id)
      ]
    ]
  ]

  -- A participant joins a conversation, perhaps after a message.
  noted_in-HasId :
      (b : Bool) (m : ChatMessage) (p : Participant) (nick : Text) (c : Conversation)
      → p.nick ≡ some nick
      → HasId c.conversation_id
          (join_in host p (if b then add_message host now has_focus m c else c))
  noted_in-HasId true m p nick c e =
      subst (λ i. HasId i (join_in host p (add_message host now has_focus m c)))
        (add_message-id m c) (join_in-HasId p nick (add_message host now has_focus m c) e)
  noted_in-HasId false m p nick c e = join_in-HasId p nick c e

  pub thawed-HasId :
      (nick : Text) (was_frozen : Bool) (c : Conversation)
      → HasId c.conversation_id (thawed host now has_focus nick was_frozen c)
  unfolding thawed
  thawed-HasId nick was_frozen c =
      noted_in-HasId was_frozen (note host now (codes "Connected.") [])
        (record (named nick) { me = true }) nick c refl

  pub joined-HasId :
      (own : Text) (nick : Option Text) (given : Text) (silent : Bool) (c : Conversation)
      → nick ≡ some given
      → HasId c.conversation_id (joined host now has_focus own nick silent c)
  unfolding joined
  joined-HasId own nick given silent c e =
      noted_in-HasId (not (is_nick nick own) && not silent)
        (note host now (codes "%1 joined.") (get_or nick [] ∷ []))
        (record (named []) { nick = nick }) given c e
