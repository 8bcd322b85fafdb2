-- ===== src/Conversation/Parting.antt =====
-- Somebody leaves a conversation.
use convos.Prelude.{
  ℕ, ◌≡◌, refl, ap, ◌∙◌, Bool, true, false, ◌&&◌, ◌||◌, Text, text_eq, none, some, if◌then◌else◌,
  Bool-cases, inl, inr, string_eq,
}
use convos.Prelude.Dict.{get-delete}
use convos.Host.{Host}
use convos.Messages.{ChatMessage}
use convos.Participants.{Participant, get_nick, delete_nick, id_of}
use convos.Conversation.{
  Conversation, load_information, is_from_others, maybe_increase_unread, maybe_notify, notify,
  is_beyond, add_message, ws_event_part, part_message,
}

increased_participants :
    (now : ℕ) (m : ChatMessage) (c : Conversation)
    → (maybe_increase_unread now m c).participants ≡ c.participants
unfolding maybe_increase_unread
increased_participants now m c = elim (Bool-cases (is_from_others m)) [
  | inl others ↦ rw (others, maybe_increase_unread)
  | inr own ↦ rw (own, maybe_increase_unread)
]

told_participants :
    (has_focus : Bool) (m : ChatMessage) (c : Conversation)
    → (maybe_notify has_focus m c).participants ≡ c.participants
unfolding maybe_notify notify
told_participants has_focus m c =
    elim (Bool-cases (is_from_others m && (m.highlight || c.want_notifications))) [
      | inl yes_it ↦ elim (Bool-cases has_focus) [
        | inl seen ↦ rw (yes_it, seen, maybe_notify, notify)
        | inr unseen ↦ rw (yes_it, unseen, maybe_notify, notify)
      ]
      | inr no_it ↦ rw (no_it, maybe_notify)
    ]

-- A message leaves the participants alone.
add_message-participants :
    (host : Host) (now : ℕ) (has_focus : Bool) (m : ChatMessage) (c : Conversation)
    → (add_message host now has_focus m c).participants ≡ c.participants
unfolding add_message
add_message-participants host now has_focus m c =
    let told = maybe_notify has_focus m (maybe_increase_unread now m c) in
    let same =
      told_participants has_focus m (maybe_increase_unread now m c)
      ∙ increased_participants now m c in
    elim (Bool-cases (is_beyond m told)) [
      | inl e ↦ rw (e, add_message) same
      | inr e ↦ rw (e, add_message) same
    ]

module _ (host : Host) (now : ℕ) (has_focus : Bool) where
  left :
      (nick kicker message : Text) (silent : Bool) (c : Conversation) (p : Participant)
      → get_nick host c.participants nick ≡ some p
      → p.me ≡ false
      → (ws_event_part host now has_focus nick kicker message silent c).participants
        ≡ delete_nick host c.participants nick
  unfolding ws_event_part
  left nick kicker message silent c p there other = elim (Bool-cases silent) [
    | inl quiet ↦ rw (there, other, quiet, ws_event_part) refl
    | inr loud ↦
        rw (there, other, loud, ws_event_part)
          (add_message-participants host now has_focus (part_message host now nick kicker message) (
            load_information now
              (record c { participants = delete_nick host c.participants nick })))
  ]

  stayed :
      (nick kicker message : Text) (silent : Bool) (c : Conversation) (p : Participant)
      → get_nick host c.participants nick ≡ some p
      → p.me ≡ true
      → ws_event_part host now has_focus nick kicker message silent c ≡ c
  unfolding ws_event_part
  stayed nick kicker message silent c p there own = rw (there, own, ws_event_part) refl

  unknown :
      (nick kicker message : Text) (silent : Bool) (c : Conversation)
      → get_nick host c.participants nick ≡ none
      → ws_event_part host now has_focus nick kicker message silent c ≡ c
  unfolding ws_event_part
  unknown nick kicker message silent c absent = rw (absent, ws_event_part) refl

  -- A "part" of a nick: a participant who is not the user is removed, and every other one is as
  -- before, whether a message is shown or not; for the user, and for a nick that is not there, the
  -- conversation is left as it is.
  pub ws_event_part_lem :
      (nick kicker message other : Text) (silent : Bool) (c : Conversation)
      → let d = ws_event_part host now has_focus nick kicker message silent c in
        ((p : Participant)
          → get_nick host c.participants nick ≡ some p
          → p.me ≡ false
          → get_nick host d.participants other ≡ (
              if text_eq (id_of host nick) (id_of host other)
              then none
              else get_nick host c.participants other))
        × ((p : Participant) → get_nick host c.participants nick ≡ some p → p.me ≡ true → d ≡ c)
        × (get_nick host c.participants nick ≡ none → d ≡ c)
  unfolding delete_nick
  ws_event_part_lem nick kicker message other silent c = (
    λ p there o.
        ap (λ ps. get_nick host ps other) (left nick kicker message silent c p there o)
        ∙ get-delete (id_of host other) (id_of host nick) c.participants,
    λ p there own. stayed nick kicker message silent c p there own,
    unknown nick kicker message silent c,
  )
