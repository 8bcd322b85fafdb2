-- ===== src/Conversation/Unread.antt =====
-- What a message does to the counter, the notifications and the list.
use convos.Prelude.{
  ℕ, suc, ◌≡◌, refl, ap, ap₂, text_eq, codes, ◌∙◌, sym, Bool, true, false, not, ◌&&◌, ◌||◌, List,
  [], ◌∷◌, ◌++◌, none, some, arith, if◌then◌else◌, append-nil, Bool-cases, inl, inr,
}
use convos.Host.{Host}
use convos.Messages.{ChatMessage, fill_one}
use convos.Conversation.{
  Effect, notifies, sends, emits_unread, Conversation, asks, is_informed, load_information,
  is_from_others, maybe_increase_unread, maybe_notify, notify, is_beyond, add_message,
}

-- The messages of which the user is notified, in order.
unfoldable pub notified : List Effect → List ChatMessage
notified [] = []
notified (notifies m ∷ out) = m ∷ notified out
notified (sends text ∷ out) = notified out
notified (emits_unread ∷ out) = notified out

notified-append : (a b : List Effect) → notified (a ++ b) ≡ notified a ++ notified b
unfolding notified
notified-append [] b = refl
notified-append (notifies m ∷ a) b = ap (λ l. m ∷ l) (notified-append a b)
notified-append (sends text ∷ a) b = notified-append a b
notified-append (emits_unread ∷ a) b = notified-append a b

-- Asking for the participants notifies nobody.
notified-asks : (now : ℕ) (c : Conversation) → notified (asks now c) ≡ []
unfolding notified asks
notified-asks now c = ground arith

notified-load_information :
    (now : ℕ) (c : Conversation) → notified (load_information now c).out ≡ notified c.out
unfolding load_information notified
notified-load_information now c =
    let quiet : notified (if is_informed c then [] else asks now c) ≡ [] =
      elim (Bool-cases (is_informed c)) [
        | inl e ↦ rw (e, notified)
        | inr e ↦ rw e (notified-asks now c)
      ] in
    notified-append c.out (if is_informed c then [] else asks now c)
    ∙ ap (λ l. notified c.out ++ l) quiet
    ∙ append-nil (notified c.out)

-- The counter before the list is touched.
increased :
    (now : ℕ) (m : ChatMessage) (c : Conversation)
    → ((maybe_increase_unread now m c).messages ≡ c.messages)
      × ((maybe_increase_unread now m c).unread
          ≡ (if is_from_others m then suc c.unread else c.unread))
      × ((maybe_increase_unread now m c).want_notifications ≡ c.want_notifications)
      × ((maybe_increase_unread now m c).history_stop_at ≡ c.history_stop_at)
      × (notified (maybe_increase_unread now m c).out ≡ notified c.out)
unfolding maybe_increase_unread notified
increased now m c = elim (Bool-cases (is_from_others m)) [
  | inl others ↦
      rw (others, maybe_increase_unread)
        (
          refl,
          refl,
          refl,
          refl,
          notified-append (load_information now c).out (emits_unread ∷ [])
              ∙ append-nil (notified (load_information now c).out)
              ∙ notified-load_information now c,
        )
  | inr own ↦ rw (own, maybe_increase_unread) (refl, refl, refl, refl, refl)
]

abbrev is_told : Bool → ChatMessage → Bool → Bool
is_told has_focus m wants = is_from_others m && ((m.highlight || wants) && not has_focus)

told_wanted :
    (has_focus : Bool) (m : ChatMessage) (c : Conversation)
    → is_from_others m ≡ true
    → (m.highlight || c.want_notifications) ≡ true
    → ((maybe_notify has_focus m c).messages ≡ c.messages)
      × ((maybe_notify has_focus m c).unread ≡ c.unread)
      × ((maybe_notify has_focus m c).history_stop_at ≡ c.history_stop_at)
      × (notified (maybe_notify has_focus m c).out
          ≡ notified c.out ++ (if is_told has_focus m c.want_notifications then m ∷ [] else []))
unfolding maybe_notify notify notified
told_wanted true m c a b =
    rw (a, b, maybe_notify) (refl, refl, refl, sym (append-nil (notified c.out)))
told_wanted false m c a b =
    rw (a, b, maybe_notify) (refl, refl, refl, notified-append c.out (notifies m ∷ []))

told_lem :
    (has_focus : Bool) (m : ChatMessage) (c : Conversation)
    → ((maybe_notify has_focus m c).messages ≡ c.messages)
      × ((maybe_notify has_focus m c).unread ≡ c.unread)
      × ((maybe_notify has_focus m c).history_stop_at ≡ c.history_stop_at)
      × (notified (maybe_notify has_focus m c).out
          ≡ notified c.out ++ (if is_told has_focus m c.want_notifications then m ∷ [] else []))
unfolding maybe_notify notify notified
told_lem has_focus m c = elim (Bool-cases (is_from_others m)) [
  | inl a ↦ elim (Bool-cases (m.highlight || c.want_notifications)) [
    | inl b ↦ told_wanted has_focus m c a b
    | inr b ↦ rw (a, b, maybe_notify) (refl, refl, refl, sym (append-nil (notified c.out)))
  ]
  | inr a ↦ rw (a, maybe_notify) (refl, refl, refl, sym (append-nil (notified c.out)))
]

added :
    (host : Host) (now : ℕ) (has_focus : Bool) (m : ChatMessage) (c : Conversation)
    → let told = maybe_notify has_focus m (maybe_increase_unread now m c) in
      let d = add_message host now has_focus m c in
      (d.unread ≡ told.unread)
      × (d.out ≡ told.out)
      × (d.messages.messages ≡ (
          if is_beyond m told
          then told.messages.messages
          else told.messages.messages
            ++ fill_one host now told.messages.last_id (record m { fresh = true }) ∷ []))
unfolding add_message
added host now has_focus m c =
    elim (Bool-cases (is_beyond m (maybe_notify has_focus m (maybe_increase_unread now m c)))) [
      | inl e ↦ rw (e, add_message) (refl, refl, refl)
      | inr e ↦ rw (e, add_message) (refl, refl, refl)
    ]

is_beyond-stop :
    (m : ChatMessage) (c d : Conversation)
    → c.history_stop_at ≡ d.history_stop_at
    → is_beyond m c ≡ is_beyond m d
unfolding is_beyond
is_beyond-stop m c d e =
    ap
      (λ o.
        (elim o [ none ↦ true | some t ↦ false ])
        && (text_eq m.type (codes "action") || text_eq m.type (codes "private")))
      e

-- A single message: it is counted as unread if its type is "action", "error" or "private" and it has
-- a sender who is not the user; the user is notified of it if moreover it is a highlight or
-- notifications are wanted, and the application has no focus; it goes to the end of the list, unless its type is "action" or "private" and the newest messages are
-- not loaded.
pub add_message_lem :
    (host : Host) (now : ℕ) (has_focus : Bool) (m : ChatMessage) (c : Conversation)
    → let d = add_message host now has_focus m c in
      (d.unread ≡ (if is_from_others m then suc c.unread else c.unread))
      × (notified d.out
          ≡ notified c.out
            ++ (if is_from_others m && ((m.highlight || c.want_notifications) && not has_focus)
                then m ∷ []
                else []))
      × (d.messages.messages ≡ (
          if is_beyond m c
          then c.messages.messages
          else c.messages.messages
            ++ fill_one host now c.messages.last_id (record m { fresh = true }) ∷ []))
add_message_lem host now has_focus m c =
    let u = maybe_increase_unread now m c in
    let t = maybe_notify has_focus m u in
    let (u_messages, u_unread, u_wants, u_stops, u_told) = increased now m c in
    let (t_messages, t_unread, t_stops, t_told) = told_lem has_focus m u in
    let (a_unread, a_out, a_list) = added host now has_focus m c in
    (
      a_unread ∙ t_unread ∙ u_unread,
      ap notified a_out
          ∙ t_told
          ∙ ap₂ (λ l b. l ++ (if is_told has_focus m b then m ∷ [] else [])) u_told u_wants,
      a_list
          ∙ ap₂
              (λ ms b.
                if b
                then ms.messages
                else ms.messages ++ fill_one host now ms.last_id (record m { fresh = true }) ∷ [])
              (t_messages ∙ u_messages) (is_beyond-stop m t c (t_stops ∙ u_stops)),
    )
