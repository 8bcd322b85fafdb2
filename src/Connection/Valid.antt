-- ===== src/Connection/Valid.antt =====
-- Every event of the server keeps the map of conversations keyed by the ids, and none throws.
use convos.Prelude.{
  ℕ, ◌≡◌, refl, ◌∙◌, sym, subst, All, Bool, true, false, ◌&&◌, not, Text, text_eq, List, [], ◌∷◌,
  Option, none, some, is_empty, get_or, Bool-cases, Option-cases, inl, inr, string_eq,
}
use convos.Prelude.Dict.{Dict, delete-Distinct}
use convos.Host.{Host}
use convos.Messages.{ChatMessage}
use convos.Participants
use convos.Participants.{Participant, named, or_option}
use convos.Conversation.{Conversation, add_message, ws_event_part}
use convos.Conversation.Events.{ModeParams, ws_event_mode}
use convos.Connection.{
  Params, with_id, State, Connection, Page, ensure_conversation, remove_conversation,
  find_conversation,
}
use convos.Connection.Handlers.{
  Failure, is_pending, join_name, join_in, each, tell, ensured, ws_event_sent_away,
  ws_event_connection, thawed, after_frozen, ws_event_frozen, informed, ws_event_message,
  ws_event_nick_change_all, ws_event_info, error_message, ws_event_error, joined, ws_event_join,
  ws_event_part_from, ws_event_part_any, nick_changed, ws_event_sent_list, ws_event_sent_mode,
  ws_event_sent_whois,
}
use convos.Connection.Kept.{
  HasId, add_message-id, ws_event_part-id, nick_changed-HasId, or_option-some, ws_event_mode-HasId,
  thawed-HasId, joined-HasId,
}
use convos.Connection.Ensure.{IsValid, All-delete, own_id, ensure_conversation_lem}
use convos.Connection.Steps.{
  HasValid, Keeps, IsEach, bind-HasValid, put-IsValid, put-HasValid, change-HasValid, each-IsEach,
  each-HasValid,
}
use convos.Connection.Events.{
  Event, sent_away, connection, frozen, info, message, nick_change, error, join, part, sent_list,
  sent_mode, sent_query, sent_whois, handle, handle_all,
}

abbrev is_there : Option Text → Bool
is_there none = false
is_there (some nick) = true

is_there-some : (o : Option Text) → is_there o ≡ true → (nick : Text) × (o ≡ some nick)
is_there-some none h = cc
is_there-some (some nick) h = (nick, refl)

module _ (host : Host) (now : ℕ) (has_focus : Bool) (page : Page) (l : Text → Text) where
  tell-IsValid :
      (id : Text) (m : ChatMessage) (c : Connection)
      → IsValid c
      → IsValid (tell host now has_focus page l id m c)
  unfolding tell
  tell-IsValid id m c v = elim (Option-cases (find_conversation id c)) [
    | inl e ↦ rw (e, tell) (record { distinct = v.distinct; own = v.own })
    | inr (conv, e) ↦
        rw (e, tell)
          (put-IsValid id (add_message host now has_focus m conv) c
            (add_message-id host now has_focus m conv ∙ own_id id c.conversations conv v.own e) v)
  ]

  ensure-HasValid :
      (p : Params) (c : Connection) → IsValid c → HasValid (ensure_conversation host now page l p c)
  ensure-HasValid p c v =
      let (d, conv, e, k) = ensure_conversation_lem host now page l p p.conversation_id c v in
      subst HasValid (sym e) k.0

  ensured-HasValid :
      (p : Params) (f : Conversation → Option Conversation) (c : Connection)
      → Keeps f
      → IsValid c
      → HasValid (ensured host now has_focus page l p f c)
  ensured-HasValid p f c k v =
      let (d, conv, e, r) = ensure_conversation_lem host now page l p p.conversation_id c v in
      rw (e, HasValid, ensured) (change-HasValid p.conversation_id f conv d k r.1 r.0)

  base-IsValid : (b : Conversation) (c : Connection) → IsValid c → IsValid (record c { base = b })
  base-IsValid b c v = record { distinct = v.distinct; own = v.own }

  after_frozen-HasValid :
      (p : Params) (reason : Text) (was_frozen : Bool) (conv : Conversation) (d : Connection)
      → find_conversation p.conversation_id d ≡ some conv
      → IsValid d
      → HasValid (after_frozen host now has_focus page l p reason was_frozen d)
  unfolding after_frozen
  after_frozen-HasValid p [] was_frozen conv d e v =
      change-HasValid p.conversation_id (thawed host now has_focus d.nick was_frozen) conv d
        (thawed-HasId host now has_focus d.nick was_frozen) e v
  after_frozen-HasValid p (x ∷ reason) was_frozen conv d e v =
      elim (Bool-cases (is_pending host.to_lower_case conv.frozen)) [
        | inl h ↦ rw (e, h, HasValid, after_frozen) (record { distinct = v.distinct; own = v.own })
        | inr h ↦ rw (e, h, HasValid, after_frozen) v
      ]

  frozen-HasValid :
      (p : Params) (c : Connection)
      → IsValid c
      → HasValid (ws_event_frozen host now has_focus page l p c)
  unfolding ws_event_frozen
  frozen-HasValid p c v =
      let (d, conv, e, r) = ensure_conversation_lem host now page l p p.conversation_id c v in
      rw (e, HasValid, ws_event_frozen) (after_frozen-HasValid p _ _ conv d r.1 r.0)

  nick_change-HasValid :
      (old new nick : Option Text) (given : Text) (is_me : Bool) (c : Connection)
      → or_option new nick ≡ some given
      → IsValid c
      → HasValid (ws_event_nick_change_all host now has_focus page l old new nick is_me c)
  unfolding ws_event_nick_change_all
  nick_change-HasValid old new nick given is_me c e v =
      let (old_nick, f) = or_option-some old c.nick in
      let changed =
        nick_changed host now has_focus (or_option old (some c.nick)) (or_option new nick) is_me in
      let kept : Keeps changed = λ conv.
        nick_changed-HasId host now has_focus (or_option old (some c.nick)) (or_option new nick)
          old_nick given is_me conv f e in
      from (changed c.base) (kept c.base) (each changed c.conversations)
        (each-IsEach changed c.conversations kept v.distinct v.own)
    where
      from :
          (b : Option Conversation)
          → HasId c.base.conversation_id b
          → (o : Option (Dict Text Conversation)) → IsEach c.conversations o
          → HasValid (elim b [
            | none ↦ none
            | some base ↦ elim o [
              | none ↦ none
              | some m ↦ some (record c { base = base; conversations = m })
            ]
          ])
      from none h o i = h
      from (some base) h none i = i
      from (some base) h (some m) (distinct, own, out) = record { distinct = distinct; own = own }

  part-HasValid :
      (id nick kicker reason : Text) (silent : Bool) (c : Connection)
      → IsValid c
      → HasValid (ws_event_part_from host now has_focus page l id nick kicker reason silent c)
  unfolding ws_event_part_from remove_conversation
  part-HasValid id nick kicker reason silent c v = elim (Bool-cases (text_eq nick c.nick)) [
    | inl own ↦
        rw (own, HasValid, ws_event_part_from)
          (record {
            distinct = delete-Distinct id c.conversations v.distinct;
            own = All-delete id c.conversations v.own;
          })
    | inr other ↦ elim (Bool-cases (not (is_empty id))) [
      | inl e ↦ rw (other, e, HasValid, ws_event_part_from) v
      | inr e ↦
          rw (other, e, HasValid, ws_event_part_from)
            (each-HasValid
              (λ conv. some (ws_event_part host now has_focus nick kicker reason silent conv)) c
              (λ conv. ws_event_part-id host now has_focus nick kicker reason silent conv) v)
    ]
  ]

  part_any-HasValid :
      (id : Text) (nick : Option Text) (kicker reason : Text) (silent : Bool) (c : Connection)
      → is_there nick ≡ true
      → IsValid c
      → HasValid (ws_event_part_any host now has_focus page l id nick kicker reason silent c)
  unfolding ws_event_part_any
  part_any-HasValid id none kicker reason silent c h v = cc
  part_any-HasValid id (some nick) kicker reason silent c h v =
      part-HasValid id nick kicker reason silent c v

  message-HasValid :
      (p : Params) (m : ChatMessage) (c : Connection)
      → IsValid c
      → HasValid (ws_event_message host now has_focus page l p m c)
  unfolding ws_event_message
  message-HasValid p m c v =
      let msg = record m { yourself = text_eq m.from c.nick } in
      elim (Bool-cases (is_empty p.conversation_id)) [
        | inl e ↦ rw (e, HasValid, ws_event_message) (base-IsValid _ c v)
        | inr e ↦
            rw (e, HasValid, ws_event_message)
              (ensured-HasValid p (λ conv. some (add_message host now has_focus msg conv)) c
                (λ conv. add_message-id host now has_focus msg conv) v)
      ]

  error-HasValid :
      (e : Failure) (c : Connection)
      → IsValid c
      → HasValid (ws_event_error host now has_focus page l e c)
  unfolding ws_event_error
  error-HasValid e c v = elim (Option-cases (join_name e.message)) [
    | inr (name, h) ↦
        rw (h, HasValid, ws_event_error)
          (ensure-HasValid (record e.params { conversation_id = name }) c v)
    | inl h ↦
        elim (Bool-cases
          (not (is_empty e.params.conversation_id) && not (is_empty (get_or e.params.frozen [])))) [
            | inl k ↦
                rw (h, k, HasValid, ws_event_error)
                  (ensured-HasValid e.params
                    (λ conv. some (
                      add_message host now has_focus (error_message host now has_focus page l e)
                        conv))
                    c
                    (λ conv.
                      add_message-id host now has_focus (error_message host now has_focus page l e)
                        conv)
                    v)
            | inr k ↦
                rw (h, k, HasValid, ws_event_error)
                  (tell-IsValid e.params.conversation_id (error_message host now has_focus page l e)
                    c v)
          ]
  ]

  mode-HasValid :
      (id target : Text) (p : ModeParams) (c : Connection)
      → IsValid c
      → HasValid (ws_event_sent_mode host now has_focus page l id target p c)
  unfolding ws_event_sent_mode
  mode-HasValid id target p c v = elim (Option-cases (find_conversation id c)) [
    | inl e ↦ rw (e, HasValid, ws_event_sent_mode) (base-IsValid _ c v)
    | inr (conv, e) ↦
        rw (e, HasValid, ws_event_sent_mode)
          (put-HasValid id (ws_event_mode host now has_focus l p conv) c
            (subst (λ i. HasId i (ws_event_mode host now has_focus l p conv))
              (own_id id c.conversations conv v.own e)
              (ws_event_mode-HasId host now has_focus l p conv))
            v)
  ]

  informed-HasValid :
      (nick : Option Text) (op : Option Bool) (real_host : Option Text) (state : Option State)
      (d : Connection)
      → IsValid d
      → HasValid (informed host now has_focus page l nick op real_host state d)
  unfolding informed join_in Participants.add
  informed-HasValid nick op none state d v = record { distinct = v.distinct; own = v.own }
  informed-HasValid nick op (some []) state d v = record { distinct = v.distinct; own = v.own }
  informed-HasValid nick op (some (x ∷ real_host)) state d v = record {
    distinct = v.distinct;
    own = v.own;
  }

  info-HasValid :
      (nick : Option Text) (op : Option Bool) (real_host : Option Text) (state : Option State)
      (c : Connection)
      → IsValid c
      → HasValid (ws_event_info host now has_focus page l nick op real_host state c)
  unfolding ws_event_info
  info-HasValid none op real_host state c v = informed-HasValid none op real_host state c v
  info-HasValid (some []) op real_host state c v =
      informed-HasValid (some []) op real_host state c v
  info-HasValid (some (x ∷ nick)) op real_host state c v =
      bind-HasValid
        (ws_event_nick_change_all host now has_focus page l none none (some (x ∷ nick)) false c)
        (informed host now has_focus page l (some (x ∷ nick)) op real_host state)
        (nick_change-HasValid none none (some (x ∷ nick)) (x ∷ nick) false c refl v)
        (informed-HasValid (some (x ∷ nick)) op real_host state)

  -- An event that names somebody where its handler needs it: a change of nick says the new one, as
  -- `new_nick` or as `nick`, and a "part" says who leaves.
  abbrev pub IsNamed : Event → Type 0
  IsNamed (nick_change old new nick is_me) = is_there (or_option new nick) ≡ true
  IsNamed (part id nick kicker reason silent) = is_there nick ≡ true
  IsNamed e = Unit

  handle-HasValid :
      (e : Event) (c : Connection)
      → IsNamed e
      → IsValid c
      → HasValid (handle host now has_focus page l e c)
  unfolding handle ws_event_sent_away ws_event_connection ws_event_join ws_event_sent_list
      ws_event_sent_whois
  handle-HasValid (sent_away id reason) c h v = search tell-IsValid
  handle-HasValid (connection state) c h v = record { distinct = v.distinct; own = v.own }
  handle-HasValid (frozen p) c h v = frozen-HasValid p c v
  handle-HasValid (info nick op real_host state) c h v = info-HasValid nick op real_host state c v
  handle-HasValid (message p m) c h v = message-HasValid p m c v
  handle-HasValid (nick_change old new nick is_me) c h v =
      let (given, e) = is_there-some (or_option new nick) h in
      nick_change-HasValid old new nick given is_me c e v
  handle-HasValid (error e) c h v = error-HasValid e c v
  handle-HasValid (join id nick silent) c h v =
      let (given, e) = or_option-some nick c.nick in
      ensured-HasValid (with_id id)
        (joined host now has_focus c.nick (or_option nick (some c.nick)) silent) c
        (λ conv.
          joined-HasId host now has_focus c.nick (or_option nick (some c.nick)) given silent conv e)
        v
  handle-HasValid (part id nick kicker reason silent) c h v =
      part_any-HasValid id nick kicker reason silent c h v
  handle-HasValid (sent_list is_done n m args) c h v = record { distinct = v.distinct; own = v.own }
  handle-HasValid (sent_mode id target p) c h v = mode-HasValid id target p c v
  handle-HasValid (sent_query p) c h v = ensure-HasValid p c v
  handle-HasValid (sent_whois id w) c h v = search tell-IsValid

  HasValid-some : (o : Option Connection) → HasValid o → (d : Connection) × (o ≡ some d) × IsValid d
  HasValid-some none h = elim h [ ]
  HasValid-some (some d) h = (d, refl, h)

  handle_all-HasValid :
      (events : List Event) (c : Connection)
      → All IsNamed events
      → IsValid c
      → HasValid (handle_all host now has_focus page l events c)
  unfolding handle_all
  handle_all-HasValid [] c h v = v
  handle_all-HasValid (e ∷ events) c h v =
      bind-HasValid (handle host now has_focus page l e c)
        (handle_all host now has_focus page l events) (handle-HasValid e c h.0 v)
        (λ d. handle_all-HasValid events d h.1)

  -- From a connection whose map of conversations is keyed by their ids, any sequence of events of the
  -- server, in which a change of nick says the new one and a "part" says who leaves, runs through its
  -- handlers without an exception, and the map is keyed so at the end.
  pub handle_all-IsValid :
      (events : List Event) (c : Connection)
      → All IsNamed events
      → IsValid c
      → (d : Connection) × (handle_all host now has_focus page l events c ≡ some d) × IsValid d
  handle_all-IsValid events c h v =
      HasValid-some (handle_all host now has_focus page l events c)
        (handle_all-HasValid events c h v)
