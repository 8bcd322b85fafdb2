-- ===== src/Connection/Handlers.antt =====
-- assets/store/Connection.js: the handlers of the server's events. `none` stands for an exception.
use convos.Prelude.{
  ℕ, ◌==◌, Bool, true, false, not, ◌&&◌, ◌||◌, Text, codes, text_eq, is_empty, or_text, starts_with,
  drop, take, List, [], ◌∷◌, ◌++◌, Option, none, some, get_or, if◌then◌else◌, string_eq,
}
use convos.Prelude.Chars.{is_space, run}
use convos.Prelude.Decimal.{decimal}
use convos.Prelude.Dict.{Dict}
use convos.Host.{Host}
use convos.Participants.{Participant, named, or_option, is_true, has_nick}
use convos.Participants
use convos.ChatHelpers.{Whois, away_message}
use convos.Messages.{ChatMessage}
use convos.Conversation.{Conversation, note, add_message, ws_event_part, ws_event_nick_change}
use convos.Conversation.Events.{ModeParams, ws_event_mode}
use convos.Connection.{
  Params, with_id, State, shows, Connection, find_conversation, put, Page, inherited,
  ensure_conversation, remove_conversation,
}

-- `/pending invitation/i` in a text whose upper case letters are in ASCII.
unfoldable pub is_pending : (Text → Text) → Text → Bool
is_pending lower [] = false
is_pending lower (c ∷ s) =
    starts_with (lower (c ∷ s)) (codes "pending invitation") || is_pending lower s

-- `message.match(/^\/j(oin)? (\S+)/)`, the second group.
unfoldable pub join_name : Text → Option Text
unfolding run
join_name message =
    let rest =
      if starts_with message (codes "/join ")
      then drop 6 message
      else if starts_with message (codes "/j ")
      then drop 3 message
      else [] in
    let n = run (λ c. not (is_space c)) rest in if n == 0 then none else some (take n rest)

-- An event that is an error. `errors` holds the message of the first one, `none` if the list is
-- missing or empty; `command` are the words of the command, if the event has them.
pub record Failure : Type 0 where
  pub params : Params
  pub message : Text
  pub errors : Option Text
  pub command : Option (List Text)

-- `extractErrorMessage(params)`
unfoldable pub extract_error_message : Option Text → Text
extract_error_message none = []
extract_error_message (some message) = or_text message (codes "Unknown error.")

module _ (host : Host) where
  -- `conversation.participants.add(participant)`
  unfoldable pub join_in : Participant → Conversation → Option Conversation
  join_in p conv = elim (Participants.add host conv.participants p) [
    | none ↦ none
    | some ps ↦ some (record conv { participants = ps })
  ]

-- A handler goes on with the conversation that `ensureConversation` returns.
abbrev pub change : Text → (Conversation → Option Conversation) → Connection → Option Connection
change id f c = elim (find_conversation id c) [
  | none ↦ none
  | some conv ↦ elim (f conv) [ none ↦ none | some d ↦ some (put id d c) ]
]

-- `nick === this.nick`
abbrev pub is_nick : Option Text → Text → Bool
is_nick none own = false
is_nick (some nick) own = text_eq nick own

-- `this.conversations.forEach(…)`
unfoldable pub each :
    (Conversation → Option Conversation) → Dict Text Conversation → Option (Dict Text Conversation)
each f [] = some []
each f ((id, conv) ∷ m) = elim (f conv) [
  | none ↦ none
  | some d ↦ elim (each f m) [ none ↦ none | some n ↦ some ((id, d) ∷ n) ]
]

module _ (host : Host) (now : ℕ) (has_focus : Bool) where
  -- The conversation in `wsEventFrozen(params)`: "Connected." when it was frozen and is not any more,
  -- and the user among the participants.
  unfoldable pub thawed : Text → Bool → Conversation → Option Conversation
  unfolding add_message join_in
  thawed nick was_frozen conv =
      join_in host (record (named nick) { me = true })
        (if was_frozen
          then add_message host now has_focus (note host now (codes "Connected.") []) conv
          else conv)

  -- What `wsEventJoin(params)` does to the conversation.
  unfoldable pub joined : Text → Option Text → Bool → Conversation → Option Conversation
  unfolding add_message join_in
  joined own nick silent conv =
      join_in host (record (named []) { nick = nick })
        (if not (is_nick nick own) && not silent
          then add_message host now has_focus
              (note host now (codes "%1 joined.") (get_or nick [] ∷ [])) conv
          else conv)

  -- `conversation.wsEventNickChange({old_nick, new_nick, type})`: `has` throws on an old nick that is
  -- undefined, and `rename` on a new one.
  unfoldable pub nick_changed :
      Option Text → Option Text → Bool → Conversation → Option Conversation
  unfolding ws_event_nick_change
  nick_changed none new_nick is_me conv = none
  nick_changed (some old_nick) none is_me conv =
      if has_nick host conv.participants old_nick then none else some conv
  nick_changed (some old_nick) (some new_nick) is_me conv =
      ws_event_nick_change host now has_focus old_nick new_nick is_me conv

module _ (host : Host) (now : ℕ) (has_focus : Bool) (page : Page) (l : Text → Text) where
  -- `const conversation = this.findConversation(params) || this; conversation.addMessages(msg)`
  unfoldable pub tell : Text → ChatMessage → Connection → Connection
  unfolding add_message
  tell id msg c = elim (find_conversation id c) [
    | none ↦ record c { base = add_message host now has_focus msg c.base }
    | some conv ↦ put id (add_message host now has_focus msg conv) c
  ]

  abbrev pub ensured :
      Params → (Conversation → Option Conversation) → Connection → Option Connection
  ensured p f c = elim (ensure_conversation host now page l p c) [
    | none ↦ none
    | some d ↦ change p.conversation_id f d
  ]

  -- `wsEventSentAway(params)`
  unfoldable pub ws_event_sent_away : Text → Text → Connection → Connection
  unfolding tell
  ws_event_sent_away id reason c =
      tell id (record (note host now reason []) { type = codes "notice" }) c

  -- `wsEventConnection(params)`
  unfoldable pub ws_event_connection : State → Connection → Connection
  ws_event_connection state c = record c { state = state }

  -- `wsEventFrozen(params)` from the line after `ensureConversation`, with `params.frozen` as `reason`.
  unfoldable pub after_frozen : Params → Text → Bool → Connection → Option Connection
  unfolding thawed is_pending
  after_frozen p reason was_frozen d =
      if is_empty reason
      then change p.conversation_id (thawed host now has_focus d.nick was_frozen) d
      else elim (find_conversation p.conversation_id d) [
        | none ↦ none
        | some conv ↦
            if is_pending host.to_lower_case conv.frozen
            then some (record d { out = d.out ++ shows reason (get_or p.name []) ∷ [] })
            else some d
      ]

  -- `wsEventFrozen(params)`, which reads `params.frozen` after `ensureConversation` has set it.
  unfoldable pub ws_event_frozen : Params → Connection → Option Connection
  unfolding ensure_conversation after_frozen inherited
  ws_event_frozen p c =
      let existing = find_conversation p.conversation_id c in
      let was_frozen : Bool = elim existing [
        | none ↦ false
        | some conv ↦ not (is_empty conv.frozen)
      ] in
      let q : Params = elim existing [ none ↦ inherited l p c | some conv ↦ p ] in
      elim (ensure_conversation host now page l p c) [
        | none ↦ none
        | some d ↦ after_frozen p (get_or q.frozen []) was_frozen d
      ]

  -- `wsEventMessage(params)`
  unfoldable pub ws_event_message : Params → ChatMessage → Connection → Option Connection
  unfolding ensure_conversation add_message
  ws_event_message p m c =
      let msg = record m { yourself = text_eq m.from c.nick } in
      if is_empty p.conversation_id
      then some (record c { base = add_message host now has_focus msg c.base })
      else ensured p (λ conv. some (add_message host now has_focus msg conv)) c

  -- `wsEventNickChange(params)`, of `old_nick`, `new_nick` and `nick`, where `none` is a key that is
  -- missing: first the connection, then each conversation. `is_me` is `params.type === 'me'`; nothing
  -- reads `nickChangeParams.me`.
  unfoldable pub ws_event_nick_change_all :
      Option Text → Option Text → Option Text → Bool → Connection → Option Connection
  unfolding nick_changed each
  ws_event_nick_change_all old_nick new_nick nick is_me c =
      let old = or_option old_nick (some c.nick) in
      let new = or_option new_nick nick in
      elim (nick_changed host now has_focus old new is_me c.base) [
        | none ↦ none
        | some base ↦ elim (each (nick_changed host now has_focus old new is_me) c.conversations) [
          | none ↦ none
          | some m ↦ some (record c { base = base; conversations = m })
        ]
      ]

  -- `wsEventInfo(params)` from its second line; `none` for a key that is missing.
  unfoldable pub informed :
      Option Text → Option Bool → Option Text → Option State → Connection → Option Connection
  unfolding add_message join_in
  informed nick server_op real_host state d =
      let operator : ChatMessage = record (note host now (codes "You are an IRC operator.") []) {
        highlight = true;
      } in
      let base =
        if get_or server_op false then add_message host now has_focus operator d.base else d.base in
      elim (if is_true real_host
        then join_in host (record (named []) { nick = real_host }) base
        else some base) [
          | none ↦ none
          | some b ↦ some (record d {
            base = b;
            nick = get_or nick d.nick;
            server_op = get_or server_op d.server_op;
            real_host = get_or real_host d.real_host;
            state = get_or state d.state;
          })
        ]

  -- `wsEventInfo(params)`
  unfoldable pub ws_event_info :
      Option Text → Option Bool → Option Text → Option State → Connection → Option Connection
  unfolding ws_event_nick_change_all informed
  ws_event_info nick server_op real_host state c =
      elim (if is_true nick then ws_event_nick_change_all none none nick false c else some c) [
        | none ↦ none
        | some d ↦ informed nick server_op real_host state d
      ]

  -- The message of `wsEventError(params)`.
  unfoldable pub error_message : Failure → ChatMessage
  unfolding extract_error_message
  error_message e =
      record (note host now
        (or_text (extract_error_message e.errors)
          (or_text (get_or e.params.frozen []) (codes "Unknown error from %1.")))
        (get_or e.command (e.message ∷ []))) { type = codes "error" }

  -- `wsEventError(params)`
  unfoldable pub ws_event_error : Failure → Connection → Option Connection
  unfolding ensure_conversation add_message error_message tell join_name
  ws_event_error e c = elim (join_name e.message) [
    | some name ↦ ensure_conversation host now page l (record e.params { conversation_id = name }) c
    | none ↦
        if not (is_empty e.params.conversation_id) && not (is_empty (get_or e.params.frozen []))
        then ensured e.params (λ conv. some (add_message host now has_focus (error_message e) conv))
            c
        else some (tell e.params.conversation_id (error_message e) c)
  ]

  -- `wsEventJoin(params)` and `wsEventSentJoin(params)`
  unfoldable pub ws_event_join : Text → Option Text → Bool → Connection → Option Connection
  unfolding ensure_conversation joined
  ws_event_join id nick silent c =
      ensured (with_id id) (joined host now has_focus c.nick (or_option nick (some c.nick)) silent)
        c

  -- `wsEventPart(params)` and `wsEventQuit(params)` with a nick.
  unfoldable pub ws_event_part_from :
      Text → Text → Text → Text → Bool → Connection → Option Connection
  unfolding remove_conversation ws_event_part each
  ws_event_part_from id nick kicker message silent c =
      if text_eq nick c.nick
      then some (remove_conversation id c)
      else if not (is_empty id)
      then some c
      else elim (each
          (λ conv. some (ws_event_part host now has_focus nick kicker message silent conv))
          c.conversations) [ none ↦ none | some m ↦ some (record c { conversations = m }) ]

  -- The same for `params.nick`, which may be missing: then `get` throws in every conversation.
  unfoldable pub ws_event_part_any :
      Text → Option Text → Text → Text → Bool → Connection → Option Connection
  unfolding ws_event_part_from each
  ws_event_part_any id (some nick) kicker message silent c =
      ws_event_part_from id nick kicker message silent c
  ws_event_part_any id none kicker message silent c =
      if not (is_empty id) then some c else elim (each (λ conv. none) c.conversations) [
        | none ↦ none
        | some m ↦ some (record c { conversations = m })
      ]

  -- `wsEventSentList(params)`
  unfoldable pub ws_event_sent_list : Bool → ℕ → ℕ → Text → Connection → Connection
  unfolding add_message
  ws_event_sent_list is_done n n_conversations args c =
      let message =
        if is_done
        then codes "Found %1 of %2 conversations from %3."
        else codes "Found %1 of %2 conversations from %3, but conversations are still loading." in
      record c {
        base =
            add_message host now has_focus
              (note host now message
                (decimal n ∷ decimal n_conversations ∷ or_text args (codes "/*/") ∷ []))
              c.base;
      }

  -- `wsEventSentMode(params)`
  unfoldable pub ws_event_sent_mode : Text → Text → ModeParams → Connection → Option Connection
  unfolding ws_event_mode add_message
  ws_event_sent_mode id target p c = elim (find_conversation id c) [
    | some conv ↦ elim (ws_event_mode host now has_focus l p conv) [
      | none ↦ none
      | some d ↦ some (put id d c)
    ]
    | none ↦ some (record c {
      base =
          add_message host now has_focus
            (note host now (codes "%1 received mode %2.") (target ∷ p.mode ∷ [])) c.base;
    })
  ]

  -- `wsEventSentWhois(params)`
  unfoldable pub ws_event_sent_whois : Text → Whois → Connection → Connection
  unfolding away_message tell
  ws_event_sent_whois id w c =
      let answer = away_message w in tell id (note host now answer.0 answer.1) c
