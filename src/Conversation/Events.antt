-- ===== src/Conversation/Events.antt =====
-- assets/store/Conversation.js: the handlers of events that concern modes and the lists of
-- participants.
use convos.Prelude.{
  ℕ, suc, ap, refl, get_elem?, ◌≡◌, Bool, ◌&&◌, Text, codes, List, [], ◌∷◌, ◌++◌, Option, none,
  some, get_or, if◌then◌else◌, length, leb, string_eq,
}
use convos.Prelude.Decimal.{decimal}
use convos.Prelude.Dict.{Dict, set}
use convos.Constants.{channel_mode_char_to_mode_name}
use convos.Host.{Host}
use convos.Participants.{Participant, Participants, named, nicks, add_all, is_true}
use convos.Participants
use convos.Messages.{ChatMessage}
use convos.Util.Modes.{calculate_modes}
use convos.Conversation.{Conversation, load_information, add_message, note}

-- `Object.assign({}, a, b)`
unfoldable pub assign : Dict Text Bool → Dict Text Bool → Dict Text Bool
assign a [] = a
assign a ((k, v) ∷ b) = assign (set k v a) b

-- The parameters of `wsEventMode`: the list given for one of the four list names, by its length.
pub record ModeParams : Type 0 where
  pub listed : Option (Text × ℕ)
  pub nick : Option Text
  pub mode : Text
  pub mode_changed : Bool
  pub from : Text
  pub type : Text

-- `nicks.join(', ')`, where an undefined nick is the empty text.
unfoldable pub join_nicks : List (Option Text) → Text
join_nicks [] = []
join_nicks (nick ∷ []) = get_or nick []
join_nicks (nick ∷ next ∷ rest) = get_or nick [] ++ (codes ", " ++ join_nicks (next ∷ rest))

-- All but the last, and the last.
unfoldable pub pop : Option Text → List (Option Text) → List (Option Text) × Option Text
pop nick [] = ([], nick)
pop nick (next ∷ rest) = let popped = pop next rest in (nick ∷ popped.0, popped.1)

module _ (host : Host) (now : ℕ) (has_focus : Bool) (l : Text → Text) where
  -- `{...params, message, vars}`: the fields of the event that the list of messages reads.
  abbrev event_note : ModeParams → Text → List Text → ChatMessage
  event_note params message vars = record (note host now message vars) {
    from = params.from;
    type = params.type;
  }

  -- The modes after a mode string.
  abbrev with_modes : ModeParams → Conversation → Conversation
  with_modes params c = record (load_information now c) {
    modes = assign c.modes (calculate_modes channel_mode_char_to_mode_name params.mode);
  }

  unfoldable pub mode_of_nick : ModeParams → Conversation → Option Conversation
  unfolding add_message
  mode_of_nick params c =
      elim (Participants.add host c.participants
        (record (named []) { nick = params.nick; mode = some params.mode })) [
          | none ↦ none
          | some ps ↦ some (
              add_message host now has_focus
                (event_note params (codes "%1 got mode %2 from %3.")
                  (get_or params.nick [] ∷ params.mode ∷ params.from ∷ []))
                (record c { participants = ps }))
        ]

  -- `wsEventMode(params)`; `none` if the list of participants throws.
  unfoldable pub ws_event_mode : ModeParams → Conversation → Option Conversation
  unfolding mode_of_nick add_message assign
  ws_event_mode params c = elim params.listed [
    | some (name, n) ↦
        let entries = if leb n 1 && leb 1 n then codes "entry" else codes "entries" in
        some (
          add_message host now has_focus
            (event_note params (codes "%1 has %2 " ++ (entries ++ codes " in %3."))
              (c.name ∷ decimal n ∷ l name ∷ []))
            c)
    | none ↦
        if is_true params.nick
        then mode_of_nick params c
        else if params.mode_changed
        then some (
            with_modes params (
              add_message host now has_focus
                (event_note params (codes "%1 received mode %2.") (c.name ∷ params.mode ∷ [])) c))
        else some (
            with_modes params (
              add_message host now has_focus
                (event_note params (codes "%1 got mode %2.") (c.name ∷ params.mode ∷ [])) c))
  ]

  -- `wsEventParticipants(params)`
  unfoldable pub ws_event_participants : List Participant → Conversation → Option Conversation
  unfolding load_information add_all
  ws_event_participants list c = elim (add_all host c.participants list) [
    | none ↦ none
    | some ps ↦ some (load_information now (record c { participants = ps }))
  ]

module _ (host : Host) (now : ℕ) where
  -- The message of `wsEventSentNames`: the number is taken after the last nick has been popped.
  unfoldable pub names_message : Text → Text → List (Option Text) → ChatMessage
  unfolding join_nicks pop
  names_message from type [] =
      record (note host now (codes "Participants (%1): %2") (codes "0" ∷ [] ∷ [])) {
        from = from;
        type = type;
      }
  names_message from type (nick ∷ []) =
      record (note host now (codes "Participants (%1): %2") (codes "1" ∷ get_or nick [] ∷ [])) {
        from = from;
        type = type;
      }
  names_message from type (nick ∷ next ∷ rest) =
      let popped = pop nick (next ∷ rest) in
      record (note host now (codes "Participants (%1): %2 and %3.")
        (decimal (length popped.0) ∷ join_nicks popped.0 ∷ get_or popped.1 [] ∷ [])) {
          from = from;
          type = type;
        }

module _ (host : Host) (now : ℕ) (has_focus : Bool) where
  -- `wsEventSentNames(params)`
  unfoldable pub ws_event_sent_names :
      Text → Text → List Participant → Conversation → Option Conversation
  unfolding names_message add_message add_all nicks
  ws_event_sent_names from type list c = elim (add_all host c.participants list) [
    | none ↦ none
    | some ps ↦ some (
        add_message host now has_focus (names_message host now from type (nicks host ps))
          (record c { participants = ps }))
  ]

length-pop :
    (nick : Option Text) (rest : List (Option Text)) → length (pop nick rest).0 ≡ length rest
unfolding pop
length-pop nick [] = refl
length-pop nick (next ∷ rest) = ap suc (length-pop next rest)

module _ (host : Host) (now : ℕ) where
  -- The number in the message for two or more participants is one less than how many there are.
  pub names_message-count :
      (from type : Text) (nick next : Option Text) (rest : List (Option Text))
      → get_elem? (names_message host now from type (nick ∷ next ∷ rest)).vars 0
        ≡ some (decimal (suc (length rest)))
  unfolding names_message
  names_message-count from type nick next rest =
      ap (λ n. some (decimal n)) (length-pop nick (next ∷ rest))
