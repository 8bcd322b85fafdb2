-- ===== src/Connection/Parting.antt =====
-- Somebody leaves a conversation or the server.
use convos.Prelude.{
  ℕ, ◌≡◌, refl, Bool, not, Text, text_eq, [], ◌∷◌, Option, none, some, if◌then◌else◌, is_empty,
  Bool-cases, inl, inr, string_eq,
}
use convos.Prelude.Dict.{Dict, get, get-delete}
use convos.Host.{Host}
use convos.Conversation.{Conversation, ws_event_part}
use convos.Connection.{Connection, Page, find_conversation, remove_conversation}
use convos.Connection.Handlers.{each, ws_event_part_from}

-- The entries that `f` gives.
abbrev mapped : (Conversation → Conversation) → Option Conversation → Option Conversation
mapped f none = none
mapped f (some conv) = some (f conv)

abbrev Lookups :
    (Conversation → Conversation)
    → Text
    → Dict Text Conversation
    → Option (Dict Text Conversation)
    → Type 0
Lookups f id m none = ⊥
Lookups f id m (some n) = get id n ≡ mapped f (get id m)

get-each_step :
    (f : Conversation → Conversation) (id j : Text) (conv : Conversation)
    (m : Dict Text Conversation) (o : Option (Dict Text Conversation))
    → Lookups f id m o
    → Lookups f id ((j, conv) ∷ m) (elim o [ none ↦ none | some n ↦ some ((j, f conv) ∷ n) ])
unfolding get
get-each_step f id j conv m none h = h
get-each_step f id j conv m (some n) h = elim (Bool-cases (text_eq j id)) [
  | inl e ↦ rw (e, Lookups, get) refl
  | inr e ↦ rw (e, Lookups, get) h
]

get-each :
    (f : Conversation → Conversation) (id : Text) (m : Dict Text Conversation)
    → Lookups f id m (each (λ conv. some (f conv)) m)
unfolding each get
get-each f id [] = refl
get-each f id ((j, conv) ∷ m) =
    get-each_step f id j conv m (each (λ conv. some (f conv)) m) (get-each f id m)

module _ (host : Host) (now : ℕ) (has_focus : Bool) (page : Page) (l : Text → Text) where
  -- The conversation `other` after `wsEventPart(params)` or `wsEventQuit(params)`.
  abbrev pub after_part : Text → Text → Text → Text → Bool → Text → Connection → Option Conversation
  after_part id nick kicker reason silent other c =
      if text_eq nick c.nick
      then (if text_eq id other then none else find_conversation other c)
      else if not (is_empty id)
      then find_conversation other c
      else mapped (ws_event_part host now has_focus nick kicker reason silent)
          (find_conversation other c)

  -- A "part" or "quit" at the connection, on every branch: for the user, the named conversation is
  -- removed and every other one stays; for somebody else, with the id of a conversation nothing is
  -- changed here, and without one the "part" is handled by every conversation. None of them throws.
  pub ws_event_part_from_lem :
      (id nick kicker reason : Text) (silent : Bool) (other : Text) (c : Connection)
      → (d : Connection) × (ws_event_part_from host now has_focus page l id nick kicker reason
            silent c
          ≡ some d)
        × (find_conversation other d ≡ after_part id nick kicker reason silent other c)
  unfolding ws_event_part_from remove_conversation
  ws_event_part_from_lem id nick kicker reason silent other c =
      elim (Bool-cases (text_eq nick c.nick)) [
        | inl own ↦
            (remove_conversation id c, rw own refl, rw own (get-delete other id c.conversations))
        | inr stranger ↦ elim (Bool-cases (not (is_empty id))) [
          | inl e ↦ (c, rw (stranger, e) refl, rw (stranger, e) refl)
          | inr e ↦
              let f = ws_event_part host now has_focus nick kicker reason silent in
              let (d, done, found) =
                from f (each (λ conv. some (f conv)) c.conversations)
                  (get-each f other c.conversations) in
              (d, rw (stranger, e) done, rw (stranger, e) found)
        ]
      ]
    where
      from :
          (f : Conversation → Conversation) (o : Option (Dict Text Conversation))
          → Lookups f other c.conversations o
          → (d : Connection) × ((elim o [
            | none ↦ none
            | some m ↦ some (record c { conversations = m })
          ])
              ≡ some d)
            × (find_conversation other d ≡ mapped f (find_conversation other c))
      from f none h = elim h [ ]
      from f (some m) h = (record c { conversations = m }, refl, h)
