-- ===== src/Autocomplete.antt =====
-- assets/js/autocomplete.js: the options for the word before the cursor, and what it becomes when one
-- is chosen. The list of `Emojis.search` is an argument.
pub mod Filling
pub mod Options
mod Tests
use convos.Prelude.{
  ℕ, zero, suc, ◌==◌, Bool, true, false, not, ◌&&◌, ◌||◌, Text, codes, is_empty, List, [], ◌∷◌,
  ◌++◌, Option, none, some, get_or, if◌then◌else◌, length, take, drop, leb, map, string_eq,
}
use convos.Prelude.Chars.{is_space, cut_at}
use convos.Prelude.Dict
use convos.Prelude.Dict.{Dict, get}
use convos.Host.{Host}
use convos.Commands.{command_options}
use convos.Participants.{Participant}
use convos.Conversation.{Conversation}
use convos.Connection.{Connection}
use convos.User.{User, conversations_of}

-- The parameters of `fillIn`.
pub record FillParams : Type 0 where
  pub value : Text
  pub cursor_pos : ℕ
  pub append : Bool
  pub pad_before : Bool
  pub pad_after : Bool
  pub replace : Bool

pub record Filled : Type 0 where
  pub before : Text
  pub middle : Text
  pub after : Text

-- `before.replace(/[ ]$/, '')`
unfoldable pub without_last_blank : Text → Text
without_last_blank [] = []
without_last_blank (c ∷ []) = if c == b' ' then [] else c ∷ []
without_last_blank (c ∷ d ∷ s) = c ∷ without_last_blank (d ∷ s)

-- `after.replace(/^[ ]/, '')`
unfoldable pub without_first_blank : Text → Text
without_first_blank [] = []
without_first_blank (c ∷ s) = if c == b' ' then s else c ∷ s

-- `/^\S*\s?$/`
unfoldable pub is_last_word : Text → Bool
is_last_word [] = true
is_last_word (c ∷ []) = true
is_last_word (c ∷ d ∷ s) = not (is_space c) && is_last_word (d ∷ s)

-- `before.replace(/\S*\s?$/, '')`
unfoldable pub without_last_word : Text → Text
unfolding is_last_word
without_last_word [] = []
without_last_word (c ∷ s) =
    let rest = without_last_word s in if is_last_word (c ∷ s) then [] else c ∷ rest

-- A blank in front, unless there is nothing before.
abbrev pub spaced : Text → Text → Text
spaced before middle = if is_empty before then middle else b' ' ∷ middle

-- `if (params.append)` and `if (params.padBefore)`, on the text before and the one in the middle.
unfoldable pub pad_left : Bool → Text × Text → Text × Text
unfolding without_last_blank
pad_left false (before, middle) = (before, middle)
pad_left true (before, middle) =
    (without_last_blank before, spaced (without_last_blank before) middle)

-- `fillIn(middle, params)`; `none` for undefined.
unfoldable pub fill_in : Option Text → FillParams → Filled
unfolding pad_left without_first_blank without_last_word
fill_in middle p =
    let n = if p.append then length p.value else p.cursor_pos in
    let before = take n p.value in
    let after = drop n p.value in
    elim middle [
      | none ↦ record { before = before; middle = []; after = after }
      | some text ↦
          let left = pad_left p.pad_before (pad_left p.append (before, text)) in
          record {
            before = if p.replace then without_last_word left.0 else left.0;
            middle = if p.pad_after then left.1 ++ b' ' ∷ [] else left.1;
            after = if p.pad_after then without_first_blank after else after;
          }
    ]

-- An option of the list. The text of a command, which is Markdown, is left out.
pub record Choice : Type 0 where
  pub text : Option Text
  pub val : Text

pub data Category : Type 0 where
  emojis commands nicks conversations nothing : Category

-- `/^\S+$/`
unfoldable pub is_word : Text → Bool
is_word [] = false
is_word (c ∷ []) = not (is_space c)
is_word (c ∷ d ∷ s) = not (is_space c) && is_word (d ∷ s)

-- `replace(/(\S)(\S*)$/, …)`: what stands before the last word, and the word.
unfoldable pub split_word : Text → Text × Text
unfolding is_word
split_word [] = ([], [])
split_word (c ∷ s) =
    let rest = split_word s in if is_word (c ∷ s) then ([], c ∷ s) else (c ∷ rest.0, rest.1)

-- The category by what stands before the word, and the word.
unfoldable pub category : Text → Text → Category
category before [] = nothing
category before (key ∷ after_key) =
    if key == b':' && not (is_empty after_key)
    then emojis
    else if key == b'/' && is_empty before
    then commands
    else if key == b'@' && not (is_empty after_key)
    then nicks
    else if key == b'#' || key == b'&'
    then conversations
    else nothing

-- `indexOf(query) !== -1`
unfoldable pub contains : Text → Text → Bool
unfolding cut_at
contains s query = is_empty query || elim (cut_at query s) [ none ↦ false | some cut ↦ true ]

abbrev pub choice : Conversation → Choice
choice conv = record { text = some conv.name; val = conv.conversation_id }

module _ (host : Host) where
  -- Whether a conversation is offered; the query is not put into lower case.
  unfoldable pub is_offered : Text → Conversation → Bool
  unfolding contains
  is_offered query conv = contains (host.to_lower_case conv.name) query

  -- The loop of `autocomplete.conversations`, with the options so far; it ends after 20.
  unfoldable pub offer_conversations : Text → List Conversation → List Choice → List Choice
  unfolding is_offered
  offer_conversations query [] opts = opts
  offer_conversations query (conv ∷ list) opts =
      let skipped = offer_conversations query list opts in
      let more = opts ++ choice conv ∷ [] in
      let rest = offer_conversations query list more in
      if is_offered query conv then (if leb 20 (length more) then more else rest) else skipped

  -- `autocomplete.conversations({conversation, query, user})`
  unfoldable pub conversation_options : Text → Text → User → List Choice
  unfolding offer_conversations conversations_of
  conversation_options connection_id query u =
      offer_conversations query
        (elim (get connection_id u.connections) [
          | none ↦ conversations_of u.connections
          | some c ↦ Dict.values c.conversations
        ])
        []

-- The loop of `autocomplete.emojis`; it ends after 30.
unfoldable pub offer_emojis : List Choice → List Choice → List Choice
offer_emojis [] opts = opts
offer_emojis (e ∷ list) opts =
    let more = opts ++ e ∷ [] in
    let rest = offer_emojis list more in if leb 30 (length more) then more else rest

-- The loop of `autocomplete.nicks`, with the test on nicks; none of them is undefined.
unfoldable pub offer_nicks : (Text → Bool) → List Text → List Choice → List Choice
offer_nicks matches [] opts = opts
offer_nicks matches (nick ∷ list) opts =
    let skipped = offer_nicks matches list opts in
    let rest = offer_nicks matches list (opts ++ record { text = none; val = nick } ∷ []) in
    if leb 20 (length opts) then opts else if matches nick then rest else skipped

-- `matches query nick` is the test of `nick` with the regular expression of `autocomplete.nicks`.
module _ (host : Host) (search : Text → List Choice) (matches : Text → Text → Bool) where
  -- `autocomplete(category, params)`
  unfoldable pub autocomplete : Category → Text → List Text → Text → User → List Choice
  unfolding offer_emojis command_options offer_nicks conversation_options
  autocomplete emojis query nicks_here id u = offer_emojis (search (drop 1 query)) []
  autocomplete commands query nicks_here id u =
      map (λ cmd. record { text = none; val = cmd }) (command_options query)
  autocomplete nicks query nicks_here id u = offer_nicks (matches (drop 1 query)) nicks_here []
  autocomplete conversations query nicks_here id u = conversation_options host id query u
  autocomplete nothing query nicks_here id u = []

  -- `calculateAutocompleteOptions(str, splitValueAt, …)`; the first option, the word itself, is there
  -- when there are others.
  unfoldable pub calculate_autocomplete_options :
      Text → ℕ → List Text → Text → User → Option (Category × Text) × List Choice
  unfolding split_word category autocomplete
  calculate_autocomplete_options str split_value_at nicks_here id u =
      let split = split_word (take split_value_at str) in
      let kind = category split.0 split.1 in
      let opts = autocomplete kind split.1 nicks_here id u in
      (if leb 1 (length opts) then some (kind, split.1) else none, opts)
