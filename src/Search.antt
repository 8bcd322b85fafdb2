-- ===== src/Search.antt =====
-- assets/store/Search.js and assets/store/Notifications.js: the two conversations that are not with
-- anybody. `load` of a search is two functions, before and after its `await`.
mod Tests
pub mod Found
use convos.Prelude.{
  ℕ, Bool, true, false, not, ◌&&◌, ◌||◌, Text, codes, text_eq, is_empty, or_text, List, [], ◌∷◌,
  ◌++◌, if◌then◌else◌,
}
use convos.Prelude.Chars.{is_space}
use convos.Host.{Host}
use convos.Messages
use convos.Messages.{ChatMessage, Messages, push, unshift}
use convos.Conversation.{Status, success, loading, is_loading, note}

pub record Search : Type 0 where
  pub query : Text
  pub status : Status
  pub messages : Messages

-- `load(params)`: `match` is empty if it is missing.
pub record SearchParams : Type 0 where
  pub match : Text
  pub message : Text
  pub before : Bool

-- `match(/\S/)`
unfoldable pub has_solid : Text → Bool
unfolding is_space
has_solid [] = false
has_solid (c ∷ s) = not (is_space c) || has_solid s

module _ (host : Host) (now : ℕ) where
  abbrev pub nothing_to_search : Text → ChatMessage
  nothing_to_search message =
      note host now (codes "Search query \"%1\" does not contain anything to search for.")
        (message ∷ [])

  -- `load(params)` until its `await`, and whether the request is sent.
  unfoldable pub load : SearchParams → Search → Search × Bool
  unfolding has_solid push Messages.clear
  load p s =
      let query = or_text p.match p.message in
      if is_loading s.status
      then (s, false)
      else if not (has_solid query)
      then (
        record s {
          messages = push host now (nothing_to_search p.message ∷ []) (Messages.clear s.messages);
        },
        false,
      )
      else (
        record s { query = query; status = loading; messages = Messages.clear s.messages },
        true,
      )

  -- `load(params)` from its `await`, with the status of the operation and the messages of its answer.
  unfoldable pub loaded : SearchParams → Status → List ChatMessage → Search → Search
  unfolding push unshift
  loaded p status list s = record s {
    messages = if p.before then unshift host now list s.messages else push host now list s.messages;
    status = status;
  }

  -- `addMessages(messages)` of the notifications: no counter and no desktop notification.
  unfoldable pub add_notifications : List ChatMessage → Messages → Messages
  unfolding push
  add_notifications list ms = push host now list ms
