-- ===== src/User.antt =====
-- assets/store/User.js: the user's connections, what is shown, and the counters. The log of a connection
-- says which conversations were added and removed; the user's listeners read it after each call.
-- Telling the page to draw, and the delay of `_calculateUnread`, are left out.
pub mod Unread
pub mod Dispatch
pub mod Loading
pub mod Shown
pub mod Tree
pub mod Ensuring
pub mod Settled
pub mod Loaded
mod Tests
use convos.Prelude.{
  ℕ, suc, ◌+◌, Bool, true, false, not, ◌&&◌, ◌||◌, ◌≡◌, Text, codes, text_eq, is_empty, or_text,
  List, [], ◌∷◌, ◌++◌, Option, none, some, get_or, is_some, if◌then◌else◌, string_eq, drop, length,
  filter, find,
}
use convos.Prelude.Dict
use convos.Prelude.Dict.{Dict, get, set, delete}
use convos.Host.{Host}
use convos.Messages.{Messages}
use convos.Conversation.{Conversation, is_private}
use convos.Connection.{
  Params, State, Effect, added, removed, shows, Connection, Page, with_id, update,
}
use convos.Connection
use convos.SortedMap

-- The conversation that the page shows: the notifications, an object of the tree of connections, one
-- that was made for ids that were not found ("Not found."), or one that was in a tree that has been
-- cleared, which stays as it was. The conversation id is empty for a connection.
pub data Active : Type 0 where
  notifications_page : Active
  live : Text → Text → Active
  missing : Text → Text → Active
  stale : Text → Text → Active

pub data Status : Type 0 where
  pending loading success failed : Status

-- `this.notifications`
pub record Notifications : Type 0 where
  pub notifications : ℕ
  pub unread : ℕ
  pub messages : Messages

pub record User : Type 0 where
  pub connections : Dict Text Connection
  pub notifications : Notifications
  pub roles : List Text
  pub active : Active
  pub status : Status
  pub email : Text
  pub id : Text
  pub ignore_statuses : Bool
  pub unread_include_private_messages : Bool

-- The parameters of a connection as far as `update` sets fields of the model, `none` for a key that is
-- missing; `base` holds those of a conversation. `fresh` is what `new Connection(params)` makes, whose
-- nick and host are read from the URL.
pub record ConnectionParams : Type 0 where
  pub connection_id : Text
  pub base : Params
  pub state : Option State
  pub nick : Option Text
  pub server_op : Option Bool
  pub real_host : Option Text
  pub fresh : Connection

-- `{connection_id: params.connection_id}`
abbrev pub only_id : ConnectionParams → ConnectionParams
only_id q = record q {
  base = with_id [];
  state = none;
  nick = none;
  server_op = none;
  real_host = none;
}

-- `conversations(cb)` without a callback: those of each connection, in the order of the maps.
unfoldable pub conversations_of : Dict Text Connection → List Conversation
conversations_of [] = []
conversations_of ((id, c) ∷ m) = Dict.values c.conversations ++ conversations_of m

unfoldable pub conversations : (Conversation → Bool) → User → List Conversation
unfolding conversations_of
conversations p u = filter p (conversations_of u.connections)

-- `findConversation(params)` for a conversation.
unfoldable pub find_in : Text → Text → User → Option Conversation
find_in connection_id conversation_id u = elim (get connection_id u.connections) [
  | none ↦ none
  | some c ↦ Connection.find_conversation conversation_id c
]

-- Whether `findConversation(params)` finds something.
unfoldable pub is_found : Text → Text → User → Bool
unfolding find_in
is_found connection_id conversation_id u =
    if is_empty conversation_id
    then is_some (get connection_id u.connections)
    else is_some (find_in connection_id conversation_id u)

-- `is(statusOrRole)` for a role, or a list of roles.
unfoldable pub has_role : Text → User → Bool
has_role role u = is_some (find (text_eq role) u.roles)

unfoldable pub has_some_role : List Text → User → Bool
unfolding has_role
has_some_role [] u = false
has_some_role (r ∷ roles) u = has_role r u || has_some_role roles u

-- Whether the conversation of these ids, in the tree, is the one that is shown.
abbrev pub is_shown : Text → Text → Active → Bool
is_shown connection_id conversation_id notifications_page = false
is_shown connection_id conversation_id (live c k) =
    text_eq connection_id c && text_eq conversation_id k
is_shown connection_id conversation_id (missing c k) = false
is_shown connection_id conversation_id (stale c k) = false

-- `setActiveConversation(params)`
unfoldable pub set_active_conversation : Text → Text → User → User
unfolding is_found
set_active_conversation connection_id conversation_id u =
    if is_empty connection_id && is_empty conversation_id
    then record u { active = notifications_page }
    else if is_found connection_id conversation_id u
    then record u { active = live connection_id conversation_id }
    else record u { active = missing connection_id conversation_id }

-- `_maybeUpgradeActiveConversation(conversation)`: an object with the ids of what is shown replaces it.
-- The notifications are a conversation without a connection and with the id "notifications".
abbrev pub has_ids : Text → Text → Active → Bool
has_ids connection_id conversation_id notifications_page =
    is_empty connection_id && text_eq conversation_id (codes "notifications")
has_ids connection_id conversation_id (live c k) =
    (is_empty connection_id || text_eq connection_id c) && text_eq conversation_id k
has_ids connection_id conversation_id (missing c k) =
    (is_empty connection_id || text_eq connection_id c) && text_eq conversation_id k
has_ids connection_id conversation_id (stale c k) =
    (is_empty connection_id || text_eq connection_id c) && text_eq conversation_id k

unfoldable pub maybe_upgrade_active_conversation : Text → Text → User → User
maybe_upgrade_active_conversation connection_id conversation_id u =
    if not (is_empty conversation_id) && has_ids connection_id conversation_id u.active
    then record u { active = live connection_id conversation_id }
    else u

-- The listeners on "conversationadd" and "conversationremove".
unfoldable pub hear : Text → List Effect → User → User
unfolding maybe_upgrade_active_conversation set_active_conversation
hear id [] u = u
hear id (added k ∷ effects) u = hear id effects (maybe_upgrade_active_conversation id k u)
hear id (removed k ∷ effects) u =
    hear id effects (if is_shown id k u.active then set_active_conversation id k u else u)
hear id (shows reason title ∷ effects) u = hear id effects u

-- A connection has been changed by a call, from `c` to `d`.
unfoldable pub changed : Text → Connection → Connection → User → User
unfolding hear
changed id c d u =
    hear id (drop (length c.out) d.out) (record u { connections = set id d u.connections })

-- The sorter of the map of connections, which is the default one.
abbrev pub by_name : Host → Connection → Connection → Bool
by_name host a b = host.locale_gt a.base.name b.base.name

module _ (host : Host) (now : ℕ) (page : Page) (l : Text → Text) where
  -- `conn.update(params)`
  unfoldable pub update_connection : ConnectionParams → Connection → Connection
  unfolding update
  update_connection p c = record c {
    base = update now p.base c.base;
    state = get_or p.state c.state;
    nick = get_or p.nick c.nick;
    server_op = get_or p.server_op c.server_op;
    real_host = get_or p.real_host c.real_host;
  }

  -- `ensureConversation(params)` without a conversation id, or with the lock.
  unfoldable pub ensure_connection : ConnectionParams → User → User
  unfolding update_connection
  ensure_connection p u = elim (get p.connection_id u.connections) [
    | some c ↦ record u { connections = set p.connection_id (update_connection p c) u.connections }
    | none ↦ record u {
      connections = SortedMap.set (by_name host) p.connection_id p.fresh u.connections;
    }
  ]

  -- `ensureConversation(params)` with a conversation id.
  unfoldable pub enter_conversation : ConnectionParams → Params → User → Option User
  unfolding ensure_connection Connection.ensure_conversation changed
      maybe_upgrade_active_conversation
  enter_conversation q p u =
      let v = ensure_connection (only_id q) u in
      elim (get q.connection_id v.connections) [
        | none ↦ none
        | some c ↦ elim (Connection.ensure_conversation host now page l p c) [
          | none ↦ none
          | some d ↦ some (
              maybe_upgrade_active_conversation q.connection_id p.conversation_id
                (changed q.connection_id c d v))
        ]
      ]

  -- `ensureConversation(params)`: `q` and `p` are the parameters as those of a connection and of a
  -- conversation.
  unfoldable pub ensure_conversation : ConnectionParams → Params → User → Option User
  unfolding ensure_connection enter_conversation
  ensure_conversation q p u =
      if is_empty p.conversation_id then some (ensure_connection q u) else enter_conversation q p u

-- `removeConversation(params)`. Without a conversation id the connection goes; when it is the one
-- that is shown, the page shows that it is missing.
unfoldable pub remove_conversation : Text → Text → User → User
unfolding changed set_active_conversation Connection.remove_conversation
remove_conversation connection_id conversation_id u =
    if is_empty conversation_id
    then (let v = record u { connections = delete connection_id u.connections } in
        if is_shown connection_id conversation_id u.active
        then set_active_conversation connection_id conversation_id v
        else v)
    else elim (get connection_id u.connections) [
      | none ↦ u
      | some c ↦ changed connection_id c (Connection.remove_conversation conversation_id c) u
    ]
