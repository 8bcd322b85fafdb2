-- ===== src/User/Loading.antt =====
-- assets/store/User.js: `load`, before and after its answer, and what a change of the socket does.
use convos.Prelude.{
  ℕ, Bool, true, false, ◌&&◌, ◌||◌, Text, text_eq, List, [], ◌∷◌, ◌++◌, Option, none, some,
  if◌then◌else◌, string_eq,
}
use convos.Prelude.Dict.{Dict}
use convos.Host.{Host}
use convos.Conversation
use convos.Connection.{Params, Connection, Page, unreachable}
use convos.User.{
  User, Status, pending, loading, success, failed, Active, notifications_page, live, missing, stale,
  ConnectionParams, ensure_connection, ensure_conversation,
}

-- The answer to `load`: `errors` says whether there are any.
pub record Answer : Type 0 where
  pub errors : Bool
  pub connections : List ConnectionParams
  pub conversations : List (ConnectionParams × Params)
  pub roles : List Text
  pub unread : ℕ
  pub email : Text
  pub uid : Text

abbrev pub is_loading : Status → Bool
is_loading pending = false
is_loading loading = true
is_loading success = false
is_loading failed = false

-- `load()` until its `await`, and whether the request is sent.
unfoldable pub load : User → User × Bool
load u =
    if is_loading u.status then (u, false) else (record u { roles = []; status = loading }, true)

-- `connections.clear()` leaves `activeConversation` as it is: an object that is in no tree any more.
abbrev pub detached : Active → Active
detached notifications_page = notifications_page
detached (live c k) = stale c k
detached (missing c k) = missing c k
detached (stale c k) = stale c k

-- `roles` is a Set.
unfoldable pub add_roles : List Text → List Text → List Text
add_roles [] roles = roles
add_roles (r ∷ more) roles = add_roles more (if contains r roles then roles else roles ++ r ∷ [])
  where
    contains : Text → List Text → Bool
    contains r [] = false
    contains r (s ∷ rest) = text_eq r s || contains r rest

-- `{...conn, status: 'pending'}`
abbrev pub as_pending : ConnectionParams → ConnectionParams
as_pending q = record q { base = record q.base { status = some Conversation.pending } }

module _ (host : Host) (now : ℕ) (page : Page) (l : Text → Text) where
  unfoldable pub ensure_connections : List ConnectionParams → User → User
  unfolding ensure_connection
  ensure_connections [] u = u
  ensure_connections (p ∷ list) u =
      ensure_connections list (ensure_connection host now page l (as_pending p) u)

  -- With `status: 'pending'` in the parameters.
  unfoldable pub ensure_conversations : List (ConnectionParams × Params) → User → Option User
  unfolding ensure_conversation
  ensure_conversations [] u = some u
  ensure_conversations ((q, p) ∷ list) u =
      elim (ensure_conversation host now page l (as_pending q)
        (record p { status = some Conversation.pending }) u) [
          | none ↦ none
          | some v ↦ ensure_conversations list v
        ]

  -- `load()` from its `await`; `none` stands for an exception.
  unfoldable pub loaded : Answer → User → Option User
  unfolding ensure_connections ensure_conversations add_roles
  loaded a u =
      if a.errors
      then some (record u { email = []; status = failed })
      else elim (ensure_conversations a.conversations (
          ensure_connections a.connections
            (record u { connections = []; active = detached u.active }))) [
              | none ↦ none
              | some v ↦ some (record v {
                roles = add_roles a.roles v.roles;
                notifications = record v.notifications { unread = a.unread };
                email = a.email;
                id = a.uid;
                status = success;
              })
            ]

-- The `update({state: 'unreachable'})` of each connection.
unfoldable pub all_unreachable : Dict Text Connection → Dict Text Connection
all_unreachable [] = []
all_unreachable ((id, c) ∷ m) = (id, record c { state = unreachable }) ∷ all_unreachable m

-- `_onConnectionChange(socket)` for a socket that is open, closed, or neither, and whether a request is
-- sent. A user that has an error stays so, and one that is loading goes on waiting.
abbrev pub closed_status : Status → Status
closed_status pending = pending
closed_status loading = loading
closed_status success = pending
closed_status failed = failed

abbrev pub is_pending : Status → Bool
is_pending pending = true
is_pending loading = false
is_pending success = false
is_pending failed = false

unfoldable pub on_connection_change : Bool → Bool → User → User × Bool
unfolding load all_unreachable
on_connection_change is_open is_closed u =
    if is_open && is_pending u.status
    then load u
    else if is_closed
    then (
      record u { connections = all_unreachable u.connections; status = closed_status u.status },
      false,
    )
    else (u, false)
