-- ===== src/User/Loaded.antt =====
-- assets/store/User.js: `load` after its answer: the tree is built again under the page.
use convos.Prelude.{false, string_eq, ◌≡◌, All}
use convos.Host.{Host}
use convos.Conversation
use convos.Connection.{Params}
use convos.Connection.Ensure
use convos.User.{User, ConnectionParams}
use convos.User.Shown.{IsShowing}
use convos.User.Tree.{IsTree}
use convos.User.Settled.{is_left}
use convos.User.Loading.{Answer}

-- The new connections of an answer begin with keyed maps.
abbrev pub IsFresh : ConnectionParams → Type 0
IsFresh q = Ensure.IsValid q.fresh

pub record IsAnswer (a : Answer) : Type 0 where
  pub connections : All IsFresh a.connections
  pub conversations : All (λ (c : ConnectionParams × Params). IsFresh c.0) a.conversations

-- The page does not show an object outside the tree with the ids of this conversation.
abbrev pub IsSettled : User → ConnectionParams × Params → Type 0
IsSettled u (q, p) = is_left q.connection_id p.conversation_id u.active ≡ false

-- The user is in order.
pub record IsGood (u : User) : Type 0 where
  pub tree : IsTree u
  pub showing : IsShowing u
