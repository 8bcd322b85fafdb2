-- ===== src/Participants.antt =====
-- assets/store/Participants.js: the people in a conversation, a `Map` from the lower case nick to the
-- participant. The color is a text that nothing reads back; other fields of the server's message
-- that the code never looks at are left out.
pub mod Group
pub mod Keys
pub mod Rename
pub mod Roster
mod Tests
use convos.Prelude.{
  ℕ, ◌==◌, ◌≡◌, Bool, true, false, ◌||◌, ◌&&◌, not, Text, List, [], ◌∷◌, Option, none, some, get_or,
  is_some, is_empty, or_text, string_eq, ap, map, find, if◌then◌else◌, ltb, codes,
}
use convos.Prelude.Dict
use convos.Prelude.Dict.{Dict, get, set, delete, has}
use convos.Constants.{user_mode_char_to_mode_name}
use convos.Host.{Host}
use convos.SortedMap
use convos.Util.Modes.{calculate_modes}
use convos.Util.Color.{str2color}

-- `nick` is undefined for a stored participant that came with neither a nick nor a name.
pub record Participant : Type 0 where
  pub id : Text
  pub nick : Option Text
  pub name : Option Text
  pub color : Text
  pub mode : Option Text
  pub modes : Dict Text Bool
  pub group : ℕ
  pub me : Bool

abbrev pub Participants : Type 0
Participants = Dict Text Participant

-- `{nick}`, to which the callers add fields.
abbrev pub named : Text → Participant
named nick = record {
  id = [];
  nick = some nick;
  name = none;
  color = [];
  mode = none;
  modes = [];
  group = 0;
  me = false;
}

-- `participant.modes[name]`
abbrev pub flag : Dict Text Bool → Text → Bool
flag modes name = get_or (get name modes) false

-- The heading in the list: Founders 7 down to Members 0.
unfoldable pub group_of : Dict Text Bool → ℕ
group_of m =
    if flag m (codes "founder")
    then 7
    else if flag m (codes "admin")
    then 6
    else if flag m (codes "operator")
    then 5
    else if flag m (codes "half_operator")
    then 4
    else if flag m (codes "voice")
    then 3
    else if flag m (codes "bot")
    then 2
    else if flag m (codes "service_bot")
    then 1
    else 0

-- `a || b` on values that may be undefined.
abbrev pub or_option : Option Text → Option Text → Option Text
or_option none b = b
or_option (some []) b = b
or_option (some (c ∷ s)) b = some (c ∷ s)

-- Whether `a` is true: neither undefined nor the empty text.
abbrev pub is_true : Option Text → Bool
is_true none = false
is_true (some nick) = not (is_empty nick)

-- `Object.keys(existing).forEach(k => participant[k] || (participant[k] = existing[k]))`; an object,
-- so `modes` too, is true.
unfoldable pub keep_existing : Participant → Participant → Participant
keep_existing p old = record {
  id = or_text p.id old.id;
  nick = or_option p.nick old.nick;
  name = or_option p.name old.name;
  color = or_text p.color old.color;
  mode = or_option p.mode old.mode;
  modes = p.modes;
  group = if p.group == 0 then old.group else p.group;
  me = p.me || old.me;
}

abbrev merge : Participant → Option Participant → Participant
merge p none = p
merge p (some old) = keep_existing p old

-- `if (!participant.nick) participant.nick = participant.name`
abbrev name_for_nick : Participant → Participant
name_for_nick p = record p { nick = or_option p.nick p.name }

-- `_defaultParticipant()`
abbrev pub default_participant : Participant
default_participant = record (named []) { color = codes "#000000" }

-- `delete existing.id; existing.nick = newNick`
abbrev pub renamed : Participant → Text → Participant
renamed existing new_nick = record existing { id = []; nick = some new_nick }

-- Comparing the two may throw: in one group the nicks decide, and `a.nick` may be undefined.
abbrev pub clashes : Participant → Participant → Bool
clashes p q = p.group == q.group && not (is_some p.nick && is_some q.nick)

unfoldable pub is_free_of : Participant → List Participant → Bool
is_free_of p [] = true
is_free_of p (q ∷ ps) = not (clashes p q) && is_free_of p ps

-- No two of the participants clash.
unfoldable pub is_sortable : List Participant → Bool
unfolding is_free_of
is_sortable [] = true
is_sortable (p ∷ ps) = is_free_of p ps && is_sortable ps

module _ (host : Host) where
  -- `_id(nick)`
  abbrev pub id_of : Text → Text
  id_of nick = host.to_lower_case nick

  -- The fields that `add` works out from the nick and the mode string.
  unfoldable pub with_group : Participant → Text → Participant
  unfolding group_of
  with_group p nick = record p {
    id = id_of nick;
    color = str2color host (id_of nick) 100;
    modes = elim p.mode [ none ↦ [] | some s ↦ calculate_modes user_mode_char_to_mode_name s ];
    group = elim p.mode [
      | none ↦ 0
      | some s ↦ group_of (calculate_modes user_mode_char_to_mode_name s)
    ];
  }

  -- What is stored under the id.
  unfoldable pub added : Participants → Participant → Text → Participant
  unfolding with_group keep_existing
  added ps p nick = name_for_nick (merge (with_group p nick) (get (id_of nick) ps))

  store : Participants → Participant → Option Text → Option Participants
  unfolding added
  store ps p none = none
  store ps p (some nick) = some (set (id_of nick) (added ps p nick) ps)

  -- `add(participant)` of one participant. `none` is the TypeError of `_id(undefined)`.
  unfoldable pub add : Participants → Participant → Option Participants
  unfolding store
  add ps p = store ps p p.nick

  -- A participant with a nick is stored under its id.
  pub add-some :
      (ps : Participants) (p : Participant) (nick : Text)
      → p.nick ≡ some nick
      → add ps p ≡ some (set (id_of nick) (added ps p nick) ps)
  unfolding add
  add-some ps p nick e = ap (store ps p) e

  -- `add(participant)` of an array.
  unfoldable pub add_all : Participants → List Participant → Option Participants
  unfolding add
  add_all ps [] = some ps
  add_all ps (p ∷ rest) = elim (add ps p) [ none ↦ none | some qs ↦ add_all qs rest ]

  -- `get(nick)`, `has(nick)`, `delete(nick)`
  abbrev pub get_nick : Participants → Text → Option Participant
  get_nick ps nick = get (id_of nick) ps

  abbrev pub has_nick : Participants → Text → Bool
  has_nick ps nick = has (id_of nick) ps

  unfoldable pub delete_nick : Participants → Text → Participants
  delete_nick ps nick = delete (id_of nick) ps

  -- `rename(oldNick, newNick)`
  unfoldable pub rename : Participants → Text → Text → Option Participants
  unfolding add delete_nick
  rename ps old_nick new_nick =
      let existing = get_or (get_nick ps old_nick) (named new_nick) in
      add (delete_nick ps old_nick) (renamed existing new_nick)

  -- `me()`
  unfoldable pub me : Participants → Participant
  me ps = get_or (find (λ p. p.me) (Dict.values ps)) default_participant

  -- `clear()`
  unfoldable pub clear : Participants → Option Participants
  unfolding me add
  clear ps = add [] (me ps)

  -- `nicks()`
  unfoldable pub nicks : Participants → List (Option Text)
  nicks ps = map (λ p. p.nick) (Dict.values ps)

  -- `b.group - a.group || a.nick.localeCompare(b.nick)`, positive, for two participants who do not
  -- clash.
  unfoldable pub after : Participant → Participant → Bool
  after a b =
      if a.group == b.group
      then host.locale_gt (get_or a.nick []) (get_or b.nick [])
      else ltb a.group b.group

  -- `toArray()`. The engine of the browser chooses which pairs are compared, and in which order; `none`
  -- is the TypeError, here whenever there are two participants who clash.
  unfoldable pub to_array : Participants → Option (List Participant)
  unfolding after is_sortable
  to_array ps =
      if is_sortable (Dict.values ps) then some (Dict.values (SortedMap.sort after ps)) else none
