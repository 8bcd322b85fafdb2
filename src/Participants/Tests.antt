-- ===== src/Participants/Tests.antt =====
-- The theorems on participants at a small channel, in a browser that knows ASCII only.
use convos.Prelude.{
  List, ◌≡◌, refl, codes, text_eq, [], ◌∷◌, none, some, true, false, ◌||◌, get_or, string_eq,
}
use mathlib.Core.List.{Perm}
use convos.Prelude.Dict
use convos.Prelude.Dict.{get}
use convos.Constants.{user_mode_char_to_mode_name}
use convos.Host.{ascii_host, ascii-IsCollation}
use convos.Participants.{
  Participant, Participants, named, added, add, add_all, get_nick, rename, to_array, group_of,
}
use convos.Participants.Keys.{IsKeyed, add-IsKeyed}
use convos.Participants.Rename.{rename_lem}
use convos.Participants.Roster.{IsListed, to_array-IsListed}
use convos.Util.Modes.{calculate_modes}

abbrev operator : Participant
operator = record (named (codes "Ada")) { mode = some (codes "o") }

abbrev myself : Participant
myself = record (named (codes "bob")) { me = true }

abbrev channel : Participants
channel = get_or (add_all ascii_host [] (operator ∷ myself ∷ [])) []

abbrev demoted : Participant
demoted = record (named (codes "ada")) { mode = some (codes "-o") }

abbrev stored_ada : Participant
stored_ada = added ascii_host [] operator (codes "Ada")

abbrev stored_bob : Participant
stored_bob = record myself {
  id = codes "bob";
  color = (added ascii_host [] myself (codes "bob")).color;
}

empty-IsKeyed : IsKeyed ascii_host []
empty-IsKeyed = record { distinct = tt; own = tt }

add-IsKeyed_example :
    (qs : Participants) × (add ascii_host [] operator ≡ some qs) × IsKeyed ascii_host qs
add-IsKeyed_example = add-IsKeyed ascii_host [] operator (codes "Ada") refl empty-IsKeyed

channel-IsKeyed : IsKeyed ascii_host channel
unfolding add_all get Dict.set text_eq
channel-IsKeyed = record { distinct = (refl, (refl, tt)); own = (refl, (refl, tt)) }

rename_lem_example :
    (qs : Participants) × (q : Participant) × (rename ascii_host channel (codes "bob") (codes "eve")
      ≡ some qs)
    × (get_nick ascii_host qs (codes "eve") ≡ some q)
    × (q.nick ≡ some (codes "eve"))
    × (q.me ≡ (elim (get_nick ascii_host channel (codes "eve")) [
      | none ↦ true
      | some r ↦ true || r.me
    ]))
    × (get_nick ascii_host qs (codes "bob") ≡ none)
    × (text_eq (codes "eve") (codes "ada") ≡ false
        → text_eq (codes "bob") (codes "ada") ≡ false
        → get_nick ascii_host qs (codes "ada") ≡ get_nick ascii_host channel (codes "ada"))
unfolding add_all get text_eq Dict.set
rename_lem_example =
    rename_lem ascii_host channel stored_bob (codes "bob") b'e' (codes "ve") (codes "ada") refl refl

to_array-IsListed_example :
    (list : List Participant) × (to_array ascii_host channel ≡ some list)
    × IsListed ascii_host list
    × Perm list (Dict.values channel)
unfolding add_all Dict.set text_eq get
to_array-IsListed_example =
    to_array-IsListed ascii_host ascii-IsCollation channel (refl, (refl, tt))

operator_group : group_of (calculate_modes user_mode_char_to_mode_name (codes "o")) ≡ 5
unfolding group_of calculate_modes user_mode_char_to_mode_name get Dict.set text_eq
operator_group = refl
