-- ===== src/Participants/Group.antt =====
-- The heading that a participant is listed under.
use convos.Prelude.{◌≡◌, refl, Text, none, some, arith, string_eq}
use convos.Prelude.Dict.{set, get-set_self}
use convos.Constants.{user_mode_char_to_mode_name}
use convos.Host.{Host}
use convos.Participants.{
  Participant, Participants, group_of, keep_existing, id_of, with_group, added, add, add-some,
  get_nick,
}
use convos.Util.Modes.{calculate_modes}

module _ (host : Host) where
  -- A participant that is new in the list is stored under the group of its mode string, and
  -- without a mode string under group 0.
  pub group-add_new :
      (ps : Participants) (p : Participant) (nick : Text)
      → p.nick ≡ some nick
      → get_nick host ps nick ≡ none
      → (qs : Participants) × (q : Participant) × (add host ps p ≡ some qs)
        × (get_nick host qs nick ≡ some q)
        × (q.group ≡ elim p.mode [
          | none ↦ 0
          | some s ↦ group_of (calculate_modes user_mode_char_to_mode_name s)
        ])
  unfolding added with_group
  group-add_new ps p nick e new = (
    set (id_of host nick) (added host ps p nick) ps,
    added host ps p nick,
    add-some host ps p nick e,
    get-set_self (id_of host nick) _ ps,
    rw new,
  )

  -- A mode change to group 0 does not show: whoever is listed under a heading and is added again
  -- with a mode string that grants none, as "-o" does, or with no mode string, has the flags of
  -- that string, and stays under the old heading.
  pub group-add_demoted :
      (ps : Participants) (p old : Participant) (nick : Text)
      → p.nick ≡ some nick
      → get_nick host ps nick ≡ some old
      → (with_group host p nick).group ≡ 0
      → (qs : Participants) × (q : Participant) × (add host ps p ≡ some qs)
        × (get_nick host qs nick ≡ some q)
        × (q.modes ≡ (with_group host p nick).modes)
        × (q.group ≡ old.group)
  unfolding added keep_existing
  group-add_demoted ps p old nick e there zero_group = (
    set (id_of host nick) (added host ps p nick) ps,
    added host ps p nick,
    add-some host ps p nick e,
    get-set_self (id_of host nick) _ ps,
    rw there refl,
    ground arith,
  )
