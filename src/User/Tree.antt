-- ===== src/User/Tree.antt =====
-- assets/store/User.js: the tree of connections, keyed by the ids, and that the listeners keep it so.
use convos.Prelude.{
  List, not, ◌&&◌, Text, text_eq, is_empty, [], ◌∷◌, Option, none, some, string_eq, All, Bool-cases,
  inl, inr,
}
use convos.Prelude.Dict.{Dict, get, set, Distinct, set-Distinct}
use convos.Connection.{Connection, Effect, added, removed, shows}
use convos.Connection.Ensure
use convos.Connection.Ensure.{ensure_conversation_lem}
use convos.SortedMap.Entries.{set-Values}
use convos.User.{
  set_active_conversation, is_shown, User, is_found, has_ids, maybe_upgrade_active_conversation,
  hear,
}

-- The connections are keyed, and so are their conversations.
abbrev pub IsValidEntry : Text × Connection → Type 0
IsValidEntry e = Ensure.IsValid e.1

pub record IsTree (u : User) : Type 0 where
  pub distinct : Distinct u.connections
  pub valid : All IsValidEntry u.connections

abbrev pub IsValidOption : Option Connection → Type 0
IsValidOption none = Unit
IsValidOption (some c) = Ensure.IsValid c

pub valid_at :
    (id : Text) (m : Dict Text Connection) → All IsValidEntry m → IsValidOption (get id m)
unfolding get
valid_at id [] a = tt
valid_at id ((j, d) ∷ m) a = elim (Bool-cases (text_eq j id)) [
  | inl same ↦ rw (same, IsValidOption, get) a.0
  | inr other ↦ rw (other, IsValidOption, get) (valid_at id m a.1)
]

pub set-IsTree :
    (id : Text) (c : Connection) (u : User)
    → IsTree u
    → Ensure.IsValid c
    → IsTree (record u { connections = set id c u.connections })
set-IsTree id c u tree valid = record {
  distinct = set-Distinct id c u.connections tree.distinct;
  valid = set-Values Ensure.IsValid id c u.connections valid tree.valid;
}

pub upgrade-IsTree :
    (c k : Text) (u : User) → IsTree u → IsTree (maybe_upgrade_active_conversation c k u)
unfolding maybe_upgrade_active_conversation
upgrade-IsTree c k u tree = elim (Bool-cases (not (is_empty k) && has_ids c k u.active)) [
  | inl e ↦
      rw (e, maybe_upgrade_active_conversation)
        (record { distinct = tree.distinct; valid = tree.valid })
  | inr e ↦ rw (e, maybe_upgrade_active_conversation) tree
]

pub set_active-IsTree : (c k : Text) (u : User) → IsTree u → IsTree (set_active_conversation c k u)
unfolding set_active_conversation
set_active-IsTree c k u tree = elim (Bool-cases (is_empty c && is_empty k)) [
  | inl e ↦
      rw (e, set_active_conversation) (record { distinct = tree.distinct; valid = tree.valid })
  | inr e ↦ elim (Bool-cases (is_found c k u)) [
    | inl f ↦
        rw (e, f, set_active_conversation) (record { distinct = tree.distinct; valid = tree.valid })
    | inr f ↦
        rw (e, f, set_active_conversation) (record { distinct = tree.distinct; valid = tree.valid })
  ]
]

pub hear-IsTree :
    (id : Text) (effects : List Effect) (u : User) → IsTree u → IsTree (hear id effects u)
unfolding hear
hear-IsTree id [] u tree = tree
hear-IsTree id (added k ∷ effects) u tree = hear-IsTree id effects _ (upgrade-IsTree id k u tree)
hear-IsTree id (removed k ∷ effects) u tree = elim (Bool-cases (is_shown id k u.active)) [
  | inl e ↦ rw (e, hear) (hear-IsTree id effects _ (set_active-IsTree id k u tree))
  | inr e ↦ rw (e, hear) (hear-IsTree id effects u tree)
]
hear-IsTree id (shows reason title ∷ effects) u tree = hear-IsTree id effects u tree
