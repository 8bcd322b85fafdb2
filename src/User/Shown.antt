-- ===== src/User/Shown.antt =====
-- An object of the tree of connections that the page shows is in the tree.
use convos.Prelude.{
  ◌≡◌, refl, ap, ◌∙◌, sym, true, not, ◌&&◌, Text, text_eq, text_eq_sound, is_empty, List, [], ◌∷◌,
  ◌++◌, some, is_some, if◌then◌else◌, string_eq, Bool-cases, inl, inr, length, drop,
}
use convos.Prelude.Dict.{Dict, get, set, get-set}
use convos.Connection
use convos.Connection.{Params, Page, Effect, added, shows, find_conversation}
use convos.User.{
  User, Active, notifications_page, live, missing, stale, find_in, is_found, has_ids,
  set_active_conversation, maybe_upgrade_active_conversation,
}

-- What is shown as an object of the tree is one that `findConversation` finds.
abbrev pub IsFound : Active → User → Type 0
IsFound notifications_page u = Unit
IsFound (live c k) u = is_found c k u ≡ true
IsFound (missing c k) u = Unit
IsFound (stale c k) u = Unit

abbrev pub IsShowing : User → Type 0
IsShowing u = IsFound u.active u

pub set_active_conversation-IsShowing :
    (c k : Text) (u : User) → IsShowing (set_active_conversation c k u)
unfolding set_active_conversation is_found find_in
set_active_conversation-IsShowing c k u = elim (Bool-cases (is_empty c && is_empty k)) [
  | inl e ↦ rw (e, IsFound, set_active_conversation) tt
  | inr e ↦ elim (Bool-cases (is_found c k u)) [
    | inl f ↦ rw (e, f, IsFound, set_active_conversation) f
    | inr f ↦ rw (e, f, IsFound, set_active_conversation) tt
  ]
]

pub found_after :
    (id c k : Text) (d : Connection.Connection) (m : Dict Text Connection.Connection) (u : User)
    → get c m ≡ (if text_eq id c then some d else get c u.connections)
    → is_found c k (record u { connections = m }) ≡ (
        if text_eq id c
        then (if is_empty k then true else is_some (find_conversation k d))
        else is_found c k u)
unfolding is_found find_in
found_after id c k d m u looked =
    rw (looked, is_found, find_in)
      (elim (Bool-cases (text_eq id c)) [ inl e ↦ rw e refl | inr e ↦ rw e refl ])

pub found-set :
    (id c k : Text) (d : Connection.Connection) (u : User)
    → is_found c k (record u { connections = set id d u.connections }) ≡ (
        if text_eq id c
        then (if is_empty k then true else is_some (find_conversation k d))
        else is_found c k u)
found-set id c k d u =
    found_after id c k d (set id d u.connections) u (get-set c id d u.connections)

pub drop-append : (a b : List Effect) → drop (length a) (a ++ b) ≡ b
drop-append [] b = refl
drop-append (x ∷ a) b = drop-append a b

-- What is found stays found when the tree is replaced by another one.
abbrev pub Keeps : User → User → Type 0
Keeps u v = (c k : Text) → is_found c k u ≡ true → is_found c k v ≡ true

pub shown_still : (a : Active) (u v : User) → Keeps u v → IsFound a u → IsFound a v
shown_still notifications_page u v keeps h = tt
shown_still (live c k) u v keeps h = keeps c k h
shown_still (missing c k) u v keeps h = tt
shown_still (stale c k) u v keeps h = tt

pub maybe_upgrade-IsShowing :
    (c k : Text) (u : User)
    → is_found c k u ≡ true
    → IsShowing u
    → IsShowing (maybe_upgrade_active_conversation c k u)
unfolding maybe_upgrade_active_conversation is_found find_in
maybe_upgrade-IsShowing c k u found h =
    elim (Bool-cases (not (is_empty k) && has_ids c k u.active)) [
      | inl e ↦ rw (e, IsFound, maybe_upgrade_active_conversation) found
      | inr e ↦ rw (e, IsFound, maybe_upgrade_active_conversation) h
    ]

-- Lookups in a connection that is there.
pub found_in :
    (id i j : Text) (c : Connection.Connection) (u : User)
    → get id u.connections ≡ some c
    → text_eq id i ≡ true
    → is_found i j u ≡ (if is_empty j then true else is_some (find_conversation j c))
unfolding is_found find_in
found_in id i j c u there same =
    let e = ap (λ t. get t u.connections) (sym (text_eq_sound id i same)) ∙ there in
    rw (e, is_found, find_in) refl
