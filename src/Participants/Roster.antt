-- ===== src/Participants/Roster.antt =====
-- The list that is shown: by group, then by nick.
use convos.Prelude.{
  ◌≡◌, ◌≤◌, false, Text, List, [], ◌∷◌, get_or, refl, true, some, is_some, arith, All,
}
use mathlib.Core.List.{Perm}
use mathlib.Core.List.Perm
use convos.Prelude.Dict
use convos.Prelude.Dict.{Dict}
use convos.Host.{Host, IsCollation}
use convos.SortedMap.{IsConsistent}
use convos.SortedMap.Order.{IsSorted, sort-IsSorted, sort-perm}
use convos.Participants.{Participant, Participants, after, is_free_of, is_sortable, to_array}

named-is_free_of :
    (p : Participant) (ps : List Participant)
    → is_some p.nick ≡ true
    → All (λ q. is_some q.nick ≡ true) ps
    → is_free_of p ps ≡ true
unfolding is_free_of
named-is_free_of p [] h a = refl
named-is_free_of p (q ∷ ps) h a = ground (arith, h, a.0, named-is_free_of p ps h a.1)

named-is_sortable :
    (ps : List Participant) → All (λ q. is_some q.nick ≡ true) ps → is_sortable ps ≡ true
unfolding is_sortable
named-is_sortable [] a = refl
named-is_sortable (p ∷ ps) a =
    ground (arith, named-is_free_of p ps a.0 a.1, named-is_sortable ps a.1)

module _ (host : Host) where
  after-IsConsistent : IsCollation host.locale_gt → IsConsistent (after host)
  unfolding after
  after-IsConsistent c = record {
    asym = λ a b h. ground (arith, c.asym (get_or a.nick []) (get_or b.nick []));
    trans = λ p q r h k.
        ground (arith, c.trans (get_or p.nick []) (get_or q.nick []) (get_or r.nick []));
  }

  -- Groups fall along the list, and in one group no nick comes before one that it sorts after.
  abbrev pub IsListed : List Participant → Type 0
  IsListed [] = Unit
  IsListed (p ∷ ps) =
      All
        (λ q.
          (q.group ≤ p.group)
          × (q.group ≡ p.group → host.locale_gt (get_or p.nick []) (get_or q.nick []) ≡ false))
        ps
      × IsListed ps

  listed_entry :
      (p : Text × Participant) (m : Participants)
      → All (λ q. after host p.1 q.1 ≡ false) m
      → All
          (λ q.
            (q.group ≤ p.1.group)
            × (q.group ≡ p.1.group
                → host.locale_gt (get_or p.1.nick []) (get_or q.nick []) ≡ false))
          (Dict.values m)
  unfolding after
  listed_entry p [] a = tt
  listed_entry p ((i, q) ∷ m) a =
      ((ground (arith, a.0), λ e. ground (arith, a.0)), listed_entry p m a.1)

  sorted-IsListed : (m : Participants) → IsSorted (after host) m → IsListed (Dict.values m)
  sorted-IsListed [] s = tt
  sorted-IsListed (p ∷ m) s = (listed_entry p m s.0, sorted-IsListed m s.1)

  -- With a consistent collation, and when every participant has a nick, `toArray` does not throw: it
  -- lists every participant once, the higher groups first, and by nick in each group.
  pub to_array-IsListed :
      IsCollation host.locale_gt
      → (ps : Participants) → All (λ p. is_some p.nick ≡ true) (Dict.values ps)
      → (list : List Participant) × (to_array host ps ≡ some list)
        × IsListed list
        × Perm list (Dict.values ps)
  unfolding to_array
  to_array-IsListed c ps named = (
    _,
    rw (named-is_sortable (Dict.values ps) named, to_array) refl,
    sorted-IsListed _ (sort-IsSorted (after host) (after-IsConsistent c) ps),
    Perm.map (λ e. e.1) (sort-perm (after host) ps),
  )
