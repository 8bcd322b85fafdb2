-- ===== src/Emojis/Finding.antt =====
-- The groups and the table belong together, so that a search never fails.
use convos.Prelude.{
  ℕ, suc, ◌≡◌, refl, true, ◌||◌, Text, text_eq, text_eq_refl, is_empty, or_text, List, [], ◌∷◌,
  ◌++◌, Option, none, some, is_some, get_or, if◌then◌else◌, take, ltb, string_eq, All, arith,
  Bool-cases, Option-cases, inl, inr, subst,
}
use convos.Prelude.Dict.{Dict, get, set, get-set}
use convos.SortedMap
use convos.Emojis.{
  Emoji, Group, Emojis, first_gap_blank, pairs, join_group, join_groups, to_grouped, load_more,
  load, is_match, collect, group_of, search,
}

-- Every short name of a group is in the table.
abbrev IsIn : Dict Text Emoji → Text × ℕ → Type 0
IsIn table e = is_some (get e.0 table) ≡ true

abbrev IsInGroup : Dict Text Emoji → Text × Group → Type 0
IsInGroup table g = All (IsIn table) g.1

abbrev pub IsComplete : Emojis → Type 0
IsComplete es = All (IsInGroup es.by_short_name) es.grouped

All-insert :
    (table : Dict Text Emoji) (k : Text) (i : ℕ) (g : Group)
    → is_some (get k table) ≡ true
    → All (IsIn table) g
    → All (IsIn table) (SortedMap.insert (λ i j. ltb j i) (k, i) g)
unfolding SortedMap.insert
All-insert table k i [] e a = (e, tt)
All-insert table k i ((j, n) ∷ g) e a = ground (arith, All-insert table k i g e a.1)

All-sort :
    (table : Dict Text Emoji) (g : Group)
    → All (IsIn table) g
    → All (IsIn table) (SortedMap.sort (λ i j. ltb j i) g)
unfolding SortedMap.sort
All-sort table [] a = tt
All-sort table ((j, n) ∷ g) a =
    All-insert table j n (SortedMap.sort (λ i j. ltb j i) g) a.0 (All-sort table g a.1)

module _ (lower : Text → Text) where
  abbrev IsCollected : Text → Option (List Emoji) → Type 0
  IsCollected query none = ⊥
  IsCollected query (some list) = All (λ e. is_match lower query e ≡ true) list

  collect-IsCollected :
      (query : Text) (g : Group) (table : Dict Text Emoji)
      → All (IsIn table) g
      → IsCollected query (collect lower query g table)
  unfolding collect
  collect-IsCollected query [] table a = tt
  collect-IsCollected query ((k, i) ∷ g) table a =
      from (get k table) a.0 (collect lower query g table) (collect-IsCollected query g table a.1)
    where
      from :
          (o : Option Emoji)
          → is_some o ≡ true
          → (r : Option (List Emoji)) → IsCollected query r
          → IsCollected query (elim o [
            | none ↦ none
            | some e ↦ elim r [
              | none ↦ none
              | some list ↦ some (if is_match lower query e then e ∷ list else list)
            ]
          ])
      from none h r c = cc
      from (some e) h none c = c
      from (some e) h (some list) c = elim (Bool-cases (is_match lower query e)) [
        | inl m ↦ rw (m, IsCollected) (m, c)
        | inr m ↦ rw (m, IsCollected) c
      ]

grown :
    (k : Text) (v : Emoji) (table : Dict Text Emoji) (e : Text × ℕ)
    → IsIn table e
    → IsIn (set k v table) e
grown k v table e h =
    rw (get-set e.0 k v table)
      (elim (Bool-cases (text_eq k e.0)) [ inl same ↦ rw same refl | inr other ↦ rw other h ])

All-grown :
    (k : Text) (v : Emoji) (table : Dict Text Emoji) (g : Group)
    → All (IsIn table) g
    → All (IsIn (set k v table)) g
All-grown k v table [] a = tt
All-grown k v table (e ∷ g) a = (grown k v table e a.0, All-grown k v table g a.1)

groups_grown :
    (k : Text) (v : Emoji) (table : Dict Text Emoji) (grouped : Dict Text Group)
    → All (IsInGroup table) grouped
    → All (IsInGroup (set k v table)) grouped
groups_grown k v table [] a = tt
groups_grown k v table ((g, members) ∷ grouped) a =
    (All-grown k v table members a.0, groups_grown k v table grouped a.1)

All-member :
    (table : Dict Text Emoji) (k : Text) (i : ℕ) (g : Group)
    → is_some (get k table) ≡ true
    → All (IsIn table) g
    → All (IsIn table) (set k i g)
unfolding set
All-member table k i [] e a = (e, tt)
All-member table k i ((j, n) ∷ g) e a = ground (arith, All-member table k i g e a.1)

All-group :
    (table : Dict Text Emoji) (name : Text) (g : Group) (grouped : Dict Text Group)
    → All (IsIn table) g
    → All (IsInGroup table) grouped
    → All (IsInGroup table) (set name g grouped)
unfolding set
All-group table name g [] e a = (e, tt)
All-group table name g ((j, h) ∷ grouped) e a = elim (Bool-cases (text_eq j name)) [
  | inl same ↦ rw (same, set) (e, a.1)
  | inr other ↦ rw (other, set) (a.0, All-group table name g grouped e a.1)
]

got_group :
    (table : Dict Text Emoji) (name : Text) (grouped : Dict Text Group)
    → All (IsInGroup table) grouped
    → All (IsIn table) (get_or (get name grouped) [])
unfolding get
got_group table name [] a = tt
got_group table name ((j, h) ∷ grouped) a = elim (Bool-cases (text_eq j name)) [
  | inl same ↦ rw (same, get) a.0
  | inr other ↦ rw (other, get) (got_group table name grouped a.1)
]

join_group-All :
    (table : Dict Text Emoji) (name shortname : Text) (i : ℕ) (grouped : Dict Text Group)
    → is_some (get shortname table) ≡ true
    → All (IsInGroup table) grouped
    → All (IsInGroup table) (join_group name shortname i grouped)
unfolding join_group
join_group-All table name shortname i grouped e a =
    All-group table name (set shortname i (get_or (get name grouped) [])) grouped
      (All-member table shortname i (get_or (get name grouped) []) e
        (got_group table name grouped a))
      a

module _ (lower : Text → Text) where
  join_groups-All :
      (table : Dict Text Emoji) (shortname : Text) (list : List Text) (i : ℕ)
      (grouped : Dict Text Group)
      → is_some (get shortname table) ≡ true
      → All (IsInGroup table) grouped
      → All (IsInGroup table) (join_groups lower shortname list i grouped)
  unfolding join_groups
  join_groups-All table shortname [] i grouped e a = a
  join_groups-All table shortname (pair ∷ list) i grouped e a =
      join_groups-All table shortname list (suc i) _ e (
        join_group-All table (take 1 (lower pair)) shortname i _ e
          (join_group-All table (lower pair) shortname i grouped e a))

  load_more-IsComplete :
      (list : List Emoji) (es : Emojis) → IsComplete es → IsComplete (load_more lower list es)
  unfolding load_more to_grouped
  load_more-IsComplete [] es a = a
  load_more-IsComplete (e ∷ list) es a =
      elim (Bool-cases (is_empty e.emoji || is_empty e.shortname)) [
        | inl left_out ↦ rw (left_out, load_more) (load_more-IsComplete list es a)
        | inr taken ↦
            let named = record e { name = or_text e.name e.shortname } in
            let table = set e.shortname named es.by_short_name in
            rw (taken, load_more)
              (load_more-IsComplete list
                (record es { by_short_name = table; grouped = to_grouped lower named es.grouped })
                (join_groups-All table e.shortname
                  (pairs (first_gap_blank (e.shortname ++ b'-' ∷ named.name))) 0 es.grouped
                  (rw
                    (
                      get-set e.shortname e.shortname named es.by_short_name,
                      text_eq_refl e.shortname,
                    )
                    refl)
                  (groups_grown e.shortname named es.by_short_name es.grouped a)))
      ]

  group_of-All :
      (table : Dict Text Emoji) (query : Text) (grouped : Dict Text Group)
      → All (IsInGroup table) grouped
      → All (IsIn table) (group_of lower query grouped)
  unfolding group_of
  group_of-All table query grouped a = elim (Option-cases (get query grouped)) [
    | inl e ↦ rw (e, group_of) (got_group table (take 2 query) grouped a)
    | inr (g, e) ↦
        rw (e, group_of)
          (subst (λ o. All (IsIn table) (get_or o [])) e (got_group table query grouped a))
  ]

  IsCollected-some :
      (query : Text) (r : Option (List Emoji))
      → IsCollected lower query r
      → (found : List Emoji) × (r ≡ some found) × All (λ e. is_match lower query e ≡ true) found
  IsCollected-some query none h = elim h [ ]
  IsCollected-some query (some list) h = (list, refl, h)

  -- After `_load(emojis)` of any list, whatever was loaded before, a search never throws, and every emoji
  -- that it gives has the query, in lower case, in its names.
  pub search-load :
      (list : List Emoji) (es : Emojis) (q : Text)
      → (found : List Emoji) × (search lower q (load lower list es) ≡ some found)
        × All (λ e. is_match lower (lower q) e ≡ true) found
  unfolding search load group_of
  search-load list es q =
      let fresh = load lower list es in
      let complete = load_more-IsComplete list (record es { grouped = [] }) tt in
      IsCollected-some (lower q) _ (
        collect-IsCollected lower (lower q)
          (SortedMap.sort (λ i j. ltb j i) (group_of lower (lower q) fresh.grouped))
          fresh.by_short_name
          (All-sort fresh.by_short_name (group_of lower (lower q) fresh.grouped)
            (group_of-All fresh.by_short_name (lower q) fresh.grouped complete)))
