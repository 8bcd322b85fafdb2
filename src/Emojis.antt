-- ===== src/Emojis.antt =====
-- assets/js/Emojis.js: the table of emojis, the groups by the first letters of the words in their names,
-- and the search. The table is fetched from the server. The keys of an object are those that were set:
-- the names that every object inherits ("constructor") are left out.
pub mod Finding
mod Tests
use convos.Prelude.{
  ℕ, suc, ◌==◌, Bool, true, false, not, ◌&&◌, ◌||◌, Text, codes, text_eq, is_empty, or_text, List,
  [], ◌∷◌, ◌++◌, Option, none, some, get_or, if◌then◌else◌, take, drop, ltb, string_eq,
}
use convos.Prelude.Chars.{is_word, run, cut_at}
use convos.Prelude.Dict
use convos.Prelude.Dict.{Dict, get, set}
use convos.SortedMap
use convos.Autocomplete.{contains}

pub record Emoji : Type 0 where
  pub emoji : Text
  pub shortname : Text
  pub name : Text

abbrev pub Group : Type 0
Group = Dict Text ℕ

pub record Emojis : Type 0 where
  pub by_short_name : Dict Text Emoji
  pub grouped : Dict Text Group

-- `replace(/\W+/, ' ')`, the first one only.
unfoldable pub first_gap_blank : Text → Text
unfolding run is_word
first_gap_blank [] = []
first_gap_blank (c ∷ s) =
    let rest = first_gap_blank s in
    if is_word c then c ∷ rest else b' ' ∷ drop (run (λ d. not (is_word d)) s) s

-- `match(/\W(\w{2})/g)`, each without its first character.
unfoldable pub pairs : Text → List Text
unfolding is_word
pairs [] = []
pairs (c ∷ []) = []
pairs (c ∷ d ∷ []) = []
pairs (c ∷ d ∷ e ∷ s) =
    let next = pairs (d ∷ e ∷ s) in
    let behind = pairs s in
    if not (is_word c) && (is_word d && is_word e) then (d ∷ e ∷ []) ∷ behind else next

-- `grouped[g][shortname] = i`
unfoldable pub join_group : Text → Text → ℕ → Dict Text Group → Dict Text Group
join_group g shortname i grouped = set g (set shortname i (get_or (get g grouped) [])) grouped

module _ (lower : Text → Text) where
  -- The loop of `_toGrouped`, from the index `i`.
  unfoldable pub join_groups : Text → List Text → ℕ → Dict Text Group → Dict Text Group
  unfolding join_group
  join_groups shortname [] i grouped = grouped
  join_groups shortname (pair ∷ list) i grouped =
      join_groups shortname list (suc i)
        (join_group (take 1 (lower pair)) shortname i (join_group (lower pair) shortname i grouped))

  -- `_toGrouped(emoji)`
  unfoldable pub to_grouped : Emoji → Dict Text Group → Dict Text Group
  unfolding join_groups pairs first_gap_blank
  to_grouped e grouped =
      join_groups e.shortname (pairs (first_gap_blank (e.shortname ++ b'-' ∷ e.name))) 0 grouped

  -- The loop of `_load(emojis)`: an entry without an emoji or a short name is left out.
  unfoldable pub load_more : List Emoji → Emojis → Emojis
  unfolding to_grouped
  load_more [] es = es
  load_more (e ∷ list) es =
      let named = record e { name = or_text e.name e.shortname } in
      let more = load_more list (record es {
        by_short_name = set e.shortname named es.by_short_name;
        grouped = to_grouped named es.grouped;
      }) in
      let rest = load_more list es in
      if is_empty e.emoji || is_empty e.shortname then rest else more

  -- `_load(emojis)`
  unfoldable pub load : List Emoji → Emojis → Emojis
  unfolding load_more
  load list es = load_more list (record es { grouped = [] })

  -- The test of the filter.
  unfoldable pub is_match : Text → Emoji → Bool
  unfolding contains
  is_match query e = contains (lower (e.shortname ++ e.name)) query

  -- `map(…)` and `filter(…)`; `none` is the TypeError for a short name that is not in the table.
  unfoldable pub collect : Text → Group → Dict Text Emoji → Option (List Emoji)
  unfolding is_match
  collect query [] table = some []
  collect query ((shortname, i) ∷ group) table = elim (get shortname table) [
    | none ↦ none
    | some e ↦ elim (collect query group table) [
      | none ↦ none
      | some list ↦ some (if is_match query e then e ∷ list else list)
    ]
  ]

  -- The group of a query: that of its text, or of its first two characters.
  unfoldable pub group_of : Text → Dict Text Group → Group
  group_of query grouped = get_or (get query grouped) (get_or (get (take 2 query) grouped) [])

  -- `search(q)`
  unfoldable pub search : Text → Emojis → Option (List Emoji)
  unfolding collect group_of SortedMap.sort
  search q es =
      collect (lower q) (SortedMap.sort (λ i j. ltb j i) (group_of (lower q) es.grouped))
        es.by_short_name
