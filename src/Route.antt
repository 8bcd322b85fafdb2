-- ===== src/Route.antt =====
-- assets/store/Route.js: where the application is, and the last ten places where it was. Clicks
-- are not modelled.
pub mod History
pub mod Go
pub mod Url
pub mod Parts
mod Tests
use convos.Prelude.{
  ℕ, ◌==◌, ◌≡◌, Bool, true, false, not, ◌&&◌, Text, text_eq, starts_with, List, [], ◌∷◌, ◌++◌,
  Option, none, some, get_or, length, drop, filter, map, ltb, leb, if◌then◌else◌,
}

-- `location` and `entries` are the browser's: the address, and its stack of addresses, newest first.
-- `query` is the text behind a single "?", which the qs library parses.
pub record Route : Type 0 where
  pub base_url : Text
  pub enabled : Bool
  pub history : List Text
  pub location : Text
  pub entries : List Text
  pub path : Text
  pub path_parts : List Text
  pub query : Option Text

-- `url.indexOf(this.baseUrl) === 0 ? url.substring(this.baseUrl.length) : url`
unfoldable pub without_base : Text → Text → Text
without_base base url = if starts_with url base then drop (length base) url else url

-- `history.filter(i => i !== url)`
unfoldable pub others : Text → List Text → List Text
others url history = filter (λ i. not (text_eq i url)) history

-- `while (history.length > 10) history.shift()`
unfoldable pub trim : List Text → List Text
trim [] = []
trim (x ∷ xs) = if ltb 10 (length (x ∷ xs)) then trim xs else x ∷ xs

-- `_addToHistory(url)`
unfoldable pub add_to_history : Text → Route → Route
unfolding without_base others trim
add_to_history url r =
    let short = without_base r.base_url url in
    record r { history = trim (others short r.history ++ short ∷ []) }

-- `removeFromHistory(url)`
unfoldable pub remove_from_history : Text → Route → Route
unfolding without_base others
remove_from_history url r = record r { history = others (without_base r.base_url url) r.history }

-- `s.split(c)[0]`, and what follows the first `c`, if there is one.
unfoldable pub before : ℕ → Text → Text
before c [] = []
before c (x ∷ s) = let rest = before c s in if x == c then [] else x ∷ rest

unfoldable pub behind : ℕ → Text → Option Text
behind c [] = none
behind c (x ∷ s) = let rest = behind c s in if x == c then some s else rest

abbrev extend : ℕ → List Text → List Text
extend x [] = (x ∷ []) ∷ []
extend x (part ∷ parts) = (x ∷ part) ∷ parts

-- `s.split(c)`
unfoldable pub split : ℕ → Text → List Text
split c [] = [] ∷ []
split c (x ∷ s) = let rest = split c s in if x == c then [] ∷ rest else extend x rest

-- `url.length === 2 ? url.pop() : …` for `url` split at "?".
unfoldable pub query_of : Text → Option Text
unfolding behind
query_of url = elim (behind b'?' url) [
  | none ↦ none
  | some q ↦ elim (behind b'?' q) [ none ↦ some q | some more ↦ none ]
]

-- `url[0].replace(/^\//, '')`
abbrev pub without_slash : Text → Text
without_slash [] = []
without_slash (c ∷ s) = if c == b'/' then s else c ∷ s

-- `pushState` and `replaceState`
abbrev pub visit : Bool → Text → Route → Route
visit replace url r = record r {
  location = url;
  entries = if replace then url ∷ drop 1 r.entries else url ∷ r.entries;
}

-- `decodeURIComponent` gives `none` for its URIError, on an escape that is malformed.
module _ (decode_uri_component : Text → Option Text) where
  -- `parts.map(decodeURIComponent)`
  unfoldable pub all_decoded : List Text → Option (List Text)
  all_decoded [] = some []
  all_decoded (part ∷ parts) = elim (decode_uri_component part) [
    | none ↦ none
    | some text ↦ elim (all_decoded parts) [ none ↦ none | some texts ↦ some (text ∷ texts) ]
  ]

  unfoldable pub parts_of : Text → Option (List Text)
  unfolding split all_decoded
  parts_of path =
      if leb (length path) 1 then some [] else all_decoded (split b'/' (without_slash path))

  -- `_onLocationChange()`. An exception of the decoding leaves the parts as they were; the history, the
  -- query and the path are set by then.
  unfoldable pub on_location_change : Route → Route
  unfolding add_to_history before query_of parts_of
  on_location_change r =
      let url = before b'#' (drop (length r.base_url) r.location) in
      let path = before b'?' url in
      if not r.enabled then r else record (add_to_history r.location r) {
        query = query_of url;
        path = path;
        path_parts = get_or (parts_of path) r.path_parts;
      }

  -- `go(path, {replace})`
  unfoldable pub go : Text → Bool → Route → Route
  unfolding on_location_change without_base add_to_history
  go path replace r =
      let url = r.base_url ++ without_base r.base_url path in
      if text_eq url r.location
      then r
      else on_location_change (visit replace url (add_to_history url (add_to_history r.location r)))
