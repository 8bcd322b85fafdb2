-- ===== src/Route/Url.antt =====
-- assets/store/Route.js: the URLs that are made for conversations, pages and the WebSocket.
use convos.Prelude.{
  ℕ, ◌==◌, Bool, not, ◌&&◌, Text, codes, is_empty, starts_with, List, [], ◌∷◌, ◌++◌, Option, none,
  some, map, filter, drop, if◌then◌else◌, get_or, string_eq,
}
use convos.Prelude.Chars.{is_word, run}
use convos.Prelude.Dict.{Dict, get}
use convos.Host.{code_gt}
use convos.SortedMap

-- `parts.join(c)` for one character.
unfoldable pub join_with : ℕ → List Text → Text
join_with c [] = []
join_with c (p ∷ []) = p
join_with c (p ∷ q ∷ parts) = p ++ c ∷ join_with c (q ∷ parts)

-- `/^\w+:/`
unfoldable pub has_scheme : Text → Bool
unfolding run is_word
has_scheme url = let n = run is_word url in not (n == 0) && starts_with (drop n url) (b':' ∷ [])

-- `param(name, def)`
unfoldable pub param : Text → Text → Dict Text Text → Text
param name def query = get_or (get name query) def

-- `wsUrlFor(url)`
unfoldable pub ws_url_for : Text → Text → Text
unfolding has_scheme
ws_url_for base_url url =
    let ws_url = if has_scheme url then url else base_url ++ url in
    if starts_with ws_url (codes "http") then codes "ws" ++ drop 4 ws_url else ws_url

module _ (encode_uri_component : Text → Text) where
  -- `conversationPath(params)`
  unfoldable pub conversation_path : Text → Text → Text
  unfolding join_with
  conversation_path connection_id conversation_id = join_with b'/' (
      map encode_uri_component
        ([] ∷ codes "chat" ∷ filter (λ p. not (is_empty p)) (connection_id ∷ conversation_id ∷ [])))

  -- `filter(k => is.defined(query[k])).map(k => …)` of the sorted keys.
  unfoldable pub query_parts : Dict Text (Text × Option Text) → List Text
  query_parts [] = []
  query_parts ((k, (name, none)) ∷ query) = query_parts query
  query_parts ((k, (name, some value)) ∷ query) =
      (name ++ b'=' ∷ encode_uri_component value) ∷ query_parts query

  -- Each entry with its key, which the order reads.
  abbrev keyed : Dict Text (Option Text) → Dict Text (Text × Option Text)
  keyed = map (λ e. (e.0, (e.0, e.1)))

  -- `urlFor(url, query)`
  unfoldable pub url_for : Text → Text → Dict Text (Option Text) → Text
  unfolding has_scheme query_parts join_with SortedMap.sort
  url_for base_path url query =
      let base =
        if has_scheme url
        then url
        else if starts_with url (b'#' ∷ [])
        then url
        else base_path ++ url in
      let query_string =
        join_with b'&' (query_parts (SortedMap.sort (λ a b. code_gt a.0 b.0) (keyed query))) in
      base ++ (if is_empty query_string then [] else b'?' ∷ query_string)
