-- ===== src/Search/Tests.antt =====
-- A search for a word.
use convos.Prelude.{◌≡◌, refl, true, false, codes, [], ◌∷◌, if◌then◌else◌, or_text}
use convos.Host.{ascii_host}
use convos.Messages.{fill}
use convos.Conversation.{success, note}
use convos.Search.{Search, SearchParams, has_solid, load, loaded, nothing_to_search}
use convos.Search.Found.{load-loaded}

abbrev quiet : Search
quiet = record {
  query = [];
  status = success;
  messages = record { messages = []; last_id = 0; raw = false };
}

abbrev wanted : SearchParams
wanted = record { match = []; message = codes "cats"; before = false }

blank_query : (load ascii_host 1 (record wanted { message = codes "  " }) quiet).1 ≡ false
unfolding load convos.Prelude.Chars.is_space
blank_query = refl

load-loaded_example :
    let r = load ascii_host 1 wanted quiet in
    let answer = note ascii_host 1 (codes "my cats") [] ∷ [] in
    let d = if r.1 then loaded ascii_host 2 wanted success answer r.0 else r.0 in
    (r.1 ≡ has_solid (codes "cats"))
    × (d.query ≡ (if has_solid (codes "cats") then codes "cats" else []))
    × (d.messages.messages ≡ (
        if has_solid (codes "cats")
        then fill ascii_host 2 0 answer
        else fill ascii_host 1 0 (nothing_to_search ascii_host 1 (codes "cats") ∷ [])))
load-loaded_example =
    load-loaded ascii_host 1 2 wanted quiet success (note ascii_host 1 (codes "my cats") [] ∷ [])
      refl
