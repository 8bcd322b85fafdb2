-- ===== src/Emojis/Tests.antt =====
-- A table of two emojis.
use convos.Prelude.{◌≡◌, refl, true, Text, codes, List, [], ◌∷◌, Option, none, some, All, map}
use convos.Host.{ascii_host}
use convos.Emojis.{Emoji, Emojis, load, search, is_match}
use convos.Emojis.Finding.{search-load}

abbrev heart : Emoji
heart = record { emoji = codes "H"; shortname = codes ":heart:"; name = codes "red heart" }

abbrev bolt : Emoji
bolt = record { emoji = codes "Z"; shortname = codes ":zap:"; name = [] }

abbrev nothing : Emojis
nothing = record { by_short_name = []; grouped = [] }

abbrev short_names : Option (List Emoji) → List Text
short_names none = []
short_names (some list) = map (λ e. e.shortname) list

hearts :
    short_names (
      search ascii_host.to_lower_case
        (codes "HEA")
        (load ascii_host.to_lower_case (heart ∷ bolt ∷ []) nothing))
    ≡ codes ":heart:" ∷ []
unfolding search load convos.Prelude.Dict.get convos.Prelude.Dict.set convos.Prelude.text_eq
hearts = refl

search-load_example :
    (found : List Emoji) × (search ascii_host.to_lower_case
        (codes "HEA")
        (load ascii_host.to_lower_case (heart ∷ bolt ∷ []) nothing)
      ≡ some found)
    × All
        (λ e. is_match ascii_host.to_lower_case (ascii_host.to_lower_case (codes "HEA")) e ≡ true)
        found
search-load_example = search-load ascii_host.to_lower_case (heart ∷ bolt ∷ []) nothing (codes "HEA")
