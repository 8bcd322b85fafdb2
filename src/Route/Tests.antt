-- ===== src/Route/Tests.antt =====
-- A browser at "/chat/a" of a Convos below "https://x/".
use convos.Prelude.{
  Option, ◌≡◌, refl, true, false, text_eq, codes, [], ◌∷◌, none, some, get_last?, ℕ, ◌==◌, ap, ◌∙◌,
  Text, ◌++◌, if◌then◌else◌, All-append, arith,
}
use convos.Route.Url.{conversation_path, ws_url_for, url_for}
use convos.Route.Parts.{IsPart, is_mark, IsEncoding, ids_of, on_location_change-conversation_path}
use convos.Route.{on_location_change, Route, without_base, before, go}
use convos.Route.History.{IsHistory}
use convos.Route.Go.{go_lem}

abbrev route : Route
route = record {
  base_url = codes "https://x/";
  enabled = true;
  history = codes "a" ∷ codes "b" ∷ [];
  location = codes "https://x/a";
  entries = codes "https://x/a" ∷ [];
  path = codes "a";
  path_parts = codes "a" ∷ [];
  query = none;
}

go_moves : (go some (codes "c/d?q=1#x") false route).path_parts ≡ codes "c" ∷ codes "d" ∷ []
unfolding go text_eq
go_moves = refl

go_asks : (go some (codes "c/d?q=1#x") false route).query ≡ some (codes "q=1")
unfolding go text_eq
go_asks = refl

go_lem_example :
    let q = go some (codes "c#x") true route in
    (q.location ≡ codes "https://x/c#x")
    × (q.path ≡ codes "c")
    × (get_last? q.history ≡ some (codes "c#x"))
    × IsHistory q.history
    × (q.entries ≡ codes "https://x/c#x" ∷ [])
unfolding text_eq without_base before
go_lem_example = go_lem some (codes "c#x") true route refl ((refl, tt), (tt, tt)) refl

-- An encoding that writes the marks with a letter behind "%".
abbrev encode_char : ℕ → Text
encode_char c =
    if c == b'/'
    then b'%' ∷ b's' ∷ []
    else if c == b'#'
    then b'%' ∷ b'h' ∷ []
    else if c == b'?'
    then b'%' ∷ b'q' ∷ []
    else if c == b'%'
    then b'%' ∷ b'p' ∷ []
    else c ∷ []

abbrev encode : Text → Text
encode [] = []
encode (c ∷ s) = encode_char c ++ encode s

abbrev decode_char : ℕ → ℕ
decode_char c =
    if c == b's' then b'/' else if c == b'h' then b'#' else if c == b'q' then b'?' else b'%'

unfoldable decode : Text → Text
decode [] = []
decode (c ∷ []) = c ∷ []
decode (c ∷ d ∷ s) =
    let further = decode (d ∷ s) in
    let behind = decode s in if c == b'%' then decode_char d ∷ behind else c ∷ further

decode_other : (c : ℕ) (s : Text) → (c == b'%') ≡ false → decode (c ∷ s) ≡ c ∷ decode s
unfolding decode
decode_other c [] h = refl
decode_other c (d ∷ s) h = rw (h, decode) refl

decode-encode_char : (c : ℕ) (s : Text) → decode (encode_char c ++ s) ≡ c ∷ decode s
unfolding decode
decode-encode_char c s = ground (arith, decode_other c s)

decode-encode : (s : Text) → decode (encode s) ≡ s
unfolding decode
decode-encode [] = refl
decode-encode (c ∷ s) = decode-encode_char c (encode s) ∙ ap (λ t. c ∷ t) (decode-encode s)

encode-IsPart : (s : Text) → IsPart (encode s)
encode-IsPart [] = tt
encode-IsPart (c ∷ s) =
    All-append (λ x. is_mark x ≡ false) (encode_char c) (encode s) (char c) (encode-IsPart s)
  where
    char : (c : ℕ) → IsPart (encode_char c)
    char c = ground arith

abbrev decoded : Text → Option Text
decoded s = some (decode s)

encoding : IsEncoding encode decoded
encoding = record { empty = refl; part = encode-IsPart; back = λ s. ap some (decode-encode s) }

abbrev at_channel : Route
at_channel = record route {
  location = route.base_url ++ conversation_path encode (codes "irc") (codes "#a/b");
}

on_location_change-conversation_path_example :
    let d = on_location_change decoded at_channel in
    (d.path_parts ≡ ids_of (codes "irc") (codes "#a/b"))
    × (d.query ≡ none)
    × (d.path ≡ conversation_path encode (codes "irc") (codes "#a/b"))
on_location_change-conversation_path_example =
    on_location_change-conversation_path encode decoded encoding at_channel (codes "irc")
      (codes "#a/b") refl refl

ws : ws_url_for (codes "https://x") (codes "/events") ≡ codes "wss://x/events"
unfolding ws_url_for
ws = refl

queried :
    url_for encode
      (codes "/c")
      (codes "/a")
      ((codes "z", some (codes "1")) ∷ (codes "b", some (codes "?")) ∷ (codes "c", none) ∷ [])
    ≡ codes "/c/a?b=%q&z=1"
unfolding url_for convos.Host.code_gt
queried = refl
