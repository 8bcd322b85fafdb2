-- ===== src/Route/Parts.antt =====
-- The path of a conversation is read back as its parts.
use convos.Prelude.{
  Option, some, get_or, ℕ, suc, ◌≤◌, ◌==◌, ◌≡◌, refl, ap, ◌∙◌, sym, Bool, true, false, not, ◌||◌,
  Text, codes, is_empty, List, [], ◌∷◌, ◌++◌, none, map, filter, length, drop, All, All-append,
  arith, leb, length-append,
}
use convos.Route.{Route, split, before, behind, query_of, all_decoded, parts_of, on_location_change}
use convos.Route.Url.{join_with, conversation_path}

-- Not "/", "#" or "?".
abbrev pub is_mark : ℕ → Bool
is_mark x = x == b'/' || (x == b'#' || x == b'?')

abbrev pub IsPart : Text → Type 0
IsPart s = All (λ x. is_mark x ≡ false) s

-- Documented behaviour of encodeURIComponent and decodeURIComponent on well-formed texts.
pub record IsEncoding (encode : Text → Text) (decode : Text → Option Text) : Type 0 where
  pub empty : encode [] ≡ []
  pub part : (s : Text) → IsPart (encode s)
  pub back : (s : Text) → decode (encode s) ≡ some s

split-piece : (p rest : Text) → IsPart p → split b'/' (p ++ b'/' ∷ rest) ≡ p ∷ split b'/' rest
unfolding split
split-piece [] rest h = refl
split-piece (x ∷ p) rest h = ground (arith, split-piece p rest h.1)

split_last : (p : Text) → IsPart p → split b'/' p ≡ p ∷ []
unfolding split
split_last [] h = refl
split_last (x ∷ p) h = ground (arith, split_last p h.1)

split-join_with :
    (p : Text) (parts : List Text)
    → All IsPart (p ∷ parts)
    → split b'/' (join_with b'/' (p ∷ parts)) ≡ p ∷ parts
unfolding join_with
split-join_with p [] h = split_last p h.0
split-join_with p (q ∷ parts) h =
    split-piece p (join_with b'/' (q ∷ parts)) h.0 ∙ ap (λ l. p ∷ l) (split-join_with q parts h.1)

-- Neither "#" nor "?".
abbrev IsPath : Text → Type 0
IsPath s = All (λ x. (x == b'#' || x == b'?') ≡ false) s

IsPart-IsPath : (s : Text) → IsPart s → IsPath s
IsPart-IsPath [] h = tt
IsPart-IsPath (x ∷ s) h = (ground (arith, h.0), IsPart-IsPath s h.1)

join_with-IsPath : (parts : List Text) → All IsPart parts → IsPath (join_with b'/' parts)
unfolding join_with
join_with-IsPath [] h = tt
join_with-IsPath (p ∷ []) h = IsPart-IsPath p h.0
join_with-IsPath (p ∷ q ∷ parts) h =
    All-append (λ x. (x == b'#' || x == b'?') ≡ false) p (b'/' ∷ join_with b'/' (q ∷ parts))
      (IsPart-IsPath p h.0) (refl, join_with-IsPath (q ∷ parts) h.1)

before_none :
    (s : Text) → IsPath s → (before b'#' s ≡ s) × (before b'?' s ≡ s) × (behind b'?' s ≡ none)
unfolding before behind
before_none [] h = (refl, refl, refl)
before_none (x ∷ s) h = ground (arith, before_none s h.1)

drop-base : (base s : Text) → drop (length base) (base ++ s) ≡ s
drop-base [] s = refl
drop-base (x ∷ base) s = drop-base base s

cons_nil : {c : ℕ} {s : Text} → some (c ∷ s) ≡ some [] → ⊥
cons_nil e = cc

short : (s : Text) → 1 ≤ length s → leb (suc (length s)) 1 ≡ false
short s h = ground arith

abbrev pub ids_of : Text → Text → List Text
ids_of connection_id conversation_id =
    codes "chat" ∷ filter (λ p. not (is_empty p)) (connection_id ∷ conversation_id ∷ [])

module _ (encode : Text → Text) (decode : Text → Option Text)
    (coding : IsEncoding encode decode) where
  map-IsPart : (parts : List Text) → All IsPart (map encode parts)
  map-IsPart [] = tt
  map-IsPart (p ∷ parts) = (coding.part p, map-IsPart parts)

  map-back : (parts : List Text) → all_decoded decode (map encode parts) ≡ some parts
  unfolding all_decoded
  map-back [] = refl
  map-back (p ∷ parts) = rw (coding.back p, map-back parts, all_decoded) refl

  -- Only the empty text is encoded as the empty text.
  encode-nonempty : (c : ℕ) (s : Text) → 1 ≤ length (encode (c ∷ s))
  encode-nonempty c s = from (encode (c ∷ s)) refl
    where
      from : (t : Text) → encode (c ∷ s) ≡ t → 1 ≤ length t
      from [] e =
          absurd (
            cons_nil
              (sym (coding.back (c ∷ s)) ∙ ap decode (e ∙ sym coding.empty) ∙ coding.back []))
      from (x ∷ t) e = omega arith

  length-join_with : (p : Text) (parts : List Text) → length p ≤ length (join_with b'/' (p ∷ parts))
  unfolding join_with
  length-join_with p [] = omega arith
  length-join_with p (q ∷ parts) =
      omega (arith, length-append p (b'/' ∷ join_with b'/' (q ∷ parts)))

  path_of-parts :
      (c : ℕ) (s : Text) (ids : List Text)
      → parts_of decode (join_with b'/' (map encode ([] ∷ (c ∷ s) ∷ ids))) ≡ some ((c ∷ s) ∷ ids)
  unfolding parts_of join_with
  path_of-parts c s ids =
      let parts = map encode ids in
      let rest = join_with b'/' (encode (c ∷ s) ∷ parts) in
      let long = length-join_with (encode (c ∷ s)) parts in
      rw (coding.empty, parts_of, short rest (omega (arith, long, encode-nonempty c s)))
        (ap (all_decoded decode)
            (split-join_with (encode (c ∷ s)) parts (map-IsPart ((c ∷ s) ∷ ids)))
          ∙ map-back ((c ∷ s) ∷ ids))

  -- A location that is the path of a conversation, or of a connection, below the base URL, is read back:
  -- its parts are "chat" and the ids that are not empty, in their order, and there is no query. The
  -- encoding is taken to be undone by the decoding and to give no "/", "#" or "?".
  pub on_location_change-conversation_path :
      (r : Route) (connection_id conversation_id : Text)
      → r.enabled ≡ true
      → r.location ≡ r.base_url ++ conversation_path encode connection_id conversation_id
      → let d = on_location_change decode r in
        (d.path_parts ≡ ids_of connection_id conversation_id)
        × (d.query ≡ none)
        × (d.path ≡ conversation_path encode connection_id conversation_id)
  unfolding on_location_change conversation_path query_of
  on_location_change-conversation_path r c k on there =
      let path = conversation_path encode c k in
      let plain =
        before_none path
          (join_with-IsPath (map encode ([] ∷ ids_of c k)) (map-IsPart ([] ∷ ids_of c k))) in
      let here = ap (drop (length r.base_url)) there ∙ drop-base r.base_url path in
      rw (on, on_location_change, here, plain.0, plain.1, query_of, plain.2)
        (ap (λ o. get_or o r.path_parts) (path_of-parts b'c' (codes "hat") _), refl, refl)
