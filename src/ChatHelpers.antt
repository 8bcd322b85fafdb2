-- ===== src/ChatHelpers.antt =====
-- assets/js/chatHelpers.js: `awayMessage`, the answer to "/whois". The other helpers are DOM.
mod Tests
use convos.Prelude.{
  ℕ, ◌≡◌, refl, Bool, true, false, not, ◌&&◌, ◌==◌, ◌-◌, Text, codes, is_empty, or_text, List, [],
  ◌∷◌, ◌++◌, map, if◌then◌else◌, length, suc, leb, Option, some, none, zero,
}
use convos.Prelude.Dict
use convos.SortedMap
use convos.Host.{code_gt}

-- What the server tells of somebody; a text is empty where the source has undefined. `channels` are
-- the keys of the object.
pub record Whois : Type 0 where
  pub nick : Text
  pub name : Text
  pub user : Text
  pub away : Text
  pub idle_for : Text
  pub channels : List Text

-- `keys.sort()`, by code units.
unfoldable pub sorted : List Text → List Text
sorted keys = Dict.values (SortedMap.sort code_gt (map (λ k. (k, k)) keys))

-- `keys.join(', ')`
unfoldable pub join : List Text → Text
join [] = []
join (key ∷ []) = key
join (key ∷ next ∷ keys) = key ++ (codes ", " ++ join (next ∷ keys))

-- `message.replace(/%(4|5)/g, (_all, n) => '%' + (n - 1))`
unfoldable pub renumber : Text → Text
renumber [] = []
renumber (c ∷ []) = c ∷ []
renumber (c ∷ d ∷ s) =
    let rest = renumber (d ∷ s) in
    let jumped = renumber s in
    if c == b'%' && (d == b'4')
    then c ∷ b'3' ∷ jumped
    else if c == b'%' && (d == b'5')
    then c ∷ b'4' ∷ jumped
    else c ∷ rest

-- The text and the variables for the idle time and the channels.
unfoldable pub activity : Text → List Text → Text × List Text
unfolding sorted join
activity [] [] = (codes " is not in any channels.", [])
activity [] (x ∷ xs) = (codes " is active in %4.", join (sorted (x ∷ xs)) ∷ [])
activity (c ∷ idle) [] =
    (codes " has been idle for %4s, and is not in any channels.", (c ∷ idle) ∷ [])
activity (c ∷ idle) (x ∷ xs) =
    (codes " has been idle for %4s in %5.", (c ∷ idle) ∷ join (sorted (x ∷ xs)) ∷ [])

-- The whole of it, by whether there is an away message.
unfoldable pub describe : Text → Text × List Text → Text × List Text
unfolding renumber
describe [] (text, vars) = (renumber (codes "%1 (%2)" ++ text), vars)
describe (c ∷ away) (text, vars) = (codes "%1 (%2) is away (%3) and" ++ text, (c ∷ away) ∷ vars)

-- `awayMessage(params)`: the message and its variables.
unfoldable pub away_message : Whois → Text × List Text
unfolding activity describe
away_message w =
    let told = describe w.away (activity w.idle_for w.channels) in
    if is_empty w.nick
    then (codes "Loading...", [])
    else (told.0, w.nick ∷ or_text w.name w.user ∷ told.1)

-- The numbers behind "%" in a message, in order.
unfoldable pub placeholders : Text → List ℕ
placeholders [] = []
placeholders (c ∷ []) = []
placeholders (c ∷ d ∷ s) =
    let rest = placeholders (d ∷ s) in if c == b'%' then (d - b'0') ∷ rest else rest

unfoldable pub counting : ℕ → ℕ → List ℕ
counting first zero = []
counting first (suc n) = first ∷ counting (suc first) n

numbered :
    (away idle : Text) (channels : List Text)
    → let told = describe away (activity idle channels) in
      placeholders told.0 ≡ counting 1 (suc (suc (length told.1)))
unfolding describe activity placeholders counting renumber
numbered [] [] [] = refl
numbered [] [] (x ∷ xs) = refl
numbered [] (c ∷ idle) [] = refl
numbered [] (c ∷ idle) (x ∷ xs) = refl
numbered (d ∷ away) [] [] = refl
numbered (d ∷ away) [] (x ∷ xs) = refl
numbered (d ∷ away) (c ∷ idle) [] = refl
numbered (d ∷ away) (c ∷ idle) (x ∷ xs) = refl

-- Whatever is known of somebody with a nick: the message has the placeholders %1, %2, … in order,
-- one for each variable and no other.
pub away_message-placeholders :
    (w : Whois)
    → is_empty w.nick ≡ false
    → placeholders (away_message w).0 ≡ counting 1 (length (away_message w).1)
unfolding away_message
away_message-placeholders w h = rw (h, away_message) (numbered w.away w.idle_for w.channels)
