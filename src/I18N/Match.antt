-- ===== src/I18N/Match.antt =====
-- The regular expressions of `_makeRules` in assets/store/I18N.js. A matcher looks at one place: it
-- gets the character before, if there is one, and the text from there on.
use convos.Prelude.{
  ℕ, zero, suc, ◌+◌, ◌-◌, ◌==◌, Bool, true, false, not, ◌&&◌, ◌||◌, Text, codes, starts_with, [],
  ◌∷◌, Option, none, some, length, take, drop, leb, if◌then◌else◌,
}
use convos.Prelude.Chars.{is_space, is_digit, is_letter, is_word, run}

-- A match of `suc more` characters with two groups.
pub record Match : Type 0 where
  pub more : ℕ
  pub first : Text
  pub second : Text

abbrev pub Matcher : Type 0
Matcher = Option ℕ → Text → Option Match

abbrev pub plain : ℕ → Match
plain more = record { more = more; first = []; second = [] }

-- `str.match(re)`: what stands before the first match, the match, what it captures, and the rest.
pub record Found : Type 0 where
  pub before : Text
  pub captured : Text
  pub after : Text
  pub first : Text
  pub second : Text

abbrev pub later : ℕ → Option Found → Option Found
later c none = none
later c (some f) = some (record f { before = c ∷ f.before })

unfoldable pub find_from : Matcher → Option ℕ → Text → Option Found
find_from m prev [] = none
find_from m prev (c ∷ s) =
    let rest = later c (find_from m (some c) s) in
    elim (m prev (c ∷ s)) [
      | none ↦ rest
      | some r ↦ some (record {
        before = [];
        captured = c ∷ take r.more s;
        after = drop r.more s;
        first = r.first;
        second = r.second;
      })
    ]

-- Whether a text begins with a character that is not white space, `(?=\S)`.
unfoldable pub begins_solid : Text → Bool
begins_solid [] = false
begins_solid (c ∷ s) = not (is_space c)

-- `` /`(?=[^`\s])/ ``
unfoldable pub match_code : Matcher
match_code prev [] = none
match_code prev (c ∷ []) = none
match_code prev (c ∷ d ∷ s) =
    if c == b'`' && (not (d == b'`') && not (is_space d)) then some (plain 0) else none

-- `/\*\*\*(?=\S)/` and its shorter forms, for `suc more` asterisks.
unfoldable pub stars : ℕ → Text
stars zero = b'*' ∷ []
stars (suc n) = b'*' ∷ stars n

unfoldable pub match_stars : ℕ → Matcher
unfolding stars begins_solid
match_stars more prev s =
    if starts_with s (stars more) && begins_solid (drop (suc more) s)
    then some (plain more)
    else none

-- `\d{1,2}`: how many digits.
unfoldable pub digits : Text → ℕ
unfolding run
digits s = let n = run is_digit s in if leb n 2 then n else 2

-- `/\x03\d{1,2}(?:,\d{1,2})?/`; the groups are the two numbers.
unfoldable pub color_more : Text → Text → Match
unfolding digits
color_more fg [] = record { more = length fg; first = fg; second = [] }
color_more fg (c ∷ s) =
    let n = digits s in
    if c == b',' && not (n == 0)
    then record { more = length fg + suc n; first = fg; second = take n s }
    else record { more = length fg; first = fg; second = [] }

unfoldable pub match_color : Matcher
unfolding color_more digits
match_color prev [] = none
match_color prev (c ∷ s) =
    let n = digits s in
    if c == 3 && not (n == 0) then some (color_more (take n s) (drop n s)) else none

-- `/[\x02\x1d\x1e\x1f\x11]/`
unfoldable pub match_format : Matcher
match_format prev [] = none
match_format prev (c ∷ s) =
    if c == 2 || (c == 29 || (c == 30 || (c == 31 || c == 17))) then some (plain 0) else none

-- `/\[([^\]]+)\]\(([^)]+)\)/`
unfoldable pub link_target : Text → Text → Option Match
unfolding run
link_target name s =
    let n = run (λ c. not (c == b')')) s in
    if not (n == 0) && starts_with (drop n s) (b')' ∷ [])
    then some (record { more = length name + (n + 3); first = name; second = take n s })
    else none

unfoldable pub match_link : Matcher
unfolding link_target run
match_link prev [] = none
match_link prev (c ∷ s) =
    let n = run (λ c. not (c == b']')) s in
    if c == b'[' && (not (n == 0) && starts_with (drop n s) (b']' ∷ b'(' ∷ []))
    then link_target (take n s) (drop (n + 2) s)
    else none

-- `\b` before a word character.
unfoldable pub at_word : Option ℕ → Bool
at_word none = true
at_word (some c) = not (is_word c)

-- `/\b(https?|mailto):\S+/`, by the length of the scheme and its colon.
unfoldable pub scheme : Text → ℕ
scheme s =
    if starts_with s (codes "https:")
    then 6
    else if starts_with s (codes "http:")
    then 5
    else if starts_with s (codes "mailto:")
    then 7
    else 0

unfoldable pub match_url : Matcher
unfolding at_word scheme run
match_url prev s =
    let n = scheme s in
    let m = run (λ c. not (is_space c)) (drop n s) in
    if at_word prev && (not (n == 0) && not (m == 0)) then some (plain (n + m - 1)) else none

-- `/(\s|^)#[a-zA-Z][\w.-]+(?=\W|$)/`: the run is the longest one, so that what follows is no word
-- character.
unfoldable pub channel : Text → ℕ
unfolding run
channel [] = 0
channel (c ∷ []) = 0
channel (c ∷ d ∷ s) =
    let n = run (λ e. is_word e || (e == b'.' || e == b'-')) s in
    if c == b'#' && (is_letter d && not (n == 0)) then n + 2 else 0

abbrev is_start : Option ℕ → Bool
is_start none = true
is_start (some c) = false

unfoldable pub match_channel : Matcher
unfolding channel
match_channel prev [] = none
match_channel prev (c ∷ s) =
    let n = channel s in
    let m = channel (c ∷ s) in
    if is_space c && not (n == 0)
    then some (plain n)
    else if is_start prev && not (m == 0)
    then some (plain (m - 1))
    else none
