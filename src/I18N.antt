-- ===== src/I18N.antt =====
-- assets/store/I18N.js: the translation of a lexicon with its variables, and Markdown to HTML. The
-- loading of dictionaries is a request; `Emojis.markup`, which is applied last, is a parameter.
pub mod Match
pub mod Handlers
pub mod Markdown
pub mod Html
pub mod Places
mod Plain
pub mod Handling
pub mod Links
pub mod Safe
mod Tests
use convos.Prelude.{
  ℕ, suc, ◌-◌, ◌==◌, ◌≡◌, Bool, true, false, not, ◌&&◌, Text, codes, is_empty, starts_with, List,
  [], ◌∷◌, ◌++◌, Option, none, some, get_or, get_elem?, if◌then◌else◌, string_eq, or_text,
}
use convos.Prelude.Chars.{is_digit, is_space}
use convos.Prelude.Dict.{Dict, get}

-- `vars[i - 1]` for the digit `d`; `vars[-1]` is undefined.
unfoldable pub var_of : ℕ → List Text → Option Text
var_of d vars = if d == b'0' then none else get_elem? vars (d - b'1')

-- `translated.replace(/%(\d)(\D|$)/g, …)`: a match takes the character behind the digit with it.
unfoldable pub expand : List Text → Text → Text
unfolding var_of
expand vars [] = []
expand vars (c ∷ []) = c ∷ []
expand vars (c ∷ d ∷ []) =
    if c == b'%' && is_digit d then get_or (var_of d vars) (c ∷ d ∷ []) else c ∷ d ∷ []
expand vars (c ∷ d ∷ e ∷ s) =
    let further = expand vars (d ∷ e ∷ s) in
    let behind = expand vars s in
    if c == b'%' && (is_digit d && not (is_digit e))
    then (get_or (var_of d vars) (c ∷ d ∷ []) ++ e ∷ []) ++ behind
    else c ∷ further

-- `l(lexicon, ...vars)` with the dictionary of the language; an empty translation counts as none.
unfoldable pub l : Dict Text Text → Text → List Text → Text
unfolding expand
l dictionary lexicon vars = expand vars (or_text (get_or (get lexicon dictionary) []) lexicon)

-- `escape(str)`
unfoldable pub escape_char : ℕ → Text
escape_char c =
    if c == b'&'
    then codes "&amp;"
    else if c == b'<'
    then codes "&lt;"
    else if c == b'>'
    then codes "&gt;"
    else if c == 39
    then codes "&apos;"
    else if c == 34
    then codes "&quot;"
    else c ∷ []

unfoldable pub escape : Text → Text
unfolding escape_char
escape [] = []
escape (c ∷ s) = escape_char c ++ escape s

-- The three replacements of `nbsp(str)`.
unfoldable pub nbsp_end : Text → Text
nbsp_end [] = []
nbsp_end (c ∷ []) = if is_space c then codes "&nbsp;" else c ∷ []
nbsp_end (c ∷ d ∷ s) = c ∷ nbsp_end (d ∷ s)

unfoldable pub nbsp_start : Text → Text
nbsp_start [] = []
nbsp_start (c ∷ s) = if is_space c then codes "&nbsp;" ++ s else c ∷ s

unfoldable pub nbsp_pairs : Text → Text
nbsp_pairs [] = []
nbsp_pairs (c ∷ []) = c ∷ []
nbsp_pairs (c ∷ d ∷ s) =
    let further = nbsp_pairs (d ∷ s) in
    let behind = nbsp_pairs s in
    if is_space c && is_space d then codes " &nbsp;" ++ behind else c ∷ further

unfoldable pub nbsp : Text → Text
unfolding nbsp_end nbsp_start nbsp_pairs
nbsp s = nbsp_pairs (nbsp_start (nbsp_end s))

-- `raw(str)`
unfoldable pub raw : Text → Text
unfolding nbsp escape
raw s = if is_empty s then codes "&nbsp;" else nbsp (escape s)
