-- ===== src/Commands.antt =====
-- assets/js/commands.js: the commands that the chat input completes, and the rewriting of a command
-- before it is sent. The examples and their Markdown are not modelled.
pub mod Normal
mod Tests
use convos.Prelude.{
  ℕ, ◌==◌, ◌≡◌, Bool, true, false, not, ◌&&◌, ◌||◌, Text, text_eq, codes, is_empty, starts_with,
  List, [], ◌∷◌, ◌++◌, Option, none, some, get_or, filter, map, leb, if◌then◌else◌, string_eq,
}
use convos.Prelude.Dict.{Dict, get}
use convos.Prelude.Chars.{is_space}
use convos.Host.{Host}

-- `commands`, in order.
abbrev pub commands : List Text
commands =
    codes "/me"
    ∷ codes "/say"
    ∷ codes "/whois"
    ∷ codes "/query"
    ∷ codes "/msg"
    ∷ codes "/shrug"
    ∷ codes "/join"
    ∷ codes "/close"
    ∷ codes "/nick"
    ∷ codes "/away"
    ∷ codes "/kick"
    ∷ codes "/mode"
    ∷ codes "/topic"
    ∷ codes "/names"
    ∷ codes "/invite"
    ∷ codes "/reconnect"
    ∷ codes "/clear"
    ∷ codes "/oper"
    ∷ codes "/cs"
    ∷ codes "/ns"
    ∷ codes "/ms"
    ∷ codes "/hs"
    ∷ codes "/bs"
    ∷ codes "/os"
    ∷ codes "/ignore"
    ∷ codes "/unignore"
    ∷ codes "/quote"
    ∷ []

-- `commandOptions({query})`: the values of the options; no command has an alias.
unfoldable pub command_options : Text → List Text
command_options query = filter (λ cmd. starts_with cmd query) commands

-- What `rewriteRule[word]` can be. Besides its own keys the object inherits `constructor`, a
-- function that returns the array it is given, and `__proto__`, an object without a length.
pub data Rule : Type 0 where
  prefix : Text → Rule
  shrug object_constructor object_prototype : Rule

abbrev pub rewrite_rule : Dict Text Rule
rewrite_rule =
    (codes "/close", prefix (codes "/part"))
    ∷ (codes "/shrug", shrug)
    ∷ (codes "/cs", prefix (codes "/quote chanserv"))
    ∷ (codes "/ns", prefix (codes "/quote nickserv"))
    ∷ (codes "/ms", prefix (codes "/quote memoserv"))
    ∷ (codes "/hs", prefix (codes "/quote hotserv"))
    ∷ (codes "/bs", prefix (codes "/quote botserv"))
    ∷ (codes "/os", prefix (codes "/quote operserv"))
    ∷ (codes "/j", prefix (codes "/join"))
    ∷ (codes "/raw", prefix (codes "/quote"))
    ∷ (codes "constructor", object_constructor)
    ∷ (codes "__proto__", object_prototype)
    ∷ []

-- `s.split(/\s/)[0]`, and the other parts.
unfoldable pub first_word : Text → Text
unfolding is_space
first_word [] = []
first_word (c ∷ s) = let rest = first_word s in if is_space c then [] else c ∷ rest

abbrev onto_first : ℕ → List Text → List Text
onto_first c [] = (c ∷ []) ∷ []
onto_first c (word ∷ words) = (c ∷ word) ∷ words

unfoldable pub words : Text → List Text
unfolding is_space
words [] = [] ∷ []
words (c ∷ s) = let rest = words s in if is_space c then [] ∷ rest else onto_first c rest

abbrev pub other_words : List Text → List Text
other_words [] = []
other_words (word ∷ rest) = rest

-- `parts.join(' ')`
unfoldable pub join : List Text → Text
join [] = []
join (word ∷ []) = word
join (word ∷ next ∷ rest) = word ++ b' ' ∷ join (next ∷ rest)

-- The result of `normalizeCommand`: a text, or by accident an array.
pub data Normalized : Type 0 where
  text : Text → Normalized
  array : List Text → Normalized

abbrev pub nonempty : List Text → List Text
nonempty parts = filter (λ p. not (is_empty p)) parts

unfoldable pub apply_rule : Text → List Text → Option Rule → Normalized
unfolding join
apply_rule command parts none = text command
apply_rule command parts (some (prefix rule)) = text (join (nonempty (rule ∷ parts)))
apply_rule command parts (some shrug) =
    text (codes "/say " ++ join (parts ++ codes "¯\\_(ツ)_/¯" ∷ []))
apply_rule command parts (some object_constructor) = array parts
apply_rule command parts (some object_prototype) = text (join (nonempty parts))

module _ (host : Host) where
  -- `normalizeCommand(command)`
  unfoldable pub normalize_command : Text → Normalized
  unfolding apply_rule first_word words
  normalize_command command =
      apply_rule command (other_words (words command))
        (get (host.to_lower_case (first_word command)) rewrite_rule)
