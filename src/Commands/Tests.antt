-- ===== src/Commands/Tests.antt =====
-- Commands as they are typed.
use convos.Prelude.{◌≡◌, refl, codes, [], ◌∷◌, text_eq, string_eq, some}
use convos.Prelude.Dict.{get}
use convos.Host.{ascii_host}
use convos.Commands.{
  normalize_command, command_options, first_word, text, array, object_prototype, rewrite_rule,
}
use convos.Commands.Normal.{KeepsCommands, normalize_command-stable}

close_here : normalize_command ascii_host (codes "/Close  #convos") ≡ text (codes "/part #convos")
unfolding normalize_command get text_eq
close_here = refl

shrug_here : normalize_command ascii_host (codes "/shrug") ≡ text (codes "/say ¯\\_(ツ)_/¯")
unfolding normalize_command get text_eq
shrug_here = refl

-- A message that begins with the word "constructor" is lost in an array.
constructor_here :
    normalize_command ascii_host (codes "constructor of a") ≡ array (codes "of" ∷ codes "a" ∷ [])
unfolding normalize_command get text_eq
constructor_here = refl

options_here : command_options (codes "/qu") ≡ codes "/query" ∷ codes "/quote" ∷ []
unfolding command_options
options_here = refl

ascii_keeps : KeepsCommands ascii_host
ascii_keeps = record { part = refl; join_it = refl; say = refl; quote = refl }

proper :
    get (ascii_host.to_lower_case (first_word (codes "/j #a"))) rewrite_rule ≡ some object_prototype
    → ⊥
unfolding first_word get text_eq
proper h = cc

normalize_command-stable_example :
    normalize_command ascii_host (codes "/join #a") ≡ text (codes "/join #a")
unfolding normalize_command get text_eq
normalize_command-stable_example =
    normalize_command-stable ascii_host ascii_keeps (codes "/j #a") (codes "/join #a") proper refl
