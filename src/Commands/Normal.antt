-- ===== src/Commands/Normal.antt =====
-- Rewriting a command twice is rewriting it once.
use convos.Prelude.{
  ◌≡◌, refl, ap, subst, ◌∙◌, false, Text, text_eq, codes, is_empty, List, [], ◌∷◌, ◌++◌, Option,
  none, some, All, arith, if◌then◌else◌, string_eq, inl, inr, Bool-cases,
}
use convos.Prelude.Chars.{is_space}
use convos.Prelude.Dict.{Dict, get}
use convos.Host.{Host}
use convos.Commands.{
  Rule, prefix, shrug, object_constructor, object_prototype, rewrite_rule, first_word, words,
  other_words, join, nonempty, text, apply_rule, normalize_command,
}

-- The words that rewritten commands begin with have no capitals, so `toLowerCase` keeps them.
pub record KeepsCommands (host : Host) : Type 0 where
  pub part : host.to_lower_case (codes "/part") ≡ codes "/part"
  pub join_it : host.to_lower_case (codes "/join") ≡ codes "/join"
  pub say : host.to_lower_case (codes "/say") ≡ codes "/say"
  pub quote : host.to_lower_case (codes "/quote") ≡ codes "/quote"

get-All :
    {V : Type 0} (P : V → Type 0) (word : Text) (d : Dict Text V) (v : V)
    → All (λ e. P e.1) d
    → get word d ≡ some v
    → P v
unfolding get
get-All P word [] v a h = cc
get-All P word ((other, w) ∷ d) v a h = elim (Bool-cases (text_eq other word)) [
  | inl same ↦ let eq : w ≡ v = ground arith in subst P eq a.0
  | inr differs ↦ let rest : get word d ≡ some v = ground arith in get-All P word d v a.1 rest
]

first_word-space : (p s : Text) → first_word (p ++ b' ' ∷ s) ≡ first_word p
unfolding first_word is_space
first_word-space [] s = refl
first_word-space (c ∷ p) s = ap (λ rest. if is_space c then [] else c ∷ rest) (first_word-space p s)

first_word-join : (p : Text) (parts : List Text) → first_word (join (p ∷ parts)) ≡ first_word p
unfolding join
first_word-join p [] = refl
first_word-join p (part ∷ parts) = first_word-space p (join (part ∷ parts))

module _ (host : Host) (keeps : KeepsCommands host) where
  abbrev IsStable : Text → Type 0
  IsStable s = get (host.to_lower_case (first_word s)) rewrite_rule ≡ none

  abbrev IsTarget : Rule → Type 0
  IsTarget (prefix p) = (is_empty p ≡ false) × IsStable p
  IsTarget shrug = Unit
  IsTarget object_constructor = Unit
  IsTarget object_prototype = Unit

  stable-normalize : (s : Text) → IsStable s → normalize_command host s ≡ text s
  unfolding normalize_command
  stable-normalize s h = ap (λ r. apply_rule s (other_words (words s)) r) h

  part-IsStable : IsStable (codes "/part")
  unfolding first_word get text_eq
  part-IsStable = ap (λ w. get w rewrite_rule) keeps.part

  join-IsStable : IsStable (codes "/join")
  unfolding first_word get text_eq
  join-IsStable = ap (λ w. get w rewrite_rule) keeps.join_it

  quote-IsStable : (s : Text) → first_word s ≡ codes "/quote" → IsStable s
  unfolding get text_eq
  quote-IsStable s h =
      ap (λ w. get (host.to_lower_case w) rewrite_rule) h ∙ ap (λ w. get w rewrite_rule) keeps.quote

  say-IsStable : (s : Text) → IsStable (codes "/say " ++ s)
  unfolding first_word get text_eq
  say-IsStable s =
      ap (λ w. get (host.to_lower_case w) rewrite_rule) (first_word-space (codes "/say") s)
      ∙ ap (λ w. get w rewrite_rule) keeps.say

  rewrite_rule-All : All (λ e. IsTarget e.1) rewrite_rule
  unfolding first_word
  rewrite_rule-All = (
    (refl, part-IsStable),
    (
      tt,
      (
        (refl, quote-IsStable (codes "/quote chanserv") refl),
        (
          (refl, quote-IsStable (codes "/quote nickserv") refl),
          (
            (refl, quote-IsStable (codes "/quote memoserv") refl),
            (
              (refl, quote-IsStable (codes "/quote hotserv") refl),
              (
                (refl, quote-IsStable (codes "/quote botserv") refl),
                (
                  (refl, quote-IsStable (codes "/quote operserv") refl),
                  (
                    (refl, join-IsStable),
                    ((refl, quote-IsStable (codes "/quote") refl), (tt, (tt, tt))),
                  ),
                ),
              ),
            ),
          ),
        ),
      ),
    ),
  )

  prefix-IsStable :
      (p : Text) (parts : List Text) → IsTarget (prefix p) → IsStable (join (nonempty (p ∷ parts)))
  prefix-IsStable p parts target = rw target.0 (
      ap (λ w. get (host.to_lower_case w) rewrite_rule) (first_word-join p (nonempty parts))
      ∙ target.1)

  abbrev IsSettled : Text → Type 0
  IsSettled s = normalize_command host s ≡ text s

  settled :
      (command result : Text) (parts : List Text) (r : Option Rule)
      → get (host.to_lower_case (first_word command)) rewrite_rule ≡ r
      → (r ≡ some object_prototype → ⊥)
      → apply_rule command parts r ≡ text result
      → IsSettled result
  unfolding apply_rule
  settled command result parts none found proper h =
      let same : command ≡ result = cc in subst IsSettled same (stable-normalize command found)
  settled command result parts (some (prefix p)) found proper h =
      let same : join (nonempty (p ∷ parts)) ≡ result = cc in
      let target =
        get-All IsTarget (host.to_lower_case (first_word command)) rewrite_rule (prefix p)
          rewrite_rule-All found in
      subst IsSettled same
        (stable-normalize (join (nonempty (p ∷ parts))) (prefix-IsStable p parts target))
  settled command result parts (some shrug) found proper h =
      let rest = join (parts ++ codes "¯\\_(ツ)_/¯" ∷ []) in
      let same : codes "/say " ++ rest ≡ result = cc in
      subst IsSettled same (stable-normalize (codes "/say " ++ rest) (say-IsStable rest))
  settled command result parts (some object_constructor) found proper h = cc
  settled command result parts (some object_prototype) found proper h = absurd (proper refl)

  -- Whatever a command is rewritten to, is not rewritten again: unless its first word is "__proto__",
  -- which is dropped, or "constructor", for which the result is no text.
  pub normalize_command-stable :
      (command result : Text)
      → (get (host.to_lower_case (first_word command)) rewrite_rule ≡ some object_prototype → ⊥)
      → normalize_command host command ≡ text result
      → normalize_command host result ≡ text result
  unfolding normalize_command apply_rule
  normalize_command-stable command result proper h =
      settled command result (other_words (words command))
        (get (host.to_lower_case (first_word command)) rewrite_rule) refl proper h
