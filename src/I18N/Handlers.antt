-- ===== src/I18N/Handlers.antt =====
-- The handlers of the rules in assets/store/I18N.js: what they make of a match.
use convos.Prelude.{
  ℕ, ◌==◌, ◌||◌, Bool, false, not, ◌&&◌, Text, codes, is_empty, starts_with, List, [], ◌∷◌, ◌++◌,
  none, some, drop, if◌then◌else◌,
}
use convos.Prelude.Chars.{is_space, is_word, run, cut_at}
use convos.Prelude.Dict.{Dict}
use convos.I18N.{escape}
use convos.I18N.Match.{Found}

pub data Handler : Type 0 where
  md_tag irc_color irc_format md_link md_url md_channel : Handler

-- What a handler makes of a match: nothing, with the text to go on with, or a tag around `content`.
pub data Handled : Type 0 where
  skipped : Text → Handled
  tagged : List Text → Dict Text Text → Text → Text → Text → Handled

abbrev pub whole : Found → Text
whole f = f.before ++ (f.captured ++ f.after)

-- Content up to the next place of `mark`.
abbrev pub up_to : Text → List Text → Dict Text Text → Found → Handled
up_to mark names attrs f = elim (cut_at mark f.after) [
  | none ↦ skipped (whole f)
  | some (content, after) ↦ tagged names attrs f.before content after
]

-- All but the last character.
unfoldable pub init : Text → Text
init [] = []
init (c ∷ []) = []
init (c ∷ d ∷ s) = c ∷ init (d ∷ s)

unfoldable pub last_is : (ℕ → Bool) → Text → Bool
last_is p [] = false
last_is p (c ∷ []) = p c
last_is p (c ∷ d ∷ s) = last_is p (d ∷ s)

-- `_mdTag(tag)`
unfoldable pub handle_tag : List Text → Found → Handled
unfolding init last_is
handle_tag names f =
    if last_is (λ c. c == 92) f.before
    then skipped (init f.before ++ (f.captured ++ f.after))
    else up_to f.captured names [] f

-- `_mdIrcColorFormatting(tag)`: in the class a leading 0 of the first number is dropped.
abbrev pub without_zero : Text → Text
without_zero [] = []
without_zero (c ∷ []) = c ∷ []
without_zero (c ∷ d ∷ s) = if c == b'0' then d ∷ s else c ∷ d ∷ s

unfoldable pub color_class : Text → Text → Text
color_class fg bg =
    (if is_empty bg then [] else codes "bg-" ++ (bg ++ codes " "))
    ++ (codes "text-" ++ without_zero fg)

unfoldable pub handle_color : List Text → Found → Handled
unfolding color_class
handle_color names f = up_to (3 ∷ []) names ((codes "class", color_class f.first f.second) ∷ []) f

-- `_mdIrcTextFormatting(tag)`
unfoldable pub format_names : Text → List Text
format_names [] = codes "span" ∷ []
format_names (c ∷ s) =
    if c == 2
    then codes "strong" ∷ []
    else if c == 29
    then codes "em" ∷ []
    else if c == 31
    then codes "u" ∷ []
    else if c == 17
    then codes "code" ∷ []
    else codes "span" ∷ []

unfoldable pub handle_format : Found → Handled
unfolding format_names
handle_format f = up_to f.captured (format_names f.captured) [] f

abbrev pub blank : Dict Text Text
blank = (codes "target", codes "_blank") ∷ []

-- `_mdLink(tag)`: a target that begins with a scheme opens in a new window.
unfoldable pub handle_link : List Text → Found → Handled
handle_link names f =
    let n = run is_word f.second in
    let external = not (n == 0) && starts_with (drop n f.second) (b':' ∷ []) in
    tagged names ((codes "href", escape f.second) ∷ (if external then blank else [])) f.before
      f.first f.after

-- `/[,.:;!"')]$/`
abbrev pub is_stop : ℕ → Bool
is_stop c =
    c == b','
    || (c == b'.'
        || (c == b':' || (c == b';' || (c == b'!' || (c == 34 || (c == 39 || c == b')'))))))

-- `captured.replace(/^(https|mailto):(\/\/)?/, '')`
abbrev without_slashes : Text → Text
without_slashes s = if starts_with s (codes "//") then drop 2 s else s

unfoldable pub without_scheme : Text → Text
without_scheme s =
    if starts_with s (codes "https:")
    then without_slashes (drop 6 s)
    else if starts_with s (codes "mailto:")
    then without_slashes (drop 7 s)
    else s

abbrev pub last_of : Text → Text
last_of [] = []
last_of (c ∷ []) = c ∷ []
last_of (c ∷ d ∷ s) = last_of (d ∷ s)

-- `_mdURL(tag)`
unfoldable pub handle_url : List Text → Found → Handled
unfolding without_scheme init last_is
handle_url names f =
    let stop = last_is is_stop f.captured in
    let url = if stop then init f.captured else f.captured in
    tagged names ((codes "href", escape url) ∷ blank) f.before (without_scheme url)
      (if stop then last_of f.captured ++ f.after else f.after)

module _ (encode_uri_component : Text → Text) where
  abbrev pub channel_link : List Text → Text → Text → Text → Handled
  channel_link names before channel after =
      tagged names ((codes "href", codes "./" ++ encode_uri_component channel) ∷ []) before channel
        after

  -- `_mdChannelname(tag)`
  unfoldable pub handle_channel : List Text → Found → Handled
  handle_channel names f = elim f.captured [
    | [] ↦ channel_link names f.before [] f.after
    | c ∷ s ↦
        if is_space c
        then channel_link names (f.before ++ c ∷ []) s f.after
        else channel_link names f.before (c ∷ s) f.after
  ]

  -- `this[rule.handler](tag)`
  unfoldable pub handle : Handler → List Text → Found → Handled
  unfolding handle_tag handle_color handle_format handle_link handle_url handle_channel
  handle md_tag names f = handle_tag names f
  handle irc_color names f = handle_color names f
  handle irc_format names f = handle_format f
  handle md_link names f = handle_link names f
  handle md_url names f = handle_url names f
  handle md_channel names f = handle_channel names f
