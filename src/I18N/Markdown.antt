-- ===== src/I18N/Markdown.antt =====
-- `_makeTag` of assets/store/I18N.js: a text becomes a tree of tags.
use convos.Prelude.{
  ℕ, zero, suc, Bool, true, false, Text, codes, is_empty, starts_with, List, [], ◌∷◌, Option, none,
  some, length, drop, if◌then◌else◌,
}
use convos.Prelude.Dict.{Dict}
use convos.I18N.{escape}
use convos.I18N.Handlers.{
  Handler, md_tag, irc_color, irc_format, md_link, md_url, md_channel, Handled, skipped, tagged,
  handle,
}
use convos.I18N.Match.{
  Matcher, find_from, match_code, match_stars, match_color, match_format, match_link, match_url,
  match_channel,
}

-- `[tag, attrs, children]`; a string among the children is escaped text. A tag is the list of its
-- names, outermost first: `tagPair(names)`; `[]` stands for null.
mutual
  pub data Node : Type 0 where
    text : Text → Node
    tag : List Text → Dict Text Text → Nodes → Node

  pub data Nodes : Type 0 where
    end : Nodes
    node : Node → Nodes → Nodes

-- `nested` says whether `rules` of the rule are all rules, or none.
pub record Rule : Type 0 where
  pub names : List Text
  pub matcher : Matcher
  pub nested : Bool
  pub handler : Handler

-- `_makeRules()`
unfoldable pub make_rules : List Rule
make_rules =
    record { names = codes "code" ∷ []; matcher = match_code; nested = false; handler = md_tag }
    ∷ record {
      names = codes "em" ∷ codes "strong" ∷ [];
      matcher = match_stars 2;
      nested = true;
      handler = md_tag;
    }
    ∷ record {
      names = codes "strong" ∷ [];
      matcher = match_stars 1;
      nested = true;
      handler = md_tag;
    }
    ∷ record { names = codes "em" ∷ []; matcher = match_stars 0; nested = true; handler = md_tag }
    ∷ record {
      names = codes "span" ∷ [];
      matcher = match_color;
      nested = true;
      handler = irc_color;
    }
    ∷ record {
      names = codes "span" ∷ [];
      matcher = match_format;
      nested = true;
      handler = irc_format;
    }
    ∷ record { names = codes "a" ∷ []; matcher = match_link; nested = false; handler = md_link }
    ∷ record { names = codes "a" ∷ []; matcher = match_url; nested = false; handler = md_url }
    ∷ record {
      names = codes "a" ∷ [];
      matcher = match_channel;
      nested = false;
      handler = md_channel;
    }
    ∷ []

-- The loop of `_makeTag` over the rules: the text as it is at the end, or the first tag, with the
-- rules for its content.
pub data Outcome : Type 0 where
  no_rule : Text → Outcome
  matched : List Text → Dict Text Text → Bool → Text → Text → Text → Outcome

abbrev pub go_on : Bool → (Text → Outcome) → Handled → Outcome
go_on nested rest (skipped s) = rest s
go_on nested rest (tagged names attrs before content after) =
    matched names attrs nested before content after

module _ (encode_uri_component : Text → Text) where
  unfoldable pub try_rules : List Rule → Text → Outcome
  unfolding handle find_from
  try_rules [] s = no_rule s
  try_rules (r ∷ rules) s = elim (find_from r.matcher none s) [
    | none ↦ try_rules rules s
    | some f ↦ go_on r.nested (try_rules rules) (handle encode_uri_component r.handler r.names f)
  ]

  abbrev pub optional : Text → Option Node → Nodes → Option Nodes
  optional s o rest =
      if is_empty s then some rest else elim o [ none ↦ none | some n ↦ some (node n rest) ]

  -- `[null, {}, children]` around a tag, its neighbours being left out where they are empty.
  abbrev pub around :
      List Text
      → Dict Text Text
      → Text
      → Text
      → Option Node
      → Option Node
      → Option Node
      → Option Node
  around names attrs before after b c a = elim c [
    | none ↦ none
    | some content ↦ elim (optional after a end) [
      | none ↦ none
      | some tail ↦ elim (optional before b (node (tag names attrs (node content end)) tail)) [
        | none ↦ none
        | some children ↦ some (tag [] [] children)
      ]
    ]
  ]

  abbrev pub rules_if : Bool → List Rule
  rules_if nested = if nested then make_rules else []

  -- `_makeTag(str, rules, depth)` below the top, with fuel; the rules are all or none.
  unfoldable pub make_tag : ℕ → Bool → Text → Option Node
  unfolding try_rules make_rules
  make_tag zero all s = none
  make_tag (suc fuel) all s = elim (try_rules (rules_if all) s) [
    | no_rule t ↦ some (tag [] [] (node (text (escape t)) end))
    | matched names attrs nested before content after ↦
        around names attrs before after (make_tag fuel all before) (make_tag fuel nested content)
          (make_tag fuel all after)
  ]

  -- At the top a text that begins with "> " is a quotation; one white space is dropped.
  unfoldable pub make_top : Text → Option Node
  unfolding make_tag
  make_top s =
      if starts_with s (codes "> ")
      then elim (make_tag (suc (suc (length s))) true (drop 2 s)) [
        | none ↦ none
        | some n ↦ some (tag (codes "blockquote" ∷ []) [] (node n end))
      ]
      else make_tag (suc (suc (length s))) true s
