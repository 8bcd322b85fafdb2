-- ===== src/I18N/Html.antt =====
-- `_tagToHTML` and `md` of assets/store/I18N.js, and the grammar of the HTML that they may give.
use convos.Prelude.{
  ap, subst, sym, refl, not, ◌&&◌, ℕ, ◌==◌, ◌||◌, ◌≡◌, Bool, true, false, Text, codes, text_eq,
  is_empty, List, [], ◌∷◌, ◌++◌, Option, none, some, All, if◌then◌else◌,
}
use convos.Prelude.Dict.{Dict}
use convos.I18N.{nbsp}
use convos.I18N.Markdown.{Node, Nodes, text, tag, end, node, make_top}

-- The attributes in the start tag; the handlers make them in the order of their names.
unfoldable pub attributes : Dict Text Text → Text
attributes [] = []
attributes ((name, value) ∷ attrs) =
    b' ' ∷ (name ++ (codes "=\"" ++ (value ++ 34 ∷ attributes attrs)))

-- A replacement string of `replace(/>/, …)`, read from the left: `$$` stands for a `$`, `$&` for the
-- match, and a `$` before a backtick or an apostrophe for the text before or after the match. The
-- first argument says whether the last character was a `$` that has not been read yet.
unfoldable pub replacement : Bool → Text → Text → Text → Text
replacement false before after [] = []
replacement true before after [] = b'$' ∷ []
replacement false before after (c ∷ s) =
    let is_dollar = c == b'$' in
    let rest = replacement is_dollar before after s in if is_dollar then rest else c ∷ rest
replacement true before after (c ∷ s) =
    let rest = replacement false before after s in
    if c == b'$'
    then b'$' ∷ rest
    else if c == b'&'
    then b'>' ∷ rest
    else if c == 96
    then before ++ rest
    else if c == 39
    then after ++ rest
    else b'$' ∷ c ∷ rest

-- The start tags of `tagPair(names)`.
unfoldable pub start_tags : List Text → Text
start_tags [] = []
start_tags (name ∷ names) = (b'<' ∷ (name ++ b'>' ∷ [])) ++ start_tags names

-- The first start tag with the attributes in it; `names` are those of the other ones.
unfoldable pub start_tag : Text → List Text → Text → Text
unfolding replacement start_tags
start_tag name names attrs =
    if is_empty attrs
    then b'<' ∷ (name ++ b'>' ∷ [])
    else b'<' ∷ (name ++ replacement false (b'<' ∷ name) (start_tags names) (attrs ++ b'>' ∷ []))

-- `tagPair(names)` around the inner HTML; the outermost has the attributes.
unfoldable pub wrap : List Text → Text → Text → Text
unfolding start_tag
wrap [] attrs inner = inner
wrap (name ∷ names) attrs inner =
    start_tag name names attrs ++ (wrap names [] inner ++ (codes "</" ++ (name ++ b'>' ∷ [])))

-- `_tagToHTML(tag)`
unfoldable mutual
  pub to_html : Node → Text
  to_html (text s) = s
  to_html (tag names attrs children) = wrap names (attributes attrs) (all_html children)

  pub all_html : Nodes → Text
  all_html end = []
  all_html (node n ns) = to_html n ++ all_html ns

-- `md(str)`. `markup` is that of the emojis; the fuel of `make_top` is always enough.
unfoldable pub md : (Text → Text) → (Text → Text) → Text → Option Text
unfolding make_top to_html nbsp
md encode_uri_component markup s =
    if is_empty s then some (codes "&nbsp;") else elim (make_top encode_uri_component s) [
      | none ↦ none
      | some n ↦ some (markup (nbsp (to_html n)))
    ]

-- The characters that HTML reads: `<`, `>` and `"`, the quote of the attributes.
abbrev pub is_markup : ℕ → Bool
is_markup c = c == b'<' || (c == b'>' || c == 34)

abbrev pub IsPlain : Text → Type 0
IsPlain s = All (λ c. is_markup c ≡ false) s

-- The elements that messages may have.
abbrev pub is_known : Text → Bool
is_known name =
    text_eq name (codes "code")
    || (text_eq name (codes "em")
        || (text_eq name (codes "strong")
            || (text_eq name (codes "span")
                || (text_eq name (codes "a")
                    || (text_eq name (codes "u") || text_eq name (codes "blockquote"))))))

abbrev pub is_known_attribute : Text → Bool
is_known_attribute name =
    text_eq name (codes "class") || (text_eq name (codes "href") || text_eq name (codes "target"))

abbrev pub IsFine : Dict Text Text → Type 0
IsFine attrs = All (λ a. (is_known_attribute a.0 ≡ true) × IsPlain a.1) attrs

-- An element of one name.
unfoldable pub element : Text → Text → Text → Text
element name attrs inner =
    (b'<' ∷ (name ++ (attrs ++ b'>' ∷ []))) ++ (inner ++ (codes "</" ++ (name ++ b'>' ∷ [])))

-- Plain text, and known elements with known attributes whose values are plain, each closed.
pub data IsHtml : Text → Type 0 where
  plain : (s : Text) → IsPlain s → IsHtml s
  both : (s t : Text) → IsHtml s → IsHtml t → IsHtml (s ++ t)
  closed :
      (name inner : Text) (attrs : Dict Text Text)
      → is_known name ≡ true
      → IsFine attrs
      → IsHtml inner
      → IsHtml (element name (attributes attrs) inner)

-- The same for trees.
abbrev pub IsKnown : List Text → Type 0
IsKnown names = All (λ n. is_known n ≡ true) names

abbrev mutual
  pub IsSafe : Node → Type 0
  IsSafe (text s) = IsPlain s
  IsSafe (tag names attrs children) = IsKnown names × IsFine attrs × AreSafe children

  pub AreSafe : Nodes → Type 0
  AreSafe end = Unit
  AreSafe (node n ns) = IsSafe n × AreSafe ns

-- Where a `$` would be read as part of a replacement.
unfoldable pub has_dollar : Text → Bool
has_dollar [] = false
has_dollar (c ∷ s) = c == b'$' || has_dollar s

-- No attribute of the tree has a `$`.
unfoldable mutual
  unfolding has_dollar attributes

  pub is_literal : Node → Bool
  is_literal (text s) = true
  is_literal (tag names attrs children) =
      not (has_dollar (attributes attrs)) && are_literal children

  pub are_literal : Nodes → Bool
  are_literal end = true
  are_literal (node n ns) = is_literal n && are_literal ns

or-false : (a b : Bool) → (a || b) ≡ false → (a ≡ false) × (b ≡ false)
or-false false b h = (refl, h)
or-false true b h = cc

literal_parts : (a b : Bool) → (not a && b) ≡ true → (a ≡ false) × (b ≡ true)
literal_parts false b h = (refl, h)
literal_parts true b h = cc

both_true : (a b : Bool) → (a && b) ≡ true → (a ≡ true) × (b ≡ true)
both_true true b h = (refl, h)
both_true false b h = cc

replacement-literal :
    (before after s t : Text)
    → has_dollar s ≡ false
    → replacement false before after t ≡ t
    → replacement false before after (s ++ t) ≡ s ++ t
unfolding replacement has_dollar
replacement-literal before after [] t h e = e
replacement-literal before after (c ∷ s) t h e =
    let (other, rest) = or-false (c == b'$') (has_dollar s) h in
    rw (other, replacement) (ap (λ r. c ∷ r) (replacement-literal before after s t rest e))

start_tag-literal :
    (name : Text) (names : List Text) (attrs : Text)
    → has_dollar attrs ≡ false
    → start_tag name names attrs ≡ b'<' ∷ (name ++ (attrs ++ b'>' ∷ []))
unfolding start_tag replacement
start_tag-literal name names [] h = refl
start_tag-literal name names (c ∷ attrs) h =
    ap (λ t. b'<' ∷ (name ++ t))
      (replacement-literal (b'<' ∷ name) (start_tags names) (c ∷ attrs) (b'>' ∷ []) h refl)

wrap-IsHtml :
    (names : List Text) (attrs : Dict Text Text) (inner : Text)
    → IsKnown names
    → IsFine attrs
    → has_dollar (attributes attrs) ≡ false
    → IsHtml inner
    → IsHtml (wrap names (attributes attrs) inner)
unfolding wrap attributes element has_dollar
wrap-IsHtml [] attrs inner k f l h = h
wrap-IsHtml (name ∷ names) attrs inner k f l h =
    subst IsHtml
      (ap (λ t. t ++ (wrap names [] inner ++ (codes "</" ++ (name ++ b'>' ∷ []))))
        (sym (start_tag-literal name names (attributes attrs) l)))
      (closed name (wrap names [] inner) attrs k.0 f (wrap-IsHtml names [] inner k.1 tt refl h))

mutual
  unfolding to_html all_html is_literal are_literal

  pub to_html-IsHtml : (n : Node) → IsSafe n → is_literal n ≡ true → IsHtml (to_html n)
  to_html-IsHtml (text s) h l = plain s h
  to_html-IsHtml (tag names attrs children) (k, f, c) l =
      let (own, inner) = literal_parts (has_dollar (attributes attrs)) (are_literal children) l in
      wrap-IsHtml names attrs (all_html children) k f own (all_html-IsHtml children c inner)

  all_html-IsHtml : (ns : Nodes) → AreSafe ns → are_literal ns ≡ true → IsHtml (all_html ns)
  all_html-IsHtml end h l = plain [] tt
  all_html-IsHtml (node n ns) (h, hs) l =
      let (first, rest) = both_true (is_literal n) (are_literal ns) l in
      both (to_html n) (all_html ns) (to_html-IsHtml n h first) (all_html-IsHtml ns hs rest)
