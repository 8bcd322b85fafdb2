-- ===== src/I18N/Tests.antt =====
-- Some messages as HTML.
use convos.Prelude.{
  ◌≡◌, refl, Text, codes, [], ◌∷◌, Option, some, if◌then◌else◌, Bool-cases, inl, inr,
}
use convos.I18N.Markdown.{Node, make_top}
use convos.I18N.Html.{md, IsSafe, is_markup, IsPlain, IsHtml, to_html}
use convos.I18N.Safe.{make_top-IsHtml}

-- An encoding that writes a markup character as "%".
abbrev percent : Text → Text
percent [] = []
percent (c ∷ s) = (if is_markup c then b'%' else c) ∷ percent s

percent-IsPlain : (s : Text) → IsPlain (percent s)
percent-IsPlain [] = tt
percent-IsPlain (c ∷ s) = elim (Bool-cases (is_markup c)) [
  | inl e ↦ rw (e, percent) (refl, percent-IsPlain s)
  | inr e ↦ rw (e, percent) (e, percent-IsPlain s)
]

abbrev shown : Text → Option Text
shown = md percent (λ s. s)

strong : shown (codes "a *b* <i>") ≡ some (codes "a <em>b</em> &lt;i&gt;")
unfolding md convos.I18N.Match.match_code convos.I18N.Match.match_stars
    convos.Prelude.Chars.is_space convos.Prelude.Chars.cut_at convos.I18N.Match.match_color
    convos.I18N.Match.match_format convos.I18N.Match.match_link convos.I18N.Match.match_url
    convos.I18N.Match.match_channel convos.Prelude.Chars.is_word convos.I18N.Html.wrap
    convos.I18N.escape convos.I18N.Html.attributes
strong = refl

linked : shown (codes "see #convos") ≡ some (codes "see <a href=\"./#convos\">#convos</a>")
unfolding md convos.I18N.Match.match_code convos.I18N.Match.match_stars
    convos.Prelude.Chars.is_space convos.I18N.Match.match_color convos.I18N.Match.match_format
    convos.I18N.Match.match_link convos.I18N.Match.match_url convos.I18N.Match.match_channel
    convos.Prelude.Chars.is_word convos.I18N.Html.wrap convos.I18N.escape
    convos.I18N.Html.attributes
linked = refl

quoted : shown (codes "> a") ≡ some (codes "<blockquote>a</blockquote>")
unfolding md convos.I18N.Match.match_code convos.I18N.Match.match_stars
    convos.I18N.Match.match_color convos.I18N.Match.match_format convos.I18N.Match.match_link
    convos.I18N.Match.match_url convos.I18N.Match.match_channel convos.Prelude.Chars.is_space
    convos.I18N.Html.wrap convos.I18N.Html.attributes convos.I18N.escape
quoted = refl

make_top-IsHtml_example :
    (n : Node) × (make_top percent (codes "*a <b>* #c") ≡ some n) × IsSafe n × IsHtml (to_html n)
unfolding md convos.I18N.Match.match_code convos.I18N.Match.match_stars
    convos.Prelude.Chars.is_space convos.Prelude.Chars.cut_at convos.I18N.Match.match_color
    convos.I18N.Match.match_format convos.I18N.Match.match_link convos.I18N.Match.match_url
    convos.Prelude.Chars.is_word convos.I18N.Match.match_channel convos.I18N.Html.is_literal
make_top-IsHtml_example = make_top-IsHtml percent percent-IsPlain (codes "*a <b>* #c") refl

-- A `$&` in a link puts the `>` of the start tag into the attribute.
dollar :
    shown (codes "https://a/$&")
    ≡ some (codes "<a href=\"https://a/>amp;\" target=\"_blank\">a/$&amp;</a>")
unfolding md convos.I18N.Match.match_code convos.I18N.Match.match_stars
    convos.Prelude.Chars.is_space convos.I18N.Match.match_color convos.I18N.Match.match_format
    convos.I18N.Match.match_link convos.I18N.Match.match_url convos.I18N.Match.match_channel
    convos.Prelude.Chars.is_word convos.I18N.Html.wrap convos.I18N.escape
    convos.I18N.Html.attributes
dollar = refl
