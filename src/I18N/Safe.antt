-- ===== src/I18N/Safe.antt =====
-- `_makeTag` always ends, and its tree prints as HTML of the grammar, whatever the text.
use convos.Prelude.{
  ℕ, zero, suc, ◌≤◌, ◌<◌, ◌≡◌, refl, subst, Bool, true, false, Text, codes, text_eq, starts_with,
  List, [], ◌∷◌, Option, none, some, length, drop, length-drop, arith, All, Bool-cases, inl, inr,
}
use convos.Prelude.Dict.{Dict}
use convos.I18N.{escape}
use convos.I18N.Match.{Matcher, Found, find_from, match_color, match_url, match_channel}
use convos.I18N.Handlers.{
  Handler, md_tag, irc_color, irc_format, md_link, md_url, md_channel, Handled, skipped, tagged,
  handle,
}
use convos.I18N.Markdown.{
  Node, Nodes, text, tag, end, node, Rule, make_rules, Outcome, no_rule, matched, go_on, try_rules,
  optional, around, make_tag, make_top,
}
use convos.I18N.Html.{
  IsPlain, IsKnown, IsFine, IsSafe, AreSafe, IsHtml, to_html, to_html-IsHtml, is_literal,
}
use convos.I18N.Places.{Cuts, Place, find_from-Cuts, length-parts}
use convos.I18N.Plain.{escape-IsPlain}
use convos.I18N.Handling.{
  IsGood, Parts, handle_tag-IsGood, handle_color-IsGood, handle_format-IsGood, handle_link-IsGood,
}
use convos.I18N.Links.{handle_url-IsGood, handle_channel-IsGood}

-- Whose content may be read again.
abbrev is_inner : Handler → Bool
is_inner md_tag = true
is_inner irc_color = true
is_inner irc_format = true
is_inner md_link = false
is_inner md_url = false
is_inner md_channel = false

-- The handlers that rely on their regular expression.
abbrev Suits : Handler → Matcher → Type 0
Suits md_tag m = Unit
Suits irc_color m = m ≡ match_color
Suits irc_format m = Unit
Suits md_link m = Unit
Suits md_url m = m ≡ match_url
Suits md_channel m = m ≡ match_channel

record IsRule (r : Rule) : Type 0 where
  known : IsKnown r.names
  suits : Suits r.handler r.matcher
  inner : r.nested ≡ true → is_inner r.handler ≡ true

make_rules-All : All IsRule make_rules
unfolding make_rules text_eq
make_rules-All = (
  record { known = (refl, tt); suits = tt; inner = λ e. refl },
  (
    record { known = (refl, (refl, tt)); suits = tt; inner = λ e. refl },
    (
      record { known = (refl, tt); suits = tt; inner = λ e. refl },
      (
        record { known = (refl, tt); suits = tt; inner = λ e. refl },
        (
          record { known = (refl, tt); suits = refl; inner = λ e. refl },
          (
            record { known = (refl, tt); suits = tt; inner = λ e. refl },
            (
              record { known = (refl, tt); suits = tt; inner = λ e. cc },
              (
                record { known = (refl, tt); suits = refl; inner = λ e. cc },
                (record { known = (refl, tt); suits = refl; inner = λ e. cc }, tt),
              ),
            ),
          ),
        ),
      ),
    ),
  ),
)

-- No attribute of the tree, if there is one, has a `$`.
abbrev pub HasNoDollar : Option Node → Type 0
HasNoDollar none = Unit
HasNoDollar (some n) = is_literal n ≡ true

module _ (encode_uri_component : Text → Text)
    (keeps : (s : Text) → IsPlain (encode_uri_component s)) where
  handle-IsGood :
      (h : Handler) (names : List Text) (m : Matcher) (f : Found) (n : ℕ)
      → Suits h m
      → Place m f
      → Parts f n
      → IsKnown names
      → IsGood (is_inner h) n (handle encode_uri_component h names f)
  unfolding handle
  handle-IsGood md_tag names m f n s place p k = handle_tag-IsGood names f n p k
  handle-IsGood irc_color names m f n s place p k =
      handle_color-IsGood names f n (subst (λ m. Place m f) s place) p k
  handle-IsGood irc_format names m f n s place p k = handle_format-IsGood f n p
  handle-IsGood md_link names m f n s place p k = handle_link-IsGood names f n p k
  handle-IsGood md_url names m f n s place p k =
      handle_url-IsGood names f n (subst (λ m. Place m f) s place) p k
  handle-IsGood md_channel names m f n s place p k =
      handle_channel-IsGood encode_uri_component keeps names f n (subst (λ m. Place m f) s place) p
        k

  -- A tag that was found in a text of length at most `n`.
  abbrev IsTag : ℕ → Outcome → Type 0
  IsTag n (no_rule t) = Unit
  IsTag n (matched names attrs nested before content after) =
      IsKnown names
      × IsFine attrs
      × (length before < n)
      × (length after < n)
      × (nested ≡ true → length content < n)

  go_on-IsTag :
      (h : Handler) (nested : Bool) (rest : Text → Outcome) (n : ℕ) (o : Handled)
      → (nested ≡ true → is_inner h ≡ true)
      → ((t : Text) → length t ≤ n → IsTag n (rest t))
      → IsGood (is_inner h) n o
      → IsTag n (go_on nested rest o)
  go_on-IsTag h nested rest n (skipped t) i r g = r t g
  go_on-IsTag h nested rest n (tagged names attrs before content after) i r (k, a, b, c, d) =
      (k, a, b, c, λ e. d (i e))

  weaken : (inner : Bool) (m n : ℕ) (o : Handled) → m ≤ n → IsGood inner m o → IsGood inner n o
  weaken inner m n (skipped t) h g = omega (arith, g)
  weaken inner m n (tagged names attrs before content after) h (k, a, b, c, d) =
      (k, a, omega (arith, b), omega (arith, c), λ e. omega (arith, d e))

  rule-IsTag :
      (r : Rule) (rules : List Rule) (n : ℕ) (s : Text)
      → IsRule r
      → length s ≤ n
      → ((t : Text) → length t ≤ n → IsTag n (try_rules encode_uri_component rules t))
      → (o : Option Found) → Cuts r.matcher s o
      → IsTag n (elim o [
        | none ↦ try_rules encode_uri_component rules s
        | some f ↦
            go_on r.nested
              (try_rules encode_uri_component rules)
              (handle encode_uri_component r.handler r.names f)
      ])
  rule-IsTag r rules n s a h rest none c = rest s h
  rule-IsTag r rules n s a h rest (some f) c =
      let parts = length-parts r.matcher f s c in
      go_on-IsTag r.handler r.nested (try_rules encode_uri_component rules) n
        (handle encode_uri_component r.handler r.names f) a.inner rest
        (weaken (is_inner r.handler) (length s) n (handle encode_uri_component r.handler r.names f)
          h
          (handle-IsGood r.handler r.names r.matcher f (length s) a.suits c.1
            (record { sum = parts.0; some_it = parts.1 }) a.known))

  try_rules-IsTag :
      (rules : List Rule) (n : ℕ) (s : Text)
      → All IsRule rules
      → length s ≤ n
      → IsTag n (try_rules encode_uri_component rules s)
  unfolding try_rules
  try_rules-IsTag [] n s a h = tt
  try_rules-IsTag (r ∷ rules) n s (a, more) h =
      rule-IsTag r rules n s a h (λ t l. try_rules-IsTag rules n t more l)
        (find_from r.matcher none s) (find_from-Cuts r.matcher none s)

  abbrev IsDone : Option Node → Type 0
  IsDone none = ⊥
  IsDone (some n) = IsSafe n

  abbrev AreDone : Option Nodes → Type 0
  AreDone none = ⊥
  AreDone (some ns) = AreSafe ns

  optional-AreDone :
      (s : Text) (o : Option Node) (rest : Nodes)
      → IsDone o
      → AreSafe rest
      → AreDone (optional encode_uri_component s o rest)
  optional-AreDone [] o rest d h = h
  optional-AreDone (c ∷ s) none rest d h = d
  optional-AreDone (c ∷ s) (some n) rest d h = (d, h)

  around-IsDone :
      (names : List Text) (attrs : Dict Text Text) (before after : Text) (b c a : Option Node)
      → IsKnown names
      → IsFine attrs
      → IsDone b
      → IsDone c
      → IsDone a
      → IsDone (around encode_uri_component names attrs before after b c a)
  around-IsDone names attrs before after none c a k f x y z = elim x [ ]
  around-IsDone names attrs before after (some b) none a k f x y z = elim y [ ]
  around-IsDone names attrs before after (some b) (some c) none k f x y z = elim z [ ]
  around-IsDone names attrs [] [] (some b) (some c) (some a) k f x y z =
      (tt, tt, ((k, f, (y, tt)), tt))
  around-IsDone names attrs [] (d ∷ after) (some b) (some c) (some a) k f x y z =
      (tt, tt, ((k, f, (y, tt)), (z, tt)))
  around-IsDone names attrs (d ∷ before) [] (some b) (some c) (some a) k f x y z =
      (tt, tt, (x, ((k, f, (y, tt)), tt)))
  around-IsDone names attrs (d ∷ before) (e ∷ after) (some b) (some c) (some a) k f x y z =
      (tt, tt, (x, ((k, f, (y, tt)), (z, tt))))

  outcome-IsDone :
      (fuel n : ℕ) (o : Outcome)
      → n < suc fuel
      → ((all : Bool) (t : Text)
          → (all ≡ true → length t < fuel)
          → 1 ≤ fuel
          → IsDone (make_tag encode_uri_component fuel all t))
      → IsTag n o
      → IsDone (elim o [
        | no_rule t ↦ some (tag [] [] (node (text (escape t)) end))
        | matched names attrs nested before content after ↦
            around encode_uri_component names attrs before after
              (make_tag encode_uri_component fuel true before)
              (make_tag encode_uri_component fuel nested content)
              (make_tag encode_uri_component fuel true after)
      ])
  outcome-IsDone fuel n (no_rule t) h make g = (tt, tt, (escape-IsPlain t, tt))
  outcome-IsDone fuel n (matched names attrs nested before content after) h make (k, f, b, a, c) =
      around-IsDone names attrs before after (make_tag encode_uri_component fuel true before)
        (make_tag encode_uri_component fuel nested content)
        (make_tag encode_uri_component fuel true after) k f
        (make true before (λ e. omega (arith, h, b)) (omega (arith, h, b)))
        (make nested content (λ e. omega (arith, h, c e)) (omega (arith, h, b)))
        (make true after (λ e. omega (arith, h, a)) (omega (arith, h, b)))

  make_tag-IsDone :
      (fuel : ℕ) (all : Bool) (s : Text)
      → (all ≡ true → length s < fuel)
      → 1 ≤ fuel
      → IsDone (make_tag encode_uri_component fuel all s)
  unfolding make_tag try_rules
  make_tag-IsDone zero all s h k = absurd (omega (arith, k))
  make_tag-IsDone (suc fuel) false s h k = (tt, tt, (escape-IsPlain s, tt))
  make_tag-IsDone (suc fuel) true s h k =
      outcome-IsDone fuel (length s) (try_rules encode_uri_component make_rules s) (h refl)
        (make_tag-IsDone fuel)
        (try_rules-IsTag make_rules (length s) s make_rules-All (omega arith))

  abbrev IsPrinted : Option Node → Type 0
  IsPrinted o = (n : Node) × (o ≡ some n) × IsSafe n × IsHtml (to_html n)

  IsDone-IsPrinted : (o : Option Node) → HasNoDollar o → IsDone o → IsPrinted o
  IsDone-IsPrinted none l d = elim d [ ]
  IsDone-IsPrinted (some n) l d = (n, refl, d, to_html-IsHtml n d l)

  quotation-IsDone :
      (o : Option Node)
      → IsDone o
      → IsDone
          (elim o [ none ↦ none | some n ↦ some (tag (codes "blockquote" ∷ []) [] (node n end)) ])
  unfolding text_eq
  quotation-IsDone none d = d
  quotation-IsDone (some n) d = ((refl, tt), tt, (d, tt))

  -- For every text whose tag tree, if one is made, has no `$` in an attribute: the tree is made, also
  -- when tags are nested or not closed; it has escaped text, and tags of the known names with known
  -- attributes whose values are plain; and as HTML it is plain text and closed elements of these names
  -- and attributes only, so that no character of the text is read as markup. `encodeURIComponent` is
  -- taken to give no markup character.
  pub make_top-IsHtml :
      (s : Text)
      → HasNoDollar (make_top encode_uri_component s)
      → (n : Node) × (make_top encode_uri_component s ≡ some n) × IsSafe n × IsHtml (to_html n)
  unfolding make_top
  make_top-IsHtml s literal =
      IsDone-IsPrinted (make_top encode_uri_component s) literal
        (elim (Bool-cases (starts_with s (codes "> "))) [
          | inl e ↦ rw e (
              quotation-IsDone
                (make_tag encode_uri_component (suc (suc (length s))) true (drop 2 s))
                (make_tag-IsDone (suc (suc (length s))) true (drop 2 s)
                  (λ t. omega (arith, length-drop 2 s)) (omega arith)))
          | inr e ↦
              rw e (make_tag-IsDone (suc (suc (length s))) true s (λ t. omega arith) (omega arith))
        ])
