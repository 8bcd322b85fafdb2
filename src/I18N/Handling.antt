-- ===== src/I18N/Handling.antt =====
-- What each handler makes of a match: known names, plain attributes, and shorter parts.
use convos.Prelude.{
  ℕ, ◌+◌, ◌≤◌, ◌<◌, ◌==◌, ◌≡◌, refl, sym, subst, Bool, true, false, not, ◌&&◌, Text, codes,
  starts_with, List, [], ◌∷◌, ◌++◌, Option, none, some, length, drop, arith, Bool-cases, inl, inr,
  length-append, if◌then◌else◌, text_eq, text_eq_refl,
}
use convos.Prelude.Chars.{is_word, run, cut_at, Fits, cut_at-Fits}
use convos.Prelude.Dict.{Dict}
use convos.I18N.{escape}
use convos.I18N.Match.{Found, match_color}
use convos.I18N.Handlers.{
  Handled, skipped, tagged, whole, up_to, init, last_is, blank, handle_tag, handle_color,
  color_class, handle_format, format_names, handle_link,
}
use convos.I18N.Html.{IsPlain, IsFine, IsKnown}
use convos.I18N.Plain.{HasPlain, escape-IsPlain, match_color-plain, color_class-IsPlain}
use convos.I18N.Places.{Place}

-- `inner` says whether the content is read again.
abbrev pub IsGood : Bool → ℕ → Handled → Type 0
IsGood inner n (skipped t) = length t ≤ n
IsGood inner n (tagged names attrs before content after) =
    IsKnown names
    × IsFine attrs
    × (length before < n)
    × (length after < n)
    × (inner ≡ true → length content < n)

-- A match in a text of length `n`.
pub record Parts (f : Found) (n : ℕ) : Type 0 where
  pub sum : length f.before + (length f.captured + length f.after) ≡ n
  pub some_it : 1 ≤ length f.captured

up_to-IsGood :
    (mark : Text) (names : List Text) (attrs : Dict Text Text) (f : Found) (n : ℕ)
    → Parts f n
    → IsKnown names
    → IsFine attrs
    → IsGood true n (up_to mark names attrs f)
up_to-IsGood mark names attrs f n p k a = cases (cut_at mark f.after) (cut_at-Fits mark f.after)
  where
    cases :
        (o : Option (Text × Text))
        → Fits (length f.after) o
        → IsGood true n (elim o [
          | none ↦ skipped (whole f)
          | some (content, after) ↦ tagged names attrs f.before content after
        ])
    cases none h = omega (
      arith,
      p.sum,
      length-append f.before (f.captured ++ f.after),
      length-append f.captured f.after,
    )
    cases (some (content, after)) h = (
      k,
      a,
      omega (arith, p.sum, p.some_it),
      omega (arith, p.sum, p.some_it, h),
      λ e. omega (arith, p.sum, p.some_it, h),
    )

length-init-le : (s : Text) → length (init s) ≤ length s
unfolding init
length-init-le [] = omega arith
length-init-le (c ∷ []) = omega arith
length-init-le (c ∷ d ∷ s) = omega (arith, length-init-le (d ∷ s))

pub handle_tag-IsGood :
    (names : List Text) (f : Found) (n : ℕ)
    → Parts f n
    → IsKnown names
    → IsGood true n (handle_tag names f)
unfolding handle_tag
handle_tag-IsGood names f n p k = elim (Bool-cases (last_is (λ c. c == 92) f.before)) [
  | inl escaped ↦
      rw (escaped, handle_tag)
        (omega (
          arith,
          p.sum,
          length-init-le f.before,
          length-append (init f.before) (f.captured ++ f.after),
          length-append f.captured f.after,
        ))
  | inr bare ↦ rw (bare, handle_tag) (up_to-IsGood f.captured names [] f n p k tt)
]

pub handle_color-IsGood :
    (names : List Text) (f : Found) (n : ℕ)
    → Place match_color f
    → Parts f n
    → IsKnown names
    → IsGood true n (handle_color names f)
unfolding handle_color
handle_color-IsGood names f n place p k =
    let has = subst HasPlain place.found (match_color-plain place.prev (place.head ∷ place.rest)) in
    up_to-IsGood (3 ∷ []) names ((codes "class", color_class f.first f.second) ∷ []) f n p k (
      (
        ground (arith, text_eq_refl (codes "class")),
        color_class-IsPlain f.first f.second (subst IsPlain (sym place.first) has.0)
            (subst IsPlain (sym place.second) has.1),
      ),
      tt,
    )

format_names-IsKnown : (s : Text) → IsKnown (format_names s)
unfolding format_names text_eq
format_names-IsKnown [] = (refl, tt)
format_names-IsKnown (c ∷ s) = ground arith

pub handle_format-IsGood : (f : Found) (n : ℕ) → Parts f n → IsGood true n (handle_format f)
unfolding handle_format
handle_format-IsGood f n p =
    up_to-IsGood f.captured (format_names f.captured) [] f n p (format_names-IsKnown f.captured) tt

pub blank-IsFine : IsFine blank
unfolding text_eq
blank-IsFine = ((refl, (refl, (refl, (refl, (refl, (refl, (refl, tt))))))), tt)

pub href-IsFine :
    (value : Text) (attrs : Dict Text Text)
    → IsPlain value
    → IsFine attrs
    → IsFine ((codes "href", value) ∷ attrs)
unfolding text_eq
href-IsFine value attrs h k = ((refl, h), k)

pub handle_link-IsGood :
    (names : List Text) (f : Found) (n : ℕ)
    → Parts f n
    → IsKnown names
    → IsGood false n (handle_link names f)
unfolding handle_link
handle_link-IsGood names f n p k = (
  k,
  href-IsFine (escape f.second) _ (escape-IsPlain f.second) (
      target (
        not (run is_word f.second == 0)
        && starts_with (drop (run is_word f.second) f.second) (b':' ∷ []))),
  omega (arith, p.sum, p.some_it),
  omega (arith, p.sum, p.some_it),
  λ e. cc,
)
  where
    target : (b : Bool) → IsFine (if b then blank else [])
    target true = blank-IsFine
    target false = tt
