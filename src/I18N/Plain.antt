-- ===== src/I18N/Plain.antt =====
-- Which texts have no markup: what `escape` gives, the numbers of a color and its class.
use convos.Prelude.{
  ℕ, zero, suc, ◌≤◌, ◌==◌, ◌≡◌, refl, Bool, true, false, not, ◌&&◌, Text, codes, [], ◌∷◌, ◌++◌,
  Option, none, some, take, drop, arith, All, All-append, Bool-cases, inl, inr,
}
use convos.Prelude.Chars.{is_digit, run}
use convos.I18N.{escape, escape_char}
use convos.I18N.Match.{Match, digits, color_more, match_color}
use convos.I18N.Handlers.{without_zero, color_class}
use convos.I18N.Html.{is_markup, IsPlain}

escape_char-IsPlain : (c : ℕ) → IsPlain (escape_char c)
unfolding escape_char
escape_char-IsPlain c = ground arith

pub escape-IsPlain : (s : Text) → IsPlain (escape s)
unfolding escape
escape-IsPlain [] = tt
escape-IsPlain (c ∷ s) =
    All-append (λ c. is_markup c ≡ false) (escape_char c) (escape s) (escape_char-IsPlain c)
      (escape-IsPlain s)

take-run : (p : ℕ → Bool) (n : ℕ) (s : Text) → n ≤ run p s → All (λ c. p c ≡ true) (take n s)
unfolding run
take-run p zero s h = tt
take-run p (suc n) [] h = tt
take-run p (suc n) (c ∷ s) h = ground (arith, take-run p n s)

digit-plain : (c : ℕ) → is_digit c ≡ true → is_markup c ≡ false
unfolding is_digit
digit-plain c h = ground arith

all_digits-IsPlain : (s : Text) → All (λ c. is_digit c ≡ true) s → IsPlain s
all_digits-IsPlain [] h = tt
all_digits-IsPlain (c ∷ s) h = (digit-plain c h.0, all_digits-IsPlain s h.1)

digits-IsPlain : (s : Text) → IsPlain (take (digits s) s)
unfolding digits
digits-IsPlain s =
    all_digits-IsPlain (take (digits s) s) (take-run is_digit (digits s) s (ground arith))

abbrev pub HasPlain : Option Match → Type 0
HasPlain none = Unit
HasPlain (some r) = IsPlain r.first × IsPlain r.second

color_more-IsPlain :
    (fg s : Text) → IsPlain fg → IsPlain (color_more fg s).first × IsPlain (color_more fg s).second
unfolding color_more
color_more-IsPlain fg [] h = (h, tt)
color_more-IsPlain fg (c ∷ s) h = elim (Bool-cases (c == b',' && not (digits s == 0))) [
  | inl e ↦ rw (e, color_more) (h, digits-IsPlain s)
  | inr e ↦ rw (e, color_more) (h, tt)
]

pub match_color-plain : (prev : Option ℕ) (s : Text) → HasPlain (match_color prev s)
unfolding match_color
match_color-plain prev [] = tt
match_color-plain prev (c ∷ s) = elim (Bool-cases (c == 3 && not (digits s == 0))) [
  | inl e ↦
      rw (e, match_color)
        (color_more-IsPlain (take (digits s) s) (drop (digits s) s) (digits-IsPlain s))
  | inr e ↦ rw (e, match_color) tt
]

without_zero-IsPlain : (s : Text) → IsPlain s → IsPlain (without_zero s)
without_zero-IsPlain [] h = tt
without_zero-IsPlain (c ∷ []) h = h
without_zero-IsPlain (c ∷ d ∷ s) h = elim (Bool-cases (c == b'0')) [
  | inl e ↦ rw e h.1
  | inr e ↦ rw e h
]

pub append-IsPlain : (s t : Text) → IsPlain s → IsPlain t → IsPlain (s ++ t)
append-IsPlain s t = All-append (λ c. is_markup c ≡ false) s t

pub color_class-IsPlain : (fg bg : Text) → IsPlain fg → IsPlain bg → IsPlain (color_class fg bg)
unfolding color_class
color_class-IsPlain fg [] h k =
    append-IsPlain (codes "text-") (without_zero fg) (refl, (refl, (refl, (refl, (refl, tt)))))
      (without_zero-IsPlain fg h)
color_class-IsPlain fg (c ∷ bg) h k =
    append-IsPlain (codes "bg-" ++ ((c ∷ bg) ++ codes " ")) (codes "text-" ++ without_zero fg)
      (append-IsPlain (codes "bg-") ((c ∷ bg) ++ codes " ") (refl, (refl, (refl, tt)))
        (append-IsPlain (c ∷ bg) (codes " ") k (refl, tt)))
      (append-IsPlain (codes "text-") (without_zero fg) (refl, (refl, (refl, (refl, (refl, tt)))))
        (without_zero-IsPlain fg h))
