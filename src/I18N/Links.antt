-- ===== src/I18N/Links.antt =====
-- The handlers of URLs and of the names of channels: known names, plain attributes, shorter parts.
use convos.Prelude.{
  ℕ, ◌-◌, ◌≤◌, ◌<◌, ◌==◌, ◌≡◌, ◌≢◌, refl, ap, subst, Bool, true, false, not, ◌&&◌, Text, codes,
  List, [], ◌∷◌, ◌++◌, Option, none, some, length, take, drop, arith, Bool-cases, inl, inr,
  length-append, length-take, if◌then◌else◌,
}
use convos.Prelude.Chars.{is_space, run}
use convos.I18N.{escape}
use convos.I18N.Match.{Match, Found, plain, match_url, match_channel, scheme, channel, at_word}
use convos.I18N.Handlers.{
  init, last_is, last_of, is_stop, blank, handle_url, handle_channel, channel_link,
}
use convos.I18N.Html.{IsPlain, IsKnown}
use convos.I18N.Plain.{escape-IsPlain, append-IsPlain}
use convos.I18N.Places.{Place}
use convos.I18N.Handling.{IsGood, Parts, blank-IsFine, href-IsFine}

-- A URL begins with a letter, so that its only character is no stop.
abbrev NoStop : ℕ → Option Match → Type 0
NoStop c none = Unit
NoStop c (some r) = is_stop c ≡ false

scheme_stop : (c : ℕ) (s : Text) → is_stop c ≡ true → scheme (c ∷ s) ≡ 0
unfolding scheme
scheme_stop c s h = ground arith

letter-NoStop : (c : ℕ) (o : Option Match) → is_stop c ≡ false → NoStop c o
letter-NoStop c none h = tt
letter-NoStop c (some r) h = h

unmatched-NoStop :
    (c n : ℕ) (b m : Bool) (r : Match)
    → n ≡ 0
    → NoStop c (if b && (not (n == 0) && m) then some r else none)
unmatched-NoStop c n true m r h = rw h tt
unmatched-NoStop c n false m r h = tt

match_url-NoStop : (prev : Option ℕ) (c : ℕ) (s : Text) → NoStop c (match_url prev (c ∷ s))
unfolding match_url
match_url-NoStop prev c s = elim (Bool-cases (is_stop c)) [
  | inl stop ↦
      unmatched-NoStop c (scheme (c ∷ s)) (at_word prev)
        (not (run (λ d. not (is_space d)) (drop (scheme (c ∷ s)) (c ∷ s)) == 0)) _
        (scheme_stop c s stop)
  | inr letter ↦ letter-NoStop c (match_url prev (c ∷ s)) letter
]

length-last_of : (s : Text) → length (last_of s) ≤ 1
length-last_of [] = omega arith
length-last_of (c ∷ []) = omega arith
length-last_of (c ∷ d ∷ s) = length-last_of (d ∷ s)

-- A stop that is split off is not the whole match.
stop-long :
    (captured : Text) (c : ℕ) (t : Text)
    → captured ≡ c ∷ t
    → is_stop c ≡ false
    → last_is is_stop captured ≡ true
    → 2 ≤ length captured
unfolding last_is
stop-long [] c t e h k = cc
stop-long (d ∷ []) c t e h k = cc
stop-long (d ∷ x ∷ s) c t e h k = omega arith

pub handle_url-IsGood :
    (names : List Text) (f : Found) (n : ℕ)
    → Place match_url f
    → Parts f n
    → IsKnown names
    → IsGood false n (handle_url names f)
unfolding handle_url
handle_url-IsGood names f n place p k = elim (Bool-cases (last_is is_stop f.captured)) [
  | inl stop ↦
      let first =
        subst (NoStop place.head) place.found (match_url-NoStop place.prev place.head place.rest) in
      let long =
        stop-long f.captured place.head (take place.result.more place.rest) place.captured first
          stop in
      rw (stop, handle_url)
        (
          k,
          href-IsFine (escape (init f.captured)) blank (escape-IsPlain (init f.captured))
              blank-IsFine,
          omega (arith, p.sum, p.some_it),
          omega (
            arith,
            p.sum,
            long,
            length-last_of f.captured,
            length-append (last_of f.captured) f.after,
          ),
          λ e. cc,
        )
  | inr no_it ↦
      rw (no_it, handle_url)
        (
          k,
          href-IsFine (escape f.captured) blank (escape-IsPlain f.captured) blank-IsFine,
          omega (arith, p.sum, p.some_it),
          omega (arith, p.sum, p.some_it),
          λ e. cc,
        )
]

abbrev IsLong : Text → Option Match → Type 0
IsLong s none = Unit
IsLong s (some r) = 1 ≤ length (take r.more s)

channel-long : (s : Text) → channel s ≢ 0 → (2 ≤ channel s) × (2 ≤ length s)
unfolding channel
channel-long [] h = absurd (h refl)
channel-long (c ∷ []) h = absurd (h refl)
channel-long (c ∷ d ∷ s) h = ground arith

length-take-pos : (n : ℕ) (s : Text) → 1 ≤ n → 1 ≤ length s → 1 ≤ length (take n s)
length-take-pos n s h k = omega (arith, length-take n s)

IsLong-if :
    (s : Text) (n m : ℕ) (b a : Bool)
    → (n ≢ 0 → (2 ≤ n) × (2 ≤ length s))
    → (m ≢ 0 → (2 ≤ m) × (1 ≤ length s))
    → IsLong s (
        if b && not (n == 0)
        then some (plain n)
        else if a && not (m == 0)
        then some (plain (m - 1))
        else none)
IsLong-if s n m b a h k = ground (arith, length-take n s, length-take (m - 1) s)

match_channel-IsLong : (prev : Option ℕ) (c : ℕ) (s : Text) → IsLong s (match_channel prev (c ∷ s))
unfolding match_channel
match_channel-IsLong prev c s =
    IsLong-if s (channel s) (channel (c ∷ s)) (is_space c) _ (channel-long s)
      (λ h. let long = channel-long (c ∷ s) h in (long.0, omega (arith, long.1)))

module _ (encode_uri_component : Text → Text)
    (keeps : (s : Text) → IsPlain (encode_uri_component s)) where
  channel_link-IsGood :
      (names : List Text) (before channel after : Text) (n : ℕ)
      → IsKnown names
      → length before < n
      → length after < n
      → IsGood false n (channel_link encode_uri_component names before channel after)
  channel_link-IsGood names before channel after n k b a = (
    k,
    href-IsFine (codes "./" ++ encode_uri_component channel) []
        (append-IsPlain (codes "./") (encode_uri_component channel) (refl, (refl, tt))
          (keeps channel))
        tt,
    b,
    a,
    λ e. cc,
  )

  pub handle_channel-IsGood :
      (names : List Text) (f : Found) (n : ℕ)
      → Place match_channel f
      → Parts f n
      → IsKnown names
      → IsGood false n (handle_channel encode_uri_component names f)
  unfolding handle_channel
  handle_channel-IsGood names f n place p k =
      let long =
        subst (IsLong place.rest) place.found
          (match_channel-IsLong place.prev place.head place.rest) in
      let size = ap length place.captured in
      let w = take place.result.more place.rest in
      rw (place.captured, handle_channel)
        (elim (Bool-cases (is_space place.head)) [
          | inl spaced ↦ rw spaced (
              channel_link-IsGood names (f.before ++ place.head ∷ []) w f.after n k
                (omega (arith, p.sum, size, long, length-append f.before (place.head ∷ [])))
                (omega (arith, p.sum, size)))
          | inr first ↦ rw first (
              channel_link-IsGood names f.before (place.head ∷ w) f.after n k
                (omega (arith, p.sum, p.some_it)) (omega (arith, p.sum, p.some_it)))
        ])
