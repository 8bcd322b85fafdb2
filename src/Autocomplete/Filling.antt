-- ===== src/Autocomplete/Filling.antt =====
-- `fillIn` loses nothing of what was typed but blanks next to the cursor, unless it replaces a word.
use convos.Prelude.{
  ℕ, ◌+◌, ◌≤◌, ◌==◌, ==_iff, ◌≡◌, refl, ap, ◌∙◌, sym, Bool, true, false, Text, [], ◌∷◌, ◌++◌, some,
  if◌then◌else◌, length, take, drop, append_assoc, append-nil, length-append, All, All-append,
  arith, Bool-cases, inl, inr,
}
use convos.I18N.Places.{take-drop}
use convos.Autocomplete.{FillParams, without_last_blank, without_first_blank, pad_left, fill_in}

-- At most `n` blanks.
pub record IsGap (n : ℕ) (gap : Text) : Type 0 where
  pub short : length gap ≤ n
  pub all_blank : All (λ c. c ≡ b' ') gap

abbrev Splits : ℕ → Text → Text → Type 0
Splits n s before = (gap : Text) × (s ≡ before ++ gap) × IsGap n gap

without_last_blank-Splits : (s : Text) → Splits 1 s (without_last_blank s)
unfolding without_last_blank
without_last_blank-Splits [] = ([], refl, record { short = omega arith; all_blank = tt })
without_last_blank-Splits (c ∷ []) = elim (Bool-cases (c == b' ')) [
  | inl e ↦
      rw (e, Splits, without_last_blank)
        (c ∷ [], refl, record { short = omega arith; all_blank = ((==_iff c b' ').0 e, tt) })
  | inr e ↦
      rw (e, Splits, without_last_blank) ([], refl, record { short = omega arith; all_blank = tt })
]
without_last_blank-Splits (c ∷ d ∷ s) =
    let (gap, e, g) = without_last_blank-Splits (d ∷ s) in (gap, ap (λ t. c ∷ t) e, g)

pad_left-Splits :
    (b : Bool) (before middle : Text) → Splits 1 before (pad_left b (before, middle)).0
unfolding pad_left
pad_left-Splits false before middle =
    ([], sym (append-nil before), record { short = omega arith; all_blank = tt })
pad_left-Splits true before middle = without_last_blank-Splits before

IsGap-append : (n m : ℕ) (a b : Text) → IsGap n a → IsGap m b → IsGap (n + m) (a ++ b)
IsGap-append n m a b g h = record {
  short = omega (arith, length-append a b, g.short, h.short);
  all_blank = All-append (λ c. c ≡ b' ') a b g.all_blank h.all_blank;
}

Splits-twice : (n m : ℕ) (s a b : Text) → Splits n s a → Splits m a b → Splits (m + n) s b
Splits-twice n m s a b (g, e, p) (h, f, q) =
    (h ++ g, e ∙ ap (λ t. t ++ g) f ∙ append_assoc b h g, IsGap-append m n h g q p)

-- A text behind a gap.
abbrev Behind : ℕ → Text → Text → Type 0
Behind n s after = (gap : Text) × (s ≡ gap ++ after) × IsGap n gap

after-Behind : (b : Bool) (s : Text) → Behind 1 s (if b then without_first_blank s else s)
unfolding without_first_blank
after-Behind false s = ([], refl, record { short = omega arith; all_blank = tt })
after-Behind true [] = ([], refl, record { short = omega arith; all_blank = tt })
after-Behind true (c ∷ s) = elim (Bool-cases (c == b' ')) [
  | inl e ↦
      rw (e, Behind, without_first_blank)
        (c ∷ [], refl, record { short = omega arith; all_blank = ((==_iff c b' ').0 e, tt) })
  | inr e ↦
      rw (e, Behind, without_first_blank) ([], refl, record { short = omega arith; all_blank = tt })
]

-- `fillIn` of a text, when no word is to be replaced: what was typed is the text before the insertion,
-- at most two blanks, at most one blank, and the text after it; nothing else is lost, wherever the
-- cursor is.
pub fill_in-keeps :
    (text : Text) (p : FillParams)
    → p.replace ≡ false
    → let r = fill_in (some text) p in
      (left : Text) × (right : Text) × (p.value ≡ r.before ++ (left ++ (right ++ r.after)))
      × IsGap 2 left
      × IsGap 1 right
unfolding fill_in
fill_in-keeps text p kept =
    let n = if p.append then length p.value else p.cursor_pos in
    let before = take n p.value in
    let after = drop n p.value in
    let once = pad_left p.append (before, text) in
    let twice = pad_left p.pad_before once in
    let (left, e, g) =
      Splits-twice 1 1 before once.0 twice.0 (pad_left-Splits p.append before text)
        (pad_left-Splits p.pad_before once.0 once.1) in
    let (right, f, h) = after-Behind p.pad_after after in
    (
      left,
      right,
      rw (kept, fill_in)
          (sym (take-drop n p.value)
            ∙ ap (λ t. t ++ after) e
            ∙ append_assoc twice.0 left after
            ∙ ap (λ t. twice.0 ++ (left ++ t)) f),
      g,
      h,
    )
