-- ===== src/I18N/Places.antt =====
-- What the search for a match gives: the text cut in three, the middle being what the matcher takes.
use convos.Prelude.{
  ℕ, zero, suc, ◌+◌, ◌≤◌, ◌≡◌, refl, ap, Text, List, [], ◌∷◌, ◌++◌, Option, none, some, length,
  take, drop, arith, Option-cases, inl, inr, length-append,
}
use convos.I18N.Match.{Match, Matcher, Found, later, find_from}

-- A match of `m` somewhere in `s`.
pub record Place (m : Matcher) (f : Found) : Type 0 where
  pub prev : Option ℕ
  pub head : ℕ
  pub rest : Text
  pub result : Match
  pub found : m prev (head ∷ rest) ≡ some result
  pub captured : f.captured ≡ head ∷ take result.more rest
  pub first : f.first ≡ result.first
  pub second : f.second ≡ result.second

pub take-drop : {A : Type 0} (n : ℕ) (s : List A) → take n s ++ drop n s ≡ s
take-drop zero s = refl
take-drop (suc n) [] = refl
take-drop (suc n) (x ∷ s) = ap (λ l. x ∷ l) (take-drop n s)

abbrev pub Cuts : Matcher → Text → Option Found → Type 0
Cuts m s none = Unit
Cuts m s (some f) = (f.before ++ (f.captured ++ f.after) ≡ s) × Place m f

Cuts-later :
    (m : Matcher) (c : ℕ) (s : Text) (o : Option Found) → Cuts m s o → Cuts m (c ∷ s) (later c o)
Cuts-later m c s none h = tt
Cuts-later m c s (some f) (e, p) = (
  ap (λ l. c ∷ l) e,
  record {
    prev = p.prev;
    head = p.head;
    rest = p.rest;
    result = p.result;
    found = p.found;
    captured = p.captured;
    first = p.first;
    second = p.second;
  },
)

pub find_from-Cuts : (m : Matcher) (prev : Option ℕ) (s : Text) → Cuts m s (find_from m prev s)
unfolding find_from
find_from-Cuts m prev [] = tt
find_from-Cuts m prev (c ∷ s) = elim (Option-cases (m prev (c ∷ s))) [
  | inl e ↦
      rw (e, find_from) (Cuts-later m c s (find_from m (some c) s) (find_from-Cuts m (some c) s))
  | inr (r, e) ↦
      rw (e, find_from)
        (
          ap (λ l. c ∷ l) (take-drop r.more s),
          record {
            prev = prev;
            head = c;
            rest = s;
            result = r;
            found = e;
            captured = refl;
            first = refl;
            second = refl;
          },
        )
]

-- The lengths of the three parts.
pub length-parts :
    (m : Matcher) (f : Found) (s : Text)
    → Cuts m s (some f)
    → (length f.before + (length f.captured + length f.after) ≡ length s) × (1 ≤ length f.captured)
length-parts m f s (e, p) = (
  let l = ap length e in
      omega (
        arith,
        l,
        length-append f.before (f.captured ++ f.after),
        length-append f.captured f.after,
      ),
  let l = ap length p.captured in omega (arith, l),
)
