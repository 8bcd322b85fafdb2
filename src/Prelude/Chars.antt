-- ===== src/Prelude/Chars.antt =====
-- The character classes of regular expressions, on UTF-16 code units, and the functions on texts
-- that scan with them.
use Prim.Native.Nat.{ℕ, suc, ◌+◌, ◌≤◌}
use mathlib.Core.Logic.{inl, inr}
use mathlib.Core.Bool.{Bool, ◌&&◌, ◌||◌}
use mathlib.Core.List.{[], ◌∷◌}
use mathlib.Core.Option.{Option, none, some}
use native.Mathlib.Omega.{arith}
use convos.Prelude.Tests.{◌==◌, leb, Bool-cases, if◌then◌else◌}
use convos.Prelude.Lists.{length, drop, length-drop}
use convos.Prelude.Texts.{Text, starts_with}

-- The characters of `\s`.
unfoldable pub is_space : ℕ → Bool
is_space c =
    leb 9 c && leb c 13
    || (c == 32
        || (c == 160
            || (c == 5760
                || (leb 8192 c && leb c 8202
                    || (c == 8232
                        || (c == 8233
                            || (c == 8239 || (c == 8287 || (c == 12288 || c == 65279)))))))))

-- `\d`, `[a-zA-Z]` and `\w`
unfoldable pub is_digit : ℕ → Bool
is_digit c = leb b'0' c && leb c b'9'

unfoldable pub is_letter : ℕ → Bool
is_letter c = leb b'a' c && leb c b'z' || leb b'A' c && leb c b'Z'

unfoldable pub is_word : ℕ → Bool
unfolding is_digit is_letter
is_word c = is_digit c || (is_letter c || c == b'_')

-- How many characters at the head are of a class.
unfoldable pub run : (ℕ → Bool) → Text → ℕ
run p [] = 0
run p (c ∷ s) = let rest = run p s in if p c then suc rest else 0

-- One character more before a cut.
abbrev further : ℕ → Option (Text × Text) → Option (Text × Text)
further c none = none
further c (some (before, after)) = some (c ∷ before, after)

-- `s.indexOf(t)`: what stands before and behind the first place, if there is one. (An empty `t` is
-- not asked for.)
unfoldable pub cut_at : Text → Text → Option (Text × Text)
cut_at t [] = none
cut_at t (c ∷ s) =
    let rest = further c (cut_at t s) in
    if starts_with (c ∷ s) t then some ([], drop (length t) (c ∷ s)) else rest

-- The lengths of what a cut leaves.
abbrev pub Fits : ℕ → Option (Text × Text) → Type 0
Fits n none = Unit
Fits n (some (before, after)) = length before + length after ≤ n

Fits-further : (c n : ℕ) (o : Option (Text × Text)) → Fits n o → Fits (suc n) (further c o)
Fits-further c n none h = tt
Fits-further c n (some (before, after)) h = omega (arith, h)

pub cut_at-Fits : (t s : Text) → Fits (length s) (cut_at t s)
unfolding cut_at
cut_at-Fits t [] = tt
cut_at-Fits t (c ∷ s) = elim (Bool-cases (starts_with (c ∷ s) t)) [
  | inl here ↦ rw (here, cut_at) (omega (arith, length-drop (length t) (c ∷ s)))
  | inr elsewhere ↦
      rw (elsewhere, cut_at) (Fits-further c (length s) (cut_at t s) (cut_at-Fits t s))
]
