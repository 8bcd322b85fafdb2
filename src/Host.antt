-- ===== src/Host.antt =====
-- What the browser gives and the repository does not implement: the Unicode tables behind
-- `toLowerCase` and `localeCompare`, and the floating point part of the colour of a hash
-- (`hsvToRgb` in assets/js/util.js, which is not modelled).
use convos.Prelude.{
  ℕ, ◌≡◌, refl, Bool, true, false, Text, ◌+◌, leb, ltb, if◌then◌else◌, ◌&&◌, [], ◌∷◌, map, arith,
  ◌==◌,
}

pub record Host : Type 0 where
  -- `s.toLowerCase()`
  pub to_lower_case : Text → Text
  -- `a.localeCompare(b) > 0`
  pub locale_gt : Text → Text → Bool
  -- `'#' + hsvToRgb(((hash + goldenRatio) % 1), 0.4, 0.7)…` for the hash `n / colors`
  pub hue_color : ℕ → ℕ → Text

-- Documented behaviour: the order of `localeCompare` is consistent.
pub record IsCollation (gt : Text → Text → Bool) : Type 0 where
  pub asym : (a b : Text) → gt a b ≡ true → gt b a ≡ false
  pub trans : (a b c : Text) → gt a b ≡ false → gt b c ≡ false → gt a c ≡ false

-- A browser that knows ASCII only, for tests.
abbrev ascii_lower : ℕ → ℕ
ascii_lower c = if leb b'A' c && leb c b'Z' then c + 32 else c

unfoldable pub code_gt : Text → Text → Bool
code_gt [] b = false
code_gt (x ∷ a) [] = true
code_gt (x ∷ a) (y ∷ b) = if x == y then code_gt a b else ltb y x

abbrev pub ascii_host : Host
ascii_host = record {
  to_lower_case = map ascii_lower;
  locale_gt = code_gt;
  hue_color = λ n m. b'#' ∷ n ∷ [];
}

code_gt_asym : (a b : Text) → code_gt a b ≡ true → code_gt b a ≡ false
unfolding code_gt
code_gt_asym [] b h = cc
code_gt_asym (x ∷ a) [] h = refl
code_gt_asym (x ∷ a) (y ∷ b) h = ground (arith, code_gt_asym a b)

code_gt_trans : (a b c : Text) → code_gt a b ≡ false → code_gt b c ≡ false → code_gt a c ≡ false
unfolding code_gt
code_gt_trans [] b c h k = refl
code_gt_trans (x ∷ a) [] c h k = cc
code_gt_trans (x ∷ a) (y ∷ b) [] h k = cc
code_gt_trans (x ∷ a) (y ∷ b) (z ∷ c) h k = ground (arith, code_gt_trans a b c)

pub ascii-IsCollation : IsCollation code_gt
ascii-IsCollation = record { asym = code_gt_asym; trans = code_gt_trans }
