-- ===== src/Util/Color.antt =====
-- `str2color`: the 32-bit hash of a text. A JavaScript `|`, `<<` or `&` result is a signed 32-bit
-- integer; the model keeps its bit pattern, a number below 2 ^ 32.
use convos.Prelude.{
  ℕ, ◌+◌, ◌-◌, ◌*◌, ◌%◌, ◌^◌, ◌≡◌, refl, Text, [], ◌∷◌, ltb, codes, if◌then◌else◌, arith, ◌∙◌, ap,
}
use convos.Host.{Host}

abbrev pub u32 : ℕ
u32 = 2 ^ 32

-- `charCodeAt(i) + ((hash << 5) - hash)`, then `hash & hash`. The sum is exact in a double, so only
-- its remainder counts.
unfoldable pub hash_step : ℕ → ℕ → ℕ
hash_step hash c = (c + ((hash * 32) % u32 + u32 - hash)) % u32

unfoldable pub hash_loop : ℕ → Text → ℕ
unfolding hash_step
hash_loop hash [] = hash
hash_loop hash (c ∷ str) = hash_loop (hash_step hash c) str

-- `Math.abs` of the signed integer with this bit pattern.
unfoldable pub abs_i32 : ℕ → ℕ
abs_i32 n = if ltb n (2 ^ 31) then n else u32 - n

module _ (host : Host) where
  -- `Math.abs((hash % nColors) / nColors)` is `hash_index / nColors`: `%` keeps the sign of its
  -- dividend, so the absolute value may be taken first.
  unfoldable pub str2color : Text → ℕ → Text
  unfolding hash_loop abs_i32
  str2color [] n_colors = codes "#000"
  str2color (c ∷ str) n_colors =
      host.hue_color (abs_i32 (hash_loop 0 (c ∷ str)) % n_colors) n_colors

-- The polynomial with base 31 that the hash stands for.
pub poly : ℕ → Text → ℕ
poly acc [] = acc
poly acc (c ∷ str) = poly (31 * acc + c) str

hash_step_lem : (h c : ℕ) → hash_step (h % u32) c ≡ (31 * h + c) % u32
unfolding hash_step
hash_step_lem h c = omega arith

hash_loop_lem : (h : ℕ) (str : Text) → hash_loop (h % u32) str ≡ poly h str % u32
unfolding hash_loop poly
hash_loop_lem h [] = refl
hash_loop_lem h (c ∷ str) =
    ap (λ k. hash_loop k str) (hash_step_lem h c) ∙ hash_loop_lem (31 * h + c) str

-- The colour of a text, for every number of colours: black for the empty text; else the hue of the
-- index that is the absolute value, as a signed 32-bit integer, of the text's polynomial with base
-- 31, modulo the number of colours.
pub str2color-poly :
    (host : Host) (c : ℕ) (str : Text) (n : ℕ)
    → (str2color host [] n ≡ codes "#000")
      × (str2color host (c ∷ str) n ≡ host.hue_color (abs_i32 (poly 0 (c ∷ str) % u32) % n) n)
unfolding str2color
str2color-poly host c str n =
    (refl, ap (λ k. host.hue_color (abs_i32 k % n) n) (hash_loop_lem 0 (c ∷ str)))
