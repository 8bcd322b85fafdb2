-- ===== src/CommandHistory/Walk.antt =====
-- What the history promises: its bounds, and the walk through it with the arrow keys.
use convos.Prelude.{
  ℕ, zero, suc, ◌+◌, ◌≡◌, ◌≤◌, ◌<◌, refl, Text, List, [], ◌∷◌, some, length, get_elem?, get_or,
  arith, length-take, text_eq_refl,
}
use convos.Prelude.Int.{ℤ, pos, negsuc, ◌+ℤ◌, ◌≤ℤ◌, pos_part, neg_part}
use convos.CommandHistory.{CommandHistory, add, clamp, changed, Rendered, refused, shown, render}

-- The index lies from -1 to the last entry, and there are at most 20 entries.
pub record IsValid (h : CommandHistory) : Type 0 where
  pub above : negsuc 0 ≤ℤ h.index
  pub below : suc (pos_part h.index) ≤ length h.history + neg_part h.index
  pub short : length h.history ≤ 20

clamp_bounds :
    (len : ℕ) (i : ℤ)
    → (negsuc 0 ≤ℤ clamp len i) × (suc (pos_part (clamp len i)) ≤ len + neg_part (clamp len i))
unfolding clamp
clamp_bounds len i = ground arith

-- Adding a line keeps the history valid: at most 20 lines, and no walk under way unless the line is
-- empty and nothing changes.
pub add-IsValid : (h : CommandHistory) (str : Text) → IsValid h → IsValid (add h str)
unfolding add
add-IsValid h [] v = v
add-IsValid h (c ∷ str) v = ground (arith, length-take 19 h.history)

-- A key press keeps the history valid, for every text and cursor in the input element, every step,
-- whether or not it is refused.
pub render-IsValid :
    (h : CommandHistory) (curr : Text) (cursor : ℕ) (step : ℤ)
    → IsValid h
    → IsValid (render h curr cursor step).0
unfolding render
render-IsValid h curr cursor step v =
    ground (arith, clamp_bounds (length h.history) (h.index +ℤ step))

-- `n` presses of the key that goes back in time, the cursor at the end of the text each time.
after_press : CommandHistory → Text → CommandHistory × Rendered → CommandHistory × Text
after_press h curr (h', refused) = (h, curr)
after_press h curr (h', shown v) = (h', get_or v [])

pub walk_back : ℕ → CommandHistory → Text → CommandHistory × Text
unfolding after_press
walk_back zero h curr = (h, curr)
walk_back (suc n) h curr =
    let s = walk_back n h curr in after_press s.0 s.1 (render s.0 s.1 (length s.1) (pos 1))

render_next :
    (h : CommandHistory) (n : ℕ) (t next : Text)
    → get_elem? h.history n ≡ some t
    → get_elem? h.history (suc n) ≡ some next
    → suc n < length h.history
    → h.index ≡ pos n
    → render h t (length t) (pos 1) ≡ (record h { index = pos (suc n) }, shown (some next))
unfolding render ◌+ℤ◌ clamp changed
render_next h n t next p q l e = ground (arith, text_eq_refl t)

render_first :
    (h : CommandHistory) (next : Text)
    → get_elem? h.history 0 ≡ some next
    → 0 < length h.history
    → h.index ≡ negsuc 0
    → render h [] 0 (pos 1) ≡ (record h { index = pos 0 }, shown (some next))
unfolding render ◌+ℤ◌ clamp changed
render_first h next q l e = ground arith

pub get_elem?_of_lt {ℓ} :
    {A : Type ℓ} (xs : List A) (n : ℕ) → n < length xs → (a : A) × (get_elem? xs n ≡ some a)
get_elem?_of_lt [] n h = absurd (omega arith)
get_elem?_of_lt (x ∷ xs) zero h = (x, refl)
get_elem?_of_lt (x ∷ xs) (suc n) h = get_elem?_of_lt xs n (omega arith)

-- From an empty input element and no walk under way, `n + 1` presses, for `n` below the number of
-- entries, show entry `n` and leave the index at `n`.
pub walk_back_shows :
    (n : ℕ) (h : CommandHistory) (t : Text)
    → h.index ≡ negsuc 0
    → get_elem? h.history n ≡ some t
    → n < length h.history
    → walk_back (suc n) h [] ≡ (record h { index = pos n }, t)
unfolding walk_back after_press
walk_back_shows zero h t e p l = rw (render_first h t p l e)
walk_back_shows (suc n) h t e p l =
    let (s, q) = get_elem?_of_lt h.history n (omega arith) in
    let ih = walk_back_shows n h s e q (omega arith) in
    rw ih (rw (render_next (record h { index = pos n }) n s t q p l refl))
