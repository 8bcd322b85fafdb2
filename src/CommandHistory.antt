-- ===== src/CommandHistory.antt =====
-- assets/store/CommandHistory.js: the sent lines, newest first, and the place of a walk through them.
pub mod Walk
mod Tests
use convos.Prelude.{
  ℕ, ◌+◌, ◌-◌, ◌==◌, ◌≡◌, ◌≤◌, Bool, not, ◌&&◌, Text, text_eq, is_empty, List, [], ◌∷◌, Option,
  none, some, length, take, get_elem?, get_or, if◌then◌else◌, true, false,
}
use convos.Prelude.Int.{ℤ, pos, negsuc, ◌+ℤ◌, ltb_ℤ, sub_ℕ}

-- A conversation is compared by identity only: a number stands for the object.
pub record CommandHistory : Type 0 where
  pub history : List Text
  pub conversation : Option ℕ
  pub index : ℤ

-- `new CommandHistory()`, with what localStorage holds for the history.
abbrev pub new : List Text → CommandHistory
new stored = record { history = stored; conversation = none; index = negsuc 0 }

-- The object given to `update`: the keys that it has.
pub record Params : Type 0 where
  pub history : Option (List Text)
  pub conversation : Option (Option ℕ)
  pub index : Option ℤ

abbrev pub no_params : Params
no_params = record { history = none; conversation = none; index = none }

-- `super.update(params)`
assign : CommandHistory → Params → CommandHistory
assign h p = record {
  history = get_or p.history h.history;
  conversation = get_or p.conversation h.conversation;
  index = get_or p.index h.index;
}

-- `params.conversation && params.conversation !== this.conversation`
other_conversation : Option (Option ℕ) → Option ℕ → Bool
other_conversation (some (some c)) (some d) = not (c == d)
other_conversation (some (some c)) none = true
other_conversation (some none) _ = false
other_conversation none _ = false

unfoldable pub update : CommandHistory → Params → CommandHistory
unfolding assign other_conversation
update h p =
    let reset =
      if other_conversation p.conversation h.conversation
      then assign h (record no_params { index = some (negsuc 0) })
      else h in
    assign reset p

unfoldable pub add : CommandHistory → Text → CommandHistory
unfolding update
add h [] = h
add h (c ∷ str) =
    update h
      (record no_params { history = some ((c ∷ str) ∷ take 19 h.history); index = some (negsuc 0) })

-- `history[index]`, where an index below 0 gives undefined.
abbrev pub entry : List Text → ℤ → Option Text
entry h (pos n) = get_elem? h n
entry h (negsuc n) = none

-- The two clamps at the head of `render`: from -1 to the last entry.
unfoldable pub clamp : ℕ → ℤ → ℤ
clamp len i =
    let low = if ltb_ℤ i (negsuc 0) then negsuc 0 else i in
    if ltb_ℤ low (pos len) then low else sub_ℕ len 1

-- `curr !== this.history[this.index]`
changed : Text → Option Text → Bool
changed curr none = true
changed curr (some t) = not (text_eq curr t)

-- `index === -1`
at_start : ℤ → Bool
at_start (negsuc n) = n == 0
at_start (pos n) = false

-- `refused` is `return false`; `shown v` is `return true` with `v` written to the input element.
pub data Rendered : Type 0 where
  refused : Rendered
  shown : Option Text → Rendered

-- `render(e, step)`, at an input element with the value `curr` and its cursor at `cursor`.
unfoldable pub render : CommandHistory → Text → ℕ → ℤ → CommandHistory × Rendered
unfolding clamp changed at_start update
render h curr cursor step =
    let index = clamp (length h.history) (h.index +ℤ step) in
    if not (cursor == length curr)
    then (h, refused)
    else if not (is_empty curr) && changed curr (entry h.history h.index)
    then (h, refused)
    else (
      update h (record no_params { index = some index }),
      shown (if at_start index then some [] else entry h.history index),
    )
