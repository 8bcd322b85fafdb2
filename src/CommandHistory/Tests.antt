-- ===== src/CommandHistory/Tests.antt =====
-- The theorems on the command history at two sent lines.
use convos.Prelude.{◌≡◌, refl, codes, [], ◌∷◌, arith}
use convos.Prelude.Int.{pos}
use convos.CommandHistory.{CommandHistory, new, render}
use convos.CommandHistory.Walk.{IsValid, render-IsValid, walk_back, walk_back_shows}

abbrev two_lines : CommandHistory
two_lines = new (codes "/join #convos" ∷ codes "hello" ∷ [])

two_lines-IsValid : IsValid two_lines
two_lines-IsValid = omega arith

render-IsValid_example : IsValid (render two_lines [] 0 (pos 1)).0
render-IsValid_example = render-IsValid two_lines [] 0 (pos 1) two_lines-IsValid

walk_back_shows_example :
    walk_back 2 two_lines [] ≡ (record two_lines { index = pos 1 }, codes "hello")
walk_back_shows_example = walk_back_shows 1 two_lines (codes "hello") refl refl (omega arith)
