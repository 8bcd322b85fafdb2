-- ===== src/Util/Tests.antt =====
-- The theorems on the utilities at concrete inputs.
use convos.Prelude.{
  ℕ, ◌%◌, ◌≡◌, refl, codes, text_eq, List, [], ◌∷◌, some, Bool, true, false, leb, ltb, filter, not,
  string_eq,
}
use convos.Prelude.Dict.{get, set}
use convos.Constants.{user_mode_char_to_mode_name}
use convos.Host.{ascii_host}
use convos.Util.Modes.{calculate_modes, last_sign, calculate_modes_lem}
use convos.Util.Color.{str2color, abs_i32, poly, u32, str2color-poly}
use convos.Util.Visible.{find_visible_elements, visible_run, find_visible_elements_lem}

calculate_modes_lem_example :
    get (codes "voice") (calculate_modes user_mode_char_to_mode_name (codes "vo-v"))
    ≡ last_sign user_mode_char_to_mode_name (codes "voice") true (codes "vo-v")
calculate_modes_lem_example =
    calculate_modes_lem user_mode_char_to_mode_name (codes "vo-v") (codes "voice")

voice_removed :
    get (codes "voice") (calculate_modes user_mode_char_to_mode_name (codes "vo-v")) ≡ some false
unfolding calculate_modes user_mode_char_to_mode_name get set text_eq
voice_removed = refl

str2color-poly_example :
    (str2color ascii_host [] 100 ≡ codes "#000")
    × (str2color ascii_host (codes "superman") 100
        ≡ ascii_host.hue_color (abs_i32 (poly 0 (codes "superman") % u32) % 100) 100)
str2color-poly_example = str2color-poly ascii_host b's' (codes "uperman") 100

-- Positions 0, 10, 20, 30, 40, a screen from 15 to 35, and a comment among the nodes.
abbrev nodes : List ℕ
nodes = 0 ∷ 10 ∷ 999 ∷ 20 ∷ 30 ∷ 40 ∷ []

abbrev is_element : ℕ → Bool
is_element n = ltb n 999

abbrev above : ℕ → Bool
above n = leb n 15

abbrev below : ℕ → Bool
below n = ltb 35 n

abbrev hidden : ℕ → Bool
hidden n = false

find_visible_elements_lem_example :
    find_visible_elements is_element above below hidden nodes
    ≡ filter (λ el. not (hidden el)) (visible_run above below (filter is_element nodes))
find_visible_elements_lem_example =
    find_visible_elements_lem is_element above below hidden nodes
      ((λ e. cc), ((λ e. cc), ((λ e. (refl, (refl, tt))), ((λ e. (refl, tt)), ((λ e. tt), tt)))))

three_visible : find_visible_elements is_element above below hidden nodes ≡ 10 ∷ 20 ∷ 30 ∷ []
unfolding find_visible_elements
three_visible = refl
