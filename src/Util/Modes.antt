-- ===== src/Util/Modes.antt =====
-- `calculateModes`: a mode string such as "vo", "+o" or "-v+xy" as an object of flags. Mode
-- characters lie in the basic plane, where a character is one code unit.
use convos.Prelude.{
  ℕ, ◌≡◌, refl, Bool, true, false, ◌&&◌, ◌||◌, not, Text, text_eq, [], ◌∷◌, Option, none, some,
  get_or, leb, ◌==◌, if◌then◌else◌, arith, or_text, nat_eq, string_eq,
}
use convos.Prelude.Dict.{Dict, get, set, get-set}

-- `\w`
abbrev pub is_word : ℕ → Bool
is_word c =
    (leb b'a' c && leb c b'z')
    || (leb b'A' c && leb c b'Z')
    || (leb b'0' c && leb c b'9')
    || (c == b'_')

-- `modeStr.match(/^[+-]\w/)`
has_sign : Text → Bool
has_sign [] = false
has_sign (s ∷ []) = false
has_sign (s ∷ c ∷ rest) = (s == b'+' || s == b'-') && is_word c

-- `modeMap[c] || c`
unfoldable pub mode_name : Dict ℕ Text → ℕ → Text
mode_name mode_map c = or_text (get_or (get c mode_map) []) (c ∷ [])

-- The loop over the characters.
unfoldable pub each_mode : Dict ℕ Text → Bool → Text → Dict Text Bool → Dict Text Bool
each_mode mode_map has [] modes = modes
each_mode mode_map has (c ∷ rest) modes =
    each_mode mode_map (if c == b'+' then true else if c == b'-' then false else has) rest
      (if c == b'+' || c == b'-' then modes else set (mode_name mode_map c) has modes)

unfoldable pub calculate_modes : Dict ℕ Text → Text → Dict Text Bool
unfolding has_sign each_mode mode_name
calculate_modes mode_map [] = []
calculate_modes mode_map (c ∷ rest) =
    let mode_str = if not (has_sign (c ∷ rest)) then b'+' ∷ c ∷ rest else c ∷ rest in
    each_mode mode_map true mode_str []

-- An independent reading of a mode string: the sign in force at the last character with that name.
pub last_sign : Dict ℕ Text → Text → Bool → Text → Option Bool
last_sign mode_map name has [] = none
last_sign mode_map name has (c ∷ rest) =
    let sign = if c == b'+' then true else if c == b'-' then false else has in
    let later = last_sign mode_map name sign rest in
    let here =
      if not (c == b'+' || c == b'-') && text_eq (mode_name mode_map c) name
      then some has
      else none in
    elim later [ some b ↦ some b | none ↦ here ]

each_mode_lem :
    (mode_map : Dict ℕ Text) (name : Text) (has : Bool) (str : Text) (modes : Dict Text Bool)
    → get name (each_mode mode_map has str modes)
      ≡ elim (last_sign mode_map name has str) [ some b ↦ some b | none ↦ get name modes ]
unfolding each_mode last_sign
each_mode_lem mode_map name has [] modes = refl
each_mode_lem mode_map name has (c ∷ rest) modes = ground (
  arith,
  each_mode_lem mode_map name (if c == b'+' then true else if c == b'-' then false else has) rest
      (if c == b'+' || c == b'-' then modes else set (mode_name mode_map c) has modes),
  get-set name (mode_name mode_map c) has modes,
)

-- Every flag of `calculateModes` is the sign in force at the last character that has its name, where
-- a string with no sign in front counts as added; a name that no character has is not a key.
pub calculate_modes_lem :
    (mode_map : Dict ℕ Text) (str name : Text)
    → get name (calculate_modes mode_map str) ≡ last_sign mode_map name true str
unfolding calculate_modes last_sign get
calculate_modes_lem mode_map [] name = refl
calculate_modes_lem mode_map (c ∷ rest) name = ground (
  arith,
  each_mode_lem mode_map name true (c ∷ rest) [],
  each_mode_lem mode_map name true (b'+' ∷ c ∷ rest) [],
)
