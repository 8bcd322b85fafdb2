-- ===== src/SortedMap/Tests.antt =====
-- The theorems on sorted maps at a map of numbers.
use convos.Prelude.{ℕ, ◌≡◌, refl, ltb, [], ◌∷◌, arith, nat_eq, some}
use mathlib.Core.List.{Perm}
use convos.Prelude.Dict
use convos.Prelude.Dict.{Dict, Distinct, get}
use convos.SortedMap.{Sorter, IsConsistent, set}
use convos.SortedMap.Order.{IsSorted, set_sorts}
use convos.SortedMap.Lookup.{get-set_sorted}

abbrev by_number : Sorter ℕ
by_number a b = ltb b a

by_number-IsConsistent : IsConsistent by_number
by_number-IsConsistent = record { asym = λ a b h. ground arith; trans = λ a b c h k. ground arith }

abbrev sample : Dict ℕ ℕ
sample = (1, 20) ∷ (2, 30) ∷ []

set_runs : set by_number 2 10 sample ≡ (2, 10) ∷ (1, 20) ∷ []
unfolding set
set_runs = refl

set_sorts_example :
    IsSorted by_number (set by_number 2 10 sample)
    × Perm (set by_number 2 10 sample) (Dict.set 2 10 sample)
set_sorts_example = set_sorts by_number by_number-IsConsistent 2 10 sample

sample-Distinct : Distinct sample
unfolding get
sample-Distinct = (refl, (refl, tt))

get-set_sorted_example :
    (get 1 (set by_number 2 10 sample) ≡ some 20) × Distinct (set by_number 2 10 sample)
unfolding get
get-set_sorted_example = get-set_sorted by_number 1 2 10 sample sample-Distinct
