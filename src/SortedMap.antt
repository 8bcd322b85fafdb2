-- ===== src/SortedMap.antt =====
-- assets/js/SortedMap.js: a `Map` that is sorted again after each `set`. The state is the list of
-- entries in the order of the map. `Array.prototype.sort` is stable, so for a consistent comparator
-- it has one result, which the insertion sort below computes.
pub mod Order
pub mod Lookup
pub mod Entries
mod Tests
use convos.Prelude.{
  Eq, Option, none, some, Bool, ◌≡◌, List, [], ◌∷◌, compare, Ordering, true, false, if◌then◌else◌,
}
use convos.Prelude.Dict
use convos.Prelude.Dict.{Dict}

-- A comparator's number is read by its sign only: `gt a b` is `sorter(a, b) > 0`.
abbrev pub Sorter {ℓ} : Type ℓ → Type ℓ
Sorter V = V → V → Bool

-- What the source asks of a sorter: never both before each other, and "not after" is transitive.
pub record IsConsistent {ℓ} {V : Type ℓ} (gt : Sorter V) : Type ℓ where
  pub asym : (a b : V) → gt a b ≡ true → gt b a ≡ false
  pub trans : (a b c : V) → gt a b ≡ false → gt b c ≡ false → gt a c ≡ false

module _ {ℓ κ} {K : Type ℓ} {V : Type κ} (gt : Sorter V) where
  unfoldable pub insert : K × V → Dict K V → Dict K V
  insert x [] = x ∷ []
  insert x (y ∷ m) = if gt x.1 y.1 then y ∷ insert x m else x ∷ y ∷ m

  -- `_sort()`
  unfoldable pub sort : Dict K V → Dict K V
  unfolding insert
  sort [] = []
  sort (x ∷ m) = insert x (sort m)

module _ {ℓ κ} {K : Type ℓ} {V : Type κ} ⦃e : Eq K⦄ (gt : Sorter V) where
  -- `set(key, val)`
  unfoldable pub set : K → V → Dict K V → Dict K V
  unfolding sort Dict.set
  set k v m = sort gt (Dict.set k v m)

-- `super(items)` of `new SortedMap(items, {sorter})`: the constructor of `Map` calls `set` above for each
-- item, which sorts, but `this.sorter` is not there yet. `none` is the TypeError of calling it, as the
-- sort does from two entries on.
module _ {ℓ κ} {K : Type ℓ} {V : Type κ} ⦃e : Eq K⦄ where
  unfoldable pub insert_all : List (K × V) → Dict K V → Option (Dict K V)
  insert_all [] m = some m
  insert_all ((k, v) ∷ items) m =
      let rest = insert_all items (Dict.set k v m) in
      elim (Dict.set k v m) [ [] ↦ rest | x ∷ [] ↦ rest | x ∷ y ∷ n ↦ none ]

module _ {ℓ κ} {K : Type ℓ} {V : Type κ} ⦃e : Eq K⦄ (gt : Sorter V) where
  -- `new SortedMap(items, {sorter})`
  unfoldable pub new : List (K × V) → Option (Dict K V)
  unfolding insert_all sort
  new items = elim (insert_all items []) [ none ↦ none | some m ↦ some (sort gt m) ]

-- `toArray()`
abbrev pub to_array {ℓ κ} : {K : Type ℓ} {V : Type κ} → Dict K V → List V
to_array = Dict.values
