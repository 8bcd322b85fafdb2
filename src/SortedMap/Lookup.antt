-- ===== src/SortedMap/Lookup.antt =====
-- A SortedMap as a map: sorting changes no lookup, so `set` writes one key and keeps the others.
use convos.Prelude.{Eq, ◌===◌, ◌≡◌, refl, [], ◌∷◌, if◌then◌else◌, arith, none, some, ◌∙◌}
use convos.Prelude.Dict
use convos.Prelude.Dict.{Dict, get, get-set, Distinct, set-Distinct}
use convos.SortedMap.{Sorter, insert, sort, set}

module _ {ℓ κ} {K : Type ℓ} {V : Type κ} ⦃e : Eq K⦄ (gt : Sorter V) where
  get-insert :
      (j k : K) (v : V) (m : Dict K V)
      → get k m ≡ none
      → get j (insert gt (k, v) m) ≡ (if k === j then some v else get j m)
  unfolding get insert
  get-insert j k v [] h = refl
  get-insert j k v ((i, w) ∷ m) h =
      ground (arith, e.beq_iff i k, e.beq_iff i j, e.beq_iff k j, get-insert j k v m)

  get-sort : (j : K) (m : Dict K V) → Distinct m → get j (sort gt m) ≡ get j m
  unfolding get sort
  get-sort j [] d = refl
  get-sort j ((k, v) ∷ m) d =
      ground (arith, get-insert j k v (sort gt m), get-sort j m d.1, get-sort k m d.1)

  insert-Distinct :
      (k : K) (v : V) (m : Dict K V) → get k m ≡ none → Distinct m → Distinct (insert gt (k, v) m)
  unfolding get insert
  insert-Distinct k v [] h d = (refl, tt)
  insert-Distinct k v ((i, w) ∷ m) h d =
      ground (arith, get-insert i k v m, e.beq_iff i k, e.beq_iff k i, insert-Distinct k v m)

  sort-Distinct : (m : Dict K V) → Distinct m → Distinct (sort gt m)
  unfolding sort
  sort-Distinct [] d = tt
  sort-Distinct ((k, v) ∷ m) d =
      insert-Distinct k v (sort gt m) (get-sort k m d.1 ∙ d.0) (sort-Distinct m d.1)

  -- For a map whose keys are distinct: after `set(k, v)` the key `k` has the value `v`, every other
  -- key has the value that it had, and the keys are distinct again.
  pub get-set_sorted :
      (j k : K) (v : V) (m : Dict K V)
      → Distinct m
      → (get j (set gt k v m) ≡ (if k === j then some v else get j m)) × Distinct (set gt k v m)
  unfolding set
  get-set_sorted j k v m d = (
    get-sort j (Dict.set k v m) (set-Distinct k v m d) ∙ get-set j k v m,
    sort-Distinct (Dict.set k v m) (set-Distinct k v m d),
  )
