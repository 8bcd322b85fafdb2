-- ===== src/SortedMap/Entries.antt =====
-- What holds of every value of a map holds after `set` and after sorting.
use convos.Prelude.{Eq, ◌===◌, [], ◌∷◌, Bool-cases, inl, inr, All}
use convos.Prelude.Dict
use convos.Prelude.Dict.{Dict}
use convos.SortedMap.{Sorter, insert, sort, set}

module _ {ℓ κ} {K : Type ℓ} {V : Type κ} ⦃e : Eq K⦄ (P : V → Type 0) where
  abbrev pub Values : Dict K V → Type 0
  Values m = All (λ (x : K × V). P x.1) m

  pub set-Values : (k : K) (v : V) (m : Dict K V) → P v → Values m → Values (Dict.set k v m)
  unfolding Dict.set
  set-Values k v [] p a = (p, tt)
  set-Values k v ((j, w) ∷ m) p a = elim (Bool-cases (j === k)) [
    | inl same ↦ rw (same, Dict.set) (p, a.1)
    | inr other ↦ rw (other, Dict.set) (a.0, set-Values k v m p a.1)
  ]

  insert-Values :
      (gt : Sorter V) (k : K) (v : V) (m : Dict K V) → P v → Values m → Values (insert gt (k, v) m)
  unfolding insert
  insert-Values gt k v [] p a = (p, tt)
  insert-Values gt k v ((j, w) ∷ m) p a = elim (Bool-cases (gt v w)) [
    | inl behind ↦ rw (behind, insert) (a.0, insert-Values gt k v m p a.1)
    | inr before ↦ rw (before, insert) (p, a)
  ]

  sort-Values : (gt : Sorter V) (m : Dict K V) → Values m → Values (sort gt m)
  unfolding sort
  sort-Values gt [] a = tt
  sort-Values gt ((k, v) ∷ m) a = insert-Values gt k v (sort gt m) a.0 (sort-Values gt m a.1)

  pub sorted-Values :
      (gt : Sorter V) (k : K) (v : V) (m : Dict K V) → P v → Values m → Values (set gt k v m)
  unfolding set
  sorted-Values gt k v m p a = sort-Values gt (Dict.set k v m) (set-Values k v m p a)
