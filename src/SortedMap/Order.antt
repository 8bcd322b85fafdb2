-- ===== src/SortedMap/Order.antt =====
-- The order of a SortedMap: sorted after every `set`, with the entries that the map had.
use convos.Prelude.{Eq, ◌≡◌, refl, [], ◌∷◌, false, arith, All, inl, inr, Bool-cases}
use mathlib.Core.List.{Perm}
use mathlib.Core.List.Perm
use convos.Prelude.Dict
use convos.Prelude.Dict.{Dict}
use convos.SortedMap.{Sorter, IsConsistent, insert, sort, set}

module _ {ℓ κ} {K : Type ℓ} {V : Type κ} (gt : Sorter V) where
  -- No entry comes before a later one that the sorter puts first.
  abbrev pub IsSorted : Dict K V → Type κ
  IsSorted [] = Unit
  IsSorted (x ∷ m) = All (λ y. gt x.1 y.1 ≡ false) m × IsSorted m

  abbrev NotAfter : K × V → K × V → Type 0
  NotAfter x y = gt x.1 y.1 ≡ false

  insert-All :
      (a x : K × V) (m : Dict K V)
      → NotAfter a x
      → All (λ y. NotAfter a y) m
      → All (λ y. NotAfter a y) (insert gt x m)
  unfolding insert
  insert-All a x [] h k = (h, tt)
  insert-All a x (y ∷ m) h k = ground (arith, insert-All a x m h k.1)

  All-trans :
      (c : IsConsistent gt) (a x : K × V) (m : Dict K V)
      → NotAfter a x
      → All (λ y. NotAfter x y) m
      → All (λ y. NotAfter a y) m
  All-trans c a x [] h k = tt
  All-trans c a x (y ∷ m) h k = (c.trans a.1 x.1 y.1 h k.0, All-trans c a x m h k.1)

  insert-IsSorted :
      (c : IsConsistent gt) (x : K × V) (m : Dict K V) → IsSorted m → IsSorted (insert gt x m)
  unfolding insert
  insert-IsSorted c x [] s = (tt, tt)
  insert-IsSorted c x (y ∷ m) s = elim (Bool-cases (gt x.1 y.1)) [
    | inl after ↦ rw after (insert-All y x m (c.asym x.1 y.1 after) s.0, insert-IsSorted c x m s.1)
    | inr before ↦ rw before ((before, All-trans c x y m before s.0), s)
  ]

  pub sort-IsSorted : IsConsistent gt → (m : Dict K V) → IsSorted (sort gt m)
  unfolding sort
  sort-IsSorted c [] = tt
  sort-IsSorted c (x ∷ m) = insert-IsSorted c x (sort gt m) (sort-IsSorted c m)

  insert-perm : (x : K × V) (m : Dict K V) → Perm (insert gt x m) (x ∷ m)
  unfolding insert
  insert-perm x [] = Perm.refl (x ∷ [])
  insert-perm x (y ∷ m) = elim (Bool-cases (gt x.1 y.1)) [
    | inl after ↦ rw after (Perm.trans (Perm.cons y (insert-perm x m)) (Perm.swap x y m))
    | inr before ↦ rw before (Perm.refl (x ∷ y ∷ m))
  ]

  pub sort-perm : (m : Dict K V) → Perm (sort gt m) m
  unfolding sort
  sort-perm [] = Perm.refl []
  sort-perm (x ∷ m) = Perm.trans (insert-perm x (sort gt m)) (Perm.cons x (sort-perm m))

  insert_front : (x : K × V) (m : Dict K V) → All (λ y. NotAfter x y) m → insert gt x m ≡ x ∷ m
  unfolding insert
  insert_front x [] h = refl
  insert_front x (y ∷ m) h = rw h.0

  -- A sorted map is left as it is: the sort is stable.
  pub sort_of_IsSorted : (m : Dict K V) → IsSorted m → sort gt m ≡ m
  unfolding sort
  sort_of_IsSorted [] s = refl
  sort_of_IsSorted (x ∷ m) s = rw (sort_of_IsSorted m s.1) (insert_front x m s.0)

module _ {ℓ κ} {K : Type ℓ} {V : Type κ} ⦃e : Eq K⦄ (gt : Sorter V) where
  -- With a consistent sorter the values are sorted after `set`, and the entries are those of the
  -- plain `Map` after its `set`, in some order.
  pub set_sorts :
      IsConsistent gt
      → (k : K) (v : V) (m : Dict K V)
      → IsSorted gt (set gt k v m) × Perm (set gt k v m) (Dict.set k v m)
  unfolding set
  set_sorts c k v m = (sort-IsSorted gt c (Dict.set k v m), sort-perm gt (Dict.set k v m))
