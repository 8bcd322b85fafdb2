-- ===== src/Util/Visible.antt =====
-- `findVisibleElements`: the child nodes that are on the screen. The search for the first one is a
-- binary search by splicing; only the outcomes of its comparisons enter, so positions may be any
-- numbers of the browser.
use convos.Prelude.{
  ℕ, zero, suc, ◌+◌, ◌-◌, ◌/◌, ◌≤◌, ◌<◌, ◌≡◌, refl, Bool, true, false, not, List, [], ◌∷◌, Option,
  none, some, length, take, drop, get_elem?, filter, All, leb, if◌then◌else◌, arith, inl, inr,
  Bool-cases, ap, ◌∙◌, length-take, length-drop,
}

module _ {ℓ} {A : Type ℓ} where
  -- `haystack`: each element with its place in `els`.
  unfoldable pub number : ℕ → List A → List (ℕ × A)
  number i [] = []
  number i (x ∷ xs) = (i, x) ∷ number (suc i) xs

module _ {ℓ} {A : Type ℓ} (above : A → Bool) where
  -- `haystack[index][1].offsetTop <= scrollTop`
  unfoldable pub above_at : Option (ℕ × A) → Bool
  above_at none = false
  above_at (some x) = above x.1

  -- `while (haystack.length > 1)`, with fuel.
  unfoldable pub narrow : ℕ → List (ℕ × A) → List (ℕ × A)
  unfolding above_at
  narrow zero h = h
  narrow (suc fuel) h =
      let i = length h / 2 in
      let rest = narrow fuel (if above_at (get_elem? h i) then drop i h else take i h) in
      if leb (length h) 1 then h else rest

module _ {ℓ} {A : Type ℓ} (below : A → Bool) where
  -- The loop that looks for `last`, with the slice from `first` to it.
  unfoldable pub until_below : List A → List A
  until_below [] = []
  until_below (x ∷ xs) = if below x then [] else x ∷ until_below xs

-- `haystack[0][0]`, after the first element has been pushed onto an empty haystack.
unfoldable pub first_index {ℓ} : {A : Type ℓ} → List (ℕ × A) → ℕ
first_index [] = 0
first_index ((i, x) ∷ h) = i

-- `is_element`, `above`, `below` and `aria_hidden` are the tests on a node: its type, its position
-- against the top and the bottom of the screen, and its attribute.
module _ {ℓ} {A : Type ℓ} (is_element above below aria_hidden : A → Bool) where
  -- From the filtered `els` on.
  unfoldable pub visible_of : List A → List A
  unfolding narrow number until_below first_index
  visible_of [] = []
  visible_of (e ∷ es) =
      let els = e ∷ es in
      let haystack = narrow above (length els) (number 0 els) in
      filter (λ el. not (aria_hidden el)) (until_below below (drop (first_index haystack) els))

  unfoldable pub find_visible_elements : List A → List A
  unfolding visible_of
  find_visible_elements child_nodes = visible_of (filter is_element child_nodes)

module _ {ℓ} {A : Type ℓ} (above : A → Bool) where
  -- Below the top of the screen nothing is above it: the positions grow along the list.
  abbrev pub IsRun : List A → Type ℓ
  IsRun [] = Unit
  IsRun (x ∷ xs) = (above x ≡ false → All (λ y. above y ≡ false) xs) × IsRun xs

  -- The reference: walk on while the next element is above the top of the screen.
  pub scan : A → List A → List A
  scan x [] = x ∷ []
  scan x (y ∷ ys) = if above y then scan y ys else x ∷ y ∷ ys

  -- The same walk over numbered elements, and the element where it ends.
  pick : ℕ × A → List (ℕ × A) → ℕ × A
  pick x [] = x
  pick x (y ∷ ys) = if above y.1 then pick y ys else x

  abbrev IsRunAt : List (ℕ × A) → Type ℓ
  IsRunAt [] = Unit
  IsRunAt (x ∷ xs) = (above x.1 ≡ false → All (λ y. above y.1 ≡ false) xs) × IsRunAt xs

  IsRunAt-drop : (i : ℕ) (h : List (ℕ × A)) → IsRunAt h → IsRunAt (drop i h)
  IsRunAt-drop zero h r = r
  IsRunAt-drop (suc i) [] r = r
  IsRunAt-drop (suc i) (x ∷ h) r = IsRunAt-drop i h r.1

  All-take :
      (i : ℕ) (h : List (ℕ × A))
      → All (λ y. above y.1 ≡ false) h
      → All (λ y. above y.1 ≡ false) (take i h)
  All-take zero h a = tt
  All-take (suc i) [] a = tt
  All-take (suc i) (x ∷ h) a = (a.0, All-take i h a.1)

  IsRunAt-take : (i : ℕ) (h : List (ℕ × A)) → IsRunAt h → IsRunAt (take i h)
  IsRunAt-take zero h r = tt
  IsRunAt-take (suc i) [] r = tt
  IsRunAt-take (suc i) (x ∷ h) r = (λ e. All-take i h (r.0 e), IsRunAt-take i h r.1)

  not_above :
      (i : ℕ) (h : List (ℕ × A))
      → All (λ y. above y.1 ≡ false) h
      → above_at above (get_elem? h i) ≡ false
  unfolding above_at
  not_above i [] a = refl
  not_above zero (x ∷ h) a = a.0
  not_above (suc i) (x ∷ h) a = not_above i h a.1

  -- An element above the top: everything before it can go.
  pick-drop :
      (x : ℕ × A) (i : ℕ) (h : List (ℕ × A))
      → IsRunAt h
      → above_at above (get_elem? h i) ≡ true
      → (y : ℕ × A) × (ys : List (ℕ × A)) × (drop i h ≡ y ∷ ys) × (pick y ys ≡ pick x h)
  unfolding pick above_at
  pick-drop x i [] r a = cc
  pick-drop x zero (y ∷ h) r a = (y, h, refl, rw a)
  pick-drop x (suc i) (y ∷ h) r a = elim (Bool-cases (above y.1)) [
    | inl up ↦ let (z, zs, d, e) = pick-drop y i h r.1 a in (z, zs, d, rw up e)
    | inr down ↦ cc (a, not_above i h (r.0 down))
  ]

  -- An element not above it: it and everything behind it can go.
  pick-take :
      (x : ℕ × A) (i : ℕ) (h : List (ℕ × A))
      → above_at above (get_elem? h i) ≡ false
      → pick x (take i h) ≡ pick x h
  unfolding pick above_at
  pick-take x zero [] a = refl
  pick-take x (suc i) [] a = refl
  pick-take x zero (y ∷ h) a = rw a
  pick-take x (suc i) (y ∷ h) a = ground (arith, pick-take y i h a)

  abbrev Narrows : ℕ → Type ℓ
  Narrows fuel =
      (x : ℕ × A) (h : List (ℕ × A))
      → length h < fuel
      → IsRunAt h
      → narrow above fuel (x ∷ h) ≡ pick x h ∷ []

  -- One round of the loop, at the index `k + 1`.
  narrow_round :
      (fuel k : ℕ) (x : ℕ × A) (h : List (ℕ × A))
      → Narrows fuel
      → k < length h
      → length h ≤ fuel
      → IsRunAt h
      → narrow above fuel (if above_at above (get_elem? h k) then drop k h else x ∷ take k h)
        ≡ pick x h ∷ []
  narrow_round fuel k x h ih lt le r = elim (Bool-cases (above_at above (get_elem? h k))) [
    | inl up ↦
        let (z, zs, d, e) = pick-drop x k h r up in
        rw (up, d)
          (ih z zs (omega (arith, length-drop k h, ap length d)) (rw d at (IsRunAt-drop k h r)).1
            ∙ ap (λ p. p ∷ []) e)
    | inr down ↦ rw down (
        ih x (take k h) (omega (arith, length-take k h)) (IsRunAt-take k h r)
        ∙ ap (λ p. p ∷ []) (pick-take x k h down))
  ]

  narrow_lem : (fuel : ℕ) → Narrows fuel
  unfolding narrow pick
  narrow_lem zero x h l r = absurd (omega arith)
  narrow_lem (suc fuel) x [] l r = refl
  narrow_lem (suc fuel) x (y ∷ h) l r =
      let k = suc (suc (length h)) / 2 - 1 in
      let e : suc (suc (length h)) / 2 ≡ suc k = omega arith in
      let big : leb (suc (suc (length h))) 1 ≡ false = ground arith in
      rw (e, big) (narrow_round fuel k x (y ∷ h) (narrow_lem fuel) (omega arith) (omega arith) r)

  length-number : (k : ℕ) (xs : List A) → length (number k xs) ≡ length xs
  unfolding number
  length-number k [] = refl
  length-number k (x ∷ xs) = ap suc (length-number (suc k) xs)

  number-All :
      (k : ℕ) (xs : List A)
      → All (λ y. above y ≡ false) xs
      → All (λ y. above y.1 ≡ false) (number k xs)
  unfolding number
  number-All k [] a = tt
  number-All k (x ∷ xs) a = (a.0, number-All (suc k) xs a.1)

  number-IsRun : (k : ℕ) (xs : List A) → IsRun xs → IsRunAt (number k xs)
  unfolding number
  number-IsRun k [] r = tt
  number-IsRun k (x ∷ xs) r = (λ e. number-All (suc k) xs (r.0 e), number-IsRun (suc k) xs r.1)

  pick-scan :
      (k : ℕ) (x : A) (xs : List A)
      → (j : ℕ) × ((pick (k, x) (number (suc k) xs)).0 ≡ k + j) × (drop j (x ∷ xs) ≡ scan x xs)
  unfolding pick number scan
  pick-scan k x [] = (0, omega arith, refl)
  pick-scan k x (y ∷ ys) = elim (Bool-cases (above y)) [
    | inl up ↦ let (j, p, q) = pick-scan (suc k) y ys in (suc j, rw up (omega (arith, p)), rw up q)
    | inr down ↦ (0, rw down (omega arith), rw down)
  ]

  -- The binary search ends with one element, and the slice from it is that of the linear walk.
  pub narrow-scan :
      (x : A) (xs : List A)
      → IsRun xs
      → drop (first_index (narrow above (suc (length xs)) (number 0 (x ∷ xs)))) (x ∷ xs) ≡ scan x xs
  unfolding number first_index
  narrow-scan x xs r =
      let found =
        narrow_lem (suc (length xs)) (0, x) (number 1 xs) (omega (arith, length-number 1 xs))
          (number-IsRun 1 xs r) in
      let (j, p, q) = pick-scan 0 x xs in
      let e : (pick (0, x) (number 1 xs)).0 ≡ j = omega (arith, p) in rw (found, e) q

-- The elements that `findVisibleElements` goes through, as a linear search finds them.
pub visible_run {ℓ} : {A : Type ℓ} (above below : A → Bool) → List A → List A
unfolding scan
visible_run above below [] = []
visible_run above below (x ∷ xs) = until_below below (scan above x xs)

module _ {ℓ} {A : Type ℓ} (is_element above below aria_hidden : A → Bool) where
  visible_of_lem :
      (els : List A)
      → IsRun above els
      → visible_of is_element above below aria_hidden els
        ≡ filter (λ el. not (aria_hidden el)) (visible_run above below els)
  unfolding visible_of visible_run
  visible_of_lem [] r = refl
  visible_of_lem (x ∷ xs) r = rw (narrow-scan above x xs r.1)

  -- Where the positions of the elements grow along the list, `findVisibleElements` gives what a
  -- linear search gives: from the last element that does not begin below the top of the screen (the
  -- first element, if none) up to the first that begins below its bottom, without the elements
  -- hidden from assistive technology.
  pub find_visible_elements_lem :
      (child_nodes : List A)
      → IsRun above (filter is_element child_nodes)
      → find_visible_elements is_element above below aria_hidden child_nodes
        ≡ filter
            (λ el. not (aria_hidden el))
            (visible_run above below (filter is_element child_nodes))
  unfolding find_visible_elements
  find_visible_elements_lem child_nodes r = visible_of_lem (filter is_element child_nodes) r
