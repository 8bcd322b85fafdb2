-- ===== src/Reactive/Update.antt =====
-- What a series of updates does to one property.
use convos.Prelude.{
  ◌≡◌, refl, ap, ◌∙◌, Text, text_eq, text_eq_iff, List, [], ◌∷◌, Option, none, some, get_or, arith,
  if◌then◌else◌, string_eq, Option-cases, inl, inr, get_last?, Bool-cases,
}
use convos.Prelude.Dict.{Dict, get, get-set}
use convos.Reactive.{Property, is_ro, updateable, touch, update_one, update_props}

unfoldable pub map_option : {A B : Type 0} → (A → B) → Option A → Option B
map_option f none = none
map_option f (some a) = some (f a)

module _ {V : Type 0} where
  -- The values given for a name, in order.
  unfoldable pub given : Text → List (Text × V) → List V
  given name [] = []
  given name ((other, v) ∷ params) =
      if text_eq other name then v ∷ given name params else given name params

  -- All that `update` does to a property, over the values given for it.
  unfoldable pub touch_all : Property V → List V → Property V
  touch_all p [] = p
  touch_all p (v ∷ vs) = touch_all (touch p v) vs

  get-update_one :
      (name other : Text) (v : V) (props : Dict Text (Property V))
      → get name (update_one other v props) ≡ (
          if text_eq other name
          then map_option (λ p. touch p v) (get name props)
          else get name props)
  unfolding update_one map_option
  get-update_one name other v props = elim (Option-cases (get other props)) [
    | inl e ↦ rw (e, update_one) (ground (arith, e, text_eq_iff other name))
    | inr (p, e) ↦
        rw (e, update_one)
          (ground (arith, e, text_eq_iff other name, get-set name other (touch p v) props))
  ]

  get-update_props :
      (name : Text) (params : List (Text × V)) (props : Dict Text (Property V))
      → get name (update_props params props)
        ≡ map_option (λ p. touch_all p (given name params)) (get name props)
  unfolding update_props given touch_all map_option
  get-update_props name [] props = ground (arith)
  get-update_props name ((other, v) ∷ params) props = ground (
    arith,
    get-update_props name params (update_one other v props),
    get-update_one name other v props,
  )

  pub touch_all_type : (p : Property V) (vs : List V) → (touch_all p vs).type ≡ p.type
  unfolding touch_all touch
  touch_all_type p [] = refl
  touch_all_type p (v ∷ vs) = touch_all_type (touch p v) vs

  -- `prop.type === 'ro' ? undefined : prop.value`
  abbrev pub snapshot : Property V → Option V
  snapshot p = if is_ro p.type then none else some p.value

  touch_all_prev :
      (p : Property V) (vs : List V) (old : Option V)
      → p.prev ≡ some old
      → (touch_all p vs).prev ≡ some old
  unfolding touch_all touch
  touch_all_prev p [] old e = e
  touch_all_prev p (v ∷ vs) old e =
      touch_all_prev (touch p v) vs old (ap (λ o. some (get_or o (snapshot p))) e)

  last_or :
      (w : V) (vs : List V) (a b : V)
      → get_or (get_last? (w ∷ vs)) a ≡ get_or (get_last? (w ∷ vs)) b
  last_or w [] a b = refl
  last_or w (x ∷ vs) a b = last_or x vs a b

  touch_all_value :
      (p : Property V) (vs : List V)
      → (touch_all p vs).value
        ≡ (if updateable p.type then get_or (get_last? vs) p.value else p.value)
  unfolding touch_all touch
  touch_all_value p [] = ground arith
  touch_all_value p (v ∷ []) = refl
  touch_all_value p (v ∷ w ∷ vs) = elim (Bool-cases (updateable p.type)) [
    | inl yes_it ↦ touch_all_value (touch p v) (w ∷ vs) ∙ rw yes_it (last_or w vs v p.value)
    | inr no_it ↦ touch_all_value (touch p v) (w ∷ vs) ∙ rw no_it
  ]

  touched_prev :
      (p : Property V) (vs : List V)
      → p.prev ≡ none
      → (touch_all p vs).prev ≡ (elim vs [ [] ↦ none | v ∷ ws ↦ some (snapshot p) ])
  unfolding touch_all touch
  touched_prev p [] e = e
  touched_prev p (v ∷ vs) e =
      touch_all_prev (touch p v) vs (snapshot p) (ap (λ o. some (get_or o (snapshot p))) e)

  -- However many updates come before the delayed round, and whatever else they write: a property
  -- that was at rest has the last value given for it, unless it is read-only; its `prev` is the value
  -- it had at rest, if it was touched at all; a name without a property is ignored.
  pub update_props_lem :
      (name : Text) (params : List (Text × V)) (props : Dict Text (Property V))
      → (get name props ≡ none → get name (update_props params props) ≡ none)
        × ((p : Property V)
            → get name props ≡ some p
            → p.prev ≡ none
            → (q : Property V) × (get name (update_props params props) ≡ some q)
              × (q.type ≡ p.type)
              × (q.value ≡ (
                  if updateable p.type
                  then get_or (get_last? (given name params)) p.value
                  else p.value))
              × (q.prev ≡ (elim (given name params) [ [] ↦ none | v ∷ vs ↦ some (snapshot p) ])))
  unfolding map_option
  update_props_lem name params props = (
    λ e.
        get-update_props name params props
        ∙ ap (map_option (λ p. touch_all p (given name params))) e,
    λ p e rest. (
      touch_all p (given name params),
      get-update_props name params props ∙ ap (map_option (λ p. touch_all p (given name params))) e,
      touch_all_type p (given name params),
      touch_all_value p (given name params),
      touched_prev p (given name params) rest,
    ),
  )
