-- ===== src/Reactive/Flush.antt =====
-- The delayed round: which names the event "update" carries.
use convos.Prelude.{
  Eq, ◌===◌, ◌≡◌, refl, ap, ◌∙◌, true, false, not, Text, text_eq_iff, List, [], ◌∷◌, none, some,
  get_or, arith, if◌then◌else◌, string_eq, get_last?, inl, inr, Option-cases,
}
use convos.Prelude.Dict.{Dict, get, Distinct, set-Distinct}
use convos.Reactive.{
  Property, Json, Reactive, is_ro, updateable, touch, update, update_one, update_props, unchanged,
  has_changed, forget, changes, delayed_update,
}
use convos.Reactive.Update.{given, snapshot, update_props_lem, map_option}

abbrev at_rest : {V : Type 0} → Property V → Property V
at_rest p = record p { prev = none }

update_one-Distinct :
    {V : Type 0} (name : Text) (v : V) (props : Dict Text (Property V))
    → Distinct props
    → Distinct (update_one name v props)
unfolding update_one
update_one-Distinct name v props d = elim (Option-cases (get name props)) [
  | inl e ↦ rw (e, update_one) d
  | inr (p, e) ↦ rw (e, update_one) (set-Distinct name (touch p v) props d)
]

module _ {V : Type 0} ⦃e : Eq V⦄ where
  changes_missing :
      (name : Text) (props : Dict Text (Property V))
      → get name props ≡ none
      → get name (changes props) ≡ none
  unfolding get changes
  changes_missing name [] h = refl
  changes_missing name ((other, p) ∷ props) h =
      ground (arith, changes_missing name props, text_eq_iff other name)

  get-changes :
      (name : Text) (props : Dict Text (Property V)) (p : Property V)
      → Distinct props
      → get name props ≡ some p
      → get name (changes props) ≡ (if has_changed p then some (not (is_ro p.type)) else none)
  unfolding get changes
  get-changes name [] p d h = cc
  get-changes name ((other, q) ∷ props) p d h =
      ground
        (arith, changes_missing name props, text_eq_iff other name, get-changes name props p d.1)

  get-forget :
      (name : Text) (props : Dict Text (Property V))
      → get name (forget props) ≡ map_option at_rest (get name props)
  unfolding get forget map_option
  get-forget name [] = refl
  get-forget name ((other, q) ∷ props) = ground (arith, get-forget name props)

  update_props-Distinct :
      (params : List (Text × V)) (props : Dict Text (Property V))
      → Distinct props
      → Distinct (update_props params props)
  unfolding update_props
  update_props-Distinct [] props d = d
  update_props-Distinct ((name, v) ∷ params) props d =
      update_props-Distinct params (update_one name v props) (update_one-Distinct name v props d)

  -- The outcome of the comparison at a property that a series of updates has touched.
  outcome :
      (p q : Property V) (vs : List V)
      → q.type ≡ p.type
      → q.value ≡ (if updateable p.type then get_or (get_last? vs) p.value else p.value)
      → q.prev ≡ (elim vs [ [] ↦ none | v ∷ ws ↦ some (snapshot p) ])
      → (if has_changed q then some (not (is_ro q.type)) else none) ≡ (
          if is_ro p.type
          then (elim vs [ [] ↦ none | v ∷ ws ↦ some false ])
          else if get_or (get_last? vs) p.value === p.value
          then none
          else some true)
  unfolding has_changed unchanged
  outcome p q [] t v h = ground (arith, e.beq_iff p.value p.value)
  outcome p q (w ∷ vs) t v h = ground arith

module _ {V : Type 0} ⦃e : Eq V⦄ (json : Json V) where
  -- Any number of updates and then the delayed round, on an object whose property `p` was at rest:
  -- the event names `p` exactly if its value is not the one that it had at rest, even if it was
  -- another in between; a read-only property is named, as not changed, if it was given at all. The
  -- property is at rest again, with the last value given unless it is read-only.
  pub delayed_update_lem :
      (name : Text) (params : List (Text × V)) (r : Reactive V) (p : Property V)
      → Distinct r.props
      → get name r.props ≡ some p
      → p.prev ≡ none
      → (get name (delayed_update json (update params r)).1 ≡ (
          if is_ro p.type
          then (elim (given name params) [ [] ↦ none | v ∷ ws ↦ some false ])
          else if get_or (get_last? (given name params)) p.value === p.value
          then none
          else some true))
        × (q : Property V) × (get name (delayed_update json (update params r)).0.props ≡ some q)
        × (q.prev ≡ none)
        × (q.value ≡ (
            if updateable p.type then get_or (get_last? (given name params)) p.value else p.value))
  unfolding delayed_update update map_option
  delayed_update_lem name params r p d there rest =
      let (q, found, t, v, h) = (update_props_lem name params r.props).1 p there rest in
      (
        get-changes name (update_props params r.props) q (update_props-Distinct params r.props d)
              found
            ∙ outcome p q (given name params) t v h,
        at_rest q,
        get-forget name (update_props params r.props) ∙ ap (map_option at_rest) found,
        refl,
        v,
      )
