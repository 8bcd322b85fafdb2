-- ===== src/Reactive/Storage.antt =====
-- Properties that outlive the page: what the delayed round stores, a new object finds.
use convos.Prelude.{
  Eq, ◌===◌, ◌≡◌, refl, ap, ◌∙◌, sym, true, false, Text, text_eq, text_eq_iff, [], ◌∷◌, Option,
  none, some, get_or, arith, if◌then◌else◌, string_eq, Bool-cases, ◌⊎◌, inl, inr, All,
}
use convos.Prelude.Dict.{Dict, get, get-set, get-set_self, get-delete, Distinct}
use convos.Reactive.{
  persist, Property, Json, Reactive, storage_key, store_local, load_local, read_text, store,
  store_all, has_changed, delayed_update, defined, prop, declared,
}

module _ {V : Type 0} ⦃e : Eq V⦄ (json : Json V) (k : Text) where
  -- A property with another storage key leaves the key `k` alone.
  store_other :
      (name : Text) (p : Property V) (r : Reactive V)
      → text_eq (storage_key p name) k ≡ false
      → get k (store json name p r).local_storage ≡ get k r.local_storage
  unfolding store store_local
  store_other name p r h = ground (
    arith,
    get-set k (storage_key p name) (json.stringify p.value) r.local_storage,
    get-delete k (storage_key p name) r.local_storage,
  )

  store_others :
      (props : Dict Text (Property V)) (r : Reactive V)
      → All (λ x. text_eq (storage_key x.1 x.0) k ≡ false) props
      → get k (store_all json props r).local_storage ≡ get k r.local_storage
  unfolding store_all
  store_others [] r a = refl
  store_others ((name, p) ∷ props) r a =
      store_others props (store json name p r) a.1 ∙ store_other name p r a.0

  -- No other property is stored under `k`.
  abbrev pub IsSeparate : Text → Dict Text (Property V) → Type 0
  IsSeparate name props =
      All (λ x. (text_eq x.0 name ≡ true) ⊎ (text_eq (storage_key x.1 x.0) k ≡ false)) props

  others :
      (name : Text) (props : Dict Text (Property V))
      → IsSeparate name props
      → get name props ≡ none
      → All (λ x. text_eq (storage_key x.1 x.0) k ≡ false) props
  unfolding get
  others name [] a h = tt
  others name ((other, p) ∷ props) a h = ground (arith, others name props a.1)

  -- The whole round writes under `k` what the one property there writes.
  store_all-get :
      (name : Text) (props : Dict Text (Property V)) (p : Property V) (r : Reactive V)
      → Distinct props
      → IsSeparate name props
      → get name props ≡ some p
      → (s : Reactive V) × (get k (store_all json props r).local_storage
          ≡ get k (store json name p s).local_storage)
  unfolding get store_all
  store_all-get name [] p r d a h = cc
  store_all-get name ((other, q) ∷ props) p r d a h = elim (Bool-cases (text_eq other name)) [
    | inl same ↦
        let eq : q ≡ p = ground arith in
        let eqn : other ≡ name = (text_eq_iff other name).0 same in
        (
          r,
          store_others props (store json other q r)
                (others name props a.1 (ap (λ n. get n props) (sym eqn) ∙ d.0))
              ∙ ap (λ n. get k (store json n q r).local_storage) eqn
              ∙ ap (λ x. get k (store json name x r).local_storage) eq,
        )
    | inr differs ↦ store_all-get name props p (store json other q r) d.1 a.1 (ground arith)
  ]

module _ {V : Type 0} ⦃e : Eq V⦄ (json : Json V) where
  stored_text :
      (name : Text) (p : Property V) (s : Reactive V)
      → p.type ≡ persist
      → has_changed p ≡ true
      → get (storage_key p name) (store json name p s).local_storage
        ≡ (if p.value === p.default_value then none else some (json.stringify p.value))
  unfolding store store_local
  stored_text name p s t h = ground (
    arith,
    get-set_self (storage_key p name) (json.stringify p.value) s.local_storage,
    get-delete (storage_key p name) (storage_key p name) s.local_storage,
    text_eq_iff (storage_key p name) (storage_key p name),
  )

  reload :
      (name : Text) (p : Property V) (fresh : Reactive V)
      → get (storage_key p name) fresh.local_storage
        ≡ (if p.value === p.default_value then none else some (json.stringify p.value))
      → json.parse (json.stringify p.value) ≡ some p.value
      → json.is_undefined p.value ≡ false
      → get_or
          (defined json (
            load_local json (declared json persist p.default_value p.key) name fresh.local_storage))
          p.default_value
        ≡ p.value
  unfolding load_local defined read_text
  reload name p fresh text survives solid = elim (Bool-cases (p.value === p.default_value)) [
    | inl same ↦
        ap after_read (text ∙ ap (λ b. if b then none else some (json.stringify p.value)) same)
        ∙ sym ((e.beq_iff p.value p.default_value).0 same)
    | inr other ↦
        ap after_read (text ∙ ap (λ b. if b then none else some (json.stringify p.value)) other)
        ∙ rw survives (rw solid)
  ]
    where
      after_read : Option Text → V
      after_read o = get_or (defined json (read_text json o)) p.default_value

  -- A persistent property that changed has, in a new object declared with the same name, key and
  -- default over the storage that the delayed round leaves, the value that it had: if that value
  -- survives JSON and is neither null nor undefined, no name stands twice, and no other property is
  -- stored under the same key.
  pub prop-delayed_update :
      (name : Text) (r fresh : Reactive V) (p : Property V)
      → Distinct r.props
      → IsSeparate json (storage_key p name) name r.props
      → get name r.props ≡ some p
      → p.type ≡ persist
      → has_changed p ≡ true
      → json.parse (json.stringify p.value) ≡ some p.value
      → json.is_undefined p.value ≡ false
      → fresh.local_storage ≡ (delayed_update json r).0.local_storage
      → (q : Property V) × (get name (prop json persist name p.default_value p.key fresh).props
          ≡ some q)
        × (q.value ≡ p.value)
  unfolding prop delayed_update load_local defined
  prop-delayed_update name r fresh p d a there t h survives solid same =
      let (s, g) = store_all-get json (storage_key p name) name r.props p r d a there in
      let found =
        get_or
          (defined json (
            load_local json (declared json persist p.default_value p.key) name fresh.local_storage))
          p.default_value in
      let text = ap (get (storage_key p name)) same ∙ g ∙ stored_text name p s t h in
      (
        record (declared json persist p.default_value p.key) { value = found },
        get-set_self name (record (declared json persist p.default_value p.key) { value = found })
            fresh.props,
        reload name p fresh text survives solid,
      )
