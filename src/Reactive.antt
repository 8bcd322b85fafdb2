-- ===== src/Reactive.antt =====
-- assets/js/Reactive.js: objects with declared properties. `update` writes at once and asks for one
-- delayed round, which compares each touched property with its value before the first write, stores
-- what has to be stored, and emits "update" with the names that changed.
pub mod Update
pub mod Flush
pub mod Storage
pub mod Listeners
mod Tests
use convos.Prelude.{
  Eq, ◌===◌, ◌≡◌, Bool, true, false, not, ◌&&◌, Text, codes, or_text, ◌++◌, List, [], ◌∷◌, Option,
  none, some, get_or, if◌then◌else◌, string_eq,
}
use convos.Prelude.Dict
use convos.Prelude.Dict.{Dict, get, set, delete}

pub data PropType : Type 0 where
  cookie persist read_only read_write : PropType

-- `prev` is `none` if the key is not there; `some none` is the value undefined. `key` is the storage
-- key given at the declaration, empty if none.
pub record Property (V : Type 0) : Type 0 where
  pub type : PropType
  pub default_value : V
  pub value : V
  pub prev : Option (Option V)
  pub key : Text

-- The values of the program, of which the browser gives: `JSON.stringify`, `JSON.parse` (`none` if it
-- throws), and whether a value is null or undefined.
pub record Json (V : Type 0) : Type 0 where
  pub stringify : V → Text
  pub parse : Text → Option V
  pub is_undefined : V → Bool

-- An object with the browser's two stores. `cookies` is the object behind the one cookie.
pub record Reactive (V : Type 0) : Type 0 where
  pub props : Dict Text (Property V)
  pub updated_tid : Bool
  pub local_storage : Dict Text Text
  pub cookies : Dict Text V

abbrev pub is_ro : PropType → Bool
is_ro cookie = false
is_ro persist = false
is_ro read_only = true
is_ro read_write = false

-- `prop.updateable`
abbrev pub updateable : PropType → Bool
updateable cookie = true
updateable persist = true
updateable read_only = false
updateable read_write = true

module _ {V : Type 0} where
  -- `prop.key || prop.name`, with the prefix of localStorage.
  abbrev pub cookie_key : Property V → Text → Text
  cookie_key p name = or_text p.key name

  abbrev pub storage_key : Property V → Text → Text
  storage_key p name = codes "convos:" ++ or_text p.key name

  -- One key of `params` in `update`.
  unfoldable pub touch : Property V → V → Property V
  touch p v = record p {
    prev = some (get_or p.prev (if is_ro p.type then none else some p.value));
    value = if updateable p.type then v else p.value;
  }

  unfoldable pub update_one : Text → V → Dict Text (Property V) → Dict Text (Property V)
  unfolding touch
  update_one name v props = elim (get name props) [
    | none ↦ props
    | some p ↦ set name (touch p v) props
  ]

  unfoldable pub update_props : List (Text × V) → Dict Text (Property V) → Dict Text (Property V)
  unfolding update_one
  update_props [] props = props
  update_props ((name, v) ∷ params) props = update_props params (update_one name v props)

  -- `update(params)`
  unfoldable pub update : List (Text × V) → Reactive V → Reactive V
  unfolding update_props
  update params r = record r { props = update_props params r.props; updated_tid = true }

module _ {V : Type 0} ⦃e : Eq V⦄ where
  -- `prop.value === prev`
  unfoldable pub unchanged : V → Option V → Bool
  unchanged v none = false
  unchanged v (some w) = v === w

  -- Whether `_delayedUpdate` goes past its early returns at a property.
  unfoldable pub has_changed : Property V → Bool
  unfolding unchanged
  has_changed p = elim p.prev [ none ↦ false | some old ↦ not (unchanged p.value old) ]

module _ {V : Type 0} ⦃e : Eq V⦄ (json : Json V) where
  -- `_localStorage(prop, value)`
  unfoldable pub store_local : Property V → Text → V → Dict Text Text → Dict Text Text
  store_local p name v storage =
      if v === p.default_value
      then delete (storage_key p name) storage
      else set (storage_key p name) (json.stringify v) storage

  -- `_localStorage(prop)`: undefined if the key is missing or its text cannot be parsed.
  unfoldable pub read_text : Option Text → Option V
  read_text none = none
  read_text (some text) = json.parse text

  unfoldable pub load_local : Property V → Text → Dict Text Text → Option V
  unfolding read_text
  load_local p name storage = read_text (get (storage_key p name) storage)

module _ {V : Type 0} ⦃e : Eq V⦄ where
  -- `_cookie(prop, value)`
  unfoldable pub store_cookie : Property V → Text → V → Dict Text V → Dict Text V
  store_cookie p name v jar =
      if v === p.default_value
      then delete (cookie_key p name) jar
      else set (cookie_key p name) v jar

module _ {V : Type 0} ⦃e : Eq V⦄ (json : Json V) where
  abbrev store_by_type : PropType → Property V → Text → Reactive V → Reactive V
  store_by_type cookie p name r = record r { cookies = store_cookie p name p.value r.cookies }
  store_by_type persist p name r = record r {
    local_storage = store_local json p name p.value r.local_storage;
  }
  store_by_type read_only p name r = r
  store_by_type read_write p name r = r

  -- What `_delayedUpdate` does at one property.
  unfoldable pub store : Text → Property V → Reactive V → Reactive V
  unfolding has_changed store_cookie store_local
  store name p r = if has_changed p then store_by_type p.type p name r else r

  unfoldable pub store_all : Dict Text (Property V) → Reactive V → Reactive V
  unfolding store
  store_all [] r = r
  store_all ((name, p) ∷ props) r = store_all props (store name p r)

module _ {V : Type 0} where
  -- `delete prop.prev`
  unfoldable pub forget : Dict Text (Property V) → Dict Text (Property V)
  forget [] = []
  forget ((name, p) ∷ props) = (name, record p { prev = none }) ∷ forget props

module _ {V : Type 0} ⦃e : Eq V⦄ where
  -- `changed`
  unfoldable pub changes : Dict Text (Property V) → Dict Text Bool
  unfolding has_changed
  changes [] = []
  changes ((name, p) ∷ props) =
      if has_changed p then (name, not (is_ro p.type)) ∷ changes props else changes props

module _ {V : Type 0} ⦃e : Eq V⦄ (json : Json V) where
  -- `_delayedUpdate()`: the object afterwards, and the names for the event "update", which is emitted
  -- unless there are none.
  unfoldable pub delayed_update : Reactive V → Reactive V × Dict Text Bool
  unfolding store_all forget changes
  delayed_update r =
      let stored = store_all json r.props r in
      (record stored { props = forget r.props; updated_tid = false }, changes r.props)

  -- `_localStorageProp` and `_cookieProp`: the stored value if it is defined; else the store is told
  -- of the default.
  unfoldable pub defined : Option V → Option V
  defined none = none
  defined (some v) = if json.is_undefined v then none else some v

  abbrev pub declared : PropType → V → Text → Property V
  declared type v key = record { type = type; default_value = v; value = v; prev = none; key = key }

  -- `prop(type, name, value, {key})`; a read-only property with the value undefined, and an unknown
  -- type, throw in the source and are not calls of the model.
  unfoldable pub prop : PropType → Text → V → Text → Reactive V → Reactive V
  unfolding load_local defined store_local store_cookie
  prop persist name v key r =
      let p = declared persist v key in
      let found = defined (load_local json p name r.local_storage) in
      record r {
        props = set name (record p { value = get_or found v }) r.props;
        local_storage = elim found [
          | none ↦ store_local json p name v r.local_storage
          | some w ↦ r.local_storage
        ];
      }
  prop cookie name v key r =
      let p = declared cookie v key in
      let found = defined (get (cookie_key p name) r.cookies) in
      record r {
        props = set name (record p { value = get_or found v }) r.props;
        cookies = elim found [ none ↦ store_cookie p name v r.cookies | some w ↦ r.cookies ];
      }
  prop read_only name v key r = record r { props = set name (declared read_only v key) r.props }
  prop read_write name v key r = record r { props = set name (declared read_write v key) r.props }
