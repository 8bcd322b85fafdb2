-- ===== src/Reactive/Tests.antt =====
-- Reactive objects of texts, over the browser's JSON as the identity.
use convos.Prelude.{
  text_eq, ℕ, ◌≡◌, ◌==◌, refl, true, false, Text, codes, List, [], ◌∷◌, none, some, string_eq, inl,
  if◌then◌else◌,
}
use convos.Prelude.Dict.{get, set}
use convos.Reactive.{persist, read_only, Property, Json, Reactive, update, delayed_update, prop}
use convos.Reactive.Update.{given}
use convos.Reactive.Flush.{delayed_update_lem}
use convos.Reactive.Storage.{prop-delayed_update}

abbrev json : Json Text
json = record { stringify = λ v. v; parse = λ t. some t; is_undefined = λ v. false }

abbrev none_yet : Reactive Text
none_yet = record { props = []; updated_tid = false; local_storage = []; cookies = [] }

abbrev nick : Property Text
nick = record {
  type = persist;
  default_value = codes "guest";
  value = codes "guest";
  prev = none;
  key = [];
}

abbrev user : Reactive Text
user = record none_yet {
  props = (codes "nick", nick) ∷ (codes "id", record nick { type = read_only }) ∷ [];
}

abbrev params : List (Text × Text)
params = (codes "nick", codes "a") ∷ (codes "id", codes "x") ∷ (codes "nick", codes "b") ∷ []

-- The tests of test/js/Reactive.js: a value that is written back is no change.
update_back :
    (delayed_update json
      (update ((codes "nick", codes "a") ∷ (codes "nick", codes "guest") ∷ []) user)).1
    ≡ []
unfolding delayed_update update get text_eq set
update_back = refl

update_twice :
    (delayed_update json (update params user)).1 ≡ (codes "nick", true) ∷ (codes "id", false) ∷ []
unfolding delayed_update update get text_eq set
update_twice = refl

update_stores :
    (delayed_update json (update params user)).0.local_storage
    ≡ (codes "convos:nick", codes "b") ∷ []
unfolding delayed_update update get text_eq set
update_stores = refl

delayed_update_lem_example :
    (get (codes "nick") (delayed_update json (update params user)).1 ≡ some true)
    × (q : Property Text) × (get (codes "nick") (delayed_update json (update params user)).0.props
        ≡ some q)
    × (q.prev ≡ none)
    × (q.value ≡ codes "b")
unfolding get text_eq given
delayed_update_lem_example =
    delayed_update_lem json (codes "nick") params user nick (refl, (refl, tt)) refl refl

abbrev changed : Reactive Text
changed = record user {
  props =
      (codes "nick", record nick { value = codes "b"; prev = some (some (codes "guest")) }) ∷ [];
}

prop-delayed_update_example :
    (q : Property Text) × (get
        (codes "nick")
        (prop json persist
          (codes "nick")
          (codes "guest")
          []
          (record none_yet { local_storage = (codes "convos:nick", codes "b") ∷ [] })).props
      ≡ some q)
    × (q.value ≡ codes "b")
unfolding delayed_update get set text_eq
prop-delayed_update_example =
    prop-delayed_update json (codes "nick") changed
      (record none_yet { local_storage = (codes "convos:nick", codes "b") ∷ [] })
      (record nick { value = codes "b"; prev = some (some (codes "guest")) }) (refl, tt)
      (inl refl, tt) refl refl refl refl refl refl

-- The first of three listeners is called once only.
abbrev first_once : ℕ → List ℕ
first_once s = if s == 1 then 1 ∷ [] else []
