-- ===== src/Route/Go.antt =====
-- What `go` does to the address, the path and the history.
use convos.Prelude.{
  Option, get_or, ◌≡◌, refl, ap, subst, sym, ◌∙◌, Bool, true, false, Text, text_eq, [], ◌∷◌, ◌++◌,
  some, length, drop, get_last?, if◌then◌else◌, arith, starts_with,
}
use convos.Route.{
  Route, without_base, add_to_history, before, query_of, parts_of, on_location_change, visit, go,
}
use convos.Route.History.{IsUnique, IsHistory, add_to_history-IsHistory}

drop-length-append : (a b : Text) → drop (length a) (a ++ b) ≡ b
drop-length-append [] b = refl
drop-length-append (x ∷ a) b = drop-length-append a b

starts_with-append : (a b : Text) → starts_with (a ++ b) a ≡ true
starts_with-append [] b = refl
starts_with-append (x ∷ a) b = ground (arith, starts_with-append a b)

without_base-append : (base path : Text) → without_base base (base ++ path) ≡ path
unfolding without_base
without_base-append base path = rw (starts_with-append base path) (drop-length-append base path)

-- The object before `go` calls `_onLocationChange`.
abbrev visited : Text → Bool → Route → Route
visited target replace r =
    let url = r.base_url ++ target in
    visit replace url (add_to_history url (add_to_history r.location r))

-- What `_onLocationChange` writes while routing is enabled.
abbrev located : (Text → Option Text) → Route → Route
located decode r =
    let url = before b'#' (drop (length r.base_url) r.location) in
    record (add_to_history r.location r) {
      query = query_of url;
      path = before b'?' url;
      path_parts = get_or (parts_of decode (before b'?' url)) r.path_parts;
    }

on_location_change-enabled :
    (decode : Text → Option Text) (r : Route)
    → r.enabled ≡ true
    → on_location_change decode r ≡ located decode r
unfolding on_location_change
on_location_change-enabled decode r on = rw on refl

visited-enabled :
    (target : Text) (replace : Bool) (r : Route) → (visited target replace r).enabled ≡ r.enabled
unfolding add_to_history
visited-enabled target replace r = refl

go_visits :
    (decode : Text → Option Text) (path : Text) (replace : Bool) (r : Route)
    → text_eq (r.base_url ++ without_base r.base_url path) r.location ≡ false
    → go decode path replace r
      ≡ on_location_change decode (visited (without_base r.base_url path) replace r)
unfolding go
go_visits decode path replace r other = rw other refl

go_other :
    (decode : Text → Option Text) (path : Text) (replace : Bool) (r : Route)
    → r.enabled ≡ true
    → text_eq (r.base_url ++ without_base r.base_url path) r.location ≡ false
    → go decode path replace r ≡ located decode (visited (without_base r.base_url path) replace r)
go_other decode path replace r on other =
    let q = visited (without_base r.base_url path) replace r in
    go_visits decode path replace r other
    ∙ on_location_change-enabled decode q
        (visited-enabled (without_base r.base_url path) replace r ∙ on)

visited-IsUnique :
    (target : Text) (replace : Bool) (r : Route)
    → IsUnique r.history
    → IsUnique (visited target replace r).history
visited-IsUnique target replace r u =
    let url = r.base_url ++ target in
    let before_it = add_to_history r.location r in
    (add_to_history-IsHistory url before_it
      (add_to_history-IsHistory r.location r u).0.unique).0.unique

-- `go` to another address, while routing is enabled: the browser is at the base URL followed by the
-- path, the path is what stands before "#" and "?", the address is the last of the history, which
-- is well-formed; the browser has one more entry unless the entry was to be replaced.
pub go_lem :
    (decode : Text → Option Text) (path : Text) (replace : Bool) (r : Route)
    → r.enabled ≡ true
    → IsUnique r.history
    → text_eq (r.base_url ++ without_base r.base_url path) r.location ≡ false
    → let q = go decode path replace r in
      let target = without_base r.base_url path in
      (q.location ≡ r.base_url ++ target)
      × (q.path ≡ before b'?' (before b'#' target))
      × (get_last? q.history ≡ some target)
      × IsHistory q.history
      × (q.entries ≡ (
          if replace
          then (r.base_url ++ target) ∷ drop 1 r.entries
          else (r.base_url ++ target) ∷ r.entries))
unfolding add_to_history
go_lem decode path replace r on u other =
    let target = without_base r.base_url path in
    let q = visited target replace r in
    let shape = go_other decode path replace r on other in
    let (unique, last) =
      add_to_history-IsHistory (r.base_url ++ target) q (visited-IsUnique target replace r u) in
    (
      ap (λ g. g.location) shape,
      ap (λ g. g.path) shape
          ∙ ap (λ t. before b'?' (before b'#' t)) (drop-length-append r.base_url target),
      ap (λ g. get_last? g.history) shape ∙ last ∙ ap some (without_base-append r.base_url target),
      subst IsHistory (ap (λ g. g.history) (sym shape)) unique,
      ap (λ g. g.entries) shape,
    )
