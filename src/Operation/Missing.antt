-- ===== src/Operation/Missing.antt =====
-- The required parameters that a call leaves out.
use convos.Prelude.{
  ◌≡◌, refl, ap, ◌∙◌, sym, Bool, false, Text, none, some, List, [], ◌∷◌, ◌++◌, arith, if◌then◌else◌,
  string_eq, filter, map, append_assoc, append-nil, All, Option-cases, inl, inr, Bool-cases,
}
use convos.Prelude.Dict.{Dict, get, set}
use convos.Operation.{
  ApiError, Place, in_path, in_query, in_header, in_other, Parameter, Request, OpSpec, Draft,
  missing, done, body_of, place_value, add_parameter, add_parameters, with_body, params_to_request,
  Operation, failed, loading, specified,
}

-- Whether a parameter is required and not given.
abbrev pub is_missing : Dict Text Text → Parameter → Bool
is_missing params p = elim (get p.name params) [ none ↦ p.required | some value ↦ false ]

-- The places that the source knows.
abbrev pub IsKnown : Place → Type 0
IsKnown in_path = Unit
IsKnown in_query = Unit
IsKnown in_header = Unit
IsKnown (in_other place) = ⊥

abbrev all_missing : Dict Text Text → List Parameter → List ApiError
all_missing params ps = map missing (filter (is_missing params) ps)

place_value-done :
    (p : Parameter) (value : Text) (req : Request)
    → IsKnown p.place
    → (r : Request) × (place_value p value req ≡ done r)
unfolding place_value
place_value-done p value req known = place_cases p.place refl known
  where
    place_cases :
        (place : Place)
        → p.place ≡ place
        → IsKnown place
        → (r : Request) × (place_value p value req ≡ done r)
    place_cases in_path e k = (record req { path = set p.name value req.path }, rw e refl)
    place_cases in_query e k = (record req { query = set p.name value req.query }, rw e refl)
    place_cases in_header e k = (record req { headers = set p.name none req.headers }, rw e refl)
    place_cases (in_other place) e k = absurd k

add_parameters-step :
    (params : Dict Text Text) (p : Parameter) (ps : List Parameter) (draft d : Draft)
    → add_parameter params p draft ≡ done d
    → add_parameters params (p ∷ ps) draft ≡ add_parameters params ps d
unfolding add_parameters
add_parameters-step params p ps draft d h = rw (h, add_parameters) refl

-- What one parameter adds to the errors.
abbrev lacks : Dict Text Text → Parameter → List ApiError
lacks params p = if is_missing params p then missing p ∷ [] else []

all_missing-cons :
    (params : Dict Text Text) (p : Parameter) (ps : List Parameter)
    → all_missing params (p ∷ ps) ≡ lacks params p ++ all_missing params ps
all_missing-cons params p ps = elim (Bool-cases (is_missing params p)) [
  | inl yes_it ↦
      ap
        (λ b.
          map missing
            (if b then p ∷ filter (is_missing params) ps else filter (is_missing params) ps))
        yes_it
      ∙ sym (ap (λ b. (if b then missing p ∷ [] else []) ++ all_missing params ps) yes_it)
  | inr no_it ↦
      ap
        (λ b.
          map missing
            (if b then p ∷ filter (is_missing params) ps else filter (is_missing params) ps))
        no_it
      ∙ sym (ap (λ b. (if b then missing p ∷ [] else []) ++ all_missing params ps) no_it)
]

add_parameter-done :
    (params : Dict Text Text) (p : Parameter) (req : Request) (errors : List ApiError)
    → IsKnown p.place
    → (r : Request) × (add_parameter params p (req, errors) ≡ done (r, errors ++ lacks params p))
unfolding add_parameter
add_parameter-done params p req errors k = elim (Option-cases (get p.name params)) [
  | inl absent ↦ elim (Bool-cases p.required) [
    | inl needed ↦ (req, ground (arith, absent, needed))
    | inr optional ↦ (req, ground (arith, absent, optional, append-nil errors))
  ]
  | inr (value, found) ↦
      let (q, d) = place_value-done p value req k in
      (q, ground (arith, found, d, append-nil errors))
]

add_parameters-done :
    (params : Dict Text Text) (ps : List Parameter) (req : Request) (errors : List ApiError)
    → All (λ p. IsKnown p.place) ps
    → (r : Request) × (add_parameters params ps (req, errors)
        ≡ done (r, errors ++ all_missing params ps))
unfolding add_parameters
add_parameters-done params [] req errors k =
    (req, ap (λ l. done (req, l)) (sym (append-nil errors)))
add_parameters-done params (p ∷ ps) req errors k =
    let (q, d) = add_parameter-done params p req errors k.0 in
    let (r, e) = add_parameters-done params ps q (errors ++ lacks params p) k.1 in
    (
      r,
      add_parameters-step params p ps (req, errors) (q, errors ++ lacks params p) d
          ∙ e
          ∙ ap (λ l. done (r, l))
              (append_assoc errors (lacks params p) (all_missing params ps)
                ∙ ap (λ l. errors ++ l) (sym (all_missing-cons params p ps))),
    )

-- What `specified` makes of the outcome of the building.
module _ (spec : OpSpec) (params : Dict Text Text) (op : Operation) where
  outcome :
      (r : Request) (errors : List ApiError)
      → params_to_request spec params op.req.headers ≡ with_body spec params (r, errors)
      → (errors ≡ []
          → ((specified (some spec) (some params) op).0.status ≡ loading)
            × (q : Request) × ((specified (some spec) (some params) op).1 ≡ some q))
        × ((errors ≡ [] → ⊥)
            → ((specified (some spec) (some params) op).0.status ≡ failed)
              × ((specified (some spec) (some params) op).0.err ≡ some errors)
              × ((specified (some spec) (some params) op).0.promise ≡ false)
              × ((specified (some spec) (some params) op).1 ≡ none))
  unfolding specified with_body
  outcome r [] h = (λ e. rw h (refl, r', refl), λ n. absurd (n refl))
    where
      r' : Request
      r' = record r {
        body = elim spec.properties [ none ↦ none | some ks ↦ some (body_of params ks) ];
      }
  outcome r (x ∷ errors) h = (λ e. cc, λ n. rw h (refl, refl, refl, refl))

  params_to_request-done :
      (draft : Draft)
      → add_parameters params spec.parameters
          (record { path = []; query = []; headers = op.req.headers; body = none }, [])
        ≡ done draft
      → params_to_request spec params op.req.headers ≡ with_body spec params draft
  unfolding params_to_request
  params_to_request-done draft h = rw (h, params_to_request) refl

  -- Where the specification knows only places in the path, the query and the header: a call that
  -- gives every required parameter sends its request and is "loading"; a call that leaves some out
  -- sends none, unlocks, and its error lists exactly those, in the order of the specification.
  pub specified-missing :
      All (λ p. IsKnown p.place) spec.parameters
      → let errors = map missing (filter (is_missing params) spec.parameters) in
        let after = specified (some spec) (some params) op in
        (errors ≡ [] → (after.0.status ≡ loading) × (q : Request) × (after.1 ≡ some q))
        × ((errors ≡ [] → ⊥)
            → (after.0.status ≡ failed)
              × (after.0.err ≡ some errors)
              × (after.0.promise ≡ false)
              × (after.1 ≡ none))
  specified-missing known =
      let empty : Request = record {
        path = [];
        query = [];
        headers = op.req.headers;
        body = none;
      } in
      let (r, e) = add_parameters-done params spec.parameters empty [] known in
      outcome r (all_missing params spec.parameters)
        (params_to_request-done (r, all_missing params spec.parameters) e)
