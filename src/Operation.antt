-- ===== src/Operation.antt =====
-- assets/store/Operation.js: one call of the API at a time. `perform` locks the object with a promise
-- until the request has been answered; the rounds of the event loop are separate functions here:
-- `perform`, then `specified` when the specification of the API is there, then `loaded`, `broken`
-- when one of the callbacks throws. Files and form data are not modelled.
pub mod Lock
pub mod Missing
mod Tests
use convos.Prelude.{
  ℕ, ◌≡◌, ◌==◌, Bool, true, false, not, ◌&&◌, ◌||◌, Text, text_eq, codes, is_empty, List, [], ◌∷◌,
  ◌++◌, Option, none, some, get_or, if◌then◌else◌, string_eq, leb, map, or_text,
}
use convos.Prelude.Dict
use convos.Prelude.Dict.{Dict, get, has, set, delete}

pub data Status : Type 0 where
  pending loading success failed : Status

-- `path` is empty where the source has undefined.
pub record ApiError : Type 0 where
  pub message : Text
  pub path : Text

-- Where a parameter goes: `in` of the specification.
pub data Place : Type 0 where
  in_path in_query in_header : Place
  in_other : Text → Place

pub record Parameter : Type 0 where
  pub name : Text
  pub place : Place
  pub required : Bool

-- What the request is made of: the replacements in the path in order, the query, the header (a value
-- `none` is undefined), and the keys of a JSON body.
pub record Request : Type 0 where
  pub path : Dict Text Text
  pub query : Dict Text Text
  pub headers : Dict Text (Option Text)
  pub body : Option (Dict Text (Option Text))

-- `properties` are those of the schema of a JSON body, `none` if the operation takes none.
pub record OpSpec : Type 0 where
  pub parameters : List Parameter
  pub properties : Option (List Text)

-- `code` is the number of `res.status`.
pub record Response : Type 0 where
  pub code : ℕ
  pub errors : Option (List ApiError)
  pub content : Text

pub record Operation : Type 0 where
  pub id : Text
  pub default_params : Dict Text Text
  pub err : Option (List ApiError)
  pub req : Request
  pub res : Response
  pub status : Status
  pub promise : Bool

-- The request and the errors so far.
abbrev pub Draft : Type 0
Draft = Request × List ApiError

abbrev pub missing : Parameter → ApiError
missing p = record { message = codes "Missing property."; path = b'/' ∷ p.name }

-- What a step of the building gives: a result, or the exception on an unknown place, with the header
-- as it is by then.
pub data Step (A : Type 0) : Type 0 where
  done : A → Step A
  unknown_place : Text → Dict Text (Option Text) → Step A

-- A parameter that is there. `_extractValue` gets the name of a parameter in the header where it
-- expects the parameter, so its value is undefined.
unfoldable pub place_value : Parameter → Text → Request → Step Request
place_value p value req = elim p.place [
  | in_path ↦ done (record req { path = set p.name value req.path })
  | in_query ↦ done (record req { query = set p.name value req.query })
  | in_header ↦ done (record req { headers = set p.name none req.headers })
  | in_other place ↦ unknown_place place req.headers
]

-- One round of the loop of `_paramsToRequest`.
unfoldable pub add_parameter : Dict Text Text → Parameter → Draft → Step Draft
unfolding place_value
add_parameter params p (req, errors) = elim (get p.name params) [
  | none ↦ done (req, if p.required then errors ++ missing p ∷ [] else errors)
  | some value ↦ elim (place_value p value req) [
    | done r ↦ done (r, errors)
    | unknown_place place headers ↦ unknown_place place headers
  ]
]

unfoldable pub add_parameters : Dict Text Text → List Parameter → Draft → Step Draft
unfolding add_parameter
add_parameters params [] draft = done draft
add_parameters params (p ∷ ps) draft = elim (add_parameter params p draft) [
  | done d ↦ add_parameters params ps d
  | unknown_place place headers ↦ unknown_place place headers
]

-- The JSON body: each property of the schema, undefined if it is not given.
unfoldable pub body_of : Dict Text Text → List Text → Dict Text (Option Text)
body_of params [] = []
body_of params (k ∷ ks) = (k, get k params) ∷ body_of params ks

-- `_paramsToRequest(opSpec, params)`: the request, or what it throws.
pub data Built : Type 0 where
  built : Request → Built
  thrown : List ApiError → Dict Text (Option Text) → Built
  unsupported : Text → Dict Text (Option Text) → Built

unfoldable pub with_body : OpSpec → Dict Text Text → Draft → Built
with_body spec params (req, []) = built (record req {
  body = elim spec.properties [ none ↦ none | some ks ↦ some (body_of params ks) ];
})
with_body spec params (req, e ∷ es) = thrown (e ∷ es) req.headers

-- `headers` is the header of the last request, which the source writes to.
unfoldable pub params_to_request : OpSpec → Dict Text Text → Dict Text (Option Text) → Built
unfolding add_parameters body_of with_body
params_to_request spec params headers =
    let empty : Request = record { path = []; query = []; headers = headers; body = none } in
    elim (add_parameters params spec.parameters (empty, [])) [
      | done draft ↦ with_body spec params draft
      | unknown_place place left ↦ unsupported place left
    ]

-- `update({err, status: 'error'})` of `error(err)`.
unfoldable pub error_with : List ApiError → Operation → Operation
error_with errors op = record op { err = some errors; status = failed }

abbrev text_error : Text → ApiError
text_error message = record { message = message; path = [] }

-- The handler of `catch`, then the one of `finally`. `shown` is `String(err)`; `errors` is `err` if
-- it is an array.
unfoldable pub broken : Option (List ApiError) → Text → Operation → Operation
unfolding error_with
broken errors shown op =
    let failure = get_or errors (
      text_error (codes "Failed fetching operationId \"" ++ op.id ++ codes "\": " ++ shown) ∷ []) in
    record (error_with failure op) {
      res = record { code = 599; errors = some (text_error shown ∷ []); content = [] };
      promise = false;
    }

-- `perform(params)` up to the lock: whether a new call begins, for which the specification is asked.
unfoldable pub perform : Operation → Operation × Bool
perform op = if op.promise then (op, false) else (record op { promise = true }, true)

-- The specification is there (`none`: no such operation): the request goes out, or the call fails.
-- `String(err)` of an array of errors.
abbrev pub shown_errors : List ApiError → Text
shown_errors [] = []
shown_errors (e ∷ []) = codes "[object Object]"
shown_errors (e ∷ next ∷ es) = codes "[object Object]," ++ shown_errors (next ∷ es)

abbrev pub with_headers : Dict Text (Option Text) → Operation → Operation
with_headers headers op = record op { req = record op.req { headers = headers } }

unfoldable pub sent_off : Built → Operation → Operation × Option Request
unfolding broken
sent_off (built req) op = (record op { req = req; status = loading }, some req)
sent_off (thrown errors headers) op =
    (broken (some errors) (shown_errors errors) (with_headers headers op), none)
sent_off (unsupported place headers) op = (
  broken none (codes "[Api] Parameter in:" ++ place ++ codes " is not supported.")
      (with_headers headers op),
  none,
)

unfoldable pub specified :
    Option OpSpec → Option (Dict Text Text) → Operation → Operation × Option Request
unfolding params_to_request broken sent_off
specified none params op =
    (broken none (codes "Unknown operationId \"" ++ op.id ++ codes "\".") op, none)
specified (some spec) params op =
    sent_off (params_to_request spec (get_or params op.default_params) op.req.headers) op

-- `match(/^[23]/)` on the decimal text of a status of three digits.
abbrev pub is_fine : ℕ → Bool
is_fine code = leb 200 code && leb code 399

abbrev unknown_error : Text
unknown_error = codes "Unknown error."

-- The answer is there and its body could be parsed. `status` 0 (no answer) counts as 201.
unfoldable pub loaded : ℕ → Text → Option (List ApiError) → Text → Operation → Operation
loaded status status_text errors content op =
    let code = if status == 0 then 201 else status in
    let failure =
      if is_fine code
      then none
      else some (get_or errors (text_error (or_text status_text unknown_error) ∷ [])) in
    record op {
      err = failure;
      res = record { code = code; errors = errors; content = content };
      status = if is_fine code then success else failed;
      promise = false;
    }

-- `reset()`
unfoldable pub reset : Operation → Operation
reset op = record op {
  err = none;
  res = record { code = 0; errors = none; content = [] };
  status = pending;
}
