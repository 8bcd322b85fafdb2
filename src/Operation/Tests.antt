-- ===== src/Operation/Tests.antt =====
-- One operation with a required and an optional parameter.
use convos.Prelude.{
  arith, ◌≡◌, refl, true, false, codes, [], ◌∷◌, none, some, text_eq, map, filter, string_eq,
}
use convos.Prelude.Dict.{get, set}
use convos.Operation.{
  pending, failed, loading, in_path, in_query, in_header, Request, OpSpec, Operation, success,
  perform, specified, loaded, missing,
}
use convos.Operation.Lock.{calls, Run, goes, stays, IsLocked, run-IsLocked}
use convos.Operation.Missing.{is_missing, specified-missing}

abbrev op : Operation
op = record {
  id = codes "search";
  default_params = [];
  err = none;
  req = record { path = []; query = []; headers = []; body = none };
  res = record { code = 0; errors = none; content = [] };
  status = pending;
  promise = false;
}

abbrev spec : OpSpec
spec = record {
  parameters =
      record { name = codes "id"; place = in_path; required = true }
      ∷ record { name = codes "q"; place = in_query; required = false }
      ∷ record { name = codes "key"; place = in_header; required = false }
      ∷ [];
  properties = none;
}

-- A request that no server answers ends like a success.
unanswered : (loaded 0 [] none [] op).status ≡ success
unfolding loaded
unanswered = refl

-- The value given for the header is not sent.
header_lost :
    (specified
      (some spec)
      (some ((codes "id", codes "7") ∷ (codes "key", codes "k") ∷ []))
      op).0.req.headers
    ≡ (codes "key", none) ∷ []
unfolding specified get set text_eq
header_lost = refl

-- Two calls before the specification is there.
abbrev op_run : Run 0 0 op 1 0 (perform (perform op).0).0
unfolding perform
op_run = goes 0 0 1 0 1 0 op (perform op).0 (perform (perform op).0).0 (calls 0 0 op) (
    goes 1 0 1 0 1 0 (perform op).0 (perform (perform op).0).0 (perform (perform op).0).0
      (calls 1 0 (perform op).0) (stays 1 0 (perform (perform op).0).0))

run-IsLocked_example : IsLocked 1 0 (perform (perform op).0).0
run-IsLocked_example =
    run-IsLocked 0 0 1 0 op (perform (perform op).0).0
      (record { single = omega arith; held = refl; rests = λ e. refl }) op_run

specified-missing_example :
    let errors = map missing (filter (is_missing []) spec.parameters) in
    let after = specified (some spec) (some []) op in
    (errors ≡ [] → (after.0.status ≡ loading) × (q : Request) × (after.1 ≡ some q))
    × ((errors ≡ [] → ⊥)
        → (after.0.status ≡ failed)
          × (after.0.err ≡ some errors)
          × (after.0.promise ≡ false)
          × (after.1 ≡ none))
specified-missing_example = specified-missing spec [] op (tt, (tt, (tt, tt)))
