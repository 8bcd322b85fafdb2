-- ===== src/Operation/Lock.antt =====
-- The lock of an operation, over any order of calls and answers.
use convos.Prelude.{
  subst, get_or, ◌+◌, ◌≤◌, ◌==◌, not, if◌then◌else◌, codes, ◌++◌, ℕ, ◌≡◌, refl, Bool, true, false,
  Text, Option, none, some, List, arith,
}
use convos.Prelude.Dict.{Dict}
use convos.Operation.{
  Status, pending, loading, success, failed, ApiError, OpSpec, Request, Built, built, thrown,
  unsupported, Operation, perform, specified, sent_off, params_to_request, broken, loaded, reset,
  shown_errors, with_headers,
}

-- What can happen to an operation, of which `a` calls wait for the specification and `w` requests are
-- out: `perform`, which may begin a call, and `reset` at any time; the specification arrives for a
-- call that asked for it, or cannot be had; the answer arrives for a request that is out, or its
-- body is no JSON. Nothing here bounds the number of calls.
pub data Step : ℕ → ℕ → Operation → ℕ → ℕ → Operation → Type 0 where
  calls :
      (a w : ℕ) (op : Operation)
      → Step a w op (if (perform op).1 then 1 + a else a) w (perform op).0
  resets : (a w : ℕ) (op : Operation) → Step a w op a w (reset op)
  sends :
      (a w : ℕ) (spec : Option OpSpec) (params : Option (Dict Text Text)) (op next : Operation)
      (req : Request)
      → specified spec params op ≡ (next, some req)
      → Step (1 + a) w op a (1 + w) next
  refuses :
      (a w : ℕ) (spec : Option OpSpec) (params : Option (Dict Text Text)) (op next : Operation)
      → specified spec params op ≡ (next, none)
      → Step (1 + a) w op a w next
  breaks_off :
      (a w : ℕ) (errors : Option (List ApiError)) (shown : Text) (op : Operation)
      → Step (1 + a) w op a w (broken errors shown op)
  breaks :
      (a w : ℕ) (errors : Option (List ApiError)) (shown : Text) (op : Operation)
      → Step a (1 + w) op a w (broken errors shown op)
  answers :
      (a w status : ℕ) (text : Text) (errors : Option (List ApiError)) (content : Text)
      (op : Operation)
      → Step a (1 + w) op a w (loaded status text errors content op)

pub data Run : ℕ → ℕ → Operation → ℕ → ℕ → Operation → Type 0 where
  stays : (a w : ℕ) (op : Operation) → Run a w op a w op
  goes :
      (a w b x c y : ℕ) (p q r : Operation) → Step a w p b x q → Run b x q c y r → Run a w p c y r

abbrev is_loading : Status → Bool
is_loading pending = false
is_loading loading = true
is_loading success = false
is_loading failed = false

-- At most one call is under way, the lock is held exactly while one is, and only a request that is
-- out is "loading".
pub record IsLocked (a : ℕ) (w : ℕ) (op : Operation) : Type 0 where
  pub single : a + w ≤ 1
  pub held : op.promise ≡ not (a + w == 0)
  pub rests : w ≡ 0 → is_loading op.status ≡ false

broken-IsLocked :
    (errors : Option (List ApiError)) (shown : Text) (op : Operation)
    → IsLocked 0 0 (broken errors shown op)
unfolding broken
broken-IsLocked errors shown op = record { single = omega arith; held = refl; rests = λ h. refl }

-- Where a call stands after `specified`.
abbrev IsLockedAfter : Operation × Option Request → Type 0
IsLockedAfter (op, none) = IsLocked 0 0 op
IsLockedAfter (op, some req) = IsLocked 0 1 op

sent_off-IsLocked : (b : Built) (op : Operation) → op.promise ≡ true → IsLockedAfter (sent_off b op)
unfolding sent_off
sent_off-IsLocked (built req) op h = record {
  single = omega arith;
  held = h;
  rests = λ e. ground (arith, e);
}
sent_off-IsLocked (thrown errors headers) op h =
    broken-IsLocked (some errors) (shown_errors errors) (with_headers headers op)
sent_off-IsLocked (unsupported place headers) op h =
    broken-IsLocked none (codes "[Api] Parameter in:" ++ place ++ codes " is not supported.")
      (with_headers headers op)

specified-IsLocked :
    (spec : Option OpSpec) (params : Option (Dict Text Text)) (op : Operation)
    → op.promise ≡ true
    → IsLockedAfter (specified spec params op)
unfolding specified
specified-IsLocked none params op h =
    broken-IsLocked none (codes "Unknown operationId \"" ++ op.id ++ codes "\".") op
specified-IsLocked (some spec) params op h =
    sent_off-IsLocked (params_to_request spec (get_or params op.default_params) op.req.headers) op h

-- A call that is under way is the only one.
alone-asked : (a w : ℕ) → 1 + a + w ≤ 1 → (a ≡ 0) × (w ≡ 0)
alone-asked a w h = (omega (arith, h), omega (arith, h))

alone-waiting : (a w : ℕ) → a + (1 + w) ≤ 1 → (a ≡ 0) × (w ≡ 0)
alone-waiting a w h = (omega (arith, h), omega (arith, h))

-- The lock decides whether a call begins.
begun_lem :
    (a w : ℕ) (op : Operation) (locked : Bool)
    → op.promise ≡ locked
    → IsLocked a w op
    → let r : Operation × Bool =
        if locked then (op, false) else (record op { promise = true }, true) in
      IsLocked (if r.1 then 1 + a else a) w r.0
begun_lem a w op true e l = l
begun_lem a w op false e l =
    let none_yet : a + w ≡ 0 = ground (arith, l.held, e) in
    record { single = omega (arith, none_yet); held = ground (arith, none_yet); rests = l.rests }

-- After the last call nothing is under way.
at_rest : (a w : ℕ) (op : Operation) → (a ≡ 0) × (w ≡ 0) → IsLocked 0 0 op → IsLocked a w op
at_rest a w op (e, f) l = rw (e, f) l

step-IsLocked :
    {p : Operation} {a w : ℕ} {q : Operation} {b x : ℕ}
    → Step a w p b x q
    → IsLocked a w p
    → IsLocked b x q
unfolding perform reset loaded
step-IsLocked (calls a w op) l = begun_lem a w op op.promise refl l
step-IsLocked (resets a w op) l = record { single = l.single; held = l.held; rests = λ e. refl }
step-IsLocked (sends a w spec params op next req e) l =
    let (none_asked, none_out) = alone-asked a w l.single in
    rw (none_asked, none_out)
      (subst IsLockedAfter e (specified-IsLocked spec params op (ground (arith, l.held))))
step-IsLocked (refuses a w spec params op next e) l =
    at_rest a w next (alone-asked a w l.single)
      (subst IsLockedAfter e (specified-IsLocked spec params op (ground (arith, l.held))))
step-IsLocked (breaks_off a w errors shown op) l =
    at_rest a w _ (alone-asked a w l.single) (broken-IsLocked errors shown op)
step-IsLocked (breaks a w errors shown op) l =
    at_rest a w _ (alone-waiting a w l.single) (broken-IsLocked errors shown op)
step-IsLocked (answers a w status text errors content op) l =
    at_rest a w _ (alone-waiting a w l.single)
      (record { single = omega arith; held = refl; rests = λ e. ground arith })

-- Over any order of calls, resets, specifications, answers and exceptions: at most one call is under
-- way, so that there is one request at a time; the lock is held exactly while one is; and when no
-- request is out the status is not "loading".
pub run-IsLocked :
    (a w b x : ℕ) (p q : Operation) → IsLocked a w p → Run a w p b x q → IsLocked b x q
run-IsLocked _ _ _ _ _ _ l (stays a w p) = l
run-IsLocked _ _ _ _ _ _ l (goes a w b x c y p q r s t) =
    run-IsLocked b x c y q r (step-IsLocked s l) t
