-- ===== src/Providers/Router.antt =====
-- Provider selection, failover and circuit breaking (src/market_data_center/providers/router.py).
-- Every call of a provider is an action on a world `E`, which the model leaves open: the factory,
-- `__enter__`, `__exit__` and the routed operation are parameters that may answer or raise.
pub mod Circuit
pub mod Failover
pub mod Frame
pub mod Erased
pub mod Sessions
mod Tests
use Prim.Native.String
use Prim.Native.String.{String}
use data_center.Prelude.{
  ℕ, ◌+◌, ◌≡◌, refl, Bool, true, false, Option, none, some, List, [], ◌∷◌, ◌++◌, reverse, leb,
  if◌then◌else◌,
}
use data_center.Prelude.Text.{contains, add, lookup, insert, erase, keys}

-- The classes that the `except` clauses tell apart. `ProviderRequestUnavailable` derives from
-- `ProviderError`, and `base_exception` is what `except Exception` does not catch.
pub data ErrorKind : Type 0 where
  request_unavailable provider_error other_exception base_exception : ErrorKind

pub record Error : Type 0 where
  pub kind : ErrorKind
  pub type_name : String
  pub message : String

pub data Outcome (A : Type 0) : Type 0 where
  done : A → Outcome A
  raised : Error → Outcome A

pub record RoutingAttempt : Type 0 where
  pub provider_code : String
  pub error_type : String
  pub text : String

pub data Routed (V : Type 0) : Type 0 where
  routed : (provider_code : String) (value : V) (failed_attempts : List RoutingAttempt) → Routed V
  routing_error : (attempts : List RoutingAttempt) → Routed V
  escaped : Error → Routed V

-- What one turn of the loop of `route` ends in: `return`, `continue`, or an error that no clause
-- catches.
pub data Turn (V : Type 0) : Type 0 where
  answered : V → Turn V
  failed : RoutingAttempt → Turn V
  uncaught : Error → Turn V

-- A split on how a turn ended that keeps the equation.
pub data TurnCase {V : Type 0} (t : Turn V) : Type 0 where
  answers : (value : V) → t ≡ answered value → TurnCase t
  fails : (attempt : RoutingAttempt) → t ≡ failed attempt → TurnCase t
  escapes : (error : Error) → t ≡ uncaught error → TurnCase t

pub Turn-cases : {V : Type 0} (t : Turn V) → TurnCase t
Turn-cases (answered value) = answers value refl
Turn-cases (failed attempt) = fails attempt refl
Turn-cases (uncaught error) = escapes error refl

pub record RouterState (S : Type 0) : Type 0 where
  pub providers : List (String × S)
  pub consecutive_failures : List (String × ℕ)
  pub open_circuits : List String

abbrev pub failures_of : {S : Type 0} → RouterState S → String → ℕ
failures_of r code = elim (lookup code r.consecutive_failures) [ none ↦ 0 | some n ↦ n ]

abbrev attempt_of : String → Error → RoutingAttempt
attempt_of code error = record {
  provider_code = code;
  error_type = error.type_name;
  text = error.message;
}

abbrev circuit_open : String → RoutingAttempt
circuit_open code = record {
  provider_code = code;
  error_type = "CircuitOpen";
  text = "consecutive failure limit reached";
}

-- The provider classes, and what the world does when they are called.
pub record World (E S : Type 0) : Type 0 where
  pub factory : String → E → Outcome S × E
  pub enter : S → E → Outcome S × E
  pub exit : S → E → Outcome (Unit {0}) × E

-- The error of `_get_provider` in place of one that is no `ProviderError`.
abbrev session_error : String → Error
session_error code = record {
  kind = provider_error;
  type_name = "ProviderError";
  message = String.◌++◌ "provider session failed to open: " code;
}

abbrev opening_error : String → Error → Error
opening_error code error = elim error.kind [
  | request_unavailable ↦ error
  | provider_error ↦ error
  | other_exception ↦ session_error code
  | base_exception ↦ error
]

module _ {E S : Type 0} (world : World E S) where
  open_session : String → E → Outcome S × E
  open_session code e =
      let (made, e1) = world.factory code e in
      elim made [ raised error ↦ (raised error, e1) | done provider ↦ world.enter provider e1 ]

  get_provider : String → RouterState S → E → Outcome S × RouterState S × E
  get_provider code r e = elim (lookup code r.providers) [
    | some existing ↦ (done existing, r, e)
    | none ↦
        let (opened, e1) = open_session code e in
        elim opened [
          | raised error ↦ (raised (opening_error code error), r, e1)
          | done entered ↦
              (done entered, record r { providers = insert code entered r.providers }, e1)
        ]
  ]

  -- The answer is the error of `__exit__`, if there is one that `except Exception` catches.
  discard_provider : String → RouterState S → E → Outcome (Option Error) × RouterState S × E
  discard_provider code r e = elim (lookup code r.providers) [
    | none ↦ (done none, r, e)
    | some provider ↦
        let r1 : RouterState S = record r { providers = erase code r.providers } in
        let (closed, e1) = world.exit provider e in
        elim closed [
          | done _ ↦ (done none, r1, e1)
          | raised error ↦ elim error.kind [
            | base_exception ↦ (raised error, r1, e1)
            | _ ↦ (done (some error), r1, e1)
          ]
        ]
  ]

record_failure : {S : Type 0} → ℕ → String → RouterState S → RouterState S
record_failure threshold code r =
    let failures : ℕ = failures_of r code + 1 in
    record r {
      consecutive_failures = insert code failures r.consecutive_failures;
      open_circuits = if leb threshold failures then add code r.open_circuits else r.open_circuits;
    }

module _ {E S V : Type 0} (world : World E S) (threshold : ℕ)
    (operation : S → E → Outcome V × E) where
  -- The `try` of the loop: the session is opened or found, and the operation is run on it.
  call_provider : String → RouterState S → E → Outcome V × RouterState S × E
  call_provider code r e =
      let (opened, r1, e1) = get_provider world code r e in
      elim opened [
        | raised error ↦ (raised error, r1, e1)
        | done provider ↦ let (answer, e2) = operation provider e1 in (answer, r1, e2)
      ]

  -- `except ProviderError`: the failure is counted and the session is given up.
  fail_provider : String → Error → RouterState S → E → Turn V × RouterState S × E
  fail_provider code error r e =
      let (closed, r1, e1) = discard_provider world code (record_failure threshold code r) e in
      elim closed [
        | done _ ↦ (failed (attempt_of code error), r1, e1)
        | raised escaping ↦ (uncaught escaping, r1, e1)
      ]

  settle : String → Outcome V × RouterState S × E → Turn V × RouterState S × E
  settle code (done value, r, e) =
      (answered value, record r { consecutive_failures = insert code 0 r.consecutive_failures }, e)
  settle code (raised error, r, e) = elim error.kind [
    | request_unavailable ↦ (failed (attempt_of code error), r, e)
    | provider_error ↦ fail_provider code error r e
    | other_exception ↦ (uncaught error, r, e)
    | base_exception ↦ (uncaught error, r, e)
  ]

  -- One turn of the loop of `route`.
  turn : String → RouterState S → E → Turn V × RouterState S × E
  turn code r e =
      if contains code r.open_circuits
      then (failed (circuit_open code), r, e)
      else settle code (call_provider code r e)

  route_from : List String → List RoutingAttempt → RouterState S → E → Routed V × RouterState S × E
  route_from [] attempts r e = (routing_error attempts, r, e)
  route_from (code ∷ codes) attempts r e =
      let (result, r1, e1) = turn code r e in
      elim result [
        | answered value ↦ (routed code value attempts, r1, e1)
        | failed attempt ↦ route_from codes (attempts ++ attempt ∷ []) r1 e1
        | uncaught error ↦ (escaped error, r1, e1)
      ]

  -- `route`, over the candidates of its dataset.
  pub route : List String → RouterState S → E → Routed V × RouterState S × E
  route codes r e = route_from codes [] r e

-- How `__exit__` ends: silently, or with an error of its own.
pub data Closing : Type 0 where
  closed : Closing
  close_error : Closing
  interrupted : Error → Closing

module _ {E S : Type 0} (world : World E S) where
  close_each : List String → Bool → RouterState S → E → Closing × RouterState S × E
  close_each [] with_errors r e = (if with_errors then close_error else closed, r, e)
  close_each (code ∷ codes) with_errors r e =
      let (result, r1, e1) = discard_provider world code r e in
      elim result [
        | raised error ↦ (interrupted error, r1, e1)
        | done none ↦ close_each codes with_errors r1 e1
        | done (some _) ↦ close_each codes true r1 e1
      ]

  -- `__exit__`; `body_failed` says that the `with` body raised, which hides errors of closing.
  pub exit_router : Bool → RouterState S → E → Closing × RouterState S × E
  exit_router body_failed r e =
      let (result, r1, e1) = close_each (reverse (keys r.providers)) false r e in
      elim result [
        | close_error ↦ (if body_failed then closed else close_error, r1, e1)
        | closed ↦ (closed, r1, e1)
        | interrupted error ↦ (interrupted error, r1, e1)
      ]
