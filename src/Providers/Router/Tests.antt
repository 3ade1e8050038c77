-- ===== src/Providers/Router/Tests.antt =====
-- Runs of the router, and its theorems at concrete inputs. The sessions are the codes of their
-- providers, and the world is the log of the calls.
use Prim.Native.String.{String}
use data_center.Prelude.{ℕ, ◌≡◌, refl, false, List, [], ◌∷◌, arith, if◌then◌else◌}
use data_center.Prelude.Text.{text_eq, contains, add, lookup, insert, erase, keys}
use data_center.Providers.Router.{
  provider_error, Error, Outcome, done, raised, World, RouterState, routed, close_error,
  open_session, get_provider, discard_provider, record_failure, call_provider, fail_provider,
  settle, turn, route_from, route, close_each, exit_router,
}
use data_center.Providers.Router.Circuit.{IsConsistent, route-IsConsistent}
use data_center.Providers.Router.Failover.{Accounts, route-Accounts}
use data_center.Providers.Router.Frame.{Untouched, route-Untouched}
use data_center.Providers.Router.Sessions.{exit_router_closes}

abbrev Log : Type 0
Log = List String

abbrev world : World Log String
world = record {
  factory = λ code e. (done code, "make" ∷ e);
  enter = λ s e. (done s, "enter" ∷ e);
  exit = λ s e. (done tt, s ∷ e);
}

abbrev outage : Error
outage = record { kind = provider_error; type_name = "ProviderError"; message = "down" }

-- Tushare is down, and every other provider answers 7.
abbrev operation : String → Log → Outcome ℕ × Log
operation s e = (if text_eq s "tushare" then raised outage else done 7, e)

abbrev fresh : RouterState String
fresh = record { providers = []; consecutive_failures = []; open_circuits = [] }

abbrev one_open : RouterState String
one_open = record {
  providers = ("akshare", "akshare") ∷ [];
  consecutive_failures = ("tushare", 1) ∷ [];
  open_circuits = "tushare" ∷ [];
}

abbrev candidates : List String
candidates = "tushare" ∷ "akshare" ∷ []

program : Unit {0}
unfolding route route_from turn settle call_provider fail_provider record_failure discard_provider
    get_provider open_session exit_router close_each contains add lookup insert erase keys
program = tt

-- With a threshold of one the first failure opens the circuit, and the session is given up.
route-outage : route world 1 operation candidates fresh [] ≡ (
  routed "akshare" 7
      (record { provider_code = "tushare"; error_type = "ProviderError"; text = "down" } ∷ []),
  record {
    providers = ("akshare", "akshare") ∷ [];
    consecutive_failures = ("tushare", 1) ∷ ("akshare", 0) ∷ [];
    open_circuits = "tushare" ∷ [];
  },
  "enter" ∷ "make" ∷ "tushare" ∷ "enter" ∷ "make" ∷ [],
)
unfolding program
route-outage = refl

fresh-IsConsistent : IsConsistent 1 fresh
unfolding contains lookup
fresh-IsConsistent code = refl

route-IsConsistent_example : IsConsistent 1 (route world 1 operation candidates fresh []).1
route-IsConsistent_example =
    route-IsConsistent world 1 operation candidates fresh [] (omega arith) fresh-IsConsistent

route-Accounts_example : Accounts candidates (route world 1 operation candidates fresh []).0
route-Accounts_example = route-Accounts world 1 operation candidates fresh []

route-Untouched_example :
    Untouched "akshare" one_open (route world 1 operation ("tushare" ∷ []) one_open []).1
unfolding contains
route-Untouched_example =
    route-Untouched world 1 operation "akshare" ("tushare" ∷ []) one_open [] refl

-- Two sessions, of which the one opened first raises when it is closed.
abbrev breaking : World Log String
breaking = record world {
  exit = λ s e. (if text_eq s "tushare" then raised outage else done tt, s ∷ e);
}

abbrev two_sessions : RouterState String
two_sessions = record one_open { providers = ("tushare", "tushare") ∷ ("akshare", "akshare") ∷ [] }

exit_router_closes_example :
    ((exit_router breaking false two_sessions []).1.providers ≡ [])
    × ((exit_router breaking false two_sessions []).2 ≡ "tushare" ∷ "akshare" ∷ [])
    × ((exit_router breaking false two_sessions []).0 ≡ close_error)
unfolding program
exit_router_closes_example =
    exit_router_closes breaking false two_sessions [] (refl, (refl, tt)) refl
