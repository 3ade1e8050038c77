-- ===== src/Providers/PytdxPool/Candidates.antt =====
-- The candidates of a refresh, and what a probe makes of one (src/market_data_center/providers/
-- pytdx_pool.py). The network probe is a parameter. A probe's answer maps each capability to a
-- Boolean, to another object, or to nothing, and it may have keys that are no capability.
use data_center.Prelude.{
  ℕ, ◌≡◌, refl, sym, subst, Bool, true, false, not, ◌&&◌, ◌||◌, Option, none, some, List, [], ◌∷◌,
  ◌++◌, map, any, All, has_duplicates, arith, if◌then◌else◌,
}
use data_center.Prelude.Codes.{codes_eq→eq, codes_eq_refl}
use data_center.Providers.PytdxPool.Document.{}
use data_center.Prelude.Int.{ℤ, pos, negsuc}
use data_center.Providers.PytdxPool.{
  PytdxCapability, quote, daily_bar_sse, daily_bar_szse, daily_bar_bse, Capabilities, PytdxPoolNode,
  Endpoint, endpoint_of, endpoint_eq, is_valid_host, is_valid_port,
}
use data_center.Providers.PytdxPool.RoundTrip.{IsValidNode}

is_valid_candidate : Endpoint → Bool
is_valid_candidate (host, port) = is_valid_host host && is_valid_port port

-- The loop of `_normalize_candidates`, with the list that it has built.
normalize_step : List Endpoint → Endpoint → List Endpoint
normalize_step normalized candidate =
    if is_valid_candidate candidate && not (any (endpoint_eq candidate) normalized)
    then normalized ++ candidate ∷ []
    else normalized

normalize_from : List Endpoint → List Endpoint → List Endpoint
normalize_from normalized [] = normalized
normalize_from normalized (candidate ∷ candidates) =
    normalize_from (normalize_step normalized candidate) candidates

unfoldable pub normalize_candidates : List Endpoint → List Endpoint
unfolding normalize_from normalize_step is_valid_candidate
normalize_candidates = normalize_from []

pub data Entry : Type 0 where
  missing : Entry
  not_boolean : Entry
  boolean : Bool → Entry

pub record PytdxProbeResult : Type 0 where
  pub host : List ℕ
  pub port : ℕ
  pub latency_ms : ℤ
  pub capabilities : PytdxCapability → Entry
  pub other_keys : Bool

-- `None` and every exception of a probe are `unusable`.
pub data ProbeOutcome : Type 0 where
  unusable : ProbeOutcome
  measured : PytdxProbeResult → ProbeOutcome

-- `dict(result.capabilities)`, if the keys are the four capabilities and the values Booleans.
checked_capabilities : PytdxProbeResult → Option Capabilities
checked_capabilities r = if r.other_keys then none else elim (r.capabilities quote) [
  | boolean q ↦ elim (r.capabilities daily_bar_sse) [
    | boolean sse ↦ elim (r.capabilities daily_bar_szse) [
      | boolean szse ↦ elim (r.capabilities daily_bar_bse) [
        | boolean bse ↦ some (record {
          has_quote = q;
          has_daily_bar_sse = sse;
          has_daily_bar_szse = szse;
          has_daily_bar_bse = bse;
        })
        | _ ↦ none
      ]
      | _ ↦ none
    ]
    | _ ↦ none
  ]
  | _ ↦ none
]

abbrev any_enabled : Capabilities → Bool
any_enabled c = c.has_quote || c.has_daily_bar_sse || c.has_daily_bar_szse || c.has_daily_bar_bse

accept_probe : Endpoint → PytdxProbeResult → Option PytdxPoolNode
accept_probe (host, port) r =
    if not (endpoint_eq (r.host, r.port) (host, port))
    then none
    else elim (checked_capabilities r) [
      | none ↦ none
      | some c ↦
          if any_enabled c
          then elim r.latency_ms [
            | pos latency ↦
                some (record { host = host; port = port; latency_ms = latency; capabilities = c })
            | negsuc _ ↦ none
          ]
          else none
    ]

unfoldable pub safe_probe : (Endpoint → ProbeOutcome) → Endpoint → Option PytdxPoolNode
unfolding accept_probe checked_capabilities
safe_probe probe endpoint = elim (probe endpoint) [
  | unusable ↦ none
  | measured r ↦ accept_probe endpoint r
]

abbrev add_node : Option PytdxPoolNode → List PytdxPoolNode → List PytdxPoolNode
add_node none nodes = nodes
add_node (some node) nodes = node ∷ nodes

-- `_probe_candidates` over the futures that completed in time, in the order of the set.
unfoldable pub probe_each : (Endpoint → ProbeOutcome) → List Endpoint → List PytdxPoolNode
probe_each probe [] = []
probe_each probe (endpoint ∷ endpoints) =
    add_node (safe_probe probe endpoint) (probe_each probe endpoints)

-- What the normalisation gives: valid endpoints, none twice.
abbrev pub AreCandidates : List Endpoint → Type 0
AreCandidates candidates =
    All (λ e. (is_valid_host e.0 ≡ true) × (is_valid_port e.1 ≡ true)) candidates
    × (has_duplicates endpoint_eq candidates ≡ false)

pub endpoint_eq-sym : (a b : Endpoint) → endpoint_eq a b ≡ false → endpoint_eq b a ≡ false
unfolding endpoint_eq
endpoint_eq-sym a b h =
    ground (arith, codes_eq→eq b.0 a.0, codes_eq→eq a.0 b.0, codes_eq_refl a.0, codes_eq_refl b.0)

any-append :
    {A : Type 0} (p : A → Bool) (xs ys : List A) → any p (xs ++ ys) ≡ (any p xs || any p ys)
any-append p [] ys = refl
any-append p (x ∷ xs) ys = ground (arith, any-append p xs ys)

has_duplicates-snoc :
    (xs : List Endpoint) (e : Endpoint)
    → has_duplicates endpoint_eq xs ≡ false
    → any (endpoint_eq e) xs ≡ false
    → has_duplicates endpoint_eq (xs ++ e ∷ []) ≡ false
has_duplicates-snoc [] e h g = refl
has_duplicates-snoc (x ∷ xs) e h g =
    ground
      (arith, has_duplicates-snoc xs e, any-append (endpoint_eq x) xs (e ∷ []), endpoint_eq-sym e x)

All-snoc :
    (P : Endpoint → Type 0) (xs : List Endpoint) (e : Endpoint)
    → All P xs
    → P e
    → All P (xs ++ e ∷ [])
All-snoc P [] e h p = (p, tt)
All-snoc P (x ∷ xs) e h p = (h.0, All-snoc P xs e h.1 p)

append_if-AreCandidates :
    (b : Bool) (normalized : List Endpoint) (e : Endpoint)
    → (is_valid_candidate e && not (any (endpoint_eq e) normalized)) ≡ b
    → AreCandidates normalized
    → AreCandidates (if b then normalized ++ e ∷ [] else normalized)
unfolding is_valid_candidate
append_if-AreCandidates false normalized e q h = h
append_if-AreCandidates true normalized e q h = (
  All-snoc (λ x. (is_valid_host x.0 ≡ true) × (is_valid_port x.1 ≡ true)) normalized e h.0
      (ground arith),
  has_duplicates-snoc normalized e h.1 (ground arith),
)

normalize_step-AreCandidates :
    (normalized : List Endpoint) (e : Endpoint)
    → AreCandidates normalized
    → AreCandidates (normalize_step normalized e)
unfolding normalize_step
normalize_step-AreCandidates normalized e h = append_if-AreCandidates _ normalized e refl h

normalize_from-AreCandidates :
    (normalized candidates : List Endpoint)
    → AreCandidates normalized
    → AreCandidates (normalize_from normalized candidates)
unfolding normalize_from
normalize_from-AreCandidates normalized [] h = h
normalize_from-AreCandidates normalized (e ∷ candidates) h =
    normalize_from-AreCandidates (normalize_step normalized e) candidates
      (normalize_step-AreCandidates normalized e h)

-- The normalised candidates are valid endpoints, and no endpoint stands among them twice.
pub normalize_candidates-AreCandidates :
    (candidates : List Endpoint) → AreCandidates (normalize_candidates candidates)
unfolding normalize_candidates
normalize_candidates-AreCandidates candidates =
    normalize_from-AreCandidates [] candidates (tt, refl)

abbrev IsAt : Endpoint → Option PytdxPoolNode → Type 0
IsAt e none = Unit
IsAt e (some node) = endpoint_of node ≡ e

safe_probe-IsAt : (probe : Endpoint → ProbeOutcome) (e : Endpoint) → IsAt e (safe_probe probe e)
unfolding safe_probe accept_probe
safe_probe-IsAt probe e = ground arith

any-add_node :
    (e x : Endpoint) (found : Option PytdxPoolNode) (nodes : List PytdxPoolNode)
    → IsAt x found
    → endpoint_eq e x ≡ false
    → any (endpoint_eq e) (map endpoint_of nodes) ≡ false
    → any (endpoint_eq e) (map endpoint_of (add_node found nodes)) ≡ false
any-add_node e x none nodes at ne h = h
any-add_node e x (some node) nodes at ne h = rw (at, ne) h

any-probe_each :
    (probe : Endpoint → ProbeOutcome) (e : Endpoint) (endpoints : List Endpoint)
    → any (endpoint_eq e) endpoints ≡ false
    → any (endpoint_eq e) (map endpoint_of (probe_each probe endpoints)) ≡ false
unfolding probe_each
any-probe_each probe e [] h = refl
any-probe_each probe e (x ∷ endpoints) h =
    any-add_node e x (safe_probe probe x) (probe_each probe endpoints) (safe_probe-IsAt probe x)
      (ground arith) (any-probe_each probe e endpoints (ground arith))

-- Valid nodes, no two of them at one endpoint.
abbrev pub AreNodes : List PytdxPoolNode → Type 0
AreNodes nodes =
    All IsValidNode nodes × (has_duplicates endpoint_eq (map endpoint_of nodes) ≡ false)

add_node-AreNodes :
    (x : Endpoint) (found : Option PytdxPoolNode) (nodes : List PytdxPoolNode)
    → IsAt x found
    → (is_valid_host x.0 ≡ true) × (is_valid_port x.1 ≡ true)
    → any (endpoint_eq x) (map endpoint_of nodes) ≡ false
    → AreNodes nodes
    → AreNodes (add_node found nodes)
add_node-AreNodes x none nodes at valid fresh h = h
add_node-AreNodes x (some node) nodes at valid fresh h = (
  (
    subst (λ (y : Endpoint). (is_valid_host y.0 ≡ true) × (is_valid_port y.1 ≡ true)) (sym at)
        valid,
    h.0,
  ),
  rw (at, fresh) h.1,
)

-- The nodes are valid and have different endpoints, if the endpoints that were probed do.
pub probe_each-AreNodes :
    (probe : Endpoint → ProbeOutcome) (endpoints : List Endpoint)
    → AreCandidates endpoints
    → AreNodes (probe_each probe endpoints)
unfolding probe_each
probe_each-AreNodes probe [] h = (tt, refl)
probe_each-AreNodes probe (x ∷ endpoints) h =
    add_node-AreNodes x (safe_probe probe x) (probe_each probe endpoints) (safe_probe-IsAt probe x)
      h.0.0 (any-probe_each probe x endpoints (ground arith))
      (probe_each-AreNodes probe endpoints (h.0.1, ground arith))
