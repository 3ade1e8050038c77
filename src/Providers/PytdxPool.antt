-- ===== src/Providers/PytdxPool.antt =====
-- The shared PYTDX endpoint pool: its data, its document and its validation
-- (src/market_data_center/providers/pytdx_pool.py). A host is the list of its code points. A number
-- that the validation bounds from below is natural behind it. `datetime` enters by the record
-- `TimeFormat`.
pub mod Document
pub mod Order
pub mod RoundTrip
pub mod Candidates
pub mod Refresh
use Document.{
  Json, Items, Fields, null, bool, int, float, str, arr, obj, nil, cons, end, field, entries,
}
use data_center.Prelude.Int.{ℤ, pos, negsuc}
use Prim.Native.String.{String}
use data_center.Prelude.{
  ℕ, Bool, true, false, not, ◌&&◌, ◌||◌, Option, none, some, List, [], ◌∷◌, map, any, all,
  has_duplicates, ltb, leb, ◌==◌, if◌then◌else◌,
}
use data_center.Prelude.Text.{text_eq, contains, lookup, keys}
use data_center.Prelude.Codes.{codes, codes_eq, codes_lt, strip}
use data_center.Prelude.Sort.{sort_by}

pub data PytdxCapability : Type 0 where
  quote daily_bar_sse daily_bar_szse daily_bar_bse : PytdxCapability

-- A mapping of the four capabilities, each to whether a node has it.
pub record Capabilities : Type 0 where
  pub has_quote : Bool
  pub has_daily_bar_sse : Bool
  pub has_daily_bar_szse : Bool
  pub has_daily_bar_bse : Bool

abbrev pub enabled : Capabilities → PytdxCapability → Bool
enabled c quote = c.has_quote
enabled c daily_bar_sse = c.has_daily_bar_sse
enabled c daily_bar_szse = c.has_daily_bar_szse
enabled c daily_bar_bse = c.has_daily_bar_bse

pub record PytdxPoolNode : Type 0 where
  pub host : List ℕ
  pub port : ℕ
  pub latency_ms : ℕ
  pub capabilities : Capabilities

pub record PytdxEndpointPool (Time : Type 0) : Type 0 where
  pub refreshed_at : Time
  pub nodes : List PytdxPoolNode

-- What the pool uses of `datetime`; `is_aware` says that there is a time zone with an offset.
pub record TimeFormat (Time : Type 0) : Type 0 where
  pub isoformat : Time → List ℕ
  pub fromisoformat : List ℕ → Option Time
  pub is_aware : Time → Bool

abbrev pub Endpoint : Type 0
Endpoint = List ℕ × ℕ

abbrev pub endpoint_of : PytdxPoolNode → Endpoint
endpoint_of node = (node.host, node.port)

pub endpoint_eq : Endpoint → Endpoint → Bool
endpoint_eq a b = codes_eq a.0 b.0 && a.1 == b.1

-- The order of `(node.latency_ms, node.host, node.port)`.
pub node_le : PytdxPoolNode → PytdxPoolNode → Bool
node_le a b =
    ltb a.latency_ms b.latency_ms
    || (a.latency_ms == b.latency_ms
        && (codes_lt a.host b.host || (codes_eq a.host b.host && leb a.port b.port)))

pub is_valid_host : List ℕ → Bool
is_valid_host [] = false
is_valid_host (c ∷ cs) = codes_eq (c ∷ cs) (strip (c ∷ cs))

pub is_valid_port : ℕ → Bool
is_valid_port port = leb 1 port && leb port 65535

-- Every `TypeError`, `ValueError` and `KeyError` of the validation is `none`: the caller turns them
-- all into one `ProviderError`.
infixl 5 ◌>>=◌ ◌>>◌
abbrev ◌>>=◌ : {A B : Type 0} → Option A → (A → Option B) → Option B
none >>= f = none
some a >>= f = f a

abbrev ◌>>◌ : {B : Type 0} → Option (Unit {0}) → Option B → Option B
m >> k = m >>= λ _. k

abbrev require : Bool → Option (Unit {0})
require true = some tt
require false = none

string_object : Json → Option (List (String × Json))
string_object (obj fields) = some (entries fields)
string_object _ = none

-- `set(value) == expected`
has_fields : List (String × Json) → List String → Bool
has_fields fields expected =
    all (λ k. contains k expected) (keys fields) && all (λ k. contains k (keys fields)) expected

parse_host : Json → Option (List ℕ)
parse_host (str host) = if is_valid_host host then some host else none
parse_host _ = none

parse_port : Json → Option ℕ
parse_port (int (pos port)) = if is_valid_port port then some port else none
parse_port _ = none

parse_latency : Json → Option ℕ
parse_latency (int (pos latency)) = some latency
parse_latency _ = none

parse_enabled : Json → Option Bool
parse_enabled (bool b) = some b
parse_enabled _ = none

abbrev capability_names : List String
capability_names = "quote" ∷ "daily_bar_sse" ∷ "daily_bar_szse" ∷ "daily_bar_bse" ∷ []

parse_capabilities : Json → Option Capabilities
parse_capabilities raw = do
  fields ← string_object raw
  require (has_fields fields capability_names)
  q ← parse_enabled (← lookup "quote" fields)
  sse ← parse_enabled (← lookup "daily_bar_sse" fields)
  szse ← parse_enabled (← lookup "daily_bar_szse" fields)
  bse ← parse_enabled (← lookup "daily_bar_bse" fields)
  some (record {
    has_quote = q;
    has_daily_bar_sse = sse;
    has_daily_bar_szse = szse;
    has_daily_bar_bse = bse;
  })

parse_node : Json → Option PytdxPoolNode
parse_node raw = do
  node ← string_object raw
  require (has_fields node ("host" ∷ "port" ∷ "latency_ms" ∷ "capabilities" ∷ []))
  host ← parse_host (← lookup "host" node)
  port ← parse_port (← lookup "port" node)
  latency_ms ← parse_latency (← lookup "latency_ms" node)
  capabilities ← parse_capabilities (← lookup "capabilities" node)
  some (record { host = host; port = port; latency_ms = latency_ms; capabilities = capabilities })

parse_nodes : Items → Option (List PytdxPoolNode)
parse_nodes nil = some []
parse_nodes (cons raw items) = do
  node ← parse_node raw
  nodes ← parse_nodes items
  some (node ∷ nodes)

parse_node_list : Json → Option (List PytdxPoolNode)
parse_node_list (arr items) = parse_nodes items
parse_node_list _ = none

abbrev pub pool_schema_version : List ℕ
pool_schema_version = codes "pytdx.endpoint_pool.v1"

parse_schema_version : Json → Option (Unit {0})
parse_schema_version (str version) = require (codes_eq version pool_schema_version)
parse_schema_version _ = none

abbrev capabilities_document : Capabilities → Json
capabilities_document c = obj (
    field "quote" (bool c.has_quote) (
      field "daily_bar_sse" (bool c.has_daily_bar_sse) (
        field "daily_bar_szse" (bool c.has_daily_bar_szse)
          (field "daily_bar_bse" (bool c.has_daily_bar_bse) end))))

abbrev node_document : PytdxPoolNode → Json
node_document node = obj (
    field "host" (str node.host) (
      field "port" (int (pos node.port)) (
        field "latency_ms" (int (pos node.latency_ms))
          (field "capabilities" (capabilities_document node.capabilities) end))))

abbrev node_documents : List PytdxPoolNode → Items
node_documents [] = nil
node_documents (node ∷ nodes) = cons (node_document node) (node_documents nodes)

module _ {Time : Type 0} (format : TimeFormat Time) where
  aware_datetime : Json → Option Time
  aware_datetime (str text) = do
    parsed ← format.fromisoformat text
    require (format.is_aware parsed)
    some parsed
  aware_datetime _ = none

  pub parse_endpoint_pool : Json → Option (PytdxEndpointPool Time)
  parse_endpoint_pool document = do
    root ← string_object document
    require (has_fields root ("schema_version" ∷ "refreshed_at" ∷ "nodes" ∷ []))
    parse_schema_version (← lookup "schema_version" root)
    refreshed_at ← aware_datetime (← lookup "refreshed_at" root)
    nodes ← parse_node_list (← lookup "nodes" root)
    require (not (has_duplicates endpoint_eq (map endpoint_of nodes)))
    some (record { refreshed_at = refreshed_at; nodes = sort_by node_le nodes })

  pub pool_document : PytdxEndpointPool Time → Json
  pool_document pool = obj (
      field "schema_version" (str pool_schema_version) (
        field "refreshed_at" (str (format.isoformat pool.refreshed_at))
          (field "nodes" (arr (node_documents pool.nodes)) end)))
