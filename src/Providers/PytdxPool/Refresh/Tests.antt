-- ===== src/Providers/PytdxPool/Refresh/Tests.antt =====
-- A small pool, its file and a refresh of it. A time is a number, its text is that number alone, and
-- every time is aware.
use data_center.Prelude.{
  ℕ, ◌≡◌, refl, true, false, Option, none, some, List, [], ◌∷◌, if◌then◌else◌,
}
use data_center.Prelude.Codes.{codes, codes_eq, codes_lt, strip}
use data_center.Prelude.Text.{lookup, keys, contains}
use data_center.Prelude.Sort.{sort_by, insert_sorted}
use data_center.Providers.PytdxPool.Document.{Json, entries}
use data_center.Prelude.Int.{pos}
use data_center.Providers.PytdxPool.{
  Capabilities, PytdxPoolNode, PytdxEndpointPool, TimeFormat, Endpoint, endpoint_eq, is_valid_host,
  is_valid_port, node_le, parse_endpoint_pool, pool_document, parse_schema_version, aware_datetime,
  parse_node_list, parse_nodes, parse_node, parse_host, parse_port, string_object, has_fields,
  parse_latency, parse_enabled, parse_capabilities,
}
use data_center.Providers.PytdxPool.RoundTrip.{parse_endpoint_pool-pool_document}
use data_center.Providers.PytdxPool.Candidates.{
  ProbeOutcome, unusable, measured, boolean, AreCandidates, normalize_candidates,
  normalize_candidates-AreCandidates, probe_each, safe_probe,
}
use data_center.Providers.PytdxPool.Refresh.{
  ok, PytdxPoolRefreshResult, is_publishable, endpoints_for, endpoints_of, load_last_good,
  load_endpoint_pool, refresh_endpoint_pool, publish, conclude,
}
use data_center.Providers.PytdxPool.Refresh.LastGood.{Completes, Reads, IsKept, refresh_keeps_good}

abbrev format : TimeFormat ℕ
format = record {
  isoformat = λ t. t ∷ [];
  fromisoformat = λ text. elim text [ [] ↦ none | t ∷ _ ↦ some t ];
  is_aware = λ t. true;
}

abbrev all_capabilities : Capabilities
all_capabilities = record {
  has_quote = true;
  has_daily_bar_sse = true;
  has_daily_bar_szse = true;
  has_daily_bar_bse = false;
}

abbrev node : List ℕ → ℕ → PytdxPoolNode
node host latency = record {
  host = host;
  port = 7709;
  latency_ms = latency;
  capabilities = all_capabilities;
}

abbrev pool : PytdxEndpointPool ℕ
pool = record { refreshed_at = 5; nodes = node (codes "a.b") 9 ∷ node (codes "c.d") 4 ∷ [] }

validation : Unit {0}
unfolding string_object has_fields lookup keys contains entries parse_latency parse_enabled
    parse_capabilities parse_schema_version aware_datetime parse_node_list parse_nodes parse_node
    parse_host parse_port parse_endpoint_pool pool_document is_valid_host is_valid_port endpoint_eq
    node_le codes_eq codes_lt strip sort_by insert_sorted
validation = tt

parse_endpoint_pool-pool_document_example :
    parse_endpoint_pool format (pool_document format pool)
    ≡ some (record pool { nodes = sort_by node_le pool.nodes })
unfolding validation
parse_endpoint_pool-pool_document_example =
    parse_endpoint_pool-pool_document format pool refl refl ((refl, refl), ((refl, refl), tt)) refl

-- One node answers, one is unreachable, and of one the answer is for another port.
abbrev probe : Endpoint → ProbeOutcome
probe (host, port) =
    if codes_eq host (codes "c.d")
    then unusable
    else measured (record {
      host = host;
      port = 7709;
      latency_ms = pos 3;
      capabilities = λ c. boolean true;
      other_keys = false;
    })

abbrev candidates : List Endpoint
candidates =
    (codes "a.b", 7709)
    ∷ (codes "c.d", 7709)
    ∷ (codes " x", 7709)
    ∷ (codes "a.b", 7709)
    ∷ (codes "e.f", 80)
    ∷ []

program : Unit {0}
unfolding validation normalize_candidates probe_each safe_probe refresh_endpoint_pool publish
    conclude is_publishable endpoints_for endpoints_of load_last_good load_endpoint_pool
program = tt

normalize-candidates :
    normalize_candidates candidates
    ≡ (codes "a.b", 7709) ∷ (codes "c.d", 7709) ∷ (codes "e.f", 80) ∷ []
unfolding program
normalize-candidates = refl

normalize_candidates-AreCandidates_example : AreCandidates (normalize_candidates candidates)
normalize_candidates-AreCandidates_example = normalize_candidates-AreCandidates candidates

abbrev everything : List Endpoint → List Endpoint
everything submitted = submitted

everything-Completes : Completes everything
everything-Completes submitted = ((λ e m. m), (λ h. h))

format-Reads : Reads format
format-Reads t = refl

-- The file as the last refresh left it.
abbrev file : Option Json
file = some (pool_document format pool)

abbrev last_good : PytdxEndpointPool ℕ
last_good = record { refreshed_at = 5; nodes = node (codes "c.d") 4 ∷ node (codes "a.b") 9 ∷ [] }

load_last_good-file : load_last_good format file ≡ some last_good
unfolding program
load_last_good-file = refl

refresh-unwritten :
    (refresh_endpoint_pool format probe everything candidates 8 true false true file).1 ≡ file
unfolding program
refresh-unwritten = refl

refresh_keeps_good_example :
    let (result, file1) =
      refresh_endpoint_pool format probe everything candidates 8 true true false file in
    (r : PytdxPoolRefreshResult ℕ) × (result ≡ ok r)
    × (is_publishable r.pool ≡ true)
    × IsKept format format-Reads probe everything everything-Completes candidates 8 refl true false
        last_good r file1
refresh_keeps_good_example =
    refresh_keeps_good format format-Reads probe everything everything-Completes candidates 8 refl
      true false file last_good load_last_good-file
