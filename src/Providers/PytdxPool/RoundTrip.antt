-- ===== src/Providers/PytdxPool/RoundTrip.antt =====
-- A published pool is read back as it was written.
use data_center.Prelude.{◌≡◌, refl, true, false, some, List, [], ◌∷◌, map, All, has_duplicates}
use data_center.Prelude.Codes.{codes_eq}
use data_center.Prelude.Text.{lookup, keys, contains}
use data_center.Prelude.Sort.{sort_by}
use data_center.Providers.PytdxPool.Document.{entries}
use data_center.Providers.PytdxPool.{
  PytdxPoolNode, PytdxEndpointPool, TimeFormat, endpoint_eq, endpoint_of, is_valid_host,
  is_valid_port, node_le, parse_endpoint_pool, parse_node, parse_nodes, parse_node_list,
  parse_capabilities, parse_host, parse_port, parse_latency, parse_enabled, parse_schema_version,
  aware_datetime, string_object, has_fields, pool_document, node_document, node_documents,
}

-- A node that the validation accepts.
abbrev pub IsValidNode : PytdxPoolNode → Type 0
IsValidNode node = (is_valid_host node.host ≡ true) × (is_valid_port node.port ≡ true)

fields_present : Unit {0}
unfolding string_object has_fields lookup keys contains entries parse_latency parse_enabled
    parse_capabilities
fields_present = tt

parse_node-node_document :
    (node : PytdxPoolNode) → IsValidNode node → parse_node (node_document node) ≡ some node
unfolding parse_node fields_present parse_host parse_port
parse_node-node_document node (host, port) = rw (host, port)

parse_nodes-node_documents :
    (nodes : List PytdxPoolNode)
    → All IsValidNode nodes
    → parse_nodes (node_documents nodes) ≡ some nodes
unfolding parse_nodes
parse_nodes-node_documents [] h = refl
parse_nodes-node_documents (node ∷ nodes) h =
    rw (parse_node-node_document node h.0, parse_nodes-node_documents nodes h.1)

-- The document of a pool with valid nodes, distinct endpoints and an aware time is read back as
-- that pool, with its nodes sorted.
pub parse_endpoint_pool-pool_document :
    {Time : Type 0} (format : TimeFormat Time) (pool : PytdxEndpointPool Time)
    → format.fromisoformat (format.isoformat pool.refreshed_at) ≡ some pool.refreshed_at
    → format.is_aware pool.refreshed_at ≡ true
    → All IsValidNode pool.nodes
    → has_duplicates endpoint_eq (map endpoint_of pool.nodes) ≡ false
    → parse_endpoint_pool format (pool_document format pool)
      ≡ some (record pool { nodes = sort_by node_le pool.nodes })
unfolding parse_endpoint_pool fields_present pool_document parse_schema_version aware_datetime
    parse_node_list codes_eq
parse_endpoint_pool-pool_document format pool reads aware valid distinct =
    rw (reads, aware, parse_nodes-node_documents pool.nodes valid, distinct)
