-- ===== src/Providers/PytdxPool/Order.antt =====
-- The order of the nodes of a pool, by latency, host and port: sorting again changes nothing.
use data_center.Prelude.{◌≡◌, true, false, List, arith}
use data_center.Prelude.Codes.{codes_eq→eq, codes_lt_trans, codes_lt_total, codes_eq_refl}
use data_center.Prelude.Sort.{sort_by, sort_by-IsSorted, sort_by_sorted}
use data_center.Providers.PytdxPool.{PytdxPoolNode, node_le}

node_le-total : (a b : PytdxPoolNode) → node_le a b ≡ false → node_le b a ≡ true
unfolding node_le
node_le-total a b h =
    ground (arith, codes_lt_total a.host b.host, codes_eq→eq a.host b.host, codes_eq_refl a.host)

node_le_trans :
    (a b c : PytdxPoolNode) → node_le a b ≡ true → node_le b c ≡ true → node_le a c ≡ true
unfolding node_le
node_le_trans a b c p q = ground (
  arith,
  codes_lt_trans a.host b.host c.host,
  codes_eq→eq a.host b.host,
  codes_eq→eq b.host c.host,
  codes_eq_refl a.host,
)

pub sort_by-node_le_idem :
    (nodes : List PytdxPoolNode) → sort_by node_le (sort_by node_le nodes) ≡ sort_by node_le nodes
sort_by-node_le_idem nodes =
    sort_by_sorted node_le (sort_by node_le nodes)
      (sort_by-IsSorted node_le node_le-total node_le_trans nodes)
