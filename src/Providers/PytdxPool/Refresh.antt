-- ===== src/Providers/PytdxPool/Refresh.antt =====
-- The refresh of the pool file (src/market_data_center/providers/pytdx_pool.py). The file holds a
-- document or cannot be read. The clock's answer, the probes, the futures that complete before the
-- timeout, whether the file opens at first and after the write, and whether the write goes through are
-- parameters.
-- Nobody else writes the file meanwhile.
pub mod LastGood
mod Tests
use data_center.Prelude.{
  ℕ, ◌-◌, Bool, true, false, not, ◌&&◌, Option, none, some, List, [], ◌∷◌, length, if◌then◌else◌,
}
use data_center.Prelude.Sort.{sort_by}
use data_center.Providers.PytdxPool.Document.{Json}
use data_center.Providers.PytdxPool.{
  PytdxCapability, quote, daily_bar_sse, daily_bar_szse, PytdxPoolNode, PytdxEndpointPool,
  TimeFormat, Endpoint, endpoint_of, enabled, node_le, parse_endpoint_pool, pool_document,
}
use data_center.Providers.PytdxPool.Candidates.{ProbeOutcome, normalize_candidates, probe_each}

pub data PoolError : Type 0 where
  unreadable invalid naive_clock no_usable_pool : PoolError

pub data Result (A : Type 0) : Type 0 where
  ok : A → Result A
  err : PoolError → Result A

pub record PytdxPoolRefreshResult (Time : Type 0) : Type 0 where
  pub candidate_count : ℕ
  pub usable_node_count : ℕ
  pub rejected_node_count : ℕ
  pub published : Bool
  pub used_last_good : Bool
  pub pool : PytdxEndpointPool Time

endpoints_of : PytdxCapability → List PytdxPoolNode → List Endpoint
endpoints_of capability [] = []
endpoints_of capability (node ∷ nodes) =
    if enabled node.capabilities capability
    then endpoint_of node ∷ endpoints_of capability nodes
    else endpoints_of capability nodes

abbrev nonempty : {A : Type 0} → List A → Bool
nonempty [] = false
nonempty (x ∷ xs) = true

module _ {Time : Type 0} where
  pub endpoints_for : PytdxEndpointPool Time → PytdxCapability → List Endpoint
  endpoints_for pool capability = endpoints_of capability pool.nodes

  pub is_publishable : PytdxEndpointPool Time → Bool
  is_publishable pool =
      nonempty (endpoints_for pool quote)
      && nonempty (endpoints_for pool daily_bar_sse)
      && nonempty (endpoints_for pool daily_bar_szse)

module _ {Time : Type 0} (format : TimeFormat Time) where
  pub load_endpoint_pool : Option Json → Result (PytdxEndpointPool Time)
  load_endpoint_pool none = err unreadable
  load_endpoint_pool (some document) = elim (parse_endpoint_pool format document) [
    | none ↦ err invalid
    | some pool ↦ ok pool
  ]

  abbrev good_pool : Result (PytdxEndpointPool Time) → Option (PytdxEndpointPool Time)
  good_pool (err _) = none
  good_pool (ok pool) = if is_publishable pool then some pool else none

  pub load_last_good : Option Json → Option (PytdxEndpointPool Time)
  load_last_good file = good_pool (load_endpoint_pool file)

  -- `_load_last_good` where the file may fail to open.
  abbrev pub last_good_if : Bool → Option Json → Option (PytdxEndpointPool Time)
  last_good_if opens file = if opens then load_last_good file else none

  -- `_atomic_write_pool`: `os.replace` puts the whole document in place, or nothing has changed.
  abbrev atomic_write_pool : Bool → PytdxEndpointPool Time → Option Json → Option Json
  atomic_write_pool written pool file = if written then some (pool_document format pool) else file

  -- `load_endpoint_pool` where the file may fail to open, which is an `OSError`.
  abbrev pub open_endpoint_pool : Bool → Option Json → Result (PytdxEndpointPool Time)
  open_endpoint_pool opens file = if opens then load_endpoint_pool file else err unreadable

  abbrev read_pool : Result (PytdxEndpointPool Time) → Option (PytdxEndpointPool Time)
  read_pool (ok read) = some read
  read_pool (err _) = none

  -- Writing and reading back a pool that may be published; `none` is a failure of either. A write that
  -- went through stays when the file cannot be read back.
  publish :
      Bool
      → Bool
      → PytdxEndpointPool Time
      → Option Json
      → Option (PytdxEndpointPool Time) × Option Json
  publish written reopens pool file =
      if not (is_publishable pool)
      then (none, file)
      else let file1 = atomic_write_pool written pool file in
        (if not written then none else read_pool (open_endpoint_pool reopens file1), file1)

  abbrev counted : ℕ → ℕ → Bool → Bool → PytdxEndpointPool Time → PytdxPoolRefreshResult Time
  counted candidates usable published used_last_good pool = record {
    candidate_count = candidates;
    usable_node_count = usable;
    rejected_node_count = candidates - usable;
    published = published;
    used_last_good = used_last_good;
    pool = pool;
  }

  -- The end of `refresh_endpoint_pool`: the published pool, or else the last good one.
  conclude :
      ℕ
      → ℕ
      → Option (PytdxEndpointPool Time)
      → Option (PytdxEndpointPool Time)
      → Result (PytdxPoolRefreshResult Time)
  conclude candidates usable (some new_pool) old_pool =
      ok (counted candidates usable true false new_pool)
  conclude candidates usable none none = err no_usable_pool
  conclude candidates usable none (some old_pool) =
      ok (counted candidates usable false true old_pool)

  module _ (probe : Endpoint → ProbeOutcome) (completed : List Endpoint → List Endpoint) where
    abbrev new_pool : List Endpoint → Time → PytdxEndpointPool Time
    new_pool candidates now = record {
      refreshed_at = now;
      nodes = sort_by node_le (probe_each probe (completed (normalize_candidates candidates)));
    }

    -- The result, and the file afterwards.
    pub refresh_endpoint_pool :
        List Endpoint
        → Time
        → Bool
        → Bool
        → Bool
        → Option Json
        → Result (PytdxPoolRefreshResult Time) × Option Json
    refresh_endpoint_pool candidates now opens written reopens file =
        if not (format.is_aware now)
        then (err naive_clock, file)
        else let endpoints = normalize_candidates candidates in
          let nodes = probe_each probe (completed endpoints) in
          let (published, file1) = publish written reopens (new_pool candidates now) file in
          (conclude (length endpoints) (length nodes) published (last_good_if opens file), file1)
