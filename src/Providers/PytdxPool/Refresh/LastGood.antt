-- ===== src/Providers/PytdxPool/Refresh/LastGood.antt =====
-- A refresh never loses a good pool, and what it publishes is what the file then holds. A pool that was
-- written and could not be read back is in the file, and is not published.
use data_center.Prelude.{
  ◌≡◌, ◌⊎◌, refl, ◌∙◌, ap, Bool, true, false, not, ◌&&◌, Option, none, some, List, [], ◌∷◌, map,
  any, All, has_duplicates, length, if◌then◌else◌, arith, Bool-cases, inl, inr,
}
use data_center.Prelude.Codes.{codes_eq→eq, codes_eq_refl}
use data_center.Prelude.Sort.{
  sort_by, insert_sorted, All-sort_by, any-map-insert_sorted, any-map-sort_by,
}
use data_center.Providers.PytdxPool.Document.{Json}
use data_center.Providers.PytdxPool.{
  PytdxPoolNode, PytdxEndpointPool, TimeFormat, Endpoint, endpoint_of, endpoint_eq, node_le,
  pool_document,
}
use data_center.Providers.PytdxPool.Order.{sort_by-node_le_idem}
use data_center.Providers.PytdxPool.RoundTrip.{IsValidNode, parse_endpoint_pool-pool_document}
use data_center.Providers.PytdxPool.Candidates.{
  ProbeOutcome, normalize_candidates, probe_each, AreCandidates, AreNodes,
  normalize_candidates-AreCandidates, probe_each-AreNodes, endpoint_eq-sym,
}
use data_center.Providers.PytdxPool.Refresh.{
  Result, ok, PytdxPoolRefreshResult, is_publishable, load_endpoint_pool, load_last_good,
  last_good_if, publish, conclude, counted, new_pool, refresh_endpoint_pool,
}

has_duplicates-insert_sorted :
    (x : PytdxPoolNode) (ys : List PytdxPoolNode)
    → any (endpoint_eq (endpoint_of x)) (map endpoint_of ys) ≡ false
    → has_duplicates endpoint_eq (map endpoint_of ys) ≡ false
    → has_duplicates endpoint_eq (map endpoint_of (insert_sorted node_le x ys)) ≡ false
unfolding insert_sorted
has_duplicates-insert_sorted x [] fresh h = refl
has_duplicates-insert_sorted x (y ∷ ys) fresh h = ground (
  arith,
  has_duplicates-insert_sorted x ys,
  any-map-insert_sorted node_le endpoint_of (endpoint_eq (endpoint_of y)) x ys,
  endpoint_eq-sym (endpoint_of x) (endpoint_of y),
)

sort_by-AreNodes : (nodes : List PytdxPoolNode) → AreNodes nodes → AreNodes (sort_by node_le nodes)
unfolding sort_by
sort_by-AreNodes nodes h = (All-sort_by node_le IsValidNode nodes h.0, distinct nodes h.1)
  where
    distinct :
        (xs : List PytdxPoolNode)
        → has_duplicates endpoint_eq (map endpoint_of xs) ≡ false
        → has_duplicates endpoint_eq (map endpoint_of (sort_by node_le xs)) ≡ false
    distinct [] q = refl
    distinct (x ∷ xs) q =
        has_duplicates-insert_sorted x (sort_by node_le xs)
          (any-map-sort_by node_le endpoint_of (endpoint_eq (endpoint_of x)) xs ∙ ground arith)
          (distinct xs (ground arith))

-- The futures that complete in time are futures that were submitted, and each completes once.
abbrev pub Completes : (List Endpoint → List Endpoint) → Type 0
Completes completed =
    (submitted : List Endpoint)
    → ((e : Endpoint)
        → any (endpoint_eq e) (completed submitted) ≡ true
        → any (endpoint_eq e) submitted ≡ true)
      × (has_duplicates endpoint_eq submitted ≡ false
          → has_duplicates endpoint_eq (completed submitted) ≡ false)

endpoint_eq→eq : (a b : Endpoint) → endpoint_eq a b ≡ true → a ≡ b
unfolding endpoint_eq
endpoint_eq→eq a b h = ground (arith, codes_eq→eq a.0 b.0)

endpoint_eq_refl : (a : Endpoint) → endpoint_eq a a ≡ true
unfolding endpoint_eq
endpoint_eq_refl a = ground (arith, codes_eq_refl a.0)

All-member :
    (P : Endpoint → Type 0) (xs : List Endpoint) (e : Endpoint)
    → All P xs
    → any (endpoint_eq e) xs ≡ true
    → P e
All-member P [] e h m = cc
All-member P (x ∷ xs) e h m = elim (Bool-cases (endpoint_eq e x)) [
  | inl q ↦ rw (endpoint_eq→eq e x q) h.0
  | inr q ↦ All-member P xs e h.1 (ground arith)
]

All-members :
    (P : Endpoint → Type 0) (xs ys : List Endpoint)
    → All P xs
    → ((e : Endpoint) → any (endpoint_eq e) ys ≡ true → any (endpoint_eq e) xs ≡ true)
    → All P ys
All-members P xs [] h sub = tt
All-members P xs (y ∷ ys) h sub = (
  All-member P xs y h (sub y (rw (endpoint_eq_refl y))),
  All-members P xs ys h (λ e m. sub e (ground arith)),
)

completed-AreCandidates :
    (completed : List Endpoint → List Endpoint) (submitted : List Endpoint)
    → Completes completed
    → AreCandidates submitted
    → AreCandidates (completed submitted)
completed-AreCandidates completed submitted h c =
    let (members, once) = h submitted in
    (All-members _ submitted (completed submitted) c.0 members, once c.1)

-- The documented law of `datetime`: what `isoformat` writes, `fromisoformat` reads.
abbrev pub Reads : {Time : Type 0} → TimeFormat Time → Type 0
Reads {Time} format = (t : Time) → format.fromisoformat (format.isoformat t) ≡ some t

load_last_good-IsPublishable :
    {Time : Type 0} (format : TimeFormat Time) (file : Option Json) (pool : PytdxEndpointPool Time)
    → load_last_good format file ≡ some pool
    → is_publishable pool ≡ true
unfolding load_last_good
load_last_good-IsPublishable format file pool h = ground arith

module _ {Time : Type 0} (format : TimeFormat Time) (reads : Reads format) where
  load-pool_document :
      (now : Time) (nodes : List PytdxPoolNode)
      → format.is_aware now ≡ true
      → AreNodes nodes
      → load_endpoint_pool format (
          some
            (pool_document format (record { refreshed_at = now; nodes = sort_by node_le nodes })))
        ≡ ok (record { refreshed_at = now; nodes = sort_by node_le nodes })
  unfolding load_endpoint_pool
  load-pool_document now nodes aware h =
      let sorted = sort_by-AreNodes nodes h in
      let pool : PytdxEndpointPool Time = record {
        refreshed_at = now;
        nodes = sort_by node_le nodes;
      } in
      rw
        (
          parse_endpoint_pool-pool_document format pool (reads now) aware sorted.0 sorted.1,
          load_endpoint_pool,
        )
        (ap (λ l. ok (record pool { nodes = l })) (sort_by-node_le_idem nodes))

  load_last_good-pool_document :
      (now : Time) (nodes : List PytdxPoolNode)
      → format.is_aware now ≡ true
      → AreNodes nodes
      → let pool : PytdxEndpointPool Time = record {
        refreshed_at = now;
        nodes = sort_by node_le nodes;
      } in
        is_publishable pool ≡ true
        → load_last_good format (some (pool_document format pool)) ≡ some pool
  unfolding load_last_good
  load_last_good-pool_document now nodes aware h publishable =
      rw (load-pool_document now nodes aware h, publishable)

  publish_lem :
      (now : Time) (nodes : List PytdxPoolNode) (written reopens : Bool) (file : Option Json)
      → format.is_aware now ≡ true
      → AreNodes nodes
      → let pool : PytdxEndpointPool Time = record {
        refreshed_at = now;
        nodes = sort_by node_le nodes;
      } in
        publish format written reopens pool file ≡ (
          if is_publishable pool && written
          then (if reopens then some pool else none, some (pool_document format pool))
          else (none, file))
  unfolding publish
  publish_lem now nodes written reopens file aware h =
      ground (arith, load-pool_document now nodes aware h)

  module _ (probe : Endpoint → ProbeOutcome) (completed : List Endpoint → List Endpoint)
      (completes : Completes completed) (candidates : List Endpoint) (now : Time)
      (aware : format.is_aware now ≡ true) where
    probed-AreNodes : AreNodes (probe_each probe (completed (normalize_candidates candidates)))
    probed-AreNodes = probe_each-AreNodes probe _ (
        completed-AreCandidates completed _ completes
          (normalize_candidates-AreCandidates candidates))

    abbrev pub probed_pool : PytdxEndpointPool Time
    probed_pool = new_pool format probe completed candidates now

    -- What a refresh returns with the given new pool, where one was published.
    abbrev concluded :
        Option (PytdxEndpointPool Time) → Bool → Option Json → Result (PytdxPoolRefreshResult Time)
    concluded published opens file =
        conclude format (length (normalize_candidates candidates))
          (length (probe_each probe (completed (normalize_candidates candidates)))) published
          (last_good_if format opens file)

    refresh_lem :
        (opens written reopens : Bool) (file : Option Json)
        → refresh_endpoint_pool format probe completed candidates now opens written reopens file ≡ (
            if is_publishable probed_pool && written
            then (
              concluded (if reopens then some probed_pool else none) opens file,
              some (pool_document format probed_pool),
            )
            else (concluded none opens file, file))
    unfolding refresh_endpoint_pool
    refresh_lem opens written reopens file =
        ground (arith, publish_lem now _ written reopens file aware probed-AreNodes, aware)

    -- The pool of the file is the result's, or one that was written and could not be read back.
    abbrev pub IsKept :
        Bool → Bool → PytdxEndpointPool Time → PytdxPoolRefreshResult Time → Option Json → Type 0
    IsKept written reopens old r file1 =
        ((load_last_good format file1 ≡ some r.pool) × (r.used_last_good ≡ not r.published))
        ⊎ ((written ≡ true)
            × (reopens ≡ false)
            × (load_last_good format file1 ≡ some probed_pool)
            × (r.pool ≡ old)
            × (r.published ≡ false)
            × (r.used_last_good ≡ true))

    -- If the text of a time gives back the time, and futures that were submitted complete at most
    -- once: with a good pool in the file, which opens, a refresh at an aware time always returns a pool that may
    -- be published, and the file then holds a good pool. It is the returned one, unless the write went
    -- through and the file could not be read back: then it is the new one, and the old one is returned.
    pub refresh_keeps_good :
        (written reopens : Bool) (file : Option Json) (old : PytdxEndpointPool Time)
        → load_last_good format file ≡ some old
        → let (result, file1) =
            refresh_endpoint_pool format probe completed candidates now true written reopens file in
          (r : PytdxPoolRefreshResult Time) × (result ≡ ok r)
          × (is_publishable r.pool ≡ true)
          × IsKept written reopens old r file1
    unfolding conclude
    refresh_keeps_good written reopens file old good =
        let endpoints = normalize_candidates candidates in
        let usable = length (probe_each probe (completed endpoints)) in
        let old_good = load_last_good-IsPublishable format file old good in
        elim (Bool-cases (is_publishable probed_pool && written)) [
          | inl q ↦ elim (Bool-cases reopens) [
            | inl b ↦
                rw (refresh_lem true written reopens file, q, b)
                  (
                    counted format (length endpoints) usable true false probed_pool,
                    refl,
                    ground arith,
                    inl (
                      load_last_good-pool_document now _ aware probed-AreNodes (ground arith),
                      refl,
                    ),
                  )
            | inr b ↦
                rw (refresh_lem true written reopens file, q, b, good)
                  (
                    counted format (length endpoints) usable false true old,
                    refl,
                    old_good,
                    inr (
                      ground arith,
                      refl,
                      load_last_good-pool_document now _ aware probed-AreNodes (ground arith),
                      refl,
                      refl,
                      refl,
                    ),
                  )
          ]
          | inr q ↦
              rw (refresh_lem true written reopens file, q, good)
                (
                  counted format (length endpoints) usable false true old,
                  refl,
                  old_good,
                  inl (refl, refl),
                )
        ]
