-- ===== src/Domain/Calendar/Correct.antt =====
-- The whole of `calculate_trading_day_links`: what its checks give, and what a result holds.
use mathlib.Core.List.{Perm}
use native.Mathlib.Nat.{le_refl}
use data_center.Prelude.{
  ℕ, suc, ◌≤◌, ◌<◌, ◌≡◌, refl, ◌∙◌, ap, sym, subst, false, Option, none, some, List, [], ◌∷◌, map,
  All, if◌then◌else◌, arith,
}
use data_center.Prelude.Sort.{sort_by, All-sort_by_back, any-sort_by, sort_by-perm}
use data_center.Domain.Records.{TradingDayRecord}
use data_center.Domain.Calendar.{
  CalculatedTradingDay, ok, has_gap, last_date, forward_links, backward_links, assemble,
  at_or_after, at_or_before, by_trade_date, link_ordered, link_sorted, calculate_trading_day_links,
}
use data_center.Domain.Calendar.Links.{
  IsPrevious, IsNext, IsAscending, Each, Below, Above, All-map, forward_links-IsPrevious,
  backward_links-IsNext, trades_on,
}

gapless-above :
    (d : ℕ) (rs : List TradingDayRecord)
    → has_gap (d ∷ map (λ r. r.trade_date) rs) ≡ false
    → All (λ s. d < s.trade_date) rs
unfolding has_gap
gapless-above d [] h = tt
gapless-above d (r ∷ rs) h =
    let e : r.trade_date ≡ suc d = ground arith in
    let later = gapless-above r.trade_date rs (ground arith) in
    (omega arith, All-map _ _ (λ s lt. omega arith) rs later)

gapless-IsAscending :
    (rs : List TradingDayRecord) → has_gap (map (λ r. r.trade_date) rs) ≡ false → IsAscending rs
unfolding has_gap
gapless-IsAscending [] h = tt
gapless-IsAscending (r ∷ []) h = (tt, tt)
gapless-IsAscending (r ∷ s ∷ rs) h =
    (gapless-above r.trade_date (s ∷ rs) h, gapless-IsAscending (s ∷ rs) (ground arith))

gapless-le-last :
    (d : ℕ) (rs : List TradingDayRecord)
    → has_gap (d ∷ map (λ r. r.trade_date) rs) ≡ false
    → (d ≤ last_date d (map (λ r. r.trade_date) rs))
      × All (λ s. s.trade_date ≤ last_date d (map (λ r. r.trade_date) rs)) rs
unfolding has_gap last_date
gapless-le-last d [] h = (omega arith, tt)
gapless-le-last d (r ∷ rs) h =
    let e : r.trade_date ≡ suc d = ground arith in
    let (first, later) = gapless-le-last r.trade_date rs (ground arith) in
    (omega arith, (first, later))

All-Below :
    (boundary : Option ℕ) (d : ℕ) (rs : List TradingDayRecord)
    → at_or_after boundary d ≡ false
    → All (λ s. d ≤ s.trade_date) rs
    → All (λ s. Below boundary s.trade_date) rs
All-Below none d rs h later = All-map _ _ (λ s le. tt) rs later
All-Below (some b) d rs h later =
    let lt : b < d = ground arith in All-map _ _ (λ s le. omega arith) rs later

All-Above :
    (boundary : Option ℕ) (d : ℕ) (rs : List TradingDayRecord)
    → at_or_before boundary d ≡ false
    → All (λ s. s.trade_date ≤ d) rs
    → All (λ s. Above boundary s.trade_date) rs
All-Above none d rs h earlier = All-map _ _ (λ s le. tt) rs earlier
All-Above (some b) d rs h earlier =
    let lt : d < b = ground arith in All-map _ _ (λ s le. omega arith) rs earlier

-- What holds of every assembled day, from what holds of the links.
assemble-All :
    (P Q : ℕ → Option ℕ → Type 0) (rs : List TradingDayRecord) (ps ns : List (Option ℕ))
    → Each P rs ps
    → Each Q rs ns
    → All
        (λ d. P d.trade_date d.previous_trading_day × Q d.trade_date d.next_trading_day)
        (assemble rs ps ns)
unfolding assemble
assemble-All P Q [] [] [] hp hq = tt
assemble-All P Q [] [] (n ∷ ns) hp hq = tt
assemble-All P Q [] (p ∷ ps) ns hp hq = absurd hp
assemble-All P Q (r ∷ rs) [] ns hp hq = absurd hp
assemble-All P Q (r ∷ rs) (p ∷ ps) [] hp hq = absurd hq
assemble-All P Q (r ∷ rs) (p ∷ ps) (n ∷ ns) hp hq =
    ((hp.0, hq.0), assemble-All P Q rs ps ns hp.1 hq.1)

link_ordered-eq-ok :
    (first : TradingDayRecord) (rest : List TradingDayRecord) (previous next : Option ℕ)
    (days : List CalculatedTradingDay)
    → link_ordered first rest previous next ≡ ok days
    → (has_gap (map (λ r. r.trade_date) (first ∷ rest)) ≡ false)
      × (at_or_after previous first.trade_date ≡ false)
      × (at_or_before next (last_date first.trade_date (map (λ r. r.trade_date) rest)) ≡ false)
      × (assemble
            (first ∷ rest)
            (forward_links previous (first ∷ rest))
            (backward_links next (first ∷ rest)).0
          ≡ days)
unfolding link_ordered
link_ordered-eq-ok first rest previous next days h = ground arith

abbrev pub Linked : Option ℕ → Option ℕ → List TradingDayRecord → CalculatedTradingDay → Type 0
Linked previous next records d =
    IsPrevious previous records d.trade_date d.previous_trading_day
    × IsNext next records d.trade_date d.next_trading_day

link_ordered-Linked :
    (first : TradingDayRecord) (rest : List TradingDayRecord) (previous next : Option ℕ)
    (days : List CalculatedTradingDay)
    → link_ordered first rest previous next ≡ ok days
    → All (Linked previous next (first ∷ rest)) days
link_ordered-Linked first rest previous next days h =
    let (gapless, starts, ends, result) = link_ordered-eq-ok first rest previous next days h in
    let ordered = first ∷ rest in
    let ascending = gapless-IsAscending ordered gapless in
    let later : All (λ s. first.trade_date ≤ s.trade_date) ordered =
      (le_refl first.trade_date, All-map _ _ (λ s lt. omega arith) rest ascending.0) in
    let links =
      forward_links-IsPrevious previous ordered ascending
        (All-Below previous first.trade_date ordered starts later) in
    let nexts =
      backward_links-IsNext next ordered ascending
        (All-Above next _ ordered ends (gapless-le-last first.trade_date rest gapless)) in
    subst (All (Linked previous next ordered)) result
      (assemble-All (IsPrevious previous ordered) (IsNext next ordered) ordered _ _ links nexts)

-- Membership statements about the sorted records are statements about the records.
IsPrevious-sort_by :
    (boundary : Option ℕ) (records : List TradingDayRecord) (day : ℕ) (link : Option ℕ)
    → IsPrevious boundary (sort_by by_trade_date records) day link
    → IsPrevious boundary records day link
IsPrevious-sort_by boundary records day none (unbounded, latest) =
    (unbounded, All-sort_by_back by_trade_date _ records latest)
IsPrevious-sort_by boundary records day (some p) (before, source, least, latest) = (
  before,
  rw (any-sort_by by_trade_date (trades_on p) records) at source,
  least,
  All-sort_by_back by_trade_date _ records latest,
)

IsNext-sort_by :
    (boundary : Option ℕ) (records : List TradingDayRecord) (day : ℕ) (link : Option ℕ)
    → IsNext boundary (sort_by by_trade_date records) day link
    → IsNext boundary records day link
IsNext-sort_by boundary records day none (unbounded, latest) =
    (unbounded, All-sort_by_back by_trade_date _ records latest)
IsNext-sort_by boundary records day (some n) (later, source, least, latest) = (
  later,
  rw (any-sort_by by_trade_date (trades_on n) records) at source,
  least,
  All-sort_by_back by_trade_date _ records latest,
)

link_sorted-Linked :
    (ordered : List TradingDayRecord) (previous next : Option ℕ) (days : List CalculatedTradingDay)
    → link_sorted ordered previous next ≡ ok days
    → All (Linked previous next ordered) days
unfolding link_sorted
link_sorted-Linked [] previous next [] h = tt
link_sorted-Linked [] previous next (d ∷ days) h = cc
link_sorted-Linked (r ∷ rs) previous next days h = link_ordered-Linked r rs previous next days h

-- Every calculated day is linked to the nearest trading day before it and to the nearest one after
-- it, among the records and the boundaries that were given, in whatever order the records came.
pub calculate_trading_day_links-Linked :
    (records : List TradingDayRecord) (previous next : Option ℕ) (days : List CalculatedTradingDay)
    → calculate_trading_day_links records previous next ≡ ok days
    → All (Linked previous next records) days
unfolding calculate_trading_day_links
calculate_trading_day_links-Linked records previous next days h =
    All-map _ _
      (λ d linked. (
        IsPrevious-sort_by previous records _ _ linked.0,
        IsNext-sort_by next records _ _ linked.1,
      ))
      days (link_sorted-Linked (sort_by by_trade_date records) previous next days h)

-- The record that a calculated day was made from.
abbrev pub record_of : CalculatedTradingDay → TradingDayRecord
record_of d = record {
  market = d.market;
  trade_date = d.trade_date;
  is_trading_day = d.is_trading_day;
  source_code = d.source_code;
}

map-record_of-assemble :
    (previous next : Option ℕ) (rs : List TradingDayRecord)
    → map record_of (assemble rs (forward_links previous rs) (backward_links next rs).0) ≡ rs
unfolding assemble forward_links backward_links
map-record_of-assemble previous next [] = refl
map-record_of-assemble previous next (r ∷ rs) =
    ap (λ l. r ∷ l)
      (map-record_of-assemble (if r.is_trading_day then some r.trade_date else previous) next rs)

link_sorted-records :
    (ordered : List TradingDayRecord) (previous next : Option ℕ) (days : List CalculatedTradingDay)
    → link_sorted ordered previous next ≡ ok days
    → map record_of days ≡ ordered
unfolding link_sorted
link_sorted-records [] previous next [] h = refl
link_sorted-records [] previous next (d ∷ days) h = cc
link_sorted-records (r ∷ rs) previous next days h =
    ap (map record_of) (sym (link_ordered-eq-ok r rs previous next days h).3)
    ∙ map-record_of-assemble previous next (r ∷ rs)

link_sorted-gapless :
    (ordered : List TradingDayRecord) (previous next : Option ℕ) (days : List CalculatedTradingDay)
    → link_sorted ordered previous next ≡ ok days
    → has_gap (map (λ r. r.trade_date) ordered) ≡ false
unfolding link_sorted has_gap
link_sorted-gapless [] previous next days h = refl
link_sorted-gapless (r ∷ rs) previous next days h = (link_ordered-eq-ok r rs previous next days h).0

dates-record_of :
    (days : List CalculatedTradingDay)
    → map (λ d. d.trade_date) days ≡ map (λ r. r.trade_date) (map record_of days)
dates-record_of [] = refl
dates-record_of (d ∷ days) = ap (λ l. d.trade_date ∷ l) (dates-record_of days)

-- A result has one day for each record, and these are one natural day after the other.
pub calculate_trading_day_links-records :
    (records : List TradingDayRecord) (previous next : Option ℕ) (days : List CalculatedTradingDay)
    → calculate_trading_day_links records previous next ≡ ok days
    → Perm (map record_of days) records × (has_gap (map (λ d. d.trade_date) days) ≡ false)
unfolding calculate_trading_day_links
calculate_trading_day_links-records records previous next days h =
    let ordered = sort_by by_trade_date records in
    let same = link_sorted-records ordered previous next days h in
    (
      subst (λ l. Perm l records) (sym same) (sort_by-perm by_trade_date records),
      rw (dates-record_of days, same) (link_sorted-gapless ordered previous next days h),
    )
