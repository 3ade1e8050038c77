-- ===== src/Domain/Calendar.antt =====
-- The links between trading days (src/market_data_center/domain/calendar.py, and its result type
-- in domain/entities.py). A date is its day number, so the next natural day is its successor.
pub mod Links
pub mod Correct
mod Tests
use Prim.Native.String.{String}
use data_center.Prelude.{
  ℕ, suc, Bool, true, false, not, ◌&&◌, ◌||◌, Option, none, some, List, [], ◌∷◌, map, any,
  has_duplicates, ltb, leb, ◌==◌, if◌then◌else◌,
}
use data_center.Prelude.Sort.{sort_by}
use data_center.Domain.Records.{Market, cn_a_share, TradingDayRecord}

pub record CalculatedTradingDay : Type 0 where
  pub market : Market
  pub trade_date : ℕ
  pub is_trading_day : Bool
  pub previous_trading_day : Option ℕ
  pub next_trading_day : Option ℕ
  pub source_code : String

-- The `ValueError`s, by their messages.
pub data CalendarError : Type 0 where
  several_markets dates_not_unique missing_natural_day : CalendarError
  previous_not_before next_not_after : CalendarError

pub data Result (A : Type 0) : Type 0 where
  ok : A → Result A
  err : CalendarError → Result A

abbrev by_trade_date : TradingDayRecord → TradingDayRecord → Bool
by_trade_date a b = leb a.trade_date b.trade_date

abbrev same_market : Market → Market → Bool
same_market cn_a_share cn_a_share = true

-- `current != previous + timedelta(days=1)` for some `pairwise` neighbours.
pub has_gap : List ℕ → Bool
has_gap [] = false
has_gap (x ∷ []) = false
has_gap (x ∷ y ∷ ys) = not (y == suc x) || has_gap (y ∷ ys)

last_date : ℕ → List ℕ → ℕ
last_date x [] = x
last_date x (y ∷ ys) = last_date y ys

-- The first loop: `previous_links`.
pub forward_links : Option ℕ → List TradingDayRecord → List (Option ℕ)
forward_links previous [] = []
forward_links previous (r ∷ rs) =
    previous ∷ forward_links (if r.is_trading_day then some r.trade_date else previous) rs

-- The second loop runs from the last record to the first: `next_links`, and the value that
-- `next_trading_day` has then.
pub backward_links : Option ℕ → List TradingDayRecord → List (Option ℕ) × Option ℕ
backward_links next [] = ([], next)
backward_links next (r ∷ rs) =
    let (links, after) = backward_links next rs in
    (after ∷ links, if r.is_trading_day then some r.trade_date else after)

-- The closing comprehension, at one index of the three lists after the other.
assemble : List TradingDayRecord → List (Option ℕ) → List (Option ℕ) → List CalculatedTradingDay
assemble (r ∷ rs) (p ∷ ps) (n ∷ ns) =
    record {
      market = r.market;
      trade_date = r.trade_date;
      is_trading_day = r.is_trading_day;
      previous_trading_day = p;
      next_trading_day = n;
      source_code = r.source_code;
    }
    ∷ assemble rs ps ns
assemble _ _ _ = []

abbrev at_or_after : Option ℕ → ℕ → Bool
at_or_after none day = false
at_or_after (some boundary) day = leb day boundary

abbrev at_or_before : Option ℕ → ℕ → Bool
at_or_before none day = false
at_or_before (some boundary) day = leb boundary day

link_ordered :
    TradingDayRecord
    → List TradingDayRecord
    → Option ℕ
    → Option ℕ
    → Result (List CalculatedTradingDay)
link_ordered first rest previous next =
    let ordered = first ∷ rest in
    let dates = map (λ r. r.trade_date) ordered in
    if any (λ r. not (same_market first.market r.market)) rest
    then err several_markets
    else if has_duplicates ◌==◌ dates
    then err dates_not_unique
    else if has_gap dates
    then err missing_natural_day
    else if at_or_after previous first.trade_date
    then err previous_not_before
    else if at_or_before next (last_date first.trade_date (map (λ r. r.trade_date) rest))
    then err next_not_after
    else ok (assemble ordered (forward_links previous ordered) (backward_links next ordered).0)

link_sorted : List TradingDayRecord → Option ℕ → Option ℕ → Result (List CalculatedTradingDay)
link_sorted [] previous next = ok []
link_sorted (first ∷ rest) previous next = link_ordered first rest previous next

pub calculate_trading_day_links :
    List TradingDayRecord → Option ℕ → Option ℕ → Result (List CalculatedTradingDay)
calculate_trading_day_links records previous next =
    link_sorted (sort_by by_trade_date records) previous next
