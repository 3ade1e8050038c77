-- ===== src/StockPools/Calculate.antt =====
-- The calculation of the limits, events and members of a day, candidate by candidate
-- (src/market_data_center/stock_pool_calculator.py). The digest of the input is a parameter.
use Prim.Native.String.{String}
use data_center.Prelude.{
  ℕ, ◌+◌, Bool, true, false, not, ◌||◌, Option, none, some, List, [], ◌∷◌, ◌++◌, map, length,
  has_duplicates, ltb, leb, if◌then◌else◌,
}
use data_center.Prelude.Int.{ℤ, ltb_ℤ, eq_ℤ}
use data_center.Prelude.Codes.{codes_eq, codes_lt}
use data_center.Prelude.Sort.{sort_by}
use data_center.StockPools.Rules.{
  PriceLimitDirection, up, down, PriceLimitRule, price_limit_rule, StockPoolCandidate,
  StockPoolBuildInput, DailyPriceLimit, check_limit, PriceLimitEvent, check_event, StockPoolMember,
  check_member, pool_of, StockPoolQualityFinding, error, Result, done, raised, not_none,
  basis_predates_rule, effective_not_after_basis, candidates_not_unique,
  price_limit_rule_effective_from, price_limit_rule_version, price_limit_algorithm_version,
}
use data_center.StockPools.Range.{calculate_price_limit_range}
use data_center.StockPools.Board.{rejection_reason}

-- What the loop appends to its lists.
pub record Tally : Type 0 where
  pub limits : List DailyPriceLimit
  pub events : List PriceLimitEvent
  pub members : List StockPoolMember
  pub findings : List StockPoolQualityFinding
  pub rejected : ℕ

pub record StockPoolCalculationOutput : Type 0 where
  pub basis_trade_date : ℕ
  pub effective_trade_date : ℕ
  pub daily_price_limits : List DailyPriceLimit
  pub events : List PriceLimitEvent
  pub members : List StockPoolMember
  pub findings : List StockPoolQualityFinding
  pub candidate_count : ℕ
  pub rejected_count : ℕ
  pub input_hash : String

abbrev pub no_entries : Tally
no_entries = record { limits = []; events = []; members = []; findings = []; rejected = 0 }

abbrev pub reject : String → String → StockPoolCandidate → Tally
reject rule_code message c = record {
  limits = [];
  events = [];
  members = [];
  findings =
      record { rule_code = rule_code; severity = error; message = message; symbol = some c.symbol }
      ∷ [];
  rejected = 1;
}

abbrev pub event_of : ℕ → List ℕ → PriceLimitDirection → ℤ → ℤ → PriceLimitEvent
event_of trade_date symbol direction close limit_price = record {
  symbol = symbol;
  trade_date = trade_date;
  direction = direction;
  close = close;
  limit_price = limit_price;
  rule_version = price_limit_rule_version;
  algorithm_version = price_limit_algorithm_version;
}

abbrev pub append_event : Result PriceLimitEvent → Result StockPoolMember → Tally → Result Tally
append_event (raised e) member t = raised e
append_event (done event) (raised e) t = raised e
append_event (done event) (done member) t =
    done (record t { events = t.events ++ event ∷ []; members = t.members ++ member ∷ [] })

-- A round of the inner loop.
unfoldable pub mark : ℕ → List ℕ → ℤ → PriceLimitDirection → ℤ → Tally → Result Tally
unfolding check_event check_member
mark trade_date symbol close direction limit_price t =
    if not (eq_ℤ close limit_price)
    then done t
    else (append_event (check_event (event_of trade_date symbol direction close limit_price))
        (check_member
          (record { pool_code = pool_of direction; symbol = symbol; direction = direction }))
        t)

abbrev pub mark_down : ℕ → List ℕ → ℤ → ℤ → Result Tally → Result Tally
mark_down trade_date symbol close lower (raised e) = raised e
mark_down trade_date symbol close lower (done t) = mark trade_date symbol close down lower t

abbrev pub mark_both : ℕ → ℤ → Result DailyPriceLimit → Result Tally
mark_both trade_date close (raised e) = raised e
mark_both trade_date close (done limit) =
    mark_down trade_date limit.symbol close limit.lower_limit (
      mark trade_date limit.symbol close up limit.upper_limit
        (record no_entries { limits = limit ∷ [] }))

abbrev pub above : Option ℤ → ℤ → Bool
above none limit = false
above (some price) limit = ltb_ℤ limit price

abbrev pub under : Option ℤ → ℤ → Bool
under none limit = false
under (some price) limit = ltb_ℤ price limit

abbrev pub ratio_of : PriceLimitRule → Option Bool → ℤ
ratio_of rule (some true) = rule.st_ratio
ratio_of rule _ = rule.regular_ratio

abbrev pub limit_of : ℕ → StockPoolCandidate → ℤ → PriceLimitRule → ℤ × ℤ → DailyPriceLimit
limit_of trade_date c previous_close rule (lower, upper) = record {
  symbol = c.symbol;
  trade_date = trade_date;
  previous_close = previous_close;
  upper_limit = upper;
  lower_limit = lower;
  limit_ratio = ratio_of rule c.is_st;
  price_tick = rule.price_tick;
  is_st = c.is_st;
  rule_version = price_limit_rule_version;
  algorithm_version = price_limit_algorithm_version;
}

unfoldable pub within_range :
    ℕ → StockPoolCandidate → ℤ → ℤ → PriceLimitRule → Result (ℤ × ℤ) → Result Tally
unfolding check_limit mark
within_range trade_date c previous_close close rule (raised e) = raised e
within_range trade_date c previous_close close rule (done (lower, upper)) =
    if above c.high upper || under c.low lower
    then done (
        reject "stock_pool.ohlc_outside_price_limit"
          "candidate OHLC contradicts the selected price-limit rule" c)
    else mark_both trade_date close
        (check_limit (limit_of trade_date c previous_close rule (lower, upper)))

unfoldable pub under_rule : ℕ → StockPoolCandidate → ℤ → ℤ → Result PriceLimitRule → Result Tally
unfolding within_range calculate_price_limit_range
under_rule trade_date c previous_close close (raised e) = raised e
under_rule trade_date c previous_close close (done rule) =
    within_range trade_date c previous_close close rule
      (calculate_price_limit_range previous_close (ratio_of rule c.is_st) rule.price_tick)

-- The body of the loop; `not_none` is a failed `assert`.
unfoldable pub assess : ℕ → StockPoolCandidate → Option String → Option ℤ → Option ℤ → Result Tally
unfolding under_rule price_limit_rule
assess trade_date c (some reason) previous_close close =
    done
      (reject reason "candidate excluded because the applicable price-limit rule is not provable" c)
assess trade_date c none (some previous_close) (some close) =
    under_rule trade_date c previous_close close
      (price_limit_rule c.exchange trade_date "mainboard")
assess trade_date c none _ _ = raised not_none

abbrev pub assess_reason : ℕ → StockPoolCandidate → Result (Option String) → Result Tally
assess_reason trade_date c (raised e) = raised e
assess_reason trade_date c (done reason) = assess trade_date c reason c.previous_close c.close

unfoldable pub assess_candidate : ℕ → StockPoolCandidate → Result Tally
unfolding assess rejection_reason
assess_candidate trade_date c = assess_reason trade_date c (rejection_reason c)

abbrev pub merge : Tally → Tally → Tally
merge t u = record {
  limits = t.limits ++ u.limits;
  events = t.events ++ u.events;
  members = t.members ++ u.members;
  findings = t.findings ++ u.findings;
  rejected = t.rejected + u.rejected;
}

abbrev pub append_tally : Result Tally → Result Tally → Result Tally
append_tally (raised e) rest = raised e
append_tally (done t) (raised e) = raised e
append_tally (done t) (done u) = done (merge t u)

unfoldable pub assess_each : ℕ → List StockPoolCandidate → Result Tally
unfolding assess_candidate
assess_each trade_date [] = done no_entries
assess_each trade_date (c ∷ candidates) =
    append_tally (assess_candidate trade_date c) (assess_each trade_date candidates)

abbrev pub by_symbol : StockPoolCandidate → StockPoolCandidate → Bool
by_symbol a b = not (codes_lt b.symbol a.symbol)

module _ (input_digest : StockPoolBuildInput → String) where
  abbrev pub output_of : StockPoolBuildInput → Result Tally → Result StockPoolCalculationOutput
  output_of source (raised e) = raised e
  output_of source (done t) = done (record {
    basis_trade_date = source.basis_trade_date;
    effective_trade_date = source.effective_trade_date;
    daily_price_limits = t.limits;
    events = t.events;
    members = t.members;
    findings = t.findings;
    candidate_count = length source.candidates;
    rejected_count = t.rejected;
    input_hash = input_digest source;
  })

  unfoldable pub calculate_mainboard_stock_pools :
      StockPoolBuildInput → Result StockPoolCalculationOutput
  unfolding assess_each
  calculate_mainboard_stock_pools source =
      if ltb source.basis_trade_date price_limit_rule_effective_from
      then raised basis_predates_rule
      else if leb source.effective_trade_date source.basis_trade_date
      then raised effective_not_after_basis
      else if has_duplicates codes_eq (map (λ c. c.symbol) source.candidates)
      then raised candidates_not_unique
      else output_of source
          (assess_each source.basis_trade_date (sort_by by_symbol source.candidates))
