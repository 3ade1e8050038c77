-- ===== src/StockPools/Rules.antt =====
-- The rules of the price limits, and the records of a calculation with the guards of their
-- constructors (src/market_data_center/domain/stock_pool.py).
use Prim.Native.String.{String}
use data_center.Prelude.{
  ℕ, Bool, true, false, not, ◌&&◌, ◌||◌, Option, none, some, List, [], ◌∷◌, leb, if◌then◌else◌,
}
use data_center.Prelude.Int.{ℤ, pos, ltb_ℤ, eq_ℤ}
use data_center.Prelude.Text.{text_eq}
use data_center.Domain.Records
use data_center.Domain.Records.{Exchange, SecurityType, SecurityStatus, TradeStatus}

abbrev pub mainboard_limit_up_pool : String
mainboard_limit_up_pool = "CN_A_PREVIOUS_DAY_MAINBOARD_LIMIT_UP"

abbrev pub mainboard_limit_down_pool : String
mainboard_limit_down_pool = "CN_A_PREVIOUS_DAY_MAINBOARD_LIMIT_DOWN"

abbrev pub price_limit_algorithm_version : String
price_limit_algorithm_version = "1.0.0"

abbrev pub price_limit_rule_version : String
price_limit_rule_version = "CN_MAINBOARD_2026_07_06"

abbrev gem_price_limit_rule_version : String
gem_price_limit_rule_version = "CN_GEM_2026_07_06"

abbrev star_price_limit_rule_version : String
star_price_limit_rule_version = "CN_STAR_2026_07_06"

-- `date(2026, 7, 6).toordinal()`
abbrev pub price_limit_rule_effective_from : ℕ
price_limit_rule_effective_from = 739803

pub data PriceLimitDirection : Type 0 where
  up down : PriceLimitDirection

-- A tick, and the value of its last digit, to which `quantize` rounds.
pub record PriceTick : Type 0 where
  pub value : ℤ
  pub digit : ℕ

pub record PriceLimitRule : Type 0 where
  pub rule_version : String
  pub exchange : Exchange
  pub board : String
  pub effective_from : ℕ
  pub effective_to : Option ℕ
  pub regular_ratio : ℤ
  pub st_ratio : ℤ
  pub price_tick : PriceTick
  pub initial_no_limit_trading_days : ℕ

-- `Decimal("0.01")`
abbrev pub cent : PriceTick
cent = record { value = pos 100; digit = 100 }

abbrev pub rule_of : String → Exchange → String → ℤ → PriceLimitRule
rule_of version exchange board ratio = record {
  rule_version = version;
  exchange = exchange;
  board = board;
  effective_from = price_limit_rule_effective_from;
  effective_to = none;
  regular_ratio = ratio;
  st_ratio = ratio;
  price_tick = cent;
  initial_no_limit_trading_days = 5;
}

abbrev pub price_limit_rules : List PriceLimitRule
price_limit_rules =
    rule_of price_limit_rule_version Records.sse "mainboard" (pos 10)
    ∷ rule_of price_limit_rule_version Records.szse "mainboard" (pos 10)
    ∷ rule_of gem_price_limit_rule_version Records.szse "gem" (pos 20)
    ∷ rule_of star_price_limit_rule_version Records.sse "star" (pos 20)
    ∷ []

pub data PoolError : Type 0 where
  no_rule not_positive invalid_range invalid_ratio invalid_event direction_mismatch : PoolError
  basis_predates_rule effective_not_after_basis candidates_not_unique not_none not_a_number :
      PoolError
  invalid_version negative_count counts_exceed invalid_digest : PoolError

pub data Result (A : Type 0) : Type 0 where
  done : A → Result A
  raised : PoolError → Result A

abbrev exchange_eq : Exchange → Exchange → Bool
exchange_eq Records.sse Records.sse = true
exchange_eq Records.szse Records.szse = true
exchange_eq Records.bse Records.bse = true
exchange_eq _ _ = false

abbrev not_ended : Option ℕ → ℕ → Bool
not_ended none trade_date = true
not_ended (some effective_to) trade_date = leb trade_date effective_to

abbrev covers : PriceLimitRule → Exchange → ℕ → String → Bool
covers rule exchange trade_date board =
    exchange_eq rule.exchange exchange
    && text_eq rule.board board
    && leb rule.effective_from trade_date
    && not_ended rule.effective_to trade_date

first_rule : List PriceLimitRule → Exchange → ℕ → String → Result PriceLimitRule
first_rule [] exchange trade_date board = raised no_rule
first_rule (rule ∷ rules) exchange trade_date board =
    let rest = first_rule rules exchange trade_date board in
    if covers rule exchange trade_date board then done rule else rest

unfoldable pub price_limit_rule : Exchange → ℕ → String → Result PriceLimitRule
unfolding first_rule
price_limit_rule exchange trade_date board = first_rule price_limit_rules exchange trade_date board

pub record StockPoolCandidate : Type 0 where
  pub symbol : List ℕ
  pub code : List ℕ
  pub exchange : Exchange
  pub security_type : SecurityType
  pub security_status : SecurityStatus
  pub ipo_date : Option ℕ
  pub listing_trading_day_number : Option ℤ
  pub prior_five_bar_count : ℕ
  pub trade_status : Option TradeStatus
  pub previous_close : Option ℤ
  pub open_price : Option ℤ
  pub high : Option ℤ
  pub low : Option ℤ
  pub close : Option ℤ
  pub is_st : Option Bool
  pub daily_bar_ingestion_id : Option ℕ
  pub indicator_ingestion_id : Option ℕ
  pub free_float_turnover_rate_pct : Option ℤ
  pub free_float_shares : Option ℤ
  pub circulating_market_value : Option ℤ

pub record StockPoolBuildInput : Type 0 where
  pub basis_trade_date : ℕ
  pub effective_trade_date : ℕ
  pub candidates : List StockPoolCandidate

pub record DailyPriceLimit : Type 0 where
  pub symbol : List ℕ
  pub trade_date : ℕ
  pub previous_close : ℤ
  pub upper_limit : ℤ
  pub lower_limit : ℤ
  pub limit_ratio : ℤ
  pub price_tick : PriceTick
  pub is_st : Option Bool
  pub rule_version : String
  pub algorithm_version : String

-- `DailyPriceLimit.__post_init__`
unfoldable pub check_limit : DailyPriceLimit → Result DailyPriceLimit
check_limit r =
    if not (
      ltb_ℤ r.previous_close r.upper_limit
      && not (ltb_ℤ r.previous_close r.lower_limit)
      && ltb_ℤ (pos 0) r.lower_limit)
    then raised invalid_range
    else if not (ltb_ℤ (pos 0) r.limit_ratio) || not (ltb_ℤ (pos 0) r.price_tick.value)
    then raised invalid_ratio
    else done r

pub record PriceLimitEvent : Type 0 where
  pub symbol : List ℕ
  pub trade_date : ℕ
  pub direction : PriceLimitDirection
  pub close : ℤ
  pub limit_price : ℤ
  pub rule_version : String
  pub algorithm_version : String

-- `PriceLimitEvent.__post_init__`
unfoldable pub check_event : PriceLimitEvent → Result PriceLimitEvent
check_event r =
    if not (ltb_ℤ (pos 0) r.close) || not (eq_ℤ r.close r.limit_price)
    then raised invalid_event
    else done r

pub record StockPoolMember : Type 0 where
  pub pool_code : String
  pub symbol : List ℕ
  pub direction : PriceLimitDirection

abbrev pub pool_of : PriceLimitDirection → String
pool_of up = mainboard_limit_up_pool
pool_of down = mainboard_limit_down_pool

-- `StockPoolMember.__post_init__`
unfoldable pub check_member : StockPoolMember → Result StockPoolMember
check_member r =
    if not (text_eq r.pool_code (pool_of r.direction)) then raised direction_mismatch else done r

pub data StockPoolQualitySeverity : Type 0 where
  warning error : StockPoolQualitySeverity

pub record StockPoolQualityFinding : Type 0 where
  pub rule_code : String
  pub severity : StockPoolQualitySeverity
  pub message : String
  pub symbol : Option (List ℕ)
