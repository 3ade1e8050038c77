-- ===== src/StockPools/Board.antt =====
-- Which candidates a calculation takes (src/market_data_center/stock_pool_calculator.py).
use Prim.Native.String.{String}
use data_center.Prelude.{
  ℕ, Bool, true, false, not, ◌&&◌, ◌||◌, Option, none, some, List, length, is_none, leb, ◌==◌,
  if◌then◌else◌,
}
use data_center.Prelude.Int.{ℤ, pos, ltb_ℤ}
use data_center.Domain.Records
use data_center.Domain.Records.{Exchange, SecurityType, SecurityStatus, TradeStatus}
use data_center.StockPools.Rules.{StockPoolCandidate, Result, done, raised, not_a_number}
use data_center.StockPools.Digits.{is_digits, parse_digits}

abbrev pub is_board_number : Exchange → ℕ → Bool
is_board_number Records.sse n = (leb 600000 n && leb n 603999) || (leb 605000 n && leb n 605999)
is_board_number Records.szse n = leb 1 n && leb n 4999 && not (leb 1001 n && leb n 1199)
is_board_number Records.bse n = false

-- `_is_mainboard`, in the three ways that it ends; `none` is the `ValueError` of `int(code)`.
abbrev pub is_number_of : Exchange → Option ℕ → Option Bool
is_number_of Records.bse number = some false
is_number_of exchange none = none
is_number_of exchange (some number) = some (is_board_number exchange number)

unfoldable pub is_mainboard : Exchange → List ℕ → Option Bool
unfolding parse_digits
is_mainboard exchange code =
    if not (length code == 6) || not (is_digits code)
    then some false
    else is_number_of exchange (parse_digits code)

abbrev is_stock : SecurityType → Bool
is_stock Records.stock = true
is_stock _ = false

abbrev is_listed : SecurityStatus → Bool
is_listed Records.listed = true
is_listed _ = false

-- `candidate.trade_status in (TradeStatus.TRADING, TradeStatus.UNKNOWN)`
abbrev may_trade : Option TradeStatus → Bool
may_trade (some Records.trading) = true
may_trade (some TradeStatus.unknown) = true
may_trade _ = false

-- `candidate.listing_trading_day_number <= 5`
abbrev is_initial_stage : Option ℤ → Bool
is_initial_stage none = false
is_initial_stage (some n) = not (ltb_ℤ (pos 5) n)

abbrev pub is_priced : Option ℤ → Bool
is_priced none = false
is_priced (some price) = ltb_ℤ (pos 0) price

-- What comes after the test of the board.
unfoldable pub board_reason : StockPoolCandidate → Bool → Option String
board_reason c on_mainboard =
    if not on_mainboard
    then some "stock_pool.unsupported_board"
    else if is_none c.ipo_date || is_none c.listing_trading_day_number
    then some "stock_pool.unknown_listing_stage"
    else if is_initial_stage c.listing_trading_day_number
    then some "stock_pool.no_limit_initial_listing_stage"
    else if not (c.prior_five_bar_count == 5)
    then some "stock_pool.unproven_continuous_listing_stage"
    else if not (may_trade c.trade_status)
    then some "stock_pool.not_trading"
    else if not (is_priced c.previous_close) || is_none c.close
    then some "stock_pool.missing_price"
    else if is_none c.daily_bar_ingestion_id
    then some "stock_pool.missing_daily_bar_lineage"
    else if is_none c.indicator_ingestion_id
    then some "stock_pool.missing_daily_indicator"
    else none

-- The reason, or the `ValueError` of `_is_mainboard`.
abbrev pub reason_on : StockPoolCandidate → Option Bool → Result (Option String)
reason_on c none = raised not_a_number
reason_on c (some on_mainboard) = done (board_reason c on_mainboard)

unfoldable pub rejection_reason : StockPoolCandidate → Result (Option String)
unfolding is_mainboard board_reason
rejection_reason c =
    if not (is_stock c.security_type) || not (is_listed c.security_status)
    then done (some "stock_pool.unsupported_security_status")
    else reason_on c (is_mainboard c.exchange c.code)
