-- ===== src/Domain/Records.antt =====
-- Provider-neutral enumerations and records (src/market_data_center/domain/records.py). A date is
-- its day number.
use Prim.Native.String.{String}
use data_center.Prelude.{ℕ, Bool, false, ◌&&◌, ◌||◌, Option, none, some, is_some, if◌then◌else◌}
use data_center.Prelude.Int.{ℤ, pos, ltb_ℤ}

pub data Exchange : Type 0 where
  sse szse bse : Exchange

pub data Market : Type 0 where
  cn_a_share : Market

pub data SecurityType : Type 0 where
  stock index other convertible_bond etf unknown : SecurityType

pub data SecurityStatus : Type 0 where
  listed delisted unknown : SecurityStatus

pub data TradeStatus : Type 0 where
  trading suspended unknown : TradeStatus

pub data CorporateActionStatus : Type 0 where
  planned approved implemented cancelled unknown : CorporateActionStatus

pub record TradingDayRecord : Type 0 where
  pub market : Market
  pub trade_date : ℕ
  pub is_trading_day : Bool
  pub source_code : String

-- A price, an amount or a volume is an integer of the smallest unit that is in use; `open_price` is
-- the field `open`.
pub record DailyBarRecord : Type 0 where
  pub symbol : String
  pub trade_date : ℕ
  pub market : Market
  pub open_price : Option ℤ
  pub high : Option ℤ
  pub low : Option ℤ
  pub close : Option ℤ
  pub previous_close : Option ℤ
  pub volume : Option ℤ
  pub amount : Option ℤ
  pub trade_status : TradeStatus
  pub is_st : Option Bool
  pub source_code : String

pub data BarError : Type 0 where
  negative_price negative_volume low_exceeds_high open_out_of_range close_out_of_range : BarError

pub data Checked (A : Type 0) : Type 0 where
  ok : A → Checked A
  err : BarError → Checked A

-- `value is not None and value < 0`, `x is not None and y is not None and x < y`
abbrev pub is_negative : Option ℤ → Bool
is_negative none = false
is_negative (some value) = ltb_ℤ value (pos 0)

abbrev pub below : Option ℤ → Option ℤ → Bool
below (some x) (some y) = ltb_ℤ x y
below _ _ = false

-- `low` and `high` are there, the value is, and it is not between them.
abbrev out_of_range : Option ℤ → Option ℤ → Option ℤ → Bool
out_of_range low high value = is_some low && is_some high && (below value low || below high value)

-- `DailyBarRecord.__post_init__`
pub check_daily_bar : DailyBarRecord → Checked DailyBarRecord
check_daily_bar r =
    if is_negative r.open_price
      || is_negative r.high
      || is_negative r.low
      || is_negative r.close
      || is_negative r.previous_close
      || is_negative r.amount
    then err negative_price
    else if is_negative r.volume
    then err negative_volume
    else if below r.high r.low
    then err low_exceeds_high
    else if out_of_range r.low r.high r.open_price
    then err open_out_of_range
    else if out_of_range r.low r.high r.close
    then err close_out_of_range
    else ok r
