-- ===== src/Domain/Validation.antt =====
-- The validation of daily bars before they are written (src/market_data_center/domain/validation.py).
-- The natural keys that have been seen are a list.
pub mod Blocking
mod Tests
use Prim.Native.String.{String}
use data_center.Prelude.{
  ℕ, Bool, true, false, not, ◌&&◌, ◌||◌, Option, none, some, List, [], ◌∷◌, map, any, ◌==◌,
  if◌then◌else◌,
}
use data_center.Prelude.Text.{text_eq, contains}
use data_center.Prelude.Int.{ℤ, pos, negsuc}
use data_center.Domain.Records
use data_center.Domain.Records.{DailyBarRecord, TradeStatus}
use data_center.Domain.Ingestion.{QualitySeverity, warning, error, info}

pub data ValidationRule : Type 0 where
  unknown_security non_trading_date duplicate_natural_key : ValidationRule
  unknown_trade_status suspended_with_volume : ValidationRule

abbrev rule_value : ValidationRule → String
rule_value unknown_security = "daily_bar.unknown_security"
rule_value non_trading_date = "daily_bar.non_trading_date"
rule_value duplicate_natural_key = "daily_bar.duplicate_natural_key"
rule_value unknown_trade_status = "daily_bar.unknown_trade_status"
rule_value suspended_with_volume = "daily_bar.suspended_with_volume"

pub record ValidationFinding : Type 0 where
  pub rule_code : ValidationRule
  pub severity : QualitySeverity
  pub message : String
  pub symbol : String
  pub trade_date : ℕ

-- `ValidationFinding.blocks_core_write`
abbrev pub is_error : QualitySeverity → Bool
is_error error = true
is_error warning = false
is_error info = false

pub blocks_core_write : ValidationFinding → Bool
blocks_core_write f = is_error f.severity

-- `_finding`
abbrev finding : DailyBarRecord → ValidationRule → QualitySeverity → ValidationFinding
finding r rule severity = record {
  rule_code = rule;
  severity = severity;
  message = rule_value rule;
  symbol = r.symbol;
  trade_date = r.trade_date;
}

abbrev pub Key : Type 0
Key = String × ℕ

abbrev pub key_of : DailyBarRecord → Key
key_of r = (r.symbol, r.trade_date)

pub key_eq : Key → Key → Bool
key_eq a b = text_eq a.0 b.0 && a.1 == b.1

abbrev is_unknown : TradeStatus → Bool
is_unknown Records.trading = false
is_unknown Records.suspended = false
is_unknown TradeStatus.unknown = true

abbrev is_suspended : TradeStatus → Bool
is_suspended Records.trading = false
is_suspended Records.suspended = true
is_suspended TradeStatus.unknown = false

-- `record.volume not in (None, 0)`
abbrev has_volume : Option ℤ → Bool
has_volume none = false
has_volume (some (pos n)) = not (n == 0)
has_volume (some (negsuc n)) = true

abbrev append_if : Bool → ValidationFinding → List ValidationFinding → List ValidationFinding
append_if b f findings = if b then f ∷ findings else findings

module _ (known_symbols : List String) (known_trading_dates : List ℕ) where
  abbrev pub is_unknown_symbol : DailyBarRecord → Bool
  is_unknown_symbol r = not (contains r.symbol known_symbols)

  abbrev pub is_unknown_date : DailyBarRecord → Bool
  is_unknown_date r = not (any (λ d. r.trade_date == d) known_trading_dates)

  -- The loop, with the keys that it has seen.
  validate_from : List Key → List DailyBarRecord → List ValidationFinding
  validate_from seen [] = []
  validate_from seen (r ∷ records) =
      let is_seen = any (key_eq (key_of r)) seen in
      let rest = validate_from (if is_seen then seen else key_of r ∷ seen) records in
      append_if (is_unknown_symbol r) (finding r unknown_security error) (
        append_if (is_unknown_date r) (finding r non_trading_date error) (
          append_if is_seen (finding r duplicate_natural_key error) (
            append_if (is_unknown r.trade_status) (finding r unknown_trade_status warning) (
              append_if (is_suspended r.trade_status && has_volume r.volume)
                (finding r suspended_with_volume warning) rest))))

  pub validate_daily_bars : List DailyBarRecord → List ValidationFinding
  validate_daily_bars records = validate_from [] records
