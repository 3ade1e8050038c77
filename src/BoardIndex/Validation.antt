-- ===== src/BoardIndex/Validation.antt =====
-- The validation of the daily bars of board indexes (src/market_data_center/domain/board_index.py).
use Prim.Native.String.{String}
use data_center.Prelude.{
  ℕ, zero, suc, ◌+◌, Bool, true, not, ◌&&◌, Option, none, some, List, [], ◌∷◌, ◌++◌, length, any,
  ◌==◌, if◌then◌else◌,
}
use data_center.Prelude.Int.{eq_ℤ}
use data_center.Prelude.Codes.{codes_eq}
use data_center.Domain.Records.{Market, cn_a_share}
use data_center.BoardIndex.Records.{DecimalOps, BoardIndexDailyBarRecord}

-- The natural key of a finding is its board, its day and, of a constituent, the symbols.
pub record BoardIndexFinding : Type 0 where
  pub rule_code : String
  pub message : String
  pub board_id : List ℕ
  pub trade_date : ℕ
  pub symbols : Option (List (List ℕ))

pub record BoardIndexDailyBarValidationResult (D : Type 0) : Type 0 where
  pub accepted : List (BoardIndexDailyBarRecord D)
  pub findings : List BoardIndexFinding
  pub rejected_rows : ℕ

-- A key of `grouped` with its list, which is not empty.
pub record BarGroup (D : Type 0) : Type 0 where
  pub first : BoardIndexDailyBarRecord D
  pub others : List (BoardIndexDailyBarRecord D)

abbrev pub same_bar_key :
    {D : Type 0} → BoardIndexDailyBarRecord D → BoardIndexDailyBarRecord D → Bool
same_bar_key a b = codes_eq a.board_id b.board_id && a.trade_date == b.trade_date

-- `grouped.setdefault(key, []).append(record)`
unfoldable pub add_record :
    {D : Type 0} → BoardIndexDailyBarRecord D → List (BarGroup D) → List (BarGroup D)
add_record r [] = record { first = r; others = [] } ∷ []
add_record r (g ∷ groups) =
    let rest = add_record r groups in
    if same_bar_key g.first r
    then record { first = g.first; others = g.others ++ r ∷ [] } ∷ groups
    else g ∷ rest

unfoldable pub group_records :
    {D : Type 0} → List (BarGroup D) → List (BoardIndexDailyBarRecord D) → List (BarGroup D)
unfolding add_record
group_records groups [] = groups
group_records groups (r ∷ records) = group_records (add_record r groups) records

module _ {D : Type 0} (ops : DecimalOps D) where
  abbrev same_number : D → D → Bool
  same_number a b = not (ops.less a b) && not (ops.less b a)

  abbrev same_market : Market → Market → Bool
  same_market cn_a_share cn_a_share = true

  -- The equality of the dataclass.
  abbrev pub same_bar : BoardIndexDailyBarRecord D → BoardIndexDailyBarRecord D → Bool
  same_bar a b =
      same_bar_key a b
      && same_market a.market b.market
      && same_number a.open_price b.open_price
      && same_number a.high b.high
      && same_number a.low b.low
      && same_number a.close b.close
      && eq_ℤ a.volume b.volume
      && same_number a.amount b.amount
      && codes_eq a.source_code b.source_code

  module _ (known_board_ids : List (List ℕ)) (known_trading_dates : List ℕ) where
    abbrev pub is_known_board : BoardIndexDailyBarRecord D → Bool
    is_known_board r = any (codes_eq r.board_id) known_board_ids

    abbrev pub is_known_date : BoardIndexDailyBarRecord D → Bool
    is_known_date r = any (λ day. r.trade_date == day) known_trading_dates

    -- The rule and the message of the finding that a group gives.
    abbrev pub group_error : BarGroup D → Option (String × String)
    group_error g =
        if any (λ candidate. not (same_bar candidate g.first)) g.others
        then some (
          "board_index_daily_bar.conflicting_duplicate",
          "batch contains conflicting board-index bars for one natural key",
        )
        else if not (is_known_board g.first)
        then some (
          "board_index_daily_bar.unknown_board", "board-index bar references an unknown BoardIndex",
        )
        else if not (is_known_date g.first)
        then some (
          "board_index_daily_bar.non_trading_date",
          "board-index bar date is not a known trading day",
        )
        else none

    abbrev pub group_size : BarGroup D → ℕ
    group_size g = suc (length g.others)

    -- The body of the loop over the groups, before what the groups behind it give.
    abbrev pub add_group :
        BarGroup D
        → Option (String × String)
        → BoardIndexDailyBarValidationResult D
        → BoardIndexDailyBarValidationResult D
    add_group g none rest = record {
      accepted = g.first ∷ rest.accepted;
      findings = rest.findings;
      rejected_rows = rest.rejected_rows;
    }
    add_group g (some (rule_code, message)) rest = record {
      accepted = rest.accepted;
      findings =
          record {
            rule_code = rule_code;
            message = message;
            board_id = g.first.board_id;
            trade_date = g.first.trade_date;
            symbols = none;
          }
          ∷ rest.findings;
      rejected_rows = group_size g + rest.rejected_rows;
    }

    unfoldable pub judge_groups : List (BarGroup D) → BoardIndexDailyBarValidationResult D
    judge_groups [] = record { accepted = []; findings = []; rejected_rows = zero }
    judge_groups (g ∷ groups) = add_group g (group_error g) (judge_groups groups)

    unfoldable pub validate_board_index_daily_bars :
        List (BoardIndexDailyBarRecord D) → BoardIndexDailyBarValidationResult D
    unfolding judge_groups group_records
    validate_board_index_daily_bars records = judge_groups (group_records [] records)
