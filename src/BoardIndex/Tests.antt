-- ===== src/BoardIndex/Tests.antt =====
-- The guards of the records of a board; the bias of six days of it, given in reverse, whose last two have
-- an average of five closes; and the validations. The numbers are natural numbers here, with a quotient
-- that is rounded down.
use data_center.Prelude.{
  ℕ, ◌+◌, ◌-◌, ◌*◌, ◌/◌, ◌≡◌, refl, false, none, some, List, [], ◌∷◌, ◌&&◌, not, any, all,
  has_duplicates, ltb, ◌==◌, arith,
}
use data_center.Prelude.Int.{pos}
use data_center.Prelude.Codes.{codes, codes_eq, strip}
use data_center.Prelude.Sort.{sort_by, insert_sorted}
use data_center.Domain.Records.{cn_a_share}
use data_center.BoardIndex.Records
use data_center.BoardIndex.Records.{
  DecimalOps, BoardIndexDailyBarRecord, BoardIndexRecord, BoardIndexConstituentSnapshotRecord,
  dynamic_theme, active, check_bar, check_index, is_blank_snapshot,
}
use data_center.BoardIndex.Constituents.{is_empty, validate_board_index_constituent_snapshot}
use data_center.BoardIndex.Findings.{validate_board_index_constituent_snapshot-is_empty}
use data_center.BoardIndex.Bias.{
  BoardIndexBiasCalculation, database, persisted, flat, ok, by_trade_date, is_foreign, trade_dates,
  score_from, calculate_board_index_bias,
}
use data_center.BoardIndex.Best.{IsAsym, IsLeTrans}
use data_center.BoardIndex.Validation.{
  add_record, group_records, judge_groups, validate_board_index_daily_bars,
}
use data_center.BoardIndex.Accounts.{IsValidation, validate_board_index_daily_bars-Accounts}
use data_center.BoardIndex.Extremes.{IsBias, calculate_board_index_bias-IsBias}

abbrev ops : DecimalOps ℕ
ops = record {
  number = λ n. n;
  add = λ a b. a + b;
  subtract = λ a b. a - b;
  multiply = λ a b. a * b;
  divide = λ a b. a / b;
  less = ltb;
  round_six_half_up = λ a. a;
}

abbrev bar : ℕ → ℕ → BoardIndexDailyBarRecord ℕ
bar day close = record {
  board_id = codes "THS:883423";
  trade_date = day;
  market = cn_a_share;
  open_price = close;
  high = close;
  low = close;
  close = close;
  volume = pos 100;
  amount = 1;
  source_code = codes "ths";
}

abbrev earlier : List (BoardIndexDailyBarRecord ℕ)
earlier = bar 5 96 ∷ bar 4 1 ∷ bar 3 1 ∷ bar 2 1 ∷ bar 1 1 ∷ []

check_test : check_bar ops (bar 6 401) ≡ Records.ok (bar 6 401)
unfolding check_bar codes_eq strip
check_test = refl

less_asym : IsAsym ltb
less_asym a b h = ground (arith, h)

less_trans : IsLeTrans ltb
less_trans a b c h k = ground (arith, h, k)

calculate_test :
    calculate_board_index_bias ops (bar 6 401 ∷ earlier) 0 database persisted
    ≡ ok (record {
      board_id = "THS:883423";
      board_code = "883423";
      board_name = "沪深主板昨日涨停";
      trade_date = 6;
      close = 401;
      moving_average_5 = some 100;
      bias_5_pct = some 300;
      previous_trade_date = some 5;
      previous_bias_5_pct = some 300;
      bias_direction = some flat;
      window_trading_days = 30;
      bias_sample_count = 2;
      highest_bias_5_pct = some 300;
      highest_bias_trade_date = some 6;
      lowest_bias_5_pct = some 300;
      lowest_bias_trade_date = some 6;
      algorithm_version = "board_index_bias_v1";
      data_origin = database;
      persistence_status = persisted;
      fetched_at = 0;
    })
unfolding calculate_board_index_bias score_from sort_by insert_sorted codes_eq
calculate_test = refl

own : any (is_foreign ops) (bar 6 401 ∷ earlier) ≡ false
unfolding codes_eq
own = refl

distinct :
    has_duplicates (λ a b. a == b) (trade_dates ops (sort_by by_trade_date (bar 6 401 ∷ earlier)))
    ≡ false
unfolding sort_by insert_sorted
distinct = refl

calculate_board_index_bias-IsBias_example :
    (r : BoardIndexBiasCalculation ℕ) × (calculate_board_index_bias ops
        (bar 6 401 ∷ earlier)
        0
        database
        persisted
      ≡ ok r)
    × IsBias ops (bar 6 401 ∷ earlier) r
calculate_board_index_bias-IsBias_example =
    calculate_board_index_bias-IsBias ops less_asym less_trans (bar 6 401) earlier 0 database
      persisted own distinct

-- A bar twice, two bars that differ, and one of a day that is not known.
abbrev bars : List (BoardIndexDailyBarRecord ℕ)
bars = bar 1 10 ∷ bar 2 20 ∷ bar 1 10 ∷ bar 2 21 ∷ bar 3 30 ∷ []

abbrev known_boards : List (List ℕ)
known_boards = codes "THS:883423" ∷ []

abbrev known_dates : List ℕ
known_dates = 1 ∷ 2 ∷ []

accepted_test :
    (validate_board_index_daily_bars ops known_boards known_dates bars).accepted ≡ bar 1 10 ∷ []
unfolding validate_board_index_daily_bars judge_groups group_records add_record codes_eq
accepted_test = refl

rejected_test :
    (validate_board_index_daily_bars ops known_boards known_dates bars).rejected_rows ≡ 3
unfolding validate_board_index_daily_bars judge_groups group_records add_record codes_eq
rejected_test = refl

validate_board_index_daily_bars-Accounts_example :
    IsValidation ops known_boards known_dates bars
      (validate_board_index_daily_bars ops known_boards known_dates bars)
validate_board_index_daily_bars-Accounts_example =
    validate_board_index_daily_bars-Accounts ops known_boards known_dates bars

abbrev index : BoardIndexRecord
index = record {
  board_id = codes "THS:883423";
  board_code = codes "883423";
  namespace = codes "THS";
  name = codes "A board";
  board_type = dynamic_theme;
  market = cn_a_share;
  status = active;
  source_code = codes "ths";
}

index_test : check_index index ≡ none
unfolding check_index codes_eq strip
index_test = refl

abbrev snapshot : BoardIndexConstituentSnapshotRecord
snapshot = record {
  board_id = codes "THS:883423";
  trade_date = 1;
  members = codes "600000.SH" ∷ codes "600004.SH" ∷ codes "600000.SH" ∷ [];
  source_code = codes "ths";
}

snapshot_test : is_blank_snapshot snapshot ≡ false
unfolding codes_eq strip
snapshot_test = refl

abbrev known_symbols : List (List ℕ)
known_symbols = codes "600000.SH" ∷ codes "600004.SH" ∷ []

validate_board_index_constituent_snapshot-is_empty_example :
    is_empty
      (validate_board_index_constituent_snapshot known_boards known_symbols known_dates snapshot)
    ≡ (any (codes_eq (codes "THS:883423")) known_boards
        && (any (λ day. 1 == day) known_dates
            && (not (has_duplicates codes_eq snapshot.members)
                && all (λ s. any (codes_eq s) known_symbols) snapshot.members)))
validate_board_index_constituent_snapshot-is_empty_example =
    validate_board_index_constituent_snapshot-is_empty known_boards known_symbols known_dates
      snapshot
