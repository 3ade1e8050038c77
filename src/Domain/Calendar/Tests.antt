-- ===== src/Domain/Calendar/Tests.antt =====
-- A calendar of four days, given out of order, and the theorems at it.
use data_center.Prelude.{ℕ, ◌≡◌, refl, Bool, true, false, Option, none, some, List, [], ◌∷◌, All}
use data_center.Prelude.Sort.{sort_by, insert_sorted}
use data_center.Domain.Records.{cn_a_share, TradingDayRecord}
use data_center.Domain.Calendar.{
  CalculatedTradingDay, ok, err, missing_natural_day, previous_not_before, has_gap, last_date,
  forward_links, backward_links, assemble, link_ordered, link_sorted, calculate_trading_day_links,
}
use data_center.Domain.Calendar.Correct.{Linked, calculate_trading_day_links-Linked}

abbrev day : ℕ → Bool → TradingDayRecord
day date trading = record {
  market = cn_a_share;
  trade_date = date;
  is_trading_day = trading;
  source_code = "t";
}

abbrev linked : ℕ → Bool → Option ℕ → Option ℕ → CalculatedTradingDay
linked date trading previous next = record {
  market = cn_a_share;
  trade_date = date;
  is_trading_day = trading;
  previous_trading_day = previous;
  next_trading_day = next;
  source_code = "t";
}

abbrev week : List TradingDayRecord
week = day 12 true ∷ day 10 true ∷ day 11 false ∷ day 13 false ∷ []

abbrev week_linked : List CalculatedTradingDay
week_linked =
    linked 10 true (some 8) (some 12)
    ∷ linked 11 false (some 10) (some 12)
    ∷ linked 12 true (some 10) none
    ∷ linked 13 false (some 12) none
    ∷ []

program : Unit {0}
unfolding calculate_trading_day_links link_sorted link_ordered assemble forward_links backward_links
    has_gap last_date sort_by insert_sorted
program = tt

calculate-week : calculate_trading_day_links week (some 8) none ≡ ok week_linked
unfolding program
calculate-week = refl

calculate-gap :
    calculate_trading_day_links (day 10 true ∷ day 12 true ∷ []) none none ≡ err missing_natural_day
unfolding program
calculate-gap = refl

calculate-boundary : calculate_trading_day_links week (some 10) none ≡ err previous_not_before
unfolding program
calculate-boundary = refl

calculate_trading_day_links-Linked_example : All (Linked (some 8) none week) week_linked
calculate_trading_day_links-Linked_example =
    calculate_trading_day_links-Linked week (some 8) none week_linked calculate-week
