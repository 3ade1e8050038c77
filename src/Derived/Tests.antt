-- ===== src/Derived/Tests.antt =====
-- Two bars around a change of the share capital, which comes first.
use data_center.Prelude.{ℕ, ◌≡◌, refl, false, none, some, List, [], ◌∷◌, map}
use data_center.Prelude.Int.{ℤ, pos}
use data_center.Prelude.Sort.{sort_by, insert_sorted}
use data_center.Domain.Records
use data_center.Domain.Records.{DailyBarRecord}
use data_center.Derived.MarketCaps.{
  ShareCapitalRecord, MarketCapitalizationRecord, Result, done, raised, validated_bars,
  calculate_market_capitalizations, ◌*ℤ◌,
}
use data_center.Derived.Refinement.{specified, calculate_market_capitalizations-specified}

abbrev bar : ℕ → ℕ → DailyBarRecord
bar day close = record {
  symbol = "SSE:600001";
  trade_date = day;
  market = Records.cn_a_share;
  open_price = none;
  high = none;
  low = none;
  close = some (pos close);
  previous_close = none;
  volume = none;
  amount = none;
  trade_status = Records.trading;
  is_st = some false;
  source_code = "tushare";
}

abbrev capital : ℕ → ℕ → ShareCapitalRecord
capital day shares = record {
  symbol = "SSE:600001";
  effective_date = day;
  total_shares = pos shares;
  restricted_shares = none;
  circulating_shares = some (pos 5);
  listed_a_shares = none;
  change_reason = none;
  source_code = "tushare";
}

abbrev bars : List DailyBarRecord
bars = bar 12 30 ∷ bar 10 20 ∷ []

abbrev changes : List ShareCapitalRecord
changes = capital 11 200 ∷ capital 9 100 ∷ []

abbrev totals : Result (List MarketCapitalizationRecord) → List ℤ
totals (done caps) = map (λ c. c.total_market_cap) caps
totals (raised e) = []

totals_test :
    totals (calculate_market_capitalizations 10 12 bars changes) ≡ pos 2000 ∷ pos 6000 ∷ []
unfolding calculate_market_capitalizations sort_by insert_sorted ◌*ℤ◌
totals_test = refl

calculate_market_capitalizations-specified_example :
    calculate_market_capitalizations 10 12 bars changes
    ≡ specified 10 12 changes (validated_bars bars)
calculate_market_capitalizations-specified_example =
    calculate_market_capitalizations-specified 10 12 bars changes
