-- ===== src/Domain/Validation/Tests.antt =====
-- Two bars of one security on one day, of which the second is refused.
use Prim.Native.String.{String}
use data_center.Prelude.{ℕ, ◌≡◌, refl, ◌||◌, none, some, List, [], ◌∷◌, map, any, has_duplicates}
use data_center.Prelude.Text.{contains}
use data_center.Prelude.Int.{pos}
use data_center.Domain.Records
use data_center.Domain.Records.{DailyBarRecord}
use data_center.Domain.Validation.{
  blocks_core_write, key_of, key_eq, validate_daily_bars, validate_from,
}
use data_center.Domain.Validation.Blocking.{is_unknown_bar, validate_daily_bars-blocks}

abbrev bar : String → ℕ → DailyBarRecord
bar symbol volume = record {
  symbol = symbol;
  trade_date = 20;
  market = Records.cn_a_share;
  open_price = some (pos 100);
  high = some (pos 104);
  low = some (pos 99);
  close = some (pos 101);
  previous_close = some (pos 100);
  volume = some (pos volume);
  amount = none;
  trade_status = Records.suspended;
  is_st = none;
  source_code = "tushare";
}

abbrev bars : List DailyBarRecord
bars = bar "SSE:600000" 0 ∷ bar "SSE:600000" 3 ∷ []

program : Unit {0}
unfolding validate_daily_bars validate_from contains key_eq
program = tt

validate-twice :
    map (λ f. f.message) (validate_daily_bars ("SSE:600000" ∷ []) (20 ∷ []) bars)
    ≡ "daily_bar.duplicate_natural_key" ∷ "daily_bar.suspended_with_volume" ∷ []
unfolding program
validate-twice = refl

validate_daily_bars-blocks_example :
    any blocks_core_write (validate_daily_bars ("SSE:600000" ∷ []) (20 ∷ []) bars) ≡ (
      any (is_unknown_bar ("SSE:600000" ∷ []) (20 ∷ [])) bars
      || has_duplicates key_eq (map key_of bars))
validate_daily_bars-blocks_example = validate_daily_bars-blocks ("SSE:600000" ∷ []) (20 ∷ []) bars
