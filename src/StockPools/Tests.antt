-- ===== src/StockPools/Tests.antt =====
-- A stock of the main board that closed at its upper limit, and a fund that is excluded.
use Prim.Native.String.{String}
use data_center.Prelude.{
  ℕ, ◌+◌, ◌≡◌, refl, true, false, ◌&&◌, none, some, List, [], ◌∷◌, map, length, any, All, inl, zero,
  suc, arith,
}
use data_center.Prelude.Int.{pos}
use data_center.Prelude.Codes.{codes, codes_eq, codes_lt}
use data_center.Prelude.Sort.{sort_by, insert_sorted}
use data_center.Domain.Records
use data_center.Domain.Records.{SecurityType}
use data_center.StockPools.Rules.{
  up, cent, StockPoolCandidate, StockPoolBuildInput, Result, done, raised, pool_of,
}
use data_center.StockPools.Range.{calculate_price_limit_range}
use data_center.StockPools.Digits.{is_decimal, is_other_digit, parse_digits, digit_value}
use data_center.StockPools.Calculate.{calculate_mainboard_stock_pools, StockPoolCalculationOutput}
use data_center.StockPools.Limits.{IsRange, calculate_price_limit_range-IsRange}
use data_center.StockPools.Candidate.{has_member, is_hit}
use data_center.StockPools.Accounts.{
  event_key, member_key, IsAtLimit, calculate-Accounts, calculate-HasHits,
}
use data_center.StockPools.Completion.{is_done, calculate-returns}
use data_center.StockPools.Snapshot.{is_digest, snapshot_of}
use data_center.StockPools.Published.{snapshot_of-returns}

abbrev candidate : String → SecurityType → ℕ → StockPoolCandidate
candidate symbol security_type close = record {
  symbol = codes symbol;
  code = codes "600001";
  exchange = Records.sse;
  security_type = security_type;
  security_status = Records.listed;
  ipo_date = some 700000;
  listing_trading_day_number = some (pos 100);
  prior_five_bar_count = 5;
  trade_status = some Records.trading;
  previous_close = some (pos 100500);
  open_price = some (pos 101000);
  high = some (pos 110600);
  low = some (pos 100000);
  close = some (pos close);
  is_st = some false;
  daily_bar_ingestion_id = some 1;
  indicator_ingestion_id = some 2;
  free_float_turnover_rate_pct = none;
  free_float_shares = none;
  circulating_market_value = none;
}

abbrev source_input : StockPoolBuildInput
source_input = record {
  basis_trade_date = 739803;
  effective_trade_date = 739804;
  candidates =
      candidate "SSE:600002" Records.stock 105000
      ∷ candidate "SSE:600001" Records.stock 110600
      ∷ candidate "SSE:500001" Records.etf 110600
      ∷ [];
}

abbrev input_digest : StockPoolBuildInput → String
input_digest input = "input"

abbrev zeros : ℕ → List ℕ
zeros zero = []
zeros (suc n) = 48 ∷ zeros n

abbrev digest : List (List ℕ) → List ℕ
digest symbols = zeros 64

-- What a calculation gives, or nothing.
abbrev output : Result StockPoolCalculationOutput → StockPoolCalculationOutput
output (done o) = o
output (raised e) = record {
  basis_trade_date = 0;
  effective_trade_date = 0;
  daily_price_limits = [];
  events = [];
  members = [];
  findings = [];
  candidate_count = 0;
  rejected_count = 0;
  input_hash = "";
}

abbrev result : StockPoolCalculationOutput
result = output (calculate_mainboard_stock_pools input_digest source_input)

result-done : calculate_mainboard_stock_pools input_digest source_input ≡ done result
unfolding calculate_mainboard_stock_pools codes_eq sort_by insert_sorted codes_lt is_decimal
    is_other_digit
result-done = refl

members_test : map member_key result.members ≡ (codes "SSE:600001", up) ∷ []
unfolding calculate_mainboard_stock_pools codes_eq sort_by insert_sorted codes_lt is_decimal
    is_other_digit
members_test = refl

-- A superscript two is a digit of `isdigit` that `int` refuses.
superscript_test : parse_digits (54 ∷ 48 ∷ 48 ∷ 48 ∷ 48 ∷ 178 ∷ []) ≡ none
unfolding parse_digits is_decimal
superscript_test = refl

-- Arabic-Indic digits.
decimal_test : parse_digits (1638 ∷ 1632 ∷ 1637 ∷ []) ≡ some 605
unfolding parse_digits is_decimal digit_value
decimal_test = refl

calculate_price_limit_range-IsRange_example :
    IsRange 100500 10 (calculate_price_limit_range (pos 100500) (pos 10) cent)
calculate_price_limit_range-IsRange_example =
    calculate_price_limit_range-IsRange 100500 10 (omega arith) (inl refl)

calculate-Accounts_example :
    (result.candidate_count ≡ 3)
    × (length result.daily_price_limits + result.rejected_count ≡ result.candidate_count)
    × (length result.findings ≡ result.rejected_count)
    × (map event_key result.events ≡ map member_key result.members)
    × All (IsAtLimit result.daily_price_limits) result.events
calculate-Accounts_example = calculate-Accounts input_digest source_input result result-done

calculate-HasHits_example :
    has_member up (codes "SSE:600001") result.members
    ≡ any (λ c. is_hit up c && codes_eq (codes "SSE:600001") c.symbol) source_input.candidates
calculate-HasHits_example =
    calculate-HasHits input_digest source_input result result-done up (codes "SSE:600001")

calculate-returns_example :
    is_done (calculate_mainboard_stock_pools input_digest source_input) ≡ true
unfolding codes_eq is_other_digit
calculate-returns_example =
    calculate-returns input_digest source_input (omega arith) (omega arith) refl
      ((refl, refl), ((refl, refl), ((refl, refl), tt)))

is_sha256 : (symbols : List (List ℕ)) → is_digest (digest symbols) ≡ true
is_sha256 symbols = refl

snapshot_of-returns_example :
    is_done (snapshot_of digest 1 2 (pos 1) 3 (zeros 64) (pool_of up) result) ≡ true
snapshot_of-returns_example =
    snapshot_of-returns input_digest digest is_sha256 source_input result 1 2 (pos 1) 3 (zeros 64)
      up result-done refl refl
