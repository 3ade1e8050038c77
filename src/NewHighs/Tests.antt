-- ===== src/NewHighs/Tests.antt =====
-- Three candidates: a new high, one that only equals its high, and one with a short history.
use Prim.Native.String.{String}
use data_center.Prelude.{ℕ, ◌≡◌, false, ◌&&◌, some, List, [], ◌∷◌, any, All}
use data_center.Prelude.Int.{ℤ, pos}
use data_center.Prelude.Codes.{codes, codes_eq}
use data_center.Domain.Records
use data_center.NewHighs.{
  ClosePriceNewHighCandidate, ClosePriceNewHighInput, ClosePriceNewHighMember,
  calculate_close_price_new_highs_120d,
}
use data_center.NewHighs.Members.{IsBreakout, is_new_high, has_member, calculate-IsBreakout}

abbrev candidate : String → ℕ → ℕ → ClosePriceNewHighCandidate
candidate symbol bars close = record {
  symbol = codes symbol;
  code = symbol;
  display_name = some symbol;
  valid_bar_count = bars;
  close = some (pos close);
  current_status = some Records.trading;
  previous_119d_high = some (pos 100);
  has_non_trading_bar = false;
  has_nonpositive_price = false;
}

abbrev source : ClosePriceNewHighInput
source = record {
  trade_date = 200;
  first_trade_date = 20;
  session_count = 120;
  candidates = candidate "c" 120 110 ∷ candidate "a" 120 100 ∷ candidate "b" 119 150 ∷ [];
}

abbrev breakout : ℤ → ℤ → ℕ
breakout close high = 10

abbrev input_digest : ClosePriceNewHighInput → List ClosePriceNewHighCandidate → String
input_digest input candidates = "input"

abbrev content_digest : List ClosePriceNewHighMember → String
content_digest members = "content"

calculate-IsBreakout_example :
    let members =
      (calculate_close_price_new_highs_120d breakout input_digest content_digest source).members in
    All IsBreakout members
    × ((symbol : List ℕ)
        → has_member symbol members
          ≡ any (λ c. is_new_high c && codes_eq symbol c.symbol) source.candidates)
calculate-IsBreakout_example = calculate-IsBreakout breakout input_digest content_digest source
