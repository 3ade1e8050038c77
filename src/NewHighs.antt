-- ===== src/NewHighs.antt =====
-- The strict closing highs of 120 sessions (src/market_data_center/
-- close_price_new_highs_calculator.py, domain/close_price_new_highs.py). A price is a natural number of the
-- smallest unit that the prices of a calculation share, and its sign is kept; a symbol is the list of
-- its code points. The quotient in percent, rounded by `Decimal`, and the digests are parameters.
pub mod Members
mod Tests
use Prim.Native.String.{String}
use data_center.Prelude.{
  ℕ, ◌-◌, Bool, true, false, not, ◌&&◌, ◌||◌, Option, none, some, List, [], ◌∷◌, map, length, keep,
  has_duplicates, is_none, ltb, leb, ◌==◌, if◌then◌else◌,
}
use data_center.Prelude.Int.{ℤ, pos, ltb_ℤ}
use data_center.Prelude.Codes.{codes_eq, codes_lt}
use data_center.Prelude.Sort.{sort_by}
use data_center.Domain.Records.{TradeStatus}
use data_center.Domain.Records

pub record ClosePriceNewHighCandidate : Type 0 where
  pub symbol : List ℕ
  pub code : String
  pub display_name : Option String
  pub valid_bar_count : ℕ
  pub close : Option ℤ
  pub current_status : Option TradeStatus
  pub previous_119d_high : Option ℤ
  pub has_non_trading_bar : Bool
  pub has_nonpositive_price : Bool

pub record ClosePriceNewHighInput : Type 0 where
  pub trade_date : ℕ
  pub first_trade_date : ℕ
  pub session_count : ℕ
  pub candidates : List ClosePriceNewHighCandidate

pub data InputError : Type 0 where
  wrong_session_count first_after_target too_many_candidates candidates_not_unique : InputError

pub data Checked (A : Type 0) : Type 0 where
  ok : A → Checked A
  err : InputError → Checked A

abbrev pub symbols_of : List ClosePriceNewHighCandidate → List (List ℕ)
symbols_of candidates = map (λ c. c.symbol) candidates

-- `ClosePriceNewHighInput.__post_init__`
pub check_input : ClosePriceNewHighInput → Checked ClosePriceNewHighInput
check_input source =
    if not (source.session_count == 120)
    then err wrong_session_count
    else if ltb source.trade_date source.first_trade_date
    then err first_after_target
    else if ltb 10000 (length source.candidates)
    then err too_many_candidates
    else if has_duplicates codes_eq (symbols_of source.candidates)
    then err candidates_not_unique
    else ok source

pub record ClosePriceNewHighMember : Type 0 where
  pub symbol : List ℕ
  pub code : String
  pub display_name : String
  pub close : ℤ
  pub previous_119d_high : ℤ
  pub breakout_pct : ℕ

-- `candidate.current_status in _VALID_STATUSES`
abbrev is_valid_status : Option TradeStatus → Bool
is_valid_status none = false
is_valid_status (some Records.trading) = true
is_valid_status (some Records.suspended) = false
is_valid_status (some TradeStatus.unknown) = true

abbrev is_positive : Option ℤ → Bool
is_positive none = false
is_positive (some price) = ltb_ℤ (pos 0) price

abbrev is_named : Option String → Bool
is_named none = false
is_named (some name) = true

pub is_eligible : ClosePriceNewHighCandidate → Bool
is_eligible c =
    c.valid_bar_count == 120
    && is_positive c.close
    && is_valid_status c.current_status
    && is_positive c.previous_119d_high
    && is_named c.display_name

pub record ClosePriceNewHighCalculation : Type 0 where
  pub trade_date : ℕ
  pub first_trade_date : ℕ
  pub session_count : ℕ
  pub candidates : List ClosePriceNewHighCandidate
  pub members : List ClosePriceNewHighMember
  pub candidate_count : ℕ
  pub eligible_history_count : ℕ
  pub omitted_count : ℕ
  pub incomplete_history_count : ℕ
  pub non_trading_bar_count : ℕ
  pub nonpositive_price_count : ℕ
  pub missing_name_count : ℕ
  pub input_hash : String
  pub content_hash : String

-- The order of `item.symbol`, and of `(-item.breakout_pct, item.symbol)`.
abbrev pub by_symbol : ClosePriceNewHighCandidate → ClosePriceNewHighCandidate → Bool
by_symbol a b = not (codes_lt b.symbol a.symbol)

abbrev pub by_breakout : ClosePriceNewHighMember → ClosePriceNewHighMember → Bool
by_breakout a b =
    ltb b.breakout_pct a.breakout_pct
    || (a.breakout_pct == b.breakout_pct && not (codes_lt b.symbol a.symbol))

module _ (breakout : ℤ → ℤ → ℕ) where
  -- The member of an eligible candidate whose close exceeds the high before it.
  abbrev member_of :
      ClosePriceNewHighCandidate
      → Option ℤ
      → Option ℤ
      → Option String
      → Option ClosePriceNewHighMember
  member_of c (some close) (some high) (some name) =
      if not (ltb_ℤ high close)
      then none
      else some (record {
        symbol = c.symbol;
        code = c.code;
        display_name = name;
        close = close;
        previous_119d_high = high;
        breakout_pct = breakout close high;
      })
  member_of c _ _ _ = none

  abbrev add_member :
      Option ClosePriceNewHighMember → List ClosePriceNewHighMember → List ClosePriceNewHighMember
  add_member none members = members
  add_member (some member) members = member ∷ members

  -- The loop: the eligible candidates and the members.
  collect :
      List ClosePriceNewHighCandidate
      → List ClosePriceNewHighCandidate × List ClosePriceNewHighMember
  collect [] = ([], [])
  collect (c ∷ candidates) =
      let (eligible, members) = collect candidates in
      if not (is_eligible c) then (eligible, members) else (
        c ∷ eligible,
        add_member (member_of c c.close c.previous_119d_high c.display_name) members,
      )

  module _ (input_digest : ClosePriceNewHighInput → List ClosePriceNewHighCandidate → String)
      (content_digest : List ClosePriceNewHighMember → String) where
    pub calculate_close_price_new_highs_120d : ClosePriceNewHighInput → ClosePriceNewHighCalculation
    calculate_close_price_new_highs_120d source =
        let ordered = sort_by by_symbol source.candidates in
        let (eligible, members) = collect ordered in
        let sorted_members = sort_by by_breakout members in
        record {
          trade_date = source.trade_date;
          first_trade_date = source.first_trade_date;
          session_count = source.session_count;
          candidates = ordered;
          members = sorted_members;
          candidate_count = length ordered;
          eligible_history_count = length eligible;
          omitted_count = length ordered - length eligible;
          incomplete_history_count = length (keep (λ c. not (c.valid_bar_count == 120)) ordered);
          non_trading_bar_count = length (keep (λ c. c.has_non_trading_bar) ordered);
          nonpositive_price_count = length (keep (λ c. c.has_nonpositive_price) ordered);
          missing_name_count = length (keep (λ c. is_none c.display_name) ordered);
          input_hash = input_digest source ordered;
          content_hash = content_digest sorted_members;
        }
