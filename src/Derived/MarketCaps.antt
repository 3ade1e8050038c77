-- ===== src/Derived/MarketCaps.antt =====
-- Market capitalisations (src/market_data_center/calculators.py, domain/derived.py, and the share
-- capital of domain/records.py). A capitalisation is an integer of the unit of the prices.
use Prim.Native.String.{String}
use data_center.Prelude.{
  ℕ, ◌+◌, ◌*◌, Bool, true, false, not, ◌&&◌, ◌||◌, Option, none, some, List, [], ◌∷◌, map, any,
  has_duplicates, leb, ◌==◌, if◌then◌else◌,
}
use data_center.Prelude.Int.{ℤ, pos, pos_part, neg_part, sub_ℕ, ltb_ℤ}
use data_center.Prelude.Text.{text_eq}
use data_center.Prelude.Sort.{sort_by}
use data_center.Domain.Records.{DailyBarRecord, is_negative}
use data_center.Derived.Latest.{by_date, advance}

pub record ShareCapitalRecord : Type 0 where
  pub symbol : String
  pub effective_date : ℕ
  pub total_shares : ℤ
  pub restricted_shares : Option ℤ
  pub circulating_shares : Option ℤ
  pub listed_a_shares : Option ℤ
  pub change_reason : Option String
  pub source_code : String

pub data CalculationError : Type 0 where
  several_symbols duplicate_dates negative_total negative_circulating : CalculationError
  total_not_positive negative_shares component_exceeds_total : CalculationError

pub data Result (A : Type 0) : Type 0 where
  done : A → Result A
  raised : CalculationError → Result A

abbrev exceeds_shares : ℤ → Option ℤ → Bool
exceeds_shares total none = false
exceeds_shares total (some shares) = ltb_ℤ total shares

-- `ShareCapitalRecord.__post_init__`
unfoldable pub check_capital : ShareCapitalRecord → Result ShareCapitalRecord
check_capital r =
    if not (ltb_ℤ (pos 0) r.total_shares)
    then raised total_not_positive
    else if is_negative r.restricted_shares
        || is_negative r.circulating_shares
        || is_negative r.listed_a_shares
    then raised negative_shares
    else if exceeds_shares r.total_shares r.restricted_shares
        || exceeds_shares r.total_shares r.circulating_shares
        || exceeds_shares r.total_shares r.listed_a_shares
    then raised component_exceeds_total
    else done r

pub record MarketCapitalizationRecord : Type 0 where
  pub symbol : String
  pub trade_date : ℕ
  pub total_market_cap : ℤ
  pub circulating_market_cap : Option ℤ

-- `MarketCapitalizationRecord.__post_init__`
unfoldable pub check_cap : MarketCapitalizationRecord → Result MarketCapitalizationRecord
check_cap r =
    if ltb_ℤ r.total_market_cap (pos 0)
    then raised negative_total
    else if is_negative r.circulating_market_cap
    then raised negative_circulating
    else done r

infixl 70 ◌*ℤ◌
unfoldable pub ◌*ℤ◌ : ℤ → ℤ → ℤ
a *ℤ b =
    sub_ℕ (pos_part a * pos_part b + neg_part a * neg_part b)
      (pos_part a * neg_part b + neg_part a * pos_part b)

-- `len({item.symbol for item in ordered}) > 1`
abbrev has_several : List String → Bool
has_several [] = false
has_several (s ∷ symbols) = any (λ t. not (text_eq s t)) symbols

unfoldable pub validated_bars : List DailyBarRecord → Result (List DailyBarRecord)
validated_bars bars =
    let ordered = sort_by (by_date (λ bar. bar.trade_date)) bars in
    if has_several (map (λ bar. bar.symbol) ordered)
    then raised several_symbols
    else if has_duplicates (λ a b. a == b) (map (λ bar. bar.trade_date) ordered)
    then raised duplicate_dates
    else done ordered

abbrev first_some : Option ℤ → Option ℤ → Option ℤ
first_some none b = b
first_some (some a) b = some a

abbrev scaled : ℤ → Option ℤ → Option ℤ
scaled close none = none
scaled close (some shares) = some (close *ℤ shares)

abbrev pub capitalization : DailyBarRecord → ℤ → ShareCapitalRecord → MarketCapitalizationRecord
capitalization bar close capital = record {
  symbol = bar.symbol;
  trade_date = bar.trade_date;
  total_market_cap = close *ℤ capital.total_shares;
  circulating_market_cap =
      scaled close (first_some capital.listed_a_shares capital.circulating_shares);
}

-- The records of a bar for the capital that is current: none, one, or an error.
abbrev pub outcome :
    Bool → DailyBarRecord → Option ℤ → Option ShareCapitalRecord → Option MarketCapitalizationRecord
outcome true bar (some close) (some capital) = some (capitalization bar close capital)
outcome _ bar _ _ = none

abbrev prepend :
    Result MarketCapitalizationRecord
    → Result (List MarketCapitalizationRecord)
    → Result (List MarketCapitalizationRecord)
prepend (raised e) rest = raised e
prepend (done r) (raised e) = raised e
prepend (done r) (done records) = done (r ∷ records)

abbrev pub append_cap :
    Option MarketCapitalizationRecord
    → Result (List MarketCapitalizationRecord)
    → Result (List MarketCapitalizationRecord)
append_cap none rest = rest
append_cap (some r) rest = prepend (check_cap r) rest

module _ (start_date end_date : ℕ) where
  abbrev pub in_period : DailyBarRecord → Bool
  in_period bar = leb start_date bar.trade_date && leb bar.trade_date end_date

  -- The loop over the bars: the capital that is current, and the capital from the index on.
  unfoldable pub caps_from :
      Option ShareCapitalRecord × List ShareCapitalRecord
      → List DailyBarRecord
      → Result (List MarketCapitalizationRecord)
  unfolding advance check_cap
  caps_from capital [] = done []
  caps_from (current, rest) (bar ∷ bars) =
      let stepped = advance (λ r. r.effective_date) bar.trade_date current rest in
      append_cap (outcome (in_period bar) bar bar.close stepped.0) (caps_from stepped bars)

  abbrev pub over_bars :
      List ShareCapitalRecord
      → Result (List DailyBarRecord)
      → Result (List MarketCapitalizationRecord)
  over_bars capital (raised e) = raised e
  over_bars capital (done bars) = caps_from (none, capital) bars

  unfoldable pub calculate_market_capitalizations :
      List DailyBarRecord → List ShareCapitalRecord → Result (List MarketCapitalizationRecord)
  unfolding caps_from validated_bars
  calculate_market_capitalizations bars capital =
      over_bars (sort_by (by_date (λ r. r.effective_date)) capital) (validated_bars bars)
