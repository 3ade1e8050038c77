-- ===== src/Derived/Refinement.antt =====
-- The capitalisation of each bar, by the capital that is in force on its day.
use data_center.Prelude.{
  ℕ, ◌≤◌, ◌≡◌, refl, ap, ◌∙◌, subst, true, Option, none, List, [], ◌∷◌, leb, All, arith,
}
use data_center.Prelude.Sort.{sort_by, IsSorted}
use data_center.Domain.Records.{DailyBarRecord}
use data_center.Derived.Latest.{by_date, advance, in_force}
use data_center.Derived.InForce.{advance_again, advance-sort_by, by_date-IsSorted}
use data_center.Derived.MarketCaps.{
  ShareCapitalRecord, MarketCapitalizationRecord, Result, done, raised, validated_bars, outcome,
  append_cap, in_period, caps_from, over_bars, calculate_market_capitalizations,
}

abbrev capital_date : ShareCapitalRecord → ℕ
capital_date r = r.effective_date

abbrev bar_date : DailyBarRecord → ℕ
bar_date bar = bar.trade_date

abbrev State : Type 0
State = Option ShareCapitalRecord × List ShareCapitalRecord

abbrev step : ℕ → State → State
step day state = advance capital_date day state.0 state.1

module _ (start_date end_date : ℕ) where
  -- The specification: every bar on its own, with the capital in force on its day.
  abbrev pub caps_in_force :
      List ShareCapitalRecord → List DailyBarRecord → Result (List MarketCapitalizationRecord)
  caps_in_force capital [] = done []
  caps_in_force capital (bar ∷ bars) =
      append_cap
        (outcome (in_period start_date end_date bar) bar bar.close
          (in_force capital_date bar.trade_date capital))
        (caps_in_force capital bars)

  abbrev pub specified :
      List ShareCapitalRecord
      → Result (List DailyBarRecord)
      → Result (List MarketCapitalizationRecord)
  specified capital (raised e) = raised e
  specified capital (done bars) = caps_in_force capital bars

  -- From a day on, the state gives what the start gives.
  abbrev IsAt : List ShareCapitalRecord → ℕ → State → Type 0
  IsAt capital day state =
      (next : ℕ)
      → day ≤ next
      → step next state ≡ step next (none, sort_by (by_date capital_date) capital)

  caps_from-in_force :
      (capital : List ShareCapitalRecord) (day : ℕ) (state : State) (bars : List DailyBarRecord)
      → IsAt capital day state
      → All (λ bar. leb day bar.trade_date ≡ true) bars
      → IsSorted (by_date bar_date) bars
      → caps_from start_date end_date state bars ≡ caps_in_force capital bars
  unfolding caps_from
  caps_from-in_force capital day state [] h k s = refl
  caps_from-in_force capital day state (bar ∷ bars) h (k, ks) (s, ss) =
      let at_bar = h bar.trade_date (ground (arith, k)) in
      ap
        (λ o.
          append_cap (outcome (in_period start_date end_date bar) bar bar.close o)
            (caps_from start_date end_date (step bar.trade_date state) bars))
        (ap (λ t. t.0) at_bar ∙ advance-sort_by capital_date bar.trade_date capital)
      ∙ ap
          (append_cap (
            outcome (in_period start_date end_date bar) bar bar.close
              (in_force capital_date bar.trade_date capital)))
          (caps_from-in_force capital bar.trade_date (step bar.trade_date state) bars
            (λ next l.
              advance_again capital_date bar.trade_date next state.0 state.1 l
              ∙ h next (ground (arith, k, l)))
            s ss)

  from_start : (bars : List DailyBarRecord) → All (λ bar. leb 0 bar.trade_date ≡ true) bars
  from_start [] = tt
  from_start (bar ∷ bars) = (ground arith, from_start bars)

  validated-sorted :
      (bars ordered : List DailyBarRecord)
      → validated_bars bars ≡ done ordered
      → sort_by (by_date bar_date) bars ≡ ordered
  unfolding validated_bars
  validated-sorted bars ordered h = ground (arith, h)

  over_bars-specified :
      (capital : List ShareCapitalRecord) (bars : List DailyBarRecord)
      (r : Result (List DailyBarRecord))
      → validated_bars bars ≡ r
      → over_bars start_date end_date (sort_by (by_date capital_date) capital) r
        ≡ specified capital r
  over_bars-specified capital bars (raised e) h = refl
  over_bars-specified capital bars (done ordered) h =
      caps_from-in_force capital 0 (none, sort_by (by_date capital_date) capital) ordered
        (λ next l. refl) (from_start ordered)
        (subst (IsSorted (by_date bar_date)) (validated-sorted bars ordered h)
          (by_date-IsSorted bar_date bars))

  -- The calculation, which steps once through the capital and the bars in the order of their dates,
  -- gives what the bars give one by one: each with the capital that is in force on its day, whatever
  -- the order in which the capital came; and it raises what they raise.
  pub calculate_market_capitalizations-specified :
      (bars : List DailyBarRecord) (capital : List ShareCapitalRecord)
      → calculate_market_capitalizations start_date end_date bars capital
        ≡ specified capital (validated_bars bars)
  unfolding calculate_market_capitalizations
  calculate_market_capitalizations-specified bars capital =
      over_bars-specified capital bars (validated_bars bars) refl
