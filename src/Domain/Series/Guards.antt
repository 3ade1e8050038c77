-- ===== src/Domain/Series/Guards.antt =====
-- What a round promises once its constructor has accepted it.
use data_center.Prelude.{◌+◌, ◌≤◌, ◌<◌, ◌≡◌, refl, subst, true, false, none, is_some, arith}
use data_center.Prelude.Int.{ℤ, pos, negsuc, pos_part, ltb_ℤ}
use data_center.Domain.Series.{
  MarketSeriesRoundArguments, natural_round, is_below_zero, check_results, MarketSeriesStatus,
  running, succeeded, partial, failed, MarketSeriesRound, ok, check_round, status_error,
  series_slot, series_round_count, local_date, precedes,
}

-- A running round has no results yet; a round that has ended accounts for every quote, with every
-- quote of a success, a selected ingestion unless its slot was missed, and none if it was.
abbrev pub HasResults : MarketSeriesStatus → MarketSeriesRound → Type 0
HasResults running r =
    (r.attempt_count ≡ 0)
    × (r.successful_quotes + r.failed_quotes ≡ 0)
    × (is_some r.selected_ingestion_id ≡ false)
HasResults succeeded r =
    (1 ≤ r.attempt_count)
    × (r.successful_quotes ≡ r.expected_quotes)
    × (r.failed_quotes ≡ 0)
    × (is_some r.selected_ingestion_id ≡ true)
HasResults partial r =
    (1 ≤ r.attempt_count)
    × (r.successful_quotes + r.failed_quotes ≡ r.expected_quotes)
    × (is_some r.selected_ingestion_id ≡ true)
HasResults failed r =
    (r.attempt_count ≡ 0)
    × (r.failed_quotes ≡ r.expected_quotes)
    × (is_some r.selected_ingestion_id ≡ false)

status_error-HasResults :
    (status : MarketSeriesStatus) (r : MarketSeriesRound)
    → status_error status r ≡ none
    → HasResults status r
unfolding status_error
status_error-HasResults running r h = (ground (arith, h), ground (arith, h), ground (arith, h))
status_error-HasResults succeeded r h =
    (ground (arith, h), ground (arith, h), ground (arith, h), ground (arith, h))
status_error-HasResults partial r h = (ground (arith, h), ground (arith, h), ground (arith, h))
status_error-HasResults failed r h = (ground (arith, h), ground (arith, h), ground (arith, h))

pos-pos_part : (n : ℤ) → is_below_zero n ≡ false → n ≡ pos (pos_part n)
pos-pos_part (pos n) h = refl
pos-pos_part (negsuc n) h = absurd (ground (arith, h))

-- The counts of a round are those that it was constructed with.
abbrev pub HasCounts : MarketSeriesRoundArguments → MarketSeriesRound → Type 0
HasCounts a r =
    (a.sample_seq ≡ pos r.sample_seq)
    × (a.attempt_count ≡ pos r.attempt_count)
    × (a.expected_quotes ≡ pos r.expected_quotes)
    × (a.successful_quotes ≡ pos r.successful_quotes)
    × (a.failed_quotes ≡ pos r.failed_quotes)

-- What a round promises.
abbrev pub IsRound : MarketSeriesRoundArguments → MarketSeriesRound → Type 0
IsRound a r =
    HasCounts a r
    × (r.sample_seq < series_round_count)
    × (r.scheduled_at.instant ≡ series_slot (local_date r.scheduled_at.instant) r.sample_seq)
    × (precedes r.collected_at r.scheduled_at.instant ≡ false)
    × (r.attempt_count ≤ 2)
    × (1 ≤ r.expected_quotes)
    × HasResults r.status r

check_round-guards :
    (a : MarketSeriesRoundArguments) (round : MarketSeriesRound)
    → check_round a ≡ ok round
    → (is_below_zero a.sample_seq ≡ false)
      × (ltb_ℤ a.sample_seq (pos series_round_count) ≡ true)
      × (a.scheduled_at.instant
          ≡ series_slot (local_date a.scheduled_at.instant) (pos_part a.sample_seq))
      × (precedes a.collected_at a.scheduled_at.instant ≡ false)
      × (is_below_zero a.attempt_count ≡ false)
      × (ltb_ℤ (pos 2) a.attempt_count ≡ false)
      × (ltb_ℤ (pos 0) a.expected_quotes ≡ true)
      × (is_below_zero a.successful_quotes ≡ false)
      × (is_below_zero a.failed_quotes ≡ false)
      × (check_results (natural_round a) ≡ ok round)
unfolding check_round
check_round-guards a round h = ground (arith, h)

check_results-ok :
    (r round : MarketSeriesRound)
    → check_results r ≡ ok round
    → (status_error r.status r ≡ none) × (r ≡ round)
check_results-ok r round h = ground (arith, h)

positive_part : (n : ℤ) → ltb_ℤ (pos 0) n ≡ true → (n ≡ pos (pos_part n)) × (1 ≤ pos_part n)
positive_part (pos n) h = (refl, ground (arith, h))
positive_part (negsuc n) h = absurd (ground (arith, h))

-- A round that passes its guards holds the counts that it was constructed with, which are not negative;
-- it is one of the 32 of its day, scheduled at its slot, was collected no earlier, took at most two
-- attempts, expects a quote or more, and has the results that its status says.
pub check_round-HasResults :
    (a : MarketSeriesRoundArguments) (round : MarketSeriesRound)
    → check_round a ≡ ok round
    → IsRound a round
check_round-HasResults a round h =
    let (seq, below, slot, later, attempts, few, expected, successes, failures, checked) =
      check_round-guards a round h in
    let (results, eq) = check_results-ok (natural_round a) round checked in
    let (quotes, some_quote) = positive_part a.expected_quotes expected in
    subst (IsRound a) eq (
      (
        pos-pos_part a.sample_seq seq,
        pos-pos_part a.attempt_count attempts,
        quotes,
        pos-pos_part a.successful_quotes successes,
        pos-pos_part a.failed_quotes failures,
      ),
      ground (arith, seq, below),
      slot,
      later,
      ground (arith, attempts, few),
      some_quote,
      status_error-HasResults a.status (natural_round a) results,
    )
