-- ===== src/Domain/Series/Session.antt =====
-- The session of a day's series and its frozen universe (src/market_data_center/domain/
-- call_auction_market_series.py, `universe_hash` and `MarketSeriesSession`). A symbol is the list of
-- its code points.
use data_center.Prelude.{
  ℕ, ◌+◌, ◌*◌, ◌≤◌, ◌≡◌, refl, sym, subst, Bool, true, false, not, ◌&&◌, ◌||◌, Option, none, some,
  List, [], ◌∷◌, length, all, leb, ltb, ◌==◌, is_none, is_some, arith, Option-cases, inl, inr,
  if◌then◌else◌,
}
use data_center.Prelude.Codes.{codes, codes_eq, codes_lt}
use data_center.Prelude.Int.{ℤ, pos, negsuc, pos_part}
use data_center.Domain.Series.{
  is_below_zero, negative_counts, MarketSeriesStatus, running, succeeded, Moment, not_utc_if,
  precedes, too_long, second, Checked, ok, err, series_slot, series_cadence_seconds,
  series_round_count, is_running, SeriesError, wrong_window, wrong_cadence, wrong_expected_rounds,
  not_utc, finished_before_started, wrong_universe_count, invalid_universe, wrong_universe_hash,
  round_counts_exceeded, quote_counts_exceeded, running_is_finished, finished_at_required,
  not_all_succeeded, error_summary_too_long,
}

-- `frozen == tuple(sorted(set(frozen)))`
pub is_ascending : List (List ℕ) → Bool
is_ascending [] = true
is_ascending (x ∷ []) = true
is_ascending (x ∷ y ∷ symbols) = codes_lt x y && is_ascending (y ∷ symbols)

abbrev is_digit : ℕ → Bool
is_digit c = leb 48 c && leb c 57

abbrev is_code : List ℕ → Bool
is_code digits = length digits == 6 && all is_digit digits

-- The text after a prefix.
abbrev pub after : List ℕ → List ℕ → Option (List ℕ)
after [] text = some text
after (c ∷ prefix) [] = none
after (c ∷ prefix) (d ∷ text) = if c == d then after prefix text else none

abbrev is_code_after : Option (List ℕ) → Bool
is_code_after none = false
is_code_after (some digits) = is_code digits

-- `fullmatch(r"(?:SSE|SZSE):[0-9]{6}", symbol)`
unfoldable pub is_symbol : List ℕ → Bool
is_symbol symbol =
    is_code_after (after (codes "SSE:") symbol) || is_code_after (after (codes "SZSE:") symbol)

abbrev is_empty : List (List ℕ) → Bool
is_empty [] = true
is_empty (x ∷ symbols) = false

-- `universe_hash`, with the digest of the canonical text of the symbols as a parameter; `none` is a
-- `ValueError`.
pub universe_hash : (List (List ℕ) → List ℕ) → List (List ℕ) → Option (List ℕ)
universe_hash digest symbols =
    if is_empty symbols || not (is_ascending symbols)
    then none
    else if not (all is_symbol symbols)
    then none
    else some (digest symbols)

pub record MarketSeriesSession : Type 0 where
  pub session_id : ℕ
  pub workflow_run_id : ℕ
  pub trade_date : ℕ
  pub window_start : ℕ
  pub window_end : ℕ
  pub cadence_seconds : ℕ
  pub expected_rounds : ℕ
  pub universe_symbols : List (List ℕ)
  pub universe_count : ℕ
  pub universe_hash_text : List ℕ
  pub status : MarketSeriesStatus
  pub started_at : Moment
  pub finished_at : Option Moment
  pub successful_rounds : ℕ
  pub partial_rounds : ℕ
  pub failed_rounds : ℕ
  pub successful_quotes : ℕ
  pub failed_quotes : ℕ
  pub error_summary : Option (List ℕ)

abbrev is_succeeded : MarketSeriesStatus → Bool
is_succeeded running = false
is_succeeded succeeded = true
is_succeeded _ = false

abbrev pub expected_quotes : MarketSeriesSession → ℕ
expected_quotes s = s.universe_count * s.expected_rounds

-- The guards after the check of the universe: the first that fails.
count_error : MarketSeriesSession → Option SeriesError
count_error s =
    if ltb 32 (s.successful_rounds + s.partial_rounds + s.failed_rounds)
    then some round_counts_exceeded
    else if ltb (expected_quotes s) (s.successful_quotes + s.failed_quotes)
    then some quote_counts_exceeded
    else if is_running s.status && is_some s.finished_at
    then some running_is_finished
    else if not (is_running s.status) && is_none s.finished_at
    then some finished_at_required
    else if is_succeeded s.status
        && (not (s.successful_rounds == s.expected_rounds)
            || not (s.partial_rounds == 0)
            || not (s.failed_rounds == 0)
            || not (s.successful_quotes == expected_quotes s)
            || not (s.failed_quotes == 0))
    then some not_all_succeeded
    else if too_long s.error_summary
    then some error_summary_too_long
    else none

-- The arguments of the constructor: its counts are integers, which a guard bounds from below.
pub record MarketSeriesSessionArguments : Type 0 where
  pub session_id : ℕ
  pub workflow_run_id : ℕ
  pub trade_date : ℕ
  pub window_start : ℕ
  pub window_end : ℕ
  pub cadence_seconds : ℕ
  pub expected_rounds : ℕ
  pub universe_symbols : List (List ℕ)
  pub universe_count : ℕ
  pub universe_hash_text : List ℕ
  pub status : MarketSeriesStatus
  pub started_at : Moment
  pub finished_at : Option Moment
  pub successful_rounds : ℤ
  pub partial_rounds : ℤ
  pub failed_rounds : ℤ
  pub successful_quotes : ℤ
  pub failed_quotes : ℤ
  pub error_summary : Option (List ℕ)

-- The session of arguments that are not negative.
abbrev pub natural_session : MarketSeriesSessionArguments → MarketSeriesSession
natural_session a = record {
  session_id = a.session_id;
  workflow_run_id = a.workflow_run_id;
  trade_date = a.trade_date;
  window_start = a.window_start;
  window_end = a.window_end;
  cadence_seconds = a.cadence_seconds;
  expected_rounds = a.expected_rounds;
  universe_symbols = a.universe_symbols;
  universe_count = a.universe_count;
  universe_hash_text = a.universe_hash_text;
  status = a.status;
  started_at = a.started_at;
  finished_at = a.finished_at;
  successful_rounds = pos_part a.successful_rounds;
  partial_rounds = pos_part a.partial_rounds;
  failed_rounds = pos_part a.failed_rounds;
  successful_quotes = pos_part a.successful_quotes;
  failed_quotes = pos_part a.failed_quotes;
  error_summary = a.error_summary;
}

abbrev has_negative_count : MarketSeriesSessionArguments → Bool
has_negative_count a =
    is_below_zero a.successful_rounds
    || is_below_zero a.partial_rounds
    || is_below_zero a.failed_rounds
    || is_below_zero a.successful_quotes
    || is_below_zero a.failed_quotes

-- What comes after the check of the universe.
abbrev check_counts : MarketSeriesSessionArguments → Checked MarketSeriesSession
check_counts a =
    if has_negative_count a then err negative_counts else elim (count_error (natural_session a)) [
      | some error ↦ err error
      | none ↦ ok (natural_session a)
    ]

-- `MarketSeriesSession.__post_init__`
unfoldable pub check_session :
    (List (List ℕ) → List ℕ) → MarketSeriesSessionArguments → Checked MarketSeriesSession
unfolding universe_hash is_ascending is_symbol count_error
check_session digest s =
    if not (s.window_start == series_slot s.trade_date 0)
      || not (s.window_end == series_slot s.trade_date 31 + series_cadence_seconds * second)
    then err wrong_window
    else if not (s.cadence_seconds == series_cadence_seconds)
    then err wrong_cadence
    else if not (s.expected_rounds == series_round_count)
    then err wrong_expected_rounds
    else if not s.started_at.is_utc
    then err not_utc
    else if not_utc_if s.finished_at
    then err not_utc
    else if precedes s.finished_at s.started_at.instant
    then err finished_before_started
    else if not (s.universe_count == length s.universe_symbols)
    then err wrong_universe_count
    else elim (universe_hash digest s.universe_symbols) [
      | none ↦ err invalid_universe
      | some hash ↦
          if not (codes_eq s.universe_hash_text hash)
          then err wrong_universe_hash
          else check_counts s
    ]

-- The rows of a session stay within its universe, and a success has them all.
abbrev pub IsSound : MarketSeriesSession → Type 0
IsSound s =
    (is_ascending s.universe_symbols ≡ true)
    × (all is_symbol s.universe_symbols ≡ true)
    × (s.successful_quotes + s.failed_quotes ≤ length s.universe_symbols * 32)
    × (s.successful_rounds + s.partial_rounds + s.failed_rounds ≤ 32)
    × (is_succeeded s.status ≡ true
        → (s.successful_rounds ≡ 32) × (s.successful_quotes ≡ length s.universe_symbols * 32))

pos-pos_part : (n : ℤ) → is_below_zero n ≡ false → n ≡ pos (pos_part n)
pos-pos_part (pos n) h = refl
pos-pos_part (negsuc n) h = absurd (ground (arith, h))

universe_hash-some :
    (digest : List (List ℕ) → List ℕ) (symbols : List (List ℕ)) (hash : List ℕ)
    → universe_hash digest symbols ≡ some hash
    → (is_ascending symbols ≡ true) × (all is_symbol symbols ≡ true)
unfolding universe_hash
universe_hash-some digest symbols hash h = (ground (arith, h), ground (arith, h))

-- The counts of a session are those that it was constructed with.
abbrev pub HasCounts : MarketSeriesSessionArguments → MarketSeriesSession → Type 0
HasCounts a s =
    (a.successful_rounds ≡ pos s.successful_rounds)
    × (a.partial_rounds ≡ pos s.partial_rounds)
    × (a.failed_rounds ≡ pos s.failed_rounds)
    × (a.successful_quotes ≡ pos s.successful_quotes)
    × (a.failed_quotes ≡ pos s.failed_quotes)

has_negative_count-none :
    (a : MarketSeriesSessionArguments)
    → has_negative_count a ≡ false
    → HasCounts a (natural_session a)
has_negative_count-none a h = (
  pos-pos_part a.successful_rounds (ground (arith, h)),
  pos-pos_part a.partial_rounds (ground (arith, h)),
  pos-pos_part a.failed_rounds (ground (arith, h)),
  pos-pos_part a.successful_quotes (ground (arith, h)),
  pos-pos_part a.failed_quotes (ground (arith, h)),
)

check_session-guards :
    (digest : List (List ℕ) → List ℕ) (a : MarketSeriesSessionArguments)
    (session : MarketSeriesSession)
    → check_session digest a ≡ ok session
    → (a.expected_rounds ≡ 32)
      × (a.universe_count ≡ length a.universe_symbols)
      × (is_some (universe_hash digest a.universe_symbols) ≡ true)
      × (check_counts a ≡ ok session)
unfolding check_session
check_session-guards digest a session h = ground (arith, h)

check_counts-ok :
    (a : MarketSeriesSessionArguments) (session : MarketSeriesSession)
    → check_counts a ≡ ok session
    → (has_negative_count a ≡ false)
      × (count_error (natural_session a) ≡ none)
      × (natural_session a ≡ session)
check_counts-ok a session h = (ground (arith, h), ground (arith, h), ground (arith, h))

count_error-none :
    (s : MarketSeriesSession) (count : ℕ)
    → count_error s ≡ none
    → s.expected_rounds ≡ 32
    → s.universe_count ≡ count
    → (s.successful_quotes + s.failed_quotes ≤ count * 32)
      × (s.successful_rounds + s.partial_rounds + s.failed_rounds ≤ 32)
      × (is_succeeded s.status ≡ true
          → (s.successful_rounds ≡ 32) × (s.successful_quotes ≡ count * 32))
unfolding count_error
count_error-none s count h rounds universe =
    (ground (arith, h), ground (arith, h), λ q. (ground (arith, h, q), ground (arith, h, q)))

-- A session that passes its guards holds the counts that it was constructed with, which are not
-- negative; it has a universe of different symbols in ascending order, counts no more quotes and rounds
-- than there can be, and a session that succeeded has counted all of them.
pub check_session-IsSound :
    (digest : List (List ℕ) → List ℕ) (a : MarketSeriesSessionArguments)
    (session : MarketSeriesSession)
    → check_session digest a ≡ ok session
    → HasCounts a session × IsSound session
check_session-IsSound digest a session h =
    let (rounds, universe, hashed, checked) = check_session-guards digest a session h in
    let (natural, counts, eq) = check_counts-ok a session checked in
    elim (Option-cases (universe_hash digest a.universe_symbols)) [
      | inl q ↦
          subst (λ (o : Option (List ℕ)). is_some o ≡ true → HasCounts a session × IsSound session)
            (sym q) (λ k. cc) hashed
      | inr (hash, q) ↦
          let (ascending, symbols) = universe_hash-some digest a.universe_symbols hash q in
          let (quotes, total, complete) =
            count_error-none (natural_session a) _ counts rounds universe in
          subst (λ (x : MarketSeriesSession). HasCounts a x × IsSound x) eq
            (has_negative_count-none a natural, (ascending, symbols, quotes, total, complete))
    ]
