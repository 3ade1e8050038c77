-- ===== src/Domain/Series/Slots.antt =====
-- The slots of a day leave room for one round after the other.
use data_center.Prelude.{ℕ, suc, ◌+◌, ◌≤◌, ◌<◌, ◌≡◌, some, arith, ◌&&◌, leb, ◌==◌, if◌then◌else◌}
use data_center.Domain.Series.{
  series_slot, series_round_deadline, series_round_count, shanghai, series_pre_close_effective_date,
  series_pre_close_sample_time, standard_series_slot,
}

-- Every round of a day has a deadline after its slot, and its deadline is not after the next slot.
pub series_round_deadline-between :
    (trade_date sample_seq : ℕ)
    → sample_seq < series_round_count
    → (deadline : ℕ) × (series_round_deadline trade_date sample_seq ≡ some deadline)
      × (series_slot trade_date sample_seq < deadline)
      × (deadline ≤ series_slot trade_date (suc sample_seq))
unfolding series_slot series_round_deadline
series_round_deadline-between trade_date sample_seq bound = (
  if leb series_pre_close_effective_date trade_date && sample_seq == 29
      then shanghai trade_date series_pre_close_sample_time
      else standard_series_slot trade_date (sample_seq + 1),
  ground (arith, bound),
  ground (arith, bound),
  ground (arith, bound),
)
