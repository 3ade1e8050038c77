-- ===== src/StockPools/Snapshot.antt =====
-- The snapshot of a pool that a calculation is published as, with the guards of its constructor
-- (src/market_data_center/domain/stock_pool.py), and how the service makes it
-- (src/market_data_center/stock_pool_service.py). The digest of a list of symbols is a parameter.
use Prim.Native.String.{String}
use data_center.Prelude.{
  ℕ, Bool, not, ◌&&◌, ◌||◌, List, map, length, all, keep, leb, ◌==◌, if◌then◌else◌,
}
use data_center.Prelude.Int.{ℤ, pos, ltb_ℤ}
use data_center.Prelude.Text.{text_eq}
use data_center.Prelude.Codes.{codes_lt}
use data_center.Prelude.Sort.{sort_by}
use data_center.StockPools.Rules.{
  StockPoolMember, Result, done, raised, invalid_version, negative_count, counts_exceed,
  invalid_digest, price_limit_rule_version, price_limit_algorithm_version,
}
use data_center.StockPools.Calculate.{StockPoolCalculationOutput}

pub data StockPoolSnapshotStatus : Type 0 where
  ready failed : StockPoolSnapshotStatus

pub record StockPoolSnapshot : Type 0 where
  pub snapshot_id : ℕ
  pub calculation_id : ℕ
  pub pool_code : String
  pub basis_trade_date : ℕ
  pub effective_trade_date : ℕ
  pub version : ℤ
  pub status : StockPoolSnapshotStatus
  pub member_count : ℤ
  pub candidate_count : ℤ
  pub rejected_count : ℤ
  pub content_hash : List ℕ
  pub input_hash : List ℕ
  pub rule_version : String
  pub algorithm_version : String
  pub generated_at : ℕ

-- `character in "0123456789abcdef"`
abbrev is_hex_digit : ℕ → Bool
is_hex_digit c = (leb 48 c && leb c 57) || (leb 97 c && leb c 102)

abbrev pub is_digest : List ℕ → Bool
is_digest digest = length digest == 64 && all is_hex_digit digest

-- `StockPoolSnapshot.__post_init__`
unfoldable pub check_snapshot : StockPoolSnapshot → Result StockPoolSnapshot
check_snapshot s =
    if leb s.effective_trade_date s.basis_trade_date || ltb_ℤ s.version (pos 1)
    then raised invalid_version
    else if ltb_ℤ s.member_count (pos 0)
        || ltb_ℤ s.candidate_count (pos 0)
        || ltb_ℤ s.rejected_count (pos 0)
    then raised negative_count
    else if ltb_ℤ s.candidate_count s.member_count || ltb_ℤ s.candidate_count s.rejected_count
    then raised counts_exceed
    else if not (is_digest s.content_hash) || not (is_digest s.input_hash)
    then raised invalid_digest
    else done s

-- The members of a pool.
abbrev pub in_pool : String → List StockPoolMember → List StockPoolMember
in_pool pool_code members = keep (λ m. text_eq m.pool_code pool_code) members

abbrev member_le : StockPoolMember → StockPoolMember → Bool
member_le a b = not (codes_lt b.symbol a.symbol)

module _ (digest : List (List ℕ) → List ℕ) where
  unfoldable pub stock_pool_content_hash : String → List StockPoolMember → List ℕ
  stock_pool_content_hash pool_code members =
      digest (map (λ m. m.symbol) (in_pool pool_code (sort_by member_le members)))

  -- A snapshot of the service's `build`: the identifiers, the next version and the time are what the
  -- database and the clock give, and the digest of the input is a text.
  abbrev pub snapshot_record :
      (snapshot_id calculation_id : ℕ) (version : ℤ) (generated_at : ℕ) (input_hash : List ℕ)
      → String
      → StockPoolCalculationOutput
      → StockPoolSnapshot
  snapshot_record snapshot_id calculation_id version generated_at input_hash pool_code output =
      record {
        snapshot_id = snapshot_id;
        calculation_id = calculation_id;
        pool_code = pool_code;
        basis_trade_date = output.basis_trade_date;
        effective_trade_date = output.effective_trade_date;
        version = version;
        status = ready;
        member_count = pos (length (in_pool pool_code output.members));
        candidate_count = pos output.candidate_count;
        rejected_count = pos output.rejected_count;
        content_hash = stock_pool_content_hash pool_code output.members;
        input_hash = input_hash;
        rule_version = price_limit_rule_version;
        algorithm_version = price_limit_algorithm_version;
        generated_at = generated_at;
      }

  unfoldable pub snapshot_of :
      (snapshot_id calculation_id : ℕ) (version : ℤ) (generated_at : ℕ) (input_hash : List ℕ)
      → String
      → StockPoolCalculationOutput
      → Result StockPoolSnapshot
  unfolding check_snapshot stock_pool_content_hash
  snapshot_of snapshot_id calculation_id version generated_at input_hash pool_code output =
      check_snapshot (
        snapshot_record snapshot_id calculation_id version generated_at input_hash pool_code output)
