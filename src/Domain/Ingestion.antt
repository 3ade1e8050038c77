-- ===== src/Domain/Ingestion.antt =====
-- Ingestion runs, manifests of raw files and quality results
-- (src/market_data_center/domain/ingestion.py). The guards of `__post_init__` are functions that give
-- back the record or the `ValueError`. An instant and a UUID are numbers; a text that the guards look
-- into is the list of its code points; a row count is an integer.
pub mod Guards
mod Tests
use Prim.Native.String.{String}
use data_center.Prelude.{
  ℕ, Bool, true, false, not, ◌&&◌, ◌||◌, Option, none, some, List, [], ◌∷◌, length, any, all, leb,
  ltb, ◌==◌, is_none, is_some, if◌then◌else◌,
}
use data_center.Prelude.Codes.{codes, codes_eq, strip}
use data_center.Prelude.Int.{ℤ, pos, ltb_ℤ, ◌+ℤ◌}

pub data ProviderCode : Type 0 where
  baostock akshare akshare_ths pytdx tushare pytdx_hq pysnowball eastmoney : ProviderCode
  tencent_quote sse_official szse_official : ProviderCode

pub data DatasetCode : Type 0 where
  security trading_calendar daily_bar capital classification_catalog : DatasetCode
  classification_members board_index board_index_daily_bar : DatasetCode
  board_index_constituent_snapshot stock_daily_indicator stock_technical_factor : DatasetCode
  deducted_profit shareholder_count top10_float_holder board_moneyflow : DatasetCode
  five_level_quote eod_quote_snapshot call_auction_snapshot : DatasetCode
  call_auction_market_snapshot call_auction_market_series : DatasetCode
  call_auction_indicative_detail today_limit_up_source today_limit_down_source : DatasetCode
  convertible_bond convertible_bond_daily_bar trading_billboard dragon_tiger : DatasetCode
  regulation_event regulation_st_snapshot : DatasetCode

pub data IngestionStatus : Type 0 where
  pending running succeeded failed partial : IngestionStatus

pub data RawFileFormat : Type 0 where
  parquet jsonl : RawFileFormat

pub data QualitySeverity : Type 0 where
  info warning error : QualitySeverity

pub data QualityStatus : Type 0 where
  passed failed : QualityStatus

-- A value of the request parameters: the code compares only text and integers.
pub data Param : Type 0 where
  text : String → Param
  number : ℕ → Param
  other : Param

pub record IngestionRun : Type 0 where
  pub ingestion_id : ℕ
  pub provider_code : ProviderCode
  pub dataset_code : DatasetCode
  pub status : IngestionStatus
  pub requested_at : ℕ
  pub started_at : Option ℕ
  pub finished_at : Option ℕ
  pub request_params : List (String × Param)
  pub fetched_rows : ℤ
  pub accepted_rows : ℤ
  pub rejected_rows : ℤ
  pub error_summary : Option String
  pub replayed_from_raw_id : Option ℕ

pub data RunError : Type 0 where
  negative_rows too_many_rows finished_at_required started_at_required : RunError
  started_before_requested finished_before_started : RunError

pub data Checked (E A : Type 0) : Type 0 where
  ok : A → Checked E A
  err : E → Checked E A

-- `status in TERMINAL_INGESTION_STATUSES`
abbrev pub is_terminal : IngestionStatus → Bool
is_terminal succeeded = true
is_terminal failed = true
is_terminal partial = true
is_terminal pending = false
is_terminal running = false

-- `x is not None and y is not None and x < y`
abbrev precedes : Option ℕ → Option ℕ → Bool
precedes (some x) (some y) = ltb x y
precedes _ _ = false

abbrev negative_counts : IngestionRun → Bool
negative_counts r =
    ltb_ℤ r.fetched_rows (pos 0) || ltb_ℤ r.accepted_rows (pos 0) || ltb_ℤ r.rejected_rows (pos 0)

-- `IngestionRun.__post_init__`
pub check_run : IngestionRun → Checked RunError IngestionRun
check_run r =
    if negative_counts r
    then err negative_rows
    else if ltb_ℤ r.fetched_rows (r.accepted_rows +ℤ r.rejected_rows)
    then err too_many_rows
    else if is_terminal r.status && is_none r.finished_at
    then err finished_at_required
    else if is_some r.finished_at && is_none r.started_at
    then err started_at_required
    else if precedes r.started_at (some r.requested_at)
    then err started_before_requested
    else if precedes r.finished_at r.started_at
    then err finished_before_started
    else ok r

pub record RawManifest : Type 0 where
  pub raw_id : ℕ
  pub ingestion_id : ℕ
  pub object_path : List ℕ
  pub file_format : RawFileFormat
  pub content_sha256 : List ℕ
  pub byte_size : ℤ
  pub row_count : ℤ
  pub schema_version : List ℕ
  pub storage_backend : List ℕ

pub data ManifestError : Type 0 where
  backend_not_local unsafe_path invalid_digest negative_size blank_schema_version : ManifestError

-- A path that begins with a slash (47).
pub is_absolute : List ℕ → Bool
is_absolute [] = false
is_absolute (c ∷ cs) = c == 47

abbrev prefix_first : ℕ → List (List ℕ) → List (List ℕ)
prefix_first c [] = (c ∷ []) ∷ []
prefix_first c (part ∷ parts) = (c ∷ part) ∷ parts

-- The text between the slashes.
split_path : List ℕ → List (List ℕ)
split_path [] = [] ∷ []
split_path (c ∷ cs) = let rest = split_path cs in if c == 47 then [] ∷ rest else prefix_first c rest

-- Every part but the empty one and the single dot, which `PurePosixPath` drops.
is_part : List ℕ → Bool
is_part part = not (codes_eq part []) && not (codes_eq part (46 ∷ []))

abbrev pub is_parent : List ℕ → Bool
is_parent part = codes_eq part (46 ∷ 46 ∷ [])

keep_parts : List (List ℕ) → List (List ℕ)
keep_parts [] = []
keep_parts (part ∷ pieces) =
    let rest = keep_parts pieces in if is_part part then part ∷ rest else rest

-- `PurePosixPath(path).parts`, without the root of an absolute path.
pub parts : List ℕ → List (List ℕ)
parts path = keep_parts (split_path path)

-- `[0-9a-f]`
abbrev is_hex : ℕ → Bool
is_hex c = (leb 48 c && leb c 57) || (leb 97 c && leb c 102)

abbrev is_blank : List ℕ → Bool
is_blank cs = codes_eq (strip cs) []

-- `RawManifest.__post_init__`
pub check_manifest : RawManifest → Checked ManifestError RawManifest
check_manifest m =
    if not (codes_eq m.storage_backend (codes "local"))
    then err backend_not_local
    else if is_absolute m.object_path || any is_parent (parts m.object_path)
    then err unsafe_path
    else if not (length m.content_sha256 == 64 && all is_hex m.content_sha256)
    then err invalid_digest
    else if ltb_ℤ m.byte_size (pos 0) || ltb_ℤ m.row_count (pos 0)
    then err negative_size
    else if is_blank m.schema_version
    then err blank_schema_version
    else ok m

pub record QualityResult : Type 0 where
  pub quality_result_id : ℕ
  pub ingestion_id : ℕ
  pub dataset_code : DatasetCode
  pub rule_code : List ℕ
  pub severity : QualitySeverity
  pub status : QualityStatus
  pub message : List ℕ

pub data QualityError : Type 0 where
  blank_rule_code blank_message : QualityError

-- `QualityResult.__post_init__`
pub check_quality : QualityResult → Checked QualityError QualityResult
check_quality q =
    if is_blank q.rule_code
    then err blank_rule_code
    else if is_blank q.message
    then err blank_message
    else ok q

abbrev is_error : QualitySeverity → Bool
is_error info = false
is_error warning = false
is_error error = true

abbrev is_failed : QualityStatus → Bool
is_failed passed = false
is_failed failed = true

-- `QualityResult.blocks_core_write`
pub blocks_core_write : QualityResult → Bool
blocks_core_write q = is_error q.severity && is_failed q.status
