-- ===== src/BoardIndex/Records.antt =====
-- The records of board indexes and their guards (src/market_data_center/domain/board_index.py).
use data_center.Prelude.{
  ℕ, Bool, not, ◌||◌, Option, none, some, List, [], ◌∷◌, ◌++◌, any, if◌then◌else◌,
}
use data_center.Prelude.Int.{ℤ, pos, ltb_ℤ}
use data_center.Prelude.Codes.{codes_eq, strip}
use data_center.Domain.Records.{Market}

-- The operations of `Decimal`, in the context of the calculation.
pub record DecimalOps (D : Type 0) : Type 0 where
  pub number : ℕ → D
  pub add : D → D → D
  pub subtract : D → D → D
  pub multiply : D → D → D
  pub divide : D → D → D
  pub less : D → D → Bool
  pub round_six_half_up : D → D

pub record BoardIndexDailyBarRecord (D : Type 0) : Type 0 where
  pub board_id : List ℕ
  pub trade_date : ℕ
  pub market : Market
  pub open_price : D
  pub high : D
  pub low : D
  pub close : D
  pub volume : ℤ
  pub amount : D
  pub source_code : List ℕ

pub data BarError : Type 0 where
  blank_identity negative_price negative_volume low_above_high open_outside close_outside : BarError

pub data CheckedBar (D : Type 0) : Type 0 where
  ok : BoardIndexDailyBarRecord D → CheckedBar D
  err : BarError → CheckedBar D

pub data BoardIndexType : Type 0 where
  dynamic_theme : BoardIndexType

pub data BoardIndexStatus : Type 0 where
  active inactive unknown : BoardIndexStatus

pub record BoardIndexRecord : Type 0 where
  pub board_id : List ℕ
  pub board_code : List ℕ
  pub namespace : List ℕ
  pub name : List ℕ
  pub board_type : BoardIndexType
  pub market : Market
  pub status : BoardIndexStatus
  pub source_code : List ℕ

pub record BoardIndexConstituentSnapshotRecord : Type 0 where
  pub board_id : List ℕ
  pub trade_date : ℕ
  pub members : List (List ℕ)
  pub source_code : List ℕ

pub data BoardIndexError : Type 0 where
  unexpected_id blank_name blank_source : BoardIndexError

abbrev is_blank : List ℕ → Bool
is_blank text = codes_eq (strip text) []

-- `BoardIndexRecord.__post_init__`: the error that it raises.
unfoldable pub check_index : BoardIndexRecord → Option BoardIndexError
check_index r =
    if not (codes_eq r.board_id (r.namespace ++ 58 ∷ r.board_code))
    then some unexpected_id
    else if is_blank r.namespace || is_blank r.board_code || is_blank r.name
    then some blank_name
    else if is_blank r.source_code
    then some blank_source
    else none

-- `BoardIndexConstituentSnapshotRecord.__post_init__`: whether it raises.
abbrev pub is_blank_snapshot : BoardIndexConstituentSnapshotRecord → Bool
is_blank_snapshot r = is_blank r.board_id || is_blank r.source_code

module _ {D : Type 0} (ops : DecimalOps D) where
  -- `not low <= value <= high`
  abbrev pub is_outside : D → D → D → Bool
  is_outside low value high = ops.less value low || ops.less high value

  -- `BoardIndexDailyBarRecord.__post_init__`; the type guards are the types here.
  unfoldable pub check_bar : BoardIndexDailyBarRecord D → CheckedBar D
  check_bar r =
      if is_blank r.board_id || is_blank r.source_code
      then err blank_identity
      else if any (λ value. ops.less value (ops.number 0))
          (r.open_price ∷ r.high ∷ r.low ∷ r.close ∷ r.amount ∷ [])
      then err negative_price
      else if ltb_ℤ r.volume (pos 0)
      then err negative_volume
      else if ops.less r.high r.low
      then err low_above_high
      else if is_outside r.low r.open_price r.high
      then err open_outside
      else if is_outside r.low r.close r.high
      then err close_outside
      else ok r
