-- ===== src/Derived/Latest.antt =====
-- The loops of src/market_data_center/calculators.py that step through dated records: an index that
-- only moves on, and the last record that it passed. The records from the index on are a list.
use data_center.Prelude.{ℕ, Bool, Option, none, some, List, [], ◌∷◌, ltb, leb, if◌then◌else◌}

module _ {A : Type 0} (date_of : A → ℕ) where
  -- `sorted(records, key=lambda record: date_of(record))`
  abbrev pub by_date : A → A → Bool
  by_date a b = leb (date_of a) (date_of b)

  -- The `while` loop before a bar of this date.
  unfoldable pub advance : ℕ → Option A → List A → Option A × List A
  advance day current [] = (current, [])
  advance day current (r ∷ records) =
      let rest = advance day (some r) records in
      if leb (date_of r) day then rest else (current, r ∷ records)

  -- The record in force on a day, of records in any order: the latest that is not after it, and of those
  -- of one date the last.
  abbrev pub later : A → Option A → Option A
  later r none = some r
  later r (some s) = if ltb (date_of s) (date_of r) then some r else some s

  unfoldable pub in_force : ℕ → List A → Option A
  in_force day [] = none
  in_force day (r ∷ records) =
      let rest = in_force day records in if leb (date_of r) day then later r rest else rest
