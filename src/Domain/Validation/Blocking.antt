-- ===== src/Domain/Validation/Blocking.antt =====
-- Which bars the validation keeps from being written.
use text.Mathlib.TextEquality.{eq_iff}
use Prim.Native.String.{String}
use data_center.Prelude.{
  ℕ, ◌≡◌, refl, ap, ◌∙◌, Bool, true, false, ◌&&◌, ◌||◌, List, [], ◌∷◌, map, any, has_duplicates,
  arith, Bool-cases, inl, inr, if◌then◌else◌,
}
use data_center.Domain.Records.{DailyBarRecord}
use data_center.Domain.Ingestion.{error, warning}
use data_center.Domain.Validation.{
  ValidationFinding, blocks_core_write, Key, key_of, key_eq, is_unknown_symbol, is_unknown_date,
  validate_from, validate_daily_bars, append_if, is_unknown, is_suspended, has_volume, finding,
  unknown_security, non_trading_date, duplicate_natural_key, unknown_trade_status,
  suspended_with_volume,
}

abbrev is_blocked : List ValidationFinding → Bool
is_blocked findings = any blocks_core_write findings

-- Of the five findings of a bar the first three block.
append_if-is_blocked :
    (r : DailyBarRecord) (a b c d e : Bool) (rest : List ValidationFinding)
    → is_blocked (
        append_if a (finding r unknown_security error) (
          append_if b (finding r non_trading_date error) (
            append_if c (finding r duplicate_natural_key error) (
              append_if d
                (finding r unknown_trade_status warning)
                (append_if e (finding r suspended_with_volume warning) rest)))))
      ≡ ((a || b || c) || is_blocked rest)
unfolding blocks_core_write
append_if-is_blocked r true b c d e rest = refl
append_if-is_blocked r false true c d e rest = refl
append_if-is_blocked r false false true d e rest = refl
append_if-is_blocked r false false false true true rest = refl
append_if-is_blocked r false false false true false rest = refl
append_if-is_blocked r false false false false true rest = refl
append_if-is_blocked r false false false false false rest = refl

or_true : (a b c d : Bool) → (a || true || b) ≡ (a || true || c || d)
or_true true b c d = refl
or_true false b c d = refl

or_regroup : (u a b d : Bool) → (u || (a || b || d)) ≡ (u || a || (b || d))
or_regroup true a b d = refl
or_regroup false true b d = refl
or_regroup false false b d = refl

key_eq_sym : (a b : Key) → key_eq a b ≡ key_eq b a
unfolding key_eq
key_eq_sym a b = ground (arith, eq_iff a.0 b.0, eq_iff b.0 a.0)

any-or_false :
    (bad : DailyBarRecord → Bool) (records : List DailyBarRecord)
    → any (λ r. bad r || false) records ≡ any bad records
any-or_false bad [] = refl
any-or_false bad (r ∷ records) = ground (arith, any-or_false bad records)

module _ (bad : DailyBarRecord → Bool) where
  any-seen :
      (k : Key) (seen : List Key) (records : List DailyBarRecord)
      → any (λ r. bad r || (key_eq (key_of r) k || any (key_eq (key_of r)) seen)) records ≡ (
          any (λ r. bad r || any (key_eq (key_of r)) seen) records
          || any (key_eq k) (map key_of records))
  any-seen k seen [] = refl
  any-seen k seen (r ∷ records) = ground (arith, any-seen k seen records, key_eq_sym (key_of r) k)

module _ (known_symbols : List String) (known_trading_dates : List ℕ) where
  abbrev pub is_unknown_bar : DailyBarRecord → Bool
  is_unknown_bar r =
      is_unknown_symbol known_symbols known_trading_dates r
      || is_unknown_date known_symbols known_trading_dates r

  validate_from-cons :
      (seen : List Key) (r : DailyBarRecord) (records : List DailyBarRecord)
      → is_blocked (validate_from known_symbols known_trading_dates seen (r ∷ records)) ≡ (
          is_unknown_bar r
          || any (key_eq (key_of r)) seen
          || is_blocked (
              validate_from known_symbols known_trading_dates
                (if any (key_eq (key_of r)) seen then seen else key_of r ∷ seen)
                records))
  unfolding validate_from
  validate_from-cons seen r records =
      append_if-is_blocked r (is_unknown_symbol known_symbols known_trading_dates r)
        (is_unknown_date known_symbols known_trading_dates r) (any (key_eq (key_of r)) seen)
        (is_unknown r.trade_status) (is_suspended r.trade_status && has_volume r.volume)
        (validate_from known_symbols known_trading_dates
          (if any (key_eq (key_of r)) seen then seen else key_of r ∷ seen) records)

  validate_from-is_blocked :
      (seen : List Key) (records : List DailyBarRecord)
      → is_blocked (validate_from known_symbols known_trading_dates seen records) ≡ (
          any (λ r. is_unknown_bar r || any (key_eq (key_of r)) seen) records
          || has_duplicates key_eq (map key_of records))
  unfolding validate_from
  validate_from-is_blocked seen [] = refl
  validate_from-is_blocked seen (r ∷ records) =
      let k = key_of r in
      elim (Bool-cases (any (key_eq (key_of r)) seen)) [
        | inl q ↦ validate_from-cons seen r records ∙ rw q (or_true (is_unknown_bar r) _ _ _)
        | inr q ↦
            validate_from-cons seen r records
            ∙ rw q (
                ap (λ b. is_unknown_bar r || false || b)
                  (validate_from-is_blocked (k ∷ seen) records
                    ∙ ap (λ b. b || has_duplicates key_eq (map key_of records))
                        (any-seen is_unknown_bar k seen records))
                ∙ or_regroup (is_unknown_bar r || false) _ _ _)
      ]

  -- The validation blocks the write exactly if a bar is of an unknown security or of no trading day,
  -- or if two bars have one natural key.
  pub validate_daily_bars-blocks :
      (records : List DailyBarRecord)
      → any blocks_core_write (validate_daily_bars known_symbols known_trading_dates records)
        ≡ (any is_unknown_bar records || has_duplicates key_eq (map key_of records))
  unfolding validate_daily_bars
  validate_daily_bars-blocks records =
      validate_from-is_blocked [] records
      ∙ ap (λ b. b || has_duplicates key_eq (map key_of records))
          (any-or_false is_unknown_bar records)
