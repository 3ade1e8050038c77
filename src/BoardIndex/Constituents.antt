-- ===== src/BoardIndex/Constituents.antt =====
-- The validation of a snapshot of the constituents of a board index (src/market_data_center/domain/
-- board_index.py). A symbol is the list of its code points.
use Prim.Native.String.{String}
use data_center.Prelude.{
  ℕ, Bool, true, false, not, Option, none, some, List, [], ◌∷◌, ◌++◌, length, any, keep, ltb, ◌==◌,
}
use data_center.Prelude.Codes.{codes_eq, codes_lt}
use data_center.Prelude.Sort.{sort_by}
use data_center.BoardIndex.Records.{BoardIndexConstituentSnapshotRecord}
use data_center.BoardIndex.Validation.{BoardIndexFinding}

-- The keys of a dictionary that is filled in order, and the members of a set.
abbrev pub distinct_symbols : List (List ℕ) → List (List ℕ)
distinct_symbols [] = []
distinct_symbols (x ∷ xs) = x ∷ keep (λ y. not (codes_eq x y)) (distinct_symbols xs)

-- `Counter(members)[symbol]`
abbrev pub count_of : List ℕ → List (List ℕ) → ℕ
count_of symbol members = length (keep (codes_eq symbol) members)

abbrev pub by_code : List ℕ → List ℕ → Bool
by_code a b = not (codes_lt b a)

abbrev pub is_empty : {A : Type 0} → List A → Bool
is_empty [] = true
is_empty (x ∷ xs) = false

abbrev pub repeated_symbols : List (List ℕ) → List (List ℕ)
repeated_symbols members =
    sort_by by_code (keep (λ s. ltb 1 (count_of s members)) (distinct_symbols members))

abbrev pub unknown_symbols : List (List ℕ) → List (List ℕ) → List (List ℕ)
unknown_symbols known members =
    sort_by by_code (keep (λ s. not (any (codes_eq s) known)) (distinct_symbols members))

abbrev pub finding_if : Bool → BoardIndexFinding → List BoardIndexFinding
finding_if true finding = finding ∷ []
finding_if false finding = []

abbrev pub constituent_finding :
    BoardIndexConstituentSnapshotRecord
    → String
    → String
    → Option (List (List ℕ))
    → BoardIndexFinding
constituent_finding r rule_code message symbols = record {
  rule_code = rule_code;
  message = message;
  board_id = r.board_id;
  trade_date = r.trade_date;
  symbols = symbols;
}

unfoldable pub validate_board_index_constituent_snapshot :
    List (List ℕ)
    → List (List ℕ)
    → List ℕ
    → BoardIndexConstituentSnapshotRecord
    → List BoardIndexFinding
validate_board_index_constituent_snapshot known_board_ids known_symbols known_trading_dates r =
    finding_if (not (any (codes_eq r.board_id) known_board_ids)) (
      constituent_finding r "board_index_constituent.unknown_board"
        "constituent snapshot references an unknown BoardIndex" none)
    ++ finding_if (not (any (λ day. r.trade_date == day) known_trading_dates)) (
        constituent_finding r "board_index_constituent.non_trading_date"
          "constituent snapshot date is not a known trading day" none)
    ++ finding_if (not (is_empty (repeated_symbols r.members))) (
        constituent_finding r "board_index_constituent.duplicate_member"
          "constituent snapshot contains duplicate Security symbols"
          (some (repeated_symbols r.members)))
    ++ finding_if (not (is_empty (unknown_symbols known_symbols r.members))) (
        constituent_finding r "board_index_constituent.unknown_security"
          "constituent snapshot references unknown Security symbols"
          (some (unknown_symbols known_symbols r.members)))
