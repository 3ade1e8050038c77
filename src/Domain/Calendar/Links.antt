-- ===== src/Domain/Calendar/Links.antt =====
-- Each day's links lead to the nearest trading days before and after it.
use data_center.Prelude.{
  ℕ, ◌≤◌, ◌<◌, ◌≡◌, refl, ◌⊎◌, inl, Bool, true, false, ◌&&◌, Option, none, some, List, [], ◌∷◌, any,
  All, ◌==◌, if◌then◌else◌, arith,
}
use data_center.Domain.Records.{TradingDayRecord}
use data_center.Domain.Calendar.{forward_links, backward_links}

abbrev pub trades_on : ℕ → TradingDayRecord → Bool
trades_on day r = r.is_trading_day && r.trade_date == day

-- A boundary that is given is no later, or no earlier, than a day.
abbrev pub AtMost : Option ℕ → ℕ → Type 0
AtMost none day = Unit
AtMost (some b) day = b ≤ day

abbrev pub AtLeast : Option ℕ → ℕ → Type 0
AtLeast none day = Unit
AtLeast (some b) day = day ≤ b

-- The link of `day` is the latest trading day before it, among the boundary and the records.
abbrev pub IsPrevious : Option ℕ → List TradingDayRecord → ℕ → Option ℕ → Type 0
IsPrevious boundary records day none =
    (boundary ≡ none) × All (λ r. r.is_trading_day ≡ true → day ≤ r.trade_date) records
IsPrevious boundary records day (some p) =
    (p < day)
    × ((boundary ≡ some p) ⊎ (any (trades_on p) records ≡ true))
    × AtMost boundary p
    × All (λ r. r.is_trading_day ≡ true → r.trade_date < day → r.trade_date ≤ p) records

abbrev pub IsNext : Option ℕ → List TradingDayRecord → ℕ → Option ℕ → Type 0
IsNext boundary records day none =
    (boundary ≡ none) × All (λ r. r.is_trading_day ≡ true → r.trade_date ≤ day) records
IsNext boundary records day (some n) =
    (day < n)
    × ((boundary ≡ some n) ⊎ (any (trades_on n) records ≡ true))
    × AtLeast boundary n
    × All (λ r. r.is_trading_day ≡ true → day < r.trade_date → n ≤ r.trade_date) records

-- The dates rise from record to record.
abbrev pub IsAscending : List TradingDayRecord → Type 0
IsAscending [] = Unit
IsAscending (r ∷ rs) = All (λ s. r.trade_date < s.trade_date) rs × IsAscending rs

pub All-map :
    {A : Type 0} (P Q : A → Type 0) (f : (a : A) → P a → Q a) (xs : List A) → All P xs → All Q xs
All-map P Q f [] h = tt
All-map P Q f (x ∷ xs) h = (f x h.0, All-map P Q f xs h.1)

-- Record by record, what holds of its date and its link.
abbrev pub Each : (ℕ → Option ℕ → Type 0) → List TradingDayRecord → List (Option ℕ) → Type 0
Each P [] [] = Unit
Each P (r ∷ rs) (l ∷ ls) = P r.trade_date l × Each P rs ls
Each P [] (l ∷ ls) = ⊥
Each P (r ∷ rs) [] = ⊥

abbrev pub Below : Option ℕ → ℕ → Type 0
Below none day = Unit
Below (some b) day = b < day

abbrev pub Above : Option ℕ → ℕ → Type 0
Above none day = Unit
Above (some b) day = day < b

IsPrevious-cons :
    (boundary : Option ℕ) (r : TradingDayRecord) (rs : List TradingDayRecord) (day : ℕ)
    (link : Option ℕ)
    → Below boundary r.trade_date
    → r.trade_date < day
    → IsPrevious (if r.is_trading_day then some r.trade_date else boundary) rs day link
    → IsPrevious boundary (r ∷ rs) day link
IsPrevious-cons none r rs day none below lt h = ground arith
IsPrevious-cons (some b) r rs day none below lt h = ground arith
IsPrevious-cons none r rs day (some p) below lt h = ground arith
IsPrevious-cons (some b) r rs day (some p) below lt h = ground arith

Each-cons :
    (boundary : Option ℕ) (r : TradingDayRecord) (all rs : List TradingDayRecord)
    (links : List (Option ℕ))
    → Below boundary r.trade_date
    → All (λ s. r.trade_date < s.trade_date) rs
    → Each (IsPrevious (if r.is_trading_day then some r.trade_date else boundary) all) rs links
    → Each (IsPrevious boundary (r ∷ all)) rs links
Each-cons boundary r all [] [] below above h = tt
Each-cons boundary r all [] (l ∷ links) below above h = h
Each-cons boundary r all (s ∷ rs) [] below above h = h
Each-cons boundary r all (s ∷ rs) (l ∷ links) below above h = (
  IsPrevious-cons boundary r all s.trade_date l below above.0 h.0,
  Each-cons boundary r all rs links below above.1 h.1,
)

-- The boundary is the link of the first day, which no record precedes.
IsPrevious-first :
    (boundary : Option ℕ) (day : ℕ) (rs : List TradingDayRecord)
    → Below boundary day
    → All (λ s. day ≤ s.trade_date) rs
    → IsPrevious boundary rs day boundary
IsPrevious-first none day rs below h = (refl, All-map _ _ (λ r le t. le) rs h)
IsPrevious-first (some b) day rs below h =
    (below, inl refl, omega arith, All-map _ _ (λ r le t lt. omega arith) rs h)

Below-after :
    (trades : Bool) (d : ℕ) (boundary : Option ℕ) (rs : List TradingDayRecord)
    → All (λ s. d < s.trade_date) rs
    → All (λ s. Below boundary s.trade_date) rs
    → All (λ s. Below (if trades then some d else boundary) s.trade_date) rs
Below-after true d boundary rs above below = above
Below-after false d boundary rs above below = below

pub forward_links-IsPrevious :
    (boundary : Option ℕ) (rs : List TradingDayRecord)
    → IsAscending rs
    → All (λ s. Below boundary s.trade_date) rs
    → Each (IsPrevious boundary rs) rs (forward_links boundary rs)
unfolding forward_links
forward_links-IsPrevious boundary [] ascending below = tt
forward_links-IsPrevious boundary (r ∷ rs) ascending below = (
  IsPrevious-first boundary r.trade_date (r ∷ rs) below.0
      (omega arith, All-map _ _ (λ s lt. omega arith) rs ascending.0),
  Each-cons boundary r rs rs
      (forward_links (if r.is_trading_day then some r.trade_date else boundary) rs) below.0
      ascending.0
      (forward_links-IsPrevious (if r.is_trading_day then some r.trade_date else boundary) rs
        ascending.1 (Below-after r.is_trading_day r.trade_date boundary rs ascending.0 below.1)),
)

IsNext-cons :
    (boundary : Option ℕ) (r : TradingDayRecord) (rs : List TradingDayRecord) (day : ℕ)
    (link : Option ℕ)
    → r.trade_date ≤ day
    → IsNext boundary rs day link
    → IsNext boundary (r ∷ rs) day link
IsNext-cons boundary r rs day none le h = ground arith
IsNext-cons boundary r rs day (some n) le h = ground arith

Each-IsNext-cons :
    (boundary : Option ℕ) (r : TradingDayRecord) (all rs : List TradingDayRecord)
    (links : List (Option ℕ))
    → All (λ s. r.trade_date < s.trade_date) rs
    → Each (IsNext boundary all) rs links
    → Each (IsNext boundary (r ∷ all)) rs links
Each-IsNext-cons boundary r all [] [] above h = tt
Each-IsNext-cons boundary r all [] (l ∷ links) above h = h
Each-IsNext-cons boundary r all (s ∷ rs) [] above h = h
Each-IsNext-cons boundary r all (s ∷ rs) (l ∷ links) above h = (
  IsNext-cons boundary r all s.trade_date l (omega arith) h.0,
  Each-IsNext-cons boundary r all rs links above.1 h.1,
)

Above-AtLeast : (boundary : Option ℕ) (day : ℕ) → Above boundary day → AtLeast boundary day
Above-AtLeast none day h = tt
Above-AtLeast (some b) day h = omega arith

IsNext-step :
    (boundary : Option ℕ) (r : TradingDayRecord) (rs : List TradingDayRecord) (day : ℕ)
    (link : Option ℕ)
    → day < r.trade_date
    → All (λ s. s.is_trading_day ≡ true → day < s.trade_date → r.trade_date ≤ s.trade_date) rs
    → AtLeast boundary r.trade_date
    → IsNext boundary rs day link
    → IsNext boundary (r ∷ rs) day (if r.is_trading_day then some r.trade_date else link)
IsNext-step boundary r rs day none lt all least h = ground arith
IsNext-step boundary r rs day (some n) lt all least h = ground arith

-- The value that the second loop holds before a day leads to the nearest trading day after it.
backward_links-IsNext_first :
    (boundary : Option ℕ) (day : ℕ) (rs : List TradingDayRecord)
    → IsAscending rs
    → All (λ s. Above boundary s.trade_date) rs
    → Above boundary day
    → All (λ s. day < s.trade_date) rs
    → IsNext boundary rs day (backward_links boundary rs).1
unfolding backward_links
backward_links-IsNext_first none day [] ascending above here later = (refl, tt)
backward_links-IsNext_first (some b) day [] ascending above here later =
    (here, inl refl, omega arith, tt)
backward_links-IsNext_first boundary day (r ∷ rs) ascending above here later =
    IsNext-step boundary r rs day (backward_links boundary rs).1 later.0
      (All-map _ _ (λ s lt t before. omega arith) rs ascending.0)
      (Above-AtLeast boundary r.trade_date above.0)
      (backward_links-IsNext_first boundary day rs ascending.1 above.1 here later.1)

pub backward_links-IsNext :
    (boundary : Option ℕ) (rs : List TradingDayRecord)
    → IsAscending rs
    → All (λ s. Above boundary s.trade_date) rs
    → Each (IsNext boundary rs) rs (backward_links boundary rs).0
unfolding backward_links
backward_links-IsNext boundary [] ascending above = tt
backward_links-IsNext boundary (r ∷ rs) ascending above = (
  IsNext-cons boundary r rs r.trade_date (backward_links boundary rs).1 (omega arith) (
      backward_links-IsNext_first boundary r.trade_date rs ascending.1 above.1 above.0 ascending.0),
  Each-IsNext-cons boundary r rs rs (backward_links boundary rs).0 ascending.0
      (backward_links-IsNext boundary rs ascending.1 above.1),
)
