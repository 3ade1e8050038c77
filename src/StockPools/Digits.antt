-- ===== src/StockPools/Digits.antt =====
-- `str.isdigit` and `int` on code points, as Python 3.12 has them with Unicode 15.0, for the code of a
-- candidate (src/market_data_center/stock_pool_calculator.py).
use data_center.Prelude.{
  ℕ, ◌+◌, ◌*◌, ◌-◌, ◌≡◌, refl, Bool, true, false, ◌&&◌, ◌||◌, Option, none, some, List, [], ◌∷◌,
  any, all, leb, arith, if◌then◌else◌,
}

-- The code points of the decimal digits 0; those of 1 to 9 follow each.
abbrev decimal_zeros : List ℕ
decimal_zeros =
    48 ∷ 1632 ∷ 1776 ∷ 1984 ∷ 2406 ∷ 2534 ∷ 2662 ∷ 2790 ∷ 2918 ∷ 3046 ∷ 3174 ∷ 3302 ∷ 3430 ∷ 3558
    ∷ 3664 ∷ 3792 ∷ 3872 ∷ 4160 ∷ 4240 ∷ 6112 ∷ 6160 ∷ 6470 ∷ 6608 ∷ 6784 ∷ 6800 ∷ 6992 ∷ 7088
    ∷ 7232 ∷ 7248 ∷ 42528 ∷ 43216 ∷ 43264 ∷ 43472 ∷ 43504 ∷ 43600 ∷ 44016 ∷ 65296 ∷ 66720 ∷ 68912
    ∷ 69734 ∷ 69872 ∷ 69942 ∷ 70096 ∷ 70384 ∷ 70736 ∷ 70864 ∷ 71248 ∷ 71360 ∷ 71472 ∷ 71904 ∷ 72016
    ∷ 72784 ∷ 73040 ∷ 73120 ∷ 73552 ∷ 92768 ∷ 92864 ∷ 93008 ∷ 120782 ∷ 120792 ∷ 120802 ∷ 120812
    ∷ 120822 ∷ 123200 ∷ 123632 ∷ 124144 ∷ 125264 ∷ 130032 ∷ []

-- The first and last code points of the digits that are not decimal, such as superscripts.
abbrev other_digits : List (ℕ × ℕ)
other_digits =
    (178, 179)
    ∷ (185, 185)
    ∷ (4969, 4977)
    ∷ (6618, 6618)
    ∷ (8304, 8304)
    ∷ (8308, 8313)
    ∷ (8320, 8329)
    ∷ (9312, 9320)
    ∷ (9332, 9340)
    ∷ (9352, 9360)
    ∷ (9450, 9450)
    ∷ (9461, 9469)
    ∷ (9471, 9471)
    ∷ (10102, 10110)
    ∷ (10112, 10120)
    ∷ (10122, 10130)
    ∷ (68160, 68163)
    ∷ (69216, 69224)
    ∷ (69714, 69722)
    ∷ (127232, 127242)
    ∷ []

abbrev is_decimal_after : ℕ → ℕ → Bool
is_decimal_after c zero_digit = leb zero_digit c && leb c (zero_digit + 9)

unfoldable pub is_decimal : ℕ → Bool
is_decimal c = any (is_decimal_after c) decimal_zeros

unfoldable pub is_other_digit : ℕ → Bool
is_other_digit c = any (λ range. leb range.0 c && leb c range.1) other_digits

-- `text.isdigit()`, of a text that is not empty
abbrev pub is_digits : List ℕ → Bool
is_digits text = all (λ c. is_decimal c || is_other_digit c) text

abbrev digit_from : ℕ → List ℕ → ℕ
digit_from c [] = 0
digit_from c (zero_digit ∷ zeros) =
    let rest = digit_from c zeros in if is_decimal_after c zero_digit then c - zero_digit else rest

unfoldable pub digit_value : ℕ → ℕ
digit_value c = digit_from c decimal_zeros

abbrev pub number_from : ℕ → List ℕ → ℕ
number_from n [] = n
number_from n (c ∷ text) = number_from (n * 10 + digit_value c) text

-- `int(text)`, of digits; `none` is a `ValueError`.
unfoldable pub parse_digits : List ℕ → Option ℕ
unfolding digit_value
parse_digits text = if all is_decimal text then some (number_from 0 text) else none

-- Digits of which none is an other digit are decimal.
pub all-is_decimal :
    (text : List ℕ)
    → any is_other_digit text ≡ false
    → is_digits text ≡ true
    → all is_decimal text ≡ true
all-is_decimal [] h k = refl
all-is_decimal (c ∷ text) h k = ground (arith, h, k, all-is_decimal text)
