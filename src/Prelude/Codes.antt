-- ===== src/Prelude/Codes.antt =====
-- Texts as their code points: Python's order on `str`, and `str.strip`.
use Prim.Native.Char.{code}
use Prim.Native.String.{String}
use data_center.Prelude.{
  ℕ, ◌≡◌, refl, Bool, true, false, ◌&&◌, ◌||◌, List, [], ◌∷◌, reverse, arith, ltb, leb, ◌==◌,
  if◌then◌else◌,
}

abbrev pub codes : String → List ℕ
codes String.[] = []
codes (String.◌∷◌ c s) = code c ∷ codes s

unfoldable pub codes_eq : List ℕ → List ℕ → Bool
codes_eq [] [] = true
codes_eq (x ∷ xs) (y ∷ ys) = x == y && codes_eq xs ys
codes_eq _ _ = false

-- Lexicographic, a proper prefix first.
unfoldable pub codes_lt : List ℕ → List ℕ → Bool
codes_lt xs [] = false
codes_lt [] (y ∷ ys) = true
codes_lt (x ∷ xs) (y ∷ ys) = ltb x y || (x == y && codes_lt xs ys)

pub codes_eq→eq : (xs ys : List ℕ) → codes_eq xs ys ≡ true → xs ≡ ys
unfolding codes_eq
codes_eq→eq [] [] h = refl
codes_eq→eq [] (y ∷ ys) h = cc
codes_eq→eq (x ∷ xs) [] h = cc
codes_eq→eq (x ∷ xs) (y ∷ ys) h = ground (arith, codes_eq→eq xs ys)

pub codes_eq_refl : (xs : List ℕ) → codes_eq xs xs ≡ true
unfolding codes_eq
codes_eq_refl [] = refl
codes_eq_refl (x ∷ xs) = ground (arith, codes_eq_refl xs)

pub codes_lt_irrefl : (xs : List ℕ) → codes_lt xs xs ≡ false
unfolding codes_lt
codes_lt_irrefl [] = refl
codes_lt_irrefl (x ∷ xs) = ground (arith, codes_lt_irrefl xs)

pub codes_lt_trans :
    (xs ys zs : List ℕ) → codes_lt xs ys ≡ true → codes_lt ys zs ≡ true → codes_lt xs zs ≡ true
unfolding codes_lt
codes_lt_trans xs ys [] p q = cc
codes_lt_trans xs [] (z ∷ zs) p q = cc
codes_lt_trans [] (y ∷ ys) (z ∷ zs) p q = refl
codes_lt_trans (x ∷ xs) (y ∷ ys) (z ∷ zs) p q = ground (arith, codes_lt_trans xs ys zs)

pub codes_lt_total :
    (xs ys : List ℕ) → codes_lt xs ys ≡ false → codes_eq xs ys ≡ false → codes_lt ys xs ≡ true
unfolding codes_lt codes_eq
codes_lt_total [] [] p q = cc
codes_lt_total [] (y ∷ ys) p q = cc
codes_lt_total (x ∷ xs) [] p q = refl
codes_lt_total (x ∷ xs) (y ∷ ys) p q = ground (arith, codes_lt_total xs ys)

-- The characters that `str.isspace` accepts.
is_space : ℕ → Bool
is_space c =
    (leb 9 c && leb c 13)
    || (leb 28 c && leb c 32)
    || c == 0x85
    || c == 0xa0
    || c == 0x1680
    || (leb 0x2000 c && leb c 0x200a)
    || c == 0x2028
    || c == 0x2029
    || c == 0x202f
    || c == 0x205f
    || c == 0x3000

lstrip : List ℕ → List ℕ
lstrip [] = []
lstrip (c ∷ cs) = if is_space c then lstrip cs else c ∷ cs

unfoldable pub strip : List ℕ → List ℕ
unfolding lstrip is_space
strip cs = reverse (lstrip (reverse (lstrip cs)))
