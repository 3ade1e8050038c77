-- ===== src/Providers/BoardsSocket/RoundTrip.antt =====
-- What the encoder writes, the reader reads.
use Prim.Native.Nat.{◌^◌}
use Prim.Native.Nat.pow
use data_center.Prelude.{
  ℕ, zero, suc, ◌+◌, ◌*◌, ◌/◌, ◌%◌, ◌≤◌, ◌<◌, ◌≡◌, refl, ap, ◌∙◌, inl, inr, true, false, ◌&&◌, ◌==◌,
  List, [], ◌∷◌, ◌++◌, ltb, leb, arith, Bool-cases,
}
use data_center.Providers.BoardsSocket.Varint.{varint_from, varint, parsed, read_from, read_varint}

varint_from-fuel :
    (fuel more value : ℕ)
    → value ≤ fuel
    → value ≤ more
    → varint_from fuel value ≡ varint_from more value
unfolding varint_from
varint_from-fuel zero zero value h k = refl
varint_from-fuel zero (suc more) value h k = ground arith
varint_from-fuel (suc fuel) zero value h k = ground arith
varint_from-fuel (suc fuel) (suc more) value h k = elim (Bool-cases (leb 128 value)) [
  | inl q ↦ rw q (
      ap (λ bytes. (value % 128 + 128) ∷ bytes)
        (varint_from-fuel fuel more (value / 128) (ground (arith, q)) (ground (arith, q))))
  | inr q ↦ rw q refl
]

shift_suc : (n : ℕ) → n + 7 ≡ suc (suc (suc (suc (suc (suc (suc n))))))
shift_suc n = omega arith

pow_shift : (shift : ℕ) → 2 ^ (shift + 7) ≡ 2 ^ shift * 128
pow_shift shift =
    ap (λ k. 2 ^ k) (shift_suc shift)
    ∙ omega (
      arith,
      pow.suc 2 shift,
      pow.suc 2 (suc shift),
      pow.suc 2 (suc (suc shift)),
      pow.suc 2 (suc (suc (suc shift))),
      pow.suc 2 (suc (suc (suc (suc shift)))),
      pow.suc 2 (suc (suc (suc (suc (suc shift))))),
      pow.suc 2 (suc (suc (suc (suc (suc (suc shift)))))),
    )

split_group : (q r p : ℕ) → r * p + q * (p * 128) ≡ (q * 128 + r) * p
split_group q r p = omega arith

-- The largest number that the rounds left can read, and one more: 2 to the power of the bits left.
abbrev bound : ℕ → ℕ
bound zero = 0
bound (suc zero) = 2
bound (suc (suc left)) = bound (suc left) * 128

low_bits : (byte : ℕ) → byte < 128 → byte % 128 ≡ byte
low_bits byte h = omega arith

last_group :
    (left shift acc byte : ℕ) (rest : List ℕ)
    → byte < 128
    → (shift == 63 && ltb 1 byte) ≡ false
    → read_from (suc left) shift acc (byte ∷ rest) ≡ parsed (acc + byte * 2 ^ shift, rest)
unfolding read_from
last_group left shift acc byte rest h q =
    let small : ltb byte 128 ≡ true = ground arith in
    rw (q, small) (ap (λ n. parsed (acc + n * 2 ^ shift, rest)) (low_bits byte h))

next_group :
    (left shift acc byte : ℕ) (rest : List ℕ)
    → 128 ≤ byte
    → (shift == 63 && ltb 1 byte) ≡ false
    → read_from (suc left) shift acc (byte ∷ rest)
      ≡ read_from left (shift + 7) (acc + byte % 128 * 2 ^ shift) rest
unfolding read_from
next_group left shift acc byte rest h q =
    let large : ltb byte 128 ≡ false = ground arith in rw (q, large) refl

varint_from-last : (fuel value : ℕ) → value < 128 → varint_from fuel value ≡ value ∷ []
unfolding varint_from
varint_from-last zero value h = refl
varint_from-last (suc fuel) value h =
    let small : leb 128 value ≡ false = ground arith in rw small refl

varint_from-next :
    (fuel value : ℕ)
    → 128 ≤ value
    → varint_from (suc fuel) value ≡ (value % 128 + 128) ∷ varint_from fuel (value / 128)
unfolding varint_from
varint_from-next fuel value h = let large : leb 128 value ≡ true = ground arith in rw large refl

read_last :
    (left fuel shift acc value : ℕ) (rest : List ℕ)
    → value < 128
    → (shift == 63 && ltb 1 value) ≡ false
    → read_from (suc left) shift acc (varint_from fuel value ++ rest)
      ≡ parsed (acc + value * 2 ^ shift, rest)
read_last left fuel shift acc value rest h q =
    ap (λ bytes. read_from (suc left) shift acc (bytes ++ rest)) (varint_from-last fuel value h)
    ∙ last_group left shift acc value rest h q

sum_groups :
    (acc value p : ℕ)
    → acc + (value % 128 + 128) % 128 * p + value / 128 * (p * 128) ≡ acc + value * p
sum_groups acc value p =
    let digits : value / 128 * 128 + value % 128 ≡ value = omega arith in
    let same : (value % 128 + 128) % 128 ≡ value % 128 = omega arith in
    ap (λ r. acc + r * p + value / 128 * (p * 128)) same
    ∙ omega (arith, split_group (value / 128) (value % 128) p, ap (λ n. n * p) digits)

read_from-varint_from :
    (left fuel shift acc value : ℕ) (rest : List ℕ)
    → shift + 7 * left ≡ 70
    → value < bound left
    → value ≤ fuel
    → read_from left shift acc (varint_from fuel value ++ rest)
      ≡ parsed (acc + value * 2 ^ shift, rest)
read_from-varint_from zero fuel shift acc value rest e h k = absurd (omega arith)
read_from-varint_from (suc zero) fuel shift acc value rest e h k =
    read_last zero fuel shift acc value rest (omega arith) (ground arith)
read_from-varint_from (suc (suc left)) zero shift acc value rest e h k =
    read_last (suc left) zero shift acc value rest (omega arith) (ground arith)
read_from-varint_from (suc (suc left)) (suc fuel) shift acc value rest e h k =
    elim (Bool-cases (leb 128 value)) [
      | inl q ↦
          let large : 128 ≤ value = ground (arith, q) in
          ap (λ bytes. read_from (suc (suc left)) shift acc (bytes ++ rest))
            (varint_from-next fuel value large)
          ∙ next_group (suc left) shift acc (value % 128 + 128) _ (omega arith) (ground arith)
          ∙ read_from-varint_from (suc left) fuel (shift + 7) _ (value / 128) rest (omega arith)
              (omega arith) (omega arith)
          ∙ ap (λ p. parsed (acc + (value % 128 + 128) % 128 * 2 ^ shift + value / 128 * p, rest))
              (pow_shift shift)
          ∙ ap (λ n. parsed (n, rest)) (sum_groups acc value (2 ^ shift))
      | inr q ↦
          read_last (suc left) (suc fuel) shift acc value rest (ground (arith, q)) (ground arith)
    ]

-- The bytes of a number below 2 ^ 64 are read as that number, and what follows them is left.
pub read_varint-varint :
    (value : ℕ) (rest : List ℕ)
    → value < 2 ^ 64
    → read_varint (varint value ++ rest) ≡ parsed (value, rest)
unfolding read_varint varint
read_varint-varint value rest h =
    read_from-varint_from 10 value 0 0 value rest refl (omega arith) (omega arith)
    ∙ ap (λ n. parsed (n, rest)) (omega arith)
