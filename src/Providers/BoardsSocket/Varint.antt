-- ===== src/Providers/BoardsSocket/Varint.antt =====
-- Numbers in groups of seven bits (src/market_data_center/providers/kaipanla_boards_socket.py).
use data_center.Prelude.{
  ℕ, zero, suc, ◌+◌, ◌*◌, ◌/◌, ◌%◌, ◌&&◌, List, [], ◌∷◌, ltb, leb, ◌==◌, if◌then◌else◌,
}
use Prim.Native.Nat.{◌^◌}

-- The loop of `_varint` on fuel: `(value & 127) | 128` is `value % 128 + 128`.
unfoldable pub varint_from : ℕ → ℕ → List ℕ
varint_from zero value = value ∷ []
varint_from (suc fuel) value =
    let rest = varint_from fuel (value / 128) in
    if leb 128 value then (value % 128 + 128) ∷ rest else value ∷ []

unfoldable pub varint : ℕ → List ℕ
unfolding varint_from
varint value = varint_from value value

-- The errors of the parsers.
pub data WireError : Type 0 where
  truncated_varint varint_overflow too_many_fields invalid_field_number : WireError
  truncated_field unsupported_wire_type : WireError

-- `stuck` is no result of the source: a loop ran out of fuel.
pub data Parsed (A : Type 0) : Type 0 where
  parsed : A → Parsed A
  refused : WireError → Parsed A
  stuck : Parsed A

-- The rounds that `range(0, 70, 7)` has left. The bits of `value` are below `2 ** shift`, so that `|=`
-- adds.
unfoldable pub read_from : ℕ → ℕ → ℕ → List ℕ → Parsed (ℕ × List ℕ)
read_from zero shift value buffer = refused varint_overflow
read_from (suc left) shift value [] = refused truncated_varint
read_from (suc left) shift value (byte ∷ rest) =
    let read = value + byte % 128 * 2 ^ shift in
    let more = read_from left (shift + 7) read rest in
    if shift == 63 && ltb 1 byte
    then refused varint_overflow
    else if ltb byte 128
    then parsed (read, rest)
    else more

unfoldable pub read_varint : List ℕ → Parsed (ℕ × List ℕ)
unfolding read_from
read_varint buffer = read_from 10 0 0 buffer
