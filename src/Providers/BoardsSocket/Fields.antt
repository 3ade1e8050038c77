-- ===== src/Providers/BoardsSocket/Fields.antt =====
-- Messages of numbered fields, and the request frame
-- (src/market_data_center/providers/kaipanla_boards_socket.py).
use Prim.Native.Nat.{◌^◌}
use data_center.Prelude.{
  ℕ, zero, suc, ◌+◌, ◌/◌, ◌%◌, Bool, not, ◌&&◌, ◌||◌, Option, none, some, List, [], ◌∷◌, ◌++◌,
  length, all, ltb, leb, ◌==◌, if◌then◌else◌,
}
use data_center.Prelude.Int.{ℤ, pos, pos_part, ltb_ℤ}
use data_center.Providers.BoardsSocket.Varint.{
  varint, too_many_fields, invalid_field_number, truncated_field, unsupported_wire_type, Parsed,
  parsed, refused, stuck, read_varint,
}

abbrev pub max_fields : ℕ
max_fields = 8192

pub data Value : Type 0 where
  number : ℕ → Value
  bytes : List ℕ → Value

-- `dict[int, list[int | bytes]]`, in the order of its keys.
abbrev pub FieldMap : Type 0
FieldMap = List (ℕ × List Value)

-- `result.setdefault(key, []).append(value)`
abbrev pub append_value : ℕ → Value → FieldMap → FieldMap
append_value key value [] = (key, value ∷ []) ∷ []
append_value key value ((k, values) ∷ fields) =
    let rest = append_value key value fields in
    if key == k then (k, values ++ value ∷ []) ∷ fields else (k, values) ∷ rest

-- `buffer[:n]` and `buffer[n:]`
abbrev pub take : ℕ → List ℕ → List ℕ
take zero xs = []
take (suc n) [] = []
take (suc n) (x ∷ xs) = x ∷ take n xs

abbrev pub drop : ℕ → List ℕ → List ℕ
drop zero xs = xs
drop (suc n) [] = []
drop (suc n) (x ∷ xs) = drop n xs

infixl 5 ◌>>=◌
abbrev pub ◌>>=◌ : {A B : Type 0} → Parsed A → (A → Parsed B) → Parsed B
parsed x >>= f = f x
refused e >>= f = refused e
stuck >>= f = stuck

abbrev pub Field : Type 0
Field = (ℕ × Value) × List ℕ

abbrev pub number_field : ℕ → ℕ × List ℕ → Parsed Field
number_field key (value, rest) = parsed ((key, number value), rest)

-- The wire types 1 and 5: the value has to be there, and is refused.
abbrev pub fixed_field : ℕ → List ℕ → Parsed Field
fixed_field size rest =
    if ltb (length rest) size then refused truncated_field else refused unsupported_wire_type

abbrev pub sized_field : ℕ → ℕ × List ℕ → Parsed Field
sized_field key (size, rest) =
    if ltb (length rest) size
    then refused truncated_field
    else parsed ((key, bytes (take size rest)), drop size rest)

abbrev pub field_value : ℕ → ℕ → List ℕ → Parsed Field
field_value key wire rest =
    if wire == 0
    then read_varint rest >>= number_field key
    else if wire == 1
    then fixed_field 8 rest
    else if wire == 5
    then fixed_field 4 rest
    else if wire == 2
    then read_varint rest >>= sized_field key
    else refused unsupported_wire_type

-- `tag >> 3` and `tag & 7`
abbrev pub tagged_field : ℕ × List ℕ → Parsed Field
tagged_field (tag, rest) =
    if not (leb 1 (tag / 8) && ltb (tag / 8) (2 ^ 29))
    then refused invalid_field_number
    else field_value (tag / 8) (tag % 8) rest

-- The body of the loop behind its count.
unfoldable pub read_field : List ℕ → Parsed Field
unfolding read_varint
read_field buffer = read_varint buffer >>= tagged_field

unfoldable pub fields_from : ℕ → ℕ → List ℕ → FieldMap → Parsed FieldMap
unfolding read_field
fields_from fuel count [] result = parsed result
fields_from zero count (byte ∷ buffer) result = stuck
fields_from (suc fuel) count (byte ∷ buffer) result =
    if ltb max_fields (count + 1)
    then refused too_many_fields
    else read_field (byte ∷ buffer) >>= (λ ((key, value), rest).
      fields_from fuel (count + 1) rest (append_value key value result))

-- A field takes a byte at least, so the length of the buffer is fuel enough.
unfoldable pub fields : List ℕ → Parsed FieldMap
unfolding fields_from
fields buffer = fields_from (length buffer) 0 buffer []

abbrev is_ascii_digit : ℕ → Bool
is_ascii_digit c = leb 48 c && leb c 57

-- `re.fullmatch(r"[0-9]{6}", board_code)`
abbrev pub is_board_code : List ℕ → Bool
is_board_code code = length code == 6 && all is_ascii_digit code

-- The body of a request; `if offset` writes the offset.
abbrev pub request_body : List ℕ → ℕ → ℕ → List ℕ
request_body board_code offset limit =
    (0x00 ∷ 0x17 ∷ 0x09 ∷ 0xc5 ∷ 0x00 ∷ 0x00 ∷ 0x03 ∷ 0x02 ∷ 0x09 ∷ 0xc5 ∷ [])
    ++ (0x0a
        ∷ 0x06
        ∷ (board_code
            ++ (0x10
                ∷ 0x06
                ∷ 0x18
                ∷ 0x01
                ∷ ((if offset == 0 then [] else 0x30 ∷ varint offset) ++ (0x38 ∷ varint limit)))))

-- `b"\x40" + len(body).to_bytes(2, "big") + body`
abbrev pub framed : List ℕ → List ℕ
framed body = 0x40 ∷ length body / 256 ∷ length body % 256 ∷ body

-- No frame is a `ValueError`.
unfoldable pub query : List ℕ → ℤ → ℤ → Option (List ℕ)
unfolding varint
query board_code offset limit =
    if not (is_board_code board_code)
      || (ltb_ℤ offset (pos 0) || ltb_ℤ (pos 10000) offset)
      || (ltb_ℤ limit (pos 1) || ltb_ℤ (pos 60) limit)
    then none
    else some (framed (request_body board_code (pos_part offset) (pos_part limit)))
