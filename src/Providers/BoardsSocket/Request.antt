-- ===== src/Providers/BoardsSocket/Request.antt =====
-- A request is read back as the fields that were asked for.
use data_center.Prelude.{
  ℕ, suc, ◌+◌, ◌*◌, ◌≤◌, ◌<◌, ◌≡◌, refl, sym, ap, ◌∙◌, subst, inl, inr, true, false, Option, none,
  some, List, [], ◌∷◌, ◌++◌, length, length-append, ltb, ◌==◌, arith, Bool-cases, if◌then◌else◌,
}
use data_center.Prelude.Int.{pos}
use data_center.Providers.BoardsSocket.Varint.{varint, Parsed, parsed, read_from, read_varint}
use data_center.Providers.BoardsSocket.Fields.{
  Value, number, bytes, FieldMap, append_value, take, drop, ◌>>=◌, number_field, sized_field,
  read_field, fields_from, fields, max_fields, is_board_code, request_body, framed, query,
}
use data_center.Providers.BoardsSocket.RoundTrip.{read_varint-varint}
use data_center.Providers.BoardsSocket.Progress.{IsBelow, read_field-IsBelow, fields_from-fuel}

abbrev fields_at : ℕ → List ℕ → FieldMap → Parsed FieldMap
fields_at count buffer result = fields_from (length buffer) count buffer result

field_step :
    (count byte : ℕ) (buffer : List ℕ) (result : FieldMap) (key : ℕ) (value : Value) (rest : List ℕ)
    → count < 8192
    → read_field (byte ∷ buffer) ≡ parsed ((key, value), rest)
    → fields_at count (byte ∷ buffer) result
      ≡ fields_at (count + 1) rest (append_value key value result)
unfolding fields_from
field_step count byte buffer result key value rest h e =
    let few : ltb max_fields (count + 1) ≡ false = ground arith in
    let shorter : length rest < suc (length buffer) =
      subst (IsBelow (suc (length buffer))) e (read_field-IsBelow (byte ∷ buffer)) in
    rw (few, e)
      (fields_from-fuel (length buffer) (length rest) (count + 1) rest _ (omega arith)
        (omega arith))

take-append : (xs ys : List ℕ) → take (length xs) (xs ++ ys) ≡ xs
take-append [] ys = refl
take-append (x ∷ xs) ys = ap (λ zs. x ∷ zs) (take-append xs ys)

drop-append : (xs ys : List ℕ) → drop (length xs) (xs ++ ys) ≡ ys
drop-append [] ys = refl
drop-append (x ∷ xs) ys = drop-append xs ys

sized-append :
    (key size : ℕ) (xs ys : List ℕ)
    → length xs ≡ size
    → sized_field key (size, xs ++ ys) ≡ parsed ((key, bytes xs), ys)
sized-append key size xs ys e =
    let there : ltb (length (xs ++ ys)) (length xs) ≡ false = ground (arith, length-append xs ys) in
    subst (λ n. sized_field key (n, xs ++ ys) ≡ parsed ((key, bytes xs), ys)) e
      (rw (there, take-append xs ys, drop-append xs ys) refl)

read_code :
    (code rest : List ℕ)
    → length code ≡ 6
    → read_field (0x0a ∷ 0x06 ∷ (code ++ rest)) ≡ parsed ((1, bytes code), rest)
unfolding read_field read_varint read_from
read_code code rest e = sized-append 1 6 code rest e

read_offset :
    (offset : ℕ) (rest : List ℕ)
    → offset ≤ 10000
    → read_field (0x30 ∷ (varint offset ++ rest)) ≡ parsed ((6, number offset), rest)
unfolding read_field
read_offset offset rest h =
    ap (λ r. r >>= number_field 6) (read_varint-varint offset rest (omega arith))

append_nil : (xs : List ℕ) → xs ++ [] ≡ xs
append_nil [] = refl
append_nil (x ∷ xs) = ap (λ ys. x ∷ ys) (append_nil xs)

read_limit :
    (limit : ℕ) → limit ≤ 60 → read_field (0x38 ∷ varint limit) ≡ parsed ((7, number limit), [])
unfolding read_field
read_limit limit h =
    ap (λ xs. read_varint xs >>= number_field 7) (sym (append_nil (varint limit)))
    ∙ ap (λ r. r >>= number_field 7) (read_varint-varint limit [] (omega arith))

-- The fields that a request asks with.
abbrev pub asked : List ℕ → ℕ → ℕ → FieldMap
asked code offset limit =
    (1, bytes code ∷ [])
    ∷ (2, number 6 ∷ [])
    ∷ (3, number 1 ∷ [])
    ∷ ((if offset == 0 then [] else (6, number offset ∷ []) ∷ []) ++ (7, number limit ∷ []) ∷ [])

abbrev fixed_fields : List ℕ → FieldMap
fixed_fields code = (1, bytes code ∷ []) ∷ (2, number 6 ∷ []) ∷ (3, number 1 ∷ []) ∷ []

limit_step :
    (count limit : ℕ) (result : FieldMap)
    → count < 8192
    → limit ≤ 60
    → fields_at count (0x38 ∷ varint limit) result ≡ parsed (append_value 7 (number limit) result)
unfolding fields_from
limit_step count limit result h k =
    field_step count 0x38 (varint limit) result 7 (number limit) [] h (read_limit limit k)

abbrev page_bytes : ℕ → ℕ → List ℕ
page_bytes offset limit =
    (if offset == 0 then [] else 0x30 ∷ varint offset) ++ (0x38 ∷ varint limit)

page_steps :
    (code : List ℕ) (offset limit : ℕ)
    → offset ≤ 10000
    → limit ≤ 60
    → fields_at 3 (page_bytes offset limit) (fixed_fields code) ≡ parsed (asked code offset limit)
page_steps code offset limit h k = elim (Bool-cases (offset == 0)) [
  | inl q ↦ rw q (limit_step 3 limit (fixed_fields code) (omega arith) k)
  | inr q ↦ rw q (
      field_step 3 0x30 (varint offset ++ (0x38 ∷ varint limit)) (fixed_fields code) 6
        (number offset) (0x38 ∷ varint limit) (omega arith)
        (read_offset offset (0x38 ∷ varint limit) h)
      ∙ limit_step 4 limit (append_value 6 (number offset) (fixed_fields code)) (omega arith) k)
]

code_steps :
    (code : List ℕ) (offset limit : ℕ)
    → length code ≡ 6
    → offset ≤ 10000
    → limit ≤ 60
    → fields (drop 10 (request_body code offset limit)) ≡ parsed (asked code offset limit)
unfolding fields read_field read_varint read_from
code_steps code offset limit e h k =
    field_step 0 0x0a (0x06 ∷ (code ++ (0x10 ∷ 0x06 ∷ 0x18 ∷ 0x01 ∷ page_bytes offset limit))) [] 1
      (bytes code) (0x10 ∷ 0x06 ∷ 0x18 ∷ 0x01 ∷ page_bytes offset limit) (omega arith)
      (read_code code _ e)
    ∙ field_step 1 0x10 (0x06 ∷ 0x18 ∷ 0x01 ∷ page_bytes offset limit) ((1, bytes code ∷ []) ∷ []) 2
        (number 6) (0x18 ∷ 0x01 ∷ page_bytes offset limit) (omega arith) refl
    ∙ field_step 2 0x18 (0x01 ∷ page_bytes offset limit)
        ((1, bytes code ∷ []) ∷ (2, number 6 ∷ []) ∷ []) 3 (number 1) (page_bytes offset limit)
        (omega arith) refl
    ∙ page_steps code offset limit h k

-- The length that a frame states.
abbrev pub stated_length : List ℕ → ℕ
stated_length (mark ∷ high ∷ low ∷ body) = high * 256 + low
stated_length _ = 0

-- A frame that states the length of its body, whose fields behind the command are the ones asked.
abbrev pub IsRequest : List ℕ → ℕ → ℕ → Option (List ℕ) → Type 0
IsRequest code offset limit none = ⊥
IsRequest code offset limit (some frame) =
    (fields (drop 13 frame) ≡ parsed (asked code offset limit))
    × (stated_length frame + 3 ≡ length frame)

query_guard :
    (code : List ℕ) (offset limit : ℕ)
    → is_board_code code ≡ true
    → offset ≤ 10000
    → 1 ≤ limit
    → limit ≤ 60
    → query code (pos offset) (pos limit) ≡ some (framed (request_body code offset limit))
unfolding query
query_guard code offset limit c h l k = ground (arith, c)

-- A request for the page of a board, whose code has six digits, with an offset of at most 10000 and a
-- limit from 1 to 60 is a frame: it states the length of its body, and the fields behind its command
-- are read as the code, the two constants, the offset, unless it is 0, and the limit.
pub query-fields :
    (code : List ℕ) (offset limit : ℕ)
    → is_board_code code ≡ true
    → offset ≤ 10000
    → 1 ≤ limit
    → limit ≤ 60
    → IsRequest code offset limit (query code (pos offset) (pos limit))
query-fields code offset limit c h l k =
    subst (IsRequest code offset limit) (sym (query_guard code offset limit c h l k))
      (code_steps code offset limit (ground (arith, c)) h k, omega arith)
