-- ===== src/Providers/BoardsSocket/Progress.antt =====
-- Every parser takes bytes from its buffer, so the loops end.
use Prim.Native.Nat.{◌^◌}
use data_center.Prelude.{
  ℕ, zero, suc, ◌+◌, ◌*◌, ◌/◌, ◌%◌, ◌≤◌, ◌<◌, ◌≡◌, refl, ap, Bool, true, false, not, ◌&&◌, List, [],
  ◌∷◌, length, ltb, leb, ◌==◌, arith, if◌then◌else◌,
}
use data_center.Providers.BoardsSocket.Varint.{
  too_many_fields, Parsed, parsed, refused, stuck, read_from, read_varint,
}
use data_center.Providers.BoardsSocket.Fields.{
  bytes, FieldMap, append_value, take, drop, ◌>>=◌, number_field, fixed_field, sized_field,
  field_value, tagged_field, read_field, fields_from, fields, max_fields,
}

-- It has an end, and if that is a value, it leaves fewer bytes than the bound.
abbrev pub IsBelow : {A : Type 0} → ℕ → Parsed (A × List ℕ) → Type 0
IsBelow n (parsed (x, rest)) = length rest < n
IsBelow n (refused e) = Unit
IsBelow n stuck = ⊥

pub if-both :
    {A : Type 0} (P : A → Type 0) (b : Bool) (x y : A) → P x → P y → P (if b then x else y)
if-both P true x y p q = p
if-both P false x y p q = q

weaken : {A : Type 0} (m n : ℕ) (r : Parsed (A × List ℕ)) → m ≤ n → IsBelow m r → IsBelow n r
weaken m n (parsed (x, rest)) h k = omega arith
weaken m n (refused e) h k = tt
weaken m n stuck h k = k

bind-IsBelow :
    {A B : Type 0} (n : ℕ) (r : Parsed (A × List ℕ)) (f : A × List ℕ → Parsed (B × List ℕ))
    → IsBelow n r
    → ((x : A) (rest : List ℕ) → length rest < n → IsBelow n (f (x, rest)))
    → IsBelow n (r >>= f)
bind-IsBelow n (parsed (x, rest)) f h g = g x rest h
bind-IsBelow n (refused e) f h g = tt
bind-IsBelow n stuck f h g = h

read_from-IsBelow :
    (left shift acc : ℕ) (buffer : List ℕ)
    → IsBelow (length buffer) (read_from left shift acc buffer)
unfolding read_from
read_from-IsBelow zero shift acc buffer = tt
read_from-IsBelow (suc left) shift acc [] = tt
read_from-IsBelow (suc left) shift acc (byte ∷ rest) =
    let below = IsBelow (suc (length rest)) in
    if-both below (shift == 63 && ltb 1 byte) _ _ tt (
      if-both below (ltb byte 128) (parsed (acc + byte % 128 * 2 ^ shift, rest)) _ (omega arith) (
        weaken (length rest) (suc (length rest)) _ (omega arith)
          (read_from-IsBelow left (shift + 7) _ rest)))

read_varint-IsBelow : (buffer : List ℕ) → IsBelow (length buffer) (read_varint buffer)
unfolding read_varint
read_varint-IsBelow buffer = read_from-IsBelow 10 0 0 buffer

length-drop : (n : ℕ) (xs : List ℕ) → length (drop n xs) ≤ length xs
length-drop zero xs = omega arith
length-drop (suc n) [] = omega arith
length-drop (suc n) (x ∷ xs) = omega (arith, length-drop n xs)

sized-IsBelow :
    (n key size : ℕ) (rest : List ℕ) → length rest < n → IsBelow n (sized_field key (size, rest))
sized-IsBelow n key size rest h =
    if-both (IsBelow n) (ltb (length rest) size) _
      (parsed ((key, bytes (take size rest)), drop size rest)) tt
      (omega (arith, length-drop size rest))

fixed-IsBelow : (n size : ℕ) (rest : List ℕ) → IsBelow n (fixed_field size rest)
fixed-IsBelow n size rest = if-both (IsBelow n) (ltb (length rest) size) _ _ tt tt

read_in : (n : ℕ) (rest : List ℕ) → length rest < n → IsBelow n (read_varint rest)
read_in n rest h =
    weaken (length rest) n (read_varint rest) (omega arith) (read_varint-IsBelow rest)

value-IsBelow :
    (n key wire : ℕ) (rest : List ℕ) → length rest < n → IsBelow n (field_value key wire rest)
value-IsBelow n key wire rest h =
    if-both (IsBelow n) (wire == 0) _ _
      (bind-IsBelow n (read_varint rest) (number_field key) (read_in n rest h) (λ x rest k. k))
      (if-both (IsBelow n) (wire == 1) _ _ (fixed-IsBelow n 8 rest) (
        if-both (IsBelow n) (wire == 5) _ _ (fixed-IsBelow n 4 rest) (
          if-both (IsBelow n) (wire == 2) _ _
            (bind-IsBelow n (read_varint rest) (sized_field key) (read_in n rest h)
              (λ size rest k. sized-IsBelow n key size rest k))
            tt)))

-- A field that is read takes a byte at least.
pub read_field-IsBelow : (buffer : List ℕ) → IsBelow (length buffer) (read_field buffer)
unfolding read_field
read_field-IsBelow buffer =
    bind-IsBelow (length buffer) (read_varint buffer) tagged_field (read_varint-IsBelow buffer)
      (λ tag rest h.
        if-both (IsBelow (length buffer)) (not (leb 1 (tag / 8) && ltb (tag / 8) (2 ^ 29))) _ _ tt
          (value-IsBelow (length buffer) (tag / 8) (tag % 8) rest h))

abbrev pub Ends : {A : Type 0} → Parsed A → Type 0
Ends (parsed x) = Unit
Ends (refused e) = Unit
Ends stuck = ⊥

bind-Ends :
    {A : Type 0} {B : Type 0} (n : ℕ) (r : Parsed (A × List ℕ)) (f : A × List ℕ → Parsed B)
    → IsBelow n r
    → ((x : A) (rest : List ℕ) → length rest < n → Ends (f (x, rest)))
    → Ends (r >>= f)
bind-Ends n (parsed (x, rest)) f h g = g x rest h
bind-Ends n (refused e) f h g = tt
bind-Ends n stuck f h g = h

fields_from-Ends :
    (fuel count : ℕ) (buffer : List ℕ) (result : FieldMap)
    → length buffer ≤ fuel
    → Ends (fields_from fuel count buffer result)
unfolding fields_from
fields_from-Ends fuel count [] result h = tt
fields_from-Ends zero count (byte ∷ buffer) result h = absurd (omega arith)
fields_from-Ends (suc fuel) count (byte ∷ buffer) result h =
    if-both Ends (ltb max_fields (count + 1)) _ _ tt (
      bind-Ends (suc (length buffer)) (read_field (byte ∷ buffer)) _
        (read_field-IsBelow (byte ∷ buffer))
        (λ (key, value) rest k.
          fields_from-Ends fuel (count + 1) rest (append_value key value result) (omega arith)))

bind-same :
    {A : Type 0} {B : Type 0} (n : ℕ) (r : Parsed (A × List ℕ)) (f g : A × List ℕ → Parsed B)
    → IsBelow n r
    → ((x : A) (rest : List ℕ) → length rest < n → f (x, rest) ≡ g (x, rest))
    → (r >>= f) ≡ (r >>= g)
bind-same n (parsed (x, rest)) f g h same = same x rest h
bind-same n (refused e) f g h same = refl
bind-same n stuck f g h same = refl

-- More fuel changes nothing.
pub fields_from-fuel :
    (fuel more count : ℕ) (buffer : List ℕ) (result : FieldMap)
    → length buffer ≤ fuel
    → length buffer ≤ more
    → fields_from fuel count buffer result ≡ fields_from more count buffer result
unfolding fields_from
fields_from-fuel fuel more count [] result h k = refl
fields_from-fuel zero more count (byte ∷ buffer) result h k = absurd (omega arith)
fields_from-fuel (suc fuel) zero count (byte ∷ buffer) result h k = absurd (omega arith)
fields_from-fuel (suc fuel) (suc more) count (byte ∷ buffer) result h k =
    ap (λ r. if ltb max_fields (count + 1) then refused too_many_fields else r)
      (bind-same (suc (length buffer)) (read_field (byte ∷ buffer)) _ _
        (read_field-IsBelow (byte ∷ buffer))
        (λ (key, value) rest l.
          fields_from-fuel fuel more (count + 1) rest (append_value key value result) (omega arith)
            (omega arith)))

-- The loop over the fields of a buffer ends within the bytes that the buffer has: it gives the fields
-- or an error, and more rounds would change neither.
pub fields-Ends :
    (buffer : List ℕ)
    → Ends (fields buffer)
      × ((more : ℕ) → length buffer ≤ more → fields buffer ≡ fields_from more 0 buffer [])
unfolding fields
fields-Ends buffer = (
  fields_from-Ends (length buffer) 0 buffer [] (omega arith),
  λ more h. fields_from-fuel (length buffer) more 0 buffer [] (omega arith) h,
)
