-- ===== src/Prelude/Text.antt =====
-- Texts that the program compares, and dictionaries and sets keyed by them.
use Prim.Native.String.{String}
use text.Mathlib.Text.{◌==◌}
use text.Mathlib.TextEquality.{eq_iff}
use data_center.Prelude.{
  ◌≡◌, refl, ◌⊎◌, inl, inr, Bool, true, false, ◌||◌, Option, none, some, List, [], ◌∷◌, arith,
  if◌then◌else◌, Bool-cases,
}

abbrev pub text_eq : String → String → Bool
text_eq s t = s == t

pub text_eq-cases : (s t : String) → ((text_eq s t ≡ true) × (s ≡ t)) ⊎ (text_eq s t ≡ false)
text_eq-cases s t = elim (Bool-cases (s == t)) [ inl e ↦ inl (e, (eq_iff s t).0 e) | inr e ↦ inr e ]

pub text_eq_refl : (s : String) → text_eq s s ≡ true
text_eq_refl s = (eq_iff s s).1 refl

-- `item in items`
unfoldable pub contains : String → List String → Bool
contains k [] = false
contains k (j ∷ js) = text_eq k j || contains k js

-- `items.add(item)` of a set.
unfoldable pub add : String → List String → List String
unfolding contains
add k js = if contains k js then js else k ∷ js

pub contains-add :
    (k j : String) (js : List String) → contains k (add j js) ≡ (text_eq k j || contains k js)
unfolding contains add
contains-add k j js = ground (arith, eq_iff k j)

module _ {V : Type 0} where
  -- `d.get(k)`
  unfoldable pub lookup : String → List (String × V) → Option V
  lookup k [] = none
  lookup k ((j, v) ∷ d) = if text_eq k j then some v else lookup k d

  -- `d[k] = v`: a key that is there keeps its place.
  unfoldable pub insert : String → V → List (String × V) → List (String × V)
  insert k v [] = (k, v) ∷ []
  insert k v ((j, w) ∷ d) = if text_eq k j then (j, v) ∷ d else (j, w) ∷ insert k v d

  -- `d.pop(k, None)`
  unfoldable pub erase : String → List (String × V) → List (String × V)
  erase k [] = []
  erase k ((j, w) ∷ d) = if text_eq k j then d else (j, w) ∷ erase k d

  pub lookup-insert :
      (k j : String) (v : V) (d : List (String × V))
      → lookup k (insert j v d) ≡ (if text_eq k j then some v else lookup k d)
  unfolding lookup insert
  lookup-insert k j v [] = refl
  lookup-insert k j v ((i, w) ∷ d) =
      ground (arith, eq_iff k j, eq_iff k i, eq_iff j i, lookup-insert k j v d)

  pub lookup-erase_ne :
      (k j : String) (d : List (String × V))
      → text_eq k j ≡ false
      → lookup k (erase j d) ≡ lookup k d
  unfolding lookup erase
  lookup-erase_ne k j [] h = refl
  lookup-erase_ne k j ((i, w) ∷ d) h =
      ground (arith, eq_iff k j, eq_iff k i, eq_iff j i, lookup-erase_ne k j d h)

  unfoldable pub keys : List (String × V) → List String
  keys [] = []
  keys ((k, _) ∷ d) = k ∷ keys d

  -- No key stands twice, as in every dictionary.
  abbrev pub IsDict : List (String × V) → Type 0
  IsDict [] = Unit
  IsDict ((k, _) ∷ d) = (contains k (keys d) ≡ false) × IsDict d

  pub erase_absent : (k : String) (d : List (String × V)) → lookup k d ≡ none → erase k d ≡ d
  unfolding lookup erase
  erase_absent k [] h = refl
  erase_absent k ((j, w) ∷ d) h = ground (arith, erase_absent k d)
