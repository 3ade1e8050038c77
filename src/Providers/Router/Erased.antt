-- ===== src/Providers/Router/Erased.antt =====
-- A dictionary whose keys are looked up and erased one after another, as leaving the router does with its
-- sessions (src/market_data_center/providers/router.py).
use Prim.Native.String.{String}
use text.Mathlib.TextEquality.{eq_iff}
use mathlib.Core.List.{reverse-append, append_assoc}
use data_center.Prelude.{
  ◌≡◌, refl, sym, false, ◌||◌, Option, none, some, List, [], ◌∷◌, ◌++◌, reverse, arith, ap, ◌∙◌,
}
use data_center.Prelude.Text.{text_eq, lookup, text_eq_refl, contains, erase, keys, IsDict}

contains-append :
    (k : String) (xs ys : List String) → contains k (xs ++ ys) ≡ (contains k xs || contains k ys)
unfolding contains
contains-append k [] ys = refl
contains-append k (x ∷ xs) ys = ground (arith, contains-append k xs ys)

contains-reverse : (k : String) (xs : List String) → contains k (reverse xs) ≡ contains k xs
unfolding contains
contains-reverse k [] = refl
contains-reverse k (x ∷ xs) =
    rw (reverse-append (x ∷ []) xs, contains-append k (reverse xs) (x ∷ []), contains-reverse k xs)
      (ground arith)

module _ {V : Type 0} where
  -- Erasing one key after another.
  abbrev pub erase_each : List String → List (String × V) → List (String × V)
  erase_each [] d = d
  erase_each (k ∷ ks) d = erase_each ks (erase k d)

  erase_only : (k : String) (v : V) → erase k ((k, v) ∷ []) ≡ []
  unfolding erase
  erase_only k v = rw text_eq_refl

  erase_each-append :
      (ks js : List String) (d : List (String × V))
      → erase_each (ks ++ js) d ≡ erase_each js (erase_each ks d)
  erase_each-append [] js d = refl
  erase_each-append (k ∷ ks) js d = erase_each-append ks js (erase k d)

  erase_each-cons :
      (ks : List String) (k : String) (v : V) (d : List (String × V))
      → contains k ks ≡ false
      → erase_each ks ((k, v) ∷ d) ≡ (k, v) ∷ erase_each ks d
  unfolding contains erase
  erase_each-cons [] k v d h = refl
  erase_each-cons (j ∷ ks) k v d h =
      ground (arith, eq_iff k j, eq_iff j k, erase_each-cons ks k v (erase j d))

  pub erase_each-keys : (d : List (String × V)) → IsDict d → erase_each (reverse (keys d)) d ≡ []
  unfolding keys
  erase_each-keys [] h = refl
  erase_each-keys ((k, v) ∷ d) (fresh, h) = rw (reverse-append (k ∷ []) (keys d)) (
      rw (erase_each-append (reverse (keys d)) (k ∷ []) ((k, v) ∷ d)) (
        rw (erase_each-cons (reverse (keys d)) k v d (contains-reverse k (keys d) ∙ fresh))
          (rw (erase_each-keys d h) (erase_only k v))))

  abbrev pub found : Option V → List V
  found none = []
  found (some v) = v ∷ []

  -- What is found for one key after another, each of which is erased then.
  abbrev pub found_each : List String → List (String × V) → List V
  found_each [] d = []
  found_each (k ∷ ks) d = found (lookup k d) ++ found_each ks (erase k d)

  found_only : (k : String) (v : V) → found (lookup k ((k, v) ∷ [])) ≡ v ∷ []
  unfolding lookup
  found_only k v = rw text_eq_refl

  found_each-append :
      (ks js : List String) (d : List (String × V))
      → found_each (ks ++ js) d ≡ found_each ks d ++ found_each js (erase_each ks d)
  found_each-append [] js d = refl
  found_each-append (k ∷ ks) js d =
      ap (λ l. found (lookup k d) ++ l) (found_each-append ks js (erase k d))
      ∙ sym (append_assoc (found (lookup k d)) (found_each ks (erase k d)) _)

  lookup-other :
      (j k : String) (v : V) (d : List (String × V))
      → text_eq k j ≡ false
      → (lookup j ((k, v) ∷ d) ≡ lookup j d) × (erase j ((k, v) ∷ d) ≡ (k, v) ∷ erase j d)
  unfolding lookup erase
  lookup-other j k v d h = ground (arith, h, eq_iff k j, eq_iff j k)

  found_each-cons :
      (ks : List String) (k : String) (v : V) (d : List (String × V))
      → contains k ks ≡ false
      → found_each ks ((k, v) ∷ d) ≡ found_each ks d
  unfolding contains
  found_each-cons [] k v d h = refl
  found_each-cons (j ∷ ks) k v d h =
      let (same, rest) = lookup-other j k v d (ground (arith, h, eq_iff k j, eq_iff j k)) in
      rw (same, rest)
        (ap (λ l. found (lookup j d) ++ l) (found_each-cons ks k v (erase j d) (ground (arith, h))))

  -- The values of a dictionary, the last inserted first.
  abbrev pub values : List (String × V) → List V
  values [] = []
  values ((k, v) ∷ d) = v ∷ values d

  pub found_each-keys :
      (d : List (String × V)) → IsDict d → found_each (reverse (keys d)) d ≡ reverse (values d)
  unfolding keys
  found_each-keys [] h = refl
  found_each-keys ((k, v) ∷ d) (fresh, h) =
      let absent = contains-reverse k (keys d) ∙ fresh in
      rw (reverse-append (k ∷ []) (keys d), reverse-append (v ∷ []) (values d))
        (found_each-append (reverse (keys d)) (k ∷ []) ((k, v) ∷ d)
          ∙ rw
              (
                found_each-cons (reverse (keys d)) k v d absent,
                found_each-keys d h,
                erase_each-cons (reverse (keys d)) k v d absent,
                erase_each-keys d h,
                found_only k v,
              )
              refl)
