-- ===== src/Providers/PytdxPool/Document.antt =====
-- The values of `json.load`. A number with a fraction or an exponent is kept as its text.
use Prim.Native.String.{String}
use data_center.Prelude.Int.{ℤ}
use data_center.Prelude.{ℕ, Bool, List, [], ◌∷◌}

mutual
  pub data Json : Type 0 where
    null : Json
    bool : Bool → Json
    int : ℤ → Json
    float : String → Json
    str : List ℕ → Json
    arr : Items → Json
    obj : Fields → Json

  pub data Items : Type 0 where
    nil : Items
    cons : Json → Items → Items

  pub data Fields : Type 0 where
    end : Fields
    field : String → Json → Fields → Fields

-- The items of an object, whose keys are all strings.
unfoldable pub entries : Fields → List (String × Json)
entries end = []
entries (field k v fields) = (k, v) ∷ entries fields
