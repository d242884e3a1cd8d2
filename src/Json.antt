-- ===== src/Json.antt =====
-- Decoded JSON values: what src/rules, src/proxy and src/logging take as `unknown`.
use morpheus_proxy.Prelude.{ℕ, Bool, Text, List, [], ◌∷◌}

-- A JavaScript number: an integer from 0, a negative integer -(n + 1), or one that
-- `Number.isInteger` refuses, by its printed form.
pub data Number : Type 0 where
  nat : ℕ → Number
  negative : ℕ → Number
  fractional : Text → Number

mutual
  pub data Json : Type 0 where
    null : Json
    bool : Bool → Json
    num : Number → Json
    str : Text → Json
    arr : Items → Json
    obj : Fields → Json

  pub data Items : Type 0 where
    nil : Items
    cons : Json → Items → Items

  pub data Fields : Type 0 where
    end : Fields
    field : Text → Json → Fields → Fields

abbrev pub items : Items → List Json
items nil = []
items (cons v vs) = v ∷ items vs

abbrev pub fields : Fields → List (Text × Json)
fields end = []
fields (field k v fs) = (k, v) ∷ fields fs
