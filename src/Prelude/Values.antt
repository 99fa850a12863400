-- ===== src/Prelude/Values.antt =====
-- The values of JavaScript that the source handles as `unknown`: JSON and `undefined`.
use mathlib.Core.Bool.{Bool}
use arka.Prelude.Int.{ℤ}
use arka.Prelude.Strings.{Text}

-- An object lists its own enumerable properties in order.
mutual
  pub data Value : Type 0 where
    undefined null : Value
    bool : Bool → Value
    num : ℤ → Value
    str : Text → Value
    arr : Items → Value
    obj : Fields → Value

  pub data Items : Type 0 where
    nil : Items
    cons : Value → Items → Items

  pub data Fields : Type 0 where
    end : Fields
    field : Text → Value → Fields → Fields
