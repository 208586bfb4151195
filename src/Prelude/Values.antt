-- ===== src/Prelude/Values.antt =====
-- The values of a dynamic language that the program stores in `dict[str, Any]` and passes through.
use Prim.Native.Nat.{ℕ}
use Prim.Native.String.{String}
use mathlib.Core.Bool.{Bool}

mutual
  pub data Value : Type 0 where
    null : Value
    flag : Bool → Value
    num : ℕ → Value
    -- a float, in thousandths
    millis : ℕ → Value
    str : String → Value
    arr : Items → Value
    obj : Fields → Value

  pub data Items : Type 0 where
    cons : Value → Items → Items
    nil : Items

  pub data Fields : Type 0 where
    field : String → Value → Fields → Fields
    end : Fields
