-- ===== src/Value.antt =====
-- The Python objects that the drivers inspect by `isinstance`: what `json.loads` gives, and the
-- rest. A float is its IEEE-754 bit pattern. An `object` is a value of any other class.
use shimpz_drivers.Prelude.{ℕ, String, Bool}
use shimpz_drivers.Prelude.Int.{ℤ}

mutual
  pub data Value : Type 0 where
    null : Value
    bool : Bool → Value
    int : ℤ → Value
    float : ℕ → Value
    str : String → Value
    list : Items → Value
    tuple : Items → Value
    dict : Entries → Value
    object : Value

  pub data Items : Type 0 where
    nil : Items
    cons : Value → Items → Items

  pub data Entries : Type 0 where
    end : Entries
    entry : Value → Value → Entries → Entries
