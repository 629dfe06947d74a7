-- ===== src/Json.antt =====
-- `serde_json::Value`, with the accessors that the policy calls. Numbers that are no `u64` keep
-- only their printed form, since nothing in the model computes with them.
use vor_commander.Base.{ℕ, String, Bool, Option, none, some}

mutual
  pub data Value : Type 0 where
    null : Value
    bool : Bool → Value
    unsigned : ℕ → Value
    other_number : String → Value
    str : String → Value
    array : Values → Value
    object : Fields → Value

  pub data Values : Type 0 where
    nil : Values
    cons : Value → Values → Values

  pub data Fields : Type 0 where
    end : Fields
    field : String → Value → Fields → Fields

abbrev pub as_bool : Value → Option Bool
as_bool (bool b) = some b
as_bool _ = none

abbrev pub as_u64 : Value → Option ℕ
as_u64 (unsigned n) = some n
as_u64 _ = none

abbrev pub as_str : Value → Option String
as_str (str s) = some s
as_str _ = none

abbrev pub as_array : Value → Option Values
as_array (array vs) = some vs
as_array _ = none
