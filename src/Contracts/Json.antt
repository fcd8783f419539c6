-- ===== src/Contracts/Json.antt =====
-- Values of JSON over an abstract type of JavaScript numbers, and what the program relies on of
-- those numbers.
use logistics_order_fulfillm.Prelude.{ℕ, String, Bool, Option, none, some, ◌==◌, if◌then◌else◌}

-- The operations on numbers that the program calls.
pub record JsNumber (N : Type 0) : Type 0 where
  pub zero : N
  pub add : N → N → N
  pub mul : N → N → N
  pub of_nat : ℕ → N
  -- x.toFixed(2)
  pub to_fixed : N → String
  -- Number(s) on a decimal text
  pub parse : String → N
  -- z.number(), .int(), .positive(), .nonnegative()
  pub is_number : N → Bool
  pub is_int : N → Bool
  pub is_positive : N → Bool
  pub is_nonneg : N → Bool

mutual
  pub data Json (N : Type 0) : Type 0 where
    null : Json N
    bool : Bool → Json N
    number : N → Json N
    text : String → Json N
    array : Items N → Json N
    object : Fields N → Json N

  pub data Items (N : Type 0) : Type 0 where
    no_items : Items N
    item : Json N → Items N → Items N

  pub data Fields (N : Type 0) : Type 0 where
    no_fields : Fields N
    field : String → Json N → Fields N → Fields N

-- A member of an object; `none` is `undefined`.
unfoldable pub get : {N : Type 0} → String → Fields N → Option (Json N)
get k no_fields = none
get k (field j v rest) = if j == k then some v else get k rest
