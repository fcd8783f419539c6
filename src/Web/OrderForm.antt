-- ===== src/Web/OrderForm.antt =====
-- apps/web/store/slices/orderFormSlice.ts
use logistics_order_fulfillm.Prelude.{
  ℕ, zero, suc, String, List, [], ◌∷◌, ◌++◌, length, ltb, if◌then◌else◌,
}

pub record OrderFormItem : Type 0 where
  pub sku : String
  pub qty : String
  pub unit_price : String

pub record OrderFormState : Type 0 where
  pub customer_id : String
  pub delivery_address : String
  pub branch_id : String
  pub items : List OrderFormItem
  pub validation_errors : List String

-- keyof OrderFormItem
pub data ItemField : Type 0 where
  sku qty unit_price : ItemField

-- One constructor for each reducer, with its payload.
pub data Action : Type 0 where
  customer_id_set delivery_address_set branch_id_set : String → Action
  item_added : Action
  item_removed : ℕ → Action
  item_updated : ℕ → ItemField → String → Action
  validation_errors_set : List String → Action
  order_form_reset : Action

abbrev pub empty_item : OrderFormItem
empty_item = record { sku = ""; qty = "1"; unit_price = "" }

abbrev pub initial_state : OrderFormState
initial_state = record {
  customer_id = "";
  delivery_address = "";
  branch_id = "";
  items = empty_item ∷ [];
  validation_errors = [];
}

set_field : ItemField → String → OrderFormItem → OrderFormItem
set_field sku value row = record row { sku = value }
set_field qty value row = record row { qty = value }
set_field unit_price value row = record row { unit_price = value }

-- `filter((_, i) => i !== index)`
unfoldable pub without : ℕ → List OrderFormItem → List OrderFormItem
without i [] = []
without zero (row ∷ rows) = rows
without (suc i) (row ∷ rows) = row ∷ without i rows

-- An index that is out of range changes nothing.
unfoldable pub update_item : ℕ → ItemField → String → List OrderFormItem → List OrderFormItem
unfolding set_field
update_item i f value [] = []
update_item zero f value (row ∷ rows) = set_field f value row ∷ rows
update_item (suc i) f value (row ∷ rows) = row ∷ update_item i f value rows

unfoldable pub reduce : OrderFormState → Action → OrderFormState
reduce state (customer_id_set value) = record state { customer_id = value }
reduce state (delivery_address_set value) = record state { delivery_address = value }
reduce state (branch_id_set value) = record state { branch_id = value }
reduce state item_added = record state { items = state.items ++ empty_item ∷ [] }
reduce state (item_removed i) =
    if ltb 1 (length state.items) then record state { items = without i state.items } else state
reduce state (item_updated i f value) = record state { items = update_item i f value state.items }
reduce state (validation_errors_set errors) = record state { validation_errors = errors }
reduce state order_form_reset = initial_state
