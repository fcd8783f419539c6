-- ===== src/Contracts/Status.antt =====
-- packages/contracts/src/types/order-status-changed.ts: the order statuses.
use logistics_order_fulfillm.Prelude.{
  ◌≡◌, ◌==◌, String, Bool, true, false, Option, none, some, arith, refl, if◌then◌else◌,
}

pub data OrderStatus : Type 0 where
  placed payment_confirmed picking packed shipped delivered cancelled : OrderStatus

-- The string values of the enum.
unfoldable pub text : OrderStatus → String
text placed = "PLACED"
text payment_confirmed = "PAYMENT_CONFIRMED"
text picking = "PICKING"
text packed = "PACKED"
text shipped = "SHIPPED"
text delivered = "DELIVERED"
text cancelled = "CANCELLED"

-- `===` between two members of the enum
abbrev pub same : OrderStatus → OrderStatus → Bool
same placed placed = true
same payment_confirmed payment_confirmed = true
same picking picking = true
same packed packed = true
same shipped shipped = true
same delivered delivered = true
same cancelled cancelled = true
same _ _ = false

pub same-eq : (a b : OrderStatus) → same a b ≡ true → a ≡ b
same-eq a b h = ground arith

-- `OrderStatusEnum.parse`: the member with this value
unfoldable pub of_text : String → Option OrderStatus
of_text s =
    if s == "PLACED"
    then some placed
    else if s == "PAYMENT_CONFIRMED"
    then some payment_confirmed
    else if s == "PICKING"
    then some picking
    else if s == "PACKED"
    then some packed
    else if s == "SHIPPED"
    then some shipped
    else if s == "DELIVERED"
    then some delivered
    else if s == "CANCELLED"
    then some cancelled
    else none

pub of_text-text : (s : OrderStatus) → of_text (text s) ≡ some s
unfolding of_text text
of_text-text placed = refl
of_text-text _ = refl
