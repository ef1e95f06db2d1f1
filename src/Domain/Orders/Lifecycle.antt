-- ===== src/Domain/Orders/Lifecycle.antt =====
-- `OrderService.transition` of app/domain/orders/service.py.
pub mod Stamps
use professional_bot.Prelude.{
  ℕ, Bool, true, false, ◌&&◌, not, List, [], ◌∷◌, Option, none, some, ◌==◌, if◌then◌else◌, is_some,
  take, Result, ok, err, ◌>>=◌, ◌>>◌, ◌≡◌, refl, arith, ◌⊎◌, ◌≢◌, inl, inr,
}
use professional_bot.Prelude.Int.{ℤ}
use professional_bot.Prelude.Text.{Text, is_empty, or_empty}
use professional_bot.Domain.Enums.DeliveryType.{DeliveryType}
use professional_bot.Domain.Enums.OrderStatus
use professional_bot.Domain.Enums.OrderStatus.{OrderStatus, order_status_eq}
use professional_bot.Domain.StateMachines.{assert_order_transition}

-- The columns of a line item that the services read; amounts are in units of 10^-8.
pub record OrderItem : Type 0 where
  pub id : ℕ
  pub product_id : Option ℕ
  pub delivery_type : DeliveryType
  pub quantity : ℕ
  pub unit_price : ℤ
  pub line_total : ℤ

-- The columns of an order that the services read or write.
pub record Order : Type 0 where
  pub id : ℕ
  pub reference : Text
  pub user_id : Option ℕ
  pub reseller_id : Option ℕ
  pub items : List OrderItem
  pub status : OrderStatus
  pub currency : Text
  pub subtotal : ℤ
  pub discount_total : ℤ
  pub total : ℤ
  pub coupon_id : Option ℕ
  pub paid_at : Option ℕ
  pub delivered_at : Option ℕ
  pub completed_at : Option ℕ
  pub cancelled_at : Option ℕ
  pub cancellation_reason : Option Text
  pub review_reason : Option Text

-- `(reason or "")[:255] or None`
unfoldable pub reason_column : Option Text → Option Text
reason_column reason =
    let text = take 255 (or_empty reason) in if is_empty text then none else some text

-- The fields that go with the new status.
unfoldable pub stamp : ℕ → Option Text → OrderStatus → Order → Order
stamp now reason target order =
    if target == OrderStatus.payment_verified && not (is_some order.paid_at)
    then record order { paid_at = some now }
    else if target == OrderStatus.delivered && not (is_some order.delivered_at)
    then record order { delivered_at = some now }
    else if target == OrderStatus.completed && not (is_some order.completed_at)
    then record order { completed_at = some now }
    else if target == OrderStatus.cancelled
    then record order { cancelled_at = some now; cancellation_reason = reason_column reason }
    else if target == OrderStatus.manual_review
    then record order { review_reason = reason_column reason }
    else order

unfoldable pub transition : ℕ → Option Text → OrderStatus → Order → Result Order
transition now reason target order = do
  assert_order_transition order.status target
  ok (stamp now reason target (record order { status = target }))
