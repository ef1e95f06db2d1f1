-- ===== src/Domain/Orders/Closing.antt =====
-- `cancel` and `expire` of app/domain/orders/service.py: an order that is not paid gives back its stock
-- and its coupon.
pub mod Closed
use professional_bot.Prelude.{
  ℕ, Bool, ◌||◌, Option, some, if◌then◌else◌, Result, ok, err, ◌>>=◌, conflict,
}
use professional_bot.Prelude.Text.{Text, codes}
use professional_bot.Domain.Coupons.{CouponBooks, revert}
use professional_bot.Domain.Enums.OrderStatus
use professional_bot.Domain.Enums.OrderStatus.{OrderStatus}
use professional_bot.Domain.Inventory.{Stock, release_for_order}
use professional_bot.Domain.Orders.Lifecycle.{Order, transition}

-- What the two calls read and write.
pub record Shop : Type 0 where
  pub order : Order
  pub stock : Stock
  pub coupons : CouponBooks

-- An accepted transition, then the stock and the coupon are given back.
unfoldable pub close : ℕ → Text → OrderStatus → Shop → Result Shop
close now reason target shop = do
  order ← transition now (some reason) target shop.order
  (count, stock) ← release_for_order now order.id shop.stock
  ok (record { order = order; stock = stock; coupons = revert now order.id shop.coupons })

unfoldable pub cancel : ℕ → Text → Shop → Result Shop
cancel now reason shop =
    if OrderStatus.is_paid shop.order.status
    then err conflict
    else close now reason OrderStatus.cancelled shop

unfoldable pub expire_order : ℕ → Shop → Result Shop
expire_order now shop =
    if OrderStatus.is_paid shop.order.status || OrderStatus.is_terminal shop.order.status
    then ok shop
    else close now (codes "payment window expired") OrderStatus.expired shop
