-- ===== src/Domain/Orders/Creation.antt =====
-- `quote`, `create_order` and `complete` of app/domain/orders/service.py. Amounts are in units of 10^-8. A call
-- that raises rolls the session back, so that the desk is as before.
pub mod Quoted
pub mod Created
use professional_bot.Prelude.{
  ℕ, zero, suc, ◌+◌, Bool, true, false, not, ◌&&◌, ◌||◌, List, [], ◌∷◌, ◌++◌, Option, none, some,
  ◌==◌, nat_eq, if◌then◌else◌, is_some, any, length, Result, ok, err, ◌>>=◌, ◌>>◌, raise_if,
  validation,
}
use professional_bot.Prelude.Int.{ℤ, pos, ◌-ℤ◌, ◌*ℤ◌}
use professional_bot.Prelude.Text.{Text, text_eq, codes, is_empty, strip, upper}
use professional_bot.Core.Money.{quantize, half_up, money_scale}
use professional_bot.Db.Ledger.{Ledger, LedgerEntry, record_entry, order_created}
use professional_bot.Domain.Catalog.{Product}
use professional_bot.Domain.Coupons.{Coupon, CouponBooks, evaluate, redeem}
use professional_bot.Domain.Enums.LedgerEntryType
use professional_bot.Domain.Enums.OrderStatus
use professional_bot.Domain.Enums.OrderStatus.{order_status_eq}
use professional_bot.Domain.Enums.ProductStatus
use professional_bot.Domain.Enums.ProductStatus.{product_status_eq}
use professional_bot.Domain.Inventory.{Stock}
use professional_bot.Domain.Inventory.Allocation.{reserve_product}
use professional_bot.Domain.Inventory.Availability.{assert_purchasable}
use professional_bot.Domain.Orders.Lifecycle.{Order, OrderItem, transition}
use professional_bot.Domain.Payments.Fingerprint.Decimals.{to_decimal_text}
use professional_bot.Domain.Users.{User, find_user, on_user, record_purchase}

-- `quantize_money` of an amount of the columns' scale.
unfoldable pub money : ℤ → ℤ
money amount = quantize half_up (record { coef = amount; scale = money_scale }) money_scale

pub record PricingQuote : Type 0 where
  pub product : Product
  pub quantity : ℕ
  pub unit_price : ℤ
  pub subtotal : ℤ
  pub discount : ℤ
  pub total : ℤ
  pub currency : Text
  pub coupon_code : Option Text
  pub coupon_id : Option ℕ

abbrev pub price_or : ℤ → Option ℤ → ℤ
price_or price none = price
price_or price (some p) = p

-- `_unit_price`
unfoldable pub unit_price_of : Product → Bool → ℤ
unit_price_of product is_reseller =
    if is_reseller
    then money (price_or product.price product.reseller_price)
    else money product.price

abbrev pub priced : Product → ℕ → ℤ → ℤ → ℤ → Option Text → Option ℕ → PricingQuote
priced product quantity unit_price subtotal discount coupon_code coupon_id = record {
  product = product;
  quantity = quantity;
  unit_price = unit_price;
  subtotal = subtotal;
  discount = discount;
  total = money (subtotal -ℤ discount);
  currency = product.currency;
  coupon_code = coupon_code;
  coupon_id = coupon_id;
}

-- The coupon that the code of the purchase names, tried on it.
abbrev pub with_coupon :
    ℕ → Product → ℕ → ℤ → ℤ → Bool → Option ℕ → Option Text → CouponBooks → Result PricingQuote
with_coupon now product quantity unit_price subtotal is_reseller (some user_id) (some (c ∷ code))
      books =
    do
      evaluation ←
          evaluate now (c ∷ code)
            (record {
              user_id = user_id;
              subtotal = subtotal;
              currency = product.currency;
              product_id = some product.id;
              category_id = product.category_id;
              is_reseller = is_reseller;
            })
            books
      let coupon = evaluation.coupon
      ok (
          priced product quantity unit_price subtotal evaluation.discount (some coupon.code)
            (some coupon.id))
with_coupon now product quantity unit_price subtotal is_reseller _ _ books =
    ok (priced product quantity unit_price subtotal (pos 0) none none)

-- `quote`; `coupons_enabled` is the feature switch.
unfoldable pub quote :
    Bool
    → ℕ
    → Product
    → ℕ
    → Option ℕ
    → Option Text
    → Bool
    → Stock
    → CouponBooks
    → Result PricingQuote
quote coupons_enabled now product quantity user_id coupon_code is_reseller stock books = do
  raise_if (not (product.status == ProductStatus.active)) validation
  assert_purchasable product quantity stock
  let unit_price = unit_price_of product is_reseller
  let subtotal = money (unit_price *ℤ pos quantity)
  with_coupon now product quantity unit_price subtotal is_reseller user_id
      (if coupons_enabled then coupon_code else none) books

-- `get_by_reference` finds an order.
unfoldable pub is_taken : Text → List Text → Bool
is_taken reference references = any (λ r. r == upper (strip reference)) references

abbrev pub candidate : Text → ℕ → Text
candidate prefix n = prefix ++ b'-' ∷ to_decimal_text n

-- The loop over the offsets that are left, from the number `n` on.
unfoldable pub first_free : ℕ → Text → ℕ → Text → List Text → Text
first_free zero prefix n fallback references = fallback
first_free (suc left) prefix n fallback references =
    let rest = first_free left prefix (n + 1) fallback references in
    if is_taken (candidate prefix n) references then rest else candidate prefix n

-- `_next_reference`; `fallback` is the reference with a random suffix.
unfoldable pub next_reference : Text → Text → List Text → Text
next_reference prefix fallback references =
    first_free 50 prefix (10000 + (length references + 1)) fallback references

-- What the two calls read and write.
pub record Desk : Type 0 where
  pub references : List Text
  pub stock : Stock
  pub coupons : CouponBooks
  pub ledger : Ledger
  pub users : List User
  pub products : List Product

abbrev pub new_order : ℕ → ℕ → Text → Option ℕ → Option ℕ → PricingQuote → Order
new_order order_id item_id reference user_id reseller_id quote = record {
  id = order_id;
  reference = reference;
  user_id = user_id;
  reseller_id = reseller_id;
  items =
      record {
        id = item_id;
        product_id = some quote.product.id;
        delivery_type = quote.product.delivery_type;
        quantity = quote.quantity;
        unit_price = quote.unit_price;
        line_total = money (quote.unit_price *ℤ pos quote.quantity);
      }
      ∷ [];
  status = OrderStatus.created;
  currency = quote.currency;
  subtotal = quote.subtotal;
  discount_total = quote.discount;
  total = quote.total;
  coupon_id = quote.coupon_id;
  paid_at = none;
  delivered_at = none;
  completed_at = none;
  cancelled_at = none;
  cancellation_reason = none;
  review_reason = none;
}

unfoldable pub find_coupon : ℕ → List Coupon → Option Coupon
find_coupon i [] = none
find_coupon i (c ∷ cs) = let rest = find_coupon i cs in if c.id == i then some c else rest

abbrev pub redeem_found : Option Coupon → ℕ → ℕ → ℤ → CouponBooks → CouponBooks
redeem_found none user_id order_id discount books = books
redeem_found (some coupon) user_id order_id discount books =
    (redeem coupon user_id order_id discount books).1

-- The coupon of the quote, redeemed by the user.
unfoldable pub redeem_quoted : Option ℕ → Option ℕ → ℕ → ℤ → CouponBooks → CouponBooks
redeem_quoted (some coupon_id) (some user_id) order_id discount books =
    redeem_found (find_coupon coupon_id books.coupons) user_id order_id discount books
redeem_quoted _ _ order_id discount books = books

abbrev pub count_order : Option ℕ → List User → List User
count_order none users = users
count_order (some i) users = on_user i (λ u. record u { orders_count = suc u.orders_count }) users

abbrev pub created_entry : Order → LedgerEntry
created_entry order = record {
  entry_type = LedgerEntryType.order_created;
  amount = record { coef = pos 0; scale = 0 };
  dedupe_key = order_created order.id;
  order_id = some order.id;
  payment_intent_id = none;
}

-- `create_order`. The ids are the new ones; `row` is the next free id of a reservation.
unfoldable pub create_order :
    ℕ → ℕ → ℕ → ℕ → Text → Text → Option ℕ → Option ℕ → PricingQuote → Desk → Result (Order × Desk)
create_order order_id item_id row expires_at prefix fallback user_id reseller_id quote desk = do
  raise_if (not (is_some user_id) && not (is_some reseller_id)) validation
  let reference = next_reference prefix fallback desk.references
  let order = new_order order_id item_id reference user_id reseller_id quote
  (rows, stock) ←
      reserve_product row expires_at quote.product quote.quantity order_id item_id desk.stock
  ok (
    order,
    record desk {
      references = desk.references ++ reference ∷ [];
      stock = stock;
      coupons = redeem_quoted quote.coupon_id user_id order_id quote.discount desk.coupons;
      users = count_order user_id desk.users;
      ledger = (record_entry (created_entry order) desk.ledger).1;
    },
  )

-- `record_sale`
unfoldable pub record_sale : ℕ → ℕ → List Product → List Product
record_sale i quantity [] = []
record_sale i quantity (p ∷ ps) =
    (if p.id == i then record p { sales_count = p.sales_count + quantity } else p)
    ∷ record_sale i quantity ps

abbrev pub sell_line : OrderItem → List Product → List Product
sell_line item products = elim item.product_id [
  | none ↦ products
  | some i ↦ record_sale i item.quantity products
]

unfoldable pub sell_lines : List OrderItem → List Product → List Product
sell_lines [] products = products
sell_lines (item ∷ items) products = sell_lines items (sell_line item products)

abbrev pub credit_purchase : Option ℕ → ℤ → List User → List User
credit_purchase none amount users = users
credit_purchase (some i) amount users = on_user i (record_purchase amount) users

-- `complete`
unfoldable pub complete : ℕ → Order → Desk → Result (Order × Desk)
complete now order desk =
    if order.status == OrderStatus.completed
    then ok (order, desk)
    else transition now none OrderStatus.completed order >>= (λ done. ok (
      done,
      record desk {
        users = credit_purchase done.user_id done.total desk.users;
        products = sell_lines done.items desk.products;
      },
    ))
