-- ===== src/Examples/Placed.antt =====
-- A quote for one item with a coupon, and the order that is placed on it.
use professional_bot.Prelude.{◌≡◌, refl, true, false, [], ◌∷◌, none, some, arith, ok, In, inl, inr}
use professional_bot.Prelude.Int.{pos, ◌≤ℤ◌, ◌-ℤ◌, ◌*ℤ◌}
use professional_bot.Prelude.Text.{codes, strip, upper, text_eqb}
use professional_bot.Core.Money.{quantize, half_up}
use professional_bot.Db.Ledger.{record_entry, has_key}
use professional_bot.Domain.Coupons.{
  Coupon, raw_discount, compute_discount, get_by_code, find_code, check_terms, usage_count_for_user,
  evaluate_coupon, evaluate, redeem, used_for,
}
use professional_bot.Domain.Coupons.Discount.{NonNegative}
use professional_bot.Domain.Enums.ProductStatus
use professional_bot.Domain.Inventory.{
  is_unique, flush, claim_available, holds_for, mark_reserved, reserve,
}
use professional_bot.Domain.Inventory.Allocation.{reserve_product}
use professional_bot.Domain.Inventory.Availability.{
  assert_purchasable, stock_status, available_count, count_by_status, Purchasable,
}
use professional_bot.Domain.Orders.Lifecycle.{Order}
use professional_bot.Domain.Orders.Creation.{
  money, PricingQuote, unit_price_of, quote, is_taken, first_free, next_reference, Desk, new_order,
  find_coupon, redeem_quoted, created_entry, create_order,
}
use professional_bot.Domain.Orders.Creation.Quoted.{ArePrices, Amounts, quote-Amounts}
use professional_bot.Domain.Orders.Creation.Created.{Created, create_order-Created}
use professional_bot.Domain.Payments.Fingerprint.Decimals.{to_decimal_text, digits_text}
use professional_bot.Domain.Users.{User, on_user}
use professional_bot.Examples.Discounts.{coupon, books}
use professional_bot.Examples.Sold.{product, stocked, held}

abbrev pub pricing : PricingQuote
pricing = record {
  product = product;
  quantity = 1;
  unit_price = pos 1000000000;
  subtotal = pos 1000000000;
  discount = pos 100000000;
  total = pos 900000000;
  currency = codes "USDT";
  coupon_code = some (codes "TEN");
  coupon_id = some 1;
}

quotes : quote true 10 product 1 (some 9) (some (codes "ten")) false stocked books ≡ ok pricing
unfolding quote assert_purchasable stock_status available_count count_by_status unit_price_of money
    quantize half_up evaluate get_by_code find_code upper strip text_eqb evaluate_coupon check_terms
    usage_count_for_user compute_discount raw_discount ◌*ℤ◌ ◌-ℤ◌
quotes = refl

priced_well : ArePrices product (coupon ∷ [])
priced_well = (omega arith, omega arith, of_coupon)
  where
    of_coupon : (c : Coupon) → In c (coupon ∷ []) → (pos 0 ≤ℤ c.value) × NonNegative c.max_discount
    of_coupon c (inl is) = rw is (omega arith, omega arith)
    of_coupon c (inr m) = absurd m.1

quote-Amounts_example :
    (product.status ≡ ProductStatus.active)
    × Purchasable product 1 stocked
    × Amounts product 1 false pricing
quote-Amounts_example =
    quote-Amounts true 10 product 1 (some 9) (some (codes "ten")) false stocked books pricing
      priced_well quotes

abbrev pub user : User
user = record {
  id = 9;
  orders_count = 0;
  completed_orders_count = 0;
  total_spent = pos 0;
  referral_code = codes "BOB";
  referred_by_id = some 2;
  referral_balance = pos 0;
}

abbrev pub desk : Desk
desk = record {
  references = codes "TG-10002" ∷ [];
  stock = stocked;
  coupons = books;
  ledger = [];
  users = user ∷ [];
  products = product ∷ [];
}

abbrev pub placed : Order
placed = new_order 7 70 (codes "TG-10003") (some 9) none pricing

abbrev pub after : Desk
after = record {
  references = codes "TG-10002" ∷ codes "TG-10003" ∷ [];
  stock = held;
  coupons = (redeem coupon 9 7 (pos 100000000) books).1;
  ledger = created_entry placed ∷ [];
  users = record user { orders_count = 1 } ∷ [];
  products = product ∷ [];
}

places :
    create_order 7 70 10 100 (codes "TG") (codes "TG-F00D") (some 9) none pricing desk
    ≡ ok (placed, after)
unfolding create_order next_reference first_free is_taken to_decimal_text digits_text strip upper
    text_eqb reserve_product reserve claim_available holds_for mark_reserved flush is_unique
    redeem_quoted find_coupon redeem used_for on_user record_entry has_key money quantize half_up
    ◌*ℤ◌
places = refl

create_order-Created_example : Created 7 (some 9) none pricing (codes "TG-F00D") desk placed after
create_order-Created_example =
    create_order-Created 7 70 10 100 (codes "TG") (codes "TG-F00D") (some 9) none pricing desk
      placed after places
