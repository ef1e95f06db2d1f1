-- ===== src/Examples/Closing.antt =====
-- An order that is cancelled, one that expires, and a paid one.
use professional_bot.Prelude.{◌≡◌, refl, false, [], ◌∷◌, none, some, ok}
use professional_bot.Prelude.Text.{codes}
use professional_bot.Domain.Coupons.{Coupon, CouponUsage, new_usage, revert, give_back}
use professional_bot.Prelude.Int.{pos}
use professional_bot.Domain.Enums.OrderStatus
use professional_bot.Domain.Enums.OrderStatus.{OrderStatus}
use professional_bot.Domain.StateMachines.{assert_order_transition}
use professional_bot.Domain.Inventory.{
  available, reserved, released, InventoryItem, InventoryReservation, new_reservation, is_unique,
  flush, set_row, free_item, release, release_for_order, active_for_order, for_each,
}
use professional_bot.Domain.Orders.Lifecycle.{Order, transition, stamp, reason_column}
use professional_bot.Domain.Orders.Closing.{Shop, cancel, close, expire_order}
use professional_bot.Domain.Orders.Closing.Closed.{
  GivenBack, cancel-GivenBack, review_and_cancel, cancel_paid,
}
use professional_bot.Examples.Discounts.{coupon}
use professional_bot.Examples.Orders.{order}

abbrev pending : Order
pending = record order { status = OrderStatus.payment_pending; paid_at = none }

-- One key is held for the order.
abbrev key : InventoryItem
key = record {
  id = 1;
  product_id = 5;
  status = reserved;
  order_item_id = some 70;
  secret_payload = codes "key-1";
  fingerprint = codes "fp-1";
  sold_at = none;
  invalid_reason = none;
}

abbrev hold : InventoryReservation
hold = new_reservation 10 100 7 70 key

-- The order has redeemed a coupon.
abbrev tenth : Coupon
tenth = record coupon { redemptions_count = 1 }

abbrev used : CouponUsage
used = new_usage tenth 1 7 (pos 200000000)

abbrev shop : Shop
shop = record {
  order = pending;
  stock = record { items = key ∷ []; reservations = hold ∷ [] };
  coupons = record { coupons = tenth ∷ []; usages = used ∷ [] };
}

-- The hold is released, the key can be sold again, and the coupon was used by nobody.
abbrev given_back : OrderStatus → Shop
given_back status = record {
  order = record pending { status = status };
  stock = record {
    items = record key { status = available; order_item_id = none } ∷ [];
    reservations = record hold { status = released; released_at = some 9 } ∷ [];
  };
  coupons = record {
    coupons = record tenth { redemptions_count = 0 } ∷ [];
    usages = record used { reverted_at = some 9 } ∷ [];
  };
}

abbrev cancelled : Shop
cancelled = record (given_back OrderStatus.cancelled) {
  order = record pending {
    status = OrderStatus.cancelled;
    cancelled_at = some 9;
    cancellation_reason = some (codes "changed mind");
  };
}

abbrev lapsed : Shop
lapsed = given_back OrderStatus.expired

cancels : cancel 9 (codes "changed mind") shop ≡ ok cancelled
unfolding cancel OrderStatus.is_paid close transition assert_order_transition stamp reason_column
    release_for_order active_for_order for_each release flush is_unique set_row free_item revert
    give_back
cancels = refl

cancel-GivenBack_example :
    (OrderStatus.is_paid OrderStatus.payment_pending ≡ false)
    × GivenBack 9 OrderStatus.cancelled shop cancelled
cancel-GivenBack_example = cancel-GivenBack 9 (codes "changed mind") shop cancelled cancels

expires : expire_order 9 shop ≡ ok lapsed
unfolding expire_order OrderStatus.is_paid OrderStatus.is_terminal close transition
    assert_order_transition stamp release_for_order active_for_order for_each release flush
    is_unique set_row free_item revert give_back
expires = refl

abbrev paid : Shop
paid = record shop { order = order; stock = record { items = []; reservations = [] } }

nothing_is_held : active_for_order 7 [] ≡ []
unfolding active_for_order
nothing_is_held = refl

cancel_paid_example :
    (after : Shop) × (review_and_cancel 9 (codes "fraud check") paid ≡ ok after)
    × (after.order.status ≡ OrderStatus.cancelled)
    × (after.order.paid_at ≡ some 5)
cancel_paid_example = cancel_paid 9 (codes "fraud check") paid refl nothing_is_held
