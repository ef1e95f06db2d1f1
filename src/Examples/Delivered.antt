-- ===== src/Examples/Delivered.antt =====
-- A paid order of one key: its delivery is prepared, fulfilled and finalised; and a delivery that fails.
use professional_bot.Prelude.{
  ◌≡◌, refl, true, [], ◌∷◌, none, some, arith, ok, err, invalid_transition, configuration, Result,
}
use professional_bot.Prelude.Int.{pos, ◌+ℤ◌}
use professional_bot.Prelude.Text.{Text, codes}
use professional_bot.Domain.Enums.DeliveryStatus
use professional_bot.Domain.Enums.DeliveryType
use professional_bot.Domain.Enums.OrderStatus
use professional_bot.Domain.Enums.PaymentStatus
use professional_bot.Domain.Inventory.{flush, is_unique, set_row, for_each}
use professional_bot.Domain.Inventory.Allocation.{
  sell_item, consume, rows_for, get_many, assign_items, consume_all, allocate,
}
use professional_bot.Domain.Orders.Lifecycle.{Order, transition, stamp}
use professional_bot.Domain.Orders.Creation.{complete, record_sale, sell_lines}
use professional_bot.Domain.StateMachines.{assert_order_transition}
use professional_bot.Domain.Users.{on_user}
use professional_bot.Domain.Payments.Service.{PaymentIntent}
use professional_bot.Domain.Orders.Delivery.{
  SecretBox, Delivery, DeliveredPayload, Depot, assert_paid, get_for_order_item, prepare_items,
  prepare, find_product, reveal_all, build_payload, find_line, fulfil, reveal, viewed, plain,
}
use professional_bot.Domain.Orders.Delivery.Finishing.{
  failed_with, record_failure, list_for_order, finalise_order,
}
use professional_bot.Domain.Orders.Delivery.Lines.{join_lines}
use professional_bot.Domain.Orders.Delivery.Dispatching.{is_due}
use professional_bot.Domain.Orders.Delivery.Payloads.{Fulfilled, fulfil-Fulfilled, reveal-fulfil}
use professional_bot.Domain.Orders.Delivery.Failures.{exhausted_is_due}
use professional_bot.Domain.Orders.Delivery.Finalised.{
  Finalised, finalise_order-Finalised, finalise_order-failed,
}
use professional_bot.Examples.Placed.{user, placed, after}
use professional_bot.Examples.Service.{intent}
use professional_bot.Examples.Sold.{product, sold_stock}

abbrev opened : Text → Result Text
opened [] = err configuration
opened (c ∷ t) = ok t

abbrev box : SecretBox
box = record {
  encrypt = λ t. b'#' ∷ t;
  decrypt = opened;
  decrypts = λ t. refl;
  not_empty = λ t. refl;
}

abbrev verified : PaymentIntent
verified = record intent { status = PaymentStatus.verified }

abbrev paid : Order
paid = record placed { status = OrderStatus.payment_verified; paid_at = some 40 }

abbrev depot : Depot
depot = record { order = some paid; intents = verified ∷ []; deliveries = []; desk = after }

abbrev filling : Order
filling = record paid { status = OrderStatus.fulfilling }

abbrev row : Delivery
row = record {
  id = 1;
  order_id = 7;
  order_item_id = 70;
  status = DeliveryStatus.pending;
  delivery_type = DeliveryType.stock_item;
  encrypted_payload = none;
  file_id = none;
  inventory_item_ids = [];
  attempts = 0;
  next_attempt_at = some 45;
  last_error = none;
  delivered_at = none;
  first_viewed_at = none;
}

abbrev prepared : Depot
prepared = record depot { order = some filling; deliveries = row ∷ [] }

prepares : prepare 1 45 paid depot ≡ ok (row ∷ [], prepared)
unfolding prepare assert_paid prepare_items get_for_order_item transition assert_order_transition
    OrderStatus.transitions stamp
prepares = refl

abbrev payload : DeliveredPayload
payload = plain DeliveryType.stock_item (codes "AA" ∷ []) none none

abbrev delivered : Delivery
delivered = record row {
  status = DeliveryStatus.completed;
  attempts = 1;
  inventory_item_ids = 1 ∷ [];
  encrypted_payload = some (codes "#AA");
  delivered_at = some 50;
}

abbrev emptied : Depot
emptied = record prepared { desk = record after { stock = sold_stock } }

fulfils : fulfil box 11 50 row prepared ≡ ((delivered, emptied), ok payload)
unfolding fulfil assert_paid find_line build_payload find_product allocate rows_for consume_all
    for_each consume sell_item set_row flush is_unique assign_items get_many reveal_all join_lines
fulfils = refl

fulfil-Fulfilled_example : Fulfilled box 50 row prepared delivered emptied payload
fulfil-Fulfilled_example =
    fulfil-Fulfilled box 11 50 row prepared delivered emptied payload refl fulfils

reveal-fulfil_example :
    (reveal box 60 delivered ≡ ok (viewed 60 delivered, payload))
    × (fulfil box 12 60 delivered emptied ≡ ((delivered, emptied), ok payload))
reveal-fulfil_example =
    reveal-fulfil box 11 50 12 60 row prepared delivered emptied payload refl fulfils (refl, tt)

abbrev done : Depot
done = record emptied { deliveries = delivered ∷ [] }

abbrev completed : Depot
completed = record done {
  order = some (record filling {
    status = OrderStatus.completed;
    delivered_at = some 50;
    completed_at = some 50;
  });
  desk = record done.desk {
    users =
        record user { orders_count = 1; completed_orders_count = 1; total_spent = pos 900000000 }
        ∷ [];
    products = record product { sales_count = 1 } ∷ [];
  };
}

finalises : finalise_order 50 filling done ≡ ok (true, completed)
unfolding finalise_order list_for_order transition assert_order_transition OrderStatus.transitions
    stamp complete on_user sell_lines record_sale ◌+ℤ◌
finalises = refl

finalise_order-Finalised_example : Finalised filling done true completed
finalise_order-Finalised_example = finalise_order-Finalised 50 filling done true completed finalises

abbrev failing : Order
failing = record filling { status = OrderStatus.delivery_failed }

one_row : list_for_order 7 (delivered ∷ []) ≡ delivered ∷ []
unfolding list_for_order
one_row = refl

finalise_order-failed_example : finalise_order 60 failing done ≡ err invalid_transition
finalise_order-failed_example =
    finalise_order-failed 60 failing done refl (rw one_row (omega arith)) (rw one_row refl)

abbrev tried : Delivery
tried = record row { status = DeliveryStatus.processing; attempts = 8 }

abbrev given_up : Delivery
given_up = failed_with (codes "no stock") none tried

abbrev escalated : Depot
escalated = record prepared { order = some failing }

fails : record_failure 70 8 (codes "no stock") tried prepared ≡ ok (given_up, escalated)
unfolding record_failure transition assert_order_transition OrderStatus.transitions stamp
fails = refl

exhausted_is_due_example : is_due 71 given_up ≡ true
exhausted_is_due_example =
    exhausted_is_due 70 8 (codes "no stock") tried prepared given_up escalated 71 fails
      (omega arith)
