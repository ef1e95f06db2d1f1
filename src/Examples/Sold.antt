-- ===== src/Examples/Sold.antt =====
-- Two keys that are imported, one of which is held and sold.
use professional_bot.Prelude.{ℕ, ◌<◌, ◌≡◌, refl, [], ◌∷◌, none, some, arith, ok, In, List}
use professional_bot.Prelude.Int.{pos}
use professional_bot.Prelude.Text.{Text, codes, strip, text_eqb}
use professional_bot.Domain.Catalog.{Product}
use professional_bot.Domain.Enums.DeliveryType
use professional_bot.Domain.Enums.ProductStatus
use professional_bot.Domain.Inventory.{
  available, reserved, sold, InventoryItem, InventoryReservation, Stock, new_reservation, is_unique,
  flush, claim_available, holds_for, mark_reserved, reserve, set_row, for_each, consumed,
}
use professional_bot.Domain.Inventory.Allocation.{
  sell_item, consume, rows_for, get_many, item_ids, assign_items, consume_all, allocate,
}
use professional_bot.Domain.Inventory.Restocking.{
  has_unique_keys, flush_items, is_known, collect, add_stock,
}
use professional_bot.Domain.Inventory.Sales.Again.{allocate_again}
use professional_bot.Domain.Inventory.Sales.Sequences
use professional_bot.Domain.Inventory.Sales.Sequences.{
  Steps, done, next, allocated, restocked, empty_stock, SoldOnce, reachable-SoldOnce,
}
use professional_bot.Domain.Payments.Fingerprint.{payload_fingerprint}

abbrev pub digest : Text → Text
digest s = b'h' ∷ s

abbrev pub seal : Text → Text
seal s = b'#' ∷ s

abbrev pub product : Product
product = record {
  id = 5;
  category_id = some 4;
  price = pos 1000000000;
  reseller_price = some (pos 800000000);
  currency = codes "USDT";
  status = ProductStatus.active;
  delivery_type = DeliveryType.stock_item;
  delivery_payload = none;
  delivery_file_id = none;
  delivery_instructions = none;
  min_quantity = 1;
  max_quantity = some 10;
  stock_override = none;
  low_stock_threshold = pos 5;
  sales_count = 0;
}

abbrev pub item : ℕ → Text → InventoryItem
item row payload = record {
  id = row;
  product_id = 5;
  status = available;
  order_item_id = none;
  secret_payload = b'#' ∷ payload;
  fingerprint = b'h' ∷ payload;
  sold_at = none;
  invalid_reason = none;
}

abbrev pub stocked : Stock
stocked = record { items = item 1 (codes "AA") ∷ item 2 (codes "BB") ∷ []; reservations = [] }

abbrev lines : List Text
lines = codes " AA" ∷ codes "BB" ∷ codes " " ∷ []

imports : add_stock digest seal 1 5 lines empty_stock ≡ ok (2, (0, stocked))
unfolding add_stock collect is_known payload_fingerprint strip flush_items has_unique_keys text_eqb
imports = refl

abbrev pub hold : InventoryReservation
hold = new_reservation 10 100 7 70 (item 1 (codes "AA"))

abbrev pub held : Stock
held = record {
  items =
      record (item 1 (codes "AA")) { status = reserved; order_item_id = some 70 }
      ∷ item 2 (codes "BB")
      ∷ [];
  reservations = hold ∷ [];
}

holds : reserve 10 100 5 1 7 70 stocked ≡ ok (hold ∷ [], held)
unfolding reserve claim_available holds_for mark_reserved flush is_unique
holds = refl

abbrev pub sold_item : InventoryItem
sold_item = record (item 1 (codes "AA")) {
  status = sold;
  order_item_id = some 70;
  sold_at = some 50;
}

abbrev pub sold_stock : Stock
sold_stock = record {
  items = sold_item ∷ item 2 (codes "BB") ∷ [];
  reservations = record hold { status = consumed; consumed_at = some 50 } ∷ [];
}

sells : allocate 11 50 product 1 7 70 held ≡ ok (sold_item ∷ [], sold_stock)
unfolding allocate rows_for consume_all for_each consume sell_item set_row flush is_unique
    assign_items get_many
sells = refl

allocate_again_example :
    allocate 12 60 product 1 7 70 sold_stock
    ≡ ok (
      get_many (item_ids (rows_for 7 70 consumed sold_stock.reservations)) sold_stock.items,
      sold_stock,
    )
allocate_again_example =
    allocate_again 11 50 12 60 product 1 7 70 held (sold_item ∷ []) sold_stock refl (omega arith)
      sells

nothing_named : (r : InventoryReservation) → In r [] → r.inventory_item_id < 1
nothing_named r m = absurd m.1

history : Steps digest seal empty_stock sold_stock
history = next (restocked 1 5 lines 2 0 nothing_named imports) (
    next (Sequences.reserved 10 100 5 1 7 70 (hold ∷ []) holds)
      (next (allocated 11 50 product 1 7 70 (sold_item ∷ []) sells) done))

reachable-SoldOnce_example : SoldOnce sold_stock
reachable-SoldOnce_example = reachable-SoldOnce digest seal sold_stock history
