-- ===== src/Examples/Stocked.antt =====
-- Two items of a product, one of which was held before and lapsed.
use professional_bot.Prelude.{
  ◌≡◌, refl, [], ◌∷◌, none, some, arith, ok, err, inl, inr, integrity_error,
}
use professional_bot.Prelude.Text.{codes}
use professional_bot.Domain.Inventory.{
  available, reserved, expired, InventoryItem, InventoryReservation, Stock, new_reservation,
  is_unique, flush, claim_available, holds_for, mark_reserved, reserve, expire_hold,
}
use professional_bot.Domain.Inventory.Defects.{expire_hold_again}

abbrev first : InventoryItem
first = record {
  id = 1;
  product_id = 5;
  status = available;
  order_item_id = none;
  secret_payload = codes "key-1";
  fingerprint = codes "fp-1";
  sold_at = none;
  invalid_reason = none;
}

abbrev other : InventoryItem
other = record {
  id = 2;
  product_id = 5;
  status = available;
  order_item_id = none;
  secret_payload = codes "key-2";
  fingerprint = codes "fp-2";
  sold_at = none;
  invalid_reason = none;
}

abbrev lapsed : InventoryReservation
lapsed = record (new_reservation 10 100 7 70 first) { status = expired; released_at = some 101 }

abbrev stock : Stock
stock = record { items = first ∷ other ∷ []; reservations = lapsed ∷ [] }

abbrev held_first : InventoryReservation
held_first = new_reservation 11 200 8 80 first

abbrev held_other : InventoryReservation
held_other = new_reservation 12 200 8 80 other

abbrev held : Stock
held = record {
  items =
      record first { status = reserved; order_item_id = some 80 }
      ∷ record other { status = reserved; order_item_id = some 80 }
      ∷ [];
  reservations = lapsed ∷ held_first ∷ held_other ∷ [];
}

reserves : reserve 11 200 5 2 8 80 stock ≡ ok (held_first ∷ held_other ∷ [], held)
unfolding reserve claim_available holds_for mark_reserved flush is_unique
reserves = refl

expire_hold_again_example : expire_hold 300 held_first held ≡ err integrity_error
expire_hold_again_example =
    expire_hold_again 300 lapsed held_first held (inl refl) (inr (inl refl)) (omega arith) refl refl
