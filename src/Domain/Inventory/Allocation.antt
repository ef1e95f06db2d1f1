-- ===== src/Domain/Inventory/Allocation.antt =====
-- Selling what is held: `allocate_for_order_item` and `extend_reservations` of
-- app/domain/inventory/service.py, `consume` and `all_for_order` of app/db/repositories/catalog.py.
use professional_bot.Prelude.{
  ℕ, ◌+◌, ◌-◌, Bool, not, ◌&&◌, List, [], ◌∷◌, ◌++◌, some, ◌==◌, nat_eq, if◌then◌else◌, ltb,
  seconds, length, filter_by, contains, map, Result, ok, err, ◌>>=◌, insufficient_stock,
}
use professional_bot.Domain.Catalog.{Product}
use professional_bot.Domain.Enums.DeliveryType
use professional_bot.Domain.Enums.DeliveryType.{delivery_type_eq}
use professional_bot.Domain.Inventory.{
  sold, ReservationStatus, active, consumed, reservation_status_eq, InventoryItem,
  InventoryReservation, Stock, flush, claim_available, holds_for, mark_reserved, reserve, set_row,
  for_each, active_for_order,
}

-- The UPDATE of `consume`, whatever the status of the item.
unfoldable pub sell_item : ℕ → ℕ → List InventoryItem → List InventoryItem
sell_item now i [] = []
sell_item now i (item ∷ items) =
    (if item.id == i then record item { status = sold; sold_at = some now } else item)
    ∷ sell_item now i items

abbrev pub sale : ℕ → InventoryReservation → InventoryReservation
sale now r = record r { status = consumed; consumed_at = some now }

abbrev pub sell : ℕ → InventoryReservation → Stock → Stock
sell now r stock = record {
  items = sell_item now r.inventory_item_id stock.items;
  reservations = set_row (sale now r) stock.reservations;
}

unfoldable pub consume : ℕ → InventoryReservation → Stock → Result Stock
consume now r stock = flush (sell now r stock)

-- The reservations of an order item with a status.
abbrev pub is_of : ℕ → ℕ → ReservationStatus → InventoryReservation → Bool
is_of order_id order_item_id status r =
    r.order_id == order_id && r.order_item_id == order_item_id && r.status == status

unfoldable pub rows_for :
    ℕ → ℕ → ReservationStatus → List InventoryReservation → List InventoryReservation
rows_for order_id order_item_id status rs = filter_by (is_of order_id order_item_id status) rs

-- `get_many`, in the order of the table.
unfoldable pub get_many : List ℕ → List InventoryItem → List InventoryItem
get_many ids items = filter_by (λ i. contains ids i.id) items

abbrev pub item_ids : List InventoryReservation → List ℕ
item_ids rs = map (λ r. r.inventory_item_id) rs

-- The loop that writes `order_item_id` into the items.
unfoldable pub assign_items : List ℕ → ℕ → List InventoryItem → List InventoryItem
assign_items ids order_item_id [] = []
assign_items ids order_item_id (item ∷ items) =
    (if contains ids item.id then record item { order_item_id = some order_item_id } else item)
    ∷ assign_items ids order_item_id items

-- Fresh stock for a hold that lapsed: the active rows, with the new ones.
unfoldable pub top_up :
    ℕ
    → ℕ
    → ℕ
    → ℕ
    → ℕ
    → ℕ
    → List InventoryReservation
    → Stock
    → Result (List InventoryReservation × Stock)
top_up row now product_id missing order_id order_item_id active_rows stock =
    let replacement = claim_available product_id missing stock.items in
    let rows = holds_for row (now + seconds 3600) order_id order_item_id replacement in
    if ltb (length replacement) missing
    then err insufficient_stock
    else flush (record {
      items = mark_reserved (map (λ i. i.id) replacement) order_item_id stock.items;
      reservations = stock.reservations ++ rows;
    })
      >>= (λ after. ok (active_rows ++ rows, after))

-- The rest of the code, on the active rows and the consumed ones.
unfoldable pub consume_all :
    ℕ
    → ℕ
    → List InventoryReservation
    → List InventoryReservation
    → Stock
    → Result (List InventoryItem × Stock)
consume_all now order_item_id active_rows consumed_rows stock = do
  after ← for_each (consume now) active_rows stock
  let ids = item_ids (active_rows ++ consumed_rows)
  let items = assign_items ids order_item_id after.items
  done ← flush (record after { items = items })
  ok (get_many ids done.items, done)

-- `allocate_for_order_item`; `row` is the next free id of a reservation.
unfoldable pub allocate : ℕ → ℕ → Product → ℕ → ℕ → ℕ → Stock → Result (List InventoryItem × Stock)
allocate row now product quantity order_id order_item_id stock =
    let active_rows = rows_for order_id order_item_id active stock.reservations in
    let consumed_rows = rows_for order_id order_item_id consumed stock.reservations in
    let held = length active_rows + length consumed_rows in
    if not (product.delivery_type == DeliveryType.stock_item)
    then ok ([], stock)
    else if ltb 0 (length consumed_rows) && not (ltb 0 (length active_rows))
    then ok (get_many (item_ids consumed_rows) stock.items, stock)
    else if ltb held quantity
    then top_up row now product.id (quantity - length active_rows - length consumed_rows) order_id
        order_item_id active_rows stock
      >>= (λ topped. consume_all now order_item_id topped.0 consumed_rows topped.1)
    else consume_all now order_item_id active_rows consumed_rows stock

-- `reserve`, for any product.
unfoldable pub reserve_product :
    ℕ → ℕ → Product → ℕ → ℕ → ℕ → Stock → Result (List InventoryReservation × Stock)
reserve_product row expires_at product quantity order_id order_item_id stock =
    if product.delivery_type == DeliveryType.stock_item
    then reserve row expires_at product.id quantity order_id order_item_id stock
    else ok ([], stock)

unfoldable pub set_expiry : ℕ → ℕ → List InventoryReservation → List InventoryReservation
set_expiry order_id expires_at [] = []
set_expiry order_id expires_at (r ∷ rs) =
    (if r.order_id == order_id && r.status == active
      then record r { expires_at = expires_at }
      else r)
    ∷ set_expiry order_id expires_at rs

unfoldable pub extend_reservations : ℕ → ℕ → ℕ → Stock → Result (ℕ × Stock)
extend_reservations now order_id ttl_seconds stock = do
  after ← flush (record stock {
    reservations = set_expiry order_id (now + seconds ttl_seconds) stock.reservations;
  })
  ok (length (active_for_order order_id stock.reservations), after)
