-- ===== src/Domain/Inventory.antt =====
-- The holds of app/domain/inventory/service.py with `InventoryRepository.claim_available` and
-- `ReservationRepository` of app/db/repositories/catalog.py. A flush checks the UNIQUE constraint on
-- `(inventory_item_id, status)` of app/db/models/catalog.py. Items stand in the order of their creation.
pub mod Holds
pub mod Allocation
pub mod Restocking
pub mod Availability
pub mod Sales
pub mod Defects
pub mod Freed
pub mod Releases
use professional_bot.Prelude.{
  ℕ, ◌+◌, ◌≡◌, Bool, true, false, not, ◌&&◌, List, [], ◌∷◌, ◌++◌, Option, none, some, arith, Eq,
  code_eq, ◌==◌, nat_eq, if◌then◌else◌, ltb, leb, length, filter_by, take, any, contains, map,
  Result, ok, err, ◌>>=◌, insufficient_stock, integrity_error,
}
use professional_bot.Prelude.Text.{Text}

pub data StockItemStatus : Type 0 where
  available reserved sold invalid : StockItemStatus

pub data ReservationStatus : Type 0 where
  active consumed released expired : ReservationStatus

abbrev pub item_code : StockItemStatus → ℕ
item_code available = 0
item_code reserved = 1
item_code sold = 2
item_code invalid = 3

pub item_code-injective : (a b : StockItemStatus) → item_code a ≡ item_code b → a ≡ b
item_code-injective a b h = ground arith

instance abbrev pub stock_item_status_eq : Eq StockItemStatus
stock_item_status_eq = code_eq item_code item_code-injective

abbrev pub hold_code : ReservationStatus → ℕ
hold_code active = 0
hold_code consumed = 1
hold_code released = 2
hold_code expired = 3

pub hold_code-injective : (a b : ReservationStatus) → hold_code a ≡ hold_code b → a ≡ b
hold_code-injective a b h = ground arith

instance abbrev pub reservation_status_eq : Eq ReservationStatus
reservation_status_eq = code_eq hold_code hold_code-injective

pub record InventoryItem : Type 0 where
  pub id : ℕ
  pub product_id : ℕ
  pub status : StockItemStatus
  pub order_item_id : Option ℕ
  pub secret_payload : Text
  pub fingerprint : Text
  pub sold_at : Option ℕ
  pub invalid_reason : Option Text

pub record InventoryReservation : Type 0 where
  pub id : ℕ
  pub inventory_item_id : ℕ
  pub order_id : ℕ
  pub order_item_id : ℕ
  pub status : ReservationStatus
  pub expires_at : ℕ
  pub released_at : Option ℕ
  pub consumed_at : Option ℕ

pub record Stock : Type 0 where
  pub items : List InventoryItem
  pub reservations : List InventoryReservation

abbrev pub clash : InventoryReservation → InventoryReservation → Bool
clash r s = s.inventory_item_id == r.inventory_item_id && s.status == r.status

-- The UNIQUE constraint holds.
unfoldable pub is_unique : List InventoryReservation → Bool
is_unique [] = true
is_unique (r ∷ rs) = not (any (clash r) rs) && is_unique rs

-- `session.flush()`
unfoldable pub flush : Stock → Result Stock
unfolding is_unique
flush stock = if is_unique stock.reservations then ok stock else err integrity_error

unfoldable pub claim_available : ℕ → ℕ → List InventoryItem → List InventoryItem
claim_available product_id quantity items =
    take quantity (filter_by (λ i. i.product_id == product_id && i.status == available) items)

abbrev pub new_reservation : ℕ → ℕ → ℕ → ℕ → InventoryItem → InventoryReservation
new_reservation row expires_at order_id order_item_id item = record {
  id = row;
  inventory_item_id = item.id;
  order_id = order_id;
  order_item_id = order_item_id;
  status = active;
  expires_at = expires_at;
  released_at = none;
  consumed_at = none;
}

-- The rows that the loop adds; `row` is the next free id.
unfoldable pub holds_for : ℕ → ℕ → ℕ → ℕ → List InventoryItem → List InventoryReservation
holds_for row expires_at order_id order_item_id [] = []
holds_for row expires_at order_id order_item_id (item ∷ items) =
    new_reservation row expires_at order_id order_item_id item
    ∷ holds_for (row + 1) expires_at order_id order_item_id items

unfoldable pub mark_reserved : List ℕ → ℕ → List InventoryItem → List InventoryItem
mark_reserved ids order_item_id [] = []
mark_reserved ids order_item_id (item ∷ items) =
    (if contains ids item.id
      then record item { status = reserved; order_item_id = some order_item_id }
      else item)
    ∷ mark_reserved ids order_item_id items

abbrev or_insufficient :
    List InventoryReservation → Result Stock → Result (List InventoryReservation × Stock)
or_insufficient rows (ok stock) = ok (rows, stock)
or_insufficient rows (err _) = err insufficient_stock

-- `reserve`, for a product whose stock is counted.
unfoldable pub reserve : ℕ → ℕ → ℕ → ℕ → ℕ → ℕ → Stock → Result (List InventoryReservation × Stock)
unfolding claim_available holds_for mark_reserved flush
reserve row expires_at product_id quantity order_id order_item_id stock =
    let claimed = claim_available product_id quantity stock.items in
    let rows = holds_for row expires_at order_id order_item_id claimed in
    if ltb (length claimed) quantity
    then err insufficient_stock
    else or_insufficient rows (
        flush (record {
          items = mark_reserved (map (λ i. i.id) claimed) order_item_id stock.items;
          reservations = stock.reservations ++ rows;
        }))

-- The row's new values, and the UPDATE that frees its item.
unfoldable pub set_row :
    InventoryReservation → List InventoryReservation → List InventoryReservation
set_row r [] = []
set_row r (s ∷ rs) = (if s.id == r.id then r else s) ∷ set_row r rs

unfoldable pub free_item : ℕ → List InventoryItem → List InventoryItem
free_item i [] = []
free_item i (item ∷ items) =
    (if item.id == i && item.status == reserved
      then record item { status = available; order_item_id = none }
      else item)
    ∷ free_item i items

abbrev pub end_hold : ReservationStatus → ℕ → InventoryReservation → Stock → Stock
end_hold status now r stock = record {
  items = free_item r.inventory_item_id stock.items;
  reservations = set_row (record r { status = status; released_at = some now }) stock.reservations;
}

-- `ReservationRepository.release` and `expire`.
unfoldable pub release : ℕ → InventoryReservation → Stock → Result Stock
unfolding flush set_row free_item
release now r stock = flush (end_hold released now r stock)

unfoldable pub expire_hold : ℕ → InventoryReservation → Stock → Result Stock
unfolding flush set_row free_item
expire_hold now r stock = flush (end_hold expired now r stock)

-- A loop that ends the holds one by one.
unfoldable pub for_each :
    (InventoryReservation → Stock → Result Stock) → List InventoryReservation → Stock → Result Stock
for_each f [] stock = ok stock
for_each f (r ∷ rs) stock = f r stock >>= λ next. for_each f rs next

unfoldable pub active_for_order : ℕ → List InventoryReservation → List InventoryReservation
active_for_order order_id rs = filter_by (λ r. r.order_id == order_id && r.status == active) rs

unfoldable pub release_for_order : ℕ → ℕ → Stock → Result (ℕ × Stock)
unfolding active_for_order release for_each
release_for_order now order_id stock =
    let rows = active_for_order order_id stock.reservations in
    for_each (release now) rows stock >>= λ after. ok (length rows, after)

-- ORDER BY expires_at
unfoldable pub by_expiry :
    InventoryReservation → List InventoryReservation → List InventoryReservation
by_expiry r [] = r ∷ []
by_expiry r (s ∷ rs) =
    let rest = by_expiry r rs in if leb r.expires_at s.expires_at then r ∷ s ∷ rs else s ∷ rest

unfoldable pub sort_by_expiry : List InventoryReservation → List InventoryReservation
unfolding by_expiry
sort_by_expiry [] = []
sort_by_expiry (r ∷ rs) = by_expiry r (sort_by_expiry rs)

unfoldable pub reap_expired : ℕ → ℕ → Stock → Result (ℕ × Stock)
unfolding sort_by_expiry expire_hold for_each
reap_expired now limit stock =
    let lapsed = filter_by (λ r. r.status == active && leb r.expires_at now) stock.reservations in
    let rows = take limit (sort_by_expiry lapsed) in
    for_each (expire_hold now) rows stock >>= λ after. ok (length rows, after)
