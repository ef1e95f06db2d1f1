-- ===== src/Domain/Inventory/Restocking.antt =====
-- `add_stock` and `mark_invalid` of app/domain/inventory/service.py, `find_by_fingerprint` of
-- app/db/repositories/catalog.py and the UNIQUE constraint on `(product_id, fingerprint)`. The session
-- of app/db/session.py does not flush by itself, so that a lookup sees no row that was only added.
pub mod Imports
pub mod Twice
pub mod Bad
use professional_bot.Prelude.{
  ℕ, zero, suc, ◌+◌, Bool, true, false, not, ◌&&◌, List, [], ◌∷◌, ◌++◌, Option, none, some, ◌==◌,
  nat_eq, if◌then◌else◌, any, take, length, Result, ok, err, ◌>>=◌, integrity_error, out_of_stock,
}
use professional_bot.Prelude.Text.{Text, text_eq, is_empty, strip}
use professional_bot.Domain.Inventory.{
  available, sold, invalid, stock_item_status_eq, InventoryItem, Stock,
}
use professional_bot.Domain.Payments.Fingerprint.{payload_fingerprint}

abbrev pub same_key : InventoryItem → InventoryItem → Bool
same_key a b = b.product_id == a.product_id && b.fingerprint == a.fingerprint

-- The UNIQUE constraint holds.
unfoldable pub has_unique_keys : List InventoryItem → Bool
has_unique_keys [] = true
has_unique_keys (i ∷ items) = not (any (same_key i) items) && has_unique_keys items

unfoldable pub flush_items : Stock → Result Stock
flush_items stock = if has_unique_keys stock.items then ok stock else err integrity_error

abbrev pub has_fingerprint : ℕ → Text → InventoryItem → Bool
has_fingerprint product_id fp i = i.product_id == product_id && i.fingerprint == fp

-- `find_by_fingerprint` finds a row.
unfoldable pub is_known : ℕ → Text → List InventoryItem → Bool
is_known product_id fp items = any (has_fingerprint product_id fp) items

-- The columns of `InventoryAdjustment`.
pub record Adjustment : Type 0 where
  pub product_id : ℕ
  pub inventory_item_id : Option ℕ
  pub action : Text
  pub added : ℕ
  pub removed : ℕ

module _ (sha256 encrypt : Text → Text) where
  abbrev pub new_item : ℕ → ℕ → Text → InventoryItem
  new_item row product_id payload = record {
    id = row;
    product_id = product_id;
    status = available;
    order_item_id = none;
    secret_payload = encrypt payload;
    fingerprint = payload_fingerprint sha256 payload;
    sold_at = none;
    invalid_reason = none;
  }

  -- The loop: the rows that it adds, and the number of payloads that it skips. `items` are the rows
  -- in the database, `row` the next free id.
  unfoldable pub collect : ℕ → ℕ → List InventoryItem → List Text → List InventoryItem × ℕ
  collect row product_id items [] = ([], 0)
  collect row product_id items (raw ∷ raws) =
      let payload = strip raw in
      let same = collect row product_id items raws in
      let next = collect (suc row) product_id items raws in
      if is_empty payload
      then same
      else if is_known product_id (payload_fingerprint sha256 payload) items
      then (same.0, suc same.1)
      else (new_item row product_id payload ∷ next.0, next.1)

  -- `add_stock`: what was added and skipped, and the stock.
  unfoldable pub add_stock : ℕ → ℕ → List Text → Stock → Result (ℕ × (ℕ × Stock))
  add_stock row product_id raws stock =
      let found = collect row product_id stock.items raws in
      flush_items (record stock { items = stock.items ++ found.0 })
      >>= (λ after. ok (length found.0, (found.1, after)))

-- The row of an item with its new values.
unfoldable pub set_item : InventoryItem → List InventoryItem → List InventoryItem
set_item item [] = []
set_item item (i ∷ items) = (if i.id == item.id then item else i) ∷ set_item item items

unfoldable pub mark_invalid : InventoryItem → Text → Stock → Result Stock
mark_invalid item reason stock =
    if item.status == sold
    then err out_of_stock
    else flush_items (record stock {
      items =
          set_item (record item { status = invalid; invalid_reason = some (take 255 reason) })
            stock.items;
    })
