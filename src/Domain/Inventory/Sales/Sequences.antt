-- ===== src/Domain/Inventory/Sales/Sequences.antt =====
-- Sequences of the operations of app/domain/inventory/service.py, each of which returned.
use professional_bot.Prelude.{ℕ, ◌≤◌, ◌≡◌, refl, true, List, [], In, ok}
use professional_bot.Prelude.Text.{Text}
use professional_bot.Domain.Catalog.{Product}
use professional_bot.Domain.Inventory.{
  consumed, InventoryItem, InventoryReservation, Stock, reserve, release_for_order, reap_expired,
  is_unique,
}
use professional_bot.Domain.Inventory.Allocation.{allocate, extend_reservations}
use professional_bot.Domain.Inventory.Restocking.{add_stock, mark_invalid}
use professional_bot.Domain.Inventory.Holds.{rows_of, is_unique-rows_of}
use professional_bot.Domain.Inventory.Sales.Kept.{IsSound, IsValid}
use professional_bot.Domain.Inventory.Sales.Operations.{
  IsFresh, reserve-IsValid, release_for_order-IsValid, reap_expired-IsValid,
  extend_reservations-IsValid, allocate-IsValid, add_stock-IsValid, mark_invalid-IsValid,
}

nothing_clashes : is_unique [] ≡ true
unfolding is_unique
nothing_clashes = refl

abbrev pub empty_stock : Stock
empty_stock = record { items = []; reservations = [] }

-- What holds of the sales of a stock.
pub record SoldOnce (stock : Stock) : Type 0 where
  pub at_most_once : (i : ℕ) → rows_of i consumed stock.reservations ≤ 1
  pub stays_sold : IsSound stock.items stock.reservations

module _ (sha256 encrypt : Text → Text) where
  -- One operation that returned.
  pub data Step (s t : Stock) : Type 0 where
    reserved :
        (row expires_at product_id quantity order_id order_item_id : ℕ)
        (rows : List InventoryReservation)
        → reserve row expires_at product_id quantity order_id order_item_id s ≡ ok (rows, t)
        → Step s t
    allocated :
        (row now : ℕ) (product : Product) (quantity order_id order_item_id : ℕ)
        (items : List InventoryItem)
        → allocate row now product quantity order_id order_item_id s ≡ ok (items, t)
        → Step s t
    released : (now order_id n : ℕ) → release_for_order now order_id s ≡ ok (n, t) → Step s t
    reaped : (now limit n : ℕ) → reap_expired now limit s ≡ ok (n, t) → Step s t
    extended :
        (now order_id ttl n : ℕ) → extend_reservations now order_id ttl s ≡ ok (n, t) → Step s t
    restocked :
        (row product_id : ℕ) (raws : List Text) (added skipped : ℕ)
        → IsFresh row s
        → add_stock sha256 encrypt row product_id raws s ≡ ok (added, (skipped, t))
        → Step s t
    invalidated :
        (item : InventoryItem) (reason : Text)
        → In item s.items
        → mark_invalid item reason s ≡ ok t
        → Step s t

  pub data Steps : Stock → Stock → Type 0 where
    done : {s : Stock} → Steps s s
    next : {s t u : Stock} → Step s t → Steps t u → Steps s u

  Step-IsValid : (s t : Stock) → Step s t → IsValid s → IsValid t
  Step-IsValid s t (reserved row e p n o oi rows h) v = reserve-IsValid row e p n o oi s rows t h v
  Step-IsValid s t (allocated row now p n o oi items h) v =
      allocate-IsValid row now p n o oi s items t h v
  Step-IsValid s t (released now o n h) v = release_for_order-IsValid now o s n t h v
  Step-IsValid s t (reaped now limit n h) v = reap_expired-IsValid now limit s n t h v
  Step-IsValid s t (extended now o ttl n h) v = extend_reservations-IsValid now o ttl s n t h v
  Step-IsValid s t (restocked row p raws n k fresh h) v =
      add_stock-IsValid sha256 encrypt row p raws s n k t fresh h v
  Step-IsValid s t (invalidated item reason here h) v =
      mark_invalid-IsValid item reason s t here h v

  pub Steps-IsValid : (s t : Stock) → Steps s t → IsValid s → IsValid t
  Steps-IsValid s t done v = v
  Steps-IsValid s t (next {t = u} step rest) v = Steps-IsValid u t rest (Step-IsValid s u step v)

  -- After any sequence of reservations, allocations, releases, expiries, extensions, imports with new
  -- ids and invalidations that return, from no stock at all, each item has been sold to at most one
  -- hold, and an item with such a hold is SOLD.
  pub reachable-SoldOnce : (stock : Stock) → Steps empty_stock stock → SoldOnce stock
  reachable-SoldOnce stock steps =
      let valid =
        Steps-IsValid empty_stock stock steps
          (record { sound = λ r m. absurd m.1; unique = nothing_clashes }) in
      record {
        at_most_once = λ i. is_unique-rows_of i consumed stock.reservations valid.unique;
        stays_sold = valid.sound;
      }
