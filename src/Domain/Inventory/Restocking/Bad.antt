-- ===== src/Domain/Inventory/Restocking/Bad.antt =====
-- A held item that `mark_invalid` of app/domain/inventory/service.py takes out of circulation, and the
-- `consume` of app/db/repositories/catalog.py that follows.
use professional_bot.Prelude.{
  ℕ, ◌≡◌, refl, sym, subst, false, ◌==◌, List, [], ◌∷◌, arith, In, nat_eq, some, take, inl, inr, ok,
  nat_eqb_iff,
}
use professional_bot.Prelude.Text.{Text}
use professional_bot.Domain.Inventory.{
  reserved, sold, invalid, stock_item_status_eq, InventoryItem, InventoryReservation, Stock,
}
use professional_bot.Domain.Inventory.Allocation.{sell_item, sell, consume}
use professional_bot.Domain.Inventory.Restocking.{set_item, mark_invalid}
use professional_bot.Domain.Inventory.Sales.Kept.{flush-eq-ok}
use professional_bot.Domain.Inventory.Sales.Operations.{flush_items-eq-ok}

-- A row with the id that is sold.
abbrev pub HasSold : ℕ → List InventoryItem → Type 0
HasSold i items = (j : InventoryItem) × In j items × (j.id ≡ i) × (j.status ≡ sold)

set_item-In_self :
    (item old : InventoryItem) (items : List InventoryItem)
    → In old items
    → old.id ≡ item.id
    → In item (set_item item items)
unfolding set_item
set_item-In_self item old [] m e = absurd m.1
set_item-In_self item old (x ∷ items) (inl p) e =
    inl (rw (sym p) (ground (arith, nat_eqb_iff old.id item.id)))
set_item-In_self item old (x ∷ items) (inr m) e = inr (set_item-In_self item old items m e)

sell_item-HasSold :
    (now i : ℕ) (j : InventoryItem) (items : List InventoryItem)
    → In j items
    → j.id ≡ i
    → HasSold i (sell_item now i items)
unfolding sell_item
sell_item-HasSold now i j [] m e = absurd m.1
sell_item-HasSold now i j (x ∷ items) (inr m) e =
    let (y, n, is, state) = sell_item-HasSold now i j items m e in (y, inr n, is, state)
sell_item-HasSold now i j (x ∷ items) (inl p) e = (
  record j { status = sold; sold_at = some now },
  inl (rw (sym p) (rw ((nat_eqb_iff j.id i).1 e) refl)),
  e,
  refl,
)

-- An item that is on hold can be marked INVALID, and the payment of its hold then sells it all the
-- same: when both calls return, a row with its id is SOLD.
pub mark_invalid-sold :
    (item : InventoryItem) (reason : Text) (now : ℕ) (r : InventoryReservation) (s t u : Stock)
    → In item s.items
    → item.status ≡ reserved
    → r.inventory_item_id ≡ item.id
    → mark_invalid item reason s ≡ ok t
    → consume now r t ≡ ok u
    → HasSold item.id u.items
unfolding mark_invalid consume
mark_invalid-sold item reason now r s t u here held of_item h g =
    let bad : InventoryItem = record item {
      status = invalid;
      invalid_reason = some (take 255 reason);
    } in
    let open_item : (item.status == sold) ≡ false = rw held refl in
    let marked = flush_items-eq-ok _ t (rw open_item at h) in
    let there : In bad t.items =
      subst (λ x. In bad x.items) marked (set_item-In_self bad item s.items here refl) in
    subst (λ x. HasSold item.id x.items) (flush-eq-ok (sell now r t) u g).0
      (rw of_item (sell_item-HasSold now item.id bad t.items there refl))
