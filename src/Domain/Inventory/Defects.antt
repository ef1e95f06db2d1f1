-- ===== src/Domain/Inventory/Defects.antt =====
-- Two holds of one item, in the constraint of app/db/models/catalog.py.
use professional_bot.Prelude.{
  ℕ, ◌≡◌, ◌≢◌, refl, sym, ◌∙◌, ap, true, false, List, [], ◌∷◌, arith, In, any, nat_eq, inl, inr,
  err, integrity_error, nat_eqb_iff, some,
}
use professional_bot.Domain.Inventory.{
  expired, reservation_status_eq, InventoryReservation, Stock, clash, is_unique, flush, set_row,
  expire_hold,
}

-- Two rows with one item and one status.
abbrev Twins : InventoryReservation → InventoryReservation → Type 0
Twins a b = (a.inventory_item_id ≡ b.inventory_item_id) × (a.status ≡ b.status)

clash_of : (a b : InventoryReservation) → Twins a b → clash a b ≡ true
clash_of a b h = ground (
  arith,
  nat_eqb_iff b.inventory_item_id a.inventory_item_id,
  reservation_status_eq.beq_iff b.status a.status,
)

any-clash :
    (a b : InventoryReservation) (rs : List InventoryReservation)
    → In b rs
    → Twins a b
    → any (clash a) rs ≡ true
any-clash a b [] m h = absurd m.1
any-clash a b (x ∷ rs) (inl same) h = rw (sym same) (ground (arith, clash_of a b h))
any-clash a b (x ∷ rs) (inr later) h = ground (arith, any-clash a b rs later h)

not_unique :
    (a b : InventoryReservation) (rs : List InventoryReservation)
    → In a rs
    → In b rs
    → a.id ≢ b.id
    → Twins a b
    → is_unique rs ≡ false
unfolding is_unique
not_unique a b [] m n d h = absurd m.1
not_unique a b (x ∷ rs) (inl p) (inl q) d h = absurd (d (ap (λ y. y.id) (p ∙ sym q)))
not_unique a b (x ∷ rs) (inl p) (inr n) d h = rw (sym p) (ground (arith, any-clash a b rs n h))
not_unique a b (x ∷ rs) (inr m) (inl q) d h =
    rw (sym q) (ground (arith, any-clash b a rs m (sym h.0, sym h.1)))
not_unique a b (x ∷ rs) (inr m) (inr n) d h = ground (arith, not_unique a b rs m n d h)

pub set_row-In_other :
    (r e : InventoryReservation) (rs : List InventoryReservation)
    → In e rs
    → e.id ≢ r.id
    → In e (set_row r rs)
unfolding set_row
set_row-In_other r e [] m d = absurd m.1
set_row-In_other r e (x ∷ rs) (inl p) d = inl (rw (sym p) (ground (arith, nat_eqb_iff e.id r.id)))
set_row-In_other r e (x ∷ rs) (inr m) d = inr (set_row-In_other r e rs m d)

pub set_row-In :
    (r s : InventoryReservation) (rs : List InventoryReservation)
    → In s rs
    → s.id ≡ r.id
    → In r (set_row r rs)
unfolding set_row
set_row-In r s [] m d = absurd m.1
set_row-In r s (x ∷ rs) (inl p) d = inl (rw (sym p) (ground (arith, nat_eqb_iff s.id r.id)))
set_row-In r s (x ∷ rs) (inr m) d = inr (set_row-In r s rs m d)

-- When a hold of an item has lapsed before, and its row is still there, expiring another hold of the
-- same item raises `IntegrityError`.
pub expire_hold_again :
    (now : ℕ) (old new : InventoryReservation) (stock : Stock)
    → In old stock.reservations
    → In new stock.reservations
    → old.id ≢ new.id
    → old.inventory_item_id ≡ new.inventory_item_id
    → old.status ≡ expired
    → expire_hold now new stock ≡ err integrity_error
unfolding expire_hold flush
expire_hold_again now old new stock m n d same lapsed =
    let ended : InventoryReservation = record new { status = expired; released_at = some now } in
    rw
      (not_unique old ended (set_row ended stock.reservations)
        (set_row-In_other ended old stock.reservations m d)
        (set_row-In ended new stock.reservations n refl) d (same, lapsed))
      refl
