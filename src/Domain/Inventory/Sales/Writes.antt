-- ===== src/Domain/Inventory/Sales/Writes.antt =====
-- Membership in the tables of app/domain/inventory/service.py after each of its writes.
use professional_bot.Prelude.{
  ℕ, zero, suc, ◌+◌, ◌≡◌, refl, sym, ap, true, false, ◌&&◌, List, [], ◌∷◌, arith, In, ◌⊎◌, ◌==◌,
  nat_eq, contains, map, filter_by, take, Bool-cases, inl, inr, nat_eqb_iff,
}
use professional_bot.Domain.Inventory.{
  StockItemStatus, available, reserved, sold, active, stock_item_status_eq, reservation_status_eq,
  InventoryItem, InventoryReservation, holds_for, mark_reserved, set_row, free_item,
}
use professional_bot.Domain.Inventory.Allocation.{sell_item, assign_items, set_expiry}
use professional_bot.Domain.Inventory.Restocking.{set_item}

-- A row of `items` with the id and the status of `j`.
abbrev pub Like : List InventoryItem → InventoryItem → StockItemStatus → Type 0
Like items j status = (x : InventoryItem) × In x items × (x.id ≡ j.id) × (x.status ≡ status)

pub Like-later :
    (x : InventoryItem) (items : List InventoryItem) (j : InventoryItem) (s : StockItemStatus)
    → Like items j s
    → Like (x ∷ items) j s
Like-later x items j s (y, m, same, state) = (y, inr m, same, state)

pub set_row-In_cases :
    (r e : InventoryReservation) (rs : List InventoryReservation)
    → In e (set_row r rs)
    → (e ≡ r) ⊎ In e rs
unfolding set_row
set_row-In_cases r e [] m = absurd m.1
set_row-In_cases r e (x ∷ rs) (inr m) = elim (set_row-In_cases r e rs m) [
  | inl same ↦ inl same
  | inr old ↦ inr (inr old)
]
set_row-In_cases r e (x ∷ rs) (inl p) = elim (Bool-cases (x.id == r.id)) [
  | inl hit ↦ inl (rw hit at p)
  | inr miss ↦ inr (inl (rw miss at p))
]

pub free_item-In :
    (i : ℕ) (j : InventoryItem) (items : List InventoryItem)
    → In j (free_item i items)
    → In j items ⊎ Like items j reserved
unfolding free_item
free_item-In i j [] m = absurd m.1
free_item-In i j (x ∷ items) (inr m) = elim (free_item-In i j items m) [
  | inl old ↦ inl (inr old)
  | inr like ↦ inr (Like-later x items j reserved like)
]
free_item-In i j (x ∷ items) (inl p) = elim (Bool-cases (x.id == i && x.status == reserved)) [
  | inl hit ↦ inr (
    x,
    inl refl,
    sym (ap (λ y. y.id) (rw hit at p)),
    ground (arith, stock_item_status_eq.beq_iff x.status reserved),
  )
  | inr miss ↦ inl (inl (rw miss at p))
]

pub sell_item-In :
    (now i : ℕ) (j : InventoryItem) (items : List InventoryItem)
    → In j (sell_item now i items)
    → In j items ⊎ (j.status ≡ sold)
unfolding sell_item
sell_item-In now i j [] m = absurd m.1
sell_item-In now i j (x ∷ items) (inr m) = elim (sell_item-In now i j items m) [
  | inl old ↦ inl (inr old)
  | inr done ↦ inr done
]
sell_item-In now i j (x ∷ items) (inl p) = elim (Bool-cases (x.id == i)) [
  | inl hit ↦ inr (ap (λ y. y.status) (rw hit at p))
  | inr miss ↦ inl (inl (rw miss at p))
]

pub sell_item-sells :
    (now i : ℕ) (j : InventoryItem) (items : List InventoryItem)
    → In j (sell_item now i items)
    → j.id ≡ i
    → j.status ≡ sold
unfolding sell_item
sell_item-sells now i j [] m e = absurd m.1
sell_item-sells now i j (x ∷ items) (inr m) e = sell_item-sells now i j items m e
sell_item-sells now i j (x ∷ items) (inl p) e = elim (Bool-cases (x.id == i)) [
  | inl hit ↦ ap (λ y. y.status) (rw hit at p)
  | inr miss ↦ ground (arith, ap (λ y. y.id) (rw miss at p), nat_eqb_iff x.id i)
]

pub assign_items-In :
    (ids : List ℕ) (oi : ℕ) (j : InventoryItem) (items : List InventoryItem)
    → In j (assign_items ids oi items)
    → Like items j j.status
unfolding assign_items
assign_items-In ids oi j [] m = absurd m.1
assign_items-In ids oi j (x ∷ items) (inr m) =
    Like-later x items j j.status (assign_items-In ids oi j items m)
assign_items-In ids oi j (x ∷ items) (inl p) = elim (Bool-cases (contains ids x.id)) [
  | inl hit ↦
      let q = rw hit at p in (x, inl refl, sym (ap (λ y. y.id) q), sym (ap (λ y. y.status) q))
  | inr miss ↦
      let q = rw miss at p in (x, inl refl, sym (ap (λ y. y.id) q), sym (ap (λ y. y.status) q))
]

pub mark_reserved-In :
    (ids : List ℕ) (oi : ℕ) (j : InventoryItem) (items : List InventoryItem)
    → In j (mark_reserved ids oi items)
    → contains ids j.id ≡ false
    → In j items
unfolding mark_reserved
mark_reserved-In ids oi j [] m h = absurd m.1
mark_reserved-In ids oi j (x ∷ items) (inr m) h = inr (mark_reserved-In ids oi j items m h)
mark_reserved-In ids oi j (x ∷ items) (inl p) h = elim (Bool-cases (contains ids x.id)) [
  | inl hit ↦ absurd (cc (h, ap (λ y. contains ids y.id) (rw hit at p), hit))
  | inr miss ↦ inl (rw miss at p)
]

-- A claimed id is that of an available row.
pub contains-claimed :
    (p n i : ℕ) (items : List InventoryItem)
    → contains
        (map
          (λ x. x.id)
          (take n (filter_by (λ x. x.product_id == p && x.status == available) items)))
        i
      ≡ true
    → (x : InventoryItem) × In x items × (x.id ≡ i) × (x.status ≡ available)
contains-claimed p zero i items h = absurd (cc h)
contains-claimed p (suc n) i [] h = absurd (cc h)
contains-claimed p (suc n) i (x ∷ items) h =
    elim (Bool-cases (x.product_id == p && x.status == available)) [
      | inr miss ↦
          let (y, m, same, free) = contains-claimed p (suc n) i items (rw miss at h) in
          (y, inr m, same, free)
      | inl hit ↦ elim (Bool-cases (i == x.id)) [
        | inl same ↦ (
          x,
          inl refl,
          sym ((nat_eqb_iff i x.id).0 same),
          ground (arith, stock_item_status_eq.beq_iff x.status available),
        )
        | inr other ↦
            let (y, m, same, free) = contains-claimed p n i items (rw (hit, other) at h) in
            (y, inr m, same, free)
      ]
    ]

pub holds_for-In :
    (row e o oi : ℕ) (xs : List InventoryItem) (r : InventoryReservation)
    → In r (holds_for row e o oi xs)
    → r.status ≡ active
unfolding holds_for
holds_for-In row e o oi [] r m = absurd m.1
holds_for-In row e o oi (x ∷ xs) r (inl p) = ap (λ y. y.status) p
holds_for-In row e o oi (x ∷ xs) r (inr m) = holds_for-In (row + 1) e o oi xs r m

pub set_expiry-In :
    (o e : ℕ) (r : InventoryReservation) (rs : List InventoryReservation)
    → In r (set_expiry o e rs)
    → (s : InventoryReservation) × In s rs
      × (s.inventory_item_id ≡ r.inventory_item_id)
      × (s.status ≡ r.status)
unfolding set_expiry
set_expiry-In o e r [] m = absurd m.1
set_expiry-In o e r (x ∷ rs) (inr m) =
    let (s, n, same, state) = set_expiry-In o e r rs m in (s, inr n, same, state)
set_expiry-In o e r (x ∷ rs) (inl p) = elim (Bool-cases (x.order_id == o && x.status == active)) [
  | inl hit ↦
      let q = rw hit at p in
      (x, inl refl, sym (ap (λ y. y.inventory_item_id) q), sym (ap (λ y. y.status) q))
  | inr miss ↦
      let q = rw miss at p in
      (x, inl refl, sym (ap (λ y. y.inventory_item_id) q), sym (ap (λ y. y.status) q))
]

pub set_item-In :
    (item j : InventoryItem) (items : List InventoryItem)
    → In j (set_item item items)
    → (j ≡ item) ⊎ In j items
unfolding set_item
set_item-In item j [] m = absurd m.1
set_item-In item j (x ∷ items) (inr m) = elim (set_item-In item j items m) [
  | inl same ↦ inl same
  | inr old ↦ inr (inr old)
]
set_item-In item j (x ∷ items) (inl p) = elim (Bool-cases (x.id == item.id)) [
  | inl hit ↦ inl (rw hit at p)
  | inr miss ↦ inr (inl (rw miss at p))
]
