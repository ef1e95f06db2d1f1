-- ===== src/Domain/Inventory/Holds.antt =====
-- `reserve` of app/domain/inventory/service.py: what a hold takes.
use professional_bot.Prelude.{
  ℕ, zero, suc, ◌+◌, ◌≤◌, ◌≡◌, refl, ◌∙◌, ap, subst, true, false, ◌&&◌, List, [], ◌∷◌, ◌++◌, arith,
  All, In, any, ◌==◌, nat_eq, if◌then◌else◌, ltb, length, filter_by, take, map, Bool-cases, inl,
  inr, ok, nat_eqb_iff, contains, min, length-take, ok-injective,
}
use professional_bot.Domain.Inventory.{
  available, reserved, ReservationStatus, active, reservation_status_eq, stock_item_status_eq,
  InventoryItem, InventoryReservation, Stock, clash, is_unique, flush, claim_available, holds_for,
  mark_reserved, reserve,
}

-- The rows of item `i` with status `s`.
unfoldable pub rows_of : ℕ → ReservationStatus → List InventoryReservation → ℕ
rows_of i s [] = 0
rows_of i s (r ∷ rs) =
    let rest = rows_of i s rs in
    if r.inventory_item_id == i && r.status == s then suc rest else rest

none_of :
    (r : InventoryReservation) (rs : List InventoryReservation)
    → any (clash r) rs ≡ false
    → rows_of r.inventory_item_id r.status rs ≡ 0
unfolding rows_of
none_of r [] h = refl
none_of r (x ∷ rs) h = ground (arith, none_of r rs)

pub is_unique-rows_of :
    (i : ℕ) (s : ReservationStatus) (rs : List InventoryReservation)
    → is_unique rs ≡ true
    → rows_of i s rs ≤ 1
unfolding rows_of is_unique
is_unique-rows_of i s [] h = omega arith
is_unique-rows_of i s (r ∷ rs) h = ground (
  arith,
  is_unique-rows_of i s rs,
  none_of r rs,
  nat_eqb_iff r.inventory_item_id i,
  reservation_status_eq.beq_iff r.status s,
)

-- An available item of the product.
abbrev pub IsFree : ℕ → List InventoryItem → ℕ → Type 0
IsFree product_id items i =
    (item : InventoryItem) × In item items
    × (item.id ≡ i)
    × (item.product_id ≡ product_id)
    × (item.status ≡ available)

claimable :
    (p : ℕ) (items : List InventoryItem) (n : ℕ)
    → All
        (λ x. IsFree p items x.id)
        (take n (filter_by (λ i. i.product_id == p && i.status == available) items))
claimable p items n = chosen n items (λ x m. m)
  where
    chosen :
        (n : ℕ) (xs : List InventoryItem)
        → ((x : InventoryItem) → In x xs → In x items)
        → All
            (λ x. IsFree p items x.id)
            (take n (filter_by (λ i. i.product_id == p && i.status == available) xs))
    chosen zero xs sub = tt
    chosen (suc n) [] sub = tt
    chosen (suc n) (x ∷ xs) sub = elim (Bool-cases (x.product_id == p && x.status == available)) [
      | inl fits ↦ rw fits (
        (
          x,
          sub x (inl refl),
          refl,
          ground (arith, nat_eqb_iff x.product_id p),
          ground (arith, stock_item_status_eq.beq_iff x.status available),
        ),
        chosen n xs (λ y m. sub y (inr m)),
      )
      | inr other ↦ rw other (chosen (suc n) xs (λ y m. sub y (inr m)))
    ]

-- A hold of one of `items`, which is free, for the order.
abbrev pub IsHold : ℕ → ℕ → List InventoryItem → InventoryReservation → Type 0
IsHold product_id order_id items r =
    IsFree product_id items r.inventory_item_id × (r.status ≡ active) × (r.order_id ≡ order_id)

holds_for-IsHold :
    (row expires_at order_id order_item_id product_id : ℕ) (all xs : List InventoryItem)
    → All (λ x. IsFree product_id all x.id) xs
    → All (IsHold product_id order_id all) (holds_for row expires_at order_id order_item_id xs)
unfolding holds_for
holds_for-IsHold row e o oi p all [] h = tt
holds_for-IsHold row e o oi p all (x ∷ xs) h =
    ((h.0, refl, refl), holds_for-IsHold (row + 1) e o oi p all xs h.1)

pub length-holds_for :
    (row e o oi : ℕ) (xs : List InventoryItem) → length (holds_for row e o oi xs) ≡ length xs
unfolding holds_for
length-holds_for row e o oi [] = refl
length-holds_for row e o oi (x ∷ xs) = ap suc (length-holds_for (row + 1) e o oi xs)

-- Every item that a row names is reserved in `items`.
abbrev pub AreReserved : List InventoryReservation → List InventoryItem → Type 0
AreReserved rows items =
    (r : InventoryReservation)
    → In r rows
    → (item : InventoryItem) → In item items
    → item.id ≡ r.inventory_item_id
    → item.status ≡ reserved

mark_reserved-marks :
    (ids : List ℕ) (oi : ℕ) (items : List InventoryItem) (j : InventoryItem)
    → In j (mark_reserved ids oi items)
    → contains ids j.id ≡ true
    → j.status ≡ reserved
unfolding mark_reserved
mark_reserved-marks ids oi [] j m h = absurd m.1
mark_reserved-marks ids oi (x ∷ items) j (inr later) h = mark_reserved-marks ids oi items j later h
mark_reserved-marks ids oi (x ∷ items) j (inl same) h = elim (Bool-cases (contains ids x.id)) [
  | inl named ↦ ap (λ y. y.status) (rw named at same)
  | inr other ↦ absurd (cc (h, ap (λ y. contains ids y.id) (rw other at same), other))
]

contains-holds_for :
    (row e o oi : ℕ) (xs : List InventoryItem) (r : InventoryReservation)
    → In r (holds_for row e o oi xs)
    → contains (map (λ i. i.id) xs) r.inventory_item_id ≡ true
unfolding holds_for
contains-holds_for row e o oi [] r m = absurd m.1
contains-holds_for row e o oi (x ∷ xs) r (inl same) =
    ground (arith, ap (λ y. y.inventory_item_id) same, nat_eqb_iff r.inventory_item_id x.id)
contains-holds_for row e o oi (x ∷ xs) r (inr later) =
    ground (arith, contains-holds_for (row + 1) e o oi xs r later)

exact_length :
    (n : ℕ) (xs : List InventoryItem) (m : ℕ)
    → length xs ≡ min n m
    → ltb (length xs) n ≡ false
    → length xs ≡ n
exact_length n xs m l g = ground arith

-- What a hold of `quantity` items for the order leaves.
pub record Held (product_id quantity order_id : ℕ) (stock : Stock)
    (rows : List InventoryReservation) (stock' : Stock) : Type 0 where
  pub enough : length rows ≡ quantity
  pub holds : All (IsHold product_id order_id stock.items) rows
  pub are_reserved : AreReserved rows stock'.items
  pub appended : stock'.reservations ≡ stock.reservations ++ rows
  pub once : (i : ℕ) (s : ReservationStatus) → rows_of i s stock'.reservations ≤ 1

-- A reservation that returns has one active row for each of the items asked for, each for an item of
-- the product that was available; those items are then reserved, the rows are added, and no item has
-- two rows of one status, so that none is held twice.
pub reserve-Held :
    (row expires_at product_id quantity order_id order_item_id : ℕ) (stock : Stock)
    (rows : List InventoryReservation) (stock' : Stock)
    → reserve row expires_at product_id quantity order_id order_item_id stock ≡ ok (rows, stock')
    → Held product_id quantity order_id stock rows stock'
unfolding reserve claim_available flush
reserve-Held row e p n o oi stock rows stock' h =
    let claimed =
      take n (filter_by (λ i. i.product_id == p && i.status == available) stock.items) in
    let new = holds_for row e o oi claimed in
    let after : Stock = record {
      items = mark_reserved (map (λ i. i.id) claimed) oi stock.items;
      reservations = stock.reservations ++ new;
    } in
    elim (Bool-cases (ltb (length claimed) n)) [
      | inl short ↦ absurd (cc (rw short at h))
      | inr enough ↦ elim (Bool-cases (is_unique (stock.reservations ++ new))) [
        | inr clashing ↦ absurd (cc (rw (enough, clashing) at h))
        | inl unique ↦
            let done = ok-injective {x = (new, after)} (rw (enough, unique) at h) in
            subst (λ x. Held p n o stock x.0 x.1) done
              (record {
                enough =
                    length-holds_for row e o oi claimed
                    ∙ exact_length n claimed _
                        (length-take n
                          (filter_by (λ i. i.product_id == p && i.status == available) stock.items))
                        enough;
                holds =
                    holds_for-IsHold row e o oi p stock.items claimed (claimable p stock.items n);
                are_reserved = λ r m j k same.
                    mark_reserved-marks (map (λ i. i.id) claimed) oi stock.items j k (
                      ap (contains (map (λ i. i.id) claimed)) same
                      ∙ contains-holds_for row e o oi claimed r m);
                appended = refl;
                once = λ i s. is_unique-rows_of i s (stock.reservations ++ new) unique;
              })
      ]
    ]
