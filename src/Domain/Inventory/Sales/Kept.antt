-- ===== src/Domain/Inventory/Sales/Kept.antt =====
-- Each write of app/domain/inventory/service.py on a stock whose sold items are known.
use professional_bot.Prelude.{
  ℕ, ◌≡◌, ◌≢◌, sym, ◌∙◌, ap, subst, true, List, [], ◌∷◌, ◌++◌, In, In-append, nat_eq, contains, map,
  Bool-cases, inl, inr, Result, ok, >>=-eq-ok, ok-injective,
}
use professional_bot.Domain.Inventory.{
  sold, consumed, InventoryItem, InventoryReservation, Stock, is_unique, flush, claim_available,
  holds_for, mark_reserved, set_row, free_item, for_each,
}
use professional_bot.Domain.Inventory.Allocation.{sell_item, sale, set_expiry}
use professional_bot.Domain.Inventory.Restocking.{set_item}
use professional_bot.Domain.Inventory.Sales.Writes.{
  Like, set_row-In_cases, free_item-In, sell_item-In, sell_item-sells, mark_reserved-In,
  contains-claimed, holds_for-In, set_expiry-In, set_item-In,
}

-- The item of every consumed row is sold.
abbrev pub IsSound : List InventoryItem → List InventoryReservation → Type 0
IsSound items rs =
    (r : InventoryReservation)
    → In r rs
    → r.status ≡ consumed
    → (j : InventoryItem) → In j items
    → j.id ≡ r.inventory_item_id
    → j.status ≡ sold

-- Besides, the rows meet the constraint.
pub record IsValid (stock : Stock) : Type 0 where
  pub sound : IsSound stock.items stock.reservations
  pub unique : is_unique stock.reservations ≡ true

pub flush-eq-ok : (s t : Stock) → flush s ≡ ok t → (s ≡ t) × (is_unique s.reservations ≡ true)
unfolding flush
flush-eq-ok s t h = elim (Bool-cases (is_unique s.reservations)) [
  | inl u ↦ (ok-injective (rw u at h), u)
  | inr c ↦ absurd (cc (rw c at h))
]

pub flush-IsValid : (s t : Stock) → flush s ≡ ok t → IsSound s.items s.reservations → IsValid t
flush-IsValid s t h sound =
    let (same, unique) = flush-eq-ok s t h in
    subst IsValid same (record { sound = sound; unique = unique })

pub mark-IsSound :
    (p n oi row e o : ℕ) (items : List InventoryItem) (rs : List InventoryReservation)
    → IsSound items rs
    → IsSound
        (mark_reserved (map (λ i. i.id) (claim_available p n items)) oi items)
        (rs ++ holds_for row e o oi (claim_available p n items))
unfolding claim_available
mark-IsSound p n oi row e o items rs h r m c j k same =
    let claimed = claim_available p n items in
    elim (In-append r rs (holds_for row e o oi claimed) m) [
      | inr new ↦ absurd (cc (holds_for-In row e o oi claimed r new, c))
      | inl old ↦ elim (Bool-cases (contains (map (λ i. i.id) claimed) j.id)) [
        | inr miss ↦ h r old c j (mark_reserved-In (map (λ i. i.id) claimed) oi j items k miss) same
        | inl hit ↦
            let (x, n, is, free) = contains-claimed p n j.id items hit in
            absurd (cc (h r old c x n (is ∙ same), free))
      ]
    ]

-- The rows of `items'` are rows of `items`, as far as their ids and statuses go.
pub items-IsSound :
    (items items' : List InventoryItem) (rs : List InventoryReservation)
    → ((j : InventoryItem) → In j items' → Like items j j.status)
    → IsSound items rs
    → IsSound items' rs
items-IsSound items items' rs from h r m c j k same =
    let (x, n, is, state) = from j k in sym state ∙ h r m c x n (is ∙ same)

pub free-IsSound :
    (i : ℕ) (r : InventoryReservation) (items : List InventoryItem) (rs : List InventoryReservation)
    → r.status ≢ consumed
    → IsSound items rs
    → IsSound (free_item i items) (set_row r rs)
free-IsSound i r items rs d h e m c j k same = elim (set_row-In_cases r e rs m) [
  | inl is ↦ absurd (d (sym (ap (λ y. y.status) is) ∙ c))
  | inr old ↦ elim (free_item-In i j items k) [
    | inl kept ↦ h e old c j kept same
    | inr (x, n, is, held) ↦ absurd (cc (h e old c x n (is ∙ same), held))
  ]
]

pub sell-IsSound :
    (now : ℕ) (r : InventoryReservation) (items : List InventoryItem)
    (rs : List InventoryReservation)
    → IsSound items rs
    → IsSound (sell_item now r.inventory_item_id items) (set_row (sale now r) rs)
sell-IsSound now r items rs h e m c j k same = elim (set_row-In_cases (sale now r) e rs m) [
  | inl is ↦
      sell_item-sells now r.inventory_item_id j items k (same ∙ ap (λ y. y.inventory_item_id) is)
  | inr old ↦ elim (sell_item-In now r.inventory_item_id j items k) [
    | inl kept ↦ h e old c j kept same
    | inr done ↦ done
  ]
]

pub expiry-IsSound :
    (o at : ℕ) (items : List InventoryItem) (rs : List InventoryReservation)
    → IsSound items rs
    → IsSound items (set_expiry o at rs)
expiry-IsSound o at items rs h r m c j k same =
    let (s, n, is, state) = set_expiry-In o at r rs m in h s n (state ∙ c) j k (same ∙ sym is)

-- New items, whose ids no row names.
pub added-IsSound :
    (items new : List InventoryItem) (rs : List InventoryReservation)
    → ((r : InventoryReservation)
        → In r rs
        → (j : InventoryItem) → In j new
        → j.id ≢ r.inventory_item_id)
    → IsSound items rs
    → IsSound (items ++ new) rs
added-IsSound items new rs fresh h r m c j k same = elim (In-append j items new k) [
  | inl old ↦ h r m c j old same
  | inr added ↦ absurd (fresh r m j added same)
]

-- A new row for an item that is not sold.
pub set_item-IsSound :
    (item old : InventoryItem) (items : List InventoryItem) (rs : List InventoryReservation)
    → In old items
    → old.id ≡ item.id
    → old.status ≢ sold
    → IsSound items rs
    → IsSound (set_item item items) rs
set_item-IsSound item old items rs here is unsold h r m c j k same =
    elim (set_item-In item j items k) [
      | inl new ↦ absurd (unsold (h r m c old here (is ∙ sym (ap (λ y. y.id) new) ∙ same)))
      | inr kept ↦ h r m c j kept same
    ]

pub for_each-IsValid :
    (f : InventoryReservation → Stock → Result Stock)
    → ((r : InventoryReservation) (s t : Stock) → f r s ≡ ok t → IsValid s → IsValid t)
    → (rs : List InventoryReservation) (s t : Stock) → for_each f rs s ≡ ok t
    → IsValid s
    → IsValid t
unfolding for_each
for_each-IsValid f keeps [] s t h v = subst IsValid (ok-injective h) v
for_each-IsValid f keeps (r ∷ rs) s t h v =
    let (next, e, g) = >>=-eq-ok (f r s) _ h in
    for_each-IsValid f keeps rs next t g (keeps r s next e v)
