-- ===== src/Domain/Inventory/Availability.antt =====
-- `stock_status` and `assert_purchasable` of app/domain/inventory/service.py, with the counts of
-- app/db/repositories/catalog.py. Quantities that are asked for are not negative.
use professional_bot.Prelude.{
  ℕ, ◌≡◌, refl, arith, Bool, true, false, not, ◌&&◌, List, [], ◌∷◌, Option, none, some, ◌==◌,
  nat_eq, if◌then◌else◌, ltb, length, filter_by, map, In, filter_by-In, Bool-cases, inl, inr, ap,
  beq_refl, nat_eqb_iff, Result, ok, ◌>>◌, raise_if, raise_if-eq-ok, >>=-eq-ok, insufficient_stock,
  out_of_stock, ◌≤◌,
}
use professional_bot.Prelude.Int.{ℤ, pos, negsuc, ltb_ℤ, leb_ℤ}
use professional_bot.Domain.Catalog.{Product}
use professional_bot.Domain.Enums.DeliveryType
use professional_bot.Domain.Enums.DeliveryType.{delivery_type_eq}
use professional_bot.Domain.Inventory.{
  StockItemStatus, available, stock_item_status_eq, InventoryItem, Stock,
}

pub record StockStatus : Type 0 where
  pub available : ℤ
  pub is_unlimited : Bool
  pub in_stock : Bool
  pub low_stock : Bool

unfoldable pub count_by_status : ℕ → StockItemStatus → List InventoryItem → ℕ
count_by_status product_id status items =
    length (filter_by (λ i. i.product_id == product_id && i.status == status) items)

unfoldable pub available_count : ℕ → List InventoryItem → ℕ
available_count product_id items = count_by_status product_id available items

-- `max(n, 0)`
abbrev pub at_least_zero : ℤ → ℤ
at_least_zero n = if ltb_ℤ n (pos 0) then pos 0 else n

abbrev pub counted : ℤ → ℤ → StockStatus
counted n threshold = record {
  available = n;
  is_unlimited = false;
  in_stock = ltb_ℤ (pos 0) n;
  low_stock = ltb_ℤ (pos 0) n && leb_ℤ n threshold;
}

abbrev pub unlimited : StockStatus
unlimited = record { available = negsuc 0; is_unlimited = true; in_stock = true; low_stock = false }

abbrev pub of_override : Option ℤ → ℤ → StockStatus
of_override none threshold = unlimited
of_override (some n) threshold = counted (at_least_zero n) threshold

unfoldable pub stock_status : Product → Stock → StockStatus
stock_status product stock =
    if not (product.delivery_type == DeliveryType.stock_item)
    then of_override product.stock_override product.low_stock_threshold
    else counted (pos (available_count product.id stock.items)) product.low_stock_threshold

abbrev pub above : ℕ → Option ℕ → Bool
above quantity none = false
above quantity (some most) = ltb most quantity

unfoldable pub assert_purchasable : Product → ℕ → Stock → Result (Unit {0})
assert_purchasable product quantity stock = do
  raise_if (ltb quantity product.min_quantity) insufficient_stock
  raise_if (above quantity product.max_quantity) insufficient_stock
  let status = stock_status product stock
  raise_if (not status.in_stock) out_of_stock
  raise_if (not status.is_unlimited && ltb_ℤ status.available (pos quantity)) insufficient_stock

status_of_stock :
    (p : Product) (s : Stock)
    → p.delivery_type ≡ DeliveryType.stock_item
    → stock_status p s ≡ counted (pos (available_count p.id s.items)) p.low_stock_threshold
unfolding stock_status
status_of_stock p s h = rw h refl

-- What a purchase that is let through meets.
pub record Purchasable (product : Product) (quantity : ℕ) (stock : Stock) : Type 0 where
  pub enough : product.min_quantity ≤ quantity
  pub within : above quantity product.max_quantity ≡ false
  pub counted_stock :
      product.delivery_type ≡ DeliveryType.stock_item
      → (quantity ≤ available_count product.id stock.items)
        × (1 ≤ available_count product.id stock.items)

-- A check that passes, for a product of either kind, is for at least the minimum and at most the
-- maximum; a product that is delivered from stock then has an item available, and as many as asked.
pub assert_purchasable-Purchasable :
    (product : Product) (quantity : ℕ) (stock : Stock)
    → assert_purchasable product quantity stock ≡ ok tt
    → Purchasable product quantity stock
unfolding assert_purchasable
assert_purchasable-Purchasable p n s h =
    let (a, ea, ga) = >>=-eq-ok (raise_if (ltb n p.min_quantity) insufficient_stock) _ h in
    let (b, eb, gb) = >>=-eq-ok (raise_if (above n p.max_quantity) insufficient_stock) _ ga in
    let (c, ec, gc) = >>=-eq-ok (raise_if (not (stock_status p s).in_stock) out_of_stock) _ gb in
    record {
      enough = ground (arith, ea);
      within = raise_if-eq-ok (above n p.max_quantity) insufficient_stock eb;
      counted_stock = λ is. ground (arith, status_of_stock p s is, ec, gc);
    }

-- `available_counts_for`: a count for every id, 0 where no item is left.
unfoldable pub available_counts_for : List ℕ → List InventoryItem → List (ℕ × ℕ)
available_counts_for ids items = map (λ i. (i, available_count i items)) ids

-- `counts.get(i, 0)`
unfoldable pub count_of : ℕ → List (ℕ × ℕ) → ℕ
count_of i [] = 0
count_of i (c ∷ cs) = let rest = count_of i cs in if c.0 == i then c.1 else rest

abbrev pub is_tracked : Product → Bool
is_tracked p = p.delivery_type == DeliveryType.stock_item

-- `stock_map`, in the order of the products.
unfoldable pub map_entry : List (ℕ × ℕ) → Product → ℕ × StockStatus
map_entry counts p = (
  p.id,
  if not (is_tracked p)
      then of_override p.stock_override p.low_stock_threshold
      else counted (pos (count_of p.id counts)) p.low_stock_threshold,
)

unfoldable pub stock_map : List Product → Stock → List (ℕ × StockStatus)
stock_map products stock =
    let tracked = filter_by is_tracked products in
    map (map_entry (available_counts_for (map (λ p. p.id) tracked) stock.items)) products

count_of-found :
    (i : ℕ) (ids : List ℕ) (items : List InventoryItem)
    → In i ids
    → count_of i (available_counts_for ids items) ≡ available_count i items
unfolding count_of available_counts_for
count_of-found i [] items m = absurd m.1
count_of-found i (j ∷ ids) items (inl p) = rw p (rw (beq_refl j) refl)
count_of-found i (j ∷ ids) items (inr m) = elim (Bool-cases (j == i)) [
  | inl same ↦ rw same (ap (λ x. available_count x items) ((nat_eqb_iff j i).0 same))
  | inr other ↦ rw other (count_of-found i ids items m)
]

In-map_id : (p : Product) (ps : List Product) → In p ps → In p.id (map (λ p. p.id) ps)
In-map_id p [] m = absurd m.1
In-map_id p (x ∷ ps) (inl q) = inl (ap (λ y. y.id) q)
In-map_id p (x ∷ ps) (inr m) = inr (In-map_id p ps m)

entry_of :
    (p : Product) (products : List Product) (stock : Stock)
    → In p products
    → map_entry
        (available_counts_for (map (λ p. p.id) (filter_by is_tracked products)) stock.items)
        p
      ≡ (p.id, stock_status p stock)
unfolding map_entry stock_status
entry_of p products stock m =
    let tracked = filter_by is_tracked products in
    elim (Bool-cases (is_tracked p)) [
      | inr free ↦ rw free refl
      | inl held ↦
          rw
            (
              held,
              count_of-found p.id (map (λ p. p.id) tracked) stock.items
                  (In-map_id p tracked (filter_by-In is_tracked p products m held)),
            )
            refl
    ]

-- The batch lookup of a listing page gives for each product what `stock_status` gives for it alone.
pub stock_map-stock_status :
    (products : List Product) (stock : Stock)
    → stock_map products stock ≡ map (λ p. (p.id, stock_status p stock)) products
unfolding stock_map
stock_map-stock_status products stock = each products (λ p m. m)
  where
    tracked : List Product
    tracked = filter_by is_tracked products

    counts : List (ℕ × ℕ)
    counts = available_counts_for (map (λ p. p.id) tracked) stock.items

    each :
        (ps : List Product)
        → ((p : Product) → In p ps → In p products)
        → map (map_entry counts) ps ≡ map (λ p. (p.id, stock_status p stock)) ps
    each [] sub = refl
    each (p ∷ ps) sub =
        cc (entry_of p products stock (sub p (inl refl)), each ps (λ q m. sub q (inr m)))
