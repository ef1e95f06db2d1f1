-- ===== src/Domain/Inventory/Sales/Again.antt =====
-- A second call of `allocate_for_order_item` of app/domain/inventory/service.py.
use professional_bot.Prelude.{
  ℕ, ◌+◌, ◌-◌, ◌≤◌, ◌≡◌, refl, sym, ◌∙◌, ap, subst, Bool, true, false, not, ◌&&◌, List, [], ◌∷◌,
  ◌++◌, arith, In, In-append, In-left, In-right, filter_by-In, In-filter_by, All, nat_eq, contains,
  map, filter_by, length, ltb, seconds, Bool-cases, inl, inr, ok, ◌>>=◌, >>=-eq-ok, ok-injective,
  beq_refl, length-append,
}
use professional_bot.Domain.Catalog.{Product}
use professional_bot.Domain.Enums.DeliveryType
use professional_bot.Domain.Enums.DeliveryType.{delivery_type_eq}
use professional_bot.Domain.Inventory.{
  active, consumed, reservation_status_eq, InventoryItem, InventoryReservation, Stock, flush,
  claim_available, holds_for, mark_reserved, for_each,
}
use professional_bot.Domain.Inventory.Allocation.{
  is_of, rows_for, get_many, item_ids, assign_items, top_up, consume_all, allocate,
}
use professional_bot.Domain.Inventory.Holds.{length-holds_for}
use professional_bot.Domain.Inventory.Sales.Kept.{flush-eq-ok}
use professional_bot.Domain.Inventory.Sales.Draining.{
  NoneActive, HasSale, AreLeft, ids, contains-ids, drained, drained-HasSale,
}

module _ (o oi : ℕ) where
  -- The rows to sell: the active ones of the order item in the table.
  record Ready (rows rs : List InventoryReservation) : Type 0 where
    all : All (λ r. is_of o oi active r ≡ true) rows
    inside : (r : InventoryReservation) → In r rows → In r rs
    left : AreLeft o oi rows rs

  -- The table after an allocation that sold something.
  abbrev AreSold : List InventoryReservation → Type 0
  AreSold rs = NoneActive o oi rs × HasSale o oi rs

  rows_for-Ready : (rs : List InventoryReservation) → Ready (rows_for o oi active rs) rs
  unfolding rows_for
  rows_for-Ready rs = record {
    all = all_of rs;
    inside = λ r m. (In-filter_by (is_of o oi active) r rs m).0;
    left = λ e m h.
        contains-ids e (filter_by (is_of o oi active) rs)
          (filter_by-In (is_of o oi active) e rs m h);
  }
    where
      all_of :
          (xs : List InventoryReservation)
          → All (λ r. is_of o oi active r ≡ true) (filter_by (is_of o oi active) xs)
      all_of [] = tt
      all_of (x ∷ xs) = elim (Bool-cases (is_of o oi active x)) [
        | inl holds ↦ rw holds (holds, all_of xs)
        | inr fails ↦ rw fails (all_of xs)
      ]

  contains-left :
      (e : InventoryReservation) (xs ys : List InventoryReservation)
      → contains (ids xs) e.id ≡ true
      → contains (ids (xs ++ ys)) e.id ≡ true
  contains-left e [] ys h = absurd (cc h)
  contains-left e (x ∷ xs) ys h = ground (arith, contains-left e xs ys)

  contains-right :
      (e : InventoryReservation) (xs ys : List InventoryReservation)
      → contains (ids ys) e.id ≡ true
      → contains (ids (xs ++ ys)) e.id ≡ true
  contains-right e [] ys h = h
  contains-right e (x ∷ xs) ys h = ground (arith, contains-right e xs ys h)

  holds_for-is_of :
      (row e : ℕ) (xs : List InventoryItem)
      → All (λ r. is_of o oi active r ≡ true) (holds_for row e o oi xs)
  unfolding holds_for
  holds_for-is_of row e [] = tt
  holds_for-is_of row e (x ∷ xs) =
      (rw (beq_refl o, beq_refl oi) refl, holds_for-is_of (row + 1) e xs)

  All-append :
      (xs ys : List InventoryReservation)
      → All (λ r. is_of o oi active r ≡ true) xs
      → All (λ r. is_of o oi active r ≡ true) ys
      → All (λ r. is_of o oi active r ≡ true) (xs ++ ys)
  All-append [] ys h k = k
  All-append (x ∷ xs) ys h k = (h.0, All-append xs ys h.1 k)

  Ready-append :
      (rows rs : List InventoryReservation) (row e : ℕ) (xs : List InventoryItem)
      → Ready rows rs
      → Ready (rows ++ holds_for row e o oi xs) (rs ++ holds_for row e o oi xs)
  Ready-append rows rs row e xs h =
      let new = holds_for row e o oi xs in
      record {
        all = All-append rows new h.all (holds_for-is_of row e xs);
        inside = λ r m. elim (In-append r rows new m) [
          | inl old ↦ In-left r rs new (h.inside r old)
          | inr added ↦ In-right r rs new added
        ];
        left = λ r m k. elim (In-append r rs new m) [
          | inl old ↦ contains-left r rows new (h.left r old k)
          | inr added ↦ contains-right r rows new (contains-ids r new added)
        ];
      }

  -- What `consume_all` leaves, when there is a row to sell.
  consume_all-AreSold :
      (now : ℕ) (rows done : List InventoryReservation) (s : Stock) (items : List InventoryItem)
      (t : Stock)
      → Ready rows s.reservations
      → 1 ≤ length rows
      → consume_all now oi rows done s ≡ ok (items, t)
      → AreSold t.reservations
  unfolding consume_all
  consume_all-AreSold now [] done s items t ready some h =
      let none : ⊥ = omega (arith, some) in absurd none
  consume_all-AreSold now (r ∷ rows) done s items t ready some h =
      let (after, e, g) = >>=-eq-ok (for_each _ _ s) _ h in
      let last : Stock = record after {
        items = assign_items (item_ids ((r ∷ rows) ++ done)) oi after.items;
      } in
      let (flushed, e', g') = >>=-eq-ok (flush last) _ g in
      subst (λ x. AreSold x.reservations)
        ((flush-eq-ok last flushed e').0 ∙ ap (λ x. x.1) (ok-injective g'))
        (
          (drained o oi now (r ∷ rows) s after e ready.all ready.left).0,
          drained-HasSale o oi now r rows s after e ready.all ready.left
              (ready.inside r (inl refl)),
        )

  -- What an earlier allocation leaves, as the code tests it.
  abbrev is_settled : List InventoryReservation → Bool
  is_settled rs =
      ltb 0 (length (rows_for o oi consumed rs)) && not (ltb 0 (length (rows_for o oi active rs)))

  none_to_sell :
      (rs : List InventoryReservation) → NoneActive o oi rs → rows_for o oi active rs ≡ []
  unfolding rows_for
  none_to_sell [] h = refl
  none_to_sell (x ∷ rs) h = rw (h x (inl refl)) (none_to_sell rs (λ e m. h e (inr m)))

  some_sold :
      (e : InventoryReservation) (rs : List InventoryReservation)
      → In e (rows_for o oi consumed rs)
      → ltb 0 (length (rows_for o oi consumed rs)) ≡ true
  some_sold e rs m = nonempty (rows_for o oi consumed rs) m
    where
      nonempty : (xs : List InventoryReservation) → In e xs → ltb 0 (length xs) ≡ true
      nonempty [] m = absurd m.1
      nonempty (x ∷ xs) m = ground arith

  AreSold-is_settled : (rs : List InventoryReservation) → AreSold rs → is_settled rs ≡ true
  unfolding rows_for
  AreSold-is_settled rs (none, (e, m, h)) =
      rw (none_to_sell rs none, some_sold e rs (filter_by-In (is_of o oi consumed) e rs m h)) refl

  -- An allocation that finds the order item settled.
  allocate-settled :
      (row now : ℕ) (p : Product) (n : ℕ) (s : Stock)
      → p.delivery_type ≡ DeliveryType.stock_item
      → is_settled s.reservations ≡ true
      → allocate row now p n o oi s
        ≡ ok (get_many (item_ids (rows_for o oi consumed s.reservations)) s.items, s)
  unfolding allocate
  allocate-settled row now p n s counted again = rw (counted, again) refl

  open_rows :
      (n : ℕ) (held done : List InventoryReservation)
      → (ltb 0 (length done) && not (ltb 0 (length held))) ≡ false
      → 1 ≤ n
      → ltb (length held + length done) n ≡ false
      → 1 ≤ length held
  open_rows n held done first some enough = ground arith

  allocate-AreSold :
      (row now : ℕ) (p : Product) (n : ℕ) (s : Stock) (items : List InventoryItem) (t : Stock)
      → p.delivery_type ≡ DeliveryType.stock_item
      → 1 ≤ n
      → is_settled s.reservations ≡ false
      → allocate row now p n o oi s ≡ ok (items, t)
      → AreSold t.reservations
  unfolding allocate top_up
  allocate-AreSold row now p n s items t counted some first h =
      let held = rows_for o oi active s.reservations in
      let done = rows_for o oi consumed s.reservations in
      let missing = n - length held - length done in
      let fresh = claim_available p.id missing s.items in
      let new = holds_for row (now + seconds 3600) o oi fresh in
      elim (Bool-cases (ltb (length held + length done) n)) [
        | inr enough ↦
            consume_all-AreSold now held done s items t (rows_for-Ready s.reservations)
              (open_rows n held done first some enough) (rw (counted, first, enough) at h)
        | inl short ↦ elim (Bool-cases (ltb (length fresh) missing)) [
          | inl few ↦ absurd (cc (rw (counted, first, short, few) at h))
          | inr found ↦
              let after : Stock = record {
                items = mark_reserved (map (λ i. i.id) fresh) oi s.items;
                reservations = s.reservations ++ new;
              } in
              let (topped, e, g) =
                >>=-eq-ok (flush after >>= (λ after. ok (held ++ new, after))) _
                  (rw (counted, first, short, found) at h) in
              let (flushed, e', g') = >>=-eq-ok (flush after) _ e in
              let is : (held ++ new, after) ≡ topped =
                ap (λ x. (held ++ new, x)) (flush-eq-ok after flushed e').0 ∙ ok-injective g' in
              consume_all-AreSold now topped.0 done topped.1 items t
                (subst (λ x. Ready x.0 x.1.reservations) is
                  (Ready-append held s.reservations row (now + seconds 3600) fresh
                    (rows_for-Ready s.reservations)))
                (subst (λ x. 1 ≤ length x.0) is
                  (ground (
                    arith,
                    length-append held new,
                    length-holds_for row (now + seconds 3600) o oi fresh,
                  )))
                g
        ]
      ]

-- Allocating again for an order item of a product with counted stock, after an allocation of at least
-- one item that returned, returns the items of its consumed holds and leaves the stock as it is.
pub allocate_again :
    (row now row' now' : ℕ) (product : Product) (quantity order_id order_item_id : ℕ)
    (stock : Stock) (items : List InventoryItem) (stock' : Stock)
    → product.delivery_type ≡ DeliveryType.stock_item
    → 1 ≤ quantity
    → allocate row now product quantity order_id order_item_id stock ≡ ok (items, stock')
    → allocate row' now' product quantity order_id order_item_id stock'
      ≡ ok (
        get_many
            (item_ids (rows_for order_id order_item_id consumed stock'.reservations))
            stock'.items,
        stock',
      )
allocate_again row now row' now' p n o oi s items t counted some h =
    elim (Bool-cases (is_settled o oi s.reservations)) [
      | inl again ↦
          let same =
            ap (λ x. x.1)
              (ok-injective (sym (allocate-settled o oi row now p n s counted again) ∙ h)) in
          allocate-settled o oi row' now' p n t counted
            (subst (λ x. is_settled o oi x.reservations ≡ true) same again)
      | inr first ↦ allocate-settled o oi row' now' p n t counted (
          AreSold-is_settled o oi t.reservations
            (allocate-AreSold o oi row now p n s items t counted some first h))
    ]
