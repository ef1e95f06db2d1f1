-- ===== src/Domain/Inventory/Sales/Operations.antt =====
-- Each operation of app/domain/inventory/service.py on a stock whose sold items are known.
use professional_bot.Prelude.{
  ℕ, suc, ◌+◌, ◌≤◌, ◌<◌, ◌≡◌, refl, ◌∙◌, ap, subst, not, ◌&&◌, ◌==◌, List, [], ◌∷◌, ◌++◌, arith, In,
  Bool-cases, inl, inr, Result, ok, err, >>=-eq-ok, >>=-eq-pair, ok-injective, length, ltb, leb,
  seconds, filter_by, map, some, take,
}
use professional_bot.Prelude.Text.{Text, is_empty, strip}
use professional_bot.Domain.Catalog.{Product}
use professional_bot.Domain.Enums.DeliveryType
use professional_bot.Domain.Enums.DeliveryType.{delivery_type_eq}
use professional_bot.Domain.Inventory.{
  sold, invalid, active, consumed, released, expired, stock_item_status_eq, InventoryItem,
  InventoryReservation, Stock, flush, claim_available, holds_for, mark_reserved, or_insufficient,
  reserve, end_hold, release, expire_hold, for_each, release_for_order, reap_expired,
  active_for_order, sort_by_expiry, reservation_status_eq,
}
use professional_bot.Domain.Inventory.Allocation.{
  sell, consume, rows_for, item_ids, assign_items, top_up, consume_all, allocate,
  extend_reservations,
}
use professional_bot.Domain.Inventory.Restocking.{
  is_known, flush_items, collect, add_stock, mark_invalid, has_unique_keys,
}
use professional_bot.Domain.Payments.Fingerprint.{payload_fingerprint}
use professional_bot.Domain.Inventory.Sales.Writes.{assign_items-In}
use professional_bot.Domain.Inventory.Sales.Kept.{
  IsValid, flush-IsValid, mark-IsSound, items-IsSound, free-IsSound, sell-IsSound, expiry-IsSound,
  added-IsSound, set_item-IsSound, for_each-IsValid,
}

pub reserve-IsValid :
    (row e p n o oi : ℕ) (s : Stock) (rows : List InventoryReservation) (t : Stock)
    → reserve row e p n o oi s ≡ ok (rows, t)
    → IsValid s
    → IsValid t
unfolding reserve
reserve-IsValid row e p n o oi s rows t h v =
    let claimed = claim_available p n s.items in
    let new = holds_for row e o oi claimed in
    let after : Stock = record {
      items = mark_reserved (map (λ i. i.id) claimed) oi s.items;
      reservations = s.reservations ++ new;
    } in
    elim (Bool-cases (ltb (length claimed) n)) [
      | inl short ↦ absurd (cc (rw short at h))
      | inr enough ↦
          let (same, flushed) = flushed_of (flush after) new rows t (rw enough at h) in
          flush-IsValid after t flushed (mark-IsSound p n oi row e o s.items s.reservations v.sound)
    ]
  where
    flushed_of :
        (call : Result Stock) (new rows : List InventoryReservation) (t : Stock)
        → or_insufficient new call ≡ ok (rows, t)
        → (new ≡ rows) × (call ≡ ok t)
    flushed_of (ok s) new rows t h = let p = ok-injective h in (ap (λ x. x.0) p, ap (λ x. ok x.1) p)
    flushed_of (err e) new rows t h = absurd (cc h)

pub release-IsValid :
    (now : ℕ) (r : InventoryReservation) (s t : Stock)
    → release now r s ≡ ok t
    → IsValid s
    → IsValid t
unfolding release
release-IsValid now r s t h v = flush-IsValid (end_hold released now r s) t h (
    free-IsSound r.inventory_item_id (record r { status = released; released_at = some now })
      s.items s.reservations (λ p. cc p) v.sound)

pub expire_hold-IsValid :
    (now : ℕ) (r : InventoryReservation) (s t : Stock)
    → expire_hold now r s ≡ ok t
    → IsValid s
    → IsValid t
unfolding expire_hold
expire_hold-IsValid now r s t h v = flush-IsValid (end_hold expired now r s) t h (
    free-IsSound r.inventory_item_id (record r { status = expired; released_at = some now }) s.items
      s.reservations (λ p. cc p) v.sound)

pub consume-IsValid :
    (now : ℕ) (r : InventoryReservation) (s t : Stock)
    → consume now r s ≡ ok t
    → IsValid s
    → IsValid t
unfolding consume
consume-IsValid now r s t h v =
    flush-IsValid (sell now r s) t h (sell-IsSound now r s.items s.reservations v.sound)

pub release_for_order-IsValid :
    (now o : ℕ) (s : Stock) (n : ℕ) (t : Stock)
    → release_for_order now o s ≡ ok (n, t)
    → IsValid s
    → IsValid t
unfolding release_for_order
release_for_order-IsValid now o s n t h v =
    let rows = active_for_order o s.reservations in
    let e = >>=-eq-pair (for_each (release now) rows s) (length rows) n h in
    for_each-IsValid (release now) (release-IsValid now) rows s t e v

pub reap_expired-IsValid :
    (now limit : ℕ) (s : Stock) (n : ℕ) (t : Stock)
    → reap_expired now limit s ≡ ok (n, t)
    → IsValid s
    → IsValid t
unfolding reap_expired
reap_expired-IsValid now limit s n t h v =
    let lapsed = filter_by (λ r. r.status == active && leb r.expires_at now) s.reservations in
    let rows = take limit (sort_by_expiry lapsed) in
    let e = >>=-eq-pair (for_each (expire_hold now) rows s) (length rows) n h in
    for_each-IsValid (expire_hold now) (expire_hold-IsValid now) rows s t e v

pub extend_reservations-IsValid :
    (now o ttl : ℕ) (s : Stock) (n : ℕ) (t : Stock)
    → extend_reservations now o ttl s ≡ ok (n, t)
    → IsValid s
    → IsValid t
unfolding extend_reservations
extend_reservations-IsValid now o ttl s n t h v =
    let (after, e, g) = >>=-eq-ok (flush _) _ h in
    subst IsValid (ap (λ x. x.1) (ok-injective g)) (
      flush-IsValid _ after e (expiry-IsSound o (now + seconds ttl) s.items s.reservations v.sound))

pub top_up-IsValid :
    (row now p n o oi : ℕ) (rows : List InventoryReservation) (s : Stock)
    (topped : List InventoryReservation) (t : Stock)
    → top_up row now p n o oi rows s ≡ ok (topped, t)
    → IsValid s
    → IsValid t
unfolding top_up
top_up-IsValid row now p n o oi rows s topped t h v =
    let claimed = claim_available p n s.items in
    elim (Bool-cases (ltb (length claimed) n)) [
      | inl short ↦ absurd (cc (rw short at h))
      | inr enough ↦
          let (after, e, g) = >>=-eq-ok (flush _) _ (rw enough at h) in
          subst IsValid (ap (λ x. x.1) (ok-injective g)) (
            flush-IsValid _ after e
              (mark-IsSound p n oi row (now + seconds 3600) o s.items s.reservations v.sound))
    ]

pub consume_all-IsValid :
    (now oi : ℕ) (rows done : List InventoryReservation) (s : Stock) (items : List InventoryItem)
    (t : Stock)
    → consume_all now oi rows done s ≡ ok (items, t)
    → IsValid s
    → IsValid t
unfolding consume_all
consume_all-IsValid now oi rows done s items t h v =
    let (after, e, g) = >>=-eq-ok (for_each _ _ s) _ h in
    let sound = (for_each-IsValid (consume now) (consume-IsValid now) rows s after e v).sound in
    let ids = item_ids (rows ++ done) in
    let (last, e', g') = >>=-eq-ok (flush _) _ g in
    subst IsValid (ap (λ x. x.1) (ok-injective g')) (
      flush-IsValid _ last e' (
        items-IsSound after.items (assign_items ids oi after.items) after.reservations
          (λ j. assign_items-In ids oi j after.items) sound))

pub allocate-IsValid :
    (row now : ℕ) (p : Product) (n o oi : ℕ) (s : Stock) (items : List InventoryItem) (t : Stock)
    → allocate row now p n o oi s ≡ ok (items, t)
    → IsValid s
    → IsValid t
unfolding allocate
allocate-IsValid row now p n o oi s items t h v =
    let held = rows_for o oi active s.reservations in
    let done = rows_for o oi consumed s.reservations in
    elim (Bool-cases (not (p.delivery_type == DeliveryType.stock_item))) [
      | inl other ↦ subst IsValid (ap (λ x. x.1) (ok-injective (rw other at h))) v
      | inr counted ↦ elim (Bool-cases (ltb 0 (length done) && not (ltb 0 (length held)))) [
        | inl again ↦ subst IsValid (ap (λ x. x.1) (ok-injective (rw (counted, again) at h))) v
        | inr first ↦ elim (Bool-cases (ltb (length held + length done) n)) [
          | inr enough ↦
              consume_all-IsValid now oi held done s items t (rw (counted, first, enough) at h) v
          | inl short ↦
              let (topped, e, g) =
                >>=-eq-ok (top_up _ _ _ _ _ _ _ s) _ (rw (counted, first, short) at h) in
              consume_all-IsValid now oi topped.0 done topped.1 items t g
                (top_up-IsValid row now p.id _ o oi held s topped.0 topped.1 e v)
        ]
      ]
    ]

pub flush_items-eq-ok : (s t : Stock) → flush_items s ≡ ok t → s ≡ t
unfolding flush_items
flush_items-eq-ok s t h = elim (Bool-cases (has_unique_keys s.items)) [
  | inl u ↦ ok-injective (rw u at h)
  | inr c ↦ absurd (cc (rw c at h))
]

-- No row of a reservation names an id from `row` on.
abbrev pub IsFresh : ℕ → Stock → Type 0
IsFresh row s = (r : InventoryReservation) → In r s.reservations → r.inventory_item_id < row

module _ (sha256 encrypt : Text → Text) where
  collect-ids :
      (row p : ℕ) (items : List InventoryItem) (raws : List Text) (j : InventoryItem)
      → In j (collect sha256 encrypt row p items raws).0
      → row ≤ j.id
  unfolding collect
  collect-ids row p items [] j m = absurd m.1
  collect-ids row p items (raw ∷ raws) j m = elim (Bool-cases (is_empty (strip raw))) [
    | inl blank ↦ collect-ids row p items raws j (rw blank at m)
    | inr text ↦ elim (Bool-cases (is_known p (payload_fingerprint sha256 (strip raw)) items)) [
      | inl known ↦ collect-ids row p items raws j (rw (text, known) at m)
      | inr new ↦ elim (rw (text, new) at m) [
        | inl is ↦ omega (arith, ap (λ y. y.id) is)
        | inr later ↦ omega (arith, collect-ids (suc row) p items raws j later)
      ]
    ]
  ]

  pub add_stock-IsValid :
      (row p : ℕ) (raws : List Text) (s : Stock) (n k : ℕ) (t : Stock)
      → IsFresh row s
      → add_stock sha256 encrypt row p raws s ≡ ok (n, (k, t))
      → IsValid s
      → IsValid t
  unfolding add_stock
  add_stock-IsValid row p raws s n k t fresh h v =
      let new = (collect sha256 encrypt row p s.items raws).0 in
      let (after, e, g) = >>=-eq-ok (flush_items _) _ h in
      subst IsValid (flush_items-eq-ok _ after e ∙ ap (λ x. x.1.1) (ok-injective g)) (record {
        sound =
            added-IsSound s.items new s.reservations
              (λ r m j k same. omega (arith, fresh r m, collect-ids row p s.items raws j k, same))
              v.sound;
        unique = v.unique;
      })

pub mark_invalid-IsValid :
    (item : InventoryItem) (reason : Text) (s t : Stock)
    → In item s.items
    → mark_invalid item reason s ≡ ok t
    → IsValid s
    → IsValid t
unfolding mark_invalid
mark_invalid-IsValid item reason s t here h v =
    let bad : InventoryItem = record item {
      status = invalid;
      invalid_reason = some (take 255 reason);
    } in
    elim (Bool-cases (item.status == sold)) [
      | inl is ↦ absurd (cc (rw is at h))
      | inr unsold ↦ subst IsValid (flush_items-eq-ok _ t (rw unsold at h)) (record {
        sound =
            set_item-IsSound bad item s.items s.reservations here refl
              (λ is. ground (arith, stock_item_status_eq.beq_iff item.status sold)) v.sound;
        unique = v.unique;
      })
    ]
