-- ===== src/Domain/Orders/Creation/Created.antt =====
-- `create_order` and `complete` of app/domain/orders/service.py: what an order that is placed takes with it.
use professional_bot.Prelude.{
  ℕ, zero, suc, ◌+◌, ◌≡◌, ◌⊎◌, refl, sym, ◌∙◌, ap, subst, true, false, not, ◌&&◌, List, Option,
  none, some, ok, Bool-cases, inl, inr, >>=-eq-ok, ok-injective, raise_if, raise_if-eq-ok,
  validation, ◌==◌, is_some, length,
}
use professional_bot.Prelude.Int.{ℤ}
use professional_bot.Prelude.Text.{Text}
use professional_bot.Db.Ledger.{has_key, order_created}
use professional_bot.Db.Ledger.Once.{IsJournal, record_entry-IsJournal, has_key-record_entry}
use professional_bot.Domain.Coupons.{Coupon, CouponBooks}
use professional_bot.Domain.Coupons.Redemptions.{IsBalanced, redeem-IsBalanced}
use professional_bot.Domain.Catalog.{Product}
use professional_bot.Domain.Enums.DeliveryType
use professional_bot.Domain.Enums.DeliveryType.{delivery_type_eq}
use professional_bot.Domain.Enums.OrderStatus
use professional_bot.Domain.Enums.OrderStatus.{order_status_eq}
use professional_bot.Domain.Inventory.{InventoryReservation, Stock}
use professional_bot.Domain.Inventory.Allocation.{reserve_product}
use professional_bot.Domain.Inventory.Holds.{Held, reserve-Held}
use professional_bot.Domain.Orders.Lifecycle.{Order, transition}
use professional_bot.Domain.Orders.Lifecycle.Stamps.{transition-Moved}
use professional_bot.Domain.Orders.Creation.{
  PricingQuote, is_taken, candidate, first_free, next_reference, Desk, new_order, find_coupon,
  redeem_found, redeem_quoted, created_entry, create_order, complete,
}

first_free-cases :
    (left : ℕ) (prefix : Text) (n : ℕ) (fallback : Text) (references : List Text)
    → (first_free left prefix n fallback references ≡ fallback)
      ⊎ (is_taken (first_free left prefix n fallback references) references ≡ false)
unfolding first_free
first_free-cases zero prefix n fallback references = inl refl
first_free-cases (suc left) prefix n fallback references =
    elim (Bool-cases (is_taken (candidate prefix n) references)) [
      | inl taken ↦ rw taken (first_free-cases left prefix (n + 1) fallback references)
      | inr free ↦ rw free (inr free)
    ]

redeem_found-IsBalanced :
    (o : Option Coupon) (u i : ℕ) (d : ℤ) (b : CouponBooks)
    → IsBalanced b
    → IsBalanced (redeem_found o u i d b)
redeem_found-IsBalanced none u i d b h = h
redeem_found-IsBalanced (some c) u i d b h = redeem-IsBalanced c u i d b h

redeem_quoted-IsBalanced :
    (c u : Option ℕ) (i : ℕ) (d : ℤ) (b : CouponBooks)
    → IsBalanced b
    → IsBalanced (redeem_quoted c u i d b)
unfolding redeem_quoted
redeem_quoted-IsBalanced none u i d b h = h
redeem_quoted-IsBalanced (some c) none i d b h = h
redeem_quoted-IsBalanced (some c) (some u) i d b h =
    redeem_found-IsBalanced (find_coupon c b.coupons) u i d b h

-- The stock for the order: held, where it is counted, or as it was.
abbrev pub HasStock : Product → ℕ → ℕ → Stock → Stock → Type 0
HasStock p n o s t =
    ((p.delivery_type ≡ DeliveryType.stock_item)
      × ((rows : List InventoryReservation) × Held p.id n o s rows t))
    ⊎ (((p.delivery_type == DeliveryType.stock_item) ≡ false) × (t ≡ s))

reserve_product-HasStock :
    (row e : ℕ) (p : Product) (n o oi : ℕ) (s : Stock) (rows : List InventoryReservation)
    (t : Stock)
    → reserve_product row e p n o oi s ≡ ok (rows, t)
    → HasStock p n o s t
unfolding reserve_product
reserve_product-HasStock row e p n o oi s rows t h =
    elim (Bool-cases (p.delivery_type == DeliveryType.stock_item)) [
      | inl counted ↦ inl (
        (delivery_type_eq.beq_iff p.delivery_type DeliveryType.stock_item).0 counted,
        (rows, reserve-Held row e p.id n o oi s rows t (rw counted at h)),
      )
      | inr other ↦ inr (other, sym (ap (λ x. x.1) (ok-injective (rw other at h))))
    ]

-- What an order that was created comes with.
pub record Created (order_id : ℕ) (user_id reseller_id : Option ℕ) (quote : PricingQuote)
    (fallback : Text) (desk : Desk) (order : Order) (desk' : Desk) : Type 0 where
  pub parties : (order.user_id ≡ user_id) × (order.reseller_id ≡ reseller_id)
  pub somebody : (is_some order.user_id ≡ true) ⊎ (is_some order.reseller_id ≡ true)
  pub starts : order.status ≡ OrderStatus.created
  pub snapshot :
      (order.subtotal ≡ quote.subtotal)
      × (order.discount_total ≡ quote.discount)
      × (order.total ≡ quote.total)
  pub named : (order.reference ≡ fallback) ⊎ (is_taken order.reference desk.references ≡ false)
  pub stocked : HasStock quote.product quote.quantity order_id desk.stock desk'.stock
  pub journalled : has_key (order_created order_id) desk'.ledger ≡ true
  pub is_journal : IsJournal desk.ledger → IsJournal desk'.ledger
  pub is_balanced : IsBalanced desk.coupons → IsBalanced desk'.coupons

either_party :
    (a b : Option ℕ)
    → (not (is_some a) && not (is_some b)) ≡ false
    → (is_some a ≡ true) ⊎ (is_some b ≡ true)
either_party (some a) b h = inl refl
either_party none (some b) h = inr refl
either_party none none h = absurd (cc h)

-- An order that is created belongs to the user and the reseller that the call names, at least one of
-- which is there, is CREATED, carries the amounts of the quote,
-- and has a reference that no order was found under, or the random one; where the product's stock is
-- counted, as many items as quoted are held for it, and otherwise the stock is as before; its creation
-- is in the journal, in which no key comes to stand twice, and the counters of the coupons stay in
-- balance.
pub create_order-Created :
    (order_id item_id row expires_at : ℕ) (prefix fallback : Text) (user_id reseller_id : Option ℕ)
    (quote : PricingQuote) (desk : Desk) (order : Order) (desk' : Desk)
    → create_order order_id item_id row expires_at prefix fallback user_id reseller_id quote desk
      ≡ ok (order, desk')
    → Created order_id user_id reseller_id quote fallback desk order desk'
unfolding create_order next_reference
create_order-Created o oi row e prefix fallback u r q desk order desk' h =
    let reference =
      first_free 50 prefix (10000 + (length desk.references + 1)) fallback desk.references in
    let placed = new_order o oi reference u r q in
    let (a, ea, ga) = >>=-eq-ok (raise_if (not (is_some u) && not (is_some r)) validation) _ h in
    let (held, eb, gb) =
      >>=-eq-ok (reserve_product row e q.product q.quantity o oi desk.stock) _ ga in
    subst (λ x. Created o u r q fallback desk x.0 x.1) (ok-injective gb)
      (record {
        parties = (refl, refl);
        somebody = either_party u r (raise_if-eq-ok _ validation ea);
        starts = refl;
        snapshot = (refl, refl, refl);
        named =
            first_free-cases 50 prefix (10000 + (length desk.references + 1)) fallback
              desk.references;
        stocked =
            reserve_product-HasStock row e q.product q.quantity o oi desk.stock held.0 held.1 eb;
        journalled = has_key-record_entry (created_entry placed) desk.ledger;
        is_journal = record_entry-IsJournal (created_entry placed) desk.ledger;
        is_balanced = redeem_quoted-IsBalanced q.coupon_id u o q.discount desk.coupons;
      })

-- Completing an order again, after a completion that returned, changes nothing: its purchase and its
-- sales are counted once.
pub complete_again :
    (now now' : ℕ) (order : Order) (desk : Desk) (order' : Order) (desk' : Desk)
    → complete now order desk ≡ ok (order', desk')
    → complete now' order' desk' ≡ ok (order', desk')
unfolding complete
complete_again now now' o d o' d' h = elim (Bool-cases (o.status == OrderStatus.completed)) [
  | inl already ↦
      let is : o'.status ≡ OrderStatus.completed =
        sym (ap (λ x. x.0.status) (ok-injective {x = (o, d)} (rw already at h)))
        ∙ (order_status_eq.beq_iff o.status OrderStatus.completed).0 already in
      rw is refl
  | inr fresh ↦
      let (done, e, g) =
        >>=-eq-ok (transition now none OrderStatus.completed o) _ (rw fresh at h) in
      let moved = transition-Moved now none OrderStatus.completed o done e in
      let is : o'.status ≡ OrderStatus.completed =
        sym (ap (λ x. x.0.status) (ok-injective g)) ∙ moved.arrives in
      rw is refl
]
