-- ===== src/Domain/Orders/Closing/Closed.antt =====
-- What closing an order leaves, and a paid order that is cancelled.
use professional_bot.Prelude.{
  ℕ, ◌≡◌, ◌≢◌, ◌⊎◌, refl, true, false, ◌||◌, [], some, Result, ok, ◌>>=◌, >>=-eq-ok, ok-injective,
  subst, sym, ◌-◌, Bool-cases, inl, inr,
}
use professional_bot.Prelude.Text.{Text, codes}
use professional_bot.Domain.Coupons.Redemptions.{
  IsBalanced, revert-IsBalanced, standing, revert-standing, revert-standing_other,
}
use professional_bot.Domain.Coupons.{revert}
use professional_bot.Domain.Inventory.Releases.{Released, release_for_order-Released}
use professional_bot.Domain.Enums.OrderStatus
use professional_bot.Domain.Enums.OrderStatus.{
  OrderStatus, cancelled, expired, manual_review, payment_verified,
}
use professional_bot.Domain.StateMachines.{assert_order_transition}
use professional_bot.Domain.Inventory.{Stock, active_for_order, for_each, release_for_order}
use professional_bot.Domain.Orders.Lifecycle.{stamp, transition}
use professional_bot.Domain.Orders.Lifecycle.Stamps.{Moved, transition-Moved}
use professional_bot.Domain.Orders.Closing.{Shop, close, cancel, expire_order}

-- The order has moved to `target`; its holds are released and their items free; one of its redemptions
-- that stood is given back, and the coupons are still in balance.
pub record GivenBack (now : ℕ) (target : OrderStatus) (shop shop' : Shop) : Type 0 where
  pub moved : Moved now target shop.order shop'.order
  pub stock : Released shop.order.id now shop.stock shop'.stock
  pub given_back :
      standing shop.order.id shop'.coupons.usages ≡ standing shop.order.id shop.coupons.usages - 1
  pub others_kept :
      (other : ℕ)
      → other ≢ shop.order.id
      → standing other shop'.coupons.usages ≡ standing other shop.coupons.usages
  pub balanced : IsBalanced shop.coupons → IsBalanced shop'.coupons

close-GivenBack :
    (now : ℕ) (reason : Text) (target : OrderStatus) (shop shop' : Shop)
    → close now reason target shop ≡ ok shop'
    → GivenBack now target shop shop'
unfolding close
close-GivenBack now reason target shop shop' h =
    let (o, e, g) = >>=-eq-ok (transition now (some reason) target shop.order) _ h in
    let (p, f, g') = >>=-eq-ok (release_for_order now o.id shop.stock) _ g in
    let moved = transition-Moved now (some reason) target shop.order o e in
    subst (GivenBack now target shop) (ok-injective g') (record {
      moved = moved;
      stock =
          release_for_order-Released shop.order.id now p.0 shop.stock p.1
            (subst (λ i. release_for_order now i shop.stock ≡ ok p) moved.same_id f);
      given_back =
          subst
            (λ i.
              standing shop.order.id (revert now i shop.coupons).usages
              ≡ standing shop.order.id shop.coupons.usages - 1)
            (sym moved.same_id) (revert-standing now shop.order.id shop.coupons);
      others_kept = λ other h.
          subst
            (λ i.
              standing other (revert now i shop.coupons).usages
              ≡ standing other shop.coupons.usages)
            (sym moved.same_id) (revert-standing_other now shop.order.id other shop.coupons h);
      balanced = revert-IsBalanced now o.id shop.coupons;
    })

-- A cancellation that returns is of an order whose status does not count as paid. The order is then
-- CANCELLED; no row of the order is ACTIVE, and no item of a row that was ACTIVE for it is RESERVED.
-- Every row is as it was, or has become the row of its id that was ACTIVE for the order, RELEASED; every
-- item is as it was, or is the item of such a row, was RESERVED and is AVAILABLE. Of the order's
-- redemptions one less stands (none, where none did), of any other order as many as before, and the
-- counters of the coupons stay in balance with those that stand.
pub cancel-GivenBack :
    (now : ℕ) (reason : Text) (shop shop' : Shop)
    → cancel now reason shop ≡ ok shop'
    → (OrderStatus.is_paid shop.order.status ≡ false) × GivenBack now cancelled shop shop'
unfolding cancel
cancel-GivenBack now reason shop shop' h =
    elim (Bool-cases (OrderStatus.is_paid shop.order.status)) [
      | inl paid ↦ absurd (cc (rw paid at h))
      | inr unpaid ↦ (unpaid, close-GivenBack now reason cancelled shop shop' (rw unpaid at h))
    ]

-- Expiring an order leaves it and everything else alone, and its status counts as paid or is terminal;
-- or the order is EXPIRED, and its holds and its redemption are given back as by a cancellation.
pub expire_order-GivenBack :
    (now : ℕ) (shop shop' : Shop)
    → expire_order now shop ≡ ok shop'
    → (((OrderStatus.is_paid shop.order.status || OrderStatus.is_terminal shop.order.status) ≡ true)
        × (shop ≡ shop'))
      ⊎ GivenBack now expired shop shop'
unfolding expire_order
expire_order-GivenBack now shop shop' h =
    elim (Bool-cases
      (OrderStatus.is_paid shop.order.status || OrderStatus.is_terminal shop.order.status)) [
        | inl settled ↦ inl (settled, ok-injective (rw settled at h))
        | inr open_order ↦ inr (
            close-GivenBack now (codes "payment window expired") expired shop shop'
              (rw open_order at h))
      ]

-- An order that is parked in review and then cancelled.
unfoldable pub review_and_cancel : ℕ → Text → Shop → Result Shop
review_and_cancel now reason shop = do
  parked ← transition now (some reason) manual_review shop.order
  cancel now reason (record shop { order = parked })

nothing_held :
    (now order_id : ℕ) (stock : Stock)
    → active_for_order order_id stock.reservations ≡ []
    → release_for_order now order_id stock ≡ ok (0, stock)
unfolding release_for_order for_each
nothing_held now order_id stock h = rw h refl

-- An order that is PAYMENT_VERIFIED, and holds no stock, is cancelled when it was parked in review
-- before: both calls return, the order is CANCELLED, and its time of payment is still recorded.
pub cancel_paid :
    (now : ℕ) (reason : Text) (shop : Shop)
    → shop.order.status ≡ payment_verified
    → active_for_order shop.order.id shop.stock.reservations ≡ []
    → (shop' : Shop) × (review_and_cancel now reason shop ≡ ok shop')
      × (shop'.order.status ≡ cancelled)
      × (shop'.order.paid_at ≡ shop.order.paid_at)
unfolding review_and_cancel cancel close transition assert_order_transition stamp
    OrderStatus.is_paid
cancel_paid now reason shop paid free =
    rw paid (rw (nothing_held now shop.order.id shop.stock free) (_, refl, refl, refl))
