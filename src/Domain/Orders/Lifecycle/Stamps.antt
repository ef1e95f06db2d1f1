-- ===== src/Domain/Orders/Lifecycle/Stamps.antt =====
-- `transition` of app/domain/orders/service.py: what it changes and what it keeps.
use professional_bot.Prelude.{
  ℕ, ◌≡◌, ◌≢◌, true, Option, arith, ok, is_some, >>=-eq-ok, ok-injective, subst,
}
use professional_bot.Prelude.Text.{Text}
use professional_bot.Domain.Enums.OrderStatus.{OrderStatus, payment_verified, delivered, completed}
use professional_bot.Domain.StateMachines.{assert_order_transition}
use professional_bot.Domain.Orders.Lifecycle.{Order, stamp, transition}

-- What an accepted transition from `o` to `o'` leaves.
pub record Moved (now : ℕ) (target : OrderStatus) (o o' : Order) : Type 0 where
  pub allowed : assert_order_transition o.status target ≡ ok tt
  pub arrives : o'.status ≡ target
  pub same_id : o'.id ≡ o.id
  pub same_user : o'.user_id ≡ o.user_id
  pub same_total : o'.total ≡ o.total
  pub paid_kept : is_some o.paid_at ≡ true → o'.paid_at ≡ o.paid_at
  pub delivered_kept : is_some o.delivered_at ≡ true → o'.delivered_at ≡ o.delivered_at
  pub completed_kept : is_some o.completed_at ≡ true → o'.completed_at ≡ o.completed_at
  pub paid_stamped : target ≡ payment_verified → is_some o'.paid_at ≡ true
  pub delivered_stamped : target ≡ delivered → is_some o'.delivered_at ≡ true
  pub completed_stamped : target ≡ completed → is_some o'.completed_at ≡ true
  pub paid_only : o'.paid_at ≢ o.paid_at → target ≡ payment_verified

-- `stamp` on its own, for an order that already has the new status.
stamp-Moved :
    (now : ℕ) (reason : Option Text) (target : OrderStatus) (o : Order)
    → assert_order_transition o.status target ≡ ok tt
    → Moved now target o (stamp now reason target (record o { status = target }))
unfolding stamp
stamp-Moved now reason payment_verified o h = ground arith
stamp-Moved now reason delivered o h = ground arith
stamp-Moved now reason completed o h = ground arith
stamp-Moved now reason _ o h = ground arith

-- An accepted transition was allowed by the table, or kept the status; it sets the status, keeps the
-- order's identity and total, never changes a time of payment, delivery or completion that is
-- recorded, and records the one that goes with its target.
pub transition-Moved :
    (now : ℕ) (reason : Option Text) (target : OrderStatus) (o o' : Order)
    → transition now reason target o ≡ ok o'
    → Moved now target o o'
unfolding transition
transition-Moved now reason target o o' h =
    let (u, allowed, e) = >>=-eq-ok (assert_order_transition o.status target) _ h in
    subst (Moved now target o) (ok-injective e)
      (stamp-Moved now reason target o (allowed_unit u allowed))
  where
    allowed_unit :
        (u : Unit {0})
        → assert_order_transition o.status target ≡ ok u
        → assert_order_transition o.status target ≡ ok tt
    allowed_unit _ a = a
