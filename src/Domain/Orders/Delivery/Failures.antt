-- ===== src/Domain/Orders/Delivery/Failures.antt =====
-- `record_failure` of app/domain/orders/delivery.py, with `due` of app/db/repositories/orders.py.
use professional_bot.Prelude.{
  ℕ, zero, suc, ◌+◌, ◌^◌, ◌≤◌, ◌<◌, ◌≡◌, ◌⊎◌, refl, sym, subst, true, ◌++◌, Option, none, some,
  arith, leb, seconds, Bool-cases, inl, inr, ok, ◌==◌, nat_eq, >>=-eq-ok, ok-injective,
  if◌then◌else◌, take,
}
use professional_bot.Prelude.Text.{Text, codes}
use professional_bot.Domain.Enums.DeliveryStatus
use professional_bot.Domain.Enums.DeliveryStatus.{delivery_status_eq}
use professional_bot.Domain.Enums.OrderStatus.{OrderStatus, order_status_eq}
use professional_bot.Domain.Orders.Lifecycle.{Order, transition}
use professional_bot.Domain.Orders.Lifecycle.Stamps.{transition-Moved}
use professional_bot.Domain.Orders.Delivery.{Delivery, Depot}
use professional_bot.Domain.Orders.Delivery.Finishing.{
  backoff, escalate, failed_with, record_failure,
}
use professional_bot.Domain.Orders.Delivery.Dispatching.{is_due}

power_positive : (n : ℕ) → 1 ≤ 2 ^ n
power_positive zero = omega arith
power_positive (suc n) = grind (arith, power_positive n)

pub backoff_bounds : (n : ℕ) → (30 ≤ backoff n) × (backoff n ≤ 3600)
unfolding backoff
backoff_bounds n = (omega (arith, power_positive n), omega arith)

-- The order after a failure: as before, or escalated.
abbrev pub Escalated : Option Order → Option Order → Type 0
Escalated before after =
    (after ≡ before)
    ⊎ ((o : Order) × ((o' : Order) × ((before ≡ some o)
            × (after ≡ some o')
            × (o'.id ≡ o.id)
            × (((o.status ≡ OrderStatus.fulfilling) × (o'.status ≡ OrderStatus.delivery_failed))
                ⊎ (o'.status ≡ OrderStatus.manual_review)))))

-- What a failure that is recorded leaves.
pub record Recorded (now max_attempts : ℕ) (d : Delivery) (p : Depot) (d' : Delivery) (p' : Depot)
    : Type 0 where
  pub is_failed : d'.status ≡ DeliveryStatus.failed
  pub same_row : (d'.id ≡ d.id) × (d'.attempts ≡ d.attempts)
  pub same_payments : p'.intents ≡ p.intents
  pub same_shop : (p'.desk ≡ p.desk) × (p'.deliveries ≡ p.deliveries)
  pub retried :
      d.attempts < max_attempts
      → (p'.order ≡ p.order)
        × ((at : ℕ) × ((d'.next_attempt_at ≡ some at)
              × (now + seconds 30 ≤ at)
              × (at ≤ now + seconds 3600)))
  pub exhausted :
      max_attempts ≤ d.attempts → (d'.next_attempt_at ≡ none) × Escalated p.order p'.order

escalate-Escalated :
    (now : ℕ) (error : Text) (before after : Option Order)
    → escalate now error before ≡ ok after
    → Escalated before after
escalate-Escalated now error none after h = inl (sym (ok-injective h))
escalate-Escalated now error (some o) after h =
    elim (Bool-cases (o.status == OrderStatus.manual_review)) [
      | inl parked ↦ inl (sym (ok-injective (rw parked at h)))
      | inr active ↦
          let target =
            if o.status == OrderStatus.fulfilling
            then OrderStatus.delivery_failed
            else OrderStatus.manual_review in
          let reason = some (codes "delivery failed: " ++ take 120 error) in
          let (o', e, g) = >>=-eq-ok (transition now reason target o) _ (rw active at h) in
          let moved = transition-Moved now reason target o o' e in
          inr (o, (o', (refl, sym (ok-injective g), moved.same_id, arrival o o' moved.arrives)))
    ]
  where
    arrival :
        (o o' : Order)
        → o'.status ≡ (
            if o.status == OrderStatus.fulfilling
            then OrderStatus.delivery_failed
            else OrderStatus.manual_review)
        → ((o.status ≡ OrderStatus.fulfilling) × (o'.status ≡ OrderStatus.delivery_failed))
          ⊎ (o'.status ≡ OrderStatus.manual_review)
    arrival o o' h = elim (Bool-cases (o.status == OrderStatus.fulfilling)) [
      | inl filling ↦
          inl ((order_status_eq.beq_iff o.status OrderStatus.fulfilling).0 filling, rw filling at h)
      | inr other ↦ inr (rw other at h)
    ]

-- A failure that is recorded marks the delivery FAILED, and changes no payment, no stock and no other
-- table; before the last attempt the order stays as it is and the next attempt comes after 30 seconds
-- to an hour; after it no time is set, and the order goes from FULFILLING to DELIVERY_FAILED, from
-- another status to MANUAL_REVIEW, or stays.
pub record_failure-Recorded :
    (now max_attempts : ℕ) (error : Text) (d : Delivery) (p : Depot) (d' : Delivery) (p' : Depot)
    → record_failure now max_attempts error d p ≡ ok (d', p')
    → Recorded now max_attempts d p d' p'
unfolding record_failure
record_failure-Recorded now max error d p d' p' h = elim (Bool-cases (leb max d.attempts)) [
  | inl spent ↦
      let (o, e, g) = >>=-eq-ok (escalate now error p.order) _ (rw spent at h) in
      subst (λ x. Recorded now max d p x.0 x.1) (ok-injective g)
        (record {
          is_failed = refl;
          same_row = (refl, refl);
          same_payments = refl;
          same_shop = (refl, refl);
          retried = λ early. let no : ⊥ = ground arith in absurd no;
          exhausted = λ late. (refl, escalate-Escalated now error p.order o e);
        })
  | inr early ↦
      subst (λ x. Recorded now max d p x.0 x.1)
        (ok-injective {x = (failed_with error (some (now + seconds (backoff d.attempts))) d, p)}
          (rw early at h))
        (record {
          is_failed = refl;
          same_row = (refl, refl);
          same_payments = refl;
          same_shop = (refl, refl);
          retried = λ _. (
            refl,
            (
              now + seconds (backoff d.attempts),
              (
                refl,
                omega (arith, (backoff_bounds d.attempts).0),
                omega (arith, (backoff_bounds d.attempts).1),
              ),
            ),
          );
          exhausted = λ late. let no : ⊥ = ground arith in absurd no;
        })
]

-- A delivery whose attempts are used up is due again at once: at every time, the row that
-- `record_failure` leaves is among those that the worker takes.
pub exhausted_is_due :
    (now max_attempts : ℕ) (error : Text) (d : Delivery) (p : Depot) (d' : Delivery) (p' : Depot)
    (later : ℕ)
    → record_failure now max_attempts error d p ≡ ok (d', p')
    → max_attempts ≤ d.attempts
    → is_due later d' ≡ true
exhausted_is_due now max error d p d' p' later h spent =
    let recorded = record_failure-Recorded now max error d p d' p' h in
    rw (recorded.is_failed, (recorded.exhausted spent).0) refl
