-- ===== src/Domain/Orders/Delivery/Finishing.antt =====
-- Failures and finalisation of app/domain/orders/delivery.py: `record_failure`, `finalise_order` and `status_summary`.
use professional_bot.Prelude.{
  ℕ, ◌+◌, ◌*◌, ◌^◌, min, Bool, true, false, not, ◌||◌, List, ◌++◌, Option, none, some, ◌==◌, nat_eq,
  if◌then◌else◌, leb, ltb, seconds, any, length, filter_by, take, Result, ok, ◌>>=◌,
}
use professional_bot.Prelude.Text.{Text, codes}
use professional_bot.Domain.Enums.DeliveryStatus.{DeliveryStatus, delivery_status_eq}
use professional_bot.Domain.Enums.OrderStatus.{OrderStatus, order_status_eq}
use professional_bot.Domain.Enums.PaymentStatus.{payment_status_eq}
use professional_bot.Domain.Orders.Creation.{Desk, complete}
use professional_bot.Domain.Orders.Lifecycle.{Order, transition}
use professional_bot.Domain.Orders.Delivery.{Delivery, Depot}

-- `min(2**attempts * 30, 3600)`
unfoldable pub backoff : ℕ → ℕ
backoff attempts = min (2 ^ attempts * 30) 3600

-- The order after the last attempt of a delivery.
abbrev pub escalate : ℕ → Text → Option Order → Result (Option Order)
escalate now error none = ok none
escalate now error (some order) =
    if order.status == OrderStatus.manual_review
    then ok (some order)
    else transition now (some (codes "delivery failed: " ++ take 120 error))
        (if order.status == OrderStatus.fulfilling
          then OrderStatus.delivery_failed
          else OrderStatus.manual_review)
        order
      >>= (λ moved. ok (some moved))

abbrev pub failed_with : Text → Option ℕ → Delivery → Delivery
failed_with error next d = record d {
  status = DeliveryStatus.failed;
  last_error = some (take 512 error);
  next_attempt_at = next;
}

-- `record_failure`: the delivery, and the depot.
unfoldable pub record_failure : ℕ → ℕ → Text → Delivery → Depot → Result (Delivery × Depot)
record_failure now max_attempts error delivery depot =
    if leb max_attempts delivery.attempts
    then escalate now error depot.order
      >>= (λ order. ok (failed_with error none delivery, record depot { order = order }))
    else ok (failed_with error (some (now + seconds (backoff delivery.attempts))) delivery, depot)

unfoldable pub list_for_order : ℕ → List Delivery → List Delivery
list_for_order order_id ds = filter_by (λ d. d.order_id == order_id) ds

abbrev pub is_open : Delivery → Bool
is_open d = not (d.status == DeliveryStatus.completed)

-- The order, moved to DELIVERED where it is being fulfilled.
abbrev pub deliver_order : ℕ → Order → Result Order
deliver_order now order =
    if order.status == OrderStatus.fulfilling || order.status == OrderStatus.delivery_failed
    then transition now none OrderStatus.delivered order
    else ok order

abbrev pub complete_order : ℕ → Order → Desk → Result (Order × Desk)
complete_order now order desk =
    if order.status == OrderStatus.delivered then complete now order desk else ok (order, desk)

-- `finalise_order`
unfoldable pub finalise_order : ℕ → Order → Depot → Result (Bool × Depot)
finalise_order now order depot =
    let deliveries = list_for_order order.id depot.deliveries in
    if not (ltb 0 (length deliveries)) || any is_open deliveries
    then ok (false, depot)
    else deliver_order now order >>= (λ moved.
      complete_order now moved depot.desk
      >>= (λ done. ok (true, record depot { order = some done.0; desk = done.1 })))

pub record StatusSummary : Type 0 where
  pub total : ℕ
  pub completed : ℕ
  pub failed : ℕ
  pub ready : Bool

unfoldable pub status_summary : ℕ → List Delivery → StatusSummary
status_summary order_id table =
    let ds = list_for_order order_id table in
    let completed = length (filter_by (λ d. d.status == DeliveryStatus.completed) ds) in
    if not (ltb 0 (length ds))
    then record { total = 0; completed = 0; failed = 0; ready = false }
    else record {
      total = length ds;
      completed = completed;
      failed = length (filter_by (λ d. d.status == DeliveryStatus.failed) ds);
      ready = completed == length ds;
    }
