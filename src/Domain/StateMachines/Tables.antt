-- ===== src/Domain/StateMachines/Tables.antt =====
-- What the two transition tables allow.
use professional_bot.Prelude.{◌≡◌, ◌≢◌, ◌⊎◌, true, some, arith, ok}
use professional_bot.Domain.Enums.OrderStatus.{OrderStatus}
use professional_bot.Domain.Enums.PaymentStatus.{PaymentStatus}
use professional_bot.Domain.StateMachines.{
  assert_order_transition, can_transition_payment, assert_payment_transition,
  order_status_for_payment,
}

-- Whenever the table allows a payment to move from `p` to `q`, and both have an order status, the
-- order may move, or stay, accordingly.
pub order_follows_payment :
    (p q : PaymentStatus) {o r : OrderStatus}
    → can_transition_payment p q ≡ true
    → order_status_for_payment p ≡ some o
    → order_status_for_payment q ≡ some r
    → assert_order_transition o r ≡ ok tt
unfolding can_transition_payment order_status_for_payment assert_order_transition
order_follows_payment p q h ho hr = ground arith

-- A status change of a payment is accepted into VERIFIED only from VERIFIED itself, DETECTED,
-- VERIFYING, PENDING_CONFIRMATION or UNDER_REVIEW, and out of VERIFIED or CANCELLED never.
pub assert_payment_transition-verified :
    (p q : PaymentStatus)
    → assert_payment_transition p q ≡ ok tt
    → p ≢ q
    → (q ≡ PaymentStatus.verified
        → (p ≡ PaymentStatus.detected)
          ⊎ (p ≡ PaymentStatus.verifying)
          ⊎ (p ≡ PaymentStatus.pending_confirmation)
          ⊎ (p ≡ PaymentStatus.under_review))
      × (p ≢ PaymentStatus.verified)
      × (p ≢ PaymentStatus.cancelled)
unfolding assert_payment_transition
assert_payment_transition-verified p q h n = ground arith
