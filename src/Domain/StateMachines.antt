-- ===== src/Domain/StateMachines.antt =====
-- app/domain/state_machines.py: guarded transitions of orders and payments, and the path that a
-- payment walks. `iter` is the order in which Python iterates a status's frozenset of successors,
-- which depends on the run: the hash of a text is seeded at random.
pub mod Search
pub mod Paths
pub mod Tables
use professional_bot.Prelude.{
  ℕ, ◌≡◌, Bool, true, false, List, [], ◌∷◌, Option, none, some, ◌==◌, contains, if◌then◌else◌,
  Result, ok, err, invalid_transition, value_error,
}
use professional_bot.Domain.Enums.OrderStatus
use professional_bot.Domain.Enums.OrderStatus.{OrderStatus, order_status_eq}
use professional_bot.Domain.Enums.PaymentStatus
use professional_bot.Domain.Enums.PaymentStatus.{PaymentStatus, payment_status_eq}
use Search.{Outcome, arrived, no_path, out_of_fuel, search}

unfoldable pub can_transition_order : OrderStatus → OrderStatus → Bool
unfolding OrderStatus.transitions
can_transition_order current target = contains (OrderStatus.transitions current) target

unfoldable pub assert_order_transition : OrderStatus → OrderStatus → Result (Unit {0})
unfolding can_transition_order
assert_order_transition current target =
    if current == target
    then ok tt
    else if can_transition_order current target
    then ok tt
    else err invalid_transition

unfoldable pub can_transition_payment : PaymentStatus → PaymentStatus → Bool
unfolding PaymentStatus.transitions
can_transition_payment current target = contains (PaymentStatus.transitions current) target

unfoldable pub assert_payment_transition : PaymentStatus → PaymentStatus → Result (Unit {0})
unfolding can_transition_payment
assert_payment_transition current target =
    if current == target
    then ok tt
    else if can_transition_payment current target
    then ok tt
    else err invalid_transition

-- Rounds of the `while` loop: at most one for each of the twelve statuses, and one that finds the
-- queue empty.
abbrev pub path_fuel : ℕ
path_fuel = 14

-- The search's result as the function returns it. Running out of fuel has no counterpart in the
-- code.
path_result : Outcome PaymentStatus → Result (List PaymentStatus)
path_result (arrived p) = ok p
path_result no_path = err invalid_transition
path_result out_of_fuel = err value_error

unfoldable pub payment_path :
    (PaymentStatus → List PaymentStatus)
    → PaymentStatus
    → PaymentStatus
    → Result (List PaymentStatus)
unfolding path_result
payment_path iter current target =
    if current == target
    then ok []
    else path_result (search iter target path_fuel (current ∷ []) ((current, []) ∷ []))

unfoldable pub order_status_for_payment : PaymentStatus → Option OrderStatus
order_status_for_payment PaymentStatus.awaiting_payment = some OrderStatus.payment_pending
order_status_for_payment PaymentStatus.submitted = some OrderStatus.payment_pending
order_status_for_payment PaymentStatus.detecting = some OrderStatus.payment_pending
order_status_for_payment PaymentStatus.detected = some OrderStatus.payment_pending
order_status_for_payment PaymentStatus.verifying = some OrderStatus.payment_pending
order_status_for_payment PaymentStatus.pending_confirmation = some OrderStatus.payment_pending
order_status_for_payment PaymentStatus.verified = some OrderStatus.payment_verified
order_status_for_payment PaymentStatus.under_review = some OrderStatus.manual_review
order_status_for_payment PaymentStatus.expired = some OrderStatus.expired
order_status_for_payment _ = none
