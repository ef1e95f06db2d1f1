-- ===== src/Examples/Orders.antt =====
-- A paid order of 20, its refunds and its journal.
use professional_bot.Prelude.{◌≡◌, refl, true, false, [], ◌∷◌, Option, none, some, arith, ok}
use professional_bot.Prelude.Int.{pos, ◌+ℤ◌, ◌-ℤ◌, ◌<ℤ◌}
use professional_bot.Prelude.Text.{codes, is_empty, strip}
use professional_bot.Core.Money.{Decimal, quantize_money}
use professional_bot.Db.Ledger.{DedupeKey, LedgerEntry}
use professional_bot.Db.Ledger.Refines.{run, replay, entry_for, run_refines}
use professional_bot.Db.Ledger.Once.{IsJournal}
use professional_bot.Domain.Enums.LedgerEntryType.{LedgerEntryType}
use professional_bot.Domain.Enums.OrderStatus
use professional_bot.Domain.Enums.OrderStatus.{OrderStatus}
use professional_bot.Domain.Enums.RefundStatus.{requested, approved}
use professional_bot.Domain.StateMachines.{assert_order_transition}
use professional_bot.Domain.Orders.Lifecycle.{Order, stamp, transition}
use professional_bot.Domain.Orders.Refunds.{
  Refund, VerifiedPayment, paid_amount, request, request_on, refunded_total, requested_amount,
  Books, complete, executed, settled,
}
use professional_bot.Domain.Orders.Refunds.Requests.{
  Granted, request-Granted, refund_in_full_twice, refunded_after, double_refund,
}
use professional_bot.Domain.Orders.Refunds.Completion.{Completed, complete-Completed}

abbrev pub order : Order
order = record {
  id = 7;
  reference = codes "TG-10007";
  user_id = some 1;
  reseller_id = none;
  items = [];
  status = OrderStatus.payment_verified;
  currency = codes "USDT";
  subtotal = pos 2000000000;
  discount_total = pos 0;
  total = pos 2000000000;
  coupon_id = none;
  paid_at = some 5;
  delivered_at = none;
  completed_at = none;
  cancelled_at = none;
  cancellation_reason = none;
  review_reason = none;
}

abbrev payment : VerifiedPayment
payment = record {
  id = 3;
  received_amount = some (pos 2000000000);
  expected_amount = pos 2000000000;
}

abbrev half : Refund
half = record {
  id = 11;
  order_id = 7;
  payment_intent_id = 3;
  amount = pos 1000000000;
  status = requested;
  approved_by_id = none;
  external_reference = none;
  processed_at = none;
  notes = none;
}

abbrev ten : Option Decimal
ten = some (record { coef = pos 10; scale = 0 })

abbrev entry : LedgerEntry
entry = record {
  entry_type = LedgerEntryType.refund;
  amount = record { coef = pos 10; scale = 0 };
  dedupe_key = DedupeKey.refund 11;
  order_id = some 7;
  payment_intent_id = some 3;
}

moves :
    transition 9 none OrderStatus.fulfilling order
    ≡ ok (record order { status = OrderStatus.fulfilling })
unfolding transition assert_order_transition stamp
moves = refl

granted : request 11 order (some payment) ten [] ≡ ok (half, half ∷ [])
unfolding request OrderStatus.is_paid request_on requested_amount refunded_total ◌-ℤ◌ paid_amount
    quantize_money
granted = refl

request-Granted_example :
    (p : VerifiedPayment) × (some payment ≡ some p) × Granted order p [] half (half ∷ [])
request-Granted_example = request-Granted 11 order (some payment) ten [] half (half ∷ []) granted

order_is_paid : OrderStatus.is_paid order.status ≡ true
unfolding OrderStatus.is_paid
order_is_paid = refl

payment_is_positive : pos 0 <ℤ paid_amount payment
unfolding paid_amount
payment_is_positive = omega arith

reference_is_given : is_empty (strip (codes "tx")) ≡ false
unfolding strip
reference_is_given = refl

double_refund_example :
    refunded_after order (refund_in_full_twice 1 9 (codes "tx") 11 12 order payment [])
    ≡ ok (paid_amount payment +ℤ paid_amount payment)
double_refund_example =
    double_refund 1 9 (codes "tx") 11 12 order payment [] order_is_paid payment_is_positive
      (omega arith) reference_is_given

abbrev granted_half : Refund
granted_half = record half { status = approved }

abbrev books : Books
books = record { refunds = granted_half ∷ []; ledger = []; order = some order }

completes :
    complete 9 (codes "tx") (some payment) granted_half books
    ≡ ok (
      executed 9 (codes "tx") granted_half,
      settled 9 (some payment) (executed 9 (codes "tx") granted_half) books,
    )
unfolding complete strip
completes = refl

complete-Completed_example :
    Completed 9
      (codes "tx")
      (some payment)
      granted_half
      books
      (executed 9 (codes "tx") granted_half)
      (settled 9 (some payment) (executed 9 (codes "tx") granted_half) books)
complete-Completed_example =
    complete-Completed 9 (codes "tx") (some payment) granted_half books _ _ (λ h. cc) completes

run_refines_example :
    ((run (entry ∷ entry ∷ []) []).0 ≡ (replay (entry ∷ entry ∷ []) (entry_for [])).0)
    × (entry_for (run (entry ∷ entry ∷ []) []).1 ≡ (replay (entry ∷ entry ∷ []) (entry_for [])).1)
    × (IsJournal [] → IsJournal (run (entry ∷ entry ∷ []) []).1)
run_refines_example = run_refines (entry ∷ entry ∷ []) []
