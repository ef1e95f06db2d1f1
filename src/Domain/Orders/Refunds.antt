-- ===== src/Domain/Orders/Refunds.antt =====
-- `RefundService` of app/domain/orders/refunds.py, with `RefundRepository.refunded_total` of
-- app/db/repositories/orders.py. Amounts are in units of 10^-8, the scale of the columns. The
-- notification to the customer and the log lines are left out.
pub mod Requests
pub mod Completion
use professional_bot.Prelude.{
  ℕ, Bool, true, false, ◌&&◌, ◌||◌, not, List, [], ◌∷◌, ◌++◌, Option, none, some, ◌==◌, nat_eq,
  if◌then◌else◌, take, Result, ok, err, conflict, validation,
}
use professional_bot.Prelude.Int.{ℤ, pos, ◌+ℤ◌, ◌-ℤ◌, neg, ltb_ℤ, leb_ℤ, eqb_ℤ}
use professional_bot.Prelude.Text.{Text, is_empty, strip}
use professional_bot.Core.Money.{Decimal, money_scale, quantize_money}
use professional_bot.Db.Ledger.{Ledger, LedgerEntry, record_entry, DedupeKey}
use professional_bot.Domain.Enums.LedgerEntryType.{LedgerEntryType}
use professional_bot.Domain.Enums.OrderStatus
use professional_bot.Domain.Enums.RefundStatus.{
  RefundStatus, refund_status_eq, requested, approved, processing, completed, rejected,
}
use professional_bot.Domain.Orders.Lifecycle.{Order, transition}

pub record Refund : Type 0 where
  pub id : ℕ
  pub order_id : ℕ
  pub payment_intent_id : ℕ
  pub amount : ℤ
  pub status : RefundStatus
  pub approved_by_id : Option ℕ
  pub external_reference : Option Text
  pub processed_at : Option ℕ
  pub notes : Option Text

-- The columns that are read of the payment that `verified_for_order` finds.
pub record VerifiedPayment : Type 0 where
  pub id : ℕ
  pub received_amount : Option ℤ
  pub expected_amount : ℤ

-- `received_amount or expected_amount`: a zero amount is false.
unfoldable pub amount_or : Option ℤ → ℤ → ℤ
amount_or none expected = expected
amount_or (some r) expected = if eqb_ℤ r (pos 0) then expected else r

unfoldable pub paid_amount : VerifiedPayment → ℤ
unfolding amount_or
paid_amount p = amount_or p.received_amount p.expected_amount

abbrev pub counts : ℕ → Refund → Bool
counts order_id r = r.order_id == order_id && (r.status == completed || r.status == processing)

unfoldable pub refunded_total : ℕ → List Refund → ℤ
refunded_total order_id [] = pos 0
refunded_total order_id (r ∷ refunds) =
    let rest = refunded_total order_id refunds in
    if counts order_id r then r.amount +ℤ rest else rest

-- The amount that is asked for, or all that remains.
unfoldable pub requested_amount : Option Decimal → ℤ → ℤ
requested_amount none remaining = remaining
requested_amount (some amount) remaining = (quantize_money amount money_scale).coef

unfoldable pub request_on :
    ℕ → Order → VerifiedPayment → Option Decimal → List Refund → Result (Refund × List Refund)
request_on new_id order intent amount refunds =
    let remaining = paid_amount intent -ℤ refunded_total order.id refunds in
    let requested_units = requested_amount amount remaining in
    if leb_ℤ remaining (pos 0)
    then err conflict
    else if leb_ℤ requested_units (pos 0)
    then err validation
    else if ltb_ℤ remaining requested_units
    then err validation
    else let refund : Refund = record {
      id = new_id;
      order_id = order.id;
      payment_intent_id = intent.id;
      amount = requested_units;
      status = requested;
      approved_by_id = none;
      external_reference = none;
      processed_at = none;
      notes = none;
    } in
      ok (refund, refunds ++ refund ∷ [])

-- The refund and the table with it; `new_id` is the row's new id.
unfoldable pub request :
    ℕ
    → Order
    → Option VerifiedPayment
    → Option Decimal
    → List Refund
    → Result (Refund × List Refund)
request new_id order none amount refunds = err conflict
request new_id order (some intent) amount refunds =
    if OrderStatus.is_paid order.status
    then request_on new_id order intent amount refunds
    else err conflict

unfoldable pub approve : ℕ → Refund → Result Refund
approve actor_id refund =
    if refund.status == requested
    then ok (record refund { status = approved; approved_by_id = some actor_id })
    else err conflict

unfoldable pub reject : ℕ → Text → Refund → Result Refund
reject actor_id reason refund =
    if refund.status == completed || refund.status == processing
    then err conflict
    else ok (record refund {
      status = rejected;
      approved_by_id = some actor_id;
      notes = some (take 512 reason);
    })

-- What `complete` reads and writes: the refunds, the journal and the refund's order.
pub record Books : Type 0 where
  pub refunds : List Refund
  pub ledger : Ledger
  pub order : Option Order

-- The changed row, in its place.
unfoldable pub store_refund : Refund → List Refund → List Refund
store_refund r [] = []
store_refund r (x ∷ refunds) = (if x.id == r.id then r else x) ∷ store_refund r refunds

unfoldable pub paid_for : Option VerifiedPayment → Order → ℤ
paid_for none order = order.total
paid_for (some intent) order = paid_amount intent

-- `try: … except: log`, an order that may not become REFUNDED stays as it is.
abbrev pub or_unchanged : Order → Result Order → Order
or_unchanged order (ok moved) = moved
or_unchanged order (err _) = order

unfoldable pub close_order : ℕ → Option VerifiedPayment → List Refund → Option Order → Option Order
close_order now intent refunds none = none
close_order now intent refunds (some order) =
    if leb_ℤ (paid_for intent order) (refunded_total order.id refunds)
    then some (or_unchanged order (transition now none OrderStatus.refunded order))
    else some order

unfoldable pub refund_entry : Refund → LedgerEntry
refund_entry refund = record {
  entry_type = LedgerEntryType.refund;
  amount = record { coef = neg refund.amount; scale = money_scale };
  dedupe_key = DedupeKey.refund refund.id;
  order_id = some refund.order_id;
  payment_intent_id = some refund.payment_intent_id;
}

-- The refund once it is executed, and all that is written with it.
unfoldable pub executed : ℕ → Text → Refund → Refund
executed now external_reference refund = record refund {
  status = completed;
  external_reference = some (take 255 (strip external_reference));
  processed_at = some now;
}

unfoldable pub settled : ℕ → Option VerifiedPayment → Refund → Books → Books
settled now intent done books =
    let refunds = store_refund done books.refunds in
    record {
      refunds = refunds;
      ledger = (record_entry (refund_entry done) books.ledger).1;
      order = close_order now intent refunds books.order;
    }

unfoldable pub complete :
    ℕ → Text → Option VerifiedPayment → Refund → Books → Result (Refund × Books)
complete now external_reference intent refund books =
    if refund.status == completed
    then ok (refund, books)
    else if not (refund.status == approved || refund.status == processing)
    then err conflict
    else if is_empty (strip external_reference)
    then err validation
    else let done = executed now external_reference refund in
      ok (done, settled now intent done books)

unfoldable pub refundable_amount : Order → Option VerifiedPayment → List Refund → ℤ
refundable_amount order none refunds = pos 0
refundable_amount order (some intent) refunds =
    paid_amount intent -ℤ refunded_total order.id refunds
