-- ===== src/Domain/Orders/Refunds/Requests.antt =====
-- What a refund request records, and what two of them add up to.
use professional_bot.Prelude.{
  ℕ, ◌≡◌, ◌≢◌, refl, true, false, List, [], ◌∷◌, ◌++◌, Option, none, some, arith, Result, ok, err,
  ◌>>=◌, nat_eqb_iff, take, ap, nat_eqb_refl,
}
use professional_bot.Prelude.Int.{
  ℤ, pos, ◌+ℤ◌, ◌-ℤ◌, ◌≤ℤ◌, ◌<ℤ◌, +ℤ_parts, -ℤ_parts, eq_of_parts, int_laws,
}
use professional_bot.Prelude.Text.{Text, is_empty, strip}
use professional_bot.Core.Money.{Decimal}
use professional_bot.Db.Ledger.{Ledger, record_entry}
use professional_bot.Domain.Enums.OrderStatus
use professional_bot.Domain.Enums.RefundStatus.{requested, approved, completed}
use professional_bot.Domain.Orders.Lifecycle.{Order}
use professional_bot.Domain.Orders.Refunds.{
  Refund, VerifiedPayment, paid_amount, refunded_total, request_on, request, requested_amount,
  approve, Books, complete, executed, settled, store_refund, close_order, refund_entry,
}

-- A granted request of `intent`'s payment for `order`.
pub record Granted (order : Order) (intent : VerifiedPayment) (refunds : List Refund) (r : Refund)
    (refunds' : List Refund) : Type 0 where
  pub order_paid : OrderStatus.is_paid order.status ≡ true
  pub pending : r.status ≡ requested
  pub of_order : r.order_id ≡ order.id
  pub of_intent : r.payment_intent_id ≡ intent.id
  pub positive : pos 0 <ℤ r.amount
  pub within : r.amount +ℤ refunded_total order.id refunds ≤ℤ paid_amount intent
  pub appended : refunds' ≡ refunds ++ r ∷ []

-- A request that is granted is for a paid order with a verified payment, and records one pending
-- refund of a positive amount which, with what was refunded before, is within the payment.
pub request-Granted :
    (new_id : ℕ) (order : Order) (intent : Option VerifiedPayment) (amount : Option Decimal)
    (refunds : List Refund) (r : Refund) (refunds' : List Refund)
    → request new_id order intent amount refunds ≡ ok (r, refunds')
    → (p : VerifiedPayment) × (intent ≡ some p) × Granted order p refunds r refunds'
unfolding request request_on
request-Granted new_id order none amount refunds r refunds' h = absurd (cc)
request-Granted new_id order (some p) amount refunds r refunds' h = (
  p,
  refl,
  ground (
    arith,
    -ℤ_parts (paid_amount p) (refunded_total order.id refunds),
    +ℤ_parts r.amount (refunded_total order.id refunds),
  ),
)

-- Two refunds of the whole payment: both are requested before either is approved, then both are
-- approved and completed.
unfoldable pub refund_in_full_twice :
    ℕ → ℕ → Text → ℕ → ℕ → Order → VerifiedPayment → Ledger → Result Books
refund_in_full_twice actor now reference i j order p ledger = do
  (r, one) ← request i order (some p) none []
  (s, two) ← request j order (some p) none one
  r' ← approve actor r
  s' ← approve actor s
  let stored = store_refund s' (store_refund r' two)
  (_, books) ←
      complete now reference (some p) r'
        (record { refunds = stored; ledger = ledger; order = some order })
  (_, books') ← complete now reference (some p) s' books
  ok books'

abbrev full : ℕ → Order → VerifiedPayment → Refund
full i order p = record {
  id = i;
  order_id = order.id;
  payment_intent_id = p.id;
  amount = paid_amount p;
  status = requested;
  approved_by_id = none;
  external_reference = none;
  processed_at = none;
  notes = none;
}

-- While nothing is refunded yet, the whole payment can be requested, whatever else is pending.
request-full :
    (i : ℕ) (order : Order) (p : VerifiedPayment) (refunds : List Refund)
    → OrderStatus.is_paid order.status ≡ true
    → pos 0 <ℤ paid_amount p
    → refunded_total order.id refunds ≡ pos 0
    → request i order (some p) none refunds ≡ ok (full i order p, refunds ++ full i order p ∷ [])
unfolding request request_on requested_amount
request-full i order p refunds paid some_paid unrefunded =
    let same : paid_amount p -ℤ pos 0 ≡ paid_amount p =
      omega (arith, -ℤ_parts (paid_amount p) (pos 0), eq_of_parts) in
    rw (paid, unrefunded, same) (ground arith)

pending_total :
    (i : ℕ) (order : Order) (p : VerifiedPayment)
    → refunded_total order.id (full i order p ∷ []) ≡ pos 0
unfolding refunded_total
pending_total i order p = ground arith

empty_total : (order : Order) → refunded_total order.id [] ≡ pos 0
unfolding refunded_total
empty_total order = refl

abbrev ready : ℕ → ℕ → Order → VerifiedPayment → Refund
ready actor i order p = record (full i order p) { status = approved; approved_by_id = some actor }

abbrev done : ℕ → Text → Refund → Refund
done now reference r = record r {
  status = completed;
  external_reference = some (take 255 (strip reference));
  processed_at = some now;
}

-- An approved refund completes, given a reference.
complete-approved :
    (now : ℕ) (reference : Text) (p : Option VerifiedPayment) (r : Refund) (books : Books)
    → r.status ≡ approved
    → is_empty (strip reference) ≡ false
    → complete now reference p r books
      ≡ ok (
        done now reference r,
        record {
          refunds = store_refund (done now reference r) books.refunds;
          ledger = (record_entry (refund_entry (done now reference r)) books.ledger).1;
          order = close_order now p (store_refund (done now reference r) books.refunds) books.order;
        },
      )
unfolding complete executed settled
complete-approved now reference p r books e given = ground arith

module _ (actor now : ℕ) (reference : Text) (i j : ℕ) (order : Order) (p : VerifiedPayment)
    (differ : i ≢ j) where
  abbrev first : Refund
  first = ready actor i order p

  abbrev second : Refund
  second = ready actor j order p

  both_approved :
      store_refund second (store_refund first (full i order p ∷ full j order p ∷ []))
      ≡ first ∷ second ∷ []
  unfolding store_refund
  both_approved = ground (arith, nat_eqb_iff i j, nat_eqb_iff j i)

  both_completed :
      store_refund
        (done now reference second)
        (store_refund (done now reference first) (first ∷ second ∷ []))
      ≡ done now reference first ∷ done now reference second ∷ []
  unfolding store_refund
  both_completed = ground (arith, nat_eqb_iff i j, nat_eqb_iff j i)

  both_refunded :
      refunded_total order.id (done now reference first ∷ done now reference second ∷ [])
      ≡ paid_amount p +ℤ paid_amount p
  unfolding refunded_total
  both_refunded = rw (nat_eqb_refl order.id) (omega int_laws)

-- What is refunded of `order`, when the calls return.
abbrev pub refunded_after : Order → Result Books → Result ℤ
refunded_after order (ok books) = ok (refunded_total order.id books.refunds)
refunded_after order (err e) = err e

-- For a paid order whose payment is positive, two requests of the whole payment that are both made
-- before either is completed are granted, approved and completed, and then twice the payment counts
-- as refunded.
pub double_refund :
    (actor now : ℕ) (reference : Text) (i j : ℕ) (order : Order) (p : VerifiedPayment)
    (ledger : Ledger)
    → OrderStatus.is_paid order.status ≡ true
    → pos 0 <ℤ paid_amount p
    → i ≢ j
    → is_empty (strip reference) ≡ false
    → refunded_after order (refund_in_full_twice actor now reference i j order p ledger)
      ≡ ok (paid_amount p +ℤ paid_amount p)
unfolding refund_in_full_twice approve
double_refund actor now reference i j order p ledger paid positive differ given =
    let a = ready actor i order p in
    let b = ready actor j order p in
    let start : Books = record { refunds = a ∷ b ∷ []; ledger = ledger; order = some order } in
    rw (request-full i order p [] paid positive (empty_total order)) (
      rw (request-full j order p (full i order p ∷ []) paid positive (pending_total i order p)) (
        rw (both_approved actor now reference i j order p differ) (
          rw (complete-approved now reference (some p) a start refl given) (
            rw (complete-approved now reference (some p) b _ refl given) (
              rw (both_completed actor now reference i j order p differ)
                (ap ok (both_refunded actor now reference i j order p differ)))))))
