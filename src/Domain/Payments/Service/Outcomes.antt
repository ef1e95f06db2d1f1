-- ===== src/Domain/Payments/Service/Outcomes.antt =====
-- What `_record_outcome` of app/domain/payments/service.py and the methods that it calls write, each on
-- its own: the evidence, the order that follows, the journal entry, the anomaly. Durations are in
-- seconds, times in microseconds.
use professional_bot.Prelude.{
  ℕ, ◌+◌, ◌*◌, ◌/◌, min, max, Bool, not, ◌&&◌, [], ◌∷◌, ◌++◌, Option, none, some, ◌==◌,
  if◌then◌else◌, Result, ok, err, ◌>>=◌,
}
use professional_bot.Prelude.Int.{pos, ◌-ℤ◌, pos_part, eqb_ℤ}
use professional_bot.Prelude.Text.{Text, codes}
use professional_bot.Core.Money.{Decimal}
use professional_bot.Db.Ledger.{LedgerEntry, DedupeKey, record_entry}
use professional_bot.Db.Reconciliation.{ReconciliationKind, record_anomaly}
use professional_bot.Domain.Enums.LedgerEntryType.{LedgerEntryType}
use professional_bot.Domain.Enums.OrderStatus
use professional_bot.Domain.Enums.OrderStatus.{order_status_eq}
use professional_bot.Domain.Enums.PaymentStatus.{payment_status_eq}
use professional_bot.Domain.Enums.VerificationOutcome.{VerificationOutcome, verification_outcome_eq}
use professional_bot.Domain.Orders.Lifecycle.{Order, transition}
use professional_bot.Domain.Payments.Types.{ObservedTransaction, amount}
use professional_bot.Domain.Payments.Verification.{VerificationDecision}
use professional_bot.Domain.Payments.Service.{PaymentIntent, PaymentAttempt, Session}

-- The settings of `payments` that the service reads.
pub record Settings : Type 0 where
  pub max_verification_attempts : ℕ
  pub verification_poll_interval : ℕ

-- What the caller is told, besides the payment and the decision.
pub record VerificationResult : Type 0 where
  pub outcome : VerificationOutcome
  pub newly_verified : Bool
  pub needs_review : Bool
  pub retry_in_seconds : Option ℕ

abbrev pub on_intent : (PaymentIntent → PaymentIntent) → Session → Session
on_intent f s = record s { intent = f s.intent }

unfoldable pub confirmation_backoff : Settings → PaymentIntent → ℕ
confirmation_backoff settings intent =
    let missing = max (pos_part (intent.required_confirmations -ℤ intent.confirmations)) 1 in
    min (settings.verification_poll_interval * max (missing / 4) 1) 120

-- `received_amount or expected_amount`
abbrev pub credited_amount : PaymentIntent → Decimal
credited_amount intent = elim intent.received_amount [
  | none ↦ intent.expected_amount
  | some a ↦ if eqb_ℤ a.coef (pos 0) then intent.expected_amount else a
]

abbrev pub payment_entry : PaymentIntent → LedgerEntry
payment_entry intent = record {
  entry_type = LedgerEntryType.payment_verified;
  amount = credited_amount intent;
  dedupe_key = DedupeKey.payment_verified intent.id;
  order_id = some intent.order_id;
  payment_intent_id = some intent.id;
}

abbrev pub journal : LedgerEntry → Session → Session
journal e s = record s { ledger = (record_entry e s.ledger).1 }

-- The order follows its payment, unless it is there already.
unfoldable pub verify_order : ℕ → Option Order → Result (Option Order)
verify_order now none = ok none
verify_order now (some order) =
    if order.status == OrderStatus.payment_verified
    then ok (some order)
    else do moved ← transition now none OrderStatus.payment_verified order; ok (some moved)

abbrev pub verified_at_now : ℕ → Session → Session
verified_at_now now s =
    on_intent
      (λ i. record i { verified_at = some now; failure_reason = none; review_reason = none }) s

-- `try: … except: log`, an order that may not go to review stays as it is.
unfoldable pub review_order : ℕ → Text → Option Order → Option Order
review_order now reason none = none
review_order now reason (some order) =
    if not (OrderStatus.is_paid order.status) && not (OrderStatus.is_terminal order.status)
    then elim (transition now (some reason) OrderStatus.manual_review order) [
      | ok moved ↦ some moved
      | err _ ↦ some order
    ]
    else some order

-- `kind_map`
unfoldable pub anomaly_kind : VerificationOutcome → Option ReconciliationKind
anomaly_kind VerificationOutcome.underpaid = some ReconciliationKind.amount_mismatch
anomaly_kind VerificationOutcome.overpaid = some ReconciliationKind.amount_mismatch
anomaly_kind VerificationOutcome.wrong_network = some ReconciliationKind.wrong_network
anomaly_kind VerificationOutcome.wrong_asset = some ReconciliationKind.provider_inconsistency
anomaly_kind VerificationOutcome.duplicate = some ReconciliationKind.duplicate_transaction
anomaly_kind VerificationOutcome.outside_window = some ReconciliationKind.late_payment
anomaly_kind VerificationOutcome.memo_mismatch = some ReconciliationKind.unmatched_transaction
anomaly_kind VerificationOutcome.unsupported = some ReconciliationKind.provider_inconsistency
anomaly_kind _ = none

abbrev pub external : Option ObservedTransaction → Text
external none = codes "none"
external (some tx) = tx.external_id

unfoldable pub raise_reconciliation :
    VerificationOutcome → Option ObservedTransaction → Session → Session
unfolding anomaly_kind
raise_reconciliation outcome tx s = elim (anomaly_kind outcome) [
  | none ↦ s
  | some kind ↦ record s {
    anomalies =
        record_anomaly
          (record {
            kind = kind;
            payment_intent_id = s.intent.id;
            external = external tx;
            order_id = s.intent.order_id;
          })
          s.anomalies;
  }
]

abbrev pub counted : VerificationOutcome → Option PaymentAttempt → Option PaymentAttempt
counted outcome none = none
counted outcome (some a) =
    some (record a { verification_count = a.verification_count + 1; last_outcome = some outcome })

abbrev pub observed_on : Option ObservedTransaction → PaymentIntent → PaymentIntent
observed_on none i = i
observed_on (some tx) i = record i {
  received_amount = some (amount tx);
  received_amount_units = some tx.amount_units;
  confirmations = tx.confirmations;
}

-- What is written before the outcome is acted on. The reason of a failed attempt is left out.
unfoldable pub note_outcome :
    VerificationDecision → VerificationOutcome → Option ObservedTransaction → Session → Session
unfolding amount
note_outcome decision outcome tx s = record s {
  intent = observed_on tx (record s.intent {
    verification_attempts = s.intent.verification_attempts + 1;
    last_outcome = some outcome;
  });
  attempt = counted outcome s.attempt;
  evidence =
      s.evidence
      ++ (record { payment_intent_id = s.intent.id; outcome = outcome; checks = decision.checks })
        ∷ [];
}

abbrev pub detected : ℕ → PaymentIntent → PaymentIntent
detected now i = elim i.detected_at [ none ↦ record i { detected_at = some now } | some _ ↦ i ]
